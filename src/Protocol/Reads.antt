-- ===== src/Protocol/Reads.antt =====
-- How much `unpack_data` of protocol/protocol.cpp reads, beside the length of what was received.
use simple_module.Base.{
  ℕ, ◌+◌, ◌≤◌, ◌≡◌, refl, Bool, Option, some, none, List, [], ◌∷◌, length, drop, take, arith,
  length-drop, get_elem?,
}
use simple_module.Base.Word.{le_value}
use simple_module.Lua.{Lua}
use simple_module.Args.Scalar.{Unpacked, unpacked, refused, lost}
use simple_module.Args.Written.{if-cases, advance-unpacked}
use simple_module.Args.Reads.{unpack-le}
use simple_module.Args.{Arg, unpack}
use simple_module.Protocol.{
  NetProtocol, called, bad_format, cons_value, unpack_args, reply, unpack_call, at_proto,
  unpack_data,
}

cons_value-unpacked :
    {V : Type 0} (v : V) (u : Unpacked (List V)) (ws : List V) (n : ℕ)
    → cons_value v u ≡ unpacked ws n
    → (us : List V) × (u ≡ unpacked us n)
cons_value-unpacked v (unpacked us m) ws n h = (us, cc)
cons_value-unpacked v refused ws n h = absurd (ground arith)
cons_value-unpacked v lost ws n h = absurd (ground arith)

module _ (lua : Lua) where
  unpack_args-le :
      (args : List (Arg lua.Value)) (pos : ℕ) (buf : List ℕ) (ws : List lua.Value) (n : ℕ)
      → unpack_args lua args pos buf ≡ unpacked ws n
      → n ≤ pos + length buf
  unfolding unpack_args
  unpack_args-le [] pos buf ws n h = ground arith
  unpack_args-le (a ∷ args) pos buf ws n h =
      let r =
        advance-unpacked (unpack lua a buf)
          (λ v len. cons_value v (unpack_args lua args (pos + len) (drop len buf))) ws n h in
      let more =
        cons_value-unpacked r.value (unpack_args lua args (pos + r.len) (drop r.len buf)) ws n
          r.went_on in
      omega (
        arith,
        unpack-le lua a buf r.value r.len r.read,
        length-drop r.len buf,
        unpack_args-le args (pos + r.len) (drop r.len buf) more.0 n more.1,
      )

  module _ (call : List lua.Value → Bool) where
    reply-le :
        (pos room : ℕ) (u : Unpacked (List lua.Value)) (ws : List lua.Value) (n : ℕ)
        → ((us : List lua.Value) (m : ℕ) → u ≡ unpacked us m → m ≤ room)
        → reply lua call pos u ≡ called ws n
        → n ≤ pos + room
    reply-le pos room (unpacked us m) ws n inside h = ground (arith, inside us m refl)
    reply-le pos room refused ws n inside h = absurd (ground arith)
    reply-le pos room lost ws n inside h = absurd (ground arith)

    at_proto-le :
        (o : Option (NetProtocol lua.Value)) (pos : ℕ) (buf : List ℕ) (ws : List lua.Value) (n : ℕ)
        → at_proto lua call o pos buf ≡ called ws n
        → n ≤ pos + length buf
    unfolding unpack_call
    at_proto-le none pos buf ws n h = absurd (ground arith)
    at_proto-le (some proto) pos buf ws n h =
        if-cases proto.has_unpack_ref (reply lua call pos (unpack_args lua proto.args 0 buf))
          bad_format (called ws n)
          (reply-le pos (length buf) (unpack_args lua proto.args 0 buf) ws n
            (λ us m e. omega (arith, unpack_args-le proto.args 0 buf us m e)))
          (λ e. absurd (ground arith)) h

    -- Whatever was received and whatever the protocols are: the number of bytes that a call is said to have
    -- taken is no more than there were.
    pub unpack_data-le :
        (protos : List (NetProtocol lua.Value)) (buf : List ℕ) (ws : List lua.Value) (n : ℕ)
        → unpack_data lua call protos buf ≡ called ws n
        → n ≤ length buf
    unfolding unpack_data
    unpack_data-le protos [] ws n h = absurd (ground arith)
    unpack_data-le protos (b ∷ bs) ws n h = ground (
      arith,
      at_proto-le (get_elem? protos (le_value (take 2 bs))) 3 (drop 2 bs) ws n,
      at_proto-le (get_elem? protos b) 1 bs ws n,
      length-drop 2 bs,
    )
