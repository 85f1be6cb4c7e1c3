-- ===== src/Protocol/Calls.antt =====
-- A remote call of protocol/protocol.cpp that one end writes and the other reads.
use simple_module.Base.{
  ℕ, suc, ◌+◌, ◌-◌, ◌^◌, ◌≤◌, ◌<◌, ◌≡◌, refl, sym, ap, subst, ◌∙◌, Bool, true, false, Option, some,
  List, [], ◌∷◌, ◌++◌, length, drop, arith, length-append, append_assoc, drop-append_self,
  get_elem?, ltb, ◌==◌, if◌then◌else◌, inl, inr, lt_or_le,
}
use simple_module.Base.Word.{le_bytes, le_value, le_value-le_bytes2}
use simple_module.Lua.{Lua}
use simple_module.Args.Scalar.{packed, astray, Unpacked, unpacked, used, advance, and_then}
use simple_module.Args.Written.{
  and_then-packed, used-packed, advance_some, raised-packed, prepend-packed,
}
use simple_module.Args.Alike.{IsCountable, IsReadAs}
use simple_module.Args.RoundTrip.{unpack-pack}
use simple_module.Args.{Arg, pack}
use simple_module.Protocol.{
  NetProtocol, Reply, called, script_error, id_bytes, cons_value, marshal_args, marshal,
  unpack_args, reply, unpack_call, at_proto, unpack_data,
}

module _ (lua : Lua) where
  -- Every argument is countable for its packer.
  abbrev pub AreCountable : List (Arg lua.Value) → List lua.Value → Type 0
  AreCountable (a ∷ args) (v ∷ vs) = IsCountable lua a v × AreCountable args vs
  AreCountable _ _ = Unit

  -- The second values are what is read back for the first ones, one for each packer.
  abbrev pub AreReadAs : List (Arg lua.Value) → List lua.Value → List lua.Value → Type 0
  AreReadAs [] vs [] = Unit
  AreReadAs (a ∷ args) (v ∷ vs) (w ∷ ws) = IsReadAs lua a v w × AreReadAs args vs ws
  AreReadAs _ _ _ = ⊥

  pub record ArgsBack (args : List (Arg lua.Value)) (vs : List lua.Value) (pos : ℕ)
      (bs rest : List ℕ) : Type 0 where
    pub values : List lua.Value
    pub read : unpack_args lua args pos (bs ++ rest) ≡ unpacked values (pos + length bs)
    pub alike : AreReadAs args vs values

  unpack_args-marshal_args :
      (args : List (Arg lua.Value)) (vs : List lua.Value) (room pos : ℕ) (bs rest : List ℕ)
      → AreCountable args vs
      → marshal_args lua args vs room ≡ packed bs
      → ArgsBack args vs pos bs rest
  unfolding marshal_args unpack_args
  unpack_args-marshal_args [] vs room pos bs rest fits h = record {
    values = [];
    read = ap (unpacked []) (omega (arith, empty));
    alike = tt;
  }
    where
      empty : length bs ≡ 0
      empty = ground arith
  unpack_args-marshal_args (a ∷ args) [] room pos bs rest fits h = raised-packed bs h
  unpack_args-marshal_args (a ∷ args) (v ∷ vs) room pos bs rest fits h =
      let b =
        and_then-packed (used (pack lua a v room)) (λ len. marshal_args lua args vs (room - len)) bs
          h in
      let wrote = used-packed (pack lua a v room) b.first b.wrote in
      let r = unpack-pack lua a v room b.first (b.second ++ rest) fits.0 wrote.0 in
      let more =
        unpack_args-marshal_args args vs (room - length b.first) (pos + length b.first) b.second
          rest fits.1 b.went_on in
      let next : lua.Value → ℕ → Unpacked (List lua.Value) = λ w len.
        cons_value w
          (unpack_args lua args (pos + len) (drop len (b.first ++ (b.second ++ rest)))) in
      record {
        values = r.value ∷ more.values;
        read =
            rw (b.both, append_assoc)
              (ap (λ u. advance u next) r.read
                ∙ advance_some r.value (length b.first) next wrote.1
                ∙ ap (λ left. cons_value r.value (unpack_args lua args (pos + length b.first) left))
                    (drop-append_self (length b.first) b.first (b.second ++ rest) refl)
                ∙ ap (cons_value r.value) more.read
                ∙ ap (unpacked (r.value ∷ more.values))
                    (omega (arith, length-append b.first b.second)));
        alike = (r.alike, more.alike);
      }

  not_zero : (id : ℕ) → 1 ≤ id → (id == 0) ≡ false
  not_zero id l = ground arith

  short : (id : ℕ) → id < 256 → id_bytes id ≡ id ∷ []
  short id l = ground arith

  long : (id : ℕ) → 256 ≤ id → id_bytes id ≡ 0 ∷ le_bytes 2 id
  long id l = ground arith

  -- What `marshal` wrote: the id, and the arguments.
  marshal-parts :
      (proto : NetProtocol lua.Value) (vs : List lua.Value) (room : ℕ) (bs : List ℕ)
      → 1 ≤ proto.id
      → marshal lua proto vs room ≡ packed bs
      → (second : List ℕ) × (marshal_args lua proto.args vs (room - length (id_bytes proto.id))
          ≡ packed second)
        × (bs ≡ id_bytes proto.id ++ second)
  unfolding marshal
  marshal-parts proto vs room bs low h =
      prepend-packed (id_bytes proto.id)
        (marshal_args lua proto.args vs (room - length (id_bytes proto.id))) bs
        (subst
          (λ t.
            (if t
              then astray
              else and_then (packed (id_bytes proto.id))
                  (λ len. marshal_args lua proto.args vs (room - len)))
            ≡ packed bs)
          (not_zero proto.id low) h)

  module _ (call : List lua.Value → Bool) where
    -- The remote function was called with these values, after `n` bytes had been read.
    abbrev pub answer : List lua.Value → ℕ → Reply lua.Value
    answer ws n = if call ws then called ws n else script_error ws

    pub record CallBack (proto : NetProtocol lua.Value) (vs : List lua.Value) (n : ℕ)
        (r : Reply lua.Value) : Type 0 where
      pub values : List lua.Value
      pub alike : AreReadAs proto.args vs values
      pub replied : r ≡ answer values n

    at_proto-CallBack :
        (o : Option (NetProtocol lua.Value)) (proto : NetProtocol lua.Value) (vs : List lua.Value)
        (room pos n : ℕ) (bs rest : List ℕ)
        → o ≡ some proto
        → proto.has_unpack_ref ≡ true
        → AreCountable proto.args vs
        → marshal_args lua proto.args vs room ≡ packed bs
        → pos + length bs ≡ n
        → CallBack proto vs n (at_proto lua call o pos (bs ++ rest))
    unfolding unpack_call
    at_proto-CallBack o proto vs room pos n bs rest found bound fits h size =
        let r = unpack_args-marshal_args proto.args vs room 0 bs rest fits h in
        record {
          values = r.values;
          alike = r.alike;
          replied =
              rw (found, bound)
                (ap (reply lua call pos) r.read ∙ ap (answer r.values) (omega (arith, size)));
        }

    -- What `marshal` writes for the values of a call `unpack_data` reads, with anything behind it, as a call of
    -- the protocol's function with those values (see `AreReadAs`), and it reads just what was written: if the
    -- id of the protocol is a number from 1 to 65535 and its place in the list, the function is there, and
    -- every argument is countable for its packer.
    pub unpack_data-marshal :
        (protos : List (NetProtocol lua.Value)) (proto : NetProtocol lua.Value)
        (vs : List lua.Value) (room : ℕ) (bs rest : List ℕ)
        → get_elem? protos proto.id ≡ some proto
        → 1 ≤ proto.id
        → proto.id < 2 ^ 16
        → proto.has_unpack_ref ≡ true
        → AreCountable proto.args vs
        → marshal lua proto vs room ≡ packed bs
        → CallBack proto vs (length bs) (unpack_data lua call protos (bs ++ rest))
    unfolding marshal unpack_data
    unpack_data-marshal protos proto vs room bs rest found low high bound fits h =
        let (second, went_on, both) = marshal-parts proto vs room bs low h in
        let left = room - length (id_bytes proto.id) in
        let back : List ℕ → Type 0 =
          λ cs. CallBack proto vs (length cs) (unpack_data lua call protos (cs ++ rest)) in
        elim (lt_or_le proto.id 256) [
          | inl a ↦ subst back (sym (both ∙ ap (λ p. p ++ second) (short proto.id a))) (
              rw (not_zero proto.id low) (
                at_proto-CallBack (get_elem? protos proto.id) proto vs left 1 (suc (length second))
                  second rest found bound fits went_on (omega arith)))
          | inr a ↦ subst back (sym (both ∙ ap (λ p. p ++ second) (long proto.id a))) (
              rw (not_short second) (
                at_proto-CallBack (get_elem? protos (le_value (le_bytes 2 proto.id))) proto vs left
                  3 (suc (suc (suc (length second)))) second rest
                  (ap (get_elem? protos) (le_value-le_bytes2 proto.id high) ∙ found) bound fits
                  went_on (omega arith)))
        ]
      where
        not_short : (second : List ℕ) → ltb (suc (suc (length (second ++ rest)))) 2 ≡ false
        not_short second = ground arith
