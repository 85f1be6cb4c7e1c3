-- ===== src/Protocol/Multicast.antt =====
-- What a call to many receivers is sent as.
use simple_module.Base.{
  ℕ, zero, suc, ◌-◌, ◌*◌, ◌/◌, ◌≡◌, refl, sym, ap, subst, concat, ◌++◌, ◌∙◌, true, false, some,
  List, [], ◌∷◌, map, inl, inr, leb, ◌==◌, if◌then◌else◌, length, take, Bool-cases, arith,
  length-append,
}
use simple_module.Base.Word.{le_bytes, length-le_bytes}
use simple_module.Lua.{Lua}
use simple_module.Args.Scalar.{packed}
use simple_module.Protocol.{NetProtocol, marshal}
use simple_module.Protocol.Sending.{
  Sending, PackEnd, sent, nothing_sent, multicast, collect, cons_to, vfd_bytes, send_to_all,
  send_to_many, max_to_netd, pack_call,
}

-- The receivers that are not 0.
abbrev pub live : List ℕ → List ℕ
live [] = []
live (v ∷ vs) = if v == 0 then live vs else v ∷ live vs

take_nil : (n : ℕ) → take {A = ℕ} n [] ≡ []
take_nil zero = refl
take_nil (suc n) = refl

take_zero : (n : ℕ) (xs : List ℕ) → n ≡ 0 → take n xs ≡ []
take_zero zero xs e = refl
take_zero (suc n) xs e = absurd (omega (arith, e))

take-suc : (n m x : ℕ) (xs : List ℕ) → n ≡ suc m → take n (x ∷ xs) ≡ x ∷ take m xs
take-suc n m x xs e = ap (λ k. take k (x ∷ xs)) e

collect_lem :
    (xs : List ℕ) (room : ℕ) → collect (map some xs) room ≡ some (take (room / 4) (live xs))
unfolding collect
collect_lem [] room = ap some (sym (take_nil (room / 4)))
collect_lem (v ∷ vs) room = elim (Bool-cases (v == 0)) [
  | inl e ↦ rw (e) (collect_lem vs room)
  | inr e ↦ elim (Bool-cases (leb 4 room)) [
    | inl l ↦
        rw (e, l)
          (ap (cons_to v) (collect_lem vs (room - 4))
            ∙ ap some (sym (take-suc (room / 4) ((room - 4) / 4) v (live vs) (quarter l))))
    | inr l ↦
        rw (e, l)
          (collect_lem vs room
            ∙ ap some (
                take_zero (room / 4) (live vs) (no_quarter l)
                ∙ sym (take_zero (room / 4) (v ∷ live vs) (no_quarter l))))
  ]
]
  where
    quarter : leb 4 room ≡ true → room / 4 ≡ suc ((room - 4) / 4)
    quarter l = ground arith

    no_quarter : leb 4 room ≡ false → room / 4 ≡ 0
    no_quarter l = ground arith

pub length-vfd_bytes : (vs : List ℕ) → length (vfd_bytes vs) ≡ 4 * length vs
length-vfd_bytes [] = omega arith
length-vfd_bytes (v ∷ vs) =
    omega
      (arith, length-append (le_bytes 4 v) (vfd_bytes vs), length-le_bytes 4 v, length-vfd_bytes vs)

-- How a payload goes to these receivers: not at all if there are none, and otherwise as one multicast of the
-- payload with four bytes behind it for each receiver, with their number and the payload's length.
abbrev pub SentTo : List ℕ → List ℕ → PackEnd → Type 0
SentTo payload [] end = end ≡ nothing_sent
SentTo payload (v ∷ vs) end =
    (s : Sending) × (end ≡ sent s)
    × (s.data_sent ≡ payload ++ concat (map (le_bytes 4) (v ∷ vs)))
    × (s.ext ≡ length (v ∷ vs))
    × (s.ismulticast ≡ true)
    × (s.mcpayloadlen ≡ length payload)

vfd_bytes-concat : (vs : List ℕ) → vfd_bytes vs ≡ concat (map (le_bytes 4) vs)
vfd_bytes-concat [] = refl
vfd_bytes-concat (v ∷ vs) = ap (λ bs. le_bytes 4 v ++ bs) (vfd_bytes-concat vs)

send_to_all-SentTo : (payload vs : List ℕ) → SentTo payload vs (send_to_all payload (some vs))
send_to_all-SentTo payload [] = refl
send_to_all-SentTo payload (v ∷ vs) = (
  record {
    data_sent = payload ++ vfd_bytes (v ∷ vs);
    ext = length (v ∷ vs);
    ismulticast = true;
    mcpayloadlen = length payload;
  },
  refl,
  ap (λ bs. payload ++ bs) (vfd_bytes-concat (v ∷ vs)),
  refl,
  refl,
  refl,
)

module _ (lua : Lua) where
  pack_call-send_to_all :
      (proto : NetProtocol lua.Value) (xs : List ℕ) (vs : List lua.Value) (b : ℕ) (bs : List ℕ)
      → marshal lua proto vs max_to_netd ≡ packed (b ∷ bs)
      → pack_call lua proto (multicast (map some xs)) vs
        ≡ send_to_all (b ∷ bs) (some (take ((max_to_netd - length (b ∷ bs)) / 4) (live xs)))
  unfolding pack_call
  pack_call-send_to_all proto [] vs b bs e =
      sym (ap (λ l. send_to_all (b ∷ bs) (some l)) (take_nil ((max_to_netd - length (b ∷ bs)) / 4)))
  pack_call-send_to_all proto (x ∷ xs) vs b bs e =
      ap (send_to_many (some x ∷ map some xs)) e
      ∙ ap (send_to_all (b ∷ bs)) (collect_lem (x ∷ xs) (max_to_netd - length (b ∷ bs)))

  -- A call to a table of numbers whose arguments are marshalled into at least a byte: the payload goes to as
  -- many of the first receivers other than 0 as there is room for behind it in 32768 bytes, in their order.
  -- The send hook gets the payload with four bytes for each of them, low byte first, their number, the mark
  -- of a multicast and the payload's length; if there are none, it is not called.
  pub pack_call-multicast :
      (proto : NetProtocol lua.Value) (xs : List ℕ) (vs : List lua.Value) (b : ℕ) (bs : List ℕ)
      → marshal lua proto vs max_to_netd ≡ packed (b ∷ bs)
      → SentTo
          (b ∷ bs)
          (take ((32768 - length (b ∷ bs)) / 4) (live xs))
          (pack_call lua proto (multicast (map some xs)) vs)
  pack_call-multicast proto xs vs b bs e =
      let to = take ((32768 - length (b ∷ bs)) / 4) (live xs) in
      subst (SentTo (b ∷ bs) to) (sym (pack_call-send_to_all proto xs vs b bs e))
        (send_to_all-SentTo (b ∷ bs) to)
