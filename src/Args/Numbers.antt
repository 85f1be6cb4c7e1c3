-- ===== src/Args/Numbers.antt =====
-- `fcall_number_arg` and the packers of fixed width: their bytes, read again.
use simple_module.Base.{
  ℕ, suc, ◌+◌, ◌*◌, ◌/◌, ◌%◌, ◌^◌, ◌≤◌, ◌<◌, ◌≡◌, refl, ap₂, ◌∙◌, true, false, List, ◌∷◌, ◌++◌, ltb,
  leb, ◌==◌, ◌||◌, if◌then◌else◌, length, arith, length-append, take-append_self, inl, inr,
  lt_or_le,
}
use simple_module.Base.Word.{
  le_bytes, le_value, length-le_bytes, le_value-le_bytes1, le_value-le_bytes2, le_value-le_bytes3,
  le_value-le_bytes4,
}
use simple_module.Args.Scalar.{
  unpacked, number_bytes, read_number, read_fixed, neg32, magnitude, number_len, is_negative,
}

magnitude-lt : (w : ℕ) → w < 2 ^ 32 → magnitude w < 2 ^ 32
magnitude-lt w h = ground arith

number_len-bounds : (m : ℕ) → (1 ≤ number_len m) × (number_len m ≤ 4)
number_len-bounds m = ground arith

le→leb : (a b : ℕ) → a ≤ b → leb a b ≡ true
le→leb a b h = ground arith

lt→leb : (a b : ℕ) → b < a → leb a b ≡ false
lt→leb a b h = ground arith

-- From two bytes on.
le_value-number_len2 :
    (m : ℕ)
    → m < 2 ^ 32
    → le_value (le_bytes (if leb m 0xffff then 2 else if leb m 0xffffff then 3 else 4) m) ≡ m
le_value-number_len2 m h = elim (lt_or_le 0xffff m) [
  | inr b ↦ rw (le→leb m 0xffff b) (le_value-le_bytes2 m (omega arith))
  | inl b ↦ elim (lt_or_le 0xffffff m) [
    | inr c ↦ rw (lt→leb m 0xffff b, le→leb m 0xffffff c) (le_value-le_bytes3 m (omega arith))
    | inl c ↦ rw (lt→leb m 0xffff b, lt→leb m 0xffffff c) (le_value-le_bytes4 m h)
  ]
]

-- The length that is chosen holds the number.
le_value-number_len : (m : ℕ) → m < 2 ^ 32 → le_value (le_bytes (number_len m) m) ≡ m
le_value-number_len m h = elim (lt_or_le 0xff m) [
  | inr a ↦ rw (le→leb m 0xff a) (le_value-le_bytes1 m (omega arith))
  | inl a ↦ rw (lt→leb m 0xff a) (le_value-number_len2 m h)
]

module _ {V : Type 0} (push : ℕ → V) where
  -- A sign, a length and bytes as `number_type` lays them out.
  read_number_parts :
      (s k m : ℕ) (rest : List ℕ)
      → s < 2
      → 1 ≤ k
      → k ≤ 4
      → read_number push ((s + 2 * k) ∷ (le_bytes k m ++ rest))
        ≡ unpacked
            (push (if s == 1 then neg32 (le_value (le_bytes k m)) else le_value (le_bytes k m)))
            (1 + k)
  unfolding read_number
  read_number_parts s k m rest hs lo hi =
      rw
        (
          half,
          parity,
          take-append_self k (le_bytes k m) rest (length-le_bytes k m),
          in_range,
          enough,
        )
        refl
    where
      half : (s + 2 * k) / 2 ≡ k
      half = omega arith

      parity : (s + 2 * k) % 2 ≡ s
      parity = omega arith

      in_range : (leb k 0 || leb 5 k) ≡ false
      in_range = ground arith

      enough : ltb (suc (length (le_bytes k m ++ rest))) (1 + k) ≡ false
      enough = ground (arith, length-append (le_bytes k m) rest, length-le_bytes k m)

  -- Every `int` is read back as itself.
  pub read_number-number_bytes :
      (w : ℕ) (rest : List ℕ)
      → w < 2 ^ 32
      → read_number push (number_bytes w ++ rest) ≡ unpacked (push w) (length (number_bytes w))
  unfolding number_bytes
  read_number-number_bytes w rest h =
      read_number_parts sign len m rest bit (number_len-bounds m).0 (number_len-bounds m).1
      ∙ rw (le_value-number_len m (magnitude-lt w h), length-le_bytes len m)
          (ap₂ (λ u n. unpacked (push u) n) value (omega arith))
    where
      m : ℕ
      m = magnitude w

      len : ℕ
      len = number_len m

      sign : ℕ
      sign = if is_negative w then 1 else 0

      bit : sign < 2
      bit = ground arith

      value : (if sign == 1 then neg32 m else m) ≡ w
      value = ground arith

  pub read_fixed-le_bytes :
      (k w : ℕ) (widen : ℕ → ℕ) (rest : List ℕ)
      → read_fixed push k widen (le_bytes k w ++ rest)
        ≡ unpacked (push (widen (le_value (le_bytes k w)))) k
  unfolding read_fixed
  read_fixed-le_bytes k w widen rest =
      rw (enough, take-append_self k (le_bytes k w) rest (length-le_bytes k w)) refl
    where
      enough : ltb (length (le_bytes k w ++ rest)) k ≡ false
      enough = ground (arith, length-append (le_bytes k w) rest, length-le_bytes k w)
