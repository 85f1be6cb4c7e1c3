-- ===== src/Args/Strings.antt =====
-- `fcall_string_arg`: its bytes, read again; and what a call that writes bytes says.
use simple_module.Base.{
  ℕ, suc, ◌+◌, ◌-◌, ◌*◌, ◌/◌, ◌%◌, ◌^◌, ◌≤◌, ◌<◌, ◌≡◌, refl, ap, ◌∙◌, false, List, ◌∷◌, ◌++◌, ltb,
  ◌==◌, length, arith, length-append, take-append_self, ◌⊎◌, inl, inr,
}
use simple_module.Base.Word.{le_bytes}
use simple_module.Args.Scalar.{
  packed, unpacked, checked, string_bytes, read_long_string, read_string,
}

-- What is written fits.
pub checked-packed :
    (bs cs : List ℕ) (room : ℕ) → checked bs room ≡ packed cs → (bs ≡ cs) × (length cs ≤ room)
checked-packed bs cs room h = ground arith

string_bytes-cases :
    (s bs : List ℕ) (room : ℕ)
    → string_bytes s room ≡ packed bs
    → (bs ≡ (length s + 1) ∷ s)
      ⊎ ((length s + 1 < 2 ^ 16) × (bs ≡ 0 ∷ (le_bytes 2 (length s + 1) ++ s)))
unfolding string_bytes
string_bytes-cases s bs room h = ground (
  arith,
  checked-packed ((length s + 1) ∷ s) bs room,
  checked-packed (0 ∷ (le_bytes 2 (length s + 1) ++ s)) bs room,
)

pub string_bytes-le :
    (s bs : List ℕ) (room : ℕ) → string_bytes s room ≡ packed bs → length bs ≤ room
unfolding string_bytes
string_bytes-le s bs room h = ground (
  arith,
  checked-packed ((length s + 1) ∷ s) bs room,
  checked-packed (0 ∷ (le_bytes 2 (length s + 1) ++ s)) bs room,
)

module _ {V : Type 0} (push : List ℕ → V) where
  read_short :
      (s rest : List ℕ)
      → read_string push ((length s + 1) ∷ (s ++ rest)) ≡ unpacked (push s) (length s + 1)
  unfolding read_string
  read_short s rest =
      rw (not_zero, enough, one, take-append_self (length s) s rest refl)
        (ap (unpacked (push s)) (omega arith))
    where
      not_zero : (length s + 1 == 0) ≡ false
      not_zero = ground arith

      one : length s + 1 - 1 ≡ length s
      one = omega arith

      enough : ltb (suc (length (s ++ rest))) (1 + (length s + 1 - 1)) ≡ false
      enough = ground (arith, length-append s rest)

  read_long :
      (s rest : List ℕ)
      → length s + 1 < 2 ^ 16
      → read_string push (0 ∷ (le_bytes 2 (length s + 1) ++ (s ++ rest)))
        ≡ unpacked (push s) (length s + 3)
  unfolding read_string read_long_string
  read_long s rest h =
      rw (value, not_zero, three, enough, one, take-append_self (length s) s rest refl)
        (ap (unpacked (push s)) (omega arith))
    where
      value :
          (length s + 1) % 2 ^ 8 + 2 ^ 8 * ((length s + 1) / 2 ^ 8 % 2 ^ 8 + 2 ^ 8 * 0)
          ≡ length s + 1
      value = omega arith

      not_zero : (length s + 1 == 0) ≡ false
      not_zero = ground arith

      one : length s + 1 - 1 ≡ length s
      one = omega arith

      enough : ltb (suc (suc (suc (length (s ++ rest))))) (3 + (length s + 1 - 1)) ≡ false
      enough = ground (arith, length-append s rest)

      three : ltb (suc (suc (suc (length (s ++ rest))))) 3 ≡ false
      three = ground arith

  -- Every string that is written is read back, in the short form and in the long one.
  pub read_string-string_bytes :
      (s bs rest : List ℕ) (room : ℕ)
      → string_bytes s room ≡ packed bs
      → read_string push (bs ++ rest) ≡ unpacked (push s) (length bs)
  read_string-string_bytes s bs rest room h = elim (string_bytes-cases s bs room h) [
    | inl e ↦ rw (e) (read_short s rest ∙ ap (unpacked (push s)) (omega arith))
    | inr e ↦ rw (e.1) (read_long s rest e.0 ∙ ap (unpacked (push s)) (omega arith))
  ]
