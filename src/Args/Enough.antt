-- ===== src/Args/Enough.antt =====
-- What it says of a call of `pack` of protocol/data_format.cpp that it writes into all the room it needs.
use simple_module.Base.{
  ℕ, ◌+◌, ◌-◌, ◌≤◌, ◌<◌, ◌≡◌, ap, ◌∙◌, true, List, [], ◌∷◌, ◌++◌, length, arith, length-append, leb,
  inl, inr, Bool-cases,
}
use simple_module.Base.Word.{le_bytes}
use simple_module.Args.Scalar.{
  Packed, packed, checked, used, prepend, and_then, number_bytes, string_bytes,
}

-- The bytes that a packer writes into any room that holds them.
pub record Writes (f : ℕ → Packed) (least : ℕ) : Type 0 where
  pub bytes : List ℕ
  pub some_bytes : least ≤ length bytes
  pub enough : (room : ℕ) → length bytes ≤ room → f room ≡ packed bytes

pub checked_enough : (bs : List ℕ) (room : ℕ) → length bs ≤ room → checked bs room ≡ packed bs
checked_enough bs room h = ground arith

pub used_enough : (bs : List ℕ) (p : Packed) → 1 ≤ length bs → p ≡ packed bs → used p ≡ packed bs
used_enough [] p some_bytes e = absurd (omega arith)
used_enough (b ∷ bs) p some_bytes e = ap used e

pub number_bytes_some : (n : ℕ) → 1 ≤ length (number_bytes n)
unfolding number_bytes
number_bytes_some n = omega arith

-- One call and then another one write the bytes of both.
pub and_then-Writes :
    (f : ℕ → Packed) (g : ℕ → Packed) (m n : ℕ)
    → Writes f m
    → Writes g n
    → Writes (λ room. and_then (f room) (λ len. g (room - len))) (m + n)
and_then-Writes f g m n a b = record {
  bytes = a.bytes ++ b.bytes;
  some_bytes = omega (arith, length-append a.bytes b.bytes, a.some_bytes, b.some_bytes);
  enough = λ room h.
      ap (λ p. and_then p (λ len. g (room - len)))
        (a.enough room (omega (arith, h, length-append a.bytes b.bytes)))
      ∙ ap (prepend a.bytes)
          (b.enough (room - length a.bytes) (omega (arith, h, length-append a.bytes b.bytes)));
}

pub Writes-le : (f : ℕ → Packed) (m n : ℕ) → m ≤ n → Writes f n → Writes f m
Writes-le f m n l a = record {
  bytes = a.bytes;
  some_bytes = omega (arith, a.some_bytes);
  enough = a.enough;
}

pub used-Writes : (f : ℕ → Packed) → Writes f 1 → Writes (λ room. used (f room)) 1
used-Writes f a = record {
  bytes = a.bytes;
  some_bytes = a.some_bytes;
  enough = λ room h. used_enough a.bytes (f room) a.some_bytes (a.enough room h);
}

pub string_bytes-Writes : (s : List ℕ) → length s < 65535 → Writes (string_bytes s) 1
unfolding string_bytes
string_bytes-Writes s short = elim (Bool-cases (leb (length s + 1) 0xff)) [
  | inl e ↦ record {
    bytes = (length s + 1) ∷ s;
    some_bytes = omega arith;
    enough = λ room h. rw (e) (checked_enough ((length s + 1) ∷ s) room h);
  }
  | inr e ↦ record {
    bytes = 0 ∷ (le_bytes 2 (length s + 1) ++ s);
    some_bytes = omega arith;
    enough =
        λ room h. rw (e, fits_two) (checked_enough (0 ∷ (le_bytes 2 (length s + 1) ++ s)) room h);
  }
]
  where
    fits_two : leb (length s + 1) 0xffff ≡ true
    fits_two = ground arith
