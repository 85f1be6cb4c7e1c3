-- ===== src/Args/Written.antt =====
-- What it says of a call of `pack` that it wrote bytes, and of a call of `unpack` that it read some.
use simple_module.Base.{
  ℕ, zero, suc, ◌≤◌, ◌≡◌, refl, List, [], ◌∷◌, ◌++◌, length, arith, Bool, true, false,
  if◌then◌else◌,
}
use simple_module.Args.Scalar.{
  Packed, packed, rejected, raised, astray, Unpacked, unpacked, refused, lost, used, prepend,
  and_then, advance,
}

pub used-packed :
    (p : Packed) (bs : List ℕ) → used p ≡ packed bs → (p ≡ packed bs) × (1 ≤ length bs)
used-packed (packed []) bs h = ground arith
used-packed (packed (b ∷ cs)) bs h = ground arith
used-packed rejected bs h = ground arith
used-packed raised bs h = ground arith
used-packed astray bs h = ground arith

-- What follows from both branches of a test follows from the test.
pub if-cases {ℓ} :
    {P : Type ℓ} {A : Type 0} (b : Bool) (p q r : A)
    → (p ≡ r → P)
    → (q ≡ r → P)
    → (if b then p else q) ≡ r
    → P
if-cases true p q r one other h = one h
if-cases false p q r one other h = other h

pub rejected-packed {ℓ} : {P : Type ℓ} (bs : List ℕ) → rejected ≡ packed bs → P
rejected-packed bs h = absurd (ground arith)

pub raised-packed {ℓ} : {P : Type ℓ} (bs : List ℕ) → raised ≡ packed bs → P
raised-packed bs h = absurd (ground arith)

pub astray-packed {ℓ} : {P : Type ℓ} (bs : List ℕ) → astray ≡ packed bs → P
astray-packed bs h = absurd (ground arith)

-- The bytes of a call and of the next one.
pub record Both (p : Packed) (next : ℕ → Packed) (bs : List ℕ) : Type 0 where
  pub first : List ℕ
  pub second : List ℕ
  pub wrote : p ≡ packed first
  pub went_on : next (length first) ≡ packed second
  pub both : bs ≡ first ++ second

pub prepend-packed :
    (cs : List ℕ) (q : Packed) (bs : List ℕ)
    → prepend cs q ≡ packed bs
    → (ds : List ℕ) × (q ≡ packed ds) × (bs ≡ cs ++ ds)
prepend-packed cs (packed ds) bs h = (ds, refl, cc)
prepend-packed cs rejected bs h = ground arith
prepend-packed cs raised bs h = ground arith
prepend-packed cs astray bs h = ground arith

pub and_then-packed :
    (p : Packed) (next : ℕ → Packed) (bs : List ℕ) → and_then p next ≡ packed bs → Both p next bs
and_then-packed (packed cs) next bs h =
    let (ds, q, e) = prepend-packed cs (next (length cs)) bs h in
    record { first = cs; second = ds; wrote = refl; went_on = q; both = e }
and_then-packed rejected next bs h = absurd (ground arith)
and_then-packed raised next bs h = absurd (ground arith)
and_then-packed astray next bs h = absurd (ground arith)

module _ {V : Type 0} where
  pub record Advanced {W : Type 0} (u : Unpacked V) (next : V → ℕ → Unpacked W) (w : W) (n : ℕ)
      : Type 0 where
    pub value : V
    pub len : ℕ
    pub read : u ≡ unpacked value len
    pub some_read : 1 ≤ len
    pub went_on : next value len ≡ unpacked w n

  pub advance-unpacked :
      {W : Type 0} (u : Unpacked V) (next : V → ℕ → Unpacked W) (w : W) (n : ℕ)
      → advance u next ≡ unpacked w n
      → Advanced u next w n
  advance-unpacked (unpacked v zero) next w n h = absurd (ground arith)
  advance-unpacked (unpacked v (suc len)) next w n h = record {
    value = v;
    len = suc len;
    read = refl;
    some_read = omega arith;
    went_on = h;
  }
  advance-unpacked refused next w n h = absurd (ground arith)
  advance-unpacked lost next w n h = absurd (ground arith)

  -- A call that read something is gone on from.
  pub advance_some :
      {W : Type 0} (v : V) (len : ℕ) (next : V → ℕ → Unpacked W)
      → 1 ≤ len
      → advance (unpacked v len) next ≡ next v len
  advance_some v zero next h = absurd (omega arith)
  advance_some v (suc len) next h = refl
