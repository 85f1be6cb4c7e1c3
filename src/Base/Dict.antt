-- ===== src/Base/Dict.antt =====
-- `std::map` with numbers for keys, as the list of its entries in the order of the keys.
use Prim.Native.Nat.{ℕ}
use mathlib.Core.Path.{◌≡◌, refl, sym, ap, ◌∙◌}
use mathlib.Core.Logic.{◌≢◌, ◌⊎◌, inl, inr}
use native.Mathlib.Decide.{ℕ_discrete}
use mathlib.Core.Bool.{Bool, true, false}
use mathlib.Core.List.{List, [], ◌∷◌}
use mathlib.Core.Option.{Option, none, some}
use native.Mathlib.Omega.{arith}
use simple_module.Base.Tests.{ltb, ◌==◌, if◌then◌else◌}

abbrev pub Dict {ℓ} : Type ℓ → Type ℓ
Dict V = List (ℕ × V)

abbrev pub is_some {ℓ} : {A : Type ℓ} → Option A → Bool
is_some none = false
is_some (some a) = true

module _ {ℓ} {V : Type ℓ} where
  unfoldable pub lookup : ℕ → Dict V → Option V
  lookup k [] = none
  lookup k ((j, v) ∷ d) = if k == j then some v else lookup k d

  -- `count(k)`
  abbrev pub contains : ℕ → Dict V → Bool
  contains k d = is_some (lookup k d)

  -- `d[k] = v`
  unfoldable pub insert : ℕ → V → Dict V → Dict V
  insert k v [] = (k, v) ∷ []
  insert k v ((j, w) ∷ d) =
      if k == j then (k, v) ∷ d else if ltb k j then (k, v) ∷ (j, w) ∷ d else (j, w) ∷ insert k v d

  unfoldable pub erase : ℕ → Dict V → Dict V
  erase k [] = []
  erase k ((j, v) ∷ d) = if k == j then erase k d else (j, v) ∷ erase k d

  abbrev pub keys : Dict V → List ℕ
  keys [] = []
  keys ((k, v) ∷ d) = k ∷ keys d

  pub lookup-insert :
      (j k : ℕ) (v : V) (d : Dict V)
      → lookup j (insert k v d) ≡ (if j == k then some v else lookup j d)
  unfolding lookup insert
  lookup-insert j k v [] = refl
  lookup-insert j k v ((i, w) ∷ d) = ground (arith, lookup-insert j k v d)

  pub lookup-erase :
      (j k : ℕ) (d : Dict V) → lookup j (erase k d) ≡ (if j == k then none else lookup j d)
  unfolding lookup erase
  lookup-erase j k [] = ground arith
  lookup-erase j k ((i, w) ∷ d) = ground (arith, lookup-erase j k d)

  pub lookup-erase_self : (k : ℕ) (d : Dict V) → lookup k (erase k d) ≡ none
  lookup-erase_self k d = ground (arith, lookup-erase k k d)

  pub lookup-erase_ne : {j k : ℕ} (d : Dict V) → j ≢ k → lookup j (erase k d) ≡ lookup j d
  lookup-erase_ne {j} {k} d h = ground (arith, lookup-erase j k d)

  pub lookup-erase-eq_some :
      (j k : ℕ) (d : Dict V) {v : V}
      → lookup j (erase k d) ≡ some v
      → (j ≢ k) × (lookup j d ≡ some v)
  lookup-erase-eq_some j k d h = elim (ℕ_discrete j k) [
    | yes e ↦ absurd (ground (arith, lookup-erase j k d))
    | no ne ↦ (ne, sym (lookup-erase_ne d ne) ∙ h)
  ]

  pub lookup-insert_self : (k : ℕ) (v : V) (d : Dict V) → lookup k (insert k v d) ≡ some v
  lookup-insert_self k v d = ground (arith, lookup-insert k k v d)

  pub lookup-insert_ne :
      {j k : ℕ} (v : V) (d : Dict V) → j ≢ k → lookup j (insert k v d) ≡ lookup j d
  lookup-insert_ne {j} {k} v d h = ground (arith, lookup-insert j k v d)

  pub lookup-erase-eq_none :
      (j k : ℕ) (d : Dict V) → lookup j d ≡ none → lookup j (erase k d) ≡ none
  lookup-erase-eq_none j k d h = ground (arith, lookup-erase j k d)

  pub lookup-insert-eq_some :
      (j k : ℕ) (v : V) (d : Dict V) {x : V}
      → lookup j (insert k v d) ≡ some x
      → ((j ≡ k) × (v ≡ x)) ⊎ ((j ≢ k) × (lookup j d ≡ some x))
  lookup-insert-eq_some j k v d h = elim (ℕ_discrete j k) [
    | yes e ↦ inl (
      e,
      some_injective (sym (ap (λ i. lookup i (insert k v d)) e ∙ lookup-insert_self k v d) ∙ h),
    )
    | no ne ↦ inr (ne, sym (lookup-insert_ne v d ne) ∙ h)
  ]
    where
      some_injective : {a b : V} → some a ≡ some b → a ≡ b
      some_injective e = cc

  pub lookup-insert-eq_none :
      (j k : ℕ) (v : V) (d : Dict V)
      → lookup j (insert k v d) ≡ none
      → (j ≢ k) × (lookup j d ≡ none)
  lookup-insert-eq_none j k v d h = elim (ℕ_discrete j k) [
    | yes e ↦
        absurd (apart (sym h ∙ ap (λ i. lookup i (insert k v d)) e ∙ lookup-insert_self k v d))
    | no ne ↦ (ne, sym (lookup-insert_ne v d ne) ∙ h)
  ]
    where
      apart : {a : V} → none ≡ some a → ⊥
      apart e = cc
