-- ===== src/Args/Texts.antt =====
-- The comparison of texts, as `std::string` and `strcmp` make it in protocol/data_format.cpp and
-- protocol/protocol.cpp.
use simple_module.Base.{ℕ, ◌≡◌, ◌≢◌, refl, sym, ◌∙◌, ap, subst, true, false, List, [], ◌∷◌, arith}
use simple_module.Args.Format.{same_text}

pub same_text_self : (t : List ℕ) → same_text t t ≡ true
same_text_self [] = refl
same_text_self (c ∷ t) = ground (arith, same_text_self t)

pub same_text-eq : (s t : List ℕ) → same_text s t ≡ true → s ≡ t
same_text-eq [] [] h = refl
same_text-eq [] (c ∷ t) h = absurd (ground arith)
same_text-eq (c ∷ s) [] h = absurd (ground arith)
same_text-eq (c ∷ s) (d ∷ t) h =
    subst (λ e. c ∷ s ≡ e ∷ t) {x = c} {y = d} (ground arith)
      (ap (λ u. c ∷ u) (same_text-eq s t (ground arith)))

pub same_text-ne : (s t : List ℕ) → same_text s t ≡ false → s ≢ t
same_text-ne s t h e = absurd (true-false (sym (same_text_self s) ∙ ap (same_text s) e ∙ h))
  where
    true-false : true ≡ false → ⊥
    true-false f = cc
