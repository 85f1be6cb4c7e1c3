-- ===== src/Protocol/Places.antt =====
-- The addresses of the objects in `_s_protos` of protocol/protocol.cpp.
use simple_module.Base.{
  ℕ, zero, suc, ◌<◌, ◌≡◌, ◌≢◌, sym, subst, none, some, List, [], ◌∷◌, ◌++◌, get_elem?, All, arith,
}
use simple_module.Protocol.Manager.{put_at}

abbrev pub AreApart : List ℕ → Type 0
AreApart [] = Unit
AreApart (p ∷ ps) = All (λ q. q ≢ p) ps × AreApart ps

pub All-get_elem? :
    (P : ℕ → Type 0) (ps : List ℕ) (i a : ℕ) → All P ps → get_elem? ps i ≡ some a → P a
All-get_elem? P [] i a h e = absurd (none-some e)
  where
    none-some : none ≡ some a → ⊥
    none-some f = cc
All-get_elem? P (p ∷ ps) zero a h e = subst P (same e) h.0
  where
    same : some p ≡ some a → p ≡ a
    same f = cc
All-get_elem? P (p ∷ ps) (suc i) a h e = All-get_elem? P ps i a h.1 e

pub AreApart-append :
    (ps : List ℕ) (n : ℕ) → AreApart ps → All (λ q. q < n) ps → AreApart (ps ++ (n ∷ []))
AreApart-append [] n h l = (tt, tt)
AreApart-append (p ∷ ps) n h l =
    (last ps p h.0 (λ e. omega (arith, e, l.0)), AreApart-append ps n h.1 l.1)
  where
    last : (qs : List ℕ) (q : ℕ) → All (λ x. x ≢ q) qs → n ≢ q → All (λ x. x ≢ q) (qs ++ (n ∷ []))
    last [] q a b = (b, tt)
    last (x ∷ qs) q a b = (a.0, last qs q a.1 b)

pub All-put_at : (P : ℕ → Type 0) (ps : List ℕ) (i n : ℕ) → All P ps → P n → All P (put_at i n ps)
All-put_at P [] i n h new = tt
All-put_at P (p ∷ ps) zero n h new = (new, h.1)
All-put_at P (p ∷ ps) (suc i) n h new = (h.0, All-put_at P ps i n h.1 new)

pub AreApart-put_at :
    (ps : List ℕ) (i n : ℕ) → AreApart ps → All (λ q. q < n) ps → AreApart (put_at i n ps)
AreApart-put_at [] i n h l = tt
AreApart-put_at (p ∷ ps) zero n h l = (unlike ps l.1, h.1)
  where
    unlike : (qs : List ℕ) → All (λ q. q < n) qs → All (λ q. q ≢ n) qs
    unlike [] k = tt
    unlike (q ∷ qs) k = ((λ e. omega (arith, e, k.0)), unlike qs k.1)
AreApart-put_at (p ∷ ps) (suc i) n h l = (
  All-put_at (λ q. q ≢ p) ps i n h.0 (λ e. omega (arith, e, l.0)),
  AreApart-put_at ps i n h.1 l.1,
)

-- What stood at the place is not in the list any more.
pub replaced_is_gone :
    (ps : List ℕ) (i a n : ℕ)
    → AreApart ps
    → get_elem? ps i ≡ some a
    → n ≢ a
    → All (λ q. q ≢ a) (put_at i n ps)
replaced_is_gone [] i a n h e d = tt
replaced_is_gone (p ∷ ps) zero a n h e d = (d, subst (λ x. All (λ q. q ≢ x) ps) (same e) h.0)
  where
    same : some p ≡ some a → p ≡ a
    same f = cc
replaced_is_gone (p ∷ ps) (suc i) a n h e d =
    ((λ f. All-get_elem? (λ q. q ≢ p) ps i a h.0 e (sym f)), replaced_is_gone ps i a n h.1 e d)
