-- ===== src/Packet/Frames.antt =====
-- What a stream of bags is, apart from any buffer: each bag stands behind its length.
use simple_module.Base.{
  ℕ, ◌+◌, ◌^◌, ◌≤◌, ◌<◌, ◌≡◌, refl, sym, ap, ap₂, ◌∙◌, ◌⊎◌, inl, inr, List, [], ◌∷◌, ◌++◌, arith,
  length, take, drop, All, append_assoc, length-append, take-append, take-append_self,
  drop-append_self, lt_or_le,
}
use simple_module.Base.Word.{le_bytes, le_value, le_value-le_bytes4}

unfoldable pub frame : List ℕ → List ℕ
frame m = le_bytes 4 (length m) ++ m

unfoldable pub frames : List (List ℕ) → List ℕ
frames [] = []
frames (m ∷ ms) = frame m ++ frames ms

-- The length fits the four bytes.
abbrev pub IsShort : List ℕ → Type 0
IsShort m = length m < 2 ^ 32

-- No bag is complete in it.
abbrev pub IsPartial : List ℕ → Type 0
IsPartial r = (length r < 4) ⊎ (length r < 4 + le_value (take 4 r))

pub length-frame : (m : List ℕ) → length (frame m) ≡ 4 + length m
unfolding frame
length-frame m = omega arith

-- The length that stands at the start of a stream.
pub le_value-frame : (m t : List ℕ) → IsShort m → le_value (take 4 (frame m ++ t)) ≡ length m
unfolding frame
le_value-frame m t h = le_value-le_bytes4 (length m) h

-- Streams that start with a bag each start with the same.
pub frame_injective :
    (m n s t : List ℕ) → IsShort m → IsShort n → frame m ++ s ≡ frame n ++ t → (m ≡ n) × (s ≡ t)
frame_injective m n s t h k e = (
  sym (take-append_self (length m) m s refl)
      ∙ ap (take (length m)) body
      ∙ take-append_self (length m) n t (sym same),
  sym (drop-append_self (length m) m s refl)
      ∙ ap (drop (length m)) body
      ∙ drop-append_self (length m) n t (sym same),
)
  where
    same : length m ≡ length n
    same = sym (le_value-frame m s h) ∙ ap (λ x. le_value (take 4 x)) e ∙ le_value-frame n t k

    body : m ++ s ≡ n ++ t
    body = unfold frame in ap (drop 4) e

pub frames-append : (ms ns : List (List ℕ)) → frames (ms ++ ns) ≡ frames ms ++ frames ns
unfolding frames
frames-append [] ns = refl
frames-append (m ∷ ms) ns =
    ap (◌++◌ (frame m)) (frames-append ms ns) ∙ sym (append_assoc (frame m) (frames ms) (frames ns))

-- Bags read from the front of a stream of bags are its first ones.
pub frames_prefix :
    (bags ms : List (List ℕ)) (t : List ℕ)
    → All IsShort bags
    → All IsShort ms
    → frames bags ++ t ≡ frames ms
    → (rest : List (List ℕ)) × (ms ≡ bags ++ rest) × (t ≡ frames rest)
unfolding frames
frames_prefix [] ms t h k e = (ms, refl, e)
frames_prefix (b ∷ bags) [] t h k e = absurd (
    omega (
      arith,
      ap (λ (x : List ℕ). length x) e,
      length-append (frame b ++ frames bags) t,
      length-append (frame b) (frames bags),
      length-frame b,
    ))
frames_prefix (b ∷ bags) (m ∷ ms) t h k e =
    let (same, rest) =
      frame_injective b m (frames bags ++ t) (frames ms) h.0 k.0
        (sym (append_assoc (frame b) (frames bags) t) ∙ e) in
    let (ns, split, left) = frames_prefix bags ms t h.1 k.1 rest in
    (ns, ap₂ ◌∷◌ (sym same) split, left)

-- What is left of a stream of bags when no bag is complete is shorter than a bag.
pub partial_bound :
    (r t : List ℕ) (ms : List (List ℕ)) (bound : ℕ)
    → IsPartial r
    → r ++ t ≡ frames ms
    → All (λ m. length m ≤ bound) ms
    → bound < 2 ^ 32
    → length r < 4 + bound
unfolding frames
partial_bound r t [] bound p e h k =
    omega (arith, ap (λ (x : List ℕ). length x) e, length-append r t)
partial_bound r t (m ∷ ms) bound p e h k = elim (lt_or_le (length r) 4) [
  | inl few ↦ omega arith
  | inr some_len ↦
      let len : le_value (take 4 r) ≡ length m =
        ap le_value (sym (take-append 4 r t some_len))
        ∙ ap (λ x. le_value (take 4 x)) e
        ∙ le_value-frame m (frames ms) (omega (arith, h.0)) in
      elim p [ inl few ↦ omega arith | inr less ↦ omega (arith, len, h.0) ]
]

-- A stream of bags in which none is complete is empty.
pub partial_frames : (ms : List (List ℕ)) → All IsShort ms → IsPartial (frames ms) → ms ≡ []
unfolding frames
partial_frames [] h p = refl
partial_frames (m ∷ ms) h p = absurd (
    omega (
      arith,
      p,
      h.0,
      length-append (frame m) (frames ms),
      length-frame m,
      le_value-frame m (frames ms) h.0,
    ))
