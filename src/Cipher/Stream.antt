-- ===== src/Cipher/Stream.antt =====
-- The loop of `Encrypt` and `Decrypt`: it goes byte by byte, so it can be cut anywhere, and a second
-- cipher at the same place of the same dictionary undoes it.
use simple_module.Base.{
  ℕ, zero, suc, ◌+◌, ◌≡◌, refl, sym, ap, ap₂, ◌∙◌, List, [], ◌∷◌, ◌++◌, arith, length, get_or,
  get_elem?, some, bit_xor,
}
use simple_module.Base.Word.{IsByte, IsBytes, u8}
use simple_module.Base.Bits.{bit_xor_self, bit_xor-lt}
use simple_module.Cipher.{SimpleXor, xmake, xmake_all}

-- Two ciphers at the same place of the same dictionary.
pub record SameKey (x y : SimpleXor) : Type 0 where
  pub dic : x.dic ≡ y.dic
  pub place : x.dic_i ≡ y.dic_i

pub xmake_all-append :
    (x : SimpleXor) (bs cs : List ℕ)
    → let (x', os) = xmake_all x bs in
      let (x'', ps) = xmake_all x' cs in xmake_all x (bs ++ cs) ≡ (x'', os ++ ps)
unfolding xmake_all
xmake_all-append x [] cs = refl
xmake_all-append x (b ∷ bs) cs =
    let (x', o) = xmake x b in ap (λ r. (r.0, o ∷ r.1)) (xmake_all-append x' bs cs)

pub length-xmake_all : (x : SimpleXor) (bs : List ℕ) → length (xmake_all x bs).1 ≡ length bs
unfolding xmake_all
length-xmake_all x [] = refl
length-xmake_all x (b ∷ bs) = ap suc (length-xmake_all (xmake x b).0 bs)

-- Nothing but the place changes.
pub seed_flag-xmake_all : (x : SimpleXor) (bs : List ℕ) → (xmake_all x bs).0.seed_flag ≡ x.seed_flag
unfolding xmake_all xmake
seed_flag-xmake_all x [] = refl
seed_flag-xmake_all x (b ∷ bs) = seed_flag-xmake_all (xmake x b).0 bs

-- One byte: the second cipher undoes the first, and stays beside it.
xmake_undo :
    (x y : SimpleXor) (b : ℕ)
    → SameKey x y
    → let (x', o) = xmake x b in let (y', p) = xmake y o in SameKey x' y' × (p ≡ b)
unfolding xmake
xmake_undo x y b k = (
  record { dic = k.dic; place = ap (λ i. u8 (i + 1)) k.place },
  ap₂ (λ (d : List ℕ) (i : ℕ). bit_xor (get_or d (u8 (i + 1)) 0) (bit_xor key b)) (sym k.dic)
        (sym k.place)
      ∙ bit_xor_self key b,
)
  where
    key : ℕ
    key = get_or x.dic (u8 (x.dic_i + 1)) 0

-- What one cipher has made of `bs`, the other turns back into `bs`, and both end at the same place.
pub xmake_all_undo :
    (x y : SimpleXor) (bs : List ℕ)
    → SameKey x y
    → let (x', os) = xmake_all x bs in let (y', ps) = xmake_all y os in SameKey x' y' × (ps ≡ bs)
unfolding xmake_all
xmake_all_undo x y [] k = (k, refl)
xmake_all_undo x y (b ∷ bs) k =
    let (x', o) = xmake x b in
    let (y', p) = xmake y o in
    let (k', same) = xmake_undo x y b k in
    let (k'', rest) = xmake_all_undo x' y' bs k' in (k'', ap₂ ◌∷◌ same rest)

get_or-lt : (d : List ℕ) (i : ℕ) → IsBytes d → IsByte (get_or d i 0)
get_or-lt [] i h = omega arith
get_or-lt (x ∷ d) zero h = h.0
get_or-lt (x ∷ d) (suc i) h = get_or-lt d i h.1

pub xmake_all-IsBytes :
    (x : SimpleXor) (bs : List ℕ) → IsBytes x.dic → IsBytes bs → IsBytes (xmake_all x bs).1
unfolding xmake_all xmake
xmake_all-IsBytes x [] d h = tt
xmake_all-IsBytes x (b ∷ bs) d h = (
  bit_xor-lt 8 (get_or x.dic (u8 (x.dic_i + 1)) 0) b (get_or-lt x.dic _ d) h.0,
  xmake_all-IsBytes (xmake x b).0 bs d h.1,
)

-- Byte `j` of a run is combined with the dictionary's entry `j + 1` places on, going round at 256.
get_elem?-xmake_all :
    (x : SimpleXor) (bs : List ℕ) (j b : ℕ)
    → get_elem? bs j ≡ some b
    → get_elem? (xmake_all x bs).1 j ≡ some (bit_xor (get_or x.dic (u8 (x.dic_i + 1 + j)) 0) b)
unfolding xmake_all xmake
get_elem?-xmake_all x [] j b h = cc
get_elem?-xmake_all x (c ∷ bs) zero b h =
    ap₂ (λ (k v : ℕ). some (bit_xor (get_or x.dic k 0) v)) (omega arith) (cc)
get_elem?-xmake_all x (c ∷ bs) (suc j) b h =
    get_elem?-xmake_all (xmake x c).0 bs j b h
    ∙ ap (λ (k : ℕ). some (bit_xor (get_or x.dic k 0) b)) (omega arith)
