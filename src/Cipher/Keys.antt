-- ===== src/Cipher/Keys.antt =====
-- `SetSeed`: what the dictionary holds afterwards.
use simple_module.Base.{
  ℕ, zero, suc, ◌+◌, ◌≡◌, refl, sym, ap, ◌∙◌, List, [], ◌∷◌, ◌++◌, arith, length, set, append_assoc,
  length-append,
}
use simple_module.Base.Word.{u8, IsBytes}
use simple_module.Cipher.{SimpleXor, dic_size, next_seed, fill_dic, set_seed}

-- The key stream of a seed: the low bytes of the numbers that `next_seed` makes of it, one by one.
unfoldable pub keys : ℕ → ℕ → List ℕ
keys zero seed = []
keys (suc n) seed = u8 seed ∷ keys n (next_seed seed)

pub length-keys : (n seed : ℕ) → length (keys n seed) ≡ n
unfolding keys
length-keys zero seed = refl
length-keys (suc n) seed = ap suc (length-keys n (next_seed seed))

pub keys-IsBytes : (n seed : ℕ) → IsBytes (keys n seed)
unfolding keys
keys-IsBytes zero seed = tt
keys-IsBytes (suc n) seed = (omega arith, keys-IsBytes n (next_seed seed))

set-append :
    (done rest : List ℕ) (i x v : ℕ)
    → length done ≡ i
    → set (done ++ x ∷ rest) i v ≡ done ++ v ∷ rest
set-append [] rest zero x v e = refl
set-append [] rest (suc i) x v e = absurd (omega arith)
set-append (d ∷ done) rest zero x v e = absurd (omega arith)
set-append (d ∷ done) rest (suc i) x v e = ap (◌∷◌ d) (set-append done rest i x v (omega arith))

-- The loop overwrites the entries that are left, whatever they hold.
fill_dic-keys :
    (done rest : List ℕ) (i seed : ℕ)
    → length done ≡ i
    → fill_dic (length rest) i seed (done ++ rest) ≡ done ++ keys (length rest) seed
unfolding fill_dic keys
fill_dic-keys done [] i seed e = refl
fill_dic-keys done (x ∷ rest) i seed e =
    ap (fill_dic (length rest) (i + 1) (next_seed seed))
      (set-append done rest i x (u8 seed) e ∙ sym (append_assoc done (u8 seed ∷ []) rest))
    ∙ fill_dic-keys (done ++ u8 seed ∷ []) rest (i + 1) (next_seed seed)
        (omega (arith, length-append done (u8 seed ∷ [])))
    ∙ append_assoc done (u8 seed ∷ []) (keys (length rest) (next_seed seed))

-- `SetSeed` makes the dictionary the first 256 keys of the seed, and forgets what it held before.
pub dic-set_seed :
    (x : SimpleXor) (s : ℕ) → length x.dic ≡ dic_size → (set_seed x s).dic ≡ keys dic_size s
unfolding set_seed
dic-set_seed x s e = rw (← e) (fill_dic-keys [] x.dic 0 s refl)
