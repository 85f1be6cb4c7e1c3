-- ===== src/Cipher.antt =====
-- `SimpleXOR` of encrypt/include/encrypt.h: a stream cipher whose key stream is a dictionary of 256
-- bytes made from a seed. An object that changes is returned beside the result of its method.
pub mod Keys
pub mod Stream
pub mod RoundTrip
mod Tests
use simple_module.Base.{
  ℕ, zero, suc, ◌+◌, ◌%◌, ◌^◌, bit_xor, Bool, true, false, Option, none, some, List, [], ◌∷◌, ◌++◌,
  ltb, if◌then◌else◌, length, get_or, set, replicate, take, drop,
}
use simple_module.Base.Word.{u8, u32, shl32, sar32, le_bytes, le_value}

-- `DIC_SIZE`
abbrev pub dic_size : ℕ
dic_size = 256

-- `seed` is the pattern of the `int` `_Seed`.
pub record SimpleXor : Type 0 where
  pub dic_i : ℕ
  pub dic : List ℕ
  pub seed_flag : Bool
  pub seed : ℕ

-- The constructor leaves `dic_i` and `_Seed` as they come; both arguments stand for what they hold.
abbrev pub new_simple_xor : ℕ → ℕ → SimpleXor
new_simple_xor dic_i seed = record {
  dic_i = dic_i;
  dic = replicate dic_size 0;
  seed_flag = false;
  seed = seed;
}

-- `Seed = (Seed<<3)+(Seed>>3)+Seed`, where the machine wraps: C++ leaves it undefined where the `int` overflows,
-- which it does for most seeds within the 256 rounds of `SetSeed`.
unfoldable pub next_seed : ℕ → ℕ
next_seed s = u32 (shl32 s 3 + sar32 s 3 + s)

-- The loop of `SetSeed` at index `i`, with `n` rounds left. The low byte of `Seed%256` is that of
-- `Seed`, for a negative `Seed` too.
unfoldable pub fill_dic : ℕ → ℕ → ℕ → List ℕ → List ℕ
fill_dic zero i seed dic = dic
fill_dic (suc n) i seed dic = fill_dic n (i + 1) (next_seed seed) (set dic i (u8 seed))

unfoldable pub set_seed : SimpleXor → ℕ → SimpleXor
set_seed x s = record { dic_i = 0; dic = fill_dic dic_size 0 s x.dic; seed_flag = true; seed = s }

-- `xmake`: `dic_i` is an `unsigned char`, and is stepped before it is used.
unfoldable pub xmake : SimpleXor → ℕ → SimpleXor × ℕ
xmake x c = let i = u8 (x.dic_i + 1) in (record x { dic_i = i }, bit_xor (get_or x.dic i 0) c)

-- The loop of `Encrypt` and of `Decrypt` over the bytes from the start offset on.
unfoldable pub xmake_all : SimpleXor → List ℕ → SimpleXor × List ℕ
xmake_all x [] = (x, [])
xmake_all x (c ∷ cs) = let (x', o) = xmake x c in let (x'', os) = xmake_all x' cs in (x'', o ∷ os)

-- `rand` is what `random()` returns, if it is called.
unfoldable pub encrypt : SimpleXor → ℕ → List ℕ → SimpleXor × List ℕ
encrypt x rand input =
    if x.seed_flag
    then xmake_all x input
    else (let (x', os) = xmake_all (set_seed x rand) input in (x', le_bytes 4 rand ++ os))

-- `none` is the null pointer, with `OutputLen` 0.
unfoldable pub decrypt : SimpleXor → List ℕ → SimpleXor × Option (List ℕ)
decrypt x input =
    if x.seed_flag
    then (let (x', os) = xmake_all x input in (x', some os))
    else if ltb (length input) 4
    then (x, none)
    else (let (x', os) = xmake_all (set_seed x (le_value (take 4 input))) (drop 4 input) in
        (x', some os))
