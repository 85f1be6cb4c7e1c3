-- ===== src/Base/Word.antt =====
-- Machine words: an `int` or `unsigned int` is its 32-bit pattern, a number below 2 ^ 32, and lies
-- in memory as four bytes, the low byte first (the machine is little-endian).
use Prim.Native.Nat.{ℕ, zero, suc, ◌+◌, ◌-◌, ◌*◌, ◌/◌, ◌%◌, ◌^◌, ◌<◌}
use mathlib.Core.Path.{◌≡◌, refl, ap, ap₂, ◌∙◌}
use mathlib.Core.List.{List, [], ◌∷◌}
use native.Mathlib.Omega.{arith}
use simple_module.Base.Lists.{length, All}
use simple_module.Base.Tests.{ltb, if◌then◌else◌}

abbrev pub u8 : ℕ → ℕ
u8 n = n % 2 ^ 8

abbrev pub u32 : ℕ → ℕ
u32 n = n % 2 ^ 32

-- A `size_t` of the machine.
abbrev pub u64 : ℕ → ℕ
u64 n = n % 2 ^ 64

abbrev pub IsByte : ℕ → Type 0
IsByte b = b < 2 ^ 8

abbrev pub IsWord : ℕ → Type 0
IsWord w = w < 2 ^ 32

abbrev pub IsBytes : List ℕ → Type 0
IsBytes = All IsByte

-- `x << k` and `x >> k` of a signed `x` at the pattern `w`: the right shift copies the sign.
abbrev pub shl32 : ℕ → ℕ → ℕ
shl32 w k = u32 (w * 2 ^ k)

abbrev pub sar32 : ℕ → ℕ → ℕ
sar32 w k = if ltb w (2 ^ 31) then w / 2 ^ k else w / 2 ^ k + (2 ^ 32 - 2 ^ (32 - k))

-- The `k` low bytes of a word as `memcpy` takes them from it, and the word that they make.
abbrev pub le_bytes : ℕ → ℕ → List ℕ
le_bytes zero w = []
le_bytes (suc k) w = (w % 2 ^ 8) ∷ le_bytes k (w / 2 ^ 8)

abbrev pub le_value : List ℕ → ℕ
le_value [] = 0
le_value (b ∷ bs) = b + 2 ^ 8 * le_value bs

pub length-le_bytes : (k w : ℕ) → length (le_bytes k w) ≡ k
length-le_bytes zero w = refl
length-le_bytes (suc k) w = ap suc (length-le_bytes k (w / 2 ^ 8))

pub le_bytes-IsBytes : (k w : ℕ) → IsBytes (le_bytes k w)
le_bytes-IsBytes zero w = tt
le_bytes-IsBytes (suc k) w = (omega arith, le_bytes-IsBytes k (w / 2 ^ 8))

-- Storing a word and loading it again gives the word back, if it fits the bytes.
pub le_value-le_bytes4 : (w : ℕ) → w < 2 ^ 32 → le_value (le_bytes 4 w) ≡ w
le_value-le_bytes4 w h = omega arith

pub le_value-le_bytes3 : (w : ℕ) → w < 2 ^ 24 → le_value (le_bytes 3 w) ≡ w
le_value-le_bytes3 w h = omega arith

pub le_value-le_bytes2 : (w : ℕ) → w < 2 ^ 16 → le_value (le_bytes 2 w) ≡ w
le_value-le_bytes2 w h = omega arith

pub le_value-le_bytes1 : (w : ℕ) → w < 2 ^ 8 → le_value (le_bytes 1 w) ≡ w
le_value-le_bytes1 w h = omega arith

-- Bytes are those of the word that they make.
pub le_bytes-le_value : (xs : List ℕ) → IsBytes xs → le_bytes (length xs) (le_value xs) ≡ xs
le_bytes-le_value [] h = refl
le_bytes-le_value (x ∷ xs) h = ap₂ ◌∷◌ (omega (arith, h.0)) (
    ap (le_bytes (length xs)) {x = (x + 2 ^ 8 * le_value xs) / 2 ^ 8} (omega (arith, h.0))
    ∙ le_bytes-le_value xs h.1)

pub le_value-lt4 : (xs : List ℕ) → length xs ≡ 4 → IsBytes xs → le_value xs < 2 ^ 32
le_value-lt4 (a ∷ b ∷ c ∷ d ∷ []) e h = omega arith
le_value-lt4 _ e h = absurd (omega arith)
