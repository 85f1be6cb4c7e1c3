-- ===== src/MyBuf/Memory.antt =====
-- Blocks of memory, and the allocator of the C library that the buffer takes as a parameter.
use simple_module.Base.{ℕ, ◌+◌, ◌≤◌, ◌≡◌, List, ◌++◌, Option, some, length, take, drop, leb}
use simple_module.Base.Outcome.{Outcome, done, ◌>>◌, require}

-- `malloc` and `realloc`, as the C standard documents them: what they return, if not null, has the
-- size asked for, and `realloc` keeps the bytes that both blocks have room for.
pub record Allocator : Type 0 where
  pub malloc : ℕ → Option (List ℕ)
  pub realloc : List ℕ → ℕ → Option (List ℕ)
  pub malloc_size : (n : ℕ) (b : List ℕ) → malloc n ≡ some b → length b ≡ n
  pub realloc_size : (old : List ℕ) (n : ℕ) (b : List ℕ) → realloc old n ≡ some b → length b ≡ n
  pub realloc_keeps :
      (old : List ℕ) (n k : ℕ) (b : List ℕ)
      → realloc old n ≡ some b
      → k ≤ length old
      → k ≤ n
      → take k b ≡ take k old

-- `memcpy` into a block at an offset.
unfoldable pub write_at : List ℕ → ℕ → List ℕ → Outcome (List ℕ)
write_at block at bytes = do
  require (leb (at + length bytes) (length block))
  done (take at block ++ (bytes ++ drop (at + length bytes) block))

-- `memmove` of `n` bytes at an offset to the start of the block.
unfoldable pub move_down : List ℕ → ℕ → ℕ → Outcome (List ℕ)
move_down block from n = do
  require (leb (from + n) (length block))
  done (take n (drop from block) ++ drop n block)
