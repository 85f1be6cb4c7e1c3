-- ===== src/MyBuf/Heap.antt =====
-- Two allocators that meet the laws: one that always has memory, and one that never enlarges a block.
use simple_module.Base.{
  ℕ, ◌-◌, ◌≤◌, ◌≡◌, sym, ap, ◌∙◌, some, none, List, ◌++◌, arith, length, take, replicate,
  length-append, length-take, length-replicate, take-append, take-take,
}
use simple_module.MyBuf.Memory.{Allocator}

-- Memory without end; fresh bytes are 0.
abbrev pub resized : List ℕ → ℕ → List ℕ
resized old n = take n old ++ replicate (n - length old) 0

pub length-resized : (old : List ℕ) (n : ℕ) → length (resized old n) ≡ n
length-resized old n = omega (
  arith,
  length-append (take n old) (replicate (n - length old) 0),
  length-take n old,
  length-replicate {A = ℕ} (n - length old) 0,
)

pub take-resized :
    (old : List ℕ) (n k : ℕ) → k ≤ length old → k ≤ n → take k (resized old n) ≡ take k old
take-resized old n k h g =
    take-append k (take n old) (replicate (n - length old) 0) (omega (arith, length-take n old))
    ∙ take-take k n old g

pub some_eq : {x y : List ℕ} → some x ≡ some y → x ≡ y
some_eq e = cc

abbrev pub heap : Allocator
heap = record {
  malloc = λ n. some (replicate n 0);
  realloc = λ old n. some (resized old n);
  malloc_size =
      λ n b e. ap (λ (x : List ℕ). length x) (sym (some_eq e)) ∙ length-replicate {A = ℕ} n 0;
  realloc_size =
      λ old n b e. ap (λ (x : List ℕ). length x) (sym (some_eq e)) ∙ length-resized old n;
  realloc_keeps = λ old n k b e h g. ap (take k) (sym (some_eq e)) ∙ take-resized old n k h g;
}

-- No memory is left to enlarge a block.
abbrev pub starved : Allocator
starved = record {
  malloc = λ n. some (replicate n 0);
  realloc = λ old n. none;
  malloc_size =
      λ n b e. ap (λ (x : List ℕ). length x) (sym (some_eq e)) ∙ length-replicate {A = ℕ} n 0;
  realloc_size = λ old n b e. cc;
  realloc_keeps = λ old n k b e h g. cc;
}
