-- ===== src/MyBuf/Growth.antt =====
-- `InsertData` when the input does not fit `_BufSize`: `_BufSize` is doubled, and the block is
-- reallocated to `NeedLen` bytes.
use simple_module.Base.{
  ℕ, zero, suc, ◌+◌, ◌-◌, ◌*◌, ◌^◌, ◌≤◌, ◌<◌, ◌≡◌, refl, sym, ap, ◌∙◌, some, List, ◌++◌, arith,
  length, take, drop, le→ltb, lt→ltb, ◌⊎◌, inl, inr, lt_or_le,
}
use native.Mathlib.Nat.{pow-suc}
use simple_module.Base.Outcome.{Outcome, done, stuck}
use simple_module.MyBuf.Memory.{Allocator}
use simple_module.MyBuf.{
  MyBuf, get_buf_len, grow, grow_fuel, enlarge, reallocated, store, insert_data,
}
use simple_module.MyBuf.Queue.{IsValid, contents, Appended, store-Appended}
use simple_module.MyBuf.Insert.{make_room-Roomy}

-- The size that the loop ends with.
pub record Grown (size need : ℕ) (r : Outcome ℕ) : Type 0 where
  pub grown : ℕ
  pub returns : r ≡ done grown
  pub enough : need ≤ grown
  pub no_less : size ≤ grown
  pub tight : (grown ≡ size) ⊎ (grown < 2 * need)

grow_stops : (f size need : ℕ) → need ≤ size → Grown size need (grow (suc f) size need)
grow_stops f size need fits = record {
  grown = size;
  returns = unfold grow in rw (le→ltb size need fits) refl;
  enough = fits;
  no_less = omega arith;
  tight = inl refl;
}

grow_again :
    (f size need : ℕ)
    → size < need
    → size * 2 < 2 ^ 31
    → grow (suc f) size need ≡ grow f (size * 2) need
unfolding grow
grow_again f size need less small =
    rw (lt→ltb size need less, lt→ltb (size * 2) (2 ^ 31) small) refl

grow-Grown_fuel :
    (f size need : ℕ)
    → 0 < size
    → need ≤ 2 ^ 30
    → need ≤ size * 2 ^ f
    → Grown size need (grow (suc f) size need)
grow-Grown_fuel zero size need pos small h = grow_stops 0 size need (omega arith)
grow-Grown_fuel (suc f) size need pos small h = elim (lt_or_le size need) [
  | inr fits ↦ grow_stops (suc f) size need fits
  | inl less ↦
      let enough : need ≤ size * 2 * 2 ^ f =
        omega (arith, ap (λ (t : ℕ). size * t) (pow-suc 2 f)) in
      let g = grow-Grown_fuel f (size * 2) need (omega arith) small enough in
      record {
        grown = g.grown;
        returns = grow_again (suc f) size need less (omega arith) ∙ g.returns;
        enough = g.enough;
        no_less = omega (arith, g.no_less);
        tight = inr (omega (arith, g.tight));
      }
]

-- From any positive size the loop ends, within the range of `int`, for a need of up to 2 ^ 30 bytes:
-- with a size that is enough, and less than twice what is needed if it had to grow.
pub grow-Grown :
    (size need : ℕ) → 0 < size → need ≤ 2 ^ 30 → Grown size need (grow grow_fuel size need)
grow-Grown size need pos small = grow-Grown_fuel 32 size need pos small (omega arith)

-- From size 0 the loop never ends: no fuel is enough.
pub grow_zero : (fuel need : ℕ) → 0 < need → grow fuel 0 need ≡ stuck
unfolding grow
grow_zero zero need h = refl
grow_zero (suc fuel) need h = rw (lt→ltb 0 need h, grow_zero fuel need h) refl

module _ (al : Allocator) (a : MyBuf) (n : ℕ) (start : a.head ≡ 0) (pos : 0 < a.buf_size)
    (over : a.buf_size < get_buf_len a + n) (small : get_buf_len a + n ≤ 2 ^ 30) where
  -- The state that `realloc` is called in.
  abbrev before_realloc : MyBuf
  before_realloc = record a {
    buf_size = (grow-Grown a.buf_size (get_buf_len a + n) pos small).grown;
    head = 0;
    tail = get_buf_len a;
  }

  enlarge_over :
      enlarge al a n ≡ done (reallocated before_realloc n (al.realloc a.block (get_buf_len a + n)))
  unfolding enlarge
  enlarge_over =
      rw
        (
          lt→ltb a.buf_size (get_buf_len a + n) over,
          lt→ltb (get_buf_len a + n) (2 ^ 31) (omega arith),
          (grow-Grown a.buf_size (get_buf_len a + n) pos small).returns,
          start,
        )
        refl

-- The input does not fit `_BufSize`, and the sum of the lengths is far from the end of `int`.
pub record Overfull (b : MyBuf) (input : List ℕ) : Type 0 where
  pub over : b.buf_size < get_buf_len b + length input
  pub small : get_buf_len b + length input ≤ 2 ^ 30

-- `insert_data` when it has to grow: the state `a` that `realloc` is called in, the new `_BufSize`, and
-- what is left to do once `realloc` has returned.
pub record Enlarging (al : Allocator) (b : MyBuf) (input : List ℕ) : Type 0 where
  pub a : MyBuf
  pub valid : IsValid a
  pub at_start : a.head ≡ 0
  pub same_len : get_buf_len a ≡ get_buf_len b
  pub same_block : length a.block ≡ length b.block
  pub holds : contents a ≡ contents b
  pub size : ℕ
  pub enough : get_buf_len b + length input ≤ size
  pub runs : insert_data al b input ≡ (
      let (b', k) =
        reallocated
          (record a { buf_size = size; head = 0; tail = get_buf_len a })
          (length input)
          (al.realloc a.block (get_buf_len a + length input)) in
      store b' k input)

pub insert_data-Enlarging :
    (al : Allocator) {b : MyBuf} (input : List ℕ)
    → IsValid b
    → Overfull b input
    → Enlarging al b input
insert_data-Enlarging al {b} input v o =
    let n = length input in
    let c = make_room-Roomy n v in
    let a = c.after in
    let start : a.head ≡ 0 = elim c.room [
      | inl fits ↦ absurd (omega (arith, o.over, c.same_len, c.same_size, fits, c.valid.ordered))
      | inr r ↦ r.0
    ] in
    let over : a.buf_size < get_buf_len a + n = omega (arith, o.over, c.same_len, c.same_size) in
    let small : get_buf_len a + n ≤ 2 ^ 30 = omega (arith, o.small, c.same_len) in
    let g = grow-Grown a.buf_size (get_buf_len a + n) c.valid.positive small in
    record {
      a = a;
      valid = c.valid;
      at_start = start;
      same_len = c.same_len;
      same_block = c.same_block;
      holds = c.holds;
      size = g.grown;
      enough = omega (arith, g.enough, c.same_len);
      runs =
          unfold insert_data in
          rw (c.returns, enlarge_over al a n start c.valid.positive over small) refl;
    }

-- What growth leaves: the input is added, and the block has just the bytes that are in use.
pub record Outgrown (b : MyBuf) (input : List ℕ) (r : Outcome (MyBuf × ℕ)) : Type 0 where
  pub appended : Appended b input r
  pub open appended use *
  pub block_full : length after.block ≡ after.tail
  pub size_enough : get_buf_len b + length input ≤ after.buf_size

-- Input that does not fit `_BufSize` is added at the end too, if `realloc` has the memory; the block
-- then ends at the tail, whatever `_BufSize` says.
pub insert_data-Outgrown :
    (al : Allocator) {b : MyBuf} (input : List ℕ)
    → IsValid b
    → Overfull b input
    → ((old : List ℕ)
        → (block : List ℕ) × (al.realloc old (get_buf_len b + length input) ≡ some block))
    → Outgrown b input (insert_data al b input)
insert_data-Outgrown al {b} input v o memory =
    let n = length input in
    let e = insert_data-Enlarging al input v o in
    let len = get_buf_len e.a in
    let (block, got) = memory e.a.block in
    let got' : al.realloc e.a.block (len + n) ≡ some block =
      ap (λ k. al.realloc e.a.block (k + n)) e.same_len ∙ got in
    let size = al.realloc_size e.a.block (len + n) block got' in
    let b' : MyBuf = record { buf_size = e.size; block = block; head = 0; tail = len } in
    let valid : IsValid b' = record {
      ordered = omega arith;
      in_block = omega (arith, size);
      in_size = omega (arith, e.enough, e.same_len);
      positive = omega (arith, e.enough, o.over);
    } in
    let kept : contents b' ≡ contents e.a =
      ap (λ k. take k block) {x = len - 0} {y = len} (omega arith)
      ∙ al.realloc_keeps e.a.block (len + n) len block got' (omega (arith, e.valid.in_block))
          (omega arith)
      ∙ ap (λ h. take len (drop h e.a.block)) (sym e.at_start) in
    let (s, same_size, same_block, tail) =
      store-Appended input valid (omega (arith, size)) (omega (arith, e.enough, e.same_len)) in
    record {
      appended = record {
        after = s.after;
        returns = e.runs ∙ rw got' s.returns;
        valid = s.valid;
        holds = s.holds ∙ ap (λ w. w ++ input) (kept ∙ e.holds);
      };
      block_full = omega (arith, same_block, tail, size);
      size_enough = omega (arith, e.enough, same_size);
    }
