-- ===== src/MyBuf/Insert.antt =====
-- `InsertData` and `GetBufData` on a buffer whose block is as large as `_BufSize` says, for input that
-- fits `_BufSize`: the queue operations.
use simple_module.Base.{
  ℕ, ◌+◌, ◌-◌, ◌≤◌, ◌<◌, min, ◌≡◌, refl, sym, ap, ap₂, ◌∙◌, List, ◌++◌, arith, length, take, drop,
  le→ltb, lt→ltb, ◌⊎◌, inl, inr, lt_or_le, drop-drop, drop-take, take-take,
}
use simple_module.Base.Outcome.{Outcome, done}
use simple_module.MyBuf.Memory.{Allocator}
use simple_module.MyBuf.{MyBuf, get_buf_len, make_room, enlarge, insert_data, get_buf_data}
use simple_module.MyBuf.Queue.{
  IsValid, IsBacked, contents, Appended, store-Appended, compact-Compacted,
}

-- What the first `if` leaves: the same bytes, with room behind the tail if there is room at all.
pub record Roomy (b : MyBuf) (n : ℕ) (r : Outcome MyBuf) : Type 0 where
  pub after : MyBuf
  pub returns : r ≡ done after
  pub valid : IsValid after
  pub holds : contents after ≡ contents b
  pub same_len : get_buf_len after ≡ get_buf_len b
  pub same_size : after.buf_size ≡ b.buf_size
  pub same_block : length after.block ≡ length b.block
  pub room : (after.tail + n ≤ after.buf_size) ⊎ ((after.head ≡ 0) × (b.buf_size < b.tail + n))
  pub tail_le : after.tail ≤ b.tail

pub make_room-Roomy : {b : MyBuf} (n : ℕ) → IsValid b → Roomy b n (make_room b n)
unfolding make_room
make_room-Roomy {b} n v = elim (lt_or_le b.buf_size (b.tail + n)) [
  | inl over ↦
      let c = compact-Compacted v in
      record {
        after = c.after;
        returns = rw (lt→ltb b.buf_size (b.tail + n) over) c.returns;
        valid = c.valid;
        holds = c.holds;
        same_len = omega (arith, c.at_start, c.at_length);
        same_size = c.same_size;
        same_block = c.same_block;
        room = inr (c.at_start, over);
        tail_le = omega (arith, c.at_length);
      }
  | inr fits ↦ record {
    after = b;
    returns = rw (le→ltb b.buf_size (b.tail + n) fits) refl;
    valid = v;
    holds = refl;
    same_len = refl;
    same_size = refl;
    same_block = refl;
    room = inl fits;
    tail_le = omega arith;
  }
]

pub enlarge_not :
    (al : Allocator) (b : MyBuf) (n : ℕ)
    → get_buf_len b + n ≤ b.buf_size
    → enlarge al b n ≡ done (b, n)
unfolding enlarge
enlarge_not al b n h = rw (le→ltb b.buf_size (get_buf_len b + n) h) refl

pub Roomy-fits :
    {b : MyBuf} (n : ℕ) {r : Outcome MyBuf} (c : Roomy b n r)
    → get_buf_len b + n ≤ b.buf_size
    → c.after.tail + n ≤ c.after.buf_size
Roomy-fits {b} n c h = elim c.room [
  | inl fits ↦ fits
  | inr (start, over) ↦ omega (arith, start, c.same_len, c.same_size, h, c.valid.ordered)
]

-- Input that fits `_BufSize` beside what is there is added at the end, all of it, and nothing is
-- written outside the block.
pub insert_data-Appended :
    (al : Allocator) {b : MyBuf} (input : List ℕ)
    → IsValid b
    → IsBacked b
    → get_buf_len b + length input ≤ b.buf_size
    → (a : Appended b input (insert_data al b input)) × (a.after.buf_size ≡ b.buf_size)
      × IsBacked a.after
insert_data-Appended al {b} input v backed fits =
    let n = length input in
    let c = make_room-Roomy n v in
    let room = Roomy-fits n c fits in
    let (s, size, block, tail) =
      store-Appended input c.valid (omega (arith, room, c.same_size, c.same_block, backed)) room in
    (
      record {
        after = s.after;
        returns =
            unfold insert_data in
            rw (c.returns, enlarge_not al c.after n (omega (arith, fits, c.same_len, c.same_size)))
              s.returns;
        valid = s.valid;
        holds = s.holds ∙ ap (λ w. w ++ input) c.holds;
      },
      size ∙ c.same_size,
      omega (arith, size, block, c.same_size, c.same_block, backed),
    )

-- The window when the head has moved on by `k`.
window-drop :
    (block : List ℕ) (head tail k : ℕ)
    → take (tail - (head + k)) (drop (head + k) block)
      ≡ drop k (take (tail - head) (drop head block))
window-drop block head tail k =
    ap₂ take {x = tail - (head + k)} {y = tail - head - k} (omega arith)
      (sym (drop-drop k head block))
    ∙ sym (drop-take k (tail - head) (drop head block))

-- What `GetBufData` does with the length `k` that it settles on.
pub record Taken (b : MyBuf) (k : ℕ) (r : MyBuf × List ℕ × ℕ) : Type 0 where
  pub bytes : r.1 ≡ take k (contents b)
  pub real_len : r.2 ≡ k
  pub holds : contents r.0 ≡ drop k (contents b)
  pub valid : IsValid r.0
  pub same_size : r.0.buf_size ≡ b.buf_size
  pub same_block : r.0.block ≡ b.block

Taken-of_le :
    {b : MyBuf} (k : ℕ)
    → IsValid b
    → k ≤ get_buf_len b
    → Taken b k (record b { head = b.head + k }, take k (drop b.head b.block), k)
Taken-of_le {b} k v h = record {
  bytes = sym (take-take k (get_buf_len b) (drop b.head b.block) h);
  real_len = refl;
  holds = window-drop b.block b.head b.tail k;
  valid = record {
    ordered = omega (arith, v.ordered);
    in_block = v.in_block;
    in_size = v.in_size;
    positive = v.positive;
  };
  same_size = refl;
  same_block = refl;
}

-- `GetBufData` takes bytes from the front: as many as asked for, or all that there are.
pub get_buf_data-Taken :
    {b : MyBuf} (n : ℕ) → IsValid b → Taken b (min n (get_buf_len b)) (get_buf_data b n)
unfolding get_buf_data
get_buf_data-Taken {b} n v = elim (lt_or_le (get_buf_len b) n) [
  | inl short ↦
      let e : min n (get_buf_len b) ≡ get_buf_len b = omega arith in
      rw (lt→ltb (get_buf_len b) n short, e) (Taken-of_le (get_buf_len b) v (omega arith))
  | inr enough ↦
      let e : min n (get_buf_len b) ≡ n = omega arith in
      rw (le→ltb (get_buf_len b) n enough, e) (Taken-of_le n v enough)
]
