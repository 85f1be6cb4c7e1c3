-- ===== src/MyBuf/Queue.antt =====
-- The buffer as a queue of bytes: what it holds, and its operations as long as it need not grow.
use simple_module.Base.{
  ℕ, ◌+◌, ◌-◌, ◌≤◌, ◌<◌, ◌≡◌, refl, sym, ap, ◌∙◌, List, [], ◌∷◌, ◌++◌, arith, length, take, drop,
  append_assoc, length-append, length-take, length-drop, drop-append, drop-take, take-append_self,
  take_all, append-nil, suc_ne_zero, ◌⊎◌, inl, inr,
}
use simple_module.Base.Outcome.{Outcome, done, fault}
use simple_module.MyBuf.Memory.{write_at, move_down}
use simple_module.MyBuf.{MyBuf, get_buf_len, compact, store, get_buf_head}

-- Head and tail are in order and inside the block, and the tail is inside what `_BufSize` claims.
pub record IsValid (b : MyBuf) : Type 0 where
  pub ordered : b.head ≤ b.tail
  pub in_block : b.tail ≤ length b.block
  pub in_size : b.tail ≤ b.buf_size
  pub positive : 0 < b.buf_size

-- The block is as large as `_BufSize` claims.
abbrev pub IsBacked : MyBuf → Type 0
IsBacked b = b.buf_size ≤ length b.block

-- The bytes in the buffer, oldest first.
abbrev pub contents : MyBuf → List ℕ
contents b = get_buf_head b

pub length-contents : {b : MyBuf} → IsValid b → length (contents b) ≡ get_buf_len b
length-contents {b} v =
    omega (arith, length-take (get_buf_len b) (drop b.head b.block), length-drop b.head b.block)

pub write_at_ok :
    (block : List ℕ) (at : ℕ) (bytes : List ℕ)
    → at + length bytes ≤ length block
    → write_at block at bytes ≡ done (take at block ++ (bytes ++ drop (at + length bytes) block))
unfolding write_at
write_at_ok block at bytes h = ground arith

pub write_at_fault :
    (block : List ℕ) (at : ℕ) (bytes : List ℕ)
    → length block < at + length bytes
    → write_at block at bytes ≡ fault
unfolding write_at
write_at_fault block at bytes h = ground arith

pub length-splice :
    (block : List ℕ) (at : ℕ) (bytes : List ℕ)
    → at + length bytes ≤ length block
    → length (take at block ++ (bytes ++ drop (at + length bytes) block)) ≡ length block
length-splice block at bytes h = omega (
  arith,
  length-append (take at block) (bytes ++ drop (at + length bytes) block),
  length-append bytes (drop (at + length bytes) block),
  length-take at block,
  length-drop (at + length bytes) block,
)

-- Bytes written at the tail follow those that stand between head and tail.
window-splice :
    (block : List ℕ) (head tail : ℕ) (bytes rest : List ℕ)
    → head ≤ tail
    → tail ≤ length block
    → take (tail + length bytes - head) (drop head (take tail block ++ (bytes ++ rest)))
      ≡ take (tail - head) (drop head block) ++ bytes
window-splice block head tail bytes rest h k =
    ap (take (tail + length bytes - head)) (
      drop-append head (take tail block) (bytes ++ rest) (omega (arith, length-take tail block))
      ∙ sym (append_assoc (drop head (take tail block)) bytes rest))
    ∙ take-append_self (tail + length bytes - head) (drop head (take tail block) ++ bytes) rest (
        omega (
          arith,
          length-append (drop head (take tail block)) bytes,
          length-drop head (take tail block),
          length-take tail block,
        ))
    ∙ ap (λ w. w ++ bytes) (drop-take head tail block)

-- What the buffer becomes when `input` has been added at its end.
pub record Appended (b : MyBuf) (input : List ℕ) (r : Outcome (MyBuf × ℕ)) : Type 0 where
  pub after : MyBuf
  pub returns : r ≡ done (after, length input)
  pub valid : IsValid after
  pub holds : contents after ≡ contents b ++ input

pub store-Appended :
    {b : MyBuf} (input : List ℕ)
    → IsValid b
    → b.tail + length input ≤ length b.block
    → b.tail + length input ≤ b.buf_size
    → (a : Appended b input (store b (length input) input)) × (a.after.buf_size ≡ b.buf_size)
      × (length a.after.block ≡ length b.block)
      × (a.after.tail ≡ b.tail + length input)
unfolding store
store-Appended {b} [] v h k = (
  record { after = b; returns = refl; valid = v; holds = sym (append-nil (contents b)) },
  refl,
  refl,
  omega arith,
)
store-Appended {b} (x ∷ xs) v h k =
    let input = x ∷ xs in
    let block = take b.tail b.block ++ (input ++ drop (b.tail + length input) b.block) in
    let size = length-splice b.block b.tail input h in
    (
      record {
        after = record b { block = block; tail = b.tail + length input };
        returns =
            rw
              (
                suc_ne_zero (length xs),
                take_all (length xs) xs (omega arith),
                write_at_ok b.block b.tail input h,
              )
              refl;
        valid = record {
          ordered = omega (arith, v.ordered);
          in_block = omega (arith, size);
          in_size = k;
          positive = v.positive;
        };
        holds = window-splice b.block b.head b.tail input _ v.ordered v.in_block;
      },
      refl,
      size,
      refl,
    )

pub record Compacted (b : MyBuf) (r : Outcome MyBuf) : Type 0 where
  pub after : MyBuf
  pub returns : r ≡ done after
  pub valid : IsValid after
  pub at_start : after.head ≡ 0
  pub at_length : after.tail ≡ get_buf_len b
  pub holds : contents after ≡ contents b
  pub same_size : after.buf_size ≡ b.buf_size
  pub same_block : length after.block ≡ length b.block

compact_done :
    (b : MyBuf)
    → b.head + get_buf_len b ≤ length b.block
    → (b.head ≡ 0)
      ⊎ (compact b
          ≡ done (record b {
            block = take (get_buf_len b) (drop b.head b.block) ++ drop (get_buf_len b) b.block;
            head = 0;
            tail = get_buf_len b;
          }))
unfolding compact move_down
compact_done b h = ground arith

pub compact-Compacted : {b : MyBuf} → IsValid b → Compacted b (compact b)
compact-Compacted {b} v = elim (compact_done b (omega (arith, v.ordered, v.in_block))) [
  | inl e ↦ record {
    after = b;
    returns = unfold compact in rw e refl;
    valid = v;
    at_start = e;
    at_length = omega arith;
    holds = refl;
    same_size = refl;
    same_block = refl;
  }
  | inr e ↦
      let n = get_buf_len b in
      let moved = take n (drop b.head b.block) in
      let size : length moved ≡ n = length-contents v in
      let same : length (moved ++ drop n b.block) ≡ length b.block = omega (
        arith,
        v.ordered,
        v.in_block,
        size,
        length-append moved (drop n b.block),
        length-drop n b.block,
      ) in
      record {
        after = record b { block = moved ++ drop n b.block; head = 0; tail = n };
        returns = e;
        valid = record {
          ordered = omega arith;
          in_block = omega (arith, v.in_block, same);
          in_size = omega (arith, v.in_size);
          positive = v.positive;
        };
        at_start = refl;
        at_length = refl;
        holds = take-append_self (n - 0) moved (drop n b.block) (omega (arith, size));
        same_size = refl;
        same_block = same;
      }
]
