-- ===== src/MyBuf/Overrun.antt =====
-- `InsertData` on a block that is smaller than `_BufSize` says, and where `realloc` fails.
use simple_module.Base.{
  ℕ, ◌+◌, ◌≤◌, ◌<◌, ◌≡◌, refl, sym, subst, ap, ◌∙◌, none, some, List, [], ◌∷◌, arith, length,
  le→ltb, suc_ne_zero, take_all,
}
use simple_module.Base.Outcome.{Outcome, done, fault}
use simple_module.MyBuf.Memory.{Allocator}
use simple_module.MyBuf.{MyBuf, get_buf_len, make_room, store, insert_data}
use simple_module.MyBuf.Queue.{IsValid, write_at_fault}
use simple_module.MyBuf.Insert.{enlarge_not}
use simple_module.MyBuf.Growth.{Overfull, insert_data-Enlarging, insert_data-Outgrown}

-- If `realloc` fails, `RealLen` is 0 and the block is gone, with all the bytes that were buffered.
pub insert_data_no_memory :
    (al : Allocator) {b : MyBuf} (input : List ℕ)
    → IsValid b
    → Overfull b input
    → ((old : List ℕ) → al.realloc old (get_buf_len b + length input) ≡ none)
    → (b' : MyBuf) × (insert_data al b input ≡ done (b', 0))
      × (b'.block ≡ [])
      × (get_buf_len b' ≡ get_buf_len b)
insert_data_no_memory al {b} input v o memory =
    let e = insert_data-Enlarging al input v o in
    let len = get_buf_len e.a in
    let got : al.realloc e.a.block (len + length input) ≡ none =
      ap (λ k. al.realloc e.a.block (k + length input)) e.same_len ∙ memory e.a.block in
    (
      record { buf_size = e.size; block = []; head = 0; tail = len },
      e.runs ∙ unfold store in rw got refl,
      refl,
      omega (arith, e.same_len),
    )

-- A write that `_BufSize` allows and the block has no room for runs out of the block.
pub insert_data_overruns :
    (al : Allocator) {b : MyBuf} (input : List ℕ)
    → IsValid b
    → b.tail + length input ≤ b.buf_size
    → length b.block < b.tail + length input
    → insert_data al b input ≡ fault
unfolding insert_data make_room store
insert_data_overruns al {b} [] v fits over = absurd (omega (arith, v.in_block))
insert_data_overruns al {b} (x ∷ xs) v fits over =
    let input = x ∷ xs in
    rw
      (
        le→ltb b.buf_size (b.tail + length input) fits,
        enlarge_not al b (length input) (omega (arith, v.ordered)),
        suc_ne_zero (length xs),
        take_all (length xs) xs (omega arith),
        write_at_fault b.block b.tail input over,
      )
      refl

-- After the buffer has grown, the next input that `_BufSize` has room for is written past the end of
-- the block, unless it is empty.
pub grown_overruns :
    (al : Allocator) {b after : MyBuf} (first second : List ℕ)
    → IsValid b
    → Overfull b first
    → ((old : List ℕ)
        → (block : List ℕ) × (al.realloc old (get_buf_len b + length first) ≡ some block))
    → insert_data al b first ≡ done (after, length first)
    → 0 < length second
    → after.tail + length second ≤ after.buf_size
    → insert_data al after second ≡ fault
grown_overruns al {after} first second v over memory run some_bytes fits =
    let o = insert_data-Outgrown al first v over memory in
    let same : o.after ≡ after = done_fst (sym o.returns ∙ run) in
    insert_data_overruns al second (subst IsValid same o.valid) fits (
      subst (λ (a : MyBuf). length a.block < a.tail + length second) same
        (omega (arith, o.block_full, some_bytes)))
  where
    done_fst :
        {x y : MyBuf} {k m : ℕ} → ◌≡◌ {A = Outcome (MyBuf × ℕ)} (done (x, k)) (done (y, m)) → x ≡ y
    done_fst e = ground arith
