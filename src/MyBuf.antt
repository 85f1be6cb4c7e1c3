-- ===== src/MyBuf.antt =====
-- `MyBuf` of encrypt/mybuf.cpp and encrypt/include/mybuf.h (packet/mybuf.cpp and packet/mybuf.h are
-- the same text): a growing buffer of bytes that is filled at its tail and emptied at its head.
pub mod Memory
pub mod Queue
pub mod Insert
pub mod Growth
pub mod Overrun
pub mod Heap
mod Tests
use simple_module.Base.{
  ℕ, zero, suc, ◌+◌, ◌-◌, ◌*◌, ◌^◌, Bool, true, false, Option, none, some, List, [], ltb, ◌==◌,
  if◌then◌else◌, length, take, drop,
}
use simple_module.Base.Outcome.{Outcome, done, fault, stuck, ◌>>=◌, ◌>>◌, require}
use Memory.{Allocator, write_at, move_down}

-- `block` is the memory that was in fact allocated at `_Buf` (empty for a null pointer), `buf_size` is
-- `_BufSize`; `head` and `tail` are `_Head` and `_Tail` as offsets from `_Buf`.
pub record MyBuf : Type 0 where
  pub buf_size : ℕ
  pub block : List ℕ
  pub head : ℕ
  pub tail : ℕ

abbrev pub or_null : Option (List ℕ) → List ℕ
or_null none = []
or_null (some b) = b

abbrev pub get_buf_len : MyBuf → ℕ
get_buf_len b = b.tail - b.head

-- `InputLen > GetTailLen()` and `InputLen > GetRemainLen()`, as sums: a negative room is less than any
-- length, which a difference on ℕ would hide.
abbrev pub exceeds_tail : MyBuf → ℕ → Bool
exceeds_tail b n = ltb b.buf_size (b.tail + n)

abbrev pub exceeds_remain : MyBuf → ℕ → Bool
exceeds_remain b n = ltb b.buf_size (get_buf_len b + n)

-- `while(_BufSize < NeedLen) _BufSize = _BufSize * 2;`
unfoldable pub grow : ℕ → ℕ → ℕ → Outcome ℕ
grow zero size need = stuck
grow (suc fuel) size need =
    let rest = grow fuel (size * 2) need in
    if ltb size need then (if ltb (size * 2) (2 ^ 31) then rest else fault) else done size

-- Thirty-two doublings leave the range of `int`, from any positive size.
abbrev pub grow_fuel : ℕ
grow_fuel = 33

-- The bytes between head and tail go to the start of the block.
unfoldable pub compact : MyBuf → Outcome MyBuf
compact b = if b.head == 0 then done b else do
  block ← move_down b.block b.head (get_buf_len b)
  done (record b { block = block; head = 0; tail = get_buf_len b })

-- The first `if` of `InsertData`.
unfoldable pub make_room : MyBuf → ℕ → Outcome MyBuf
unfolding compact
make_room b n = if exceeds_tail b n then compact b else done b

-- `_Buf` and `RealLen` after the call of `realloc`: where it fails, `RealLen` is set to 0.
abbrev pub reallocated : MyBuf → ℕ → Option (List ℕ) → MyBuf × ℕ
reallocated b n none = (record b { block = [] }, 0)
reallocated b n (some block) = (record b { block = block }, n)

-- The last `if`: `memcpy` of `RealLen` bytes to the tail.
unfoldable pub store : MyBuf → ℕ → List ℕ → Outcome (MyBuf × ℕ)
store b real_len input = if real_len == 0 then done (b, 0) else do
  block ← write_at b.block b.tail (take real_len input)
  done (record b { block = block; tail = b.tail + real_len }, real_len)

module _ (al : Allocator) where
  abbrev pub new_my_buf : ℕ → MyBuf
  new_my_buf n = record { buf_size = n; block = or_null (al.malloc n); head = 0; tail = 0 }

  -- The second `if`: `realloc` is given `_Head`, which must be where the block starts, and `NeedLen`
  -- bytes are asked for, not `_BufSize`. The number returned is `RealLen`.
  unfoldable pub enlarge : MyBuf → ℕ → Outcome (MyBuf × ℕ)
  enlarge b n =
      if exceeds_remain b n
      then (do
        let need = get_buf_len b + n
        require (ltb need (2 ^ 31))
        size ← grow grow_fuel b.buf_size need
        require (b.head == 0)
        let b' = record b { buf_size = size; head = 0; tail = get_buf_len b }
        done (reallocated b' n (al.realloc b.block need)))
      else done (b, n)

  unfoldable pub insert_data : MyBuf → List ℕ → Outcome (MyBuf × ℕ)
  unfolding make_room enlarge store
  insert_data b input = do
    b' ← make_room b (length input)
    (b'', real_len) ← enlarge b' (length input)
    store b'' real_len input

-- The bytes that the caller reads at the pointer returned, and their number `RealLen`.
unfoldable pub get_buf_data : MyBuf → ℕ → MyBuf × List ℕ × ℕ
get_buf_data b data_len =
    let real_len = if ltb (get_buf_len b) data_len then get_buf_len b else data_len in
    (record b { head = b.head + real_len }, take real_len (drop b.head b.block), real_len)

-- The bytes at `_Head`, as far as `_Tail`.
abbrev pub get_buf_head : MyBuf → List ℕ
get_buf_head b = take (get_buf_len b) (drop b.head b.block)
