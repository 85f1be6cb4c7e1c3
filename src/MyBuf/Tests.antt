-- ===== src/MyBuf/Tests.antt =====
-- Runs of the buffer, and its theorems at concrete inputs.
use simple_module.Base.{min, ◌≡◌, refl, [], ◌∷◌, arith}
use simple_module.Base.Outcome.{done, fault, stuck}
use simple_module.MyBuf.Memory.{write_at, move_down}
use simple_module.MyBuf.Heap.{resized, heap, starved}
use simple_module.MyBuf.{MyBuf, grow, grow_fuel, compact, insert_data, get_buf_data, get_buf_len}
use simple_module.MyBuf.Queue.{IsValid, IsBacked, Appended}
use simple_module.MyBuf.Insert.{Taken, insert_data-Appended, get_buf_data-Taken}
use simple_module.MyBuf.Growth.{Grown, grow-Grown, grow_zero}
use simple_module.MyBuf.Overrun.{insert_data_no_memory, insert_data_overruns, grown_overruns}

-- Bytes 7 and 8 in a block of four, one byte from its start.
abbrev two : MyBuf
two = record { buf_size = 4; block = 0 ∷ 7 ∷ 8 ∷ 0 ∷ []; head = 1; tail = 3 }

two-IsValid : IsValid two
two-IsValid = omega arith

-- The buffer moves its bytes to the front when the tail has no room.
insert_moves :
    insert_data heap two (9 ∷ 10 ∷ [])
    ≡ done (record { buf_size = 4; block = 7 ∷ 8 ∷ 9 ∷ 10 ∷ []; head = 0; tail = 4 }, 2)
unfolding insert_data compact move_down write_at
insert_moves = refl

-- Three bytes more than fit: `_BufSize` is 8, the block has five bytes.
abbrev five : MyBuf
five = record { buf_size = 8; block = 7 ∷ 8 ∷ 1 ∷ 2 ∷ 3 ∷ []; head = 0; tail = 5 }

insert_grows : insert_data heap two (1 ∷ 2 ∷ 3 ∷ []) ≡ done (five, 3)
unfolding insert_data compact move_down write_at grow
insert_grows = refl

insert_data-Appended_example :
    (a : Appended two (9 ∷ 10 ∷ []) (insert_data heap two (9 ∷ 10 ∷ []))) × (a.after.buf_size ≡ 4)
    × IsBacked a.after
insert_data-Appended_example =
    insert_data-Appended heap (9 ∷ 10 ∷ []) two-IsValid (omega arith) (omega arith)

get_buf_data-Taken_example : Taken two (min 5 (get_buf_len two)) (get_buf_data two 5)
get_buf_data-Taken_example = get_buf_data-Taken 5 two-IsValid

grow-Grown_example : Grown 1024 5000 (grow grow_fuel 1024 5000)
grow-Grown_example = grow-Grown 1024 5000 (omega arith) (omega arith)

grow_zero_example : grow 100 0 1 ≡ stuck
grow_zero_example = grow_zero 100 1 (omega arith)

insert_data_no_memory_example :
    (b : MyBuf) × (insert_data starved two (1 ∷ 2 ∷ 3 ∷ []) ≡ done (b, 0))
    × (b.block ≡ [])
    × (get_buf_len b ≡ 2)
insert_data_no_memory_example =
    insert_data_no_memory starved (1 ∷ 2 ∷ 3 ∷ []) two-IsValid
      (record { over = omega arith; small = omega arith }) (λ old. refl)

insert_data_overruns_example : insert_data heap five (4 ∷ []) ≡ fault
insert_data_overruns_example =
    insert_data_overruns heap {b = five} (4 ∷ []) (omega arith) (omega arith) (omega arith)

grown_overruns_example : insert_data heap five (4 ∷ []) ≡ fault
grown_overruns_example =
    grown_overruns heap (1 ∷ 2 ∷ 3 ∷ []) (4 ∷ []) two-IsValid
      (record { over = omega arith; small = omega arith }) (λ old. (resized old 5, refl))
      insert_grows (omega arith) (omega arith)
