-- ===== src/Header.antt =====
-- `PacketHeaderProcess` of packet/PacketProcess.cpp: a reader of packets with a length before them, as a
-- state machine that is fed block after block.
pub mod Reading
pub mod Split
mod Tests
use simple_module.Base.{
  ℕ, zero, suc, ◌+◌, ◌-◌, ◌*◌, ◌^◌, Bool, true, false, Option, none, some, List, [], ◌∷◌, ◌++◌, ltb,
  leb, ◌==◌, not, if◌then◌else◌, length, take, drop, replicate,
}
use simple_module.Base.Word.{le_bytes, le_value}
use simple_module.Base.Outcome.{Outcome, done, fault, stuck, ◌>>=◌, ◌>>◌, require}
use simple_module.MyBuf.{MyBuf, new_my_buf, insert_data, get_buf_head}
use simple_module.MyBuf.Memory.{Allocator, write_at}

pub data Status : Type 0 where
  header body : Status

-- `header_bytes` is the memory of the `int` `_Header`; `need_buf_len` is the pattern of an `int`.
pub record HeaderProcess : Type 0 where
  pub status : Status
  pub need_buf_len : ℕ
  pub header_bytes : List ℕ
  pub process_vfd : ℕ
  pub vfd_buf : MyBuf

abbrev pub packet_max_len : ℕ
packet_max_len = 4096

-- The pattern of -1.
abbrev pub no_vfd : ℕ
no_vfd = 2 ^ 32 - 1

-- `_Header` is not initialised, and comes as an argument.
abbrev pub new_header_process : Allocator → ℕ → HeaderProcess
new_header_process al junk = record {
  status = header;
  need_buf_len = 4;
  header_bytes = le_bytes 4 junk;
  process_vfd = no_vfd;
  vfd_buf = new_my_buf al packet_max_len;
}

-- `BufLen > _NeedBufLen? _NeedBufLen:BufLen`, where `_NeedBufLen` is not negative.
abbrev pub process_data_len : HeaderProcess → List ℕ → ℕ
process_data_len p buf = if ltb p.need_buf_len (length buf) then p.need_buf_len else length buf

-- One call of `ReadOnceData`: the state after it, the number of bytes it took, and the bodies that
-- have become complete.
abbrev pub Round : Type 0
Round = HeaderProcess × ℕ × List (List ℕ)

-- The sum `&(_Header) + (4-_NeedBufLen)` counts in units of an `int`, of four bytes.
unfoldable pub read_header : HeaderProcess → ℕ → List ℕ → Outcome Round
read_header p vfd buf = do
  let len = process_data_len p buf
  block ← write_at p.header_bytes (4 * (4 - p.need_buf_len)) (take len buf)
  let p' = record p { header_bytes = block; process_vfd = vfd }
  done (
      if leb p.need_buf_len (length buf)
      then (record p' { status = body; need_buf_len = le_value block }, len, [])
      else (record p' { need_buf_len = p.need_buf_len - length buf }, len, []))

-- `memcpy` through the pointer that `malloc` returned.
abbrev pub filled : Option (List ℕ) → List ℕ → Outcome (List ℕ)
filled none bytes = fault
filled (some block) bytes = done bytes

module _ (al : Allocator) where
  -- With a negative length `memcpy` would be asked for more bytes than there are addresses.
  unfoldable pub read_body : HeaderProcess → ℕ → List ℕ → Outcome Round
  read_body p vfd buf = do
    require (vfd == p.process_vfd)
    require (ltb p.need_buf_len (2 ^ 31))
    let len = process_data_len p buf
    r ← insert_data al p.vfd_buf (take len buf)
    require (r.1 == len)
    let p' = record p { vfd_buf = r.0 }
    done (
        if leb p.need_buf_len (length buf)
        then (
          record p' { status = header; need_buf_len = 4; process_vfd = no_vfd },
          len,
          get_buf_head r.0 ∷ [],
        )
        else (record p' { need_buf_len = p.need_buf_len - length buf }, len, []))

  unfoldable pub read_once_data : HeaderProcess → ℕ → List ℕ → Outcome Round
  unfolding read_body read_header
  read_once_data p vfd buf = elim p.status [
    | header ↦ read_header p vfd buf
    | body ↦ read_body p vfd buf
  ]

  abbrev pub with_bodies :
      List (List ℕ)
      → Outcome (HeaderProcess × List (List ℕ))
      → Outcome (HeaderProcess × List (List ℕ))
  with_bodies bodies r = r >>= λ t. done (t.0, bodies ++ t.1)

  -- The loop of `ReadData`.
  unfoldable pub read_data_loop :
      ℕ → HeaderProcess → ℕ → List ℕ → Outcome (HeaderProcess × List (List ℕ))
  read_data_loop zero p vfd buf = stuck
  read_data_loop (suc fuel) p vfd [] = done (p, [])
  read_data_loop (suc fuel) p vfd (b ∷ bs) = read_once_data p vfd (b ∷ bs) >>= λ r.
      with_bodies r.2 (read_data_loop fuel r.0 vfd (drop r.1 (b ∷ bs)))

  -- Only a body of no bytes takes none, and a header comes next.
  unfoldable pub read_data : HeaderProcess → ℕ → List ℕ → Outcome (HeaderProcess × List (List ℕ))
  unfolding read_data_loop
  read_data p vfd buf = read_data_loop (2 * length buf + 2) p vfd buf

  unfoldable pub write_data : List ℕ → Outcome (List ℕ)
  write_data buf = filled (al.malloc (length buf + 4)) (le_bytes 4 (length buf) ++ buf)
