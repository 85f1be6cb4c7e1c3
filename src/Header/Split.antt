-- ===== src/Header/Split.antt =====
-- `PacketHeaderProcess` of packet/PacketProcess.cpp: a header that comes in two blocks.
use simple_module.Base.{
  ℕ, suc, ◌+◌, ◌-◌, ◌*◌, ◌≤◌, ◌<◌, ◌≡◌, refl, ap, ◌∙◌, List, [], ◌∷◌, ◌++◌, arith, false, length,
  take, drop, length-take, take_all, drop_all, leb,
}
use simple_module.Base.Outcome.{Outcome, done, fault}
use simple_module.MyBuf.Memory.{Allocator}
use simple_module.MyBuf.Queue.{write_at_ok, write_at_fault, length-splice}
use simple_module.Header.{
  Status, header, body, HeaderProcess, process_data_len, read_header, read_body, read_once_data,
  read_data_loop, read_data,
}
use simple_module.Header.Reading.{IsBetween, loop_step}

-- The reader with `n` bytes of a header.
pub record IsInside (p : HeaderProcess) (n : ℕ) : Type 0 where
  pub at_header : p.status ≡ header
  pub need : p.need_buf_len ≡ 4 - n
  pub room : length p.header_bytes ≡ 4

read_header_part :
    (p : HeaderProcess) (vfd : ℕ) (xs : List ℕ)
    → IsBetween p
    → 1 ≤ length xs
    → length xs < 4
    → (q : HeaderProcess) × (read_header p vfd xs ≡ done (q, length xs, []))
      × IsInside q (length xs)
unfolding read_header
read_header_part p vfd xs i some_bytes short = (
  record p { header_bytes = block; process_vfd = vfd; need_buf_len = 4 - length xs },
  rw
      (
        i.need,
        len,
        take_all (length xs) xs (omega arith),
        write_at_ok p.header_bytes 0 xs room,
        more,
      )
      refl,
  record {
    at_header = i.at_header;
    need = refl;
    room = length-splice p.header_bytes 0 xs room ∙ i.room;
  },
)
  where
    block : List ℕ
    block = take 0 p.header_bytes ++ (xs ++ drop (0 + length xs) p.header_bytes)

    room : 0 + length xs ≤ length p.header_bytes
    room = omega (arith, short, i.room)

    len : process_data_len (record p { need_buf_len = 4 }) xs ≡ length xs
    len = ground arith

    more : leb 4 (length xs) ≡ false
    more = ground arith

read_header_rest :
    (p : HeaderProcess) (vfd n : ℕ) (ys : List ℕ)
    → IsInside p n
    → 1 ≤ n
    → n < 4
    → 1 ≤ length ys
    → read_header p vfd ys ≡ fault
unfolding read_header
read_header_rest p vfd n ys i some_bytes short more =
    rw (i.need, write_at_fault p.header_bytes (4 * (4 - (4 - n))) (take len ys) outside) refl
  where
    len : ℕ
    len = process_data_len (record p { need_buf_len = 4 - n }) ys

    some_len : (1 ≤ len) × (len ≤ length ys)
    some_len = ground arith

    outside : length p.header_bytes < 4 * (4 - (4 - n)) + length (take len ys)
    outside = omega (arith, i.room, short, some_bytes, some_len, length-take len ys)

module _ (al : Allocator) where
  once_header :
      (p : HeaderProcess) (vfd : ℕ) (buf : List ℕ)
      → p.status ≡ header
      → read_once_data al p vfd buf ≡ read_header p vfd buf
  unfolding read_once_data
  once_header p vfd buf e = ap by e
    where
      by : Status → Outcome (HeaderProcess × ℕ × List (List ℕ))
      by s = elim s [ header ↦ read_header p vfd buf | body ↦ read_body al p vfd buf ]

  loop_fault :
      (fuel : ℕ) (p : HeaderProcess) (vfd : ℕ) (buf : List ℕ)
      → 1 ≤ length buf
      → read_once_data al p vfd buf ≡ fault
      → read_data_loop al (suc fuel) p vfd buf ≡ fault
  unfolding read_data_loop
  loop_fault fuel p vfd [] l e = absurd (omega arith)
  loop_fault fuel p vfd (b ∷ bs) l e = rw (e) refl

  -- Where a header comes in two blocks, between two packets: the first block, of one to three bytes, is
  -- taken, and any block of a byte or more after it is written outside `_Header`.
  pub read_data_split :
      (p : HeaderProcess) (vfd wfd : ℕ) (xs ys : List ℕ)
      → IsBetween p
      → 1 ≤ length xs
      → length xs < 4
      → 1 ≤ length ys
      → (q : HeaderProcess) × (read_data al p vfd xs ≡ done (q, []))
        × (read_data al q wfd ys ≡ fault)
  unfolding read_data read_data_loop
  read_data_split p vfd wfd xs ys i some_bytes short more =
      let (q, took, inside) = read_header_part p vfd xs i some_bytes short in
      (
        q,
        ap (λ k. read_data_loop al k p vfd xs) {x = 2 * length xs + 2}
              {y = suc (suc (2 * length xs))} (omega arith)
            ∙ loop_step al (suc (2 * length xs)) p q vfd (length xs) xs [] [] some_bytes
                (once_header p vfd xs i.at_header ∙ took) (drop_all (length xs) xs (omega arith)),
        ap (λ k. read_data_loop al k q wfd ys) {x = 2 * length ys + 2}
              {y = suc (suc (2 * length ys))} (omega arith)
            ∙ loop_fault (suc (2 * length ys)) q wfd ys more (
                once_header q wfd ys inside.at_header
                ∙ read_header_rest q wfd (length xs) ys inside some_bytes short more),
      )
