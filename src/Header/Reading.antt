-- ===== src/Header/Reading.antt =====
-- `PacketHeaderProcess` of packet/PacketProcess.cpp: packets that come whole, each in a block of its own.
use simple_module.Base.{
  ℕ, suc, ◌+◌, ◌*◌, ◌^◌, ◌≤◌, ◌<◌, ◌≡◌, refl, ap, ◌∙◌, All, concat, some, List, [], ◌∷◌, ◌++◌,
  arith, true, length, drop, append-nil, length-append, take_all, take-append_self, drop_all, ltb,
  leb, ==_self,
}
use simple_module.Base.Word.{le_bytes, le_value, le_value-le_bytes4}
use simple_module.Base.Outcome.{Outcome, done, ◌>>=◌}
use simple_module.MyBuf.{get_buf_len}
use simple_module.MyBuf.Memory.{Allocator, write_at}
use simple_module.MyBuf.Queue.{IsValid, IsBacked, contents, write_at_ok, length-contents}
use simple_module.MyBuf.Insert.{insert_data-Appended}
use simple_module.Header.{
  Status, header, body, HeaderProcess, no_vfd, process_data_len, read_header, read_body,
  read_once_data, read_data_loop, read_data, write_data, with_bodies,
}

-- The reader between two packets: four bytes of a header are to come, and the block of the buffer is as large
-- as `_BufSize` says.
pub record IsBetween (p : HeaderProcess) : Type 0 where
  pub at_header : p.status ≡ header
  pub need : p.need_buf_len ≡ 4
  pub room : length p.header_bytes ≡ 4
  pub valid : IsValid p.vfd_buf
  pub backed : IsBacked p.vfd_buf

-- The state after a header that has come whole.
abbrev after_header : HeaderProcess → ℕ → List ℕ → HeaderProcess
after_header p vfd h = record p {
  status = body;
  need_buf_len = le_value h;
  header_bytes = h;
  process_vfd = vfd;
}

read_header_whole :
    (p : HeaderProcess) (vfd : ℕ) (h m : List ℕ)
    → IsBetween p
    → length h ≡ 4
    → read_header p vfd (h ++ m) ≡ done (after_header p vfd h, 4, [])
unfolding read_header
read_header_whole p vfd h m i four =
    rw (i.need, len, take-append_self 4 h m four, wrote, enough) refl
  where
    len : process_data_len (record p { need_buf_len = 4 }) (h ++ m) ≡ 4
    len = ground (arith, length-append h m, four)

    enough : leb 4 (length (h ++ m)) ≡ true
    enough = ground (arith, length-append h m, four)

    wrote : write_at p.header_bytes 0 h ≡ done h
    wrote =
        write_at_ok p.header_bytes 0 h (omega (arith, four, i.room))
        ∙ ap done (
            ap (◌++◌ h) (drop_all (0 + length h) p.header_bytes (omega (arith, four, i.room)))
            ∙ append-nil h)

-- What a whole body does: it is added to what the buffer holds, and the buffer is handed on.
pub record Completed (p : HeaderProcess) (m : List ℕ)
    (r : Outcome (HeaderProcess × ℕ × List (List ℕ))) : Type 0 where
  pub after : HeaderProcess
  pub returns : r ≡ done (after, length m, (contents p.vfd_buf ++ m) ∷ [])
  pub between : IsBetween after
  pub holds : contents after.vfd_buf ≡ contents p.vfd_buf ++ m
  pub same_size : after.vfd_buf.buf_size ≡ p.vfd_buf.buf_size

read_body_whole :
    (al : Allocator) (p : HeaderProcess) (vfd : ℕ) (m : List ℕ)
    → p.process_vfd ≡ vfd
    → p.need_buf_len ≡ length m
    → length m < 2 ^ 31
    → length p.header_bytes ≡ 4
    → IsValid p.vfd_buf
    → IsBacked p.vfd_buf
    → get_buf_len p.vfd_buf + length m ≤ p.vfd_buf.buf_size
    → Completed p m (read_body al p vfd m)
unfolding read_body
read_body_whole al p vfd m same need small room valid backed fits =
    let (a, size, still) = insert_data-Appended al m valid backed fits in
    let after : HeaderProcess = record p {
      status = header;
      need_buf_len = 4;
      process_vfd = no_vfd;
      vfd_buf = a.after;
    } in
    record {
      after = after;
      returns =
          rw
            (
              same,
              ==_self vfd,
              need,
              small_enough,
              all_len,
              take_all (length m) m (omega arith),
              a.returns,
              ==_self (length m),
              enough,
            )
            (ap (λ w. done (after, length m, w ∷ [])) a.holds);
      between = record {
        at_header = refl;
        need = refl;
        room = room;
        valid = a.valid;
        backed = still;
      };
      holds = a.holds;
      same_size = size;
    }
  where
    small_enough : ltb (length m) (2 ^ 31) ≡ true
    small_enough = ground arith

    all_len : process_data_len (record p { need_buf_len = length m }) m ≡ length m
    all_len = ground arith

    enough : leb (length m) (length m) ≡ true
    enough = ground arith

module _ (al : Allocator) where
  -- One round of `ReadData`.
  pub loop_step :
      (fuel : ℕ) (p p' : HeaderProcess) (vfd k : ℕ) (buf left : List ℕ) (bodies : List (List ℕ))
      → 1 ≤ length buf
      → read_once_data al p vfd buf ≡ done (p', k, bodies)
      → drop k buf ≡ left
      → read_data_loop al (suc fuel) p vfd buf
        ≡ with_bodies al bodies (read_data_loop al fuel p' vfd left)
  unfolding read_data_loop
  loop_step fuel p p' vfd k [] left bodies l e cut = absurd (omega arith)
  loop_step fuel p p' vfd k (b ∷ bs) left bodies l e cut =
      rw (e) (ap (λ w. with_bodies al bodies (read_data_loop al fuel p' vfd w)) cut)

  -- A packet that comes whole, between two others.
  pub record Handed (p : HeaderProcess) (m : List ℕ) (r : Outcome (HeaderProcess × List (List ℕ)))
      : Type 0 where
    pub after : HeaderProcess
    pub returns : r ≡ done (after, (contents p.vfd_buf ++ m) ∷ [])
    pub between : IsBetween after
    pub holds : contents after.vfd_buf ≡ contents p.vfd_buf ++ m
    pub same_size : after.vfd_buf.buf_size ≡ p.vfd_buf.buf_size

  read_data_loop_whole :
      (fuel : ℕ) (p : HeaderProcess) (vfd : ℕ) (m : List ℕ)
      → IsBetween p
      → 1 ≤ length m
      → length m < 2 ^ 31
      → get_buf_len p.vfd_buf + length m ≤ p.vfd_buf.buf_size
      → Handed p m (read_data_loop al (suc (suc (suc fuel))) p vfd (le_bytes 4 (length m) ++ m))
  unfolding read_once_data read_data_loop
  read_data_loop_whole fuel p vfd m i some_bytes small fits =
      let h = le_bytes 4 (length m) in
      let c =
        read_body_whole al (after_header p vfd h) vfd m refl
          (le_value-le_bytes4 (length m) (omega arith)) small refl i.valid i.backed fits in
      record {
        after = c.after;
        returns =
            loop_step (suc (suc fuel)) p (after_header p vfd h) vfd 4 (h ++ m) m [] (omega arith)
              (ap read_by i.at_header ∙ read_header_whole p vfd h m i refl) refl
            ∙ ap (with_bodies al []) (
                loop_step (suc fuel) (after_header p vfd h) c.after vfd (length m) m []
                  ((contents p.vfd_buf ++ m) ∷ []) some_bytes c.returns
                  (drop_all (length m) m (omega arith)));
        between = c.between;
        holds = c.holds;
        same_size = c.same_size;
      }
    where
      read_by : Status → Outcome (HeaderProcess × ℕ × List (List ℕ))
      read_by s = elim s [
        | header ↦ read_header p vfd (le_bytes 4 (length m) ++ m)
        | body ↦ read_body al p vfd (le_bytes 4 (length m) ++ m)
      ]

  write_data_ok :
      (m block : List ℕ)
      → al.malloc (length m + 4) ≡ some block
      → write_data al m ≡ done (le_bytes 4 (length m) ++ m)
  unfolding write_data
  write_data_ok m block memory = rw (memory) refl

  -- For a reader between two packets, with four bytes of a header to come, whose buffer is valid and has a
  -- block as large as `_BufSize`: what `WriteData` makes of a message `ReadData` takes as one packet, and hands
  -- on what the buffer held before it with the message behind, which stays in the buffer, and the reader is
  -- between two packets again; if `malloc` has the memory, and the message has a byte at least, is shorter
  -- than 2 ^ 31 and fits `_BufSize` beside what is there.
  pub read_data-write_data :
      (p : HeaderProcess) (vfd : ℕ) (m block : List ℕ)
      → IsBetween p
      → al.malloc (length m + 4) ≡ some block
      → 1 ≤ length m
      → length m < 2 ^ 31
      → get_buf_len p.vfd_buf + length m ≤ p.vfd_buf.buf_size
      → Handed p m (write_data al m >>= read_data al p vfd)
  unfolding read_data
  read_data-write_data p vfd m block i memory some_bytes small fits =
      let r = read_data_loop_whole (2 * length m + 7) p vfd m i some_bytes small fits in
      record {
        after = r.after;
        returns =
            ap (λ s. s >>= read_data al p vfd) (write_data_ok m block memory)
            ∙ (ap (λ k. read_data_loop al k p vfd (le_bytes 4 (length m) ++ m))
                  {x = 2 * length (le_bytes 4 (length m) ++ m) + 2}
                  {y = suc (suc (suc (2 * length m + 7)))} (omega arith)
                ∙ r.returns);
        between = r.between;
        holds = r.holds;
        same_size = r.same_size;
      }

  -- Messages that are written and read one after another.
  unfoldable pub exchange :
      HeaderProcess → ℕ → List (List ℕ) → Outcome (HeaderProcess × List (List ℕ))
  exchange p vfd [] = done (p, [])
  exchange p vfd (m ∷ ms) =
      (write_data al m >>= read_data al p vfd) >>= λ r. with_bodies al r.1 (exchange r.0 vfd ms)

  -- Each message behind all that came before it.
  unfoldable pub piled : List ℕ → List (List ℕ) → List (List ℕ)
  piled old [] = []
  piled old (m ∷ ms) = (old ++ m) ∷ piled (old ++ m) ms

  -- Messages in packets of their own, for a reader between two packets, with four bytes of a header to come,
  -- whose buffer is valid and has a block as large as `_BufSize`, which is below 2 ^ 31: each body that is
  -- handed on is all that has come so far, and not the message alone, if `malloc` always has the memory, each
  -- message has a byte at least, and all of them fit `_BufSize` beside what is there.
  pub exchange-piled :
      (p : HeaderProcess) (vfd : ℕ) (ms : List (List ℕ))
      → IsBetween p
      → ((n : ℕ) → (block : List ℕ) × (al.malloc n ≡ some block))
      → All (λ m. 1 ≤ length m) ms
      → p.vfd_buf.buf_size < 2 ^ 31
      → get_buf_len p.vfd_buf + length (concat ms) ≤ p.vfd_buf.buf_size
      → (q : HeaderProcess) × (exchange p vfd ms ≡ done (q, piled (contents p.vfd_buf) ms))
  unfolding exchange piled
  exchange-piled p vfd [] i memory some_bytes small fits = (p, refl)
  exchange-piled p vfd (m ∷ ms) i memory some_bytes small fits =
      let r =
        read_data-write_data p vfd m (memory (length m + 4)).0 i (memory (length m + 4)).1
          some_bytes.0 (omega (arith, small, fits, length-append m (concat ms)))
          (omega (arith, fits, length-append m (concat ms))) in
      let grown : get_buf_len r.after.vfd_buf ≡ get_buf_len p.vfd_buf + length m = omega (
        arith,
        length-contents i.valid,
        length-contents r.between.valid,
        ap length r.holds,
        length-append (contents p.vfd_buf) m,
      ) in
      let more =
        exchange-piled r.after vfd ms r.between memory some_bytes.1
          (omega (arith, small, r.same_size))
          (omega (arith, grown, r.same_size, fits, length-append m (concat ms))) in
      (
        more.0,
        rw (r.returns, more.1)
            (ap (λ w. done (more.0, (contents p.vfd_buf ++ m) ∷ piled w ms)) r.holds),
      )
