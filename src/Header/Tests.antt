-- ===== src/Header/Tests.antt =====
-- Runs of the header reader, and the theorems at concrete inputs.
use simple_module.Base.{◌≡◌, refl, [], ◌∷◌, arith, replicate}
use simple_module.Base.Outcome.{done, fault, ◌>>=◌}
use simple_module.MyBuf.Heap.{heap}
use simple_module.Header.{HeaderProcess, header, no_vfd, read_data, write_data}
use simple_module.Header.Reading.{
  IsBetween, Handed, read_data-write_data, exchange, piled, exchange-piled,
}
use simple_module.Header.Split.{read_data_split}

-- A reader with a buffer of eight bytes.
abbrev small_reader : HeaderProcess
small_reader = record {
  status = header;
  need_buf_len = 4;
  header_bytes = replicate 4 0;
  process_vfd = no_vfd;
  vfd_buf = record { buf_size = 8; block = replicate 8 0; head = 0; tail = 0 };
}

small_reader-IsBetween : IsBetween small_reader
small_reader-IsBetween = record {
  at_header = refl;
  need = refl;
  room = refl;
  valid = record {
    ordered = omega arith;
    in_block = omega arith;
    in_size = omega arith;
    positive = omega arith;
  };
  backed = omega arith;
}

read_data-write_data_example :
    Handed heap small_reader
      (5 ∷ 6 ∷ [])
      (write_data heap (5 ∷ 6 ∷ []) >>= read_data heap small_reader 9)
read_data-write_data_example =
    read_data-write_data heap small_reader 9 (5 ∷ 6 ∷ []) (replicate 6 0) small_reader-IsBetween
      refl (omega arith) (omega arith) (omega arith)

exchange-piled_example :
    (q : HeaderProcess) × (exchange heap small_reader 9 ((5 ∷ []) ∷ (6 ∷ []) ∷ [])
      ≡ done (q, (5 ∷ []) ∷ (5 ∷ 6 ∷ []) ∷ []))
unfolding piled
exchange-piled_example =
    exchange-piled heap small_reader 9 ((5 ∷ []) ∷ (6 ∷ []) ∷ []) small_reader-IsBetween
      (λ n. (replicate n 0, refl)) (omega arith, (omega arith, tt)) (omega arith) (omega arith)

read_data_split_example :
    (q : HeaderProcess) × (read_data heap small_reader 9 (5 ∷ 0 ∷ []) ≡ done (q, []))
    × (read_data heap q 9 (0 ∷ 0 ∷ 7 ∷ []) ≡ fault)
read_data_split_example =
    read_data_split heap small_reader 9 9 (5 ∷ 0 ∷ []) (0 ∷ 0 ∷ 7 ∷ []) small_reader-IsBetween
      (omega arith) (omega arith) (omega arith)
