-- ===== src/Args/Bounds.antt =====
-- How much the argument packers write, beside the room they are given.
use simple_module.Base.{
  ℕ, zero, suc, ◌+◌, ◌-◌, ◌≤◌, ◌≡◌, Option, some, none, List, [], ◌∷◌, ltb, ◌==◌, ◌&&◌, not, length,
  arith, length-append,
}
use simple_module.Base.Word.{u8, u32, le_bytes}
use simple_module.Lua.{Lua}
use simple_module.Args.Scalar.{
  Packed, packed, rejected, raised, checked, used, and_then, number_bytes, is_negative,
}
use simple_module.Args.Strings.{checked-packed, string_bytes-le}
use simple_module.Args.Written.{
  and_then-packed, if-cases, rejected-packed, raised-packed, astray-packed, used-packed,
}
use simple_module.Args.{
  Arg, number, byte, word, dword, string, table, array, Opcodes, none_left, tb_begin, tb_no_key,
  push_value, tb_end, rounds, pack_int, pack_string, pack_items, pack_counted, pack_array, pack,
  pack_opcodes,
}

-- Two calls in a row stay in the room if each does.
and_then-le :
    (p : Packed) (next : ℕ → Packed) (room : ℕ) (bs : List ℕ)
    → ((cs : List ℕ) → p ≡ packed cs → length cs ≤ room)
    → ((len : ℕ) (ds : List ℕ) → next len ≡ packed ds → length ds ≤ room - len)
    → and_then p next ≡ packed bs
    → length bs ≤ room
and_then-le p next room bs first second h =
    let b = and_then-packed p next bs h in
    rw (b.both, length-append b.first b.second)
      (omega (arith, first b.first b.wrote, second (length b.first) b.second b.went_on))

module _ (lua : Lua) where
  pack_int-le :
      (o : Option ℕ) (bytes : ℕ → List ℕ) (room : ℕ) (bs : List ℕ)
      → pack_int lua o bytes room ≡ packed bs
      → length bs ≤ room
  pack_int-le none bytes room bs h = absurd (ground arith)
  pack_int-le (some w) bytes room bs h = (checked-packed (bytes w) bs room h).1

  pack_string-le :
      (o : Option (List ℕ)) (room : ℕ) (bs : List ℕ)
      → pack_string lua o room ≡ packed bs
      → length bs ≤ room
  pack_string-le none room bs h = absurd (ground arith)
  pack_string-le (some s) room bs h = string_bytes-le s bs room h

  module _ (f : lua.Value → ℕ → Packed)
      (inside : (v : lua.Value) (room : ℕ) (bs : List ℕ)
        → f v room ≡ packed bs
        → length bs ≤ room) where
    pack_items-le :
        (t : lua.Value) (i n room : ℕ) (bs : List ℕ)
        → pack_items lua f t i n room ≡ packed bs
        → length bs ≤ room
    unfolding pack_items
    pack_items-le t i zero room bs h = ground arith
    pack_items-le t i (suc n) room bs h =
        and_then-le (used (f (lua.raw_get t (lua.of_int i)) room))
          (λ len. pack_items lua f t (i + 1) n (room - len)) room bs
          (λ cs e. inside (lua.raw_get t (lua.of_int i)) room cs (used-packed _ cs e).0)
          (λ len ds e. pack_items-le t (i + 1) n (room - len) ds e) h

    pack_counted-le :
        (t : lua.Value) (n room : ℕ) (bs : List ℕ)
        → pack_counted lua f t n room ≡ packed bs
        → length bs ≤ room
    unfolding pack_counted
    pack_counted-le t n room bs =
        if-cases (not (is_negative n) && ltb 512 n) rejected (pack_items lua f t 1 (rounds n) room)
          (packed bs) (rejected-packed bs) (pack_items-le t 1 (rounds n) room bs)

    pack_array-le :
        (t : lua.Value) (size room : ℕ) (bs : List ℕ)
        → pack_array lua f t size room ≡ packed bs
        → length bs ≤ room
    unfolding pack_array
    pack_array-le t size room bs =
        if-cases (size == 0)
          (and_then (checked (u8 (lua.objlen t) ∷ []) room) (λ len. rest (room - len)))
          (pack_counted lua f t size room) (packed bs)
          (and_then-le (checked (u8 (lua.objlen t) ∷ []) room) (λ len. rest (room - len)) room bs
            (λ cs c. (checked-packed (u8 (lua.objlen t) ∷ []) cs room c).1)
            (λ len ds c. pack_counted-le t (u32 (lua.objlen t)) (room - len) ds c))
          (pack_counted-le t size room bs)
      where
        rest : ℕ → Packed
        rest left = pack_counted lua f t (u32 (lua.objlen t)) left

  mutual
    unfolding pack

    pack-le_arg :
        (a : Arg lua.Value) (v : lua.Value) (room : ℕ) (bs : List ℕ)
        → pack lua a v room ≡ packed bs
        → length bs ≤ room
    pack-le_arg number v room bs = pack_int-le (lua.as_int v) number_bytes room bs
    pack-le_arg byte v room bs = pack_int-le (lua.as_int v) (le_bytes 1) room bs
    pack-le_arg word v room bs = pack_int-le (lua.as_int v) (le_bytes 2) room bs
    pack-le_arg dword v room bs = pack_int-le (lua.as_int v) (le_bytes 4) room bs
    pack-le_arg string v room bs = pack_string-le (lua.as_string v) room bs
    pack-le_arg (table ops) v room bs =
        if-cases (lua.is_table v) (pack_opcodes lua ops (v ∷ []) room) raised (packed bs)
          (pack_opcodes-le ops (v ∷ []) room bs) (raised-packed bs)
    pack-le_arg (array base size) v room bs =
        if-cases (lua.is_table v) (pack_array lua (pack lua base) v size room) raised (packed bs)
          (pack_array-le (pack lua base) (pack-le_arg base) v size room bs) (raised-packed bs)

    pack_opcodes-le :
        (ops : Opcodes lua.Value) (stack : List lua.Value) (room : ℕ) (bs : List ℕ)
        → pack_opcodes lua ops stack room ≡ packed bs
        → length bs ≤ room
    pack_opcodes-le none_left stack room bs h = ground arith
    pack_opcodes-le (tb_begin k ops) [] room bs h = astray-packed bs h
    pack_opcodes-le (tb_begin k ops) (t ∷ stack) room bs h =
        if-cases (lua.is_table (lua.raw_get t k))
          (pack_opcodes lua ops (lua.raw_get t k ∷ t ∷ stack) room) raised (packed bs)
          (pack_opcodes-le ops (lua.raw_get t k ∷ t ∷ stack) room bs) (raised-packed bs) h
    pack_opcodes-le (tb_no_key ops) stack room bs h = astray-packed bs h
    pack_opcodes-le (push_value k a ops) [] room bs h = astray-packed bs h
    pack_opcodes-le (push_value k a ops) (t ∷ stack) room bs h =
        and_then-le (used (pack lua a (lua.raw_get t k) room))
          (λ len. pack_opcodes lua ops (t ∷ stack) (room - len)) room bs
          (λ cs c. pack-le_arg a (lua.raw_get t k) room cs (used-packed _ cs c).0)
          (λ len ds c. pack_opcodes-le ops (t ∷ stack) (room - len) ds c) h
    pack_opcodes-le (tb_end ops) [] room bs h = astray-packed bs h
    pack_opcodes-le (tb_end ops) (t ∷ stack) room bs h = pack_opcodes-le ops stack room bs h

  -- Whatever a packer writes, tables of named fields included, is no longer than the room it was given.
  pack-le :
      (a : Arg lua.Value) (v : lua.Value) (room : ℕ) (bs : List ℕ)
      → pack lua a v room ≡ packed bs
      → length bs ≤ room
  pack-le = pack-le_arg
