-- ===== src/Args/Total.antt =====
-- Which values the packers of protocol/data_format.cpp write, and how that depends on the room.
use simple_module.Base.{
  ℕ, zero, suc, ◌+◌, ◌-◌, ◌≤◌, ◌<◌, ◌≡◌, refl, subst, Bool, true, false, Option, some, List, [],
  ◌∷◌, length, arith, ltb, ◌==◌, not, ◌&&◌, if◌then◌else◌, inl, inr, Bool-cases, sym,
}
use simple_module.Base.Word.{u8, u32, le_bytes}
use simple_module.Lua.{Lua}
use simple_module.Args.Scalar.{
  Packed, rejected, raised, checked, used, and_then, number_bytes, is_negative,
}
use simple_module.Args.Alike.{item_count}
use simple_module.Args.{
  Arg, number, byte, word, dword, string, table, array, rounds, pack_int, pack_string, pack_items,
  pack_counted, pack_array, pack, pack_opcodes, Opcodes, none_left, tb_begin, tb_no_key, push_value,
  tb_end,
}
use simple_module.Args.Enough.{
  Writes, checked_enough, number_bytes_some, and_then-Writes, Writes-le, used-Writes,
  string_bytes-Writes,
}

module _ (lua : Lua) where
  -- How many values a program packs.
  abbrev pub value_count : Opcodes lua.Value → ℕ
  value_count none_left = 0
  value_count (tb_begin k ops) = value_count ops
  value_count (tb_no_key ops) = value_count ops
  value_count (push_value k a ops) = 1 + value_count ops
  value_count (tb_end ops) = value_count ops

  -- The number of bytes that a packer writes at least.
  abbrev pub least : Arg lua.Value → ℕ
  least (table ops) = value_count ops
  least _ = 1

  -- A number; a string of at most 65534 bytes; a table with at most 255 such items, which is the most that a
  -- byte counts, for a size that is not negative; or a table with such fields where the program looks for them, which finds tables where it
  -- begins them, and ends none but those that are there. Items and fields take a byte at least.
  abbrev mutual
    pub IsPackable : Arg lua.Value → lua.Value → Type 0
    IsPackable number v = (n : ℕ) × (lua.as_int v ≡ some n)
    IsPackable byte v = (n : ℕ) × (lua.as_int v ≡ some n)
    IsPackable word v = (n : ℕ) × (lua.as_int v ≡ some n)
    IsPackable dword v = (n : ℕ) × (lua.as_int v ≡ some n)
    IsPackable string v = (s : List ℕ) × (lua.as_string v ≡ some s) × (length s < 65535)
    IsPackable (table ops) v = (lua.is_table v ≡ true) × ArePackableFields ops (v ∷ [])
    IsPackable (array base size) v =
        (lua.is_table v ≡ true)
        × (is_negative size ≡ false)
        × (item_count lua v size ≤ 255)
        × (1 ≤ least base)
        × ((j : ℕ)
            → j < item_count lua v size
            → IsPackable base (lua.raw_get v (lua.of_int (j + 1))))

    pub ArePackableFields : Opcodes lua.Value → List lua.Value → Type 0
    ArePackableFields none_left ts = Unit
    ArePackableFields (tb_begin k ops) (t ∷ ts) =
        (lua.is_table (lua.raw_get t k) ≡ true) × ArePackableFields ops (lua.raw_get t k ∷ t ∷ ts)
    ArePackableFields (push_value k a ops) (t ∷ ts) =
        IsPackable a (lua.raw_get t k) × (1 ≤ least a) × ArePackableFields ops (t ∷ ts)
    ArePackableFields (tb_end ops) (t ∷ ts) = ArePackableFields ops ts
    ArePackableFields _ _ = ⊥

  pack_int-Writes :
      (o : Option ℕ) (n : ℕ) (bytes : ℕ → List ℕ)
      → o ≡ some n
      → 1 ≤ length (bytes n)
      → Writes (pack_int lua o bytes) 1
  pack_int-Writes o n bytes e l = record {
    bytes = bytes n;
    some_bytes = l;
    enough = λ room h. rw (e) (checked_enough (bytes n) room h);
  }

  pack_string-Writes :
      (o : Option (List ℕ)) (s : List ℕ)
      → o ≡ some s
      → length s < 65535
      → Writes (pack_string lua o) 1
  pack_string-Writes o s e short =
      subst (λ p. Writes (pack_string lua p) 1) (sym e) (string_bytes-Writes s short)

  module _ (f : lua.Value → ℕ → Packed) (t : lua.Value) (m : ℕ)
      (each : (j : ℕ) → j < m → Writes (f (lua.raw_get t (lua.of_int (j + 1)))) 1) where
    pack_items-Writes : (i n : ℕ) → i + n ≤ m → Writes (pack_items lua f t (i + 1) n) n
    unfolding pack_items
    pack_items-Writes i zero h = record {
      bytes = [];
      some_bytes = omega arith;
      enough = λ room h. refl;
    }
    pack_items-Writes i (suc n) h =
        subst (Writes (pack_items lua f t (i + 1) (suc n))) {x = 1 + n} {y = suc n} (omega arith) (
          and_then-Writes (λ room. used (f (lua.raw_get t (lua.of_int (i + 1))) room))
            (pack_items lua f t (i + 1 + 1) n) 1 n
            (used-Writes (f (lua.raw_get t (lua.of_int (i + 1)))) (each i (omega arith)))
            (pack_items-Writes (i + 1) n (omega arith)))

    pack_counted-Writes :
        (n : ℕ) → is_negative n ≡ false → n ≤ m → n ≤ 512 → Writes (pack_counted lua f t n) n
    unfolding pack_counted
    pack_counted-Writes n e l k =
        subst (λ b. Writes (λ room. if b then rejected else pack_items lua f t 1 (rounds n) room) n)
          (sym guard)
          (subst (λ c. Writes (pack_items lua f t 1 c) n) (sym plain)
            (pack_items-Writes 0 n (omega arith)))
      where
        guard : (not (is_negative n) && ltb 512 n) ≡ false
        guard = ground arith

        plain : rounds n ≡ n
        plain = ground arith

  pack_array-Writes :
      (f : lua.Value → ℕ → Packed) (v : lua.Value) (size : ℕ)
      → is_negative size ≡ false
      → item_count lua v size ≤ 512
      → ((j : ℕ) → j < item_count lua v size → Writes (f (lua.raw_get v (lua.of_int (j + 1)))) 1)
      → Writes (pack_array lua f v size) 1
  unfolding pack_array
  pack_array-Writes f v size e l each = elim (Bool-cases (size == 0)) [
    | inl z ↦
        let count : item_count lua v size ≡ lua.objlen v = rw (z) refl in
        subst either (sym z) (
          Writes-le (either_branch true) 1 (1 + u32 (lua.objlen v)) (omega arith) (
            and_then-Writes (checked (u8 (lua.objlen v) ∷ []))
              (pack_counted lua f v (u32 (lua.objlen v))) 1 (u32 (lua.objlen v))
              (record {
                bytes = u8 (lua.objlen v) ∷ [];
                some_bytes = omega arith;
                enough = λ room h. checked_enough (u8 (lua.objlen v) ∷ []) room h;
              })
              (pack_counted-Writes f v (item_count lua v size) each (u32 (lua.objlen v))
                (plain (lua.objlen v) (omega (arith, l, count))) (omega (arith, l, count))
                (omega (arith, l, count)))))
    | inr z ↦
        let count : item_count lua v size ≡ size = rw (z) (non_negative size e) in
        subst either (sym z) (
          Writes-le (pack_counted lua f v size) 1 size (non_zero size z) (
            pack_counted-Writes f v (item_count lua v size) each size e (omega (arith, count))
              (omega (arith, l, count))))
  ]
    where
      either_branch : Bool → ℕ → Packed
      either_branch b room =
          if b
          then and_then (checked (u8 (lua.objlen v) ∷ []) room)
              (λ len. pack_counted lua f v (u32 (lua.objlen v)) (room - len))
          else pack_counted lua f v size room

      either : Bool → Type 0
      either b = Writes (either_branch b) 1

      plain : (n : ℕ) → n ≤ 512 → is_negative (u32 n) ≡ false
      plain n h = ground arith

      non_negative : (n : ℕ) → is_negative n ≡ false → rounds n ≡ n
      non_negative n h = ground arith

      non_zero : (n : ℕ) → (n == 0) ≡ false → 1 ≤ n
      non_zero n h = ground arith

  mutual
    unfolding pack

    arg-Writes :
        (a : Arg lua.Value) (v : lua.Value) → IsPackable a v → Writes (pack lua a v) (least a)
    arg-Writes number v p =
        pack_int-Writes (lua.as_int v) p.0 number_bytes p.1 (number_bytes_some p.0)
    arg-Writes byte v p = pack_int-Writes (lua.as_int v) p.0 (le_bytes 1) p.1 (omega arith)
    arg-Writes word v p = pack_int-Writes (lua.as_int v) p.0 (le_bytes 2) p.1 (omega arith)
    arg-Writes dword v p = pack_int-Writes (lua.as_int v) p.0 (le_bytes 4) p.1 (omega arith)
    arg-Writes string v p = pack_string-Writes (lua.as_string v) p.0 p.1 p.2
    arg-Writes (table ops) v p =
        subst
          (λ b.
            Writes (λ room. if b then pack_opcodes lua ops (v ∷ []) room else raised)
              (value_count ops))
          (sym p.0) (opcodes-Writes ops (v ∷ []) p.1)
    arg-Writes (array base size) v p =
        subst
          (λ b. Writes (λ room. if b then pack_array lua (pack lua base) v size room else raised) 1)
          (sym p.0)
          (pack_array-Writes (pack lua base) v size p.1 (omega (arith, p.2)) (λ j l.
            let item = lua.raw_get v (lua.of_int (j + 1)) in
            Writes-le (pack lua base item) 1 (least base) p.3 (arg-Writes base item (p.4 j l))))

    opcodes-Writes :
        (ops : Opcodes lua.Value) (stack : List lua.Value)
        → ArePackableFields ops stack
        → Writes (pack_opcodes lua ops stack) (value_count ops)
    opcodes-Writes none_left stack p = record {
      bytes = [];
      some_bytes = omega arith;
      enough = λ room h. refl;
    }
    opcodes-Writes (tb_begin k ops) [] p = absurd p
    opcodes-Writes (tb_begin k ops) (t ∷ ts) p =
        subst
          (λ b.
            Writes
              (λ room. if b then pack_opcodes lua ops (lua.raw_get t k ∷ t ∷ ts) room else raised)
              (value_count ops))
          (sym p.0) (opcodes-Writes ops (lua.raw_get t k ∷ t ∷ ts) p.1)
    opcodes-Writes (tb_no_key ops) stack p = absurd p
    opcodes-Writes (push_value k a ops) [] p = absurd p
    opcodes-Writes (push_value k a ops) (t ∷ ts) p =
        and_then-Writes (λ room. used (pack lua a (lua.raw_get t k) room))
          (pack_opcodes lua ops (t ∷ ts)) 1 (value_count ops)
          (used-Writes (pack lua a (lua.raw_get t k)) (
            Writes-le (pack lua a (lua.raw_get t k)) 1 (least a) p.1
              (arg-Writes a (lua.raw_get t k) p.0)))
          (opcodes-Writes ops (t ∷ ts) p.2)
    opcodes-Writes (tb_end ops) [] p = absurd p
    opcodes-Writes (tb_end ops) (t ∷ ts) p = opcodes-Writes ops ts p

  -- A number, for the packers of numbers; a string of at most 65534 bytes; for an array packer of a size that
  -- is not negative a table with at most 255 such items, whose packer writes a byte at least; and for a table
  -- packer a table where its program, which begins tables by keys that have a reference and ends none but
  -- those that are there, finds tables where it begins them and such fields, whose packers write a byte at
  -- least: it is written, in at least one byte, or one for each value of a table packer's program, and the
  -- same bytes go into any room that holds them.
  pub pack-Writes :
      (a : Arg lua.Value) (v : lua.Value) → IsPackable a v → Writes (pack lua a v) (least a)
  pack-Writes = arg-Writes
