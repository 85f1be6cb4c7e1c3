-- ===== src/Args/RoundTrip.antt =====
-- `pack` and then `unpack` of protocol/data_format.cpp.
use simple_module.Base.{
  ℕ, ◌%◌, ◌^◌, ◌<◌, ◌≡◌, refl, sym, ap, ap₂, subst, ◌∙◌, Option, some, none, List, [], ◌∷◌, ◌++◌,
  length, arith,
}
use simple_module.Base.Word.{u8, le_bytes, le_value, length-le_bytes, le_value-le_bytes4}
use simple_module.Lua.{Lua}
use simple_module.Args.Scalar.{
  packed, raised, Unpacked, unpacked, number_bytes, sign_extend, read_number, read_fixed,
  read_string,
}
use simple_module.Args.Numbers.{read_number-number_bytes, read_fixed-le_bytes}
use simple_module.Args.Strings.{checked-packed, read_string-string_bytes}
use simple_module.Args.Written.{if-cases, raised-packed}
use simple_module.Args.Items.{ReadBack}
use simple_module.Args.{
  Arg, number, byte, word, dword, string, table, array, pack_int, pack_string, pack_array, pack,
  unpack, pack_opcodes, Opcodes, none_left, tb_begin, tb_no_key, push_value, tb_end,
}
use simple_module.Args.Shapes.{AllArgs}
use simple_module.Args.Alike.{IsCountable, IsCut, IsReadAs}
use simple_module.Args.Fields.{IsReadable}
use simple_module.Args.Tables.{table-ReadBack}
use simple_module.Args.Arrays.{array-ReadBack}

module _ (lua : Lua) where
  -- A packer of integers, from what it reads back of the bytes of one.
  int-ReadBack :
      (g : List ℕ → Unpacked lua.Value) (bytes : ℕ → List ℕ) (cut : ℕ → ℕ)
      → ((n : ℕ) (rest : List ℕ)
          → n < 2 ^ 32
          → g (bytes n ++ rest) ≡ unpacked (lua.of_int (cut n)) (length (bytes n)))
      → (v : lua.Value) (o : Option ℕ) (room : ℕ) (bs rest : List ℕ) → lua.as_int v ≡ o
      → pack_int lua o bytes room ≡ packed bs
      → ReadBack g (IsCut lua cut v) bs rest
  int-ReadBack g bytes cut back v none room bs rest e h = raised-packed bs h
  int-ReadBack g bytes cut back v (some n) room bs rest e h =
      let same = (checked-packed (bytes n) bs room h).0 in
      record {
        value = lua.of_int (cut n);
        read =
            subst (λ cs. g (cs ++ rest) ≡ unpacked (lua.of_int (cut n)) (length cs)) same
              (back n rest (lua.as_int_lt v n e));
        alike = (n, e, refl);
      }

  string-ReadBack :
      (v : lua.Value) (o : Option (List ℕ)) (room : ℕ) (bs rest : List ℕ)
      → lua.as_string v ≡ o
      → pack_string lua o room ≡ packed bs
      → ReadBack (read_string lua.of_string) (IsReadAs lua string v) bs rest
  string-ReadBack v none room bs rest e h = raised-packed bs h
  string-ReadBack v (some s) room bs rest e h = record {
    value = lua.of_string s;
    read = read_string-string_bytes lua.of_string s bs rest room h;
    alike = (s, e, refl);
  }

  le_value-low : (n : ℕ) → le_value (le_bytes 2 n) ≡ n % 2 ^ 16
  le_value-low n = omega arith

  read_fixed_back :
      (k : ℕ) (widen cut : ℕ → ℕ)
      → ((n : ℕ) → n < 2 ^ 32 → widen (le_value (le_bytes k n)) ≡ cut n)
      → (n : ℕ) (rest : List ℕ) → n < 2 ^ 32
      → read_fixed lua.of_int k widen (le_bytes k n ++ rest)
        ≡ unpacked (lua.of_int (cut n)) (length (le_bytes k n))
  read_fixed_back k widen cut same n rest l =
      read_fixed-le_bytes lua.of_int k n widen rest
      ∙ ap₂ (λ m len. unpacked (lua.of_int m) len) (same n l) (sym (length-le_bytes k n))

  mutual
    unfolding pack unpack

    arg-IsReadable : (a : Arg lua.Value) → IsReadable lua a
    arg-IsReadable number v room bs rest c =
        int-ReadBack (read_number lua.of_int) number_bytes (λ n. n)
          (read_number-number_bytes lua.of_int) v (lua.as_int v) room bs rest refl
    arg-IsReadable byte v room bs rest c =
        int-ReadBack (read_fixed lua.of_int 1 (λ n. n)) (le_bytes 1) u8
          (read_fixed_back 1 (λ n. n) u8 (λ n l. omega arith)) v (lua.as_int v) room bs rest refl
    arg-IsReadable word v room bs rest c =
        int-ReadBack (read_fixed lua.of_int 2 sign_extend) (le_bytes 2)
          (λ n. sign_extend (n % 2 ^ 16))
          (read_fixed_back 2 sign_extend (λ n. sign_extend (n % 2 ^ 16))
            (λ n l. ap sign_extend (le_value-low n)))
          v (lua.as_int v) room bs rest refl
    arg-IsReadable dword v room bs rest c =
        int-ReadBack (read_fixed lua.of_int 4 (λ n. n)) (le_bytes 4) (λ n. n)
          (read_fixed_back 4 (λ n. n) (λ n. n) (λ n l. le_value-le_bytes4 n l)) v (lua.as_int v)
          room bs rest refl
    arg-IsReadable string v room bs rest c = string-ReadBack v (lua.as_string v) room bs rest refl
    arg-IsReadable (table ops) v room bs rest c =
        if-cases (lua.is_table v) (pack_opcodes lua ops (v ∷ []) room) raised (packed bs)
          (table-ReadBack lua ops v room bs rest (opcodes-IsReadable ops) c) (raised-packed bs)
    arg-IsReadable (array base size) v room bs rest c =
        if-cases (lua.is_table v) (pack_array lua (pack lua base) v size room) raised (packed bs)
          (array-ReadBack lua base (arg-IsReadable base) v size room bs rest c) (raised-packed bs)

    pub opcodes-IsReadable : (ops : Opcodes lua.Value) → AllArgs (IsReadable lua) ops
    opcodes-IsReadable none_left = tt
    opcodes-IsReadable (tb_begin k ops) = opcodes-IsReadable ops
    opcodes-IsReadable (tb_no_key ops) = opcodes-IsReadable ops
    opcodes-IsReadable (push_value k a ops) = (arg-IsReadable a, opcodes-IsReadable ops)
    opcodes-IsReadable (tb_end ops) = opcodes-IsReadable ops

  -- For a value whose counted arrays have fewer than 256 items, and a packer each of whose tables has a
  -- program that ends just what it begins, with keys that differ: what `pack` writes for the value `unpack`
  -- reads as that value, its tables field by field (see `IsReadAs`), from just those bytes, whatever follows
  -- them.
  pub unpack-pack :
      (a : Arg lua.Value) (v : lua.Value) (room : ℕ) (bs rest : List ℕ)
      → IsCountable lua a v
      → pack lua a v room ≡ packed bs
      → ReadBack (unpack lua a) (IsReadAs lua a v) bs rest
  unpack-pack = arg-IsReadable
