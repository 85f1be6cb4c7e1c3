-- ===== src/Args/Described.antt =====
-- A table packer of protocol/data_format.cpp that was loaded from a description, `pack` and then `unpack`.
use simple_module.Base.{
  ℕ, suc, ◌≤◌, ◌≡◌, sym, ap, subst, ◌∙◌, true, Option, some, List, [], ◌∷◌, All,
}
use simple_module.Base.Outcome.{done}
use simple_module.Lua.{Lua}
use simple_module.Args.Scalar.{packed, raised}
use simple_module.Args.Written.{if-cases, raised-packed}
use simple_module.Args.Items.{ReadBack}
use simple_module.Args.{table, none_left, pack, pack_opcodes, unpack}
use simple_module.Args.Shapes.{AllArgs-code, IsKeyed, code}
use simple_module.Args.Alike.{FieldsFit, SameFields}
use simple_module.Args.Fields.{IsReadable}
use simple_module.Args.Tables.{shape-ReadBack}
use simple_module.Args.RoundTrip.{opcodes-IsReadable}
use simple_module.Args.Format.{
  Packer, Fields, Chunk, ran, program, loaded, read_chunk, read_text, read_file, format_buf_len,
  new_table_arg,
}
use simple_module.Args.Descriptions.{inner_tables, HaveRefs, shape_of}
use simple_module.Args.Nesting.{
  IsWellNested, FieldsHaveFew, few-FieldsFit, shape_of-AllValues, table-IsWellNested,
}
use simple_module.Args.Loaded.{travel_table-code}

module _ {V : Type 0} where
  -- The constructor makes the packer of a description.
  new_table_arg-program :
      (packers : List (Packer V)) (run : List ℕ → Chunk V) (file : Option (List ℕ)) (c : ℕ)
      (text name : List ℕ) (fields : Fields V) (p : Packer V)
      → read_file file format_buf_len ≡ c ∷ text
      → run (c ∷ text) ≡ ran (some name) (some fields)
      → HaveRefs fields
      → suc (inner_tables fields) ≤ 10
      → new_table_arg packers run file ≡ done (some p)
      → p.arg ≡ table (code (shape_of packers fields) none_left)
  unfolding new_table_arg
  new_table_arg-program packers run file c text name fields p held gave refs few made =
      let (t, ended, deep, ops) = travel_table-code packers fields name refs few in
      let whole : new_table_arg packers run file
          ≡ done (
              some (record { type = name; hashstr = t.hashstr; arg = table (program t.opcodes) })) =
        ap (read_text packers run) held ∙ ap (read_chunk packers) gave ∙ ap (loaded name) ended in
      same_arg _ p (sym whole ∙ made) ∙ ap table ops
    where
      same_arg : (q r : Packer V) → done (some q) ≡ done (some r) → r.arg ≡ q.arg
      same_arg q r e = cc

module _ (lua : Lua) where
  described-ReadBack :
      (packers : List (Packer lua.Value)) (run : List ℕ → Chunk lua.Value) (file : Option (List ℕ))
      (c : ℕ) (text name : List ℕ) (fields : Fields lua.Value) (p : Packer lua.Value)
      (v : lua.Value) (room : ℕ) (bs rest : List ℕ)
      → read_file file format_buf_len ≡ c ∷ text
      → run (c ∷ text) ≡ ran (some name) (some fields)
      → HaveRefs fields
      → suc (inner_tables fields) ≤ 10
      → IsKeyed lua (shape_of packers fields)
      → FieldsFit lua (shape_of packers fields) v
      → new_table_arg packers run file ≡ done (some p)
      → pack lua p.arg v room ≡ packed bs
      → ReadBack
          (unpack lua p.arg)
          (λ w. (lua.is_table w ≡ true) × SameFields lua (shape_of packers fields) v w)
          bs
          rest
  unfolding pack unpack
  described-ReadBack packers run file c text name fields p v room bs rest held gave refs few keyed
        fits made wrote =
      let s = shape_of packers fields in
      let is_table =
        new_table_arg-program packers run file c text name fields p held gave refs few made in
      subst
        (λ a. ReadBack (unpack lua a) (λ w. (lua.is_table w ≡ true) × SameFields lua s v w) bs rest)
        (sym is_table)
        (if-cases (lua.is_table v) (pack_opcodes lua (code s none_left) (v ∷ []) room) raised
          (packed bs)
          (shape-ReadBack lua s v room bs rest
            (AllArgs-code (IsReadable lua) s none_left
              (opcodes-IsReadable lua (code s none_left))).0
            fits keyed)
          (raised-packed bs) (subst (λ a. pack lua a v room ≡ packed bs) is_table wrote))

  -- A packer loaded from a file that holds the description of at most ten tables, itself included, whose
  -- keys are numbers and strings, no two of one table equal, where the packers that are known have programs
  -- that end just the tables that they begin, with keys that differ: its own is such a program, and what it
  -- writes for a table whose counted arrays have fewer than 256 items it reads, whatever bytes follow, as a
  -- table that has for each described field that there is a packer for the value of that field, and it reads
  -- just what was written.
  pub unpack-pack_described :
      (packers : List (Packer lua.Value)) (run : List ℕ → Chunk lua.Value) (file : Option (List ℕ))
      (c : ℕ) (text name : List ℕ) (fields : Fields lua.Value) (p : Packer lua.Value)
      (v : lua.Value) (room : ℕ) (bs rest : List ℕ)
      → All (λ q. IsWellNested lua q.arg) packers
      → read_file file format_buf_len ≡ c ∷ text
      → run (c ∷ text) ≡ ran (some name) (some fields)
      → HaveRefs fields
      → suc (inner_tables fields) ≤ 10
      → IsKeyed lua (shape_of packers fields)
      → FieldsHaveFew lua (shape_of packers fields) v
      → new_table_arg packers run file ≡ done (some p)
      → pack lua p.arg v room ≡ packed bs
      → IsWellNested lua p.arg
        × ReadBack
            (unpack lua p.arg)
            (λ w. (lua.is_table w ≡ true) × SameFields lua (shape_of packers fields) v w)
            bs
            rest
  unpack-pack_described packers run file c text name fields p v room bs rest nested held gave refs
        few keyed items made wrote =
      let s = shape_of packers fields in
      let values = shape_of-AllValues lua packers fields nested in
      (
        subst (IsWellNested lua)
            (sym
              (new_table_arg-program packers run file c text name fields p held gave refs few made))
            (table-IsWellNested lua s keyed values),
        described-ReadBack packers run file c text name fields p v room bs rest held gave refs few
            keyed (few-FieldsFit lua s v values items) made wrote,
      )
