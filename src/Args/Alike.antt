-- ===== src/Args/Alike.antt =====
-- Which values `pack` of protocol/data_format.cpp writes so that `unpack` reads them again, and what it
-- reads for them.
use simple_module.Base.{ℕ, ◌+◌, ◌%◌, ◌^◌, ◌<◌, ◌≡◌, true, some, List, [], ◌∷◌, ◌==◌, if◌then◌else◌}
use simple_module.Base.Word.{u8}
use simple_module.Lua.{Lua}
use simple_module.Args.Scalar.{sign_extend}
use simple_module.Args.{
  Arg, number, byte, word, dword, string, table, array, Opcodes, none_left, tb_begin, push_value,
  tb_end, rounds,
}
use simple_module.Args.Shapes.{Shape, shape_end, shape_value, shape_sub, code, IsNested}

module _ (lua : Lua) where
  -- The number of items that an array packer writes.
  abbrev pub item_count : lua.Value → ℕ → ℕ
  item_count v size = if size == 0 then lua.objlen v else rounds size

  -- An array whose length is written has fewer than 256 items. The program of a table ends each table that
  -- it begins, with keys that differ, and this holds of the fields too, which are found with the stack of
  -- `pack_opcodes`.
  abbrev mutual
    pub IsCountable : Arg lua.Value → lua.Value → Type 0
    IsCountable number v = Unit
    IsCountable byte v = Unit
    IsCountable word v = Unit
    IsCountable dword v = Unit
    IsCountable string v = Unit
    IsCountable (table ops) v = IsNested lua ops × AreCountableFields ops (v ∷ [])
    IsCountable (array base size) v =
        (size ≡ 0 → lua.objlen v < 256)
        × ((j : ℕ) → IsCountable base (lua.raw_get v (lua.of_int j)))

    pub AreCountableFields : Opcodes lua.Value → List lua.Value → Type 0
    AreCountableFields (tb_begin k ops) (t ∷ st) = AreCountableFields ops (lua.raw_get t k ∷ t ∷ st)
    AreCountableFields (push_value k a ops) (t ∷ st) =
        IsCountable a (lua.raw_get t k) × AreCountableFields ops (t ∷ st)
    AreCountableFields (tb_end ops) (t ∷ st) = AreCountableFields ops st
    AreCountableFields _ _ = Unit

  -- The second value is the integer of the first, cut by `cut`.
  abbrev pub IsCut : (ℕ → ℕ) → lua.Value → lua.Value → Type 0
  IsCut cut v w = (n : ℕ) × (lua.as_int v ≡ some n) × (w ≡ lua.of_int (cut n))

  -- What is read back for a value: its integer, whole, its low byte, or its low 16 bits as a signed
  -- number; its string; for an array a table of such items; and for a table one with such fields, each
  -- table in it a table.
  abbrev mutual
    pub IsReadAs : Arg lua.Value → lua.Value → lua.Value → Type 0
    IsReadAs number v w = IsCut (λ n. n) v w
    IsReadAs byte v w = IsCut u8 v w
    IsReadAs word v w = IsCut (λ n. sign_extend (n % 2 ^ 16)) v w
    IsReadAs dword v w = IsCut (λ n. n) v w
    IsReadAs string v w = (s : List ℕ) × (lua.as_string v ≡ some s) × (w ≡ lua.of_string s)
    IsReadAs (table ops) v w = (lua.is_table w ≡ true) × AreFieldsReadAs ops (v ∷ []) (w ∷ [])
    IsReadAs (array base size) v w =
        (lua.is_table w ≡ true)
        × ((j : ℕ)
            → j < item_count v size
            → IsReadAs base (lua.raw_get v (lua.of_int (j + 1)))
                (lua.raw_get w (lua.of_int (j + 1))))

    pub AreFieldsReadAs : Opcodes lua.Value → List lua.Value → List lua.Value → Type 0
    AreFieldsReadAs none_left ts us = Unit
    AreFieldsReadAs (tb_begin k ops) (t ∷ ts) (u ∷ us) =
        (lua.is_table (lua.raw_get u k) ≡ true)
        × AreFieldsReadAs ops (lua.raw_get t k ∷ t ∷ ts) (lua.raw_get u k ∷ u ∷ us)
    AreFieldsReadAs (push_value k a ops) (t ∷ ts) (u ∷ us) =
        IsReadAs a (lua.raw_get t k) (lua.raw_get u k) × AreFieldsReadAs ops (t ∷ ts) (u ∷ us)
    AreFieldsReadAs (tb_end ops) (t ∷ ts) (u ∷ us) = AreFieldsReadAs ops ts us
    AreFieldsReadAs _ _ _ = ⊥

  -- The fields of a table, by the shape of its program.
  abbrev pub FieldsFit : Shape lua.Value → lua.Value → Type 0
  FieldsFit shape_end t = Unit
  FieldsFit (shape_value k a s) t = IsCountable a (lua.raw_get t k) × FieldsFit s t
  FieldsFit (shape_sub k inner s) t = FieldsFit inner (lua.raw_get t k) × FieldsFit s t

  pub AreCountableFields-FieldsFit :
      (s : Shape lua.Value) (next : Opcodes lua.Value) (t : lua.Value) (ts : List lua.Value)
      → AreCountableFields (code s next) (t ∷ ts)
      → FieldsFit s t × AreCountableFields next ts
  AreCountableFields-FieldsFit shape_end next t ts h = (tt, h)
  AreCountableFields-FieldsFit (shape_value k a s) next t ts h =
      let r = AreCountableFields-FieldsFit s next t ts h.1 in ((h.0, r.0), r.1)
  AreCountableFields-FieldsFit (shape_sub k inner s) next t ts h =
      let r = AreCountableFields-FieldsFit inner (code s next) (lua.raw_get t k) (t ∷ ts) h in
      let q = AreCountableFields-FieldsFit s next t ts r.1 in ((r.0, q.0), q.1)

  abbrev pub SameFields : Shape lua.Value → lua.Value → lua.Value → Type 0
  SameFields shape_end t u = Unit
  SameFields (shape_value k a s) t u =
      IsReadAs a (lua.raw_get t k) (lua.raw_get u k) × SameFields s t u
  SameFields (shape_sub k inner s) t u =
      (lua.is_table (lua.raw_get u k) ≡ true)
      × SameFields inner (lua.raw_get t k) (lua.raw_get u k)
      × SameFields s t u

  pub SameFields-AreFieldsReadAs :
      (s : Shape lua.Value) (next : Opcodes lua.Value) (t u : lua.Value) (ts us : List lua.Value)
      → SameFields s t u
      → AreFieldsReadAs next ts us
      → AreFieldsReadAs (code s next) (t ∷ ts) (u ∷ us)
  SameFields-AreFieldsReadAs shape_end next t u ts us h n = n
  SameFields-AreFieldsReadAs (shape_value k a s) next t u ts us h n =
      (h.0, SameFields-AreFieldsReadAs s next t u ts us h.1 n)
  SameFields-AreFieldsReadAs (shape_sub k inner s) next t u ts us (tab, same, rest) n = (
    tab,
    SameFields-AreFieldsReadAs inner (code s next) (lua.raw_get t k) (lua.raw_get u k) (t ∷ ts)
        (u ∷ us) same (SameFields-AreFieldsReadAs s next t u ts us rest n),
  )
