-- ===== src/Args/Nesting.antt =====
-- Table packers of protocol/data_format.cpp whose programs, and those of the packers in them, begin and end
-- their tables.
use simple_module.Base.{ℕ, ◌<◌, ◌≡◌, refl, List, [], ◌∷◌, All, inl, inr, Bool-cases}
use simple_module.Lua.{Lua}
use simple_module.Args.{
  Arg, number, byte, word, dword, string, table, array, Opcodes, none_left, tb_begin, tb_no_key,
  push_value, tb_end,
}
use simple_module.Args.Shapes.{
  Shape, shape_end, shape_value, shape_sub, code, AllValues, IsKeyed, IsNested,
}
use simple_module.Args.Alike.{IsCountable, AreCountableFields, FieldsFit}
use simple_module.Args.Format.{
  Packer, Desc, number_desc, string_desc, table_desc, other_desc, Fields, no_field, field, get_arg,
  same_text, number_type,
}
use simple_module.Args.Descriptions.{shape_of, with_value, shaped, value_of}

module _ (lua : Lua) where
  -- The program of each table packer ends the tables that it begins, with keys that differ, and this holds
  -- of the packers in it.
  abbrev mutual
    pub IsWellNested : Arg lua.Value → Type 0
    IsWellNested (table ops) = IsNested lua ops × AreWellNested ops
    IsWellNested (array base size) = IsWellNested base
    IsWellNested _ = Unit

    pub AreWellNested : Opcodes lua.Value → Type 0
    AreWellNested none_left = Unit
    AreWellNested (tb_begin k ops) = AreWellNested ops
    AreWellNested (tb_no_key ops) = AreWellNested ops
    AreWellNested (push_value k a ops) = IsWellNested a × AreWellNested ops
    AreWellNested (tb_end ops) = AreWellNested ops

  -- An array whose length is written has fewer than 256 items, in the value and in all that is packed of it.
  abbrev mutual
    pub HasFewItems : Arg lua.Value → lua.Value → Type 0
    HasFewItems (table ops) v = HaveFewItems ops (v ∷ [])
    HasFewItems (array base size) v =
        (size ≡ 0 → lua.objlen v < 256)
        × ((j : ℕ) → HasFewItems base (lua.raw_get v (lua.of_int j)))
    HasFewItems _ v = Unit

    pub HaveFewItems : Opcodes lua.Value → List lua.Value → Type 0
    HaveFewItems (tb_begin k ops) (t ∷ st) = HaveFewItems ops (lua.raw_get t k ∷ t ∷ st)
    HaveFewItems (push_value k a ops) (t ∷ st) =
        HasFewItems a (lua.raw_get t k) × HaveFewItems ops (t ∷ st)
    HaveFewItems (tb_end ops) (t ∷ st) = HaveFewItems ops st
    HaveFewItems _ _ = Unit

  -- The fields of a table, by the shape of its program.
  abbrev pub FieldsHaveFew : Shape lua.Value → lua.Value → Type 0
  FieldsHaveFew shape_end t = Unit
  FieldsHaveFew (shape_value k a s) t = HasFewItems a (lua.raw_get t k) × FieldsHaveFew s t
  FieldsHaveFew (shape_sub k inner s) t = FieldsHaveFew inner (lua.raw_get t k) × FieldsHaveFew s t

  mutual
    few-IsCountable :
        (a : Arg lua.Value) (v : lua.Value) → IsWellNested a → HasFewItems a v → IsCountable lua a v
    few-IsCountable number v n f = tt
    few-IsCountable byte v n f = tt
    few-IsCountable word v n f = tt
    few-IsCountable dword v n f = tt
    few-IsCountable string v n f = tt
    few-IsCountable (table ops) v n f = (n.0, few-AreCountable ops (v ∷ []) n.1 f)
    few-IsCountable (array base size) v n f =
        (f.0, λ j. few-IsCountable base (lua.raw_get v (lua.of_int j)) n (f.1 j))

    few-AreCountable :
        (ops : Opcodes lua.Value) (ts : List lua.Value)
        → AreWellNested ops
        → HaveFewItems ops ts
        → AreCountableFields lua ops ts
    few-AreCountable none_left ts n f = tt
    few-AreCountable (tb_begin k ops) [] n f = tt
    few-AreCountable (tb_begin k ops) (t ∷ st) n f =
        few-AreCountable ops (lua.raw_get t k ∷ t ∷ st) n f
    few-AreCountable (tb_no_key ops) ts n f = tt
    few-AreCountable (push_value k a ops) [] n f = tt
    few-AreCountable (push_value k a ops) (t ∷ st) n f =
        (few-IsCountable a (lua.raw_get t k) n.0 f.0, few-AreCountable ops (t ∷ st) n.1 f.1)
    few-AreCountable (tb_end ops) [] n f = tt
    few-AreCountable (tb_end ops) (t ∷ st) n f = few-AreCountable ops st n f

  pub few-FieldsFit :
      (s : Shape lua.Value) (t : lua.Value)
      → AllValues IsWellNested s
      → FieldsHaveFew s t
      → FieldsFit lua s t
  few-FieldsFit shape_end t n f = tt
  few-FieldsFit (shape_value k a s) t n f =
      (few-IsCountable a (lua.raw_get t k) n.0 f.0, few-FieldsFit s t n.1 f.1)
  few-FieldsFit (shape_sub k inner s) t n f =
      (few-FieldsFit inner (lua.raw_get t k) n.0 f.0, few-FieldsFit s t n.1 f.1)

  code-AreWellNested :
      (s : Shape lua.Value) (next : Opcodes lua.Value)
      → AllValues IsWellNested s
      → AreWellNested next
      → AreWellNested (code s next)
  code-AreWellNested shape_end next n h = h
  code-AreWellNested (shape_value k a s) next n h = (n.0, code-AreWellNested s next n.1 h)
  code-AreWellNested (shape_sub k inner s) next n h =
      code-AreWellNested inner (code s next) n.0 (code-AreWellNested s next n.1 h)

  pub table-IsWellNested :
      (s : Shape lua.Value)
      → IsKeyed lua s
      → AllValues IsWellNested s
      → IsWellNested (table (code s none_left))
  table-IsWellNested s keyed n =
      (record { shape = s; is_code = refl; keyed = keyed }, code-AreWellNested s none_left n tt)

  get_arg-shaped :
      (packers : List (Packer lua.Value)) (text : List ℕ) (k : lua.Value) (s : Shape lua.Value)
      → All (λ p. IsWellNested p.arg) packers
      → AllValues IsWellNested s
      → AllValues IsWellNested (shaped k (get_arg packers text) s)
  unfolding get_arg
  get_arg-shaped [] text k s h n = n
  get_arg-shaped (p ∷ packers) text k s h n = elim (Bool-cases (same_text p.type text)) [
    | inl e ↦ rw (e) (h.0, n)
    | inr e ↦ rw (e) (get_arg-shaped packers text k s h.1 n)
  ]

  -- The fields of a description have packers that are known.
  mutual
    pub shape_of-AllValues :
        (packers : List (Packer lua.Value)) (fields : Fields lua.Value)
        → All (λ p. IsWellNested p.arg) packers
        → AllValues IsWellNested (shape_of packers fields)
    shape_of-AllValues packers no_field h = tt
    shape_of-AllValues packers (field k d fs) h =
        with_value-AllValues packers (value_of k) d (shape_of packers fs) h
          (shape_of-AllValues packers fs h)

    with_value-AllValues :
        (packers : List (Packer lua.Value)) (k : lua.Value) (d : Desc lua.Value)
        (s : Shape lua.Value)
        → All (λ p. IsWellNested p.arg) packers
        → AllValues IsWellNested s
        → AllValues IsWellNested (with_value packers k d s)
    with_value-AllValues packers k number_desc s h n = get_arg-shaped packers number_type k s h n
    with_value-AllValues packers k (string_desc text) s h n = get_arg-shaped packers text k s h n
    with_value-AllValues packers k (table_desc fs) s h n = (shape_of-AllValues packers fs h, n)
    with_value-AllValues packers k other_desc s h n = n
