-- ===== src/Args/Descriptions.antt =====
-- The fields that the description of a table of protocol/data_format.cpp names, and their program.
use simple_module.Base.{
  ℕ, suc, ◌+◌, ◌≡◌, refl, Option, none, some, List, [], ◌∷◌, ◌++◌, append_assoc,
}
use simple_module.Args.Shapes.{Shape, shape_end, shape_value, shape_sub, code}
use simple_module.Args.Format.{
  Packer, Key, number_key, string_key, other_key, Desc, number_desc, string_desc, table_desc,
  other_desc, Fields, no_field, field, TableOpcode, begin_op, value_op, end_op, get_arg,
  number_type, program,
}

module _ {V : Type 0} where
  -- How many tables a description has in it.
  abbrev mutual
    pub inner_tables : Fields V → ℕ
    inner_tables no_field = 0
    inner_tables (field k d fs) = tables_of d + inner_tables fs

    pub tables_of : Desc V → ℕ
    tables_of (table_desc fs) = suc (inner_tables fs)
    tables_of _ = 0

  -- A number or a string.
  abbrev pub HasRef : Key V → Type 0
  HasRef (number_key k) = Unit
  HasRef (string_key k t) = Unit
  HasRef (other_key k) = ⊥

  abbrev mutual
    pub HaveRefs : Fields V → Type 0
    HaveRefs no_field = Unit
    HaveRefs (field k d fs) = HasRef k × HaveInnerRefs d × HaveRefs fs

    pub HaveInnerRefs : Desc V → Type 0
    HaveInnerRefs (table_desc fs) = HaveRefs fs
    HaveInnerRefs _ = Unit

  abbrev pub value_of : Key V → V
  value_of (number_key k) = k
  value_of (string_key k t) = k
  value_of (other_key k) = k

  abbrev pub shaped : V → Option (Packer V) → Shape V → Shape V
  shaped k none s = s
  shaped k (some p) s = shape_value k p.arg s

  -- The fields of a description that there are packers for, in its order.
  abbrev mutual
    pub shape_of : List (Packer V) → Fields V → Shape V
    shape_of packers no_field = shape_end
    shape_of packers (field k d fs) = with_value packers (value_of k) d (shape_of packers fs)

    pub with_value : List (Packer V) → V → Desc V → Shape V → Shape V
    with_value packers k number_desc s = shaped k (get_arg packers number_type) s
    with_value packers k (string_desc text) s = shaped k (get_arg packers text) s
    with_value packers k (table_desc fs) s = shape_sub k (shape_of packers fs) s
    with_value packers k other_desc s = s

  abbrev pub flat : Shape V → List (TableOpcode V)
  flat shape_end = end_op ∷ []
  flat (shape_value k a s) = value_op k a ∷ flat s
  flat (shape_sub k inner s) = begin_op k ∷ (flat inner ++ flat s)

  pub program-flat :
      (s : Shape V) (ops : List (TableOpcode V)) → program (flat s ++ ops) ≡ code s (program ops)
  program-flat shape_end ops = refl
  program-flat (shape_value k a s) ops = rw (program-flat s ops) refl
  program-flat (shape_sub k inner s) ops =
      rw
        (
          append_assoc (flat inner) (flat s) ops,
          program-flat inner (flat s ++ ops),
          program-flat s ops,
        )
        refl
