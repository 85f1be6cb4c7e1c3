-- ===== src/Args/Loaded.antt =====
-- The program that `_travel_table` of protocol/data_format.cpp makes of the description of a table.
use simple_module.Base.{
  ℕ, suc, ◌+◌, ◌≤◌, ◌≡◌, refl, sym, ap, ◌∙◌, false, Option, none, some, List, [], ◌∷◌, ◌++◌, ltb,
  arith, append_assoc, append-nil,
}
use simple_module.Base.Outcome.{Outcome, done, ◌>>=◌}
use simple_module.Args.{none_left}
use simple_module.Args.Shapes.{Shape, code}
use simple_module.Args.Format.{
  Packer, Key, number_key, string_key, other_key, Desc, number_desc, string_desc, table_desc,
  other_desc, Fields, no_field, field, begin_op, value_op, end_op, Travel, get_arg, number_type,
  max_table_deep, push, push_value_op, begin_of, add_text, key_text, program, travel_value,
  travel_fields, travel_table,
}
use simple_module.Args.Descriptions.{
  inner_tables, tables_of, HasRef, HaveRefs, HaveInnerRefs, value_of, shaped, shape_of, with_value,
  flat, program-flat,
}

module _ {V : Type 0} where
  -- One value was gone through, whatever fields come next.
  record ValueTravelled (packers : List (Packer V)) (k : V) (d : Desc V) (s : Travel V)
      (r : Outcome (Travel V)) : Type 0 where
    pub travel : Travel V
    pub ended : r ≡ done travel
    pub deep : travel.deep ≡ s.deep + tables_of d
    pub opcodes :
        (rest : Shape V)
        → travel.opcodes ++ flat rest ≡ s.opcodes ++ flat (with_value packers k d rest)

  record FieldsTravelled (packers : List (Packer V)) (fs : Fields V) (s : Travel V)
      (r : Outcome (Travel V)) : Type 0 where
    pub travel : Travel V
    pub ended : r ≡ done travel
    pub deep : travel.deep ≡ s.deep + inner_tables fs
    pub opcodes : travel.opcodes ≡ s.opcodes ++ flat (shape_of packers fs)

  pushed_value :
      (k : Key V) (text : List ℕ) (p : Option (Packer V)) (s : Travel V)
      → HasRef k
      → (t : Travel V) × (push_value_op k text p s ≡ done t)
        × (t.deep ≡ s.deep)
        × ((rest : Shape V)
            → t.opcodes ++ flat rest ≡ s.opcodes ++ flat (shaped (value_of k) p rest))
  pushed_value k text none s h =
      (record s { hashstr = s.hashstr ++ text }, refl, refl, λ rest. refl)
  pushed_value (number_key k) text (some p) s h =
      (push (value_op k p.arg) text s, refl, refl, λ rest. append_assoc s.opcodes _ (flat rest))
  pushed_value (string_key k t) text (some p) s h =
      (push (value_op k p.arg) text s, refl, refl, λ rest. append_assoc s.opcodes _ (flat rest))
  pushed_value (other_key k) text (some p) s h = absurd h

  shallow : (s : Travel V) → suc s.deep ≤ 10 → ltb max_table_deep (suc s.deep) ≡ false
  shallow s h = ground arith

  -- A value that is no table.
  plain-ValueTravelled :
      (packers : List (Packer V)) (k : Key V) (d : Desc V) (text : List ℕ) (p : Option (Packer V))
      (s : Travel V)
      → HasRef k
      → tables_of d ≡ 0
      → ((rest : Shape V) → with_value packers (value_of k) d rest ≡ shaped (value_of k) p rest)
      → ValueTravelled packers (value_of k) d s (push_value_op k text p s)
  plain-ValueTravelled packers k d text p s h none_in is_shaped =
      let (t, e, deep, ops) = pushed_value k text p s h in
      record {
        travel = t;
        ended = e;
        deep = omega (arith, deep, none_in);
        opcodes = λ rest. ops rest ∙ ap (λ q. s.opcodes ++ flat q) (sym (is_shaped rest));
      }

  begun : (k : Key V) → HasRef k → begin_of k ≡ begin_op (value_of k)
  begun (number_key k) h = refl
  begun (string_key k t) h = refl
  begun (other_key k) h = absurd h

  mutual
    unfolding travel_value travel_fields

    value_travelled :
        (packers : List (Packer V)) (k : Key V) (d : Desc V) (s : Travel V)
        → HasRef k
        → HaveInnerRefs d
        → s.deep + tables_of d ≤ 10
        → ValueTravelled packers (value_of k) d s (travel_value packers k d s)
    value_travelled packers k number_desc s h inner few =
        plain-ValueTravelled packers k number_desc number_type (get_arg packers number_type) s h
          refl (λ rest. refl)
    value_travelled packers k (string_desc text) s h inner few =
        plain-ValueTravelled packers k (string_desc text) text (get_arg packers text) s h refl
          (λ rest. refl)
    value_travelled packers k other_desc s h inner few = record {
      travel = s;
      ended = refl;
      deep = omega arith;
      opcodes = λ rest. refl;
    }
    value_travelled packers k (table_desc fs) s h inner few =
        let inside = record s {
          deep = suc s.deep;
          hashstr = s.hashstr ++ [];
          opcodes = s.opcodes ++ (begin_of k ∷ []);
        } in
        let r = fields_travelled packers fs inside inner (omega (arith, few)) in
        record {
          travel = r.travel;
          ended = rw (shallow s (omega (arith, few))) r.ended;
          deep = omega (arith, r.deep);
          opcodes = λ rest.
              ap (λ ops. ops ++ flat rest) r.opcodes
              ∙ append_assoc (s.opcodes ++ (begin_of k ∷ [])) (flat (shape_of packers fs))
                  (flat rest)
              ∙ append_assoc s.opcodes (begin_of k ∷ []) (flat (shape_of packers fs) ++ flat rest)
              ∙ ap (λ op. s.opcodes ++ (op ∷ (flat (shape_of packers fs) ++ flat rest)))
                  (begun k h);
        }

    fields_travelled :
        (packers : List (Packer V)) (fs : Fields V) (s : Travel V)
        → HaveRefs fs
        → s.deep + inner_tables fs ≤ 10
        → FieldsTravelled packers fs s (travel_fields packers fs s)
    fields_travelled packers no_field s h few = record {
      travel = push end_op [] s;
      ended = refl;
      deep = omega arith;
      opcodes = refl;
    }
    fields_travelled packers (field k d fs) s h few =
        let v =
          value_travelled packers k d (add_text (key_text k) s) h.0 h.1 (omega (arith, few)) in
        let r = fields_travelled packers fs v.travel h.2 (omega (arith, few, v.deep)) in
        record {
          travel = r.travel;
          ended = ap (λ o. o >>= λ t. travel_fields packers fs t) v.ended ∙ r.ended;
          deep = omega (arith, r.deep, v.deep);
          opcodes = r.opcodes ∙ v.opcodes (shape_of packers fs);
        }

  -- A description of at most ten tables, itself included, whose keys are numbers and strings: `_travel_table`
  -- ends, has counted the tables, and has made the program that a plain recursion over the description
  -- makes (see `shape_of`), which ends each table that it begins and at last itself.
  pub travel_table-code :
      (packers : List (Packer V)) (fields : Fields V) (name : List ℕ)
      → HaveRefs fields
      → suc (inner_tables fields) ≤ 10
      → (t : Travel V) × (travel_table packers fields
            (record { deep = 0; hashstr = name; opcodes = [] })
          ≡ done t)
        × (t.deep ≡ suc (inner_tables fields))
        × (program t.opcodes ≡ code (shape_of packers fields) none_left)
  unfolding travel_table
  travel_table-code packers fields name h few =
      let r =
        fields_travelled packers fields (record { deep = 1; hashstr = name; opcodes = [] }) h
          (omega (arith, few)) in
      (
        r.travel,
        r.ended,
        omega (arith, r.deep),
        ap program (r.opcodes ∙ sym (append-nil (flat (shape_of packers fields))))
            ∙ program-flat (shape_of packers fields) [],
      )
