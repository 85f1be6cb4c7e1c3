-- ===== src/Args/Travels.antt =====
-- How many tables the program of a table packer begins and ends.
use simple_module.Base.{
  ℕ, suc, ◌+◌, ◌≡◌, refl, subst, min, false, Option, none, some, List, [], ◌∷◌, ◌++◌, inl, inr, ltb,
  Bool-cases, arith,
}
use simple_module.Base.Outcome.{Outcome, done, fault, stuck, ◌>>=◌}
use simple_module.Args.Format.{
  Packer, Key, Desc, Fields, TableOpcode, begin_op, begin_no_key, value_op, end_op, Travel,
  number_desc, string_desc, table_desc, other_desc, no_field, field, number_key, string_key,
  other_key, travel_value, travel_fields, travel_table, enter, push_value_op, max_table_deep,
  get_arg, number_type, key_text, begin_of, push, add_text,
}

module _ {V : Type 0} where
  abbrev pub begins : List (TableOpcode V) → ℕ
  begins [] = 0
  begins (begin_op k ∷ ops) = suc (begins ops)
  begins (begin_no_key ∷ ops) = suc (begins ops)
  begins (value_op k a ∷ ops) = begins ops
  begins (end_op ∷ ops) = begins ops

  abbrev pub ends : List (TableOpcode V) → ℕ
  ends [] = 0
  ends (begin_op k ∷ ops) = ends ops
  ends (begin_no_key ∷ ops) = ends ops
  ends (value_op k a ∷ ops) = ends ops
  ends (end_op ∷ ops) = suc (ends ops)

  begins-append : (xs ys : List (TableOpcode V)) → begins (xs ++ ys) ≡ begins xs + begins ys
  begins-append [] ys = omega arith
  begins-append (begin_op k ∷ xs) ys = omega (arith, begins-append xs ys)
  begins-append (begin_no_key ∷ xs) ys = omega (arith, begins-append xs ys)
  begins-append (value_op k a ∷ xs) ys = begins-append xs ys
  begins-append (end_op ∷ xs) ys = begins-append xs ys

  ends-append : (xs ys : List (TableOpcode V)) → ends (xs ++ ys) ≡ ends xs + ends ys
  ends-append [] ys = omega arith
  ends-append (begin_op k ∷ xs) ys = ends-append xs ys
  ends-append (begin_no_key ∷ xs) ys = ends-append xs ys
  ends-append (value_op k a ∷ xs) ys = ends-append xs ys
  ends-append (end_op ∷ xs) ys = omega (arith, ends-append xs ys)

  -- Since the state `s`, each call begins a table, each of the first ten ends one, and `own` more are ended.
  abbrev After : Travel V → ℕ → Outcome (Travel V) → Type 0
  After s own (done t) =
      (begins t.opcodes + s.deep ≡ begins s.opcodes + t.deep)
      × (ends t.opcodes + min s.deep max_table_deep
          ≡ ends s.opcodes + min t.deep max_table_deep + own)
  After s own fault = Unit
  After s own stuck = Unit

  After-then :
      (s : Travel V) (own : ℕ) (r : Outcome (Travel V)) (f : Travel V → Outcome (Travel V))
      → After s 0 r
      → ((t : Travel V) → After t own (f t))
      → After s own (r >>= f)
  After-then s own (done t) f h k = last (f t) (k t)
    where
      last : (q : Outcome (Travel V)) → After t own q → After s own q
      last (done u) j = (omega (arith, h.0, j.0), omega (arith, h.1, j.1))
      last fault j = tt
      last stuck j = tt
  After-then s own fault f h k = tt
  After-then s own stuck f h k = tt

  same-After : (s : Travel V) (h : List ℕ) → After s 0 (done (record s { hashstr = h }))
  same-After s h = (omega arith, omega arith)

  value-After :
      (s : Travel V) (k : Key V) (text : List ℕ) (p : Option (Packer V))
      → After s 0 (push_value_op k text p s)
  value-After s k text none = (omega arith, omega arith)
  value-After s (number_key k) text (some p) = (
    omega (arith, begins-append s.opcodes (value_op k p.arg ∷ [])),
    omega (arith, ends-append s.opcodes (value_op k p.arg ∷ [])),
  )
  value-After s (string_key k t) text (some p) = (
    omega (arith, begins-append s.opcodes (value_op k p.arg ∷ [])),
    omega (arith, ends-append s.opcodes (value_op k p.arg ∷ [])),
  )
  value-After s (other_key k) text (some p) = tt

  -- A table in a table.
  enter-After :
      (s : Travel V) (op : TableOpcode V) (next : Travel V → Outcome (Travel V))
      → begins (op ∷ []) ≡ 1
      → ends (op ∷ []) ≡ 0
      → ((t : Travel V) → After t 1 (next t))
      → After s 0 (enter (push op [] s) next)
  enter-After s op next one none_ended h = elim (Bool-cases (ltb max_table_deep (suc s.deep))) [
    | inl e ↦ rw (e) (
      omega (arith, one, begins-append s.opcodes (op ∷ [])),
      ground (arith, none_ended, ends-append s.opcodes (op ∷ [])),
    )
    | inr e ↦ rw (e) (
        last e
          (next (record s {
            deep = suc s.deep;
            hashstr = s.hashstr ++ [];
            opcodes = s.opcodes ++ (op ∷ []);
          }))
          (h _))
  ]
    where
      last :
          ltb max_table_deep (suc s.deep) ≡ false
          → (q : Outcome (Travel V))
          → After
              (record s {
                deep = suc s.deep;
                hashstr = s.hashstr ++ [];
                opcodes = s.opcodes ++ (op ∷ []);
              })
              1
              q
          → After s 0 q
      last e (done t) j = (
        omega (arith, j.0, one, begins-append s.opcodes (op ∷ [])),
        ground (arith, j.1, none_ended, ends-append s.opcodes (op ∷ [])),
      )
      last e fault j = tt
      last e stuck j = tt

  begins-begin_of : (k : Key V) → begins (begin_of k ∷ []) ≡ 1
  begins-begin_of (number_key k) = refl
  begins-begin_of (string_key k t) = refl
  begins-begin_of (other_key k) = refl

  ends-begin_of : (k : Key V) → ends (begin_of k ∷ []) ≡ 0
  ends-begin_of (number_key k) = refl
  ends-begin_of (string_key k t) = refl
  ends-begin_of (other_key k) = refl

  mutual
    unfolding travel_value travel_fields

    value_counts :
        (packers : List (Packer V)) (k : Key V) (d : Desc V) (s : Travel V)
        → After s 0 (travel_value packers k d s)
    value_counts packers k number_desc s = value-After s k number_type (get_arg packers number_type)
    value_counts packers k (string_desc text) s = value-After s k text (get_arg packers text)
    value_counts packers k (table_desc fields) s =
        enter-After s (begin_of k) (λ t. travel_fields packers fields t) (begins-begin_of k)
          (ends-begin_of k) (λ t. fields_counts packers fields t)
    value_counts packers k other_desc s = same-After s s.hashstr

    fields_counts :
        (packers : List (Packer V)) (fields : Fields V) (s : Travel V)
        → After s 1 (travel_fields packers fields s)
    fields_counts packers no_field s = (
      omega (arith, begins-append s.opcodes (end_op ∷ [])),
      omega (arith, ends-append s.opcodes (end_op ∷ [])),
    )
    fields_counts packers (field k d fields) s =
        let s' = add_text (key_text k) s in
        After-then s 1 (travel_value packers k d s') (λ t. travel_fields packers fields t)
          (value_counts packers k d s') (λ t. fields_counts packers fields t)

  -- Whatever a table's description holds and whatever packers there are: when `_travel_table` has gone
  -- through it, the program begins a table for each call but the first one, and ends one for each of the first
  -- ten calls.
  pub travel_table-balance :
      (packers : List (Packer V)) (fields : Fields V) (name : List ℕ) (t : Travel V)
      → travel_table packers fields (record { deep = 0; hashstr = name; opcodes = [] }) ≡ done t
      → (suc (begins t.opcodes) ≡ t.deep) × (ends t.opcodes ≡ min t.deep 10)
  unfolding travel_table
  travel_table-balance packers fields name t e =
      let h =
        subst (After (record { deep = 1; hashstr = name; opcodes = [] }) 1) e
          (fields_counts packers fields (record { deep = 1; hashstr = name; opcodes = [] })) in
      (omega (arith, h.0), omega (arith, h.1))
