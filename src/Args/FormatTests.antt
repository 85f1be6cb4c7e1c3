-- ===== src/Args/FormatTests.antt =====
-- The description of a table with a table in it, and a file that is too long.
use simple_module.Base.{ℕ, suc, min, ◌≡◌, refl, arith, [], ◌∷◌, some}
use simple_module.Base.Outcome.{done, fault}
use simple_module.Args.{number, byte, none_left}
use simple_module.Args.Shapes.{code}
use simple_module.Args.Descriptions.{shape_of}
use simple_module.Args.Loaded.{travel_table-code}
use simple_module.Args.Format.{
  Fields, no_field, field, number_key, string_key, number_desc, string_desc, table_desc, Travel,
  begin_op, value_op, end_op, byte_type, init, get_arg, travel_value, travel_table, read_file,
  new_array_arg, program,
}
use simple_module.Args.Travels.{begins, ends, travel_table-balance}

-- { 5: { "k": number }, 6: "byte" }
abbrev point : Fields ℕ
point =
    field (number_key 5) (table_desc (field (string_key 9 (107 ∷ [])) number_desc no_field))
      (field (number_key 6) (string_desc byte_type) no_field)

abbrev travelled : Travel ℕ
travelled = record {
  deep = 2;
  hashstr =
      110 ∷ 117 ∷ 109 ∷ 98 ∷ 101 ∷ 114 ∷ 107 ∷ 110 ∷ 117 ∷ 109 ∷ 98 ∷ 101 ∷ 114 ∷ 110 ∷ 117 ∷ 109
      ∷ 98 ∷ 101 ∷ 114 ∷ 98 ∷ 121 ∷ 116 ∷ 101 ∷ [];
  opcodes = begin_op 5 ∷ value_op 9 number ∷ end_op ∷ value_op 6 byte ∷ end_op ∷ [];
}

travel_point :
    travel_table (init []) point (record { deep = 0; hashstr = []; opcodes = [] }) ≡ done travelled
unfolding travel_table init get_arg travel_value
travel_point = refl

travel_table-balance_example :
    (suc (begins travelled.opcodes) ≡ 2) × (ends travelled.opcodes ≡ min 2 10)
travel_table-balance_example = travel_table-balance (init []) point [] travelled travel_point

read_file_too_long : read_file (some (1 ∷ 2 ∷ 3 ∷ [])) 2 ≡ []
unfolding read_file
read_file_too_long = refl

-- An array of a type that is not known.
array_unknown : new_array_arg (get_arg {V = ℕ} (init []) (120 ∷ [])) (120 ∷ []) 3 ≡ fault
unfolding init get_arg
array_unknown = refl

travel_table-code_example :
    (t : Travel ℕ) × (travel_table (init []) point (record { deep = 0; hashstr = []; opcodes = [] })
      ≡ done t)
    × (t.deep ≡ 2)
    × (program t.opcodes ≡ code (shape_of (init []) point) none_left)
travel_table-code_example =
    travel_table-code (init []) point [] ((tt, (tt, tt, tt), (tt, tt, tt))) (omega arith)
