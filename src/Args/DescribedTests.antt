-- ===== src/Args/DescribedTests.antt =====
-- A packer loaded from the description of a table with a table in it.
use simple_module.Base.{ℕ, ◌≡◌, refl, true, some, List, [], ◌∷◌, arith}
use simple_module.Base.Outcome.{done}
use simple_module.Lua.Small.{Val, num, str, tab, empty, field, small_lua, val_is_table}
use simple_module.Args.Scalar.{packed}
use simple_module.Args.Items.{ReadBack}
use simple_module.Args.{
  Arg, table, tb_begin, push_value, tb_end, none_left, number, byte, pack, unpack,
}
use simple_module.Args.Alike.{SameFields}
use simple_module.Args.Format.{
  Packer, Fields, no_field, Chunk, ran, number_key, string_key, number_desc, string_desc,
  table_desc, byte_type, init, get_arg, travel_value, travel_table, read_file, new_table_arg,
  number_type,
}
use simple_module.Args.Descriptions.{shape_of}
use simple_module.Args.Nesting.{IsWellNested}
use simple_module.Args.Described.{unpack-pack_described}

-- { 5: { "k": number }, 6: "byte" }
abbrev described : Fields Val
described =
    simple_module.Args.Format.field (number_key (num 5))
      (table_desc (
        simple_module.Args.Format.field (string_key (str (107 ∷ [])) (107 ∷ [])) number_desc
          no_field))
      (simple_module.Args.Format.field (number_key (num 6)) (string_desc byte_type) no_field)

abbrev run_chunk : List ℕ → Chunk Val
run_chunk text = ran (some (112 ∷ [])) (some described)

abbrev base_packers : List (Packer Val)
base_packers =
    record { type = number_type; hashstr = number_type; arg = number }
    ∷ record { type = byte_type; hashstr = byte_type; arg = byte }
    ∷ []

abbrev described_arg : Arg Val
described_arg = table (
    tb_begin (num 5)
      (push_value (str (107 ∷ [])) number (tb_end (push_value (num 6) byte (tb_end none_left)))))

abbrev described_packer : Packer Val
described_packer = record {
  type = 112 ∷ [];
  hashstr =
      112 ∷ 110 ∷ 117 ∷ 109 ∷ 98 ∷ 101 ∷ 114 ∷ 107 ∷ 110 ∷ 117 ∷ 109 ∷ 98 ∷ 101 ∷ 114 ∷ 110 ∷ 117
      ∷ 109 ∷ 98 ∷ 101 ∷ 114 ∷ 98 ∷ 121 ∷ 116 ∷ 101 ∷ [];
  arg = described_arg;
}

-- { 5 = { k = 7 }, 6 = 9 }
abbrev described_value : Val
described_value =
    tab (field (num 5) (tab (field (str (107 ∷ [])) (num 7) empty)) (field (num 6) (num 9) empty))

described_text : read_file (some (33 ∷ [])) 102400 ≡ 33 ∷ []
unfolding read_file
described_text = refl

described_made :
    new_table_arg base_packers run_chunk (some (33 ∷ [])) ≡ done (some described_packer)
unfolding new_table_arg read_file travel_table travel_value get_arg
described_made = refl

pack_described : pack small_lua described_arg described_value 100 ≡ packed (2 ∷ 7 ∷ 9 ∷ [])
unfolding pack simple_module.Args.Scalar.number_bytes
pack_described = refl

unpack-pack_described_example :
    IsWellNested small_lua described_arg
    × ReadBack
        (unpack small_lua described_arg)
        (λ w.
          (val_is_table w ≡ true)
          × SameFields small_lua (shape_of base_packers described) described_value w)
        (2 ∷ 7 ∷ 9 ∷ [])
        (1 ∷ 2 ∷ [])
unfolding get_arg
unpack-pack_described_example =
    unpack-pack_described small_lua base_packers run_chunk (some (33 ∷ [])) 33 [] (112 ∷ [])
      described described_packer described_value 100 (2 ∷ 7 ∷ 9 ∷ []) (1 ∷ 2 ∷ []) (tt, (tt, tt))
      described_text refl (tt, (tt, tt, tt), (tt, tt, tt)) (omega arith)
      (refl, (refl, tt), (refl, tt, tt), (refl, tt, tt)) ((tt, tt), (tt, tt)) described_made
      pack_described
