-- ===== src/Args/Tests.antt =====
-- The argument packers run on values of a small Lua.
use simple_module.Base.{ℕ, zero, suc, ◌+◌, ◌<◌, ◌≡◌, refl, some, List, [], ◌∷◌, arith}
use simple_module.Lua.Small.{Val, num, str, tab, empty, field, small_lua, val_int, val_get}
use simple_module.Args.Scalar.{packed, raised, unpacked, lost}
use simple_module.Args.Items.{ReadBack}
use simple_module.Args.Alike.{IsReadAs}
use simple_module.Args.RoundTrip.{unpack-pack}
use simple_module.Args.Shapes.{IsNested, shape_end, shape_value, shape_sub}
use simple_module.Args.Enough.{Writes}
use simple_module.Args.Total.{IsPackable, pack-Writes}
use simple_module.Args.{
  Arg, number, byte, word, dword, string, table, array, tb_end, tb_begin, push_value, none_left,
  pack, unpack,
}

-- `{7, -3}`
abbrev two_numbers : Val
two_numbers = tab (field (num 2) (num 4294967293) (field (num 1) (num 7) empty))

abbrev two_bytes : List ℕ
two_bytes = 2 ∷ 2 ∷ 7 ∷ 3 ∷ 3 ∷ []

pack_two : pack small_lua (array number 0) two_numbers 100 ≡ packed two_bytes
unfolding pack simple_module.Args.Scalar.number_bytes simple_module.Args.pack_array
    simple_module.Args.pack_items
pack_two = refl

unpack_two : unpack small_lua (array number 0) two_bytes ≡ unpacked two_numbers 5
unfolding unpack simple_module.Args.Scalar.read_number simple_module.Args.unpack_array
unpack_two = refl

-- A table with a field `x` of one byte, as its format's opcodes pack it.
abbrev point_format : Arg Val
point_format =
    table (tb_begin (str (112 ∷ [])) (push_value (str (120 ∷ [])) byte (tb_end (tb_end none_left))))

pack_point :
    pack small_lua point_format
      (tab (field (str (112 ∷ [])) (tab (field (str (120 ∷ [])) (num 5) empty)) empty))
      10
    ≡ packed (5 ∷ [])
unfolding pack
pack_point = refl

unpack_point :
    unpack small_lua point_format (5 ∷ [])
    ≡ unpacked (tab (field (str (112 ∷ [])) (tab (field (str (120 ∷ [])) (num 5) empty)) empty)) 1
unfolding unpack simple_module.Args.Scalar.read_fixed
unpack_point = refl

-- A format that was not loaded has no opcodes.
unpack_no_format : unpack small_lua (table none_left) (5 ∷ []) ≡ lost
unfolding unpack
unpack_no_format = refl

-- A table where a number is due.
pack_wrong_kind : pack small_lua number two_numbers 10 ≡ raised
unfolding pack
pack_wrong_kind = refl

-- `{p = {x = 5}, l = {7, -3}}`, whose first field is a table and whose second one is an array.
abbrev listed_format : Arg Val
listed_format = table (
    tb_begin (str (112 ∷ [])) (
      push_value (str (120 ∷ [])) byte
        (tb_end (push_value (str (108 ∷ [])) (array number 0) (tb_end none_left)))))

abbrev listed_point : Val
listed_point = tab (
    field (str (112 ∷ [])) (tab (field (str (120 ∷ [])) (num 5) empty))
      (field (str (108 ∷ [])) two_numbers empty))

abbrev listed_bytes : List ℕ
listed_bytes = 5 ∷ two_bytes

pack_listed : pack small_lua listed_format listed_point 100 ≡ packed listed_bytes
unfolding pack simple_module.Args.Scalar.number_bytes simple_module.Args.pack_array
    simple_module.Args.pack_items
pack_listed = refl

listed_IsNested : IsNested small_lua (
    tb_begin (str (112 ∷ [])) (
      push_value
        (str (120 ∷ []))
        byte
        (tb_end (push_value (str (108 ∷ [])) (array number 0) (tb_end none_left)))))
listed_IsNested = record {
  shape =
      shape_sub (str (112 ∷ [])) (shape_value (str (120 ∷ [])) byte shape_end)
        (shape_value (str (108 ∷ [])) (array number 0) shape_end);
  is_code = refl;
  keyed = (refl, (refl, tt), (refl, tt, tt), (refl, tt, tt));
}

unpack-pack_example :
    ReadBack
      (unpack small_lua listed_format)
      (IsReadAs small_lua listed_format listed_point)
      listed_bytes
      (9 ∷ [])
unpack-pack_example =
    unpack-pack small_lua listed_format listed_point 100 listed_bytes (9 ∷ [])
      (listed_IsNested, (tt, (((λ e. omega arith), λ j. tt), tt))) pack_listed

pack-Writes_example : Writes (pack small_lua listed_format listed_point) 2
pack-Writes_example =
    pack-Writes small_lua listed_format listed_point
      (refl, (refl, ((5, refl), omega arith, (list, omega arith, tt))))
  where
    item : (j : ℕ) → j < 2 → (n : ℕ) × (val_int (val_get two_numbers (num (j + 1))) ≡ some n)
    item zero l = (7, refl)
    item (suc zero) l = (4294967293, refl)
    item (suc (suc j)) l = absurd (omega arith)

    list : IsPackable small_lua (array number 0) two_numbers
    list = (refl, refl, omega arith, omega arith, λ j l. item j l)
