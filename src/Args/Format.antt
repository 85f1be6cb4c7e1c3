-- ===== src/Args/Format.antt =====
-- How packers are made and found: `fcall_table_arg::_read_format` and `_travel_table`, `fcall_array_arg`'s
-- constructor, and `fcall_arg_manager`, of protocol/data_format.cpp. A string is the list of its codes.
use simple_module.Base.{
  ℕ, suc, Bool, true, false, Option, none, some, List, [], ◌∷◌, ◌++◌, ltb, ◌==◌, ◌&&◌,
  if◌then◌else◌, length, get_elem?,
}
use simple_module.Base.Outcome.{Outcome, done, fault, ◌>>=◌}
use simple_module.Args.{
  Arg, Opcodes, number, byte, word, dword, string, table, array, none_left, tb_begin, tb_no_key,
  push_value, tb_end,
}

-- A packer with its `_type` and `_hashstr`.
pub record Packer (V : Type 0) : Type 0 where
  pub type : List ℕ
  pub hashstr : List ℕ
  pub arg : Arg V

abbrev pub number_type : List ℕ
number_type = 110 ∷ 117 ∷ 109 ∷ 98 ∷ 101 ∷ 114 ∷ []

abbrev pub byte_type : List ℕ
byte_type = 98 ∷ 121 ∷ 116 ∷ 101 ∷ []

abbrev pub word_type : List ℕ
word_type = 119 ∷ 111 ∷ 114 ∷ 100 ∷ []

abbrev pub dword_type : List ℕ
dword_type = 100 ∷ 119 ∷ 111 ∷ 114 ∷ 100 ∷ []

abbrev pub string_type : List ℕ
string_type = 115 ∷ 116 ∷ 114 ∷ 105 ∷ 110 ∷ 103 ∷ []

abbrev pub array_type : List ℕ
array_type = 97 ∷ 114 ∷ 114 ∷ 97 ∷ 121 ∷ []

abbrev pub base_type : List ℕ
base_type = 98 ∷ 97 ∷ 115 ∷ 101 ∷ []

abbrev pub same_text : List ℕ → List ℕ → Bool
same_text [] [] = true
same_text [] (y ∷ ys) = false
same_text (x ∷ xs) [] = false
same_text (x ∷ xs) (y ∷ ys) = (x == y) && same_text xs ys

-- What `lua_next` gives of a key, and what it gives of a value in the description of a table, by the first
-- of the tests that holds of it.
pub data Key (V : Type 0) : Type 0 where
  number_key other_key : V → Key V
  string_key : V → List ℕ → Key V

mutual
  pub data Desc (V : Type 0) : Type 0 where
    number_desc other_desc : Desc V
    string_desc : List ℕ → Desc V
    table_desc : Fields V → Desc V

  pub data Fields (V : Type 0) : Type 0 where
    no_field : Fields V
    field : Key V → Desc V → Fields V → Fields V

-- `table_opcode`
pub data TableOpcode (V : Type 0) : Type 0 where
  begin_op : V → TableOpcode V
  begin_no_key : TableOpcode V
  value_op : V → Arg V → TableOpcode V
  end_op : TableOpcode V

-- `_cur_table_deep`, `_hashstr` and `_opcodes`.
pub record Travel (V : Type 0) : Type 0 where
  pub deep : ℕ
  pub hashstr : List ℕ
  pub opcodes : List (TableOpcode V)

abbrev pub max_table_deep : ℕ
max_table_deep = 10

-- What loading a file's text as a chunk and calling it comes to: an error, or the type's name, unless it is
-- no string, and the table, if it is one.
pub data Chunk (V : Type 0) : Type 0 where
  not_run : Chunk V
  ran : Option (List ℕ) → Option (Fields V) → Chunk V

-- `read_file` into a buffer of `buf_len`, of a file that cannot be opened or has the given bytes.
unfoldable pub read_file : Option (List ℕ) → ℕ → List ℕ
read_file none buf_len = []
read_file (some text) buf_len = if ltb buf_len (length text) then [] else text

abbrev pub format_buf_len : ℕ
format_buf_len = 102400

module _ {V : Type 0} where
  -- `fcall_arg_manager::init`, which appends, and both functions `get_arg`.
  abbrev pub base_packer : List ℕ → Arg V → Packer V
  base_packer type arg = record { type = type; hashstr = type; arg = arg }

  unfoldable pub init : List (Packer V) → List (Packer V)
  init packers =
      packers
      ++ (base_packer number_type number
          ∷ base_packer byte_type byte
          ∷ base_packer word_type word
          ∷ base_packer dword_type dword
          ∷ base_packer string_type string
          ∷ [])

  -- `destruct` deletes every packer.
  abbrev pub destruct : List (Packer V) → List (Packer V)
  destruct packers = []

  unfoldable pub get_arg : List (Packer V) → List ℕ → Option (Packer V)
  get_arg [] type_name = none
  get_arg (p ∷ packers) type_name =
      if same_text p.type type_name then some p else get_arg packers type_name

  abbrev pub get_arg_at : List (Packer V) → ℕ → Option (Packer V)
  get_arg_at packers arg_id = get_elem? packers arg_id

  unfoldable pub add_arg : List (Packer V) → Packer V → List (Packer V)
  add_arg packers p = packers ++ (p ∷ [])

  abbrev pub key_text : Key V → List ℕ
  key_text (number_key k) = number_type
  key_text (string_key k text) = text
  key_text (other_key k) = []

  abbrev pub push : TableOpcode V → List ℕ → Travel V → Travel V
  push op text s = record s { hashstr = s.hashstr ++ text; opcodes = s.opcodes ++ (op ∷ []) }

  -- The assertion that a value's key has a reference.
  abbrev pub push_value_op : Key V → List ℕ → Option (Packer V) → Travel V → Outcome (Travel V)
  push_value_op k text none s = done (record s { hashstr = s.hashstr ++ text })
  push_value_op (number_key k) text (some p) s = done (push (value_op k p.arg) text s)
  push_value_op (string_key k t) text (some p) s = done (push (value_op k p.arg) text s)
  push_value_op (other_key k) text (some p) s = fault

  -- A table under a key of another kind has no reference to it.
  abbrev pub begin_of : Key V → TableOpcode V
  begin_of (number_key k) = begin_op k
  begin_of (string_key k t) = begin_op k
  begin_of (other_key k) = begin_no_key

  abbrev pub add_text : List ℕ → Travel V → Travel V
  add_text text s = record s { hashstr = s.hashstr ++ text }

  -- The first part of `_travel_table`: it ends without a word when it has been called more than ten times.
  abbrev pub enter : Travel V → (Travel V → Outcome (Travel V)) → Outcome (Travel V)
  enter s next =
      if ltb max_table_deep (suc s.deep)
      then done (record s { deep = suc s.deep })
      else next (record s { deep = suc s.deep })

  unfoldable mutual
    pub travel_value : List (Packer V) → Key V → Desc V → Travel V → Outcome (Travel V)
    travel_value packers k number_desc s =
        push_value_op k number_type (get_arg packers number_type) s
    travel_value packers k (string_desc text) s = push_value_op k text (get_arg packers text) s
    travel_value packers k (table_desc fields) s =
        enter (push (begin_of k) [] s) (λ t. travel_fields packers fields t)
    travel_value packers k other_desc s = done s

    pub travel_fields : List (Packer V) → Fields V → Travel V → Outcome (Travel V)
    travel_fields packers no_field s = done (push end_op [] s)
    travel_fields packers (field k d fields) s =
        travel_value packers k d (add_text (key_text k) s) >>= λ t. travel_fields packers fields t

  unfoldable pub travel_table : List (Packer V) → Fields V → Travel V → Outcome (Travel V)
  unfolding travel_fields
  travel_table packers fields s = enter s (λ t. travel_fields packers fields t)

  abbrev pub program : List (TableOpcode V) → Opcodes V
  program [] = none_left
  program (begin_op k ∷ ops) = tb_begin k (program ops)
  program (begin_no_key ∷ ops) = tb_no_key (program ops)
  program (value_op k a ∷ ops) = push_value k a (program ops)
  program (end_op ∷ ops) = tb_end (program ops)

  abbrev pub loaded : List ℕ → Outcome (Travel V) → Outcome (Option (Packer V))
  loaded name r = r >>= λ s.
      done (some (record { type = name; hashstr = s.hashstr; arg = table (program s.opcodes) }))

  -- `luaL_checkstring` of a name that is no string raises an error: there is no packer then.
  abbrev pub read_chunk : List (Packer V) → Chunk V → Outcome (Option (Packer V))
  read_chunk packers not_run = done (some (base_packer base_type (table none_left)))
  read_chunk packers (ran none t) = done none
  read_chunk packers (ran (some name) none) = done (some (base_packer name (table none_left)))
  read_chunk packers (ran (some name) (some fields)) =
      loaded name (travel_table packers fields (record { deep = 0; hashstr = name; opcodes = [] }))

  abbrev pub read_text : List (Packer V) → (List ℕ → Chunk V) → List ℕ → Outcome (Option (Packer V))
  read_text packers run [] = done (some (base_packer base_type (table none_left)))
  read_text packers run (c ∷ text) = read_chunk packers (run (c ∷ text))

  -- `_read_format`, of whose result the constructor takes no notice.
  unfoldable pub new_table_arg :
      List (Packer V) → (List ℕ → Chunk V) → Option (List ℕ) → Outcome (Option (Packer V))
  unfolding read_file travel_table
  new_table_arg packers run file = read_text packers run (read_file file format_buf_len)

  abbrev pub added : List (Packer V) → Option (Packer V) → List (Packer V)
  added packers none = packers
  added packers (some p) = packers ++ (p ∷ [])

  unfoldable pub add_table_args :
      List (Packer V) → (List ℕ → Chunk V) → Option (List ℕ) → Outcome (List (Packer V))
  unfolding new_table_arg
  add_table_args packers run file = new_table_arg packers run file >>= λ p. done (added packers p)

  -- The constructor of `fcall_array_arg`, which uses its packer before it asserts that there is one.
  abbrev pub new_array_arg : Option (Packer V) → List ℕ → ℕ → Outcome (Packer V)
  new_array_arg none base_name size = fault
  new_array_arg (some p) base_name size = done (record {
    type = array_type;
    hashstr = array_type ++ (base_name ++ p.hashstr);
    arg = array p.arg size;
  })
