-- ===== src/Protocol/Loading.antt =====
-- How a protocol is loaded: `net_protocol::load` of protocol/protocol.cpp and what it calls, and the check
-- ids. A path or a name is the list of its codes.
use simple_module.Base.{
  ℕ, ◌+◌, ◌*◌, ◌%◌, bit_xor, Bool, true, false, Option, none, some, List, [], ◌∷◌, ◌++◌, ltb, ◌||◌,
  if◌then◌else◌,
}
use simple_module.Base.Word.{u32}
use simple_module.Base.Outcome.{Outcome, done, ◌>>=◌}
use simple_module.Args.{Arg}
use simple_module.Args.Format.{Packer, read_file, get_arg, add_arg, new_array_arg}
use simple_module.Protocol.{NetProtocol}
use simple_module.Protocol.Names.{process_type}

-- `calc_hashnr` on patterns of an `int`; a `char` is signed. Sums and products are taken to wrap around.
abbrev pub char_int : ℕ → ℕ
char_int c = if ltb c 128 then c else c + 4294967040

abbrev pub hash_step : ℕ → ℕ → ℕ → ℕ
hash_step nr nr2 c = bit_xor nr (u32 ((nr % 64 + nr2) * char_int c + nr * 256))

unfoldable pub hash_from : ℕ → ℕ → List ℕ → ℕ
hash_from nr nr2 [] = nr
hash_from nr nr2 (c ∷ cs) = hash_from (hash_step nr nr2 c) (nr2 + 3) cs

unfoldable pub calc_hashnr : List ℕ → ℕ
unfolding hash_from
calc_hashnr key = hash_from 1 4 key

-- `net_protocol` with its name, its packers and the counts of its calls; `caller_name` is the name under
-- which the callers' table of Lua was given a function that has this object as its upvalue.
pub record Entry (V : Type 0) : Type 0 where
  pub id : ℕ
  pub pack_func_name : List ℕ
  pub args : List (Packer V)
  pub is_maker : Bool
  pub has_unpack_ref : Bool
  pub caller_name : Option (List ℕ)
  pub pack_count : ℕ
  pub unpack_count : ℕ

abbrev pub new_net_protocol : {V : Type 0} → ℕ → Entry V
new_net_protocol id = record {
  id = id;
  pack_func_name = [];
  args = [];
  is_maker = false;
  has_unpack_ref = false;
  caller_name = none;
  pack_count = 0;
  unpack_count = 0;
}

abbrev pub args_of : {V : Type 0} → List (Packer V) → List (Arg V)
args_of [] = []
args_of (p ∷ ps) = p.arg ∷ args_of ps

-- What a call is written and read with.
abbrev pub net_protocol_of : {V : Type 0} → Entry V → NetProtocol V
net_protocol_of e = record { id = e.id; args = args_of e.args; has_unpack_ref = e.has_unpack_ref }

-- The text of `get_check_id`.
abbrev pub args_text : {V : Type 0} → List (Packer V) → List ℕ
args_text [] = []
args_text (p ∷ ps) = p.type ++ (p.hashstr ++ args_text ps)

unfoldable pub get_check_id : {V : Type 0} → Entry V → ℕ
unfolding calc_hashnr
get_check_id e = calc_hashnr (e.pack_func_name ++ args_text e.args)

-- What Lua knows of the remote functions: whether the makers' table has the function of a name, and whether
-- there is `construc_default_rpcfunc`, whose call is taken to give a function.
pub record FarFuncs : Type 0 where
  pub for_maker : List ℕ → Bool
  pub default_rpcfunc : Bool

-- `func_proc`: whether `_unpack_ref` is set then, and whether the result is `PROTO_OK`.
unfoldable pub func_proc : FarFuncs → Bool → List ℕ → Bool → Bool × Bool
func_proc far true name has_ref =
    if far.for_maker name || far.default_rpcfunc then (true, true) else (has_ref, has_ref)
func_proc far false name has_ref = (has_ref, true)

-- A caller's `func_proc` enters `pack` in the callers' table, whatever comes after.
abbrev pub caller_entry : Bool → List ℕ → Option (List ℕ)
caller_entry true name = none
caller_entry false name = some name

-- An item of `arg_list`: no table, or the name of a type and what stands for the size, where it is a number. A
-- name that is no string, which raises an error of Lua, is left out.
pub data ArgDesc : Type 0 where
  no_table : ArgDesc
  arg_desc : List ℕ → Option ℕ → ArgDesc

-- The packers that are known, those of the protocol, and whether the result is `PROTO_OK`.
abbrev pub Listed : Type 0 → Type 0
Listed V = List (Packer V) × List (Packer V) × Bool

abbrev pub named : Option (List ℕ) → List ℕ → List ℕ
named none name = name
named (some func_name) name = func_name

-- What the chunk of a protocol returns, where it is a table: `func_name`, where it is a string, and `arg_list`,
-- where it is a table.
pub record ProtoDesc : Type 0 where
  pub func_name : Option (List ℕ)
  pub arg_list : Option (List ArgDesc)

module _ {V : Type 0} where
  abbrev pub push_arg :
      List (Packer V)
      → List (Packer V)
      → Option (Packer V)
      → (List (Packer V) → Outcome (Listed V))
      → Outcome (Listed V)
  push_arg known args none next = done (known, args, false)
  push_arg known args (some p) next = next (args ++ (p ∷ []))

  -- The length is the pattern of an `int`: one above 255 is too large, or negative.
  unfoldable pub arglist_proc :
      List ArgDesc → List (Packer V) → List (Packer V) → Outcome (Listed V)
  arglist_proc [] known args = done (known, args, true)
  arglist_proc (no_table ∷ descs) known args = done (known, args, false)
  arglist_proc (arg_desc arg_type none ∷ descs) known args =
      push_arg known args (get_arg known arg_type) (arglist_proc descs known)
  arglist_proc (arg_desc arg_type (some array_len) ∷ descs) known args =
      let made = new_array_arg (get_arg known arg_type) arg_type array_len >>= λ p.
      arglist_proc descs (add_arg known p) (args ++ (p ∷ [])) in
      if ltb 255 array_len then done (known, args, false) else made

  -- A loading: the packers that are known then, the protocol, and whether the result is `PROTO_OK`.
  abbrev pub with_args : Entry V → Outcome (Listed V) → Outcome (List (Packer V) × Entry V × Bool)
  with_args e r = r >>= λ t. done (t.0, record e { args = t.1 }, t.2)

  abbrev pub read_arg_list :
      Option (List ArgDesc) → List (Packer V) → Entry V → Outcome (List (Packer V) × Entry V × Bool)
  read_arg_list none known e = done (known, e, false)
  read_arg_list (some descs) known e = with_args e (arglist_proc descs known e.args)

  abbrev pub after_func :
      Bool × Bool
      → Option (List ArgDesc)
      → List (Packer V)
      → Entry V
      → Outcome (List (Packer V) × Entry V × Bool)
  after_func (ref, false) arg_list known e = done (known, record e { has_unpack_ref = ref }, false)
  after_func (ref, true) arg_list known e =
      read_arg_list arg_list known (record e { has_unpack_ref = ref })

  unfoldable pub convert_protocol :
      FarFuncs
      → Option ProtoDesc
      → List (Packer V)
      → Entry V
      → Outcome (List (Packer V) × Entry V × Bool)
  unfolding func_proc arglist_proc
  convert_protocol far none known e = done (known, e, false)
  convert_protocol far (some desc) known e =
      let name = named desc.func_name e.pack_func_name in
      after_func (func_proc far e.is_maker name e.has_unpack_ref) desc.arg_list known
        (record e { pack_func_name = name; caller_name = caller_entry e.is_maker name })

  abbrev pub read_desc :
      FarFuncs
      → Option (Option ProtoDesc)
      → List (Packer V)
      → Entry V
      → Outcome (List (Packer V) × Entry V × Bool)
  read_desc far none known e = done (known, e, false)
  read_desc far (some chunk) known e = convert_protocol far chunk known e

  abbrev pub load_text :
      FarFuncs
      → (List ℕ → Option (Option ProtoDesc))
      → List ℕ
      → List (Packer V)
      → Entry V
      → Outcome (List (Packer V) × Entry V × Bool)
  load_text far run [] known e = done (known, e, false)
  load_text far run (c ∷ text) known e = read_desc far (run (c ∷ text)) known e

  abbrev pub load_typed :
      FarFuncs
      → (List ℕ → Option (Option ProtoDesc))
      → Option (List ℕ)
      → Option (List ℕ × Bool)
      → List (Packer V)
      → Entry V
      → Outcome (List (Packer V) × Entry V × Bool)
  load_typed far run file none known e = done (known, e, false)
  load_typed far run file (some t) known e =
      load_text far run (read_file file 102400) known
        (record e { pack_func_name = t.0; is_maker = t.1 })

  -- `load` of the file at a path, which cannot be opened or has the given bytes; `run` says what the chunk of
  -- a text returns, or `none` where it is no chunk or ends with an error.
  unfoldable pub load :
      FarFuncs
      → (List ℕ → Option (Option ProtoDesc))
      → List ℕ
      → List ℕ
      → Option (List ℕ)
      → List (Packer V)
      → Entry V
      → Outcome (List (Packer V) × Entry V × Bool)
  unfolding process_type convert_protocol
  load far run cur_char path file known e =
      load_typed far run file (process_type cur_char path) known e
