-- ===== src/Protocol/Tests.antt =====
-- A remote call of two arguments, written and read.
use simple_module.Base.{ℕ, ◌≡◌, ◌≤◌, refl, Bool, true, List, [], ◌∷◌, length}
use simple_module.Lua.Small.{Val, num, str, small_lua}
use simple_module.Args.Scalar.{packed}
use simple_module.Args.{word, string, pack}
use simple_module.Protocol.{NetProtocol, called, bad_format, marshal, unpack_data}
use simple_module.Protocol.Reads.{unpack_data-le}

abbrev no_protocol : NetProtocol Val
no_protocol = record { id = 0; args = []; has_unpack_ref = true }

abbrev move_protocol : NetProtocol Val
move_protocol = record { id = 1; args = word ∷ string ∷ []; has_unpack_ref = true }

abbrev always_ends : List Val → Bool
always_ends vs = true

abbrev call_bytes : List ℕ
call_bytes = 1 ∷ 5 ∷ 0 ∷ 2 ∷ 65 ∷ []

marshal_call : marshal small_lua move_protocol (num 5 ∷ str (65 ∷ []) ∷ []) 100 ≡ packed call_bytes
unfolding marshal pack simple_module.Args.Scalar.string_bytes
marshal_call = refl

unpack_call_bytes :
    unpack_data small_lua always_ends (no_protocol ∷ move_protocol ∷ []) call_bytes
    ≡ called (num 5 ∷ str (65 ∷ []) ∷ []) 5
unfolding unpack_data simple_module.Args.unpack simple_module.Args.Scalar.read_fixed
    simple_module.Args.Scalar.read_string
unpack_call_bytes = refl

unpack_data-le_example : 5 ≤ length call_bytes
unpack_data-le_example =
    unpack_data-le small_lua always_ends (no_protocol ∷ move_protocol ∷ []) call_bytes
      (num 5 ∷ str (65 ∷ []) ∷ []) 5 unpack_call_bytes

-- An id that no protocol has.
unpack_unknown : unpack_data small_lua always_ends (no_protocol ∷ []) (9 ∷ 1 ∷ []) ≡ bad_format
unfolding unpack_data
unpack_unknown = refl
