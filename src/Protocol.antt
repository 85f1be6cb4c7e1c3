-- ===== src/Protocol.antt =====
-- `net_protocol` and `proto_manager` of protocol/protocol.cpp, as far as a remote call is written and read.
pub mod Calls
pub mod Reads
pub mod Sending
pub mod Multicast
pub mod Names
pub mod Loading
pub mod Paths
pub mod Manager
pub mod Numbered
pub mod Script
pub mod Counts
pub mod Sessions
pub mod Counted
pub mod Managing
pub mod Registry
pub mod Callers
pub mod Registering
pub mod Dangling
pub mod SameFiles
pub mod Ends
pub mod SameEnds
pub mod Agreed
pub mod Places
pub mod Matching
mod LoadTests
mod RegistryTests
mod EndsTests
mod SessionTests
mod Tests
use simple_module.Base.{
  ℕ, zero, suc, ◌+◌, ◌-◌, ◌*◌, Bool, true, false, Option, none, some, List, [], ◌∷◌, ◌++◌, ltb,
  ◌==◌, if◌then◌else◌, length, drop, take, get_elem?,
}
use simple_module.Base.Word.{le_bytes, le_value}
use simple_module.Lua.{Lua}
use simple_module.Args.Scalar.{
  Packed, packed, rejected, raised, astray, Unpacked, unpacked, refused, lost, used, and_then,
  advance,
}
use simple_module.Args.{Arg, pack, unpack}

-- What `unpack_data` comes to, with the values that the remote function was called with: the number of
-- bytes read, `XYNET_ERROR_UNPACK_FORMAT`, `XYNET_ERROR_UNPACK_SCRIPT`, the 0 of `check_buf`, or the use of
-- memory that is not its own.
pub data Reply (V : Type 0) : Type 0 where
  called : List V → ℕ → Reply V
  bad_format too_short astray_read : Reply V
  script_error : List V → Reply V

-- `_id`, `_args`, and whether `_unpack_ref` is set.
pub record NetProtocol (V : Type 0) : Type 0 where
  pub id : ℕ
  pub args : List (Arg V)
  pub has_unpack_ref : Bool

-- The number 0 marks an id of two bytes.
abbrev pub id_bytes : ℕ → List ℕ
id_bytes id = if ltb id 256 then id ∷ [] else 0 ∷ le_bytes 2 id

abbrev pub cons_value : {V : Type 0} → V → Unpacked (List V) → Unpacked (List V)
cons_value v (unpacked vs n) = unpacked (v ∷ vs) n
cons_value v refused = refused
cons_value v lost = lost

module _ (lua : Lua) where
  -- The arguments stand on the Lua stack in order; a missing one raises an error.
  unfoldable pub marshal_args : List (Arg lua.Value) → List lua.Value → ℕ → Packed
  marshal_args [] vs room = packed []
  marshal_args (a ∷ args) [] room = raised
  marshal_args (a ∷ args) (v ∷ vs) room =
      and_then (used (pack lua a v room)) (λ len. marshal_args args vs (room - len))

  -- `marshal`, with `rejected` for its result -1.
  unfoldable pub marshal : NetProtocol lua.Value → List lua.Value → ℕ → Packed
  unfolding marshal_args
  marshal proto vs room =
      if proto.id == 0
      then astray
      else and_then (packed (id_bytes proto.id)) (λ len. marshal_args proto.args vs (room - len))

  unfoldable pub unpack_args : List (Arg lua.Value) → ℕ → List ℕ → Unpacked (List lua.Value)
  unpack_args [] pos buf = unpacked [] pos
  unpack_args (a ∷ args) pos buf =
      advance (unpack lua a buf)
        (λ v len. cons_value v (unpack_args args (pos + len) (drop len buf)))

  module _ (call : List lua.Value → Bool) where
    -- The remote function is called with `ext` and the values; `call` says whether it runs to its end.
    abbrev pub reply : ℕ → Unpacked (List lua.Value) → Reply lua.Value
    reply pos (unpacked vs n) = if call vs then called vs (pos + n) else script_error vs
    reply pos refused = bad_format
    reply pos lost = astray_read

    -- `net_protocol::unpack`, where `pos` bytes have been read before.
    unfoldable pub unpack_call : NetProtocol lua.Value → ℕ → List ℕ → Reply lua.Value
    unfolding unpack_args
    unpack_call proto pos buf =
        if proto.has_unpack_ref then reply pos (unpack_args proto.args 0 buf) else bad_format

    -- `_s_protos[proto_id]`
    abbrev pub at_proto : Option (NetProtocol lua.Value) → ℕ → List ℕ → Reply lua.Value
    at_proto none pos buf = bad_format
    at_proto (some proto) pos buf = unpack_call proto pos buf

    unfoldable pub unpack_data : List (NetProtocol lua.Value) → List ℕ → Reply lua.Value
    unfolding unpack_call
    unpack_data protos [] = too_short
    unpack_data protos (b ∷ bs) =
        if b == 0
        then (if ltb (length bs) 2
            then too_short
            else at_proto (get_elem? protos (le_value (take 2 bs))) 3 (drop 2 bs))
        else at_proto (get_elem? protos b) 1 bs
