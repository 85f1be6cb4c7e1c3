-- ===== src/Protocol/Sending.antt =====
-- `net_protocol::pack` of protocol/protocol.cpp: a call is sent to one receiver, or to many.
use simple_module.Base.{
  ℕ, ◌-◌, Bool, true, false, Option, none, some, List, [], ◌∷◌, ◌++◌, leb, ◌==◌, if◌then◌else◌,
  length,
}
use simple_module.Base.Word.{le_bytes}
use simple_module.Lua.{Lua}
use simple_module.Args.Scalar.{Packed, packed, rejected, raised, astray}
use simple_module.Protocol.{NetProtocol, marshal}

abbrev pub max_to_netd : ℕ
max_to_netd = 32768

-- The arguments of the send hook: the bytes, `ext`, `ismulticast` and `mcpayloadlen`.
pub record Sending : Type 0 where
  pub data_sent : List ℕ
  pub ext : ℕ
  pub ismulticast : Bool
  pub mcpayloadlen : ℕ

-- The first argument of the call: a number, a table of what `luaL_checknumber` gives for each index, with
-- `none` where it raises an error, or anything else. A `VFD` is its pattern.
pub data Receivers : Type 0 where
  unicast : ℕ → Receivers
  multicast : List (Option ℕ) → Receivers
  nobody : Receivers

-- What is given to the send hook, an error of Lua, or undefined behaviour.
pub data PackEnd : Type 0 where
  sent : Sending → PackEnd
  nothing_sent lua_error undefined_stack : PackEnd

abbrev pub cons_to : ℕ → Option (List ℕ) → Option (List ℕ)
cons_to to none = none
cons_to to (some vs) = some (to ∷ vs)

-- The loop over the receivers, with `room` bytes up to `endp`: the receivers that are written.
unfoldable pub collect : List (Option ℕ) → ℕ → Option (List ℕ)
collect [] room = some []
collect (none ∷ tos) room = none
collect (some to ∷ tos) room =
    let rest = collect tos room in
    let after = collect tos (room - 4) in
    if to == 0 then rest else if leb 4 room then cons_to to after else rest

abbrev pub vfd_bytes : List ℕ → List ℕ
vfd_bytes [] = []
vfd_bytes (v ∷ vs) = le_bytes 4 v ++ vfd_bytes vs

-- After the loop.
abbrev pub send_to_all : List ℕ → Option (List ℕ) → PackEnd
send_to_all payload none = lua_error
send_to_all payload (some []) = nothing_sent
send_to_all payload (some (v ∷ vs)) = sent (record {
  data_sent = payload ++ vfd_bytes (v ∷ vs);
  ext = length (v ∷ vs);
  ismulticast = true;
  mcpayloadlen = length payload;
})

abbrev pub send_to_one : ℕ → Packed → PackEnd
send_to_one ext (packed []) = nothing_sent
send_to_one ext (packed (b ∷ bs)) =
    sent (record { data_sent = b ∷ bs; ext = ext; ismulticast = false; mcpayloadlen = 0 })
send_to_one ext rejected = nothing_sent
send_to_one ext raised = lua_error
send_to_one ext astray = undefined_stack

abbrev pub send_to_many : List (Option ℕ) → Packed → PackEnd
send_to_many tos (packed []) = nothing_sent
send_to_many tos (packed (b ∷ bs)) =
    send_to_all (b ∷ bs) (collect tos (max_to_netd - length (b ∷ bs)))
send_to_many tos rejected = nothing_sent
send_to_many tos raised = lua_error
send_to_many tos astray = undefined_stack

module _ (lua : Lua) where
  unfoldable pub pack_call : NetProtocol lua.Value → Receivers → List lua.Value → PackEnd
  unfolding collect
  pack_call proto (unicast ext) vs =
      if ext == 0 then nothing_sent else send_to_one ext (marshal lua proto vs max_to_netd)
  pack_call proto (multicast []) vs = nothing_sent
  pack_call proto (multicast (to ∷ tos)) vs =
      send_to_many (to ∷ tos) (marshal lua proto vs max_to_netd)
  pack_call proto nobody vs = nothing_sent
