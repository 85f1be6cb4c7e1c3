-- ===== src/Protocol/Manager.antt =====
-- `proto_manager` of protocol/protocol.cpp with the packers of `fcall_arg_manager`, which all managers share,
-- and the map of managers.
use simple_module.Base.{
  take, ◌==◌, ℕ, zero, suc, Bool, true, false, ◌&&◌, Option, none, some, List, [], ◌∷◌, ◌++◌, ltb,
  if◌then◌else◌, length,
}
use simple_module.Base.Word.{u32, u64, le_bytes, le_value}
use simple_module.Base.Outcome.{Outcome, done, fault, stuck}
use simple_module.Lua.{Lua}
use simple_module.Args.Format.{destruct, Packer, same_text, init}
use simple_module.Protocol.{NetProtocol}
use simple_module.Protocol.Loading.{
  Entry, new_net_protocol, net_protocol_of, get_check_id, calc_hashnr, load, FarFuncs, ProtoDesc,
}
use simple_module.Protocol.Sending.{Receivers, PackEnd, pack_call}

-- `_s_protos`, `_static_protocol_count`, `_for_maker` and `_for_caller` of a manager.
pub record ProtoManager (V : Type 0) : Type 0 where
  pub protos : List (Entry V)
  pub static_protocol_count : ℕ
  pub for_maker : List ℕ
  pub for_caller : List ℕ

-- What loading depends on: Lua's functions, the chunks of texts, and `cur_char`.
pub record Loader : Type 0 where
  pub far : FarFuncs
  pub run : List ℕ → Option (Option ProtoDesc)
  pub cur_char : List ℕ

-- What is left on the Lua stack: the id, or a message.
pub data Answer : Type 0 where
  loaded_as : ℕ → Answer
  load_failed no_answer : Answer

abbrev pub put_at : {A : Type 0} → ℕ → A → List A → List A
put_at i a [] = []
put_at zero a (x ∷ xs) = a ∷ xs
put_at (suc i) a (x ∷ xs) = x ∷ put_at i a xs

-- A manager with the packers that are known.
abbrev pub Managed : Type 0 → Type 0
Managed V = List (Packer V) × ProtoManager V × Answer

-- `ProtoManagerMap`, whose keys are names.
abbrev pub ManagerMap : Type 0 → Type 0
ManagerMap V = List (List ℕ × ProtoManager V)

module _ {V : Type 0} where
  -- The constructor, with the packers that there are.
  abbrev pub new_proto_manager : List (Packer V) → List (Packer V) × ProtoManager V
  new_proto_manager known = (
    init known,
    record {
      protos = new_net_protocol 0 ∷ [];
      static_protocol_count = 0;
      for_maker = [];
      for_caller = [];
    },
  )

  abbrev pub pushed :
      ProtoManager V → Outcome (List (Packer V) × Entry V × Bool) → Outcome (Managed V)
  pushed m (done (known, e, true)) =
      done (known, record m { protos = m.protos ++ (e ∷ []) }, loaded_as (length m.protos))
  pushed m (done (known, e, false)) = done (known, m, load_failed)
  pushed m fault = fault
  pushed m stuck = stuck

  unfoldable pub add_protocol :
      Loader → List ℕ → Option (List ℕ) → List (Packer V) → ProtoManager V → Outcome (Managed V)
  unfolding load
  add_protocol l path file known m =
      pushed m (load l.far l.run l.cur_char path file known (new_net_protocol (length m.protos)))

  abbrev pub counted : Outcome (Managed V) → Outcome (Managed V)
  counted (done (known, m, loaded_as i)) =
      done
        (known, record m { static_protocol_count = u32 (suc m.static_protocol_count) }, loaded_as i)
  counted (done (known, m, load_failed)) = done (known, m, load_failed)
  counted (done (known, m, no_answer)) = done (known, m, no_answer)
  counted fault = fault
  counted stuck = stuck

  unfoldable pub add_static_protocol :
      Loader → List ℕ → Option (List ℕ) → List (Packer V) → ProtoManager V → Outcome (Managed V)
  unfolding add_protocol
  add_static_protocol l path file known m = counted (add_protocol l path file known m)

  abbrev pub replaced :
      ℕ → ProtoManager V → Outcome (List (Packer V) × Entry V × Bool) → Outcome (Managed V)
  replaced i m (done (known, e, true)) =
      done (known, record m { protos = put_at i e m.protos }, loaded_as i)
  replaced i m (done (known, e, false)) = done (known, m, load_failed)
  replaced i m fault = fault
  replaced i m stuck = stuck

  -- `update_protocol` with the number and the path on the stack.
  unfoldable pub update_at :
      Loader → ℕ → List ℕ → Option (List ℕ) → List (Packer V) → ProtoManager V → Outcome (Managed V)
  unfolding load
  update_at l proto_id path file known m =
      let r =
        replaced proto_id m
          (load l.far l.run l.cur_char path file known (new_net_protocol proto_id)) in
      if ltb proto_id (length m.protos) then r else done (known, m, no_answer)

  -- `update_protocol`: there may be no number with a path on the stack, as `lua_isnumber` and `lua_isstring`
  -- see them.
  unfoldable pub update_protocol :
      Loader
      → Option (ℕ × List ℕ)
      → Option (List ℕ)
      → List (Packer V)
      → ProtoManager V
      → Outcome (Managed V)
  unfolding update_at
  update_protocol l none file known m = done (known, m, no_answer)
  update_protocol l (some (proto_id, path)) file known m = update_at l proto_id path file known m

  -- The destructor, which takes the packers of all managers with it.
  abbrev pub destroy : List (Packer V) → ProtoManager V → List (Packer V) × ProtoManager V
  destroy known m = (destruct known, record m { protos = [] })

  -- The count of the calls that are read, where the protocol has a function.
  abbrev pub bump : List (Entry V) → ℕ → List (Entry V)
  bump [] i = []
  bump (e ∷ es) zero =
      (if e.has_unpack_ref then record e { unpack_count = u64 (suc e.unpack_count) } else e) ∷ es
  bump (e ∷ es) (suc i) = e ∷ bump es i

  -- What `unpack_data` does to the counts, whatever becomes of the call.
  unfoldable pub count_unpack : List (Entry V) → List ℕ → List (Entry V)
  count_unpack protos [] = protos
  count_unpack protos (b ∷ bs) =
      if b == 0
      then (if ltb (length bs) 2 then protos else bump protos (le_value (take 2 bs)))
      else bump protos b

  abbrev pub protos_of : List (Entry V) → List (NetProtocol V)
  protos_of [] = []
  protos_of (e ∷ es) = net_protocol_of e ∷ protos_of es

  -- The `int`s as they lie in memory.
  abbrev pub check_bytes : List (Entry V) → List ℕ
  check_bytes [] = []
  check_bytes (e ∷ es) = le_bytes 4 (get_check_id e) ++ check_bytes es

  unfoldable pub get_ptos_checkid : ProtoManager V → ℕ
  unfolding get_check_id calc_hashnr
  get_ptos_checkid m = calc_hashnr (check_bytes m.protos)

  -- The two tables of `stat`, without the totals, which are static members.
  abbrev pub stat : List (Entry V) → List (ℕ × ℕ) × List (ℕ × ℕ)
  stat [] = ([], [])
  stat (e ∷ es) =
      let rest = stat es in ((e.id, e.pack_count) ∷ rest.0, (e.id, e.unpack_count) ∷ rest.1)

  unfoldable pub get_proto_manager : ManagerMap V → List ℕ → Option (ProtoManager V)
  get_proto_manager [] name = none
  get_proto_manager ((k, m) ∷ map) name =
      if same_text k name then some m else get_proto_manager map name

  -- The packers, the map, and whether a manager is returned.
  abbrev pub created :
      ManagerMap V
      → List ℕ
      → List (Packer V) × ProtoManager V
      → Bool
      → List (Packer V) × ManagerMap V × Bool
  created map name (known, m) both_nil = (known, (name, m) ∷ map, both_nil)

  abbrev pub unless_there :
      Option (ProtoManager V)
      → List (Packer V) × ManagerMap V × Bool
      → List (Packer V) × ManagerMap V × Bool
      → List (Packer V) × ManagerMap V × Bool
  unless_there none make there = make
  unless_there (some m) make there = there

  -- `CreateNewProtoManager`, where `maker_nil` and `caller_nil` say whether Lua has no global of these names;
  -- the new manager is in the map before that is looked at.
  unfoldable pub create_new_proto_manager :
      List (Packer V)
      → ManagerMap V
      → List ℕ
      → List ℕ
      → List ℕ
      → Bool
      → Bool
      → List (Packer V) × ManagerMap V × Bool
  unfolding init get_proto_manager
  create_new_proto_manager known map name for_maker for_caller maker_nil caller_nil =
      let (known', m) = new_proto_manager known in
      unless_there (get_proto_manager map name)
        (created map name (known', record m { for_maker = for_maker; for_caller = for_caller })
          (maker_nil && caller_nil))
        (known, map, false)

module _ (lua : Lua) where
  -- `net_protocol::pack` counts the call whatever becomes of it.
  unfoldable pub count_and_pack :
      Entry lua.Value → Receivers → List lua.Value → Entry lua.Value × PackEnd
  unfolding pack_call
  count_and_pack e to vs =
      (record e { pack_count = u64 (suc e.pack_count) }, pack_call lua (net_protocol_of e) to vs)
