-- ===== src/Protocol/Script.antt =====
-- What a script does with the managers of protocol/protocol.cpp: the functions that `InitProtocolLib` registers,
-- and calls that are written and read, with the static totals of their counts.
use simple_module.Base.{
  ℕ, zero, suc, Bool, Option, none, some, List, [], ◌∷◌, ltb, ◌==◌, if◌then◌else◌, length, take,
}
use simple_module.Base.Word.{u64, le_value}
use simple_module.Base.Outcome.{Outcome, done, ◌>>=◌}
use simple_module.Args.Format.{Packer, Chunk, same_text, add_table_args}
use simple_module.Protocol.Loading.{Entry}
use simple_module.Protocol.Manager.{
  ProtoManager, ManagerMap, Managed, Loader, Answer, add_protocol, add_static_protocol,
  update_protocol, count_unpack, stat, get_proto_manager, get_ptos_checkid,
  create_new_proto_manager,
}

-- The packers of all managers, `ProtoManagerMap`, `_total_pack_count` and `_total_unpack_count`.
pub record Script (V : Type 0) : Type 0 where
  pub known : List (Packer V)
  pub managers : ManagerMap V
  pub total_pack_count : ℕ
  pub total_unpack_count : ℕ

-- What `luaL_checkudata` looks at: the object of the manager with a name, or a value that is no light
-- userdata. All light userdata that scripts get come from `GetProtoObj`.
pub data Userdata : Type 0 where
  object_of : List ℕ → Userdata
  other_value : Userdata

-- What a function leaves on the Lua stack: nothing, what a manager left, a check id, the two tables of `stat`
-- with their totals, or an error.
pub data Result : Type 0 where
  nothing_left lua_error : Result
  answered : Answer → Result
  check_sum : ℕ → Result
  stats : ℕ → List (ℕ × ℕ) → ℕ → List (ℕ × ℕ) → Result

-- The functions of `ProtoLib_m`, with the path, the file at it, and what it gives.
pub data Method (V : Type 0) : Type 0 where
  add_arg_type : (List ℕ → Chunk V) → Option (List ℕ) → Method V
  pto_add_protocol pto_add_static_protocol : Loader → List ℕ → Option (List ℕ) → Method V
  pto_update_protocol : Loader → Option (ℕ × List ℕ) → Option (List ℕ) → Method V
  get_check_sum pto_stat : Method V

module _ {V : Type 0} where
  -- A manager that has changed.
  abbrev pub put_manager : ManagerMap V → List ℕ → ProtoManager V → ManagerMap V
  put_manager [] name m = []
  put_manager ((k, n) ∷ map) name m =
      if same_text k name then (k, m) ∷ map else (k, n) ∷ put_manager map name m

  -- `GetProtoObj`
  abbrev pub object_if : Option (ProtoManager V) → List ℕ → Option Userdata
  object_if none name = none
  object_if (some m) name = some (object_of name)

  unfoldable pub get_proto_obj : Script V → List ℕ → Option Userdata
  unfolding get_proto_manager
  get_proto_obj s name = object_if (get_proto_manager s.managers name) name

  abbrev pub after_managed : Script V → List ℕ → Outcome (Managed V) → Outcome (Script V × Result)
  after_managed s name r = r >>= λ t.
      done (record s { known = t.0; managers = put_manager s.managers name t.1 }, answered t.2)

  unfoldable pub run_method :
      Script V → List ℕ → ProtoManager V → Method V → Outcome (Script V × Result)
  unfolding add_table_args add_protocol add_static_protocol update_protocol get_ptos_checkid
  run_method s name m (add_arg_type run file) =
      add_table_args s.known run file >>= λ known. done (record s { known = known }, nothing_left)
  run_method s name m (pto_add_protocol l path file) =
      after_managed s name (add_protocol l path file s.known m)
  run_method s name m (pto_add_static_protocol l path file) =
      after_managed s name (add_static_protocol l path file s.known m)
  run_method s name m (pto_update_protocol l place file) =
      after_managed s name (update_protocol l place file s.known m)
  run_method s name m get_check_sum = done (s, check_sum (get_ptos_checkid m))
  run_method s name m pto_stat =
      let (packs, unpacks) = stat m.protos in
      done (s, stats s.total_pack_count packs s.total_unpack_count unpacks)

  abbrev pub with_manager :
      Script V
      → List ℕ
      → Option (ProtoManager V)
      → (ProtoManager V → Outcome (Script V × Result))
      → Outcome (Script V × Result)
  with_manager s name none next = done (s, lua_error)
  with_manager s name (some m) next = next m

  -- A function of `ProtoLib_m` is called with a value for the object.
  unfoldable pub call_method : Script V → Userdata → Method V → Outcome (Script V × Result)
  unfolding run_method get_proto_manager
  call_method s other_value method = done (s, lua_error)
  call_method s (object_of name) method =
      with_manager s name (get_proto_manager s.managers name) (λ m. run_method s name m method)

  -- `CreateNewProtoManager`, with whether it returns a manager.
  unfoldable pub create_manager :
      Script V → List ℕ → List ℕ → List ℕ → Bool → Bool → Script V × Bool
  unfolding create_new_proto_manager
  create_manager s name for_maker for_caller maker_nil caller_nil =
      let (known, managers, made) =
        create_new_proto_manager s.known s.managers name for_maker for_caller maker_nil
          caller_nil in
      (record s { known = known; managers = managers }, made)

  -- The total that a call to be read counts for, as `bump` counts it for its protocol.
  abbrev pub bump_total : List (Entry V) → ℕ → ℕ → ℕ
  bump_total [] i total = total
  bump_total (e ∷ es) zero total = if e.has_unpack_ref then u64 (suc total) else total
  bump_total (e ∷ es) (suc i) total = bump_total es i total

  unfoldable pub unpack_total : List (Entry V) → List ℕ → ℕ → ℕ
  unpack_total protos [] total = total
  unpack_total protos (b ∷ bs) total =
      if b == 0
      then (if ltb (length bs) 2 then total else bump_total protos (le_value (take 2 bs)) total)
      else bump_total protos b total

  -- The counts of a call of `pack` of the protocol at a place, and of a call of `unpack_data`.
  abbrev pub bump_pack : List (Entry V) → ℕ → List (Entry V)
  bump_pack [] i = []
  bump_pack (e ∷ es) zero = record e { pack_count = u64 (suc e.pack_count) } ∷ es
  bump_pack (e ∷ es) (suc i) = e ∷ bump_pack es i

  abbrev pub count_packed : Script V → List ℕ → ProtoManager V → ℕ → Script V
  count_packed s name m i = record s {
    managers = put_manager s.managers name (record m { protos = bump_pack m.protos i });
    total_pack_count = u64 (suc s.total_pack_count);
  }

  unfoldable pub count_read : Script V → List ℕ → ProtoManager V → List ℕ → Script V
  unfolding count_unpack unpack_total
  count_read s name m buf = record s {
    managers = put_manager s.managers name (record m { protos = count_unpack m.protos buf });
    total_unpack_count = unpack_total m.protos buf s.total_unpack_count;
  }
