-- ===== src/Protocol/SessionTests.antt =====
-- A session in which a manager is made, a protocol is added by it, and a call is read.
use simple_module.Base.{ℕ, ◌≡◌, refl, true, none, some, List, [], ◌∷◌, arith}
use simple_module.Base.Outcome.{done}
use simple_module.Lua.Small.{Val}
use simple_module.Args.Format.{init, read_file}
use simple_module.Protocol.Names.{find_last_of, process_type, client_text}
use simple_module.Protocol.Loading.{
  Entry, new_net_protocol, load, func_proc, arglist_proc, convert_protocol,
}
use simple_module.Protocol.Manager.{
  Loader, loaded_as, ProtoManager, get_proto_manager, create_new_proto_manager, add_protocol,
  new_proto_manager, count_unpack,
}
use simple_module.Protocol.Script.{
  Script, object_of, other_value, lua_error, answered, stats, pto_add_protocol, pto_stat,
  call_method, create_manager, count_read, unpack_total,
}
use simple_module.Protocol.Sessions.{Session, opens, creates, runs, calls_read, IsCounted}
use simple_module.Protocol.Counted.{Session-IsCounted}

abbrev new_script : Script Val
new_script = record { known = []; managers = []; total_pack_count = 0; total_unpack_count = 0 }

abbrev name : List ℕ
name = 109 ∷ []

-- A chunk that describes no arguments.
abbrev loader : Loader
loader = record {
  far = record { for_maker = λ far_name. true; default_rpcfunc = true };
  run = λ text. some (some (record { func_name = none; arg_list = some [] }));
  cur_char = client_text;
}

abbrev path : List ℕ
path = 112 ∷ 47 ∷ 99 ∷ 95 ∷ 97 ∷ 46 ∷ 98 ∷ []

abbrev manager0 : ProtoManager Val
manager0 = (new_proto_manager []).1

abbrev script1 : Script Val
script1 = record new_script { known = (new_proto_manager []).0; managers = (name, manager0) ∷ [] }

session1 : Session script1
unfolding create_manager create_new_proto_manager get_proto_manager init
session1 = creates new_script name [] [] true true opens

abbrev entry : Entry Val
entry = record (new_net_protocol {V = Val} 1) {
  pack_func_name = 99 ∷ 95 ∷ 97 ∷ [];
  is_maker = true;
  has_unpack_ref = true;
}

abbrev manager2 : ProtoManager Val
manager2 = record manager0 { protos = new_net_protocol 0 ∷ entry ∷ [] }

abbrev script2 : Script Val
script2 = record script1 { managers = (name, manager2) ∷ [] }

protocol_added :
    call_method script1 (object_of name) (pto_add_protocol loader path (some (32 ∷ [])))
    ≡ done (script2, answered (loaded_as 1))
unfolding call_method get_proto_manager add_protocol load process_type find_last_of convert_protocol
    func_proc arglist_proc read_file
protocol_added = refl

session2 : Session script2
session2 =
    runs script1 script2 (object_of name) (pto_add_protocol loader path (some (32 ∷ [])))
      (answered (loaded_as 1)) session1 protocol_added

manager_found : get_proto_manager script2.managers name ≡ some manager2
unfolding get_proto_manager
manager_found = refl

Session-IsCounted_example : IsCounted (count_read script2 name manager2 (1 ∷ []))
unfolding session2 session1
Session-IsCounted_example =
    Session-IsCounted (count_read script2 name manager2 (1 ∷ []))
      (calls_read script2 name manager2 (1 ∷ []) session2 manager_found) (omega arith)

-- The call is counted, for its protocol and for the total.
call_counted :
    call_method (count_read script2 name manager2 (1 ∷ [])) (object_of name) pto_stat
    ≡ done (
      count_read script2 name manager2 (1 ∷ []),
      stats 0 ((0, 0) ∷ (1, 0) ∷ []) 1 ((0, 0) ∷ (1, 1) ∷ []),
    )
unfolding call_method get_proto_manager count_read count_unpack unpack_total
call_counted = refl

-- A value that is no manager.
no_manager : call_method script2 other_value pto_stat ≡ done (script2, lua_error)
unfolding call_method
no_manager = refl
