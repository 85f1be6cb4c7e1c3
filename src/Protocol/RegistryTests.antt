-- ===== src/Protocol/RegistryTests.antt =====
-- A caller's protocol that is added, called, and updated with a file that cannot be loaded, or with another
-- name.
use simple_module.Base.{
  ℕ, ◌≡◌, refl, true, false, some, none, List, [], ◌∷◌, arith, if◌then◌else◌, ◌==◌,
}
use simple_module.Base.Dict.{lookup, insert}
use simple_module.Base.Outcome.{done, fault}
use simple_module.Lua.Small.{Val, num, small_lua}
use simple_module.Args.{word}
use simple_module.Args.Format.{Packer, init, get_arg, word_type, read_file}
use simple_module.Protocol.Names.{find_last_of, process_type, server_text}
use simple_module.Protocol.Loading.{
  new_net_protocol, Entry, ProtoDesc, arg_desc, no_table, load, func_proc, arglist_proc,
  convert_protocol,
}
use simple_module.Protocol.Sending.{unicast, sent, pack_call}
use simple_module.Protocol.Manager.{
  Loader, loaded_as, load_failed, new_proto_manager, add_protocol, update_at,
}
use simple_module.Protocol.Registry.{
  Registry, new_registry, register_protocol, renew_protocol, call_far, enter_caller, caller_at,
}
use simple_module.Protocol.Registering.{
  none_from_one, Registering, starts, registers, Returned, call_far-Returned,
}
use simple_module.Protocol.Matching.{IsView, Matches, registry-Matches}
use simple_module.Protocol.Dangling.{renew_protocol_failed, renew_protocol_renamed}

-- p/c_a.b, and the names c_a and n
abbrev path : List ℕ
path = 112 ∷ 47 ∷ 99 ∷ 95 ∷ 97 ∷ 46 ∷ 98 ∷ []

abbrev far_name : List ℕ
far_name = 99 ∷ 95 ∷ 97 ∷ []

abbrev new_name : List ℕ
new_name = 110 ∷ []

-- A text of one space describes a word, one of another character an argument that is no table, and any
-- other text a word and the name n.
abbrev desc_of : List ℕ → ProtoDesc
desc_of (c ∷ []) = record {
  func_name = none;
  arg_list = some ((if c == 32 then arg_desc word_type none else no_table) ∷ []);
}
desc_of _ = record { func_name = some new_name; arg_list = some (arg_desc word_type none ∷ []) }

abbrev loader : Loader
loader = record {
  far = record { for_maker = λ name. false; default_rpcfunc = true };
  run = λ text. some (some (desc_of text));
  cur_char = server_text;
}

abbrev known : List (Packer Val)
known = (new_proto_manager []).0

abbrev far_entry : Entry Val
far_entry = record {
  id = 1;
  pack_func_name = far_name;
  args = record { type = word_type; hashstr = word_type; arg = word } ∷ [];
  is_maker = false;
  has_unpack_ref = false;
  caller_name = some far_name;
  pack_count = 0;
  unpack_count = 0;
}

abbrev registry1 : Registry Val
registry1 = record {
  next = 2;
  objects = (0, new_net_protocol 0) ∷ (1, far_entry) ∷ [];
  places = 0 ∷ 1 ∷ [];
  callers = (far_name, 1) ∷ [];
}

registered :
    register_protocol loader path (some (32 ∷ [])) known new_registry
    ≡ done (known, registry1, loaded_as 1)
unfolding register_protocol load process_type find_last_of convert_protocol func_proc arglist_proc
    read_file init get_arg insert enter_caller
registered = refl

registering : Registering small_lua known registry1
registering = registers loader path (some (32 ∷ [])) (loaded_as 1) (starts known) registered

call_far-Returned_example :
    Returned small_lua (call_far small_lua registry1 far_name (unicast 7) (num 5 ∷ []))
call_far-Returned_example =
    call_far-Returned small_lua known registry1 far_name (unicast 7) (num 5 ∷ []) registering

-- The call sends the id and the word.
call_sends :
    call_far small_lua registry1 far_name (unicast 7) (num 5 ∷ [])
    ≡ done (
      record registry1 {
        objects = (0, new_net_protocol 0) ∷ (1, record far_entry { pack_count = 1 }) ∷ [];
      },
      some (
          sent (record {
            data_sent = 1 ∷ 5 ∷ 0 ∷ [];
            ext = 7;
            ismulticast = false;
            mcpayloadlen = 0;
          })),
    )
unfolding call_far caller_at lookup insert simple_module.Protocol.Manager.count_and_pack pack_call
    simple_module.Protocol.marshal simple_module.Args.pack
call_sends = refl

load_fails :
    load loader.far loader.run loader.cur_char path (some (33 ∷ [])) known (new_net_protocol 1)
    ≡ done (known, record far_entry { args = [] }, false)
unfolding load process_type find_last_of convert_protocol func_proc arglist_proc read_file
load_fails = refl

renew_protocol_failed_example :
    (r : Registry Val) × (renew_protocol loader 1 path (some (33 ∷ [])) known registry1
      ≡ done (known, r, load_failed))
    × (call_far small_lua r far_name (unicast 7) (num 5 ∷ []) ≡ fault)
renew_protocol_failed_example =
    renew_protocol_failed small_lua known known registry1 loader 1 path far_name (some (33 ∷ []))
      (record far_entry { args = [] }) (unicast 7) (num 5 ∷ []) registering (omega arith) load_fails
      refl

load_renames :
    load loader.far loader.run loader.cur_char path (some (33 ∷ 33 ∷ [])) known (new_net_protocol 1)
    ≡ done
        (known, record far_entry { pack_func_name = new_name; caller_name = some new_name }, true)
unfolding load process_type find_last_of convert_protocol func_proc arglist_proc read_file init
    get_arg
load_renames = refl

registry1_bound : caller_at registry1.callers far_name ≡ some 1
unfolding caller_at
registry1_bound = refl

renew_protocol_renamed_example :
    (r : Registry Val) × (renew_protocol loader 1 path (some (33 ∷ 33 ∷ [])) known registry1
      ≡ done (known, r, loaded_as 1))
    × (call_far small_lua r far_name (unicast 7) (num 5 ∷ []) ≡ fault)
renew_protocol_renamed_example =
    renew_protocol_renamed small_lua known known registry1 loader 1 1 path far_name new_name
      (some (33 ∷ 33 ∷ []))
      (record far_entry { pack_func_name = new_name; caller_name = some new_name }) (unicast 7)
      (num 5 ∷ []) (omega arith) load_renames refl refl refl registry1_bound

new_registry-IsView : IsView new_registry (new_proto_manager {V = Val} []).1
unfolding lookup
new_registry-IsView = record {
  held = (refl, tt);
  apart = (tt, tt);
  fresh = none_from_one (new_net_protocol 0);
}

registry-Matches_example :
    Matches
      (register_protocol loader path (some (32 ∷ [])) known new_registry)
      (add_protocol loader path (some (32 ∷ [])) known (new_proto_manager []).1)
    × Matches
        (renew_protocol loader 0 path (some (32 ∷ [])) known new_registry)
        (update_at loader 0 path (some (32 ∷ [])) known (new_proto_manager []).1)
registry-Matches_example =
    registry-Matches loader 0 path (some (32 ∷ [])) known new_registry (new_proto_manager []).1
      new_registry-IsView
