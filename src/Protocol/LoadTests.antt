-- ===== src/Protocol/LoadTests.antt =====
-- Protocols that are loaded, and calls of them.
use simple_module.Base.{
  ℕ, ◌≡◌, refl, true, false, some, none, List, [], ◌∷◌, ◌++◌, map, take, length, ◌-◌, ◌/◌,
}
use simple_module.Base.Outcome.{done}
use simple_module.Lua.Small.{Val, num, small_lua}
use simple_module.Args.Scalar.{packed}
use simple_module.Args.{Arg, word, number}
use simple_module.Args.Format.{Packer, init, get_arg, word_type, read_file}
use simple_module.Protocol.{marshal}
use simple_module.Protocol.Names.{find_last_of, process_type, client_text}
use simple_module.Protocol.Loading.{
  new_net_protocol, Entry, arg_desc, calc_hashnr, load, func_proc, arglist_proc, convert_protocol,
  net_protocol_of,
}
use simple_module.Protocol.Paths.{Decided, process_type-path}
use simple_module.Protocol.Sending.{multicast, pack_call}
use simple_module.Protocol.Multicast.{live, SentTo, pack_call-multicast}
use simple_module.Protocol.Manager.{
  count_unpack, ProtoManager, Loader, loaded_as, add_protocol, new_proto_manager, get_proto_manager,
  create_new_proto_manager,
}
use simple_module.Protocol.Managing.{Managing, is_new, adds}

-- p/c_a.b
abbrev path : List ℕ
path = 112 ∷ 47 ∷ 99 ∷ 95 ∷ 97 ∷ 46 ∷ 98 ∷ []

process_type-path_example : Decided client_text (99 ∷ 95 ∷ 97 ∷ []) (process_type client_text path)
unfolding find_last_of
process_type-path_example =
    process_type-path client_text (112 ∷ []) (99 ∷ 95 ∷ 97 ∷ []) (98 ∷ []) refl refl refl

-- A directory with a dot and a name without one.
process_type_dotted : process_type client_text (46 ∷ 47 ∷ 99 ∷ 95 ∷ []) ≡ none
unfolding process_type find_last_of
process_type_dotted = refl

-- A chunk that describes one argument, and the default function.
abbrev loader : Loader
loader = record {
  far = record { for_maker = λ name. false; default_rpcfunc = true };
  run = λ text.
      some (some (record { func_name = none; arg_list = some (arg_desc word_type none ∷ []) }));
  cur_char = client_text;
}

abbrev known : List (Packer Val)
known = (new_proto_manager []).0

abbrev manager : ProtoManager Val
manager = (new_proto_manager []).1

abbrev entry : Entry Val
entry = record {
  id = 1;
  pack_func_name = 99 ∷ 95 ∷ 97 ∷ [];
  args = record { type = word_type; hashstr = word_type; arg = word } ∷ [];
  is_maker = true;
  has_unpack_ref = true;
  caller_name = none;
  pack_count = 0;
  unpack_count = 0;
}

abbrev manager1 : ProtoManager Val
manager1 = record manager { protos = manager.protos ++ (entry ∷ []) }

added :
    add_protocol loader path (some (32 ∷ [])) known manager ≡ done (known, manager1, loaded_as 1)
unfolding add_protocol load process_type find_last_of convert_protocol func_proc arglist_proc
    read_file init get_arg
added = refl

managing : Managing known manager1
managing = adds loader path (some (32 ∷ [])) (loaded_as 1) (is_new []) added

call_five : marshal small_lua (net_protocol_of entry) (num 5 ∷ []) 32768 ≡ packed (1 ∷ 5 ∷ 0 ∷ [])
unfolding marshal simple_module.Args.pack
call_five = refl

pack_call-multicast_example :
    SentTo
      (1 ∷ 5 ∷ 0 ∷ [])
      (take ((32768 - length {A = ℕ} (1 ∷ 5 ∷ 0 ∷ [])) / 4) (live (7 ∷ 0 ∷ 8 ∷ [])))
      (pack_call small_lua
        (net_protocol_of entry)
        (multicast (map some (7 ∷ 0 ∷ 8 ∷ [])))
        (num 5 ∷ []))
pack_call-multicast_example =
    pack_call-multicast small_lua (net_protocol_of entry) (7 ∷ 0 ∷ 8 ∷ []) (num 5 ∷ []) 1
      (5 ∷ 0 ∷ []) call_five

-- A manager whose Lua names are taken is refused, and is in the map all the same.
create_taken :
    create_new_proto_manager {V = Val} [] [] (97 ∷ []) (98 ∷ []) (99 ∷ []) false true
    ≡ (known, (97 ∷ [], record manager { for_maker = 98 ∷ []; for_caller = 99 ∷ [] }) ∷ [], false)
unfolding create_new_proto_manager get_proto_manager init
create_taken = refl

hash_of_a : calc_hashnr (97 ∷ []) ≡ 740
unfolding calc_hashnr
hash_of_a = refl

-- A call of the second protocol counts, and one that is cut off does not.
count_second :
    count_unpack manager1.protos (1 ∷ 5 ∷ [])
    ≡ new_net_protocol 0 ∷ record entry { unpack_count = 1 } ∷ []
unfolding count_unpack
count_second = refl

count_cut_off : count_unpack manager1.protos (0 ∷ 1 ∷ []) ≡ manager1.protos
unfolding count_unpack
count_cut_off = refl
