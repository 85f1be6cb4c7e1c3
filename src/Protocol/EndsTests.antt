-- ===== src/Protocol/EndsTests.antt =====
-- A client that makes a function and a server that calls it, with the same file loaded.
use simple_module.Base.{ℕ, ◌≡◌, refl, true, false, Option, some, none, List, [], ◌∷◌, ◌++◌, arith}
use simple_module.Base.Outcome.{done}
use simple_module.Lua.Small.{Val, num, small_lua}
use simple_module.Args.Scalar.{packed}
use simple_module.Args.{word}
use simple_module.Args.Format.{Packer, init, get_arg, word_type, read_file}
use simple_module.Protocol.{marshal, unpack_data}
use simple_module.Protocol.Calls.{CallBack}
use simple_module.Protocol.Names.{find_last_of, process_type, client_text, server_text}
use simple_module.Protocol.Loading.{
  FarFuncs, ProtoDesc, Entry, arg_desc, load, func_proc, arglist_proc, convert_protocol,
  net_protocol_of,
}
use simple_module.Protocol.Manager.{
  ProtoManager, loaded_as, add_protocol, new_proto_manager, protos_of, get_ptos_checkid,
}
use simple_module.Protocol.Ends.{loader_of, Paired, both_new, both_add}
use simple_module.Protocol.Agreed.{get_ptos_checkid-Paired, unpack_data-marshal_ends}

-- p/c_a.b
abbrev path : List ℕ
path = 112 ∷ 47 ∷ 99 ∷ 95 ∷ 97 ∷ 46 ∷ 98 ∷ []

abbrev run_file : List ℕ → Option (Option ProtoDesc)
run_file text =
    some (some (record { func_name = none; arg_list = some (arg_desc word_type none ∷ []) }))

-- The client has the default function, and the server none.
abbrev client_end : FarFuncs × List ℕ
client_end = (record { for_maker = λ name. false; default_rpcfunc = true }, client_text)

abbrev server_end : FarFuncs × List ℕ
server_end = (record { for_maker = λ name. false; default_rpcfunc = false }, server_text)

abbrev known : List (Packer Val)
known = (new_proto_manager []).0

abbrev manager : ProtoManager Val
manager = (new_proto_manager []).1

abbrev made_entry : Entry Val
made_entry = record {
  id = 1;
  pack_func_name = 99 ∷ 95 ∷ 97 ∷ [];
  args = record { type = word_type; hashstr = word_type; arg = word } ∷ [];
  is_maker = true;
  has_unpack_ref = true;
  caller_name = none;
  pack_count = 0;
  unpack_count = 0;
}

abbrev called_entry : Entry Val
called_entry = record made_entry {
  is_maker = false;
  has_unpack_ref = false;
  caller_name = some (99 ∷ 95 ∷ 97 ∷ []);
}

abbrev client_manager : ProtoManager Val
client_manager = record manager { protos = manager.protos ++ (made_entry ∷ []) }

abbrev server_manager : ProtoManager Val
server_manager = record manager { protos = manager.protos ++ (called_entry ∷ []) }

client_added :
    add_protocol (loader_of run_file client_end) path (some (32 ∷ [])) known manager
    ≡ done (known, client_manager, loaded_as 1)
unfolding add_protocol load process_type find_last_of convert_protocol func_proc arglist_proc
    read_file init get_arg
client_added = refl

server_added :
    add_protocol (loader_of run_file server_end) path (some (32 ∷ [])) known manager
    ≡ done (known, server_manager, loaded_as 1)
unfolding add_protocol load process_type find_last_of convert_protocol func_proc arglist_proc
    read_file init get_arg
server_added = refl

paired : Paired known server_manager client_manager
paired =
    both_add run_file server_end client_end path (some (32 ∷ [])) 1 1 (both_new []) server_added
      client_added

get_ptos_checkid-Paired_example : get_ptos_checkid server_manager ≡ get_ptos_checkid client_manager
get_ptos_checkid-Paired_example = get_ptos_checkid-Paired known server_manager client_manager paired

call_five :
    marshal small_lua (net_protocol_of called_entry) (num 5 ∷ []) 100 ≡ packed (1 ∷ 5 ∷ 0 ∷ [])
unfolding marshal simple_module.Args.pack
call_five = refl

unpack_data-marshal_ends_example :
    CallBack small_lua
      (λ vs. true)
      (net_protocol_of made_entry)
      (num 5 ∷ [])
      3
      (unpack_data small_lua (λ vs. true) (protos_of client_manager.protos) (1 ∷ 5 ∷ 0 ∷ 9 ∷ []))
unpack_data-marshal_ends_example =
    unpack_data-marshal_ends small_lua (λ vs. true) known server_manager client_manager 1
      called_entry made_entry (num 5 ∷ []) 100 (1 ∷ 5 ∷ 0 ∷ []) (9 ∷ []) paired refl refl
      (omega arith) (omega arith) refl (tt, tt) call_five
