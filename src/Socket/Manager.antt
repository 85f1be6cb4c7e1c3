-- ===== src/Socket/Manager.antt =====
-- `SocketManager` of socket/socket_manager.cpp.
use simple_module.Base.{
  ℕ, Bool, true, false, ◌&&◌, List, [], ◌∷◌, Option, none, some, if◌then◌else◌, ◌==◌,
}
use simple_module.Base.Dict.{Dict, lookup, contains, insert, erase, keys}
use simple_module.Socket.{World, closed, server_type, client_type}
use simple_module.Socket.Action.{
  returned, broken, Action, ◌>>=◌, ◌>>◌, pure, get_world, modify, load_object, record_event,
}

-- The pattern of -1.
abbrev pub minus_one : ℕ
minus_one = 4294967295

-- What `ShowInfo` prints: each server with the peers that are mapped to it, the clients, and the peers.
pub record Info : Type 0 where
  pub servers : List (ℕ × List ℕ)
  pub clients : List ℕ
  pub peers : List ℕ

abbrev pub keys_of : ℕ → Dict ℕ → List ℕ
keys_of obj [] = []
keys_of obj ((k, o) ∷ d) = let rest = keys_of obj d in if o == obj then k ∷ rest else rest

abbrev pub server_lines : Dict ℕ → Dict ℕ → List (ℕ × List ℕ)
server_lines [] peers = []
server_lines ((k, obj) ∷ servers) peers = (k, keys_of obj peers) ∷ server_lines servers peers

module _ {S : Type 0} where
  abbrev pub show_info : World S → Info
  show_info w = record {
    servers = server_lines w.server_obj_list w.peer_vfd2server_obj;
    clients = keys w.client_obj_list;
    peers = keys w.peer_obj_list;
  }

  unfoldable pub add_peer_server_map : ℕ → ℕ → Action S Bool
  add_peer_server_map vfd obj w =
      if contains vfd w.peer_vfd2server_obj
      then returned false w
      else returned true (record w { peer_vfd2server_obj = insert vfd obj w.peer_vfd2server_obj })

  unfoldable pub add_peer_client_map : ℕ → ℕ → Action S Bool
  add_peer_client_map vfd obj w =
      if contains vfd w.peer_vfd2client_obj
      then returned false w
      else returned true (record w { peer_vfd2client_obj = insert vfd obj w.peer_vfd2client_obj })

  unfoldable pub add_server_obj : ℕ → ℕ → Action S Bool
  add_server_obj vfd obj w =
      if contains vfd w.server_obj_list
      then returned false w
      else returned true (record w { server_obj_list = insert vfd obj w.server_obj_list })

  unfoldable pub add_client_obj : ℕ → ℕ → Action S Bool
  add_client_obj vfd obj w =
      if contains vfd w.client_obj_list
      then returned false w
      else returned true (record w { client_obj_list = insert vfd obj w.client_obj_list })

  unfoldable pub add_peer_obj : ℕ → ℕ → Action S Bool
  add_peer_obj vfd obj w =
      if contains vfd w.peer_obj_list
      then returned false w
      else returned true (record w { peer_obj_list = insert vfd obj w.peer_obj_list })

  -- `GET_MAP_VALUE`, and `return false` where there is no value.
  abbrev pub found : Option ℕ → (ℕ → Action S Bool) → Action S Bool
  found none next w = returned false w
  found (some p) next w = next p w

  abbrev pub go_on : Bool → Action S Bool → Action S Bool
  go_on false next w = returned false w
  go_on true next w = next w

  abbrev pub by_type : ℕ → Action S Bool → Action S Bool → Action S Bool → Action S Bool
  by_type t server client other w =
      if t == server_type then server w else if t == client_type then client w else other w

  -- `delete PeerObj` and the entry of the map.
  unfoldable pub delete_peer : Option ℕ → ℕ → Action S (Unit {0})
  delete_peer none vfd = pure tt
  delete_peer (some p) vfd = do
    peer ← load_object World.peer_heap p
    modify (λ w. record w {
      peer_obj_list = erase vfd w.peer_obj_list;
      peer_heap = erase p w.peer_heap;
    })

  -- The destructor of a client closes its own descriptor.
  abbrev pub delete_client : Option ℕ → ℕ → Action S Bool
  delete_client none vfd = pure false
  delete_client (some c) vfd = do
    client ← load_object World.client_heap c
    record_event (closed client.vfd)
    modify (λ w. record w {
      client_heap = erase c w.client_heap;
      client_obj_list = erase vfd w.client_obj_list;
    })
    pure true

  unfoldable pub del_client_vfd : ℕ → Action S Bool
  del_client_vfd vfd w = delete_client (lookup vfd w.client_obj_list) vfd w

  unfoldable pub unlink_server : ℕ → Action S Bool
  unlink_server vfd w =
      if contains vfd w.peer_vfd2server_obj
      then returned true (record w { peer_vfd2server_obj = erase vfd w.peer_vfd2server_obj })
      else returned false w

  unfoldable pub unlink_client : ℕ → Action S Bool
  unfolding del_client_vfd
  unlink_client vfd w =
      if contains vfd w.peer_vfd2client_obj
      then (del_client_vfd vfd >> pure true)
          (record w { peer_vfd2client_obj = erase vfd w.peer_vfd2client_obj })
      else returned false w

  -- What `DelClientVfd` returns has no part in the result.
  unfoldable pub del_peer_vfd : ℕ → ℕ → Action S Bool
  unfolding delete_peer unlink_server unlink_client
  del_peer_vfd vfd del_type = do
    w ← get_world
    delete_peer (lookup vfd w.peer_obj_list) vfd
    peer_vfd_exist ← by_type del_type (unlink_server vfd) (unlink_client vfd) (unlink_client vfd)
    pure (peer_vfd_exist && contains vfd w.peer_obj_list)

  -- `PeerVfd2ServerObj.erase(Iter++)` is defined only while `Iter` stands at an entry.
  abbrev pub erase_at : ℕ → Action S (Unit {0})
  erase_at vfd w =
      if contains vfd w.peer_vfd2server_obj
      then returned tt (record w { peer_vfd2server_obj = erase vfd w.peer_vfd2server_obj })
      else broken

  abbrev pub drop_peer : Bool → ℕ → Action S (Unit {0})
  drop_peer false vfd = pure tt
  drop_peer true vfd = do record_event (closed vfd); del_peer_vfd vfd server_type; erase_at vfd

  -- The loop of `DelServerVfd`; in an iteration that goes on, no entry but its own is taken out.
  unfoldable pub drop_peers : ℕ → Dict ℕ → Action S (Unit {0})
  unfolding del_peer_vfd
  drop_peers server_vfd [] = pure tt
  drop_peers server_vfd ((vfd, s) ∷ rest) = do
    server ← load_object World.server_heap s
    drop_peer (server.vfd == server_vfd) vfd
    drop_peers server_vfd rest

  abbrev pub delete_server : Option ℕ → ℕ → Action S (Unit {0})
  delete_server none vfd = pure tt
  delete_server (some s) vfd = do
    server ← load_object World.server_heap s
    modify (λ w. record w {
      server_heap = erase s w.server_heap;
      server_obj_list = erase vfd w.server_obj_list;
    })

  unfoldable pub del_server_vfd : ℕ → Action S Bool
  unfolding drop_peers
  del_server_vfd server_vfd = do
    w ← get_world
    drop_peers server_vfd w.peer_vfd2server_obj
    w' ← get_world
    delete_server (lookup server_vfd w'.server_obj_list) server_vfd
    pure true
