-- ===== src/Socket/Forgetting.antt =====
-- What is left when `DelPeerVfd` of socket/socket_manager.cpp has deleted a peer.
use simple_module.Base.{ℕ, ◌≡◌, ◌≢◌, refl, sym, ap, ◌∙◌, inl, inr, Bool, true, none, some}
use simple_module.Base.Dict.{
  lookup, erase, lookup-erase_self, lookup-erase_ne, lookup-erase-eq_some,
}
use simple_module.Socket.{ClientSocket, World, closed}
use simple_module.Socket.Action.{Ended, returned}
use simple_module.Socket.Manager.{del_peer_vfd}
use simple_module.Socket.Links.{PeerAt, IsUnknown, IsLinked}
use simple_module.Socket.Deleting.{
  without_server_peer, without_client_peer, del_peer_vfd_server, del_peer_vfd_client,
  IsLinked-without_server, IsLinked-without_client,
}

module _ {S : Type 0} where
  -- A descriptor is forgotten, its object deleted, and the entries of the other ones and their objects are
  -- as they were, in each map and on the heaps, and so is the list of the servers.
  pub record Forgotten (w : World S) (vfd p : ℕ) (r : Ended S Bool) : Type 0 where
    pub after : World S
    pub returns : r ≡ returned true after
    pub linked : IsLinked after
    pub forgotten : IsUnknown after vfd
    pub deleted : lookup p after.peer_heap ≡ none
    pub others : after.peer_obj_list ≡ erase vfd w.peer_obj_list
    pub same_server_list : after.server_obj_list ≡ w.server_obj_list
    pub other_client_list :
        (v : ℕ) → v ≢ vfd → lookup v after.client_obj_list ≡ lookup v w.client_obj_list
    pub other_servers :
        (v : ℕ) → v ≢ vfd → lookup v after.peer_vfd2server_obj ≡ lookup v w.peer_vfd2server_obj
    pub other_clients :
        (v : ℕ) → v ≢ vfd → lookup v after.peer_vfd2client_obj ≡ lookup v w.peer_vfd2client_obj
    pub other_peers : (q : ℕ) → q ≢ p → lookup q after.peer_heap ≡ lookup q w.peer_heap
    pub same_servers : after.server_heap ≡ w.server_heap
    pub kept_clients :
        (c : ℕ)
        → lookup vfd w.peer_vfd2client_obj ≢ some c
        → lookup c after.client_heap ≡ lookup c w.client_heap
    pub old_clients :
        (c : ℕ) (client : ClientSocket)
        → lookup c after.client_heap ≡ some client
        → lookup c w.client_heap ≡ some client
    pub packets :
        (a : ℕ) (s : S)
        → lookup a w.packet_heap ≡ some s
        → (s' : S) × (lookup a after.packet_heap ≡ some s')

  -- `DelPeerVfd` with the type of the peer.
  pub del_peer_vfd-Forgotten :
      (w : World S) (vfd p : ℕ)
      → IsLinked w
      → lookup vfd w.peer_obj_list ≡ some p
      → (at : PeerAt w vfd p) → Forgotten w vfd p (del_peer_vfd vfd at.peer.vfd_type w)
  del_peer_vfd-Forgotten w vfd p i e at = elim at.kind [
    | inl (k, o) ↦
        let linked = IsLinked-without_server w vfd p i at o in
        record {
          after = without_server_peer w vfd p;
          returns = ap (λ t. del_peer_vfd vfd t w) k ∙ del_peer_vfd_server w vfd p e at o;
          linked = linked;
          forgotten = linked.unknown vfd (lookup-erase_self vfd w.peer_obj_list);
          deleted = lookup-erase_self p w.peer_heap;
          others = refl;
          same_server_list = refl;
          other_client_list = λ v ne. refl;
          other_servers = λ v ne. lookup-erase_ne w.peer_vfd2server_obj ne;
          other_clients = λ v ne. refl;
          other_peers = λ q ne. lookup-erase_ne w.peer_heap ne;
          same_servers = refl;
          kept_clients = λ c ne. refl;
          old_clients = λ c client e'. e';
          packets = λ a s e'. (s, e');
        }
    | inr (k, o) ↦
        let linked = IsLinked-without_client w vfd p (closed o.client.vfd) i at o in
        record {
          after = without_client_peer w vfd p o.c (closed o.client.vfd);
          returns = ap (λ t. del_peer_vfd vfd t w) k ∙ del_peer_vfd_client w vfd p e at o;
          linked = linked;
          forgotten = linked.unknown vfd (lookup-erase_self vfd w.peer_obj_list);
          deleted = lookup-erase_self p w.peer_heap;
          others = refl;
          same_server_list = refl;
          other_client_list = λ v ne. lookup-erase_ne w.client_obj_list ne;
          other_servers = λ v ne. refl;
          other_clients = λ v ne. lookup-erase_ne w.peer_vfd2client_obj ne;
          other_peers = λ q ne. lookup-erase_ne w.peer_heap ne;
          same_servers = refl;
          kept_clients =
              λ c ne. lookup-erase_ne w.client_heap (λ f. ne (o.linked ∙ ap some (sym f)));
          old_clients = λ c client e'. (lookup-erase-eq_some c o.c w.client_heap e').1;
          packets = λ a s e'. (s, e');
        }
  ]
