-- ===== src/Socket/Connected.antt =====
-- `Connect` of socket/client_socket.cpp on maps that are linked.
use simple_module.Base.{
  ℕ, suc, ◌≡◌, ◌≢◌, refl, sym, ap, ◌∙◌, ◌⊎◌, inl, inr, List, none, some, arith,
}
use simple_module.Base.Dict.{
  lookup, insert, lookup-insert_ne, lookup-insert-eq_some, lookup-insert-eq_none,
}
use simple_module.Socket.{ClientSocket, World, Event, client_type}
use simple_module.Socket.Links.{OfServer, OfClient, IsLinked}
use simple_module.Socket.Setup.{new_peer, entry, new_entry, old_peer, free_above}

module _ {S : Type 0} where
  -- The state when a client's new peer has been listed.
  abbrev pub connected : World S → ℕ → ℕ → List Event → World S
  connected w fd c t = record w {
    peer_heap = insert w.next (new_peer fd client_type) w.peer_heap;
    next = suc w.next;
    peer_obj_list = insert fd w.next w.peer_obj_list;
    peer_vfd2client_obj = insert fd c w.peer_vfd2client_obj;
    client_obj_list = insert fd c w.client_obj_list;
    trace = t;
  }

  OfServer-connected :
      {w : World S} {u fd : ℕ} (c : ℕ) (t : List Event)
      → u ≢ fd
      → OfServer w u
      → OfServer (connected w fd c t) u
  OfServer-connected {w} c t ne o = record {
    s = o.s;
    server = o.server;
    linked = o.linked;
    there = o.there;
    no_client = lookup-insert_ne c w.peer_vfd2client_obj ne ∙ o.no_client;
    no_client_obj = lookup-insert_ne c w.client_obj_list ne ∙ o.no_client_obj;
  }

  OfClient-connected :
      {w : World S} {u fd : ℕ} (c : ℕ) (t : List Event)
      → u ≢ fd
      → OfClient w u
      → OfClient (connected w fd c t) u
  OfClient-connected {w} c t ne o = record {
    c = o.c;
    client = o.client;
    linked = lookup-insert_ne c w.peer_vfd2client_obj ne ∙ o.linked;
    listed = lookup-insert_ne c w.client_obj_list ne ∙ o.listed;
    there = o.there;
    no_server = o.no_server;
  }

  -- A client that is there and that no descriptor has, on a descriptor that had no entry.
  pub IsLinked-connected :
      (w : World S) (fd c : ℕ) (client : ClientSocket) (t : List Event)
      → IsLinked w
      → lookup fd w.peer_obj_list ≡ none
      → lookup c w.client_heap ≡ some client
      → ((u : ℕ) → lookup u w.client_obj_list ≢ some c)
      → IsLinked (connected w fd c t)
  IsLinked-connected w fd c client t i fresh there own = record {
    peers = λ u q e. elim (lookup-insert-eq_some u fd w.next w.peer_obj_list e) [
      | inl (same, addr) ↦ record {
        peer = new_peer fd client_type;
        there = new_entry q w.next (new_peer fd client_type) w.peer_heap addr;
        same_vfd = sym same;
        kind = inr (
          refl,
          record {
            c = c;
            client = client;
            linked = entry u fd c w.peer_vfd2client_obj same;
            listed = entry u fd c w.client_obj_list same;
            there = there;
            no_server =
                ap (λ k. lookup k w.peer_vfd2server_obj) same ∙ (i.unknown fd fresh).no_server;
          },
        );
      }
      | inr (ne, before) ↦
          let at = i.peers u q before in
          record {
            peer = at.peer;
            there =
                lookup-insert_ne (new_peer fd client_type) w.peer_heap (old_peer i at) ∙ at.there;
            same_vfd = at.same_vfd;
            kind = elim at.kind [
              | inl (k, o) ↦ inl (k, OfServer-connected c t ne o)
              | inr (k, o) ↦ inr (k, OfClient-connected c t ne o)
            ];
          }
    ];
    unknown = λ u e.
        let (ne, before) = lookup-insert-eq_none u fd w.next w.peer_obj_list e in
        let k = i.unknown u before in
        record {
          no_peer = e;
          no_server = k.no_server;
          no_client = lookup-insert_ne c w.peer_vfd2client_obj ne ∙ k.no_client;
          no_client_obj = lookup-insert_ne c w.client_obj_list ne ∙ k.no_client_obj;
        };
    own_client = λ u v x a b.
        one_client (lookup-insert-eq_some u fd c w.client_obj_list a)
          (lookup-insert-eq_some v fd c w.client_obj_list b);
    free_peer = λ a l. free_above w (new_peer fd client_type) a i l;
    free_client = λ a l. i.free_client a (omega arith);
  }
    where
      one_client :
          {u v x : ℕ}
          → ((u ≡ fd) × (c ≡ x)) ⊎ ((u ≢ fd) × (lookup u w.client_obj_list ≡ some x))
          → ((v ≡ fd) × (c ≡ x)) ⊎ ((v ≢ fd) × (lookup v w.client_obj_list ≡ some x))
          → u ≡ v
      one_client (inl a) (inl b) = a.0 ∙ sym b.0
      one_client {u} {v} (inl a) (inr b) = absurd (own v (b.1 ∙ ap some (sym a.1)))
      one_client {u} {v} (inr a) (inl b) = absurd (own u (a.1 ∙ ap some (sym b.1)))
      one_client {u} {v} {x} (inr a) (inr b) = i.own_client u v x a.1 b.1
