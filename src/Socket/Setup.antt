-- ===== src/Socket/Setup.antt =====
-- `NewConnect` of socket/server_socket.cpp on maps that are linked.
use simple_module.Base.{
  ℕ, suc, ◌≤◌, ◌≡◌, ◌≢◌, refl, sym, ap, ◌∙◌, inl, inr, List, none, some, arith,
}
use simple_module.Base.Dict.{
  Dict, lookup, insert, lookup-insert_self, lookup-insert_ne, lookup-insert-eq_some,
  lookup-insert-eq_none,
}
use simple_module.Socket.{PeerPoint, ServerSocket, World, Event, server_type}
use simple_module.Socket.Links.{OfServer, OfClient, PeerAt, IsLinked}

abbrev pub new_peer : ℕ → ℕ → PeerPoint
new_peer fd vfd_type = record { vfd = fd; vfd_type = vfd_type; status = 1 }

-- The entry of the new descriptor in any of the maps.
pub entry : (u fd v : ℕ) (d : Dict ℕ) → u ≡ fd → lookup u (insert fd v d) ≡ some v
entry u fd v d e = ap (λ k. lookup k (insert fd v d)) e ∙ lookup-insert_self fd v d

pub new_entry :
    (q p : ℕ) (peer : PeerPoint) (d : Dict PeerPoint)
    → p ≡ q
    → lookup q (insert p peer d) ≡ some peer
new_entry q p peer d e = ap (λ k. lookup k (insert p peer d)) (sym e) ∙ lookup-insert_self p peer d

module _ {S : Type 0} where
  -- The state when a server's new peer has been listed.
  abbrev pub accepted : World S → ℕ → ℕ → List Event → World S
  accepted w fd s t = record w {
    peer_heap = insert w.next (new_peer fd server_type) w.peer_heap;
    next = suc w.next;
    peer_obj_list = insert fd w.next w.peer_obj_list;
    peer_vfd2server_obj = insert fd s w.peer_vfd2server_obj;
    trace = t;
  }

  -- No peer is at the address that comes next.
  pub old_peer : {w : World S} {u q : ℕ} → IsLinked w → PeerAt w u q → q ≢ w.next
  old_peer {w} i at e =
      apart
        (sym (i.free_peer w.next (omega arith)) ∙ ap (λ k. lookup k w.peer_heap) (sym e) ∙ at.there)
    where
      apart : {x : PeerPoint} → none ≡ some x → ⊥
      apart e = cc

  pub free_above :
      (w : World S) (peer : PeerPoint) (a : ℕ)
      → IsLinked w
      → suc w.next ≤ a
      → lookup a (insert w.next peer w.peer_heap) ≡ none
  free_above w peer a i l =
      lookup-insert_ne peer w.peer_heap (λ e. omega (arith, e)) ∙ i.free_peer a (omega arith)

  OfServer-accepted :
      {w : World S} {u fd : ℕ} (s : ℕ) (t : List Event)
      → u ≢ fd
      → OfServer w u
      → OfServer (accepted w fd s t) u
  OfServer-accepted {w} s t ne o = record {
    s = o.s;
    server = o.server;
    linked = lookup-insert_ne s w.peer_vfd2server_obj ne ∙ o.linked;
    there = o.there;
    no_client = o.no_client;
    no_client_obj = o.no_client_obj;
  }

  OfClient-accepted :
      {w : World S} {u fd : ℕ} (s : ℕ) (t : List Event)
      → u ≢ fd
      → OfClient w u
      → OfClient (accepted w fd s t) u
  OfClient-accepted {w} s t ne o = record {
    c = o.c;
    client = o.client;
    linked = o.linked;
    listed = o.listed;
    there = o.there;
    no_server = lookup-insert_ne s w.peer_vfd2server_obj ne ∙ o.no_server;
  }

  -- A peer of a server that is there, on a descriptor that had no entry.
  pub IsLinked-accepted :
      (w : World S) (fd s : ℕ) (server : ServerSocket) (t : List Event)
      → IsLinked w
      → lookup fd w.peer_obj_list ≡ none
      → lookup s w.server_heap ≡ some server
      → IsLinked (accepted w fd s t)
  IsLinked-accepted w fd s server t i fresh there = record {
    peers = λ u q e. elim (lookup-insert-eq_some u fd w.next w.peer_obj_list e) [
      | inl (same, addr) ↦ record {
        peer = new_peer fd server_type;
        there = new_entry q w.next (new_peer fd server_type) w.peer_heap addr;
        same_vfd = sym same;
        kind = inl (
          refl,
          record {
            s = s;
            server = server;
            linked = entry u fd s w.peer_vfd2server_obj same;
            there = there;
            no_client =
                ap (λ k. lookup k w.peer_vfd2client_obj) same ∙ (i.unknown fd fresh).no_client;
            no_client_obj =
                ap (λ k. lookup k w.client_obj_list) same ∙ (i.unknown fd fresh).no_client_obj;
          },
        );
      }
      | inr (ne, before) ↦
          let at = i.peers u q before in
          record {
            peer = at.peer;
            there =
                lookup-insert_ne (new_peer fd server_type) w.peer_heap (old_peer i at) ∙ at.there;
            same_vfd = at.same_vfd;
            kind = elim at.kind [
              | inl (k, o) ↦ inl (k, OfServer-accepted s t ne o)
              | inr (k, o) ↦ inr (k, OfClient-accepted s t ne o)
            ];
          }
    ];
    unknown = λ u e.
        let (ne, before) = lookup-insert-eq_none u fd w.next w.peer_obj_list e in
        let k = i.unknown u before in
        record {
          no_peer = e;
          no_server = lookup-insert_ne s w.peer_vfd2server_obj ne ∙ k.no_server;
          no_client = k.no_client;
          no_client_obj = k.no_client_obj;
        };
    own_client = i.own_client;
    free_peer = λ a l. free_above w (new_peer fd server_type) a i l;
    free_client = λ a l. i.free_client a (omega arith);
  }
