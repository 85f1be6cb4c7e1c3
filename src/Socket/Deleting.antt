-- ===== src/Socket/Deleting.antt =====
-- `DelPeerVfd` of socket/socket_manager.cpp on peers that are linked.
use simple_module.Base.{
  ℕ, ◌≡◌, ◌≢◌, refl, sym, ap, subst, ◌∙◌, ◌⊎◌, inl, inr, true, ◌∷◌, Option, none, some,
}
use native.Mathlib.Decide.{ℕ_discrete}
use simple_module.Base.Dict.{
  lookup, erase, lookup-erase_self, lookup-erase_ne, lookup-erase-eq_none, lookup-erase-eq_some,
}
use simple_module.Socket.{PeerPoint, World, Event, closed, server_type, client_type}
use simple_module.Socket.Action.{returned}
use simple_module.Socket.Manager.{del_peer_vfd}
use simple_module.Socket.Links.{OfServer, OfClient, PeerAt, IsUnknown, IsLinked}

module _ {S : Type 0} where
  -- The state when the peer of a server has been deleted, and that of a client.
  abbrev pub without_server_peer : World S → ℕ → ℕ → World S
  without_server_peer w vfd p = record w {
    peer_obj_list = erase vfd w.peer_obj_list;
    peer_heap = erase p w.peer_heap;
    peer_vfd2server_obj = erase vfd w.peer_vfd2server_obj;
  }

  abbrev pub without_client_peer : World S → ℕ → ℕ → ℕ → Event → World S
  without_client_peer w vfd p c e = record w {
    peer_obj_list = erase vfd w.peer_obj_list;
    peer_heap = erase p w.peer_heap;
    peer_vfd2client_obj = erase vfd w.peer_vfd2client_obj;
    client_heap = erase c w.client_heap;
    client_obj_list = erase vfd w.client_obj_list;
    trace = e ∷ w.trace;
  }

  pub del_peer_vfd_server :
      (w : World S) (vfd p : ℕ)
      → lookup vfd w.peer_obj_list ≡ some p
      → PeerAt w vfd p
      → OfServer w vfd
      → del_peer_vfd vfd server_type w ≡ returned true (without_server_peer w vfd p)
  unfolding del_peer_vfd
  del_peer_vfd_server w vfd p e at o = rw (e, at.there, o.linked) refl

  pub del_peer_vfd_client :
      (w : World S) (vfd p : ℕ)
      → lookup vfd w.peer_obj_list ≡ some p
      → PeerAt w vfd p
      → (o : OfClient w vfd)
      → del_peer_vfd vfd client_type w
        ≡ returned true (without_client_peer w vfd p o.c (closed o.client.vfd))
  unfolding del_peer_vfd
  del_peer_vfd_client w vfd p e at o = rw (e, at.there, o.linked, o.listed, o.there) refl

  -- Two entries with one object are one.
  other_peer : {w : World S} {u v p q : ℕ} → PeerAt w u q → PeerAt w v p → u ≢ v → q ≢ p
  other_peer {w} a b ne e =
      ne (sym a.same_vfd ∙ ap (λ (o : Option PeerPoint). vfd_or o) same ∙ b.same_vfd)
    where
      vfd_or : Option PeerPoint → ℕ
      vfd_or none = 0
      vfd_or (some peer) = peer.vfd

      same : some a.peer ≡ some b.peer
      same = sym a.there ∙ ap (λ k. lookup k w.peer_heap) e ∙ b.there

  -- The other descriptors are linked as before.
  OfServer-without_server :
      {w : World S} {u vfd : ℕ} (p : ℕ)
      → u ≢ vfd
      → OfServer w u
      → OfServer (without_server_peer w vfd p) u
  OfServer-without_server {w} p ne o = record {
    s = o.s;
    server = o.server;
    linked = lookup-erase_ne w.peer_vfd2server_obj ne ∙ o.linked;
    there = o.there;
    no_client = o.no_client;
    no_client_obj = o.no_client_obj;
  }

  OfClient-without_server :
      {w : World S} {u vfd : ℕ} (p : ℕ)
      → u ≢ vfd
      → OfClient w u
      → OfClient (without_server_peer w vfd p) u
  OfClient-without_server {w} p ne o = record {
    c = o.c;
    client = o.client;
    linked = o.linked;
    listed = o.listed;
    there = o.there;
    no_server = lookup-erase_ne w.peer_vfd2server_obj ne ∙ o.no_server;
  }

  OfServer-without_client :
      {w : World S} {u vfd : ℕ} (p c : ℕ) {e : Event}
      → u ≢ vfd
      → OfServer w u
      → OfServer (without_client_peer w vfd p c e) u
  OfServer-without_client {w} p c ne o = record {
    s = o.s;
    server = o.server;
    linked = o.linked;
    there = o.there;
    no_client = lookup-erase_ne w.peer_vfd2client_obj ne ∙ o.no_client;
    no_client_obj = lookup-erase_ne w.client_obj_list ne ∙ o.no_client_obj;
  }

  OfClient-without_client :
      {w : World S} {u vfd c : ℕ} (p : ℕ) {e : Event}
      → u ≢ vfd
      → (o : OfClient w u) → o.c ≢ c
      → OfClient (without_client_peer w vfd p c e) u
  OfClient-without_client {w} p ne o other = record {
    c = o.c;
    client = o.client;
    linked = lookup-erase_ne w.peer_vfd2client_obj ne ∙ o.linked;
    listed = lookup-erase_ne w.client_obj_list ne ∙ o.listed;
    there = lookup-erase_ne w.client_heap other ∙ o.there;
    no_server = o.no_server;
  }

  unknown_entry :
      (w : World S) (u vfd : ℕ)
      → lookup u (erase vfd w.peer_obj_list) ≡ none
      → (u ≡ vfd) ⊎ ((u ≢ vfd) × (lookup u w.peer_obj_list ≡ none))
  unknown_entry w u vfd h = elim (ℕ_discrete u vfd) [
    | yes e ↦ inl e
    | no ne ↦ inr (ne, sym (lookup-erase_ne w.peer_obj_list ne) ∙ h)
  ]

  pub IsLinked-without_server :
      (w : World S) (vfd p : ℕ)
      → IsLinked w
      → PeerAt w vfd p
      → OfServer w vfd
      → IsLinked (without_server_peer w vfd p)
  IsLinked-without_server w vfd p i at o = record {
    peers = λ u q e.
        let (ne, e') = lookup-erase-eq_some u vfd w.peer_obj_list e in
        let b = i.peers u q e' in
        record {
          peer = b.peer;
          there = lookup-erase_ne w.peer_heap (other_peer b at ne) ∙ b.there;
          same_vfd = b.same_vfd;
          kind = elim b.kind [
            | inl (k, x) ↦ inl (k, OfServer-without_server p ne x)
            | inr (k, x) ↦ inr (k, OfClient-without_server p ne x)
          ];
        };
    unknown = λ u e. elim (unknown_entry w u vfd e) [
      | inl same ↦ subst (IsUnknown (without_server_peer w vfd p)) (sym same) (record {
        no_peer = lookup-erase_self vfd w.peer_obj_list;
        no_server = lookup-erase_self vfd w.peer_vfd2server_obj;
        no_client = o.no_client;
        no_client_obj = o.no_client_obj;
      })
      | inr (ne, before) ↦
          let k = i.unknown u before in
          record {
            no_peer = e;
            no_server = lookup-erase-eq_none u vfd w.peer_vfd2server_obj k.no_server;
            no_client = k.no_client;
            no_client_obj = k.no_client_obj;
          }
    ];
    own_client = i.own_client;
    free_peer = λ a l. lookup-erase-eq_none a p w.peer_heap (i.free_peer a l);
    free_client = i.free_client;
  }

  pub IsLinked-without_client :
      (w : World S) (vfd p : ℕ) (event : Event)
      → IsLinked w
      → PeerAt w vfd p
      → (o : OfClient w vfd) → IsLinked (without_client_peer w vfd p o.c event)
  IsLinked-without_client w vfd p event i at o = record {
    peers = λ u q e.
        let (ne, e') = lookup-erase-eq_some u vfd w.peer_obj_list e in
        let b = i.peers u q e' in
        record {
          peer = b.peer;
          there = lookup-erase_ne w.peer_heap (other_peer b at ne) ∙ b.there;
          same_vfd = b.same_vfd;
          kind = elim b.kind [
            | inl (k, x) ↦ inl (k, OfServer-without_client p o.c ne x)
            | inr (k, x) ↦ inr (
              k,
              OfClient-without_client p ne x
                  (λ same. ne (i.own_client u vfd o.c (x.listed ∙ ap some same) o.listed)),
            )
          ];
        };
    unknown = λ u e. elim (unknown_entry w u vfd e) [
      | inl same ↦ subst (IsUnknown (without_client_peer w vfd p o.c event)) (sym same) (record {
        no_peer = lookup-erase_self vfd w.peer_obj_list;
        no_server = o.no_server;
        no_client = lookup-erase_self vfd w.peer_vfd2client_obj;
        no_client_obj = lookup-erase_self vfd w.client_obj_list;
      })
      | inr (ne, before) ↦
          let k = i.unknown u before in
          record {
            no_peer = e;
            no_server = k.no_server;
            no_client = lookup-erase-eq_none u vfd w.peer_vfd2client_obj k.no_client;
            no_client_obj = lookup-erase-eq_none u vfd w.client_obj_list k.no_client_obj;
          }
    ];
    own_client = λ u v c x y.
        i.own_client u v c (lookup-erase-eq_some u vfd w.client_obj_list x).1
          (lookup-erase-eq_some v vfd w.client_obj_list y).1;
    free_peer = λ a l. lookup-erase-eq_none a p w.peer_heap (i.free_peer a l);
    free_client = λ a l. lookup-erase-eq_none a o.c w.client_heap (i.free_client a l);
  }
