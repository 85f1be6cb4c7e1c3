-- ===== src/Socket/Links.antt =====
-- The invariant of the maps of `SocketManager`, and that callbacks and writes leave the maps alone.
use simple_module.Base.{
  ℕ, ◌≤◌, ◌≡◌, refl, ap, ◌∙◌, ◌⊎◌, inl, inr, Bool, true, false, List, [], ◌∷◌, none, some, ◌==◌,
  Bool-cases, Option-cases,
}
use simple_module.Base.Outcome.{Outcome, done}
use simple_module.Base.Dict.{Dict, lookup, insert, lookup-insert_self, lookup-insert_ne}
use native.Mathlib.Decide.{ℕ_discrete}
use simple_module.Socket.{
  PeerPoint, ServerSocket, ClientSocket, PacketInterface, Libevent, World, Event, wrote,
  server_type, client_type,
}
use simple_module.Socket.Action.{Ended, returned, ended_then}
use simple_module.Socket.Points.{
  peer_vfd_on_write, packet_on_write, call_packet, buffer_write, if_open,
}

module _ {S : Type 0} where
  -- A peer of a server: mapped to a server that is there, and to no client.
  pub record OfServer (w : World S) (vfd : ℕ) : Type 0 where
    pub s : ℕ
    pub server : ServerSocket
    pub linked : lookup vfd w.peer_vfd2server_obj ≡ some s
    pub there : lookup s w.server_heap ≡ some server
    pub no_client : lookup vfd w.peer_vfd2client_obj ≡ none
    pub no_client_obj : lookup vfd w.client_obj_list ≡ none

  -- The peer of a client: mapped to a client that is there and is listed, and to no server.
  pub record OfClient (w : World S) (vfd : ℕ) : Type 0 where
    pub c : ℕ
    pub client : ClientSocket
    pub linked : lookup vfd w.peer_vfd2client_obj ≡ some c
    pub listed : lookup vfd w.client_obj_list ≡ some c
    pub there : lookup c w.client_heap ≡ some client
    pub no_server : lookup vfd w.peer_vfd2server_obj ≡ none

  -- The entry `p` of a descriptor: an object that has not been deleted, and is of one kind.
  pub record PeerAt (w : World S) (vfd p : ℕ) : Type 0 where
    pub peer : PeerPoint
    pub there : lookup p w.peer_heap ≡ some peer
    pub same_vfd : peer.vfd ≡ vfd
    pub kind :
        ((peer.vfd_type ≡ server_type) × OfServer w vfd)
        ⊎ ((peer.vfd_type ≡ client_type) × OfClient w vfd)

  -- Nothing is known of a descriptor.
  pub record IsUnknown (w : World S) (vfd : ℕ) : Type 0 where
    pub no_peer : lookup vfd w.peer_obj_list ≡ none
    pub no_server : lookup vfd w.peer_vfd2server_obj ≡ none
    pub no_client : lookup vfd w.peer_vfd2client_obj ≡ none
    pub no_client_obj : lookup vfd w.client_obj_list ≡ none

  -- Each descriptor that has an entry is a peer of one kind, one without is in no other map either, no two
  -- descriptors have one client, and addresses from `next` on are free.
  pub record IsLinked (w : World S) : Type 0 where
    pub peers : (vfd p : ℕ) → lookup vfd w.peer_obj_list ≡ some p → PeerAt w vfd p
    pub unknown : (vfd : ℕ) → lookup vfd w.peer_obj_list ≡ none → IsUnknown w vfd
    pub own_client :
        (u v c : ℕ)
        → lookup u w.client_obj_list ≡ some c
        → lookup v w.client_obj_list ≡ some c
        → u ≡ v
    pub free_peer : (a : ℕ) → w.next ≤ a → lookup a w.peer_heap ≡ none
    pub free_client : (a : ℕ) → w.next ≤ a → lookup a w.client_heap ≡ none

  pub OfServer-kept :
      {w : World S} {vfd : ℕ} (g : Dict PeerPoint) (h : Dict S) (t : List Event)
      → OfServer w vfd
      → OfServer (record w { peer_heap = g; packet_heap = h; trace = t }) vfd
  OfServer-kept g h t o = record {
    s = o.s;
    server = o.server;
    linked = o.linked;
    there = o.there;
    no_client = o.no_client;
    no_client_obj = o.no_client_obj;
  }

  pub OfClient-kept :
      {w : World S} {vfd : ℕ} (g : Dict PeerPoint) (h : Dict S) (t : List Event)
      → OfClient w vfd
      → OfClient (record w { peer_heap = g; packet_heap = h; trace = t }) vfd
  OfClient-kept g h t o = record {
    c = o.c;
    client = o.client;
    linked = o.linked;
    listed = o.listed;
    there = o.there;
    no_server = o.no_server;
  }

  -- What the invariant says does not depend on the packet objects and on what has been asked of the system.
  pub IsLinked-kept :
      {w : World S} (h : Dict S) (t : List Event)
      → IsLinked w
      → IsLinked (record w { packet_heap = h; trace = t })
  IsLinked-kept {w} h t i = record {
    peers = λ vfd p e.
        let at = i.peers vfd p e in
        record {
          peer = at.peer;
          there = at.there;
          same_vfd = at.same_vfd;
          kind = elim at.kind [
            | inl (k, o) ↦ inl (k, OfServer-kept w.peer_heap h t o)
            | inr (k, o) ↦ inr (k, OfClient-kept w.peer_heap h t o)
          ];
        };
    unknown = λ vfd e.
        let u = i.unknown vfd e in
        record {
          no_peer = u.no_peer;
          no_server = u.no_server;
          no_client = u.no_client;
          no_client_obj = u.no_client_obj;
        };
    own_client = i.own_client;
    free_peer = i.free_peer;
    free_client = i.free_client;
  }

module _ {S : Type 0} (hooks : PacketInterface S) (ev : Libevent) where
  abbrev pub Traced : World S → Ended S (Unit {0}) → Type 0
  Traced w r = (t : List Event) × (r ≡ returned tt (record w { trace = t }))

  abbrev TracedBool : World S → Ended S Bool → Type 0
  TracedBool w r = (b : Bool) × (t : List Event) × (r ≡ returned b (record w { trace = t }))

  buffer_write-Traced :
      (vfd : ℕ) (buf : List ℕ) (w : World S) → TracedBool w (buffer_write hooks ev vfd buf w)
  buffer_write-Traced vfd buf w = elim (Bool-cases (ev.bufferevent_write vfd buf)) [
    | inl e ↦ (true, wrote vfd buf ∷ w.trace, rw (e) refl)
    | inr e ↦ (false, w.trace, rw (e) refl)
  ]

  if_open-Traced :
      (status vfd : ℕ) (buf : List ℕ) (w : World S)
      → TracedBool w (if_open hooks ev status (buffer_write hooks ev vfd buf) w)
  if_open-Traced status vfd buf w = elim (Bool-cases (status == 0)) [
    | inl e ↦ (false, w.trace, rw (e) refl)
    | inr e ↦ let (b, t, r) = buffer_write-Traced vfd buf w in (b, t, rw (e) r)
  ]

  pub peer_vfd_on_write-Traced :
      (vfd : ℕ) (buf : List ℕ) (w : World S)
      → IsLinked w
      → TracedBool w (peer_vfd_on_write hooks ev vfd buf w)
  unfolding peer_vfd_on_write
  peer_vfd_on_write-Traced vfd buf w i = elim (Option-cases (lookup vfd w.peer_obj_list)) [
    | inl e ↦ (false, w.trace, rw (e) refl)
    | inr (p, e) ↦
        let at = i.peers vfd p e in
        let (b, t, r) = if_open-Traced at.peer.status at.peer.vfd buf w in
        (b, t, rw (e, at.there) r)
  ]

  pub packet_on_write-Traced :
      (writes : List (ℕ × List ℕ)) (w : World S)
      → IsLinked w
      → Traced w (packet_on_write hooks ev writes w)
  unfolding packet_on_write
  packet_on_write-Traced [] w i = (w.trace, refl)
  packet_on_write-Traced ((vfd, buf) ∷ writes) w i =
      let (b, t, r) = peer_vfd_on_write-Traced vfd buf w i in
      let w' : World S = record w { trace = t } in
      let (t', r') = packet_on_write-Traced writes w' (IsLinked-kept w.packet_heap t i) in
      (t', ap (λ e. ended_then e (λ _. packet_on_write hooks ev writes)) r ∙ r')

  -- A callback that returns changes its own object, and nothing of the maps.
  pub record Kept (w : World S) (b : Bool) (r : Ended S Bool) : Type 0 where
    pub heap : Dict S
    pub trace : List Event
    pub returns : r ≡ returned b (record w { packet_heap = heap; trace = trace })
    pub still :
        (a : ℕ) (s : S) → lookup a w.packet_heap ≡ some s → (s' : S) × (lookup a heap ≡ some s')

  lookup-insert-some :
      (a b : ℕ) (s s' : S) (d : Dict S)
      → lookup b d ≡ some s
      → (t : S) × (lookup b (insert a s' d) ≡ some t)
  lookup-insert-some a b s s' d h = elim (ℕ_discrete b a) [
    | yes e ↦ (s', ap (λ k. lookup k (insert a s' d)) e ∙ lookup-insert_self a s' d)
    | no ne ↦ (s, lookup-insert_ne s' d ne ∙ h)
  ]

  pub call_packet-Kept :
      (hook : S → Outcome (S × Bool × List (ℕ × List ℕ))) (a : ℕ) (w : World S) (s s' : S)
      (b : Bool) (writes : List (ℕ × List ℕ))
      → IsLinked w
      → lookup a w.packet_heap ≡ some s
      → hook s ≡ done (s', b, writes)
      → Kept w b (call_packet hooks ev hook a w)
  unfolding call_packet
  call_packet-Kept hook a w s s' b writes i there ends =
      let h = insert a s' w.packet_heap in
      let w' : World S = record w { packet_heap = h } in
      let (t, r) = packet_on_write-Traced writes w' (IsLinked-kept h w.trace i) in
      record {
        heap = h;
        trace = t;
        returns = rw (there, ends) (ap (λ e. ended_then e (λ _ v. returned b v)) r);
        still = λ k x e. lookup-insert-some a k x s' w.packet_heap e;
      }
