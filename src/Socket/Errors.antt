-- ===== src/Socket/Errors.antt =====
-- `OnError` of socket/peer_point.cpp.
use simple_module.Base.{
  ℕ, ◌≤◌, ◌≡◌, refl, sym, ap, ◌∙◌, ◌⊎◌, inl, inr, false, Option, none, some, ◌==◌, arith,
}
use native.Mathlib.Decide.{ℕ_discrete}
use simple_module.Base.Dict.{lookup, insert, lookup-insert_self, lookup-insert_ne}
use simple_module.Socket.{
  PeerPoint, PacketInterface, Libevent, World, closed, server_type, client_type,
}
use simple_module.Socket.Action.{Ended, broken, ◌>>=◌, ended_then, load_object, record_event}
use simple_module.Socket.Points.{peer_vfd_on_close, on_error}
use simple_module.Socket.Links.{OfServer, OfClient, PeerAt, IsLinked, OfServer-kept, OfClient-kept}
use simple_module.Socket.Closing.{HasPackets, Returns, peer_vfd_on_close-Forgotten}

same_object : {o : Option PeerPoint} {a b : PeerPoint} → o ≡ some a → o ≡ some b → a ≡ b
same_object x y = cc

module _ {S : Type 0} (hooks : PacketInterface S) (ev : Libevent) where
  -- The first part of `OnError`: the peer is marked as closed.
  abbrev marked : World S → ℕ → PeerPoint → World S
  marked w p peer = record w { peer_heap = insert p (record peer { status = 0 }) w.peer_heap }

  PeerAt-marked :
      (w : World S) (u q p : ℕ) (peer : PeerPoint)
      → lookup p w.peer_heap ≡ some peer
      → PeerAt w u q
      → PeerAt (marked w p peer) u q
  PeerAt-marked w u q p peer there at = elim (ℕ_discrete q p) [
    | yes e ↦
        let same : at.peer ≡ peer =
          same_object at.there (ap (λ k. lookup k w.peer_heap) e ∙ there) in
        record {
          peer = record peer { status = 0 };
          there =
              ap (λ k. lookup k (insert p (record peer { status = 0 }) w.peer_heap)) e
              ∙ lookup-insert_self p (record peer { status = 0 }) w.peer_heap;
          same_vfd = sym (ap (λ (x : PeerPoint). x.vfd) same) ∙ at.same_vfd;
          kind = kind-marked (sym (ap (λ (x : PeerPoint). x.vfd_type) same));
        }
    | no ne ↦ record {
      peer = at.peer;
      there = lookup-insert_ne (record peer { status = 0 }) w.peer_heap ne ∙ at.there;
      same_vfd = at.same_vfd;
      kind = kind-marked refl;
    }
  ]
    where
      kind-marked :
          {t : ℕ}
          → t ≡ at.peer.vfd_type
          → ((t ≡ server_type) × OfServer (marked w p peer) u)
            ⊎ ((t ≡ client_type) × OfClient (marked w p peer) u)
      kind-marked e = elim at.kind [
        | inl (k, o) ↦ inl (e ∙ k, OfServer-kept _ w.packet_heap w.trace o)
        | inr (k, o) ↦ inr (e ∙ k, OfClient-kept _ w.packet_heap w.trace o)
      ]

  IsLinked-marked :
      (w : World S) (p : ℕ) (peer : PeerPoint)
      → lookup p w.peer_heap ≡ some peer
      → IsLinked w
      → IsLinked (marked w p peer)
  IsLinked-marked w p peer there i = record {
    peers = λ u q e. PeerAt-marked w u q p peer there (i.peers u q e);
    unknown = λ u e.
        let k = i.unknown u e in
        record {
          no_peer = k.no_peer;
          no_server = k.no_server;
          no_client = k.no_client;
          no_client_obj = k.no_client_obj;
        };
    own_client = i.own_client;
    free_peer = λ a l. free (ℕ_discrete a p) l;
    free_client = i.free_client;
  }
    where
      none-some : {x : PeerPoint} → none ≡ some x → ⊥
      none-some e = cc

      free :
          {a : ℕ}
          → Dec (a ≡ p)
          → w.next ≤ a
          → lookup a (insert p (record peer { status = 0 }) w.peer_heap) ≡ none
      free {a} (yes e) l =
          absurd (none-some (sym (i.free_peer a l) ∙ ap (λ k. lookup k w.peer_heap) e ∙ there))
      free {a} (no ne) l =
          lookup-insert_ne (record peer { status = 0 }) w.peer_heap ne ∙ i.free_peer a l

  -- An error on an open peer, in a state where the maps are linked and the packet objects are there, and with
  -- a callback that returns: `OnError` reads its object after it has been deleted.
  pub on_error_uses_deleted :
      (w : World S) (vfd p : ℕ) (peer : PeerPoint)
      → IsLinked w
      → HasPackets hooks ev w
      → ((v : ℕ) → Returns hooks ev (λ s. hooks.packet_on_error s v))
      → lookup vfd w.peer_obj_list ≡ some p
      → lookup p w.peer_heap ≡ some peer
      → 1 ≤ peer.status
      → on_error hooks ev p w ≡ broken
  unfolding on_error
  on_error_uses_deleted w vfd p peer i packets ends e there is_open =
      let w' = marked w p peer in
      let i' = IsLinked-marked w p peer there i in
      let packets' : HasPackets hooks ev w' = record {
        of_servers = packets.of_servers;
        of_clients = packets.of_clients;
      } in
      let same : peer.vfd ≡ vfd =
        ap (λ (x : PeerPoint). x.vfd) (same_object there (i.peers vfd p e).there)
        ∙ (i.peers vfd p e).same_vfd in
      let f = peer_vfd_on_close-Forgotten hooks ev w' vfd p i' packets' ends e in
      rw (there, status_ne_zero peer.status is_open)
        (ap (λ v. ended_then (peer_vfd_on_close hooks ev v w') (λ _. rest)) same
          ∙ ap (λ r. ended_then r (λ _. rest)) f.returns
          ∙ rw (f.deleted) refl)
    where
      status_ne_zero : (n : ℕ) → 1 ≤ n → (n == 0) ≡ false
      status_ne_zero n l = ground arith

      rest : World S → Ended S (Unit {0})
      rest = load_object World.peer_heap p >>= λ peer'. record_event (closed peer'.vfd)
