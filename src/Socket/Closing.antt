-- ===== src/Socket/Closing.antt =====
-- `PeerVfdOnClose` of socket/socket_manager.cpp and `OnError` of socket/peer_point.cpp.
use simple_module.Base.{ℕ, ◌≡◌, refl, ap, ◌∙◌, inl, inr, Bool, true, List, Option, none, some}
use simple_module.Base.Outcome.{Outcome, done}
use simple_module.Base.Dict.{lookup}
use simple_module.Socket.{PeerPoint, ServerSocket, ClientSocket, PacketInterface, Libevent, World}
use simple_module.Socket.Action.{returned, ended_then}
use simple_module.Socket.Manager.{by_type, go_on, del_peer_vfd}
use simple_module.Socket.Points.{call_if_there, with_server, with_client, peer_vfd_on_close}
use simple_module.Socket.Links.{PeerAt, IsLinked, IsLinked-kept, Kept, call_packet-Kept}
use simple_module.Socket.Forgetting.{Forgotten, del_peer_vfd-Forgotten}

module _ {S : Type 0} (hooks : PacketInterface S) (ev : Libevent) where
  -- The packet object at an address, if there is to be one.
  abbrev pub IsThere : World S → Option ℕ → Type 0
  IsThere w none = Unit
  IsThere w (some a) = (s : S) × (lookup a w.packet_heap ≡ some s)

  -- No server or client has a packet object that is gone.
  pub record HasPackets (w : World S) : Type 0 where
    pub of_servers :
        (s : ℕ) (server : ServerSocket)
        → lookup s w.server_heap ≡ some server
        → IsThere w server.packet_class
    pub of_clients :
        (c : ℕ) (client : ClientSocket)
        → lookup c w.client_heap ≡ some client
        → IsThere w client.packet_class

  abbrev Hook : Type 0
  Hook = S → Outcome (S × Bool × List (ℕ × List ℕ))

  -- A callback that returns, on every object.
  abbrev pub Returns : Hook → Type 0
  Returns hook = (s : S) → (r : S × Bool × List (ℕ × List ℕ)) × (hook s ≡ done r)

  call_if_there-Kept :
      (hook : Hook) (o : Option ℕ) (w : World S)
      → IsLinked w
      → Returns hook
      → IsThere w o
      → Kept hooks ev w true (call_if_there hooks ev hook o w)
  call_if_there-Kept hook none w i ends there = record {
    heap = w.packet_heap;
    trace = w.trace;
    returns = refl;
    still = λ a s e. (s, e);
  }
  call_if_there-Kept hook (some a) w i ends (s, there) =
      let (r, e) = ends s in
      let k = call_packet-Kept hooks ev hook a w s r.0 r.1 r.2 i there e in
      record {
        heap = k.heap;
        trace = k.trace;
        returns = ap (λ x. ended_then x (λ _ v. returned true v)) k.returns;
        still = k.still;
      }

  -- The callback that `PeerVfdOnClose` makes.
  told-Kept :
      (hook : Hook) (w : World S) (vfd p : ℕ) (at : PeerAt w vfd p)
      → IsLinked w
      → HasPackets w
      → Returns hook
      → Kept hooks ev w true (
          by_type at.peer.vfd_type
            (with_server hooks ev vfd (call_if_there hooks ev hook))
            (with_client hooks ev vfd (call_if_there hooks ev hook))
            (λ v. returned true v)
            w)
  told-Kept hook w vfd p at i packets ends = elim at.kind [
    | inl (k, o) ↦
        rw (k, o.linked, o.there)
          (call_if_there-Kept hook o.server.packet_class w i ends
            (packets.of_servers o.s o.server o.there))
    | inr (k, o) ↦
        rw (k, o.linked, o.there)
          (call_if_there-Kept hook o.client.packet_class w i ends
            (packets.of_clients o.c o.client o.there))
  ]

  same_peer : {o : Option PeerPoint} {a b : PeerPoint} → o ≡ some a → o ≡ some b → a ≡ b
  same_peer x y = cc

  -- A peer that closes, in a state where the maps are linked and the packet objects are there, and with a
  -- callback that returns: it is taken out of every map and deleted, the maps stay linked, the entries of
  -- other descriptors are as they were in each map, `ServerObjList` is as it was, and so are the other peers,
  -- the servers, and the clients but the one of this peer.
  pub peer_vfd_on_close-Forgotten :
      (w : World S) (vfd p : ℕ)
      → IsLinked w
      → HasPackets w
      → ((v : ℕ) → Returns (λ s. hooks.packet_on_error s v))
      → lookup vfd w.peer_obj_list ≡ some p
      → Forgotten w vfd p (peer_vfd_on_close hooks ev vfd w)
  unfolding peer_vfd_on_close
  peer_vfd_on_close-Forgotten w vfd p i packets ends e =
      let at = i.peers vfd p e in
      let k = told-Kept (λ s. hooks.packet_on_error s vfd) w vfd p at i packets (ends vfd) in
      let w' : World S = record w { packet_heap = k.heap; trace = k.trace } in
      let i' = IsLinked-kept k.heap k.trace i in
      let f = del_peer_vfd-Forgotten w' vfd p i' e (i'.peers vfd p e) in
      record {
        after = f.after;
        returns =
            rw (e, at.there)
              (ap
                  (λ x.
                    ended_then x (λ told. go_on told (del_peer_vfd at.peer.vfd at.peer.vfd_type)))
                  k.returns
                ∙ ap (λ v. del_peer_vfd v at.peer.vfd_type w') at.same_vfd
                ∙ ap (λ (peer : PeerPoint). del_peer_vfd vfd peer.vfd_type w')
                    (same_peer at.there (i'.peers vfd p e).there)
                ∙ f.returns);
        linked = f.linked;
        forgotten = f.forgotten;
        deleted = f.deleted;
        others = f.others;
        same_server_list = f.same_server_list;
        other_client_list = f.other_client_list;
        other_servers = f.other_servers;
        other_clients = f.other_clients;
        other_peers = f.other_peers;
        kept_clients = f.kept_clients;
        same_servers = f.same_servers;
        old_clients = f.old_clients;
        packets = λ a s x. let (s', x') = k.still a s x in f.packets a s' x';
      }
