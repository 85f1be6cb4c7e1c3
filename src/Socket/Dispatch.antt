-- ===== src/Socket/Dispatch.antt =====
-- `PeerVfdOnRead` and `PeerVfdOnConnect` of socket/socket_manager.cpp: which packet object is called.
use simple_module.Base.{ℕ, ◌≡◌, inl, inr, Bool, List, Option, none, some}
use simple_module.Base.Outcome.{Outcome, done}
use simple_module.Base.Dict.{lookup}
use simple_module.Socket.{ServerSocket, ClientSocket, PacketInterface, Libevent, World}
use simple_module.Socket.Action.{Ended, undefined}
use simple_module.Socket.Manager.{by_type}
use simple_module.Socket.Points.{
  call_or_fall_off, with_server, with_client, peer_vfd_on_read, peer_vfd_on_connect,
}
use simple_module.Socket.Links.{PeerAt, IsLinked, IsLinked-kept, Kept, call_packet-Kept}
use simple_module.Socket.Closing.{IsThere, HasPackets, Returns}

module _ {S : Type 0} (hooks : PacketInterface S) (ev : Libevent) where
  -- There is a packet object, and it has not gone.
  abbrev pub IsPresent : World S → Option ℕ → Type 0
  IsPresent w none = ⊥
  IsPresent w (some a) = (s : S) × (lookup a w.packet_heap ≡ some s)

  -- Every server and client was made with a packet object, which is there.
  pub record HasClasses (w : World S) : Type 0 where
    pub of_servers :
        (s : ℕ) (server : ServerSocket)
        → lookup s w.server_heap ≡ some server
        → IsPresent w server.packet_class
    pub of_clients :
        (c : ℕ) (client : ClientSocket)
        → lookup c w.client_heap ≡ some client
        → IsPresent w client.packet_class

  IsThere-of_present : (w : World S) (o : Option ℕ) → IsPresent w o → IsThere hooks ev w o
  IsThere-of_present w none h = absurd h
  IsThere-of_present w (some a) h = h

  pub HasPackets-of_classes : {w : World S} → HasClasses w → HasPackets hooks ev w
  HasPackets-of_classes {w} h = record {
    of_servers = λ s server e. IsThere-of_present w server.packet_class (h.of_servers s server e);
    of_clients = λ c client e. IsThere-of_present w client.packet_class (h.of_clients c client e);
  }

  -- A state in which the maps are linked and the packet objects are there.
  pub record IsSound (w : World S) : Type 0 where
    pub linked : IsLinked w
    pub classes : HasClasses w

  -- All callbacks return.
  pub record AllReturn : Type 0 where
    pub on_read : (vfd : ℕ) (buf : List ℕ) → Returns hooks ev (λ s. hooks.packet_on_read s vfd buf)
    pub on_error : (vfd : ℕ) → Returns hooks ev (λ s. hooks.packet_on_error s vfd)
    pub on_connect : (vfd : ℕ) → Returns hooks ev (λ s. hooks.packet_on_connect s vfd)

  IsPresent-still :
      (w w' : World S) (o : Option ℕ)
      → ((a : ℕ) (s : S)
          → lookup a w.packet_heap ≡ some s
          → (s' : S) × (lookup a w'.packet_heap ≡ some s'))
      → IsPresent w o
      → IsPresent w' o
  IsPresent-still w w' none still h = absurd h
  IsPresent-still w w' (some a) still (s, e) = still a s e

  pub HasClasses-still :
      (w w' : World S)
      → ((s : ℕ) (server : ServerSocket)
          → lookup s w'.server_heap ≡ some server
          → IsPresent w server.packet_class)
      → ((c : ℕ) (client : ClientSocket)
          → lookup c w'.client_heap ≡ some client
          → IsPresent w client.packet_class)
      → ((a : ℕ) (s : S)
          → lookup a w.packet_heap ≡ some s
          → (s' : S) × (lookup a w'.packet_heap ≡ some s'))
      → HasClasses w'
  HasClasses-still w w' servers clients still = record {
    of_servers = λ s server e. IsPresent-still w w' server.packet_class still (servers s server e);
    of_clients = λ c client e. IsPresent-still w w' client.packet_class still (clients c client e);
  }

  -- A call of the packet object of some server or client: it is the one at `a`, and its answer is returned.
  pub record Called (hook : S → Outcome (S × Bool × List (ℕ × List ℕ))) (w : World S)
      (r : Ended S Bool) : Type 0 where
    pub a : ℕ
    pub before : S
    pub result : S × Bool × List (ℕ × List ℕ)
    pub there : lookup a w.packet_heap ≡ some before
    pub ends : hook before ≡ done result
    pub kept : Kept hooks ev w result.1 r

  call-Called :
      (hook : S → Outcome (S × Bool × List (ℕ × List ℕ))) (w : World S) (o : Option ℕ)
      → IsLinked w
      → IsPresent w o
      → Returns hooks ev hook
      → Called hook w (call_or_fall_off hooks ev hook o w)
  call-Called hook w none i h ends = absurd h
  call-Called hook w (some a) i (s, e) ends =
      let (r, done_eq) = ends s in
      record {
        a = a;
        before = s;
        result = r;
        there = e;
        ends = done_eq;
        kept = call_packet-Kept hooks ev hook a w s r.0 r.1 r.2 i e done_eq;
      }

  dispatch-Called :
      (hook : S → Outcome (S × Bool × List (ℕ × List ℕ))) (w : World S) (vfd p : ℕ)
      (at : PeerAt w vfd p)
      → IsSound w
      → Returns hooks ev hook
      → Called hook w (
          by_type at.peer.vfd_type
            (with_server hooks ev vfd (call_or_fall_off hooks ev hook))
            (with_client hooks ev vfd (call_or_fall_off hooks ev hook))
            undefined
            w)
  dispatch-Called hook w vfd p at i ends = elim at.kind [
    | inl (k, o) ↦
        rw (k, o.linked, o.there)
          (call-Called hook w o.server.packet_class i.linked
            (i.classes.of_servers o.s o.server o.there) ends)
    | inr (k, o) ↦
        rw (k, o.linked, o.there)
          (call-Called hook w o.client.packet_class i.linked
            (i.classes.of_clients o.c o.client o.there) ends)
  ]

  -- Bytes for a peer, in a sound state and with callbacks that return: they are given to a packet object that
  -- is there, what it answers is returned, and the maps are as they were.
  pub peer_vfd_on_read-Called :
      (w : World S) (vfd p : ℕ) (buf : List ℕ)
      → IsSound w
      → AllReturn
      → lookup vfd w.peer_obj_list ≡ some p
      → Called (λ s. hooks.packet_on_read s vfd buf) w (peer_vfd_on_read hooks ev vfd buf w)
  unfolding peer_vfd_on_read
  peer_vfd_on_read-Called w vfd p buf i ends e =
      rw (e, (i.linked.peers vfd p e).there)
        (dispatch-Called (λ s. hooks.packet_on_read s vfd buf) w vfd p (i.linked.peers vfd p e) i
          (ends.on_read vfd buf))

  pub peer_vfd_on_connect-Called :
      (w : World S) (vfd p : ℕ)
      → IsSound w
      → AllReturn
      → lookup vfd w.peer_obj_list ≡ some p
      → Called (λ s. hooks.packet_on_connect s vfd) w (peer_vfd_on_connect hooks ev vfd w)
  unfolding peer_vfd_on_connect
  peer_vfd_on_connect-Called w vfd p i ends e =
      rw (e, (i.linked.peers vfd p e).there)
        (dispatch-Called (λ s. hooks.packet_on_connect s vfd) w vfd p (i.linked.peers vfd p e) i
          (ends.on_connect vfd))

  -- Whatever a packet object did, the state stays sound.
  pub IsSound-Kept :
      {w : World S} {b : Bool} {r : Ended S Bool}
      → IsSound w
      → (k : Kept hooks ev w b r) → IsSound (record w { packet_heap = k.heap; trace = k.trace })
  IsSound-Kept {w} i k = record {
    linked = IsLinked-kept k.heap k.trace i.linked;
    classes =
        HasClasses-still w (record w { packet_heap = k.heap; trace = k.trace }) i.classes.of_servers
          i.classes.of_clients k.still;
  }
