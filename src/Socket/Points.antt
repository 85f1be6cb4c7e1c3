-- ===== src/Socket/Points.antt =====
-- `clsPeerPoint` of socket/peer_point.cpp, and the functions of `SocketManager` that call a packet object.
use simple_module.Base.{
  ℕ, zero, suc, Bool, true, false, List, [], ◌∷◌, Option, none, some, if◌then◌else◌, ◌==◌, length,
}
use simple_module.Base.Outcome.{Outcome}
use simple_module.Base.Dict.{lookup, insert}
use simple_module.Socket.{
  PeerPoint, PacketInterface, Libevent, World, closed, reading, wrote, recv_block_size,
  socket_error, client_create_err,
}
use simple_module.Socket.Action.{
  returned, threw, Action, ◌>>=◌, ◌>>◌, pure, undefined, no_fuel, modify, load_object, record_event,
  from_outcome,
}
use simple_module.Socket.Manager.{found, go_on, by_type, del_peer_vfd}

module _ {S : Type 0} (hooks : PacketInterface S) (ev : Libevent) where
  abbrev pub if_open : ℕ → Action S Bool → Action S Bool
  if_open status next w = if status == 0 then returned false w else next w

  abbrev pub buffer_write : ℕ → List ℕ → Action S Bool
  buffer_write vfd buf w =
      if ev.bufferevent_write vfd buf
      then returned true (record w { trace = wrote vfd buf ∷ w.trace })
      else returned false w

  -- `clsPeerPoint::WriteData`
  unfoldable pub write_data : ℕ → List ℕ → Action S Bool
  write_data p buf = do
    peer ← load_object World.peer_heap p
    if_open peer.status (buffer_write peer.vfd buf)

  unfoldable pub peer_vfd_on_write : ℕ → List ℕ → Action S Bool
  unfolding write_data
  peer_vfd_on_write to_vfd buf w = found (lookup to_vfd w.peer_obj_list) (λ p. write_data p buf) w

  -- `PacketOnWrite`, for each of the writes that a callback asks for.
  unfoldable pub packet_on_write : List (ℕ × List ℕ) → Action S (Unit {0})
  unfolding peer_vfd_on_write
  packet_on_write [] = pure tt
  packet_on_write ((vfd, buf) ∷ writes) = do peer_vfd_on_write vfd buf; packet_on_write writes

  unfoldable pub call_packet : (S → Outcome (S × Bool × List (ℕ × List ℕ))) → ℕ → Action S Bool
  unfolding packet_on_write
  call_packet hook a = do
    s ← load_object World.packet_heap a
    r ← from_outcome (hook s)
    modify (λ w. record w { packet_heap = insert a r.0 w.packet_heap })
    packet_on_write r.2
    pure r.1

  -- Where there is no packet object, control runs off the end of a function that is to return a value.
  abbrev pub call_or_fall_off :
      (S → Outcome (S × Bool × List (ℕ × List ℕ))) → Option ℕ → Action S Bool
  call_or_fall_off hook none = undefined
  call_or_fall_off hook (some a) = call_packet hook a

  abbrev pub call_if_there : (S → Outcome (S × Bool × List (ℕ × List ℕ))) → Option ℕ → Action S Bool
  call_if_there hook none = pure true
  call_if_there hook (some a) = call_packet hook a >> pure true

  -- The packet object that a peer is mapped to, by way of its server or client.
  abbrev pub with_server : ℕ → (Option ℕ → Action S Bool) → Action S Bool
  with_server vfd next w =
      found (lookup vfd w.peer_vfd2server_obj)
        (λ s. load_object World.server_heap s >>= λ server. next server.packet_class) w

  abbrev pub with_client : ℕ → (Option ℕ → Action S Bool) → Action S Bool
  with_client vfd next w =
      found (lookup vfd w.peer_vfd2client_obj)
        (λ c. load_object World.client_heap c >>= λ client. next client.packet_class) w

  unfoldable pub peer_vfd_on_read : ℕ → List ℕ → Action S Bool
  unfolding call_packet
  peer_vfd_on_read vfd buf w =
      found (lookup vfd w.peer_obj_list)
        (λ p. load_object World.peer_heap p >>= λ peer.
          by_type peer.vfd_type
            (with_server vfd (call_or_fall_off (λ s. hooks.packet_on_read s vfd buf)))
            (with_client vfd (call_or_fall_off (λ s. hooks.packet_on_read s vfd buf))) undefined)
        w

  unfoldable pub peer_vfd_on_connect : ℕ → Action S Bool
  unfolding call_packet
  peer_vfd_on_connect vfd w =
      found (lookup vfd w.peer_obj_list)
        (λ p. load_object World.peer_heap p >>= λ peer.
          by_type peer.vfd_type
            (with_server vfd (call_or_fall_off (λ s. hooks.packet_on_connect s vfd)))
            (with_client vfd (call_or_fall_off (λ s. hooks.packet_on_connect s vfd))) undefined)
        w

  unfoldable pub peer_vfd_on_close : ℕ → Action S Bool
  unfolding call_packet del_peer_vfd
  peer_vfd_on_close vfd w =
      found (lookup vfd w.peer_obj_list)
        (λ p. load_object World.peer_heap p >>= λ peer.
          by_type peer.vfd_type (with_server vfd (call_if_there (λ s. hooks.packet_on_error s vfd)))
            (with_client vfd (call_if_there (λ s. hooks.packet_on_error s vfd))) (pure true)
          >>= λ told. go_on told (del_peer_vfd peer.vfd peer.vfd_type))
        w

  -- The constructor of `clsPeerPoint`: the new object's address. Whether libevent has made a bufferevent is
  -- not looked at: `bufferevent_enable` gets a null pointer where it has not.
  abbrev pub new_peer_point : Bool → ℕ → ℕ → Action S ℕ
  new_peer_point false vfd vfd_type w = undefined w
  new_peer_point true vfd vfd_type w = returned w.next (record w {
    peer_heap = insert w.next (record { vfd = vfd; vfd_type = vfd_type; status = 1 }) w.peer_heap;
    next = suc w.next;
    trace = reading vfd ∷ w.trace;
  })

  abbrev pub read_block : List ℕ → Action S (Unit {0}) → Action S (Unit {0})
  read_block [] next w = returned tt w
  read_block (b ∷ bs) next w = next w

  -- The loop of `clsPeerPoint::OnRead`, on the bytes that have come.
  unfoldable pub on_read_loop : ℕ → ℕ → List ℕ → Action S (Unit {0})
  unfolding peer_vfd_on_read
  on_read_loop zero p input = no_fuel
  on_read_loop (suc fuel) p input = do
    let r = ev.bufferevent_read input recv_block_size
    peer ← load_object World.peer_heap p
    read_block r.0 (peer_vfd_on_read peer.vfd r.0 >> on_read_loop fuel p r.1)

  abbrev pub unless_cleared : PeerPoint → Action S (Unit {0}) → Action S (Unit {0})
  unless_cleared peer next w =
      if peer.status == 0 then threw (socket_error peer.vfd client_create_err) w else next w

  -- `OnRead` throws with the number 1. A round of its loop takes a byte at least.
  unfoldable pub on_read : ℕ → List ℕ → Action S (Unit {0})
  unfolding on_read_loop
  on_read p input = do
    peer ← load_object World.peer_heap p
    unless_cleared peer (on_read_loop (suc (length input)) p input)

  abbrev pub unless_closed : ℕ → Action S (Unit {0}) → Action S (Unit {0})
  unless_closed status next w = if status == 0 then returned tt w else next w

  -- `clsPeerPoint::OnError`, which uses its object again after `PeerVfdOnClose`.
  unfoldable pub on_error : ℕ → Action S (Unit {0})
  unfolding peer_vfd_on_close
  on_error p = do
    peer ← load_object World.peer_heap p
    unless_closed peer.status (do
      modify (λ w. record w { peer_heap = insert p (record peer { status = 0 }) w.peer_heap })
      peer_vfd_on_close peer.vfd
      peer' ← load_object World.peer_heap p
      record_event (closed peer'.vfd))
