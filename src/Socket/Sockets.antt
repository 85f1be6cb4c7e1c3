-- ===== src/Socket/Sockets.antt =====
-- `clsServerSocket` and `clsClientSocket` of socket/server_socket.cpp and socket/client_socket.cpp, and the
-- functions of `SocketManager` that make them.
use simple_module.Base.{ℕ, suc, Bool, true, false, ◌&&◌, List, Option, none, some}
use simple_module.Base.Dict.{insert, erase}
use simple_module.Socket.{
  PacketInterface, Libevent, World, opened, closed, listening, server_type, client_type,
  SocketError, socket_error, socket_error_string, ErrMsg, literal, freed, client_create_err,
  server_create_err, conn_err, server_create_peer_err,
}
use simple_module.Socket.Action.{
  Ended, returned, broken, unfinished, threw, Action, ◌>>=◌, ◌>>◌, pure, throw, modify, load_object,
  record_event,
}
use simple_module.Socket.Manager.{
  minus_one, add_peer_server_map, add_peer_client_map, add_server_obj, add_client_obj, add_peer_obj,
}
use simple_module.Socket.Points.{new_peer_point, peer_vfd_on_connect}

-- What the calls of the system answer to a server: the descriptor, or `none` for an error.
pub record ServerCalls : Type 0 where
  pub socket : Option ℕ
  pub setsockopt : Bool
  pub bind : Bool
  pub listen : Bool
  pub getfl : Bool
  pub setfl : Bool

pub record ClientCalls : Type 0 where
  pub socket : Option ℕ
  pub connect : Bool
  pub getfl : Bool
  pub setfl : Bool
  pub bufferevent_new : Bool

pub record AcceptCalls : Type 0 where
  pub accept : Option ℕ
  pub getfl : Bool
  pub setfl : Bool
  pub bufferevent_new : Bool

module _ {S : Type 0} where
  abbrev pub check : Bool → Action S Bool → Action S Bool → Action S Bool
  check false refuse next w = refuse w
  check true refuse next w = next w

  abbrev pub with_fd : Option ℕ → Action S Bool → (ℕ → Action S Bool) → Action S Bool
  with_fd none refuse next w = refuse w
  with_fd (some fd) refuse next w = (record_event (opened fd) >> next fd) w

  abbrev pub close_and_throw : ℕ → SocketError → Action S Bool
  close_and_throw fd e = do record_event (closed fd); throw e

  -- The last part of `clsServerSocket::Start`.
  unfoldable pub listen_on : ℕ → ℕ → Action S Bool
  unfolding add_server_obj
  listen_on s fd = do
    server ← load_object World.server_heap s
    modify (λ w. record w { server_heap = insert s (record server { vfd = fd }) w.server_heap })
    record_event (listening fd)
    add_server_obj fd s

  unfoldable pub start : ℕ → ServerCalls → Action S Bool
  unfolding listen_on
  start s calls = with_fd calls.socket (throw (socket_error minus_one server_create_err)) (λ fd.
      check calls.setsockopt (close_and_throw fd (socket_error fd server_create_err)) (
        check calls.bind (close_and_throw fd (socket_error fd server_create_err)) (
          check calls.listen (close_and_throw fd (socket_error fd server_create_err)) (
            check (calls.getfl && calls.setfl)
              (close_and_throw fd (socket_error fd server_create_err)) (listen_on s fd)))))

  -- `GetMsg`, whose text is printed, reads what `_ErrMsg` points to.
  abbrev pub get_msg : ErrMsg → Action S (Unit {0})
  get_msg literal w = returned tt w
  get_msg freed w = broken

  abbrev pub server_created : ℕ → Ended S Bool → Ended S (Option ℕ)
  server_created s (returned b w) = returned (some s) w
  server_created s (threw e w) =
      (get_msg e.err_msg
          >> modify (λ w'. record w' { server_heap = erase s w'.server_heap })
          >> pure none)
        w
  server_created s broken = broken
  server_created s unfinished = unfinished

  -- What the constructor leaves in `_Vfd` is `junk`.
  unfoldable pub create_server_socket : ℕ → Option ℕ → ℕ → ServerCalls → Action S (Option ℕ)
  unfolding start
  create_server_socket port packet_class junk calls w = server_created w.next (
      start w.next calls (record w {
        server_heap =
            insert w.next (record { vfd = junk; port = port; packet_class = packet_class })
              w.server_heap;
        next = suc w.next;
      }))

  -- The destructor of a client closes its `_Vfd`.
  abbrev pub client_created : ℕ → Ended S Bool → Ended S (Option ℕ)
  client_created c (returned b w) = returned (some c) w
  client_created c (threw e w) =
      (get_msg e.err_msg >> load_object World.client_heap c >>= λ client.
      record_event (closed client.vfd)
      >> modify (λ w'. record w' { client_heap = erase c w'.client_heap })
      >> pure none)
        w
  client_created c broken = broken
  client_created c unfinished = unfinished

module _ {S : Type 0} (hooks : PacketInterface S) (ev : Libevent) where
  -- `NewConnect` for the server at the address `s`. `AddPeerObj` and `AddPeerServerMap` return `false` where
  -- the descriptor has an entry already, and nobody looks.
  unfoldable pub new_connect : ℕ → ℕ → AcceptCalls → Action S Bool
  unfolding peer_vfd_on_connect add_peer_obj add_peer_server_map
  new_connect listenfd s calls =
      with_fd calls.accept (throw (socket_error listenfd server_create_peer_err)) (λ fd.
        check (calls.getfl && calls.setfl)
          (close_and_throw fd (socket_error fd server_create_peer_err))
          (do
            p ← new_peer_point hooks ev calls.bufferevent_new fd server_type
            add_peer_obj fd p
            add_peer_server_map fd s
            peer_vfd_on_connect hooks ev fd))

  -- `clsClientSocket::Connect`: where the connection fails the descriptor is left open.
  unfoldable pub connect : ℕ → ClientCalls → Action S Bool
  unfolding peer_vfd_on_connect add_peer_obj add_peer_client_map add_client_obj
  connect c calls =
      with_fd calls.socket (throw (socket_error_string minus_one client_create_err)) (λ fd.
        check calls.connect (throw (socket_error_string fd conn_err)) (
          check (calls.getfl && calls.setfl)
            (close_and_throw fd (socket_error_string fd client_create_err))
            (do
              p ← new_peer_point hooks ev calls.bufferevent_new fd client_type
              add_peer_obj fd p
              add_peer_client_map fd c
              add_client_obj fd c
              peer_vfd_on_connect hooks ev fd)))

  unfoldable pub create_client_socket : List ℕ → ℕ → Option ℕ → ClientCalls → Action S (Option ℕ)
  unfolding connect
  create_client_socket ip port packet_class calls w = client_created w.next (
      connect w.next calls (record w {
        client_heap =
            insert w.next
              (record { ip = ip; port = port; vfd = minus_one; packet_class = packet_class })
              w.client_heap;
        next = suc w.next;
      }))

module _ {S : Type 0} where
  -- `clsClientSocket::Close`
  unfoldable pub close : ℕ → Action S (Unit {0})
  close c = do client ← load_object World.client_heap c; record_event (closed client.vfd)
