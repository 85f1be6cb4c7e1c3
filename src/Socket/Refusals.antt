-- ===== src/Socket/Refusals.antt =====
-- What `Connect` of socket/client_socket.cpp and `CreateClientSocket` do when the system refuses.
use simple_module.Base.{
  ℕ, ◌≡◌, refl, inl, inr, Bool, true, false, ◌&&◌, List, ◌∷◌, Option, some, Bool-cases,
  Option-cases,
}
use simple_module.Base.Dict.{is_some}
use simple_module.Socket.{
  PacketInterface, Libevent, World, opened, SocketError, conn_err, socket_error_string,
}
use simple_module.Socket.Action.{Ended, threw, broken}
use simple_module.Socket.Sockets.{ClientCalls, connect, create_client_socket}
use simple_module.Socket.Failing.{is_open, opened_stays}

module _ {S : Type 0} (hooks : PacketInterface S) (ev : Libevent) where
  -- `Connect` throws, a descriptor is open that it has opened, and no list has it.
  pub record Leaked (w : World S) (fd : ℕ) (r : Ended S Bool) : Type 0 where
    pub error : SocketError
    pub after : World S
    pub throws : r ≡ threw error after
    pub left_open : is_open fd after.trace ≡ true
    pub same_peers : after.peer_obj_list ≡ w.peer_obj_list
    pub same_clients : after.client_obj_list ≡ w.client_obj_list

  -- Where the connection fails, `Connect` throws, and the descriptor it has opened stays open, while no list
  -- has it.
  pub connect-Leaked :
      (w : World S) (c fd : ℕ) (getfl setfl made : Bool)
      → Leaked w fd (
          connect hooks ev c
            (record {
              socket = some fd;
              connect = false;
              getfl = getfl;
              setfl = setfl;
              bufferevent_new = made;
            })
            w)
  unfolding connect
  connect-Leaked w c fd getfl setfl made = record {
    error = socket_error_string fd conn_err;
    after = record w { trace = opened fd ∷ w.trace };
    throws = refl;
    left_open = opened_stays fd w.trace;
    same_peers = refl;
    same_clients = refl;
  }

  -- The system grants the descriptor, the connection and the flags that `Connect` asks for.
  abbrev pub granted : ClientCalls → Bool
  granted calls = is_some calls.socket && (calls.connect && (calls.getfl && calls.setfl))

  -- If the system refuses the descriptor, the connection or the flags that `Connect` asks for, `CreateClientSocket` reads a message whose memory
  -- has been freed.
  pub create_client_socket_uses_freed :
      (w : World S) (ip : List ℕ) (port : ℕ) (packet_class : Option ℕ) (calls : ClientCalls)
      → granted calls ≡ false
      → create_client_socket hooks ev ip port packet_class calls w ≡ broken
  unfolding create_client_socket connect
  create_client_socket_uses_freed w ip port packet_class calls h =
      elim (Option-cases calls.socket) [
        | inl e ↦ rw (e) refl
        | inr (fd, e) ↦ elim (Bool-cases calls.connect) [
          | inr a ↦ rw (e, a) refl
          | inl a ↦ rw (e, a, rw (e, a) at h) refl
        ]
      ]
