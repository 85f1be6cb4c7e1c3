-- ===== src/Socket/Tests.antt =====
-- Runs of the socket layer with an echo server.
use simple_module.Base.{
  ℕ, ◌+◌, ◌≤◌, ◌≡◌, refl, ◌⊎◌, true, false, [], ◌∷◌, length, take, drop, take-append-drop,
  length-take, sym, subst, none, some, arith,
}
use simple_module.Base.Outcome.{done}
use simple_module.Base.Dict.{lookup, insert, erase, keys}
use simple_module.Socket.{
  PeerPoint, ServerSocket, PacketInterface, Libevent, World, opened, reading, listening, wrote,
  server_type,
}
use simple_module.Socket.Action.{returned, broken}
use simple_module.Socket.Manager.{show_info, add_peer_obj, del_server_vfd}
use simple_module.Socket.Points.{
  peer_vfd_on_write, peer_vfd_on_read, peer_vfd_on_close, on_read, on_error,
}
use simple_module.Socket.Sockets.{
  ServerCalls, create_server_socket, new_connect, connect, create_client_socket,
}
use simple_module.Socket.Forgetting.{Forgotten}
use simple_module.Socket.Closing.{peer_vfd_on_close-Forgotten}
use simple_module.Socket.Errors.{on_error_uses_deleted}
use simple_module.Socket.Dispatch.{
  IsSound, AllReturn, HasPackets-of_classes, Called, peer_vfd_on_read-Called,
}
use simple_module.Socket.Accepting.{
  all_accept, all_connect, Entered, new_connect-Entered, create_client_socket-Entered,
}
use simple_module.Socket.Steps.{
  empty_world, Step, listens, accepts, Reach, here, then_step, Reach-IsSound,
}
use simple_module.Socket.Reading.{ReadAll, on_read-ReadAll}
use simple_module.Socket.Failing.{Listening, Refused, create_server_socket-Answered}
use simple_module.Socket.Refusals.{Leaked, connect-Leaked, create_client_socket_uses_freed}
use simple_module.Socket.Servers.{del_server_vfd_uses_erased, del_server_vfd_no_peers}

-- It counts the bytes, and writes back what it reads.
abbrev echo : PacketInterface ℕ
echo = record {
  packet_on_read = λ s vfd buf. done (s + length buf, true, (vfd, buf) ∷ []);
  packet_on_error = λ s vfd. done (s, true, []);
  packet_on_connect = λ s vfd. done (s, true, []);
}

abbrev fair : Libevent
fair = record {
  bufferevent_write = λ vfd buf. true;
  bufferevent_read = λ input size. (take size input, drop size input);
  read_all = λ input size. take-append-drop size input;
  read_size = λ input size. subst (λ n. n ≤ size) (sym (length-take size input)) (omega arith);
  read_some = λ input size size_pos input_pos.
      subst (λ n. 1 ≤ n) (sym (length-take size input)) (omega arith);
}

echo-AllReturn : AllReturn echo fair
echo-AllReturn = record {
  on_read = λ vfd buf s. ((s + length buf, true, (vfd, buf) ∷ []), refl);
  on_error = λ vfd s. ((s, true, []), refl);
  on_connect = λ vfd s. ((s, true, []), refl);
}

-- A packet object at 0, and then a server at 1 on the descriptor 5.
abbrev start_world : World ℕ
start_world = empty_world ((0, 7) ∷ []) 1

abbrev server : ServerSocket
server = record { vfd = 5; port = 80; packet_class = some 0 }

abbrev server_world : World ℕ
server_world = record start_world {
  server_obj_list = (5, 1) ∷ [];
  server_heap = (1, server) ∷ [];
  next = 2;
  trace = listening 5 ∷ opened 5 ∷ [];
}

-- A peer on 6, and a client on 7 whose peer is at 4.
abbrev peer : PeerPoint
peer = record { vfd = 6; vfd_type = server_type; status = 1 }

abbrev peer_world : World ℕ
peer_world = record server_world {
  peer_obj_list = (6, 2) ∷ [];
  peer_vfd2server_obj = (6, 1) ∷ [];
  peer_heap = (2, peer) ∷ [];
  next = 3;
  trace = reading 6 ∷ opened 6 ∷ listening 5 ∷ opened 5 ∷ [];
}

listens-Step : Step echo fair start_world server_world
unfolding create_server_socket lookup insert
listens-Step = listens 80 0 9 5 7 (some 1) refl refl

accepts-Step : Step echo fair server_world peer_world
unfolding new_connect lookup insert
accepts-Step = accepts 5 1 6 server true refl refl refl

path : Reach echo fair start_world peer_world
path = then_step (then_step here listens-Step) accepts-Step

Reach-IsSound_example : IsSound echo fair peer_world
Reach-IsSound_example = Reach-IsSound echo fair ((0, 7) ∷ []) 1 peer_world echo-AllReturn path

sound : IsSound echo fair peer_world
sound = Reach-IsSound echo fair ((0, 7) ∷ []) 1 peer_world echo-AllReturn path

IsSound-listening : IsSound echo fair server_world
IsSound-listening =
    Reach-IsSound echo fair ((0, 7) ∷ []) 1 server_world echo-AllReturn
      (then_step here listens-Step)

peer_vfd_on_close-Forgotten_example :
    Forgotten peer_world 6 2 (peer_vfd_on_close echo fair 6 peer_world)
unfolding lookup
peer_vfd_on_close-Forgotten_example =
    peer_vfd_on_close-Forgotten echo fair peer_world 6 2 sound.linked
      (HasPackets-of_classes echo fair sound.classes) echo-AllReturn.on_error refl

on_error_uses_deleted_example : on_error echo fair 2 peer_world ≡ broken
unfolding lookup
on_error_uses_deleted_example =
    on_error_uses_deleted echo fair peer_world 6 2 peer sound.linked
      (HasPackets-of_classes echo fair sound.classes) echo-AllReturn.on_error refl refl
      (omega arith)

on_read-ReadAll_example :
    ReadAll echo fair peer_world 6 (1 ∷ 2 ∷ []) (on_read echo fair 2 (1 ∷ 2 ∷ []) peer_world)
unfolding lookup
on_read-ReadAll_example =
    on_read-ReadAll echo fair peer_world 6 2 peer (1 ∷ 2 ∷ []) sound echo-AllReturn refl refl
      (omega arith)

peer_vfd_on_read-Called_example :
    Called echo fair
      (λ s. echo.packet_on_read s 6 (1 ∷ 2 ∷ []))
      peer_world
      (peer_vfd_on_read echo fair 6 (1 ∷ 2 ∷ []) peer_world)
unfolding lookup
peer_vfd_on_read-Called_example =
    peer_vfd_on_read-Called echo fair peer_world 6 2 (1 ∷ 2 ∷ []) sound echo-AllReturn refl

new_connect-Entered_example :
    Entered echo fair 6 2 (new_connect echo fair 5 1 (all_accept 6) server_world)
unfolding lookup
new_connect-Entered_example =
    new_connect-Entered echo fair server_world 5 1 6 server IsSound-listening echo-AllReturn refl
      refl

create_client_socket-Entered_example :
    Entered echo fair 7 4
      (create_client_socket echo fair (49 ∷ []) 80 (some 0) (all_connect 7) peer_world)
unfolding lookup
create_client_socket-Entered_example =
    create_client_socket-Entered echo fair peer_world (49 ∷ []) 80 0 7 7 sound echo-AllReturn refl
      refl

-- The descriptor is made, and then cannot be bound.
abbrev not_bound : ServerCalls
not_bound = record {
  socket = some 8;
  setsockopt = true;
  bind = false;
  listen = true;
  getfl = true;
  setfl = true;
}

create_server_socket-Answered_example :
    Listening peer_world 81 (some 0) (create_server_socket 81 (some 0) 9 not_bound peer_world)
    ⊎ Refused peer_world (create_server_socket 81 (some 0) 9 not_bound peer_world)
create_server_socket-Answered_example =
    create_server_socket-Answered peer_world 81 9 (some 0) not_bound

connect-Leaked_example : Leaked echo fair peer_world 8 (
    connect echo fair 4
      (record {
        socket = some 8;
        connect = false;
        getfl = true;
        setfl = true;
        bufferevent_new = true;
      })
      peer_world)
connect-Leaked_example = connect-Leaked echo fair peer_world 4 8 true true true

create_client_socket_uses_freed_example :
    create_client_socket echo fair
      (49 ∷ [])
      80
      none
      (record {
        socket = some 8;
        connect = true;
        getfl = true;
        setfl = false;
        bufferevent_new = true;
      })
      peer_world
    ≡ broken
create_client_socket_uses_freed_example =
    create_client_socket_uses_freed echo fair peer_world (49 ∷ []) 80 none
      (record {
        socket = some 8;
        connect = true;
        getfl = true;
        setfl = false;
        bufferevent_new = true;
      })
      refl

del_server_vfd_uses_erased_example : del_server_vfd 5 peer_world ≡ broken
unfolding lookup
del_server_vfd_uses_erased_example =
    del_server_vfd_uses_erased peer_world 5 6 1 server refl refl refl

del_server_vfd_no_peers_example :
    del_server_vfd 5 server_world
    ≡ returned true (record server_world {
      server_heap = erase 1 server_world.server_heap;
      server_obj_list = erase 5 server_world.server_obj_list;
    })
unfolding lookup
del_server_vfd_no_peers_example = del_server_vfd_no_peers server_world 5 1 server tt refl refl

-- What `ShowInfo` prints, what a peer writes, and what the echo server answers.
show_info_peer :
    show_info peer_world ≡ record { servers = (5, 6 ∷ []) ∷ []; clients = []; peers = 6 ∷ [] }
unfolding keys
show_info_peer = refl

write_data_peer :
    peer_vfd_on_write echo fair 6 (1 ∷ []) peer_world
    ≡ returned true (record peer_world { trace = wrote 6 (1 ∷ []) ∷ peer_world.trace })
unfolding peer_vfd_on_write lookup
write_data_peer = refl

on_read_answered :
    on_read echo fair 2 (1 ∷ 2 ∷ []) peer_world
    ≡ returned tt (record peer_world {
      packet_heap = (0, 9) ∷ [];
      trace = wrote 6 (1 ∷ 2 ∷ []) ∷ peer_world.trace;
    })
unfolding on_read lookup insert
on_read_answered = refl

add_twice : add_peer_obj 6 9 peer_world ≡ returned false peer_world
unfolding add_peer_obj lookup
add_twice = refl
