-- ===== src/Socket/Accepting.antt =====
-- `NewConnect`, `CreateClientSocket` and `CreateServerSocket` where all calls of the system succeed.
use simple_module.Base.{
  ℕ, suc, ◌≤◌, ◌≡◌, refl, ap, subst, inl, inr, true, List, ◌∷◌, Option, none, some, arith,
  Option-cases,
}
use simple_module.Base.Dict.{Dict, lookup, insert, lookup-insert_self, lookup-insert-eq_some}
use simple_module.Socket.{
  ServerSocket, ClientSocket, PacketInterface, Libevent, World, Event, opened, reading, listening,
}
use simple_module.Socket.Action.{Ended, returned}
use simple_module.Socket.Sockets.{
  ServerCalls, ClientCalls, AcceptCalls, new_connect, connect, create_client_socket,
  create_server_socket, start, client_created, listen_on,
}
use simple_module.Socket.Setup.{accepted, IsLinked-accepted}
use simple_module.Socket.Connected.{connected, IsLinked-connected}
use simple_module.Socket.Creating.{
  with_new_client, IsLinked-with_new_client, next_client_unused, with_server_at,
  IsLinked-with_server_at,
}
use simple_module.Socket.Manager.{minus_one, add_server_obj}
use simple_module.Socket.Dispatch.{
  IsPresent, IsSound, AllReturn, HasClasses-still, peer_vfd_on_connect-Called, IsSound-Kept,
}

-- The system gives the descriptor `fd`, and all that is asked of it succeeds.
abbrev pub all_accept : ℕ → AcceptCalls
all_accept fd = record { accept = some fd; getfl = true; setfl = true; bufferevent_new = true }

abbrev pub all_connect : ℕ → ClientCalls
all_connect fd = record {
  socket = some fd;
  connect = true;
  getfl = true;
  setfl = true;
  bufferevent_new = true;
}

abbrev pub all_listen : ℕ → ServerCalls
all_listen fd = record {
  socket = some fd;
  setsockopt = true;
  bind = true;
  listen = true;
  getfl = true;
  setfl = true;
}

module _ {S : Type 0} (hooks : PacketInterface S) (ev : Libevent) where
  -- A sound state in which the descriptor is listed with the object at `p`.
  pub record Entered {A : Type 0} (fd p : ℕ) (r : Ended S A) : Type 0 where
    pub value : A
    pub after : World S
    pub returns : r ≡ returned value after
    pub sound : IsSound hooks ev after
    pub listed : lookup fd after.peer_obj_list ≡ some p

  -- A new peer of a server that is there, in a sound state, with a descriptor that has no entry and with
  -- callbacks that return: the state stays sound, and the descriptor is listed.
  pub new_connect-Entered :
      (w : World S) (listenfd s fd : ℕ) (server : ServerSocket)
      → IsSound hooks ev w
      → AllReturn hooks ev
      → lookup fd w.peer_obj_list ≡ none
      → lookup s w.server_heap ≡ some server
      → Entered fd w.next (new_connect hooks ev listenfd s (all_accept fd) w)
  unfolding new_connect
  new_connect-Entered w listenfd s fd server i ends fresh there =
      let w' = accepted w fd s (reading fd ∷ opened fd ∷ w.trace) in
      let i' : IsSound hooks ev w' = record {
        linked =
            IsLinked-accepted w fd s server (reading fd ∷ opened fd ∷ w.trace) i.linked fresh there;
        classes =
            HasClasses-still hooks ev w w' i.classes.of_servers i.classes.of_clients
              (λ a x e. (x, e));
      } in
      let listed = lookup-insert_self fd w.next w.peer_obj_list in
      let c = peer_vfd_on_connect-Called hooks ev w' fd w.next i' ends listed in
      record {
        value = c.result.1;
        after = record w' { packet_heap = c.kept.heap; trace = c.kept.trace };
        returns = rw (fresh, (i.linked.unknown fd fresh).no_server) c.kept.returns;
        sound = IsSound-Kept hooks ev i' c.kept;
        listed = listed;
      }

  IsPresent-same :
      (w : World S) {a b : Option ℕ} → a ≡ b → IsPresent hooks ev w a → IsPresent hooks ev w b
  IsPresent-same w e h = subst (λ o. IsPresent hooks ev w o) e h

  -- A new client, in a sound state, with a packet object that is there, a system that grants all and gives a
  -- descriptor that has no entry, and callbacks that return: `CreateClientSocket` returns, the state stays
  -- sound, and the descriptor is listed.
  pub create_client_socket-Entered :
      (w : World S) (ip : List ℕ) (port a fd : ℕ) (s : S)
      → IsSound hooks ev w
      → AllReturn hooks ev
      → lookup fd w.peer_obj_list ≡ none
      → lookup a w.packet_heap ≡ some s
      → Entered fd (suc w.next) (create_client_socket hooks ev ip port (some a) (all_connect fd) w)
  unfolding create_client_socket connect
  create_client_socket-Entered w ip port a fd s i ends fresh packet =
      let client : ClientSocket = record {
        ip = ip;
        port = port;
        vfd = minus_one;
        packet_class = some a;
      } in
      let w0 = with_new_client w client w.trace in
      let t = reading fd ∷ opened fd ∷ w.trace in
      let w' = connected w0 fd w.next t in
      let there = lookup-insert_self w.next client w.client_heap in
      let i' : IsSound hooks ev w' = record {
        linked =
            IsLinked-connected w0 fd w.next client t
              (IsLinked-with_new_client w client w.trace i.linked) fresh there
              (λ u. next_client_unused w u i.linked);
        classes =
            HasClasses-still hooks ev w w' i.classes.of_servers
              (λ c x e. elim (lookup-insert-eq_some c w.next client w.client_heap e) [
                | inl (same, x_eq) ↦
                    IsPresent-same w (ap (λ (y : ClientSocket). y.packet_class) x_eq) (s, packet)
                | inr (ne, before) ↦ i.classes.of_clients c x before
              ])
              (λ b x e. (x, e));
      } in
      let listed = lookup-insert_self fd w0.next w0.peer_obj_list in
      let c = peer_vfd_on_connect-Called hooks ev w' fd w0.next i' ends listed in
      record {
        value = some w.next;
        after = record w' { packet_heap = c.kept.heap; trace = c.kept.trace };
        returns =
            rw
              (
                fresh,
                (i.linked.unknown fd fresh).no_client,
                (i.linked.unknown fd fresh).no_client_obj,
              )
              (ap (client_created w.next) c.kept.returns);
        sound = IsSound-Kept hooks ev i' c.kept;
        listed = listed;
      }

  -- A new server, in a sound state, with a packet object that is there: the state stays sound.
  pub record Opened (s : ℕ) (r : Ended S (Option ℕ)) : Type 0 where
    pub after : World S
    pub returns : r ≡ returned (some s) after
    pub sound : IsSound hooks ev after
    pub server : ServerSocket
    pub there : lookup s after.server_heap ≡ some server

  IsSound-with_server_at :
      (w : World S) (s : ℕ) (server : ServerSocket) (next : ℕ) (listed : Dict ℕ) (t : List Event)
      → w.next ≤ next
      → IsPresent hooks ev w server.packet_class
      → IsSound hooks ev w
      → IsSound hooks ev (with_server_at w s server next listed t)
  IsSound-with_server_at w s server next listed t l h i = record {
    linked = IsLinked-with_server_at w s server next listed t l i.linked;
    classes =
        HasClasses-still hooks ev w (with_server_at w s server next listed t)
          (λ c x e. elim (lookup-insert-eq_some c s server w.server_heap e) [
            | inl (same, x_eq) ↦ IsPresent-same w (ap (λ (y : ServerSocket). y.packet_class) x_eq) h
            | inr (ne, before) ↦ i.classes.of_servers c x before
          ])
          i.classes.of_clients (λ b x e. (x, e));
  }

  pub create_server_socket-Opened :
      (w : World S) (port a junk fd : ℕ) (x : S)
      → IsSound hooks ev w
      → lookup a w.packet_heap ≡ some x
      → Opened w.next (create_server_socket port (some a) junk (all_listen fd) w)
  unfolding create_server_socket start listen_on add_server_obj
  create_server_socket-Opened w port a junk fd x i packet =
      let made : ServerSocket = record { vfd = junk; port = port; packet_class = some a } in
      let server : ServerSocket = record { vfd = fd; port = port; packet_class = some a } in
      let t = listening fd ∷ opened fd ∷ w.trace in
      let w0 = with_server_at w w.next made (suc w.next) w.server_obj_list w.trace in
      let i0 =
        IsSound-with_server_at w w.next made (suc w.next) w.server_obj_list w.trace (omega arith)
          (x, packet) i in
      let there = lookup-insert_self w.next made w.server_heap in
      let after =
        with_server_at w0 w.next server (suc w.next) (insert fd w.next w.server_obj_list) t in
      let after' = with_server_at w0 w.next server (suc w.next) w.server_obj_list t in
      elim (Option-cases (lookup fd w.server_obj_list)) [
        | inl e ↦ record {
          after = after;
          returns = rw (there, e) refl;
          sound =
              IsSound-with_server_at w0 w.next server (suc w.next)
                (insert fd w.next w.server_obj_list) t (omega arith) (x, packet) i0;
          server = server;
          there = lookup-insert_self w.next server w0.server_heap;
        }
        | inr (q, e) ↦ record {
          after = after';
          returns = rw (there, e) refl;
          sound =
              IsSound-with_server_at w0 w.next server (suc w.next) w.server_obj_list t (omega arith)
                (x, packet) i0;
          server = server;
          there = lookup-insert_self w.next server w0.server_heap;
        }
      ]
