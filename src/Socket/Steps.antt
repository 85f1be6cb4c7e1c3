-- ===== src/Socket/Steps.antt =====
-- What happens to the socket layer one after the other, and the invariant of all that can be reached.
use simple_module.Base.{
  ℕ, ◌≡◌, refl, sym, ap, subst, ◌∙◌, inl, inr, Bool, false, List, [], Option, none, some,
  Option-cases,
}
use simple_module.Base.Dict.{lookup}
use simple_module.Socket.{ServerSocket, PacketInterface, Libevent, World}
use simple_module.Socket.Action.{Ended, returned}
use simple_module.Socket.Points.{peer_vfd_on_read, peer_vfd_on_write, peer_vfd_on_close}
use simple_module.Socket.Sockets.{new_connect, create_client_socket, create_server_socket}
use simple_module.Socket.Links.{IsLinked-kept, peer_vfd_on_write-Traced}
use simple_module.Socket.Forgetting.{Forgotten}
use simple_module.Socket.Closing.{peer_vfd_on_close-Forgotten}
use simple_module.Socket.Dispatch.{
  HasClasses-still, HasPackets-of_classes, IsSound, AllReturn, IsSound-Kept,
  peer_vfd_on_read-Called,
}
use simple_module.Socket.Accepting.{
  all_accept, all_connect, all_listen, new_connect-Entered, create_client_socket-Entered,
  create_server_socket-Opened,
}

-- Nothing but packet objects.
abbrev pub empty_world : {S : Type 0} → List (ℕ × S) → ℕ → World S
empty_world packets next = record {
  server_obj_list = [];
  client_obj_list = [];
  peer_obj_list = [];
  peer_vfd2server_obj = [];
  peer_vfd2client_obj = [];
  peer_heap = [];
  server_heap = [];
  client_heap = [];
  packet_heap = packets;
  next = next;
  trace = [];
}

module _ {S : Type 0} (hooks : PacketInterface S) (ev : Libevent) where
  -- A call that returns, with the system's descriptors not in use and all that is asked of it granted.
  pub data Step : World S → World S → Type 0 where
    listens :
        {w w' : World S} (port a junk fd : ℕ) (x : S) (o : Option ℕ)
        → lookup a w.packet_heap ≡ some x
        → create_server_socket port (some a) junk (all_listen fd) w ≡ returned o w'
        → Step w w'
    accepts :
        {w w' : World S} (listenfd s fd : ℕ) (server : ServerSocket) (b : Bool)
        → lookup fd w.peer_obj_list ≡ none
        → lookup s w.server_heap ≡ some server
        → new_connect hooks ev listenfd s (all_accept fd) w ≡ returned b w'
        → Step w w'
    connects :
        {w w' : World S} (ip : List ℕ) (port a fd : ℕ) (x : S) (o : Option ℕ)
        → lookup fd w.peer_obj_list ≡ none
        → lookup a w.packet_heap ≡ some x
        → create_client_socket hooks ev ip port (some a) (all_connect fd) w ≡ returned o w'
        → Step w w'
    reads :
        {w w' : World S} (vfd : ℕ) (buf : List ℕ) (b : Bool)
        → peer_vfd_on_read hooks ev vfd buf w ≡ returned b w'
        → Step w w'
    writes :
        {w w' : World S} (vfd : ℕ) (buf : List ℕ) (b : Bool)
        → peer_vfd_on_write hooks ev vfd buf w ≡ returned b w'
        → Step w w'
    closes :
        {w w' : World S} (vfd : ℕ) (b : Bool)
        → peer_vfd_on_close hooks ev vfd w ≡ returned b w'
        → Step w w'

  pub data Reach (start : World S) : World S → Type 0 where
    here : Reach start start
    then_step : {w w' : World S} → Reach start w → Step w w' → Reach start w'

  same_after : {A : Type 0} {a b : A} {w v : World S} → returned a w ≡ returned b v → w ≡ v
  same_after e = cc

  IsSound-after :
      {A : Type 0} {a b : A} {w v : World S} {r : Ended S A}
      → r ≡ returned a w
      → r ≡ returned b v
      → IsSound hooks ev w
      → IsSound hooks ev v
  IsSound-after e h i = subst (λ x. IsSound hooks ev x) (same_after (sym e ∙ h)) i

  IsSound-Forgotten :
      {w : World S} {vfd p : ℕ} {r : Ended S Bool}
      → IsSound hooks ev w
      → (f : Forgotten w vfd p r) → IsSound hooks ev f.after
  IsSound-Forgotten {w} i f = record {
    linked = f.linked;
    classes =
        HasClasses-still hooks ev w f.after
          (λ s server e.
            i.classes.of_servers s server (sym (ap (λ h. lookup s h) f.same_servers) ∙ e))
          (λ c client e. i.classes.of_clients c client (f.old_clients c client e)) f.packets;
  }

  pub Step-IsSound :
      (w w' : World S) → AllReturn hooks ev → IsSound hooks ev w → Step w w' → IsSound hooks ev w'
  unfolding peer_vfd_on_read peer_vfd_on_close
  Step-IsSound w w' ends i (listens port a junk fd x o packet e) =
      let c = create_server_socket-Opened hooks ev w port a junk fd x i packet in
      IsSound-after c.returns e c.sound
  Step-IsSound w w' ends i (accepts listenfd s fd server b fresh there e) =
      let c = new_connect-Entered hooks ev w listenfd s fd server i ends fresh there in
      IsSound-after c.returns e c.sound
  Step-IsSound w w' ends i (connects ip port a fd x o fresh packet e) =
      let c = create_client_socket-Entered hooks ev w ip port a fd x i ends fresh packet in
      IsSound-after c.returns e c.sound
  Step-IsSound w w' ends i (reads vfd buf b e) = elim (Option-cases (lookup vfd w.peer_obj_list)) [
    | inl absent ↦ IsSound-after {a = false} (rw (absent) refl) e i
    | inr (p, present) ↦
        let c = peer_vfd_on_read-Called hooks ev w vfd p buf i ends present in
        IsSound-after c.kept.returns e (IsSound-Kept hooks ev i c.kept)
  ]
  Step-IsSound w w' ends i (writes vfd buf b e) =
      let (r, t, h) = peer_vfd_on_write-Traced hooks ev vfd buf w i.linked in
      IsSound-after h e (record {
        linked = IsLinked-kept w.packet_heap t i.linked;
        classes =
            HasClasses-still hooks ev w (record w { trace = t }) i.classes.of_servers
              i.classes.of_clients (λ a x k. (x, k));
      })
  Step-IsSound w w' ends i (closes vfd b e) = elim (Option-cases (lookup vfd w.peer_obj_list)) [
    | inl absent ↦ IsSound-after {a = false} (rw (absent) refl) e i
    | inr (p, present) ↦
        let f =
          peer_vfd_on_close-Forgotten hooks ev w vfd p i.linked
            (HasPackets-of_classes hooks ev i.classes) ends.on_error present in
        IsSound-after f.returns e (IsSound-Forgotten i f)
  ]

  none-some : {A : Type 0} {a : A} → none ≡ some a → ⊥
  none-some e = cc

  empty_world-IsSound :
      (packets : List (ℕ × S)) (next : ℕ) → IsSound hooks ev (empty_world packets next)
  unfolding lookup
  empty_world-IsSound packets next = record {
    linked = record {
      peers = λ u p e. absurd (none-some e);
      unknown = λ u e. record {
        no_peer = refl;
        no_server = refl;
        no_client = refl;
        no_client_obj = refl;
      };
      own_client = λ u v c a b. absurd (none-some a);
      free_peer = λ a l. refl;
      free_client = λ a l. refl;
    };
    classes = record {
      of_servers = λ s server e. absurd (none-some e);
      of_clients = λ c client e. absurd (none-some e);
    };
  }

  -- With callbacks that return, every state is sound that is reached from one with packet objects only, by
  -- calls for which the system grants all and gives descriptors that are not listed: each listed descriptor is
  -- that of a peer object that is there, mapped to just one server or client that is there and has a packet
  -- object that is there, and an unlisted one is in none of the maps of peers and clients.
  pub Reach-IsSound :
      (packets : List (ℕ × S)) (next : ℕ) (w : World S)
      → AllReturn hooks ev
      → Reach (empty_world packets next) w
      → IsSound hooks ev w
  Reach-IsSound packets next w ends here = empty_world-IsSound packets next
  Reach-IsSound packets next w ends (then_step {w = v} path step) =
      Step-IsSound v w ends (Reach-IsSound packets next v ends path) step
