-- ===== src/Socket/Failing.antt =====
-- What is left open when `Start` of socket/server_socket.cpp fails.
use simple_module.Base.{
  ℕ, suc, ◌≡◌, ◌≢◌, refl, sym, ap, ◌∙◌, ◌⊎◌, inl, inr, Bool, true, false, not, ◌&&◌, List, [], ◌∷◌,
  Option, none, some, if◌then◌else◌, ◌==◌, arith, Bool-cases, Option-cases,
}
use simple_module.Base.Dict.{Dict, lookup, insert, erase, lookup-insert_self, lookup-erase_self}
use simple_module.Socket.{
  ServerSocket, World, Event, opened, closed, reading, listening, wrote, SocketError, socket_error,
  literal, server_create_err,
}
use simple_module.Socket.Action.{Ended, returned, threw}
use simple_module.Socket.Manager.{minus_one, add_server_obj}
use simple_module.Socket.Sockets.{
  ServerCalls, start, listen_on, server_created, create_server_socket,
}

-- How often a descriptor has been opened and not closed since.
abbrev pub is_open : ℕ → List Event → Bool
is_open fd [] = false
is_open fd (opened k ∷ t) = let rest = is_open fd t in if k == fd then true else rest
is_open fd (closed k ∷ t) = let rest = is_open fd t in if k == fd then false else rest
is_open fd (reading k ∷ t) = is_open fd t
is_open fd (listening k ∷ t) = is_open fd t
is_open fd (wrote k buf ∷ t) = is_open fd t

opened_and_closed :
    (k fd : ℕ) (t : List Event)
    → (is_open k (closed fd ∷ opened fd ∷ t) && not (is_open k t)) ≡ false
opened_and_closed k fd t = last (fd == k) (is_open k t)
  where
    last : (b x : Bool) → ((if b then false else if b then true else x) && not x) ≡ false
    last true x = refl
    last false true = refl
    last false false = refl

pub opened_stays : (fd : ℕ) (t : List Event) → is_open fd (opened fd ∷ t) ≡ true
opened_stays fd t = ground arith

-- A descriptor is open only if it was.
abbrev pub OpenBefore : List Event → List Event → Type 0
OpenBefore before after = (k : ℕ) → (is_open k after && not (is_open k before)) ≡ false

not_both : (b : Bool) → (b && not b) ≡ false
not_both true = refl
not_both false = refl

some-none : {A : Type 0} {a : A} → some a ≡ none → ⊥
some-none e = cc

module _ {S : Type 0} where
  -- `Start` throws and has closed what it opened.
  pub record StartFailed (w : World S) (r : Ended S Bool) : Type 0 where
    pub error : SocketError
    pub trace : List Event
    pub readable : error.err_msg ≡ literal
    pub throws : r ≡ threw error (record w { trace = trace })
    pub closes : OpenBefore w.trace trace

  pub record StartDone (w : World S) (s fd : ℕ) (server : ServerSocket) (r : Ended S Bool)
      : Type 0 where
    pub answer : Bool
    pub listed : Dict ℕ
    pub returns :
        r
        ≡ returned answer (record w {
          server_heap = insert s (record server { vfd = fd }) w.server_heap;
          server_obj_list = listed;
          trace = listening fd ∷ opened fd ∷ w.trace;
        })
    pub holds : lookup fd listed ≢ none

  abbrev StartEnded : World S → ℕ → ServerSocket → Ended S Bool → Type 0
  StartEnded w s server r = ((fd : ℕ) × StartDone w s fd server r) ⊎ StartFailed w r

  refused :
      (w : World S) (s fd : ℕ) (server : ServerSocket) {r : Ended S Bool}
      → r
        ≡ threw
            (socket_error fd server_create_err)
            (record w { trace = closed fd ∷ opened fd ∷ w.trace })
      → StartEnded w s server r
  refused w s fd server e = inr (record {
    error = socket_error fd server_create_err;
    readable = refl;
    trace = closed fd ∷ opened fd ∷ w.trace;
    throws = e;
    closes = λ k. opened_and_closed k fd w.trace;
  })

  listen_on-Done :
      (w : World S) (s fd : ℕ) (server : ServerSocket)
      → lookup s w.server_heap ≡ some server
      → StartDone w s fd server (listen_on s fd (record w { trace = opened fd ∷ w.trace }))
  unfolding listen_on add_server_obj
  listen_on-Done w s fd server there = elim (Option-cases (lookup fd w.server_obj_list)) [
    | inl e ↦ record {
      answer = true;
      listed = insert fd s w.server_obj_list;
      returns = rw (there, e) refl;
      holds = λ h. some-none (sym (lookup-insert_self fd s w.server_obj_list) ∙ h);
    }
    | inr (q, e) ↦ record {
      answer = false;
      listed = w.server_obj_list;
      returns = rw (there, e) refl;
      holds = λ h. some-none (sym e ∙ h);
    }
  ]

  start-Ended :
      (w : World S) (s : ℕ) (server : ServerSocket) (calls : ServerCalls)
      → lookup s w.server_heap ≡ some server
      → StartEnded w s server (start s calls w)
  unfolding start
  start-Ended w s server calls there = elim (Option-cases calls.socket) [
    | inl none_eq ↦ inr (record {
      error = socket_error minus_one server_create_err;
      readable = refl;
      trace = w.trace;
      throws = rw (none_eq) refl;
      closes = λ k. not_both (is_open k w.trace);
    })
    | inr (fd, e) ↦ elim (Bool-cases calls.setsockopt) [
      | inr a ↦ refused w s fd server (rw (e, a) refl)
      | inl a ↦ elim (Bool-cases calls.bind) [
        | inr b ↦ refused w s fd server (rw (e, a, b) refl)
        | inl b ↦ elim (Bool-cases calls.listen) [
          | inr c ↦ refused w s fd server (rw (e, a, b, c) refl)
          | inl c ↦ elim (Bool-cases (calls.getfl && calls.setfl)) [
            | inr d ↦ refused w s fd server (rw (e, a, b, c, d) refl)
            | inl d ↦
                let r = listen_on-Done w s fd server there in
                inl (
                  fd,
                  record {
                    answer = r.answer;
                    listed = r.listed;
                    returns = rw (e, a, b, c, d) r.returns;
                    holds = r.holds;
                  },
                )
          ]
        ]
      ]
    ]
  ]

  pub record Listening (w : World S) (port : ℕ) (packet_class : Option ℕ) (r : Ended S (Option ℕ))
      : Type 0 where
    pub fd : ℕ
    pub after : World S
    pub returns : r ≡ returned (some w.next) after
    pub listed : lookup fd after.server_obj_list ≢ none
    pub there :
        lookup w.next after.server_heap
        ≡ some (record { vfd = fd; port = port; packet_class = packet_class })
    pub left_open : is_open fd after.trace ≡ true

  pub record Refused (w : World S) (r : Ended S (Option ℕ)) : Type 0 where
    pub after : World S
    pub returns : r ≡ returned none after
    pub deleted : lookup w.next after.server_heap ≡ none
    pub same_list : after.server_obj_list ≡ w.server_obj_list
    pub closes : OpenBefore w.trace after.trace

  -- Whatever the calls of the system answer, `CreateServerSocket` returns: a server that holds its descriptor,
  -- which is open and listed, or no server, when the object has been deleted, the list is as it was, and no
  -- descriptor is open that was not.
  pub create_server_socket-Answered :
      (w : World S) (port junk : ℕ) (packet_class : Option ℕ) (calls : ServerCalls)
      → Listening w port packet_class (create_server_socket port packet_class junk calls w)
        ⊎ Refused w (create_server_socket port packet_class junk calls w)
  unfolding create_server_socket
  create_server_socket-Answered w port junk packet_class calls =
      let server : ServerSocket = record { vfd = junk; port = port; packet_class = packet_class } in
      let w0 : World S = record w {
        server_heap = insert w.next server w.server_heap;
        next = suc w.next;
      } in
      elim (start-Ended w0 w.next server calls (lookup-insert_self w.next server w.server_heap)) [
        | inl (fd, d) ↦ inl (record {
          fd = fd;
          after = record w0 {
            server_heap = insert w.next (record server { vfd = fd }) w0.server_heap;
            server_obj_list = d.listed;
            trace = listening fd ∷ opened fd ∷ w.trace;
          };
          returns = ap (server_created w.next) d.returns;
          listed = d.holds;
          there = lookup-insert_self w.next (record server { vfd = fd }) w0.server_heap;
          left_open = opened_stays fd w.trace;
        })
        | inr f ↦ inr (record {
          after = record w0 { server_heap = erase w.next w0.server_heap; trace = f.trace };
          returns = ap (server_created w.next) f.throws ∙ rw (f.readable) refl;
          deleted = lookup-erase_self w.next w0.server_heap;
          same_list = refl;
          closes = f.closes;
        })
      ]
