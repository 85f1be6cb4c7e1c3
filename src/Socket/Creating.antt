-- ===== src/Socket/Creating.antt =====
-- A new server or client object, before anything is mapped to it.
use simple_module.Base.{
  ℕ, suc, ◌≤◌, ◌≡◌, ◌≢◌, sym, ap, ◌∙◌, inl, inr, List, none, some, arith, Option-cases,
}
use native.Mathlib.Decide.{ℕ_discrete}
use simple_module.Base.Dict.{Dict, lookup, insert, lookup-insert_self, lookup-insert_ne}
use simple_module.Socket.{ServerSocket, ClientSocket, World, Event}
use simple_module.Socket.Links.{OfServer, OfClient, IsLinked}

-- An object is there after another one has been made or set.
pub still_there :
    {V : Type 0} (a b : ℕ) (v : V) {x : V} (d : Dict V)
    → lookup b d ≡ some x
    → (y : V) × (lookup b (insert a v d) ≡ some y)
still_there a b v {x} d h = elim (ℕ_discrete b a) [
  | yes e ↦ (v, ap (λ k. lookup k (insert a v d)) e ∙ lookup-insert_self a v d)
  | no ne ↦ (x, lookup-insert_ne v d ne ∙ h)
]

none-some : {A : Type 0} {a : A} → none ≡ some a → ⊥
none-some e = cc

module _ {S : Type 0} where
  -- The heap of servers has an object at `s`, and addresses may have been taken.
  abbrev pub with_server_at : World S → ℕ → ServerSocket → ℕ → Dict ℕ → List Event → World S
  with_server_at w s server next listed t = record w {
    server_heap = insert s server w.server_heap;
    next = next;
    server_obj_list = listed;
    trace = t;
  }

  OfServer-with_server_at :
      {w : World S} {vfd : ℕ} (s : ℕ) (server : ServerSocket) (next : ℕ) (listed : Dict ℕ)
      (t : List Event)
      → OfServer w vfd
      → OfServer (with_server_at w s server next listed t) vfd
  OfServer-with_server_at {w} s server next listed t o =
      let (x, e) = still_there s o.s server w.server_heap o.there in
      record {
        s = o.s;
        server = x;
        linked = o.linked;
        there = e;
        no_client = o.no_client;
        no_client_obj = o.no_client_obj;
      }

  OfClient-with_server_at :
      {w : World S} {vfd : ℕ} (s : ℕ) (server : ServerSocket) (next : ℕ) (listed : Dict ℕ)
      (t : List Event)
      → OfClient w vfd
      → OfClient (with_server_at w s server next listed t) vfd
  OfClient-with_server_at s server next listed t o = record {
    c = o.c;
    client = o.client;
    linked = o.linked;
    listed = o.listed;
    there = o.there;
    no_server = o.no_server;
  }

  pub IsLinked-with_server_at :
      (w : World S) (s : ℕ) (server : ServerSocket) (next : ℕ) (listed : Dict ℕ) (t : List Event)
      → w.next ≤ next
      → IsLinked w
      → IsLinked (with_server_at w s server next listed t)
  IsLinked-with_server_at w s server next listed t l i = record {
    peers = λ u q e.
        let at = i.peers u q e in
        record {
          peer = at.peer;
          there = at.there;
          same_vfd = at.same_vfd;
          kind = elim at.kind [
            | inl (k, o) ↦ inl (k, OfServer-with_server_at s server next listed t o)
            | inr (k, o) ↦ inr (k, OfClient-with_server_at s server next listed t o)
          ];
        };
    unknown = λ u e.
        let k = i.unknown u e in
        record {
          no_peer = k.no_peer;
          no_server = k.no_server;
          no_client = k.no_client;
          no_client_obj = k.no_client_obj;
        };
    own_client = i.own_client;
    free_peer = λ a m. i.free_peer a (omega arith);
    free_client = λ a m. i.free_client a (omega arith);
  }

  -- A new client, at the address that comes next.
  abbrev pub with_new_client : World S → ClientSocket → List Event → World S
  with_new_client w client t = record w {
    client_heap = insert w.next client w.client_heap;
    next = suc w.next;
    trace = t;
  }

  OfServer-with_new_client :
      {w : World S} {vfd : ℕ} (client : ClientSocket) (t : List Event)
      → OfServer w vfd
      → OfServer (with_new_client w client t) vfd
  OfServer-with_new_client client t o = record {
    s = o.s;
    server = o.server;
    linked = o.linked;
    there = o.there;
    no_client = o.no_client;
    no_client_obj = o.no_client_obj;
  }

  OfClient-with_new_client :
      {w : World S} {vfd : ℕ} (client : ClientSocket) (t : List Event)
      → OfClient w vfd
      → OfClient (with_new_client w client t) vfd
  OfClient-with_new_client {w} client t o =
      let (x, e) = still_there w.next o.c client w.client_heap o.there in
      record {
        c = o.c;
        client = x;
        linked = o.linked;
        listed = o.listed;
        there = e;
        no_server = o.no_server;
      }

  pub IsLinked-with_new_client :
      (w : World S) (client : ClientSocket) (t : List Event)
      → IsLinked w
      → IsLinked (with_new_client w client t)
  IsLinked-with_new_client w client t i = record {
    peers = λ u q e.
        let at = i.peers u q e in
        record {
          peer = at.peer;
          there = at.there;
          same_vfd = at.same_vfd;
          kind = elim at.kind [
            | inl (k, o) ↦ inl (k, OfServer-with_new_client client t o)
            | inr (k, o) ↦ inr (k, OfClient-with_new_client client t o)
          ];
        };
    unknown = λ u e.
        let k = i.unknown u e in
        record {
          no_peer = k.no_peer;
          no_server = k.no_server;
          no_client = k.no_client;
          no_client_obj = k.no_client_obj;
        };
    own_client = i.own_client;
    free_peer = λ a m. i.free_peer a (omega arith);
    free_client = λ a m.
        lookup-insert_ne client w.client_heap (λ e. omega (arith, e))
        ∙ i.free_client a (omega arith);
  }

  -- No descriptor has the client that is made next.
  pub next_client_unused :
      (w : World S) (u : ℕ) → IsLinked w → lookup u w.client_obj_list ≢ some w.next
  next_client_unused w u i e = elim (Option-cases (lookup u w.peer_obj_list)) [
    | inl absent ↦ none-some (sym (i.unknown u absent).no_client_obj ∙ e)
    | inr (p, present) ↦ elim (i.peers u p present).kind [
      | inl (k, o) ↦ none-some (sym o.no_client_obj ∙ e)
      | inr (k, o) ↦ none-some (
          sym (i.free_client w.next (omega arith))
          ∙ ap (λ c. lookup c w.client_heap) (same_address (sym e ∙ o.listed))
          ∙ o.there)
    ]
  ]
    where
      same_address : {a b : ℕ} → some a ≡ some b → a ≡ b
      same_address h = cc
