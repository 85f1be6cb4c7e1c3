-- ===== src/Socket/Servers.antt =====
-- `DelServerVfd` of socket/socket_manager.cpp.
use simple_module.Base.{
  ℕ, ◌≡◌, refl, sym, ap, ◌∙◌, inl, inr, true, false, [], ◌∷◌, none, some, ◌==◌, arith, All,
  Bool-cases, Option-cases,
}
use simple_module.Base.Dict.{Dict, lookup, erase, lookup-erase_self}
use simple_module.Socket.{ServerSocket, World}
use simple_module.Socket.Action.{returned, broken, ended_then, get_world, ◌>>=◌, ◌>>◌, pure}
use simple_module.Socket.Manager.{
  del_peer_vfd, delete_peer, unlink_server, drop_peers, drop_peer, del_server_vfd, delete_server,
}

none-some : {A : Type 0} {a : A} → none ≡ some a → ⊥
none-some e = cc

module _ {S : Type 0} where
  -- `DelPeerVfd` has taken the entry out, so that the iterator does not stand at one any more.
  drop_peer-broken : (w : World S) (vfd : ℕ) → drop_peer true vfd w ≡ broken
  unfolding del_peer_vfd delete_peer unlink_server
  drop_peer-broken w vfd = elim (Option-cases (lookup vfd w.peer_obj_list)) [
    | inl e ↦ elim (Option-cases (lookup vfd w.peer_vfd2server_obj)) [
      | inl h ↦ rw (e, h, h) refl
      | inr (s, h) ↦ rw (e, h, lookup-erase_self vfd w.peer_vfd2server_obj) refl
    ]
    | inr (p, e) ↦ elim (Option-cases (lookup p w.peer_heap)) [
      | inl k ↦ rw (e, k) refl
      | inr (peer, k) ↦ elim (Option-cases (lookup vfd w.peer_vfd2server_obj)) [
        | inl h ↦ rw (e, k, h, h) refl
        | inr (s, h) ↦ rw (e, k, h, lookup-erase_self vfd w.peer_vfd2server_obj) refl
      ]
    ]
  ]

  drop_peers-broken :
      (w : World S) (server_vfd vfd s : ℕ) (server : ServerSocket) (d : Dict ℕ)
      → lookup vfd d ≡ some s
      → lookup s w.server_heap ≡ some server
      → server.vfd ≡ server_vfd
      → drop_peers server_vfd d w ≡ broken
  unfolding drop_peers lookup
  drop_peers-broken w server_vfd vfd s server [] h there same = absurd (none-some h)
  drop_peers-broken w server_vfd vfd s server ((j, x) ∷ d) h there same =
      elim (Option-cases (lookup x w.server_heap)) [
        | inl gone ↦ rw (gone) refl
        | inr (other, k) ↦ elim (Bool-cases (other.vfd == server_vfd)) [
          | inl m ↦
              rw (k, m)
                (ap (λ r. ended_then r (λ _. drop_peers server_vfd d)) (drop_peer-broken w j))
          | inr m ↦ elim (Bool-cases (vfd == j)) [
            | inl q ↦ absurd (not_same other k m (rw (q) at h))
            | inr q ↦
                rw (k, m) (drop_peers-broken w server_vfd vfd s server d (rw (q) at h) there same)
          ]
        ]
      ]
    where
      not_same :
          (other : ServerSocket)
          → lookup x w.server_heap ≡ some other
          → (other.vfd == server_vfd) ≡ false
          → some x ≡ some s
          → ⊥
      not_same other k m e = false_eq (
          sym m
          ∙ same_eq
              (same_server (sym k ∙ ap (λ a. lookup a w.server_heap) (same_address e) ∙ there)))
        where
          false_eq : false ≡ true → ⊥
          false_eq f = cc

          same_address : {a b : ℕ} → some a ≡ some b → a ≡ b
          same_address f = cc

          same_server : {a b : ServerSocket} → some a ≡ some b → a ≡ b
          same_server f = cc

          same_eq : other ≡ server → (other.vfd == server_vfd) ≡ true
          same_eq f = ground (arith, ap (λ (y : ServerSocket). y.vfd) f ∙ same)

  -- Whatever the state, `DelServerVfd` of a server that a peer is mapped to, and whose object is there, uses an
  -- iterator whose entry is gone.
  pub del_server_vfd_uses_erased :
      (w : World S) (server_vfd vfd s : ℕ) (server : ServerSocket)
      → lookup vfd w.peer_vfd2server_obj ≡ some s
      → lookup s w.server_heap ≡ some server
      → server.vfd ≡ server_vfd
      → del_server_vfd server_vfd w ≡ broken
  unfolding del_server_vfd
  del_server_vfd_uses_erased w server_vfd vfd s server mapped there same =
      ap
        (λ r. ended_then r (λ _. get_world >>= λ w'.
          delete_server (lookup server_vfd w'.server_obj_list) server_vfd >> pure true))
        (drop_peers-broken w server_vfd vfd s server w.peer_vfd2server_obj mapped there same)

  -- Each peer is mapped to a server that is there and has another descriptor.
  abbrev pub AllOthers : World S → ℕ → Dict ℕ → Type 0
  AllOthers w server_vfd = All (λ e.
      (server : ServerSocket) × (lookup e.1 w.server_heap ≡ some server)
      × ((server.vfd == server_vfd) ≡ false))

  drop_peers_none :
      (w : World S) (server_vfd : ℕ) (d : Dict ℕ)
      → AllOthers w server_vfd d
      → drop_peers server_vfd d w ≡ returned tt w
  unfolding drop_peers
  drop_peers_none w server_vfd [] h = refl
  drop_peers_none w server_vfd ((j, x) ∷ d) h =
      rw (h.0.1, h.0.2) (drop_peers_none w server_vfd d h.1)

  -- A server that is listed, and that no peer is mapped to, while all peers are mapped to servers that are
  -- there: `DelServerVfd` deletes it, takes it out of the list, and does nothing else.
  pub del_server_vfd_no_peers :
      (w : World S) (server_vfd s : ℕ) (server : ServerSocket)
      → AllOthers w server_vfd w.peer_vfd2server_obj
      → lookup server_vfd w.server_obj_list ≡ some s
      → lookup s w.server_heap ≡ some server
      → del_server_vfd server_vfd w
        ≡ returned true (record w {
          server_heap = erase s w.server_heap;
          server_obj_list = erase server_vfd w.server_obj_list;
        })
  unfolding del_server_vfd
  del_server_vfd_no_peers w server_vfd s server h listed there =
      rw (drop_peers_none w server_vfd w.peer_vfd2server_obj h, listed, there) refl
