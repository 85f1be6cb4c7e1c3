-- ===== src/Socket/Reading.antt =====
-- The loop of `clsPeerPoint::OnRead` in socket/peer_point.cpp.
use simple_module.Base.{
  ℕ, zero, suc, ◌≤◌, ◌≡◌, refl, sym, ap, subst, ◌∙◌, ◌⊎◌, inl, inr, Bool, false, List, [], ◌∷◌,
  ◌++◌, length, some, ◌==◌, All, concat, length-append, arith,
}
use simple_module.Base.Dict.{lookup}
use simple_module.Socket.{PeerPoint, PacketInterface, Libevent, World, recv_block_size}
use simple_module.Socket.Action.{Ended, returned, ended_then}
use simple_module.Socket.Points.{peer_vfd_on_read, on_read_loop, on_read}
use simple_module.Socket.Dispatch.{IsSound, AllReturn, IsSound-Kept, peer_vfd_on_read-Called}

block-cases : (xs : List ℕ) → (xs ≡ []) ⊎ ((x : ℕ) × (ys : List ℕ) × (xs ≡ x ∷ ys))
block-cases [] = inl refl
block-cases (x ∷ ys) = inr (x, ys, refl)

module _ {S : Type 0} (hooks : PacketInterface S) (ev : Libevent) where
  -- `PeerVfdOnRead` for one block after the other.
  pub data Reads (vfd : ℕ) : List (List ℕ) → World S → World S → Type 0 where
    read_none : {w : World S} → Reads vfd [] w w
    read_one :
        {block : List ℕ} {blocks : List (List ℕ)} {u v w : World S} (b : Bool)
        → peer_vfd_on_read hooks ev vfd block u ≡ returned b v
        → Reads vfd blocks v w
        → Reads vfd (block ∷ blocks) u w

  pub record ReadAll (w : World S) (vfd : ℕ) (input : List ℕ) (r : Ended S (Unit {0}))
      : Type 0 where
    pub blocks : List (List ℕ)
    pub after : World S
    pub returns : r ≡ returned tt after
    pub handed : Reads vfd blocks w after
    pub complete : concat blocks ≡ input
    pub sizes : All (λ block. (1 ≤ length block) × (length block ≤ recv_block_size)) blocks
    pub sound : IsSound hooks ev after

  nothing-ReadAll :
      (w : World S) (vfd p fuel : ℕ) (input : List ℕ)
      → IsSound hooks ev w
      → lookup vfd w.peer_obj_list ≡ some p
      → (ev.bufferevent_read input recv_block_size).0 ≡ []
      → ReadAll w vfd input (on_read_loop hooks ev (suc fuel) p input w)
  unfolding on_read_loop
  nothing-ReadAll w vfd p fuel input i e empty = record {
    blocks = [];
    after = w;
    returns = rw ((i.linked.peers vfd p e).there, empty) refl;
    handed = read_none;
    complete = all_read input refl;
    sizes = tt;
    sound = i;
  }
    where
      all_read : (rest : List ℕ) → input ≡ rest → [] ≡ rest
      all_read [] h = refl
      all_read (x ∷ xs) h =
          let some_read = ev.read_some input recv_block_size (omega arith) (rw (h) (omega arith)) in
          let none_read : length (ev.bufferevent_read input recv_block_size).0 ≡ 0 =
            ap length empty in
          absurd (omega (arith, some_read, none_read))

  shorter :
      (input : List ℕ) (x : ℕ) (xs : List ℕ)
      → (ev.bufferevent_read input recv_block_size).0 ≡ x ∷ xs
      → suc (length (ev.bufferevent_read input recv_block_size).1) ≤ length input
  shorter input x xs e =
      let all = ap length (ev.read_all input recv_block_size) in
      let parts =
        length-append (ev.bufferevent_read input recv_block_size).0
          (ev.bufferevent_read input recv_block_size).1 in
      let front : length (ev.bufferevent_read input recv_block_size).0 ≡ suc (length xs) =
        ap length e in
      omega (arith, all, parts, front)

  loop-ReadAll :
      (fuel : ℕ) (w : World S) (vfd p : ℕ) (input : List ℕ)
      → IsSound hooks ev w
      → AllReturn hooks ev
      → lookup vfd w.peer_obj_list ≡ some p
      → length input ≤ fuel
      → ReadAll w vfd input (on_read_loop hooks ev (suc fuel) p input w)
  unfolding on_read_loop
  loop-ReadAll zero w vfd p input i ends e l =
      elim (block-cases (ev.bufferevent_read input recv_block_size).0) [
        | inl h ↦ nothing-ReadAll w vfd p zero input i e h
        | inr (x, xs, h) ↦ absurd (no_block x xs h)
      ]
    where
      no_block : (x : ℕ) (xs : List ℕ) → (ev.bufferevent_read input recv_block_size).0 ≡ x ∷ xs → ⊥
      no_block x xs h = let s = shorter input x xs h in omega (arith, s, l)
  loop-ReadAll (suc fuel) w vfd p input i ends e l =
      let input' = (ev.bufferevent_read input recv_block_size).1 in
      elim (block-cases (ev.bufferevent_read input recv_block_size).0) [
        | inl h ↦ nothing-ReadAll w vfd p (suc fuel) input i e h
        | inr (x, xs, h) ↦
            let at = i.linked.peers vfd p e in
            let s = shorter input x xs h in
            let c = peer_vfd_on_read-Called hooks ev w vfd p (x ∷ xs) i ends e in
            let w' : World S = record w { packet_heap = c.kept.heap; trace = c.kept.trace } in
            let rest =
              loop-ReadAll fuel w' vfd p input' (IsSound-Kept hooks ev i c.kept) ends e
                (omega (arith, s, l)) in
            record {
              blocks = (x ∷ xs) ∷ rest.blocks;
              after = rest.after;
              returns =
                  rw (at.there, h)
                    (ap
                        (λ v.
                          ended_then (peer_vfd_on_read hooks ev v (x ∷ xs) w)
                            (λ _. on_read_loop hooks ev (suc fuel) p input'))
                        at.same_vfd
                      ∙ ap (λ y. ended_then y (λ _. on_read_loop hooks ev (suc fuel) p input'))
                          c.kept.returns
                      ∙ rest.returns);
              handed = read_one c.result.1 c.kept.returns rest.handed;
              complete =
                  ap (λ y. (x ∷ xs) ++ y) rest.complete
                  ∙ ap (λ y. y ++ input') (sym h)
                  ∙ ev.read_all input recv_block_size;
              sizes = (
                (
                  omega arith,
                  subst (λ y. length y ≤ recv_block_size) h (ev.read_size input recv_block_size),
                ),
                rest.sizes,
              );
              sound = rest.sound;
            }
      ]

  -- Bytes that have come for a listed peer that is open, in a sound state and with callbacks that return: the
  -- loop of `OnRead` ends, has handed all of them to `PeerVfdOnRead`, in order and in blocks of 1 to 1024
  -- bytes, and leaves a sound state.
  pub on_read-ReadAll :
      (w : World S) (vfd p : ℕ) (peer : PeerPoint) (input : List ℕ)
      → IsSound hooks ev w
      → AllReturn hooks ev
      → lookup vfd w.peer_obj_list ≡ some p
      → lookup p w.peer_heap ≡ some peer
      → 1 ≤ peer.status
      → ReadAll w vfd input (on_read hooks ev p input w)
  unfolding on_read
  on_read-ReadAll w vfd p peer input i ends e there is_open =
      let r = loop-ReadAll (length input) w vfd p input i ends e (omega arith) in
      record {
        blocks = r.blocks;
        after = r.after;
        returns = rw (there, status_ne_zero peer.status is_open) r.returns;
        handed = r.handed;
        complete = r.complete;
        sizes = r.sizes;
        sound = r.sound;
      }
    where
      status_ne_zero : (n : ℕ) → 1 ≤ n → (n == 0) ≡ false
      status_ne_zero n l = ground arith
