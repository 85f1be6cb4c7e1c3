-- ===== src/Protocol/Managing.antt =====
-- The managers that can be made by adding and updating protocols, and calls of their protocols.
use simple_module.Base.{
  ℕ, zero, suc, ◌+◌, ◌^◌, ◌≤◌, ◌<◌, ◌≡◌, refl, sym, ap, subst, ◌∙◌, Bool, true, Option, none, some,
  List, [], ◌∷◌, ◌++◌, inl, inr, ltb, length, get_elem?, Bool-cases, arith,
}
use simple_module.Base.Outcome.{done}
use simple_module.Args.Format.{Packer, Chunk, add_table_args}
use simple_module.Lua.{Lua}
use simple_module.Args.Scalar.{packed}
use simple_module.Protocol.{marshal, unpack_data}
use simple_module.Protocol.Calls.{AreCountable, CallBack, unpack_data-marshal}
use simple_module.Protocol.Loading.{Entry, new_net_protocol, net_protocol_of, args_of, load}
use simple_module.Protocol.Manager.{
  ProtoManager, Loader, Answer, pushed, add_protocol, add_static_protocol, update_at,
  new_proto_manager, protos_of,
}
use simple_module.Protocol.Numbered.{
  IsNumbered, EndsNumbered, load-Keeps, pushed-EndsNumbered, replaced-EndsNumbered,
  counted-EndsNumbered,
}

module _ {V : Type 0} where
  -- What can be made of a new manager by loading protocols and packers of tables, whatever the files hold.
  pub data Managing : List (Packer V) → ProtoManager V → Type 0 where
    is_new :
        (known : List (Packer V)) → Managing (new_proto_manager known).0 (new_proto_manager known).1
    adds :
        {known known' : List (Packer V)} {m m' : ProtoManager V} (l : Loader) (path : List ℕ)
        (file : Option (List ℕ)) (a : Answer)
        → Managing known m
        → add_protocol l path file known m ≡ done (known', m', a)
        → Managing known' m'
    adds_static :
        {known known' : List (Packer V)} {m m' : ProtoManager V} (l : Loader) (path : List ℕ)
        (file : Option (List ℕ)) (a : Answer)
        → Managing known m
        → add_static_protocol l path file known m ≡ done (known', m', a)
        → Managing known' m'
    updates :
        {known known' : List (Packer V)} {m m' : ProtoManager V} (l : Loader) (i : ℕ)
        (path : List ℕ) (file : Option (List ℕ)) (a : Answer)
        → Managing known m
        → update_at l i path file known m ≡ done (known', m', a)
        → Managing known' m'
    adds_type :
        {known known' : List (Packer V)} {m : ProtoManager V} (run : List ℕ → Chunk V)
        (file : Option (List ℕ))
        → Managing known m
        → add_table_args known run file ≡ done known'
        → Managing known' m

  -- However protocols are added and updated, with whatever success, the id of each is its place in the list.
  Managing-IsNumbered :
      (known : List (Packer V)) (m : ProtoManager V) → Managing known m → IsNumbered 0 m.protos
  unfolding add_protocol add_static_protocol update_at
  Managing-IsNumbered known m (is_new k) = (refl, tt)
  Managing-IsNumbered known' m' (adds {known = k} {m = n} l path file a before e) =
      let fresh = new_net_protocol (length n.protos) in
      subst EndsNumbered e (
        pushed-EndsNumbered n (load l.far l.run l.cur_char path file k fresh)
          (Managing-IsNumbered k n before) (load-Keeps l path file k fresh))
  Managing-IsNumbered known' m' (adds_static {known = k} {m = n} l path file a before e) =
      let fresh = new_net_protocol (length n.protos) in
      subst EndsNumbered e (
        counted-EndsNumbered (pushed n (load l.far l.run l.cur_char path file k fresh)) (
          pushed-EndsNumbered n (load l.far l.run l.cur_char path file k fresh)
            (Managing-IsNumbered k n before) (load-Keeps l path file k fresh)))
  Managing-IsNumbered known' m' (updates {known = k} {m = n} l i path file a before e) =
      subst EndsNumbered e (elim (Bool-cases (ltb i (length n.protos))) [
        | inl h ↦ rw (h) (
            replaced-EndsNumbered i n (load l.far l.run l.cur_char path file k (new_net_protocol i))
              (Managing-IsNumbered k n before) (load-Keeps l path file k (new_net_protocol i)))
        | inr h ↦ rw (h) (Managing-IsNumbered k n before)
      ])
  Managing-IsNumbered known' m (adds_type {known = k} run file before e) =
      Managing-IsNumbered k m before

  id_at :
      (n i : ℕ) (es : List (Entry V)) (e : Entry V)
      → IsNumbered n es
      → get_elem? es i ≡ some e
      → (e.id ≡ n + i) × (get_elem? (protos_of es) i ≡ some (net_protocol_of e))
  id_at n i [] e h g = absurd (none-some g)
    where
      none-some : none ≡ some e → ⊥
      none-some f = cc
  id_at n zero (x ∷ es) e h g = (
    sym (ap (λ (y : Entry V). y.id) (same g)) ∙ h.0 ∙ omega arith,
    ap (λ y. some (net_protocol_of y)) (same g),
  )
    where
      same : some x ≡ some e → x ≡ e
      same f = cc
  id_at n (suc i) (x ∷ es) e h g = let r = id_at (suc n) i es e h.1 g in (r.0 ∙ omega arith, r.1)

module _ (lua : Lua) (call : List lua.Value → Bool) where
  -- However the protocols of a manager were loaded: what `marshal` writes for the values of a call of the one
  -- at a place from 1 to 65535, `unpack_data` reads with anything behind it as a call of that protocol's
  -- function with those values, and it reads just what was written, if the function is there and every
  -- argument is countable for its packer.
  pub unpack_data-marshal_loaded :
      (known : List (Packer lua.Value)) (m : ProtoManager lua.Value) (i : ℕ) (e : Entry lua.Value)
      (vs : List lua.Value) (room : ℕ) (bs rest : List ℕ)
      → Managing known m
      → get_elem? m.protos i ≡ some e
      → 1 ≤ i
      → i < 2 ^ 16
      → e.has_unpack_ref ≡ true
      → AreCountable lua (args_of e.args) vs
      → marshal lua (net_protocol_of e) vs room ≡ packed bs
      → CallBack lua call
          (net_protocol_of e)
          vs
          (length bs)
          (unpack_data lua call (protos_of m.protos) (bs ++ rest))
  unpack_data-marshal_loaded known m i e vs room bs rest path at low high bound fits wrote =
      let (same, there) = id_at 0 i m.protos e (Managing-IsNumbered known m path) at in
      unpack_data-marshal lua call (protos_of m.protos) (net_protocol_of e) vs room bs rest
        (ap (get_elem? (protos_of m.protos)) (same ∙ omega arith) ∙ there)
        (omega (arith, same, low)) (omega (arith, same, high)) bound fits wrote
