-- ===== src/Protocol/Matching.antt =====
-- The objects of a manager of protocol/protocol.cpp by their addresses, beside the list of its protocols.
use simple_module.Base.{
  ℕ, zero, suc, ◌≤◌, ◌<◌, ◌≡◌, ◌≢◌, refl, sym, ap, subst, ◌∙◌, Bool, true, false, Option, none,
  some, List, [], ◌∷◌, ◌++◌, ltb, if◌then◌else◌, length, get_elem?, All, inl, inr, Bool-cases,
  lt_or_le, arith,
}
use simple_module.Base.Dict.{
  Dict, lookup, insert, erase, lookup-insert_self, lookup-insert_ne, lookup-erase_ne,
}
use simple_module.Base.Outcome.{Outcome, done, fault, stuck}
use simple_module.Args.Format.{Packer}
use simple_module.Protocol.Loading.{Entry, new_net_protocol, load}
use simple_module.Protocol.Manager.{
  ProtoManager, Managed, Loader, loaded_as, no_answer, put_at, pushed, replaced, add_protocol,
  update_at,
}
use simple_module.Protocol.Registry.{
  Registry, Registered, delete_at, entered, renewed, register_protocol, renew_protocol,
}
use simple_module.Protocol.Callers.{fresh-insert, fresh-delete_at}
use simple_module.Protocol.Places.{
  AreApart, AreApart-append, AreApart-put_at, All-get_elem?, replaced_is_gone,
}

module _ {V : Type 0} where
  -- The objects at these addresses are these protocols.
  abbrev pub Holds : Dict (Entry V) → List ℕ → List (Entry V) → Type 0
  Holds d [] [] = Unit
  Holds d (p ∷ ps) (e ∷ es) = (lookup p d ≡ some e) × Holds d ps es
  Holds d _ _ = ⊥

  -- The manager's protocols are the objects at its places, which differ; no object has an address that is
  -- still to be given out.
  pub record IsView (r : Registry V) (m : ProtoManager V) : Type 0 where
    pub held : Holds r.objects r.places m.protos
    pub apart : AreApart r.places
    pub fresh : (k : ℕ) → r.next ≤ k → lookup k r.objects ≡ none

  Holds-length :
      (d : Dict (Entry V)) (ps : List ℕ) (es : List (Entry V))
      → Holds d ps es
      → length ps ≡ length es
  Holds-length d [] [] h = refl
  Holds-length d [] (e ∷ es) h = absurd h
  Holds-length d (p ∷ ps) [] h = absurd h
  Holds-length d (p ∷ ps) (e ∷ es) h = ap suc (Holds-length d ps es h.1)

  -- What changes no object at the places changes nothing there.
  Holds-other :
      (d d' : Dict (Entry V)) (P : ℕ → Type 0) (ps : List ℕ) (es : List (Entry V))
      → ((p : ℕ) → P p → lookup p d' ≡ lookup p d)
      → All P ps
      → Holds d ps es
      → Holds d' ps es
  Holds-other d d' P [] [] same all h = tt
  Holds-other d d' P [] (e ∷ es) same all h = absurd h
  Holds-other d d' P (p ∷ ps) [] same all h = absurd h
  Holds-other d d' P (p ∷ ps) (e ∷ es) same all h =
      (same p all.0 ∙ h.0, Holds-other d d' P ps es same all.1 h.1)

  Holds-below :
      (d : Dict (Entry V)) (n : ℕ) (ps : List ℕ) (es : List (Entry V))
      → ((k : ℕ) → n ≤ k → lookup k d ≡ none)
      → Holds d ps es
      → All (λ p. p < n) ps
  Holds-below d n [] es fresh h = tt
  Holds-below d n (p ∷ ps) [] fresh h = absurd h
  Holds-below d n (p ∷ ps) (e ∷ es) fresh h = (below, Holds-below d n ps es fresh h.1)
    where
      none-some : none ≡ some e → ⊥
      none-some f = cc

      below : p < n
      below = elim (lt_or_le p n) [ inl l ↦ l | inr l ↦ absurd (none-some (sym (fresh p l) ∙ h.0)) ]

  Holds-append :
      (d : Dict (Entry V)) (ps : List ℕ) (es : List (Entry V)) (n : ℕ) (e : Entry V)
      → Holds d ps es
      → lookup n d ≡ some e
      → Holds d (ps ++ (n ∷ [])) (es ++ (e ∷ []))
  Holds-append d [] [] n e h new = (new, tt)
  Holds-append d [] (x ∷ es) n e h new = absurd h
  Holds-append d (p ∷ ps) [] n e h new = absurd h
  Holds-append d (p ∷ ps) (x ∷ es) n e h new = (h.0, Holds-append d ps es n e h.1 new)

  Holds-put_at :
      (d : Dict (Entry V)) (ps : List ℕ) (es : List (Entry V)) (i n : ℕ) (e : Entry V)
      → Holds d ps es
      → lookup n d ≡ some e
      → Holds d (put_at i n ps) (put_at i e es)
  Holds-put_at d [] [] i n e h new = tt
  Holds-put_at d [] (x ∷ es) i n e h new = absurd h
  Holds-put_at d (p ∷ ps) [] i n e h new = absurd h
  Holds-put_at d (p ∷ ps) (x ∷ es) zero n e h new = (new, h.1)
  Holds-put_at d (p ∷ ps) (x ∷ es) (suc i) n e h new = (h.0, Holds-put_at d ps es i n e h.1 new)

  Holds-insert :
      (r : Registry V) (m : ProtoManager V) (e : Entry V)
      → IsView r m
      → Holds (insert r.next e r.objects) r.places m.protos
  Holds-insert r m e h =
      Holds-other r.objects (insert r.next e r.objects) (λ p. p < r.next) r.places m.protos
        (λ p l. lookup-insert_ne e r.objects (λ f. omega (arith, f, l)))
        (Holds-below r.objects r.next r.places m.protos h.fresh h.held) h.held

  Holds-renewed :
      (r : Registry V) (m : ProtoManager V) (i : ℕ) (e : Entry V)
      → IsView r m
      → Holds (insert r.next e r.objects) (put_at i r.next r.places) (put_at i e m.protos)
  Holds-renewed r m i e h =
      Holds-put_at (insert r.next e r.objects) r.places m.protos i r.next e (Holds-insert r m e h)
        (lookup-insert_self r.next e r.objects)

  Holds-delete_at :
      (r : Registry V) (m : ProtoManager V) (i : ℕ) (e : Entry V) (o : Option ℕ)
      → IsView r m
      → get_elem? r.places i ≡ o
      → Holds
          (delete_at o (insert r.next e r.objects))
          (put_at i r.next r.places)
          (put_at i e m.protos)
  Holds-delete_at r m i e none h at = Holds-renewed r m i e h
  Holds-delete_at r m i e (some a) h at =
      let below = Holds-below r.objects r.next r.places m.protos h.fresh h.held in
      let old = All-get_elem? (λ p. p < r.next) r.places i a below at in
      Holds-other (insert r.next e r.objects) (erase a (insert r.next e r.objects)) (λ q. q ≢ a)
        (put_at i r.next r.places) (put_at i e m.protos)
        (λ p ne. lookup-erase_ne (insert r.next e r.objects) ne)
        (replaced_is_gone r.places i a r.next h.apart at (λ f. omega (arith, f, old)))
        (Holds-renewed r m i e h)

  -- Both calls end alike, with the same packers and the same answer, and the objects are the protocols.
  abbrev pub Matches : Outcome (Registered V) → Outcome (Managed V) → Type 0
  Matches (done (known, r, a)) (done (known', m, a')) = (known ≡ known') × (a ≡ a') × IsView r m
  Matches fault fault = Unit
  Matches stuck stuck = Unit
  Matches _ _ = ⊥

  entered-Matches :
      (r : Registry V) (m : ProtoManager V) (o : Outcome (List (Packer V) × Entry V × Bool))
      → IsView r m
      → Matches (entered r o) (pushed m o)
  entered-Matches r m (done (known, e, true)) h = (
    refl,
    ap loaded_as (Holds-length r.objects r.places m.protos h.held),
    record {
      held =
          Holds-append (insert r.next e r.objects) r.places m.protos r.next e (Holds-insert r m e h)
            (lookup-insert_self r.next e r.objects);
      apart =
          AreApart-append r.places r.next h.apart
            (Holds-below r.objects r.next r.places m.protos h.fresh h.held);
      fresh = fresh-insert r.next e r.objects h.fresh;
    },
  )
  entered-Matches r m (done (known, e, false)) h = (
    refl,
    refl,
    record {
      held = Holds-insert r m e h;
      apart = h.apart;
      fresh = fresh-insert r.next e r.objects h.fresh;
    },
  )
  entered-Matches r m fault h = tt
  entered-Matches r m stuck h = tt

  renewed-Matches :
      (r : Registry V) (m : ProtoManager V) (i : ℕ) (o : Outcome (List (Packer V) × Entry V × Bool))
      → IsView r m
      → Matches (renewed i r o) (replaced i m o)
  renewed-Matches r m i (done (known, e, true)) h = (
    refl,
    refl,
    record {
      held = Holds-delete_at r m i e (get_elem? r.places i) h refl;
      apart =
          AreApart-put_at r.places i r.next h.apart
            (Holds-below r.objects r.next r.places m.protos h.fresh h.held);
      fresh =
          fresh-delete_at (suc r.next) (get_elem? r.places i) (insert r.next e r.objects)
            (fresh-insert r.next e r.objects h.fresh);
    },
  )
  renewed-Matches r m i (done (known, e, false)) h = (
    refl,
    refl,
    record { held = h.held; apart = h.apart; fresh = λ k l. h.fresh k (omega (arith, l)) },
  )
  renewed-Matches r m i fault h = tt
  renewed-Matches r m i stuck h = tt

  -- Objects and a table of callers that are a view of a manager: `add_protocol` and `update_protocol` on them
  -- end as on the manager's list of protocols, with the same packers and the same answer, and what they leave
  -- is a view again.
  pub registry-Matches :
      (l : Loader) (i : ℕ) (path : List ℕ) (file : Option (List ℕ)) (known : List (Packer V))
      (r : Registry V) (m : ProtoManager V)
      → IsView r m
      → Matches (register_protocol l path file known r) (add_protocol l path file known m)
        × Matches (renew_protocol l i path file known r) (update_at l i path file known m)
  unfolding register_protocol renew_protocol add_protocol update_at
  registry-Matches l i path file known r m h =
      let same = Holds-length r.objects r.places m.protos h.held in
      let o = load l.far l.run l.cur_char path file known (new_net_protocol i) in
      (
        subst
            (λ n.
              Matches (entered r (load l.far l.run l.cur_char path file known (new_net_protocol n)))
                (add_protocol l path file known m))
            (sym same)
            (entered-Matches r m
              (load l.far l.run l.cur_char path file known (new_net_protocol (length m.protos))) h),
        subst
            (λ n.
              Matches (if ltb i n then renewed i r o else done (known, r, no_answer))
                (update_at l i path file known m))
            (sym same)
            (elim (Bool-cases (ltb i (length m.protos))) [
              | inl e ↦ rw (e) (renewed-Matches r m i o h)
              | inr e ↦ rw (e) (refl, refl, h)
            ]),
      )
