-- ===== src/Protocol/SameEnds.antt =====
-- `add_protocol` and `update_protocol` of protocol/protocol.cpp at two ends of a connection, of the same file.
use simple_module.Base.{
  ℕ, ◌≡◌, refl, subst, Bool, true, false, Option, List, [], ◌∷◌, ◌++◌, ltb, if◌then◌else◌, length,
  inl, inr, Bool-cases,
}
use simple_module.Base.Outcome.{Outcome, done, fault, stuck}
use simple_module.Args.Format.{Packer}
use simple_module.Protocol.Loading.{Entry, FarFuncs, ProtoDesc, new_net_protocol, load}
use simple_module.Protocol.Manager.{
  ProtoManager, Managed, loaded_as, load_failed, no_answer, pushed, counted, replaced, put_at,
  add_protocol, update_at,
}
use simple_module.Protocol.SameFiles.{AgreeWith, Agree, load-Agree}
use simple_module.Protocol.Ends.{
  loader_of, SameProtos, SameProtos-length, SameProtos-append, SameProtos-put_at,
}

module _ {V : Type 0} where
  -- Two calls, if both load a protocol, know the same packers then, and the protocols are the same.
  abbrev pub SameAs : List (Packer V) → ProtoManager V → Outcome (Managed V) → Type 0
  SameAs known m (done (known', n, loaded_as i)) = (known ≡ known') × SameProtos m.protos n.protos
  SameAs known m (done (known', n, load_failed)) = Unit
  SameAs known m (done (known', n, no_answer)) = Unit
  SameAs known m fault = Unit
  SameAs known m stuck = Unit

  abbrev pub EndSame : Outcome (Managed V) → Outcome (Managed V) → Type 0
  EndSame (done (known, m, loaded_as i)) r = SameAs known m r
  EndSame (done (known, m, load_failed)) r = Unit
  EndSame (done (known, m, no_answer)) r = Unit
  EndSame fault r = Unit
  EndSame stuck r = Unit

  pushed-SameAs :
      (m n : ProtoManager V) (known : List (Packer V)) (e : Entry V)
      (r : Outcome (List (Packer V) × Entry V × Bool))
      → SameProtos m.protos n.protos
      → AgreeWith known e r
      → SameAs known (record m { protos = m.protos ++ (e ∷ []) }) (pushed n r)
  pushed-SameAs m n known e (done (known', f, true)) h (same, wire) =
      (same, SameProtos-append m.protos n.protos e f h wire)
  pushed-SameAs m n known e (done (known', f, false)) h a = tt
  pushed-SameAs m n known e fault h a = tt
  pushed-SameAs m n known e stuck h a = tt

  pushed-EndSame :
      (m n : ProtoManager V) (q r : Outcome (List (Packer V) × Entry V × Bool))
      → SameProtos m.protos n.protos
      → Agree q r
      → EndSame (pushed m q) (pushed n r)
  pushed-EndSame m n (done (known, e, true)) r h a = pushed-SameAs m n known e r h a
  pushed-EndSame m n (done (known, e, false)) r h a = tt
  pushed-EndSame m n fault r h a = tt
  pushed-EndSame m n stuck r h a = tt

  replaced-SameAs :
      (i : ℕ) (m n : ProtoManager V) (known : List (Packer V)) (e : Entry V)
      (r : Outcome (List (Packer V) × Entry V × Bool))
      → SameProtos m.protos n.protos
      → AgreeWith known e r
      → SameAs known (record m { protos = put_at i e m.protos }) (replaced i n r)
  replaced-SameAs i m n known e (done (known', f, true)) h (same, wire) =
      (same, SameProtos-put_at i m.protos n.protos e f h wire)
  replaced-SameAs i m n known e (done (known', f, false)) h a = tt
  replaced-SameAs i m n known e fault h a = tt
  replaced-SameAs i m n known e stuck h a = tt

  replaced-EndSame :
      (i : ℕ) (m n : ProtoManager V) (q r : Outcome (List (Packer V) × Entry V × Bool))
      → SameProtos m.protos n.protos
      → Agree q r
      → EndSame (replaced i m q) (replaced i n r)
  replaced-EndSame i m n (done (known, e, true)) r h a = replaced-SameAs i m n known e r h a
  replaced-EndSame i m n (done (known, e, false)) r h a = tt
  replaced-EndSame i m n fault r h a = tt
  replaced-EndSame i m n stuck r h a = tt

  pub counted-EndSame : (q r : Outcome (Managed V)) → EndSame q r → EndSame (counted q) (counted r)
  counted-EndSame (done (known, m, loaded_as i)) (done (known', n, loaded_as j)) h = h
  counted-EndSame (done (known, m, loaded_as i)) (done (known', n, load_failed)) h = tt
  counted-EndSame (done (known, m, loaded_as i)) (done (known', n, no_answer)) h = tt
  counted-EndSame (done (known, m, loaded_as i)) fault h = tt
  counted-EndSame (done (known, m, loaded_as i)) stuck h = tt
  counted-EndSame (done (known, m, load_failed)) r h = tt
  counted-EndSame (done (known, m, no_answer)) r h = tt
  counted-EndSame fault r h = tt
  counted-EndSame stuck r h = tt

  pub add_protocol-EndSame :
      (run : List ℕ → Option (Option ProtoDesc)) (a b : FarFuncs × List ℕ) (path : List ℕ)
      (file : Option (List ℕ)) (known : List (Packer V)) (m n : ProtoManager V)
      → SameProtos m.protos n.protos
      → EndSame
          (add_protocol (loader_of run a) path file known m)
          (add_protocol (loader_of run b) path file known n)
  unfolding add_protocol
  add_protocol-EndSame run (far, c) (far', d) path file known m n h =
      pushed-EndSame m n (load far run c path file known (new_net_protocol (length m.protos)))
        (load far' run d path file known (new_net_protocol (length n.protos))) h
        (load-Agree far far' run c d path file known (new_net_protocol (length m.protos))
          (new_net_protocol (length n.protos)) (SameProtos-length m.protos n.protos h, refl, refl))

  pub update_at-EndSame :
      (run : List ℕ → Option (Option ProtoDesc)) (a b : FarFuncs × List ℕ) (i : ℕ) (path : List ℕ)
      (file : Option (List ℕ)) (known : List (Packer V)) (m n : ProtoManager V)
      → SameProtos m.protos n.protos
      → EndSame
          (update_at (loader_of run a) i path file known m)
          (update_at (loader_of run b) i path file known n)
  unfolding update_at
  update_at-EndSame run (far, c) (far', d) i path file known m n h =
      let q = load far run c path file known (new_net_protocol i) in
      let r = load far' run d path file known (new_net_protocol i) in
      subst
        (λ k.
          EndSame (if ltb i (length m.protos) then replaced i m q else done (known, m, no_answer))
            (if ltb i k then replaced i n r else done (known, n, no_answer)))
        (SameProtos-length m.protos n.protos h)
        (elim (Bool-cases (ltb i (length m.protos))) [
          | inl e ↦ rw (e) (
              replaced-EndSame i m n q r h (
                load-Agree far far' run c d path file known (new_net_protocol i)
                  (new_net_protocol i) (refl, refl, refl)))
          | inr e ↦ rw (e) tt
        ])

  -- What both calls left, if both loaded a protocol.
  pub same_ends :
      (q r : Outcome (Managed V)) (known known' : List (Packer V)) (m n : ProtoManager V) (i j : ℕ)
      → EndSame q r
      → q ≡ done (known, m, loaded_as i)
      → r ≡ done (known', n, loaded_as j)
      → (known ≡ known') × SameProtos m.protos n.protos
  same_ends q r known known' m n i j h e f = subst (SameAs known m) f (subst (λ x. EndSame x r) e h)
