-- ===== src/Protocol/Counts.antt =====
-- The counts of the protocols of protocol/protocol.cpp, added up, and the totals.
use simple_module.Base.{
  ℕ, zero, suc, ◌+◌, ◌≤◌, ◌<◌, ◌^◌, ◌≡◌, refl, ap, ◌∙◌, Bool, true, false, Option, none, some, List,
  [], ◌∷◌, ◌++◌, ltb, ◌==◌, if◌then◌else◌, length, take, inl, inr, Bool-cases, arith,
}
use simple_module.Base.Word.{u64, le_value}
use simple_module.Base.Outcome.{Outcome, done, fault, stuck}
use simple_module.Args.Format.{Packer}
use simple_module.Protocol.Loading.{Entry, new_net_protocol, load}
use simple_module.Protocol.Manager.{
  ProtoManager, Managed, Loader, loaded_as, load_failed, no_answer, pushed, replaced, counted,
  put_at, add_protocol, add_static_protocol, update_at, update_protocol, bump, count_unpack,
}
use simple_module.Protocol.Numbered.{
  IsNumbered, Keeps, load-Keeps, pushed-EndsNumbered, replaced-EndsNumbered,
}
use simple_module.Protocol.Script.{bump_total, unpack_total, bump_pack}

module _ {V : Type 0} where
  abbrev pub pack_sum : List (Entry V) → ℕ
  pack_sum [] = 0
  pack_sum (e ∷ es) = e.pack_count + pack_sum es

  abbrev pub unpack_sum : List (Entry V) → ℕ
  unpack_sum [] = 0
  unpack_sum (e ∷ es) = e.unpack_count + unpack_sum es

  -- The ids are the places, and no more is counted than before.
  pub record IsWithin (m n : ProtoManager V) : Type 0 where
    pub numbered : IsNumbered 0 n.protos
    pub packs : pack_sum n.protos ≤ pack_sum m.protos
    pub unpacks : unpack_sum n.protos ≤ unpack_sum m.protos

  sums-append :
      (es : List (Entry V)) (e : Entry V)
      → (pack_sum (es ++ (e ∷ [])) ≡ pack_sum es + e.pack_count)
        × (unpack_sum (es ++ (e ∷ [])) ≡ unpack_sum es + e.unpack_count)
  sums-append [] e = (omega arith, omega arith)
  sums-append (x ∷ es) e = let h = sums-append es e in (omega (arith, h.0), omega (arith, h.1))

  sums-put_at :
      (i : ℕ) (es : List (Entry V)) (e : Entry V)
      → (pack_sum (put_at i e es) ≤ pack_sum es + e.pack_count)
        × (unpack_sum (put_at i e es) ≤ unpack_sum es + e.unpack_count)
  sums-put_at i [] e = (omega arith, omega arith)
  sums-put_at zero (x ∷ es) e = (omega arith, omega arith)
  sums-put_at (suc i) (x ∷ es) e =
      let h = sums-put_at i es e in (omega (arith, h.0), omega (arith, h.1))

  abbrev pub EndsWithin : ProtoManager V → Outcome (Managed V) → Type 0
  EndsWithin m (done t) = IsWithin m t.1
  EndsWithin m fault = Unit
  EndsWithin m stuck = Unit

  pushed-EndsWithin :
      (m : ProtoManager V) (r : Outcome (List (Packer V) × Entry V × Bool))
      → IsNumbered 0 m.protos
      → Keeps (new_net_protocol (length m.protos)) r
      → EndsWithin m (pushed m r)
  pushed-EndsWithin m (done (known, e, true)) h k = record {
    numbered = pushed-EndsNumbered m (done (known, e, true)) h k;
    packs = omega (arith, (sums-append m.protos e).0, k.1);
    unpacks = omega (arith, (sums-append m.protos e).1, k.2);
  }
  pushed-EndsWithin m (done (known, e, false)) h k = record {
    numbered = h;
    packs = omega arith;
    unpacks = omega arith;
  }
  pushed-EndsWithin m fault h k = tt
  pushed-EndsWithin m stuck h k = tt

  replaced-EndsWithin :
      (i : ℕ) (m : ProtoManager V) (r : Outcome (List (Packer V) × Entry V × Bool))
      → IsNumbered 0 m.protos
      → Keeps (new_net_protocol i) r
      → EndsWithin m (replaced i m r)
  replaced-EndsWithin i m (done (known, e, true)) h k = record {
    numbered = replaced-EndsNumbered i m (done (known, e, true)) h k;
    packs = omega (arith, (sums-put_at i m.protos e).0, k.1);
    unpacks = omega (arith, (sums-put_at i m.protos e).1, k.2);
  }
  replaced-EndsWithin i m (done (known, e, false)) h k = record {
    numbered = h;
    packs = omega arith;
    unpacks = omega arith;
  }
  replaced-EndsWithin i m fault h k = tt
  replaced-EndsWithin i m stuck h k = tt

  counted-EndsWithin :
      (m : ProtoManager V) (r : Outcome (Managed V)) → EndsWithin m r → EndsWithin m (counted r)
  counted-EndsWithin m (done (known, n, loaded_as i)) h = record {
    numbered = h.numbered;
    packs = h.packs;
    unpacks = h.unpacks;
  }
  counted-EndsWithin m (done (known, n, load_failed)) h = h
  counted-EndsWithin m (done (known, n, no_answer)) h = h
  counted-EndsWithin m fault h = tt
  counted-EndsWithin m stuck h = tt

  pub add_protocol-EndsWithin :
      (l : Loader) (path : List ℕ) (file : Option (List ℕ)) (known : List (Packer V))
      (m : ProtoManager V)
      → IsNumbered 0 m.protos
      → EndsWithin m (add_protocol l path file known m)
        × EndsWithin m (add_static_protocol l path file known m)
  unfolding add_protocol add_static_protocol
  add_protocol-EndsWithin l path file known m h =
      let fresh = new_net_protocol (length m.protos) in
      let added =
        pushed-EndsWithin m (load l.far l.run l.cur_char path file known fresh) h
          (load-Keeps l path file known fresh) in
      (
        added,
        counted-EndsWithin m (pushed m (load l.far l.run l.cur_char path file known fresh)) added,
      )

  update_at-EndsWithin :
      (l : Loader) (i : ℕ) (path : List ℕ) (file : Option (List ℕ)) (known : List (Packer V))
      (m : ProtoManager V)
      → IsNumbered 0 m.protos
      → EndsWithin m (update_at l i path file known m)
  unfolding update_at
  update_at-EndsWithin l i path file known m h = elim (Bool-cases (ltb i (length m.protos))) [
    | inl e ↦ rw (e) (
        replaced-EndsWithin i m (load l.far l.run l.cur_char path file known (new_net_protocol i)) h
          (load-Keeps l path file known (new_net_protocol i)))
    | inr e ↦ rw (e) (record { numbered = h; packs = omega arith; unpacks = omega arith })
  ]

  pub update_protocol-EndsWithin :
      (l : Loader) (place : Option (ℕ × List ℕ)) (file : Option (List ℕ)) (known : List (Packer V))
      (m : ProtoManager V)
      → IsNumbered 0 m.protos
      → EndsWithin m (update_protocol l place file known m)
  unfolding update_protocol
  update_protocol-EndsWithin l none file known m h = record {
    numbered = h;
    packs = omega arith;
    unpacks = omega arith;
  }
  update_protocol-EndsWithin l (some (i, path)) file known m h =
      update_at-EndsWithin l i path file known m h

  -- A call that is read counts at most once for its protocol if it counts for the total.
  bump-sums :
      (es : List (Entry V)) (i total : ℕ)
      → suc total < 2 ^ 64
      → (unpack_sum (bump es i) + total ≤ unpack_sum es + bump_total es i total)
        × (bump_total es i total ≤ suc total)
        × (pack_sum (bump es i) ≡ pack_sum es)
  bump-sums [] i total few = (omega arith, omega arith, refl)
  bump-sums (e ∷ es) zero total few = elim (Bool-cases e.has_unpack_ref) [
    | inl h ↦ rw (h) (omega arith, omega arith, refl)
    | inr h ↦ rw (h) (omega arith, omega arith, refl)
  ]
  bump-sums (e ∷ es) (suc i) total few =
      let h = bump-sums es i total few in (omega (arith, h.0), h.1, omega (arith, h.2))

  pub count_unpack-sums :
      (es : List (Entry V)) (buf : List ℕ) (total : ℕ)
      → suc total < 2 ^ 64
      → (unpack_sum (count_unpack es buf) + total ≤ unpack_sum es + unpack_total es buf total)
        × (unpack_total es buf total ≤ suc total)
        × (pack_sum (count_unpack es buf) ≡ pack_sum es)
  unfolding count_unpack unpack_total
  count_unpack-sums es [] total few = (omega arith, omega arith, refl)
  count_unpack-sums es (b ∷ bs) total few = elim (Bool-cases (b == 0)) [
    | inl z ↦ elim (Bool-cases (ltb (length bs) 2)) [
      | inl s ↦ rw (z) (rw (s) (omega arith, omega arith, refl))
      | inr s ↦ rw (z) (rw (s) (bump-sums es (le_value (take 2 bs)) total few))
    ]
    | inr z ↦ rw (z) (bump-sums es b total few)
  ]

  bump-IsNumbered : (n i : ℕ) (es : List (Entry V)) → IsNumbered n es → IsNumbered n (bump es i)
  bump-IsNumbered n i [] h = tt
  bump-IsNumbered n zero (e ∷ es) h = elim (Bool-cases e.has_unpack_ref) [
    | inl r ↦ (ap id_if r ∙ h.0, h.1)
    | inr r ↦ (ap id_if r ∙ h.0, h.1)
  ]
    where
      id_if : Bool → ℕ
      id_if b = (if b then record e { unpack_count = u64 (suc e.unpack_count) } else e).id
  bump-IsNumbered n (suc i) (e ∷ es) h = (h.0, bump-IsNumbered (suc n) i es h.1)

  pub count_unpack-IsNumbered :
      (es : List (Entry V)) (buf : List ℕ) → IsNumbered 0 es → IsNumbered 0 (count_unpack es buf)
  unfolding count_unpack
  count_unpack-IsNumbered es [] h = h
  count_unpack-IsNumbered es (b ∷ bs) h = elim (Bool-cases (b == 0)) [
    | inl z ↦ elim (Bool-cases (ltb (length bs) 2)) [
      | inl s ↦ rw (z) (rw (s) h)
      | inr s ↦ rw (z) (rw (s) (bump-IsNumbered 0 (le_value (take 2 bs)) es h))
    ]
    | inr z ↦ rw (z) (bump-IsNumbered 0 b es h)
  ]

  pub bump_pack-sums :
      (es : List (Entry V)) (i : ℕ)
      → (pack_sum (bump_pack es i) ≤ suc (pack_sum es))
        × (unpack_sum (bump_pack es i) ≡ unpack_sum es)
  bump_pack-sums [] i = (omega arith, refl)
  bump_pack-sums (e ∷ es) zero = (omega arith, refl)
  bump_pack-sums (e ∷ es) (suc i) =
      let h = bump_pack-sums es i in (omega (arith, h.0), omega (arith, h.1))

  pub bump_pack-IsNumbered :
      (n i : ℕ) (es : List (Entry V)) → IsNumbered n es → IsNumbered n (bump_pack es i)
  bump_pack-IsNumbered n i [] h = tt
  bump_pack-IsNumbered n zero (e ∷ es) h = h
  bump_pack-IsNumbered n (suc i) (e ∷ es) h = (h.0, bump_pack-IsNumbered (suc n) i es h.1)
