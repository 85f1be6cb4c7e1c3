-- ===== src/Protocol/Callers.antt =====
-- The functions that Lua's table of callers holds: `func_proc`, `add_protocol`, `update_protocol` and
-- `net_protocol::pack` of protocol/protocol.cpp, as far as they make, use and delete objects.
use simple_module.Base.{
  ℕ, suc, ◌≤◌, ◌≡◌, refl, sym, subst, Bool, true, false, Option, none, some, List, [], ◌∷◌, ◌==◌,
  ◌||◌, if◌then◌else◌, All, inl, inr, Bool-cases, arith,
}
use simple_module.Base.Dict.{
  Dict, lookup, insert, contains, lookup-insert, lookup-erase, lookup-insert_self,
}
use simple_module.Args.Format.{same_text}
use simple_module.Protocol.Loading.{Entry}
use simple_module.Protocol.Registry.{Registry, enter_caller, caller_at, bind_caller, delete_at}
use simple_module.Args.Texts.{same_text_self, same_text-eq}

pub caller_at-enter_caller_self :
    (name : List ℕ) (a : ℕ) (cs : List (List ℕ × ℕ))
    → caller_at (enter_caller name a cs) name ≡ some a
unfolding caller_at enter_caller
caller_at-enter_caller_self name a [] = rw (same_text_self name) refl
caller_at-enter_caller_self name a ((k, b) ∷ cs) = elim (Bool-cases (same_text k name)) [
  | inl e ↦ rw (e) (rw (e) refl)
  | inr e ↦ rw (e) (rw (e) (caller_at-enter_caller_self name a cs))
]

pub caller_at-enter_caller_other :
    (name other : List ℕ) (a : ℕ) (cs : List (List ℕ × ℕ))
    → same_text name other ≡ false
    → caller_at (enter_caller name a cs) other ≡ caller_at cs other
unfolding caller_at enter_caller
caller_at-enter_caller_other name other a [] h = rw (h) refl
caller_at-enter_caller_other name other a ((k, b) ∷ cs) h = elim (Bool-cases (same_text k name)) [
  | inl e ↦
      let apart = subst (λ n. same_text n other ≡ false) (sym (same_text-eq k name e)) h in
      rw (e) (rw (apart) refl)
  | inr e ↦ rw (e) (rw (caller_at-enter_caller_other name other a cs h) refl)
]

-- Each function of the table has this property.
abbrev pub AllBound : (ℕ → Bool) → List (List ℕ × ℕ) → Type 0
AllBound p cs = All (λ c. p c.1 ≡ true) cs

pub AllBound-bind_caller :
    (p q : ℕ → Bool) (o : Option (List ℕ)) (a : ℕ) (cs : List (List ℕ × ℕ))
    → ((b : ℕ) → p b ≡ true → q b ≡ true)
    → q a ≡ true
    → AllBound p cs
    → AllBound q (bind_caller o a cs)
unfolding enter_caller
AllBound-bind_caller p q none a [] imp new h = tt
AllBound-bind_caller p q none a ((k, b) ∷ cs) imp new h =
    (imp b h.0, AllBound-bind_caller p q none a cs imp new h.1)
AllBound-bind_caller p q (some name) a [] imp new h = (new, tt)
AllBound-bind_caller p q (some name) a ((k, b) ∷ cs) imp new h =
    elim (Bool-cases (same_text k name)) [
      | inl e ↦ rw (e) (new, AllBound-bind_caller p q none a cs imp new h.1)
      | inr e ↦ rw (e) (imp b h.0, AllBound-bind_caller p q (some name) a cs imp new h.1)
    ]

pub caller_at-bound :
    (p : ℕ → Bool) (cs : List (List ℕ × ℕ)) (name : List ℕ) (a : ℕ)
    → AllBound p cs
    → caller_at cs name ≡ some a
    → p a ≡ true
unfolding caller_at
caller_at-bound p [] name a h e = absurd (ground arith)
caller_at-bound p ((k, b) ∷ cs) name a h e = elim (Bool-cases (same_text k name)) [
  | inl t ↦ subst (λ x. p x ≡ true) (same (subst at t e)) h.0
  | inr t ↦ caller_at-bound p cs name a h.1 (subst at t e)
]
  where
    at : Bool → Type 0
    at t = (if t then some b else caller_at cs name) ≡ some a

    same : some b ≡ some a → b ≡ a
    same f = cc

-- No function of the table has this upvalue.
abbrev pub is_bound : Option ℕ → List (List ℕ × ℕ) → Bool
is_bound none cs = false
is_bound (some a) [] = false
is_bound (some a) ((k, b) ∷ cs) = (a == b) || is_bound (some a) cs

module _ {V : Type 0} where
  -- Each function of the table of callers has an object that is there, and no object has an address that is
  -- still to be given out.
  pub record IsLive (r : Registry V) : Type 0 where
    pub live : AllBound (λ a. contains a r.objects) r.callers
    pub fresh : (k : ℕ) → r.next ≤ k → lookup k r.objects ≡ none

  pub contains-insert :
      (a k : ℕ) (e : Entry V) (d : Dict (Entry V))
      → contains a d ≡ true
      → contains a (insert k e d) ≡ true
  contains-insert a k e d h = ground (arith, lookup-insert a k e d, h)

  pub contains-insert_self :
      (k : ℕ) (e : Entry V) (d : Dict (Entry V)) → contains k (insert k e d) ≡ true
  contains-insert_self k e d = rw (lookup-insert_self k e d) refl

  pub fresh-insert :
      (n : ℕ) (e : Entry V) (d : Dict (Entry V))
      → ((k : ℕ) → n ≤ k → lookup k d ≡ none)
      → (k : ℕ) → suc n ≤ k
      → lookup k (insert n e d) ≡ none
  fresh-insert n e d h k l = ground (arith, lookup-insert k n e d, h k (omega (arith, l)))

  pub AllBound-erase :
      (o : Option ℕ) (d : Dict (Entry V)) (cs : List (List ℕ × ℕ))
      → is_bound o cs ≡ false
      → AllBound (λ a. contains a d) cs
      → AllBound (λ a. contains a (delete_at o d)) cs
  AllBound-erase none d cs n h = h
  AllBound-erase (some a) d [] n h = tt
  AllBound-erase (some a) d ((k, b) ∷ cs) n h = (
    ground (arith, n, lookup-erase b a d, h.0),
    AllBound-erase (some a) d cs (ground (arith, n)) h.1,
  )

  pub fresh-delete_at :
      (n : ℕ) (o : Option ℕ) (d : Dict (Entry V))
      → ((k : ℕ) → n ≤ k → lookup k d ≡ none)
      → (k : ℕ) → n ≤ k
      → lookup k (delete_at o d) ≡ none
  fresh-delete_at n none d h k l = h k l
  fresh-delete_at n (some a) d h k l = ground (arith, lookup-erase k a d, h k l)
