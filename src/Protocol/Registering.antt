-- ===== src/Protocol/Registering.antt =====
-- The registries that can be made by adding and updating protocols and by calling the functions of the table
-- of callers, and which of their calls use an object that is there.
use simple_module.Base.{
  ℕ, suc, ◌≤◌, ◌≡◌, refl, sym, subst, ◌∙◌, Bool, true, false, Option, none, some, List, [], ◌∷◌,
  ltb, length, get_elem?, inl, inr, Bool-cases, arith,
}
use simple_module.Base.Dict.{lookup, insert, contains, lookup-insert}
use simple_module.Base.Outcome.{Outcome, done, fault, stuck}
use simple_module.Lua.{Lua}
use simple_module.Args.Format.{Packer}
use simple_module.Protocol.Loading.{Entry, new_net_protocol, load}
use simple_module.Protocol.Manager.{
  Loader, Answer, loaded_as, load_failed, no_answer, count_and_pack,
}
use simple_module.Protocol.Sending.{Receivers, PackEnd}
use simple_module.Protocol.Registry.{
  Registry, Registered, caller_at, bind_caller, new_registry, entered, register_protocol, renewed,
  renew_protocol, pack_with, call_function, call_far,
}
use simple_module.Protocol.Callers.{
  AllBound-bind_caller, caller_at-bound, is_bound, IsLive, contains-insert, contains-insert_self,
  fresh-insert, AllBound-erase, fresh-delete_at,
}

pub none_from_one : {V : Type 0} (e : Entry V) (k : ℕ) → 1 ≤ k → lookup k ((0, e) ∷ []) ≡ none
unfolding lookup
none_from_one e k l = ground arith

module _ (lua : Lua) where
  -- What can be made of a new manager: protocols are added, with whatever success, and updated, where the
  -- loading succeeds and no function has the object that is replaced any more, and functions are called.
  pub data Registering : List (Packer lua.Value) → Registry lua.Value → Type 0 where
    starts : (known : List (Packer lua.Value)) → Registering known new_registry
    registers :
        {known known' : List (Packer lua.Value)} {r r' : Registry lua.Value} (l : Loader)
        (path : List ℕ) (file : Option (List ℕ)) (a : Answer)
        → Registering known r
        → register_protocol l path file known r ≡ done (known', r', a)
        → Registering known' r'
    renews :
        {known known' : List (Packer lua.Value)} {r r' : Registry lua.Value} (l : Loader) (i : ℕ)
        (path : List ℕ) (file : Option (List ℕ))
        → Registering known r
        → renew_protocol l i path file known r ≡ done (known', r', loaded_as i)
        → is_bound (get_elem? r.places i) r'.callers ≡ false
        → Registering known' r'
    calls :
        {known : List (Packer lua.Value)} {r r' : Registry lua.Value} (name : List ℕ)
        (to : Receivers) (vs : List lua.Value) (end : Option PackEnd)
        → Registering known r
        → call_far lua r name to vs ≡ done (r', end)
        → Registering known r'

  abbrev EndsLive : Outcome (Registered lua.Value) → Type 0
  EndsLive (done t) = IsLive t.1
  EndsLive fault = Unit
  EndsLive stuck = Unit

  entered-EndsLive :
      (r : Registry lua.Value) (o : Outcome (List (Packer lua.Value) × Entry lua.Value × Bool))
      → IsLive r
      → EndsLive (entered r o)
  entered-EndsLive r (done (known, e, ok)) h = record {
    live =
        AllBound-bind_caller (λ a. contains a r.objects)
          (λ a. contains a (insert r.next e r.objects)) e.caller_name r.next r.callers
          (λ b. contains-insert b r.next e r.objects) (contains-insert_self r.next e r.objects)
          h.live;
    fresh = fresh-insert r.next e r.objects h.fresh;
  }
  entered-EndsLive r fault h = tt
  entered-EndsLive r stuck h = tt

  -- As `EndsLive`, where the loading succeeds and no function has the object at the place `i` of `r` then.
  abbrev EndsRenewed : Registry lua.Value → ℕ → Outcome (Registered lua.Value) → Type 0
  EndsRenewed r i (done (known, r', loaded_as j)) =
      is_bound (get_elem? r.places i) r'.callers ≡ false → IsLive r'
  EndsRenewed r i (done (known, r', load_failed)) = Unit
  EndsRenewed r i (done (known, r', no_answer)) = Unit
  EndsRenewed r i fault = Unit
  EndsRenewed r i stuck = Unit

  renewed-EndsRenewed :
      (r : Registry lua.Value) (i : ℕ)
      (o : Outcome (List (Packer lua.Value) × Entry lua.Value × Bool))
      → IsLive r
      → EndsRenewed r i (renewed i r o)
  renewed-EndsRenewed r i (done (known, e, true)) h = λ unbound. record {
    live =
        AllBound-erase (get_elem? r.places i) (insert r.next e r.objects)
          (bind_caller e.caller_name r.next r.callers) unbound
          (AllBound-bind_caller (λ a. contains a r.objects)
            (λ a. contains a (insert r.next e r.objects)) e.caller_name r.next r.callers
            (λ b. contains-insert b r.next e r.objects) (contains-insert_self r.next e r.objects)
            h.live);
    fresh =
        fresh-delete_at (suc r.next) (get_elem? r.places i) (insert r.next e r.objects)
          (fresh-insert r.next e r.objects h.fresh);
  }
  renewed-EndsRenewed r i (done (known, e, false)) h = tt
  renewed-EndsRenewed r i fault h = tt
  renewed-EndsRenewed r i stuck h = tt

  -- A call that returns, and leaves such a registry.
  pub record Returned (o : Outcome (Registry lua.Value × Option PackEnd)) : Type 0 where
    pub registry : Registry lua.Value
    pub end : Option PackEnd
    pub returned : o ≡ done (registry, end)
    pub sound : IsLive registry

  counted-IsLive :
      (r : Registry lua.Value) (a : ℕ) (e : Entry lua.Value)
      → lookup a r.objects ≡ some e
      → (e' : Entry lua.Value) → IsLive r
      → IsLive (record r { objects = insert a e' r.objects })
  counted-IsLive r a e there e' h = record {
    live =
        AllBound-bind_caller (λ b. contains b r.objects) (λ b. contains b (insert a e' r.objects))
          none a r.callers (λ b. contains-insert b a e' r.objects)
          (contains-insert_self a e' r.objects) h.live;
    fresh = λ k l. ground (arith, lookup-insert k a e' r.objects, h.fresh k l, there);
  }

  pack_with-Returned :
      (r : Registry lua.Value) (a : ℕ) (o : Option (Entry lua.Value)) (to : Receivers)
      (vs : List lua.Value)
      → lookup a r.objects ≡ o
      → contains a r.objects ≡ true
      → IsLive r
      → Returned (pack_with lua r a o to vs)
  pack_with-Returned r a none to vs e there h = absurd (ground (arith, e, there))
  pack_with-Returned r a (some x) to vs e there h =
      let (x', end) = count_and_pack lua x to vs in
      record {
        registry = record r { objects = insert a x' r.objects };
        end = some end;
        returned = refl;
        sound = counted-IsLive r a x e x' h;
      }

  call_function-Returned :
      (r : Registry lua.Value) (o : Option ℕ) (name : List ℕ) (to : Receivers) (vs : List lua.Value)
      → caller_at r.callers name ≡ o
      → IsLive r
      → Returned (call_function lua r o to vs)
  call_function-Returned r none name to vs e h = record {
    registry = r;
    end = none;
    returned = refl;
    sound = h;
  }
  call_function-Returned r (some a) name to vs e h =
      pack_with-Returned r a (lookup a r.objects) to vs refl
        (caller_at-bound (λ b. contains b r.objects) r.callers name a h.live e) h

  call_live :
      (r : Registry lua.Value) (name : List ℕ) (to : Receivers) (vs : List lua.Value)
      → IsLive r
      → Returned (call_far lua r name to vs)
  unfolding call_far
  call_live r name to vs h = call_function-Returned r (caller_at r.callers name) name to vs refl h

  registry_of-IsLive :
      (o : Outcome (Registry lua.Value × Option PackEnd)) (r : Registry lua.Value)
      (end : Option PackEnd)
      → Returned o
      → o ≡ done (r, end)
      → IsLive r
  registry_of-IsLive o r end back e =
      subst IsLive (same (back.registry, back.end) (r, end) (sym back.returned ∙ e)) back.sound
    where
      same : (x y : Registry lua.Value × Option PackEnd) → done x ≡ done y → x.0 ≡ y.0
      same x y f = cc

  pub Registering-IsLive :
      (known : List (Packer lua.Value)) (r : Registry lua.Value) → Registering known r → IsLive r
  unfolding register_protocol renew_protocol
  Registering-IsLive known r (starts k) = record {
    live = tt;
    fresh = λ k l. none_from_one (new_net_protocol 0) k l;
  }
  Registering-IsLive known' r' (registers {known = k} {r = r} l path file a before e) =
      subst EndsLive e (
        entered-EndsLive r
          (load l.far l.run l.cur_char path file k (new_net_protocol (length r.places)))
          (Registering-IsLive k r before))
  Registering-IsLive known' r' (renews {known = k} {r = r} l i path file before e unbound) =
      subst (EndsRenewed r i) e
        (elim (Bool-cases (ltb i (length r.places))) [
          | inl h ↦ rw (h) (
              renewed-EndsRenewed r i (load l.far l.run l.cur_char path file k (new_net_protocol i))
                (Registering-IsLive k r before))
          | inr h ↦ rw (h) tt
        ])
        unbound
  Registering-IsLive known r' (calls {r = r} name to vs end before e) =
      registry_of-IsLive (call_far lua r name to vs) r' end
        (call_live r name to vs (Registering-IsLive known r before)) e

  -- However protocols are added, with whatever success, and updated, where the loading succeeds and leaves no
  -- function with the object that is replaced, and functions called: every call of a function in the table of
  -- callers, and of a name that is not in it, uses no deleted object and returns.
  pub call_far-Returned :
      (known : List (Packer lua.Value)) (r : Registry lua.Value) (name : List ℕ) (to : Receivers)
      (vs : List lua.Value)
      → Registering known r
      → Returned (call_far lua r name to vs)
  call_far-Returned known r name to vs path =
      call_live r name to vs (Registering-IsLive known r path)
