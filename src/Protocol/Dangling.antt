-- ===== src/Protocol/Dangling.antt =====
-- The functions that `update_protocol` of protocol/protocol.cpp leaves in Lua's table of callers with an
-- object that it has deleted.
use simple_module.Base.{
  ℕ, suc, ◌<◌, ◌≡◌, ap, ◌∙◌, true, false, Option, none, some, List, ltb, length, get_elem?, arith,
}
use simple_module.Base.Dict.{lookup, insert, lookup-erase_self}
use simple_module.Base.Outcome.{done, fault}
use simple_module.Lua.{Lua}
use simple_module.Args.Format.{Packer, same_text}
use simple_module.Protocol.Loading.{Entry, new_net_protocol, load}
use simple_module.Protocol.Manager.{Loader, loaded_as, load_failed, put_at}
use simple_module.Protocol.Sending.{Receivers}
use simple_module.Protocol.Registry.{
  Registry, caller_at, bind_caller, delete_at, renewed, renew_protocol, pack_with, call_function,
  call_far,
}
use simple_module.Protocol.Callers.{caller_at-enter_caller_self, caller_at-enter_caller_other}
use simple_module.Protocol.Registering.{Registering, Registering-IsLive}

module _ (lua : Lua) where
  -- A call of a function whose object has been deleted.
  deleted-fault :
      (r : Registry lua.Value) (name : List ℕ) (a : ℕ) (to : Receivers) (vs : List lua.Value)
      → caller_at r.callers name ≡ some a
      → lookup a r.objects ≡ none
      → call_far lua r name to vs ≡ fault
  unfolding call_far
  deleted-fault r name a to vs bound gone =
      ap (λ o. call_function lua r o to vs) bound ∙ ap (λ o. pack_with lua r a o to vs) gone

  within : (i : ℕ) {A : Type 0} (xs : List A) → i < length xs → ltb i (length xs) ≡ true
  within i xs h = ground (arith, h)

  -- An update of a protocol of the calling side whose argument list cannot be loaded: it deletes the new
  -- object after the table of callers has been given a function with it, so that the next call of the name
  -- uses a deleted object, also where the function that was there before worked.
  pub renew_protocol_failed :
      (known known' : List (Packer lua.Value)) (r : Registry lua.Value) (l : Loader) (i : ℕ)
      (path name : List ℕ) (file : Option (List ℕ)) (e : Entry lua.Value) (to : Receivers)
      (vs : List lua.Value)
      → Registering lua known r
      → i < length r.places
      → load l.far l.run l.cur_char path file known (new_net_protocol i) ≡ done (known', e, false)
      → e.caller_name ≡ some name
      → (r' : Registry lua.Value) × (renew_protocol l i path file known r
          ≡ done (known', r', load_failed))
        × (call_far lua r' name to vs ≡ fault)
  unfolding renew_protocol
  renew_protocol_failed known known' r l i path name file e to vs before there failed bound =
      let r' = record r {
        next = suc r.next;
        callers = bind_caller e.caller_name r.next r.callers;
      } in
      (
        r',
        rw (within i r.places there) (ap (renewed i r) failed),
        deleted-fault r' name r.next to vs
            (ap (λ o. caller_at (bind_caller o r.next r.callers) name) bound
              ∙ caller_at-enter_caller_self name r.next r.callers)
            ((Registering-IsLive lua known r before).fresh r.next (omega arith)),
      )

  -- An update that succeeds and gives a protocol of the calling side another name: the function of the old
  -- name, if it has the object that is replaced, stays in the table of callers, and the next call of it uses
  -- a deleted object.
  pub renew_protocol_renamed :
      (known known' : List (Packer lua.Value)) (r : Registry lua.Value) (l : Loader) (i a : ℕ)
      (path old name : List ℕ) (file : Option (List ℕ)) (e : Entry lua.Value) (to : Receivers)
      (vs : List lua.Value)
      → i < length r.places
      → load l.far l.run l.cur_char path file known (new_net_protocol i) ≡ done (known', e, true)
      → e.caller_name ≡ some name
      → same_text name old ≡ false
      → get_elem? r.places i ≡ some a
      → caller_at r.callers old ≡ some a
      → (r' : Registry lua.Value) × (renew_protocol l i path file known r
          ≡ done (known', r', loaded_as i))
        × (call_far lua r' old to vs ≡ fault)
  unfolding renew_protocol
  renew_protocol_renamed known known' r l i a path old name file e to vs there loaded bound apart at
        was =
      let r' : Registry lua.Value = record {
        next = suc r.next;
        objects = delete_at (get_elem? r.places i) (insert r.next e r.objects);
        places = put_at i r.next r.places;
        callers = bind_caller e.caller_name r.next r.callers;
      } in
      (
        r',
        rw (within i r.places there) (ap (renewed i r) loaded),
        deleted-fault r' old a to vs
            (ap (λ o. caller_at (bind_caller o r.next r.callers) old) bound
              ∙ caller_at-enter_caller_other name old r.next r.callers apart
              ∙ was)
            (ap (λ o. lookup a (delete_at o (insert r.next e r.objects))) at
              ∙ lookup-erase_self a (insert r.next e r.objects)),
      )
