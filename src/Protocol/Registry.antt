-- ===== src/Protocol/Registry.antt =====
-- The `net_protocol` objects of a manager of protocol/protocol.cpp by their addresses, and the functions that
-- Lua's table of callers holds, each with the address of an object as its upvalue.
use simple_module.Base.{
  ℕ, suc, Bool, true, false, Option, none, some, List, [], ◌∷◌, ◌++◌, ltb, if◌then◌else◌, length,
  get_elem?,
}
use simple_module.Base.Dict.{Dict, lookup, insert, erase}
use simple_module.Base.Outcome.{Outcome, done, fault, stuck}
use simple_module.Lua.{Lua}
use simple_module.Args.Format.{Packer, same_text}
use simple_module.Protocol.Loading.{Entry, new_net_protocol, load}
use simple_module.Protocol.Manager.{
  Loader, Answer, loaded_as, load_failed, no_answer, put_at, count_and_pack,
}
use simple_module.Protocol.Sending.{Receivers, PackEnd}

-- The address that the next object gets, the objects that are there, `_s_protos`, and the table of callers.
pub record Registry (V : Type 0) : Type 0 where
  pub next : ℕ
  pub objects : Dict (Entry V)
  pub places : List ℕ
  pub callers : List (List ℕ × ℕ)

-- `lua_rawset` of a name in the table of callers.
unfoldable pub enter_caller : List ℕ → ℕ → List (List ℕ × ℕ) → List (List ℕ × ℕ)
enter_caller name a [] = (name, a) ∷ []
enter_caller name a ((k, b) ∷ cs) =
    if same_text k name then (k, a) ∷ cs else (k, b) ∷ enter_caller name a cs

unfoldable pub caller_at : List (List ℕ × ℕ) → List ℕ → Option ℕ
caller_at [] name = none
caller_at ((k, a) ∷ cs) name = if same_text k name then some a else caller_at cs name

-- What `func_proc` has done for a caller.
abbrev pub bind_caller : Option (List ℕ) → ℕ → List (List ℕ × ℕ) → List (List ℕ × ℕ)
bind_caller none a cs = cs
bind_caller (some name) a cs = enter_caller name a cs

abbrev pub delete_at : {A : Type 0} → Option ℕ → Dict A → Dict A
delete_at none d = d
delete_at (some a) d = erase a d

-- The packers that are known, the objects, and what is left on the Lua stack.
abbrev pub Registered : Type 0 → Type 0
Registered V = List (Packer V) × Registry V × Answer

module _ {V : Type 0} where
  -- The constructor of the manager makes the protocol with the id 0.
  abbrev pub new_registry : Registry V
  new_registry = record {
    next = 1;
    objects = (0, new_net_protocol 0) ∷ [];
    places = 0 ∷ [];
    callers = [];
  }

  -- An object that could not be loaded stays.
  abbrev pub entered :
      Registry V → Outcome (List (Packer V) × Entry V × Bool) → Outcome (Registered V)
  entered r (done (known, e, ok)) = done (
    known,
    record {
      next = suc r.next;
      objects = insert r.next e r.objects;
      places = if ok then r.places ++ (r.next ∷ []) else r.places;
      callers = bind_caller e.caller_name r.next r.callers;
    },
    (if ok then loaded_as (length r.places) else load_failed),
  )
  entered r fault = fault
  entered r stuck = stuck

  -- `add_protocol`
  unfoldable pub register_protocol :
      Loader → List ℕ → Option (List ℕ) → List (Packer V) → Registry V → Outcome (Registered V)
  unfolding load enter_caller
  register_protocol l path file known r =
      entered r (load l.far l.run l.cur_char path file known (new_net_protocol (length r.places)))

  -- The object that was replaced is deleted, or the new one that could not be loaded.
  abbrev pub renewed :
      ℕ → Registry V → Outcome (List (Packer V) × Entry V × Bool) → Outcome (Registered V)
  renewed i r (done (known, e, true)) = done (
    known,
    record {
      next = suc r.next;
      objects = delete_at (get_elem? r.places i) (insert r.next e r.objects);
      places = put_at i r.next r.places;
      callers = bind_caller e.caller_name r.next r.callers;
    },
    loaded_as i,
  )
  renewed i r (done (known, e, false)) = done (
    known,
    record r { next = suc r.next; callers = bind_caller e.caller_name r.next r.callers },
    load_failed,
  )
  renewed i r fault = fault
  renewed i r stuck = stuck

  -- `update_protocol` with the number and the path on the stack, without which it does nothing.
  unfoldable pub renew_protocol :
      Loader → ℕ → List ℕ → Option (List ℕ) → List (Packer V) → Registry V → Outcome (Registered V)
  unfolding load enter_caller
  renew_protocol l i path file known r =
      let made = renewed i r (load l.far l.run l.cur_char path file known (new_net_protocol i)) in
      if ltb i (length r.places) then made else done (known, r, no_answer)

module _ (lua : Lua) where
  -- `pack` takes its upvalue for a `net_protocol`.
  abbrev pub pack_with :
      Registry lua.Value
      → ℕ
      → Option (Entry lua.Value)
      → Receivers
      → List lua.Value
      → Outcome (Registry lua.Value × Option PackEnd)
  pack_with r a none to vs = fault
  pack_with r a (some e) to vs =
      let (e', end) = count_and_pack lua e to vs in
      done (record r { objects = insert a e' r.objects }, some end)

  abbrev pub call_function :
      Registry lua.Value
      → Option ℕ
      → Receivers
      → List lua.Value
      → Outcome (Registry lua.Value × Option PackEnd)
  call_function r none to vs = done (r, none)
  call_function r (some a) to vs = pack_with r a (lookup a r.objects) to vs

  -- A script calls the function of this name in the table of callers, if there is one.
  unfoldable pub call_far :
      Registry lua.Value
      → List ℕ
      → Receivers
      → List lua.Value
      → Outcome (Registry lua.Value × Option PackEnd)
  unfolding caller_at count_and_pack lookup insert
  call_far r name to vs = call_function r (caller_at r.callers name) to vs
