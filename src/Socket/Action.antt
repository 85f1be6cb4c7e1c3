-- ===== src/Socket/Action.antt =====
-- The calls of the socket layer as functions of the state: a call returns, throws a `SocketError`, or does
-- what C++ leaves undefined, or its loop had not ended when the fuel of the model ran out.
use simple_module.Base.{ℕ, ◌∷◌, Option, none, some}
use simple_module.Base.Outcome.{Outcome, done, fault, stuck}
use simple_module.Base.Dict.{Dict, lookup}
use simple_module.Socket.{World, SocketError, Event}

pub data Ended (S A : Type 0) : Type 0 where
  returned : A → World S → Ended S A
  threw : SocketError → World S → Ended S A
  broken unfinished : Ended S A

abbrev pub Action : Type 0 → Type 0 → Type 0
Action S A = World S → Ended S A

module _ {S : Type 0} where
  infixl 5 ◌>>=◌ ◌>>◌
  abbrev pub ended_then : {A B : Type 0} → Ended S A → (A → World S → Ended S B) → Ended S B
  ended_then (returned a w) f = f a w
  ended_then (threw e w) f = threw e w
  ended_then broken f = broken
  ended_then unfinished f = unfinished

  abbrev pub ◌>>=◌ : {A B : Type 0} → Action S A → (A → Action S B) → Action S B
  ◌>>=◌ m f w = ended_then (m w) f

  abbrev pub ◌>>◌ : {A B : Type 0} → Action S A → Action S B → Action S B
  m >> k = m >>= λ _. k

  abbrev pub pure : {A : Type 0} → A → Action S A
  pure a w = returned a w

  abbrev pub throw : {A : Type 0} → SocketError → Action S A
  throw e w = threw e w

  abbrev pub undefined : {A : Type 0} → Action S A
  undefined w = broken

  abbrev pub get_world : Action S (World S)
  get_world w = returned w w

  abbrev pub modify : (World S → World S) → Action S (Unit {0})
  modify f w = returned tt (f w)

  abbrev pub no_fuel : {A : Type 0} → Action S A
  no_fuel w = unfinished

  -- The object at an address, if it has not been deleted.
  abbrev pub or_undefined : {A : Type 0} → Option A → Action S A
  or_undefined none w = broken
  or_undefined (some a) w = returned a w

  abbrev pub load_object : {A : Type 0} → (World S → Dict A) → ℕ → Action S A
  load_object heap p w = or_undefined (lookup p (heap w)) w

  abbrev pub record_event : Event → Action S (Unit {0})
  record_event e = modify (λ w. record w { trace = e ∷ w.trace })

  -- A callback, which has a behaviour of its own.
  abbrev pub from_outcome : {A : Type 0} → Outcome A → Action S A
  from_outcome (done a) w = returned a w
  from_outcome fault w = broken
  from_outcome stuck w = unfinished
