-- ===== src/Protocol/SameFiles.antt =====
-- Two ends of a connection that load a protocol of protocol/protocol.cpp from the same file, each with its own
-- functions and its own `cur_char`.
use simple_module.Base.{
  ℕ, ◌≡◌, refl, ap, subst, Bool, true, false, Option, none, some, List, [], ◌∷◌, take, inl, inr,
  Bool-cases,
}
use simple_module.Base.Outcome.{Outcome, done, fault, stuck}
use simple_module.Args.Format.{Packer, same_text, read_file}
use simple_module.Protocol.Names.{
  process_type, maker_of, maker_of_part, name_part, find_last_of, client_text, server_text, slash,
  dot,
}
use simple_module.Protocol.Loading.{
  Entry, FarFuncs, ProtoDesc, ArgDesc, Listed, load, load_typed, load_text, read_desc,
  convert_protocol, after_func, func_proc, named, caller_entry, arglist_proc, with_args,
}

-- Both types give the same name, if there are two.
abbrev SameNames : Option (List ℕ × Bool) → Option (List ℕ × Bool) → Type 0
SameNames (some t) (some u) = t.0 ≡ u.0
SameNames (some t) none = Unit
SameNames none u = Unit

maker_of-SameNames :
    (c d name : List ℕ)
    → SameNames (maker_of client_text server_text c name) (maker_of client_text server_text d name)
maker_of-SameNames c d name = elim (Bool-cases (same_text (take 2 name) (99 ∷ 95 ∷ []))) [
  | inl e ↦ rw (e) refl
  | inr e ↦ rw (e) (elim (Bool-cases (same_text (take 2 name) (115 ∷ 95 ∷ []))) [
    | inl f ↦ rw (f) refl
    | inr f ↦ rw (f) tt
  ])
]

part-SameNames :
    (c d : List ℕ) (o : Option (List ℕ)) → SameNames (maker_of_part c o) (maker_of_part d o)
part-SameNames c d none = tt
part-SameNames c d (some name) = maker_of-SameNames c d name

process_type-SameNames : (c d path : List ℕ) → SameNames (process_type c path) (process_type d path)
unfolding process_type
process_type-SameNames c d path =
    part-SameNames c d (name_part path (find_last_of slash path) (find_last_of dot path))

module _ {V : Type 0} where
  -- The id, the name and the packers are the same: all that a call is written and read with, and the check
  -- id is computed of.
  abbrev pub SameWire : Entry V → Entry V → Type 0
  SameWire e f = (e.id ≡ f.id) × (e.pack_func_name ≡ f.pack_func_name) × (e.args ≡ f.args)

  -- Two loadings, if both succeed, know the same packers then, and their protocols are the same.
  abbrev pub AgreeWith :
      List (Packer V) → Entry V → Outcome (List (Packer V) × Entry V × Bool) → Type 0
  AgreeWith known e (done (known', f, true)) = (known ≡ known') × SameWire e f
  AgreeWith known e (done (known', f, false)) = Unit
  AgreeWith known e fault = Unit
  AgreeWith known e stuck = Unit

  abbrev pub Agree :
      Outcome (List (Packer V) × Entry V × Bool)
      → Outcome (List (Packer V) × Entry V × Bool)
      → Type 0
  Agree (done (known, e, true)) r = AgreeWith known e r
  Agree (done (known, e, false)) r = Unit
  Agree fault r = Unit
  Agree stuck r = Unit

  with_args-Agree :
      (e f : Entry V) (r : Outcome (Listed V))
      → SameWire e f
      → Agree (with_args e r) (with_args f r)
  with_args-Agree e f (done (known, args, true)) h = (refl, (h.0, h.1, refl))
  with_args-Agree e f (done (known, args, false)) h = tt
  with_args-Agree e f fault h = tt
  with_args-Agree e f stuck h = tt

  failed-Agree :
      (known : List (Packer V)) (f : Entry V) (r : Outcome (List (Packer V) × Entry V × Bool))
      → Agree r (done (known, f, false))
  failed-Agree known f (done (known', e, true)) = tt
  failed-Agree known f (done (known', e, false)) = tt
  failed-Agree known f fault = tt
  failed-Agree known f stuck = tt

  after_func-Agree :
      (p q : Bool × Bool) (l : Option (List ArgDesc)) (known : List (Packer V)) (e f : Entry V)
      → SameWire e f
      → Agree (after_func p l known e) (after_func q l known f)
  after_func-Agree (r, false) q l known e f h = tt
  after_func-Agree (r, true) (s, false) l known e f h =
      failed-Agree known (record f { has_unpack_ref = s }) (after_func (r, true) l known e)
  after_func-Agree (r, true) (s, true) none known e f h = tt
  after_func-Agree (r, true) (s, true) (some descs) known e f h =
      subst
        (λ args.
          Agree (with_args (record e { has_unpack_ref = r }) (arglist_proc descs known e.args))
            (with_args (record f { has_unpack_ref = s }) (arglist_proc descs known args)))
        h.2
        (with_args-Agree (record e { has_unpack_ref = r }) (record f { has_unpack_ref = s })
          (arglist_proc descs known e.args) h)

  read_desc-Agree :
      (far far' : FarFuncs) (d : Option (Option ProtoDesc)) (known : List (Packer V))
      (e f : Entry V)
      → SameWire e f
      → Agree (read_desc far d known e) (read_desc far' d known f)
  unfolding convert_protocol
  read_desc-Agree far far' none known e f h = tt
  read_desc-Agree far far' (some none) known e f h = tt
  read_desc-Agree far far' (some (some d)) known e f h =
      after_func-Agree (func_proc far e.is_maker (name e) e.has_unpack_ref)
        (func_proc far' f.is_maker (name f) f.has_unpack_ref) d.arg_list known
        (record e { pack_func_name = name e; caller_name = caller_entry e.is_maker (name e) })
        (record f { pack_func_name = name f; caller_name = caller_entry f.is_maker (name f) })
        (h.0, ap (named d.func_name) h.1, h.2)
    where
      name : Entry V → List ℕ
      name x = named d.func_name x.pack_func_name

  load_text-Agree :
      (far far' : FarFuncs) (run : List ℕ → Option (Option ProtoDesc)) (text : List ℕ)
      (known : List (Packer V)) (e f : Entry V)
      → SameWire e f
      → Agree (load_text far run text known e) (load_text far' run text known f)
  load_text-Agree far far' run [] known e f h = tt
  load_text-Agree far far' run (c ∷ text) known e f h =
      read_desc-Agree far far' (run (c ∷ text)) known e f h

  load_typed-Agree :
      (far far' : FarFuncs) (run : List ℕ → Option (Option ProtoDesc)) (file : Option (List ℕ))
      (t u : Option (List ℕ × Bool)) (known : List (Packer V)) (e f : Entry V)
      → SameNames t u
      → SameWire e f
      → Agree (load_typed far run file t known e) (load_typed far' run file u known f)
  load_typed-Agree far far' run file none u known e f n h = tt
  load_typed-Agree far far' run file (some t) none known e f n h =
      failed-Agree known f (load_typed far run file (some t) known e)
  load_typed-Agree far far' run file (some t) (some u) known e f n h =
      load_text-Agree far far' run (read_file file 102400) known
        (record e { pack_func_name = t.0; is_maker = t.1 })
        (record f { pack_func_name = u.0; is_maker = u.1 }) (h.0, n, h.2)

  -- Both ends load the same file, with the same packers known, for the same protocol.
  pub load-Agree :
      (far far' : FarFuncs) (run : List ℕ → Option (Option ProtoDesc)) (c d path : List ℕ)
      (file : Option (List ℕ)) (known : List (Packer V)) (e f : Entry V)
      → SameWire e f
      → Agree (load far run c path file known e) (load far' run d path file known f)
  unfolding load
  load-Agree far far' run c d path file known e f h =
      load_typed-Agree far far' run file (process_type c path) (process_type d path) known e f
        (process_type-SameNames c d path) h
