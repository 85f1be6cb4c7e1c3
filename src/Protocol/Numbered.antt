-- ===== src/Protocol/Numbered.antt =====
-- Loading keeps the id and the counts that a protocol was made with, and adding and updating number the protocols.
use simple_module.Base.{
  ℕ, zero, suc, ◌+◌, ◌≡◌, refl, ◌∙◌, Bool, true, false, Option, none, some, List, [], ◌∷◌, ◌++◌,
  length, arith,
}
use simple_module.Base.Outcome.{Outcome, done, fault, stuck}
use simple_module.Args.Format.{Packer, read_file}
use simple_module.Protocol.Names.{process_type}
use simple_module.Protocol.Loading.{
  Entry, new_net_protocol, load, load_typed, load_text, read_desc, convert_protocol, after_func,
  with_args, func_proc, arglist_proc, named, caller_entry, FarFuncs, ProtoDesc, ArgDesc, Listed,
}
use simple_module.Protocol.Manager.{
  ProtoManager, Loader, loaded_as, load_failed, no_answer, Managed, pushed, counted, replaced,
  put_at,
}

module _ {V : Type 0} where
  -- The protocol that a loading gives has the id and the counts of this one.
  abbrev pub Keeps : Entry V → Outcome (List (Packer V) × Entry V × Bool) → Type 0
  Keeps e (done r) =
      (r.1.id ≡ e.id) × (r.1.pack_count ≡ e.pack_count) × (r.1.unpack_count ≡ e.unpack_count)
  Keeps e fault = Unit
  Keeps e stuck = Unit

  with_args-Keeps : (e : Entry V) (r : Outcome (Listed V)) → Keeps e (with_args e r)
  with_args-Keeps e (done t) = (refl, refl, refl)
  with_args-Keeps e fault = tt
  with_args-Keeps e stuck = tt

  after_func-Keeps :
      (p : Bool × Bool) (l : Option (List ArgDesc)) (known : List (Packer V)) (e : Entry V)
      → Keeps e (after_func p l known e)
  after_func-Keeps (r, false) l known e = (refl, refl, refl)
  after_func-Keeps (r, true) none known e = (refl, refl, refl)
  after_func-Keeps (r, true) (some descs) known e =
      with_args-Keeps (record e { has_unpack_ref = r }) (arglist_proc descs known e.args)

  convert_protocol-Keeps :
      (far : FarFuncs) (d : Option ProtoDesc) (known : List (Packer V)) (e : Entry V)
      → Keeps e (convert_protocol far d known e)
  unfolding convert_protocol
  convert_protocol-Keeps far none known e = (refl, refl, refl)
  convert_protocol-Keeps far (some d) known e =
      after_func-Keeps
        (func_proc far e.is_maker (named d.func_name e.pack_func_name) e.has_unpack_ref) d.arg_list
        known
        (record e {
          pack_func_name = named d.func_name e.pack_func_name;
          caller_name = caller_entry e.is_maker (named d.func_name e.pack_func_name);
        })

  read_desc-Keeps :
      (far : FarFuncs) (d : Option (Option ProtoDesc)) (known : List (Packer V)) (e : Entry V)
      → Keeps e (read_desc far d known e)
  read_desc-Keeps far none known e = (refl, refl, refl)
  read_desc-Keeps far (some d) known e = convert_protocol-Keeps far d known e

  load_text-Keeps :
      (far : FarFuncs) (run : List ℕ → Option (Option ProtoDesc)) (text : List ℕ)
      (known : List (Packer V)) (e : Entry V)
      → Keeps e (load_text far run text known e)
  load_text-Keeps far run [] known e = (refl, refl, refl)
  load_text-Keeps far run (c ∷ text) known e = read_desc-Keeps far (run (c ∷ text)) known e

  load_typed-Keeps :
      (far : FarFuncs) (run : List ℕ → Option (Option ProtoDesc)) (file : Option (List ℕ))
      (t : Option (List ℕ × Bool)) (known : List (Packer V)) (e : Entry V)
      → Keeps e (load_typed far run file t known e)
  load_typed-Keeps far run file none known e = (refl, refl, refl)
  load_typed-Keeps far run file (some t) known e =
      load_text-Keeps far run (read_file file 102400) known
        (record e { pack_func_name = t.0; is_maker = t.1 })

  pub load-Keeps :
      (l : Loader) (path : List ℕ) (file : Option (List ℕ)) (known : List (Packer V)) (e : Entry V)
      → Keeps e (load l.far l.run l.cur_char path file known e)
  unfolding load
  load-Keeps l path file known e =
      load_typed-Keeps l.far l.run file (process_type l.cur_char path) known e

  -- The ids count up from `n`.
  abbrev pub IsNumbered : ℕ → List (Entry V) → Type 0
  IsNumbered n [] = Unit
  IsNumbered n (e ∷ es) = (e.id ≡ n) × IsNumbered (suc n) es

  IsNumbered-append :
      (n : ℕ) (es : List (Entry V)) (e : Entry V)
      → IsNumbered n es
      → e.id ≡ n + length es
      → IsNumbered n (es ++ (e ∷ []))
  IsNumbered-append n [] e h i = (i ∙ omega arith, tt)
  IsNumbered-append n (x ∷ es) e h i = (h.0, IsNumbered-append (suc n) es e h.1 (i ∙ omega arith))

  IsNumbered-put_at :
      (n i : ℕ) (es : List (Entry V)) (e : Entry V)
      → IsNumbered n es
      → e.id ≡ n + i
      → IsNumbered n (put_at i e es)
  IsNumbered-put_at n i [] e h j = tt
  IsNumbered-put_at n zero (x ∷ es) e h j = (j ∙ omega arith, h.1)
  IsNumbered-put_at n (suc i) (x ∷ es) e h j =
      (h.0, IsNumbered-put_at (suc n) i es e h.1 (j ∙ omega arith))

  abbrev pub EndsNumbered : Outcome (Managed V) → Type 0
  EndsNumbered (done r) = IsNumbered 0 r.1.protos
  EndsNumbered fault = Unit
  EndsNumbered stuck = Unit

  pub pushed-EndsNumbered :
      (m : ProtoManager V) (r : Outcome (List (Packer V) × Entry V × Bool))
      → IsNumbered 0 m.protos
      → Keeps (new_net_protocol (length m.protos)) r
      → EndsNumbered (pushed m r)
  pushed-EndsNumbered m (done (known, e, true)) h i =
      IsNumbered-append 0 m.protos e h (i.0 ∙ omega arith)
  pushed-EndsNumbered m (done (known, e, false)) h i = h
  pushed-EndsNumbered m fault h i = tt
  pushed-EndsNumbered m stuck h i = tt

  pub replaced-EndsNumbered :
      (n : ℕ) (m : ProtoManager V) (r : Outcome (List (Packer V) × Entry V × Bool))
      → IsNumbered 0 m.protos
      → Keeps (new_net_protocol n) r
      → EndsNumbered (replaced n m r)
  replaced-EndsNumbered n m (done (known, e, true)) h i =
      IsNumbered-put_at 0 n m.protos e h (i.0 ∙ omega arith)
  replaced-EndsNumbered n m (done (known, e, false)) h i = h
  replaced-EndsNumbered n m fault h i = tt
  replaced-EndsNumbered n m stuck h i = tt

  pub counted-EndsNumbered : (r : Outcome (Managed V)) → EndsNumbered r → EndsNumbered (counted r)
  counted-EndsNumbered (done (known, m, loaded_as i)) h = h
  counted-EndsNumbered (done (known, m, load_failed)) h = h
  counted-EndsNumbered (done (known, m, no_answer)) h = h
  counted-EndsNumbered fault h = tt
  counted-EndsNumbered stuck h = tt
