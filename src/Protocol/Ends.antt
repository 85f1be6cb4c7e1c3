-- ===== src/Protocol/Ends.antt =====
-- Two ends of a connection whose managers of protocol/protocol.cpp have loaded the same files.
use simple_module.Base.{ℕ, zero, suc, ◌≡◌, refl, ap, Option, List, [], ◌∷◌, ◌++◌, length}
use simple_module.Base.Outcome.{done}
use simple_module.Args.Format.{Packer, Chunk, add_table_args}
use simple_module.Protocol.Loading.{Entry, FarFuncs, ProtoDesc}
use simple_module.Protocol.Manager.{
  ProtoManager, Loader, loaded_as, put_at, add_protocol, add_static_protocol, update_at,
  new_proto_manager,
}
use simple_module.Protocol.SameFiles.{SameWire}

-- The loader of an end.
abbrev pub loader_of : (List ℕ → Option (Option ProtoDesc)) → FarFuncs × List ℕ → Loader
loader_of run (far, cur_char) = record { far = far; run = run; cur_char = cur_char }

module _ {V : Type 0} where
  -- Two managers and the packers that both know: both ends start alike and load the same files, with success,
  -- each with its own functions of Lua and its own `cur_char`.
  pub data Paired : List (Packer V) → ProtoManager V → ProtoManager V → Type 0 where
    both_new :
        (known : List (Packer V))
        → Paired (new_proto_manager known).0 (new_proto_manager known).1 (new_proto_manager known).1
    both_add :
        {known known' known'' : List (Packer V)} {m m' n n' : ProtoManager V}
        (run : List ℕ → Option (Option ProtoDesc)) (a b : FarFuncs × List ℕ) (path : List ℕ)
        (file : Option (List ℕ)) (i j : ℕ)
        → Paired known m n
        → add_protocol (loader_of run a) path file known m ≡ done (known', m', loaded_as i)
        → add_protocol (loader_of run b) path file known n ≡ done (known'', n', loaded_as j)
        → Paired known' m' n'
    both_add_static :
        {known known' known'' : List (Packer V)} {m m' n n' : ProtoManager V}
        (run : List ℕ → Option (Option ProtoDesc)) (a b : FarFuncs × List ℕ) (path : List ℕ)
        (file : Option (List ℕ)) (i j : ℕ)
        → Paired known m n
        → add_static_protocol (loader_of run a) path file known m ≡ done (known', m', loaded_as i)
        → add_static_protocol (loader_of run b) path file known n ≡ done (known'', n', loaded_as j)
        → Paired known' m' n'
    both_update :
        {known known' known'' : List (Packer V)} {m m' n n' : ProtoManager V}
        (run : List ℕ → Option (Option ProtoDesc)) (a b : FarFuncs × List ℕ) (place : ℕ)
        (path : List ℕ) (file : Option (List ℕ)) (i j : ℕ)
        → Paired known m n
        → update_at (loader_of run a) place path file known m ≡ done (known', m', loaded_as i)
        → update_at (loader_of run b) place path file known n ≡ done (known'', n', loaded_as j)
        → Paired known' m' n'
    both_add_type :
        {known known' : List (Packer V)} {m n : ProtoManager V} (run : List ℕ → Chunk V)
        (file : Option (List ℕ))
        → Paired known m n
        → add_table_args known run file ≡ done known'
        → Paired known' m n

  -- The protocols are the same, one by one.
  abbrev pub SameProtos : List (Entry V) → List (Entry V) → Type 0
  SameProtos [] [] = Unit
  SameProtos (e ∷ es) (f ∷ fs) = SameWire e f × SameProtos es fs
  SameProtos _ _ = ⊥

  pub SameProtos-length : (es fs : List (Entry V)) → SameProtos es fs → length es ≡ length fs
  SameProtos-length [] [] h = refl
  SameProtos-length [] (f ∷ fs) h = absurd h
  SameProtos-length (e ∷ es) [] h = absurd h
  SameProtos-length (e ∷ es) (f ∷ fs) h = ap suc (SameProtos-length es fs h.1)

  pub SameProtos-append :
      (es fs : List (Entry V)) (e f : Entry V)
      → SameProtos es fs
      → SameWire e f
      → SameProtos (es ++ (e ∷ [])) (fs ++ (f ∷ []))
  SameProtos-append [] [] e f h new = (new, tt)
  SameProtos-append [] (y ∷ fs) e f h new = absurd h
  SameProtos-append (x ∷ es) [] e f h new = absurd h
  SameProtos-append (x ∷ es) (y ∷ fs) e f h new = (h.0, SameProtos-append es fs e f h.1 new)

  pub SameProtos-put_at :
      (i : ℕ) (es fs : List (Entry V)) (e f : Entry V)
      → SameProtos es fs
      → SameWire e f
      → SameProtos (put_at i e es) (put_at i f fs)
  SameProtos-put_at i [] [] e f h new = tt
  SameProtos-put_at i [] (y ∷ fs) e f h new = absurd h
  SameProtos-put_at i (x ∷ es) [] e f h new = absurd h
  SameProtos-put_at zero (x ∷ es) (y ∷ fs) e f h new = (new, h.1)
  SameProtos-put_at (suc i) (x ∷ es) (y ∷ fs) e f h new =
      (h.0, SameProtos-put_at i es fs e f h.1 new)
