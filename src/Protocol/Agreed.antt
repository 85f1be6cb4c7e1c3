-- ===== src/Protocol/Agreed.antt =====
-- The managers of two ends of a connection, of protocol/protocol.cpp: their check ids, and the calls of one
-- that the other reads.
use simple_module.Base.{
  ℕ, zero, suc, ◌^◌, ◌≤◌, ◌<◌, ◌≡◌, refl, sym, ap, ap₂, subst, ◌∙◌, Bool, true, some, List, [], ◌∷◌,
  ◌++◌, length, get_elem?,
}
use simple_module.Base.Word.{le_bytes}
use simple_module.Lua.{Lua}
use simple_module.Args.Scalar.{packed}
use simple_module.Args.Format.{Packer}
use simple_module.Protocol.{marshal, unpack_data}
use simple_module.Protocol.Calls.{AreCountable, CallBack}
use simple_module.Protocol.Loading.{
  Entry, net_protocol_of, args_of, args_text, get_check_id, calc_hashnr,
}
use simple_module.Protocol.Manager.{
  ProtoManager, loaded_as, add_protocol, add_static_protocol, update_at, protos_of, check_bytes,
  get_ptos_checkid,
}
use simple_module.Protocol.Managing.{
  Managing, is_new, adds, adds_static, updates, adds_type, unpack_data-marshal_loaded,
}
use simple_module.Protocol.SameFiles.{SameWire}
use simple_module.Protocol.Ends.{
  loader_of, Paired, both_new, both_add, both_add_static, both_update, both_add_type, SameProtos,
}
use simple_module.Protocol.SameEnds.{
  add_protocol-EndSame, update_at-EndSame, counted-EndSame, same_ends,
}

module _ {V : Type 0} where
  -- Each manager is one that can be made, and their protocols are the same.
  record IsAgreed (known : List (Packer V)) (m n : ProtoManager V) : Type 0 where
    pub one : Managing known m
    pub other : Managing known n
    pub same : SameProtos m.protos n.protos

  agreed :
      (known known' : List (Packer V)) (m n : ProtoManager V)
      → Managing known m
      → Managing known' n
      → (known ≡ known') × SameProtos m.protos n.protos
      → IsAgreed known m n
  agreed known known' m n a b (e, h) = record {
    one = a;
    other = subst (λ k. Managing k n) (sym e) b;
    same = h;
  }

  Paired-IsAgreed :
      (known : List (Packer V)) (m n : ProtoManager V) → Paired known m n → IsAgreed known m n
  unfolding add_static_protocol
  Paired-IsAgreed known m n (both_new k) = record {
    one = is_new k;
    other = is_new k;
    same = ((refl, refl, refl), tt);
  }
  Paired-IsAgreed known' m' n'
        (both_add {known = k} {known'' = k2} {m = m} {n = n} run a b path file i j before e f) =
      let h = Paired-IsAgreed k m n before in
      agreed known' k2 m' n' (adds (loader_of run a) path file (loaded_as i) h.one e)
        (adds (loader_of run b) path file (loaded_as j) h.other f)
        (same_ends (add_protocol (loader_of run a) path file k m)
          (add_protocol (loader_of run b) path file k n) known' k2 m' n' i j
          (add_protocol-EndSame run a b path file k m n h.same) e f)
  Paired-IsAgreed known' m' n'
        (both_add_static {known = k} {known'' = k2} {m = m} {n = n} run a b path file i j before e
          f) =
      let h = Paired-IsAgreed k m n before in
      agreed known' k2 m' n' (adds_static (loader_of run a) path file (loaded_as i) h.one e)
        (adds_static (loader_of run b) path file (loaded_as j) h.other f)
        (same_ends (add_static_protocol (loader_of run a) path file k m)
          (add_static_protocol (loader_of run b) path file k n) known' k2 m' n' i j
          (counted-EndSame (add_protocol (loader_of run a) path file k m)
            (add_protocol (loader_of run b) path file k n)
            (add_protocol-EndSame run a b path file k m n h.same))
          e f)
  Paired-IsAgreed known' m' n'
        (both_update {known = k} {known'' = k2} {m = m} {n = n} run a b place path file i j before e
          f) =
      let h = Paired-IsAgreed k m n before in
      agreed known' k2 m' n' (updates (loader_of run a) place path file (loaded_as i) h.one e)
        (updates (loader_of run b) place path file (loaded_as j) h.other f)
        (same_ends (update_at (loader_of run a) place path file k m)
          (update_at (loader_of run b) place path file k n) known' k2 m' n' i j
          (update_at-EndSame run a b place path file k m n h.same) e f)
  Paired-IsAgreed known' m n (both_add_type {known = k} run file before e) =
      let h = Paired-IsAgreed k m n before in
      record {
        one = adds_type run file h.one e;
        other = adds_type run file h.other e;
        same = h.same;
      }

  check_bytes_same : (es fs : List (Entry V)) → SameProtos es fs → check_bytes es ≡ check_bytes fs
  unfolding get_check_id
  check_bytes_same [] [] h = refl
  check_bytes_same [] (f ∷ fs) h = absurd h
  check_bytes_same (e ∷ es) [] h = absurd h
  check_bytes_same (e ∷ es) (f ∷ fs) ((same, names, args), h) =
      ap₂ (λ text bs. le_bytes 4 (calc_hashnr text) ++ bs)
        (ap₂ (λ name ps. name ++ args_text ps) names args) (check_bytes_same es fs h)

  -- Two ends that started alike and have loaded the same files with success, each with its own functions and
  -- as client or server, compute the same check id.
  pub get_ptos_checkid-Paired :
      (known : List (Packer V)) (m n : ProtoManager V)
      → Paired known m n
      → get_ptos_checkid m ≡ get_ptos_checkid n
  unfolding get_ptos_checkid
  get_ptos_checkid-Paired known m n h =
      ap calc_hashnr (check_bytes_same m.protos n.protos (Paired-IsAgreed known m n h).same)

  SameProtos-get_elem? :
      (es fs : List (Entry V)) (i : ℕ) (e f : Entry V)
      → SameProtos es fs
      → get_elem? es i ≡ some e
      → get_elem? fs i ≡ some f
      → SameWire e f
  SameProtos-get_elem? [] [] i e f h a b = cc
  SameProtos-get_elem? [] (y ∷ fs) i e f h a b = absurd h
  SameProtos-get_elem? (x ∷ es) [] i e f h a b = absurd h
  SameProtos-get_elem? (x ∷ es) (y ∷ fs) zero e f h a b =
      subst (λ z. SameWire z f) (same x e a) (subst (λ z. SameWire x z) (same y f b) h.0)
    where
      same : (z w : Entry V) → some z ≡ some w → z ≡ w
      same z w g = cc
  SameProtos-get_elem? (x ∷ es) (y ∷ fs) (suc i) e f h a b =
      SameProtos-get_elem? es fs i e f h.1 a b

module _ (lua : Lua) (call : List lua.Value → Bool) where
  marshal_same :
      (e f : Entry lua.Value) (vs : List lua.Value) (room : ℕ)
      → SameWire e f
      → marshal lua (net_protocol_of e) vs room ≡ marshal lua (net_protocol_of f) vs room
  unfolding marshal
  marshal_same e f vs room (same, names, args) =
      ap₂
        (λ i ps.
          marshal lua (record { id = i; args = args_of ps; has_unpack_ref = e.has_unpack_ref }) vs
            room)
        same args

  -- Two ends that started alike and have loaded the same files with success, each with its own functions and
  -- as client or server: what `marshal` writes at one for the values of a call of the protocol at a place from
  -- 1 to 65535, `unpack_data` reads at the other, with anything behind it, as a call of the function of the
  -- protocol at the same place with those values, and it reads just what was written, if that function is
  -- there and every argument is countable for its packer.
  pub unpack_data-marshal_ends :
      (known : List (Packer lua.Value)) (m n : ProtoManager lua.Value) (i : ℕ)
      (e f : Entry lua.Value) (vs : List lua.Value) (room : ℕ) (bs rest : List ℕ)
      → Paired known m n
      → get_elem? m.protos i ≡ some e
      → get_elem? n.protos i ≡ some f
      → 1 ≤ i
      → i < 2 ^ 16
      → f.has_unpack_ref ≡ true
      → AreCountable lua (args_of f.args) vs
      → marshal lua (net_protocol_of e) vs room ≡ packed bs
      → CallBack lua call
          (net_protocol_of f)
          vs
          (length bs)
          (unpack_data lua call (protos_of n.protos) (bs ++ rest))
  unpack_data-marshal_ends known m n i e f vs room bs rest path at there low high bound fits wrote =
      let h = Paired-IsAgreed known m n path in
      let wire = SameProtos-get_elem? m.protos n.protos i e f h.same at there in
      unpack_data-marshal_loaded lua call known n i f vs room bs rest h.other there low high bound
        fits (sym (marshal_same e f vs room wire) ∙ wrote)
