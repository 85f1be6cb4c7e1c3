-- ===== src/Protocol/Sessions.antt =====
-- The sessions of a script with the managers of protocol/protocol.cpp.
use simple_module.Base.{
  ℕ, suc, ◌+◌, ◌≤◌, ◌≡◌, ap, subst, Bool, none, some, List, [], ◌∷◌, if◌then◌else◌, inl, inr,
  Bool-cases, arith,
}
use simple_module.Base.Outcome.{done}
use simple_module.Args.Format.{same_text}
use simple_module.Protocol.Manager.{ProtoManager, ManagerMap, get_proto_manager}
use simple_module.Protocol.Numbered.{IsNumbered}
use simple_module.Protocol.Script.{
  Script, Userdata, Result, Method, put_manager, call_method, create_manager, count_packed,
  count_read,
}
use simple_module.Protocol.Counts.{pack_sum, unpack_sum}

module _ {V : Type 0} where
  -- Managers are made, their functions are called with any values, and calls are written and read.
  pub data Session : Script V → Type 0 where
    opens :
        Session (record { known = []; managers = []; total_pack_count = 0; total_unpack_count = 0 })
    creates :
        (s : Script V) (name for_maker for_caller : List ℕ) (maker_nil caller_nil : Bool)
        → Session s
        → Session (create_manager s name for_maker for_caller maker_nil caller_nil).0
    runs :
        (s s' : Script V) (u : Userdata) (method : Method V) (r : Result)
        → Session s
        → call_method s u method ≡ done (s', r)
        → Session s'
    calls_packed :
        (s : Script V) (name : List ℕ) (m : ProtoManager V) (i : ℕ)
        → Session s
        → get_proto_manager s.managers name ≡ some m
        → Session (count_packed s name m i)
    calls_read :
        (s : Script V) (name : List ℕ) (m : ProtoManager V) (buf : List ℕ)
        → Session s
        → get_proto_manager s.managers name ≡ some m
        → Session (count_read s name m buf)

  -- How many calls a session writes and reads.
  abbrev pub call_count : {s : Script V} → Session s → ℕ
  call_count opens = 0
  call_count (creates s name for_maker for_caller maker_nil caller_nil before) = call_count before
  call_count (runs s s' u method r before e) = call_count before
  call_count (calls_packed s name m i before e) = suc (call_count before)
  call_count (calls_read s name m buf before e) = suc (call_count before)

  abbrev pub pack_sums : ManagerMap V → ℕ
  pack_sums [] = 0
  pack_sums ((k, m) ∷ map) = pack_sum m.protos + pack_sums map

  abbrev pub unpack_sums : ManagerMap V → ℕ
  unpack_sums [] = 0
  unpack_sums ((k, m) ∷ map) = unpack_sum m.protos + unpack_sums map

  abbrev pub AreNumbered : ManagerMap V → Type 0
  AreNumbered [] = Unit
  AreNumbered ((k, m) ∷ map) = IsNumbered 0 m.protos × AreNumbered map

  -- In each manager the id of a protocol is its place, and all counts together are no more than the totals.
  pub record IsCounted (s : Script V) : Type 0 where
    pub numbered : AreNumbered s.managers
    pub packs : pack_sums s.managers ≤ s.total_pack_count
    pub unpacks : unpack_sums s.managers ≤ s.total_unpack_count

  -- A manager in the map, and the map with another one in its place.
  pub put_manager-sums :
      (map : ManagerMap V) (name : List ℕ) (m n : ProtoManager V)
      → get_proto_manager map name ≡ some m
      → (pack_sums (put_manager map name n) + pack_sum m.protos ≡ pack_sums map + pack_sum n.protos)
        × (unpack_sums (put_manager map name n) + unpack_sum m.protos
            ≡ unpack_sums map + unpack_sum n.protos)
  unfolding get_proto_manager
  put_manager-sums [] name m n e = absurd (none-some e)
    where
      none-some : none ≡ some m → ⊥
      none-some f = cc
  put_manager-sums ((k, x) ∷ map) name m n e = elim (Bool-cases (same_text k name)) [
    | inl t ↦
        let same = found (subst at t e) in
        rw (t) (
          omega (arith, ap (λ (y : ProtoManager V). pack_sum y.protos) same),
          omega (arith, ap (λ (y : ProtoManager V). unpack_sum y.protos) same),
        )
    | inr t ↦
        let h = put_manager-sums map name m n (subst at t e) in
        rw (t) (omega (arith, h.0), omega (arith, h.1))
  ]
    where
      at : Bool → Type 0
      at t = (if t then some x else get_proto_manager map name) ≡ some m

      found : some x ≡ some m → x ≡ m
      found f = cc

  pub put_manager-AreNumbered :
      (map : ManagerMap V) (name : List ℕ) (n : ProtoManager V)
      → AreNumbered map
      → IsNumbered 0 n.protos
      → AreNumbered (put_manager map name n)
  put_manager-AreNumbered [] name n h new = tt
  put_manager-AreNumbered ((k, x) ∷ map) name n h new = elim (Bool-cases (same_text k name)) [
    | inl t ↦ rw (t) (new, h.1)
    | inr t ↦ rw (t) (h.0, put_manager-AreNumbered map name n h.1 new)
  ]

  pub get_proto_manager-IsNumbered :
      (map : ManagerMap V) (name : List ℕ) (m : ProtoManager V)
      → AreNumbered map
      → get_proto_manager map name ≡ some m
      → IsNumbered 0 m.protos
  unfolding get_proto_manager
  get_proto_manager-IsNumbered [] name m h e = cc
  get_proto_manager-IsNumbered ((k, x) ∷ map) name m h e = elim (Bool-cases (same_text k name)) [
    | inl t ↦ subst (λ (y : ProtoManager V). IsNumbered 0 y.protos) (found (subst at t e)) h.0
    | inr t ↦ get_proto_manager-IsNumbered map name m h.1 (subst at t e)
  ]
    where
      at : Bool → Type 0
      at t = (if t then some x else get_proto_manager map name) ≡ some m

      found : some x ≡ some m → x ≡ m
      found f = cc
