-- ===== src/Protocol/Counted.antt =====
-- The counts of the managers of protocol/protocol.cpp in every session of a script.
use simple_module.Base.{
  ℕ, suc, ◌+◌, ◌≤◌, ◌<◌, ◌^◌, ◌≡◌, refl, sym, subst, Bool, Option, some, List, inl, inr,
  Option-cases, arith,
}
use simple_module.Base.Word.{u64}
use simple_module.Base.Outcome.{Outcome, done, fault, stuck, ◌>>=◌}
use simple_module.Args.Format.{Packer, add_table_args}
use simple_module.Protocol.Manager.{
  ProtoManager, Managed, get_proto_manager, add_protocol, add_static_protocol, update_protocol,
  count_unpack,
}
use simple_module.Protocol.Numbered.{IsNumbered}
use simple_module.Protocol.Script.{
  Script, Userdata, object_of, other_value, Result, nothing_left, Method, add_arg_type,
  pto_add_protocol, pto_add_static_protocol, pto_update_protocol, get_check_sum, pto_stat,
  put_manager, after_managed, run_method, with_manager, call_method, create_manager, count_packed,
  count_read, bump_pack, unpack_total,
}
use simple_module.Protocol.Counts.{
  pack_sum, unpack_sum, EndsWithin, add_protocol-EndsWithin, update_protocol-EndsWithin,
  count_unpack-sums, count_unpack-IsNumbered, bump_pack-sums, bump_pack-IsNumbered,
}
use simple_module.Protocol.Sessions.{
  Session, opens, creates, runs, calls_packed, calls_read, call_count, IsCounted, put_manager-sums,
  put_manager-AreNumbered, get_proto_manager-IsNumbered,
}

module _ {V : Type 0} where
  -- The counts, and totals of no more than so many calls.
  record IsCountedIn (n : ℕ) (s : Script V) : Type 0 where
    pub counted : IsCounted s
    pub written : s.total_pack_count ≤ n
    pub read : s.total_unpack_count ≤ n

  abbrev EndsCounted : ℕ → Outcome (Script V × Result) → Type 0
  EndsCounted k (done t) = IsCountedIn k t.0
  EndsCounted k fault = Unit
  EndsCounted k stuck = Unit

  -- A manager that has changed, with more counted for the totals than for its protocols.
  put_manager-IsCounted :
      (s : Script V) (name : List ℕ) (m n : ProtoManager V) (known : List (Packer V))
      (p_total u_total : ℕ)
      → IsCounted s
      → get_proto_manager s.managers name ≡ some m
      → IsNumbered 0 n.protos
      → pack_sum n.protos + s.total_pack_count ≤ pack_sum m.protos + p_total
      → unpack_sum n.protos + s.total_unpack_count ≤ unpack_sum m.protos + u_total
      → IsCounted (record {
        known = known;
        managers = put_manager s.managers name n;
        total_pack_count = p_total;
        total_unpack_count = u_total;
      })
  put_manager-IsCounted s name m n known p_total u_total h e new p u =
      let sums = put_manager-sums s.managers name m n e in
      record {
        numbered = put_manager-AreNumbered s.managers name n h.numbered new;
        packs = omega (arith, sums.0, h.packs, p);
        unpacks = omega (arith, sums.1, h.unpacks, u);
      }

  after_managed-EndsCounted :
      (k : ℕ) (s : Script V) (name : List ℕ) (m : ProtoManager V) (r : Outcome (Managed V))
      → IsCountedIn k s
      → get_proto_manager s.managers name ≡ some m
      → EndsWithin m r
      → EndsCounted k (after_managed s name r)
  after_managed-EndsCounted k s name m (done (known, n, a)) h e w = record {
    counted =
        put_manager-IsCounted s name m n known s.total_pack_count s.total_unpack_count h.counted e
          w.numbered (omega (arith, w.packs)) (omega (arith, w.unpacks));
    written = h.written;
    read = h.read;
  }
  after_managed-EndsCounted k s name m fault h e w = tt
  after_managed-EndsCounted k s name m stuck h e w = tt

  known-EndsCounted :
      (k : ℕ) (s : Script V) (r : Outcome (List (Packer V)))
      → IsCountedIn k s
      → EndsCounted k (r >>= λ known. done (record s { known = known }, nothing_left))
  known-EndsCounted k s (done known) h = record {
    counted = record {
      numbered = h.counted.numbered;
      packs = h.counted.packs;
      unpacks = h.counted.unpacks;
    };
    written = h.written;
    read = h.read;
  }
  known-EndsCounted k s fault h = tt
  known-EndsCounted k s stuck h = tt

  run_method-EndsCounted :
      (k : ℕ) (s : Script V) (name : List ℕ) (m : ProtoManager V) (method : Method V)
      → IsCountedIn k s
      → get_proto_manager s.managers name ≡ some m
      → EndsCounted k (run_method s name m method)
  unfolding run_method
  run_method-EndsCounted k s name m (add_arg_type run file) h e =
      known-EndsCounted k s (add_table_args s.known run file) h
  run_method-EndsCounted k s name m (pto_add_protocol l path file) h e =
      after_managed-EndsCounted k s name m (add_protocol l path file s.known m) h e
        (add_protocol-EndsWithin l path file s.known m
          (get_proto_manager-IsNumbered s.managers name m h.counted.numbered e)).0
  run_method-EndsCounted k s name m (pto_add_static_protocol l path file) h e =
      after_managed-EndsCounted k s name m (add_static_protocol l path file s.known m) h e
        (add_protocol-EndsWithin l path file s.known m
          (get_proto_manager-IsNumbered s.managers name m h.counted.numbered e)).1
  run_method-EndsCounted k s name m (pto_update_protocol l place file) h e =
      after_managed-EndsCounted k s name m (update_protocol l place file s.known m) h e (
        update_protocol-EndsWithin l place file s.known m
          (get_proto_manager-IsNumbered s.managers name m h.counted.numbered e))
  run_method-EndsCounted k s name m get_check_sum h e = h
  run_method-EndsCounted k s name m pto_stat h e = h

  call_method-EndsCounted :
      (k : ℕ) (s : Script V) (u : Userdata) (method : Method V)
      → IsCountedIn k s
      → EndsCounted k (call_method s u method)
  unfolding call_method
  call_method-EndsCounted k s other_value method h = h
  call_method-EndsCounted k s (object_of name) method h =
      elim (Option-cases (get_proto_manager s.managers name)) [
        | inl e ↦ subst into (sym e) h
        | inr (m, e) ↦ subst into (sym e) (run_method-EndsCounted k s name m method h e)
      ]
    where
      into : Option (ProtoManager V) → Type 0
      into o = EndsCounted k (with_manager s name o (λ m. run_method s name m method))

  create_manager-IsCountedIn :
      (k : ℕ) (s : Script V) (name for_maker for_caller : List ℕ) (maker_nil caller_nil : Bool)
      → IsCountedIn k s
      → IsCountedIn k (create_manager s name for_maker for_caller maker_nil caller_nil).0
  unfolding create_manager
  create_manager-IsCountedIn k s name for_maker for_caller maker_nil caller_nil h =
      elim (Option-cases (get_proto_manager s.managers name)) [
        | inl e ↦ rw (e) (record {
          counted = record {
            numbered = ((refl, tt), h.counted.numbered);
            packs = omega (arith, h.counted.packs);
            unpacks = omega (arith, h.counted.unpacks);
          };
          written = h.written;
          read = h.read;
        })
        | inr (m, e) ↦ rw (e) (record {
          counted = record {
            numbered = h.counted.numbered;
            packs = h.counted.packs;
            unpacks = h.counted.unpacks;
          };
          written = h.written;
          read = h.read;
        })
      ]

  count_packed-IsCountedIn :
      (k : ℕ) (s : Script V) (name : List ℕ) (m : ProtoManager V) (i : ℕ)
      → suc k < 2 ^ 64
      → IsCountedIn k s
      → get_proto_manager s.managers name ≡ some m
      → IsCountedIn (suc k) (count_packed s name m i)
  count_packed-IsCountedIn k s name m i few h e =
      let sums = bump_pack-sums m.protos i in
      record {
        counted =
            put_manager-IsCounted s name m (record m { protos = bump_pack m.protos i }) s.known
              (u64 (suc s.total_pack_count)) s.total_unpack_count h.counted e
              (bump_pack-IsNumbered 0 i m.protos
                (get_proto_manager-IsNumbered s.managers name m h.counted.numbered e))
              (omega (arith, sums.0, h.written)) (omega (arith, sums.1));
        written = omega (arith, h.written);
        read = omega (arith, h.read);
      }

  count_read-IsCountedIn :
      (k : ℕ) (s : Script V) (name : List ℕ) (m : ProtoManager V) (buf : List ℕ)
      → suc k < 2 ^ 64
      → IsCountedIn k s
      → get_proto_manager s.managers name ≡ some m
      → IsCountedIn (suc k) (count_read s name m buf)
  unfolding count_read
  count_read-IsCountedIn k s name m buf few h e =
      let sums = count_unpack-sums m.protos buf s.total_unpack_count (omega (arith, h.read)) in
      record {
        counted =
            put_manager-IsCounted s name m (record m { protos = count_unpack m.protos buf }) s.known
              s.total_pack_count (unpack_total m.protos buf s.total_unpack_count) h.counted e
              (count_unpack-IsNumbered m.protos buf
                (get_proto_manager-IsNumbered s.managers name m h.counted.numbered e))
              (omega (arith, sums.2)) (omega (arith, sums.0));
        written = omega (arith, h.written);
        read = omega (arith, sums.1, h.read);
      }

  Session-IsCountedIn :
      (s : Script V) (t : Session s) → call_count t < 2 ^ 64 → IsCountedIn (call_count t) s
  Session-IsCountedIn s opens few = record {
    counted = record { numbered = tt; packs = omega arith; unpacks = omega arith };
    written = omega arith;
    read = omega arith;
  }
  Session-IsCountedIn s' (creates s name for_maker for_caller maker_nil caller_nil before) few =
      create_manager-IsCountedIn (call_count before) s name for_maker for_caller maker_nil
        caller_nil (Session-IsCountedIn s before few)
  Session-IsCountedIn s' (runs s s2 u method r before e) few =
      subst (EndsCounted (call_count before)) e
        (call_method-EndsCounted (call_count before) s u method (Session-IsCountedIn s before few))
  Session-IsCountedIn s' (calls_packed s name m i before e) few =
      count_packed-IsCountedIn (call_count before) s name m i few
        (Session-IsCountedIn s before (omega (arith, few))) e
  Session-IsCountedIn s' (calls_read s name m buf before e) few =
      count_read-IsCountedIn (call_count before) s name m buf few
        (Session-IsCountedIn s before (omega (arith, few))) e

  -- However managers are made, protocols and packers are added and updated by any of them, with whatever
  -- success, functions called with values that are no manager, and calls written and read, fewer than 2 ^ 64
  -- of them: in each manager the id of a protocol is its place, and the counts of all protocols together,
  -- which `stat` shows, are no more than its totals.
  pub Session-IsCounted : (s : Script V) (t : Session s) → call_count t < 2 ^ 64 → IsCounted s
  Session-IsCounted s t few = (Session-IsCountedIn s t few).counted
