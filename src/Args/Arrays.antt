-- ===== src/Args/Arrays.antt =====
-- An array of `fcall_array_arg` of protocol/data_format.cpp, written and read again.
use simple_module.Base.{
  ℕ, ◌-◌, ◌^◌, ◌<◌, ◌≡◌, refl, sym, ap, subst, ◌∙◌, true, false, Bool, List, [], ◌∷◌, ◌++◌, length,
  arith, inl, inr, Bool-cases, ltb, ◌==◌, not, ◌&&◌, if◌then◌else◌,
}
use simple_module.Base.Word.{u8, u32}
use simple_module.Lua.{Lua}
use simple_module.Args.Scalar.{Packed, packed, rejected, unpacked, checked, is_negative, and_then}
use simple_module.Args.Strings.{checked-packed}
use simple_module.Args.Written.{and_then-packed, if-cases, rejected-packed}
use simple_module.Args.Items.{ReadBack, Refilled, unpack_items-pack_items}
use simple_module.Args.{
  Arg, array, rounds, pack_items, pack_counted, pack_array, pack, unpack_items, unpack_counted,
  unpack_array, unpack,
}
use simple_module.Args.Alike.{item_count, IsCountable, IsReadAs}

module _ (lua : Lua) where
  pack_counted-pack_items :
      (f : lua.Value → ℕ → Packed) (t : lua.Value) (n room : ℕ) (bs : List ℕ)
      → pack_counted lua f t n room ≡ packed bs
      → pack_items lua f t 1 (rounds n) room ≡ packed bs
  unfolding pack_counted
  pack_counted-pack_items f t n room bs =
      if-cases (not (is_negative n) && ltb 512 n) rejected (pack_items lua f t 1 (rounds n) room)
        (packed bs) (rejected-packed bs) (λ h. h)

  rounds-lt : (n : ℕ) → rounds n < 2 ^ 31
  rounds-lt n = ground arith

  module _ (base : Arg lua.Value)
      (back : (v : lua.Value) (room : ℕ) (bs rest : List ℕ)
        → IsCountable lua base v
        → pack lua base v room ≡ packed bs
        → ReadBack (unpack lua base) (IsReadAs lua base v) bs rest) where
    items-ReadBack :
        (t : lua.Value) (n room pos : ℕ) (bs rest : List ℕ)
        → ((j : ℕ) → IsCountable lua base (lua.raw_get t (lua.of_int j)))
        → n < 2 ^ 31
        → pack_items lua (pack lua base) t 1 n room ≡ packed bs
        → Refilled lua
            (IsCountable lua base)
            (IsReadAs lua base)
            (pack lua base)
            (unpack lua base)
            back
            t
            lua.new_table
            0
            n
            pos
            bs
            rest
    items-ReadBack t n room pos bs rest fits small h =
        unpack_items-pack_items lua (IsCountable lua base) (IsReadAs lua base) (pack lua base)
          (unpack lua base) back t lua.new_table 0 n room pos bs rest fits lua.new_table_is
          (omega arith) (λ j l. absurd (omega arith)) h

    sized-ReadBack :
        (v : lua.Value) (size room : ℕ) (bs rest : List ℕ)
        → IsCountable lua (array base size) v
        → (size == 0) ≡ false
        → pack_counted lua (pack lua base) v size room ≡ packed bs
        → ReadBack
            (unpack_array lua (unpack lua base) size)
            (IsReadAs lua (array base size) v)
            bs
            rest
    unfolding unpack_array
    sized-ReadBack v size room bs rest c e h =
        let r =
          items-ReadBack v (rounds size) room 0 bs rest c.1 (rounds-lt size)
            (pack_counted-pack_items (pack lua base) v size room bs h) in
        record {
          value = r.value;
          read = rw (e) (r.read ∙ ap (unpacked r.value) (omega arith));
          alike = (r.is_table, λ j l. r.same j (omega (arith, l, count)));
        }
      where
        count : item_count lua v size ≡ rounds size
        count = rw (e) refl

    counted-ReadBack :
        (v : lua.Value) (size room : ℕ) (bs rest : List ℕ)
        → IsCountable lua (array base size) v
        → (size == 0) ≡ true
        → and_then
            (checked (u8 (lua.objlen v) ∷ []) room)
            (λ len. pack_counted lua (pack lua base) v (u32 (lua.objlen v)) (room - len))
          ≡ packed bs
        → ReadBack
            (unpack_array lua (unpack lua base) size)
            (IsReadAs lua (array base size) v)
            bs
            rest
    unfolding unpack_array unpack_counted
    counted-ReadBack v size room bs rest c e h =
        let b = and_then-packed (checked (u8 n ∷ []) room) more bs h in
        let first = (checked-packed (u8 n ∷ []) b.first room b.wrote).0 in
        let r =
          items-ReadBack v n (room - length b.first) 1 b.second rest c.1 (omega (arith, few)) (
            subst
              (λ k. pack_items lua (pack lua base) v 1 k (room - length b.first) ≡ packed b.second)
              whole
              (pack_counted-pack_items (pack lua base) v (u32 n) (room - length b.first) b.second
                b.went_on)) in
        let all : bs ≡ u8 n ∷ b.second = b.both ∙ ap (λ cs. cs ++ b.second) (sym first) in
        record {
          value = r.value;
          read =
              rw (e, all)
                (ap (λ k. unpack_items lua (unpack lua base) lua.new_table 0 k 1 (b.second ++ rest))
                    {x = u8 n} {y = n} (omega (arith, few))
                  ∙ r.read
                  ∙ ap (unpacked r.value) (omega arith));
          alike = (r.is_table, λ j l. r.same j (omega (arith, l, count)));
        }
      where
        n : ℕ
        n = lua.objlen v

        more : ℕ → Packed
        more len = pack_counted lua (pack lua base) v (u32 n) (room - len)

        zero_size : (k : ℕ) → (k == 0) ≡ true → k ≡ 0
        zero_size k z = ground arith

        few : n < 256
        few = c.0 (zero_size size e)

        whole : rounds (u32 n) ≡ n
        whole = ground (arith, few)

        count : item_count lua v size ≡ n
        count = rw (e) refl

    pub array-ReadBack :
        (v : lua.Value) (size room : ℕ) (bs rest : List ℕ)
        → IsCountable lua (array base size) v
        → pack_array lua (pack lua base) v size room ≡ packed bs
        → ReadBack
            (unpack_array lua (unpack lua base) size)
            (IsReadAs lua (array base size) v)
            bs
            rest
    unfolding pack_array
    array-ReadBack v size room bs rest c h = elim (Bool-cases (size == 0)) [
      | inl e ↦ counted-ReadBack v size room bs rest c e (subst either e h)
      | inr e ↦ sized-ReadBack v size room bs rest c e (subst either e h)
    ]
      where
        either : Bool → Type 0
        either b =
            (if b
              then and_then (checked (u8 (lua.objlen v) ∷ []) room)
                  (λ len. pack_counted lua (pack lua base) v (u32 (lua.objlen v)) (room - len))
              else pack_counted lua (pack lua base) v size room)
            ≡ packed bs
