-- ===== src/Args/Items.antt =====
-- The loops of `fcall_array_arg`: the items of an array, written and read again.
use simple_module.Base.{
  ℕ, zero, suc, ◌+◌, ◌-◌, ◌^◌, ◌≤◌, ◌<◌, ◌≡◌, refl, sym, ap, subst, ◌∙◌, true, List, ◌++◌, length,
  drop, arith, length-append, drop-append_self, append_assoc, inl, inr, lt_or_le,
}
use simple_module.Lua.{Lua}
use simple_module.Args.Scalar.{Packed, packed, Unpacked, unpacked, used, advance}
use simple_module.Args.Written.{and_then-packed, used-packed, advance_some}
use simple_module.Args.{pack_items, unpack_items}

-- A value that is read back from the bytes `bs`, with more bytes behind them.
pub record ReadBack {V : Type 0} (g : List ℕ → Unpacked V) (R : V → Type 0) (bs rest : List ℕ)
    : Type 0 where
  pub value : V
  pub read : g (bs ++ rest) ≡ unpacked value (length bs)
  pub alike : R value

module _ (lua : Lua) (P : lua.Value → Type 0) (R : lua.Value → lua.Value → Type 0)
    (f : lua.Value → ℕ → Packed) (g : List ℕ → Unpacked lua.Value)
    (back : (v : lua.Value) (room : ℕ) (bs rest : List ℕ)
      → P v
      → f v room ≡ packed bs
      → ReadBack g (R v) bs rest) where
  -- The items with index 1 to `n` of one table and another.
  abbrev pub SameItems : lua.Value → lua.Value → ℕ → Type 0
  SameItems t u n =
      (j : ℕ) → j < n → R (lua.raw_get t (lua.of_int (j + 1))) (lua.raw_get u (lua.of_int (j + 1)))

  SameItems-raw_set :
      (t u v : lua.Value) (i : ℕ)
      → lua.is_table u ≡ true
      → i + 1 < 2 ^ 31
      → SameItems t u i
      → R (lua.raw_get t (lua.of_int (i + 1))) v
      → SameItems t (lua.raw_set u (lua.of_int (i + 1)) v) (i + 1)
  SameItems-raw_set t u v i tab small same new j h = elim (lt_or_le j i) [
    | inl a ↦
        subst (R (lua.raw_get t (lua.of_int (j + 1))))
          (sym
            (lua.raw_get-raw_set_ne u v (i + 1) (j + 1) tab small (omega arith) (λ e. omega arith)))
          (same j a)
    | inr a ↦
        subst
          (λ k.
            R (lua.raw_get t (lua.of_int (k + 1)))
              (lua.raw_get (lua.raw_set u (lua.of_int (i + 1)) v) (lua.of_int (k + 1))))
          {x = i} {y = j} (omega arith)
          (subst (R (lua.raw_get t (lua.of_int (i + 1))))
            (sym (lua.raw_get-raw_set_self u v (i + 1) tab)) new)
  ]

  pub record Refilled (t u : lua.Value) (i n pos : ℕ) (bs rest : List ℕ) : Type 0 where
    pub value : lua.Value
    pub read : unpack_items lua g u i n pos (bs ++ rest) ≡ unpacked value (pos + length bs)
    pub is_table : lua.is_table value ≡ true
    pub same : SameItems t value (i + n)

  unpack_items_step :
      (u v : lua.Value) (i n pos len : ℕ) (buf left : List ℕ)
      → g buf ≡ unpacked v len
      → 1 ≤ len
      → drop len buf ≡ left
      → unpack_items lua g u i (suc n) pos buf
        ≡ unpack_items lua g (lua.raw_set u (lua.of_int (i + 1)) v) (i + 1) n (pos + len) left
  unfolding unpack_items
  unpack_items_step u v i n pos len buf left read some_read cut =
      ap (λ r. advance r next) read
      ∙ advance_some v len next some_read
      ∙ ap (unpack_items lua g (lua.raw_set u (lua.of_int (i + 1)) v) (i + 1) n (pos + len)) cut
    where
      next : lua.Value → ℕ → Unpacked lua.Value
      next w m =
          unpack_items lua g (lua.raw_set u (lua.of_int (i + 1)) w) (i + 1) n (pos + m) (drop m buf)

  pub unpack_items-pack_items :
      (t u : lua.Value) (i n room pos : ℕ) (bs rest : List ℕ)
      → ((j : ℕ) → P (lua.raw_get t (lua.of_int j)))
      → lua.is_table u ≡ true
      → i + n < 2 ^ 31
      → SameItems t u i
      → pack_items lua f t (i + 1) n room ≡ packed bs
      → Refilled t u i n pos bs rest
  unfolding pack_items unpack_items
  unpack_items-pack_items t u i zero room pos bs rest fits tab small same h = record {
    value = u;
    read = ap (unpacked u) (omega (arith, empty));
    is_table = tab;
    same = subst (SameItems t u) {x = i} {y = i + 0} (omega arith) same;
  }
    where
      empty : length bs ≡ 0
      empty = ground arith
  unpack_items-pack_items t u i (suc n) room pos bs rest fits tab small same h =
      let item = lua.raw_get t (lua.of_int (i + 1)) in
      let b =
        and_then-packed (used (f item room)) (λ len. pack_items lua f t (i + 1 + 1) n (room - len))
          bs h in
      let wrote = used-packed (f item room) b.first b.wrote in
      let r = back item room b.first (b.second ++ rest) (fits (i + 1)) wrote.0 in
      let more =
        unpack_items-pack_items t (lua.raw_set u (lua.of_int (i + 1)) r.value) (i + 1) n
          (room - length b.first) (pos + length b.first) b.second rest fits
          (lua.raw_set_is u (lua.of_int (i + 1)) r.value tab) (omega arith)
          (SameItems-raw_set t u r.value i tab (omega arith) same r.alike) b.went_on in
      record {
        value = more.value;
        read =
            rw (b.both, append_assoc)
              (unpack_items_step u r.value i n pos (length b.first) (b.first ++ (b.second ++ rest))
                  (b.second ++ rest) r.read wrote.1
                  (drop-append_self (length b.first) b.first (b.second ++ rest) refl)
                ∙ more.read
                ∙ ap (unpacked more.value) (omega (arith, length-append b.first b.second)));
        is_table = more.is_table;
        same =
            subst (SameItems t more.value) {x = i + 1 + n} {y = i + suc n} (omega arith) more.same;
      }
