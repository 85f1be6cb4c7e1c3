-- ===== src/Args/Tables.antt =====
-- The fields of a table of `fcall_table_arg`, written and read again.
use simple_module.Base.{
  ℕ, ◌+◌, ◌-◌, ◌≡◌, refl, sym, ap, subst, ◌∙◌, true, List, [], ◌∷◌, ◌++◌, length, arith,
  length-append, drop-append_self, append_assoc,
}
use simple_module.Lua.{Lua}
use simple_module.Args.Scalar.{packed, raised, unpacked, used}
use simple_module.Args.Written.{and_then-packed, used-packed, if-cases, raised-packed}
use simple_module.Args.Items.{ReadBack}
use simple_module.Args.{
  table, Opcodes, none_left, push_value, tb_end, pack, pack_opcodes, unpack_opcodes,
}
use simple_module.Args.Shapes.{
  Shape, shape_end, shape_value, shape_sub, code, AllArgs, AllValues, AllArgs-code, IsKeyed,
}
use simple_module.Args.Alike.{
  IsCountable, AreCountableFields, IsReadAs, AreFieldsReadAs, FieldsFit, SameFields,
  AreCountableFields-FieldsFit, SameFields-AreFieldsReadAs,
}
use simple_module.Args.Fields.{
  IsReadable, FieldsBack, push_value_step, tb_end_step, tb_begin_step, rest_back,
}

module _ (lua : Lua) where
  fields_back :
      (s : Shape lua.Value) (next : Opcodes lua.Value) (t : lua.Value) (ts : List lua.Value)
      (room : ℕ) (bs tail : List ℕ) (u : lua.Value) (stack : List lua.Value) (pos : ℕ)
      → AllValues (IsReadable lua) s
      → FieldsFit lua s t
      → IsKeyed lua s
      → lua.is_table u ≡ true
      → pack_opcodes lua (code s next) (t ∷ ts) room ≡ packed bs
      → FieldsBack lua s next t ts room bs tail u stack pos
  unfolding pack_opcodes
  fields_back shape_end next t ts room bs tail u stack pos readable fits keyed tab h = record {
    first = [];
    second = bs;
    went_on =
        subst (λ n. pack_opcodes lua next ts n ≡ packed bs) {x = room} {y = room - 0} (omega arith)
          h;
    both = refl;
    value = u;
    read = ap (λ n. unpack_opcodes lua (tb_end next) (u ∷ stack) n (bs ++ tail)) (omega arith);
    is_table = tab;
    same = tt;
    kept = λ j all. refl;
  }
  fields_back (shape_value k a s) next t ts room bs tail u stack pos readable fits keyed tab h =
      let b =
        and_then-packed (used (pack lua a (lua.raw_get t k) room))
          (λ len. pack_opcodes lua (code s next) (t ∷ ts) (room - len)) bs h in
      let wrote = used-packed (pack lua a (lua.raw_get t k) room) b.first b.wrote in
      let r = readable.0 (lua.raw_get t k) room b.first (b.second ++ tail) fits.0 wrote.0 in
      let more =
        fields_back s next t ts (room - length b.first) b.second tail (lua.raw_set u k r.value)
          stack (pos + length b.first) readable.1 fits.1 keyed.2 (lua.raw_set_is u k r.value tab)
          b.went_on in
      rest_back lua s next t ts room bs tail u r.value stack pos k b.first b.second
        (shape_value k a s) refl tab keyed.0 keyed.1 b.both
        (ap (λ buf. unpack_opcodes lua (push_value k a (code s next)) (u ∷ stack) pos buf)
            (ap (λ cs. cs ++ tail) b.both ∙ append_assoc b.first b.second tail)
          ∙ push_value_step lua k a s next u r.value stack pos (length b.first)
              (b.first ++ (b.second ++ tail)) (b.second ++ tail) r.read wrote.1
              (drop-append_self (length b.first) b.first (b.second ++ tail) refl))
        more (λ e. (subst (IsReadAs lua a (lua.raw_get t k)) e r.alike, more.same))
  fields_back (shape_sub k inner s) next t ts room bs tail u stack pos readable fits keyed tab h =
      if-cases (lua.is_table (lua.raw_get t k))
        (pack_opcodes lua (code inner (code s next)) (lua.raw_get t k ∷ t ∷ ts) room) raised
        (packed bs)
        (λ h.
          let sub =
            fields_back inner (code s next) (lua.raw_get t k) (t ∷ ts) room bs tail lua.new_table
              (k ∷ u ∷ stack) pos readable.0 fits.0 keyed.2 lua.new_table_is h in
          let more =
            fields_back s next t ts (room - length sub.first) sub.second tail
              (lua.raw_set u k sub.value) stack (pos + length sub.first) readable.1 fits.1 keyed.3
              (lua.raw_set_is u k sub.value tab) sub.went_on in
          rest_back lua s next t ts room bs tail u sub.value stack pos k sub.first sub.second
            (shape_sub k inner s) refl tab keyed.0 keyed.1 sub.both
            (tb_begin_step lua inner s next k u stack pos (bs ++ tail)
              ∙ sub.read
              ∙ tb_end_step lua s next k u sub.value stack (pos + length sub.first)
                  (sub.second ++ tail))
            more
            (λ e. (
              subst (λ w. lua.is_table w ≡ true) e sub.is_table,
              subst (SameFields lua inner (lua.raw_get t k)) e sub.same,
              more.same,
            )))
        (raised-packed bs) h

  last_tb_end :
      (w : lua.Value) (n : ℕ) (buf : List ℕ)
      → unpack_opcodes lua (tb_end none_left) (w ∷ []) n buf ≡ unpacked w n
  unfolding unpack_opcodes
  last_tb_end w n buf = refl

  none_left-empty :
      (room : ℕ) (ds : List ℕ) → pack_opcodes lua none_left [] room ≡ packed ds → ds ≡ []
  unfolding pack_opcodes
  none_left-empty room ds e = ground arith

  size_of_first : (bs xs ys : List ℕ) → bs ≡ xs ++ ys → ys ≡ [] → 0 + length xs ≡ length bs
  size_of_first bs xs ys e f = omega (arith, ap length e, length-append xs ys, ap length f)

  -- A table by the shape of its program, if each of its packers reads what it writes.
  pub shape-ReadBack :
      (s : Shape lua.Value) (v : lua.Value) (room : ℕ) (bs rest : List ℕ)
      → AllValues (IsReadable lua) s
      → FieldsFit lua s v
      → IsKeyed lua s
      → pack_opcodes lua (code s none_left) (v ∷ []) room ≡ packed bs
      → ReadBack
          (unpack_opcodes lua (code s none_left) (lua.new_table ∷ []) 0)
          (λ w. (lua.is_table w ≡ true) × SameFields lua s v w)
          bs
          rest
  shape-ReadBack s v room bs rest readable fits keyed h =
      let back =
        fields_back s none_left v [] room bs rest lua.new_table [] 0 readable fits keyed
          lua.new_table_is h in
      record {
        value = back.value;
        read =
            back.read
            ∙ last_tb_end back.value (0 + length back.first) (back.second ++ rest)
            ∙ ap (unpacked back.value) (
                size_of_first bs back.first back.second back.both
                  (none_left-empty _ back.second back.went_on));
        alike = (back.is_table, back.same);
      }

  -- A table whose program is nested.
  pub table-ReadBack :
      (ops : Opcodes lua.Value) (v : lua.Value) (room : ℕ) (bs rest : List ℕ)
      → AllArgs (IsReadable lua) ops
      → IsCountable lua (table ops) v
      → pack_opcodes lua ops (v ∷ []) room ≡ packed bs
      → ReadBack
          (unpack_opcodes lua ops (lua.new_table ∷ []) 0)
          (IsReadAs lua (table ops) v)
          bs
          rest
  table-ReadBack ops v room bs rest readable (nested, fits) h =
      let s = nested.shape in
      let back =
        shape-ReadBack s v room bs rest
          (AllArgs-code (IsReadable lua) s none_left
            (subst (AllArgs (IsReadable lua)) nested.is_code readable)).0
          (AreCountableFields-FieldsFit lua s none_left v []
            (subst (λ o. AreCountableFields lua o (v ∷ [])) nested.is_code fits)).0
          nested.keyed
          (subst (λ o. pack_opcodes lua o (v ∷ []) room ≡ packed bs) nested.is_code h) in
      record {
        value = back.value;
        read =
            subst
              (λ o.
                unpack_opcodes lua o (lua.new_table ∷ []) 0 (bs ++ rest)
                ≡ unpacked back.value (length bs))
              (sym nested.is_code) back.read;
        alike = (
          back.alike.0,
          subst (λ o. AreFieldsReadAs lua o (v ∷ []) (back.value ∷ [])) (sym nested.is_code)
              (SameFields-AreFieldsReadAs lua s none_left v back.value [] [] back.alike.1 tt),
        );
      }
