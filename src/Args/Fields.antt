-- ===== src/Args/Fields.antt =====
-- One field of a table of `fcall_table_arg` of protocol/data_format.cpp, written and read again.
use simple_module.Base.{
  ℕ, ◌+◌, ◌-◌, ◌≤◌, ◌≡◌, refl, sym, ap, subst, ◌∙◌, true, false, List, ◌∷◌, ◌++◌, length, drop,
  arith, length-append, append_assoc, All,
}
use simple_module.Lua.{Lua}
use simple_module.Args.Scalar.{packed, Unpacked, unpacked, advance}
use simple_module.Args.Written.{advance_some}
use simple_module.Args.Items.{ReadBack}
use simple_module.Args.{
  Arg, Opcodes, tb_begin, push_value, tb_end, pack, pack_opcodes, unpack, unpack_opcodes,
}
use simple_module.Args.Shapes.{Shape, code, keys, is_none_left-code}
use simple_module.Args.Alike.{IsCountable, IsReadAs, SameFields}

module _ (lua : Lua) where
  -- What the packer writes for a value it reads as that value.
  abbrev pub IsReadable : Arg lua.Value → Type 0
  IsReadable a =
      (v : lua.Value) (room : ℕ) (bs rest : List ℕ)
      → IsCountable lua a v
      → pack lua a v room ≡ packed bs
      → ReadBack (unpack lua a) (IsReadAs lua a v) bs rest

  -- The fields of `t` were written first, and setting what is read of them in `u` gives `value`.
  pub record FieldsBack (s : Shape lua.Value) (next : Opcodes lua.Value) (t : lua.Value)
      (ts : List lua.Value) (room : ℕ) (bs tail : List ℕ) (u : lua.Value) (stack : List lua.Value)
      (pos : ℕ) : Type 0 where
    pub first : List ℕ
    pub second : List ℕ
    pub went_on : pack_opcodes lua next ts (room - length first) ≡ packed second
    pub both : bs ≡ first ++ second
    pub value : lua.Value
    pub read :
        unpack_opcodes lua (code s next) (u ∷ stack) pos (bs ++ tail)
        ≡ unpack_opcodes lua (tb_end next) (value ∷ stack) (pos + length first) (second ++ tail)
    pub is_table : lua.is_table value ≡ true
    pub same : SameFields lua s t value
    pub kept :
        (j : lua.Value)
        → All (λ k. lua.raw_equal j k ≡ false) (keys s)
        → lua.raw_get value j ≡ lua.raw_get u j

  -- One value is read and set, where the program goes on.
  pub push_value_step :
      (k : lua.Value) (a : Arg lua.Value) (s : Shape lua.Value) (next : Opcodes lua.Value)
      (u v : lua.Value) (stack : List lua.Value) (pos len : ℕ) (buf left : List ℕ)
      → unpack lua a buf ≡ unpacked v len
      → 1 ≤ len
      → drop len buf ≡ left
      → unpack_opcodes lua (push_value k a (code s next)) (u ∷ stack) pos buf
        ≡ unpack_opcodes lua (code s next) (lua.raw_set u k v ∷ stack) (pos + len) left
  unfolding unpack_opcodes
  push_value_step k a s next u v stack pos len buf left read some_read cut =
      rw (is_none_left-code s next) (
        ap (λ r. advance r value_read) read
        ∙ advance_some v len value_read some_read
        ∙ ap (unpack_opcodes lua (code s next) (lua.raw_set u k v ∷ stack) (pos + len)) cut)
    where
      value_read : lua.Value → ℕ → Unpacked lua.Value
      value_read w m =
          unpack_opcodes lua (code s next) (lua.raw_set u k w ∷ stack) (pos + m) (drop m buf)

  -- A table is ended and set in the one around it, where the program goes on.
  pub tb_end_step :
      (s : Shape lua.Value) (next : Opcodes lua.Value) (k u v : lua.Value) (stack : List lua.Value)
      (pos : ℕ) (buf : List ℕ)
      → unpack_opcodes lua (tb_end (code s next)) (v ∷ k ∷ u ∷ stack) pos buf
        ≡ unpack_opcodes lua (code s next) (lua.raw_set u k v ∷ stack) pos buf
  unfolding unpack_opcodes
  tb_end_step s next k u v stack pos buf = rw (is_none_left-code s next) refl

  pub tb_begin_step :
      (inner s : Shape lua.Value) (next : Opcodes lua.Value) (k u : lua.Value)
      (stack : List lua.Value) (pos : ℕ) (buf : List ℕ)
      → unpack_opcodes lua (tb_begin k (code inner (code s next))) (u ∷ stack) pos buf
        ≡ unpack_opcodes lua (code inner (code s next)) (lua.new_table ∷ k ∷ u ∷ stack) pos buf
  unfolding unpack_opcodes
  tb_begin_step inner s next k u stack pos buf = rw (is_none_left-code inner (code s next)) refl

  -- What was set under a key is there, if the fields set after it have other keys.
  set_first :
      (u k v w : lua.Value)
      → lua.is_table u ≡ true
      → lua.is_key k ≡ true
      → lua.raw_get w k ≡ lua.raw_get (lua.raw_set u k v) k
      → v ≡ lua.raw_get w k
  set_first u k v w tab key e = sym (e ∙ lua.raw_get-raw_set_key u k v tab key)

  left_after :
      (ops : Opcodes lua.Value) (ts : List lua.Value) (room : ℕ) (xs ys bs : List ℕ)
      → pack_opcodes lua ops ts (room - length xs - length ys) ≡ packed bs
      → pack_opcodes lua ops ts (room - length (xs ++ ys)) ≡ packed bs
  left_after ops ts room xs ys bs =
      subst (λ n. pack_opcodes lua ops ts n ≡ packed bs) {x = room - length xs - length ys}
        {y = room - length (xs ++ ys)} (omega (arith, length-append xs ys))

  pos_after : (pos : ℕ) (xs ys : List ℕ) → pos + length xs + length ys ≡ pos + length (xs ++ ys)
  pos_after pos xs ys = omega (arith, length-append xs ys)

  -- The fields behind the first one.
  pub rest_back :
      (s : Shape lua.Value) (next : Opcodes lua.Value) (t : lua.Value) (ts : List lua.Value)
      (room : ℕ) (bs tail : List ℕ) (u v : lua.Value) (stack : List lua.Value) (pos : ℕ)
      (k : lua.Value) (xs ys : List ℕ) (whole : Shape lua.Value)
      → keys whole ≡ k ∷ keys s
      → lua.is_table u ≡ true
      → lua.is_key k ≡ true
      → All (λ j. lua.raw_equal k j ≡ false) (keys s)
      → bs ≡ xs ++ ys
      → unpack_opcodes lua (code whole next) (u ∷ stack) pos (bs ++ tail)
        ≡ unpack_opcodes lua
            (code s next)
            (lua.raw_set u k v ∷ stack)
            (pos + length xs)
            (ys ++ tail)
      → (more : FieldsBack s next t ts
          (room - length xs)
          ys
          tail
          (lua.raw_set u k v)
          stack
          (pos + length xs))
      → (v ≡ lua.raw_get more.value k → SameFields lua whole t more.value)
      → FieldsBack whole next t ts room bs tail u stack pos
  rest_back s next t ts room bs tail u v stack pos k xs ys whole names tab key apart cut step more
        alike =
      record {
        first = xs ++ more.first;
        second = more.second;
        went_on = left_after next ts room xs more.first more.second more.went_on;
        both = cut ∙ ap (λ zs. xs ++ zs) more.both ∙ sym (append_assoc xs more.first more.second);
        value = more.value;
        read =
            step
            ∙ more.read
            ∙ ap
                (λ n. unpack_opcodes lua (tb_end next) (more.value ∷ stack) n (more.second ++ tail))
                (pos_after pos xs more.first);
        is_table = more.is_table;
        same = alike (set_first u k v more.value tab key (more.kept k apart));
        kept = λ j all.
            let (other, others) = subst (All (λ i. lua.raw_equal j i ≡ false)) names all in
            more.kept j others ∙ lua.raw_get-raw_set_other u j k v tab key other;
      }
