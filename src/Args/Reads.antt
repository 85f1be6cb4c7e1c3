-- ===== src/Args/Reads.antt =====
-- How much the argument packers read, beside the length of the buffer.
use simple_module.Base.{
  ℕ, zero, suc, ◌+◌, ◌≤◌, ◌≡◌, Option, some, none, List, [], ◌∷◌, ◌==◌, length, drop, arith,
  length-drop,
}
use simple_module.Lua.{Lua}
use simple_module.Args.Scalar.{
  Unpacked, unpacked, refused, lost, advance, read_number, read_fixed, sign_extend,
  read_long_string, read_string,
}
use simple_module.Args.Written.{if-cases, advance-unpacked}
use simple_module.Args.{
  Arg, number, byte, word, dword, string, table, array, Opcodes, none_left, tb_begin, tb_no_key,
  push_value, tb_end, rounds, is_none_left, unpack_items, unpack_counted, unpack_array, left_on,
  set_table, after_set, unpack, unpack_opcodes,
}

module _ {V : Type 0} where
  pub refused-unpacked {ℓ} : {P : Type ℓ} (w : V) (n : ℕ) → refused ≡ unpacked w n → P
  refused-unpacked w n h = absurd (ground arith)

  pub lost-unpacked {ℓ} : {P : Type ℓ} (w : V) (n : ℕ) → lost ≡ unpacked w n → P
  lost-unpacked w n h = absurd (ground arith)

  read_number-le :
      (push : ℕ → V) (buf : List ℕ) (w : V) (n : ℕ)
      → read_number push buf ≡ unpacked w n
      → n ≤ length buf
  unfolding read_number
  read_number-le push [] w n h = refused-unpacked w n h
  read_number-le push (b ∷ bs) w n h = ground arith

  read_fixed-le :
      (push : ℕ → V) (k : ℕ) (widen : ℕ → ℕ) (buf : List ℕ) (w : V) (n : ℕ)
      → read_fixed push k widen buf ≡ unpacked w n
      → n ≤ length buf
  unfolding read_fixed
  read_fixed-le push k widen buf w n h = ground arith

  read_string-le :
      (push : List ℕ → V) (buf : List ℕ) (w : V) (n : ℕ)
      → read_string push buf ≡ unpacked w n
      → n ≤ length buf
  unfolding read_string read_long_string
  read_string-le push [] w n h = refused-unpacked w n h
  read_string-le push (b ∷ bs) w n h = ground arith

module _ (lua : Lua) where
  left_on-le :
      (stack : List lua.Value) (pos : ℕ) (w : lua.Value) (n : ℕ)
      → left_on lua stack pos ≡ unpacked w n
      → n ≡ pos
  left_on-le [] pos w n h = lost-unpacked w n h
  left_on-le (t ∷ []) pos w n h = ground arith
  left_on-le (t ∷ u ∷ stack) pos w n h = lost-unpacked w n h

  module _ (g : List ℕ → Unpacked lua.Value)
      (inside : (buf : List ℕ) (w : lua.Value) (n : ℕ)
        → g buf ≡ unpacked w n
        → n ≤ length buf) where
    unpack_items-le :
        (t : lua.Value) (i n pos : ℕ) (buf : List ℕ) (w : lua.Value) (m : ℕ)
        → unpack_items lua g t i n pos buf ≡ unpacked w m
        → m ≤ pos + length buf
    unfolding unpack_items
    unpack_items-le t i zero pos buf w m h = ground arith
    unpack_items-le t i (suc n) pos buf w m h =
        let a =
          advance-unpacked (g buf)
            (λ v len.
              unpack_items lua g (lua.raw_set t (lua.of_int (i + 1)) v) (i + 1) n (pos + len)
                (drop len buf))
            w m h in
        omega (
          arith,
          inside buf a.value a.len a.read,
          length-drop a.len buf,
          unpack_items-le (lua.raw_set t (lua.of_int (i + 1)) a.value) (i + 1) n (pos + a.len)
              (drop a.len buf) w m a.went_on,
        )

    unpack_counted-le :
        (buf : List ℕ) (w : lua.Value) (m : ℕ)
        → unpack_counted lua g buf ≡ unpacked w m
        → m ≤ length buf
    unfolding unpack_counted
    unpack_counted-le [] w m h = refused-unpacked w m h
    unpack_counted-le (n ∷ bs) w m h = omega (arith, unpack_items-le lua.new_table 0 n 1 bs w m h)

    unpack_array-le :
        (size : ℕ) (buf : List ℕ) (w : lua.Value) (m : ℕ)
        → unpack_array lua g size buf ≡ unpacked w m
        → m ≤ length buf
    unfolding unpack_array
    unpack_array-le size buf w m =
        if-cases (size == 0) (unpack_counted lua g buf)
          (unpack_items lua g lua.new_table 0 (rounds size) 0 buf) (unpacked w m)
          (unpack_counted-le buf w m)
          (λ h. omega (arith, unpack_items-le lua.new_table 0 (rounds size) 0 buf w m h))

  after_set-cases {ℓ} :
      {P : Type ℓ} (o : Option (List lua.Value)) (next : List lua.Value → Unpacked lua.Value)
      (w : lua.Value) (n : ℕ)
      → ((s : List lua.Value) → next s ≡ unpacked w n → P)
      → after_set lua o next ≡ unpacked w n
      → P
  after_set-cases none next w n k h = lost-unpacked w n h
  after_set-cases (some s) next w n k h = k s h

  mutual
    unfolding unpack

    unpack-le_arg :
        (a : Arg lua.Value) (buf : List ℕ) (w : lua.Value) (n : ℕ)
        → unpack lua a buf ≡ unpacked w n
        → n ≤ length buf
    unpack-le_arg number buf w n = read_number-le lua.of_int buf w n
    unpack-le_arg byte buf w n = read_fixed-le lua.of_int 1 (λ x. x) buf w n
    unpack-le_arg word buf w n = read_fixed-le lua.of_int 2 sign_extend buf w n
    unpack-le_arg dword buf w n = read_fixed-le lua.of_int 4 (λ x. x) buf w n
    unpack-le_arg string buf w n = read_string-le lua.of_string buf w n
    unpack-le_arg (table ops) buf w n =
        λ h. omega (arith, unpack_opcodes-le ops (lua.new_table ∷ []) 0 buf w n h)
    unpack-le_arg (array base size) buf w n =
        unpack_array-le (unpack lua base) (unpack-le_arg base) size buf w n

    unpack_opcodes-le :
        (ops : Opcodes lua.Value) (stack : List lua.Value) (pos : ℕ) (buf : List ℕ) (w : lua.Value)
        (n : ℕ)
        → unpack_opcodes lua ops stack pos buf ≡ unpacked w n
        → n ≤ pos + length buf
    unpack_opcodes-le none_left stack pos buf w n = lost-unpacked w n
    unpack_opcodes-le (tb_begin k ops) stack pos buf w n =
        if-cases (is_none_left ops) (left_on lua stack pos)
          (unpack_opcodes lua ops (lua.new_table ∷ k ∷ stack) pos buf) (unpacked w n)
          (λ h. omega (arith, left_on-le stack pos w n h))
          (unpack_opcodes-le ops (lua.new_table ∷ k ∷ stack) pos buf w n)
    unpack_opcodes-le (tb_no_key ops) stack pos buf w n =
        if-cases (is_none_left ops) (left_on lua stack pos) lost (unpacked w n)
          (λ h. omega (arith, left_on-le stack pos w n h)) (lost-unpacked w n)
    unpack_opcodes-le (push_value k a ops) stack pos buf w n =
        if-cases (is_none_left ops) (left_on lua stack pos)
          (advance (unpack lua a buf) (λ v len. value_pushed v len)) (unpacked w n)
          (λ h. omega (arith, left_on-le stack pos w n h))
          (λ h.
            let a' = advance-unpacked (unpack lua a buf) (λ v len. value_pushed v len) w n h in
            after_set-cases (set_table lua (a'.value ∷ k ∷ stack))
              (λ s. unpack_opcodes lua ops s (pos + a'.len) (drop a'.len buf)) w n
              (λ s c. omega (
                arith,
                unpack-le_arg a buf a'.value a'.len a'.read,
                length-drop a'.len buf,
                unpack_opcodes-le ops s (pos + a'.len) (drop a'.len buf) w n c,
              ))
              a'.went_on)
      where
        value_pushed : lua.Value → ℕ → Unpacked lua.Value
        value_pushed v len =
            after_set lua (set_table lua (v ∷ k ∷ stack))
              (λ s. unpack_opcodes lua ops s (pos + len) (drop len buf))
    unpack_opcodes-le (tb_end ops) stack pos buf w n =
        if-cases (is_none_left ops) (left_on lua stack pos)
          (after_set lua (set_table lua stack) (λ s. unpack_opcodes lua ops s pos buf))
          (unpacked w n) (λ h. omega (arith, left_on-le stack pos w n h))
          (after_set-cases (set_table lua stack) (λ s. unpack_opcodes lua ops s pos buf) w n
            (λ s c. unpack_opcodes-le ops s pos buf w n c))

  -- Whatever a packer reads, tables of named fields included, is no longer than the buffer.
  pub unpack-le :
      (a : Arg lua.Value) (buf : List ℕ) (w : lua.Value) (n : ℕ)
      → unpack lua a buf ≡ unpacked w n
      → n ≤ length buf
  unpack-le = unpack-le_arg
