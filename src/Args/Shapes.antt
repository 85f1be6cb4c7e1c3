-- ===== src/Args/Shapes.antt =====
-- The programs of `fcall_table_arg` in which each table that is begun is ended, and the outermost one last.
use simple_module.Base.{◌≡◌, refl, true, false, List, [], ◌∷◌, All}
use simple_module.Lua.{Lua}
use simple_module.Args.{
  Arg, Opcodes, none_left, tb_begin, tb_no_key, push_value, tb_end, is_none_left,
}

-- The fields of a table, in the order in which they are packed.
pub data Shape (V : Type 0) : Type 0 where
  shape_end : Shape V
  shape_value : V → Arg V → Shape V → Shape V
  shape_sub : V → Shape V → Shape V → Shape V

module _ {V : Type 0} where
  -- The program of a table that has been begun, and what is run after it.
  abbrev pub code : Shape V → Opcodes V → Opcodes V
  code shape_end next = tb_end next
  code (shape_value k a s) next = push_value k a (code s next)
  code (shape_sub k inner s) next = tb_begin k (code inner (code s next))

  pub is_none_left-code : (s : Shape V) (next : Opcodes V) → is_none_left (code s next) ≡ false
  is_none_left-code shape_end next = refl
  is_none_left-code (shape_value k a s) next = refl
  is_none_left-code (shape_sub k inner s) next = refl

  abbrev pub keys : Shape V → List V
  keys shape_end = []
  keys (shape_value k a s) = k ∷ keys s
  keys (shape_sub k inner s) = k ∷ keys s

  -- What holds of every packer of a program, and of a table.
  abbrev pub AllArgs : (Arg V → Type 0) → Opcodes V → Type 0
  AllArgs P none_left = Unit
  AllArgs P (tb_begin k ops) = AllArgs P ops
  AllArgs P (tb_no_key ops) = AllArgs P ops
  AllArgs P (push_value k a ops) = P a × AllArgs P ops
  AllArgs P (tb_end ops) = AllArgs P ops

  abbrev pub AllValues : (Arg V → Type 0) → Shape V → Type 0
  AllValues P shape_end = Unit
  AllValues P (shape_value k a s) = P a × AllValues P s
  AllValues P (shape_sub k inner s) = AllValues P inner × AllValues P s

  pub AllArgs-code :
      (P : Arg V → Type 0) (s : Shape V) (next : Opcodes V)
      → AllArgs P (code s next)
      → AllValues P s × AllArgs P next
  AllArgs-code P shape_end next h = (tt, h)
  AllArgs-code P (shape_value k a s) next h = let r = AllArgs-code P s next h.1 in ((h.0, r.0), r.1)
  AllArgs-code P (shape_sub k inner s) next h =
      let r = AllArgs-code P inner (code s next) h in
      let q = AllArgs-code P s next r.1 in ((r.0, q.0), q.1)

module _ (lua : Lua) where
  -- The keys of each table may be keys, and no two of them are equal.
  abbrev pub IsKeyed : Shape lua.Value → Type 0
  IsKeyed shape_end = Unit
  IsKeyed (shape_value k a s) =
      (lua.is_key k ≡ true) × All (λ j. lua.raw_equal k j ≡ false) (keys s) × IsKeyed s
  IsKeyed (shape_sub k inner s) =
      (lua.is_key k ≡ true)
      × All (λ j. lua.raw_equal k j ≡ false) (keys s)
      × IsKeyed inner
      × IsKeyed s

  -- A program that begins and ends its tables, with such keys.
  pub record IsNested (ops : Opcodes lua.Value) : Type 0 where
    pub shape : Shape lua.Value
    pub is_code : ops ≡ code shape none_left
    pub keyed : IsKeyed shape
