-- ===== src/Args.antt =====
-- The argument packers of protocol/data_format.cpp and protocol/include/data_format.h: each turns a Lua
-- value into bytes and bytes into a Lua value.
pub mod Scalar
pub mod Numbers
pub mod Strings
pub mod Written
pub mod Bounds
pub mod Reads
pub mod Items
pub mod Shapes
pub mod Alike
pub mod Arrays
pub mod Fields
pub mod Tables
pub mod RoundTrip
pub mod Enough
pub mod Total
pub mod Format
pub mod Texts
pub mod Travels
pub mod Descriptions
pub mod Loaded
pub mod Nesting
pub mod Described
mod FormatTests
mod DescribedTests
mod Tests
use simple_module.Base.{
  ℕ, zero, suc, ◌+◌, ◌-◌, Bool, true, false, Option, some, none, List, [], ◌∷◌, ltb, ◌==◌, ◌&&◌,
  not, if◌then◌else◌, length, drop,
}
use simple_module.Base.Word.{u8, u32, le_bytes, le_value}
use simple_module.Lua.{Lua}
use Scalar.{
  Packed, packed, rejected, raised, astray, Unpacked, unpacked, refused, lost, number_bytes,
  string_bytes, checked, advance, read_number, read_fixed, sign_extend, read_string, used, and_then,
  is_negative,
}

-- `fcall_base_arg` and its subclasses, and `_opcodes`, where the key stands for its `key_ref`, and
-- `tb_no_key` is a `tb_begin` whose `key_ref` is `LUA_NOREF`; the size of an array is the pattern of an
-- `int`.
mutual
  pub data Arg (V : Type 0) : Type 0 where
    number byte word dword string : Arg V
    table : Opcodes V → Arg V
    array : Arg V → ℕ → Arg V

  pub data Opcodes (V : Type 0) : Type 0 where
    none_left : Opcodes V
    tb_begin : V → Opcodes V → Opcodes V
    tb_no_key : Opcodes V → Opcodes V
    push_value : V → Arg V → Opcodes V → Opcodes V
    tb_end : Opcodes V → Opcodes V

abbrev pub is_none_left : {V : Type 0} → Opcodes V → Bool
is_none_left none_left = true
is_none_left (tb_begin k ops) = false
is_none_left (tb_no_key ops) = false
is_none_left (push_value k a ops) = false
is_none_left (tb_end ops) = false

-- A counted loop of an `int` from 0 or 1 on: a negative bound is no round.
abbrev pub rounds : ℕ → ℕ
rounds n = if is_negative n then 0 else n

module _ (lua : Lua) where
  abbrev pub pack_int : Option ℕ → (ℕ → List ℕ) → ℕ → Packed
  pack_int none bytes room = raised
  pack_int (some w) bytes room = checked (bytes w) room

  abbrev pub pack_string : Option (List ℕ) → ℕ → Packed
  pack_string none room = raised
  pack_string (some s) room = string_bytes s room

  -- The loop of `fcall_array_arg::pack` from index `i`, with `n` rounds left.
  unfoldable pub pack_items : (lua.Value → ℕ → Packed) → lua.Value → ℕ → ℕ → ℕ → Packed
  pack_items pack_base t i zero room = packed []
  pack_items pack_base t i (suc n) room =
      and_then (used (pack_base (lua.raw_get t (lua.of_int i)) room))
        (λ len. pack_items pack_base t (i + 1) n (room - len))

  -- `fcall_array_arg::pack`, where `array_len` is `_size` or the length of the table.
  unfoldable pub pack_counted : (lua.Value → ℕ → Packed) → lua.Value → ℕ → ℕ → Packed
  pack_counted pack_base t array_len room =
      if not (is_negative array_len) && ltb 512 array_len
      then rejected
      else pack_items pack_base t 1 (rounds array_len) room

  unfoldable pub pack_array : (lua.Value → ℕ → Packed) → lua.Value → ℕ → ℕ → Packed
  unfolding pack_counted
  pack_array pack_base t size room =
      if size == 0
      then and_then (checked (u8 (lua.objlen t) ∷ []) room)
          (λ len. pack_counted pack_base t (u32 (lua.objlen t)) (room - len))
      else pack_counted pack_base t size room

  -- The argument `room` is `buf_len`; the stack of `pack_opcodes` is what the call has pushed, the top
  -- first.
  unfoldable mutual
    pub pack : Arg lua.Value → lua.Value → ℕ → Packed
    pack number v room = pack_int (lua.as_int v) number_bytes room
    pack byte v room = pack_int (lua.as_int v) (le_bytes 1) room
    pack word v room = pack_int (lua.as_int v) (le_bytes 2) room
    pack dword v room = pack_int (lua.as_int v) (le_bytes 4) room
    pack string v room = pack_string (lua.as_string v) room
    pack (table ops) v room = if lua.is_table v then pack_opcodes ops (v ∷ []) room else raised
    pack (array base size) v room =
        if lua.is_table v then pack_array (pack base) v size room else raised

    pub pack_opcodes : Opcodes lua.Value → List lua.Value → ℕ → Packed
    pack_opcodes none_left stack room = packed []
    pack_opcodes (tb_begin k ops) [] room = astray
    pack_opcodes (tb_begin k ops) (t ∷ stack) room =
        if lua.is_table (lua.raw_get t k)
        then pack_opcodes ops (lua.raw_get t k ∷ t ∷ stack) room
        else raised
    pack_opcodes (tb_no_key ops) stack room = astray
    pack_opcodes (push_value k arg ops) [] room = astray
    pack_opcodes (push_value k arg ops) (t ∷ stack) room =
        and_then (used (pack arg (lua.raw_get t k) room))
          (λ len. pack_opcodes ops (t ∷ stack) (room - len))
    pack_opcodes (tb_end ops) [] room = astray
    pack_opcodes (tb_end ops) (t ∷ stack) room = pack_opcodes ops stack room

  -- The loop of `fcall_array_arg::unpack` at index `i`, with `n` rounds left; `pos` is `readed_len`, and
  -- `buf` the bytes from there on.
  unfoldable pub unpack_items :
      (List ℕ → Unpacked lua.Value) → lua.Value → ℕ → ℕ → ℕ → List ℕ → Unpacked lua.Value
  unpack_items unpack_base t i zero pos buf = unpacked t pos
  unpack_items unpack_base t i (suc n) pos buf = advance (unpack_base buf) (λ v len.
      unpack_items unpack_base (lua.raw_set t (lua.of_int (i + 1)) v) (i + 1) n (pos + len)
        (drop len buf))

  -- With the number of items in the first byte.
  unfoldable pub unpack_counted : (List ℕ → Unpacked lua.Value) → List ℕ → Unpacked lua.Value
  unfolding unpack_items
  unpack_counted unpack_base [] = refused
  unpack_counted unpack_base (n ∷ bs) = unpack_items unpack_base lua.new_table 0 n 1 bs

  unfoldable pub unpack_array : (List ℕ → Unpacked lua.Value) → ℕ → List ℕ → Unpacked lua.Value
  unfolding unpack_items unpack_counted
  unpack_array unpack_base size buf =
      if size == 0
      then unpack_counted unpack_base buf
      else unpack_items unpack_base lua.new_table 0 (rounds size) 0 buf

  -- What the call leaves on the stack is its value only if each table was ended.
  abbrev pub left_on : List lua.Value → ℕ → Unpacked lua.Value
  left_on [] pos = lost
  left_on (t ∷ []) pos = unpacked t pos
  left_on (t ∷ u ∷ stack) pos = lost

  -- `lua_settable(L, -3)`: the value and the key are popped and set in the table below them.
  abbrev pub set_table : List lua.Value → Option (List lua.Value)
  set_table (v ∷ k ∷ t ∷ stack) = some (lua.raw_set t k v ∷ stack)
  set_table _ = none

  abbrev pub after_set :
      Option (List lua.Value) → (List lua.Value → Unpacked lua.Value) → Unpacked lua.Value
  after_set none next = lost
  after_set (some s) next = next s

  -- The last opcode is not run: where there is none, `_opcodes.size()-1` is the largest `size_t` and the
  -- loop runs past the vector.
  unfoldable mutual
    pub unpack : Arg lua.Value → List ℕ → Unpacked lua.Value
    unpack number buf = read_number lua.of_int buf
    unpack byte buf = read_fixed lua.of_int 1 (λ w. w) buf
    unpack word buf = read_fixed lua.of_int 2 sign_extend buf
    unpack dword buf = read_fixed lua.of_int 4 (λ w. w) buf
    unpack string buf = read_string lua.of_string buf
    unpack (table ops) buf = unpack_opcodes ops (lua.new_table ∷ []) 0 buf
    unpack (array base size) buf = unpack_array (unpack base) size buf

    pub unpack_opcodes : Opcodes lua.Value → List lua.Value → ℕ → List ℕ → Unpacked lua.Value
    unpack_opcodes none_left stack pos buf = lost
    unpack_opcodes (tb_begin k ops) stack pos buf =
        if is_none_left ops
        then left_on stack pos
        else unpack_opcodes ops (lua.new_table ∷ k ∷ stack) pos buf
    unpack_opcodes (tb_no_key ops) stack pos buf =
        if is_none_left ops then left_on stack pos else lost
    unpack_opcodes (push_value k arg ops) stack pos buf =
        if is_none_left ops
        then left_on stack pos
        else advance (unpack arg buf) (λ v len.
          after_set (set_table (v ∷ k ∷ stack))
            (λ s. unpack_opcodes ops s (pos + len) (drop len buf)))
    unpack_opcodes (tb_end ops) stack pos buf =
        if is_none_left ops
        then left_on stack pos
        else after_set (set_table stack) (λ s. unpack_opcodes ops s pos buf)
