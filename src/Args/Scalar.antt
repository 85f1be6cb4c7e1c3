-- ===== src/Args/Scalar.antt =====
-- The packers of numbers and strings, apart from the Lua stack: what is written for an `int` or a
-- string, and what is read.
use simple_module.Base.{
  ℕ, zero, suc, ◌+◌, ◌-◌, ◌*◌, ◌/◌, ◌%◌, ◌^◌, Bool, List, [], ◌∷◌, ◌++◌, ltb, leb, ◌==◌, ◌||◌,
  if◌then◌else◌, length, take, drop,
}
use simple_module.Base.Word.{u32, le_bytes, le_value}

-- What `pack` comes to: the bytes written, whose number it returns; 0 for a value that does not fit;
-- an error raised in Lua; or the use of what lies below its own part of the Lua stack.
pub data Packed : Type 0 where
  packed : List ℕ → Packed
  rejected raised astray : Packed

-- What `unpack` comes to: the value pushed and the number of bytes read; 0; or the use of memory or of
-- the Lua stack beyond its own.
pub data Unpacked (V : Type 0) : Type 0 where
  unpacked : V → ℕ → Unpacked V
  refused lost : Unpacked V

-- `check_buf(used_len, buf_len)` before the bytes are copied.
abbrev pub checked : List ℕ → ℕ → Packed
checked bs room = if ltb room (length bs) then rejected else packed bs

-- A caller takes a result of 0 for a failure.
abbrev pub used : Packed → Packed
used (packed []) = rejected
used (packed (b ∷ bs)) = packed (b ∷ bs)
used rejected = rejected
used raised = raised
used astray = astray

abbrev pub prepend : List ℕ → Packed → Packed
prepend bs (packed cs) = packed (bs ++ cs)
prepend bs rejected = rejected
prepend bs raised = raised
prepend bs astray = astray

-- The bytes written, and then those of the next call, which has so much less room.
abbrev pub and_then : Packed → (ℕ → Packed) → Packed
and_then (packed bs) next = prepend bs (next (length bs))
and_then rejected next = rejected
and_then raised next = raised
and_then astray next = astray

-- `-x` of an `int`, on patterns.
abbrev pub neg32 : ℕ → ℕ
neg32 w = u32 (2 ^ 32 - w)

abbrev pub is_negative : ℕ → Bool
is_negative w = leb (2 ^ 31) w

-- The absolute value, as the `unsigned int` `data`.
abbrev pub magnitude : ℕ → ℕ
magnitude w = if is_negative w then neg32 w else w

-- `data_t.len`
abbrev pub number_len : ℕ → ℕ
number_len m = if leb m 0xff then 1 else if leb m 0xffff then 2 else if leb m 0xffffff then 3 else 4

-- `number_type` is one byte, with the sign in its lowest bit and the length above; then the bytes.
unfoldable pub number_bytes : ℕ → List ℕ
number_bytes w =
    let m = magnitude w in
    ((if is_negative w then 1 else 0) + 2 * number_len m) ∷ le_bytes (number_len m) m

module _ {V : Type 0} (push : ℕ → V) where
  unfoldable pub read_number : List ℕ → Unpacked V
  read_number [] = refused
  read_number (b ∷ bs) =
      let len = b / 2 in
      let w = le_value (take len bs) in
      if leb len 0 || leb 5 len
      then refused
      else if ltb (length (b ∷ bs)) (1 + len)
      then refused
      else unpacked (push (if b % 2 == 1 then neg32 w else w)) (1 + len)

  -- Numbers of `k` bytes; `widen` is what reading the bytes as an `int` makes of them.
  unfoldable pub read_fixed : ℕ → (ℕ → ℕ) → List ℕ → Unpacked V
  read_fixed k widen buf =
      if ltb (length buf) k then refused else unpacked (push (widen (le_value (take k buf)))) k

-- A `short` as an `int`.
abbrev pub sign_extend : ℕ → ℕ
sign_extend w = if ltb w (2 ^ 15) then w else w + (2 ^ 32 - 2 ^ 16)

unfoldable pub string_bytes : List ℕ → ℕ → Packed
string_bytes s room =
    let str_id = length s + 1 in
    if leb str_id 0xff
    then checked (str_id ∷ s) room
    else if leb str_id 0xffff
    then checked (0 ∷ (le_bytes 2 str_id ++ s)) room
    else rejected

module _ {V : Type 0} (push : List ℕ → V) where
  -- With the first byte 0 the length stands in the next two.
  unfoldable pub read_long_string : List ℕ → Unpacked V
  read_long_string buf =
      let str_id = le_value (take 2 (drop 1 buf)) in
      if ltb (length buf) 3
      then refused
      else if str_id == 0
      then refused
      else if ltb (length buf) (3 + (str_id - 1))
      then refused
      else unpacked (push (take (str_id - 1) (drop 3 buf))) (3 + (str_id - 1))

  unfoldable pub read_string : List ℕ → Unpacked V
  unfolding read_long_string
  read_string [] = refused
  read_string (str_id ∷ bs) =
      if str_id == 0
      then read_long_string (str_id ∷ bs)
      else if ltb (length (str_id ∷ bs)) (1 + (str_id - 1))
      then refused
      else unpacked (push (take (str_id - 1) bs)) (1 + (str_id - 1))

-- The loops of `unpack` go on with what a call has pushed, `used` and the bytes after those it read; its
-- result of 0 ends them.
abbrev pub advance : {V W : Type 0} → Unpacked V → (V → ℕ → Unpacked W) → Unpacked W
advance (unpacked v zero) next = refused
advance (unpacked v (suc n)) next = next v (suc n)
advance refused next = refused
advance lost next = lost
