-- ===== src/Protocol/Names.antt =====
-- `process_type` of protocol/protocol.cpp: the name of a protocol from the path of its file, and who makes its
-- function. A path or a name is the list of its codes.
use simple_module.Base.{
  ℕ, suc, ◌-◌, Bool, true, false, Option, none, some, List, [], ◌∷◌, leb, ◌==◌, if◌then◌else◌, take,
  drop,
}
use simple_module.Args.Format.{same_text}

-- `find_last_of` a character, with `none` for `npos`.
abbrev pub later : Bool → Option ℕ → Option ℕ
later here (some i) = some (suc i)
later true none = some 0
later false none = none

unfoldable pub find_last_of : ℕ → List ℕ → Option ℕ
find_last_of c [] = none
find_last_of c (x ∷ xs) = let rest = find_last_of c xs in later (x == c) rest

abbrev pub slash : ℕ
slash = 47

abbrev pub dot : ℕ
dot = 46

-- The part of a path between the last slash and the last dot behind it. The positions are of type `size_t`,
-- of which none is below 0, and `npos` is the largest.
abbrev pub name_part : List ℕ → Option ℕ → Option ℕ → Option (List ℕ)
name_part path none end_pos = none
name_part path (some i) none = some (drop (suc i) path)
name_part path (some i) (some j) =
    if leb j i then none else some (take (j - suc i) (drop (suc i) path))

-- The name and `_is_maker`, where `cur_char` is "client" or "server", or neither.
abbrev pub maker_of : List ℕ → List ℕ → List ℕ → List ℕ → Option (List ℕ × Bool)
maker_of client server cur_char name =
    if same_text (take 2 name) (99 ∷ 95 ∷ [])
    then some (name, same_text cur_char client)
    else if same_text (take 2 name) (115 ∷ 95 ∷ [])
    then some (name, same_text cur_char server)
    else none

abbrev pub client_text : List ℕ
client_text = 99 ∷ 108 ∷ 105 ∷ 101 ∷ 110 ∷ 116 ∷ []

abbrev pub server_text : List ℕ
server_text = 115 ∷ 101 ∷ 114 ∷ 118 ∷ 101 ∷ 114 ∷ []

abbrev pub maker_of_part : List ℕ → Option (List ℕ) → Option (List ℕ × Bool)
maker_of_part cur_char none = none
maker_of_part cur_char (some name) = maker_of client_text server_text cur_char name

unfoldable pub process_type : List ℕ → List ℕ → Option (List ℕ × Bool)
unfolding find_last_of
process_type cur_char path =
    maker_of_part cur_char (name_part path (find_last_of slash path) (find_last_of dot path))
