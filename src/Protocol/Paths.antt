-- ===== src/Protocol/Paths.antt =====
-- The name of a protocol's file and who makes its function: `process_type` of protocol/protocol.cpp.
use simple_module.Base.{
  ℕ, suc, ◌+◌, ◌-◌, ◌≡◌, ◌≢◌, ◌⊎◌, inl, inr, refl, sym, ap, ap₂, subst, take, Bool-cases, ◌∙◌, Bool,
  true, false, Option, none, some, List, [], ◌∷◌, ◌++◌, leb, ◌==◌, length, drop, arith,
  length-append, append_assoc, drop-append_self, take-append_self,
}
use simple_module.Args.Format.{same_text}
use simple_module.Args.Texts.{same_text-eq, same_text-ne}
use simple_module.Protocol.Names.{
  find_last_of, later, name_part, maker_of, maker_of_part, process_type, slash, dot, client_text,
  server_text,
}

-- The text behind the last place of a character.
find_last_of-append :
    (c : ℕ) (xs ys : List ℕ) (j : ℕ)
    → find_last_of c ys ≡ some j
    → find_last_of c (xs ++ ys) ≡ some (length xs + j)
unfolding find_last_of
find_last_of-append c [] ys j e = e ∙ ap some (omega arith)
find_last_of-append c (x ∷ xs) ys j e =
    ap (later (x == c)) (find_last_of-append c xs ys j e) ∙ ap some (omega arith)

find_last_of_here :
    (c : ℕ) (ys : List ℕ) → find_last_of c ys ≡ none → find_last_of c (c ∷ ys) ≡ some 0
unfolding find_last_of
find_last_of_here c ys e = ap (later (c == c)) e ∙ found_here
  where
    found_here : later (c == c) none ≡ some 0
    found_here = ap (λ b. later b none) same
      where
        same : (c == c) ≡ true
        same = ground arith

none-later : (b : Bool) (o : Option ℕ) → later b o ≡ none → (b ≡ false) × (o ≡ none)
none-later true none e = absurd (some_none e)
  where
    some_none : {n : ℕ} → some n ≡ none → ⊥
    some_none h = cc
none-later false none e = (refl, refl)
none-later b (some n) e = absurd (some_none e)
  where
    some_none : {n : ℕ} → some n ≡ none → ⊥
    some_none h = cc

find_last_of-append_none :
    (c : ℕ) (xs ys : List ℕ)
    → find_last_of c xs ≡ none
    → find_last_of c ys ≡ none
    → find_last_of c (xs ++ ys) ≡ none
unfolding find_last_of
find_last_of-append_none c [] ys e h = h
find_last_of-append_none c (x ∷ xs) ys e h =
    let (b, o) = none-later (x == c) (find_last_of c xs) e in
    ap₂ later b (find_last_of-append_none c xs ys o h)

dot_then_none :
    (ext : List ℕ) → find_last_of slash ext ≡ none → find_last_of slash (dot ∷ ext) ≡ none
unfolding find_last_of
dot_then_none ext e = ap (later false) e

name_part_lem :
    (dir name ext : List ℕ)
    → name_part
        (dir ++ (slash ∷ (name ++ (dot ∷ ext))))
        (some (length dir + 0))
        (some (length (dir ++ (slash ∷ name)) + 0))
      ≡ some name
name_part_lem dir name ext =
    rw (sizes, behind)
      (ap some (
        take-append_self (length (dir ++ (slash ∷ name)) + 0 - suc (length dir + 0)) name
          (dot ∷ ext) (omega (arith, length-append dir (slash ∷ name)))))
  where
    sizes : leb (length (dir ++ (slash ∷ name)) + 0) (length dir + 0) ≡ false
    sizes = ground (arith, length-append dir (slash ∷ name))

    behind :
        drop (suc (length dir + 0)) (dir ++ (slash ∷ (name ++ (dot ∷ ext)))) ≡ name ++ (dot ∷ ext)
    behind =
        ap (drop (suc (length dir + 0))) (sym (append_assoc dir (slash ∷ []) (name ++ (dot ∷ ext))))
        ∙ drop-append_self (suc (length dir + 0)) (dir ++ (slash ∷ [])) (name ++ (dot ∷ ext))
            (omega (arith, length-append dir (slash ∷ [])))

process_type-maker_of :
    (cur_char dir name ext : List ℕ)
    → find_last_of slash name ≡ none
    → find_last_of slash ext ≡ none
    → find_last_of dot ext ≡ none
    → process_type cur_char (dir ++ (slash ∷ (name ++ (dot ∷ ext))))
      ≡ maker_of client_text server_text cur_char name
unfolding process_type
process_type-maker_of cur_char dir name ext no_slash no_slash_ext no_dot =
    ap (maker_of_part cur_char) (
      ap₂ (name_part (dir ++ (slash ∷ (name ++ (dot ∷ ext))))) last_slash last_dot
      ∙ name_part_lem dir name ext)
  where
    last_slash : find_last_of slash (dir ++ (slash ∷ (name ++ (dot ∷ ext)))) ≡ some (length dir + 0)
    last_slash = find_last_of-append slash dir (slash ∷ (name ++ (dot ∷ ext))) 0 (
        find_last_of_here slash (name ++ (dot ∷ ext)) (
          find_last_of-append_none slash name (dot ∷ ext) no_slash
            (dot_then_none ext no_slash_ext)))

    last_dot :
        find_last_of dot (dir ++ (slash ∷ (name ++ (dot ∷ ext))))
        ≡ some (length (dir ++ (slash ∷ name)) + 0)
    last_dot =
        ap (find_last_of dot) (sym (append_assoc dir (slash ∷ name) (dot ∷ ext)))
        ∙ find_last_of-append dot (dir ++ (slash ∷ name)) (dot ∷ ext) 0
            (find_last_of_here dot ext no_dot)

-- The name is the protocol's, and this end makes its function just if it is that side.
pub record MadeBy (side cur_char name : List ℕ) (r : Option (List ℕ × Bool)) : Type 0 where
  pub is_maker : Bool
  pub is_named : r ≡ some (name, is_maker)
  pub decided : ((is_maker ≡ true) × (cur_char ≡ side)) ⊎ ((is_maker ≡ false) × (cur_char ≢ side))

-- What a name decides that begins with "c_", the codes 99 and 95, or with "s_", the codes 115 and 95, or with
-- neither: "client" or "server" makes the function, or the path is refused.
abbrev pub Decided : List ℕ → List ℕ → Option (List ℕ × Bool) → Type 0
Decided cur_char name r =
    ((take 2 name ≡ 99 ∷ 95 ∷ []) × MadeBy (99 ∷ 108 ∷ 105 ∷ 101 ∷ 110 ∷ 116 ∷ []) cur_char name r)
    ⊎ (((take 2 name ≡ 115 ∷ 95 ∷ [])
          × MadeBy (115 ∷ 101 ∷ 114 ∷ 118 ∷ 101 ∷ 114 ∷ []) cur_char name r)
        ⊎ ((take 2 name ≢ 99 ∷ 95 ∷ []) × (take 2 name ≢ 115 ∷ 95 ∷ []) × (r ≡ none)))

told_apart :
    (s t : List ℕ) → ((same_text s t ≡ true) × (s ≡ t)) ⊎ ((same_text s t ≡ false) × (s ≢ t))
told_apart s t = elim (Bool-cases (same_text s t)) [
  | inl e ↦ inl (e, same_text-eq s t e)
  | inr e ↦ inr (e, same_text-ne s t e)
]

by_side :
    (side cur_char name : List ℕ) → MadeBy side cur_char name (some (name, same_text cur_char side))
by_side side cur_char name = record {
  is_maker = same_text cur_char side;
  is_named = refl;
  decided = told_apart cur_char side;
}

maker_of-Decided :
    (cur_char name : List ℕ)
    → Decided cur_char name (maker_of client_text server_text cur_char name)
maker_of-Decided cur_char name = elim (told_apart (take 2 name) (99 ∷ 95 ∷ [])) [
  | inl (e, c) ↦ rw (e) (inl (c, by_side client_text cur_char name))
  | inr (e, c) ↦ elim (told_apart (take 2 name) (115 ∷ 95 ∷ [])) [
    | inl (f, s) ↦ rw (e, f) (inr (inl (s, by_side server_text cur_char name)))
    | inr (f, s) ↦ rw (e, f) (inr (inr (c, s, refl)))
  ]
]

-- A path of a directory, a slash, a name, a dot and an ending, with no slash in the name and the ending and no
-- dot in the ending: a name that begins with "c_" or "s_" is that of the protocol, whose function this end
-- makes just if it is the client, or the server, and a path with any other name is refused.
pub process_type-path :
    (cur_char dir name ext : List ℕ)
    → find_last_of slash name ≡ none
    → find_last_of slash ext ≡ none
    → find_last_of dot ext ≡ none
    → Decided cur_char name (process_type cur_char (dir ++ (slash ∷ (name ++ (dot ∷ ext)))))
process_type-path cur_char dir name ext no_slash no_slash_ext no_dot =
    subst (Decided cur_char name)
      (sym (process_type-maker_of cur_char dir name ext no_slash no_slash_ext no_dot))
      (maker_of-Decided cur_char name)

-- A path without a slash is refused, whatever else is in it.
pub process_type_no_slash :
    (cur_char path : List ℕ) → find_last_of slash path ≡ none → process_type cur_char path ≡ none
unfolding process_type
process_type_no_slash cur_char path e =
    ap (λ o. maker_of_part cur_char (name_part path o (find_last_of dot path))) e
