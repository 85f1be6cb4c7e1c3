-- ===== src/Lua/Small.antt =====
-- A Lua that meets the laws: its tables are lists of fields, the last set first.
use simple_module.Base.{
  ℕ, suc, ◌^◌, ◌<◌, ◌≡◌, ◌≢◌, refl, Bool, true, false, Option, some, none, List, [], ◌∷◌, ltb, ◌==◌,
  ==_self, if◌then◌else◌, arith,
}
use simple_module.Lua.{Lua}

mutual
  pub data Val : Type 0 where
    nil : Val
    num : ℕ → Val
    str : List ℕ → Val
    tab : Fields → Val

  pub data Fields : Type 0 where
    empty : Fields
    field : Val → Val → Fields → Fields

abbrev pub same_bytes : List ℕ → List ℕ → Bool
same_bytes [] [] = true
same_bytes [] (b ∷ bs) = false
same_bytes (a ∷ xs) [] = false
same_bytes (a ∷ xs) (b ∷ bs) = if a == b then same_bytes xs bs else false

abbrev pub same_key : Val → Val → Bool
same_key (num i) (num j) = i == j
same_key (str s) (str t) = same_bytes s t
same_key _ _ = false

abbrev pub look_up : Fields → Val → Val
look_up empty k = nil
look_up (field l v fs) k = if same_key l k then v else look_up fs k

abbrev pub count_fields : Fields → ℕ
count_fields empty = 0
count_fields (field k v fs) = suc (count_fields fs)

abbrev pub val_int : Val → Option ℕ
val_int (num n) = if ltb n (2 ^ 32) then some n else none
val_int _ = none

abbrev pub val_string : Val → Option (List ℕ)
val_string (str s) = some s
val_string _ = none

abbrev pub val_is_table : Val → Bool
val_is_table (tab fs) = true
val_is_table _ = false

abbrev pub val_len : Val → ℕ
val_len (tab fs) = count_fields fs
val_len _ = 0

abbrev pub val_get : Val → Val → Val
val_get (tab fs) k = look_up fs k
val_get _ k = nil

abbrev pub val_set : Val → Val → Val → Val
val_set (tab fs) k v = tab (field k v fs)
val_set _ k v = nil

pub val_int-lt : (v : Val) (w : ℕ) → val_int v ≡ some w → w < 2 ^ 32
val_int-lt nil w h = absurd (ground arith)
val_int-lt (num n) w h = ground arith
val_int-lt (str s) w h = absurd (ground arith)
val_int-lt (tab fs) w h = absurd (ground arith)

pub val_get-val_set_self :
    (t v : Val) (i : ℕ) → val_is_table t ≡ true → val_get (val_set t (num i) v) (num i) ≡ v
val_get-val_set_self nil v i h = absurd (ground arith)
val_get-val_set_self (num n) v i h = absurd (ground arith)
val_get-val_set_self (str s) v i h = absurd (ground arith)
val_get-val_set_self (tab fs) v i h = rw (==_self i) refl

pub val_get-val_set_ne :
    (t v : Val) (i j : ℕ)
    → val_is_table t ≡ true
    → i ≢ j
    → val_get (val_set t (num i) v) (num j) ≡ val_get t (num j)
val_get-val_set_ne nil v i j h d = absurd (ground arith)
val_get-val_set_ne (num n) v i j h d = absurd (ground arith)
val_get-val_set_ne (str s) v i j h d = absurd (ground arith)
val_get-val_set_ne (tab fs) v i j h d = ground arith

-- Tables are no keys here.
abbrev pub val_is_key : Val → Bool
val_is_key (num i) = true
val_is_key (str s) = true
val_is_key _ = false

same_bytes_self : (s : List ℕ) → same_bytes s s ≡ true
same_bytes_self [] = refl
same_bytes_self (b ∷ bs) = rw (==_self b) (same_bytes_self bs)

same_key_self : (k : Val) → val_is_key k ≡ true → same_key k k ≡ true
same_key_self nil h = absurd (ground arith)
same_key_self (num i) h = ==_self i
same_key_self (str s) h = same_bytes_self s
same_key_self (tab fs) h = absurd (ground arith)

pub val_get-val_set_key :
    (t k v : Val) → val_is_table t ≡ true → val_is_key k ≡ true → val_get (val_set t k v) k ≡ v
val_get-val_set_key nil k v h e = absurd (ground arith)
val_get-val_set_key (num n) k v h e = absurd (ground arith)
val_get-val_set_key (str s) k v h e = absurd (ground arith)
val_get-val_set_key (tab fs) k v h e = rw (same_key_self k e) refl

pub val_get-val_set_other :
    (t j k v : Val)
    → val_is_table t ≡ true
    → same_key k j ≡ false
    → val_get (val_set t k v) j ≡ val_get t j
val_get-val_set_other nil j k v h e = absurd (ground arith)
val_get-val_set_other (num n) j k v h e = absurd (ground arith)
val_get-val_set_other (str s) j k v h e = absurd (ground arith)
val_get-val_set_other (tab fs) j k v h e = rw (e) refl

pub val_set_is : (t k v : Val) → val_is_table t ≡ true → val_is_table (val_set t k v) ≡ true
val_set_is nil k v h = absurd (ground arith)
val_set_is (num n) k v h = absurd (ground arith)
val_set_is (str s) k v h = absurd (ground arith)
val_set_is (tab fs) k v h = refl

abbrev pub small_lua : Lua
small_lua = record {
  Value = Val;
  as_int = val_int;
  of_int = num;
  as_string = val_string;
  of_string = str;
  is_table = val_is_table;
  objlen = val_len;
  raw_get = val_get;
  is_key = val_is_key;
  raw_equal = λ j k. same_key k j;
  new_table = tab empty;
  raw_set = val_set;
  as_int_lt = val_int-lt;
  as_int-of_int = λ w h. ground arith;
  as_string-of_string = λ s. refl;
  new_table_is = refl;
  raw_set_is = val_set_is;
  raw_get-raw_set_self = val_get-val_set_self;
  raw_get-raw_set_ne = λ t v i j h a b d. val_get-val_set_ne t v i j h d;
  raw_get-raw_set_key = val_get-val_set_key;
  raw_get-raw_set_other = λ t j k v h key e. val_get-val_set_other t j k v h e;
}
