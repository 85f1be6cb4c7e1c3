-- ===== src/Lua.antt =====
-- What the protocol code uses of Lua, as a parameter: the values, and the calls of the C interface that
-- read and make them. The laws are the documented behaviour of those calls.
pub mod Small
use simple_module.Base.{ℕ, ◌^◌, ◌<◌, ◌≡◌, ◌≢◌, Bool, true, false, Option, some, List}

pub record Lua : Type 1 where
  pub Value : Type 0
  -- `luaL_checktype(L, i, LUA_TNUMBER)` and `lua_number2int`: the pattern of the `int`, or `none` where
  -- the value is no number and an error is raised.
  pub as_int : Value → Option ℕ
  -- `lua_pushnumber` of the `int` with this pattern.
  pub of_int : ℕ → Value
  -- `luaL_checklstring`, with `none` where an error is raised, and `lua_pushlstring`.
  pub as_string : Value → Option (List ℕ)
  pub of_string : List ℕ → Value
  -- `lua_istable`, `lua_objlen`, `lua_rawget`.
  pub is_table : Value → Bool
  pub objlen : Value → ℕ
  pub raw_get : Value → Value → Value
  -- Whether a value may be a key of a new field, as all but nil and the numbers that are not a number may,
  -- and whether two values are equal as keys.
  pub is_key : Value → Bool
  pub raw_equal : Value → Value → Bool
  -- `lua_newtable`, and `lua_rawset` on a table that nothing else refers to yet.
  pub new_table : Value
  pub raw_set : Value → Value → Value → Value
  pub as_int_lt : (v : Value) (w : ℕ) → as_int v ≡ some w → w < 2 ^ 32
  pub as_int-of_int : (w : ℕ) → w < 2 ^ 32 → as_int (of_int w) ≡ some w
  pub as_string-of_string : (s : List ℕ) → as_string (of_string s) ≡ some s
  pub new_table_is : is_table new_table ≡ true
  pub raw_set_is : (t k v : Value) → is_table t ≡ true → is_table (raw_set t k v) ≡ true
  pub raw_get-raw_set_self :
      (t v : Value) (i : ℕ) → is_table t ≡ true → raw_get (raw_set t (of_int i) v) (of_int i) ≡ v
  pub raw_get-raw_set_ne :
      (t v : Value) (i j : ℕ)
      → is_table t ≡ true
      → i < 2 ^ 31
      → j < 2 ^ 31
      → i ≢ j
      → raw_get (raw_set t (of_int i) v) (of_int j) ≡ raw_get t (of_int j)
  pub raw_get-raw_set_key :
      (t k v : Value) → is_table t ≡ true → is_key k ≡ true → raw_get (raw_set t k v) k ≡ v
  pub raw_get-raw_set_other :
      (t j k v : Value)
      → is_table t ≡ true
      → is_key k ≡ true
      → raw_equal j k ≡ false
      → raw_get (raw_set t k v) j ≡ raw_get t j
