-- ===== src/Seri/Value.antt =====
-- The Lua values that lua-seri.c reads through the Lua API.
use sdy.Base.{Bool, List, false, leb, ltb, suc, true, ℕ, ◌&&◌, ◌^◌}

-- An integer is its 64-bit pattern; a double and a pointer are their eight bytes in memory. A table
-- without `__pairs` is its values at 1 .. `lua_rawlen` and its pairs in the order of `lua_next`;
-- one with `__pairs` is the pairs that its iterator yields. `other` is any type not supported.
mutual
  pub data Value : Type 0 where
    nil : Value
    boolean : Bool → Value
    integer : ℕ → Value
    real : List ℕ → Value
    pointer : List ℕ → Value
    string : List ℕ → Value
    table : Values → Pairs → Value
    meta_table : Pairs → Value
    other : Value

  pub data Values : Type 0 where
    none_left : Values
    also : Value → Values → Values

  pub data Pairs : Type 0 where
    no_pair : Pairs
    pair : Value → Value → Pairs → Pairs

-- `lua_rawlen`
abbrev pub raw_len : Values → ℕ
raw_len none_left = 0
raw_len (also v vs) = suc (raw_len vs)

abbrev pub is_nil : Value → Bool
is_nil nil = true
is_nil _ = false

-- The keys that `wb_table_hash` skips: integers from 1 to the size of the array part.
abbrev pub in_array : ℕ → Value → Bool
in_array n (integer x) = ltb 0 x && (ltb x (2 ^ 63) && leb x n)
in_array n _ = false
