-- ===== src/Seri/Table.antt =====
-- What lua-seri.c uses of Lua's tables: `lua_rawset` on a table that is being read, by the rules for keys
-- of Lua's manual. A double is its eight bytes, lowest first, in the IEEE format.
use sdy.Base.{
  Bool, List, Option, [], false, if◌then◌else◌, leb, ltb, none, not, some, true, ℕ, ◌%◌, ◌&&◌, ◌*◌,
  ◌+◌, ◌-◌, ◌/◌, ◌==◌, ◌^◌, ◌∷◌,
}
use sdy.Seri.Value.{
  Value, nil, boolean, integer, real, pointer, string, table, meta_table, other, Values, none_left,
  also, Pairs, no_pair, pair, raw_len, is_nil, in_array,
}

-- The exponent and the fraction of a double.
abbrev pub exponent : List ℕ → ℕ
exponent (a ∷ b ∷ c ∷ d ∷ e ∷ f ∷ g ∷ h ∷ []) = h % 2 ^ 7 * 2 ^ 4 + g / 2 ^ 4
exponent _ = 0

abbrev pub fraction : List ℕ → ℕ
fraction (a ∷ b ∷ c ∷ d ∷ e ∷ f ∷ g ∷ h ∷ []) =
    a + b * 2 ^ 8 + c * 2 ^ 16 + d * 2 ^ 24 + e * 2 ^ 32 + f * 2 ^ 40 + g % 2 ^ 4 * 2 ^ 48
fraction _ = 0

abbrev pub is_negative : List ℕ → Bool
is_negative (a ∷ b ∷ c ∷ d ∷ e ∷ f ∷ g ∷ h ∷ []) = leb (2 ^ 7) h
is_negative _ = false

-- A number that is not one cannot be a key.
abbrev pub is_nan : Value → Bool
is_nan (real x) = (exponent x == 2047) && not (fraction x == 0)
is_nan _ = false

-- The 64-bit pattern of an integer by its sign and its size.
abbrev pub signed : Bool → ℕ → ℕ
signed negative size = if negative then (2 ^ 64 - size) % 2 ^ 64 else size

-- The integer that a double is equal to, as a 64-bit pattern, if there is one.
unfoldable pub integer_of : List ℕ → Option ℕ
integer_of x =
    let e = exponent x in
    let m = 2 ^ 52 + fraction x in
    let unit = 2 ^ (1075 - e) in
    if (e == 0) && (fraction x == 0)
    then some 0
    else if ltb e 1023
    then none
    else if ltb e 1075
    then (if m % unit == 0 then some (signed (is_negative x) (m / unit)) else none)
    else if ltb e 1086
    then some (signed (is_negative x) (m * 2 ^ (e - 1075)))
    else if (e == 1086) && ((fraction x == 0) && is_negative x)
    then some (2 ^ 63)
    else none

abbrev pub key_by : List ℕ → Option ℕ → Value
key_by x none = real x
key_by x (some n) = integer n

-- A double that is an integer is the key that this integer is.
unfoldable pub key_of : Value → Value
unfolding integer_of
key_of (real x) = key_by x (integer_of x)
key_of (integer x) = integer x
key_of (boolean b) = boolean b
key_of (pointer x) = pointer x
key_of (string x) = string x
key_of (table vs ps) = table vs ps
key_of (meta_table ps) = meta_table ps
key_of nil = nil
key_of other = other

-- What keys are compared by. A table that is read is a new object, so that it equals no other key.
abbrev pub code : Value → Option (List ℕ)
code (boolean b) = some (1 ∷ (if b then 1 else 0) ∷ [])
code (integer x) = some (2 ∷ x ∷ [])
code (real x) = some (3 ∷ x)
code (pointer x) = some (4 ∷ x)
code (string x) = some (5 ∷ x)
code _ = none

abbrev pub same_bytes : List ℕ → List ℕ → Bool
same_bytes [] [] = true
same_bytes [] (y ∷ ys) = false
same_bytes (x ∷ xs) [] = false
same_bytes (x ∷ xs) (y ∷ ys) = (x == y) && same_bytes xs ys

abbrev pub same_code : Option (List ℕ) → Option (List ℕ) → Bool
same_code none q = false
same_code (some x) none = false
same_code (some x) (some y) = same_bytes x y

abbrev pub same_key : Value → Value → Bool
same_key k l = same_code (code k) (code l)

-- The value at an index from 1 on.
unfoldable pub set_slot : ℕ → Value → Values → Values
set_slot i v none_left = none_left
set_slot i v (also w vs) = if i == 1 then also v vs else also w (set_slot (i - 1) v vs)

-- The pairs with the value of a key set; a nil value leaves no pair.
unfoldable pub set_pair : Value → Value → Pairs → Pairs
set_pair k v no_pair = if is_nil v then no_pair else pair k v no_pair
set_pair k v (pair l w ps) =
    let rest = set_pair k v ps in
    if same_key k l then if is_nil v then ps else pair l v ps else pair l w rest

abbrev pub slot_of : Value → ℕ
slot_of (integer x) = x
slot_of _ = 0

-- `lua_rawset` for a key that is not nil; `none` is the error for a key that is not a number.
unfoldable pub raw_set : Values → Pairs → Value → Value → Option (Values × Pairs)
unfolding key_of set_slot set_pair
raw_set vs ps k v =
    let l = key_of k in
    if is_nan k
    then none
    else if in_array (raw_len vs) l
    then some (set_slot (slot_of l) v vs, ps)
    else some (vs, set_pair l v ps)
