-- ===== src/Seri/Pack.antt =====
-- The packing functions of lua-seri.c. `none` is a call of `luaL_error`.
use sdy.Base.{
  Bool, List, Option, [], bit_or, if◌then◌else◌, leb, length, ltb, none, not, some, suc, take, zero,
  ℕ, ◌%◌, ◌*◌, ◌+◌, ◌-◌, ◌/◌, ◌==◌, ◌>>=◌, ◌^◌, ◌||◌, ◌∷◌,
}
use sdy.Seri.Value.{
  Value, nil, boolean, integer, real, pointer, string, table, meta_table, other, Values, none_left,
  also, Pairs, no_pair, pair, raw_len, is_nil, in_array,
}
use sdy.Seri.Writer.{WriteBlock, wb_init, wb_push, seri}

abbrev pub max_cookie : ℕ
max_cookie = 32

abbrev pub max_depth : ℕ
max_depth = 32

-- `COMBINE_TYPE`
unfoldable pub combine_type : ℕ → ℕ → ℕ
combine_type t v = bit_or t (v * 2 ^ 3)

-- The `n` bytes of a number in memory, lowest first.
unfoldable pub le_bytes : ℕ → ℕ → List ℕ
le_bytes zero x = []
le_bytes (suc n) x = x % 256 ∷ le_bytes n (x / 256)

-- `wb_nil`
unfoldable pub wb_nil : WriteBlock → WriteBlock
wb_nil b = wb_push b (0 ∷ [])

-- `wb_boolean`
unfoldable pub wb_boolean : WriteBlock → Bool → WriteBlock
wb_boolean b v = wb_push b (combine_type 1 (if v then 1 else 0) ∷ [])

abbrev pub push_both : WriteBlock → ℕ → List ℕ → WriteBlock
push_both b n xs = wb_push (wb_push b (combine_type 2 n ∷ [])) xs

-- `v == (int32_t)v` for a 64-bit pattern.
abbrev pub fits_int32 : ℕ → Bool
fits_int32 v = ltb v (2 ^ 31) || leb (2 ^ 64 - 2 ^ 31) v

-- `wb_integer`
unfoldable pub wb_integer : WriteBlock → ℕ → WriteBlock
wb_integer b v =
    if v == 0
    then wb_push b (combine_type 2 0 ∷ [])
    else if not (fits_int32 v)
    then push_both b 6 (le_bytes 8 v)
    else if leb (2 ^ 63) v
    then push_both b 4 (le_bytes 4 v)
    else if ltb v 0x100
    then push_both b 1 (le_bytes 1 v)
    else if ltb v 0x10000
    then push_both b 2 (le_bytes 2 v)
    else push_both b 4 (le_bytes 4 v)

-- `wb_real`
unfoldable pub wb_real : WriteBlock → List ℕ → WriteBlock
wb_real b v = push_both b 8 v

-- `wb_pointer`
unfoldable pub wb_pointer : WriteBlock → List ℕ → WriteBlock
wb_pointer b v = wb_push (wb_push b (3 ∷ [])) v

-- The conversion of a size to `int`, as a 32-bit pattern.
unfoldable pub to_int : ℕ → ℕ
to_int n = n % 2 ^ 32

-- An `int` that is negative.
abbrev pub below_zero : ℕ → Bool
below_zero n = leb (2 ^ 31) n

-- `wb_string`. A negative `len` is shifted into the byte, of which the lowest 8 bits are left.
unfoldable pub wb_string : WriteBlock → List ℕ → ℕ → WriteBlock
wb_string b str len =
    if below_zero len
    then wb_push b (combine_type 4 len % 256 ∷ [])
    else if ltb len max_cookie
    then (let b' = wb_push b (combine_type 4 len ∷ []) in
        if ltb 0 len then wb_push b' (take len str) else b')
    else if ltb len 0x10000
    then wb_push (wb_push (wb_push b (combine_type 5 2 ∷ [])) (le_bytes 2 len)) (take len str)
    else wb_push (wb_push (wb_push b (combine_type 5 4 ∷ [])) (le_bytes 4 len)) (take len str)

-- The head of `wb_table_array`, for the `int` array_size.
unfoldable pub wb_table_head : WriteBlock → ℕ → WriteBlock
unfolding wb_integer
wb_table_head b array_size =
    if below_zero array_size
    then wb_push b (combine_type 6 array_size % 256 ∷ [])
    else if leb (max_cookie - 1) array_size
    then wb_integer (wb_push b (combine_type 6 (max_cookie - 1) ∷ [])) array_size
    else wb_push b (combine_type 6 array_size ∷ [])

-- How many integers there are from 1 to an `int`.
unfoldable pub up_to : ℕ → ℕ
up_to n = if below_zero n then 0 else n

-- `pack_one` at a depth, `wb_table` with the loop of `wb_table_array` for so many items, that of
-- `wb_table_hash` for an array part of size `n`, and that of `wb_table_metapairs`.
unfoldable mutual
  unfolding wb_nil wb_boolean wb_integer wb_real wb_pointer wb_string wb_table_head to_int up_to

  pub pack_one : ℕ → WriteBlock → Value → Option WriteBlock
  pack_one d b nil = if ltb max_depth d then none else some (wb_nil b)
  pack_one d b (boolean v) = if ltb max_depth d then none else some (wb_boolean b v)
  pack_one d b (integer v) = if ltb max_depth d then none else some (wb_integer b v)
  pack_one d b (real v) = if ltb max_depth d then none else some (wb_real b v)
  pack_one d b (pointer v) = if ltb max_depth d then none else some (wb_pointer b v)
  pack_one d b (string v) =
      if ltb max_depth d then none else some (wb_string b v (to_int (length v)))
  pack_one d b (table vs ps) =
      let array_size = to_int (raw_len vs) in
      let packed = pack_array (up_to array_size) (d + 1) (wb_table_head b array_size) vs >>= λ b'.
      pack_hash (up_to array_size) (d + 1) b' ps in
      if ltb max_depth d then none else packed
  pack_one d b (meta_table ps) =
      let packed = pack_meta (d + 1) (wb_push b (combine_type 6 0 ∷ [])) ps in
      if ltb max_depth d then none else packed
  pack_one d b other = none

  pub pack_array : ℕ → ℕ → WriteBlock → Values → Option WriteBlock
  pack_array zero d b vs = some b
  pack_array (suc n) d b none_left = some b
  pack_array (suc n) d b (also v vs) = pack_one d b v >>= λ b'. pack_array n d b' vs

  pub pack_hash : ℕ → ℕ → WriteBlock → Pairs → Option WriteBlock
  pack_hash n d b no_pair = some (wb_nil b)
  pack_hash n d b (pair k v ps) =
      let packed = pack_one d b k >>= λ b'. pack_one d b' v >>= λ b''. pack_hash n d b'' ps in
      let skipped = pack_hash n d b ps in if in_array n k then skipped else packed

  pub pack_meta : ℕ → WriteBlock → Pairs → Option WriteBlock
  pack_meta d b no_pair = some (wb_nil b)
  pack_meta d b (pair k v ps) =
      let packed = pack_one d b k >>= λ b'. pack_one d b' v >>= λ b''. pack_meta d b'' ps in
      if is_nil k then some (wb_nil b) else packed

-- `luaseri_pack` with `pack_from`: the values on the stack, each at depth 0.
unfoldable pub luaseri_pack : Values → Option (List ℕ)
luaseri_pack vs = pack_array (raw_len vs) 0 wb_init vs >>= λ b. some (seri b)
