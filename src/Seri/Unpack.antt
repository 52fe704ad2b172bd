-- ===== src/Seri/Unpack.antt =====
-- The reading functions of lua-seri.c. The stream is the bytes not yet read.
use sdy.Seri.Table.{raw_set}
use sdy.Base.{
  List, [], bit_and, drop, if◌then◌else◌, length, ltb, none, not, some, suc, take, zero, ℕ, ◌%◌,
  ◌*◌, ◌+◌, ◌-◌, ◌/◌, ◌==◌, ◌^◌, ◌||◌, ◌∷◌,
}
use sdy.Seri.Value.{
  Value, nil, boolean, integer, real, pointer, string, table, Values, none_left, also, Pairs,
  no_pair, is_nil,
}

-- A value with the rest of the stream, an error that Lua raises, an access outside the buffer, or no
-- fuel left.
pub data Read {ℓ} (A : Type ℓ) : Type ℓ where
  ok : A → List ℕ → Read A
  invalid : Read A
  overrun : Read A
  timeout : Read A

infixl 5 ◌>>>◌
abbrev pub ◌>>>◌ {ℓ κ} : {A : Type ℓ} {B : Type κ} → Read A → (A → List ℕ → Read B) → Read B
ok a r >>> f = f a r
invalid >>> f = invalid
overrun >>> f = overrun
timeout >>> f = timeout

-- `rb_read`, with the error that each caller raises for a null result.
unfoldable pub rb_read : ℕ → List ℕ → Read (List ℕ)
rb_read n bs = if ltb (length bs) n then invalid else ok (take n bs) (drop n bs)

unfoldable pub rb_byte : List ℕ → Read ℕ
rb_byte [] = invalid
rb_byte (b ∷ bs) = ok b bs

-- A number in memory, lowest byte first.
unfoldable pub of_bytes : List ℕ → ℕ
of_bytes [] = 0
of_bytes (b ∷ bs) = b + 256 * of_bytes bs

-- An `int32_t` as a 64-bit pattern.
abbrev pub sign_extend : ℕ → ℕ
sign_extend n = if ltb n (2 ^ 31) then n else n + (2 ^ 64 - 2 ^ 32)

-- `get_integer`
unfoldable pub get_integer : ℕ → List ℕ → Read ℕ
unfolding rb_read of_bytes
get_integer cookie bs =
    if cookie == 0
    then ok 0 bs
    else if cookie == 1
    then (rb_read 1 bs >>> λ x r. ok (of_bytes x) r)
    else if cookie == 2
    then (rb_read 2 bs >>> λ x r. ok (of_bytes x) r)
    else if cookie == 4
    then (rb_read 4 bs >>> λ x r. ok (sign_extend (of_bytes x)) r)
    else if cookie == 6
    then (rb_read 8 bs >>> λ x r. ok (of_bytes x) r)
    else invalid

-- `get_buffer`; its `len` is an `int`, so 32 bits with the highest one set are a negative size, which
-- passes the test of `rb_read`.
unfoldable pub get_buffer : ℕ → List ℕ → Read (List ℕ)
unfolding rb_read
get_buffer len bs = if ltb len (2 ^ 31) then rb_read len bs else overrun

-- `TYPE_LONG_STRING` in `push_value`
unfoldable pub get_long_string : ℕ → List ℕ → Read Value
unfolding rb_read of_bytes get_buffer
get_long_string cookie bs =
    if cookie == 2
    then (rb_read 2 bs >>> λ n r. get_buffer (of_bytes n) r >>> λ s r'. ok (string s) r')
    else if cookie == 4
    then (rb_read 4 bs >>> λ n r. get_buffer (of_bytes n) r >>> λ s r'. ok (string s) r')
    else invalid

-- `push_value` for every type but tables.
unfoldable pub push_scalar : ℕ → ℕ → List ℕ → Read Value
unfolding get_integer rb_read get_buffer get_long_string
push_scalar type cookie bs =
    if type == 0
    then ok nil bs
    else if type == 1
    then ok (boolean (not (cookie == 0))) bs
    else if type == 2
    then (if cookie == 8
        then (rb_read 8 bs >>> λ x r. ok (real x) r)
        else (get_integer cookie bs >>> λ x r. ok (integer x) r))
    else if type == 3
    then (rb_read 8 bs >>> λ x r. ok (pointer x) r)
    else if type == 4
    then (get_buffer cookie bs >>> λ x r. ok (string x) r)
    else if type == 5
    then get_long_string cookie bs
    else invalid

-- The rounds of `for (i=1;i<=array_size;i++)` for an `int` converted from a 64-bit pattern.
abbrev pub rounds : ℕ → ℕ
rounds x = if ltb (x % 2 ^ 32) (2 ^ 31) then x % 2 ^ 32 else 0

-- The head of `unpack_table`: the size of the array part.
unfoldable pub table_size : ℕ → List ℕ → Read ℕ
unfolding rb_byte get_integer
table_size cookie bs =
    if cookie == 31
    then (rb_byte bs >>> λ t r.
        if not (bit_and t 7 == 2) || t / 8 == 8
        then invalid
        else (get_integer (t / 8) r >>> λ x r'. ok (rounds x) r'))
    else ok cookie bs

-- `unpack_one` with `push_value` and `unpack_table`, its loop over the array part, and its loop that
-- sets the pairs, which ends at a nil key.
unfoldable mutual
  unfolding rb_byte push_scalar table_size raw_set

  pub unpack_one : ℕ → List ℕ → Read Value
  unpack_one zero bs = timeout
  unpack_one (suc f) bs = rb_byte bs >>> λ t r.
      let a_table =
        (table_size (t / 8) r >>> λ n r1.
        unpack_array f n r1 >>> λ vs r2. unpack_hash f vs no_pair r2) in
      if bit_and t 7 == 6 then a_table else push_scalar (bit_and t 7) (t / 8) r

  pub unpack_array : ℕ → ℕ → List ℕ → Read Values
  unpack_array zero n bs = timeout
  unpack_array (suc f) n bs =
      let more =
        (unpack_one f bs >>> λ v r. unpack_array f (n - 1) r >>> λ vs r'. ok (also v vs) r') in
      if n == 0 then ok none_left bs else more

  pub unpack_hash : ℕ → Values → Pairs → List ℕ → Read Value
  unpack_hash zero vs ps bs = timeout
  unpack_hash (suc f) vs ps bs = unpack_one f bs >>> λ k r.
      let more =
        (unpack_one f r >>> λ v r'. elim (raw_set vs ps k v) [
          | none ↦ invalid
          | some t ↦ unpack_hash f t.0 t.1 r'
        ]) in
      if is_nil k then ok (table vs ps) r else more

-- The loop of `luaseri_unpack`: values until the stream ends.
unfoldable pub unpack_all : ℕ → List ℕ → Read Values
unfolding unpack_one
unpack_all zero bs = timeout
unpack_all (suc f) [] = ok none_left []
unpack_all (suc f) (b ∷ bs) =
    unpack_one f (b ∷ bs) >>> λ v r. unpack_all f r >>> λ vs r'. ok (also v vs) r'

-- `luaseri_unpack`. Each call reads a byte and each round of a loop ends in one, so that fuel of twice
-- the length is enough (`Ends`).
unfoldable pub luaseri_unpack : List ℕ → Read Values
unfolding unpack_all
luaseri_unpack bs = unpack_all (2 * length bs + 3) bs
