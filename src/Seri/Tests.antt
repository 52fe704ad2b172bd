-- ===== src/Seri/Tests.antt =====
-- The theorems on lua-seri.c at a few Lua values.
use sdy.Seri.Table.{key_of, raw_set}
use sdy.Base.{List, [], arith, false, refl, replicate, some, true, ℕ, ◌-◌, ◌^◌, ◌∷◌, ◌≡◌}
use sdy.Seri.Value.{boolean, integer, string, table, Values, none_left, also, no_pair, pair}
use sdy.Seri.Writer.{WriteBlock, wb_init, wb_push, bytes, seri}
use sdy.Seri.Pack.{
  combine_type, le_bytes, wb_nil, wb_boolean, wb_integer, to_int, wb_string, wb_table_head, up_to,
  pack_one, luaseri_pack,
}
use sdy.Seri.Unpack.{
  ok, invalid, rb_read, rb_byte, of_bytes, get_integer, push_scalar, table_size, luaseri_unpack,
}
use sdy.Seri.Bytes.{IsValid}
use sdy.Seri.Encoding.{enc_values, luaseri_pack-enc}
use sdy.Seri.Carried.{CarriesAll, CarriesPairs, CarriesAll-Sized, arrived_all}
use sdy.Seri.RoundTrip.{luaseri_unpack-luaseri_pack}
use sdy.Seri.Ends.{Ends, luaseri_unpack-Ends}

-- `{ true, x = -1 }, 300`
abbrev values : Values
values =
    also
      (table (also (boolean true) none_left)
        (pair (integer 1) (boolean true) (pair (string (120 ∷ [])) (integer (2 ^ 64 - 1)) no_pair)))
      (also (integer 300) none_left)

abbrev packed : List ℕ
packed = 14 ∷ 9 ∷ 12 ∷ 120 ∷ 34 ∷ 255 ∷ 255 ∷ 255 ∷ 255 ∷ 0 ∷ 18 ∷ 44 ∷ 1 ∷ []

values-packed : luaseri_pack values ≡ some packed
unfolding luaseri_pack seri pack_one wb_init wb_push wb_integer combine_type wb_string wb_boolean
    wb_nil wb_table_head le_bytes to_int up_to
values-packed = refl

values-CarriesAll : CarriesAll values
unfolding key_of
values-CarriesAll =
    let last : CarriesPairs (pair (string (120 ∷ [])) (integer (2 ^ 64 - 1)) no_pair) = (
      record { key = refl; number = refl; normal = refl; value = refl },
      tt,
      omega arith,
      omega arith,
      tt,
    ) in
    (
      (
        omega arith,
        (tt, tt),
        (
          record { key = refl; number = refl; normal = refl; value = refl },
          (refl, tt),
          omega arith,
          tt,
          last,
        ),
      ),
      (omega arith, tt),
    )

luaseri_pack-enc_example : packed ≡ enc_values values
luaseri_pack-enc_example =
    luaseri_pack-enc values packed (CarriesAll-Sized values values-CarriesAll) (omega arith)
      values-packed

luaseri_unpack-luaseri_pack_example : luaseri_unpack packed ≡ ok (arrived_all values) []
luaseri_unpack-luaseri_pack_example =
    luaseri_unpack-luaseri_pack values packed values-CarriesAll (omega arith) values-packed

luaseri_unpack-Ends_example : Ends 1 (luaseri_unpack (14 ∷ 255 ∷ []))
luaseri_unpack-Ends_example = luaseri_unpack-Ends (14 ∷ 255 ∷ [])

-- A block with one byte of room left.
abbrev nearly_full : WriteBlock
nearly_full = record { filled = []; current = replicate 127 9; len = 127 }

nearly_full-IsValid : IsValid nearly_full
unfolding bytes
nearly_full-IsValid = record { full = tt; fits = omega arith; counted = refl }

-- A key that is not a number.
nan_key : luaseri_unpack (6 ∷ 66 ∷ 0 ∷ 0 ∷ 0 ∷ 0 ∷ 0 ∷ 0 ∷ 248 ∷ 127 ∷ 9 ∷ 0 ∷ []) ≡ invalid
unfolding luaseri_unpack push_scalar table_size rb_byte raw_set rb_read get_integer of_bytes
nan_key = refl

-- A key that is set again.
key_again :
    luaseri_unpack (6 ∷ 10 ∷ 1 ∷ 9 ∷ 10 ∷ 1 ∷ 1 ∷ 0 ∷ [])
    ≡ ok (also (table none_left (pair (integer 1) (boolean false) no_pair)) none_left) []
unfolding luaseri_unpack push_scalar table_size rb_byte raw_set rb_read get_integer of_bytes
key_again = refl

-- A size of 2 ^ 31 as an `int`.
negative_size : bytes (wb_string wb_init [] (2 ^ 31)) ≡ 4 ∷ []
unfolding bytes wb_string wb_init wb_push combine_type
negative_size = refl
