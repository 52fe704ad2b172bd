-- ===== src/Hex.antt =====
-- Hexadecimal texts of skynet/lualib-src/lua-crypt.c.
pub mod Laws
mod Tests
use sdy.Base.{
  List, Option, [], bit_and, bit_or, get_or, if◌then◌else◌, leb, ltb, none, some, ℕ, ◌%◌, ◌&&◌, ◌*◌,
  ◌+◌, ◌-◌, ◌/◌, ◌>>=◌, ◌^◌, ◌||◌, ◌∷◌,
}

-- `hex[]` of `ltohex`: "0123456789abcdef".
abbrev pub hex_digits : List ℕ
hex_digits = 48 ∷ 49 ∷ 50 ∷ 51 ∷ 52 ∷ 53 ∷ 54 ∷ 55 ∷ 56 ∷ 57 ∷ 97 ∷ 98 ∷ 99 ∷ 100 ∷ 101 ∷ 102 ∷ []

-- `ltohex`
unfoldable pub tohex : List ℕ → List ℕ
tohex [] = []
tohex (x ∷ xs) = get_or hex_digits (x / 2 ^ 4) 0 ∷ get_or hex_digits (bit_and x 0xf) 0 ∷ tohex xs

-- `HEX`, stored in a `uint8_t`.
unfoldable pub hex_value : ℕ → ℕ
hex_value c = if leb 48 c && leb c 57 then c - 48 else (c + (256 - 97) + 10) % 256

-- The loop of `lfromhex`, and before it the test for an odd size; `none` is a call of `luaL_error`.
-- The bound in its test is the source's.
unfoldable pub fromhex : List ℕ → Option (List ℕ)
unfolding hex_value
fromhex [] = some []
fromhex (a ∷ []) = none
fromhex (a ∷ b ∷ text) =
    let rest = fromhex text in
    let hi = hex_value a in
    let low = hex_value b in
    if ltb 16 hi || ltb 16 low
    then none
    else rest >>= λ bytes. some (bit_or (hi * 2 ^ 4) low % 256 ∷ bytes)
