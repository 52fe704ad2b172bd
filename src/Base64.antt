-- ===== src/Base64.antt =====
-- Base64 texts of skynet/lualib-src/lua-crypt.c. The operands of `|` are written with the lower bits
-- first.
pub mod Laws
pub mod RoundTrip
mod Tests
use sdy.Base.{
  Bool, List, Option, [], bit_and, bit_or, false, if◌then◌else◌, leb, length, ltb, none, some, true,
  ℕ, ◌%◌, ◌&&◌, ◌*◌, ◌++◌, ◌+◌, ◌-◌, ◌/◌, ◌==◌, ◌>>=◌, ◌^◌, ◌∷◌,
}

-- `encoding` of `lb64encode`: A .. Z, a .. z, 0 .. 9, + and /.
unfoldable pub encoding : ℕ → ℕ
encoding n =
    if ltb n 26
    then 65 + n
    else if ltb n 52
    then 97 + (n - 26)
    else if ltb n 62
    then 48 + (n - 52)
    else if n == 62
    then 43
    else 47

abbrev pub word3 : ℕ → ℕ → ℕ → ℕ
word3 a b c = bit_or c (bit_or (b * 2 ^ 8) (a * 2 ^ 16))

-- `lb64encode`: the loop over three bytes, and the switch on what is left.
unfoldable pub b64encode : List ℕ → List ℕ
b64encode [] = []
b64encode (a ∷ []) = encoding (a / 2 ^ 2) ∷ encoding (bit_and a 3 * 2 ^ 4) ∷ 61 ∷ 61 ∷ []
b64encode (a ∷ b ∷ []) =
    let v = bit_or b (a * 2 ^ 8) in
    encoding (v / 2 ^ 10)
    ∷ encoding (bit_and (v / 2 ^ 4) 0x3f)
    ∷ encoding (bit_and v 0xf * 2 ^ 2)
    ∷ 61
    ∷ []
b64encode (a ∷ b ∷ c ∷ text) =
    let v = word3 a b c in
    encoding (v / 2 ^ 18)
    ∷ encoding (bit_and (v / 2 ^ 12) 0x3f)
    ∷ encoding (bit_and (v / 2 ^ 6) 0x3f)
    ∷ encoding (bit_and v 0x3f)
    ∷ b64encode text

-- What `b64index` returns: -1, -2, or a digit.
pub data Digit : Type 0 where
  skip : Digit
  pad : Digit
  digit : ℕ → Digit

-- `b64index`, whose table is the inverse of `encoding`, with -2 at `=`.
unfoldable pub b64index : ℕ → Digit
b64index c =
    if c == 43
    then digit 62
    else if c == 47
    then digit 63
    else if leb 48 c && leb c 57
    then digit (c + 4)
    else if c == 61
    then pad
    else if leb 65 c && leb c 90
    then digit (c - 65)
    else if leb 97 c && leb c 122
    then digit (c - 71)
    else skip

abbrev pub keep : Digit → List Digit
keep skip = []
keep d = d ∷ []

-- The switch of `lb64decode` on the padding of four digits.
unfoldable pub group : List Digit → Option (List ℕ)
group (digit a ∷ digit b ∷ digit c ∷ digit d ∷ []) =
    let v = bit_or d (bit_or (c * 2 ^ 6) (bit_or (b * 2 ^ 12) (a * 2 ^ 18))) in
    some (v / 2 ^ 16 % 256 ∷ v / 2 ^ 8 % 256 ∷ v % 256 ∷ [])
group (digit a ∷ digit b ∷ digit c ∷ pad ∷ []) =
    let v = bit_or (c / 2 ^ 2) (bit_or (b * 2 ^ 4) (a * 2 ^ 10)) in
    if bit_and c 3 == 0 then some (v / 2 ^ 8 % 256 ∷ v % 256 ∷ []) else none
group (digit a ∷ digit b ∷ pad ∷ pad ∷ []) =
    let v = bit_or (b / 2 ^ 4) (a * 2 ^ 2) in
    if bit_and b 0xf == 0 then some (v % 256 ∷ []) else none
group _ = none

-- `lb64decode`: `ds` are the digits read of a group of four, and `inside` says that the inner loop has
-- read a character of it.
unfoldable pub gather : Bool → List Digit → List ℕ → Option (List ℕ)
gather inside ds [] = if inside then none else some []
gather inside ds (c ∷ text) =
    let ds' = ds ++ keep (b64index c) in
    let more = gather true ds' text in
    let next = gather false [] text in
    if length ds' == 4 then (group ds' >>= λ out. next >>= λ rest. some (out ++ rest)) else more

unfoldable pub b64decode : List ℕ → Option (List ℕ)
b64decode text = gather false [] text
