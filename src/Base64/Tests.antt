-- ===== src/Base64/Tests.antt =====
-- The theorem on the base64 texts of lua-crypt.c at four bytes.
use sdy.Base.{[], arith, some, ◌∷◌, ◌≡◌}
use sdy.Base64.{b64encode, b64decode}
use sdy.Base64.RoundTrip.{b64decode-b64encode}

b64decode-b64encode_example :
    b64decode (b64encode (77 ∷ 255 ∷ 0 ∷ 110 ∷ [])) ≡ some (77 ∷ 255 ∷ 0 ∷ 110 ∷ [])
b64decode-b64encode_example =
    b64decode-b64encode (77 ∷ 255 ∷ 0 ∷ 110 ∷ [])
      (omega arith, (omega arith, (omega arith, (omega arith, tt))))
