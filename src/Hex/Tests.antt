-- ===== src/Hex/Tests.antt =====
-- The theorem on the hexadecimal texts of lua-crypt.c at two bytes.
use sdy.Base.{[], arith, some, ◌∷◌, ◌≡◌}
use sdy.Hex.{tohex, fromhex}
use sdy.Hex.Laws.{fromhex-tohex}

fromhex-tohex_example : fromhex (tohex (255 ∷ 16 ∷ [])) ≡ some (255 ∷ 16 ∷ [])
fromhex-tohex_example = fromhex-tohex (255 ∷ 16 ∷ []) (omega arith, (omega arith, tt))
