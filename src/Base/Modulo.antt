-- ===== src/Base/Modulo.antt =====
-- Remainders by a variable, as circular indices use them.
use Prim.Native.Nat.{ℕ, ◌+◌, ◌-◌, ◌%◌, ◌≤◌, ◌<◌}
use mathlib.Core.Path.{◌≡◌, ◌∙◌}
use mathlib.Core.Logic.{◌≢◌}
use native.Mathlib.Nat.{mod-eq_of_lt, mod-eq-sub-mod}
use native.Mathlib.Decide.{dec_lt}
use native.Mathlib.Omega.{arith}

-- Below twice the modulus a remainder is one test and one subtraction.
pub mod_once : (x c : ℕ) → c ≤ x → x < c + c → x % c ≡ x - c
mod_once x c h k = mod-eq-sub-mod h ∙ mod-eq_of_lt (omega arith)

-- Two positions less than a turn apart have different indices.
pub mod-ne_of_lt : (h k n c : ℕ) → h < c → k < n → n < c → (h + k) % c ≢ (h + n) % c
mod-ne_of_lt h k n c hh hk hn = elim (dec_lt (h + n) c) [
  | yes p ↦ omega (arith, mod-eq_of_lt p, mod-eq_of_lt {n = h + k} {m = c} (omega arith))
  | no p ↦ elim (dec_lt (h + k) c) [
    | yes q ↦ omega (arith, mod_once (h + n) c (omega arith) (omega arith), mod-eq_of_lt q)
    | no q ↦ omega (
      arith,
      mod_once (h + n) c (omega arith) (omega arith),
      mod_once (h + k) c (omega arith) (omega arith),
    )
  ]
]
