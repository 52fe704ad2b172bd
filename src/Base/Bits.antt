-- ===== src/Base/Bits.antt =====
-- `x & (2 ^ k - 1)` is a remainder, and `|` of numbers without common bits is a sum.
use Prim.Native.Nat.{
  ℕ, zero, suc, ◌+◌, ◌-◌, ◌*◌, ◌/◌, ◌%◌, ◌^◌, ◌≤◌, ◌<◌, min, max, digits, bit_and, bit_or,
  bit_and-bitwise, bit_or-bitwise,
}
use mathlib.Core.Path.{◌≡◌, refl, ap, ◌∙◌}
use native.Mathlib.Nat.{pow-suc, add-mul-mod_self_left, div-add-mod, mod-lt, mod-eq_of_lt}
use native.Mathlib.Omega.{arith}

two_pow_pos : (k : ℕ) → 1 ≤ 2 ^ k
two_pow_pos zero = omega arith
two_pow_pos (suc k) = omega (arith, pow-suc 2 k, two_pow_pos k)

-- One binary digit of a remainder by an even number.
mod_double : (n p : ℕ) → 1 ≤ p → n % (p * 2) ≡ n / 2 % p * 2 + n % 2
mod_double n p h =
    let r = n / 2 % p * 2 + n % 2 in
    ap (λ (t : ℕ). t % (p * 2)) {x = n} {y = r + p * 2 * (n / 2 / p)}
      (omega (arith, div-add-mod (n / 2) p))
    ∙ add-mul-mod_self_left r (p * 2) (n / 2 / p)
    ∙ mod-eq_of_lt (omega (arith, mod-lt (n / 2) {m = p} h))

no_mask_digits : (fuel a : ℕ) → digits (λ _. zero) min fuel a 0 ≡ 0
no_mask_digits zero a = refl
no_mask_digits (suc fuel) zero = refl
no_mask_digits (suc fuel) (suc a) = omega (arith, no_mask_digits fuel (suc a / 2))

mask_digits : (k fuel a : ℕ) → a ≤ fuel → digits (λ _. zero) min fuel a (2 ^ k - 1) ≡ a % 2 ^ k
mask_digits zero fuel a h = no_mask_digits fuel a ∙ omega arith
mask_digits (suc k) zero zero h = omega (arith, pow-suc 2 k, two_pow_pos k)
mask_digits (suc k) zero (suc a) h = absurd (omega arith)
mask_digits (suc k) (suc fuel) zero h = omega (arith, pow-suc 2 k, two_pow_pos k)
mask_digits (suc k) (suc fuel) (suc a) h =
    let half : (2 ^ suc k - 1) / 2 ≡ 2 ^ k - 1 = omega (arith, pow-suc 2 k, two_pow_pos k) in
    let odd : (2 ^ suc k - 1) % 2 ≡ 1 = omega (arith, pow-suc 2 k, two_pow_pos k) in
    omega (
      arith,
      ap (λ (t : ℕ). digits (λ _. zero) min fuel (suc a / 2) t) half,
      odd,
      mask_digits k fuel (suc a / 2) (omega arith),
      mod_double (suc a) (2 ^ k) (two_pow_pos k),
      ap (λ (t : ℕ). suc a % t) (pow-suc 2 k),
    )

pub bit_and_mask : (a k : ℕ) → bit_and a (2 ^ k - 1) ≡ a % 2 ^ k
bit_and_mask a k = bit_and-bitwise a (2 ^ k - 1) ∙ mask_digits k a a (omega arith)

join_digits :
    (k fuel a b : ℕ) → a ≤ fuel → a < 2 ^ k → digits (λ t. t) max fuel a (b * 2 ^ k) ≡ a + b * 2 ^ k
join_digits k zero zero b h l = omega arith
join_digits k (suc fuel) zero b h l = omega arith
join_digits k zero (suc a) b h l = absurd (omega arith)
join_digits zero (suc fuel) (suc a) b h l = absurd (omega arith)
join_digits (suc k) (suc fuel) (suc a) b h l =
    let whole : b * 2 ^ suc k ≡ b * 2 ^ k * 2 =
      omega (arith, ap (λ (t : ℕ). b * t) (pow-suc 2 k)) in
    omega (
      arith,
      whole,
      ap (λ (t : ℕ). digits (λ t. t) max fuel (suc a / 2) t) {x = b * 2 ^ suc k / 2} {y = b * 2 ^ k}
          (omega arith),
      join_digits k fuel (suc a / 2) b (omega arith) (omega (arith, pow-suc 2 k)),
    )

pub bit_or_join : (a b k : ℕ) → a < 2 ^ k → bit_or a (b * 2 ^ k) ≡ a + b * 2 ^ k
bit_or_join a b k h = bit_or-bitwise a (b * 2 ^ k) ∙ join_digits k a a b (omega arith) h

no_fill_digits : (fuel a : ℕ) → a ≤ fuel → digits (λ t. t) max fuel a 0 ≡ a
no_fill_digits zero a h = omega (arith, h)
no_fill_digits (suc fuel) zero h = refl
no_fill_digits (suc fuel) (suc a) h =
    let bit : max (suc a % 2) 0 ≡ suc a % 2 = omega arith in
    omega (arith, bit, no_fill_digits fuel (suc a / 2) (omega (arith, h)))

fill_digits :
    (k fuel a : ℕ) → a ≤ fuel → digits (λ t. t) max fuel a (2 ^ k - 1) + a % 2 ^ k ≡ a + (2 ^ k - 1)
fill_digits zero fuel a h = omega (arith, no_fill_digits fuel a h)
fill_digits (suc k) zero zero h = omega (
  arith,
  pow-suc 2 k,
  two_pow_pos k,
  mod-eq_of_lt {n = 0} {m = 2 ^ suc k} (omega (arith, pow-suc 2 k, two_pow_pos k)),
)
fill_digits (suc k) zero (suc a) h = absurd (omega arith)
fill_digits (suc k) (suc fuel) zero h = omega (
  arith,
  pow-suc 2 k,
  two_pow_pos k,
  mod-eq_of_lt {n = 0} {m = 2 ^ suc k} (omega (arith, pow-suc 2 k, two_pow_pos k)),
)
fill_digits (suc k) (suc fuel) (suc a) h =
    let half : (2 ^ suc k - 1) / 2 ≡ 2 ^ k - 1 = omega (arith, pow-suc 2 k, two_pow_pos k) in
    let odd : (2 ^ suc k - 1) % 2 ≡ 1 = omega (arith, pow-suc 2 k, two_pow_pos k) in
    let bit : max (suc a % 2) ((2 ^ suc k - 1) % 2) ≡ 1 = omega (arith, odd) in
    omega (
      arith,
      ap (λ (t : ℕ). digits (λ t. t) max fuel (suc a / 2) t) half,
      bit,
      pow-suc 2 k,
      two_pow_pos k,
      fill_digits k fuel (suc a / 2) (omega arith),
      mod_double (suc a) (2 ^ k) (two_pow_pos k),
      ap (λ (t : ℕ). suc a % t) (pow-suc 2 k),
    )

-- `x | (2 ^ k - 1)` sets the low bits.
pub bit_or_mask : (a k : ℕ) → bit_or a (2 ^ k - 1) + a % 2 ^ k ≡ a + (2 ^ k - 1)
bit_or_mask a k =
    ap (λ (t : ℕ). t + a % 2 ^ k) (bit_or-bitwise a (2 ^ k - 1)) ∙ fill_digits k a a (omega arith)
