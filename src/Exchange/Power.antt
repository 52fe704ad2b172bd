-- ===== src/Exchange/Power.antt =====
-- `pow_mod_p` and `powmodp` of lua-crypt.c compute powers modulo the prime.
use sdy.Base.{
  ==→eq, ==→ne, Bool-cases, ap, ap₂, arith, inl, inr, ltb, pow-suc, suc, sym, zero, ℕ, ◌%◌, ◌*◌,
  ◌+◌, ◌/◌, ◌<◌, ◌==◌, ◌^◌, ◌∙◌, ◌≡◌, ◌≢◌, ◌≤◌,
}
use native.Mathlib.Nat.{mul_assoc, pow-zero}
use sdy.Exchange.{prime, mul_mod_p, pow_loop, powmodp}
use sdy.Exchange.Product.{mul_mod_p_lem, mod-mul-mod}

product : (x y a b : ℕ) → x ≡ a % prime → y ≡ b % prime → mul_mod_p x y ≡ a * b % prime
product x y a b p q =
    mul_mod_p_lem x y (omega (arith, p)) (omega (arith, q))
    ∙ ap₂ (λ (s t : ℕ). s * t % prime) p q
    ∙ mod-mul-mod a b

pub power_sum : (a m n : ℕ) → a ^ m * a ^ n ≡ a ^ (m + n)
power_sum a m zero = ap (◌*◌ (a ^ m)) (pow-zero a) ∙ ground arith
power_sum a m (suc n) =
    ap (◌*◌ (a ^ m)) (pow-suc a n)
    ∙ sym (mul_assoc (a ^ m) (a ^ n) a)
    ∙ ap (λ (t : ℕ). t * a) (power_sum a m n)
    ∙ sym (pow-suc a (m + n))
    ∙ ap (◌^◌ a) {x = suc (m + n)} {y = m + suc n} (omega arith)

square : (a b : ℕ) → b % 2 ≡ 0 → a ^ (b / 2) * a ^ (b / 2) ≡ a ^ b
square a b e = power_sum a (b / 2) (b / 2) ∙ ap (◌^◌ a) {y = b} (omega (arith, e))

odd_power : (a b : ℕ) → b % 2 ≡ 1 → a ^ (b / 2) * a ^ (b / 2) * a ≡ a ^ b
odd_power a b e =
    ap (λ (t : ℕ). t * a) (power_sum a (b / 2) (b / 2))
    ∙ sym (pow-suc a (b / 2 + b / 2))
    ∙ ap (◌^◌ a) {x = suc (b / 2 + b / 2)} {y = b} (omega (arith, e))

power_one : (a : ℕ) → a ^ 1 ≡ a
power_one a = pow-suc a 0 ∙ ap (λ (t : ℕ). t * a) (pow-zero a) ∙ omega arith

pub pow_loop-eq :
    (fuel a b : ℕ) → a < prime → 1 ≤ b → b < 2 ^ fuel → pow_loop fuel a b ≡ a ^ b % prime
unfolding pow_loop
pow_loop-eq zero a b h o f = absurd (omega (arith, o, f))
pow_loop-eq (suc fuel) a b h o f = elim (Bool-cases (b == 1)) [
  | inl e ↦
      let one : a ^ b ≡ a = ap (◌^◌ a) (==→eq b 1 e) ∙ power_one a in rw e (omega (arith, h, one))
  | inr e ↦
      let big : 1 ≤ b / 2 = let n = ==→ne b 1 e in omega (arith, n, o) in
      let t = pow_loop-eq fuel a (b / 2) h big (omega (arith, f, pow-suc 2 fuel)) in
      let t2 =
        product (pow_loop fuel a (b / 2)) (pow_loop fuel a (b / 2)) (a ^ (b / 2)) (a ^ (b / 2)) t
          t in
      elim (Bool-cases (b % 2 == 0)) [
        | inl z ↦ rw e (rw z (t2 ∙ ap (λ (n : ℕ). n % prime) (square a b (==→eq (b % 2) 0 z))))
        | inr z ↦
            let odd : b % 2 ≡ 1 = let n = ==→ne (b % 2) 0 z in omega (arith, n) in
            rw e (
              rw z (
                product (mul_mod_p (pow_loop fuel a (b / 2)) (pow_loop fuel a (b / 2))) a
                  (a ^ (b / 2) * a ^ (b / 2)) a t2 (omega (arith, h))
                ∙ ap (λ (n : ℕ). n % prime) (odd_power a b odd)))
      ]
]

pub power-mod : (a b : ℕ) → (a % prime) ^ b % prime ≡ a ^ b % prime
power-mod a zero = ap (λ (n : ℕ). n % prime) (pow-zero (a % prime) ∙ sym (pow-zero a))
power-mod a (suc b) =
    ap (λ (n : ℕ). n % prime) (pow-suc (a % prime) b)
    ∙ sym (mod-mul-mod ((a % prime) ^ b) (a % prime))
    ∙ ap₂ (λ (x y : ℕ). x * y % prime) (power-mod a b) (omega arith)
    ∙ mod-mul-mod (a ^ b) a
    ∙ ap (λ (n : ℕ). n % prime) (sym (pow-suc a b))

-- For an exponent from 1 up to the largest word and any base but the prime itself, `powmodp` returns
-- the power modulo the prime.
pub powmodp_lem : (a b : ℕ) → a ≢ prime → 1 ≤ b → b < 2 ^ 64 → powmodp a b ≡ a ^ b % prime
unfolding powmodp
powmodp_lem a b n o f = elim (Bool-cases (ltb prime a)) [
  | inl e ↦ rw e (pow_loop-eq 64 (a % prime) b (omega arith) o f ∙ power-mod a b)
  | inr e ↦ rw e (pow_loop-eq 64 a b (ground arith) o f)
]
