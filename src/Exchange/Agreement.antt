-- ===== src/Exchange/Agreement.antt =====
-- Both sides of the exchange of lua-crypt.c come to the same secret.
use sdy.Base.{
  List, [], ap, arith, false, length, pow-suc, refl, some, suc, sym, zero, ℕ, ◌%◌, ◌*◌, ◌+◌, ◌<◌,
  ◌==◌, ◌^◌, ◌||◌, ◌∙◌, ◌∷◌, ◌≡◌, ◌≤◌,
}
use sdy.Exchange.{prime, powmodp, word64, push64, generator, dhexchange, dhsecret}
use native.Mathlib.Nat.{mul_comm, pow-zero}
use sdy.Exchange.Power.{power_sum, power-mod, powmodp_lem}

-- `read64` gives back the word that `push64` wrote.
pub word64-push64 : (r : ℕ) → r < 2 ^ 64 → word64 (push64 r) ≡ some r
unfolding word64 push64
word64-push64 r h = ap some (omega (arith, h))

pow_pow : (g a b : ℕ) → (g ^ a) ^ b ≡ g ^ (a * b)
pow_pow g a zero =
    pow-zero (g ^ a) ∙ sym (pow-zero g) ∙ ap (◌^◌ g) {x = 0} {y = a * 0} (omega arith)
pow_pow g a (suc b) =
    pow-suc (g ^ a) b
    ∙ ap (λ (t : ℕ). t * g ^ a) (pow_pow g a b)
    ∙ power_sum g (a * b) a
    ∙ ap (◌^◌ g) {x = a * b + a} {y = a * suc b} (ground arith)

pow_swap : (g a b : ℕ) → (g ^ a) ^ b ≡ (g ^ b) ^ a
pow_swap g a b = pow_pow g a b ∙ ap (◌^◌ g) (mul_comm a b) ∙ sym (pow_pow g b a)

secret :
    (a b : ℕ)
    → 1 ≤ a
    → a < 2 ^ 64
    → 1 ≤ b
    → b < 2 ^ 64
    → powmodp (powmodp generator a) b ≡ (generator ^ a) ^ b % prime
secret a b a1 ah b1 bh =
    let public = powmodp_lem generator a (omega arith) a1 ah in
    powmodp_lem (powmodp generator a) b (omega (arith, public)) b1 bh
    ∙ ap (λ (n : ℕ). n ^ b % prime) public
    ∙ power-mod (generator ^ a) b

-- For secrets `a` and `b` from 1 up to the largest word, raising the one side's public number to the
-- other side's secret gives both sides the same number, and it is a reduced word.
pub powmodp_agrees :
    (a b : ℕ)
    → 1 ≤ a
    → a < 2 ^ 64
    → 1 ≤ b
    → b < 2 ^ 64
    → (powmodp (powmodp generator a) b ≡ powmodp (powmodp generator b) a)
      × (powmodp (powmodp generator a) b < prime)
powmodp_agrees a b a1 ah b1 bh =
    let s = secret a b a1 ah b1 bh in
    (
      s ∙ ap (λ (n : ℕ). n % prime) (pow_swap generator a b) ∙ sym (secret b a b1 bh a1 ah),
      omega (arith, s),
    )

-- No power of the generator is a multiple of the prime.
power_nonzero : (a : ℕ) → 1 ≤ generator ^ a % prime
power_nonzero zero = omega (arith, pow-zero 5)
power_nonzero (suc a) = let before = power_nonzero a in omega (arith, pow-suc 5 a, before)

-- The number of bytes that stand lowest first.
unfoldable pub number : List ℕ → ℕ
number [] = 0
number (b ∷ bs) = b + 256 * number bs

word64-number : (x : List ℕ) → length x ≡ 8 → word64 x ≡ some (number x)
unfolding word64 number
word64-number [] h = absurd (omega (arith, h))
word64-number (a ∷ []) h = absurd (omega (arith, h))
word64-number (a ∷ b ∷ []) h = absurd (omega (arith, h))
word64-number (a ∷ b ∷ c ∷ []) h = absurd (omega (arith, h))
word64-number (a ∷ b ∷ c ∷ d ∷ []) h = absurd (omega (arith, h))
word64-number (a ∷ b ∷ c ∷ d ∷ e ∷ []) h = absurd (omega (arith, h))
word64-number (a ∷ b ∷ c ∷ d ∷ e ∷ f ∷ []) h = absurd (omega (arith, h))
word64-number (a ∷ b ∷ c ∷ d ∷ e ∷ f ∷ g ∷ []) h = absurd (omega (arith, h))
word64-number (a ∷ b ∷ c ∷ d ∷ e ∷ f ∷ g ∷ i ∷ []) h = ap some (omega arith)
word64-number (a ∷ b ∷ c ∷ d ∷ e ∷ f ∷ g ∷ i ∷ j ∷ x) h = absurd (omega (arith, h))

number-push64 : (r : ℕ) → r < 2 ^ 64 → number (push64 r) ≡ r
unfolding push64 number
number-push64 r h = omega (arith, h)

public_number : (a : ℕ) → 1 ≤ a → a < 2 ^ 64 → powmodp generator a ≡ generator ^ a % prime
public_number a a1 ah = powmodp_lem generator a (omega arith) a1 ah

dhexchange-number :
    (x : List ℕ)
    → length x ≡ 8
    → 1 ≤ number x
    → dhexchange x ≡ some (push64 (powmodp generator (number x)))
unfolding dhexchange
dhexchange-number x eight positive =
    let nonzero : (number x == 0) ≡ false = ground arith in
    rw (word64-number x eight) (rw nonzero refl)

dhsecret-push64 :
    (m : ℕ) (y : List ℕ)
    → 1 ≤ m
    → m < 2 ^ 64
    → length y ≡ 8
    → 1 ≤ number y
    → dhsecret (push64 m) y ≡ some (push64 (powmodp m (number y)))
unfolding dhsecret
dhsecret-push64 m y m1 mh eight positive =
    let nonzero : ((m == 0) || (number y == 0)) ≡ false = ground arith in
    rw (word64-push64 m mh) (rw (word64-number y eight) (rw nonzero refl))

-- The secret that one side makes of the other side's public text.
one_side :
    (a : ℕ) (y : List ℕ)
    → 1 ≤ a
    → a < 2 ^ 64
    → length y ≡ 8
    → 1 ≤ number y
    → dhsecret (push64 (powmodp generator a)) y
      ≡ some (push64 (powmodp (powmodp generator a) (number y)))
one_side a y a1 ah eight positive =
    let public = public_number a a1 ah in
    let nonzero = power_nonzero a in
    dhsecret-push64 (powmodp generator a) y (omega (arith, public, nonzero)) (omega (arith, public))
      eight positive

-- When two sides have secret texts of eight bytes, whose numbers with the lowest byte first are not 0
-- and fit in 64 bits, `ldhexchange` gives each a public text, and `ldhsecret` of the other side's
-- public text and one's own secret text gives both the same text. Its number is the power of 5 to the
-- product of the secrets, modulo the prime.
pub dhsecret_agrees :
    (x y : List ℕ)
    → length x ≡ 8
    → length y ≡ 8
    → 1 ≤ number x
    → number x < 2 ^ 64
    → 1 ≤ number y
    → number y < 2 ^ 64
    → (p : List ℕ) × (q : List ℕ) × (s : List ℕ) × (dhexchange x ≡ some p)
      × (dhexchange y ≡ some q)
      × (dhsecret p y ≡ some s)
      × (dhsecret q x ≡ some s)
      × (number s ≡ generator ^ (number x * number y) % prime)
dhsecret_agrees x y x8 y8 x1 xh y1 yh =
    let agree = powmodp_agrees (number x) (number y) x1 xh y1 yh in
    (
      push64 (powmodp generator (number x)),
      push64 (powmodp generator (number y)),
      push64 (powmodp (powmodp generator (number x)) (number y)),
      dhexchange-number x x8 x1,
      dhexchange-number y y8 y1,
      one_side (number x) y x1 xh y8 y1,
      one_side (number y) x y1 yh x8 x1 ∙ ap (λ (r : ℕ). some (push64 r)) (sym agree.0),
      number-push64 _ (let reduced = agree.1 in omega (arith, reduced))
          ∙ secret (number x) (number y) x1 xh y1 yh
          ∙ ap (λ (r : ℕ). r % prime) (pow_pow generator (number x) (number y)),
    )
