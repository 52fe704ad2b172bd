-- ===== src/Exchange/Product.antt =====
-- `mul_mod_p` of lua-crypt.c is the product modulo the prime, with no wrap of a 64-bit word.
use sdy.Base.{
  ==→eq, ==→ne, Bool-cases, ap, arith, if◌then◌else◌, inl, inr, pow-suc, suc, sym, zero, ℕ, ◌%◌,
  ◌*◌, ◌+◌, ◌/◌, ◌<◌, ◌==◌, ◌^◌, ◌∙◌, ◌≡◌, ◌⊎◌,
}
use sdy.Exchange.{prime, add_mod_p, double_mod_p, mul_loop, mul_mod_p}
use native.Mathlib.Nat.{mul-add, add-mul, mul_comm, mul_assoc}

-- The sum is reduced at most once.
pub add_mod_p-sum :
    (m a : ℕ)
    → m < prime
    → a < prime
    → (add_mod_p m a < prime) × ((add_mod_p m a ≡ m + a) ⊎ (add_mod_p m a + prime ≡ m + a))
unfolding add_mod_p
add_mod_p-sum m a h k = ground arith

pub double_mod_p-sum :
    (a : ℕ)
    → a < prime
    → (double_mod_p a < prime) × ((double_mod_p a ≡ a * 2) ⊎ (double_mod_p a + prime ≡ a * 2))
unfolding double_mod_p
double_mod_p-sum a h = ground arith

-- One round changes `m + a * b` by a multiple of the prime.
scaled : (x a c : ℕ) → x + prime ≡ a * 2 → x * c + prime * c ≡ 2 * (a * c)
scaled x a c e =
    sym (add-mul x prime c) ∙ ap (λ (t : ℕ). t * c) (e ∙ mul_comm a 2) ∙ mul_assoc 2 a c

halved : (a b : ℕ) → a * b ≡ a * (b % 2) + 2 * (a * (b / 2))
halved a b =
    ap (◌*◌ a) (let e : b ≡ b % 2 + b / 2 * 2 = omega arith in e)
    ∙ mul-add a (b % 2) (b / 2 * 2)
    ∙ ap (λ (t : ℕ). a * (b % 2) + t) (sym (mul_assoc a (b / 2) 2) ∙ mul_comm (a * (b / 2)) 2)

-- The sum with a bit of `b`.
bit_sum :
    (m a b : ℕ)
    → m < prime
    → a < prime
    → let n = if b % 2 == 1 then add_mod_p m a else m in
      (n < prime) × (l : ℕ) × (n + prime * l ≡ m + a * (b % 2))
bit_sum m a b h k = elim (Bool-cases (b % 2 == 1)) [
  | inl e ↦
      let one : a * (b % 2) ≡ a = ap (◌*◌ a) (==→eq (b % 2) 1 e) ∙ omega arith in
      let (below, sum) = add_mod_p-sum m a h k in
      rw e (elim sum [
        | inl s ↦ (below, 0, omega (arith, one, s))
        | inr s ↦ (below, 1, omega (arith, one, s))
      ])
  | inr e ↦
      let none_set : b % 2 ≡ 0 = let n = ==→ne (b % 2) 1 e in omega (arith, n) in
      let zero_sum : a * (b % 2) ≡ 0 = ap (◌*◌ a) none_set ∙ omega arith in
      rw e (h, 0, omega (arith, zero_sum))
]

-- What a doubled factor adds up to.
doubled :
    (a c : ℕ)
    → a < prime
    → (double_mod_p a < prime) × (e : ℕ) × (double_mod_p a * c + prime * e ≡ 2 * (a * c))
doubled a c h =
    let (below, sum) = double_mod_p-sum a h in
    elim sum [
      | inl s ↦ (
        below,
        0,
        let p : double_mod_p a * c ≡ 2 * (a * c) =
              ap (λ (t : ℕ). t * c) (s ∙ mul_comm a 2) ∙ mul_assoc 2 a c in
            omega (arith, p),
      )
      | inr s ↦ (below, c, scaled (double_mod_p a) a c s)
    ]

-- Congruent to the sum, and reduced.
abbrev Reduces : ℕ → ℕ → Type 0
Reduces r n = (r < prime) × (k : ℕ) × (r + prime * k ≡ n)

mul_loop-Reduces :
    (fuel m a b : ℕ)
    → m < prime
    → a < prime
    → b < 2 ^ fuel
    → Reduces (mul_loop fuel m a b) (m + a * b)
unfolding mul_loop
mul_loop-Reduces zero m a b h k f =
    let z : b ≡ 0 = omega (arith, f) in
    let p : a * b ≡ 0 = ap (◌*◌ a) z ∙ omega arith in (h, 0, omega (arith, p))
mul_loop-Reduces (suc fuel) m a b h k f =
    let n = if b % 2 == 1 then add_mod_p m a else m in
    let (n_below, l, n_sum) = bit_sum m a b h k in
    let (d_below, e, d_sum) = doubled a (b / 2) k in
    let (below, j, sum) =
      mul_loop-Reduces fuel n (double_mod_p a) (b / 2) n_below d_below
        (omega (arith, f, pow-suc 2 fuel)) in
    elim (Bool-cases (b == 0)) [
      | inl z ↦
          let p : a * b ≡ 0 = ap (◌*◌ a) (==→eq b 0 z) ∙ omega arith in
          rw z (h, 0, omega (arith, p))
      | inr z ↦ rw z (below, j + l + e, omega (arith, sum, n_sum, d_sum, halved a b))
    ]

reduced : (r n : ℕ) → Reduces r n → r ≡ n % prime
reduced r n (below, k, e) = omega (arith, below, e)

-- On factors below the prime, `mul_mod_p` returns their product modulo the prime.
pub mul_mod_p_lem : (a b : ℕ) → a < prime → b < prime → mul_mod_p a b ≡ a * b % prime
unfolding mul_mod_p
mul_mod_p_lem a b h k =
    let (below, j, e) = mul_loop-Reduces 64 0 a b (omega arith) h (omega (arith, k)) in
    reduced (mul_loop 64 0 a b) (a * b) (below, j, omega (arith, e))

-- The result is a reduced word.
pub mul_mod_p-lt : (a b : ℕ) → a < prime → b < prime → mul_mod_p a b < prime
mul_mod_p-lt a b h k = omega (arith, mul_mod_p_lem a b h k)

split_left : (x y : ℕ) → x * y ≡ x % prime * y + prime * (x / prime * y)
split_left x y =
    ap (λ (z : ℕ). z * y) (let e : x ≡ x % prime + prime * (x / prime) = omega arith in e)
    ∙ add-mul (x % prime) (prime * (x / prime)) y
    ∙ ap (λ (z : ℕ). x % prime * y + z) (mul_assoc prime (x / prime) y)

-- The remainder of a product is that of the remainders' product.
pub mod-mul-mod : (x y : ℕ) → (x % prime) * (y % prime) % prime ≡ x * y % prime
mod-mul-mod x y =
    let left = split_left x y in
    let right = split_left y (x % prime) in
    omega (arith, left, right, mul_comm y (x % prime), mul_comm (y % prime) (x % prime))
