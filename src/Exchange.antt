-- ===== src/Exchange.antt =====
-- The Diffie-Hellman exchange of skynet/lualib-src/lua-crypt.c: arithmetic modulo the largest 64-bit
-- prime. A `uint64_t` is a number below 2 ^ 64, and each operation writes out its wrap.
pub mod Product
pub mod Power
pub mod Agreement
mod Tests
use sdy.Base.{
  List, Option, [], if◌then◌else◌, leb, ltb, none, some, suc, zero, ℕ, ◌%◌, ◌*◌, ◌+◌, ◌-◌, ◌/◌,
  ◌==◌, ◌>>=◌, ◌^◌, ◌||◌, ◌∷◌,
}

-- `P`
abbrev pub prime : ℕ
prime = 0xffffffffffffffc5

abbrev pub sub64 : ℕ → ℕ → ℕ
sub64 a b = (a + (2 ^ 64 - b)) % 2 ^ 64

-- `if (b&1) { ... }` of `mul_mod_p`
unfoldable pub add_mod_p : ℕ → ℕ → ℕ
add_mod_p m a = let t = sub64 prime a in if leb t m then sub64 m t else (m + a) % 2 ^ 64

-- The doubling in `mul_mod_p`
unfoldable pub double_mod_p : ℕ → ℕ
double_mod_p a = if leb (sub64 prime a) a then sub64 (a * 2 % 2 ^ 64) prime else a * 2 % 2 ^ 64

-- The loop of `mul_mod_p`: each round halves `b`, so its bits are the rounds.
unfoldable pub mul_loop : ℕ → ℕ → ℕ → ℕ → ℕ
unfolding add_mod_p double_mod_p
mul_loop zero m a b = m
mul_loop (suc fuel) m a b =
    let rest = mul_loop fuel (if b % 2 == 1 then add_mod_p m a else m) (double_mod_p a) (b / 2) in
    if b == 0 then m else rest

-- `mul_mod_p`
unfoldable pub mul_mod_p : ℕ → ℕ → ℕ
unfolding mul_loop
mul_mod_p a b = mul_loop 64 0 a b

-- `pow_mod_p`: each call halves `b`.
unfoldable pub pow_loop : ℕ → ℕ → ℕ → ℕ
pow_loop zero a b = a
pow_loop (suc fuel) a b =
    let t = pow_loop fuel a (b / 2) in
    let t2 = mul_mod_p t t in if b == 1 then a else if b % 2 == 0 then t2 else mul_mod_p t2 a

-- `powmodp`
unfoldable pub powmodp : ℕ → ℕ → ℕ
powmodp a b = if ltb prime a then pow_loop 64 (a % prime) b else pow_loop 64 a b

-- The low word and the high word that `read64` and `ldhexchange` make of eight bytes, as one number;
-- `none` is a text of another size.
unfoldable pub word64 : List ℕ → Option ℕ
word64 (a ∷ b ∷ c ∷ d ∷ e ∷ f ∷ g ∷ h ∷ []) =
    some (
      (a + b * 2 ^ 8 + c * 2 ^ 16 + d * 2 ^ 24)
      + (e + f * 2 ^ 8 + g * 2 ^ 16 + h * 2 ^ 24) * 2 ^ 32)
word64 _ = none

-- `push64`
unfoldable pub push64 : ℕ → List ℕ
push64 r =
    r % 256
    ∷ r / 2 ^ 8 % 256
    ∷ r / 2 ^ 16 % 256
    ∷ r / 2 ^ 24 % 256
    ∷ r / 2 ^ 32 % 256
    ∷ r / 2 ^ 40 % 256
    ∷ r / 2 ^ 48 % 256
    ∷ r / 2 ^ 56 % 256
    ∷ []

abbrev pub generator : ℕ
generator = 5

-- `ldhexchange`; `none` is a call of `luaL_error`.
unfoldable pub dhexchange : List ℕ → Option (List ℕ)
dhexchange x = word64 x >>= λ n. if n == 0 then none else some (push64 (powmodp generator n))

-- `ldhsecret`
unfoldable pub dhsecret : List ℕ → List ℕ → Option (List ℕ)
dhsecret x y = word64 x >>= λ m.
    word64 y >>= λ n. if (m == 0) || (n == 0) then none else some (push64 (powmodp m n))
