-- ===== src/Hex/Laws.antt =====
-- Decoding an encoded text gives it back.
use sdy.Base.{
  ==→eq, ==→ne, Bool, Bool-cases, List, [], ap, ap₂, arith, bit_and, bit_or, false, get_or, inl,
  inr, ltb, refl, some, suc, true, zero, ℕ, ◌%◌, ◌&&◌, ◌*◌, ◌+◌, ◌/◌, ◌<◌, ◌==◌, ◌^◌, ◌||◌, ◌∙◌,
  ◌∷◌, ◌≡◌,
}
use sdy.Hex.{hex_digits, tohex, hex_value, fromhex}
use sdy.Base.Bits.{bit_and_mask}

abbrev pub IsBytes : List ℕ → Type 0
IsBytes [] = Unit
IsBytes (x ∷ xs) = (x < 256) × IsBytes xs

hex_value-digit : (n : ℕ) → n < 16 → hex_value (get_or hex_digits n 0) ≡ n
unfolding hex_value
hex_value-digit zero h = refl
hex_value-digit (suc zero) h = refl
hex_value-digit (suc (suc zero)) h = refl
hex_value-digit (suc (suc (suc zero))) h = refl
hex_value-digit (suc (suc (suc (suc zero)))) h = refl
hex_value-digit (suc (suc (suc (suc (suc zero))))) h = refl
hex_value-digit (suc (suc (suc (suc (suc (suc zero)))))) h = refl
hex_value-digit (suc (suc (suc (suc (suc (suc (suc zero))))))) h = refl
hex_value-digit (suc (suc (suc (suc (suc (suc (suc (suc zero)))))))) h = refl
hex_value-digit (suc (suc (suc (suc (suc (suc (suc (suc (suc zero))))))))) h = refl
hex_value-digit (suc (suc (suc (suc (suc (suc (suc (suc (suc (suc zero)))))))))) h = refl
hex_value-digit (suc (suc (suc (suc (suc (suc (suc (suc (suc (suc (suc zero))))))))))) h = refl
hex_value-digit (suc (suc (suc (suc (suc (suc (suc (suc (suc (suc (suc (suc zero)))))))))))) h =
    refl
hex_value-digit (suc (suc (suc (suc (suc (suc (suc (suc (suc (suc (suc (suc (suc zero)))))))))))))
      h =
    refl
hex_value-digit
      (suc (suc (suc (suc (suc (suc (suc (suc (suc (suc (suc (suc (suc (suc zero)))))))))))))) h =
    refl
hex_value-digit
      (suc (suc (suc (suc (suc (suc (suc (suc (suc (suc (suc (suc (suc (suc (suc zero)))))))))))))))
      h =
    refl
hex_value-digit
      (suc
        (suc (suc (suc (suc (suc (suc (suc (suc (suc (suc (suc (suc (suc (suc (suc n))))))))))))))))
      h =
    absurd (omega (arith, h))

-- A test of every number below `n`.
abbrev all_below : ℕ → (ℕ → Bool) → Bool
all_below zero f = true
all_below (suc n) f = f n && all_below n f

both_true : (a b : Bool) → (a && b) ≡ true → (a ≡ true) × (b ≡ true)
both_true true true e = (refl, refl)
both_true true false e = absurd (cc)
both_true false b e = absurd (cc)

all_below-at : (n : ℕ) (f : ℕ → Bool) (i : ℕ) → all_below n f ≡ true → i < n → f i ≡ true
all_below-at zero f i e h = absurd (omega (arith, h))
all_below-at (suc n) f i e h = elim (Bool-cases (i == n)) [
  | inl t ↦ ap f (==→eq i n t) ∙ (both_true (f n) (all_below n f) e).0
  | inr t ↦
      let m = ==→ne i n t in
      all_below-at n f i (both_true (f n) (all_below n f) e).1 (omega (arith, m, h))
]

nibbles_checked :
    all_below 16 (λ h. all_below 16 (λ l. bit_or (h * 2 ^ 4) l == h * 2 ^ 4 + l)) ≡ true
nibbles_checked = refl

nibbles : (h l : ℕ) → h < 16 → l < 16 → bit_or (h * 2 ^ 4) l ≡ h * 2 ^ 4 + l
nibbles h l p q = ==→eq _ _ (
    all_below-at 16 (λ m. bit_or (h * 2 ^ 4) m == h * 2 ^ 4 + m) l
      (all_below-at 16 (λ n. all_below 16 (λ m. bit_or (n * 2 ^ 4) m == n * 2 ^ 4 + m)) h
        nibbles_checked p)
      q)

digits_join : (x : ℕ) → x < 256 → bit_or (x / 2 ^ 4 * 2 ^ 4) (bit_and x 0xf) % 256 ≡ x
digits_join x h =
    let low : bit_and x 15 ≡ x % 2 ^ 4 = bit_and_mask x 4 in
    omega
      (arith, h, low, nibbles (x / 2 ^ 4) (bit_and x 15) (omega (arith, h)) (omega (arith, low)))

fromhex-pair :
    (a b x y : ℕ) (text bytes : List ℕ)
    → hex_value a ≡ x
    → hex_value b ≡ y
    → x < 16
    → y < 16
    → fromhex text ≡ some bytes
    → fromhex (a ∷ b ∷ text) ≡ some (bit_or (x * 2 ^ 4) y % 256 ∷ bytes)
unfolding fromhex
fromhex-pair a b x y text bytes p q h k r =
    let fine : (ltb 16 (hex_value a) || ltb 16 (hex_value b)) ≡ false = ground arith in
    rw fine (rw r (ap₂ (λ (s t : ℕ). some (bit_or (s * 2 ^ 4) t % 256 ∷ bytes)) p q))

-- For a text of bytes, `lfromhex` of what `ltohex` makes of it is the text.
pub fromhex-tohex : (xs : List ℕ) → IsBytes xs → fromhex (tohex xs) ≡ some xs
unfolding tohex
fromhex-tohex [] h = unfold fromhex in refl
fromhex-tohex (x ∷ xs) h =
    let high : x / 2 ^ 4 < 16 = omega (arith, h.0) in
    let low : bit_and x 0xf < 16 = omega (arith, bit_and_mask x 4) in
    fromhex-pair (get_or hex_digits (x / 2 ^ 4) 0) (get_or hex_digits (bit_and x 0xf) 0) (x / 2 ^ 4)
      (bit_and x 0xf) (tohex xs) xs (hex_value-digit (x / 2 ^ 4) high)
      (hex_value-digit (bit_and x 0xf) low) high low (fromhex-tohex xs h.1)
    ∙ ap (λ (n : ℕ). some (n ∷ xs)) (digits_join x h.0)
