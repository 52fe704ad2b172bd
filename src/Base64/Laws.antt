-- ===== src/Base64/Laws.antt =====
-- Decoding an encoded text of lua-crypt.c gives it back.
use sdy.Base.{
  List, [], ap, ap₂, arith, bit_and, bit_or, false, refl, some, true, ℕ, ◌*◌, ◌++◌, ◌+◌, ◌/◌, ◌<◌,
  ◌==◌, ◌>>=◌, ◌^◌, ◌∙◌, ◌∷◌, ◌≡◌,
}
use sdy.Base.Bits.{bit_and_mask, bit_or_join}
use sdy.Base64.{encoding, word3, Digit, pad, digit, b64index, keep, group, gather}

pub keep-encoding : (n : ℕ) → n < 64 → keep (b64index (encoding n)) ≡ digit n ∷ []
unfolding b64index encoding
keep-encoding n h = ground arith

pub keep-pad : keep (b64index 61) ≡ pad ∷ []
unfolding b64index
keep-pad = refl

-- Four characters that are digits or padding make one group.
pub gather-four :
    (w x y z : ℕ) (text : List ℕ) (d e f g : Digit)
    → keep (b64index w) ≡ d ∷ []
    → keep (b64index x) ≡ e ∷ []
    → keep (b64index y) ≡ f ∷ []
    → keep (b64index z) ≡ g ∷ []
    → gather false [] (w ∷ x ∷ y ∷ z ∷ text)
      ≡ (group (d ∷ e ∷ f ∷ g ∷ []) >>= λ out. gather false [] text >>= λ rest. some (out ++ rest))
unfolding gather
gather-four w x y z text d e f g p q r s = rw p (rw q (rw r (rw s refl)))

pub word3-sum : (a b c : ℕ) → b < 256 → c < 256 → word3 a b c ≡ c + b * 2 ^ 8 + a * 2 ^ 16
word3-sum a b c h k =
    let inner : bit_or (b * 2 ^ 8) (a * 2 ^ 16) ≡ (b + a * 2 ^ 8) * 2 ^ 8 =
      bit_or_join (b * 2 ^ 8) a 16 (omega (arith, h)) ∙ omega arith in
    ap (bit_or c) inner ∙ bit_or_join c (b + a * 2 ^ 8) 8 k ∙ omega arith

digits_sum :
    (a b c d : ℕ)
    → b < 64
    → c < 64
    → d < 64
    → bit_or d (bit_or (c * 2 ^ 6) (bit_or (b * 2 ^ 12) (a * 2 ^ 18)))
      ≡ d + c * 2 ^ 6 + b * 2 ^ 12 + a * 2 ^ 18
digits_sum a b c d h k l =
    let one : bit_or (b * 2 ^ 12) (a * 2 ^ 18) ≡ (b + a * 2 ^ 6) * 2 ^ 12 =
      bit_or_join (b * 2 ^ 12) a 18 (omega (arith, h)) ∙ omega arith in
    let two : bit_or (c * 2 ^ 6) ((b + a * 2 ^ 6) * 2 ^ 12)
        ≡ (c + (b + a * 2 ^ 6) * 2 ^ 6) * 2 ^ 6 =
      bit_or_join (c * 2 ^ 6) (b + a * 2 ^ 6) 12 (omega (arith, k)) ∙ omega arith in
    ap (λ (t : ℕ). bit_or d (bit_or (c * 2 ^ 6) t)) one
    ∙ ap (bit_or d) two
    ∙ bit_or_join d (c + (b + a * 2 ^ 6) * 2 ^ 6) 6 l
    ∙ omega arith

pub group-three :
    (a b c : ℕ)
    → a < 256
    → b < 256
    → c < 256
    → let v = word3 a b c in
      group (
        digit (v / 2 ^ 18)
        ∷ digit (bit_and (v / 2 ^ 12) 0x3f)
        ∷ digit (bit_and (v / 2 ^ 6) 0x3f)
        ∷ digit (bit_and v 0x3f)
        ∷ [])
      ≡ some (a ∷ b ∷ c ∷ [])
unfolding group
group-three a b c h k l =
    let v = word3 a b c in
    let s = word3-sum a b c k l in
    let p = bit_and_mask (v / 2 ^ 12) 6 in
    let q = bit_and_mask (v / 2 ^ 6) 6 in
    let r = bit_and_mask v 6 in
    let d =
      digits_sum (v / 2 ^ 18) (bit_and (v / 2 ^ 12) 0x3f) (bit_and (v / 2 ^ 6) 0x3f)
        (bit_and v 0x3f) (omega (arith, p)) (omega (arith, q)) (omega (arith, r)) in
    rw d (
      ap₂ (λ (x : ℕ) (xs : List ℕ). some (x ∷ xs)) (omega (arith, s, p, q, r, h, k, l))
        (ap₂ (λ (x y : ℕ). x ∷ y ∷ []) (omega (arith, s, p, q, r, h, k, l))
          (omega (arith, s, p, q, r, h, k, l))))

pub group-two :
    (a b : ℕ)
    → a < 256
    → b < 256
    → let v = bit_or b (a * 2 ^ 8) in
      group (
        digit (v / 2 ^ 10)
        ∷ digit (bit_and (v / 2 ^ 4) 0x3f)
        ∷ digit (bit_and v 0xf * 2 ^ 2)
        ∷ pad
        ∷ [])
      ≡ some (a ∷ b ∷ [])
unfolding group
group-two a b h k =
    let v = bit_or b (a * 2 ^ 8) in
    let s = bit_or_join b a 8 k in
    let p = bit_and_mask (v / 2 ^ 4) 6 in
    let q = bit_and_mask v 4 in
    let y = bit_and (v / 2 ^ 4) 0x3f in
    let z = bit_and v 0xf * 2 ^ 2 in
    let zero_bits : (bit_and z 3 == 0) ≡ true = let m = bit_and_mask z 2 in ground (arith, m, q) in
    let inner : bit_or (y * 2 ^ 4) (v / 2 ^ 10 * 2 ^ 10) ≡ (y + v / 2 ^ 10 * 2 ^ 6) * 2 ^ 4 =
      bit_or_join (y * 2 ^ 4) (v / 2 ^ 10) 10 (omega (arith, p)) ∙ omega arith in
    let w : bit_or (z / 2 ^ 2) (bit_or (y * 2 ^ 4) (v / 2 ^ 10 * 2 ^ 10)) ≡ v =
      ap (bit_or (z / 2 ^ 2)) inner
      ∙ bit_or_join (z / 2 ^ 2) (y + v / 2 ^ 10 * 2 ^ 6) 4 (omega (arith, q))
      ∙ omega (arith, p, q) in
    rw zero_bits (
      rw w (ap₂ (λ (m n : ℕ). some (m ∷ n ∷ [])) (omega (arith, s, h, k)) (omega (arith, s, h, k))))

pub group-one :
    (a : ℕ)
    → a < 256
    → group (digit (a / 2 ^ 2) ∷ digit (bit_and a 3 * 2 ^ 4) ∷ pad ∷ pad ∷ []) ≡ some (a ∷ [])
unfolding group
group-one a h =
    let low = bit_and_mask a 2 in
    let x = a / 2 ^ 2 in
    let y = bit_and a 3 * 2 ^ 4 in
    let zero_bits : (bit_and y 0xf == 0) ≡ true =
      let m = bit_and_mask y 4 in ground (arith, m, low) in
    let v : bit_or (y / 2 ^ 4) (x * 2 ^ 2) ≡ a =
      bit_or_join (y / 2 ^ 4) x 2 (omega (arith, low)) ∙ omega (arith, low) in
    rw zero_bits (rw v (ap (λ (n : ℕ). some (n ∷ [])) (omega (arith, h))))
