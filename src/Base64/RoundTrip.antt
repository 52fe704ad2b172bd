-- ===== src/Base64/RoundTrip.antt =====
-- Decoding the base64 text that lua-crypt.c encoded gives the bytes back.
use sdy.Base.{
  List, Option, [], ap₂, arith, bit_and, bit_or, false, refl, some, ℕ, ◌*◌, ◌++◌, ◌/◌, ◌<◌, ◌>>=◌,
  ◌^◌, ◌∙◌, ◌∷◌, ◌≡◌,
}
use sdy.Base.Bits.{bit_and_mask, bit_or_join}
use sdy.Base64.{encoding, word3, b64encode, gather, b64decode}
use sdy.Base64.Laws.{
  keep-encoding, keep-pad, gather-four, word3-sum, group-three, group-two, group-one,
}

abbrev pub AreBytes : List ℕ → Type 0
AreBytes [] = Unit
AreBytes (x ∷ xs) = (x < 256) × AreBytes xs

-- A group that decodes to `out` stands before a text that decodes to `rest`.
joined :
    (o r : Option (List ℕ)) (out rest : List ℕ)
    → o ≡ some out
    → r ≡ some rest
    → (o >>= λ x. r >>= λ y. some (x ++ y)) ≡ some (out ++ rest)
joined o r out rest p q = ap₂ (λ (s t : Option (List ℕ)). s >>= λ x. t >>= λ y. some (x ++ y)) p q

gather-end : gather false [] [] ≡ some []
unfolding gather
gather-end = refl

-- For a text of bytes, `lb64decode` of what `lb64encode` makes of it is the text.
pub b64decode-b64encode : (xs : List ℕ) → AreBytes xs → b64decode (b64encode xs) ≡ some xs
unfolding b64decode b64encode
b64decode-b64encode [] h = gather-end
b64decode-b64encode (a ∷ []) h =
    gather-four (encoding (a / 2 ^ 2)) (encoding (bit_and a 3 * 2 ^ 4)) 61 61 [] _ _ _ _
      (keep-encoding (a / 2 ^ 2) (omega (arith, h.0)))
      (keep-encoding (bit_and a 3 * 2 ^ 4) (omega (arith, bit_and_mask a 2))) keep-pad keep-pad
    ∙ joined _ _ (a ∷ []) [] (group-one a h.0) gather-end
b64decode-b64encode (a ∷ b ∷ []) h =
    let v = bit_or b (a * 2 ^ 8) in
    let s = bit_or_join b a 8 h.1.0 in
    gather-four (encoding (v / 2 ^ 10)) (encoding (bit_and (v / 2 ^ 4) 0x3f))
      (encoding (bit_and v 0xf * 2 ^ 2)) 61 [] _ _ _ _
      (keep-encoding (v / 2 ^ 10) (omega (arith, s, h.0, h.1.0)))
      (keep-encoding (bit_and (v / 2 ^ 4) 0x3f) (omega (arith, bit_and_mask (v / 2 ^ 4) 6)))
      (keep-encoding (bit_and v 0xf * 2 ^ 2) (omega (arith, bit_and_mask v 4))) keep-pad
    ∙ joined _ _ (a ∷ b ∷ []) [] (group-two a b h.0 h.1.0) gather-end
b64decode-b64encode (a ∷ b ∷ c ∷ xs) h =
    let v = word3 a b c in
    let s = word3-sum a b c h.1.0 h.1.1.0 in
    gather-four (encoding (v / 2 ^ 18)) (encoding (bit_and (v / 2 ^ 12) 0x3f))
      (encoding (bit_and (v / 2 ^ 6) 0x3f)) (encoding (bit_and v 0x3f)) (b64encode xs) _ _ _ _
      (keep-encoding (v / 2 ^ 18) (omega (arith, s, h.0, h.1.0, h.1.1.0)))
      (keep-encoding (bit_and (v / 2 ^ 12) 0x3f) (omega (arith, bit_and_mask (v / 2 ^ 12) 6)))
      (keep-encoding (bit_and (v / 2 ^ 6) 0x3f) (omega (arith, bit_and_mask (v / 2 ^ 6) 6)))
      (keep-encoding (bit_and v 0x3f) (omega (arith, bit_and_mask v 6)))
    ∙ joined _ _ (a ∷ b ∷ c ∷ []) xs (group-three a b c h.0 h.1.0 h.1.1.0)
        (b64decode-b64encode xs h.1.1.1)
