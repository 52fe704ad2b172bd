-- ===== src/HandleName/Order.antt =====
-- The order of names in skynet_handle.c.
use sdy.Base.{List, [], ap₂, arith, inl, inr, refl, ℕ, ◌<◌, ◌∙◌, ◌∷◌, ◌≡◌, ◌⊎◌}
use sdy.HandleName.{Cmp, less, equal, greater, strcmp_byte, strcmp}

strcmp_byte-same : (x : ℕ) (rest : Cmp) → strcmp_byte x x rest ≡ rest
strcmp_byte-same x rest = ground arith

pub strcmp_refl : (xs : List ℕ) → strcmp xs xs ≡ equal
unfolding strcmp
strcmp_refl [] = refl
strcmp_refl (x ∷ xs) = strcmp_byte-same x (strcmp xs xs) ∙ strcmp_refl xs

abbrev pub swapped : Cmp → Cmp
swapped less = greater
swapped equal = equal
swapped greater = less

strcmp_byte-swap :
    (x y : ℕ) (c d : Cmp) → d ≡ swapped c → strcmp_byte y x d ≡ swapped (strcmp_byte x y c)
strcmp_byte-swap x y c d e = ground arith

pub strcmp-swap : (xs ys : List ℕ) → strcmp ys xs ≡ swapped (strcmp xs ys)
unfolding strcmp
strcmp-swap [] [] = refl
strcmp-swap [] (y ∷ ys) = refl
strcmp-swap (x ∷ xs) [] = refl
strcmp-swap (x ∷ xs) (y ∷ ys) = strcmp_byte-swap x y _ _ (strcmp-swap xs ys)

-- The first bytes decide, or they are equal and the rest does.
strcmp_byte-less : (x y : ℕ) (c : Cmp) → strcmp_byte x y c ≡ less → (x < y) ⊎ ((x ≡ y) × (c ≡ less))
strcmp_byte-less x y c e = ground arith

less-strcmp_byte : (x y : ℕ) (c : Cmp) → (x < y) ⊎ ((x ≡ y) × (c ≡ less)) → strcmp_byte x y c ≡ less
less-strcmp_byte x y c e = ground arith

pub strcmp_trans :
    (xs ys zs : List ℕ) → strcmp xs ys ≡ less → strcmp ys zs ≡ less → strcmp xs zs ≡ less
unfolding strcmp
strcmp_trans [] [] zs e f = f
strcmp_trans [] (y ∷ ys) [] e f = absurd (cc)
strcmp_trans [] (y ∷ ys) (z ∷ zs) e f = refl
strcmp_trans (x ∷ xs) [] zs e f = absurd (cc)
strcmp_trans (x ∷ xs) (y ∷ ys) [] e f = absurd (cc)
strcmp_trans (x ∷ xs) (y ∷ ys) (z ∷ zs) e f =
    let p = strcmp_byte-less x y (strcmp xs ys) e in
    let q = strcmp_byte-less y z (strcmp ys zs) f in
    less-strcmp_byte x z (strcmp xs zs) (elim p [
      | inl a ↦ elim q [ inl b ↦ inl (omega (arith, a, b)) | inr b ↦ inl (omega (arith, a, b.0)) ]
      | inr a ↦ elim q [
        | inl b ↦ inl (omega (arith, a.0, b))
        | inr b ↦ inr (a.0 ∙ b.0, strcmp_trans xs ys zs a.1 b.1)
      ]
    ])

strcmp_byte-equal : (x y : ℕ) (c : Cmp) → strcmp_byte x y c ≡ equal → (x ≡ y) × (c ≡ equal)
strcmp_byte-equal x y c e = ground arith

pub strcmp-equal : (xs ys : List ℕ) → strcmp xs ys ≡ equal → xs ≡ ys
unfolding strcmp
strcmp-equal [] [] e = refl
strcmp-equal [] (y ∷ ys) e = absurd (cc)
strcmp-equal (x ∷ xs) [] e = absurd (cc)
strcmp-equal (x ∷ xs) (y ∷ ys) e =
    let p = strcmp_byte-equal x y (strcmp xs ys) e in ap₂ ◌∷◌ p.0 (strcmp-equal xs ys p.1)
