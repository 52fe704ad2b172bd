-- ===== src/Memory.antt =====
-- Copying bytes into an array, as service_harbor.c and lua-netpack.c do with what they receive.
use sdy.Base.{
  List, ap, append-nil, arith, drop, drop_all, length, length-append, length-drop, length-take, sym,
  take, take-append, ℕ, ◌++◌, ◌+◌, ◌∙◌, ◌≡◌, ◌≤◌,
}

-- `memcpy(xs + i, bytes, ...)`, inside `xs`.
unfoldable pub memcpy : List ℕ → ℕ → List ℕ → List ℕ
memcpy xs i bytes = take i xs ++ bytes ++ drop (i + length bytes) xs

-- What a `memcpy` inside an array leaves in front of its end.
pub take-memcpy :
    (xs : List ℕ) (i : ℕ) (bs : List ℕ)
    → i ≤ length xs
    → take (i + length bs) (memcpy xs i bs) ≡ take i xs ++ bs
unfolding memcpy
take-memcpy xs i bs h =
    let n : length (take i xs ++ bs) ≡ i + length bs =
      omega (arith, length-append (take i xs) bs, length-take i xs, h) in
    ap (λ (k : ℕ). take k (take i xs ++ bs ++ drop (i + length bs) xs)) (sym n)
    ∙ take-append (take i xs ++ bs) (drop (i + length bs) xs)

pub length-memcpy :
    (xs : List ℕ) (i : ℕ) (bs : List ℕ)
    → i + length bs ≤ length xs
    → length (memcpy xs i bs) ≡ length xs
unfolding memcpy
length-memcpy xs i bs h = omega (
  arith,
  length-append (take i xs ++ bs) (drop (i + length bs) xs),
  length-append (take i xs) bs,
  length-take i xs,
  length-drop (i + length bs) xs,
  h,
)

-- A `memcpy` up to the end of an array.
pub memcpy_full :
    (xs : List ℕ) (i : ℕ) (bs : List ℕ)
    → i + length bs ≡ length xs
    → memcpy xs i bs ≡ take i xs ++ bs
unfolding memcpy
memcpy_full xs i bs h =
    ap (λ ys. take i xs ++ bs ++ ys) (drop_all (i + length bs) xs (omega (arith, h)))
    ∙ append-nil (take i xs ++ bs)
