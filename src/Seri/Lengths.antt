-- ===== src/Seri/Lengths.antt =====
-- The sizes of encodings: none is empty, and the fuel left for the parts of one.
use sdy.Base.{
  Bool-cases, List, arith, false, inl, inr, length, length-append, refl, suc, true, ℕ, ◌*◌, ◌++◌,
  ◌+◌, ◌<◌, ◌^◌, ◌≡◌, ◌≤◌,
}
use sdy.Seri.Value.{
  Value, nil, boolean, integer, real, pointer, string, table, meta_table, other, Pairs, no_pair,
  pair, raw_len, is_nil, in_array,
}
use sdy.Seri.Encoding.{enc_integer, enc_string, enc_head, enc, enc_values, enc_hash, enc_meta}
use sdy.Seri.Scalars.{enc_integer-reads}
use sdy.Seri.Heads.{head_reads}
use sdy.Seri.Carried.{Carries}

pub enc_integer-length : (v : ℕ) → v < 2 ^ 64 → 1 ≤ length (enc_integer v)
enc_integer-length v h = let (c, ys, e, ne, g) = enc_integer-reads v h in rw e (omega arith)

pub enc_head-length : (n : ℕ) → n < 2 ^ 31 → 1 ≤ length (enc_head n)
enc_head-length n h = let (c, ys, e, g) = head_reads n h in rw e (omega arith)

pub enc_string-length : (s : List ℕ) → 1 ≤ length (enc_string s)
unfolding enc_string
enc_string-length s = ground arith

-- The encodings are not empty, so that fuel for the length of one is never zero.
pub enc-length : (v : Value) → Carries v → 1 ≤ length (enc v)
unfolding enc
enc-length nil h = omega arith
enc-length (boolean b) h = omega arith
enc-length (integer x) h = enc_integer-length x h
enc-length (real x) h = omega arith
enc-length (pointer x) h = omega arith
enc-length (string x) h = enc_string-length x
enc-length (table vs ps) h = omega (
  arith,
  enc_head-length (raw_len vs) h.0,
  length-append (enc_head (raw_len vs)) (enc_values vs ++ enc_hash (raw_len vs) ps),
)
enc-length (meta_table ps) h = omega arith
enc-length other h = absurd h

pub enc_hash-skipped :
    (n : ℕ) (k v : Value) (ps : Pairs)
    → in_array n k ≡ true
    → enc_hash n (pair k v ps) ≡ enc_hash n ps
unfolding enc
enc_hash-skipped n k v ps e = rw e refl

pub enc_hash-pair :
    (n : ℕ) (k v : Value) (ps : Pairs)
    → in_array n k ≡ false
    → enc_hash n (pair k v ps) ≡ enc k ++ (enc v ++ enc_hash n ps)
unfolding enc
enc_hash-pair n k v ps e = rw e refl

pub enc_meta-pair :
    (k v : Value) (ps : Pairs)
    → is_nil k ≡ false
    → enc_meta (pair k v ps) ≡ enc k ++ (enc v ++ enc_meta ps)
unfolding enc
enc_meta-pair k v ps e = rw e refl

pub longer : (xs ys zs : List ℕ) → 1 ≤ length zs → 1 ≤ length (xs ++ (ys ++ zs))
longer xs ys zs p = omega (arith, length-append xs (ys ++ zs), length-append ys zs)

pub enc_hash-length : (n : ℕ) (ps : Pairs) → 1 ≤ length (enc_hash n ps)
unfolding enc
enc_hash-length n no_pair = omega arith
enc_hash-length n (pair k v ps) =
    let rest = enc_hash-length n ps in
    elim (Bool-cases (in_array n k)) [
      | inl e ↦ rw (enc_hash-skipped n k v ps e) rest
      | inr e ↦ rw (enc_hash-pair n k v ps e) (longer (enc k) (enc v) (enc_hash n ps) rest)
    ]

pub enc_meta-length : (ps : Pairs) → 1 ≤ length (enc_meta ps)
unfolding enc
enc_meta-length no_pair = omega arith
enc_meta-length (pair k v ps) =
    let rest = enc_meta-length ps in
    elim (Bool-cases (is_nil k)) [
      | inl e ↦ rw e (omega arith)
      | inr e ↦ rw (enc_meta-pair k v ps e) (longer (enc k) (enc v) (enc_meta ps) rest)
    ]

-- The fuel left for the parts of a table, and for a pair.
pub table_fits :
    (f : ℕ) (xs ys zs : List ℕ)
    → 2 * length (xs ++ (ys ++ zs)) ≤ suc f
    → 1 ≤ length xs
    → (2 * length ys + 1 ≤ f) × (2 * length zs ≤ f)
table_fits f xs ys zs le p =
    let sum = length-append xs (ys ++ zs) in
    let sum' = length-append ys zs in
    (omega (arith, sum, sum', le, p), omega (arith, sum, sum', le, p))

pub pair_fits :
    (f : ℕ) (xs ys zs : List ℕ)
    → 2 * length (xs ++ (ys ++ zs)) ≤ suc f
    → 1 ≤ length xs
    → 1 ≤ length zs
    → (2 * length xs ≤ f) × (2 * length ys ≤ f) × (2 * length zs ≤ f)
pair_fits f xs ys zs le p q =
    let sum = length-append xs (ys ++ zs) in
    let sum' = length-append ys zs in
    (
      omega (arith, sum, sum', le, q),
      omega (arith, sum, sum', le, p),
      omega (arith, sum, sum', le, p),
    )
