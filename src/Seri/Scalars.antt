-- ===== src/Seri/Scalars.antt =====
-- Reading back what lua-seri.c writes for one value that is not a table, and for a table's head.
use sdy.Base.{
  ==→eq, Bool, List, [], ap, ap₂, arith, bit_and, bit_or, drop, drop-append, false, if◌then◌else◌,
  leb, length, length-append, ltb, not, refl, suc, sym, take, take-append, true, zero, ℕ, ◌%◌, ◌*◌,
  ◌++◌, ◌+◌, ◌/◌, ◌<◌, ◌==◌, ◌^◌, ◌∙◌, ◌≡◌, ◌≢◌,
}
use sdy.Base.Bits.{bit_and_mask, bit_or_join}
use sdy.Seri.Pack.{combine_type, le_bytes, fits_int32}
use sdy.Seri.Unpack.{Read, ok, ◌>>>◌, rb_read, of_bytes, sign_extend, get_integer}
use sdy.Seri.Encoding.{tagged, enc_integer}

-- The two parts of a tag byte.
pub tag_parts : (t n : ℕ) → t < 8 → (bit_and (combine_type t n) 7 ≡ t) × (combine_type t n / 8 ≡ n)
unfolding combine_type
tag_parts t n h =
    let sum : bit_or t (n * 2 ^ 3) ≡ t + n * 2 ^ 3 = bit_or_join t n 3 h in
    let low : bit_and (bit_or t (n * 2 ^ 3)) 7 ≡ bit_or t (n * 2 ^ 3) % 2 ^ 3 =
      bit_and_mask (bit_or t (n * 2 ^ 3)) 3 in
    (omega (arith, sum, low), omega (arith, sum))

-- Reading as many bytes as were written.
pub rb_read-append :
    (n : ℕ) (xs rest : List ℕ) → length xs ≡ n → rb_read n (xs ++ rest) ≡ ok xs rest
unfolding rb_read
rb_read-append n xs rest e =
    let enough : ltb (length (xs ++ rest)) n ≡ false = ground (arith, length-append xs rest) in
    rw enough (
      ap₂ ok (ap (λ (k : ℕ). take k (xs ++ rest)) (sym e) ∙ take-append xs rest)
        (ap (λ (k : ℕ). drop k (xs ++ rest)) (sym e) ∙ drop-append xs rest))

pub length-le_bytes : (n x : ℕ) → length (le_bytes n x) ≡ n
unfolding le_bytes
length-le_bytes zero x = refl
length-le_bytes (suc n) x = ap suc (length-le_bytes n (x / 256))

of_le_one : (x : ℕ) → of_bytes (le_bytes 1 x) ≡ x % 2 ^ 8
unfolding of_bytes le_bytes
of_le_one x = omega arith

pub of_le_two : (x : ℕ) → of_bytes (le_bytes 2 x) ≡ x % 2 ^ 16
unfolding of_bytes le_bytes
of_le_two x = omega arith

pub of_le_four : (x : ℕ) → of_bytes (le_bytes 4 x) ≡ x % 2 ^ 32
unfolding of_bytes le_bytes
of_le_four x = omega arith

of_le_eight : (x : ℕ) → of_bytes (le_bytes 8 x) ≡ x % 2 ^ 64
unfolding of_bytes le_bytes
of_le_eight x = omega arith

pub bind_ok :
    {A B : Type 0} (r : Read A) (k : A → List ℕ → Read B) (a : A) (s : List ℕ)
    → r ≡ ok a s
    → (r >>> k) ≡ k a s
bind_ok r k a s e = ap (λ (x : Read _). x >>> k) e

-- The tag, and what follows reads back as the number.
abbrev pub ReadsInteger : ℕ → List ℕ → Type 0
ReadsInteger v xs =
    (c : ℕ) × (ys : List ℕ) × (xs ≡ tagged 2 c ys)
    × (c ≢ 8)
    × ((rest : List ℕ) → get_integer c (ys ++ rest) ≡ ok v rest)

reads_bytes :
    (c n v : ℕ) (k : List ℕ → ℕ)
    → c ≢ 8
    → ((rest : List ℕ) → get_integer c rest ≡ (rb_read n rest >>> (λ x r. ok (k x) r)))
    → k (le_bytes n v) ≡ v
    → ReadsInteger v (tagged 2 c (le_bytes n v))
reads_bytes c n v k ne g e = (
  c,
  le_bytes n v,
  refl,
  ne,
  λ rest.
      g (le_bytes n v ++ rest)
      ∙ bind_ok (rb_read n (le_bytes n v ++ rest)) (λ x r. ok (k x) r) (le_bytes n v) rest
          (rb_read-append n (le_bytes n v) rest (length-le_bytes n v))
      ∙ ap (λ (y : ℕ). ok y rest) e,
)

reads_if :
    (t : Bool) (v : ℕ) (xs ys : List ℕ)
    → (t ≡ true → ReadsInteger v xs)
    → (t ≡ false → ReadsInteger v ys)
    → ReadsInteger v (if t then xs else ys)
reads_if true v xs ys f g = f refl
reads_if false v xs ys f g = g refl

pub enc_integer-reads : (v : ℕ) → v < 2 ^ 64 → ReadsInteger v (enc_integer v)
unfolding enc_integer get_integer
enc_integer-reads v h =
    reads_if (v == 0) v _ _
      (λ z. (0, [], refl, omega arith, λ rest. ap (λ (y : ℕ). ok y rest) (sym (==→eq v 0 z))))
      (λ _.
        reads_if (not (fits_int32 v)) v _ _
          (λ _.
            reads_bytes 6 8 v of_bytes (omega arith) (λ rest. refl) (omega (arith, of_le_eight v)))
          (λ fit.
            reads_if (leb (2 ^ 63) v) v _ _
              (λ neg.
                reads_bytes 4 4 v (λ x. sign_extend (of_bytes x)) (omega arith) (λ rest. refl)
                  (ground (arith, of_le_four v)))
              (λ nonneg.
                reads_if (ltb v 0x100) v _ _
                  (λ s.
                    reads_bytes 1 1 v of_bytes (omega arith) (λ rest. refl)
                      (ground (arith, of_le_one v)))
                  (λ _.
                    reads_if (ltb v 0x10000) v _ _
                      (λ s.
                        reads_bytes 2 2 v of_bytes (omega arith) (λ rest. refl)
                          (ground (arith, of_le_two v)))
                      (λ _.
                        reads_bytes 4 4 v (λ x. sign_extend (of_bytes x)) (omega arith)
                          (λ rest. refl) (ground (arith, of_le_four v)))))))
