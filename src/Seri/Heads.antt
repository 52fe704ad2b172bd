-- ===== src/Seri/Heads.antt =====
-- Reading back one scalar value, and the head of a table.
use sdy.Base.{
  Bool, List, [], ap, append_assoc, ap₂, arith, bit_and, false, if◌then◌else◌, leb, length, ltb,
  lt→ltb, ne→==, refl, suc, true, ℕ, ◌++◌, ◌<◌, ◌==◌, ◌^◌, ◌∙◌, ◌∷◌, ◌≡◌,
}
use sdy.Seri.Value.{Value, nil, boolean, integer, real, pointer, string, no_pair}
use sdy.Seri.Pack.{combine_type, le_bytes}
use sdy.Seri.Unpack.{
  Read, ok, ◌>>>◌, rb_read, rb_byte, of_bytes, get_integer, get_buffer, get_long_string,
  push_scalar, rounds, table_size, unpack_one, unpack_array, unpack_hash,
}
use sdy.Seri.Encoding.{tagged, enc_integer, enc_string, enc_head}
use sdy.Seri.Scalars.{
  tag_parts, rb_read-append, length-le_bytes, of_le_two, of_le_four, bind_ok, enc_integer-reads,
}

pub unpack_one-scalar :
    (f t n : ℕ) (bs : List ℕ)
    → t < 8
    → (t == 6) ≡ false
    → unpack_one (suc f) (combine_type t n ∷ bs) ≡ push_scalar t n bs
unfolding unpack_one
unpack_one-scalar f t n bs h e =
    let p = tag_parts t n h in
    let q : (bit_and (combine_type t n) 7 == 6) ≡ false = ap (λ (x : ℕ). x == 6) p.0 ∙ e in
    rw q (ap₂ (λ (x y : ℕ). push_scalar x y bs) p.0 p.1)

-- The body of a table, read after its tag.
unfoldable pub read_table : ℕ → ℕ → List ℕ → Read Value
read_table f n bs =
    table_size n bs >>> λ m r1. unpack_array f m r1 >>> λ vs r2. unpack_hash f vs no_pair r2

pub unpack_one-table :
    (f n : ℕ) (bs : List ℕ) → unpack_one (suc f) (combine_type 6 n ∷ bs) ≡ read_table f n bs
unfolding unpack_one read_table
unpack_one-table f n bs =
    let p = tag_parts 6 n (omega arith) in
    let q : (bit_and (combine_type 6 n) 7 == 6) ≡ true = ap (λ (x : ℕ). x == 6) p.0 in
    rw q (ap (λ (x : ℕ). read_table f x bs) p.1)

pub scalar_integer :
    (f v : ℕ) (rest : List ℕ)
    → v < 2 ^ 64
    → unpack_one (suc f) (enc_integer v ++ rest) ≡ ok (integer v) rest
unfolding push_scalar
scalar_integer f v rest h =
    let (c, ys, e, ne, g) = enc_integer-reads v h in
    rw e (
      unpack_one-scalar f 2 c (ys ++ rest) (omega arith) refl
      ∙ rw (ne→== c 8 ne) (bind_ok (get_integer c (ys ++ rest)) _ v rest (g rest)))

pub scalar_nil : (f : ℕ) (rest : List ℕ) → unpack_one (suc f) (0 ∷ rest) ≡ ok nil rest
unfolding unpack_one push_scalar
scalar_nil f rest = refl

pub scalar_boolean :
    (f : ℕ) (b : Bool) (rest : List ℕ)
    → unpack_one (suc f) (tagged 1 (if b then 1 else 0) rest) ≡ ok (boolean b) rest
unfolding unpack_one push_scalar combine_type
scalar_boolean f true rest = refl
scalar_boolean f false rest = refl

pub scalar_real :
    (f : ℕ) (x rest : List ℕ)
    → length x ≡ 8
    → unpack_one (suc f) (tagged 2 8 x ++ rest) ≡ ok (real x) rest
unfolding push_scalar
scalar_real f x rest h =
    unpack_one-scalar f 2 8 (x ++ rest) (omega arith) refl
    ∙ bind_ok (rb_read 8 (x ++ rest)) _ x rest (rb_read-append 8 x rest h)

pub scalar_pointer :
    (f : ℕ) (x rest : List ℕ)
    → length x ≡ 8
    → unpack_one (suc f) ((3 ∷ x) ++ rest) ≡ ok (pointer x) rest
unfolding push_scalar combine_type
scalar_pointer f x rest h =
    unpack_one-scalar f 3 0 (x ++ rest) (omega arith) refl
    ∙ bind_ok (rb_read 8 (x ++ rest)) _ x rest (rb_read-append 8 x rest h)

get_buffer-append :
    (s rest : List ℕ) → length s < 2 ^ 31 → get_buffer (length s) (s ++ rest) ≡ ok s rest
unfolding get_buffer
get_buffer-append s rest h =
    let fits : ltb (length s) (2 ^ 31) ≡ true = lt→ltb (length s) (2 ^ 31) h in
    rw fits (rb_read-append (length s) s rest refl)

long_reads :
    (n : ℕ) (s rest : List ℕ)
    → length s < 2 ^ 31
    → of_bytes (le_bytes n (length s)) ≡ length s
    → (rb_read n ((le_bytes n (length s) ++ s) ++ rest) >>> λ m r.
        get_buffer (of_bytes m) r >>> λ t r'. ok (string t) r')
      ≡ ok (string s) rest
long_reads n s rest h e =
    let size = le_bytes n (length s) in
    let p = rb_read-append n size (s ++ rest) (length-le_bytes n (length s)) in
    bind_ok (rb_read n ((size ++ s) ++ rest)) _ size (s ++ rest)
      (ap (rb_read n) (append_assoc size s rest) ∙ p)
    ∙ rw e (bind_ok (get_buffer (length s) (s ++ rest)) _ s rest (get_buffer-append s rest h))

reads_either :
    (f : ℕ) (t : Bool) (xs ys rest : List ℕ) (v : Value)
    → (t ≡ true → unpack_one f (xs ++ rest) ≡ ok v rest)
    → (t ≡ false → unpack_one f (ys ++ rest) ≡ ok v rest)
    → unpack_one f ((if t then xs else ys) ++ rest) ≡ ok v rest
reads_either f true xs ys rest v p q = p refl
reads_either f false xs ys rest v p q = q refl

pub scalar_string :
    (f : ℕ) (s rest : List ℕ)
    → length s < 2 ^ 31
    → unpack_one (suc f) (enc_string s ++ rest) ≡ ok (string s) rest
unfolding push_scalar enc_string get_long_string
scalar_string f s rest h =
    reads_either (suc f) (ltb (length s) 32) _ _ rest _
      (λ _.
        unpack_one-scalar f 4 (length s) (s ++ rest) (omega arith) refl
        ∙ bind_ok (get_buffer (length s) (s ++ rest)) _ s rest (get_buffer-append s rest h))
      (λ _.
        reads_either (suc f) (ltb (length s) 0x10000) _ _ rest _
          (λ small.
            unpack_one-scalar f 5 2 ((le_bytes 2 (length s) ++ s) ++ rest) (omega arith) refl
            ∙ long_reads 2 s rest h (ground (arith, of_le_two (length s))))
          (λ _.
            unpack_one-scalar f 5 4 ((le_bytes 4 (length s) ++ s) ++ rest) (omega arith) refl
            ∙ long_reads 4 s rest h (omega (arith, of_le_four (length s)))))

-- A table's head, and what follows its tag reads back as the size.
abbrev pub ReadsHead : ℕ → List ℕ → Type 0
ReadsHead n xs =
    (c : ℕ) × (ys : List ℕ) × (xs ≡ tagged 6 c ys)
    × ((rest : List ℕ) → table_size c (ys ++ rest) ≡ ok n rest)

rounds-small : (n : ℕ) → n < 2 ^ 31 → rounds n ≡ n
rounds-small n h = ground arith

long_head : (n : ℕ) → n < 2 ^ 31 → ReadsHead n (tagged 6 31 (enc_integer n))
unfolding table_size rb_byte
long_head n h =
    let (c, ys, e, ne, g) = enc_integer-reads n (omega (arith, h)) in
    let p = tag_parts 2 c (omega arith) in
    (
      31,
      enc_integer n,
      refl,
      λ rest. rw e (
          rw p.0 (
            rw p.1 (
              rw (ne→== c 8 ne) (
                bind_ok (get_integer c (ys ++ rest)) (λ x r. ok (rounds x) r) n rest (g rest)
                ∙ ap (λ (m : ℕ). ok m rest) (rounds-small n h))))),
    )

pub plain_head : (n : ℕ) (rest : List ℕ) → n < 31 → table_size n rest ≡ ok n rest
unfolding table_size
plain_head n rest h = let q : (n == 31) ≡ false = ground arith in rw q refl

head_if :
    (t : Bool) (n : ℕ) (xs ys : List ℕ)
    → (t ≡ true → ReadsHead n xs)
    → (t ≡ false → ReadsHead n ys)
    → ReadsHead n (if t then xs else ys)
head_if true n xs ys f g = f refl
head_if false n xs ys f g = g refl

pub head_reads : (n : ℕ) → n < 2 ^ 31 → ReadsHead n (enc_head n)
unfolding enc_head table_size
head_reads n h =
    head_if (leb 31 n) n _ _ (λ _. long_head n h)
      (λ e. (n, [], refl, λ rest. plain_head n rest (ground arith)))
