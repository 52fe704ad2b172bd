-- ===== src/Seri/Ends.antt =====
-- Reading any bytes ends: the fuel of `luaseri_unpack` is enough.
use sdy.Seri.Table.{raw_set}
use sdy.Base.{
  Bool, List, Option, [], arith, bit_and, drop, false, if◌then◌else◌, length, ltb, none, not, some,
  suc, true, zero, ℕ, ◌*◌, ◌+◌, ◌-◌, ◌/◌, ◌<◌, ◌==◌, ◌^◌, ◌||◌, ◌∷◌, ◌≤◌,
}
use sdy.Seri.Value.{real, pointer, string, Values, Pairs, no_pair, is_nil}
use sdy.Seri.Unpack.{
  Read, ok, invalid, overrun, timeout, ◌>>>◌, rb_read, rb_byte, of_bytes, sign_extend, get_integer,
  get_buffer, get_long_string, push_scalar, table_size, unpack_one, unpack_array, unpack_hash,
  unpack_all, luaseri_unpack,
}

-- Not out of fuel, and fewer than `n` bytes are left.
abbrev pub Ends {ℓ} : {A : Type ℓ} → ℕ → Read A → Type 0
Ends n (ok a r) = length r < n
Ends n invalid = Unit
Ends n overrun = Unit
Ends n timeout = ⊥

Ends-bind :
    {A B : Type 0} (m n : ℕ) (r : Read A) (k : A → List ℕ → Read B)
    → Ends m r
    → ((a : A) (s : List ℕ) → length s < m → Ends n (k a s))
    → Ends n (r >>> k)
Ends-bind m n (ok a s) k p q = q a s p
Ends-bind m n invalid k p q = tt
Ends-bind m n overrun k p q = tt
Ends-bind m n timeout k p q = absurd p

Ends-weaken : {A : Type 0} (m n : ℕ) (r : Read A) → Ends m r → m ≤ n → Ends n r
Ends-weaken m n (ok a r) p le = omega (arith, p, le)
Ends-weaken m n invalid p le = tt
Ends-weaken m n overrun p le = tt
Ends-weaken m n timeout p le = p

Ends-if :
    {A : Type 0} (n : ℕ) (t : Bool) (x y : Read A)
    → Ends n x
    → Ends n y
    → Ends n (if t then x else y)
Ends-if n true x y p q = p
Ends-if n false x y p q = q

Ends-set :
    {A : Type 0} (n : ℕ) (o : Option (Values × Pairs)) (k : Values × Pairs → Read A)
    → ((t : Values × Pairs) → Ends n (k t))
    → Ends n (elim o [ none ↦ invalid | some t ↦ k t ])
Ends-set n none k h = tt
Ends-set n (some t) k h = h t

length-drop : (n : ℕ) (bs : List ℕ) → length (drop n bs) ≤ length bs
length-drop zero bs = omega arith
length-drop (suc n) [] = omega arith
length-drop (suc n) (b ∷ bs) = omega (arith, length-drop n bs)

rb_read-Ends : (n : ℕ) (bs : List ℕ) → Ends (suc (length bs)) (rb_read n bs)
unfolding rb_read
rb_read-Ends n bs =
    Ends-if (suc (length bs)) (ltb (length bs) n) _ _ tt (omega (arith, length-drop n bs))

get_buffer-Ends : (n : ℕ) (bs : List ℕ) → Ends (suc (length bs)) (get_buffer n bs)
unfolding get_buffer
get_buffer-Ends n bs = Ends-if (suc (length bs)) (ltb n (2 ^ 31)) _ _ (rb_read-Ends n bs) tt

-- A read, and then a value made of the bytes.
read_then :
    {A : Type 0} (n : ℕ) (bs : List ℕ) (k : List ℕ → A)
    → Ends (suc (length bs)) (rb_read n bs >>> λ x r. ok (k x) r)
read_then n bs k = Ends-bind (suc (length bs)) _ (rb_read n bs) _ (rb_read-Ends n bs) (λ a s h. h)

get_integer-Ends : (c : ℕ) (bs : List ℕ) → Ends (suc (length bs)) (get_integer c bs)
unfolding get_integer
get_integer-Ends c bs =
    let n = suc (length bs) in
    Ends-if n (c == 0) _ _ (omega arith) (
      Ends-if n (c == 1) _ _ (read_then 1 bs of_bytes) (
        Ends-if n (c == 2) _ _ (read_then 2 bs of_bytes) (
          Ends-if n (c == 4) _ _ (read_then 4 bs (λ x. sign_extend (of_bytes x)))
            (Ends-if n (c == 6) _ _ (read_then 8 bs of_bytes) tt))))

long_read-Ends :
    (m : ℕ) (bs : List ℕ)
    → Ends
        (suc (length bs))
        (rb_read m bs >>> λ n r. get_buffer (of_bytes n) r >>> λ s r'. ok (string s) r')
long_read-Ends m bs =
    Ends-bind (suc (length bs)) (suc (length bs)) (rb_read m bs) _ (rb_read-Ends m bs) (λ n r h.
      Ends-bind (suc (length r)) (suc (length bs)) (get_buffer (of_bytes n) r) _
        (get_buffer-Ends (of_bytes n) r) (λ s r' h'. omega (arith, h, h')))

get_long_string-Ends : (c : ℕ) (bs : List ℕ) → Ends (suc (length bs)) (get_long_string c bs)
unfolding get_long_string
get_long_string-Ends c bs =
    let n = suc (length bs) in
    Ends-if n (c == 2) _ _ (long_read-Ends 2 bs) (Ends-if n (c == 4) _ _ (long_read-Ends 4 bs) tt)

push_scalar-Ends : (t c : ℕ) (bs : List ℕ) → Ends (suc (length bs)) (push_scalar t c bs)
unfolding push_scalar
push_scalar-Ends t c bs =
    let n = suc (length bs) in
    Ends-if n (t == 0) _ _ (omega arith) (
      Ends-if n (t == 1) _ _ (omega arith) (
        Ends-if n (t == 2) _ _
          (Ends-if n (c == 8) _ _ (read_then 8 bs real)
            (Ends-bind n n (get_integer c bs) _ (get_integer-Ends c bs) (λ a s h. h)))
          (Ends-if n (t == 3) _ _ (read_then 8 bs pointer) (
            Ends-if n (t == 4) _ _
              (Ends-bind n n (get_buffer c bs) _ (get_buffer-Ends c bs) (λ a s h. h))
              (Ends-if n (t == 5) _ _ (get_long_string-Ends c bs) tt)))))

rb_byte-Ends : (bs : List ℕ) → Ends (length bs) (rb_byte bs)
unfolding rb_byte
rb_byte-Ends [] = tt
rb_byte-Ends (b ∷ bs) = omega arith

table_size-Ends : (c : ℕ) (bs : List ℕ) → Ends (suc (length bs)) (table_size c bs)
unfolding table_size
table_size-Ends c bs =
    let n = suc (length bs) in
    Ends-if n (c == 31) _ _
      (Ends-bind (length bs) n (rb_byte bs) _ (rb_byte-Ends bs) (λ t r h.
        Ends-if n (not (bit_and t 7 == 2) || t / 8 == 8) _ _ tt (
          Ends-bind (suc (length r)) n (get_integer (t / 8) r) _ (get_integer-Ends (t / 8) r)
            (λ x s h'. omega (arith, h, h')))))
      (omega arith)

mutual
  unfolding unpack_one

  pub unpack_one-Ends :
      (f : ℕ) (bs : List ℕ) → 2 * length bs + 1 ≤ f → Ends (length bs) (unpack_one f bs)
  unpack_one-Ends zero bs le = absurd (omega (arith, le))
  unpack_one-Ends (suc f) bs le =
      Ends-bind (length bs) (length bs) (rb_byte bs) _ (rb_byte-Ends bs) (λ t r h.
        Ends-if (length bs) (bit_and t 7 == 6) _ _
          (Ends-bind (suc (length r)) (length bs) (table_size (t / 8) r) _
            (table_size-Ends (t / 8) r)
            (λ n r1 h1.
              Ends-bind (suc (length r1)) (length bs) (unpack_array f n r1) _
                (unpack_array-Ends f n r1 (omega (arith, le, h, h1)))
                (λ vs r2 h2.
                  Ends-weaken (suc (length r2)) (length bs) _
                    (unpack_hash-Ends f vs no_pair r2 (omega (arith, le, h, h1, h2)))
                    (omega (arith, h, h1, h2)))))
          (Ends-weaken _ (length bs) _ (push_scalar-Ends (bit_and t 7) (t / 8) r)
            (omega (arith, h))))

  pub unpack_array-Ends :
      (f n : ℕ) (bs : List ℕ) → 2 * length bs + 2 ≤ f → Ends (suc (length bs)) (unpack_array f n bs)
  unpack_array-Ends zero n bs le = absurd (omega (arith, le))
  unpack_array-Ends (suc f) n bs le = Ends-if (suc (length bs)) (n == 0) _ _ (omega arith) (
      Ends-bind (length bs) (suc (length bs)) (unpack_one f bs) _
        (unpack_one-Ends f bs (omega (arith, le)))
        (λ v r h.
          Ends-bind (suc (length r)) (suc (length bs)) (unpack_array f (n - 1) r) _
            (unpack_array-Ends f (n - 1) r (omega (arith, le, h)))
            (λ vs r' h'. omega (arith, h, h'))))

  pub unpack_hash-Ends :
      (f : ℕ) (vs : Values) (ps : Pairs) (bs : List ℕ)
      → 2 * length bs + 2 ≤ f
      → Ends (suc (length bs)) (unpack_hash f vs ps bs)
  unpack_hash-Ends zero vs ps bs le = absurd (omega (arith, le))
  unpack_hash-Ends (suc f) vs ps bs le =
      Ends-bind (length bs) (suc (length bs)) (unpack_one f bs) _
        (unpack_one-Ends f bs (omega (arith, le)))
        (λ k r h. Ends-if (suc (length bs)) (is_nil k) _ _ (omega (arith, h)) (
          Ends-bind (length r) (suc (length bs)) (unpack_one f r) _
            (unpack_one-Ends f r (omega (arith, le, h)))
            (λ v r1 h1.
              Ends-set (suc (length bs)) (raw_set vs ps k v) (λ t. unpack_hash f t.0 t.1 r1)
                (λ t.
                  Ends-weaken (suc (length r1)) (suc (length bs)) _
                    (unpack_hash-Ends f t.0 t.1 r1 (omega (arith, le, h, h1)))
                    (omega (arith, h, h1))))))

unpack_all-Ends : (f : ℕ) (bs : List ℕ) → 2 * length bs + 2 ≤ f → Ends 1 (unpack_all f bs)
unfolding unpack_all
unpack_all-Ends zero bs le = absurd (omega (arith, le))
unpack_all-Ends (suc f) [] le = omega arith
unpack_all-Ends (suc f) (b ∷ bs) le =
    Ends-bind (length (b ∷ bs)) 1 (unpack_one f (b ∷ bs)) _
      (unpack_one-Ends f (b ∷ bs) (omega (arith, le)))
      (λ v r h.
        Ends-bind 1 1 (unpack_all f r) _ (unpack_all-Ends f r (omega (arith, le, h)))
          (λ vs s h'. h'))

-- On any bytes, `luaseri_unpack` ends: it raises an error, or it meets a string whose size is negative
-- as an `int`, or it returns values and has read every byte.
pub luaseri_unpack-Ends : (bs : List ℕ) → Ends 1 (luaseri_unpack bs)
unfolding luaseri_unpack
luaseri_unpack-Ends bs = unpack_all-Ends (2 * length bs + 3) bs (omega arith)
