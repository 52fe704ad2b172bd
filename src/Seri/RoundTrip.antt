-- ===== src/Seri/RoundTrip.antt =====
-- Unpacking what lua-seri.c packed gives the values back.
use sdy.Seri.Entries.{
  joined, joined_assoc, joined_nil, in_array_none, AllMiss, AllMiss-rest, AllMiss-next,
  raw_set-arrived, raw_len-arrived,
}
use sdy.Base.{
  Bool, List, [], ap, arith, false, if◌then◌else◌, length, length-append, refl, some, suc, sym,
  true, zero, ℕ, ◌*◌, ◌++◌, ◌+◌, ◌<◌, ◌^◌, ◌∙◌, ◌∷◌, ◌≡◌, ◌≤◌,
}
use sdy.Seri.Value.{
  Value, nil, boolean, integer, real, pointer, string, table, meta_table, other, Values, none_left,
  also, Pairs, no_pair, pair, raw_len, in_array,
}
use sdy.Seri.Pack.{luaseri_pack}
use sdy.Seri.Unpack.{ok, unpack_one, unpack_array, unpack_hash, unpack_all, luaseri_unpack}
use sdy.Seri.Encoding.{enc_head, enc, enc_values, enc_hash, enc_meta, luaseri_pack-enc}
use sdy.Seri.Scalars.{bind_ok}
use sdy.Seri.Heads.{
  scalar_integer, scalar_nil, scalar_boolean, scalar_real, scalar_pointer, scalar_string,
  plain_head, head_reads,
}
use sdy.Seri.Carried.{
  IsEntry, Carries, CarriesAll, CarriesPairs, CarriesAll-Sized, arrived, arrived_all, arrived_pairs,
  arrived_meta,
}
use sdy.Seri.Lengths.{
  enc_head-length, enc-length, enc_hash-skipped, enc_hash-pair, enc_meta-pair, enc_hash-length,
  enc_meta-length, table_fits, pair_fits,
}
use sdy.Seri.Steps.{
  body_reads, item_reads, pair_reads, array_end, array_none, end_reads, is_nil-arrived, all_step,
  all_end,
}

arrives :
    (t : Bool) (f : ℕ) (ws : Values) (acc : Pairs) (xs ys rest : List ℕ) (ps qs : Pairs)
    → (t ≡ true → unpack_hash f ws acc (xs ++ rest) ≡ ok (table ws (joined acc ps)) rest)
    → (t ≡ false → unpack_hash f ws acc (ys ++ rest) ≡ ok (table ws (joined acc qs)) rest)
    → unpack_hash f ws acc ((if t then xs else ys) ++ rest)
      ≡ ok (table ws (joined acc (if t then ps else qs))) rest
arrives true f ws acc xs ys rest ps qs p q = p refl
arrives false f ws acc xs ys rest ps qs p q = q refl

-- No more pairs.
no_more :
    (f : ℕ) (ws : Values) (acc : Pairs) (rest : List ℕ)
    → unpack_hash (suc (suc f)) ws acc (0 ∷ rest) ≡ ok (table ws (joined acc no_pair)) rest
no_more f ws acc rest =
    end_reads f ws acc rest ∙ ap (λ ps. ok (table ws ps) rest) (sym (joined_nil acc))

-- A pair and then the others.
one_more :
    (f : ℕ) (ws : Values) (acc : Pairs) (k v : Value) (ps qs : Pairs) (xs ys zs rest : List ℕ)
    → IsEntry k v
    → in_array (raw_len ws) k ≡ false
    → AllMiss acc (pair k v ps)
    → ((r : List ℕ) → unpack_one f (xs ++ r) ≡ ok (arrived k) r)
    → ((r : List ℕ) → unpack_one f (ys ++ r) ≡ ok (arrived v) r)
    → ((r : List ℕ)
        → let new = joined acc (pair (arrived k) (arrived v) no_pair) in
          unpack_hash f ws new (zs ++ r) ≡ ok (table ws (joined new qs)) r)
    → unpack_hash (suc f) ws acc ((xs ++ (ys ++ zs)) ++ rest)
      ≡ ok (table ws (joined acc (pair (arrived k) (arrived v) qs))) rest
unfolding joined
one_more f ws acc k v ps qs xs ys zs rest h outside m p q r =
    let last = pair (arrived k) (arrived v) no_pair in
    pair_reads f ws ws acc (joined acc last) (arrived k) (arrived v)
      (table ws (joined (joined acc last) qs)) xs ys zs rest (is_nil-arrived k h.key)
      (raw_set-arrived ws acc k v ps h outside m) p q r
    ∙ ap (λ ps. ok (table ws ps) rest) (joined_assoc acc last qs)

-- Twice the bytes of a value are fuel enough.
mutual
  unfolding enc arrived joined

  unpack_one-enc :
      (f : ℕ) (v : Value) (rest : List ℕ)
      → Carries v
      → 2 * length (enc v) ≤ f
      → unpack_one f (enc v ++ rest) ≡ ok (arrived v) rest
  unpack_one-enc zero v rest h le = absurd (omega (arith, enc-length v h, le))
  unpack_one-enc (suc f) nil rest h le = scalar_nil f rest
  unpack_one-enc (suc f) (boolean b) rest h le = scalar_boolean f b rest
  unpack_one-enc (suc f) (integer x) rest h le = scalar_integer f x rest h
  unpack_one-enc (suc f) (real x) rest h le = scalar_real f x rest h
  unpack_one-enc (suc f) (pointer x) rest h le = scalar_pointer f x rest h
  unpack_one-enc (suc f) (string x) rest h le = scalar_string f x rest h
  unpack_one-enc (suc f) (table vs ps) rest h le =
      let (c, ys, e, g) = head_reads (raw_len vs) h.0 in
      let fits =
        table_fits f (enc_head (raw_len vs)) (enc_values vs) (enc_hash (raw_len vs) ps) le
          (enc_head-length (raw_len vs) h.0) in
      rw e (
        body_reads f c (raw_len vs) ys (enc_values vs) (enc_hash (raw_len vs) ps) _ _ rest g
          (λ r. unpack_array-enc f vs r h.1 fits.0)
          (λ r.
            unpack_hash-enc f (raw_len vs) (arrived_all vs) no_pair ps r (raw_len-arrived vs) h.2 tt
              fits.1))
  unpack_one-enc (suc f) (meta_table ps) rest h le =
      let fits = table_fits f (0 ∷ []) [] (enc_meta ps) le (omega arith) in
      body_reads f 0 0 [] [] (enc_meta ps) none_left (table none_left (arrived_meta ps)) rest
        (λ r. plain_head 0 r (omega arith)) (λ r. array_none f r fits.0)
        (λ r. unpack_meta-enc f no_pair ps r h tt fits.1)
  unpack_one-enc (suc f) other rest h le = absurd h

  unpack_array-enc :
      (f : ℕ) (vs : Values) (rest : List ℕ)
      → CarriesAll vs
      → 2 * length (enc_values vs) + 1 ≤ f
      → unpack_array f (raw_len vs) (enc_values vs ++ rest) ≡ ok (arrived_all vs) rest
  unpack_array-enc zero vs rest h le = absurd (omega (arith, le))
  unpack_array-enc (suc f) none_left rest h le = array_end f rest
  unpack_array-enc (suc f) (also v vs) rest h le =
      let sum = length-append (enc v) (enc_values vs) in
      item_reads f (raw_len vs) (arrived v) (arrived_all vs) (enc v) (enc_values vs) rest
        (λ r. unpack_one-enc f v r h.0 (omega (arith, sum, le)))
        (λ r. unpack_array-enc f vs r h.1 (omega (arith, sum, le, enc-length v h.0)))

  unpack_hash-enc :
      (f n : ℕ) (ws : Values) (acc ps : Pairs) (rest : List ℕ)
      → raw_len ws ≡ n
      → CarriesPairs ps
      → AllMiss acc ps
      → 2 * length (enc_hash n ps) ≤ f
      → unpack_hash f ws acc (enc_hash n ps ++ rest)
        ≡ ok (table ws (joined acc (arrived_pairs n ps))) rest
  unpack_hash-enc zero n ws acc ps rest s h m le = absurd (omega (arith, enc_hash-length n ps, le))
  unpack_hash-enc (suc zero) n ws acc ps rest s h m le =
      absurd (omega (arith, enc_hash-length n ps, le))
  unpack_hash-enc (suc (suc f)) n ws acc no_pair rest s h m le = no_more f ws acc rest
  unpack_hash-enc (suc (suc f)) n ws acc (pair k v ps) rest s h m le =
      let F = suc f in
      arrives (in_array n k) (suc F) ws acc _ _ rest _ _
        (λ skip.
          unpack_hash-enc (suc F) n ws acc ps rest s h.4 (AllMiss-rest acc k v ps m)
            (omega (arith, le, ap length (enc_hash-skipped n k v ps skip))))
        (λ keep.
          let fits =
            pair_fits F (enc k) (enc v) (enc_hash n ps)
              (omega (arith, le, ap length (enc_hash-pair n k v ps keep))) (enc-length k h.2)
              (enc_hash-length n ps) in
          one_more F ws acc k v ps (arrived_pairs n ps) (enc k) (enc v) (enc_hash n ps) rest h.0
            (ap (λ (x : ℕ). in_array x k) s ∙ keep) m (λ r. unpack_one-enc F k r h.2 fits.0)
            (λ r. unpack_one-enc F v r h.3 fits.1)
            (λ r.
              unpack_hash-enc F n ws _ ps r s h.4 (AllMiss-next acc k v (arrived v) ps m h.1)
                fits.2))

  unpack_meta-enc :
      (f : ℕ) (acc ps : Pairs) (rest : List ℕ)
      → CarriesPairs ps
      → AllMiss acc ps
      → 2 * length (enc_meta ps) ≤ f
      → unpack_hash f none_left acc (enc_meta ps ++ rest)
        ≡ ok (table none_left (joined acc (arrived_meta ps))) rest
  unpack_meta-enc zero acc ps rest h m le = absurd (omega (arith, enc_meta-length ps, le))
  unpack_meta-enc (suc zero) acc ps rest h m le = absurd (omega (arith, enc_meta-length ps, le))
  unpack_meta-enc (suc (suc f)) acc no_pair rest h m le = no_more f none_left acc rest
  unpack_meta-enc (suc (suc f)) acc (pair k v ps) rest h m le =
      let F = suc f in
      let fits =
        pair_fits F (enc k) (enc v) (enc_meta ps)
          (omega (arith, le, ap length (enc_meta-pair k v ps h.0.key))) (enc-length k h.2)
          (enc_meta-length ps) in
      rw (enc_meta-pair k v ps h.0.key) (
        one_more F none_left acc k v ps (arrived_meta ps) (enc k) (enc v) (enc_meta ps) rest h.0
          (in_array_none k) m (λ r. unpack_one-enc F k r h.2 fits.0)
          (λ r. unpack_one-enc F v r h.3 fits.1)
          (λ r. unpack_meta-enc F _ ps r h.4 (AllMiss-next acc k v (arrived v) ps m h.1) fits.2))

unpack_all-enc :
    (f : ℕ) (vs : Values)
    → CarriesAll vs
    → 2 * length (enc_values vs) + 1 ≤ f
    → unpack_all f (enc_values vs) ≡ ok (arrived_all vs) []
unfolding enc arrived
unpack_all-enc zero vs h le = absurd (omega (arith, le))
unpack_all-enc (suc f) none_left h le = all_end f
unpack_all-enc (suc f) (also v vs) h le =
    let sum = length-append (enc v) (enc_values vs) in
    let some_byte = enc-length v h.0 in
    let rest = unpack_all-enc f vs h.1 (omega (arith, sum, le, some_byte)) in
    all_step f (enc v ++ enc_values vs) (omega (arith, sum, some_byte))
    ∙ bind_ok (unpack_one f (enc v ++ enc_values vs)) _ (arrived v) (enc_values vs)
        (unpack_one-enc f v (enc_values vs) h.0 (omega (arith, sum, le)))
    ∙ bind_ok (unpack_all f (enc_values vs)) _ (arrived_all vs) [] rest

-- Unpacking the bytes that `luaseri_pack` returned ends and gives the values back, as `arrived` says,
-- with no byte left. The conditions are that the format carries the values: no function, thread or full
-- userdata, sizes that an `int` holds, no nil in a table, and keys as Lua's tables have them, so not
-- NaN, integers where they are equal to one, and each only once. That is what `lua_next` yields, and an
-- iterator of `__pairs` must yield such pairs too. The result is shorter than 2 ^ 31 bytes.
pub luaseri_unpack-luaseri_pack :
    (vs : Values) (out : List ℕ)
    → CarriesAll vs
    → length out < 2 ^ 31
    → luaseri_pack vs ≡ some out
    → luaseri_unpack out ≡ ok (arrived_all vs) []
unfolding luaseri_unpack
luaseri_unpack-luaseri_pack vs out h whole e =
    rw (luaseri_pack-enc vs out (CarriesAll-Sized vs h) whole e)
      (unpack_all-enc _ vs h (omega arith))
