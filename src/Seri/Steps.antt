-- ===== src/Seri/Steps.antt =====
-- One step of each reading loop of lua-seri.c on encodings put one after the other.
use sdy.Seri.Table.{raw_set}
use sdy.Base.{
  List, [], ap, append_assoc, arith, false, length, refl, set, some, suc, zero, ℕ, ◌*◌, ◌++◌, ◌+◌,
  ◌-◌, ◌==◌, ◌∙◌, ◌∷◌, ◌≡◌, ◌≤◌,
}
use sdy.Seri.Value.{
  Value, nil, boolean, integer, real, pointer, string, table, meta_table, other, Values, none_left,
  also, Pairs, no_pair, is_nil,
}
use sdy.Seri.Unpack.{
  ok, ◌>>>◌, push_scalar, table_size, unpack_one, unpack_array, unpack_hash, unpack_all,
}
use sdy.Seri.Encoding.{tagged}
use sdy.Seri.Scalars.{bind_ok}
use sdy.Seri.Heads.{read_table, unpack_one-table}
use sdy.Seri.Carried.{arrived}

pub body_reads :
    (f c n : ℕ) (ys V H : List ℕ) (vs : Values) (v : Value) (rest : List ℕ)
    → ((r : List ℕ) → table_size c (ys ++ r) ≡ ok n r)
    → ((r : List ℕ) → unpack_array f n (V ++ r) ≡ ok vs r)
    → ((r : List ℕ) → unpack_hash f vs no_pair (H ++ r) ≡ ok v r)
    → unpack_one (suc f) ((tagged 6 c ys ++ (V ++ H)) ++ rest) ≡ ok v rest
unfolding read_table
body_reads f c n ys V H vs v rest g a p =
    let split : (ys ++ (V ++ H)) ++ rest ≡ ys ++ (V ++ (H ++ rest)) =
      append_assoc ys (V ++ H) rest ∙ ap (◌++◌ ys) (append_assoc V H rest) in
    unpack_one-table f c ((ys ++ (V ++ H)) ++ rest)
    ∙ ap (read_table f c) split
    ∙ bind_ok (table_size c (ys ++ (V ++ (H ++ rest)))) _ n (V ++ (H ++ rest))
        (g (V ++ (H ++ rest)))
    ∙ bind_ok (unpack_array f n (V ++ (H ++ rest))) _ vs (H ++ rest) (a (H ++ rest))
    ∙ p rest

pub array_step :
    (f n : ℕ) (bs : List ℕ)
    → unpack_array (suc f) (suc n) bs
      ≡ (unpack_one f bs >>> λ v r. unpack_array f n r >>> λ vs r'. ok (also v vs) r')
unfolding unpack_array
array_step f n bs =
    let nonzero : (suc n == 0) ≡ false = ground arith in
    let less : suc n - 1 ≡ n = omega arith in rw nonzero (rw less refl)

pub item_reads :
    (f n : ℕ) (v : Value) (vs : Values) (xs ys rest : List ℕ)
    → ((r : List ℕ) → unpack_one f (xs ++ r) ≡ ok v r)
    → ((r : List ℕ) → unpack_array f n (ys ++ r) ≡ ok vs r)
    → unpack_array (suc f) (suc n) ((xs ++ ys) ++ rest) ≡ ok (also v vs) rest
item_reads f n v vs xs ys rest p q =
    ap (unpack_array (suc f) (suc n)) (append_assoc xs ys rest)
    ∙ array_step f n (xs ++ (ys ++ rest))
    ∙ bind_ok (unpack_one f (xs ++ (ys ++ rest))) _ v (ys ++ rest) (p (ys ++ rest))
    ∙ bind_ok (unpack_array f n (ys ++ rest)) _ vs rest (q rest)

pub pair_reads :
    (f : ℕ) (vs ws : Values) (acc new : Pairs) (k v t : Value) (xs ys zs rest : List ℕ)
    → is_nil k ≡ false
    → raw_set vs acc k v ≡ some (ws, new)
    → ((r : List ℕ) → unpack_one f (xs ++ r) ≡ ok k r)
    → ((r : List ℕ) → unpack_one f (ys ++ r) ≡ ok v r)
    → ((r : List ℕ) → unpack_hash f ws new (zs ++ r) ≡ ok t r)
    → unpack_hash (suc f) vs acc ((xs ++ (ys ++ zs)) ++ rest) ≡ ok t rest
unfolding unpack_hash
pair_reads f vs ws acc new k v t xs ys zs rest e set p q r =
    let split : (xs ++ (ys ++ zs)) ++ rest ≡ xs ++ (ys ++ (zs ++ rest)) =
      append_assoc xs (ys ++ zs) rest ∙ ap (◌++◌ xs) (append_assoc ys zs rest) in
    ap (unpack_hash (suc f) vs acc) split
    ∙ bind_ok (unpack_one f (xs ++ (ys ++ (zs ++ rest)))) _ k (ys ++ (zs ++ rest))
        (p (ys ++ (zs ++ rest)))
    ∙ rw e (
        bind_ok (unpack_one f (ys ++ (zs ++ rest))) _ v (zs ++ rest) (q (zs ++ rest))
        ∙ rw set (r rest))

pub array_end : (f : ℕ) (rest : List ℕ) → unpack_array (suc f) 0 rest ≡ ok none_left rest
unfolding unpack_array
array_end f rest = refl

pub array_none : (f : ℕ) (rest : List ℕ) → 2 * 0 + 1 ≤ f → unpack_array f 0 rest ≡ ok none_left rest
array_none zero rest h = absurd (omega (arith, h))
array_none (suc f) rest h = array_end f rest

pub end_reads :
    (f : ℕ) (vs : Values) (ps : Pairs) (rest : List ℕ)
    → unpack_hash (suc (suc f)) vs ps (0 ∷ rest) ≡ ok (table vs ps) rest
unfolding unpack_hash push_scalar
end_reads f vs ps rest = refl

pub is_nil-arrived : (k : Value) → is_nil k ≡ false → is_nil (arrived k) ≡ false
unfolding arrived
is_nil-arrived nil e = e
is_nil-arrived (boolean b) e = refl
is_nil-arrived (integer x) e = refl
is_nil-arrived (real x) e = refl
is_nil-arrived (pointer x) e = refl
is_nil-arrived (string x) e = refl
is_nil-arrived (table vs ps) e = refl
is_nil-arrived (meta_table ps) e = refl
is_nil-arrived other e = refl

pub all_step :
    (f : ℕ) (bs : List ℕ)
    → 1 ≤ length bs
    → unpack_all (suc f) bs
      ≡ (unpack_one f bs >>> λ v r. unpack_all f r >>> λ vs r'. ok (also v vs) r')
unfolding unpack_all
all_step f [] h = absurd (omega (arith, h))
all_step f (b ∷ bs) h = refl

pub all_end : (f : ℕ) → unpack_all (suc f) [] ≡ ok none_left []
unfolding unpack_all
all_end f = refl
