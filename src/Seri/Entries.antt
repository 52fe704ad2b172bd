-- ===== src/Seri/Entries.antt =====
-- Setting the pairs of a table that arrived, one after the other, gives the table.
use sdy.Seri.Value.{
  Value, nil, boolean, integer, real, pointer, string, table, meta_table, other, Values, none_left,
  also, Pairs, no_pair, pair, raw_len, is_nil, in_array,
}
use sdy.Seri.Table.{is_nan, key_of, code, same_code, same_key, set_pair, raw_set}
use sdy.Seri.Carried.{Misses, IsEntry, arrived, arrived_all}
use sdy.Seri.Steps.{is_nil-arrived}
use sdy.Base.{ap, arith, false, refl, some, suc, ℕ, ◌∙◌, ◌≡◌}

-- Pairs after pairs.
unfoldable pub joined : Pairs → Pairs → Pairs
joined no_pair qs = qs
joined (pair k v ps) qs = pair k v (joined ps qs)

pub joined_assoc : (a b c : Pairs) → joined (joined a b) c ≡ joined a (joined b c)
unfolding joined
joined_assoc no_pair b c = refl
joined_assoc (pair k v a) b c = ap (pair k v) (joined_assoc a b c)

pub joined_nil : (a : Pairs) → joined a no_pair ≡ a
unfolding joined
joined_nil no_pair = refl
joined_nil (pair k v a) = ap (pair k v) (joined_nil a)

pub in_array_none : (k : Value) → in_array 0 k ≡ false
in_array_none nil = refl
in_array_none (boolean b) = refl
in_array_none (integer x) = ground arith
in_array_none (real x) = refl
in_array_none (pointer x) = refl
in_array_none (string x) = refl
in_array_none (table vs ps) = refl
in_array_none (meta_table ps) = refl
in_array_none other = refl

pub code-arrived : (k : Value) → code (arrived k) ≡ code k
unfolding arrived
code-arrived nil = refl
code-arrived (boolean b) = refl
code-arrived (integer x) = refl
code-arrived (real x) = refl
code-arrived (pointer x) = refl
code-arrived (string x) = refl
code-arrived (table vs ps) = refl
code-arrived (meta_table ps) = refl
code-arrived other = refl

is_nan-arrived : (k : Value) → is_nan (arrived k) ≡ is_nan k
unfolding arrived
is_nan-arrived nil = refl
is_nan-arrived (boolean b) = refl
is_nan-arrived (integer x) = refl
is_nan-arrived (real x) = refl
is_nan-arrived (pointer x) = refl
is_nan-arrived (string x) = refl
is_nan-arrived (table vs ps) = refl
is_nan-arrived (meta_table ps) = refl
is_nan-arrived other = refl

in_array-arrived : (n : ℕ) (k : Value) → in_array n (arrived k) ≡ in_array n k
unfolding arrived
in_array-arrived n nil = refl
in_array-arrived n (boolean b) = refl
in_array-arrived n (integer x) = refl
in_array-arrived n (real x) = refl
in_array-arrived n (pointer x) = refl
in_array-arrived n (string x) = refl
in_array-arrived n (table vs ps) = refl
in_array-arrived n (meta_table ps) = refl
in_array-arrived n other = refl

key_of-arrived : (k : Value) → key_of k ≡ k → key_of (arrived k) ≡ arrived k
unfolding arrived key_of
key_of-arrived nil e = refl
key_of-arrived (boolean b) e = refl
key_of-arrived (integer x) e = refl
key_of-arrived (real x) e = e
key_of-arrived (pointer x) e = refl
key_of-arrived (string x) e = refl
key_of-arrived (table vs ps) e = refl
key_of-arrived (meta_table ps) e = refl
key_of-arrived other e = refl

-- No key of the first pairs is a key of the second.
abbrev pub AllMiss : Pairs → Pairs → Type 0
AllMiss no_pair ps = Unit
AllMiss (pair k v acc) ps = Misses k ps × AllMiss acc ps

pub AllMiss-rest :
    (acc : Pairs) (k v : Value) (ps : Pairs) → AllMiss acc (pair k v ps) → AllMiss acc ps
AllMiss-rest no_pair k v ps h = tt
AllMiss-rest (pair l w acc) k v ps h = (h.0.1, AllMiss-rest acc k v ps h.1)

Misses-arrived : (k : Value) (ps : Pairs) → Misses k ps → Misses (arrived k) ps
Misses-arrived k no_pair h = tt
Misses-arrived k (pair l v ps) h =
    (ap (same_code (code l)) (code-arrived k) ∙ h.0, Misses-arrived k ps h.1)

AllMiss-joined :
    (acc : Pairs) (k v : Value) (ps : Pairs)
    → AllMiss acc ps
    → Misses k ps
    → AllMiss (joined acc (pair k v no_pair)) ps
unfolding joined
AllMiss-joined no_pair k v ps h m = (m, tt)
AllMiss-joined (pair l w acc) k v ps h m = (h.0, AllMiss-joined acc k v ps h.1 m)

pub AllMiss-next :
    (acc : Pairs) (k v w : Value) (ps : Pairs)
    → AllMiss acc (pair k v ps)
    → Misses k ps
    → AllMiss (joined acc (pair (arrived k) w no_pair)) ps
AllMiss-next acc k v w ps h m =
    AllMiss-joined acc (arrived k) w ps (AllMiss-rest acc k v ps h) (Misses-arrived k ps m)

-- A new key goes to the end.
set_pair-new :
    (acc : Pairs) (k v w : Value) (ps : Pairs)
    → AllMiss acc (pair k v ps)
    → is_nil w ≡ false
    → set_pair (arrived k) w acc ≡ joined acc (pair (arrived k) w no_pair)
unfolding set_pair joined
set_pair-new no_pair k v w ps h e = rw e refl
set_pair-new (pair l u acc) k v w ps h e =
    let other_key : same_key (arrived k) l ≡ false =
      ap (λ c. same_code c (code l)) (code-arrived k) ∙ h.0.0 in
    rw other_key (ap (pair l u) (set_pair-new acc k v w ps h.1 e))

-- Setting a pair outside the array part of a table that arrived.
pub raw_set-arrived :
    (vs : Values) (acc : Pairs) (k v : Value) (ps : Pairs)
    → IsEntry k v
    → in_array (raw_len vs) k ≡ false
    → AllMiss acc (pair k v ps)
    → raw_set vs acc (arrived k) (arrived v)
      ≡ some (vs, joined acc (pair (arrived k) (arrived v) no_pair))
unfolding raw_set
raw_set-arrived vs acc k v ps h outside m =
    let number : is_nan (arrived k) ≡ false = is_nan-arrived k ∙ h.number in
    let away : in_array (raw_len vs) (arrived k) ≡ false =
      in_array-arrived (raw_len vs) k ∙ outside in
    rw (number, key_of-arrived k h.normal, away)
      (ap (λ qs. some (vs, qs)) (set_pair-new acc k v (arrived v) ps m (is_nil-arrived v h.value)))

-- The array part keeps its size.
pub raw_len-arrived : (vs : Values) → raw_len (arrived_all vs) ≡ raw_len vs
unfolding arrived
raw_len-arrived none_left = refl
raw_len-arrived (also v vs) = ap suc (raw_len-arrived vs)
