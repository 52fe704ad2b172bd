-- ===== src/Seri/Carried.antt =====
-- The values that lua-seri.c carries, and what they are after the trip.
use sdy.Seri.Table.{is_nan, key_of, same_key}
use sdy.Seri.Sizes.{Sized, SizedAll, SizedPairs}
use sdy.Base.{false, if◌then◌else◌, length, ℕ, ◌<◌, ◌^◌, ◌≡◌}
use sdy.Seri.Value.{
  Value, nil, boolean, integer, real, pointer, string, table, meta_table, other, Values, none_left,
  also, Pairs, no_pair, pair, raw_len, is_nil, in_array,
}

-- No key of the pairs is the same as `k`.
abbrev pub Misses : Value → Pairs → Type 0
Misses k no_pair = Unit
Misses k (pair l v ps) = (same_key l k ≡ false) × Misses k ps

-- A key as a Lua table has it, and a value that is not nil.
pub record IsEntry (k v : Value) : Type 0 where
  pub key : is_nil k ≡ false
  pub number : is_nan k ≡ false
  pub normal : key_of k ≡ k
  pub value : is_nil v ≡ false

-- The values that the format can carry. Keys and values are as `lua_next` yields them: keys are not
-- nil, are numbers if doubles, are integers if they are equal to one, and differ from each other, and
-- no value is nil. What an iterator of `__pairs` yields is like that too.
abbrev mutual
  pub Carries : Value → Type 0
  Carries nil = Unit
  Carries (boolean b) = Unit
  Carries (integer x) = x < 2 ^ 64
  Carries (real v) = length v ≡ 8
  Carries (pointer v) = length v ≡ 8
  Carries (string v) = length v < 2 ^ 31
  Carries (table vs ps) = (raw_len vs < 2 ^ 31) × CarriesAll vs × CarriesPairs ps
  Carries (meta_table ps) = CarriesPairs ps
  Carries other = ⊥

  pub CarriesAll : Values → Type 0
  CarriesAll none_left = Unit
  CarriesAll (also v vs) = Carries v × CarriesAll vs

  pub CarriesPairs : Pairs → Type 0
  CarriesPairs no_pair = Unit
  CarriesPairs (pair k v ps) = IsEntry k v × Misses k ps × Carries k × Carries v × CarriesPairs ps

mutual
  pub Carries-Sized : (v : Value) → Carries v → Sized v
  Carries-Sized nil h = tt
  Carries-Sized (boolean b) h = tt
  Carries-Sized (integer x) h = tt
  Carries-Sized (real x) h = tt
  Carries-Sized (pointer x) h = tt
  Carries-Sized (string x) h = h
  Carries-Sized (table vs ps) h = (h.0, CarriesAll-Sized vs h.1, CarriesPairs-Sized ps h.2)
  Carries-Sized (meta_table ps) h = CarriesPairs-Sized ps h
  Carries-Sized other h = tt

  pub CarriesAll-Sized : (vs : Values) → CarriesAll vs → SizedAll vs
  CarriesAll-Sized none_left h = tt
  CarriesAll-Sized (also v vs) h = (Carries-Sized v h.0, CarriesAll-Sized vs h.1)

  pub CarriesPairs-Sized : (ps : Pairs) → CarriesPairs ps → SizedPairs ps
  CarriesPairs-Sized no_pair h = tt
  CarriesPairs-Sized (pair k v ps) h =
      (Carries-Sized k h.2, Carries-Sized v h.3, CarriesPairs-Sized ps h.4)

-- What a value is after the trip: a table has its pairs outside the array part once more, and one
-- with `__pairs` has become a plain table of the pairs that its iterator yielded.
unfoldable mutual
  pub arrived : Value → Value
  arrived nil = nil
  arrived (boolean b) = boolean b
  arrived (integer x) = integer x
  arrived (real v) = real v
  arrived (pointer v) = pointer v
  arrived (string v) = string v
  arrived (table vs ps) = table (arrived_all vs) (arrived_pairs (raw_len vs) ps)
  arrived (meta_table ps) = table none_left (arrived_meta ps)
  arrived other = other

  pub arrived_all : Values → Values
  arrived_all none_left = none_left
  arrived_all (also v vs) = also (arrived v) (arrived_all vs)

  pub arrived_pairs : ℕ → Pairs → Pairs
  arrived_pairs n no_pair = no_pair
  arrived_pairs n (pair k v ps) =
      if in_array n k then arrived_pairs n ps else pair (arrived k) (arrived v) (arrived_pairs n ps)

  pub arrived_meta : Pairs → Pairs
  arrived_meta no_pair = no_pair
  arrived_meta (pair k v ps) = pair (arrived k) (arrived v) (arrived_meta ps)
