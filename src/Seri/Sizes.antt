-- ===== src/Seri/Sizes.antt =====
-- Values of lua-seri.c whose sizes an `int` holds.
use sdy.Base.{arith, false, length, refl, ℕ, ◌<◌, ◌^◌, ◌≡◌}
use sdy.Seri.Value.{
  Value, nil, boolean, integer, real, pointer, string, table, meta_table, other, Values, none_left,
  also, Pairs, no_pair, pair, raw_len,
}
use sdy.Seri.Pack.{to_int, below_zero, up_to}

-- The strings and the array parts of tables have sizes that `int` holds.
abbrev mutual
  pub Sized : Value → Type 0
  Sized nil = Unit
  Sized (boolean b) = Unit
  Sized (integer x) = Unit
  Sized (real x) = Unit
  Sized (pointer x) = Unit
  Sized (string x) = length x < 2 ^ 31
  Sized (table vs ps) = (raw_len vs < 2 ^ 31) × SizedAll vs × SizedPairs ps
  Sized (meta_table ps) = SizedPairs ps
  Sized other = Unit

  pub SizedAll : Values → Type 0
  SizedAll none_left = Unit
  SizedAll (also v vs) = Sized v × SizedAll vs

  pub SizedPairs : Pairs → Type 0
  SizedPairs no_pair = Unit
  SizedPairs (pair k v ps) = Sized k × Sized v × SizedPairs ps

pub to_int-eq : (n : ℕ) → n < 2 ^ 31 → to_int n ≡ n
unfolding to_int
to_int-eq n h = omega (arith, h)

pub not_below_zero : (n : ℕ) → n < 2 ^ 31 → below_zero n ≡ false
not_below_zero n h = ground arith

pub up_to-eq : (n : ℕ) → n < 2 ^ 31 → up_to (to_int n) ≡ n
unfolding up_to
up_to-eq n h = rw (to_int-eq n h) (rw (not_below_zero n h) refl)
