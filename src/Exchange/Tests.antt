-- ===== src/Exchange/Tests.antt =====
-- The theorems on the exchange of lua-crypt.c at small secrets.
use sdy.Base.{List, [], arith, refl, some, ℕ, ◌%◌, ◌*◌, ◌+◌, ◌<◌, ◌^◌, ◌∷◌, ◌≡◌}
use sdy.Exchange.{prime, powmodp, generator, dhexchange, dhsecret}
use sdy.Exchange.Power.{powmodp_lem}
use sdy.Exchange.Agreement.{powmodp_agrees, number, dhsecret_agrees}

powmodp_lem_example : powmodp (prime + 2) 33 ≡ (prime + 2) ^ 33 % prime
powmodp_lem_example = powmodp_lem (prime + 2) 33 (omega arith) (omega arith) (omega arith)

powmodp_agrees_example :
    (powmodp (powmodp generator 12345) 678 ≡ powmodp (powmodp generator 678) 12345)
    × (powmodp (powmodp generator 12345) 678 < prime)
powmodp_agrees_example =
    powmodp_agrees 12345 678 (omega arith) (omega arith) (omega arith) (omega arith)

-- The secrets 3 and 256.
abbrev three : List ℕ
three = 3 ∷ 0 ∷ 0 ∷ 0 ∷ 0 ∷ 0 ∷ 0 ∷ 0 ∷ []

abbrev larger : List ℕ
larger = 0 ∷ 1 ∷ 0 ∷ 0 ∷ 0 ∷ 0 ∷ 0 ∷ 0 ∷ []

dhsecret_agrees_example :
    (p : List ℕ) × (q : List ℕ) × (s : List ℕ) × (dhexchange three ≡ some p)
    × (dhexchange larger ≡ some q)
    × (dhsecret p larger ≡ some s)
    × (dhsecret q three ≡ some s)
    × (number s ≡ generator ^ (number three * number larger) % prime)
unfolding number
dhsecret_agrees_example =
    dhsecret_agrees three larger refl refl (omega arith) (omega arith) (omega arith) (omega arith)
