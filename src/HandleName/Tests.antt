-- ===== src/HandleName/Tests.antt =====
-- The theorems on the names of skynet_handle.c at an array of two names.
use sdy.Base.{List, [], ap, arith, inr, length, refl, suc, zero, ℕ, ◌<◌, ◌∷◌, ◌≡◌, ◌≢◌}
use sdy.HandleName.{HandleName, strcmp, name_at, findname, namehandle}
use sdy.HandleName.Search.{IsSorted, findname_lem}
use sdy.HandleName.Insert.{Named, namehandle_lem}

abbrev names : List HandleName
names = record { name = 97 ∷ []; handle = 5 } ∷ record { name = 99 ∷ 97 ∷ []; handle = 6 } ∷ []

names-IsSorted : IsSorted names
unfolding strcmp
names-IsSorted zero zero h l = absurd (omega (arith, h))
names-IsSorted zero (suc zero) h l = refl
names-IsSorted zero (suc (suc j)) h l = absurd (omega (arith, l))
names-IsSorted (suc i) zero h l = absurd (omega (arith, h))
names-IsSorted (suc i) (suc j) h l = absurd (omega (arith, h, l))

abbrev other_name : List ℕ
other_name = 98 ∷ []

first_byte : List ℕ → ℕ
first_byte [] = 0
first_byte (x ∷ xs) = x

unknown_name : (i : ℕ) → i < length names → name_at names i ≢ other_name
unfolding first_byte
unknown_name zero l e = omega (arith, ap first_byte e)
unknown_name (suc zero) l e = omega (arith, ap first_byte e)
unknown_name (suc (suc i)) l e = omega (arith, l)

findname_lem_example : findname names (99 ∷ 97 ∷ []) ≡ 6
findname_lem_example = findname_lem names 1 names-IsSorted (omega arith)

namehandle_lem_example : Named names 7 other_name (namehandle 2 names 7 other_name)
namehandle_lem_example =
    namehandle_lem 2 names 7 other_name names-IsSorted unknown_name (inr (omega arith))
