-- ===== src/Timer/Words.antt =====
-- Which list of the wheel of skynet_timer.c a time stands in, in arithmetic.
use sdy.Base.{
  Bool, Option, ap, arith, bit_and, false, if◌then◌else◌, none, refl, some, true, ℕ, ◌%◌, ◌&&◌, ◌*◌,
  ◌+◌, ◌-◌, ◌/◌, ◌<◌, ◌==◌, ◌^◌, ◌∙◌, ◌≡◌,
}
use sdy.Timer.{Place, near, level, same_above, level_of, place_of, shift_loop, moved_place}
use sdy.Base.Bits.{bit_and_mask, bit_or_mask}

abbrev pub place_at : ℕ → ℕ → Place
place_at t e =
    if e / 2 ^ 8 == t / 2 ^ 8
    then near (e % 2 ^ 8)
    else if e / 2 ^ 14 == t / 2 ^ 14
    then level 0 (e / 2 ^ 8 % 2 ^ 6)
    else if e / 2 ^ 20 == t / 2 ^ 20
    then level 1 (e / 2 ^ 14 % 2 ^ 6)
    else if e / 2 ^ 26 == t / 2 ^ 26
    then level 2 (e / 2 ^ 20 % 2 ^ 6)
    else level 3 (e / 2 ^ 26 % 2 ^ 6)

-- The code's tests on words with their low bits set compare the bits above.
same_above-8 : (e t : ℕ) → same_above (2 ^ 8) e t ≡ (e / 2 ^ 8 == t / 2 ^ 8)
same_above-8 e t = ground (arith, bit_or_mask e 8, bit_or_mask t 8)

same_above-14 : (e t : ℕ) → same_above (2 ^ 14) e t ≡ (e / 2 ^ 14 == t / 2 ^ 14)
same_above-14 e t = ground (arith, bit_or_mask e 14, bit_or_mask t 14)

same_above-20 : (e t : ℕ) → same_above (2 ^ 20) e t ≡ (e / 2 ^ 20 == t / 2 ^ 20)
same_above-20 e t = ground (arith, bit_or_mask e 20, bit_or_mask t 20)

same_above-26 : (e t : ℕ) → same_above (2 ^ 26) e t ≡ (e / 2 ^ 26 == t / 2 ^ 26)
same_above-26 e t = ground (arith, bit_or_mask e 26, bit_or_mask t 26)

abbrev level_by : Bool → Bool → Bool → ℕ
level_by b c d = if b then 0 else if c then 1 else if d then 2 else 3

field : (i e : ℕ) → bit_and (e / 2 ^ (8 + i * 6)) 63 ≡ e / 2 ^ (8 + i * 6) % 2 ^ 6
field i e = bit_and_mask (e / 2 ^ (8 + i * 6)) 6

by_tests :
    (a b c d : Bool) (e : ℕ)
    → (if a
        then near (bit_and e 255)
        else level (level_by b c d) (bit_and (e / 2 ^ (8 + level_by b c d * 6)) 63))
      ≡ (if a
          then near (e % 2 ^ 8)
          else if b
          then level 0 (e / 2 ^ 8 % 2 ^ 6)
          else if c
          then level 1 (e / 2 ^ 14 % 2 ^ 6)
          else if d
          then level 2 (e / 2 ^ 20 % 2 ^ 6)
          else level 3 (e / 2 ^ 26 % 2 ^ 6))
by_tests true b c d e = ap near (bit_and_mask e 8)
by_tests false true c d e = ap (level 0) (field 0 e)
by_tests false false true d e = ap (level 1) (field 1 e)
by_tests false false false true e = ap (level 2) (field 2 e)
by_tests false false false false e = ap (level 3) (field 3 e)

-- The places that the code computes.
pub place_of-eq : (t e : ℕ) → place_of t e ≡ place_at t e
unfolding place_of level_of
place_of-eq t e = rw (same_above-8 e t) (
    rw (same_above-14 e t) (
      rw (same_above-20 e t) (
        rw (same_above-26 e t) (
          by_tests (e / 2 ^ 8 == t / 2 ^ 8) (e / 2 ^ 14 == t / 2 ^ 14) (e / 2 ^ 20 == t / 2 ^ 20)
            (e / 2 ^ 26 == t / 2 ^ 26) e))))

-- The list that is moved when the time becomes `ct`.
abbrev pub moved_at : ℕ → Option Place
moved_at ct =
    if ct == 0
    then some (level 3 0)
    else if ct % 2 ^ 8 == 0
    then (if ct / 2 ^ 8 % 2 ^ 6 == 0
        then (if ct / 2 ^ 14 % 2 ^ 6 == 0
            then (if ct / 2 ^ 20 % 2 ^ 6 == 0
                then some (level 3 (ct / 2 ^ 26 % 2 ^ 6))
                else some (level 2 (ct / 2 ^ 20 % 2 ^ 6)))
            else some (level 1 (ct / 2 ^ 14 % 2 ^ 6)))
        else some (level 0 (ct / 2 ^ 8 % 2 ^ 6)))
    else none

mask_test : (a k : ℕ) → (bit_and a (2 ^ k - 1) == 0) ≡ (a % 2 ^ k == 0)
mask_test a k = ap (λ (n : ℕ). n == 0) (bit_and_mask a k)

low-14 : (ct : ℕ) → (ct % 2 ^ 14 == 0) ≡ ((ct % 2 ^ 8 == 0) && (ct / 2 ^ 8 % 2 ^ 6 == 0))
low-14 ct = ground arith

low-20 : (ct : ℕ) → (ct % 2 ^ 20 == 0) ≡ ((ct % 2 ^ 14 == 0) && (ct / 2 ^ 14 % 2 ^ 6 == 0))
low-20 ct = ground arith

low-26 : (ct : ℕ) → (ct % 2 ^ 26 == 0) ≡ ((ct % 2 ^ 20 == 0) && (ct / 2 ^ 20 % 2 ^ 6 == 0))
low-26 ct = ground arith

-- A word that is not 0 has a field that is not 0.
top_field :
    (ct : ℕ)
    → ct < 2 ^ 32
    → (ct == 0) ≡ false
    → ((ct % 2 ^ 26 == 0) && (ct / 2 ^ 26 % 2 ^ 6 == 0)) ≡ false
top_field ct h e = ground arith

rounds_by :
    (z a g0 g1 g2 g3 : Bool) (p0 p1 p2 p3 : Place)
    → (z ≡ false → ((((a && g0) && g1) && g2) && g3) ≡ false)
    → (if z
        then some (level 3 0)
        else if a
        then (if g0
            then (if a && g0
                then (if g1
                    then (if (a && g0) && g1
                        then (if g2
                            then (if ((a && g0) && g1) && g2
                                then (if g3 then none else some p3)
                                else none)
                            else some p2)
                        else none)
                    else some p1)
                else none)
            else some p0)
        else none)
      ≡ (if z
          then some (level 3 0)
          else if a
          then (if g0 then (if g1 then (if g2 then some p3 else some p2) else some p1) else some p0)
          else none)
rounds_by true a g0 g1 g2 g3 p0 p1 p2 p3 h = refl
rounds_by false false g0 g1 g2 g3 p0 p1 p2 p3 h = refl
rounds_by false true false g1 g2 g3 p0 p1 p2 p3 h = refl
rounds_by false true true false g2 g3 p0 p1 p2 p3 h = refl
rounds_by false true true true false g3 p0 p1 p2 p3 h = refl
rounds_by false true true true true false p0 p1 p2 p3 h = refl
rounds_by false true true true true true p0 p1 p2 p3 h = let w = h refl in absurd (cc)

pub moved_place-eq : (ct : ℕ) → ct < 2 ^ 32 → moved_place ct ≡ moved_at ct
unfolding moved_place shift_loop
moved_place-eq ct h =
    let d1 : ct / 2 ^ 8 / 2 ^ 6 ≡ ct / 2 ^ 14 = omega arith in
    let d2 : ct / 2 ^ 8 / 2 ^ 6 / 2 ^ 6 ≡ ct / 2 ^ 20 = omega arith in
    let d3 : ct / 2 ^ 8 / 2 ^ 6 / 2 ^ 6 / 2 ^ 6 ≡ ct / 2 ^ 26 = omega arith in
    let f0 : bit_and (ct / 2 ^ 8) 63 ≡ ct / 2 ^ 8 % 2 ^ 6 = bit_and_mask (ct / 2 ^ 8) 6 in
    let f1 : bit_and (ct / 2 ^ 8 / 2 ^ 6) 63 ≡ ct / 2 ^ 14 % 2 ^ 6 =
      bit_and_mask (ct / 2 ^ 8 / 2 ^ 6) 6 ∙ ap (λ (n : ℕ). n % 2 ^ 6) d1 in
    let f2 : bit_and (ct / 2 ^ 8 / 2 ^ 6 / 2 ^ 6) 63 ≡ ct / 2 ^ 20 % 2 ^ 6 =
      bit_and_mask (ct / 2 ^ 8 / 2 ^ 6 / 2 ^ 6) 6 ∙ ap (λ (n : ℕ). n % 2 ^ 6) d2 in
    let f3 : bit_and (ct / 2 ^ 8 / 2 ^ 6 / 2 ^ 6 / 2 ^ 6) 63 ≡ ct / 2 ^ 26 % 2 ^ 6 =
      bit_and_mask (ct / 2 ^ 8 / 2 ^ 6 / 2 ^ 6 / 2 ^ 6) 6 ∙ ap (λ (n : ℕ). n % 2 ^ 6) d3 in
    rw (f0, f1, f2, f3, mask_test ct 8, mask_test ct 14, mask_test ct 20, mask_test ct 26)
      (rw (low-26 ct) (
        rw (low-20 ct) (
          rw (low-14 ct) (
            rounds_by (ct == 0) (ct % 2 ^ 8 == 0) (ct / 2 ^ 8 % 2 ^ 6 == 0)
              (ct / 2 ^ 14 % 2 ^ 6 == 0) (ct / 2 ^ 20 % 2 ^ 6 == 0) (ct / 2 ^ 26 % 2 ^ 6 == 0)
              (level 0 (ct / 2 ^ 8 % 2 ^ 6)) (level 1 (ct / 2 ^ 14 % 2 ^ 6))
              (level 2 (ct / 2 ^ 20 % 2 ^ 6)) (level 3 (ct / 2 ^ 26 % 2 ^ 6))
              (λ e. rw (← low-14 ct) (rw (← low-20 ct) (rw (← low-26 ct) (top_field ct h e))))))))
