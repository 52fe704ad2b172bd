-- ===== src/HandleName/Search.antt =====
-- The binary search of skynet_handle.c finds every name of a sorted array, and no other.
use sdy.Base.{
  ==→eq, ==→ne, Bool-cases, List, ap, arith, get_or, inl, inr, length, ltb, ltb→lt, refl, suc, sym,
  zero, ℕ, ◌+◌, ◌-◌, ◌/◌, ◌<◌, ◌==◌, ◌∙◌, ◌≡◌, ◌≢◌, ◌≤◌, ◌⊎◌,
}
use sdy.HandleName.{
  HandleName, Cmp, less, equal, greater, strcmp, nobody, name_at, Place, hit, miss, bisect,
  place_of, handle_at, findname,
}
use sdy.HandleName.Order.{strcmp_refl, swapped, strcmp-swap, strcmp_trans, strcmp-equal}

abbrev pub IsSorted : List HandleName → Type 0
IsSorted ns = (i j : ℕ) → i < j → j < length ns → strcmp (name_at ns i) (name_at ns j) ≡ less

abbrev pub AllBefore : List HandleName → List ℕ → ℕ → Type 0
AllBefore ns name b = (i : ℕ) → i < b → strcmp (name_at ns i) name ≡ less

abbrev pub AllAfter : List HandleName → List ℕ → ℕ → Type 0
AllAfter ns name e = (i : ℕ) → e ≤ i → i < length ns → strcmp (name_at ns i) name ≡ greater

-- What a search promises.
abbrev pub IsPlace : List HandleName → List ℕ → Place → Type 0
IsPlace ns name (hit i) = (i < length ns) × (name_at ns i ≡ name)
IsPlace ns name (miss i) = (i ≤ length ns) × AllBefore ns name i × AllAfter ns name i

Cmp-cases : (c : Cmp) → (c ≡ less) ⊎ ((c ≡ equal) ⊎ (c ≡ greater))
Cmp-cases less = inl refl
Cmp-cases equal = inr (inl refl)
Cmp-cases greater = inr (inr refl)

grows :
    (ns : List HandleName) (name : List ℕ) (mid : ℕ)
    → IsSorted ns
    → mid < length ns
    → strcmp (name_at ns mid) name ≡ less
    → AllBefore ns name (mid + 1)
grows ns name mid sorted below c i h = elim (Bool-cases (i == mid)) [
  | inl e ↦ ap (λ (k : ℕ). strcmp (name_at ns k) name) (==→eq i mid e) ∙ c
  | inr e ↦
      let lt : i < mid = omega (arith, h, ==→ne i mid e) in
      strcmp_trans (name_at ns i) (name_at ns mid) name (sorted i mid lt below) c
]

shrinks :
    (ns : List HandleName) (name : List ℕ) (mid : ℕ)
    → IsSorted ns
    → mid < length ns
    → strcmp (name_at ns mid) name ≡ greater
    → AllAfter ns name mid
shrinks ns name mid sorted below c i h l =
    let flip : strcmp name (name_at ns mid) ≡ less =
      strcmp-swap (name_at ns mid) name ∙ ap swapped c in
    elim (Bool-cases (i == mid)) [
      | inl e ↦ ap (λ (k : ℕ). strcmp (name_at ns k) name) (==→eq i mid e) ∙ c
      | inr e ↦
          let lt : mid < i = omega (arith, h, ==→ne i mid e) in
          strcmp-swap name (name_at ns i)
          ∙ ap swapped (strcmp_trans name (name_at ns mid) (name_at ns i) flip (sorted mid i lt l))
    ]

bisect-IsPlace :
    (fuel : ℕ) (ns : List HandleName) (name : List ℕ) (begin stop : ℕ)
    → IsSorted ns
    → begin ≤ stop
    → stop ≤ length ns
    → stop - begin < fuel
    → AllBefore ns name begin
    → AllAfter ns name stop
    → IsPlace ns name (bisect fuel ns name begin stop)
unfolding bisect
bisect-IsPlace zero ns name begin stop sorted o l f b a = absurd (omega (arith, f))
bisect-IsPlace (suc fuel) ns name begin stop sorted o l f b a =
    let mid = (begin + (stop - 1)) / 2 in
    elim (Bool-cases (ltb begin stop)) [
      | inl t ↦
          let more = ltb→lt begin stop t in
          elim (Cmp-cases (strcmp (name_at ns mid) name)) [
            | inl c ↦ rw t (
                rw c (
                  bisect-IsPlace fuel ns name (mid + 1) stop sorted (omega (arith, more)) l
                    (omega (arith, more, f)) (grows ns name mid sorted (omega (arith, more, l)) c)
                    a))
            | inr d ↦ elim d [
              | inl c ↦ rw t (rw c (omega (arith, more, l), strcmp-equal (name_at ns mid) name c))
              | inr c ↦ rw t (
                  rw c (
                    bisect-IsPlace fuel ns name begin mid sorted (omega (arith, more))
                      (omega (arith, more, l)) (omega (arith, more, f)) b
                      (shrinks ns name mid sorted (omega (arith, more, l)) c)))
            ]
          ]
      | inr t ↦
          let same : begin ≡ stop = ground arith in
          rw t (omega (arith, same, l), b, λ i h. a i (omega (arith, same, h)))
    ]

-- The search that `skynet_handle_findname` and `_insert_name` make in a sorted array ends at an entry
-- of that name, or else at the index that has all smaller names before it and all greater ones from
-- it on.
pub place_of-IsPlace :
    (ns : List HandleName) (name : List ℕ) → IsSorted ns → IsPlace ns name (place_of ns name)
unfolding place_of
place_of-IsPlace ns name sorted =
    bisect-IsPlace (length ns + 1) ns name 0 (length ns) sorted (omega arith) (omega arith)
      (omega arith) (λ i h. absurd (omega (arith, h))) (λ i h l. absurd (omega (arith, h, l)))

pub sorted-apart :
    (ns : List HandleName) (i j : ℕ)
    → IsSorted ns
    → i < length ns
    → j < length ns
    → name_at ns i ≡ name_at ns j
    → i ≡ j
sorted-apart ns i j sorted l m e =
    let s : strcmp (name_at ns i) (name_at ns j) ≡ equal =
      ap (strcmp (name_at ns i)) (sym e) ∙ strcmp_refl (name_at ns i) in
    elim (Bool-cases (ltb i j)) [
      | inl t ↦ let w = sorted i j (ltb→lt i j t) m in absurd (cc)
      | inr t ↦ elim (Bool-cases (ltb j i)) [
        | inl u ↦
            let w = sorted j i (ltb→lt j i u) l in
            let s' : strcmp (name_at ns j) (name_at ns i) ≡ equal =
              strcmp-swap (name_at ns i) (name_at ns j) ∙ ap swapped s in
            absurd (cc)
        | inr u ↦ ground arith
      ]
    ]

found_at :
    (ns : List HandleName) (i : ℕ) (p : Place)
    → IsSorted ns
    → i < length ns
    → IsPlace ns (name_at ns i) p
    → p ≡ hit i
found_at ns i (hit j) sorted l q = ap hit (sorted-apart ns j i sorted q.0 l q.1)
found_at ns i (miss b) sorted l q =
    let s = strcmp_refl (name_at ns i) in
    elim (Bool-cases (ltb i b)) [
      | inl t ↦ let w = q.1 i (ltb→lt i b t) in absurd (cc)
      | inr t ↦ let w = q.2 i (ground arith) l in absurd (cc)
    ]

pub place_of_self :
    (ns : List HandleName) (i : ℕ)
    → IsSorted ns
    → i < length ns
    → place_of ns (name_at ns i) ≡ hit i
place_of_self ns i sorted l =
    found_at ns i (place_of ns (name_at ns i)) sorted l (place_of-IsPlace ns (name_at ns i) sorted)

-- In a sorted array `skynet_handle_findname` of the name of an entry returns that entry's handle.
pub findname_lem :
    (ns : List HandleName) (i : ℕ)
    → IsSorted ns
    → i < length ns
    → findname ns (name_at ns i) ≡ (get_or ns i nobody).handle
unfolding findname
findname_lem ns i sorted l = ap (handle_at ns) (place_of_self ns i sorted l)

not_found :
    (ns : List HandleName) (name : List ℕ) (p : Place)
    → ((i : ℕ) → i < length ns → name_at ns i ≢ name)
    → IsPlace ns name p
    → handle_at ns p ≡ 0
not_found ns name (hit i) n q = absurd (n i q.0 q.1)
not_found ns name (miss i) n q = refl

-- In a sorted array `skynet_handle_findname` of a name that no entry has returns 0.
pub findname_unknown :
    (ns : List HandleName) (name : List ℕ)
    → IsSorted ns
    → ((i : ℕ) → i < length ns → name_at ns i ≢ name)
    → findname ns name ≡ 0
unfolding findname
findname_unknown ns name sorted n =
    not_found ns name (place_of ns name) n (place_of-IsPlace ns name sorted)
