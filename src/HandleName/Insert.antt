-- ===== src/HandleName/Insert.antt =====
-- Giving a name to a handle in skynet_handle.c keeps the array sorted, and lookups see the new name.
use sdy.Base.{
  ==→eq, Bool, Bool-cases, List, Option, [], ap, ap₂, arith, false, get_or, inl, inr, leb, length,
  ltb, ltb→lt, refl, some, suc, sym, true, zero, ℕ, ◌*◌, ◌-◌, ◌<◌, ◌==◌, ◌>>=◌, ◌∙◌, ◌∷◌, ◌≡◌, ◌≢◌,
  ◌≤◌, ◌⊎◌,
}
use sdy.HandleName.{
  HandleName, less, equal, strcmp, nobody, name_at, Place, hit, miss, place_of, findname,
  max_slot_size, insert_at, insert_name_before, insert_name, namehandle,
}
use sdy.HandleName.Order.{strcmp_refl, swapped, strcmp-swap}
use sdy.HandleName.Search.{
  IsSorted, AllBefore, AllAfter, IsPlace, place_of-IsPlace, place_of_self, findname_lem,
  findname_unknown,
}

length-insert_at :
    (b : ℕ) (n : HandleName) (ns : List HandleName)
    → b ≤ length ns
    → length (insert_at b n ns) ≡ suc (length ns)
unfolding insert_at
length-insert_at zero n ns l = refl
length-insert_at (suc b) n [] l = refl
length-insert_at (suc b) n (m ∷ ns) l = ap suc (length-insert_at b n ns (omega (arith, l)))

insert_at_self :
    (b : ℕ) (n : HandleName) (ns : List HandleName)
    → b ≤ length ns
    → get_or (insert_at b n ns) b nobody ≡ n
unfolding insert_at
insert_at_self zero n ns l = refl
insert_at_self (suc b) n [] l = absurd (omega (arith, l))
insert_at_self (suc b) n (m ∷ ns) l = insert_at_self b n ns (omega (arith, l))

insert_at-before :
    (b : ℕ) (n : HandleName) (ns : List HandleName) (i : ℕ)
    → i < b
    → b ≤ length ns
    → get_or (insert_at b n ns) i nobody ≡ get_or ns i nobody
unfolding insert_at
insert_at-before zero n ns i h l = absurd (omega (arith, h))
insert_at-before (suc b) n [] i h l = absurd (omega (arith, l))
insert_at-before (suc b) n (m ∷ ns) zero h l = refl
insert_at-before (suc b) n (m ∷ ns) (suc i) h l =
    insert_at-before b n ns i (omega (arith, h)) (omega (arith, l))

insert_at-after :
    (b : ℕ) (n : HandleName) (ns : List HandleName) (i : ℕ)
    → b ≤ i
    → get_or (insert_at b n ns) (suc i) nobody ≡ get_or ns i nobody
unfolding insert_at
insert_at-after zero n ns i h = refl
insert_at-after (suc b) n [] i h = refl
insert_at-after (suc b) n (m ∷ ns) zero h = absurd (omega (arith, h))
insert_at-after (suc b) n (m ∷ ns) (suc i) h = insert_at-after b n ns i (omega (arith, h))

-- Where an entry of the new array comes from.
record Source (b : ℕ) (n : HandleName) (ns : List HandleName) (i : ℕ) : Type 0 where
  from :
      (((i < b) × (get_or (insert_at b n ns) i nobody ≡ get_or ns i nobody))
        ⊎ ((i ≡ b) × (get_or (insert_at b n ns) i nobody ≡ n)))
      ⊎ ((k : ℕ) × (i ≡ suc k)
          × (b ≤ k)
          × (get_or (insert_at b n ns) i nobody ≡ get_or ns k nobody))

source : (b : ℕ) (n : HandleName) (ns : List HandleName) (i : ℕ) → b ≤ length ns → Source b n ns i
source b n ns i l = elim (Bool-cases (ltb i b)) [
  | inl t ↦ record { from = inl (inl (ltb→lt i b t, insert_at-before b n ns i (ltb→lt i b t) l)) }
  | inr t ↦ elim (Bool-cases (i == b)) [
    | inl e ↦ record {
      from = inl (
          inr (
            ==→eq i b e,
            ap (λ (k : ℕ). get_or (insert_at b n ns) k nobody) (==→eq i b e)
                ∙ insert_at_self b n ns l,
          ));
    }
    | inr e ↦
        let k = i - 1 in
        let s : i ≡ suc k = ground arith in
        let le : b ≤ k = ground arith in
        record {
          from = inr (
            k,
            s,
            le,
            ap (λ (x : ℕ). get_or (insert_at b n ns) x nobody) s ∙ insert_at-after b n ns k le,
          );
        }
  ]
]

renamed :
    (m n p q : HandleName)
    → m ≡ n
    → p ≡ q
    → strcmp n.name q.name ≡ less
    → strcmp m.name p.name ≡ less
renamed m n p q e f s = ap₂ (λ (x y : HandleName). strcmp x.name y.name) e f ∙ s

missing :
    (ns : List HandleName) (name : List ℕ) (b : ℕ)
    → IsPlace ns name (miss b)
    → (i : ℕ) → i < length ns
    → name_at ns i ≢ name
missing ns name b q i l e =
    let s : strcmp (name_at ns i) name ≡ equal =
      ap (strcmp (name_at ns i)) (sym e) ∙ strcmp_refl (name_at ns i) in
    elim (Bool-cases (ltb i b)) [
      | inl t ↦ let w = q.1 i (ltb→lt i b t) in cc
      | inr t ↦ let w = q.2 i (ground arith) l in cc
    ]

module _ (ns : List HandleName) (n : HandleName) (b : ℕ) (sorted : IsSorted ns) (l : b ≤ length ns)
    (before : AllBefore ns n.name b) (after : AllAfter ns n.name b) where
  insert_at-sorted :
      (i j : ℕ)
      → i < j
      → j < length (insert_at b n ns)
      → strcmp (name_at (insert_at b n ns) i) (name_at (insert_at b n ns) j) ≡ less
  insert_at-sorted i j h m =
      let size = length-insert_at b n ns l in
      elim ((source b n ns i l).from) [
        | inl s ↦ elim s [
          | inl p ↦ elim ((source b n ns j l).from) [
            | inl t ↦ elim t [
              | inl q ↦ renamed _ _ _ _ p.1 q.1 (sorted i j h (omega (arith, q.0, l)))
              | inr q ↦ renamed _ _ _ _ p.1 q.1 (before i p.0)
            ]
            | inr q ↦
                renamed _ _ _ _ p.1 q.3
                  (sorted i q.0 (omega (arith, p.0, q.2)) (omega (arith, q.1, m, size)))
          ]
          | inr p ↦ elim ((source b n ns j l).from) [
            | inl t ↦ elim t [
              | inl q ↦ absurd (omega (arith, h, p.0, q.0))
              | inr q ↦ absurd (omega (arith, h, p.0, q.0))
            ]
            | inr q ↦
                let g = after q.0 q.2 (omega (arith, q.1, m, size)) in
                renamed _ _ _ _ p.1 q.3 (strcmp-swap (name_at ns q.0) n.name ∙ ap swapped g)
          ]
        ]
        | inr p ↦ elim ((source b n ns j l).from) [
          | inl t ↦ elim t [
            | inl q ↦ absurd (omega (arith, h, p.1, p.2, q.0))
            | inr q ↦ absurd (omega (arith, h, p.1, p.2, q.0))
          ]
          | inr q ↦
              renamed _ _ _ _ p.3 q.3
                (sorted p.0 q.0 (omega (arith, h, p.1, q.1)) (omega (arith, q.1, m, size)))
        ]
      ]

  insert_at-kept :
      (i : ℕ)
      → i < length ns
      → (j : ℕ) × (j < length (insert_at b n ns))
        × (get_or (insert_at b n ns) j nobody ≡ get_or ns i nobody)
  insert_at-kept i h =
      let size = length-insert_at b n ns l in
      elim (Bool-cases (ltb i b)) [
        | inl t ↦ (i, omega (arith, h, size), insert_at-before b n ns i (ltb→lt i b t) l)
        | inr t ↦ (suc i, omega (arith, h, size), insert_at-after b n ns i (ground arith))
      ]

  insert_at-found : findname (insert_at b n ns) n.name ≡ n.handle
  insert_at-found =
      let size = length-insert_at b n ns l in
      let e = insert_at_self b n ns l in
      ap (λ (m : HandleName). findname (insert_at b n ns) m.name) (sym e)
      ∙ findname_lem (insert_at b n ns) b insert_at-sorted (omega (arith, l, size))
      ∙ ap (λ (m : HandleName). m.handle) e

  insert_at-unknown :
      (other : List ℕ)
      → other ≢ n.name
      → ((i : ℕ) → i < length ns → name_at ns i ≢ other)
      → (i : ℕ) → i < length (insert_at b n ns)
      → name_at (insert_at b n ns) i ≢ other
  insert_at-unknown other ne unknown i h e =
      let size = length-insert_at b n ns l in
      elim ((source b n ns i l).from) [
        | inl s ↦ elim s [
          | inl p ↦
              unknown i (omega (arith, p.0, l)) (ap (λ (m : HandleName). m.name) (sym p.1) ∙ e)
          | inr p ↦ ne (sym e ∙ ap (λ (m : HandleName). m.name) p.1)
        ]
        | inr p ↦
            unknown p.0 (omega (arith, h, p.1, size))
              (ap (λ (m : HandleName). m.name) (sym p.3) ∙ e)
      ]

  insert_at-others :
      (other : List ℕ) (p : Place)
      → other ≢ n.name
      → IsPlace ns other p
      → findname (insert_at b n ns) other ≡ findname ns other
  insert_at-others other (hit i) ne q =
      let (j, below, e) = insert_at-kept i q.0 in
      ap (findname (insert_at b n ns)) (sym (ap (λ (m : HandleName). m.name) e ∙ q.1))
      ∙ findname_lem (insert_at b n ns) j insert_at-sorted below
      ∙ ap (λ (m : HandleName). m.handle) e
      ∙ sym (findname_lem ns i sorted q.0)
      ∙ ap (findname ns) q.1
  insert_at-others other (miss i) ne q =
      let unknown = missing ns other i q in
      findname_unknown (insert_at b n ns) other insert_at-sorted
        (insert_at-unknown other ne unknown)
      ∙ sym (findname_unknown ns other sorted unknown)

-- What a name given comes to.
abbrev pub Named : List HandleName → ℕ → List ℕ → Option (Bool × ℕ × List HandleName) → Type 0
Named ns handle name r =
    (cap' : ℕ) × (ns' : List HandleName) × (r ≡ some (true, cap', ns'))
    × IsSorted ns'
    × (findname ns' name ≡ handle)
    × ((other : List ℕ) → other ≢ name → findname ns' other ≡ findname ns other)

room_for :
    (cap : ℕ) (ns : List HandleName) (n : HandleName) (b : ℕ)
    → (length ns < cap) ⊎ (cap * 2 ≤ max_slot_size)
    → (cap' : ℕ) × (insert_name_before cap ns n b ≡ some (cap', insert_at b n ns))
unfolding insert_name_before
room_for cap ns n b room = elim (Bool-cases (leb cap (length ns))) [
  | inl t ↦
      let fits : leb (cap * 2) max_slot_size ≡ true = ground arith in (cap * 2, rw t (rw fits refl))
  | inr t ↦ (cap, rw t refl)
]

insert_name-Named :
    (cap : ℕ) (ns : List HandleName) (n : HandleName) (p : Place)
    → IsSorted ns
    → ((i : ℕ) → i < length ns → name_at ns i ≢ n.name)
    → (length ns < cap) ⊎ (cap * 2 ≤ max_slot_size)
    → IsPlace ns n.name p
    → Named ns n.handle n.name (insert_name cap ns n p)
insert_name-Named cap ns n (hit i) sorted unknown room q = absurd (unknown i q.0 q.1)
insert_name-Named cap ns n (miss b) sorted unknown room q =
    let (cap', e) = room_for cap ns n b room in
    (
      cap',
      insert_at b n ns,
      ap (λ (o : Option (ℕ × List HandleName)). o >>= λ r. some (true, r.0, r.1)) e,
      insert_at-sorted ns n b sorted q.0 q.1 q.2,
      insert_at-found ns n b sorted q.0 q.1 q.2,
      λ other ne.
          insert_at-others ns n b sorted q.0 q.1 q.2 other (place_of ns other) ne
            (place_of-IsPlace ns other sorted),
    )

-- `skynet_handle_namehandle` of a name that no entry of a sorted array has, while the array has room or
-- may double: it returns the name, the array is sorted, the name is then found with the handle, and
-- every other name is found as before.
pub namehandle_lem :
    (cap : ℕ) (ns : List HandleName) (handle : ℕ) (name : List ℕ)
    → IsSorted ns
    → ((i : ℕ) → i < length ns → name_at ns i ≢ name)
    → (length ns < cap) ⊎ (cap * 2 ≤ max_slot_size)
    → Named ns handle name (namehandle cap ns handle name)
unfolding namehandle
namehandle_lem cap ns handle name sorted unknown room =
    insert_name-Named cap ns (record { name = name; handle = handle }) (place_of ns name) sorted
      unknown room (place_of-IsPlace ns name sorted)

-- `skynet_handle_namehandle` of a name that an entry has returns NULL and changes nothing.
pub namehandle_taken :
    (cap : ℕ) (ns : List HandleName) (handle i : ℕ)
    → IsSorted ns
    → i < length ns
    → namehandle cap ns handle (name_at ns i) ≡ some (false, cap, ns)
unfolding namehandle
namehandle_taken cap ns handle i sorted l =
    ap (insert_name cap ns (record { name = name_at ns i; handle = handle }))
      (place_of_self ns i sorted l)
