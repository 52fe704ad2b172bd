-- ===== src/Handle/Grow.antt =====
-- Doubling the slots of skynet_handle.c.
use sdy.Base.{
  ==_refl, ==→eq, ==→ne, Bool, Bool-cases, Option, Option-cases, ap, arith, assert, bit_and,
  dvd-mul_right, false, inl, inr, leb, le→leb, mod-eq_of_lt, mod-lt, mod-mod_of_dvd, mod_self, none,
  pow-le-pow_right, pow-suc, refl, some, some-eq_iff, subst, suc, sym, true, zero, ℕ, ◌%◌, ◌*◌, ◌+◌,
  ◌-◌, ◌<◌, ◌==◌, ◌>>=◌, ◌^◌, ◌↔◌, ◌∙◌, ◌≡◌, ◌≢◌, ◌≤◌, ◌⊎◌,
}
use sdy.Base.Bits.{bit_and_mask}
use sdy.Handle.{
  handle_mask, Storage, write, hash_of, move_to, move_slot, rehash, grow, accept, grab,
}

-- The table has `2 ^ k` slots, at most `2 ^ 24`, and a context stands in the slot of its handle.
pub record IsValid (s : Storage) (k : ℕ) : Type 0 where
  pub size : s.slot_size ≡ 2 ^ k
  pub small : k ≤ 24
  pub home : s.harbor % 2 ^ 24 ≡ 0
  pub placed : (i c : ℕ) → s.slot i ≡ some c → (i < s.slot_size) × (s.handle_of c % s.slot_size ≡ i)

pub hash_of-eq : (s : Storage) (k h : ℕ) → IsValid s k → hash_of s h ≡ h % s.slot_size
hash_of-eq s k h v = rw v.size (bit_and_mask h k)

-- The context that `skynet_handle_grab` answers with.
abbrev pub Answers : Storage → ℕ → ℕ → Type 0
Answers s h c = (s.slot (h % s.slot_size) ≡ some c) × (s.handle_of c ≡ h)

accept_iff :
    (s : Storage) (h c : ℕ) (o : Option ℕ)
    → (accept s h o ≡ some c) ↔ ((o ≡ some c) × (s.handle_of c ≡ h))
unfolding accept
accept_iff s h c none = ((λ q. absurd (ground arith)), (λ q. absurd (ground arith)))
accept_iff s h c (some d) = (
  (λ q. ground arith),
  λ q. elim (Bool-cases (s.handle_of d == h)) [
    | inl e ↦ rw e q.0
    | inr e ↦
        absurd (==→ne (s.handle_of d) h e (let w : d ≡ c = ground arith in ap s.handle_of w ∙ q.1))
  ],
)

-- `skynet_handle_grab` gives that context.
grab-Answers : (s : Storage) (k h c : ℕ) → IsValid s k → (grab s h ≡ some c) ↔ Answers s h c
unfolding grab
grab-Answers s k h c v =
    subst (λ (x : ℕ). (accept s h (s.slot x) ≡ some c) ↔ Answers s h c) (sym (hash_of-eq s k h v))
      (accept_iff s h c (s.slot (h % s.slot_size)))

pub write-hit {ℓ} : {A : Type ℓ} (f : ℕ → A) (i j : ℕ) (x : A) → (i == j) ≡ true → write f i x j ≡ x
unfolding write
write-hit f i j x e = rw e

pub write-miss {ℓ} :
    {A : Type ℓ} (f : ℕ → A) (i j : ℕ) (x : A) → (i == j) ≡ false → write f i x j ≡ f j
unfolding write
write-miss f i j x e = rw e

none_is_not_some : (o : Option ℕ) (d : ℕ) → none ≡ o → o ≡ some d → ⊥
none_is_not_some o d e h = cc

pub two_pow_pos : (k : ℕ) → 0 < 2 ^ k
two_pow_pos zero = omega arith
two_pow_pos (suc k) = omega (arith, pow-suc 2 k, two_pow_pos k)

-- The new table after the first `n` slots.
record Moved (s : Storage) (n : ℕ) (t : ℕ → Option ℕ) : Type 0 where
  sound :
      (b c : ℕ)
      → t b ≡ some c
      → (i : ℕ) × (i < n) × (s.slot i ≡ some c) × (s.handle_of c % (s.slot_size * 2) ≡ b)
  complete : (i c : ℕ) → i < n → s.slot i ≡ some c → t (s.handle_of c % (s.slot_size * 2)) ≡ some c

hash_doubled :
    (s : Storage) (k h : ℕ) → IsValid s k → bit_and h (s.slot_size * 2 - 1) ≡ h % (s.slot_size * 2)
hash_doubled s k h v =
    let e : s.slot_size * 2 ≡ 2 ^ suc k = omega (arith, v.size, pow-suc 2 k) in
    ap (λ (t : ℕ). bit_and h (t - 1)) e ∙ bit_and_mask h (suc k) ∙ sym (ap (λ (t : ℕ). h % t) e)

halved : (h n : ℕ) → h % (n * 2) % n ≡ h % n
halved h n = mod-mod_of_dvd n h (dvd-mul_right n 2)

-- Two slots never move to one place.
next_free :
    (s : Storage) (k i c : ℕ) (t : ℕ → Option ℕ)
    → IsValid s k
    → s.slot i ≡ some c
    → Moved s i t
    → t (s.handle_of c % (s.slot_size * 2)) ≡ none
next_free s k i c t v e m = elim (Option-cases (t (s.handle_of c % (s.slot_size * 2)))) [
  | inl q ↦ q
  | inr (d, q) ↦
      let (j, below, at_j, hash) = m.sound _ d q in
      let same : s.handle_of d % s.slot_size ≡ s.handle_of c % s.slot_size =
        sym (halved (s.handle_of d) s.slot_size)
        ∙ ap (λ (n : ℕ). n % s.slot_size) hash
        ∙ halved (s.handle_of c) s.slot_size in
      absurd (omega (arith, same, (v.placed j d at_j).1, (v.placed i c e).1, below))
]

Moved-suc :
    (s : Storage) (i c : ℕ) (t : ℕ → Option ℕ)
    → s.slot i ≡ some c
    → t (s.handle_of c % (s.slot_size * 2)) ≡ none
    → Moved s i t
    → Moved s (i + 1) (write t (s.handle_of c % (s.slot_size * 2)) (some c))
Moved-suc s i c t e free m =
    let hash = s.handle_of c % (s.slot_size * 2) in
    record {
      sound = λ b d q. elim (Bool-cases (hash == b)) [
        | inl same ↦
            let z : some c ≡ some d = sym (write-hit t hash b (some c) same) ∙ q in
            let w : c ≡ d = cc in (i, omega arith, rw (← w) e, rw (← w) (==→eq hash b same))
        | inr other ↦
            let (j, below, at_j, h) = m.sound b d (sym (write-miss t hash b (some c) other) ∙ q) in
            (j, omega (arith, below), at_j, h)
      ];
      complete = λ j d below at_j. elim (Bool-cases (j == i)) [
        | inl same ↦
            let z : some d ≡ some c = sym at_j ∙ ap s.slot (==→eq j i same) ∙ e in
            let w : c ≡ d = cc in
            subst (λ (x : ℕ). write t hash (some c) (s.handle_of x % (s.slot_size * 2)) ≡ some x) w
              (write-hit t hash hash (some c) (==_refl hash))
        | inr other ↦
            let old = m.complete j d (omega (arith, ==→ne j i other)) at_j in
            elim (Bool-cases (hash == s.handle_of d % (s.slot_size * 2))) [
              | inl hit ↦ absurd (none_is_not_some _ d (sym free ∙ ap t (==→eq hash _ hit)) old)
              | inr miss ↦ write-miss t hash _ (some c) miss ∙ old
            ]
      ];
    }

move_slot-free :
    (s : Storage) (k c : ℕ) (t : ℕ → Option ℕ)
    → IsValid s k
    → t (s.handle_of c % (s.slot_size * 2)) ≡ none
    → move_slot s t (some c) ≡ some (write t (s.handle_of c % (s.slot_size * 2)) (some c))
unfolding move_slot
move_slot-free s k c t v free =
    ap (λ (x : ℕ). move_to t x c (t x)) (hash_doubled s k (s.handle_of c) v)
    ∙ ap (move_to t (s.handle_of c % (s.slot_size * 2)) c) free

rehash-Moved :
    (s : Storage) (k n i : ℕ) (t : ℕ → Option ℕ)
    → IsValid s k
    → n + i ≡ s.slot_size
    → ((j : ℕ) → j < s.slot_size → s.slot j ≢ none)
    → Moved s i t
    → (u : ℕ → Option ℕ) × (rehash s n i t ≡ some u) × Moved s s.slot_size u
unfolding rehash
rehash-Moved s k zero i t v e full m = (t, refl, subst (λ (x : ℕ). Moved s x t) (omega arith) m)
rehash-Moved s k (suc n) i t v e full m = elim (Option-cases (s.slot i)) [
  | inl q ↦ absurd (full i (omega arith) q)
  | inr (c, q) ↦
      let free = next_free s k i c t v q m in
      let (u, run, done) =
        rehash-Moved s k n (i + 1) (write t (s.handle_of c % (s.slot_size * 2)) (some c)) v
          (omega arith) full (Moved-suc s i c t q free m) in
      (
        u,
        ap (λ (o : Option (ℕ → Option ℕ)). o >>= (λ w. rehash s n (i + 1) w))
              (ap (move_slot s t) q ∙ move_slot-free s k c t v free)
            ∙ run,
        done,
      )
]

-- All slots are taken.
abbrev pub IsFull : Storage → Type 0
IsFull s = (j : ℕ) → j < s.slot_size → s.slot j ≢ none

abbrev grown : Storage → (ℕ → Option ℕ) → Storage
grown s u = record s { slot = u; slot_size = s.slot_size * 2 }

grown-Answers :
    (s : Storage) (u : ℕ → Option ℕ) (k : ℕ)
    → IsValid s k
    → Moved s s.slot_size u
    → (h c : ℕ) → Answers s h c ↔ Answers (grown s u) h c
grown-Answers s u k v m h c = (
  λ a. (
    subst (λ (x : ℕ). u (x % (s.slot_size * 2)) ≡ some c) a.1
        (m.complete (h % s.slot_size) c (v.placed (h % s.slot_size) c a.0).0 a.0),
    a.1,
  ),
  λ a.
      let (j, below, at_j, hash) = m.sound (h % (s.slot_size * 2)) c a.0 in
      (
        subst (λ (x : ℕ). s.slot x ≡ some c)
            (sym (v.placed j c at_j).1 ∙ ap (λ (x : ℕ). x % s.slot_size) a.1) at_j,
        a.1,
      ),
)

-- One of the two places that slot 0 can move to stays free.
grown_free :
    (s : Storage) (u : ℕ → Option ℕ) (k : ℕ)
    → IsValid s k
    → Moved s s.slot_size u
    → ((u 0 ≡ none) ⊎ (u s.slot_size ≡ none))
grown_free s u k v m = elim (Option-cases (u 0)) [
  | inl e ↦ inl e
  | inr (c, e) ↦ elim (Option-cases (u s.slot_size)) [
    | inl q ↦ inr q
    | inr (d, q) ↦
        let (i, li, ei, hi) = m.sound 0 c e in
        let (j, lj, ej, hj) = m.sound s.slot_size d q in
        let pos = two_pow_pos k in
        let zi : s.handle_of c % s.slot_size ≡ 0 =
          sym (halved (s.handle_of c) s.slot_size)
          ∙ ap (λ (x : ℕ). x % s.slot_size) hi
          ∙ mod-eq_of_lt (omega (arith, v.size)) in
        let zj : s.handle_of d % s.slot_size ≡ 0 =
          sym (halved (s.handle_of d) s.slot_size)
          ∙ ap (λ (x : ℕ). x % s.slot_size) hj
          ∙ mod_self s.slot_size in
        let same : i ≡ j = sym (v.placed i c ei).1 ∙ zi ∙ sym zj ∙ (v.placed j d ej).1 in
        let cd : c ≡ d = (some-eq_iff c d).0 (sym ei ∙ ap s.slot same ∙ ej) in
        absurd (
          omega (
            arith,
            v.size,
            pos,
            sym hi ∙ ap (λ (x : ℕ). s.handle_of x % (s.slot_size * 2)) cd ∙ hj,
          ))
  ]
]

fits : (s : Storage) (k : ℕ) → IsValid s k → k < 24 → leb (s.slot_size * 2 - 1) handle_mask ≡ true
fits s k v h =
    le→leb _ _
      (omega (arith, v.size, pow-le-pow_right {n = 2} (omega arith) {i = k} {j = 23} (omega arith)))

-- Doubling a full valid table succeeds while it is below 2 ^ 24 slots. It keeps the invariant, answers every
-- handle as before, and leaves a slot free.
pub grow_lem :
    (s : Storage) (k : ℕ)
    → IsValid s k
    → IsFull s
    → k < 24
    → (t : Storage) × (grow s ≡ some t)
      × IsValid t (suc k)
      × ((h c : ℕ) → Answers s h c ↔ Answers t h c)
      × (t.slot_size ≡ s.slot_size * 2)
      × (t.handle_of ≡ s.handle_of)
      × (t.harbor ≡ s.harbor)
      × ((t.slot 0 ≡ none) ⊎ (t.slot s.slot_size ≡ none))
unfolding grow
grow_lem s k v full h =
    let (u, run, m) =
      rehash-Moved s k s.slot_size 0 (λ _. none) v (omega arith) full
        (record { sound = λ b c e. cc; complete = λ i c l. absurd (omega arith) }) in
    (
      grown s u,
      ap
            (λ (o : Option (ℕ → Option ℕ)).
              assert (leb (s.slot_size * 2 - 1) handle_mask) (o >>= (λ w. some (grown s w))))
            run
          ∙ ap (λ (b : Bool). assert b (some (grown s u))) (fits s k v h),
      record {
        size = omega (arith, v.size, pow-suc 2 k);
        small = omega arith;
        home = v.home;
        placed = λ b c e.
            let (i, l, at_i, hash) = m.sound b c e in
            (
              subst (λ (x : ℕ). x < s.slot_size * 2) hash
                  (mod-lt (s.handle_of c) (omega (arith, v.size, two_pow_pos k))),
              hash,
            );
      },
      grown-Answers s u k v m,
      refl,
      refl,
      refl,
      grown_free s u k v m,
    )
