-- ===== src/Netpack/Chains.antt =====
-- The pending packets of lua-netpack.c: one at most for each socket, in the chain of its hash.
use sdy.Base.{
  ==_refl, ==→eq, Bool-cases, List, Option, Option-cases, [], ap, arith, if◌then◌else◌, inl, inr,
  length, ne→==, none, refl, some, some-eq_iff, subst, suc, sym, take, ℕ, ◌<◌, ◌==◌, ◌∙◌, ◌∷◌, ◌≡◌,
  ◌≢◌, ◌≤◌,
}
use sdy.Netpack.{
  Uncomplete, Queue, hash_fd, chain_take, set_chain, find_uncomplete, save_uncomplete,
}
use sdy.Netpack.Frames.{Pending, nothing, first, body}

abbrev pub pending_by : Uncomplete → Option ℕ → Pending
pending_by u none = first u.head_byte
pending_by u (some k) = body u.size (take k u.buffer)

abbrev pub pending_in : Option Uncomplete → Pending
pending_in none = nothing
pending_in (some u) = pending_by u u.read

-- What is pending for a socket.
unfoldable pub pending_of : Queue → ℕ → Pending
pending_of q fd = pending_in (chain_take fd (q.hash (hash_fd fd))).0

-- Some of the packet is missing.
abbrev pub FitsBy : Uncomplete → Option ℕ → Type 0
FitsBy u none = ◌≡◌ {A = ℕ} 0 0
FitsBy u (some k) = (k < u.size) × (length u.buffer ≡ u.size)

abbrev pub Fits : Uncomplete → Type 0
Fits u = FitsBy u u.read

abbrev pub AllFit : List Uncomplete → Type 0
AllFit [] = ◌≡◌ {A = ℕ} 0 0
AllFit (u ∷ us) = Fits u × AllFit us

abbrev pub copies : ℕ → List Uncomplete → ℕ
copies fd [] = 0
copies fd (u ∷ us) = if u.id == fd then suc (copies fd us) else copies fd us

pub absent : (fd : ℕ) (us : List Uncomplete) → copies fd us ≡ 0 → (chain_take fd us).0 ≡ none
unfolding chain_take
absent fd [] h = refl
absent fd (u ∷ us) h = elim (Bool-cases (u.id == fd)) [
  | inl e ↦ let w : suc (copies fd us) ≡ 0 = rw e at h in absurd (omega (arith, w))
  | inr e ↦ rw e (absent fd us (rw e at h))
]

pub chain_take-none :
    (fd : ℕ) (us : List Uncomplete)
    → (chain_take fd us).0 ≡ none
    → (copies fd us ≡ 0) × ((chain_take fd us).1 ≡ us)
unfolding chain_take
chain_take-none fd [] h = (refl, refl)
chain_take-none fd (u ∷ us) h = elim (Bool-cases (u.id == fd)) [
  | inl e ↦ let w : some u ≡ none = rw e at h in absurd (cc)
  | inr e ↦ let r = chain_take-none fd us (rw e at h) in rw e (r.0, ap (◌∷◌ u) r.1)
]

-- The packet that is taken, and the chain without it.
pub chain_take-some :
    (fd : ℕ) (us : List Uncomplete) (u : Uncomplete)
    → (chain_take fd us).0 ≡ some u
    → copies fd us ≤ 1
    → AllFit us
    → (u.id ≡ fd) × Fits u × (copies fd (chain_take fd us).1 ≡ 0)
unfolding chain_take
chain_take-some fd [] u h c v = absurd (cc)
chain_take-some fd (x ∷ us) u h c v = elim (Bool-cases (x.id == fd)) [
  | inl e ↦
      let same : x ≡ u = (some-eq_iff x u).0 (rw e at h) in
      let d : suc (copies fd us) ≤ 1 = rw e at c in
      rw e (
        ap (λ y. y.id) (sym same) ∙ ==→eq x.id fd e,
        subst (λ y. Fits y) same v.0,
        omega (arith, d),
      )
  | inr e ↦ let r = chain_take-some fd us u (rw e at h) (rw e at c) v.1 in rw (e, e) r
]

pub chain_take-Fits : (fd : ℕ) (us : List Uncomplete) → AllFit us → AllFit (chain_take fd us).1
unfolding chain_take
chain_take-Fits fd [] v = v
chain_take-Fits fd (u ∷ us) v = elim (Bool-cases (u.id == fd)) [
  | inl e ↦ rw e (v.1)
  | inr e ↦ rw e (v.0, chain_take-Fits fd us v.1)
]

pub chain_take-copies :
    (fd f : ℕ) (us : List Uncomplete) → copies f (chain_take fd us).1 ≤ copies f us
unfolding chain_take
chain_take-copies fd f [] = omega arith
chain_take-copies fd f (u ∷ us) =
    let ih = chain_take-copies fd f us in
    elim (Bool-cases (u.id == fd)) [
      | inl e ↦ rw e (ground arith)
      | inr e ↦ rw e (ground (arith, ih))
    ]

-- Taking a socket's packet leaves those of others.
pub chain_take_other :
    (fd f : ℕ) (us : List Uncomplete)
    → f ≢ fd
    → (chain_take f (chain_take fd us).1).0 ≡ (chain_take f us).0
unfolding chain_take
chain_take_other fd f [] ne = refl
chain_take_other fd f (u ∷ us) ne = elim (Bool-cases (u.id == fd)) [
  | inl e ↦ rw (e, ne→== u.id f (λ w. ne (sym w ∙ ==→eq u.id fd e))) refl
  | inr e ↦ rw e (elim (Bool-cases (u.id == f)) [
    | inl g ↦ rw g refl
    | inr g ↦ rw g (chain_take_other fd f us ne)
  ])
]

-- At most one pending packet for each socket, and each misses some bytes.
pub record Clean (q : Queue) : Type 0 where
  pub single : (f i : ℕ) → copies f (q.hash i) ≤ 1
  pub fit : (i : ℕ) → AllFit (q.hash i)

chain_by :
    {A : Type 0} (P : List Uncomplete → A) (q : Queue) (i j : ℕ) (us : List Uncomplete)
    → P us ≡ P (q.hash i)
    → P ((set_chain q i us).hash j) ≡ P (q.hash j)
chain_by P q i j us e = elim (Bool-cases (i == j)) [
  | inl t ↦ rw t (e ∙ ap (λ (k : ℕ). P (q.hash k)) (==→eq i j t))
  | inr f ↦ rw f refl
]

abbrev pub Keeps {ℓ} : (List Uncomplete → Type ℓ) → Queue → ℕ → List Uncomplete → ℕ → Type ℓ
Keeps P q i us j = P ((set_chain q i us).hash j)

set_chain-Keeps :
    (P : List Uncomplete → Type 0) (q : Queue) (i j : ℕ) (us : List Uncomplete)
    → P us
    → P (q.hash j)
    → Keeps P q i us j
set_chain-Keeps P q i j us a b = elim (Bool-cases (i == j)) [ inl t ↦ rw t a | inr f ↦ rw f b ]

-- After `find_uncomplete` nothing is pending for the socket; for others, what was.
pub find_uncomplete_lem :
    (q : Queue) (fd f : ℕ)
    → Clean q
    → f ≢ fd
    → Clean (find_uncomplete q fd).1
      × (copies fd ((find_uncomplete q fd).1.hash (hash_fd fd)) ≡ 0)
      × (pending_of (find_uncomplete q fd).1 f ≡ pending_of q f)
unfolding find_uncomplete pending_of
find_uncomplete_lem q fd f v ne =
    let i = hash_fd fd in
    let us = q.hash i in
    let rest = (chain_take fd us).1 in
    let gone : copies fd rest ≡ 0 = elim (Option-cases (chain_take fd us).0) [
      | inl e ↦ let r = chain_take-none fd us e in ap (copies fd) r.1 ∙ r.0
      | inr e ↦ (chain_take-some fd us e.0 e.1 (v.single fd i) (v.fit i)).2
    ] in
    (
      record {
        single = λ g j.
            set_chain-Keeps (λ xs. copies g xs ≤ 1) q i j rest
              (omega (arith, chain_take-copies fd g us, v.single g i)) (v.single g j);
        fit = λ j. set_chain-Keeps AllFit q i j rest (chain_take-Fits fd us (v.fit i)) (v.fit j);
      },
      rw (==_refl i) gone,
      chain_by (λ xs. pending_in (chain_take f xs).0) q i (hash_fd f) rest
          (ap pending_in (chain_take_other fd f us ne)),
    )

-- `save_uncomplete` for a socket of which nothing is pending.
pub save_uncomplete_lem :
    (q : Queue) (u : Uncomplete) (f : ℕ)
    → Clean q
    → copies u.id (q.hash (hash_fd u.id)) ≡ 0
    → Fits u
    → f ≢ u.id
    → Clean (save_uncomplete q u)
      × (pending_of (save_uncomplete q u) u.id ≡ pending_by u u.read)
      × (pending_of (save_uncomplete q u) f ≡ pending_of q f)
unfolding save_uncomplete pending_of chain_take
save_uncomplete_lem q u f v z fits ne =
    let i = hash_fd u.id in
    let us = q.hash i in
    (
      record {
        single = λ g j.
            set_chain-Keeps (λ xs. copies g xs ≤ 1) q i j (u ∷ us)
              (elim (Bool-cases (u.id == g)) [
                | inl e ↦
                    let w : copies g us ≡ 0 =
                      ap (λ (k : ℕ). copies k us) (sym (==→eq u.id g e)) ∙ z in
                    rw e (omega (arith, w))
                | inr e ↦ rw e (v.single g i)
              ])
              (v.single g j);
        fit = λ j. set_chain-Keeps AllFit q i j (u ∷ us) (fits, v.fit i) (v.fit j);
      },
      rw (==_refl i, ==_refl u.id) refl,
      chain_by (λ xs. pending_in (chain_take f xs).0) q i (hash_fd f) (u ∷ us)
          (rw (ne→== u.id f (λ w. ne (sym w))) refl),
    )
