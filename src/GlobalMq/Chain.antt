-- ===== src/GlobalMq/Chain.antt =====
-- The linked global queue of skynet_mq.c is a first-in first-out list of distinct queues.
use sdy.Base.{
  ==_refl, ==→eq, ==→ne, Among, Bool-cases, List, Option, [], ap, arith, inl, inr, none, refl, some,
  subst, sym, ℕ, ◌++◌, ◌==◌, ◌>>=◌, ◌∙◌, ◌∷◌, ◌≡◌, ◌≢◌, ◌⊎◌,
}
use sdy.Mq.{Mq}
use sdy.GlobalMq.{Store, update, init, link_last, global_push, unlink, pop_head, global_pop}

-- The addresses that a `next` chain visits.
abbrev pub Chain : (ℕ → Mq) → Option ℕ → List ℕ → Type 0
Chain f none [] = Unit
Chain f none (x ∷ xs) = ⊥
Chain f (some a) [] = ⊥
Chain f (some a) (x ∷ xs) = (a ≡ x) × Chain f (f x).next xs

abbrev pub last_of : List ℕ → Option ℕ
last_of [] = none
last_of (x ∷ []) = some x
last_of (x ∷ y ∷ xs) = last_of (y ∷ xs)

abbrev pub Distinct : List ℕ → Type 0
Distinct [] = Unit
Distinct (x ∷ xs) = (Among x xs → ⊥) × Distinct xs

-- The global queue holds exactly `xs`, oldest first.
pub record Lists (s : Store) (xs : List ℕ) : Type 0 where
  pub chain : Chain s.queues s.head xs
  pub ends : s.tail ≡ last_of xs
  pub once : Distinct xs
  pub others : (a : ℕ) → (Among a xs → ⊥) → (s.queues a).next ≡ none

pub init-Lists : (f : ℕ → Mq) → ((a : ℕ) → (f a).next ≡ none) → Lists (init f) []
unfolding init
init-Lists f h = record { chain = tt; ends = refl; once = tt; others = λ a _. h a }

pub update_self : (f : ℕ → Mq) (a : ℕ) (q : Mq) → update f a q a ≡ q
unfolding update
update_self f a q = ground arith

pub update-ne : (f : ℕ → Mq) (a b : ℕ) (q : Mq) → a ≢ b → update f a q b ≡ f b
unfolding update
update-ne f a b q h = ground arith

-- A chain sees the `next` fields of its own queues alone.
pub Chain-agree :
    (f g : ℕ → Mq) (o : Option ℕ) (xs : List ℕ)
    → ((a : ℕ) → Among a xs → (g a).next ≡ (f a).next)
    → Chain f o xs
    → Chain g o xs
Chain-agree f g none [] h c = tt
Chain-agree f g none (x ∷ xs) h c = c
Chain-agree f g (some a) [] h c = c
Chain-agree f g (some a) (x ∷ xs) h c =
    (c.0, rw (h x (inl refl)) (Chain-agree f g (f x).next xs (λ b m. h b (inr m)) c.1))

pub Among-append : (a : ℕ) (xs ys : List ℕ) → Among a (xs ++ ys) → Among a xs ⊎ Among a ys
Among-append a [] ys m = inr m
Among-append a (x ∷ xs) ys (inl e) = inl (inl e)
Among-append a (x ∷ xs) ys (inr m) = ground (arith, Among-append a xs ys m)

pub Among-append_left : (a : ℕ) (xs ys : List ℕ) → Among a xs → Among a (xs ++ ys)
Among-append_left a [] ys m = absurd m
Among-append_left a (x ∷ xs) ys (inl e) = inl e
Among-append_left a (x ∷ xs) ys (inr m) = inr (Among-append_left a xs ys m)

pub Among-last : (a : ℕ) (xs : List ℕ) → Among a (xs ++ a ∷ [])
Among-last a [] = inl refl
Among-last a (x ∷ xs) = inr (Among-last a xs)

pub Distinct-snoc : (a : ℕ) (xs : List ℕ) → (Among a xs → ⊥) → Distinct xs → Distinct (xs ++ a ∷ [])
Distinct-snoc a [] h d = (λ m. m, tt)
Distinct-snoc a (x ∷ xs) h d = (
  λ m. elim (Among-append x xs (a ∷ []) m) [ inl k ↦ d.0 k | inr k ↦ h (ground arith) ],
  Distinct-snoc a xs (λ m. h (inr m)) d.1,
)

last_of-snoc : (x : ℕ) (xs : List ℕ) → last_of (xs ++ x ∷ []) ≡ some x
last_of-snoc x [] = refl
last_of-snoc x (y ∷ []) = refl
last_of-snoc x (y ∷ z ∷ xs) = last_of-snoc x (z ∷ xs)

last_of-Among : (xs : List ℕ) (t : ℕ) → last_of xs ≡ some t → Among t xs
last_of-Among [] t e = cc
last_of-Among (x ∷ []) t e = inl (cc)
last_of-Among (x ∷ y ∷ xs) t e = inr (last_of-Among (y ∷ xs) t e)

-- Linking behind the last queue of a chain makes it one longer.
Chain-snoc :
    (f g : ℕ → Mq) (o : Option ℕ) (x : ℕ) (xs : List ℕ) (t a : ℕ)
    → Chain f o (x ∷ xs)
    → Distinct (x ∷ xs)
    → last_of (x ∷ xs) ≡ some t
    → (g t).next ≡ some a
    → (g a).next ≡ none
    → ((b : ℕ) → t ≢ b → (g b).next ≡ (f b).next)
    → Chain g o (x ∷ (xs ++ a ∷ []))
Chain-snoc f g none x xs t a c d e h n k = absurd c
Chain-snoc f g (some b) x [] t a c d e h n k =
    let e' : t ≡ x = cc in let h' : (g x).next ≡ some a = rw e' at h in (c.0, rw h' (refl, rw n tt))
Chain-snoc f g (some b) x (y ∷ xs) t a c d e h n k =
    let ne : t ≢ x = λ q. d.0 (subst (λ k. Among k (y ∷ xs)) q (last_of-Among (y ∷ xs) t e)) in
    (c.0, rw (k x ne) (Chain-snoc f g (f x).next y xs t a c.1 d.1 e h n k))

-- A queue without its link: what the global queue does not touch.
abbrev pub unlinked : Mq → Mq
unlinked q = record q { next = none }

unlinked-update :
    (f : ℕ → Mq) (t b : ℕ) (o : Option ℕ)
    → unlinked (update f t (record (f t) { next = o }) b) ≡ unlinked (f b)
unfolding update
unlinked-update f t b o = elim (Bool-cases (t == b)) [
  | inl e ↦ rw e (ap (λ (k : ℕ). unlinked (f k)) (==→eq t b e))
  | inr e ↦ rw e
]

next-update :
    (f : ℕ → Mq) (t b : ℕ) (o : Option ℕ)
    → t ≢ b
    → (update f t (record (f t) { next = o }) b).next ≡ (f b).next
next-update f t b o h = ap (λ (q : Mq). q.next) (update-ne f t b (record (f t) { next = o }) h)

global_push-tail :
    (s : Store) (x : ℕ) (xs : List ℕ) (t a : ℕ)
    → Lists s (x ∷ xs)
    → last_of (x ∷ xs) ≡ some t
    → (Among a (x ∷ xs) → ⊥)
    → Lists (link_last s (some t) a) ((x ∷ xs) ++ a ∷ [])
unfolding link_last
global_push-tail s x xs t a l e h =
    let f = update s.queues t (record (s.queues t) { next = some a }) in
    let ta : t ≢ a = λ q. h (subst (λ k. Among k (x ∷ xs)) q (last_of-Among (x ∷ xs) t e)) in
    record {
      chain =
          Chain-snoc s.queues f s.head x xs t a l.chain l.once e
            (ap (λ (q : Mq). q.next)
              (update_self s.queues t (record (s.queues t) { next = some a })))
            (next-update s.queues t a (some a) ta ∙ l.others a h)
            (λ b n. next-update s.queues t b (some a) n);
      ends = sym (last_of-snoc a (x ∷ xs));
      once = Distinct-snoc a (x ∷ xs) h l.once;
      others = λ b m.
          next-update s.queues t b (some a) (λ q. m (
            Among-append_left b (x ∷ xs) (a ∷ [])
              (subst (λ k. Among k (x ∷ xs)) q (last_of-Among (x ∷ xs) t e))))
          ∙ l.others b (λ k. m (Among-append_left b (x ∷ xs) (a ∷ []) k));
    }

last_of-cons : (x : ℕ) (xs : List ℕ) → (t : ℕ) × (last_of (x ∷ xs) ≡ some t)
last_of-cons x [] = (x, refl)
last_of-cons x (y ∷ xs) = last_of-cons y xs

link_last-Lists :
    (s : Store) (xs : List ℕ) (a : ℕ)
    → Lists s xs
    → (Among a xs → ⊥)
    → Lists (link_last s s.tail a) (xs ++ a ∷ [])
link_last-Lists s [] a l h = rw l.ends (
    unfold link_last in
    record {
      chain = (refl, rw (l.others a h) tt);
      ends = refl;
      once = (λ m. m, tt);
      others = λ b m. l.others b (λ k. k);
    })
link_last-Lists s (x ∷ xs) a l h =
    let (t, e) = last_of-cons x xs in
    subst (λ (o : Option ℕ). Lists (link_last s o a) ((x ∷ xs) ++ a ∷ [])) (sym (l.ends ∙ e))
      (global_push-tail s x xs t a l e h)

unlinked-link_last :
    (s : Store) (o : Option ℕ) (a b : ℕ)
    → unlinked ((link_last s o a).queues b) ≡ unlinked (s.queues b)
unfolding link_last
unlinked-link_last s none a b = refl
unlinked-link_last s (some t) a b = unlinked-update s.queues t b (some a)

-- On a well-formed list, `skynet_globalmq_push` of a queue that is not listed succeeds, lists it last,
-- and changes nothing of any queue but links.
pub global_push_lem :
    (s : Store) (xs : List ℕ) (a : ℕ)
    → Lists s xs
    → (Among a xs → ⊥)
    → (r : Store) × (global_push s a ≡ some r)
      × Lists r (xs ++ a ∷ [])
      × ((b : ℕ) → unlinked (r.queues b) ≡ unlinked (s.queues b))
unfolding global_push
global_push_lem s xs a l h = (
  link_last s s.tail a,
  rw (l.others a h),
  link_last-Lists s xs a l h,
  unlinked-link_last s s.tail a,
)

Chain-head :
    (f : ℕ → Mq) (o : Option ℕ) (x : ℕ) (xs : List ℕ)
    → Chain f o (x ∷ xs)
    → (o ≡ some x) × Chain f (f x).next xs
Chain-head f none x xs c = absurd c
Chain-head f (some a) x xs c = (ap some c.0, c.1)

Chain-nil : (f : ℕ → Mq) (o : Option ℕ) → Chain f o [] → o ≡ none
Chain-nil f none c = refl
Chain-nil f (some a) c = absurd c

-- The store after the head `x` is unlinked, the rest running from `o` to `e`.
abbrev unlinked_store : Store → ℕ → Option ℕ → Option ℕ → Store
unlinked_store s x o e = record {
  head = o;
  tail = e;
  queues = update s.queues x (record (s.queues x) { next = none });
}

unlink-Lists :
    (s : Store) (x : ℕ) (xs : List ℕ)
    → Lists s (x ∷ xs)
    → Lists (unlinked_store s x (s.queues x).next (last_of xs)) xs
unlink-Lists s x xs l = record {
  chain =
      Chain-agree s.queues (update s.queues x (record (s.queues x) { next = none }))
        (s.queues x).next xs
        (λ a m. next-update s.queues x a none (λ q. l.once.0 (subst (λ k. Among k xs) (sym q) m)))
        (Chain-head s.queues s.head x xs l.chain).1;
  ends = refl;
  once = l.once.1;
  others = λ a m. elim (Bool-cases (x == a)) [
    | inl e ↦
        subst (λ (k : ℕ). (update s.queues x (record (s.queues x) { next = none }) k).next ≡ none)
          (==→eq x a e)
          (ap (λ (q : Mq). q.next) (update_self s.queues x (record (s.queues x) { next = none })))
    | inr e ↦
        next-update s.queues x a none (==→ne x a e)
        ∙ l.others a (λ k. elim k [ inl q ↦ ==→ne x a e (sym q) | inr r ↦ m r ])
  ];
}

unlink-some :
    (s : Store) (x y : ℕ) (o e : Option ℕ)
    → o ≡ some y
    → s.tail ≡ e
    → unlink s x o ≡ some (unlinked_store s x o e)
unfolding unlink
unlink-some s x y none e p q = cc
unlink-some s x y (some b) e p q = ap (λ (t : Option ℕ). some (unlinked_store s x (some b) t)) q

-- With the list not empty, the two branches of the code unlink its head.
unlink-eq :
    (s : Store) (x : ℕ) (xs : List ℕ)
    → Lists s (x ∷ xs)
    → unlink s x (s.queues x).next ≡ some (unlinked_store s x (s.queues x).next (last_of xs))
unfolding unlink
unlink-eq s x [] l =
    rw (Chain-nil s.queues (s.queues x).next (Chain-head s.queues s.head x [] l.chain).1, l.ends)
      (rw (==_refl x))
unlink-eq s x (y ∷ ys) l =
    unlink-some s x y (s.queues x).next (last_of (y ∷ ys))
      (Chain-head s.queues (s.queues x).next y ys
        (Chain-head s.queues s.head x (y ∷ ys) l.chain).1).0
      l.ends

abbrev pub first_of : List ℕ → Option ℕ
first_of [] = none
first_of (x ∷ xs) = some x

abbrev pub rest_of : List ℕ → List ℕ
rest_of [] = []
rest_of (x ∷ xs) = xs

-- `skynet_globalmq_pop` of a well-formed list succeeds. On an empty one it returns null; otherwise it
-- returns the oldest queue, which is no longer listed. It changes nothing of any queue but links.
pub global_pop_lem :
    (s : Store) (xs : List ℕ)
    → Lists s xs
    → (r : Store) × (global_pop s ≡ some (first_of xs, r))
      × Lists r (rest_of xs)
      × ((b : ℕ) → unlinked (r.queues b) ≡ unlinked (s.queues b))
unfolding global_pop
global_pop_lem s [] l = (s, ap (pop_head s) (Chain-nil s.queues s.head l.chain), l, λ b. refl)
global_pop_lem s (x ∷ xs) l = (
  unlinked_store s x (s.queues x).next (last_of xs),
  ap (pop_head s) (Chain-head s.queues s.head x xs l.chain).0
      ∙ ap (λ (o : Option Store). o >>= (λ s'. some (some x, s'))) (unlink-eq s x xs l),
  unlink-Lists s x xs l,
  λ b. unlinked-update s.queues x b none,
)
