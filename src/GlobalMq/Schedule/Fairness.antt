-- ===== src/GlobalMq/Schedule/Fairness.antt =====
-- The scheduling promise of skynet_mq.c over every interleaving.
use sdy.Base.{
  Among, List, Option, [], arith, inl, inr, none, refl, some, subst, ℕ, ◌++◌, ◌∷◌, ◌≡◌, ◌≢◌, ◌⊎◌,
}
use sdy.GlobalMq.Schedule.{
  Sched, remove, Step, creates, sends, takes, works, rests, yields, Reach, here, step, IsFair,
}
use sdy.Ring.{copy_ring, ring_list}
use sdy.Mq.{Message, blank, Mq, mq_length}
use sdy.Mq.Ring.{contents}
use sdy.GlobalMq.{Store, init, global_push, global_pop, mq_push}
use sdy.GlobalMq.Chain.{Distinct, Lists, init-Lists, rest_of, global_pop_lem}
use sdy.GlobalMq.Schedule.Sends.{sends-IsFair, creates-IsFair}
use sdy.GlobalMq.Schedule.Works.{takes-IsFair, yields-IsFair, works-IsFair, rests-IsFair}

same_store : (o : Option Store) (r s : Store) → o ≡ some r → o ≡ some s → r ≡ s
same_store o r s e h = cc

same_pop :
    (o : Option (Option ℕ × Store)) (a b : ℕ) (r s : Store)
    → o ≡ some (some a, r)
    → o ≡ some (some b, s)
    → (a ≡ b) × (r ≡ s)
same_pop o a b r s e h = (cc, cc)

takes_any :
    (c : Sched) (xs : List ℕ) (a : ℕ) (s : Store)
    → global_pop c.store ≡ some (some a, s)
    → IsFair c xs
    → IsFair (record { store = s; busy = a ∷ c.busy }) (rest_of xs)
takes_any c [] a s e f = let (r, h, _, _) = global_pop_lem c.store [] f.lists in absurd (cc)
takes_any c (x ∷ xs) a s e f =
    let (r, h, g) = takes-IsFair c x xs f in
    let (p, q) = same_pop (global_pop c.store) x a r s h e in
    subst (λ (t : Store). IsFair (record { store = t; busy = a ∷ c.busy }) xs) q
      (subst (λ (k : ℕ). IsFair (record { store = r; busy = k ∷ c.busy }) xs) p g)

-- Every step of every thread keeps the invariant.
pub Step-IsFair :
    (c : Sched) {d : Sched} (xs : List ℕ) → Step c d → IsFair c xs → (ys : List ℕ) × IsFair d ys
Step-IsFair c xs (creates a handle e) f = (xs, creates-IsFair c xs a handle f e)
Step-IsFair c xs (sends a m s e) f =
    let (r, ys, h, g) = sends-IsFair c xs a m f in
    (
      ys,
      subst (λ (t : Store). IsFair (record c { store = t }) ys)
          (same_store (mq_push c.store a m) r s h e) g,
    )
Step-IsFair c xs (takes a s e) f = (rest_of xs, takes_any c xs a s e f)
Step-IsFair c xs (works a m b e) f = (xs, works-IsFair c xs a m f b e)
Step-IsFair c xs (rests a b e) f = (xs, rests-IsFair c xs a f b e)
Step-IsFair c xs (yields a s b e) f =
    let (r, h, g) = yields-IsFair c xs a f b in
    (
      xs ++ a ∷ [],
      subst (λ (t : Store). IsFair (record { store = t; busy = remove a c.busy }) (xs ++ a ∷ []))
          (same_store (global_push c.store a) r s h e) g,
    )

Reach-IsFair :
    (c : Sched) {d : Sched} (xs : List ℕ) → Reach c d → IsFair c xs → (ys : List ℕ) × IsFair d ys
Reach-IsFair c xs here f = (xs, f)
Reach-IsFair c xs (step {d = d} r st) f =
    let (ys, g) = Reach-IsFair c xs r f in Step-IsFair d ys st g

-- An address that no queue uses yet.
abbrev pub unused : Mq
unused = record {
  handle = 0;
  cap = 1;
  head = 0;
  tail = 0;
  release = 0;
  in_global = 0;
  overload = 0;
  overload_threshold = 1024;
  queue = blank ∷ [];
  next = none;
}

abbrev pub start : Sched
start = record { store = init (λ _. unused); busy = [] }

start-IsFair : IsFair start []
unfolding init contents mq_length ring_list copy_ring
start-IsFair = record {
  lists = init-Lists (λ _. unused) (λ _. refl);
  once = tt;
  apart = λ a m n. n;
  valid = λ a. omega arith;
  known = λ a. inr (refl, refl, elim [ inl m ↦ m | inr m ↦ m ]);
}

-- After any interleaving of creations, sends and workers' steps from the empty system, a queue with a
-- waiting message is in the global queue or held by a thread.
pub no_lost_message :
    (c : Sched) (a : ℕ)
    → Reach start c
    → contents (c.store.queues a) ≢ []
    → (xs : List ℕ) × Lists c.store xs × (Among a xs ⊎ Among a c.busy)
no_lost_message c a r h =
    let (xs, f) = Reach-IsFair start [] r start-IsFair in
    (xs, f.lists, elim (f.known a) [ inl p ↦ p.1 | inr p ↦ absurd (h p.1) ])

-- After any interleaving of creations, sends and workers' steps from the empty system, the global
-- queue is a list without repetition, no queue is held twice, and none is both in the list and held:
-- two threads never work on one queue.
pub no_queue_twice :
    (c : Sched)
    → Reach start c
    → (xs : List ℕ) × Lists c.store xs
      × Distinct c.busy
      × ((a : ℕ) → Among a xs → Among a c.busy → ⊥)
no_queue_twice c r =
    let (xs, f) = Reach-IsFair start [] r start-IsFair in (xs, f.lists, f.once, f.apart)

-- After any interleaving of creations, sends and workers' steps from the empty system, no assertion
-- fails in `skynet_mq_push` to any queue, nor in `skynet_globalmq_pop`.
pub no_send_fails :
    (c : Sched) (a : ℕ) (m : Message)
    → Reach start c
    → (mq_push c.store a m ≢ none) × (global_pop c.store ≢ none)
no_send_fails c a m r =
    let (xs, f) = Reach-IsFair start [] r start-IsFair in
    (
      λ e. let (s, ys, h, g) = sends-IsFair c xs a m f in cc,
      λ e. let (s, h, l, u) = global_pop_lem c.store xs f.lists in cc,
    )

-- After any interleaving of creations, sends and workers' steps from the empty system, no assertion
-- fails in `skynet_globalmq_push` of a queue that a thread holds.
pub no_yield_fails :
    (c : Sched) (a : ℕ) → Reach start c → Among a c.busy → global_push c.store a ≢ none
no_yield_fails c a r b e =
    let (xs, f) = Reach-IsFair start [] r start-IsFair in
    let (s, h, g) = yields-IsFair c xs a f b in cc
