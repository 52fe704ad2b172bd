-- ===== src/GlobalMq/Schedule/Works.antt =====
-- What workers do with the queues of skynet_mq.c keeps every waiting message in sight.
use sdy.Base.{
  Among, List, Option, [], ap, arith, inl, inr, none, refl, some, subst, ℕ, ◌++◌, ◌∙◌, ◌∷◌, ◌≡◌,
  ◌⊎◌,
}
use sdy.Mq.{Message, pop}
use sdy.Mq.Ring.{contents}
use sdy.Mq.Invariant.{IsValid, pop-IsValid}
use sdy.Mq.Fifo.{uncons, pop_fifo}
use sdy.GlobalMq.{Store, global_push, global_pop, mq_pop}
use sdy.GlobalMq.Chain.{global_push_lem, global_pop_lem}
use sdy.GlobalMq.Frame.{update-Lists, pop-frame, IsValid-unlinked, update-cases}
use sdy.GlobalMq.Schedule.{Sched, remove, Known, IsFair}
use sdy.GlobalMq.Schedule.Members.{Among-remove, Distinct-remove, held_back, apart_back, Known-map}

pub takes-IsFair :
    (c : Sched) (x : ℕ) (xs : List ℕ)
    → IsFair c (x ∷ xs)
    → (s : Store) × (global_pop c.store ≡ some (some x, s))
      × IsFair (record { store = s; busy = x ∷ c.busy }) xs
takes-IsFair c x xs f =
    let (s, e, l, u) = global_pop_lem c.store (x ∷ xs) f.lists in
    (
      s,
      e,
      record {
        lists = l;
        once = (λ m. f.apart x (inl refl) m, f.once);
        apart = λ a m k. elim k [
          | inl q ↦ f.lists.once.0 (subst (λ t. Among t xs) q m)
          | inr r ↦ f.apart a (inr m) r
        ];
        valid = λ a. IsValid-unlinked (c.store.queues a) (s.queues a) (u a) (f.valid a);
        known = λ a.
            Known-map (c.store.queues a) (s.queues a) _ _ (u a)
              (elim [ inl (inl q) ↦ inr (inl q) | inl (inr m) ↦ inl m | inr m ↦ inr (inr m) ])
              (elim [ inl m ↦ inl (inr m) | inr (inl q) ↦ inl (inl q) | inr (inr m) ↦ inr m ])
              (f.known a);
      },
    )

pub yields-IsFair :
    (c : Sched) (xs : List ℕ) (a : ℕ)
    → IsFair c xs
    → Among a c.busy
    → (s : Store) × (global_push c.store a ≡ some s)
      × IsFair (record { store = s; busy = remove a c.busy }) (xs ++ a ∷ [])
yields-IsFair c xs a f b =
    let (s, e, l, u) = global_push_lem c.store xs a f.lists (λ m. f.apart a m b) in
    (
      s,
      e,
      record {
        lists = l;
        once = Distinct-remove a c.busy f.once;
        apart = λ k m r. apart_back a k xs c.busy f.apart m r;
        valid = λ k. IsValid-unlinked (c.store.queues k) (s.queues k) (u k) (f.valid k);
        known = λ k.
            Known-map (c.store.queues k) (s.queues k) (Among k xs ⊎ Among k c.busy)
              (Among k (xs ++ a ∷ []) ⊎ Among k (remove a c.busy)) (u k)
              (held_back a k xs c.busy b).0 (held_back a k xs c.busy b).1 (f.known k);
      },
    )

uncons-none : (o : Option Message) (ms xs : List Message) → (o, ms) ≡ uncons xs → o ≡ none → ms ≡ []
uncons-none o ms [] e h = ap (λ (p : Option Message × List Message). p.1) e
uncons-none o ms (x ∷ xs) e h = absurd (ground arith)

pub works-IsFair :
    (c : Sched) (xs : List ℕ) (a : ℕ) (m : Message)
    → IsFair c xs
    → Among a c.busy
    → (mq_pop c.store a).0 ≡ some m
    → IsFair (record c { store = (mq_pop c.store a).1 }) xs
unfolding mq_pop
works-IsFair c xs a m f b e =
    let q = c.store.queues a in
    let r = (pop q).1 in
    record {
      lists = update-Lists c.store xs a r (pop-frame q).0 f.lists;
      once = f.once;
      apart = f.apart;
      valid =
          update-cases (λ _. IsValid) c.store.queues a r (pop-IsValid (f.valid a))
            (λ k _. f.valid k);
      known =
          update-cases (λ k t. Known t (Among k xs ⊎ Among k c.busy)) c.store.queues a r
            (elim (f.known a) [
              | inl p ↦ inl ((pop-frame q).2 m e ∙ p.0, p.1)
              | inr p ↦ absurd (p.2 (inr b))
            ])
            (λ k _. f.known k);
    }

pub rests-IsFair :
    (c : Sched) (xs : List ℕ) (a : ℕ)
    → IsFair c xs
    → Among a c.busy
    → (mq_pop c.store a).0 ≡ none
    → IsFair (record { store = (mq_pop c.store a).1; busy = remove a c.busy }) xs
unfolding mq_pop
rests-IsFair c xs a f b e =
    let q = c.store.queues a in
    let r = (pop q).1 in
    record {
      lists = update-Lists c.store xs a r (pop-frame q).0 f.lists;
      once = Distinct-remove a c.busy f.once;
      apart = λ k m n. f.apart k m ((Among-remove a k c.busy).0 n).0;
      valid =
          update-cases (λ _. IsValid) c.store.queues a r (pop-IsValid (f.valid a))
            (λ k _. f.valid k);
      known =
          update-cases (λ k t. Known t (Among k xs ⊎ Among k (remove a c.busy))) c.store.queues a r
            (inr (
              (pop-frame q).1 e,
              uncons-none (pop q).0 (contents r) (contents q) (pop_fifo q (f.valid a)) e,
              λ h. elim h [
                | inl m ↦ f.apart a m b
                | inr m ↦ ((Among-remove a a c.busy).0 m).1 refl
              ],
            ))
            (λ k n.
              Known-map (c.store.queues k) (c.store.queues k) (Among k xs ⊎ Among k c.busy)
                (Among k xs ⊎ Among k (remove a c.busy)) refl
                (elim [ inl m ↦ inl m | inr m ↦ inr ((Among-remove a k c.busy).1 (m, n)) ])
                (elim [ inl m ↦ inl m | inr m ↦ inr ((Among-remove a k c.busy).0 m).0 ])
                (f.known k));
    }
