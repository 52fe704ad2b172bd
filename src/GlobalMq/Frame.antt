-- ===== src/GlobalMq/Frame.antt =====
-- What the operations of skynet_mq.c leave alone: links under changes of a queue's fields, and
-- the other fields under changes of links.
use sdy.Base.{
  ==→eq, ==→ne, Bool-cases, List, ap, arith, inl, inr, length, none, some, subst, suc, sym, zero, ℕ,
  ◌*◌, ◌+◌, ◌==◌, ◌∙◌, ◌≡◌, ◌≢◌,
}
use sdy.Mq.{Message, Mq, mq_length, raise_threshold, wrap_head, length_after_pop, pop, enqueue}
use sdy.Mq.Ring.{contents}
use sdy.Mq.Invariant.{IsValid}
use sdy.GlobalMq.{Store, update}
use sdy.GlobalMq.Chain.{Lists, update_self, update-ne, Chain-agree, unlinked}

-- A change of one queue that keeps its link keeps the global queue.
pub update-Lists :
    (s : Store) (xs : List ℕ) (a : ℕ) (q : Mq)
    → q.next ≡ (s.queues a).next
    → Lists s xs
    → Lists (record s { queues = update s.queues a q }) xs
update-Lists s xs a q e l = record {
  chain = Chain-agree s.queues (update s.queues a q) s.head xs (λ b _. links b) l.chain;
  ends = l.ends;
  once = l.once;
  others = λ b m. links b ∙ l.others b m;
}
  where
    links : (b : ℕ) → (update s.queues a q b).next ≡ (s.queues b).next
    links b = elim (Bool-cases (a == b)) [
      | inl t ↦
          subst (λ (k : ℕ). (update s.queues a q k).next ≡ (s.queues k).next) (==→eq a b t)
            (ap (λ (r : Mq). r.next) (update_self s.queues a q) ∙ e)
      | inr n ↦ ap (λ (r : Mq). r.next) (update-ne s.queues a b q (==→ne a b n))
    ]

pub enqueue-frame :
    (q : Mq) (m : Message) → ((enqueue q m).next ≡ q.next) × ((enqueue q m).in_global ≡ q.in_global)
unfolding enqueue
enqueue-frame q m = ground arith

raise_threshold-frame :
    (fuel len : ℕ) (q : Mq)
    → ((raise_threshold fuel len q).next ≡ q.next)
      × ((raise_threshold fuel len q).in_global ≡ q.in_global)
      × ((raise_threshold fuel len q).release ≡ q.release)
unfolding raise_threshold
raise_threshold-frame zero len q = ground arith
raise_threshold-frame (suc fuel) len q = ground (
  arith,
  raise_threshold-frame fuel len
      (record q { overload = len; overload_threshold = q.overload_threshold * 2 }),
)

-- `skynet_mq_pop` clears `in_global` exactly when it finds no message.
pub pop-frame :
    (q : Mq)
    → ((pop q).1.next ≡ q.next)
      × ((pop q).0 ≡ none → (pop q).1.in_global ≡ 0)
      × ((m : Message) → (pop q).0 ≡ some m → (pop q).1.in_global ≡ q.in_global)
unfolding pop wrap_head
pop-frame q =
    let r = wrap_head (record q { head = q.head + 1 }) in
    let n = length_after_pop r in
    (
      ground (arith, raise_threshold-frame (n + 1) n r),
      ground arith,
      λ m. ground (arith, raise_threshold-frame (n + 1) n r),
    )

-- Links carry nothing of a queue's state.
pub IsValid-unlinked : (q r : Mq) → unlinked r ≡ unlinked q → IsValid q → IsValid r
IsValid-unlinked q r e v = record {
  storage = ap (λ (x : Mq). length x.queue) e ∙ v.storage ∙ sym (ap (λ (x : Mq). x.cap) e);
  head_in = omega (arith, v.head_in, ap (λ (x : Mq). x.head) e, ap (λ (x : Mq). x.cap) e);
  tail_in = omega (arith, v.tail_in, ap (λ (x : Mq). x.tail) e, ap (λ (x : Mq). x.cap) e);
  positive = omega (arith, v.positive, ap (λ (x : Mq). x.overload_threshold) e);
}

pub contents-unlinked : (q r : Mq) → unlinked r ≡ unlinked q → contents r ≡ contents q
unfolding contents mq_length
contents-unlinked q r e = ap (λ (x : Mq). contents x) e

-- To prove something of every queue after an update.
pub update-cases {ℓ} :
    (P : ℕ → Mq → Type ℓ) (f : ℕ → Mq) (a : ℕ) (q : Mq)
    → P a q
    → ((b : ℕ) → a ≢ b → P b (f b))
    → (b : ℕ) → P b (update f a q b)
unfolding update
update-cases P f a q h k b = elim (Bool-cases (a == b)) [
  | inl e ↦ rw e (subst (λ (x : ℕ). P x q) (==→eq a b e) h)
  | inr e ↦ rw e (k b (==→ne a b e))
]
