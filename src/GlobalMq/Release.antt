-- ===== src/GlobalMq/Release.antt =====
-- Releasing a queue of skynet_mq.c: marking it, and dropping its messages.
use sdy.Base.{
  Among, List, Option, [], ap, ap₂, arith, assert, false, if◌then◌else◌, length, none, refl, some,
  some-eq_iff, suc, zero, ℕ, ◌++◌, ◌+◌, ◌<◌, ◌==◌, ◌∙◌, ◌∷◌, ◌≡◌, ◌≢◌,
}
use sdy.Ring.{ring_size, ring_list}
use sdy.Ring.Copy.{length-copy_ring}
use sdy.Mq.{Message, blank, Mq, mq_length, pop}
use sdy.Mq.Ring.{contents}
use sdy.Mq.Invariant.{IsValid, pop-IsValid}
use sdy.Mq.Fifo.{uncons, pop_fifo}
use sdy.GlobalMq.{
  Store, update, global_push, mark_release, drain_round, drain, drop_queue, mq_release,
}
use sdy.GlobalMq.Frame.{update-Lists, pop-frame}
use sdy.GlobalMq.Chain.{Lists, update_self, global_push_lem}

length-contents : (q : Mq) → length (contents q) ≡ mq_length q
unfolding contents mq_length ring_list
length-contents q = length-copy_ring blank q.queue q.cap q.head (ring_size q.cap q.head q.tail)

-- Everything was handed out, and the queue is empty and still linked as it was.
abbrev Drained : Mq → List Message → List Message × Mq → Type 0
Drained q ms r = (r.0 ≡ ms) × (contents r.1 ≡ []) × (r.1.next ≡ q.next)

round-end :
    (q : Mq) (r : Option Message × Mq) (rest : List Message × Mq)
    → r.1.next ≡ q.next
    → (r.0, contents r.1) ≡ uncons []
    → Drained q [] (drain_round r rest)
round-end q (none, q') rest n p = (refl, ap (λ t. t.1) p, n)
round-end q (some m, q') rest n p = let e : some m ≡ none = ap (λ t. t.0) p in absurd (cc)

round-more :
    (q : Mq) (m : Message) (ms : List Message) (r : Option Message × Mq) (rest : List Message × Mq)
    → r.1.next ≡ q.next
    → r.0 ≡ some m
    → Drained r.1 ms rest
    → Drained q (m ∷ ms) (drain_round r rest)
round-more q m ms (none, q') rest n p d = absurd (cc)
round-more q m ms (some x, q') rest n p d = (ap₂ ◌∷◌ ((some-eq_iff x m).0 p) d.0, d.1, d.2 ∙ n)

drain-Drained :
    (n : ℕ) (q : Mq) (ms : List Message)
    → IsValid q
    → contents q ≡ ms
    → length ms < n
    → Drained q ms (drain n q)
unfolding drain
drain-Drained zero q ms v e le = absurd (omega (arith, le))
drain-Drained (suc n) q [] v e le =
    round-end q (pop q) (drain n (pop q).1) (pop-frame q).0 (pop_fifo q v ∙ ap uncons e)
drain-Drained (suc n) q (m ∷ ms) v e le =
    let p = pop_fifo q v ∙ ap uncons e in
    round-more q m ms (pop q) (drain n (pop q).1) (pop-frame q).0 (ap (λ r. r.0) p)
      (drain-Drained n (pop q).1 ms (pop-IsValid v) (ap (λ r. r.1) p) (omega (arith, le)))

-- `skynet_mq_release` of a queue that is marked for release and not linked hands every message left
-- to `drop_func`, oldest first, and leaves the queue empty.
pub mq_release_lem :
    (s : Store) (a : ℕ)
    → IsValid (s.queues a)
    → (s.queues a).release ≢ 0
    → (s.queues a).next ≡ none
    → (t : Store) × (mq_release s a ≡ some (contents (s.queues a), t))
      × (contents (t.queues a) ≡ [])
unfolding mq_release drop_queue
mq_release_lem s a v ne e =
    let q = s.queues a in
    let n = mq_length q + 1 in
    let d = drain-Drained n q (contents q) v refl (omega (arith, length-contents q)) in
    let t = record s { queues = update s.queues a (drain n q).1 } in
    let marked : (q.release == 0) ≡ false = ground arith in
    let alone : (drain n q).1.next ≡ none = d.2 ∙ e in
    (
      t,
      rw marked (rw alone (ap (λ ms. some (ms, t)) d.0)),
      ap contents (update_self s.queues a (drain n q).1) ∙ d.1,
    )

-- `skynet_mq_mark_release` of a queue that is not in the global queue and has `in_global` clear links
-- it there, last, and sets `release`, so that the worker that takes it can drop it.
pub mark_release_lem :
    (s : Store) (xs : List ℕ) (a : ℕ)
    → Lists s xs
    → (Among a xs → ⊥)
    → (s.queues a).release ≡ 0
    → (s.queues a).in_global ≡ 0
    → (t : Store) × (mark_release s a ≡ some t)
      × ((t.queues a).release ≡ 1)
      × Lists t (xs ++ a ∷ [])
unfolding mark_release
mark_release_lem s xs a l n e g =
    let q = record (s.queues a) { release = 1 } in
    let s' = record s { queues = update s.queues a q } in
    let (t, p, m, same_but) = global_push_lem s' xs a (update-Lists s xs a q refl l) n in
    let kept : (t.queues a).release ≡ 1 =
      ap (λ (r : Mq). r.release) (same_but a)
      ∙ ap (λ (r : Mq). r.release) (update_self s.queues a q) in
    let choose : ℕ → ℕ → Option Store =
      λ x y. assert (x == 0) (if y == 1 then some s' else global_push s' a) in
    (t, ap₂ choose e g ∙ p, kept, m)
