-- ===== src/Mq/Fifo.antt =====
-- The ring of skynet_mq.c is a first-in first-out queue without bound.
use sdy.Base.{
  ==→eq, ==→ne, Bool-cases, List, Option, [], ap, arith, get_or, inl, inr, leb, none, refl,
  replicate, some, sym, ◌*◌, ◌++◌, ◌+◌, ◌==◌, ◌∙◌, ◌∷◌, ◌≡◌, ◌≢◌,
}
use sdy.Ring.{copy_ring, ring_list}
use sdy.Ring.Copy.{
  length-copy_ring, ring_list-store, ring_list-fill, ring_list-take, ring_list-empty,
  ring_list-copied,
}
use sdy.Mq.{
  Message, blank, mq_overload, Mq, mq_length, wrap_head, length_after_pop, take_head, pop,
  expand_queue, store_tail, enqueue,
}
use sdy.Mq.Ring.{contents}
use sdy.Mq.Overload.{SameRing, raise_threshold-SameRing}
use sdy.Mq.Invariant.{IsValid}

-- `expand_queue` keeps all `cap` messages, in order.
contents-expand_queue :
    (q : Mq) → contents (expand_queue q) ≡ copy_ring blank q.queue q.cap q.head q.cap
unfolding contents expand_queue
contents-expand_queue q =
    let xs = copy_ring blank q.queue q.cap q.head q.cap in
    let full = length-copy_ring blank q.queue q.cap q.head q.cap in
    ap (ring_list blank (xs ++ replicate q.cap blank) (q.cap * 2) 0) (sym full)
    ∙ ring_list-copied blank xs (replicate q.cap blank) (q.cap * 2) (omega (arith, full))

-- `skynet_mq_push` to a valid queue appends the message to its contents, also when the ring is then
-- full and its storage doubles.
pub contents-enqueue :
    (q : Mq) (m : Message) → IsValid q → contents (enqueue q m) ≡ contents q ++ m ∷ []
unfolding enqueue
contents-enqueue q m v = elim (Bool-cases ((store_tail q m).head == (store_tail q m).tail)) [
  | inl e ↦ rw e (
      contents-expand_queue (store_tail q m)
      ∙ unfold store_tail contents in
        ring_list-fill blank q.queue q.cap q.head q.tail m (omega (arith, v.storage)) v.head_in
          v.tail_in (==→eq _ _ (unfold store_tail in e)))
  | inr e ↦ rw e (
      unfold store_tail contents in
      ring_list-store blank q.queue q.cap q.head q.tail m (omega (arith, v.storage)) v.head_in
        v.tail_in (==→ne _ _ (unfold store_tail in e)))
]

contents-SameRing : (q r : Mq) → SameRing q r → contents r ≡ contents q
unfolding contents mq_length
contents-SameRing q r s = ground arith

-- The oldest message, and the others.
abbrev pub uncons : List Message → Option Message × List Message
uncons [] = (none, [])
uncons (m ∷ ms) = (some m, ms)

-- The ring after its oldest message is taken.
abbrev past_head : Mq → Mq
past_head q = wrap_head (record q { head = q.head + 1 })

contents-past_head :
    (q : Mq)
    → IsValid q
    → q.head ≢ q.tail
    → contents q ≡ get_or q.queue q.head blank ∷ contents (past_head q)
unfolding contents wrap_head
contents-past_head q v ne =
    ring_list-take blank q.queue q.cap q.head q.tail v.head_in v.tail_in ne
    ∙ elim (Bool-cases (leb q.cap (q.head + 1))) [ inl e ↦ rw e refl | inr e ↦ rw e refl ]

contents-empty : (q : Mq) → q.head ≡ q.tail → contents q ≡ []
unfolding contents
contents-empty q e =
    ap (ring_list blank q.queue q.cap q.head) (sym e) ∙ ring_list-empty blank q.queue q.cap q.head

-- `skynet_mq_pop` of a valid queue hands out the oldest message and leaves the others in order; it
-- returns none exactly when the contents are empty.
pub pop_fifo : (q : Mq) → IsValid q → ((pop q).0, contents (pop q).1) ≡ uncons (contents q)
unfolding pop take_head
pop_fifo q v = elim (Bool-cases (q.head == q.tail)) [
  | inl e ↦
      let h = ==→eq q.head q.tail e in
      rw (
        e,
        contents-empty q h,
        contents-empty (record q { in_global = 0; overload_threshold = mq_overload }) h,
      )
  | inr e ↦
      let n = length_after_pop (past_head q) in
      rw (e, contents-past_head q v (==→ne q.head q.tail e))
        (ap (λ (ms : List Message). (some (get_or q.queue q.head blank), ms))
          (contents-SameRing (past_head q) _ (raise_threshold-SameRing (n + 1) n (past_head q))))
]
