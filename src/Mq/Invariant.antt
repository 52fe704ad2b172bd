-- ===== src/Mq/Invariant.antt =====
-- What holds of every message queue of skynet_mq.c between two calls.
use sdy.Base.{
  Bool-cases, arith, inl, inr, length, length-append, length-replicate, length-set, replicate, set,
  ℕ, ◌*◌, ◌+◌, ◌<◌, ◌==◌, ◌^◌, ◌≡◌, ◌≤◌, ◌⊎◌,
}
use sdy.Ring.{copy_ring}
use sdy.Ring.Copy.{length-copy_ring}
use sdy.Mq.Overload.{raise_threshold-SameRing, raise_threshold-bounds}
use sdy.Mq.{Message, blank, Mq, create, mq_length, wrap_head, length_after_pop, pop, enqueue}

-- The indices lie in the storage, and the threshold is positive.
pub record IsValid (q : Mq) : Type 0 where
  pub storage : length q.queue ≡ q.cap
  pub head_in : q.head < q.cap
  pub tail_in : q.tail < q.cap
  pub positive : 1 ≤ q.overload_threshold

pub create-IsValid : (handle : ℕ) → IsValid (create handle)
unfolding create
create-IsValid handle = omega arith

-- One slot is always free.
pub mq_length-lt-cap : {q : Mq} → IsValid q → mq_length q < q.cap
unfolding mq_length
mq_length-lt-cap v = ground arith

-- Storing a message in `skynet_mq_push` keeps a queue valid, also when it moves the messages to larger
-- storage.
pub enqueue-IsValid : {q : Mq} (m : Message) → IsValid q → IsValid (enqueue q m)
unfolding enqueue
enqueue-IsValid {q} m v = ground (
  arith,
  length-set q.queue q.tail m,
  length-copy_ring blank (set q.queue q.tail m) q.cap q.head q.cap,
  length-append (copy_ring blank (set q.queue q.tail m) q.cap q.head q.cap) (replicate q.cap blank),
  length-replicate q.cap blank,
)

-- `skynet_mq_pop` keeps a queue valid.
pub pop-IsValid : {q : Mq} → IsValid q → IsValid (pop q).1
unfolding pop wrap_head
pop-IsValid {q} v = elim (Bool-cases (q.head == q.tail)) [
  | inl e ↦ rw e (omega (arith, v.storage))
  | inr e ↦
      let r = wrap_head (record q { head = q.head + 1 }) in
      let n = length_after_pop r in
      rw e
        (ground (arith, raise_threshold-SameRing (n + 1) n r, raise_threshold-bounds (n + 1) n r))
]

enqueue-sizes :
    {q : Mq} (m : Message)
    → IsValid q
    → q.cap < 2 ^ 30
    → let r = enqueue q m in
      (r.cap < 2 ^ 31)
      × (mq_length r ≡ mq_length q + 1)
      × ((r.cap ≡ q.cap) ⊎ ((r.cap ≡ 2 * q.cap) × (mq_length r ≡ q.cap)))
unfolding enqueue mq_length
enqueue-sizes {q} m v h = ground arith

-- Storing a message in `skynet_mq_push` keeps a valid queue of fewer than 2 ^ 30 slots valid, with a
-- capacity below 2 ^ 31, and makes it longer by one. The capacity stays as it is, or it is doubled,
-- and that only when the message fills the last slot.
pub enqueue_fits :
    {q : Mq} (m : Message)
    → IsValid q
    → q.cap < 2 ^ 30
    → let r = enqueue q m in
      IsValid r
      × (r.cap < 2 ^ 31)
      × (mq_length r ≡ mq_length q + 1)
      × ((r.cap ≡ q.cap) ⊎ ((r.cap ≡ 2 * q.cap) × (mq_length r ≡ q.cap)))
enqueue_fits {q} m v h =
    let (small, longer, doubled) = enqueue-sizes m v h in
    (enqueue-IsValid m v, small, longer, doubled)
