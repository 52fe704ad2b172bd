-- ===== src/GlobalMq.antt =====
-- skynet/skynet-src/skynet_mq.c, the global queue and the entry points that reach it. The store
-- maps an address to its `struct message_queue`; the global queue is linked through the `next`
-- fields. A failed `assert` is `none`. Each operation holds the spinlock of what it changes, so
-- concurrent calls are sequences of these operations (`Schedule`).
pub mod Chain
pub mod Frame
pub mod Release
pub mod Schedule
mod Tests
use sdy.Base.{
  Bool, List, Option, [], assert, false, if◌then◌else◌, none, some, suc, true, zero, ℕ, ◌+◌, ◌==◌,
  ◌>>=◌, ◌∷◌,
}
use sdy.Mq.{Message, Mq, mq_length, pop, enqueue}

-- `struct global_queue` with the message queues that its pointers lead to.
pub record Store : Type 0 where
  pub head : Option ℕ
  pub tail : Option ℕ
  pub queues : ℕ → Mq

unfoldable pub update : (ℕ → Mq) → ℕ → Mq → ℕ → Mq
update f a q b = if a == b then q else f b

-- `skynet_mq_init`
unfoldable pub init : (ℕ → Mq) → Store
init queues = record { head = none; tail = none; queues = queues }

abbrev pub is_null : Option ℕ → Bool
is_null none = true
is_null (some a) = false

-- The body of `skynet_globalmq_push` behind its assertion.
unfoldable pub link_last : Store → Option ℕ → ℕ → Store
unfolding update
link_last s none a = record s { head = some a; tail = some a }
link_last s (some t) a = record s {
  tail = some a;
  queues = update s.queues t (record (s.queues t) { next = some a });
}

-- `skynet_globalmq_push`
unfoldable pub global_push : Store → ℕ → Option Store
unfolding link_last
global_push s a = assert (is_null (s.queues a).next) (some (link_last s s.tail a))

abbrev pub same : Option ℕ → ℕ → Bool
same none a = false
same (some b) a = a == b

-- The branch of `skynet_globalmq_pop` for a head that is not null.
unfoldable pub unlink : Store → ℕ → Option ℕ → Option Store
unfolding update
unlink s a none = assert (same s.tail a) (
    some (record {
      head = none;
      tail = none;
      queues = update s.queues a (record (s.queues a) { next = none });
    }))
unlink s a (some b) =
    some
      (record s { head = some b; queues = update s.queues a (record (s.queues a) { next = none }) })

-- `skynet_globalmq_pop`, by its `mq = q->head`.
unfoldable pub pop_head : Store → Option ℕ → Option (Option ℕ × Store)
unfolding unlink
pop_head s none = some (none, s)
pop_head s (some a) = unlink s a (s.queues a).next >>= λ s'. some (some a, s')

unfoldable pub global_pop : Store → Option (Option ℕ × Store)
unfolding pop_head
global_pop s = pop_head s s.head

-- `skynet_mq_push`
unfoldable pub mq_push : Store → ℕ → Message → Option Store
unfolding update
mq_push s a m =
    let q = enqueue (s.queues a) m in
    if q.in_global == 0
    then global_push (record s { queues = update s.queues a (record q { in_global = 1 }) }) a
    else some (record s { queues = update s.queues a q })

-- `skynet_mq_pop` on the queue at an address.
unfoldable pub mq_pop : Store → ℕ → Option Message × Store
unfolding update
mq_pop s a = let (m, q) = pop (s.queues a) in (m, record s { queues = update s.queues a q })

-- `skynet_mq_mark_release`
unfoldable pub mark_release : Store → ℕ → Option Store
unfolding update
mark_release s a =
    let q = s.queues a in
    let s' = record s { queues = update s.queues a (record q { release = 1 }) } in
    assert (q.release == 0) (if q.in_global == 1 then some s' else global_push s' a)

-- The loop of `_drop_queue`: the messages handed to `drop_func`, in order. One round, by what
-- `skynet_mq_pop` returned and what the rounds after it do.
abbrev pub drain_round : Option Message × Mq → List Message × Mq → List Message × Mq
drain_round (none, q) rest = ([], q)
drain_round (some m, q) rest = (m ∷ rest.0, rest.1)

unfoldable pub drain : ℕ → Mq → List Message × Mq
drain zero q = ([], q)
drain (suc fuel) q = drain_round (pop q) (drain fuel (pop q).1)

-- `_drop_queue` with `_release`; a queue of `n` messages is empty after `n` rounds, and the next
-- round leaves the loop. Freed storage is not modelled: the queue is left drained.
unfoldable pub drop_queue : Store → ℕ → Option (List Message × Store)
unfolding drain update
drop_queue s a =
    let (ms, q) = drain (mq_length (s.queues a) + 1) (s.queues a) in
    assert (is_null q.next) (some (ms, record s { queues = update s.queues a q }))

-- `skynet_mq_release`: the dropped messages, or none and the queue goes back to the global queue.
unfoldable pub mq_release : Store → ℕ → Option (List Message × Store)
unfolding drop_queue
mq_release s a =
    if (s.queues a).release == 0 then global_push s a >>= (λ s'. some ([], s')) else drop_queue s a
