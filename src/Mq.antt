-- ===== src/Mq.antt =====
-- skynet/skynet-src/skynet_mq.c, the part that works on one `struct message_queue`: its ring of
-- messages and its overload counters. The global queue and the entry points that touch it are in
-- `GlobalMq`. Every operation runs under the queue's spinlock, so it is one step here.
pub mod Ring
pub mod Invariant
pub mod Fifo
pub mod Overload
pub mod Report
mod Tests
use sdy.Ring.{copy_ring}
use sdy.Base.{
  Bool, List, Option, get_or, if◌then◌else◌, leb, ltb, none, replicate, set, some, suc, zero, ℕ,
  ◌*◌, ◌++◌, ◌+◌, ◌-◌, ◌==◌,
}

-- `struct skynet_message`; `content` stands for the `data` pointer.
pub record Message : Type 0 where
  pub source : ℕ
  pub session : ℕ
  pub content : ℕ
  pub sz : ℕ

-- What a slot of freshly allocated storage reads as; no valid queue reads one.
abbrev pub blank : Message
blank = record { source = 0; session = 0; content = 0; sz = 0 }

abbrev pub default_queue_size : ℕ
default_queue_size = 64

abbrev pub mq_overload : ℕ
mq_overload = 1024

-- `struct message_queue`; `next` is the address of the next queue of the global list.
pub record Mq : Type 0 where
  pub handle : ℕ
  pub cap : ℕ
  pub head : ℕ
  pub tail : ℕ
  pub release : ℕ
  pub in_global : ℕ
  pub overload : ℕ
  pub overload_threshold : ℕ
  pub queue : List Message
  pub next : Option ℕ

-- `skynet_mq_create`
unfoldable pub create : ℕ → Mq
create handle = record {
  handle = handle;
  cap = default_queue_size;
  head = 0;
  tail = 0;
  release = 0;
  in_global = 1;
  overload = 0;
  overload_threshold = mq_overload;
  queue = replicate default_queue_size blank;
  next = none;
}

-- `skynet_mq_length`
unfoldable pub mq_length : Mq → ℕ
mq_length q = if leb q.head q.tail then q.tail - q.head else q.tail + q.cap - q.head

-- `skynet_mq_overload`
unfoldable pub take_overload : Mq → ℕ × Mq
take_overload q = if q.overload == 0 then (0, q) else (q.overload, record q { overload = 0 })

-- The loop of `skynet_mq_pop`: `while (length > overload_threshold)`.
unfoldable pub raise_threshold : ℕ → ℕ → Mq → Mq
raise_threshold zero len q = q
raise_threshold (suc fuel) len q = elim (ltb q.overload_threshold len) [
  | Bool.true ↦
      raise_threshold fuel len
        (record q { overload = len; overload_threshold = q.overload_threshold * 2 })
  | Bool.false ↦ q
]

-- `if (head >= cap) q->head = head = 0`
unfoldable pub wrap_head : Mq → Mq
wrap_head q = if leb q.cap q.head then record q { head = 0 } else q

-- The ring's length as `skynet_mq_pop` computes it: `tail - head`, plus `cap` if negative.
unfoldable pub length_after_pop : Mq → ℕ
length_after_pop q = if ltb q.tail q.head then q.tail + q.cap - q.head else q.tail - q.head

-- The branch of `skynet_mq_pop` that takes a message. The threshold at least doubles a positive
-- number each round, so `len + 1` rounds end the loop.
unfoldable pub take_head : Mq → Message × Mq
unfolding raise_threshold wrap_head length_after_pop
take_head q =
    let r = wrap_head (record q { head = q.head + 1 }) in
    (get_or q.queue q.head blank, raise_threshold (length_after_pop r + 1) (length_after_pop r) r)

-- `skynet_mq_pop`: `none` is the return value 1.
unfoldable pub pop : Mq → Option Message × Mq
unfolding take_head
pop q =
    if q.head == q.tail
    then (none, record q { overload_threshold = mq_overload; in_global = 0 })
    else (let (m, r) = take_head q in (some m, r))

-- `expand_queue`, whose loop is `copy_ring`; the second half of the new storage is not yet written.
unfoldable pub expand_queue : Mq → Mq
unfolding copy_ring
expand_queue q = record q {
  head = 0;
  tail = q.cap;
  cap = q.cap * 2;
  queue = copy_ring blank q.queue q.cap q.head q.cap ++ replicate q.cap blank;
}

-- `skynet_mq_push` up to the test of `in_global`: store at `tail`, wrap, expand when full.
unfoldable pub store_tail : Mq → Message → Mq
store_tail q m = record q {
  queue = set q.queue q.tail m;
  tail = if leb q.cap (q.tail + 1) then 0 else q.tail + 1;
}

unfoldable pub enqueue : Mq → Message → Mq
unfolding store_tail expand_queue
enqueue q m = let r = store_tail q m in if r.head == r.tail then expand_queue r else r
