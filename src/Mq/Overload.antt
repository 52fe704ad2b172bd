-- ===== src/Mq/Overload.antt =====
-- The overload counters of skynet_mq.c: the loop in `skynet_mq_pop` and what it reports.
use sdy.Base.{arith, suc, zero, ℕ, ◌*◌, ◌+◌, ◌<◌, ◌≡◌, ◌≤◌}
use sdy.Mq.{Mq, raise_threshold}

-- The ring kept by the loop on the threshold.
pub record SameRing (q r : Mq) : Type 0 where
  pub queue : r.queue ≡ q.queue
  pub size : r.cap ≡ q.cap
  pub head : r.head ≡ q.head
  pub tail : r.tail ≡ q.tail
  pub handle : r.handle ≡ q.handle

pub raise_threshold-SameRing : (fuel len : ℕ) (q : Mq) → SameRing q (raise_threshold fuel len q)
unfolding raise_threshold
raise_threshold-SameRing zero len q = ground arith
raise_threshold-SameRing (suc fuel) len q = ground (
  arith,
  raise_threshold-SameRing fuel len
      (record q { overload = len; overload_threshold = q.overload_threshold * 2 }),
)

-- With fuel above the length the loop ends by its test.
pub raise_threshold-ends :
    (fuel len : ℕ) (q : Mq)
    → 1 ≤ q.overload_threshold
    → len < fuel + q.overload_threshold
    → len ≤ (raise_threshold fuel len q).overload_threshold
unfolding raise_threshold
raise_threshold-ends zero len q p h = omega arith
raise_threshold-ends (suc fuel) len q p h = ground (
  arith,
  raise_threshold-ends fuel len
      (record q { overload = len; overload_threshold = q.overload_threshold * 2 }),
)

overload-raise_threshold :
    (fuel len : ℕ) (q : Mq) → q.overload ≡ len → (raise_threshold fuel len q).overload ≡ len
unfolding raise_threshold
overload-raise_threshold zero len q e = e
overload-raise_threshold (suc fuel) len q e = ground (
  arith,
  overload-raise_threshold fuel len
      (record q { overload = len; overload_threshold = q.overload_threshold * 2 }),
)

-- A loop that runs reports the length, and stops at the first doubling that covers it.
pub raise_threshold-reports :
    (fuel len : ℕ) (q : Mq)
    → let r = raise_threshold (suc fuel) len q in
      (len ≤ q.overload_threshold → r ≡ q) × (q.overload_threshold < len → r.overload ≡ len)
unfolding raise_threshold
raise_threshold-reports fuel len q = ground (
  arith,
  overload-raise_threshold fuel len
      (record q { overload = len; overload_threshold = q.overload_threshold * 2 }),
)

pub raise_threshold-bounds :
    (fuel len : ℕ) (q : Mq)
    → let r = raise_threshold fuel len q in
      (len ≤ q.overload_threshold → r.overload_threshold ≡ q.overload_threshold)
      × (q.overload_threshold < len → r.overload_threshold < 2 * len)
      × (q.overload_threshold ≤ r.overload_threshold)
unfolding raise_threshold
raise_threshold-bounds zero len q = ground arith
raise_threshold-bounds (suc fuel) len q = ground (
  arith,
  raise_threshold-bounds fuel len
      (record q { overload = len; overload_threshold = q.overload_threshold * 2 }),
)
