-- ===== src/Mq/Report.antt =====
-- The overload report of skynet_mq.c: what `skynet_mq_pop` records and `skynet_mq_overload` returns.
use sdy.Base.{arith, ◌*◌, ◌+◌, ◌<◌, ◌≡◌, ◌≢◌, ◌≤◌, ◌⊎◌}
use native.Mathlib.Numerals.{add-one}
use sdy.Mq.{Mq, mq_length, raise_threshold, wrap_head, length_after_pop, pop}
use sdy.Mq.Overload.{
  SameRing, raise_threshold-SameRing, raise_threshold-ends, raise_threshold-reports,
  raise_threshold-bounds,
}
use sdy.Mq.Invariant.{IsValid}

-- The length that the loop on the threshold uses is the number of messages left.
length_after_pop-eq : (q : Mq) → IsValid q → length_after_pop q ≡ mq_length q
unfolding length_after_pop mq_length
length_after_pop-eq q v = ground arith

wrap_head-IsValid : (q : Mq) → IsValid q → IsValid (wrap_head (record q { head = q.head + 1 }))
unfolding wrap_head
wrap_head-IsValid q v = ground arith

wrap_head-overload :
    (q : Mq)
    → let r = wrap_head (record q { head = q.head + 1 }) in
      (r.overload ≡ q.overload) × (r.overload_threshold ≡ q.overload_threshold)
unfolding wrap_head
wrap_head-overload q = ground arith

mq_length-SameRing : (q r : Mq) → SameRing q r → mq_length r ≡ mq_length q
unfolding mq_length
mq_length-SameRing q r s = ground arith

-- After `skynet_mq_pop` takes a message from a valid queue that is not empty and leaves `n` messages,
-- the threshold is at least `n`. Either it was below `n`: then `n` is recorded as the overload, and
-- the new threshold is below `2 * n`. Or it was not: then overload and threshold are as before.
pub pop_reports :
    (q : Mq)
    → IsValid q
    → q.head ≢ q.tail
    → let r = (pop q).1 in
      (mq_length r ≤ r.overload_threshold)
      × (((q.overload_threshold < mq_length r)
            × (r.overload ≡ mq_length r)
            × (r.overload_threshold < 2 * mq_length r))
          ⊎ ((mq_length r ≤ q.overload_threshold)
              × (r.overload ≡ q.overload)
              × (r.overload_threshold ≡ q.overload_threshold)))
unfolding pop
pop_reports q v ne =
    let p = wrap_head (record q { head = q.head + 1 }) in
    let n = length_after_pop p in
    ground (
      arith,
      raise_threshold-SameRing (n + 1) n p,
      mq_length-SameRing p (raise_threshold (n + 1) n p) (raise_threshold-SameRing (n + 1) n p),
      length_after_pop-eq p (wrap_head-IsValid q v),
      wrap_head-overload q,
      raise_threshold-ends (n + 1) n p,
      raise_threshold-reports n n p,
      raise_threshold-bounds (n + 1) n p,
      add-one n,
      (wrap_head-IsValid q v).positive,
    )
