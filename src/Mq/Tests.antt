-- ===== src/Mq/Tests.antt =====
-- The theorems on the ring of skynet_mq.c at a full ring of four slots, which the next push moves.
use sdy.Base.{[], arith, none, refl, ℕ, ◌*◌, ◌++◌, ◌+◌, ◌<◌, ◌^◌, ◌∷◌, ◌≡◌, ◌≤◌, ◌⊎◌}
use sdy.Mq.{Message, blank, Mq, mq_length, pop, enqueue}
use sdy.Mq.Ring.{contents}
use sdy.Mq.Invariant.{IsValid, enqueue_fits}
use sdy.Mq.Fifo.{contents-enqueue, uncons, pop_fifo}
use sdy.Mq.Report.{pop_reports}

abbrev numbered : ℕ → Message
numbered n = record { source = n; session = n; content = 0; sz = 0 }

-- Three messages in the slots 2, 3 and 0.
abbrev full_ring : Mq
full_ring = record {
  handle = 1;
  cap = 4;
  head = 2;
  tail = 1;
  release = 0;
  in_global = 1;
  overload = 0;
  overload_threshold = 1;
  queue = numbered 7 ∷ blank ∷ numbered 5 ∷ numbered 6 ∷ [];
  next = none;
}

full_ring-IsValid : IsValid full_ring
full_ring-IsValid = record {
  storage = refl;
  head_in = omega arith;
  tail_in = omega arith;
  positive = omega arith;
}

full_ring-contents : contents full_ring ≡ numbered 5 ∷ numbered 6 ∷ numbered 7 ∷ []
unfolding contents
full_ring-contents = refl

expanded : (enqueue full_ring (numbered 8)).cap ≡ 8
unfolding enqueue
expanded = refl

contents-enqueue_example :
    contents (enqueue full_ring (numbered 8)) ≡ contents full_ring ++ numbered 8 ∷ []
contents-enqueue_example = contents-enqueue full_ring (numbered 8) full_ring-IsValid

pop_fifo_example : ((pop full_ring).0, contents (pop full_ring).1) ≡ uncons (contents full_ring)
pop_fifo_example = pop_fifo full_ring full_ring-IsValid

enqueue_fits_example :
    let r = enqueue full_ring (numbered 8) in
    IsValid r
    × (r.cap < 2 ^ 31)
    × (mq_length r ≡ mq_length full_ring + 1)
    × ((r.cap ≡ full_ring.cap) ⊎ ((r.cap ≡ 2 * full_ring.cap) × (mq_length r ≡ full_ring.cap)))
enqueue_fits_example = enqueue_fits (numbered 8) full_ring-IsValid (omega arith)

pop_reports_example :
    let r = (pop full_ring).1 in
    (mq_length r ≤ r.overload_threshold)
    × (((full_ring.overload_threshold < mq_length r)
          × (r.overload ≡ mq_length r)
          × (r.overload_threshold < 2 * mq_length r))
        ⊎ ((mq_length r ≤ full_ring.overload_threshold)
            × (r.overload ≡ full_ring.overload)
            × (r.overload_threshold ≡ full_ring.overload_threshold)))
pop_reports_example = pop_reports full_ring full_ring-IsValid (omega arith)
