-- ===== src/GlobalMq/Tests.antt =====
-- The theorems on the global queue and its schedule at systems of two queues.
use sdy.Base.{Among, List, [], arith, inl, inr, none, refl, some, ℕ, ◌∷◌, ◌≡◌, ◌≢◌, ◌⊎◌}
use sdy.Mq.{Message, blank, Mq, create, mq_length, enqueue}
use sdy.Mq.Ring.{contents}
use sdy.Mq.Invariant.{IsValid}
use sdy.GlobalMq.{Store, update, init, global_push, global_pop, mq_push, mq_release}
use sdy.GlobalMq.Chain.{Distinct, Lists, unlinked, global_push_lem, global_pop_lem}
use sdy.GlobalMq.Release.{mq_release_lem}
use sdy.GlobalMq.Schedule.{Sched, creates, sends, Reach, here, step}
use sdy.GlobalMq.Schedule.Fairness.{
  unused, start, no_lost_message, no_queue_twice, no_send_fails, no_yield_fails,
}

abbrev message : Message
message = record { source = 1; session = 2; content = 3; sz = 4 }

-- The queue 3 alone is linked.
abbrev one_listed : Store
one_listed = record { head = some 3; tail = some 3; queues = λ _. unused }

one_listed-Lists : Lists one_listed (3 ∷ [])
one_listed-Lists = record {
  chain = (refl, tt);
  ends = refl;
  once = (λ m. m, tt);
  others = λ a _. refl;
}

five_not_listed : Among {A = ℕ} 5 (3 ∷ []) → ⊥
five_not_listed (inl e) = omega (arith, e)
five_not_listed (inr m) = m

global_push_lem_example :
    (r : Store) × (global_push one_listed 5 ≡ some r)
    × Lists r (3 ∷ 5 ∷ [])
    × ((b : ℕ) → unlinked (r.queues b) ≡ unlinked (one_listed.queues b))
global_push_lem_example = global_push_lem one_listed (3 ∷ []) 5 one_listed-Lists five_not_listed

global_pop_lem_example :
    (r : Store) × (global_pop one_listed ≡ some (some 3, r))
    × Lists r []
    × ((b : ℕ) → unlinked (r.queues b) ≡ unlinked (one_listed.queues b))
global_pop_lem_example = global_pop_lem one_listed (3 ∷ []) one_listed-Lists

-- A queue marked for release with one message left.
abbrev marked : Mq
marked = record {
  handle = 1;
  cap = 2;
  head = 1;
  tail = 0;
  release = 1;
  in_global = 1;
  overload = 0;
  overload_threshold = 1024;
  queue = blank ∷ message ∷ [];
  next = none;
}

marked-IsValid : IsValid marked
marked-IsValid = record {
  storage = refl;
  head_in = omega arith;
  tail_in = omega arith;
  positive = omega arith;
}

abbrev marked_store : Store
marked_store = record { head = none; tail = none; queues = λ _. marked }

mq_release_lem_example :
    (t : Store) × (mq_release marked_store 4 ≡ some (contents (marked_store.queues 4), t))
    × (contents (t.queues 4) ≡ [])
mq_release_lem_example = mq_release_lem marked_store 4 marked-IsValid (omega arith) refl

-- A queue is created, gets a message, and is put into the global queue.
abbrev created : Sched
created = record {
  store = record start.store { queues = update start.store.queues 3 (create 1) };
  busy = 3 ∷ [];
}

abbrev sent : Sched
sent = record {
  store = record created.store {
    queues = update created.store.queues 3 (enqueue (create 1) message);
  };
  busy = 3 ∷ [];
}

start-sent : Reach start sent
unfolding init update create mq_push enqueue
start-sent = step (step here (creates 3 1 refl)) (sends 3 message sent.store refl)

sent-waits : contents (sent.store.queues 3) ≢ []
unfolding init update create enqueue contents mq_length
sent-waits e = cc

no_lost_message_example : (xs : List ℕ) × Lists sent.store xs × (Among 3 xs ⊎ Among 3 sent.busy)
no_lost_message_example = no_lost_message sent 3 start-sent sent-waits

no_queue_twice_example :
    (xs : List ℕ) × Lists sent.store xs
    × Distinct sent.busy
    × ((a : ℕ) → Among a xs → Among a sent.busy → ⊥)
no_queue_twice_example = no_queue_twice sent start-sent

no_send_fails_example : (mq_push sent.store 3 message ≢ none) × (global_pop sent.store ≢ none)
no_send_fails_example = no_send_fails sent 3 message start-sent

no_yield_fails_example : global_push sent.store 3 ≢ none
no_yield_fails_example = no_yield_fails sent 3 start-sent (inl refl)
