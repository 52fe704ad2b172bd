-- ===== src/GlobalMq/Schedule.antt =====
-- Threads that share the queues of skynet_mq.c: every interleaving of sends, of creations, and of
-- workers that take a queue from the global queue, work on it, and put it down (skynet_server.c,
-- `skynet_context_new` and `skynet_context_message_dispatch`), for queues not marked for release.
pub mod Members
pub mod Sends
pub mod Works
pub mod Fairness
use sdy.Base.{Among, List, [], if◌then◌else◌, none, some, ℕ, ◌==◌, ◌∷◌, ◌≡◌, ◌⊎◌}
use sdy.Mq.{Message, Mq, create}
use sdy.Mq.Ring.{contents}
use sdy.Mq.Invariant.{IsValid}
use sdy.GlobalMq.{Store, update, global_push, global_pop, mq_push, mq_pop}
use sdy.GlobalMq.Chain.{Distinct, Lists}

-- The store, and the queues that a worker holds.
pub record Sched : Type 0 where
  pub store : Store
  pub busy : List ℕ

unfoldable pub remove : ℕ → List ℕ → List ℕ
remove a [] = []
remove a (x ∷ xs) = if a == x then remove a xs else x ∷ remove a xs

-- `creates` is `skynet_mq_create`, at an address that is not in use, by a thread that then holds the
-- queue; `yields` is also the push of `skynet_context_new`.
pub data Step (c : Sched) : Sched → Type 0 where
  creates :
      (a handle : ℕ)
      → (c.store.queues a).in_global ≡ 0
      → Step c (record {
        store = record c.store { queues = update c.store.queues a (create handle) };
        busy = a ∷ c.busy;
      })
  sends :
      (a : ℕ) (m : Message) (s : Store)
      → mq_push c.store a m ≡ some s
      → Step c (record c { store = s })
  takes :
      (a : ℕ) (s : Store)
      → global_pop c.store ≡ some (some a, s)
      → Step c (record { store = s; busy = a ∷ c.busy })
  works :
      (a : ℕ) (m : Message)
      → Among a c.busy
      → (mq_pop c.store a).0 ≡ some m
      → Step c (record c { store = (mq_pop c.store a).1 })
  rests :
      (a : ℕ)
      → Among a c.busy
      → (mq_pop c.store a).0 ≡ none
      → Step c (record { store = (mq_pop c.store a).1; busy = remove a c.busy })
  yields :
      (a : ℕ) (s : Store)
      → Among a c.busy
      → global_push c.store a ≡ some s
      → Step c (record { store = s; busy = remove a c.busy })

-- A queue is active and held by someone, or idle, empty, and held by nobody.
abbrev pub Known : Mq → Type 0 → Type 0
Known q held = ((q.in_global ≡ 1) × held) ⊎ ((q.in_global ≡ 0) × (contents q ≡ []) × (held → ⊥))

-- What a sequence of steps leads to.
pub data Reach (c : Sched) : Sched → Type 0 where
  here : Reach c c
  step : {d e : Sched} → Reach c d → Step d e → Reach c e

-- No queue is held twice, and no message waits in a queue that nobody holds.
pub record IsFair (c : Sched) (xs : List ℕ) : Type 0 where
  pub lists : Lists c.store xs
  pub once : Distinct c.busy
  pub apart : (a : ℕ) → Among a xs → Among a c.busy → ⊥
  pub valid : (a : ℕ) → IsValid (c.store.queues a)
  pub known : (a : ℕ) → Known (c.store.queues a) (Among a xs ⊎ Among a c.busy)
