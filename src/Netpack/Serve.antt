-- ===== src/Netpack/Serve.antt =====
-- lua-netpack.c under a gate (skynet/lualib/snax/gateserver.lua), which takes the packets out of the
-- queue when there are more than one, with a handler that does not block.
use sdy.Ring.{ring_size, ring_list}
use sdy.Ring.Copy.{length-copy_ring, ring_list-empty}
use sdy.Netpack.{queuesize, NetPack, Queue, blank, new_queue, lpop}
use sdy.Netpack.Input.{Answer, waits, data_of, more, filter_data}
use sdy.Netpack.Chains.{pending_of}
use sdy.Netpack.Packets.{contents, IsRing, new_queue-IsRing, uncons, lpop_lem}
use sdy.Netpack.Filter.{IsQueue, packs}
use sdy.Base.{
  Bool-cases, List, Option, [], ap, append-nil, arith, inl, inr, length, none, refl, replicate,
  some, subst, suc, sym, zero, ℕ, ◌++◌, ◌<◌, ◌==◌, ◌>>=◌, ◌∙◌, ◌∷◌, ◌≡◌, ◌≢◌, ◌≤◌,
}
use sdy.Netpack.Frames.{unframe}
use sdy.Netpack.Begin.{handed, Queues}
use sdy.Netpack.Stream.{filter_data_lem}

-- `for fd, msg, sz in netpack.pop, queue`
unfoldable pub pop_all : ℕ → Queue → List NetPack × Queue
unfolding lpop
pop_all zero q = ([], q)
pop_all (suc fuel) q =
    let rest = pop_all fuel (lpop q).1 in
    elim (lpop q).0 [ none ↦ ([], q) | some p ↦ (p ∷ rest.0, rest.1) ]

-- `MSG.data` and `MSG.more`: the packets dispatched for an answer. The queue holds fewer than `cap`.
abbrev pub dispatched : Answer → Queue → List NetPack × Queue
dispatched waits q = ([], q)
dispatched (data_of p) q = (p ∷ [], q)
dispatched more q = pop_all q.cap q

unfoldable pub serve : Queue → ℕ → List ℕ → Option (List NetPack × Queue)
unfolding filter_data pop_all
serve q fd bytes = filter_data (some q) fd bytes >>= λ r. some (dispatched r.0 r.1)

-- The calls for what the sockets send, in any order.
unfoldable pub serve_all : Queue → List (ℕ × List ℕ) → Option (List NetPack × Queue)
unfolding serve
serve_all q [] = some ([], q)
serve_all q ((fd, bytes) ∷ inputs) =
    serve q fd bytes >>= λ r. serve_all r.1 inputs >>= λ t. some (r.0 ++ t.0, t.1)

-- A valid queue between two calls: no packet waits.
pub record Served (q : Queue) : Type 0 where
  pub valid : IsQueue q
  pub empty : contents q ≡ []

lpop-IsQueue : (q : Queue) → IsQueue q → IsQueue (lpop q).1
unfolding lpop
lpop-IsQueue q v = elim (Bool-cases (q.head == q.tail)) [
  | inl e ↦ rw e v
  | inr e ↦
      let h = v.ring.head_in in
      rw e (record {
        ring = record {
          storage = v.ring.storage;
          head_in = ground arith;
          tail_in = v.ring.tail_in;
        };
        clean = record { single = v.clean.single; fit = v.clean.fit };
      })
]

lpop-pending : (q : Queue) (f : ℕ) → pending_of (lpop q).1 f ≡ pending_of q f
unfolding lpop pending_of
lpop-pending q f = elim (Bool-cases (q.head == q.tail)) [ inl e ↦ rw e refl | inr e ↦ rw e refl ]

-- Where emptying the queue ends.
abbrev Emptied : Queue → List NetPack → List NetPack × Queue → Type 0
Emptied q ps r = (r.0 ≡ ps) × Served r.1 × ((f : ℕ) → pending_of r.1 f ≡ pending_of q f)

pop_all_by :
    (fuel : ℕ) (ps : List NetPack) (q : Queue)
    → IsQueue q
    → contents q ≡ ps
    → length ps ≤ fuel
    → Emptied q ps (pop_all fuel q)
unfolding pop_all
pop_all_by zero [] q v e h = (refl, record { valid = v; empty = e }, λ f. refl)
pop_all_by zero (p ∷ ps) q v e h = absurd (omega (arith, h))
pop_all_by (suc fuel) [] q v e h =
    let taken : (lpop q).0 ≡ none = ap (λ x. x.0) (lpop_lem q v.ring ∙ ap uncons e) in
    rw (pop_all, taken) (refl, record { valid = v; empty = e }, λ f. refl)
pop_all_by (suc fuel) (p ∷ ps) q v e h =
    let step = lpop_lem q v.ring ∙ ap uncons e in
    let taken : (lpop q).0 ≡ some p = ap (λ x. x.0) step in
    let ih =
      pop_all_by fuel ps (lpop q).1 (lpop-IsQueue q v) (ap (λ x. x.1) step) (omega (arith, h)) in
    rw (pop_all, taken) (ap (◌∷◌ p) ih.0, ih.1, λ f. ih.2 f ∙ lpop-pending q f)

length-contents : (q : Queue) → IsRing q → length (contents q) < q.cap
unfolding contents ring_list
length-contents q v =
    let n = length-copy_ring blank q.packets q.cap q.head (ring_size q.cap q.head q.tail) in
    let a = v.head_in in let b = v.tail_in in subst (λ (k : ℕ). k < q.cap) (sym n) (ground arith)

dispatched_by :
    (a : Answer) (q next : Queue) (ps : List NetPack)
    → IsQueue next
    → contents q ≡ []
    → Queues a q next
    → contents next ++ handed a ≡ ps
    → Emptied next ps (dispatched a next)
dispatched_by waits q next ps v e k h =
    let none_left = k ∙ e in
    (ap (λ xs. xs ++ []) (sym none_left) ∙ h, record { valid = v; empty = none_left }, λ f. refl)
dispatched_by (data_of p) q next ps v e k h =
    let none_left = k ∙ e in
    (
      ap (λ xs. xs ++ p ∷ []) (sym none_left) ∙ h,
      record { valid = v; empty = none_left },
      λ f. refl,
    )
dispatched_by more q next ps v e k h =
    pop_all_by next.cap ps next v (sym (append-nil (contents next)) ∙ h)
      (omega (arith, length-contents next v.ring, ap length (sym (append-nil (contents next)) ∙ h)))

-- One call, and what is dispatched for it.
pub serve_lem :
    (q : Queue) (fd f : ℕ) (bytes : List ℕ)
    → Served q
    → f ≢ fd
    → 1 ≤ length bytes
    → (next : Queue) × (serve q fd bytes
        ≡ some (packs fd (unframe (pending_of q fd) bytes).0, next))
      × Served next
      × (pending_of next fd ≡ (unframe (pending_of q fd) bytes).1)
      × (pending_of next f ≡ pending_of q f)
unfolding serve
serve_lem q fd f bytes s ne l =
    let frames = unframe (pending_of q fd) bytes in
    let r = filter_data_lem (some q) fd f bytes s.valid ne l in
    let t = r.3 in
    let d =
      dispatched_by r.0 q r.1 (packs fd frames.0) t.valid s.empty r.4
        (t.packets ∙ ap (λ xs. xs ++ packs fd frames.0) s.empty) in
    (
      (dispatched r.0 r.1).1,
      rw (r.2) (ap (λ ps. some (ps, (dispatched r.0 r.1).1)) d.0),
      d.1,
      d.2 fd ∙ t.pends,
      d.2 f ∙ t.others,
    )

pub new_queue-Served : Served new_queue
new_queue-Served = record {
  valid = record {
    ring = new_queue-IsRing;
    clean = unfold new_queue in record { single = λ f i. omega arith; fit = λ i. refl };
  };
  empty =
      unfold contents new_queue in ring_list-empty blank (replicate queuesize blank) queuesize 0;
}
