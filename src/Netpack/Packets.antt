-- ===== src/Netpack/Packets.antt =====
-- The queue of packets of lua-netpack.c as a first-in first-out list.
use sdy.Base.{
  ==→eq, ==→ne, Bool-cases, List, Option, [], ap, arith, inl, inr, length, length-append,
  length-replicate, length-set, none, refl, replicate, set, some, sym, ◌++◌, ◌+◌, ◌<◌, ◌==◌, ◌∙◌,
  ◌∷◌, ◌≡◌,
}
use sdy.Ring.{copy_ring, ring_list, after}
use sdy.Ring.Copy.{
  length-copy_ring, ring_list-store, ring_list-fill, ring_list-take, ring_list-empty,
  ring_list-copied,
}
use sdy.Netpack.{
  queuesize, NetPack, Queue, blank, new_queue, expand_queue, store_pack, push_data, lpop,
}

-- The queued packets, oldest first.
unfoldable pub contents : Queue → List NetPack
unfolding ring_list
contents q = ring_list blank q.packets q.cap q.head q.tail

pub record IsRing (q : Queue) : Type 0 where
  pub storage : length q.packets ≡ q.cap
  pub head_in : q.head < q.cap
  pub tail_in : q.tail < q.cap

pub new_queue-IsRing : IsRing new_queue
unfolding new_queue
new_queue-IsRing = record {
  storage = length-replicate 1024 blank;
  head_in = omega arith;
  tail_in = omega arith;
}

contents-expand_queue :
    (q : Queue) → contents (expand_queue q) ≡ copy_ring blank q.packets q.cap q.head q.cap
unfolding contents expand_queue
contents-expand_queue q =
    let xs = copy_ring blank q.packets q.cap q.head q.cap in
    let full = length-copy_ring blank q.packets q.cap q.head q.cap in
    ap (ring_list blank (xs ++ replicate queuesize blank) (q.cap + queuesize) 0) (sym full)
    ∙ ring_list-copied blank xs (replicate queuesize blank) (q.cap + queuesize)
        (omega (arith, full))

expand_queue-IsRing : (q : Queue) → IsRing q → IsRing (expand_queue q)
unfolding expand_queue
expand_queue-IsRing q v =
    let xs = copy_ring blank q.packets q.cap q.head q.cap in
    let n = length-copy_ring blank q.packets q.cap q.head q.cap in
    record {
      storage =
          length-append xs (replicate queuesize blank)
          ∙ omega (arith, n, length-replicate queuesize blank);
      head_in = omega arith;
      tail_in = omega arith;
    }

store_pack-tail : (q : Queue) (p : NetPack) → IsRing q → (store_pack q p).tail ≡ after q.cap q.tail
unfolding store_pack
store_pack-tail q p v = let t = v.tail_in in ground arith

store_pack-IsRing : (q : Queue) (p : NetPack) → IsRing q → IsRing (store_pack q p)
unfolding store_pack
store_pack-IsRing q p v =
    let t = v.tail_in in
    record {
      storage = length-set q.packets q.tail p ∙ v.storage;
      head_in = v.head_in;
      tail_in = ground arith;
    }

pub push_data-IsRing : (q : Queue) (p : NetPack) → IsRing q → IsRing (push_data q p)
unfolding push_data
push_data-IsRing q p v =
    let w = store_pack-IsRing q p v in
    elim (Bool-cases ((store_pack q p).head == (store_pack q p).tail)) [
      | inl e ↦ rw e (expand_queue-IsRing (store_pack q p) w)
      | inr e ↦ rw e w
    ]

-- `push_data` to a valid queue appends the packet, also when the storage then grows.
pub contents-push_data :
    (q : Queue) (p : NetPack) → IsRing q → contents (push_data q p) ≡ contents q ++ p ∷ []
unfolding push_data
contents-push_data q p v =
    let t = store_pack-tail q p v in
    elim (Bool-cases ((store_pack q p).head == (store_pack q p).tail)) [
      | inl e ↦ rw e (
          contents-expand_queue (store_pack q p)
          ∙ unfold store_pack contents in
            ring_list-fill blank q.packets q.cap q.head q.tail p (omega (arith, v.storage))
              v.head_in v.tail_in (==→eq _ _ (unfold store_pack in e) ∙ t))
      | inr e ↦ rw e (
          unfold store_pack contents in
          ap (ring_list blank (set q.packets q.tail p) q.cap q.head) t
          ∙ ring_list-store blank q.packets q.cap q.head q.tail p (omega (arith, v.storage))
              v.head_in v.tail_in (λ w. ==→ne _ _ (unfold store_pack in e) (w ∙ sym t)))
    ]

-- `push_data` leaves the pending packets alone.
pub push_data-hash : (q : Queue) (p : NetPack) → (push_data q p).hash ≡ q.hash
unfolding push_data store_pack expand_queue
push_data-hash q p = elim (Bool-cases ((store_pack q p).head == (store_pack q p).tail)) [
  | inl e ↦ rw e refl
  | inr e ↦ rw e refl
]

-- The oldest packet, and the others.
abbrev pub uncons : List NetPack → Option NetPack × List NetPack
uncons [] = (none, [])
uncons (p ∷ ps) = (some p, ps)

-- `lpop` of a valid queue hands out the oldest packet and leaves the others in order; it returns none
-- exactly when no packet is queued.
pub lpop_lem : (q : Queue) → IsRing q → ((lpop q).0, contents (lpop q).1) ≡ uncons (contents q)
unfolding lpop contents
lpop_lem q v = elim (Bool-cases (q.head == q.tail)) [
  | inl e ↦
      let h = ==→eq q.head q.tail e in
      let empty =
        ap (ring_list blank q.packets q.cap q.head) (sym h)
        ∙ ring_list-empty blank q.packets q.cap q.head in
      rw (e, empty) refl
  | inr e ↦
      rw (e, ring_list-take blank q.packets q.cap q.head q.tail v.head_in v.tail_in (==→ne _ _ e))
        refl
]
