-- ===== src/Harbor/Queue.antt =====
-- The queue of service_harbor.c as a first-in first-out list.
use sdy.Base.{
  ==→eq, ==→ne, Bool-cases, List, Option, [], ap, arith, get_or, inl, inr, length, length-append,
  length-replicate, length-set, mod-eq_of_lt, mod-lt, none, refl, replicate, set, some, subst, suc,
  sym, zero, ℕ, ◌%◌, ◌*◌, ◌++◌, ◌+◌, ◌-◌, ◌<◌, ◌==◌, ◌∙◌, ◌∷◌, ◌≡◌, ◌≢◌, ◌≤◌,
}
use sdy.Ring.{copy_ring, ring_size, ring_list}
use sdy.Ring.Copy.{
  length-copy_ring, ring_list-store, ring_list-take, ring_list-empty, ring_list-copied, after-mod,
}
use sdy.Harbor.{
  HarborMsg, blank, default_queue_size, MsgQueue, double_queue, store_msg, push_queue_msg,
  pop_queue, new_queue, drain,
}

-- The queued messages, oldest first.
unfoldable pub contents : MsgQueue → List HarborMsg
unfolding ring_list
contents q = ring_list blank q.messages q.size q.head q.tail

-- The indices are in the storage, which has a slot for each of at least two.
pub record IsValid (q : MsgQueue) : Type 0 where
  pub many : 2 ≤ q.size
  pub storage : length q.messages ≡ q.size
  pub head_in : q.head < q.size
  pub tail_in : q.tail < q.size

pub new_queue-IsValid : IsValid new_queue
unfolding new_queue
new_queue-IsValid = record {
  many = omega arith;
  storage = length-replicate 1024 blank;
  head_in = omega arith;
  tail_in = omega arith;
}

pub contents-new_queue : contents new_queue ≡ []
unfolding contents new_queue
contents-new_queue = ring_list-empty blank (replicate default_queue_size blank) default_queue_size 0

store_msg-IsValid : (q : MsgQueue) (m : HarborMsg) → IsValid q → IsValid (store_msg q m)
unfolding store_msg
store_msg-IsValid q m v = record {
  many = v.many;
  storage = length-set q.messages q.tail m ∙ v.storage;
  head_in = v.head_in;
  tail_in = mod-lt (q.tail + 1) (omega (arith, v.many));
}

contents-store_msg :
    (q : MsgQueue) (m : HarborMsg)
    → IsValid q
    → q.head ≢ (q.tail + 1) % q.size
    → contents (store_msg q m) ≡ contents q ++ m ∷ []
unfolding contents store_msg
contents-store_msg q m v ne =
    let step = after-mod q.size q.tail v.tail_in in
    ap (ring_list blank (set q.messages q.tail m) q.size q.head) step
    ∙ ring_list-store blank q.messages q.size q.head q.tail m (omega (arith, v.storage)) v.head_in
        v.tail_in (λ e. ne (e ∙ sym step))

-- The copied messages.
abbrev copied : MsgQueue → List HarborMsg
copied q = copy_ring blank q.messages q.size q.head (q.size - 1)

double_queue-IsValid : (q : MsgQueue) → IsValid q → IsValid (double_queue q)
unfolding double_queue
double_queue-IsValid q v =
    let n = length-copy_ring blank q.messages q.size q.head (q.size - 1) in
    record {
      many = omega (arith, v.many);
      storage =
          length-append (copied q) (replicate (q.size + 1) blank)
          ∙ omega (arith, n, length-replicate (q.size + 1) blank, v.many);
      head_in = omega (arith, v.many);
      tail_in = omega (arith, v.many);
    }

contents-double_queue :
    (q : MsgQueue)
    → IsValid q
    → (q.tail + 1) % q.size ≡ q.head
    → contents (double_queue q) ≡ contents q
unfolding contents double_queue
contents-double_queue q v e =
    let n = length-copy_ring blank q.messages q.size q.head (q.size - 1) in
    let step = after-mod q.size q.tail v.tail_in in
    let t = v.tail_in in
    let k = v.many in
    let full : q.size - 1 ≡ ring_size q.size q.head q.tail = ground arith in
    ap (ring_list blank (copied q ++ replicate (q.size + 1) blank) (q.size * 2) 0) (sym n)
    ∙ ring_list-copied blank (copied q) (replicate (q.size + 1) blank) (q.size * 2)
        (omega (arith, n))
    ∙ unfold ring_list in ap (copy_ring blank q.messages q.size q.head) full

room :
    (q : MsgQueue)
    → IsValid q
    → (double_queue q).head ≢ ((double_queue q).tail + 1) % (double_queue q).size
unfolding double_queue
room q v e =
    let k = v.many in
    let small : (q.size - 1 + 1) % (q.size * 2) ≡ q.size - 1 + 1 =
      mod-eq_of_lt (omega (arith, k)) in
    absurd (omega (arith, e, small, k))

-- `push_queue_msg` to a valid queue keeps it valid and appends the message to its contents, also when
-- the storage doubles.
pub push_queue_msg_lem :
    (q : MsgQueue) (m : HarborMsg)
    → IsValid q
    → IsValid (push_queue_msg q m) × (contents (push_queue_msg q m) ≡ contents q ++ m ∷ [])
unfolding push_queue_msg
push_queue_msg_lem q m v = elim (Bool-cases ((q.tail + 1) % q.size == q.head)) [
  | inl e ↦
      let w = double_queue-IsValid q v in
      rw e (
        store_msg-IsValid (double_queue q) m w,
        contents-store_msg (double_queue q) m w (room q v)
            ∙ ap (λ ms. ms ++ m ∷ []) (contents-double_queue q v (==→eq _ _ e)),
      )
  | inr e ↦ rw e (store_msg-IsValid q m v, contents-store_msg q m v (λ h. ==→ne _ _ e (sym h)))
]

-- The oldest message, and the others.
abbrev pub uncons : List HarborMsg → Option HarborMsg × List HarborMsg
uncons [] = (none, [])
uncons (m ∷ ms) = (some m, ms)

-- `pop_queue` of a valid queue keeps it valid, hands out the oldest message and leaves the others in
-- order; it returns none exactly when the contents are empty.
pub pop_queue_lem :
    (q : MsgQueue)
    → IsValid q
    → IsValid (pop_queue q).1 × (((pop_queue q).0, contents (pop_queue q).1) ≡ uncons (contents q))
unfolding pop_queue contents
pop_queue_lem q v = elim (Bool-cases (q.head == q.tail)) [
  | inl e ↦
      let h = ==→eq q.head q.tail e in
      let empty =
        ap (ring_list blank q.messages q.size q.head) (sym h)
        ∙ ring_list-empty blank q.messages q.size q.head in
      rw (e, empty) (v, refl)
  | inr e ↦
      let more =
        ring_list-take blank q.messages q.size q.head q.tail v.head_in v.tail_in (==→ne _ _ e) in
      rw (e, more)
        (
          record {
            many = v.many;
            storage = v.storage;
            head_in = mod-lt (q.head + 1) (omega (arith, v.many));
            tail_in = v.tail_in;
          },
          ap
              (λ (i : ℕ).
                (some (get_or q.messages q.head blank), ring_list blank q.messages q.size i q.tail))
              (after-mod q.size q.head v.head_in),
        )
]

drain_by :
    (fuel : ℕ) (ms : List HarborMsg) (q : MsgQueue)
    → IsValid q
    → contents q ≡ ms
    → length ms ≤ fuel
    → drain fuel q ≡ ms
unfolding drain
drain_by zero [] q v e h = refl
drain_by zero (m ∷ ms) q v e h = absurd (omega (arith, h))
drain_by (suc fuel) [] q v e h =
    let p = (pop_queue_lem q v).1 ∙ ap uncons e in
    let taken : (pop_queue q).0 ≡ none = ap (λ x. x.0) p in rw (drain, taken) refl
drain_by (suc fuel) (m ∷ ms) q v e h =
    let p = (pop_queue_lem q v).1 ∙ ap uncons e in
    let taken : (pop_queue q).0 ≡ some m = ap (λ x. x.0) p in
    rw (drain, taken)
      (ap (◌∷◌ m) (
        drain_by fuel ms (pop_queue q).1 (pop_queue_lem q v).0 (ap (λ x. x.1) p)
          (omega (arith, h))))

pub length-contents : (q : MsgQueue) → IsValid q → length (contents q) < q.size
unfolding contents ring_list
length-contents q v =
    let n = length-copy_ring blank q.messages q.size q.head (ring_size q.size q.head q.tail) in
    let a = v.head_in in let b = v.tail_in in subst (λ (k : ℕ). k < q.size) (sym n) (ground arith)

-- The loop that empties a valid queue sees all its messages, oldest first, and `size` rounds are
-- enough for it.
pub drain_lem : (q : MsgQueue) → IsValid q → drain q.size q ≡ contents q
drain_lem q v = drain_by q.size (contents q) q v refl (omega (arith, length-contents q v))
