-- ===== src/Netpack/Stream.antt =====
-- `filter_data_` of lua-netpack.c on the bytes of a stream, from whatever is pending.
use sdy.Netpack.Begin.{
  then_frames_last, handed, Queues, Answers, waits_for, hands_out, queues_more, begin_lem,
}
use sdy.Base.{
  ==→eq, ==→ne, Bool-cases, List, Option, [], ap, arith, drop, if◌then◌else◌, inl, inr, length,
  length-replicate, length-take, ltb, ltb→lt, none, refl, replicate, some, take, ℕ, ◌*◌, ◌++◌, ◌+◌,
  ◌-◌, ◌<◌, ◌==◌, ◌^◌, ◌∙◌, ◌∷◌, ◌≡◌, ◌≢◌, ◌≤◌,
}
use sdy.Netpack.{Uncomplete, Queue, get_queue, hash_fd, find_uncomplete, read_size}
use sdy.Netpack.Input.{Answer, waits, data_of, more, fill, begin, resume, filter_data}
use sdy.Netpack.Frames.{
  Pending, nothing, first, body, unframe, then_frames, unframe-body_more, unframe-body,
  unframe-nothing,
}
use sdy.Netpack.Filter.{IsQueue, Idle, packs, Took, saved}
use sdy.Netpack.Chains.{
  pending_by, pending_in, pending_of, FitsBy, Fits, chain_take-some, find_uncomplete_lem,
}
use sdy.Memory.{memcpy, take-memcpy, length-memcpy, memcpy_full}
use sdy.Netpack.Packets.{contents, IsRing}

-- What `bytes` make of a packet of `size` bytes of which `got` have come.
abbrev fills : ℕ → List ℕ → List ℕ → List (List ℕ) × Pending
fills size got bytes =
    let need = size - length got in
    if ltb (length bytes) need
    then ([], body size (got ++ bytes))
    else then_frames (got ++ take need bytes) (drop need bytes)

fill_lem :
    (q : Queue) (fd f : ℕ) (u : Uncomplete) (k : ℕ) (bytes : List ℕ)
    → IsQueue q
    → Idle q fd
    → f ≢ fd
    → u.id ≡ fd
    → length u.buffer ≡ u.size
    → k ≤ u.size
    → Answers (fill q fd u k bytes) q fd f (fills u.size (take k u.buffer) bytes)
unfolding fill
fill_lem q fd f u k bytes v z ne same size le =
    let got = take k u.buffer in
    let n : length got ≡ k = omega (arith, length-take k u.buffer, size, le) in
    let need = u.size - k in
    let rest = drop need bytes in
    let text = got ++ take need bytes in
    rw n (elim (Bool-cases (ltb (length bytes) need)) [
      | inl few ↦
          let room = ltb→lt (length bytes) need few in
          rw few (
            waits_for q fd f (body u.size (got ++ bytes)) _ (
              saved q fd f
                (record u { buffer = memcpy u.buffer k bytes; read = some (k + length bytes) })
                (body u.size (got ++ bytes)) v z ne same
                (
                  omega (arith, room),
                  length-memcpy u.buffer k bytes (omega (arith, size, room)) ∙ size,
                )
                (ap (body u.size) (take-memcpy u.buffer k bytes (omega (arith, size, le))))))
      | inr many ↦
          let m : need ≤ length bytes = ground arith in
          let full : memcpy u.buffer k (take need bytes) ≡ text =
            memcpy_full u.buffer k (take need bytes)
              (omega (arith, length-take need bytes, size, le, m)) in
          rw (many, full)
            (elim (Bool-cases (length rest == 0)) [
              | inl e ↦
                  rw (e, then_frames_last text rest (==→eq (length rest) 0 e))
                    (hands_out q fd f text v z)
              | inr e ↦
                  rw e
                    (queues_more q fd f text rest v z ne (omega (arith, ==→ne (length rest) 0 e)))
            ])
    ])

-- A packet with missing bytes.
unframe-fills :
    (size : ℕ) (got bytes : List ℕ)
    → length got < size
    → unframe (body size got) bytes ≡ fills size got bytes
unframe-fills size got bytes h = elim (Bool-cases (ltb (length bytes) (size - length got))) [
  | inl few ↦ rw few (unframe-body_more size got bytes (ground (arith, h)))
  | inr many ↦ rw many (unframe-body size got bytes h (ground arith))
]

-- A packet whose size is read now.
unframe-first :
    (hi lo : ℕ) (bytes : List ℕ)
    → unframe (first hi) (lo ∷ bytes) ≡ fills (read_size hi lo) [] bytes
unframe-first hi lo bytes =
    let start : unframe (first hi) (lo ∷ bytes) ≡ unframe nothing (hi ∷ lo ∷ bytes) =
      unfold unframe in refl in
    start
    ∙ unframe-nothing hi lo bytes
    ∙ ap
        (λ (n : ℕ).
          if ltb (length bytes) n
          then ([], body (read_size hi lo) bytes)
          else then_frames (take n bytes) (drop n bytes))
        {x = read_size hi lo} {y = read_size hi lo - 0} (omega arith)

resume_lem :
    (q : Queue) (fd f : ℕ) (u : Uncomplete) (o : Option ℕ) (bytes : List ℕ)
    → IsQueue q
    → Idle q fd
    → f ≢ fd
    → u.id ≡ fd
    → FitsBy u o
    → 1 ≤ length bytes
    → Answers (resume q fd u o bytes) q fd f (unframe (pending_by u o) bytes)
unfolding resume
resume_lem q fd f u none [] v z ne same fit l = absurd (omega (arith, l))
resume_lem q fd f u none (b ∷ bytes) v z ne same fit l =
    let size = b + u.head_byte * 2 ^ 8 in
    let order : read_size u.head_byte b ≡ size = omega arith in
    let zero_byte : ℕ = 0 in
    rw (unframe-first u.head_byte b bytes, order)
      (fill_lem q fd f (record u { size = size; buffer = replicate size zero_byte; read = some 0 })
        0 bytes v z ne same (length-replicate size zero_byte) (omega arith))
resume_lem q fd f u (some k) bytes v z ne same fit l =
    rw
      (unframe-fills u.size (take k u.buffer) bytes
        (omega (arith, length-take k u.buffer, fit.0, fit.1)))
      (fill_lem q fd f u k bytes v z ne same fit.1 (omega (arith, fit.0)))

Queues-from :
    (a : Answer) (q q1 next : Queue) → contents q1 ≡ contents q → Queues a q1 next → Queues a q next
Queues-from waits q q1 next c h = h ∙ c
Queues-from (data_of p) q q1 next c h = h ∙ c
Queues-from more q q1 next c h = h

Answers-from :
    (q q1 : Queue) (fd f : ℕ) (frames : List (List ℕ) × Pending) (o : Option (Answer × Queue))
    → pending_of q1 f ≡ pending_of q f
    → contents q1 ≡ contents q
    → Answers o q1 fd f frames
    → Answers o q fd f frames
Answers-from q q1 fd f frames o e c (a, next, done, t, kept) = (
  a,
  next,
  done,
  record {
    valid = t.valid;
    pends = t.pends;
    others = t.others ∙ e;
    packets = t.packets ∙ ap (λ xs. xs ++ packs fd frames.0) c;
  },
  Queues-from a q q1 next c kept,
)

found_by :
    (q q1 : Queue) (fd f : ℕ) (o : Option Uncomplete) (bytes : List ℕ)
    → IsQueue q1
    → Idle q1 fd
    → f ≢ fd
    → ((u : Uncomplete) → o ≡ some u → (u.id ≡ fd) × Fits u)
    → 1 ≤ length bytes
    → Answers
        (elim o [ none ↦ begin q1 fd bytes | some u ↦ resume q1 fd u u.read bytes ])
        q1
        fd
        f
        (unframe (pending_in o) bytes)
found_by q q1 fd f none bytes v z ne h l = begin_lem q1 fd f bytes v z ne l
found_by q q1 fd f (some u) bytes v z ne h l =
    let w = h u refl in resume_lem q1 fd f u u.read bytes v z ne w.0 w.1 l

-- `filter_data_` of at least one byte for a socket, on a valid queue, succeeds and leaves a valid
-- queue. The packets that it queues, and after them the one that it hands out, are those that the bytes
-- complete after what was pending for the socket; what is left of the bytes is pending then. Of any
-- other socket the same is pending as before. It queues packets only if it says so.
pub filter_data_lem :
    (o : Option Queue) (fd f : ℕ) (bytes : List ℕ)
    → IsQueue (get_queue o)
    → f ≢ fd
    → 1 ≤ length bytes
    → (a : Answer) × (next : Queue) × (filter_data o fd bytes ≡ some (a, next))
      × Took (get_queue o) fd f (unframe (pending_of (get_queue o) fd) bytes) next (handed a)
      × Queues a (get_queue o) next
unfolding filter_data
filter_data_lem o fd f bytes v ne l =
    let q = get_queue o in
    let us = q.hash (hash_fd fd) in
    let found = find_uncomplete_lem q fd f v.clean ne in
    let q1 = (find_uncomplete q fd).1 in
    let ring : IsRing q1 =
      unfold find_uncomplete in
      record { storage = v.ring.storage; head_in = v.ring.head_in; tail_in = v.ring.tail_in } in
    let valid : IsQueue q1 = record { ring = ring; clean = found.0 } in
    let answer =
      found_by q q1 fd f (find_uncomplete q fd).0 bytes valid found.1 ne
        (λ u e.
          let t =
            chain_take-some fd us u (unfold find_uncomplete in e) (v.clean.single fd (hash_fd fd))
              (v.clean.fit (hash_fd fd)) in
          (t.0, t.1))
        l in
    unfold pending_of in
    Answers-from q q1 fd f (unframe (pending_in (find_uncomplete q fd).0) bytes) _ found.2
      (unfold find_uncomplete contents in refl) answer
