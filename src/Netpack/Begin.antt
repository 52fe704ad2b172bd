-- ===== src/Netpack/Begin.antt =====
-- `push_more` of lua-netpack.c, and `filter_data_` for a socket of which nothing is pending.
use sdy.Netpack.{NetPack, Queue, save_uncomplete, push_data, read_size, started, partial_pack}
use sdy.Netpack.Input.{push_more, Answer, waits, data_of, more, answered, begin}
use sdy.Netpack.Frames.{Pending, nothing, first, body, unframe, then_frames, unframe-nothing}
use sdy.Netpack.Filter.{
  IsQueue, Idle, Took, Idle-nothing, saved, pushed-IsQueue, pushed-Idle, pushed, pushed_last,
  partial_pack-pending,
}
use sdy.Base.{
  ==→eq, ==→ne, Bool-cases, List, Option, [], append-nil, arith, drop, inl, inr, length,
  length-drop, ltb, ltb→lt, refl, some, suc, sym, take, take_all, zero, ℕ, ◌==◌, ◌∙◌, ◌∷◌, ◌≡◌, ◌≢◌,
  ◌≤◌,
}
use sdy.Netpack.Packets.{contents}

-- Where a run ends, and that it took what `frames` says.
abbrev pub Runs : Option Queue → Queue → ℕ → ℕ → List (List ℕ) × Pending → Type 0
Runs o q fd f frames = (next : Queue) × (o ≡ some next) × Took q fd f frames next []

pub then_frames_last :
    (text rest : List ℕ) → length rest ≡ 0 → then_frames text rest ≡ ((text ∷ []), nothing)
unfolding unframe
then_frames_last text [] h = refl
then_frames_last text (b ∷ bs) h = absurd (omega (arith, h))

push_more_lem :
    (fuel : ℕ) (q : Queue) (fd f : ℕ) (bytes : List ℕ)
    → IsQueue q
    → Idle q fd
    → f ≢ fd
    → 1 ≤ length bytes
    → length bytes ≤ fuel
    → Runs (push_more fuel q fd bytes) q fd f (unframe nothing bytes)
unfolding push_more
push_more_lem zero q fd f bytes v z ne l h = absurd (omega (arith, l, h))
push_more_lem (suc fuel) q fd f [] v z ne l h = absurd (omega (arith, l))
push_more_lem (suc fuel) q fd f (b ∷ []) v z ne l h = (
  save_uncomplete q (started fd b),
  refl,
  unfold unframe in saved q fd f (started fd b) (first b) v z ne refl refl refl,
)
push_more_lem (suc fuel) q fd f (hi ∷ lo ∷ bytes) v z ne l h =
    let size = read_size hi lo in
    let text = take size bytes in
    let rest = drop size bytes in
    let p : NetPack = record { id = fd; buffer = text } in
    let start = unframe-nothing hi lo bytes in
    elim (Bool-cases (ltb (length bytes) size)) [
      | inl few ↦
          let fit = partial_pack-pending fd size bytes (ltb→lt (length bytes) size few) in
          rw (few, start, few)
            (
              save_uncomplete q (partial_pack fd size bytes),
              refl,
              saved q fd f (partial_pack fd size bytes) (body size bytes) v z ne
                  (unfold partial_pack in refl) fit.0 fit.1,
            )
      | inr many ↦
          rw (many, start, many)
            (elim (Bool-cases (length rest == 0)) [
              | inl e ↦
                  rw (e, then_frames_last text rest (==→eq (length rest) 0 e))
                    (push_data q p, refl, pushed_last q fd f text v z)
              | inr e ↦
                  let ih =
                    push_more_lem fuel (push_data q p) fd f rest (pushed-IsQueue q p v)
                      (pushed-Idle q p fd z) ne (omega (arith, ==→ne (length rest) 0 e))
                      (omega (arith, length-drop size bytes, h)) in
                  rw e (ih.0, ih.1, pushed q fd f text rest ih.0 v ih.2)
            ])
    ]

-- The packet that a call hands out.
abbrev pub handed : Answer → List NetPack
handed waits = []
handed (data_of p) = p ∷ []
handed more = []

-- Only an answer that says so comes with packets in the queue.
abbrev pub Queues : Answer → Queue → Queue → Type 0
Queues waits q next = contents next ≡ contents q
Queues (data_of p) q next = contents next ≡ contents q
Queues more q next = ◌≡◌ {A = ℕ} 0 0

abbrev pub Answers : Option (Answer × Queue) → Queue → ℕ → ℕ → List (List ℕ) × Pending → Type 0
Answers o q fd f frames =
    (a : Answer) × (next : Queue) × (o ≡ some (a, next))
    × Took q fd f frames next (handed a)
    × Queues a q next

pub waits_for :
    (q : Queue) (fd f : ℕ) (p : Pending) (next : Queue)
    → Took q fd f ([], p) next []
    → Answers (some (waits, next)) q fd f ([], p)
waits_for q fd f p next t =
    (waits, next, refl, t, sym (append-nil (contents next)) ∙ t.packets ∙ append-nil (contents q))

pub hands_out :
    (q : Queue) (fd f : ℕ) (text : List ℕ)
    → IsQueue q
    → Idle q fd
    → Answers (some (data_of (record { id = fd; buffer = text }), q)) q fd f ((text ∷ []), nothing)
hands_out q fd f text v z =
    let p : NetPack = record { id = fd; buffer = text } in
    (
      data_of p,
      q,
      refl,
      record { valid = v; pends = Idle-nothing q fd z; others = refl; packets = refl },
      refl,
    )

pub queues_more :
    (q : Queue) (fd f : ℕ) (text rest : List ℕ)
    → IsQueue q
    → Idle q fd
    → f ≢ fd
    → 1 ≤ length rest
    → Answers
        (answered more
          (push_more (length rest) (push_data q (record { id = fd; buffer = text })) fd rest))
        q
        fd
        f
        (then_frames text rest)
queues_more q fd f text rest v z ne l =
    let p : NetPack = record { id = fd; buffer = text } in
    let run =
      push_more_lem (length rest) (push_data q p) fd f rest (pushed-IsQueue q p v)
        (pushed-Idle q p fd z) ne l (omega arith) in
    rw (run.1) (more, run.0, refl, pushed q fd f text rest run.0 v run.2, refl)

pub begin_lem :
    (q : Queue) (fd f : ℕ) (bytes : List ℕ)
    → IsQueue q
    → Idle q fd
    → f ≢ fd
    → 1 ≤ length bytes
    → Answers (begin q fd bytes) q fd f (unframe nothing bytes)
unfolding begin
begin_lem q fd f [] v z ne l = absurd (omega (arith, l))
begin_lem q fd f (b ∷ []) v z ne l =
    unfold unframe in
    waits_for q fd f (first b) (save_uncomplete q (started fd b))
      (saved q fd f (started fd b) (first b) v z ne refl refl refl)
begin_lem q fd f (hi ∷ lo ∷ bytes) v z ne l =
    let size = read_size hi lo in
    let rest = drop size bytes in
    let start = unframe-nothing hi lo bytes in
    elim (Bool-cases (ltb (length bytes) size)) [
      | inl few ↦
          let fit = partial_pack-pending fd size bytes (ltb→lt (length bytes) size few) in
          rw (few, start, few)
            (waits_for q fd f (body size bytes) (save_uncomplete q (partial_pack fd size bytes)) (
              saved q fd f (partial_pack fd size bytes) (body size bytes) v z ne
                (unfold partial_pack in refl) fit.0 fit.1))
      | inr many ↦
          rw (many, start, many)
            (elim (Bool-cases (length bytes == size)) [
              | inl e ↦
                  let same = ==→eq (length bytes) size e in
                  rw
                    (
                      e,
                      then_frames_last (take size bytes) rest
                          (omega (arith, length-drop size bytes, same)),
                      take_all size bytes (omega (arith, same)),
                    )
                    (hands_out q fd f bytes v z)
              | inr e ↦
                  let d = ==→ne (length bytes) size e in
                  let m : size ≤ length bytes = ground arith in
                  rw e (
                    queues_more q fd f (take size bytes) rest v z ne
                      (omega (arith, length-drop size bytes, d, m)))
            ])
    ]
