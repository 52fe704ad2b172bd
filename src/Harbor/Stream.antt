-- ===== src/Harbor/Stream.antt =====
-- `push_socket_data` of service_harbor.c on a stream of bytes, in pieces of any size.
use sdy.Base.{
  Bool, Bool-cases, List, Option, [], ap, append-nil, arith, if◌then◌else◌, inl, inr, length, ne→==,
  none, refl, some, suc, sym, take, zero, ℕ, ◌++◌, ◌+◌, ◌<◌, ◌==◌, ◌>>=◌, ◌∙◌, ◌∷◌, ◌≡◌, ◌≤◌, ◌⊎◌,
}
use sdy.Harbor.{Effect}
use sdy.Harbor.Peer.{
  Status, status_wait, status_handshake, status_header, status_content, status_down, Slave,
  close_harbor, queue_effects, dispatch_queue, Turn, returns, goes_on, after_effects, give_up,
  on_header, on_handshake, turn, Received, then_rounds, turns, receive,
}
use sdy.Harbor.Machine.{head_part, awaits, View, view, Result, refused, then_do, feeds}
use sdy.Harbor.Collect.{then_do_assoc, feeds-deaf}
use sdy.Harbor.Parts.{as_header, ReadsHead, shown, on_content_lem, on_header_lem}
use sdy.Harbor.Sound.{
  IsSlave, Sound, give_up-Sound, after_effects-Sound, on_content-Sound, on_header-Sound,
}

-- A result without the fields that are not read.
abbrev pub observed : Received → Result
observed o = o >>= λ p. some (p.0, view p.1)

abbrev pub Leaves : Received → Type 0
Leaves none = ◌≡◌ {A = ℕ} 0 0
Leaves (some p) = IsSlave p.1

-- There is a byte to read, or none is needed.
abbrev Ready : Slave → List ℕ → Type 0
Ready s bytes = (1 ≤ length bytes) ⊎ (s.status ≡ status_header)

abbrev as_status : Slave → Status → Slave
as_status s t = record s { status = t }

module _ (found : ℕ → Bool) (self id : ℕ) where
  after_by :
      (es : List Effect) (v : View) (t : Option Turn)
      → then_do (some (es, v)) (λ w. shown found self id t)
        ≡ shown found self id (t >>= λ u. some (after_effects es u))
  unfolding after_effects
  after_by es v none = refl
  after_by es v (some (returns fs r)) = refl
  after_by es v (some (goes_on fs r rest)) =
      then_do_assoc (some (es, v)) (λ w. some (fs, view r)) (λ w. feeds found self id w rest)

  dispatched_by :
      (es : List Effect) (s : Slave) (rest : List ℕ)
      → ReadsHead s
      → then_do (some (es, view (as_header s))) (λ w. feeds found self id w rest)
        ≡ shown found self id (
            if length rest == 0
            then some (goes_on es (as_header s) [])
            else on_header found self (as_header s) rest >>= λ t. some (after_effects es t))
  unfolding feeds
  dispatched_by es s [] v = refl
  dispatched_by es s (b ∷ bs) v = rw (ne→== (suc (length bs)) 0 (omega arith)) (
      ap (λ (r : Result). then_do (some (es, view (as_header s))) (λ w. r))
        (on_header_lem found self id s (b ∷ bs) v)
      ∙ after_by es (view (as_header s)) (on_header found self (as_header s) (b ∷ bs)))

  on_handshake_lem :
      (s : Slave) (bytes : List ℕ)
      → length s.size ≡ 4
      → s.read ≡ 0
      → 1 ≤ length bytes
      → feeds found self id (view (as_status s status_handshake)) bytes
        ≡ shown found self id (on_handshake found self id (as_status s status_handshake) bytes)
  unfolding feeds on_handshake dispatch_queue give_up close_harbor
  on_handshake_lem s [] w z l = absurd (omega (arith, l))
  on_handshake_lem s (b ∷ rest) w z l = elim (Bool-cases (b == id)) [
    | inr e ↦
        rw
          (
            e,
            feeds-deaf found self id (refused (view (as_status s status_handshake))).1 status_down
                rest,
          )
          (ap (λ fs. some (fs, (refused (view (as_status s status_handshake))).1))
            (append-nil (refused (view (as_status s status_handshake))).0))
    | inl e ↦ rw e (elim (Bool-cases (s.fd == 0)) [
      | inl f ↦ rw f refl
      | inr f ↦ rw f (
          ap
            (λ xs.
              then_do
                (some (
                  queue_effects s.fd s.queue,
                  record { socket = s.fd; waiting = none; rx = awaits head_part 4 xs },
                ))
                (λ w. feeds found self id w rest))
            (ap (λ (k : ℕ). take k s.size) (sym z))
          ∙ dispatched_by (queue_effects s.fd s.queue) (record s { queue = none }) rest
              (record { word = w; within = omega (arith, z) }))
    ])
  ]

  turn_by :
      (t : Status) (s : Slave) (bytes : List ℕ)
      → IsSlave (as_status s t)
      → Ready (as_status s t) bytes
      → feeds found self id (view (as_status s t)) bytes
        ≡ shown found self id (turn found self id (as_status s t) bytes)
  unfolding turn
  turn_by status_wait s bytes v r =
      feeds-deaf found self id (view (as_status s status_wait)) status_wait bytes
  turn_by status_down s bytes v r =
      feeds-deaf found self id (view (as_status s status_down)) status_down bytes
  turn_by status_header s bytes v r =
      on_header_lem found self id s bytes (record { word = v.word; within = v.part })
  turn_by status_handshake s bytes v (inl l) = on_handshake_lem s bytes v.word v.part l
  turn_by status_handshake s bytes v (inr e) = absurd (cc)
  turn_by status_content s bytes v (inl l) =
      on_content_lem found self id s bytes
        (record {
          buffer_length = v.part.buffer_length;
          within = v.part.within;
          unfinished = v.part.unfinished;
        })
        l
  turn_by status_content s bytes v (inr e) = absurd (cc)

  turn_lem :
      (s : Slave) (bytes : List ℕ)
      → IsSlave s
      → Ready s bytes
      → feeds found self id (view s) bytes ≡ shown found self id (turn found self id s bytes)
  turn_lem s bytes v r = turn_by s.status s bytes v r

  effects-Sound :
      (es : List Effect) (o : Option Turn) (m n : ℕ)
      → m ≤ n
      → Sound o m
      → Sound (o >>= λ t. some (after_effects es t)) n
  effects-Sound es none m n h v = refl
  effects-Sound es (some t) m n h v = after_effects-Sound es t m n h v

  dispatched-Sound :
      (es : List Effect) (s : Slave) (rest : List ℕ)
      → ReadsHead s
      → Sound
          (if length rest == 0
            then some (goes_on es (as_header s) [])
            else on_header found self (as_header s) rest >>= λ t. some (after_effects es t))
          (suc (length rest))
  dispatched-Sound es s rest v = elim (Bool-cases (length rest == 0)) [
    | inl e ↦ rw e (record { word = v.word; part = v.within }, refl, omega arith)
    | inr e ↦ rw e (
        effects-Sound es (on_header found self (as_header s) rest) (length rest) (suc (length rest))
          (omega arith) (on_header-Sound found self s rest v))
  ]

  handshake-Sound :
      (s : Slave) (bytes : List ℕ)
      → length s.size ≡ 4
      → s.read ≡ 0
      → Sound (on_handshake found self id (as_status s status_handshake) bytes) (length bytes)
  unfolding on_handshake dispatch_queue
  handshake-Sound s [] w z = refl
  handshake-Sound s (b ∷ rest) w z = elim (Bool-cases (b == id)) [
    | inr e ↦ rw e (give_up-Sound (as_status s status_handshake) (length (b ∷ rest)) w)
    | inl e ↦ rw e (elim (Bool-cases (s.fd == 0)) [
      | inl f ↦ rw f refl
      | inr f ↦ rw f (
          dispatched-Sound (queue_effects s.fd s.queue) (record s { queue = none }) rest
            (record { word = w; within = omega (arith, z) }))
    ])
  ]

  turn-Sound_by :
      (t : Status) (s : Slave) (bytes : List ℕ)
      → IsSlave (as_status s t)
      → Sound (turn found self id (as_status s t) bytes) (length bytes)
  unfolding turn
  turn-Sound_by status_wait s bytes v = v
  turn-Sound_by status_down s bytes v = v
  turn-Sound_by status_header s bytes v =
      on_header-Sound found self s bytes (record { word = v.word; within = v.part })
  turn-Sound_by status_handshake s bytes v = handshake-Sound s bytes v.word v.part
  turn-Sound_by status_content s bytes v = on_content-Sound found self s bytes v.word (record {
    buffer_length = v.part.buffer_length;
    within = v.part.within;
    unfinished = v.part.unfinished;
  })

  turn-Sound :
      (s : Slave) (bytes : List ℕ) → IsSlave s → Sound (turn found self id s bytes) (length bytes)
  turn-Sound s bytes v = turn-Sound_by s.status s bytes v

  pub observed_after :
      (es : List Effect) (o : Received)
      → observed (o >>= λ u. some (es ++ u.0, u.1)) ≡ (observed o >>= λ q. some (es ++ q.0, q.1))
  observed_after es none = refl
  observed_after es (some p) = refl

  Leaves-after :
      (es : List Effect) (o : Received) → Leaves o → Leaves (o >>= λ u. some (es ++ u.0, u.1))
  Leaves-after es none v = refl
  Leaves-after es (some p) v = v

  -- What a run of the loop on `bytes` has to be.
  abbrev Right : Slave → List ℕ → Received → Type 0
  Right s bytes run = (observed run ≡ feeds found self id (view s) bytes) × Leaves run

  turns_by :
      (rounds : Slave → List ℕ → Received) (t : Option Turn) (n : ℕ)
      → ((r : Slave) (rest : List ℕ)
          → IsSlave r
          → Ready r rest
          → length rest < n
          → Right r rest (rounds r rest))
      → Sound t n
      → (observed (t >>= λ u. then_rounds rounds u) ≡ shown found self id t)
        × Leaves (t >>= λ u. then_rounds rounds u)
  turns_by rounds none n ih v = (refl, refl)
  turns_by rounds (some (returns es r)) n ih v = (refl, v)
  turns_by rounds (some (goes_on es r rest)) n ih v =
      let next = ih r rest v.0 (inr v.1) v.2 in
      (
        observed_after es (rounds r rest)
            ∙ ap (λ (q : Result). q >>= λ p. some (es ++ p.0, p.1)) next.0,
        Leaves-after es (rounds r rest) next.1,
      )

  turns_lem :
      (fuel : ℕ) (s : Slave) (bytes : List ℕ)
      → IsSlave s
      → Ready s bytes
      → length bytes < fuel
      → Right s bytes (turns found self id fuel s bytes)
  unfolding turns
  turns_lem zero s bytes v r h = absurd (omega (arith, h))
  turns_lem (suc fuel) s bytes v r h =
      let run =
        turns_by (turns found self id fuel) (turn found self id s bytes) (length bytes)
          (λ s2 rest v2 r2 l. turns_lem fuel s2 rest v2 r2 (omega (arith, h, l)))
          (turn-Sound s bytes v) in
      (run.0 ∙ sym (turn_lem s bytes v r), run.1)

  -- On a connection whose read position fits its status, `push_socket_data` of at least one byte does
  -- what the specification does on those bytes one by one: the same effects in the same order, and the
  -- same connection but for fields that are not read again. It fails exactly when the specification
  -- meets a frame without a whole header, or has no descriptor to send to. The read position fits
  -- again afterwards.
  pub receive_lem :
      (s : Slave) (bytes : List ℕ)
      → IsSlave s
      → 1 ≤ length bytes
      → (observed (receive found self id s bytes) ≡ feeds found self id (view s) bytes)
        × Leaves (receive found self id s bytes)
  unfolding receive
  receive_lem s bytes v l = turns_lem (length bytes + 2) s bytes v (inl l) (omega arith)
