-- ===== src/Harbor/Delivery.antt =====
-- What one node of service_harbor.c sends reaches the other, however the socket cuts the stream.
use sdy.Base.{
  ==_refl, Bool, List, [], ap, ap₂, arith, false, if◌then◌else◌, length, ltb, none, refl, some, sym,
  true, ℕ, ◌%◌, ◌++◌, ◌+◌, ◌-◌, ◌/◌, ◌<◌, ◌==◌, ◌>>=◌, ◌^◌, ◌∙◌, ◌∷◌, ◌≡◌, ◌≤◌,
}
use sdy.Harbor.{HarborMsg, to_bigendian, Effect, socket_send, frame, send_remote}
use sdy.Harbor.Wire.{IsHeader, payload, length-payload, forwarded, forward_local_messsage-payload}
use sdy.Harbor.Peer.{Slave, send_all, length_of, Received, receive, receive_all}
use sdy.Harbor.Machine.{
  head_part, body_part, awaits, View, rx_of, view, Result, to_rx, next_frame, complete, then_do,
  feeds,
}
use sdy.Harbor.Collect.{then_do_pure, feeds-append, collect_done}
use sdy.Harbor.Sound.{IsSlave}
use sdy.Harbor.Stream.{observed, Leaves, observed_after, receive_lem}

abbrev pub concat : List (List ℕ) → List ℕ
concat [] = []
concat (xs ∷ xss) = xs ++ concat xss

-- No piece is empty.
abbrev pub Pieces : List (List ℕ) → Type 0
Pieces [] = ◌≡◌ {A = ℕ} 0 0
Pieces (xs ∷ xss) = (1 ≤ length xs) × Pieces xss

-- A message whose length fits the three bytes that the other node reads of it.
pub record IsFramed (m : HarborMsg) : Type 0 where
  pub head : IsHeader m.header
  pub short : length m.buffer + 12 < 2 ^ 24

abbrev pub AllFramed : List HarborMsg → Type 0
AllFramed [] = ◌≡◌ {A = ℕ} 0 0
AllFramed (m ∷ ms) = IsFramed m × AllFramed ms

-- The bytes that go to a socket.
abbrev pub bytes_to : ℕ → List Effect → List ℕ
bytes_to fd [] = []
bytes_to fd (socket_send f bytes ∷ es) = if f == fd then bytes ++ bytes_to fd es else bytes_to fd es
bytes_to fd (_ ∷ es) = bytes_to fd es

abbrev pub all_forwarded : (ℕ → Bool) → ℕ → List HarborMsg → List Effect
all_forwarded found self [] = []
all_forwarded found self (m ∷ ms) = forwarded found self m ++ all_forwarded found self ms

abbrev pub frames : List HarborMsg → List ℕ
frames [] = []
frames (m ∷ ms) = frame m ++ frames ms

-- Sending messages puts their frames on the socket.
pub bytes_to-send_all :
    (fd : ℕ) (ms : List HarborMsg) → AllFramed ms → bytes_to fd (send_all fd ms) ≡ frames ms
unfolding send_remote
bytes_to-send_all fd [] v = refl
bytes_to-send_all fd (m ∷ ms) v =
    let fits : ltb (2 ^ 32 - 1) (length m.buffer + 12) ≡ false = ground (arith, v.0.short) in
    rw (fits, ==_refl fd) (ap (λ ys. frame m ++ ys) (bytes_to-send_all fd ms v.1))

module _ (found : ℕ → Bool) (self id : ℕ) where
  receive_all_by :
      (o : Received) (pieces : List (List ℕ))
      → Leaves o
      → ((s : Slave)
          → IsSlave s
          → observed (receive_all found self id s pieces)
            ≡ feeds found self id (view s) (concat pieces))
      → observed (o >>= λ p. receive_all found self id p.1 pieces >>= λ q. some (p.0 ++ q.0, q.1))
        ≡ then_do (observed o) (λ w. feeds found self id w (concat pieces))
  receive_all_by none pieces v ih = refl
  receive_all_by (some p) pieces v ih =
      observed_after found self id p.0 (receive_all found self id p.1 pieces)
      ∙ ap (λ (r : Result). r >>= λ q. some (p.0 ++ q.0, q.1)) (ih p.1 v)

  -- The calls of `push_socket_data` for the pieces of a stream, none of them empty, do what the
  -- specification does on the whole stream, on a connection whose read position fits its status: so
  -- the effects and the connection do not depend on how the stream is cut.
  pub receive_all_lem :
      (s : Slave) (pieces : List (List ℕ))
      → IsSlave s
      → Pieces pieces
      → observed (receive_all found self id s pieces) ≡ feeds found self id (view s) (concat pieces)
  unfolding receive_all feeds
  receive_all_lem s [] v h = refl
  receive_all_lem s (piece ∷ pieces) v h =
      let one = receive_lem found self id s piece v h.0 in
      receive_all_by (receive found self id s piece) pieces one.1
        (λ r w. receive_all_lem r pieces w h.1)
      ∙ ap (λ (r : Result). then_do r (λ w. feeds found self id w (concat pieces))) one.0
      ∙ sym (feeds-append found self id (view s) piece (concat pieces))

  -- A frame is read as its message.
  feeds-frame :
      (v : View) (m : HarborMsg)
      → IsFramed m
      → feeds found self id (to_rx v next_frame) (frame m)
        ≡ some (forwarded found self m, to_rx v next_frame)
  unfolding frame to_bigendian
  feeds-frame v m h =
      let n = length m.buffer + 12 in
      let small = h.short in
      let first : (n / 2 ^ 24 % 256 == 0) ≡ true = ground arith in
      let size : length_of (to_bigendian n) ≡ length (payload m) =
        omega (arith, length-payload m, small) in
      let middle = to_rx v (awaits body_part (length_of (to_bigendian n)) []) in
      let head_read : complete found self v head_part (to_bigendian n) ≡ some ([], middle) =
        rw first refl in
      feeds-append found self id (to_rx v next_frame) (to_bigendian n) (payload m)
      ∙ ap (λ (r : Result). then_do r (λ w. feeds found self id w (payload m)))
          (collect_done found self id v head_part 4 [] (to_bigendian n) (omega arith) refl
            ∙ head_read)
      ∙ then_do_pure middle (λ w. feeds found self id w (payload m))
      ∙ collect_done found self id v body_part (length_of (to_bigendian n)) [] (payload m)
          (omega (arith, size, length-payload m)) (omega (arith, size))
      ∙ rw (forward_local_messsage-payload found self m h.head) refl

  pub feeds-frames :
      (v : View) (ms : List HarborMsg)
      → AllFramed ms
      → feeds found self id (to_rx v next_frame) (frames ms)
        ≡ some (all_forwarded found self ms, to_rx v next_frame)
  unfolding feeds
  feeds-frames v [] h = refl
  feeds-frames v (m ∷ ms) h =
      feeds-append found self id (to_rx v next_frame) (frame m) (frames ms)
      ∙ ap (λ (r : Result). then_do r (λ w. feeds found self id w (frames ms)))
          (feeds-frame v m h.0)
      ∙ ap (λ (r : Result). r >>= λ q. some (forwarded found self m ++ q.0, q.1))
          (feeds-frames v ms h.1)

  -- What one node sends for messages whose headers are words and whose lengths fit three bytes, read by
  -- another node between two frames, in non-empty pieces of any size, makes that node forward those
  -- messages and no others, in order, each to the same number in its own node; it is then between two
  -- frames again.
  pub delivery_lem :
      (fd : ℕ) (s : Slave) (ms : List HarborMsg) (pieces : List (List ℕ))
      → IsSlave s
      → rx_of s ≡ next_frame
      → AllFramed ms
      → Pieces pieces
      → concat pieces ≡ bytes_to fd (send_all fd ms)
      → observed (receive_all found self id s pieces) ≡ some (all_forwarded found self ms, view s)
  delivery_lem fd s ms pieces v e h p w =
      let start : view s ≡ to_rx (view s) next_frame = ap (to_rx (view s)) e in
      receive_all_lem s pieces v p
      ∙ ap₂ (λ (u : View) bs. feeds found self id u bs) start (w ∙ bytes_to-send_all fd ms h)
      ∙ feeds-frames (view s) ms h
      ∙ ap (λ (u : View). some (all_forwarded found self ms, u)) (sym start)
