-- ===== src/Harbor/Errors.antt =====
-- What service_harbor.c does with connections that are given up, and with frames that are too short.
use sdy.Harbor.{to_bigendian, error, send_remote}
use sdy.Harbor.Peer.{Slave, close_harbor, length_of, receive}
use sdy.Harbor.Machine.{
  head_part, body_part, awaits, View, rx_of, view, Result, to_rx, next_frame, complete, then_do,
  feeds,
}
use sdy.Harbor.Collect.{then_do_pure, feeds-append, collect_done}
use sdy.Harbor.Parts.{short_text}
use sdy.Harbor.Sound.{IsSlave}
use sdy.Harbor.Stream.{observed, receive_lem}
use sdy.Harbor.Node.{Harbor, remote_max, set_peer, remote_send_handle}
use sdy.Harbor.Loop.{connect}
use sdy.Harbor.Send.{message}
use sdy.Base.{
  ==_refl, Bool, Bool-cases, List, [], ap, arith, false, get_or, inl, inr, leb, length,
  length-append, ne→==, none, refl, some, true, ℕ, ◌++◌, ◌/◌, ◌<◌, ◌==◌, ◌^◌, ◌||◌, ◌∙◌, ◌∷◌, ◌≡◌,
  ◌≢◌, ◌≤◌,
}

-- `push_socket_data` has no result for a connection between two frames that reads a frame of `n`
-- bytes with 1 ≤ n < 12: such a frame is shorter than a message's header, so the header would be read
-- from before its start.
pub short_frame :
    (found : ℕ → Bool) (self id : ℕ) (s : Slave) (n : ℕ) (body : List ℕ)
    → IsSlave s
    → rx_of s ≡ next_frame
    → 1 ≤ n
    → n < 12
    → length body ≡ n
    → observed (receive found self id s (to_bigendian n ++ body)) ≡ none
short_frame found self id s n body v e l u size =
    let begin : view s ≡ to_rx (view s) next_frame = ap (to_rx (view s)) e in
    let bytes = to_bigendian n in
    let middle = to_rx (view s) (awaits body_part n []) in
    let some_bytes : 1 ≤ length (bytes ++ body) =
      omega (arith, length-append bytes body, size, l) in
    let first : (get_or bytes 0 0 == 0) ≡ true = unfold to_bigendian in ground (arith, u) in
    let number : length_of bytes ≡ n = unfold to_bigendian in omega (arith, u) in
    let four : length bytes ≡ 4 = unfold to_bigendian in refl in
    let head_read : complete found self (view s) head_part bytes ≡ some ([], middle) =
      rw (first, number) refl in
    (receive_lem found self id s (bytes ++ body) v some_bytes).0
    ∙ ap (λ (x : View). feeds found self id x (bytes ++ body)) begin
    ∙ feeds-append found self id (to_rx (view s) next_frame) bytes body
    ∙ ap (λ (r : Result). then_do r (λ w. feeds found self id w body))
        (collect_done found self id (view s) head_part 4 [] bytes (omega arith)
            (omega (arith, four))
          ∙ head_read)
    ∙ then_do_pure middle (λ w. feeds found self id w body)
    ∙ collect_done found self id (view s) body_part n [] body (omega (arith, l))
        (omega (arith, size))
    ∙ rw (short_text found self 0 body (omega (arith, size, u))) refl

-- A peer with a socket that is not this node's own keeps the socket's number when `close_harbor`
-- gives it up. So messages for it are still sent to that socket, with no error to their source, and
-- the commands that would connect it again are refused.
pub closed_peer :
    (h : Harbor) (connecting : Bool) (fd source destination type session : ℕ) (msg : List ℕ)
    → destination / 2 ^ 24 ≢ h.id
    → (h.peers (destination / 2 ^ 24)).fd ≢ 0
    → let i = destination / 2 ^ 24 in
      let closed = set_peer h i (close_harbor (h.peers i)).1 in
      (remote_send_handle closed source destination type session msg
        ≡ (false, send_remote (h.peers i).fd (message source destination type session msg), closed))
      × (connect closed connecting fd i ≡ some (error ∷ [], closed))
unfolding remote_send_handle connect set_peer close_harbor
closed_peer h connecting fd source destination type session msg far used =
    let i = destination / 2 ^ 24 in
    (
      rw (ne→== i h.id far, ==_refl i, ne→== (h.peers i).fd 0 used) refl,
      elim (Bool-cases ((fd == 0) || ((i == 0) || leb remote_max i))) [
        | inl e ↦ rw e refl
        | inr e ↦ rw (e, ==_refl i, ne→== (h.peers i).fd 0 used) refl
      ],
    )
