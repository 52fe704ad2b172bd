-- ===== src/Harbor/Connect.antt =====
-- Two nodes of service_harbor.c meet: the commands that take a socket, and the greeting.
use sdy.Harbor.{HarborMsg, MsgQueue, Effect, socket_send, socket_start}
use sdy.Harbor.Peer.{
  status_handshake, status_header, Slave, send_all, queue_effects, dispatch_queue, receive_all,
}
use sdy.Harbor.Queue.{drain_lem}
use sdy.Harbor.Machine.{greeting, View, view, to_rx, next_frame, feeds}
use sdy.Harbor.Sound.{IsSlave}
use sdy.Harbor.Stream.{observed}
use sdy.Harbor.Delivery.{
  concat, Pieces, AllFramed, bytes_to, all_forwarded, frames, bytes_to-send_all, receive_all_lem,
  feeds-frames,
}
use sdy.Harbor.Node.{Harbor, remote_max, set_peer}
use sdy.Harbor.Loop.{connect}
use sdy.Harbor.Send.{waits, AreValid}
use sdy.Base.{
  ==_refl, Bool, List, Option, [], ap, ap₂, arith, eq→==, false, leb, mod-eq_of_lt, ne→==, none,
  refl, some, some-eq_iff, sym, ℕ, ◌%◌, ◌++◌, ◌<◌, ◌∙◌, ◌∷◌, ◌≡◌, ◌≢◌, ◌≤◌,
}

module _ (found : ℕ → Bool) (self id : ℕ) where
  feeds-greeting :
      (v : View) (ms : List HarborMsg)
      → v.socket ≢ 0
      → AllFramed ms
      → feeds found self id (to_rx v greeting) (id ∷ frames ms)
        ≡ some (
          queue_effects v.socket v.waiting ++ all_forwarded found self ms,
          record v { waiting = none; rx = next_frame },
        )
  unfolding feeds
  feeds-greeting v ms n h =
      rw
        (
          ==_refl id,
          ne→== v.socket 0 n,
          feeds-frames found self id (record v { waiting = none }) ms h,
        )
        refl

queue_effects_lem :
    (fd : ℕ) (o : Option MsgQueue) → AreValid o → queue_effects fd o ≡ send_all fd (waits o)
unfolding queue_effects
queue_effects_lem fd none v = refl
queue_effects_lem fd (some q) v = ap (send_all fd) (drain_lem q v)

-- The command A for a free number of a peer starts the socket, sends the node's own number on it, and
-- then the messages that wait for the peer, oldest first. No message waits then, the peer reads
-- frames, and the other peers stay as they are.
pub connect_lem :
    (h : Harbor) (fd id j : ℕ)
    → fd ≢ 0
    → 1 ≤ id
    → id < remote_max
    → (h.peers id).fd ≡ 0
    → AreValid (h.peers id).queue
    → j ≢ id
    → (after : Harbor) × (connect h false fd id
        ≡ some (
          socket_start fd ∷ socket_send fd (h.id % 256 ∷ []) ∷ []
              ++ send_all fd (waits (h.peers id).queue),
          after,
        ))
      × (after.peers id ≡ record (h.peers id) { fd = fd; status = status_header; queue = none })
      × (after.peers j ≡ h.peers j)
unfolding connect dispatch_queue set_peer
connect_lem h fd id j n l u free v ne =
    let word : leb remote_max id ≡ false = ground arith in
    (
      set_peer h id (record (h.peers id) { fd = fd; status = status_header; queue = none }),
      rw
          (
            ne→== fd 0 n,
            ne→== id 0 (omega (arith, l)),
            word,
            eq→== (h.peers id).fd 0 free,
            queue_effects_lem fd (h.peers id).queue v,
          )
          refl,
      rw (==_refl id) refl,
      rw (ne→== id j (λ e. ne (sym e))) refl,
    )

-- When the node `h` has taken the socket `fd` of a peer by the command A, the other end, which waits
-- for the greeting of `h` on its own socket, reads what `h` has sent in non-empty pieces of any size.
-- It then sends its own waiting messages, oldest first, and forwards those that waited in `h`, in
-- order, and no others. Those of `h` have words as headers and lengths that fit three bytes.
pub first_contact :
    (found : ℕ → Bool) (self : ℕ) (h after : Harbor) (fd id : ℕ) (r : Slave) (es : List Effect)
    (pieces : List (List ℕ))
    → fd ≢ 0
    → 1 ≤ id
    → id < remote_max
    → h.id < 256
    → (h.peers id).fd ≡ 0
    → AreValid (h.peers id).queue
    → AllFramed (waits (h.peers id).queue)
    → IsSlave r
    → r.status ≡ status_handshake
    → r.fd ≢ 0
    → AreValid r.queue
    → Pieces pieces
    → connect h false fd id ≡ some (es, after)
    → concat pieces ≡ bytes_to fd es
    → observed (receive_all found self h.id r pieces)
      ≡ some (
        send_all r.fd (waits r.queue) ++ all_forwarded found self (waits (h.peers id).queue),
        record { socket = r.fd; waiting = none; rx = next_frame },
      )
first_contact found self h after fd id r es pieces n l u byte free v framed w st rn rv p done sent =
    let ms = waits (h.peers id).queue in
    let met = connect_lem h fd id 0 n l u free v (omega (arith, l)) in
    let start = socket_start fd ∷ socket_send fd (h.id % 256 ∷ []) ∷ [] in
    let same : es ≡ start ++ send_all fd ms =
      ap (λ x. x.0) ((some-eq_iff (es, after) _).0 (sym done ∙ met.1)) in
    let wire : concat pieces ≡ h.id ∷ frames ms =
      sent
      ∙ ap (bytes_to fd) same
      ∙ rw (==_refl fd) (ap₂ ◌∷◌ (mod-eq_of_lt byte) (bytes_to-send_all fd ms framed)) in
    let begin : view r ≡ to_rx (view r) greeting = rw st refl in
    receive_all_lem found self h.id r pieces w p
    ∙ ap₂ (λ (x : View) bs. feeds found self h.id x bs) begin wire
    ∙ feeds-greeting found self h.id (view r) ms rn framed
    ∙ ap
        (λ fs. some (
          fs ++ all_forwarded found self ms,
          record { socket = r.fd; waiting = none; rx = next_frame },
        ))
        (queue_effects_lem r.fd r.queue rv)
