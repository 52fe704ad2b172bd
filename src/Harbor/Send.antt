-- ===== src/Harbor/Send.antt =====
-- `remote_send_handle` of service_harbor.c, by where the destination is.
use sdy.Harbor.Peer.{Slave, send_all, receive_all}
use sdy.Harbor.Wire.{forwarded}
use sdy.Harbor.Machine.{rx_of, view, next_frame}
use sdy.Harbor.Sound.{IsSlave}
use sdy.Harbor.Stream.{observed}
use sdy.Harbor.Delivery.{concat, Pieces, IsFramed, bytes_to, delivery_lem}
use sdy.Base.{
  ==_refl, Bool, List, Option, [], ap, append-nil, ap₂, arith, bit_and, bit_or, eq→==, false,
  length, mod-eq_of_lt, ne→==, none, refl, some, sym, true, ℕ, ◌%◌, ◌*◌, ◌++◌, ◌+◌, ◌/◌, ◌<◌, ◌==◌,
  ◌^◌, ◌||◌, ◌∙◌, ◌∷◌, ◌≡◌, ◌≢◌,
}
use sdy.Base.Bits.{bit_and_mask, bit_or_join}
use sdy.Harbor.{
  HarborMsg, MsgQueue, push_queue_msg, new_queue, sends, send_remote, tag_dontcopy, handle_mask,
  forward_to,
}
use sdy.Harbor.Queue.{contents, IsValid, new_queue-IsValid, contents-new_queue, push_queue_msg_lem}
use sdy.Harbor.Node.{
  Harbor, set_peer, is_down, is_handshake, cookie, queue_or_new, remote_send_handle,
}

-- The messages that wait for a peer.
abbrev pub waits : Option MsgQueue → List HarborMsg
waits none = []
waits (some q) = contents q

abbrev pub AreValid : Option MsgQueue → Type 0
AreValid none = ◌≡◌ {A = ℕ} 0 0
AreValid (some q) = IsValid q

-- The message that `remote_send_handle` queues or sends.
abbrev pub message : ℕ → ℕ → ℕ → ℕ → List ℕ → HarborMsg
message source destination type session msg = record {
  header = cookie source destination type session;
  buffer = msg;
}

pub queue_lem :
    (o : Option MsgQueue) (m : HarborMsg)
    → AreValid o
    → IsValid (push_queue_msg (queue_or_new o) m)
      × (contents (push_queue_msg (queue_or_new o) m) ≡ waits o ++ m ∷ [])
queue_lem none m v =
    let p = push_queue_msg_lem new_queue m new_queue-IsValid in
    (p.0, p.1 ∙ ap (λ ms. ms ++ m ∷ []) contents-new_queue)
queue_lem (some q) m v = push_queue_msg_lem q m v

-- A message to another node that is not yet connected, and has not been given up, is queued last for
-- that node, whose queue stays valid. Nothing is sent, and the other peers stay as they are.
pub remote_send_handle-waits :
    (h : Harbor) (source destination type session : ℕ) (msg : List ℕ) (j : ℕ)
    → destination / 2 ^ 24 ≢ h.id
    → ((h.peers (destination / 2 ^ 24)).fd == 0)
        || is_handshake (h.peers (destination / 2 ^ 24)).status
      ≡ true
    → is_down (h.peers (destination / 2 ^ 24)).status ≡ false
    → AreValid (h.peers (destination / 2 ^ 24)).queue
    → j ≢ destination / 2 ^ 24
    → let i = destination / 2 ^ 24 in
      let (kept, es, after) = remote_send_handle h source destination type session msg in
      (kept ≡ true)
      × (es ≡ [])
      × AreValid (after.peers i).queue
      × (waits (after.peers i).queue
          ≡ waits (h.peers i).queue ++ message source destination type session msg ∷ [])
      × (after.peers j ≡ h.peers j)
unfolding remote_send_handle set_peer
remote_send_handle-waits h source destination type session msg j far closed alive v ne =
    let i = destination / 2 ^ 24 in
    let p = queue_lem (h.peers i).queue (message source destination type session msg) v in
    rw (ne→== i h.id far, closed, alive, ==_refl i, ne→== i j (λ e. ne (sym e)))
      (refl, refl, p.0, p.1, refl)

-- The destination comes back from a message's header, and so does the type.
cookie-destination :
    (source destination type session : ℕ)
    → type < 2 ^ 8
    → (cookie source destination type session).destination ≡ destination % 2 ^ 24 + type * 2 ^ 24
unfolding cookie
cookie-destination source destination type session t =
    let low = bit_and_mask destination 24 in
    let word : type * 2 ^ 24 % 2 ^ 32 ≡ type * 2 ^ 24 = mod-eq_of_lt (omega (arith, t)) in
    ap₂ (λ (a b : ℕ). bit_or a b) low word
    ∙ bit_or_join (destination % 2 ^ 24) type 24 (omega arith)

-- What the destination's node does with a message is the local branch of `remote_send_handle`, if it
-- has the destination.
pub forward_to-cookie :
    (found : ℕ → Bool) (self source destination type session : ℕ) (msg : List ℕ)
    → type < 2 ^ 8
    → destination / 2 ^ 24 ≡ self
    → found destination ≡ true
    → forward_to found self (cookie source destination type session) msg
      ≡ sends source destination (bit_or type tag_dontcopy) session msg ∷ []
unfolding forward_to cookie
forward_to-cookie found self source destination type session msg t here known =
    let c = (cookie source destination type session).destination in
    let word : c ≡ destination % 2 ^ 24 + type * 2 ^ 24 =
      cookie-destination source destination type session t in
    let low : bit_and c handle_mask ≡ destination % 2 ^ 24 =
      bit_and_mask c 24 ∙ omega (arith, word) in
    let back : bit_or (bit_and c handle_mask) (self * 2 ^ 24) ≡ destination =
      ap (λ (a : ℕ). bit_or a (self * 2 ^ 24)) low
      ∙ bit_or_join (destination % 2 ^ 24) self 24 (omega arith)
      ∙ omega (arith, here) in
    let high : c / 2 ^ 24 ≡ type = omega (arith, word) in rw (back, known, high) refl

message-IsFramed :
    (source destination type session : ℕ) (msg : List ℕ)
    → source < 2 ^ 32
    → session < 2 ^ 32
    → type < 2 ^ 8
    → length msg + 12 < 2 ^ 24
    → IsFramed (message source destination type session msg)
message-IsFramed source destination type session msg a b t l =
    let word = cookie-destination source destination type session t in
    record {
      head = record {
        source_word = unfold cookie in a;
        destination_word = omega (arith, word, t);
        session_word = unfold cookie in b;
      };
      short = l;
    }

-- Sending between nodes is sending within the destination's node. Let the node `h` be connected to the
-- destination's node `y`, which is between two frames and has the destination. Let source and session
-- be words, the type a byte and the text's length less than 2 ^ 24 - 12. Then what
-- `remote_send_handle` puts on the socket, cut into non-empty pieces of any size, makes `y` do what
-- `remote_send_handle` does there for the same message.
pub remote_as_local :
    (found : ℕ → Bool) (h y : Harbor) (source destination type session id : ℕ) (msg : List ℕ)
    (r : Slave) (pieces : List (List ℕ))
    → destination / 2 ^ 24 ≢ h.id
    → destination / 2 ^ 24 ≡ y.id
    → ((h.peers (destination / 2 ^ 24)).fd == 0)
        || is_handshake (h.peers (destination / 2 ^ 24)).status
      ≡ false
    → source < 2 ^ 32
    → session < 2 ^ 32
    → type < 2 ^ 8
    → length msg + 12 < 2 ^ 24
    → found destination ≡ true
    → IsSlave r
    → rx_of r ≡ next_frame
    → Pieces pieces
    → concat pieces
      ≡ bytes_to
          (h.peers (destination / 2 ^ 24)).fd
          (remote_send_handle h source destination type session msg).1
    → observed (receive_all found y.id id r pieces)
      ≡ some ((remote_send_handle y source destination type session msg).1, view r)
unfolding remote_send_handle
remote_as_local found h y source destination type session id msg r pieces far near open_ a b t l
      known v e p w =
    let i = destination / 2 ^ 24 in
    let m = message source destination type session msg in
    let framed = message-IsFramed source destination type session msg a b t l in
    let sent : concat pieces ≡ bytes_to (h.peers i).fd (send_all (h.peers i).fd (m ∷ [])) =
      (rw (ne→== i h.id far, open_) at w)
      ∙ ap (bytes_to (h.peers i).fd) (sym (append-nil (send_remote (h.peers i).fd m))) in
    let here : forwarded found y.id m
        ≡ sends source destination (bit_or type tag_dontcopy) session msg ∷ [] =
      forward_to-cookie found y.id source destination type session msg t near known in
    delivery_lem found y.id id (h.peers i).fd r (m ∷ []) pieces v e (framed, refl) p sent
    ∙ rw (eq→== i y.id near)
        (ap (λ es. some (es, view r)) (append-nil (forwarded found y.id m) ∙ here))
