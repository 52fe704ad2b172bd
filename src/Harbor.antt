-- ===== src/Harbor.antt =====
-- skynet/service-src/service_harbor.c, the service that carries messages between nodes: its messages,
-- their queue, and their form on the wire. The peers' connections are in the children.
pub mod Queue
pub mod Wire
pub mod Peer
pub mod Machine
pub mod Collect
pub mod Parts
pub mod Sound
pub mod Stream
pub mod Delivery
pub mod Node
pub mod Loop
pub mod Names
pub mod Send
pub mod Connect
pub mod Errors
pub mod Live
pub mod Invariant
pub mod Events
pub mod Runs
mod Tests
use sdy.Base.{
  Bool, List, Option, [], bit_and, bit_or, drop, get_or, if◌then◌else◌, length, ltb, none,
  replicate, set, some, suc, take, zero, ℕ, ◌%◌, ◌*◌, ◌++◌, ◌+◌, ◌-◌, ◌/◌, ◌==◌, ◌>>=◌, ◌^◌, ◌∷◌,
}
use sdy.Ring.{copy_ring}

-- `struct remote_message_header`
pub record Header : Type 0 where
  pub source : ℕ
  pub destination : ℕ
  pub session : ℕ

-- `struct harbor_msg`; the length of `buffer` is its field `size`.
pub record HarborMsg : Type 0 where
  pub header : Header
  pub buffer : List ℕ

-- What a slot of freshly allocated storage reads as; no valid queue reads one.
abbrev pub blank : HarborMsg
blank = record { header = record { source = 0; destination = 0; session = 0 }; buffer = [] }

abbrev pub default_queue_size : ℕ
default_queue_size = 1024

-- `struct harbor_msg_queue`; `messages` is its field `data`.
pub record MsgQueue : Type 0 where
  pub size : ℕ
  pub head : ℕ
  pub tail : ℕ
  pub messages : List HarborMsg

-- The branch of `push_queue_msg` for a queue with one free slot left.
unfoldable pub double_queue : MsgQueue → MsgQueue
unfolding copy_ring
double_queue q = record {
  size = q.size * 2;
  head = 0;
  tail = q.size - 1;
  messages = copy_ring blank q.messages q.size q.head (q.size - 1) ++ replicate (q.size + 1) blank;
}

-- The end of `push_queue_msg`: the store at `tail`.
unfoldable pub store_msg : MsgQueue → HarborMsg → MsgQueue
store_msg q m = record q { messages = set q.messages q.tail m; tail = (q.tail + 1) % q.size }

unfoldable pub push_queue_msg : MsgQueue → HarborMsg → MsgQueue
unfolding double_queue store_msg
push_queue_msg q m = store_msg (if (q.tail + 1) % q.size == q.head then double_queue q else q) m

-- `pop_queue`; `none` is the null pointer.
unfoldable pub pop_queue : MsgQueue → Option HarborMsg × MsgQueue
pop_queue q =
    if q.head == q.tail
    then (none, q)
    else (some (get_or q.messages q.head blank), record q { head = (q.head + 1) % q.size })

unfoldable pub new_queue : MsgQueue
new_queue = record {
  size = default_queue_size;
  head = 0;
  tail = 0;
  messages = replicate default_queue_size blank;
}

-- `while ((m = pop_queue(queue)) != NULL)`: the messages that its body is run on, in order.
unfoldable pub drain : ℕ → MsgQueue → List HarborMsg
drain zero q = []
drain (suc fuel) q =
    let rest = drain fuel (pop_queue q).1 in elim (pop_queue q).0 [ none ↦ [] | some m ↦ m ∷ rest ]

-- `to_bigendian`
unfoldable pub to_bigendian : ℕ → List ℕ
to_bigendian n = n / 2 ^ 24 % 256 ∷ n / 2 ^ 16 % 256 ∷ n / 2 ^ 8 % 256 ∷ n % 256 ∷ []

-- `from_bigendian`, of the four bytes; shifted bytes do not overlap, so `|` adds them.
abbrev pub from_bigendian : ℕ → ℕ → ℕ → ℕ → ℕ
from_bigendian a b c d = a * 2 ^ 24 + b * 2 ^ 16 + c * 2 ^ 8 + d

unfoldable pub header_to_message : Header → List ℕ
unfolding to_bigendian
header_to_message h = to_bigendian h.source ++ to_bigendian h.destination ++ to_bigendian h.session

-- `message_to_header`, of `HEADER_COOKIE_LENGTH` bytes.
unfoldable pub message_to_header : List ℕ → Option Header
message_to_header (a ∷ b ∷ c ∷ d ∷ e ∷ f ∷ g ∷ h ∷ i ∷ j ∷ k ∷ l ∷ []) = some (record {
  source = from_bigendian a b c d;
  destination = from_bigendian e f g h;
  session = from_bigendian i j k l;
})
message_to_header _ = none

-- What the service asks of the runtime: `skynet_send`, the calls on sockets, and `skynet_error`.
pub data Effect : Type 0 where
  sends : ℕ → ℕ → ℕ → ℕ → List ℕ → Effect
  socket_send : ℕ → List ℕ → Effect
  socket_start : ℕ → Effect
  socket_close : ℕ → Effect
  error : Effect

-- The bytes that `send_remote` sends for a message that is not too large.
unfoldable pub frame : HarborMsg → List ℕ
unfolding to_bigendian header_to_message
frame m = to_bigendian (length m.buffer + 12) ++ (m.buffer ++ header_to_message m.header)

unfoldable pub send_remote : ℕ → HarborMsg → List Effect
unfolding frame
send_remote fd m =
    if ltb (2 ^ 32 - 1) (length m.buffer + 12) then error ∷ [] else socket_send fd (frame m) ∷ []

abbrev pub ptype_error : ℕ
ptype_error = 7

-- `PTYPE_TAG_DONTCOPY`
abbrev pub tag_dontcopy : ℕ
tag_dontcopy = 2 ^ 16

abbrev pub handle_mask : ℕ
handle_mask = 2 ^ 24 - 1

-- The end of `forward_local_messsage`, on the message's header and its text. `found` says which
-- destinations `skynet_send` finds.
unfoldable pub forward_to : (ℕ → Bool) → ℕ → Header → List ℕ → List Effect
forward_to found id h text =
    let type = h.destination / 2 ^ 24 in
    let destination = bit_or (bit_and h.destination handle_mask) (id * 2 ^ 24) in
    let sent = sends h.source destination (bit_or type tag_dontcopy) h.session text in
    let dead = sends destination h.source ptype_error h.session [] in
    if found destination
    then sent ∷ []
    else if type == ptype_error
    then sent ∷ error ∷ []
    else sent ∷ dead ∷ error ∷ []

-- `forward_local_messsage`; `none` is a text too short for a header, before whose start it reads.
unfoldable pub forward_local_messsage : (ℕ → Bool) → ℕ → List ℕ → Option (List Effect)
unfolding message_to_header forward_to
forward_local_messsage found id msg =
    let sz = length msg in
    if ltb sz 12
    then none
    else (message_to_header (drop (sz - 12) msg) >>= λ h.
        some (forward_to found id h (take (sz - 12) msg)))
