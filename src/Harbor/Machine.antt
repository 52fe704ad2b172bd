-- ===== src/Harbor/Machine.antt =====
-- What a connection of service_harbor.c does with one byte: the specification of its state machine,
-- whatever pieces the socket cuts the stream into.
use sdy.Base.{
  Bool, List, Option, [], assert, get_or, if◌then◌else◌, length, ltb, none, not, some, take, ℕ,
  ◌++◌, ◌==◌, ◌>>=◌, ◌∷◌,
}
use sdy.Harbor.{MsgQueue, Effect, socket_close, error, forward_local_messsage}
use sdy.Harbor.Peer.{
  Status, status_wait, status_handshake, status_header, status_content, status_down, Slave,
  queue_effects, length_of,
}

-- The part of a frame that is being read.
pub data Part : Type 0 where
  head_part : Part
  body_part : Part

-- What a connection waits for: the other node's number, or, of one part, `want` bytes of which it has
-- `got`; or it reads no more.
pub data Rx : Type 0 where
  greeting : Rx
  awaits : Part → ℕ → List ℕ → Rx
  deaf : Status → Rx

-- A connection without the fields that it does not read.
pub record View : Type 0 where
  pub socket : ℕ
  pub waiting : Option MsgQueue
  pub rx : Rx

abbrev pub rx_of : Slave → Rx
rx_of s = elim s.status [
  | status_handshake ↦ greeting
  | status_header ↦ awaits head_part 4 (take s.read s.size)
  | status_content ↦ awaits body_part s.frame_length (take s.read s.recv_buffer)
  | status_wait ↦ deaf status_wait
  | status_down ↦ deaf status_down
]

abbrev pub view : Slave → View
view s = record { socket = s.fd; waiting = s.queue; rx = rx_of s }

abbrev pub Result : Type 0
Result = Option (List Effect × View)

abbrev pub to_rx : View → Rx → View
to_rx v r = record v { rx = r }

abbrev pub next_frame : Rx
next_frame = awaits head_part 4 []

-- A connection that is given up.
abbrev pub refused : View → List Effect × View
refused v = (
  error ∷ (if v.socket == 0 then [] else socket_close v.socket ∷ []),
  record v { waiting = none; rx = deaf status_down },
)

-- A part is complete: the first byte of the head must be 0, and the others are the length of the
-- body; a body is forwarded.
abbrev pub complete : (ℕ → Bool) → ℕ → View → Part → List ℕ → Result
complete found self v head_part got =
    some (
      if get_or got 0 0 == 0
      then ([], to_rx v (awaits body_part (length_of got) []))
      else refused v)
complete found self v body_part got =
    forward_local_messsage found self got >>= λ es. some (es, to_rx v next_frame)

-- The number of the node must be the expected one; the messages that wait are sent then.
abbrev pub greeted : ℕ → View → ℕ → Result
greeted id v b =
    if b == id
    then assert (not (v.socket == 0))
        (some (queue_effects v.socket v.waiting, record v { waiting = none; rx = next_frame }))
    else some (refused v)

-- One byte more of a part.
abbrev pub gather : (ℕ → Bool) → ℕ → View → Part → ℕ → List ℕ → Result
gather found self v c want got =
    if ltb (length got) want
    then some ([], to_rx v (awaits c want got))
    else complete found self v c got

abbrev pub feed : (ℕ → Bool) → ℕ → ℕ → View → ℕ → Result
feed found self id v b = elim v.rx [
  | greeting ↦ greeted id v b
  | awaits c want got ↦ gather found self v c want (got ++ b ∷ [])
  | deaf s ↦ some ([], v)
]

abbrev pub then_do : Result → (View → Result) → Result
then_do r f = r >>= λ p. f p.1 >>= λ q. some (p.0 ++ q.0, q.1)

-- The bytes of a stream one by one.
unfoldable pub feeds : (ℕ → Bool) → ℕ → ℕ → View → List ℕ → Result
feeds found self id v [] = some ([], v)
feeds found self id v (b ∷ bs) = then_do (feed found self id v b) (λ w. feeds found self id w bs)
