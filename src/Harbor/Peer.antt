-- ===== src/Harbor/Peer.antt =====
-- The connection to another node in service_harbor.c, and the state machine that reads from it.
use sdy.Memory.{memcpy}
use sdy.Base.{
  Bool, List, Option, [], assert, drop, get_or, if◌then◌else◌, length, ltb, none, not, replicate,
  some, suc, take, zero, ℕ, ◌*◌, ◌++◌, ◌+◌, ◌-◌, ◌==◌, ◌>>=◌, ◌^◌, ◌∷◌,
}
use sdy.Harbor.{
  HarborMsg, MsgQueue, drain, Effect, socket_close, error, send_remote, forward_local_messsage,
}

-- `STATUS_WAIT` to `STATUS_DOWN`
pub data Status : Type 0 where
  status_wait : Status
  status_handshake : Status
  status_header : Status
  status_content : Status
  status_down : Status

-- `struct slave`; `frame_length` is its field `length`.
pub record Slave : Type 0 where
  pub fd : ℕ
  pub queue : Option MsgQueue
  pub status : Status
  pub frame_length : ℕ
  pub read : ℕ
  pub size : List ℕ
  pub recv_buffer : List ℕ

-- `close_harbor`
unfoldable pub close_harbor : Slave → List Effect × Slave
close_harbor s = (
  if s.fd == 0 then [] else socket_close s.fd ∷ [],
  record s { status = status_down; queue = none },
)

abbrev pub send_all : ℕ → List HarborMsg → List Effect
send_all fd [] = []
send_all fd (m ∷ ms) = send_remote fd m ++ send_all fd ms

unfoldable pub queue_effects : ℕ → Option MsgQueue → List Effect
unfolding drain
queue_effects fd none = []
queue_effects fd (some q) = send_all fd (drain q.size q)

-- `dispatch_queue`, whose assertion is that `fd` is not 0.
unfoldable pub dispatch_queue : Slave → Option (List Effect × Slave)
unfolding queue_effects
dispatch_queue s =
    assert (not (s.fd == 0)) (some (queue_effects s.fd s.queue, record s { queue = none }))

-- How a round of the loop of `push_socket_data` ends: with a return, or with bytes for the next.
pub data Turn : Type 0 where
  returns : List Effect → Slave → Turn
  goes_on : List Effect → Slave → List ℕ → Turn

unfoldable pub after_effects : List Effect → Turn → Turn
after_effects es (returns fs s) = returns (es ++ fs) s
after_effects es (goes_on fs s bytes) = goes_on (es ++ fs) s bytes

-- A slave between two frames.
abbrev pub cleared : Slave → Slave
cleared s = record s { frame_length = 0; read = 0; recv_buffer = []; status = status_header }

-- `case STATUS_CONTENT`
unfoldable pub on_content : (ℕ → Bool) → ℕ → Slave → List ℕ → Option Turn
unfolding memcpy forward_local_messsage
on_content found self s bytes =
    let need = s.frame_length - s.read in
    let full = memcpy s.recv_buffer s.read (take need bytes) in
    let rest = drop need bytes in
    if ltb (length bytes) need
    then some (
        returns [] (record s {
          recv_buffer = memcpy s.recv_buffer s.read bytes;
          read = s.read + length bytes;
        }))
    else (forward_local_messsage found self full >>= λ es.
        some (if length rest == 0 then returns es (cleared s) else goes_on es (cleared s) rest))

-- `s->size[1] << 16 | s->size[2] << 8 | s->size[3]`
abbrev pub length_of : List ℕ → ℕ
length_of bs = get_or bs 1 0 * 2 ^ 16 + get_or bs 2 0 * 2 ^ 8 + get_or bs 3 0

-- A slave whose frame's length is known.
abbrev pub opened : Slave → List ℕ → Slave
opened s bs = record s {
  size = bs;
  frame_length = length_of bs;
  read = 0;
  recv_buffer = replicate (length_of bs) 0;
  status = status_content;
}

-- `error` of `skynet_error`, then `close_harbor` and the return.
unfoldable pub give_up : Slave → Turn
unfolding close_harbor
give_up s = let (es, r) = close_harbor s in returns (error ∷ es) r

-- `case STATUS_HEADER`
unfoldable pub on_header : (ℕ → Bool) → ℕ → Slave → List ℕ → Option Turn
unfolding memcpy give_up on_content
on_header found self s bytes =
    let need = 4 - s.read in
    let full = memcpy s.size s.read (take need bytes) in
    let rest = drop need bytes in
    if ltb (length bytes) need
    then some
        (returns [] (record s { size = memcpy s.size s.read bytes; read = s.read + length bytes }))
    else if not (get_or full 0 0 == 0)
    then some (give_up (record s { size = full }))
    else if length rest == 0
    then some (returns [] (opened s full))
    else on_content found self (opened s full) rest

-- `case STATUS_HANDSHAKE` for the slave of number `id`; `none` reads a byte of no bytes.
unfoldable pub on_handshake : (ℕ → Bool) → ℕ → ℕ → Slave → List ℕ → Option Turn
unfolding dispatch_queue give_up on_header after_effects
on_handshake found self id s [] = none
on_handshake found self id s (b ∷ rest) =
    if not (b == id)
    then some (give_up s)
    else (dispatch_queue (record s { status = status_header }) >>= λ d.
        if length rest == 0
        then some (goes_on d.0 d.1 [])
        else on_header found self d.1 rest >>= λ t. some (after_effects d.0 t))

-- The `switch` of `push_socket_data`
unfoldable pub turn : (ℕ → Bool) → ℕ → ℕ → Slave → List ℕ → Option Turn
unfolding on_handshake on_header on_content
turn found self id s bytes = elim s.status [
  | status_handshake ↦ on_handshake found self id s bytes
  | status_header ↦ on_header found self s bytes
  | status_content ↦ on_content found self s bytes
  | status_wait ↦ some (returns [] s)
  | status_down ↦ some (returns [] s)
]

abbrev pub Received : Type 0
Received = Option (List Effect × Slave)

-- A return, or the other rounds.
abbrev pub then_rounds : (Slave → List ℕ → Received) → Turn → Received
then_rounds rounds (returns es r) = some (es, r)
then_rounds rounds (goes_on es r rest) = rounds r rest >>= λ u. some (es ++ u.0, u.1)

-- `for (;;)` of `push_socket_data`: each round but the last takes a byte. The other `none` is a loop
-- with too little fuel.
unfoldable pub turns : (ℕ → Bool) → ℕ → ℕ → ℕ → Slave → List ℕ → Received
unfolding turn
turns found self id zero s bytes = none
turns found self id (suc fuel) s bytes =
    turn found self id s bytes >>= λ t. then_rounds (turns found self id fuel) t

-- `push_socket_data`, once it has found the slave of the socket.
unfoldable pub receive : (ℕ → Bool) → ℕ → ℕ → Slave → List ℕ → Received
unfolding turns
receive found self id s bytes = turns found self id (length bytes + 2) s bytes

-- The calls of `push_socket_data` for the data of one socket, in order.
unfoldable pub receive_all : (ℕ → Bool) → ℕ → ℕ → Slave → List (List ℕ) → Received
unfolding receive
receive_all found self id s [] = some ([], s)
receive_all found self id s (piece ∷ pieces) = receive found self id s piece >>= λ p.
    receive_all found self id p.1 pieces >>= λ q. some (p.0 ++ q.0, q.1)
