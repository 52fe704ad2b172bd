-- ===== src/Harbor/Loop.antt =====
-- The entry points of service_harbor.c: sending by name, the commands of the slave service, and
-- `mainloop`. `scan` stands for `sscanf`, which reads the two numbers of a command as 32-bit patterns;
-- `print` for `sprintf`, which writes a number; `found` for the handles that `skynet_send` finds.
use sdy.Base.{
  Bool, List, Option, [], if◌then◌else◌, leb, length, none, not, replicate, some, suc, true, zero,
  ℕ, ◌%◌, ◌*◌, ◌++◌, ◌+◌, ◌-◌, ◌==◌, ◌>>=◌, ◌^◌, ◌||◌, ◌∷◌,
}
use sdy.Harbor.{
  Header, HarborMsg, push_queue_msg, Effect, sends, socket_send, socket_start, error, ptype_error,
}
use sdy.Harbor.Peer.{status_wait, status_handshake, status_header, Slave, dispatch_queue, receive}
use sdy.Harbor.Node.{
  KeyValue, Harbor, globalname_length, remote_max, hash_search, store_node, node_of, set_peer,
  update_name, queue_or_new, remote_send_handle,
}

-- A text up to its zero.
unfoldable pub strlen_text : List ℕ → List ℕ
strlen_text [] = []
strlen_text (x ∷ xs) = let rest = strlen_text xs in if x == 0 then [] else x ∷ rest

-- The branch of `remote_send_name` for a name without a handle.
unfoldable pub queue_named : Harbor → List ℕ → Option KeyValue → HarborMsg → List Effect × Harbor
unfolding node_of store_node strlen_text
queue_named h name found m =
    let node = node_of name found in
    let new = record node { pending = some (push_queue_msg (queue_or_new node.pending) m) } in
    (
      sends 0 h.slave 0 0 (81 ∷ 32 ∷ strlen_text name) ∷ [],
      record h { hash_map = store_node h.hash_map name found new },
    )

-- `remote_send_name`
unfoldable pub remote_send_name : Harbor → ℕ → List ℕ → ℕ → ℕ → List ℕ → Bool × List Effect × Harbor
unfolding hash_search node_of queue_named remote_send_handle
remote_send_name h source name type session msg =
    let found = hash_search h.hash_map name in
    let node = node_of name found in
    let head : Header = record {
      source = source;
      destination = type * 2 ^ 24 % 2 ^ 32;
      session = session;
    } in
    let queued = queue_named h name found (record { header = head; buffer = msg }) in
    if node.value == 0
    then (true, queued.0, queued.1)
    else remote_send_handle h source node.value type session msg

-- `case 'N'` of `harbor_command`
unfoldable pub name_command : Harbor → List ℕ → ℕ → List Effect × Harbor
unfolding update_name
name_command h name source =
    let s = length name in
    if (s == 0) || leb globalname_length s
    then (error ∷ [], h)
    else update_name h (name ++ replicate (globalname_length - s) 0) source

-- The slave that takes a socket.
abbrev pub joined : Slave → ℕ → Slave
joined s fd = record s { fd = fd }

-- `case 'S'` and `case 'A'`, after the numbers are read. `handshake` sends the node's own number.
unfoldable pub connect : Harbor → Bool → ℕ → ℕ → Option (List Effect × Harbor)
unfolding set_peer dispatch_queue
connect h connecting fd id =
    let start = socket_start fd ∷ socket_send fd (h.id % 256 ∷ []) ∷ [] in
    let s = joined (h.peers id) fd in
    if (fd == 0) || ((id == 0) || leb remote_max id)
    then some (error ∷ [], h)
    else if not ((h.peers id).fd == 0)
    then some (error ∷ [], h)
    else if connecting
    then some (start, set_peer h id (record s { status = status_handshake }))
    else (dispatch_queue (record s { status = status_header }) >>= λ d.
        some (start ++ d.0, set_peer h id d.1))

-- `harbor_command`; `none` is a command of one byte whose numbers are read before its end.
unfoldable pub harbor_command :
    (List ℕ → ℕ × ℕ) → Harbor → List ℕ → ℕ → Option (List Effect × Harbor)
unfolding name_command connect
harbor_command scan h [] source = none
harbor_command scan h (c ∷ []) source =
    if (c == 83) || (c == 65) then none else some (error ∷ [], h)
harbor_command scan h (c ∷ space ∷ name) source =
    let (fd, id) = scan name in
    if c == 78
    then some (name_command h name source)
    else if (c == 83) || (c == 65)
    then connect h (c == 83) fd id
    else some (error ∷ [], h)

-- The loop of `harbor_id` and of `push_socket_data`: the first slave from `i` on with this socket.
unfoldable pub harbor_id : ℕ → Harbor → ℕ → ℕ → Option ℕ
harbor_id zero h fd i = none
harbor_id (suc rounds) h fd i =
    let rest = harbor_id rounds h fd (i + 1) in if (h.peers i).fd == fd then some i else rest

-- The slaves are those from 1 to `REMOTE_MAX - 1`.
abbrev pub find_slave : Harbor → ℕ → Option ℕ
find_slave h fd = harbor_id 255 h fd 1

unfoldable pub push_socket_data : (ℕ → Bool) → Harbor → ℕ → List ℕ → Option (List Effect × Harbor)
unfolding harbor_id receive set_peer
push_socket_data found h fd bytes = elim (find_slave h fd) [
  | none ↦ some (error ∷ [], h)
  | some i ↦ receive found h.id i (h.peers i) bytes >>= λ p. some (p.0, set_peer h i p.1)
]

-- `harbor_create` and `harbor_init`, for the two numbers that `harbor_init` reads; `none` is its
-- return of 1.
unfoldable pub harbor_init : ℕ → ℕ → Option Harbor
harbor_init id slave =
    if slave == 0
    then none
    else some (record {
      id = id;
      slave = slave;
      hash_map = λ i. [];
      peers = λ i. record {
        fd = 0;
        queue = none;
        status = status_wait;
        frame_length = 0;
        read = 0;
        size = 0 ∷ 0 ∷ 0 ∷ 0 ∷ [];
        recv_buffer = [];
      };
    })

-- What `mainloop` is called for: the types of socket messages, a command, a message for another node
-- by handle or by name, and the other types.
pub data Event : Type 0 where
  socket_data : ℕ → List ℕ → Event
  socket_closed : ℕ → Event
  socket_connect : Event
  socket_warning : ℕ → Event
  socket_invalid : Event
  command : List ℕ → ℕ → Event
  to_handle : ℕ → ℕ → ℕ → ℕ → List ℕ → Event
  to_name : ℕ → List ℕ → ℕ → ℕ → List ℕ → Event
  invalid : ℕ → ℕ → ℕ → Event

-- `report_harbor_down`, or the error for a socket that no slave has.
abbrev pub report_down : (ℕ → List ℕ) → Harbor → Option ℕ → List Effect
report_down print h none = error ∷ []
report_down print h (some id) = sends 0 h.slave 0 0 (68 ∷ 32 ∷ print id) ∷ []

abbrev pub warning : Option ℕ → List Effect
warning none = []
warning (some id) = error ∷ []

-- `mainloop`; a message to a handle 0 goes by its name.
unfoldable pub mainloop :
    (ℕ → Bool) → (List ℕ → ℕ × ℕ) → (ℕ → List ℕ) → Harbor → Event → Option (List Effect × Harbor)
unfolding push_socket_data harbor_command remote_send_handle remote_send_name
mainloop found scan print h (socket_data fd bytes) = push_socket_data found h fd bytes
mainloop found scan print h (socket_closed fd) = some (report_down print h (find_slave h fd), h)
mainloop found scan print h socket_connect = some ([], h)
mainloop found scan print h (socket_warning fd) = some (warning (find_slave h fd), h)
mainloop found scan print h socket_invalid = some (error ∷ [], h)
mainloop found scan print h (command msg source) = harbor_command scan h msg source
mainloop found scan print h (to_handle source handle type session msg) =
    let r = remote_send_handle h source handle type session msg in some (r.1, r.2)
mainloop found scan print h (to_name source name type session msg) =
    let r = remote_send_name h source name type session msg in some (r.1, r.2)
mainloop found scan print h (invalid type session source) = some (
    if (session == 0) || (type == ptype_error)
    then (error ∷ [], h)
    else (error ∷ sends 0 source ptype_error session [] ∷ [], h))
