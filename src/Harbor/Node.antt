-- ===== src/Harbor/Node.antt =====
-- A node of service_harbor.c: its peers, its names, and its `mainloop`. `sscanf` and `sprintf` are
-- arguments: `scan` reads the two numbers of a command as 32-bit patterns, `print` writes a number.
use sdy.Base.{
  Bool, List, Option, [], bit_and, bit_or, bit_xor, false, if◌then◌else◌, none, some, true, ℕ, ◌%◌,
  ◌&&◌, ◌*◌, ◌+◌, ◌/◌, ◌==◌, ◌^◌, ◌||◌, ◌∷◌,
}
use sdy.Harbor.{
  Header, HarborMsg, MsgQueue, push_queue_msg, new_queue, drain, Effect, sends, error, send_remote,
  ptype_error, tag_dontcopy, handle_mask,
}
use sdy.Harbor.Peer.{Status, status_handshake, status_down, Slave, send_all}

-- `struct keyvalue`
pub record KeyValue : Type 0 where
  pub key : List ℕ
  pub hash : ℕ
  pub value : ℕ
  pub pending : Option MsgQueue

-- `struct harbor`; `hash_map` is its field `map`, a chain of which is a list, and `peers` is its array `s`.
pub record Harbor : Type 0 where
  pub id : ℕ
  pub slave : ℕ
  pub hash_map : ℕ → List KeyValue
  pub peers : ℕ → Slave

abbrev pub hash_size : ℕ
hash_size = 4096

abbrev pub globalname_length : ℕ
globalname_length = 16

abbrev pub remote_max : ℕ
remote_max = 256

-- A word of a name, on a machine that keeps its low byte first.
abbrev word_at : ℕ → ℕ → ℕ → ℕ → ℕ
word_at a b c d = a + b * 2 ^ 8 + c * 2 ^ 16 + d * 2 ^ 24

-- `ptr[0] ^ ptr[1] ^ ptr[2] ^ ptr[3]`, of a name of 16 bytes.
unfoldable pub name_hash : List ℕ → ℕ
name_hash (a ∷ b ∷ c ∷ d ∷ e ∷ f ∷ g ∷ h ∷ i ∷ j ∷ k ∷ l ∷ m ∷ n ∷ o ∷ p ∷ []) =
    bit_xor (bit_xor (bit_xor (word_at a b c d) (word_at e f g h)) (word_at i j k l))
      (word_at m n o p)
name_hash _ = 0

-- `strncmp(a, b, GLOBALNAME_LENGTH) == 0`
unfoldable pub same_name : List ℕ → List ℕ → Bool
same_name [] [] = true
same_name [] (y ∷ ys) = false
same_name (x ∷ xs) [] = false
same_name (x ∷ xs) (y ∷ ys) =
    let rest = same_name xs ys in if x == y then if x == 0 then true else rest else false

abbrev pub matches : ℕ → List ℕ → KeyValue → Bool
matches h name node = (node.hash == h) && same_name node.key name

-- The loop of `hash_search`.
unfoldable pub chain_search : ℕ → List ℕ → List KeyValue → Option KeyValue
chain_search h name [] = none
chain_search h name (node ∷ nodes) =
    let rest = chain_search h name nodes in if matches h name node then some node else rest

unfoldable pub hash_search : (ℕ → List KeyValue) → List ℕ → Option KeyValue
unfolding chain_search
hash_search table name = chain_search (name_hash name) name (table (name_hash name % hash_size))

-- The node that `hash_insert` puts at the front of its chain.
unfoldable pub hash_insert : List ℕ → KeyValue
hash_insert name = record { key = name; hash = name_hash name; value = 0; pending = none }

-- A store through the pointer that `hash_search` returned.
unfoldable pub chain_store : ℕ → List ℕ → KeyValue → List KeyValue → List KeyValue
chain_store h name new [] = []
chain_store h name new (node ∷ nodes) =
    let rest = chain_store h name new nodes in
    if matches h name node then new ∷ nodes else node ∷ rest

abbrev pub set_at {ℓ} : {A : Type ℓ} → (ℕ → A) → ℕ → A → ℕ → A
set_at f i x j = if i == j then x else f j

-- The map with a node stored: the one found, or else the one inserted.
unfoldable pub store_node :
    (ℕ → List KeyValue) → List ℕ → Option KeyValue → KeyValue → ℕ → List KeyValue
unfolding chain_store
store_node table name none new =
    let i = name_hash name % hash_size in set_at table i (new ∷ table i)
store_node table name (some old) new =
    let i = name_hash name % hash_size in
    set_at table i (chain_store (name_hash name) name new (table i))

-- `hash_search`, and `hash_insert` if it finds none.
unfoldable pub node_of : List ℕ → Option KeyValue → KeyValue
node_of name none = hash_insert name
node_of name (some node) = node

unfoldable pub set_peer : Harbor → ℕ → Slave → Harbor
set_peer h i s = record h { peers = set_at h.peers i s }

abbrev pub push_all : MsgQueue → List HarborMsg → MsgQueue
push_all q [] = q
push_all q (m ∷ ms) = push_all (push_queue_msg q m) ms

-- The messages of a queue, sent to a handle of this node.
abbrev pub local_sends : ℕ → List HarborMsg → List Effect
local_sends handle [] = []
local_sends handle (m ∷ ms) =
    sends m.header.source handle (bit_or (m.header.destination / 2 ^ 24) tag_dontcopy)
      m.header.session m.buffer
    ∷ local_sends handle ms

-- `m->header.destination |= (handle & HANDLE_MASK)`
abbrev pub addressed : ℕ → List HarborMsg → List HarborMsg
addressed handle [] = []
addressed handle (m ∷ ms) =
    record m {
      header = record m.header {
        destination = bit_or m.header.destination (bit_and handle handle_mask);
      };
    }
    ∷ addressed handle ms

abbrev pub is_down : Status → Bool
is_down status_down = true
is_down _ = false

abbrev pub is_handshake : Status → Bool
is_handshake status_handshake = true
is_handshake _ = false

-- The queue that takes over a name's messages.
abbrev pub moved : Option MsgQueue → MsgQueue → MsgQueue
moved none q = q
moved (some sq) q = push_all sq (drain q.size q)

-- `dispatch_name_queue` for a name whose handle is `value` and whose queue is `q`, which its caller
-- releases in every case.
unfoldable pub dispatch_name_queue : Harbor → ℕ → MsgQueue → List Effect × Harbor
unfolding drain set_peer
dispatch_name_queue h value q =
    let harbor_id = value / 2 ^ 24 in
    let s = h.peers harbor_id in
    let joined = moved s.queue q in
    if s.fd == 0
    then if is_down s.status
      then (error ∷ [], h)
      else if harbor_id == h.slave / 2 ^ 24
      then (
        local_sends value (drain joined.size joined),
        set_peer h harbor_id (record s { queue = none }),
      )
      else ([], set_peer h harbor_id (record s { queue = some joined }))
    else (send_all s.fd (addressed value (drain q.size q)), h)

abbrev pub dispatch_pending : Harbor → ℕ → Option MsgQueue → List Effect × Harbor
dispatch_pending h value none = ([], h)
dispatch_pending h value (some q) = dispatch_name_queue h value q

unfoldable pub update_name : Harbor → List ℕ → ℕ → List Effect × Harbor
unfolding hash_search store_node node_of dispatch_name_queue
update_name h name handle =
    let found = hash_search h.hash_map name in
    let node = node_of name found in
    let new = record node { value = handle; pending = none } in
    dispatch_pending (record h { hash_map = store_node h.hash_map name found new }) handle
      node.pending

-- The header that `remote_send_handle` makes.
unfoldable pub cookie : ℕ → ℕ → ℕ → ℕ → Header
cookie source destination type session = record {
  source = source;
  destination = bit_or (bit_and destination handle_mask) (type * 2 ^ 24 % 2 ^ 32);
  session = session;
}

abbrev pub queue_or_new : Option MsgQueue → MsgQueue
queue_or_new none = new_queue
queue_or_new (some q) = q

-- `remote_send_handle`; its first result is the returned 1 or 0, whether it has kept the message.
unfoldable pub remote_send_handle : Harbor → ℕ → ℕ → ℕ → ℕ → List ℕ → Bool × List Effect × Harbor
unfolding cookie set_peer
remote_send_handle h source destination type session msg =
    let harbor_id = destination / 2 ^ 24 in
    let s = h.peers harbor_id in
    let m : HarborMsg = record { header = cookie source destination type session; buffer = msg } in
    let q = push_queue_msg (queue_or_new s.queue) m in
    if harbor_id == h.id
    then (true, sends source destination (bit_or type tag_dontcopy) session msg ∷ [], h)
    else if (s.fd == 0) || is_handshake s.status
    then if is_down s.status
      then (false, sends destination source ptype_error 0 [] ∷ error ∷ [], h)
      else (true, [], set_peer h harbor_id (record s { queue = some q }))
    else (false, send_remote s.fd m, h)
