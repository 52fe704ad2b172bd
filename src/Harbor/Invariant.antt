-- ===== src/Harbor/Invariant.antt =====
-- What every event keeps of a node of service_harbor.c.
use sdy.Harbor.{MsgQueue, push_queue_msg}
use sdy.Harbor.Peer.{
  Status, status_wait, status_handshake, status_header, status_content, status_down, Slave,
}
use sdy.Harbor.Sound.{PartOf}
use sdy.Harbor.Node.{
  KeyValue, Harbor, hash_size, name_hash, matches, chain_search, hash_search, hash_insert,
  chain_store, set_at, store_node, node_of, set_peer, is_down, is_handshake, queue_or_new,
  remote_send_handle,
}
use sdy.Harbor.Send.{AreValid, message, queue_lem}
use sdy.Harbor.Live.{IsPeer}
use sdy.Base.{
  Bool-cases, List, Option, [], false, inl, inr, none, refl, some, ℕ, ◌%◌, ◌/◌, ◌==◌, ◌^◌, ◌||◌,
  ◌∷◌, ◌≡◌,
}

abbrev pub AllPending : List KeyValue → Type 0
AllPending [] = ◌≡◌ {A = ℕ} 0 0
AllPending (node ∷ nodes) = AreValid node.pending × AllPending nodes

-- Queues are valid, the peers' read positions fit their statuses, and only a peer that waits to be
-- connected has the descriptor 0.
pub record IsNode (h : Harbor) : Type 0 where
  pub peers : (i : ℕ) → IsPeer (h.peers i)
  pub names : (i : ℕ) → AllPending (h.hash_map i)

set_at-all :
    {A : Type 0} (P : A → Type 0) (f : ℕ → A) (i : ℕ) (x : A)
    → P x
    → ((j : ℕ) → P (f j))
    → (j : ℕ) → P (set_at f i x j)
set_at-all P f i x a b j = elim (Bool-cases (i == j)) [ inl e ↦ rw e a | inr e ↦ rw e (b j) ]

pub set_peer-IsNode :
    (h : Harbor) (i : ℕ) (s : Slave) → IsNode h → IsPeer s → IsNode (set_peer h i s)
unfolding set_peer
set_peer-IsNode h i s v w = record {
  peers = set_at-all IsPeer h.peers i s w v.peers;
  names = v.names;
}

chain_store-AllPending :
    (k : ℕ) (name : List ℕ) (new : KeyValue) (nodes : List KeyValue)
    → AreValid new.pending
    → AllPending nodes
    → AllPending (chain_store k name new nodes)
unfolding chain_store
chain_store-AllPending k name new [] a v = v
chain_store-AllPending k name new (node ∷ nodes) a v = elim (Bool-cases (matches k name node)) [
  | inl e ↦ rw e (a, v.1)
  | inr e ↦ rw e (v.0, chain_store-AllPending k name new nodes a v.1)
]

pub store_node-AllPending :
    (table : ℕ → List KeyValue) (name : List ℕ) (o : Option KeyValue) (new : KeyValue)
    → AreValid new.pending
    → ((i : ℕ) → AllPending (table i))
    → (i : ℕ) → AllPending (store_node table name o new i)
unfolding store_node
store_node-AllPending table name none new a v =
    let i = name_hash name % hash_size in set_at-all AllPending table i (new ∷ table i) (a, v i) v
store_node-AllPending table name (some old) new a v =
    let i = name_hash name % hash_size in
    set_at-all AllPending table i (chain_store (name_hash name) name new (table i))
      (chain_store-AllPending (name_hash name) name new (table i) a (v i)) v

chain_search-valid :
    (k : ℕ) (name : List ℕ) (nodes : List KeyValue)
    → AllPending nodes
    → AreValid (node_of name (chain_search k name nodes)).pending
unfolding chain_search node_of hash_insert
chain_search-valid k name [] v = refl
chain_search-valid k name (node ∷ nodes) v = elim (Bool-cases (matches k name node)) [
  | inl e ↦ rw e (v.0)
  | inr e ↦ rw e (chain_search-valid k name nodes v.1)
]

pub node_of-valid :
    (h : Harbor) (name : List ℕ)
    → IsNode h
    → AreValid (node_of name (hash_search h.hash_map name)).pending
unfolding hash_search
node_of-valid h name v =
    chain_search-valid (name_hash name) name _ (v.names (name_hash name % hash_size))

queue_part :
    (t : Status) (s : Slave) (o : Option MsgQueue)
    → is_down t ≡ false
    → PartOf s t
    → PartOf (record s { queue = o }) t
queue_part status_wait s o d v = v
queue_part status_handshake s o d v = v
queue_part status_header s o d v = v
queue_part status_content s o d v = record {
  buffer_length = v.buffer_length;
  within = v.within;
  unfinished = v.unfinished;
}
queue_part status_down s o d v = absurd (cc)

-- A peer that is not given up gets another queue.
pub queue-IsPeer :
    (s : Slave) (o : Option MsgQueue)
    → IsPeer s
    → is_down s.status ≡ false
    → AreValid o
    → IsPeer (record s { queue = o })
queue-IsPeer s o v d a = record {
  slave = record { word = v.slave.word; part = queue_part s.status s o d v.slave.part };
  queue = a;
  unconnected = v.unconnected;
}

-- A message for another node.
pub remote_send_handle-IsNode :
    (h : Harbor) (source destination type session : ℕ) (msg : List ℕ)
    → IsNode h
    → IsNode (remote_send_handle h source destination type session msg).2
unfolding remote_send_handle
remote_send_handle-IsNode h source destination type session msg v =
    let i = destination / 2 ^ 24 in
    let s = h.peers i in
    let m = message source destination type session msg in
    let q = push_queue_msg (queue_or_new s.queue) m in
    elim (Bool-cases (i == h.id)) [
      | inl e ↦ rw e v
      | inr e ↦ rw e (elim (Bool-cases ((s.fd == 0) || is_handshake s.status)) [
        | inr c ↦ rw c v
        | inl c ↦ rw c (elim (Bool-cases (is_down s.status)) [
          | inl d ↦ rw d v
          | inr d ↦ rw d (
              set_peer-IsNode h i (record s { queue = some q }) v
                (queue-IsPeer s (some q) (v.peers i) d (queue_lem s.queue m (v.peers i).queue).0))
        ])
      ])
    ]
