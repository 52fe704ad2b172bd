-- ===== src/Harbor/Events.antt =====
-- What handles the events of `mainloop` of service_harbor.c keeps a node as it should be.
use sdy.Harbor.{HarborMsg, MsgQueue, push_queue_msg, drain, Effect, error}
use sdy.Harbor.Queue.{IsValid, push_queue_msg_lem}
use sdy.Harbor.Peer.{status_handshake, status_header, Slave, dispatch_queue, Received, receive}
use sdy.Harbor.Sound.{PartOf}
use sdy.Harbor.Node.{
  KeyValue, Harbor, globalname_length, remote_max, hash_search, store_node, node_of, set_peer,
  push_all, is_down, moved, dispatch_name_queue, dispatch_pending, update_name, queue_or_new,
}
use sdy.Harbor.Loop.{
  queue_named, remote_send_name, name_command, connect, harbor_command, find_slave,
  push_socket_data,
}
use sdy.Harbor.Send.{AreValid, queue_lem}
use sdy.Harbor.Live.{IsPeer, AllPeers, receive-IsPeer}
use sdy.Harbor.Invariant.{
  IsNode, set_peer-IsNode, store_node-AllPending, node_of-valid, queue-IsPeer,
  remote_send_handle-IsNode,
}
use sdy.Base.{
  ==→eq, Bool, Bool-cases, List, Option, [], arith, inl, inr, leb, length, ne→==, none, refl, some,
  subst, ℕ, ◌%◌, ◌*◌, ◌/◌, ◌==◌, ◌>>=◌, ◌^◌, ◌||◌, ◌∷◌, ◌≡◌, ◌≢◌, ◌≤◌,
}

push_all-IsValid : (q : MsgQueue) (ms : List HarborMsg) → IsValid q → IsValid (push_all q ms)
push_all-IsValid q [] v = v
push_all-IsValid q (m ∷ ms) v =
    push_all-IsValid (push_queue_msg q m) ms (push_queue_msg_lem q m v).0

moved-IsValid : (o : Option MsgQueue) (q : MsgQueue) → AreValid o → IsValid q → IsValid (moved o q)
moved-IsValid none q a v = v
moved-IsValid (some sq) q a v = push_all-IsValid sq (drain q.size q) a

dispatch_pending-IsNode :
    (h : Harbor) (value : ℕ) (o : Option MsgQueue)
    → IsNode h
    → AreValid o
    → IsNode (dispatch_pending h value o).1
unfolding dispatch_name_queue
dispatch_pending-IsNode h value none v a = v
dispatch_pending-IsNode h value (some q) v a =
    let i = value / 2 ^ 24 in
    let s = h.peers i in
    let both = moved s.queue q in
    elim (Bool-cases (s.fd == 0)) [
      | inr f ↦ rw f v
      | inl t ↦ rw t (elim (Bool-cases (is_down s.status)) [
        | inl d ↦ rw d v
        | inr d ↦ rw d (elim (Bool-cases (i == h.slave / 2 ^ 24)) [
          | inl l ↦ rw l (
              set_peer-IsNode h i (record s { queue = none }) v
                (queue-IsPeer s none (v.peers i) d refl))
          | inr l ↦ rw l (
              set_peer-IsNode h i (record s { queue = some both }) v
                (queue-IsPeer s (some both) (v.peers i) d
                  (moved-IsValid s.queue q (v.peers i).queue a)))
        ])
      ])
    ]

update_name-IsNode :
    (h : Harbor) (name : List ℕ) (handle : ℕ) → IsNode h → IsNode (update_name h name handle).1
unfolding update_name
update_name-IsNode h name handle v =
    let o = hash_search h.hash_map name in
    let node = node_of name o in
    let new : KeyValue = record node { value = handle; pending = none } in
    let stored : IsNode (record h { hash_map = store_node h.hash_map name o new }) = record {
      peers = v.peers;
      names = store_node-AllPending h.hash_map name o new refl v.names;
    } in
    dispatch_pending-IsNode (record h { hash_map = store_node h.hash_map name o new }) handle
      node.pending stored (node_of-valid h name v)

pub remote_send_name-IsNode :
    (h : Harbor) (source : ℕ) (name : List ℕ) (type session : ℕ) (msg : List ℕ)
    → IsNode h
    → IsNode (remote_send_name h source name type session msg).2
unfolding remote_send_name queue_named
remote_send_name-IsNode h source name type session msg v =
    let o = hash_search h.hash_map name in
    let node = node_of name o in
    let m : HarborMsg = record {
      header = record { source = source; destination = type * 2 ^ 24 % 2 ^ 32; session = session };
      buffer = msg;
    } in
    let q = push_queue_msg (queue_or_new node.pending) m in
    let new : KeyValue = record node { pending = some q } in
    elim (Bool-cases (node.value == 0)) [
      | inl e ↦ rw e (record {
        peers = v.peers;
        names =
            store_node-AllPending h.hash_map name o new
              (queue_lem node.pending m (node_of-valid h name v)).0 v.names;
      })
      | inr e ↦ rw e (remote_send_handle-IsNode h source node.value type session msg v)
    ]

-- No result, or a node as it should be.
abbrev pub AllNodes : Option (List Effect × Harbor) → Type 0
AllNodes none = ◌≡◌ {A = ℕ} 0 0
AllNodes (some p) = IsNode p.1

-- A peer that waits takes a socket.
joined-IsPeer :
    (s : Slave) (fd : ℕ) (o : Option MsgQueue)
    → IsPeer s
    → s.fd ≡ 0
    → fd ≢ 0
    → AreValid o
    → IsPeer (record s { fd = fd; status = status_handshake; queue = o })
      × IsPeer (record s { fd = fd; status = status_header; queue = o })
joined-IsPeer s fd o v z n a =
    let start : s.read ≡ 0 = subst (λ t. PartOf s t) (v.unconnected z) v.slave.part in
    (
      record {
        slave = record { word = v.slave.word; part = start };
        queue = a;
        unconnected = λ e. absurd (n e);
      },
      record {
        slave = record { word = v.slave.word; part = omega (arith, start) };
        queue = a;
        unconnected = λ e. absurd (n e);
      },
    )

connect-IsNode :
    (h : Harbor) (connecting : Bool) (fd id : ℕ) → IsNode h → AllNodes (connect h connecting fd id)
unfolding connect dispatch_queue
connect-IsNode h connecting fd id v =
    elim (Bool-cases ((fd == 0) || ((id == 0) || leb remote_max id))) [
      | inl e ↦ rw e v
      | inr e ↦ rw e (elim (Bool-cases ((h.peers id).fd == 0)) [
        | inr f ↦ rw f v
        | inl f ↦
            let s = h.peers id in
            let n : fd ≢ 0 = ground arith in
            let z = ==→eq s.fd 0 f in
            let old = joined-IsPeer s fd s.queue (v.peers id) z n (v.peers id).queue in
            let new = joined-IsPeer s fd none (v.peers id) z n refl in
            rw f (elim (Bool-cases connecting) [
              | inl c ↦
                  rw c
                    (set_peer-IsNode h id (record s { fd = fd; status = status_handshake }) v old.0)
              | inr c ↦
                  rw (c, ne→== fd 0 n)
                    (set_peer-IsNode h id
                      (record s { fd = fd; status = status_header; queue = none }) v new.1)
            ])
      ])
    ]

name_command-IsNode :
    (h : Harbor) (name : List ℕ) (source : ℕ) → IsNode h → IsNode (name_command h name source).1
unfolding name_command
name_command-IsNode h name source v =
    elim (Bool-cases ((length name == 0) || leb globalname_length (length name))) [
      | inl e ↦ rw e v
      | inr e ↦ rw e (update_name-IsNode h _ source v)
    ]

pub harbor_command-IsNode :
    (scan : List ℕ → ℕ × ℕ) (h : Harbor) (msg : List ℕ) (source : ℕ)
    → IsNode h
    → AllNodes (harbor_command scan h msg source)
unfolding harbor_command
harbor_command-IsNode scan h [] source v = refl
harbor_command-IsNode scan h (c ∷ []) source v = elim (Bool-cases ((c == 83) || (c == 65))) [
  | inl e ↦ rw e refl
  | inr e ↦ rw e v
]
harbor_command-IsNode scan h (c ∷ space ∷ name) source v = elim (Bool-cases (c == 78)) [
  | inl e ↦ rw e (name_command-IsNode h name source v)
  | inr e ↦ rw e (elim (Bool-cases ((c == 83) || (c == 65))) [
    | inl f ↦ rw f (connect-IsNode h (c == 83) (scan name).0 (scan name).1 v)
    | inr f ↦ rw f v
  ])
]

received-IsNode :
    (h : Harbor) (i : ℕ) (o : Received)
    → IsNode h
    → AllPeers o
    → AllNodes (o >>= λ p. some (p.0, set_peer h i p.1))
received-IsNode h i none v w = refl
received-IsNode h i (some p) v w = set_peer-IsNode h i p.1 v w

slave_by :
    (found : ℕ → Bool) (h : Harbor) (o : Option ℕ) (bytes : List ℕ)
    → IsNode h
    → 1 ≤ length bytes
    → AllNodes (elim o [
      | none ↦ some (error ∷ [], h)
      | some i ↦ receive found h.id i (h.peers i) bytes >>= λ p. some (p.0, set_peer h i p.1)
    ])
slave_by found h none bytes v l = v
slave_by found h (some i) bytes v l =
    received-IsNode h i (receive found h.id i (h.peers i) bytes) v
      (receive-IsPeer found h.id i (h.peers i) bytes (v.peers i) l)

pub push_socket_data-IsNode :
    (found : ℕ → Bool) (h : Harbor) (fd : ℕ) (bytes : List ℕ)
    → IsNode h
    → 1 ≤ length bytes
    → AllNodes (push_socket_data found h fd bytes)
unfolding push_socket_data
push_socket_data-IsNode found h fd bytes v l = slave_by found h (find_slave h fd) bytes v l
