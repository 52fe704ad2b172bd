-- ===== src/Harbor/Tests.antt =====
-- The theorems on service_harbor.c for two nodes and a short message.
use sdy.Harbor.{
  HarborMsg, to_bigendian, header_to_message, message_to_header, sends, socket_send, socket_start,
  error, frame, send_remote, forward_to, forward_local_messsage,
}
use sdy.Harbor.Peer.{
  Status, status_wait, status_handshake, status_header, Slave, close_harbor, send_all,
  queue_effects, dispatch_queue, on_content, on_header, turn, turns, receive, receive_all,
}
use sdy.Harbor.Machine.{view, next_frame, feeds}
use sdy.Harbor.Sound.{IsSlave}
use sdy.Harbor.Stream.{observed, Leaves, receive_lem}
use sdy.Harbor.Delivery.{concat, Pieces, IsFramed, bytes_to, all_forwarded, delivery_lem}
use sdy.Harbor.Node.{
  Harbor, same_name, hash_search, node_of, set_peer, is_down, update_name, cookie,
  remote_send_handle,
}
use sdy.Harbor.Loop.{connect, harbor_command, harbor_init, Event, socket_connect, command, mainloop}
use sdy.Harbor.Send.{waits, AreValid, message, remote_send_handle-waits, remote_as_local}
use sdy.Harbor.Connect.{first_contact}
use sdy.Harbor.Errors.{short_frame, closed_peer}
use sdy.Harbor.Names.{update_name_lem}
use sdy.Memory.{memcpy}
use sdy.Harbor.Runs.{run, runs-IsNode}
use sdy.Harbor.Invariant.{IsNode}
use sdy.Base.{
  Bool, List, [], arith, bit_or, false, none, refl, replicate, some, true, ℕ, ◌&&◌, ◌*◌, ◌++◌, ◌+◌,
  ◌/◌, ◌==◌, ◌^◌, ◌∷◌, ◌≡◌,
}

abbrev zeros : List ℕ
zeros = 0 ∷ 0 ∷ 0 ∷ 0 ∷ []

-- A slave as `harbor_create` clears it, with a status and a socket.
abbrev slave_of : Status → ℕ → Slave
slave_of t fd = record {
  fd = fd;
  queue = none;
  status = t;
  frame_length = 0;
  read = 0;
  size = zeros;
  recv_buffer = [];
}

abbrev idle : Slave
idle = slave_of status_header 7

idle-IsSlave : IsSlave idle
idle-IsSlave = record { word = refl; part = omega arith }

abbrev expecting : Slave
expecting = slave_of status_handshake 8

expecting-IsSlave : IsSlave expecting
expecting-IsSlave = record { word = refl; part = refl }

abbrev node : ℕ → Slave → Harbor
node id s = record { id = id; slave = 9; hash_map = λ i. []; peers = λ i. s }

abbrev all_found : ℕ → Bool
all_found handle = true

-- A handle of the second node.
abbrev far_handle : ℕ
far_handle = 2 * 2 ^ 24 + 5

abbrev hello : HarborMsg
hello = record {
  header = record { source = 16777217; destination = 10 * 2 ^ 24 + 5; session = 3 };
  buffer = 104 ∷ 105 ∷ [];
}

hello-IsFramed : IsFramed hello
hello-IsFramed = record {
  head = record {
    source_word = omega arith;
    destination_word = omega arith;
    session_word = omega arith;
  };
  short = omega arith;
}

-- The frame of `hello`, cut in its length and in its text.
abbrev cut : List (List ℕ)
cut =
    (0 ∷ 0 ∷ [])
    ∷ (0 ∷ 14 ∷ 104 ∷ [])
    ∷ (105 ∷ 1 ∷ 0 ∷ 0 ∷ 1 ∷ 10 ∷ 0 ∷ 0 ∷ 5 ∷ 0 ∷ 0 ∷ 0 ∷ 3 ∷ [])
    ∷ []

cut-Pieces : Pieces cut
cut-Pieces = (omega arith, (omega arith, (omega arith, refl)))

-- Reading the pieces forwards the text.
forwards :
    observed (receive_all all_found 2 1 idle cut)
    ≡ some (sends 16777217 far_handle (bit_or 10 65536) 3 (104 ∷ 105 ∷ []) ∷ [], view idle)
unfolding receive_all receive turns turn on_header on_content memcpy forward_local_messsage
    message_to_header forward_to
forwards = refl

receive_lem_example :
    (observed (receive all_found 2 1 idle (0 ∷ 0 ∷ []))
      ≡ feeds all_found 2 1 (view idle) (0 ∷ 0 ∷ []))
    × Leaves (receive all_found 2 1 idle (0 ∷ 0 ∷ []))
receive_lem_example = receive_lem all_found 2 1 idle (0 ∷ 0 ∷ []) idle-IsSlave (omega arith)

cut_frame : concat cut ≡ bytes_to 7 (send_all 7 (hello ∷ []))
unfolding send_remote frame to_bigendian header_to_message
cut_frame = refl

delivery_lem_example :
    observed (receive_all all_found 2 1 idle cut)
    ≡ some (all_forwarded all_found 2 (hello ∷ []), view idle)
delivery_lem_example =
    delivery_lem all_found 2 1 7 idle (hello ∷ []) cut idle-IsSlave refl (hello-IsFramed, refl)
      cut-Pieces cut_frame

cut_sent :
    concat cut
    ≡ bytes_to 7 (remote_send_handle (node 1 idle) 16777217 far_handle 10 3 (104 ∷ 105 ∷ [])).1
unfolding remote_send_handle cookie send_remote frame to_bigendian header_to_message
cut_sent = refl

remote_as_local_example :
    observed (receive_all all_found 2 1 idle cut)
    ≡ some
        ((remote_send_handle (node 2 idle) 16777217 far_handle 10 3 (104 ∷ 105 ∷ [])).1, view idle)
remote_as_local_example =
    remote_as_local all_found (node 1 idle) (node 2 idle) 16777217 far_handle 10 3 1
      (104 ∷ 105 ∷ []) idle cut (omega arith) (omega arith) refl (omega arith) (omega arith)
      (omega arith) (omega arith) refl idle-IsSlave refl cut-Pieces cut_sent

abbrev unconnected : Slave
unconnected = slave_of status_wait 0

remote_send_handle-waits_example :
    let (kept, es, after) =
      remote_send_handle (node 1 unconnected) 16777217 far_handle 10 3 (104 ∷ 105 ∷ []) in
    (kept ≡ true)
    × (es ≡ [])
    × AreValid (after.peers (far_handle / 2 ^ 24)).queue
    × (waits (after.peers (far_handle / 2 ^ 24)).queue
        ≡ [] ++ message 16777217 far_handle 10 3 (104 ∷ 105 ∷ []) ∷ [])
    × (after.peers 3 ≡ unconnected)
remote_send_handle-waits_example =
    remote_send_handle-waits (node 1 unconnected) 16777217 far_handle 10 3 (104 ∷ 105 ∷ []) 3
      (omega arith) refl refl refl (omega arith)

met :
    connect (node 1 unconnected) false 7 2
    ≡ some (
      socket_start 7 ∷ socket_send 7 (1 ∷ []) ∷ [],
      set_peer (node 1 unconnected) 2 (slave_of status_header 7),
    )
unfolding connect dispatch_queue queue_effects
met = refl

first_contact_example :
    observed (receive_all all_found 2 1 expecting ((1 ∷ []) ∷ []))
    ≡ some ([], record { socket = 8; waiting = none; rx = next_frame })
first_contact_example =
    first_contact all_found 2 (node 1 unconnected)
      (set_peer (node 1 unconnected) 2 (slave_of status_header 7)) 7 2 expecting
      (socket_start 7 ∷ socket_send 7 (1 ∷ []) ∷ []) ((1 ∷ []) ∷ []) (omega arith) (omega arith)
      (omega arith) (omega arith) refl refl refl expecting-IsSlave refl (omega arith) refl
      (omega arith, refl) met refl

abbrev name_of : ℕ → List ℕ
name_of c = c ∷ replicate 15 0

update_name_lem_example :
    let after = (update_name (node 1 idle) (name_of 97) far_handle).1 in
    (hash_search after.hash_map (name_of 97)
      ≡ some (record (node_of (name_of 97) (hash_search (λ i. []) (name_of 97))) {
        value = far_handle;
        pending = none;
      }))
    × (hash_search after.hash_map (name_of 98) ≡ hash_search (λ i. []) (name_of 98))
update_name_lem_example =
    update_name_lem (node 1 idle) (name_of 97) (name_of 98) far_handle (unfold same_name in refl)

short_frame_example : observed (receive all_found 2 1 idle (to_bigendian 2 ++ (1 ∷ 2 ∷ []))) ≡ none
short_frame_example =
    short_frame all_found 2 1 idle 2 (1 ∷ 2 ∷ []) idle-IsSlave refl (omega arith) (omega arith) refl

closed_peer_example :
    let closed = set_peer (node 1 idle) (far_handle / 2 ^ 24) (close_harbor idle).1 in
    (remote_send_handle closed 16777217 far_handle 10 3 (104 ∷ 105 ∷ [])
      ≡ (false, send_remote 7 (message 16777217 far_handle 10 3 (104 ∷ 105 ∷ [])), closed))
    × (connect closed true 11 (far_handle / 2 ^ 24) ≡ some (error ∷ [], closed))
closed_peer_example =
    closed_peer (node 1 idle) true 11 16777217 far_handle 10 3 (104 ∷ 105 ∷ []) (omega arith)
      (omega arith)

abbrev fresh : Harbor
fresh = node 1 unconnected

started : harbor_init 1 9 ≡ some fresh
unfolding harbor_init
started = refl

-- The command A for peer 2 on socket 7.
abbrev accept : List Event
accept = command (65 ∷ 32 ∷ 55 ∷ 32 ∷ 50 ∷ []) 9 ∷ socket_connect ∷ []

abbrev accepted : Harbor
accepted = set_peer fresh 2 (slave_of status_header 7)

ran :
    run all_found (λ text. (7, 2)) (λ n. []) fresh accept
    ≡ some (socket_start 7 ∷ socket_send 7 (1 ∷ []) ∷ [], accepted)
unfolding run mainloop harbor_command connect dispatch_queue queue_effects set_peer
ran = refl

runs-IsNode_example :
    IsNode accepted × (((accepted.peers 2).fd == 0) && is_down (accepted.peers 2).status ≡ false)
runs-IsNode_example =
    runs-IsNode all_found (λ text. (7, 2)) (λ n. []) 1 9 2 fresh accepted accept
      (socket_start 7 ∷ socket_send 7 (1 ∷ []) ∷ []) started (refl, (refl, refl)) ran
