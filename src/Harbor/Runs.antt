-- ===== src/Harbor/Runs.antt =====
-- Every run of `mainloop` of service_harbor.c keeps a node as it should be.
use sdy.Harbor.{Effect, ptype_error}
use sdy.Harbor.Node.{Harbor, is_down}
use sdy.Harbor.Loop.{
  harbor_init, Event, socket_data, socket_closed, socket_connect, socket_warning, socket_invalid,
  command, to_handle, to_name, invalid, mainloop,
}
use sdy.Harbor.Invariant.{IsNode, remote_send_handle-IsNode}
use sdy.Harbor.Events.{
  remote_send_name-IsNode, AllNodes, harbor_command-IsNode, push_socket_data-IsNode,
}
use sdy.Base.{
  ==→eq, Bool, Bool-cases, List, Option, [], false, inl, inr, length, none, refl, some, some-eq_iff,
  subst, ℕ, ◌&&◌, ◌++◌, ◌==◌, ◌>>=◌, ◌||◌, ◌∷◌, ◌≡◌, ◌≤◌,
}

-- A socket does not deliver no bytes.
abbrev pub Delivers : Event → Type 0
Delivers (socket_data fd bytes) = 1 ≤ length bytes
Delivers _ = ◌≡◌ {A = ℕ} 0 0

-- Every event keeps a node as it should be.
mainloop-IsNode :
    (found : ℕ → Bool) (scan : List ℕ → ℕ × ℕ) (print : ℕ → List ℕ) (h : Harbor) (e : Event)
    → IsNode h
    → Delivers e
    → AllNodes (mainloop found scan print h e)
unfolding mainloop
mainloop-IsNode found scan print h (socket_data fd bytes) v l =
    push_socket_data-IsNode found h fd bytes v l
mainloop-IsNode found scan print h (socket_closed fd) v l = v
mainloop-IsNode found scan print h socket_connect v l = v
mainloop-IsNode found scan print h (socket_warning fd) v l = v
mainloop-IsNode found scan print h socket_invalid v l = v
mainloop-IsNode found scan print h (command msg source) v l =
    harbor_command-IsNode scan h msg source v
mainloop-IsNode found scan print h (to_handle source handle type session msg) v l =
    remote_send_handle-IsNode h source handle type session msg v
mainloop-IsNode found scan print h (to_name source name type session msg) v l =
    remote_send_name-IsNode h source name type session msg v
mainloop-IsNode found scan print h (invalid type session source) v l =
    elim (Bool-cases ((session == 0) || (type == ptype_error))) [ inl e ↦ rw e v | inr e ↦ rw e v ]

-- The node of `harbor_init`.
harbor_init-IsNode : (id slave : ℕ) (h : Harbor) → harbor_init id slave ≡ some h → IsNode h
unfolding harbor_init
harbor_init-IsNode id slave h e = elim (Bool-cases (slave == 0)) [
  | inl z ↦ let w : none ≡ some h = rw z at e in absurd (cc)
  | inr z ↦
      subst (λ x. IsNode x) ((some-eq_iff _ h).0 (rw z at e))
        (record {
          peers = λ i. record {
            slave = record { word = refl; part = refl };
            queue = refl;
            unconnected = λ f. refl;
          };
          names = λ i. refl;
        })
]

-- The calls of `mainloop` for events, in order.
unfoldable pub run :
    (ℕ → Bool)
    → (List ℕ → ℕ × ℕ)
    → (ℕ → List ℕ)
    → Harbor
    → List Event
    → Option (List Effect × Harbor)
unfolding mainloop
run found scan print h [] = some ([], h)
run found scan print h (e ∷ events) = mainloop found scan print h e >>= λ p.
    run found scan print p.1 events >>= λ q. some (p.0 ++ q.0, q.1)

abbrev pub AllDeliver : List Event → Type 0
AllDeliver [] = ◌≡◌ {A = ℕ} 0 0
AllDeliver (e ∷ events) = Delivers e × AllDeliver events

prefixed-IsNode :
    (es : List Effect) (o : Option (List Effect × Harbor))
    → AllNodes o
    → AllNodes (o >>= λ q. some (es ++ q.0, q.1))
prefixed-IsNode es none v = refl
prefixed-IsNode es (some q) v = v

continued-IsNode :
    (o : Option (List Effect × Harbor)) (rest : Harbor → Option (List Effect × Harbor))
    → AllNodes o
    → ((h : Harbor) → IsNode h → AllNodes (rest h))
    → AllNodes (o >>= λ p. rest p.1 >>= λ q. some (p.0 ++ q.0, q.1))
continued-IsNode none rest v h = refl
continued-IsNode (some p) rest v h = prefixed-IsNode p.0 (rest p.1) (h p.1 v)

run-IsNode :
    (found : ℕ → Bool) (scan : List ℕ → ℕ × ℕ) (print : ℕ → List ℕ) (h : Harbor)
    (events : List Event)
    → IsNode h
    → AllDeliver events
    → AllNodes (run found scan print h events)
unfolding run
run-IsNode found scan print h [] v d = v
run-IsNode found scan print h (e ∷ events) v d =
    continued-IsNode (mainloop found scan print h e) (λ k. run found scan print k events)
      (mainloop-IsNode found scan print h e v d.0)
      (λ k w. run-IsNode found scan print k events w d.1)

-- After any events from `harbor_init` on, data of no bytes excepted, if the run has a result, the
-- queues of the node's peers and names are valid rings, and each peer's read position fits its status.
-- Also only a peer that waits to be connected has the descriptor 0, so that the branches for a peer that
-- is down, which are for that descriptor only, are never taken.
pub runs-IsNode :
    (found : ℕ → Bool) (scan : List ℕ → ℕ × ℕ) (print : ℕ → List ℕ) (id slave i : ℕ)
    (h next : Harbor) (events : List Event) (es : List Effect)
    → harbor_init id slave ≡ some h
    → AllDeliver events
    → run found scan print h events ≡ some (es, next)
    → IsNode next × (((next.peers i).fd == 0) && is_down (next.peers i).status ≡ false)
runs-IsNode found scan print id slave i h next events es start d done =
    let v : IsNode next =
      subst (λ o. AllNodes o) done
        (run-IsNode found scan print h events (harbor_init-IsNode id slave h start) d) in
    (
      v,
      elim (Bool-cases ((next.peers i).fd == 0)) [
        | inl e ↦ rw (e, (v.peers i).unconnected (==→eq (next.peers i).fd 0 e)) refl
        | inr e ↦ rw e refl
      ],
    )
