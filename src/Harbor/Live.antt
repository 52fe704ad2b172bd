-- ===== src/Harbor/Live.antt =====
-- What a connection of service_harbor.c keeps while it reads: a valid queue, and its descriptor.
use sdy.Harbor.{forward_local_messsage}
use sdy.Harbor.Peer.{
  Status, status_wait, status_handshake, status_header, status_content, status_down, Slave,
  Received, receive,
}
use sdy.Harbor.Machine.{
  Part, head_part, body_part, Rx, greeting, awaits, deaf, View, rx_of, view, Result, to_rx,
  complete, feed, then_do, feeds,
}
use sdy.Harbor.Sound.{IsSlave}
use sdy.Harbor.Stream.{observed, Leaves, receive_lem}
use sdy.Harbor.Send.{AreValid}
use sdy.Base.{
  Bool, Bool-cases, List, Option-cases, [], get_or, inl, inr, length, ltb, ne→==, none, refl, some,
  subst, sym, take, ℕ, ◌++◌, ◌==◌, ◌∷◌, ◌≡◌, ◌≢◌, ◌≤◌,
}

-- A connection without a descriptor waits to be connected.
abbrev pub Good : View → Type 0
Good v = AreValid v.waiting × (v.socket ≡ 0 → v.rx ≡ deaf status_wait)

abbrev pub AllGood : Result → Type 0
AllGood none = ◌≡◌ {A = ℕ} 0 0
AllGood (some p) = Good p.1

module _ (found : ℕ → Bool) (self id : ℕ) where
  complete-Good :
      (v : View) (c : Part) (got : List ℕ)
      → AreValid v.waiting
      → v.socket ≢ 0
      → AllGood (complete found self v c got)
  complete-Good v head_part got a n = elim (Bool-cases (get_or got 0 0 == 0)) [
    | inl e ↦ rw e (a, λ z. absurd (n z))
    | inr e ↦ rw e (refl, λ z. absurd (n z))
  ]
  complete-Good v body_part got a n = elim (Option-cases (forward_local_messsage found self got)) [
    | inl e ↦ rw e refl
    | inr e ↦ rw (e.1) (a, λ z. absurd (n z))
  ]

  feed_by :
      (r : Rx) (v : View) (b : ℕ) → Good (to_rx v r) → AllGood (feed found self id (to_rx v r) b)
  feed_by greeting v b g =
      let n : v.socket ≢ 0 = λ z. let w = g.1 z in absurd (cc) in
      elim (Bool-cases (b == id)) [
        | inl e ↦ rw (e, ne→== v.socket 0 n) (refl, λ z. absurd (n z))
        | inr e ↦ rw e (refl, λ z. absurd (n z))
      ]
  feed_by (awaits c want got) v b g =
      let n : v.socket ≢ 0 = λ z. let w = g.1 z in absurd (cc) in
      let more = got ++ b ∷ [] in
      elim (Bool-cases (ltb (length more) want)) [
        | inl e ↦ rw e (g.0, λ z. absurd (n z))
        | inr e ↦ rw e (complete-Good (to_rx v (awaits c want got)) c more g.0 n)
      ]
  feed_by (deaf s) v b g = g

  after_by :
      (r : Result) (f : View → Result)
      → AllGood r
      → ((v : View) → Good v → AllGood (f v))
      → AllGood (then_do r f)
  after_by none f g h = refl
  after_by (some p) f g h = elim (Option-cases (f p.1)) [
    | inl e ↦ rw e refl
    | inr e ↦ rw (e.1) (subst (λ (r : Result). AllGood r) (e.1) (h p.1 g))
  ]

  feeds-Good : (v : View) (bs : List ℕ) → Good v → AllGood (feeds found self id v bs)
  unfolding feeds
  feeds-Good v [] g = g
  feeds-Good v (b ∷ bs) g =
      after_by (feed found self id v b) (λ w. feeds found self id w bs) (feed_by v.rx v b g)
        (λ w h. feeds-Good w bs h)

-- What holds of a peer between two calls.
pub record IsPeer (s : Slave) : Type 0 where
  pub slave : IsSlave s
  pub queue : AreValid s.queue
  pub unconnected : s.fd ≡ 0 → s.status ≡ status_wait

rx_of-status :
    (s : Slave) (t : Status) → s.status ≡ t → rx_of s ≡ deaf status_wait → t ≡ status_wait
rx_of-status s status_wait e h = refl
rx_of-status s status_handshake e h = let w : greeting ≡ deaf status_wait = rw e at h in absurd (cc)
rx_of-status s status_header e h =
    let w : awaits head_part 4 (take s.read s.size) ≡ deaf status_wait = rw e at h in absurd (cc)
rx_of-status s status_content e h =
    let w : awaits body_part s.frame_length (take s.read s.recv_buffer) ≡ deaf status_wait =
      rw e at h in
    absurd (cc)
rx_of-status s status_down e h =
    let w : deaf status_down ≡ deaf status_wait = rw e at h in absurd (cc)

-- A peer that receives stays a peer.
abbrev pub AllPeers : Received → Type 0
AllPeers none = ◌≡◌ {A = ℕ} 0 0
AllPeers (some p) = IsPeer p.1

received_by : (o : Received) → Leaves o → AllGood (observed o) → AllPeers o
received_by none l g = refl
received_by (some p) l g = record {
  slave = l;
  queue = g.0;
  unconnected = λ z. rx_of-status p.1 p.1.status refl (g.1 z);
}

pub receive-IsPeer :
    (found : ℕ → Bool) (self id : ℕ) (s : Slave) (bytes : List ℕ)
    → IsPeer s
    → 1 ≤ length bytes
    → AllPeers (receive found self id s bytes)
receive-IsPeer found self id s bytes v l =
    let r = receive_lem found self id s bytes v.slave l in
    let start : Good (view s) = (v.queue, λ z. rw (v.unconnected z) refl) in
    received_by (receive found self id s bytes) r.1
      (subst (λ (x : Result). AllGood x) (sym r.0) (feeds-Good found self id (view s) bytes start))
