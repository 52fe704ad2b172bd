-- ===== src/Harbor/Sound.antt =====
-- What holds of a connection of service_harbor.c between two calls, and that each case of
-- `push_socket_data` keeps it.
use sdy.Memory.{memcpy, length-memcpy}
use sdy.Base.{
  ==→eq, ==→ne, Bool, Bool-cases, List, Option, Option-cases, [], arith, drop, false, get_or,
  if◌then◌else◌, inl, inr, length, length-drop, length-take, ltb, ltb→lt, lt→ltb, none, not, refl,
  some, take, ℕ, ◌+◌, ◌-◌, ◌<◌, ◌==◌, ◌∙◌, ◌≡◌, ◌≤◌,
}
use sdy.Harbor.{Effect, forward_local_messsage}
use sdy.Harbor.Peer.{
  Status, status_wait, status_handshake, status_header, status_content, status_down, Slave,
  close_harbor, Turn, returns, goes_on, after_effects, cleared, on_content, opened, give_up,
  on_header,
}
use sdy.Harbor.Parts.{as_content, as_header, ReadsBody, ReadsHead, opened-ReadsBody, short_text}

-- The read position, by the status. A closed connection has no queue.
abbrev pub PartOf : Slave → Status → Type 0
PartOf s status_wait = s.read ≡ 0
PartOf s status_handshake = s.read ≡ 0
PartOf s status_header = s.read < 4
PartOf s status_content = ReadsBody s
PartOf s status_down = s.queue ≡ none

pub record IsSlave (s : Slave) : Type 0 where
  pub word : length s.size ≡ 4
  pub part : PartOf s s.status

-- A turn keeps what holds, and takes a byte if another one follows.
abbrev pub Sound : Option Turn → ℕ → Type 0
Sound none n = n ≡ n
Sound (some (returns es r)) n = IsSlave r
Sound (some (goes_on es r rest)) n = IsSlave r × (r.status ≡ status_header) × (length rest < n)

pub give_up-Sound : (s : Slave) (n : ℕ) → length s.size ≡ 4 → Sound (some (give_up s)) n
unfolding give_up close_harbor
give_up-Sound s n h = record { word = h; part = refl }

pub after_effects-Sound :
    (es : List Effect) (t : Turn) (m n : ℕ)
    → m ≤ n
    → Sound (some t) m
    → Sound (some (after_effects es t)) n
unfolding after_effects
after_effects-Sound es (returns fs r) m n h v = v
after_effects-Sound es (goes_on fs r rest) m n h v = (v.0, v.1, omega (arith, v.2, h))

module _ (found : ℕ → Bool) (self : ℕ) where
  content_few-Sound :
      (s : Slave) (bytes : List ℕ)
      → length s.size ≡ 4
      → ReadsBody s
      → length bytes < s.frame_length - s.read
      → Sound (on_content found self (as_content s) bytes) (length bytes)
  unfolding on_content
  content_few-Sound s bytes w v h =
      let room : s.read + length bytes < s.frame_length = omega (arith, v.within, h) in
      rw (lt→ltb _ _ h) (record {
        word = w;
        part = record {
          buffer_length =
              length-memcpy s.recv_buffer s.read bytes (omega (arith, v.buffer_length, room))
              ∙ v.buffer_length;
          within = omega (arith, room);
          unfinished = λ e. absurd (omega (arith, room, e));
        };
      })

  cleared_by :
      (es : List Effect) (s : Slave) (rest : List ℕ) (n : ℕ)
      → length s.size ≡ 4
      → length rest < n
      → Sound
          (some (if length rest == 0 then returns es (cleared s) else goes_on es (cleared s) rest))
          n
  cleared_by es s rest n w h = elim (Bool-cases (length rest == 0)) [
    | inl e ↦ rw e (record { word = w; part = omega arith })
    | inr e ↦ rw e (record { word = w; part = omega arith }, refl, h)
  ]

  content_none-Sound :
      (s : Slave) (bytes : List ℕ) (n : ℕ)
      → ReadsBody s
      → s.read ≡ s.frame_length
      → Sound (on_content found self (as_content s) bytes) n
  unfolding on_content
  content_none-Sound s bytes n v e =
      let need = s.frame_length - s.read in
      let full = memcpy s.recv_buffer s.read (take need bytes) in
      let z = v.unfinished e in
      let enough : ltb (length bytes) need ≡ false = ground arith in
      let empty =
        length-memcpy s.recv_buffer s.read (take need bytes)
          (omega (arith, length-take need bytes, z, e, v.buffer_length)) in
      rw (enough, short_text found self 0 full (omega (arith, empty, z, e, v.buffer_length))) refl

  content_cut-Sound :
      (s : Slave) (bytes : List ℕ)
      → length s.size ≡ 4
      → s.read < s.frame_length
      → s.frame_length - s.read ≤ length bytes
      → Sound (on_content found self (as_content s) bytes) (length bytes)
  unfolding on_content
  content_cut-Sound s bytes w l h =
      let need = s.frame_length - s.read in
      let full = memcpy s.recv_buffer s.read (take need bytes) in
      let enough : ltb (length bytes) need ≡ false = ground arith in
      let less : length (drop need bytes) < length bytes =
        omega (arith, length-drop need bytes, l, h) in
      rw enough (elim (Option-cases (forward_local_messsage found self full)) [
        | inl e ↦ rw e refl
        | inr e ↦ rw (e.1) (cleared_by e.0 (as_content s) (drop need bytes) (length bytes) w less)
      ])

  pub on_content-Sound :
      (s : Slave) (bytes : List ℕ)
      → length s.size ≡ 4
      → ReadsBody s
      → Sound (on_content found self (as_content s) bytes) (length bytes)
  on_content-Sound s bytes w v = elim (Bool-cases (ltb (length bytes) (s.frame_length - s.read))) [
    | inl few ↦ content_few-Sound s bytes w v (ltb→lt _ _ few)
    | inr many ↦
        let u = v.within in
        let h : s.frame_length - s.read ≤ length bytes = ground arith in
        elim (Bool-cases (s.read == s.frame_length)) [
          | inl e ↦ content_none-Sound s bytes (length bytes) v (==→eq _ _ e)
          | inr e ↦ content_cut-Sound s bytes w (omega (arith, u, ==→ne _ _ e)) h
        ]
  ]

  Sound-more : (t : Option Turn) (m n : ℕ) → m ≤ n → Sound t m → Sound t n
  Sound-more none m n h v = refl
  Sound-more (some (returns es r)) m n h v = v
  Sound-more (some (goes_on es r rest)) m n h v = (v.0, v.1, omega (arith, v.2, h))

  head_done-Sound :
      (s : Slave) (full rest : List ℕ) (n : ℕ)
      → length full ≡ 4
      → length rest ≤ n
      → Sound
          (if not (get_or full 0 0 == 0)
            then some (give_up (record (as_header s) { size = full }))
            else if length rest == 0
            then some (returns [] (opened (as_header s) full))
            else on_content found self (opened (as_header s) full) rest)
          n
  head_done-Sound s full rest n w h =
      let body = opened-ReadsBody (as_header s) full in
      elim (Bool-cases (get_or full 0 0 == 0)) [
        | inr e ↦ rw e (give_up-Sound (record (as_header s) { size = full }) n w)
        | inl e ↦ rw e (elim (Bool-cases (length rest == 0)) [
          | inl z ↦ rw z (record { word = w; part = body })
          | inr z ↦ rw z (
              Sound-more (on_content found self (opened (as_header s) full) rest) (length rest) n h
                (on_content-Sound (opened (as_header s) full) rest w body))
        ])
      ]

  pub on_header-Sound :
      (s : Slave) (bytes : List ℕ)
      → ReadsHead s
      → Sound (on_header found self (as_header s) bytes) (length bytes)
  unfolding on_header
  on_header-Sound s bytes v = elim (Bool-cases (ltb (length bytes) (4 - s.read))) [
    | inl few ↦
        let room : s.read + length bytes < 4 = ground (arith, v.within) in
        rw few (record {
          word = length-memcpy s.size s.read bytes (omega (arith, v.word, room)) ∙ v.word;
          part = room;
        })
    | inr many ↦
        let w = v.within in
        let k = 4 - s.read in
        let h : k ≤ length bytes = ground arith in
        let full = memcpy s.size s.read (take k bytes) in
        rw many (
          head_done-Sound s full (drop k bytes) (length bytes)
            (length-memcpy s.size s.read (take k bytes)
                (omega (arith, length-take k bytes, v.word, w, h))
              ∙ v.word)
            (omega (arith, length-drop k bytes)))
  ]
