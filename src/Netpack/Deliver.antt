-- ===== src/Netpack/Deliver.antt =====
-- What a gate dispatches of the streams of its sockets by lua-netpack.c.
use sdy.Netpack.{NetPack, Queue, new_queue, chain_take, read_size, lpack}
use sdy.Netpack.Frames.{Pending, nothing, next_byte, cons_if, unframe, unframe-nothing}
use sdy.Netpack.Chains.{pending_of}
use sdy.Netpack.Filter.{packs}
use sdy.Netpack.Serve.{serve_all, Served, serve_lem, new_queue-Served}
use sdy.Base.{
  ==_refl, ==→eq, ==→ne, Bool-cases, List, Option, Option-cases, [], ap, ap₂, arith, drop-append,
  false, if◌then◌else◌, inl, inr, leb, length, length-append, ltb, ne→==, none, refl, some,
  some-eq_iff, suc, sym, take-append, ℕ, ◌%◌, ◌++◌, ◌/◌, ◌<◌, ◌==◌, ◌>>=◌, ◌^◌, ◌∙◌, ◌∷◌, ◌≡◌, ◌≢◌,
  ◌≤◌,
}

-- The bytes that a socket sends.
abbrev pub sent_by : ℕ → List (ℕ × List ℕ) → List ℕ
sent_by f [] = []
sent_by f ((fd, bytes) ∷ inputs) = if fd == f then bytes ++ sent_by f inputs else sent_by f inputs

-- No call is for no bytes.
abbrev pub Inputs : List (ℕ × List ℕ) → Type 0
Inputs [] = ◌≡◌ {A = ℕ} 0 0
Inputs ((fd, bytes) ∷ inputs) = (1 ≤ length bytes) × Inputs inputs

-- The texts of the packets of a socket.
abbrev pub texts_of : ℕ → List NetPack → List (List ℕ)
texts_of f [] = []
texts_of f (p ∷ ps) = if p.id == f then p.buffer ∷ texts_of f ps else texts_of f ps

texts_of-append :
    (f : ℕ) (ps qs : List NetPack) → texts_of f (ps ++ qs) ≡ texts_of f ps ++ texts_of f qs
texts_of-append f [] qs = refl
texts_of-append f (p ∷ ps) qs = elim (Bool-cases (p.id == f)) [
  | inl e ↦ rw e (ap (◌∷◌ p.buffer) (texts_of-append f ps qs))
  | inr e ↦ rw e (texts_of-append f ps qs)
]

texts_of-packs : (f : ℕ) (ts : List (List ℕ)) → texts_of f (packs f ts) ≡ ts
texts_of-packs f [] = refl
texts_of-packs f (t ∷ ts) = rw (==_refl f) (ap (◌∷◌ t) (texts_of-packs f ts))

texts_of_other : (f fd : ℕ) (ts : List (List ℕ)) → fd ≢ f → texts_of f (packs fd ts) ≡ []
texts_of_other f fd [] ne = refl
texts_of_other f fd (t ∷ ts) ne = rw (ne→== fd f ne) (texts_of_other f fd ts ne)

unframe-append :
    (p : Pending) (xs ys : List ℕ)
    → (unframe p (xs ++ ys)).0 ≡ (unframe p xs).0 ++ (unframe (unframe p xs).1 ys).0
unfolding unframe
unframe-append p [] ys = refl
unframe-append p (x ∷ xs) ys =
    ap (cons_if (next_byte p x).0) (unframe-append (next_byte p x).1 xs ys)
    ∙ cons_if-append (next_byte p x).0 (unframe (next_byte p x).1 xs).0 _
  where
    cons_if-append :
        (o : Option (List ℕ)) (us vs : List (List ℕ)) → cons_if o (us ++ vs) ≡ cons_if o us ++ vs
    cons_if-append none us vs = refl
    cons_if-append (some a) us vs = refl

-- For what the sockets send to a valid queue without packets, in non-empty pieces and in any order,
-- the gate dispatches of each socket `f` exactly the packets that its own bytes complete, in order,
-- after what was pending for it. The queue is valid and without packets again.
pub serve_all_lem :
    (q : Queue) (f : ℕ) (inputs : List (ℕ × List ℕ))
    → Served q
    → Inputs inputs
    → (ps : List NetPack) × (next : Queue) × (serve_all q inputs ≡ some (ps, next))
      × Served next
      × (texts_of f ps ≡ (unframe (pending_of q f) (sent_by f inputs)).0)
unfolding serve_all
serve_all_lem q f [] s h = ([], q, refl, s, unfold unframe in refl)
serve_all_lem q f ((fd, bytes) ∷ inputs) s h = elim (Bool-cases (fd == f)) [
  | inl e ↦
      let same = ==→eq fd f e in
      let one = serve_lem q fd (suc fd) bytes s (omega arith) h.0 in
      let ih = serve_all_lem one.0 f inputs one.2 h.1 in
      let frames = unframe (pending_of q fd) bytes in
      rw (one.1, ih.2, e)
        (
          packs fd frames.0 ++ ih.0,
          ih.1,
          refl,
          ih.3,
          texts_of-append f (packs fd frames.0) ih.0
              ∙ ap₂ (λ (xs ys : List (List ℕ)). xs ++ ys)
                  (ap (λ (k : ℕ). texts_of f (packs k frames.0)) same ∙ texts_of-packs f frames.0)
                  (ih.4
                    ∙ ap (λ p. (unframe p (sent_by f inputs)).0)
                        (ap (pending_of one.0) (sym same) ∙ one.3))
              ∙ sym (unframe-append (pending_of q fd) bytes (sent_by f inputs))
              ∙ ap (λ (k : ℕ). (unframe (pending_of q k) (bytes ++ sent_by f inputs)).0) same,
        )
  | inr e ↦
      let other = ==→ne fd f e in
      let one = serve_lem q fd f bytes s (λ w. other (sym w)) h.0 in
      let ih = serve_all_lem one.0 f inputs one.2 h.1 in
      let frames = unframe (pending_of q fd) bytes in
      rw (one.1, ih.2, e)
        (
          packs fd frames.0 ++ ih.0,
          ih.1,
          refl,
          ih.3,
          texts_of-append f (packs fd frames.0) ih.0
              ∙ ap (λ (xs : List (List ℕ)). xs ++ texts_of f ih.0)
                  (texts_of_other f fd frames.0 other)
              ∙ ih.4
              ∙ ap (λ p. (unframe p (sent_by f inputs)).0) one.4,
        )
]

-- The bytes that `lpack` makes of texts; `none` if one of them is too long.
abbrev pub packed : List (List ℕ) → Option (List ℕ)
packed [] = some []
packed (t ∷ ts) = lpack t >>= λ x. packed ts >>= λ y. some (x ++ y)

packed_by :
    (t : List ℕ) (ts : List (List ℕ)) (bytes : List ℕ)
    → packed (t ∷ ts) ≡ some bytes
    → (rest : List ℕ) × (packed ts ≡ some rest)
      × (length t < 65536)
      × (length t / 2 ^ 8 % 256 ∷ length t % 256 ∷ (t ++ rest) ≡ bytes)
unfolding lpack
packed_by t ts bytes e = elim (Bool-cases (leb 65536 (length t))) [
  | inl long ↦ let w : none ≡ some bytes = rw long at e in absurd (cc)
  | inr short ↦ elim (Option-cases (packed ts)) [
    | inl n ↦ let w : none ≡ some bytes = rw (short, n) at e in absurd (cc)
    | inr r ↦ (r.0, r.1, ground arith, (some-eq_iff _ bytes).0 (rw (short, r.1) at e))
  ]
]

-- Unframing what was packed.
unframe-packed :
    (ts : List (List ℕ)) (bytes : List ℕ)
    → packed ts ≡ some bytes
    → unframe nothing bytes ≡ (ts, nothing)
unframe-packed [] bytes e =
    unfold unframe in ap (unframe nothing) (sym ((some-eq_iff [] bytes).0 e))
unframe-packed (t ∷ ts) bytes e =
    let (rest, p, short, w) = packed_by t ts bytes e in
    let size : read_size (length t / 2 ^ 8 % 256) (length t % 256) ≡ length t =
      omega (arith, short) in
    let enough : ltb (length (t ++ rest)) (length t) ≡ false =
      ground (arith, length-append t rest) in
    ap (unframe nothing) (sym w)
    ∙ unframe-nothing (length t / 2 ^ 8 % 256) (length t % 256) (t ++ rest)
    ∙ rw (size, enough, take-append t rest, drop-append t rest, unframe-packed ts rest p) refl

-- When what the socket `f` sends is texts packed by `lpack`, however it is cut into non-empty pieces
-- and mixed with those of other sockets, a gate with a new queue dispatches for `f` exactly those
-- texts, in order.
pub packets_delivered :
    (f : ℕ) (texts : List (List ℕ)) (inputs : List (ℕ × List ℕ))
    → Inputs inputs
    → packed texts ≡ some (sent_by f inputs)
    → (ps : List NetPack) × (next : Queue) × (serve_all new_queue inputs ≡ some (ps, next))
      × (texts_of f ps ≡ texts)
packets_delivered f texts inputs h p =
    let s = serve_all_lem new_queue f inputs new_queue-Served h in
    let start : pending_of new_queue f ≡ nothing = unfold pending_of new_queue chain_take in refl in
    (
      s.0,
      s.1,
      s.2,
      s.4
          ∙ ap (λ p. (unframe p (sent_by f inputs)).0) start
          ∙ ap (λ x. x.0) (unframe-packed texts (sent_by f inputs) p),
    )
