-- ===== src/Netpack/Frames.antt =====
-- The packets of a stream of bytes: the specification of lua-netpack.c for one socket.
use sdy.Base.{
  ==→eq, ==→ne, Bool-cases, List, Option, [], ap, append-nil, append_assoc, arith, drop, false,
  if◌then◌else◌, inl, inr, length, length-append, ltb, ltb→lt, none, refl, some, suc, sym, take,
  true, zero, ℕ, ◌++◌, ◌+◌, ◌-◌, ◌<◌, ◌==◌, ◌∙◌, ◌∷◌, ◌≡◌, ◌≤◌,
}
use sdy.Netpack.{read_size}

-- What has come of the next packet: nothing, the first byte of its size, or its size and the bytes
-- `got` of its text.
pub data Pending : Type 0 where
  nothing : Pending
  first : ℕ → Pending
  body : ℕ → List ℕ → Pending

-- One byte more: the packet that it completes, and what is pending then.
abbrev pub next_byte : Pending → ℕ → Option (List ℕ) × Pending
next_byte nothing b = (none, first b)
next_byte (first hi) b =
    if read_size hi b == 0 then (some [], nothing) else (none, body (read_size hi b) [])
next_byte (body n got) b =
    if ltb (length (got ++ b ∷ [])) n
    then (none, body n (got ++ b ∷ []))
    else (some (got ++ b ∷ []), nothing)

abbrev pub cons_if : Option (List ℕ) → List (List ℕ) → List (List ℕ)
cons_if none ps = ps
cons_if (some p) ps = p ∷ ps

-- The packets that a stream completes, and what is pending after it.
unfoldable pub unframe : Pending → List ℕ → List (List ℕ) × Pending
unframe p [] = ([], p)
unframe p (b ∷ bs) =
    let one = next_byte p b in let rest = unframe one.1 bs in (cons_if one.0 rest.0, rest.1)

-- A packet, and then those of the rest of a stream.
abbrev pub then_frames : List ℕ → List ℕ → List (List ℕ) × Pending
then_frames p bs = (p ∷ (unframe nothing bs).0, (unframe nothing bs).1)

pub unframe-body_more :
    (n : ℕ) (got bs : List ℕ)
    → length got + length bs < n
    → unframe (body n got) bs ≡ ([], body n (got ++ bs))
unfolding unframe
unframe-body_more n got [] h = ap (λ xs. ([], body n xs)) (sym (append-nil got))
unframe-body_more n got (b ∷ bs) h =
    let m = length-append got (b ∷ []) in
    let few : ltb (length (got ++ b ∷ [])) n ≡ true = ground (arith, m, h) in
    rw few (
      unframe-body_more n (got ++ b ∷ []) bs (omega (arith, m, h))
      ∙ ap (λ xs. ([], body n xs)) (append_assoc got (b ∷ []) bs))

-- `k` bytes complete the packet.
pub unframe-body_done :
    (n k : ℕ) (got bs : List ℕ)
    → length got + suc k ≡ n
    → suc k ≤ length bs
    → unframe (body n got) bs ≡ then_frames (got ++ take (suc k) bs) (drop (suc k) bs)
unfolding unframe
unframe-body_done n k got [] h l = absurd (omega (arith, l))
unframe-body_done n zero got (b ∷ bs) h l =
    let m = length-append got (b ∷ []) in
    let full : ltb (length (got ++ b ∷ [])) n ≡ false = ground (arith, m, h) in rw full refl
unframe-body_done n (suc k) got (b ∷ bs) h l =
    let m = length-append got (b ∷ []) in
    let few : ltb (length (got ++ b ∷ [])) n ≡ true = ground (arith, m, h) in
    rw few (
      unframe-body_done n k (got ++ b ∷ []) bs (omega (arith, m, h)) (omega (arith, l))
      ∙ ap (λ xs. then_frames xs (drop (suc k) bs)) (append_assoc got (b ∷ []) (take (suc k) bs)))

-- The same with the count written as a difference.
pub unframe-body :
    (n : ℕ) (got bs : List ℕ)
    → length got < n
    → n - length got ≤ length bs
    → unframe (body n got) bs
      ≡ then_frames (got ++ take (n - length got) bs) (drop (n - length got) bs)
unframe-body n got bs h l =
    let k = n - length got - 1 in
    let e : n - length got ≡ suc k = omega (arith, h) in
    unframe-body_done n k got bs (omega (arith, h)) (omega (arith, h, l))
    ∙ ap (λ (j : ℕ). then_frames (got ++ take j bs) (drop j bs)) (sym e)

-- A stream that begins with a packet's size.
pub unframe-nothing :
    (hi lo : ℕ) (bs : List ℕ)
    → unframe nothing (hi ∷ lo ∷ bs) ≡ (
        if ltb (length bs) (read_size hi lo)
        then ([], body (read_size hi lo) bs)
        else then_frames (take (read_size hi lo) bs) (drop (read_size hi lo) bs))
unfolding unframe
unframe-nothing hi lo bs =
    let n = read_size hi lo in
    elim (Bool-cases (n == 0)) [
      | inl e ↦
          let z = ==→eq n 0 e in
          let big : ltb (length bs) n ≡ false = ground arith in
          rw (e, big) (ap (λ (j : ℕ). then_frames (take j bs) (drop j bs)) (sym z))
      | inr e ↦ rw e (elim (Bool-cases (ltb (length bs) n)) [
        | inl f ↦ rw f (unframe-body_more n [] bs (omega (arith, ltb→lt (length bs) n f)))
        | inr f ↦
            let ne = ==→ne n 0 e in
            rw f (
              unframe-body n [] bs (omega (arith, ne)) (ground arith)
              ∙ ap (λ (j : ℕ). then_frames (take j bs) (drop j bs)) {x = n - 0} {y = n}
                  (omega arith))
      ])
    ]
