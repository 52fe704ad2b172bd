-- ===== src/Seri/Bytes.antt =====
-- The write blocks of lua-seri.c hold the pushed bytes in order, and `seri` copies all of them out.
use sdy.Base.{
  ==→eq, ==→ne, Bool-cases, List, [], ap, append-nil, append_assoc, ap₂, arith, drop, false, inl,
  inr, leb, leb→le, length, length-append, length-drop, length-take, refl, subst, suc, sym, take,
  take-append-drop, true, zero, ℕ, ◌++◌, ◌+◌, ◌-◌, ◌<◌, ◌==◌, ◌∙◌, ◌∷◌, ◌≡◌, ◌≤◌,
}
use sdy.Seri.Writer.{
  block_size, WriteBlock, wb_init, next_block, fresh_block, wb_copy, wb_push, concat, bytes,
  seri_copy, seri,
}

abbrev pub AllFull : List (List ℕ) → Type 0
AllFull [] = Unit
AllFull (x ∷ xs) = (length x ≡ block_size) × AllFull xs

-- Blocks before the current one are full, and `len` counts the bytes.
pub record IsValid (b : WriteBlock) : Type 0 where
  pub full : AllFull b.filled
  pub fits : length b.current ≤ block_size
  pub counted : b.len ≡ length (bytes b)

concat-snoc : (xs : List (List ℕ)) (y : List ℕ) → concat (xs ++ y ∷ []) ≡ concat xs ++ y
unfolding concat
concat-snoc [] y = append-nil y
concat-snoc (x ∷ xs) y = ap (◌++◌ x) (concat-snoc xs y) ∙ sym (append_assoc x (concat xs) y)

AllFull-snoc :
    (xs : List (List ℕ)) (y : List ℕ) → AllFull xs → length y ≡ block_size → AllFull (xs ++ y ∷ [])
AllFull-snoc [] y a e = (e, tt)
AllFull-snoc (x ∷ xs) y a e = (a.0, AllFull-snoc xs y a.1 e)

-- What a push must achieve.
abbrev pub Pushed : WriteBlock → List ℕ → WriteBlock → Type 0
Pushed b s c = IsValid c × (bytes c ≡ bytes b ++ s)

next_block-IsValid :
    (b : WriteBlock)
    → IsValid b
    → length b.current ≡ block_size
    → IsValid (next_block b) × (bytes (next_block b) ≡ bytes b)
unfolding next_block bytes
next_block-IsValid b v e =
    let same : concat (b.filled ++ b.current ∷ []) ++ [] ≡ concat b.filled ++ b.current =
      append-nil _ ∙ concat-snoc b.filled b.current in
    (
      record {
        full = AllFull-snoc b.filled b.current v.full e;
        fits = omega arith;
        counted = v.counted ∙ sym (ap length same);
      },
      same,
    )

next_block-empty : (b : WriteBlock) → length (next_block b).current < block_size
unfolding next_block
next_block-empty b = omega arith

append-IsValid :
    (b : WriteBlock) (s : List ℕ)
    → IsValid b
    → length b.current + length s ≤ block_size
    → Pushed b s (record b { current = b.current ++ s; len = b.len + length s })
unfolding bytes
append-IsValid b s v h =
    let same : concat b.filled ++ (b.current ++ s) ≡ (concat b.filled ++ b.current) ++ s =
      sym (append_assoc (concat b.filled) b.current s) in
    (
      record {
        full = v.full;
        fits = omega (arith, length-append b.current s);
        counted =
            omega
              (arith, v.counted, ap length same, length-append (concat b.filled ++ b.current) s);
      },
      same,
    )

wb_copy-Pushed :
    (fuel : ℕ) (b : WriteBlock) (s : List ℕ)
    → IsValid b
    → (length b.current < block_size)
    → length s < fuel
    → Pushed b s (wb_copy fuel b s)
unfolding wb_copy
wb_copy-Pushed zero b s v h f = absurd (omega arith)
wb_copy-Pushed (suc fuel) b s v h f =
    let room = block_size - length b.current in
    elim (Bool-cases (leb (length s) room)) [
      | inl e ↦ rw e (append-IsValid b s v (omega (arith, leb→le (length s) room e)))
      | inr e ↦
          let more : room < length s = ground arith in
          let c = record b { current = b.current ++ take room s; len = b.len + room } in
          let lt = length-take room s in
          let lc = length-append b.current (take room s) in
          let first = append-IsValid b (take room s) v (omega (arith, lt)) in
          let same : b.len + length (take room s) ≡ b.len + room = omega (arith, lt) in
          let w : Pushed b (take room s) c =
            subst
              (λ (n : ℕ).
                Pushed b (take room s) (record b { current = b.current ++ take room s; len = n }))
              same first in
          let n = next_block-IsValid c w.0 (omega (arith, lt, lc)) in
          let r =
            wb_copy-Pushed fuel (next_block c) (drop room s) n.0 (next_block-empty c)
              (omega (arith, length-drop room s)) in
          rw e (
            r.0,
            r.1
                ∙ ap (λ (t : List ℕ). t ++ drop room s) (n.1 ∙ w.1)
                ∙ append_assoc (bytes b) (take room s) (drop room s)
                ∙ ap (◌++◌ (bytes b)) (take-append-drop room s),
          )
    ]

-- `wb_push` on valid blocks adds the bytes at the end, over as many blocks as they need, and leaves
-- valid blocks.
pub wb_push-Pushed : (b : WriteBlock) (s : List ℕ) → IsValid b → Pushed b s (wb_push b s)
unfolding wb_push fresh_block
wb_push-Pushed b s v = elim (Bool-cases (length b.current == block_size)) [
  | inl e ↦
      let n = next_block-IsValid b v (==→eq _ _ e) in
      let r =
        wb_copy-Pushed (length s + 1) (next_block b) s n.0 (next_block-empty b) (omega arith) in
      rw e (r.0, r.1 ∙ ap (λ (t : List ℕ). t ++ s) n.1)
  | inr e ↦
      rw e (wb_copy-Pushed (length s + 1) b s v (omega (arith, v.fits, ==→ne _ _ e)) (omega arith))
]

pub wb_init-IsValid : IsValid wb_init × (bytes wb_init ≡ [])
unfolding wb_init bytes
wb_init-IsValid = (record { full = tt; fits = omega arith; counted = refl }, refl)

pub take-length : (xs : List ℕ) → take (length xs) xs ≡ xs
take-length [] = refl
take-length (x ∷ xs) = ap (◌∷◌ x) (take-length xs)

seri_copy-concat :
    (bs : List (List ℕ)) (last : List ℕ)
    → AllFull bs
    → seri_copy bs last (length (concat bs ++ last)) ≡ concat bs ++ last
unfolding seri_copy concat
seri_copy-concat [] last a = take-length last
seri_copy-concat (b ∷ bs) last a =
    let total = length ((b ++ concat bs) ++ last) in
    let rest = length (concat bs ++ last) in
    let sum : total ≡ block_size + rest = omega (
      arith,
      a.0,
      length-append (b ++ concat bs) last,
      length-append b (concat bs),
      length-append (concat bs) last,
    ) in
    let z : (total == 0) ≡ false = ground (arith, sum) in
    let g : leb block_size total ≡ true = ground (arith, sum) in
    let d : total - block_size ≡ rest = omega (arith, sum) in
    rw (z, g, d)
      (ap (λ (n : ℕ). take n b ++ seri_copy bs last rest) (sym a.0)
        ∙ ap₂ ◌++◌ (take-length b) (seri_copy-concat bs last a.1)
        ∙ sym (append_assoc b (concat bs) last))

-- `seri` of valid blocks copies out exactly the bytes that they hold.
pub seri-bytes : (b : WriteBlock) → IsValid b → seri b ≡ bytes b
unfolding seri bytes
seri-bytes b v =
    ap (seri_copy b.filled b.current) v.counted ∙ seri_copy-concat b.filled b.current v.full
