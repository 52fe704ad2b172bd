-- ===== src/Harbor/Collect.antt =====
-- The specification of a connection of service_harbor.c on many bytes at a time.
use sdy.Base.{
  Bool, List, Option-cases, [], ap, append-nil, append_assoc, arith, drop, false, fun_ext, inl, inr,
  length, length-append, length-take, ltb, none, refl, some, sym, take, take-append-drop, true, ℕ,
  ◌++◌, ◌+◌, ◌-◌, ◌<◌, ◌>>=◌, ◌∙◌, ◌∷◌, ◌≡◌, ◌≤◌,
}
use sdy.Harbor.{Effect}
use sdy.Harbor.Peer.{Status}
use sdy.Harbor.Machine.{
  Part, head_part, body_part, Rx, awaits, deaf, View, Result, to_rx, complete, feed, then_do, feeds,
}

pub then_do_pure : (v : View) (f : View → Result) → then_do (some ([], v)) f ≡ f v
then_do_pure v f = elim (Option-cases (f v)) [ inl e ↦ rw e refl | inr e ↦ rw (e.1) refl ]

pub then_do_id : (r : Result) → then_do r (λ w. some ([], w)) ≡ r
then_do_id none = refl
then_do_id (some (es, w)) = ap (λ fs. some (fs, w)) (append-nil es)

assoc_by :
    (es : List Effect) (r : Result) (g : View → Result)
    → (then_do r g >>= λ q. some (es ++ q.0, q.1)) ≡ then_do (r >>= λ q. some (es ++ q.0, q.1)) g
assoc_by es none g = refl
assoc_by es (some (fs, w)) g = elim (Option-cases (g w)) [
  | inl e ↦ rw e refl
  | inr e ↦ rw (e.1) (ap (λ xs. some (xs, e.0.1)) (sym (append_assoc es fs e.0.0)))
]

pub then_do_assoc :
    (r : Result) (f g : View → Result) → then_do r (λ w. then_do (f w) g) ≡ then_do (then_do r f) g
then_do_assoc none f g = refl
then_do_assoc (some (es, v)) f g = assoc_by es (f v) g

module _ (found : ℕ → Bool) (self id : ℕ) where
  -- A stream in two pieces.
  pub feeds-append :
      (v : View) (xs ys : List ℕ)
      → feeds found self id v (xs ++ ys)
        ≡ then_do (feeds found self id v xs) (λ w. feeds found self id w ys)
  unfolding feeds
  feeds-append v [] ys = sym (then_do_pure v (λ w. feeds found self id w ys))
  feeds-append v (x ∷ xs) ys =
      ap (λ (f : View → Result). then_do (feed found self id v x) f)
        (fun_ext (λ w. feeds-append w xs ys))
      ∙ then_do_assoc (feed found self id v x) (λ w. feeds found self id w xs)
          (λ w. feeds found self id w ys)

  pub feeds-deaf :
      (v : View) (s : Status) (bs : List ℕ)
      → feeds found self id (to_rx v (deaf s)) bs ≡ some ([], to_rx v (deaf s))
  unfolding feeds
  feeds-deaf v s [] = refl
  feeds-deaf v s (b ∷ bs) =
      then_do_pure (to_rx v (deaf s)) (λ w. feeds found self id w bs) ∙ feeds-deaf v s bs

  -- Too few bytes for a part are kept.
  pub collect_more :
      (v : View) (c : Part) (want : ℕ) (got bs : List ℕ)
      → length got + length bs < want
      → feeds found self id (to_rx v (awaits c want got)) bs
        ≡ some ([], to_rx v (awaits c want (got ++ bs)))
  unfolding feeds
  collect_more v c want got [] h =
      ap (λ xs. some ([], to_rx v (awaits c want xs))) (sym (append-nil got))
  collect_more v c want got (b ∷ bs) h =
      let n = length-append got (b ∷ []) in
      let few : ltb (length (got ++ b ∷ [])) want ≡ true = ground (arith, n, h) in
      let one : feed found self id (to_rx v (awaits c want got)) b
          ≡ some ([], to_rx v (awaits c want (got ++ b ∷ []))) =
        rw few refl in
      rw one (
        then_do_pure (to_rx v (awaits c want (got ++ b ∷ []))) (λ w. feeds found self id w bs)
        ∙ collect_more v c want (got ++ b ∷ []) bs (omega (arith, n, h))
        ∙ ap (λ xs. some ([], to_rx v (awaits c want xs))) (append_assoc got (b ∷ []) bs))

  complete-to_rx :
      (v : View) (r : Rx) (c : Part) (got : List ℕ)
      → complete found self (to_rx v r) c got ≡ complete found self v c got
  complete-to_rx v r head_part got = refl
  complete-to_rx v r body_part got = refl

  -- The last bytes of a part complete it.
  pub collect_done :
      (v : View) (c : Part) (want : ℕ) (got bs : List ℕ)
      → length got < want
      → length got + length bs ≡ want
      → feeds found self id (to_rx v (awaits c want got)) bs ≡ complete found self v c (got ++ bs)
  unfolding feeds
  collect_done v c want got [] p h = absurd (omega (arith, p, h))
  collect_done v c want got (b ∷ []) p h =
      let n = length-append got (b ∷ []) in
      let full : ltb (length (got ++ b ∷ [])) want ≡ false = ground (arith, n, h) in
      let one : feed found self id (to_rx v (awaits c want got)) b
          ≡ complete found self v c (got ++ b ∷ []) =
        rw full (complete-to_rx v (awaits c want got) c (got ++ b ∷ [])) in
      rw one (then_do_id (complete found self v c (got ++ b ∷ [])))
  collect_done v c want got (b ∷ b2 ∷ bs) p h =
      let n = length-append got (b ∷ []) in
      let few : ltb (length (got ++ b ∷ [])) want ≡ true = ground (arith, n, h) in
      let one : feed found self id (to_rx v (awaits c want got)) b
          ≡ some ([], to_rx v (awaits c want (got ++ b ∷ []))) =
        rw few refl in
      rw one (
        then_do_pure (to_rx v (awaits c want (got ++ b ∷ [])))
          (λ w. feeds found self id w (b2 ∷ bs))
        ∙ collect_done v c want (got ++ b ∷ []) (b2 ∷ bs) (omega (arith, n, h))
            (omega (arith, n, h))
        ∙ ap (complete found self v c) (append_assoc got (b ∷ []) (b2 ∷ bs)))

  -- A part that ends within a piece of the stream.
  pub collect_cut :
      (v : View) (c : Part) (want : ℕ) (got bs : List ℕ)
      → length got < want
      → want ≤ length got + length bs
      → feeds found self id (to_rx v (awaits c want got)) bs
        ≡ then_do
            (complete found self v c (got ++ take (want - length got) bs))
            (λ w. feeds found self id w (drop (want - length got) bs))
  collect_cut v c want got bs p h =
      let k = want - length got in
      ap (feeds found self id (to_rx v (awaits c want got))) (sym (take-append-drop k bs))
      ∙ feeds-append (to_rx v (awaits c want got)) (take k bs) (drop k bs)
      ∙ ap (λ (r : Result). then_do r (λ w. feeds found self id w (drop k bs)))
          (collect_done v c want got (take k bs) p (omega (arith, length-take k bs, p, h)))
