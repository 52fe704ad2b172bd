-- ===== src/GlobalMq/Schedule/Members.antt =====
-- Who holds a queue of skynet_mq.c, before and after a step.
use sdy.Base.{
  ==→eq, ==→ne, Among, Bool-cases, List, [], ap, inl, inr, subst, sym, ℕ, ◌++◌, ◌==◌, ◌↔◌, ◌∙◌, ◌∷◌,
  ◌≡◌, ◌≢◌, ◌⊎◌,
}
use sdy.Mq.{Mq}
use sdy.GlobalMq.Chain.{Distinct, Among-append, Among-append_left, Among-last, unlinked}
use sdy.GlobalMq.Frame.{contents-unlinked}
use sdy.GlobalMq.Schedule.{remove, Known}

pub Among-remove : (a b : ℕ) (xs : List ℕ) → Among b (remove a xs) ↔ (Among b xs × (a ≢ b))
unfolding remove
Among-remove a b [] = ((λ m. absurd m), λ p. p.0)
Among-remove a b (x ∷ xs) = elim (Bool-cases (a == x)) [
  | inl e ↦ rw e (
    λ m. (inr ((Among-remove a b xs).0 m).0, ((Among-remove a b xs).0 m).1),
    λ (m, n). elim m [
      | inl q ↦ absurd (n (==→eq a x e ∙ sym q))
      | inr r ↦ (Among-remove a b xs).1 (r, n)
    ],
  )
  | inr e ↦ rw e (
    λ m. elim m [
      | inl q ↦ (inl q, λ t. ==→ne a x e (t ∙ q))
      | inr r ↦ (inr ((Among-remove a b xs).0 r).0, ((Among-remove a b xs).0 r).1)
    ],
    λ (m, n). elim m [ inl q ↦ inl q | inr r ↦ inr ((Among-remove a b xs).1 (r, n)) ],
  )
]

pub Distinct-remove : (a : ℕ) (xs : List ℕ) → Distinct xs → Distinct (remove a xs)
unfolding remove
Distinct-remove a [] d = tt
Distinct-remove a (x ∷ xs) d = elim (Bool-cases (a == x)) [
  | inl e ↦ rw e (Distinct-remove a xs d.1)
  | inr e ↦ rw e (λ m. d.0 ((Among-remove a x xs).0 m).0, Distinct-remove a xs d.1)
]

-- Who holds a queue before and after it goes back to the global queue.
pub held_back :
    (a b : ℕ) (xs ys : List ℕ)
    → Among a ys
    → (Among b xs ⊎ Among b ys) ↔ (Among b (xs ++ a ∷ []) ⊎ Among b (remove a ys))
held_back a b xs ys h = (
  elim [
    | inl m ↦ inl (Among-append_left b xs (a ∷ []) m)
    | inr m ↦ elim (Bool-cases (a == b)) [
      | inl e ↦ inl (subst (λ k. Among k (xs ++ a ∷ [])) (==→eq a b e) (Among-last a xs))
      | inr e ↦ inr ((Among-remove a b ys).1 (m, ==→ne a b e))
    ]
  ],
  elim [
    | inl m ↦ elim (Among-append b xs (a ∷ []) m) [
      | inl k ↦ inl k
      | inr k ↦ elim k [ inl q ↦ inr (subst (λ t. Among t ys) (sym q) h) | inr z ↦ absurd z ]
    ]
    | inr m ↦ inr ((Among-remove a b ys).0 m).0
  ],
)

pub apart_back :
    (a b : ℕ) (xs ys : List ℕ)
    → ((k : ℕ) → Among k xs → Among k ys → ⊥)
    → Among b (xs ++ a ∷ [])
    → Among b (remove a ys)
    → ⊥
apart_back a b xs ys h m r = elim (Among-append b xs (a ∷ []) m) [
  | inl k ↦ h b k ((Among-remove a b ys).0 r).0
  | inr k ↦ elim k [ inl q ↦ ((Among-remove a b ys).0 r).1 (sym q) | inr z ↦ z ]
]

pub Known-map :
    (q r : Mq) (h k : Type 0) → unlinked r ≡ unlinked q → (h → k) → (k → h) → Known q h → Known r k
Known-map q r h k e f g (inl p) = inl (ap (λ (x : Mq). x.in_global) e ∙ p.0, f p.1)
Known-map q r h k e f g (inr p) =
    inr (ap (λ (x : Mq). x.in_global) e ∙ p.0, contents-unlinked q r e ∙ p.1, λ x. p.2 (g x))
