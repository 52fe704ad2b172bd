-- ===== src/Timer/Lists.antt =====
-- The nodes that the wheel of skynet_timer.c holds, through its list operations.
use sdy.Base.{
  ==_refl, ==→eq, Among, Bool-cases, List, [], ap, ap₂, arith, false, inl, inr, refl, subst, sym,
  true, ℕ, ◌++◌, ◌↔◌, ◌∙◌, ◌∷◌, ◌≡◌, ◌≢◌, ◌⊎◌,
}
use sdy.Timer.{
  Node, Place, near, level, Timer, same_place, set_list, link_clear, link, place_of, add_node,
  add_all, move_list,
}

pub Among-append_iff :
    {A : Type 0} (a : A) (xs ys : List A) → Among a (xs ++ ys) ↔ (Among a xs ⊎ Among a ys)
Among-append_iff a [] ys = (λ m. inr m, elim [ inl m ↦ absurd m | inr m ↦ m ])
Among-append_iff a (x ∷ xs) ys =
    let (f, g) = Among-append_iff a xs ys in
    (
      elim [ inl e ↦ inl (inl e) | inr m ↦ elim (f m) [ inl p ↦ inl (inr p) | inr q ↦ inr q ] ],
      elim [ inl p ↦ elim p [ inl e ↦ inl e | inr m ↦ inr (g (inl m)) ] | inr q ↦ inr (g (inr q)) ],
    )

pub same_place→eq : (p q : Place) → same_place p q ≡ true → p ≡ q
same_place→eq (near i) (near j) e = ap near (==→eq i j e)
same_place→eq (near i) (level k j) e = absurd (cc)
same_place→eq (level l i) (near j) e = absurd (cc)
same_place→eq (level l i) (level k j) e =
    let both : (l ≡ k) × (i ≡ j) = ground arith in ap₂ level both.0 both.1

pub same_place_refl : (p : Place) → same_place p p ≡ true
same_place_refl (near i) = ==_refl i
same_place_refl (level l i) = rw (==_refl l) (==_refl i)

pub same_place→ne : (p q : Place) → same_place p q ≡ false → p ≢ q
same_place→ne p q e h =
    let t : same_place p p ≡ false = ap (same_place p) h ∙ e in let u = same_place_refl p in cc

set_list-hit : (T : Timer) (p : Place) (ns : List Node) → (set_list T p ns).lists p ≡ ns
unfolding set_list
set_list-hit T p ns = rw (same_place_refl p) refl

set_list-miss :
    (T : Timer) (p q : Place) (ns : List Node)
    → same_place p q ≡ false
    → (set_list T p ns).lists q ≡ T.lists q
unfolding set_list
set_list-miss T p q ns e = rw e refl

-- A node is in a list of the wheel.
abbrev pub In : Timer → Place → Node → Type 0
In T p n = Among n (T.lists p)

link-In :
    (T : Timer) (p q : Place) (n m : Node) → In (link T p n) q m ↔ (In T q m ⊎ ((m ≡ n) × (p ≡ q)))
unfolding link
link-In T p q n m = elim (Bool-cases (same_place p q)) [
  | inl e ↦
      let s = same_place→eq p q e in
      let l : (set_list T p (T.lists p ++ n ∷ [])).lists q ≡ T.lists q ++ n ∷ [] =
        ap (λ (x : Place). (set_list T p (T.lists p ++ n ∷ [])).lists x) (sym s)
        ∙ set_list-hit T p (T.lists p ++ n ∷ [])
        ∙ ap (λ (x : Place). T.lists x ++ n ∷ []) s in
      let (f, g) = Among-append_iff m (T.lists q) (n ∷ []) in
      subst (λ (xs : List Node). Among m xs ↔ (In T q m ⊎ ((m ≡ n) × (p ≡ q)))) (sym l)
        (
          λ a. elim (f a) [
            | inl b ↦ inl b
            | inr b ↦ elim b [ inl c ↦ inr (c, s) | inr c ↦ absurd c ]
          ],
          elim [ inl b ↦ g (inl b) | inr b ↦ g (inr (inl b.0)) ],
        )
  | inr e ↦
      subst (λ (xs : List Node). Among m xs ↔ (In T q m ⊎ ((m ≡ n) × (p ≡ q))))
        (sym (set_list-miss T p q (T.lists p ++ n ∷ []) e))
        (λ a. inl a, elim [ inl b ↦ b | inr b ↦ absurd (same_place→ne p q e b.1) ])
]

pub link_clear-In :
    (T : Timer) (p q : Place) (m : Node) → In (link_clear T p) q m ↔ (In T q m × (p ≢ q))
unfolding link_clear
link_clear-In T p q m = elim (Bool-cases (same_place p q)) [
  | inl e ↦
      let s = same_place→eq p q e in
      let l : (set_list T p []).lists q ≡ [] =
        ap (λ (x : Place). (set_list T p []).lists x) (sym s) ∙ set_list-hit T p [] in
      subst (λ (xs : List Node). Among m xs ↔ (In T q m × (p ≢ q))) (sym l)
        (λ a. absurd a, λ b. absurd (b.1 s))
  | inr e ↦
      subst (λ (xs : List Node). Among m xs ↔ (In T q m × (p ≢ q))) (sym (set_list-miss T p q [] e))
        (λ a. (a, same_place→ne p q e), λ b. b.0)
]

pub add_node-In :
    (T : Timer) (q : Place) (n m : Node)
    → In (add_node T n) q m ↔ (In T q m ⊎ ((m ≡ n) × (place_of T.time n.expire ≡ q)))
unfolding add_node
add_node-In T q n m = link-In T (place_of T.time n.expire) q n m

pub add_all-time : (T : Timer) (ns : List Node) → (add_all T ns).time ≡ T.time
unfolding add_all add_node link set_list
add_all-time T [] = refl
add_all-time T (n ∷ ns) = add_all-time (add_node T n) ns

pub add_node-time : (T : Timer) (n : Node) → (add_node T n).time ≡ T.time
unfolding add_node link set_list
add_node-time T n = refl

pub add_all-In :
    (T : Timer) (q : Place) (ns : List Node) (m : Node)
    → In (add_all T ns) q m ↔ (In T q m ⊎ (Among m ns × (place_of T.time m.expire ≡ q)))
unfolding add_all
add_all-In T q [] m = (λ a. inl a, elim [ inl a ↦ a | inr b ↦ absurd b.0 ])
add_all-In T q (n ∷ ns) m =
    let (f, g) = add_all-In (add_node T n) q ns m in
    let (h, k) = add_node-In T q n m in
    let t = add_node-time T n in
    (
      λ a. elim (f a) [
        | inl b ↦ elim (h b) [
          | inl c ↦ inl c
          | inr c ↦ inr (inl c.0, ap (λ (x : Node). place_of T.time x.expire) c.0 ∙ c.1)
        ]
        | inr b ↦ inr (inr b.0, ap (λ (x : ℕ). place_of x m.expire) (sym t) ∙ b.1)
      ],
      elim [
        | inl a ↦ g (inl (k (inl a)))
        | inr b ↦ elim b.0 [
          | inl e ↦ g (inl (k (inr (e, ap (λ (x : Node). place_of T.time x.expire) (sym e) ∙ b.1))))
          | inr c ↦ g (inr (c, ap (λ (x : ℕ). place_of x m.expire) t ∙ b.1))
        ]
      ],
    )

link_clear-time : (T : Timer) (p : Place) → (link_clear T p).time ≡ T.time
unfolding link_clear set_list
link_clear-time T p = refl

pub move_list-time : (T : Timer) (p : Place) → (move_list T p).time ≡ T.time
unfolding move_list
move_list-time T p = add_all-time (link_clear T p) (T.lists p) ∙ link_clear-time T p

-- What `move_list` leaves: the other lists with the nodes of the moved one where they now belong.
pub move_list-In :
    (T : Timer) (p q : Place) (m : Node)
    → In (move_list T p) q m ↔ ((In T q m × (p ≢ q)) ⊎ (In T p m × (place_of T.time m.expire ≡ q)))
unfolding move_list
move_list-In T p q m =
    let (f, g) = add_all-In (link_clear T p) q (T.lists p) m in
    let (h, k) = link_clear-In T p q m in
    let t = link_clear-time T p in
    (
      λ a. elim (f a) [
        | inl b ↦ inl (h b)
        | inr b ↦ inr (b.0, ap (λ (x : ℕ). place_of x m.expire) (sym t) ∙ b.1)
      ],
      elim [
        | inl b ↦ g (inl (k b))
        | inr b ↦ g (inr (b.0, ap (λ (x : ℕ). place_of x m.expire) t ∙ b.1))
      ],
    )
