-- ===== src/Timer/Update.antt =====
-- Every tick of the wheel of skynet_timer.c hands out exactly the nodes whose time has come.
use sdy.Base.{
  ==→eq, Bool, Bool-cases, Option, ap, arith, bit_and, false, if◌then◌else◌, inl, inr, none, refl,
  some, subst, sym, true, ℕ, ◌%◌, ◌/◌, ◌<◌, ◌==◌, ◌^◌, ◌↔◌, ◌∙◌, ◌≡◌, ◌≤◌, ◌⊎◌,
}
use sdy.Timer.{
  Node, Place, near, level, Timer, same_place, place_of, move_list, moved_place, move_if,
  timer_shift,
}
use sdy.Timer.Places.{ticks, next_time, place_at-near, place_of-next}
use sdy.Timer.Lists.{
  same_place→eq, same_place_refl, same_place→ne, In, move_list-time, move_list-In,
}
use sdy.Base.Bits.{bit_and_mask}
use sdy.Timer.Words.{place_at, place_of-eq}

-- A node that the wheel holds.
abbrev pub Holds : Timer → Node → Type 0
Holds T n = (p : Place) × In T p n

-- Between two calls every node waits in its list, for less than 2 ^ 31 ticks and at least one.
pub record IsValid (T : Timer) : Type 0 where
  pub word : T.time < 2 ^ 32
  pub placed : (p : Place) (n : Node) → In T p n → place_of T.time n.expire ≡ p
  pub pending :
      (p : Place) (n : Node)
      → In T p n
      → (n.expire < 2 ^ 32) × (1 ≤ ticks T.time n.expire) × (ticks T.time n.expire < 2 ^ 31)

abbrev pub now_place : ℕ → Place
now_place t = near (bit_and t 255)

far_place :
    (b c d : Bool) (i j k l m : ℕ)
    → same_place
        (if b then level 0 i else if c then level 1 j else if d then level 2 k else level 3 l)
        (near m)
      ≡ false
far_place true c d i j k l m = refl
far_place false true d i j k l m = refl
far_place false false true i j k l m = refl
far_place false false false i j k l m = refl

near_index : Place → ℕ
near_index (near i) = i
near_index (level l i) = 0

place_at-now : (t e : ℕ) → place_at t e ≡ near (t % 2 ^ 8) → e ≡ t
unfolding near_index
place_at-now t e h = elim (Bool-cases (e / 2 ^ 8 == t / 2 ^ 8)) [
  | inl b ↦
      let q = ==→eq (e / 2 ^ 8) (t / 2 ^ 8) b in
      let i : e % 2 ^ 8 ≡ t % 2 ^ 8 = ap near_index (sym (place_at-near t e q) ∙ h) in
      omega (arith, q, i)
  | inr b ↦
      let w : same_place (place_at t e) (near (t % 2 ^ 8)) ≡ false =
        rw b (far_place _ _ _ _ _ _ _ _) in
      let u : same_place (place_at t e) (near (t % 2 ^ 8)) ≡ true =
        ap (λ (x : Place). same_place x (near (t % 2 ^ 8))) h
        ∙ same_place_refl (near (t % 2 ^ 8)) in
      absurd (cc)
]

-- The nodes at the current place are those that expire now.
pub now_place_iff : (t e : ℕ) → (place_of t e ≡ now_place t) ↔ (e ≡ t)
now_place_iff t e =
    let low : now_place t ≡ near (t % 2 ^ 8) = ap near (bit_and_mask t 8) in
    (
      λ h. place_at-now t e (sym (place_of-eq t e) ∙ h ∙ low),
      λ h.
          place_of-eq t e
          ∙ place_at-near t e (ap (λ (x : ℕ). x / 2 ^ 8) h)
          ∙ ap (λ (x : ℕ). near (x % 2 ^ 8)) h
          ∙ sym low,
    )

moved_some : (o : Option Place) (p q : Place) → o ≡ some p → o ≡ some q → p ≡ q
moved_some o p q e h = cc

Goes : Timer → Node → Type 0
Goes T n =
    (place_of (next_time T.time) n.expire ≡ place_of T.time n.expire)
    ⊎ (moved_place (next_time T.time) ≡ some (place_of T.time n.expire))

node-Goes : (T : Timer) (p : Place) (n : Node) → IsValid T → In T p n → Goes T n
unfolding Goes
node-Goes T p n v a = let w = v.pending p n a in place_of-next T.time n.expire v.word w.0 w.1 w.2

-- The nodes of the shifted wheel, by the list that is moved.
Shifted : Timer → Timer → Place → Node → Type 0
Shifted T U q n = In U q n ↔ (Holds T n × (place_of (next_time T.time) n.expire ≡ q))

shift_none :
    (T : Timer) (q : Place) (n : Node)
    → IsValid T
    → moved_place (next_time T.time) ≡ none
    → Shifted T (record T { time = next_time T.time }) q n
unfolding Shifted Goes
shift_none T q n v o = (
  λ a. elim (node-Goes T q n v a) [ inl e ↦ ((q, a), e ∙ v.placed q n a) | inr e ↦ absurd (cc) ],
  λ b. elim (node-Goes T b.0.0 n v b.0.1) [
    | inl e ↦
        let same = sym (v.placed b.0.0 n b.0.1) ∙ sym e ∙ b.1 in
        subst (λ (p : Place). In T p n) same b.0.1
    | inr e ↦ absurd (cc)
  ],
)

shift_some :
    (T : Timer) (r q : Place) (n : Node)
    → IsValid T
    → moved_place (next_time T.time) ≡ some r
    → Shifted T (move_list (record T { time = next_time T.time }) r) q n
unfolding Shifted Goes
shift_some T r q n v o =
    let (f, g) = move_list-In (record T { time = next_time T.time }) r q n in
    (
      λ a. elim (f a) [
        | inl b ↦ elim (node-Goes T q n v b.0) [
          | inl e ↦ ((q, b.0), e ∙ v.placed q n b.0)
          | inr e ↦ absurd (b.1 (moved_some _ r q o (e ∙ ap some (v.placed q n b.0))))
        ]
        | inr b ↦ ((r, b.0), b.1)
      ],
      λ b. elim (node-Goes T b.0.0 n v b.0.1) [
        | inl e ↦
            let same = sym (v.placed b.0.0 n b.0.1) ∙ sym e ∙ b.1 in
            let a = subst (λ (p : Place). In T p n) same b.0.1 in
            elim (Bool-cases (same_place r q)) [
              | inl t ↦ g (inr (subst (λ (p : Place). In T p n) (sym (same_place→eq r q t)) a, b.1))
              | inr t ↦ g (inl (a, same_place→ne r q t))
            ]
        | inr e ↦
            let at_r = moved_some _ b.0.0 r (e ∙ ap some (v.placed b.0.0 n b.0.1)) o in
            g (inr (subst (λ (p : Place). In T p n) at_r b.0.1, b.1))
      ],
    )

shift_by :
    (T : Timer) (q : Place) (n : Node) (o : Option Place)
    → IsValid T
    → moved_place (next_time T.time) ≡ o
    → Shifted T (move_if (record T { time = next_time T.time }) o) q n
shift_by T q n none v e = shift_none T q n v e
shift_by T q n (some r) v e = shift_some T r q n v e

-- After the shift each node stands where it belongs at the new time.
pub timer_shift-In :
    (T : Timer) (q : Place) (n : Node)
    → IsValid T
    → In (timer_shift T) q n ↔ (Holds T n × (place_of (next_time T.time) n.expire ≡ q))
unfolding timer_shift Shifted
timer_shift-In T q n v = shift_by T q n (moved_place (next_time T.time)) v refl

shift_time : (T : Timer) (o : Option Place) (t : ℕ) → (move_if (record T { time = t }) o).time ≡ t
shift_time T none t = refl
shift_time T (some r) t = move_list-time (record T { time = t }) r

pub timer_shift-time : (T : Timer) → (timer_shift T).time ≡ next_time T.time
unfolding timer_shift
timer_shift-time T = shift_time T (moved_place (next_time T.time)) (next_time T.time)
