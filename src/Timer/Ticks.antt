-- ===== src/Timer/Ticks.antt =====
-- `timer_update` of skynet_timer.c, whole ticks, and adding a timer.
use sdy.Base.{Among, ap, arith, inl, inr, refl, subst, sym, ℕ, ◌<◌, ◌^◌, ◌↔◌, ◌∙◌, ◌≡◌, ◌≢◌, ◌≤◌}
use sdy.Timer.{
  Node, Place, Timer, set_list, link_clear, place_of, timer_shift, timer_execute, timer_update,
}
use sdy.Timer.Places.{ticks, next_time}
use sdy.Timer.Lists.{Among-append_iff, In, link_clear-In}
use sdy.Timer.Update.{Holds, IsValid, now_place, now_place_iff, timer_shift-In, timer_shift-time}

-- The wheel after the first `timer_execute`, after the shift, and after the second.
abbrev executed : Timer → Timer
executed T = link_clear T (now_place T.time)

abbrev shifted : Timer → Timer
shifted T = timer_shift (executed T)

abbrev after_update : Timer → Timer
after_update T = (timer_update T).1

executed-time : (T : Timer) → (executed T).time ≡ T.time
unfolding link_clear set_list
executed-time T = refl

shifted-time : (T : Timer) → (shifted T).time ≡ next_time T.time
shifted-time T = timer_shift-time (executed T) ∙ ap next_time (executed-time T)

pub update-time : (T : Timer) → (timer_update T).1.time ≡ next_time T.time
unfolding timer_update timer_execute link_clear set_list
update-time T = shifted-time T

module _ (T : Timer) (v : IsValid T) where
  -- No node waits in the current list.
  none_now : (n : Node) → In T (now_place T.time) n → ⊥
  none_now n a =
      let e = (now_place_iff T.time n.expire).0 (v.placed (now_place T.time) n a) in
      omega (arith, (v.pending (now_place T.time) n a).1, v.word, e)

  executed-In : (p : Place) (n : Node) → In (executed T) p n ↔ In T p n
  executed-In p n =
      let (f, g) = link_clear-In T (now_place T.time) p n in
      (λ a. (f a).0, λ a. g (a, λ e. none_now n (subst (λ (q : Place). In T q n) (sym e) a)))

  executed-IsValid : IsValid (executed T)
  executed-IsValid = record {
    word = subst (λ (t : ℕ). t < 2 ^ 32) (sym (executed-time T)) v.word;
    placed = λ p n a.
        ap (λ (t : ℕ). place_of t n.expire) (executed-time T)
        ∙ v.placed p n ((executed-In p n).0 a);
    pending = λ p n a.
        subst
          (λ (t : ℕ). (n.expire < 2 ^ 32) × (1 ≤ ticks t n.expire) × (ticks t n.expire < 2 ^ 31))
          (sym (executed-time T)) (v.pending p n ((executed-In p n).0 a));
  }

  shifted-In :
      (q : Place) (n : Node)
      → In (shifted T) q n ↔ (Holds T n × (place_of (next_time T.time) n.expire ≡ q))
  shifted-In q n =
      let (f, g) = timer_shift-In (executed T) q n executed-IsValid in
      let t = ap next_time (executed-time T) in
      (
        λ a.
            let b = f a in
            (
              (b.0.0, (executed-In b.0.0 n).0 b.0.1),
              ap (λ (x : ℕ). place_of x n.expire) (sym t) ∙ b.1,
            ),
        λ b.
            g ((b.0.0, (executed-In b.0.0 n).1 b.0.1), ap (λ (x : ℕ). place_of x n.expire) t ∙ b.1),
      )

  now_shifted : now_place (shifted T).time ≡ now_place (next_time T.time)
  now_shifted = ap now_place (shifted-time T)

  -- Exactly the nodes that expire at the new time are handed out.
  pub update-handed :
      (n : Node) → Among n (timer_update T).0 ↔ (Holds T n × (n.expire ≡ next_time T.time))
  unfolding timer_update timer_execute
  update-handed n =
      let (f, g) =
        Among-append_iff n (T.lists (now_place T.time))
          ((shifted T).lists (now_place (shifted T).time)) in
      let (h, k) = shifted-In (now_place (shifted T).time) n in
      let (x, y) = now_place_iff (next_time T.time) n.expire in
      (
        λ a. elim (f a) [
          | inl b ↦ absurd (none_now n b)
          | inr b ↦ ((h b).0, x ((h b).1 ∙ now_shifted))
        ],
        λ b. g (inr (k (b.0, y b.1 ∙ sym now_shifted))),
      )

  update-In :
      (q : Place) (n : Node)
      → In (timer_update T).1 q n
        ↔ (Holds T n × (place_of (next_time T.time) n.expire ≡ q) × (n.expire ≢ next_time T.time))
  unfolding timer_update timer_execute
  update-In q n =
      let (f, g) = link_clear-In (shifted T) (now_place (shifted T).time) q n in
      let (h, k) = shifted-In q n in
      let (x, y) = now_place_iff (next_time T.time) n.expire in
      (
        λ a. let b = f a in let c = h b.0 in (c.0, c.1, λ e. b.1 (now_shifted ∙ sym (y e) ∙ c.1)),
        λ b. g (k (b.0, b.1), λ e. b.2 (x (b.1 ∙ sym e ∙ now_shifted))),
      )

  -- Every other node stays.
  pub update-kept :
      (n : Node) → Holds (timer_update T).1 n ↔ (Holds T n × (n.expire ≢ next_time T.time))
  update-kept n = (
    λ a. let b = (update-In a.0 n).0 a.1 in (b.0, b.2),
    λ b. (place_of (next_time T.time) n.expire, (update-In _ n).1 (b.0, refl, b.1)),
  )

  pub update-IsValid : IsValid (timer_update T).1
  update-IsValid = record {
    word = subst (λ (t : ℕ). t < 2 ^ 32) (sym (update-time T)) (omega arith);
    placed = λ p n a. ap (λ (t : ℕ). place_of t n.expire) (update-time T) ∙ ((update-In p n).0 a).1;
    pending = λ p n a.
        let b = (update-In p n).0 a in
        let w = v.pending b.0.0 n b.0.1 in
        let later = b.2 in
        subst
          (λ (t : ℕ). (n.expire < 2 ^ 32) × (1 ≤ ticks t n.expire) × (ticks t n.expire < 2 ^ 31))
          (sym (update-time T))
          (w.0, omega (arith, v.word, w.0, w.1, later), omega (arith, v.word, w.0, w.1, w.2));
  }
