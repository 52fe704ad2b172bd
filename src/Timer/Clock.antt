-- ===== src/Timer/Clock.antt =====
-- The wheel of skynet_timer.c as the clock goes on: timers are kept until their time and then handed
-- out, whatever lists they pass through.
use sdy.Base.{
  ==→eq, ==→ne, Among, Bool-cases, List, ap, arith, false, inl, inr, ltb, refl, subst, suc, sym,
  zero, ℕ, ◌%◌, ◌+◌, ◌-◌, ◌<◌, ◌==◌, ◌^◌, ◌↔◌, ◌∙◌, ◌≡◌, ◌≢◌, ◌≤◌, ◌⊎◌,
}
use sdy.Timer.{
  Node, Timer, set_list, link, place_of, add_node, timer_add, timer_update, timer_create, updates,
  updatetime,
}
use sdy.Timer.Places.{ticks, next_time}
use sdy.Timer.Lists.{Among-append_iff, add_node-In, add_node-time}
use sdy.Timer.Update.{Holds, IsValid}
use sdy.Timer.Ticks.{update-time, update-handed, update-kept, update-IsValid}

pub timer_create-IsValid :
    (starttime current current_point : ℕ) → IsValid (timer_create starttime current current_point)
unfolding timer_create
timer_create-IsValid starttime current current_point = record {
  word = omega arith;
  placed = λ p n a. absurd a;
  pending = λ p n a. absurd a;
}

-- `timer_update` of a valid wheel keeps it valid and makes its time the next one. It hands out exactly
-- the nodes that expire at that time, and the wheel still holds exactly the others.
pub timer_update_lem :
    (T : Timer) (n : Node)
    → IsValid T
    → let (handed, U) = timer_update T in
      IsValid U
      × (U.time ≡ next_time T.time)
      × (Among n handed ↔ (Holds T n × (n.expire ≡ next_time T.time)))
      × (Holds U n ↔ (Holds T n × (n.expire ≢ next_time T.time)))
timer_update_lem T n v = (update-IsValid T v, update-time T, update-handed T v n, update-kept T v n)

abbrev pub added : Timer → ℕ → ℕ → ℕ → Node
added T handle session time = record {
  expire = (time + T.time) % 2 ^ 32;
  handle = handle;
  session = session;
}

-- `timer_add` of a positive `int` delay keeps a wheel valid and adds a node, which waits for that many
-- ticks.
pub timer_add_lem :
    (T : Timer) (handle session time : ℕ) (m : Node)
    → IsValid T
    → 1 ≤ time
    → time < 2 ^ 31
    → IsValid (timer_add T handle session time)
      × (Holds (timer_add T handle session time) m
          ↔ (Holds T m ⊎ (m ≡ added T handle session time)))
      × (ticks T.time (added T handle session time).expire ≡ time)
unfolding timer_add
timer_add_lem T handle session time m v t1 t2 =
    let n = added T handle session time in
    let exact : ticks T.time n.expire ≡ time = omega (arith, v.word, t1, t2) in
    (
      record {
        word = subst (λ (t : ℕ). t < 2 ^ 32) (sym (add_node-time T n)) v.word;
        placed = λ p x a.
            ap (λ (t : ℕ). place_of t x.expire) (add_node-time T n)
            ∙ elim ((add_node-In T p n x).0 a) [
              | inl b ↦ v.placed p x b
              | inr b ↦ ap (λ (y : Node). place_of T.time y.expire) b.0 ∙ b.1
            ];
        pending = λ p x a.
            subst
              (λ (t : ℕ).
                (x.expire < 2 ^ 32) × (1 ≤ ticks t x.expire) × (ticks t x.expire < 2 ^ 31))
              (sym (add_node-time T n))
              (elim ((add_node-In T p n x).0 a) [
                | inl b ↦ v.pending p x b
                | inr b ↦
                    subst
                      (λ (y : Node).
                        (y.expire < 2 ^ 32)
                        × (1 ≤ ticks T.time y.expire)
                        × (ticks T.time y.expire < 2 ^ 31))
                      (sym b.0) (omega arith, omega (arith, exact, t1), omega (arith, exact, t2))
              ]);
      },
      (
        λ a. elim ((add_node-In T a.0 n m).0 a.1) [ inl b ↦ inl (a.0, b) | inr b ↦ inr b.0 ],
        elim [
          | inl a ↦ (a.0, (add_node-In T a.0 n m).1 (inl a.1))
          | inr e ↦ (place_of T.time n.expire, (add_node-In T _ n m).1 (inr (e, refl)))
        ],
      ),
      exact,
    )

-- What `d` ticks do to a node.
abbrev Ticked : ℕ → Timer → Node → List Node × Timer → Type 0
Ticked d T n r =
    IsValid r.1
    × (Among n r.0 ↔ (Holds T n × (ticks T.time n.expire ≤ d)))
    × (Holds r.1 n ↔ (Holds T n × (d < ticks T.time n.expire)))

held_ticks :
    (T : Timer) (n : Node)
    → IsValid T
    → Holds T n
    → (n.expire < 2 ^ 32) × (1 ≤ ticks T.time n.expire) × (ticks T.time n.expire < 2 ^ 31)
held_ticks T n v a = v.pending a.0 n a.1

-- The ticks left after one.
one_less :
    (t u e : ℕ)
    → t < 2 ^ 32
    → e < 2 ^ 32
    → 1 ≤ ticks t e
    → u ≡ next_time t
    → e ≢ next_time t
    → suc (ticks u e) ≡ ticks t e
one_less t u e th eh d h n = omega (arith, th, eh, d, h, n)

pub updates-Ticked : (d : ℕ) (T : Timer) (n : Node) → IsValid T → Ticked d T n (updates d T)
unfolding updates
updates-Ticked zero T n v = (
  v,
  (λ a. absurd a, λ b. let w = held_ticks T n v b.0 in absurd (omega (arith, w.1, b.1))),
  (λ a. (a, let w = held_ticks T n v a in omega (arith, w.1)), λ b. b.0),
)
updates-Ticked (suc d) T n v =
    let U = (timer_update T).1 in
    let (valid, time, handed, kept) = timer_update_lem T n v in
    let (valid', handed', kept') = updates-Ticked d U n valid in
    let (f, g) = Among-append_iff n (timer_update T).0 (updates d U).0 in
    let less = λ (a : Holds T n) (ne : n.expire ≢ next_time T.time).
      let w = held_ticks T n v a in one_less T.time U.time n.expire v.word w.0 w.1 time ne in
    (
      valid',
      (
        λ a. elim (f a) [
          | inl b ↦
              let c = handed.0 b in
              let w = held_ticks T n v c.0 in (c.0, let e = c.1 in omega (arith, v.word, e))
          | inr b ↦
              let c = handed'.0 b in
              let k = kept.0 c.0 in
              (k.0, let l = less k.0 k.1 in let h = c.1 in omega (arith, l, h))
        ],
        λ b. elim (Bool-cases (n.expire == next_time T.time)) [
          | inl t ↦ g (inl (handed.1 (b.0, ==→eq n.expire (next_time T.time) t)))
          | inr t ↦
              let ne = ==→ne n.expire (next_time T.time) t in
              let l = less b.0 ne in
              let h = b.1 in g (inr (handed'.1 (kept.1 (b.0, ne), omega (arith, l, h))))
        ],
      ),
      (
        λ a.
            let c = kept'.0 a in
            let k = kept.0 c.0 in (k.0, let l = less k.0 k.1 in let h = c.1 in omega (arith, l, h)),
        λ b.
            let h = b.1 in
            let ne : n.expire ≢ next_time T.time = λ e. omega (arith, v.word, e, h) in
            let l = less b.0 ne in kept'.1 (kept.1 (b.0, ne), omega (arith, l, h)),
      ),
    )

abbrev clocked : Timer → ℕ → ℕ → Timer
clocked T cp d = record T { current_point = cp; current = (T.current + d) % 2 ^ 64 }

clocked-IsValid : (T : Timer) (cp d : ℕ) → IsValid T → IsValid (clocked T cp d)
clocked-IsValid T cp d v = record { word = v.word; placed = v.placed; pending = v.pending }

-- When the clock has gone on by `d` hundredths, fewer than 2 ^ 32, `skynet_updatetime` hands out
-- exactly the timers of a valid wheel that wait for at most `d` ticks. The wheel stays valid and holds
-- exactly those that wait longer.
pub updatetime_lem :
    (cp : ℕ) (T : Timer) (n : Node)
    → IsValid T
    → T.current_point ≤ cp
    → cp < 2 ^ 64
    → cp - T.current_point < 2 ^ 32
    → let (handed, U) = updatetime cp T in
      IsValid U
      × (Among n handed ↔ (Holds T n × (ticks T.time n.expire ≤ cp - T.current_point)))
      × (Holds U n ↔ (Holds T n × (cp - T.current_point < ticks T.time n.expire)))
unfolding updatetime
updatetime_lem cp T n v le big far =
    let forward : ltb cp T.current_point ≡ false = ground arith in
    let diff : (cp + 2 ^ 64 - T.current_point) % 2 ^ 32 ≡ cp - T.current_point =
      omega (arith, le, big, far) in
    elim (Bool-cases (cp == T.current_point)) [
      | inl e ↦
          let q = ==→eq cp T.current_point e in
          let zero_ticks : cp - T.current_point ≡ 0 = omega (arith, q) in
          rw forward (
            rw e (
              v,
              (
                λ a. absurd a,
                λ b.
                    let w = held_ticks T n v b.0 in
                    let h = b.1 in absurd (omega (arith, w.1, h, zero_ticks)),
              ),
              (λ a. (a, let w = held_ticks T n v a in omega (arith, w.1, zero_ticks)), λ b. b.0),
            ))
      | inr e ↦ rw forward (
          rw e (
            rw diff (
              updates-Ticked (cp - T.current_point) (clocked T cp (cp - T.current_point)) n
                (clocked-IsValid T cp (cp - T.current_point) v))))
    ]

-- A condition on the ticks that a node of the wheel waits for, or the node added to it.
of_added :
    {H : Type 0} (T : Timer) (m n : Node) (time : ℕ) (P : ℕ → Type 0)
    → (H ↔ (Holds T m ⊎ (m ≡ n)))
    → ticks T.time n.expire ≡ time
    → (H × P (ticks T.time m.expire))
      ↔ ((Holds T m × P (ticks T.time m.expire)) ⊎ ((m ≡ n) × P time))
of_added T m n time P held exact =
    let waits = λ (e : m ≡ n). ap (λ (x : Node). ticks T.time x.expire) e ∙ exact in
    (
      λ a. elim (held.0 a.0) [ inl b ↦ inl (b, a.1) | inr e ↦ inr (e, subst P (waits e) a.1) ],
      elim [
        | inl b ↦ (held.1 (inl b.0), b.1)
        | inr b ↦ (held.1 (inr b.0), subst P (sym (waits b.0)) b.1)
      ],
    )

-- After `timer_add` of a positive `int` delay to a valid wheel, when the clock has gone on by `d`
-- hundredths, fewer than 2 ^ 32, `skynet_updatetime` hands out the new node if its delay is at most
-- `d`, whatever lists it passes through, and the nodes that the wheel held before and that wait for at
-- most `d` ticks, and no other. The wheel stays valid and holds those with longer to wait, and no
-- other.
pub timer_add-updatetime :
    (cp : ℕ) (T : Timer) (handle session time : ℕ) (m : Node)
    → IsValid T
    → 1 ≤ time
    → time < 2 ^ 31
    → T.current_point ≤ cp
    → cp < 2 ^ 64
    → cp - T.current_point < 2 ^ 32
    → let n = added T handle session time in
      let d = cp - T.current_point in
      let (handed, V) = updatetime cp (timer_add T handle session time) in
      IsValid V
      × (Among m handed ↔ ((Holds T m × (ticks T.time m.expire ≤ d)) ⊎ ((m ≡ n) × (time ≤ d))))
      × (Holds V m ↔ ((Holds T m × (d < ticks T.time m.expire)) ⊎ ((m ≡ n) × (d < time))))
unfolding timer_add add_node link set_list
timer_add-updatetime cp T handle session time m v t1 t2 le big far =
    let (valid, held, exact) = timer_add_lem T handle session time m v t1 t2 in
    let (valid', handed, kept) =
      updatetime_lem cp (timer_add T handle session time) m valid le big far in
    let d = cp - T.current_point in
    let (f, g) = of_added T m (added T handle session time) time (λ (t : ℕ). t ≤ d) held exact in
    let (f', g') = of_added T m (added T handle session time) time (λ (t : ℕ). d < t) held exact in
    (valid', (λ a. f (handed.0 a), λ b. handed.1 (g b)), (λ a. f' (kept.0 a), λ b. kept.1 (g' b)))
