-- ===== src/Timer/Places.antt =====
-- When the time of the wheel of skynet_timer.c goes on by one, every pending node stays where it is
-- or stands in the one list that is moved.
use sdy.Base.{
  ==→eq, ==→ne, Bool-cases, ap, arith, eq→==, inl, inr, ne→==, refl, some, sym, ℕ, ◌%◌, ◌+◌, ◌-◌,
  ◌/◌, ◌<◌, ◌==◌, ◌^◌, ◌∙◌, ◌≡◌, ◌≢◌, ◌≤◌, ◌⊎◌,
}
use sdy.Timer.{near, level, place_of, moved_place}
use sdy.Timer.Words.{place_at, place_of-eq, moved_at, moved_place-eq}

-- The ticks from `t` until `e`.
abbrev pub ticks : ℕ → ℕ → ℕ
ticks t e = (e + 2 ^ 32 - t) % 2 ^ 32

abbrev pub next_time : ℕ → ℕ
next_time t = (t + 1) % 2 ^ 32

pub place_at-near : (t e : ℕ) → e / 2 ^ 8 ≡ t / 2 ^ 8 → place_at t e ≡ near (e % 2 ^ 8)
place_at-near t e h = rw (eq→== (e / 2 ^ 8) (t / 2 ^ 8) h) refl

place_at-0 :
    (t e : ℕ)
    → e / 2 ^ 8 ≢ t / 2 ^ 8
    → e / 2 ^ 14 ≡ t / 2 ^ 14
    → place_at t e ≡ level 0 (e / 2 ^ 8 % 2 ^ 6)
place_at-0 t e n h =
    rw (ne→== (e / 2 ^ 8) (t / 2 ^ 8) (λ q. n (omega (arith, q))))
      (rw (eq→== (e / 2 ^ 14) (t / 2 ^ 14) h) refl)

place_at-1 :
    (t e : ℕ)
    → e / 2 ^ 14 ≢ t / 2 ^ 14
    → e / 2 ^ 20 ≡ t / 2 ^ 20
    → place_at t e ≡ level 1 (e / 2 ^ 14 % 2 ^ 6)
place_at-1 t e n h = rw (ne→== (e / 2 ^ 8) (t / 2 ^ 8) (λ q. n (omega (arith, q)))) (
    rw (ne→== (e / 2 ^ 14) (t / 2 ^ 14) (λ q. n (omega (arith, q))))
      (rw (eq→== (e / 2 ^ 20) (t / 2 ^ 20) h) refl))

place_at-2 :
    (t e : ℕ)
    → e / 2 ^ 20 ≢ t / 2 ^ 20
    → e / 2 ^ 26 ≡ t / 2 ^ 26
    → place_at t e ≡ level 2 (e / 2 ^ 20 % 2 ^ 6)
place_at-2 t e n h = rw (ne→== (e / 2 ^ 8) (t / 2 ^ 8) (λ q. n (omega (arith, q)))) (
    rw (ne→== (e / 2 ^ 14) (t / 2 ^ 14) (λ q. n (omega (arith, q)))) (
      rw (ne→== (e / 2 ^ 20) (t / 2 ^ 20) (λ q. n (omega (arith, q))))
        (rw (eq→== (e / 2 ^ 26) (t / 2 ^ 26) h) refl)))

place_at-3 : (t e : ℕ) → e / 2 ^ 26 ≢ t / 2 ^ 26 → place_at t e ≡ level 3 (e / 2 ^ 26 % 2 ^ 6)
place_at-3 t e n = rw (ne→== (e / 2 ^ 8) (t / 2 ^ 8) (λ q. n (omega (arith, q)))) (
    rw (ne→== (e / 2 ^ 14) (t / 2 ^ 14) (λ q. n (omega (arith, q)))) (
      rw (ne→== (e / 2 ^ 20) (t / 2 ^ 20) (λ q. n (omega (arith, q))))
        (rw (ne→== (e / 2 ^ 26) (t / 2 ^ 26) (λ q. n (omega (arith, q)))) refl)))

moved_at-0 :
    (ct : ℕ)
    → ct ≢ 0
    → ct % 2 ^ 8 ≡ 0
    → ct / 2 ^ 8 % 2 ^ 6 ≢ 0
    → moved_at ct ≡ some (level 0 (ct / 2 ^ 8 % 2 ^ 6))
moved_at-0 ct n h m =
    rw (ne→== ct 0 n)
      (rw (eq→== (ct % 2 ^ 8) 0 (omega (arith, h))) (rw (ne→== (ct / 2 ^ 8 % 2 ^ 6) 0 m) refl))

moved_at-1 :
    (ct : ℕ)
    → ct ≢ 0
    → ct % 2 ^ 14 ≡ 0
    → ct / 2 ^ 14 % 2 ^ 6 ≢ 0
    → moved_at ct ≡ some (level 1 (ct / 2 ^ 14 % 2 ^ 6))
moved_at-1 ct n h m = rw (ne→== ct 0 n) (
    rw (eq→== (ct % 2 ^ 8) 0 (omega (arith, h))) (
      rw (eq→== (ct / 2 ^ 8 % 2 ^ 6) 0 (omega (arith, h)))
        (rw (ne→== (ct / 2 ^ 14 % 2 ^ 6) 0 m) refl)))

moved_at-2 :
    (ct : ℕ)
    → ct ≢ 0
    → ct % 2 ^ 20 ≡ 0
    → ct / 2 ^ 20 % 2 ^ 6 ≢ 0
    → moved_at ct ≡ some (level 2 (ct / 2 ^ 20 % 2 ^ 6))
moved_at-2 ct n h m = rw (ne→== ct 0 n) (
    rw (eq→== (ct % 2 ^ 8) 0 (omega (arith, h))) (
      rw (eq→== (ct / 2 ^ 8 % 2 ^ 6) 0 (omega (arith, h))) (
        rw (eq→== (ct / 2 ^ 14 % 2 ^ 6) 0 (omega (arith, h)))
          (rw (ne→== (ct / 2 ^ 20 % 2 ^ 6) 0 m) refl))))

moved_at-3 :
    (ct : ℕ) → ct ≢ 0 → ct % 2 ^ 26 ≡ 0 → moved_at ct ≡ some (level 3 (ct / 2 ^ 26 % 2 ^ 6))
moved_at-3 ct n h = rw (ne→== ct 0 n) (
    rw (eq→== (ct % 2 ^ 8) 0 (omega (arith, h))) (
      rw (eq→== (ct / 2 ^ 8 % 2 ^ 6) 0 (omega (arith, h))) (
        rw (eq→== (ct / 2 ^ 14 % 2 ^ 6) 0 (omega (arith, h)))
          (rw (eq→== (ct / 2 ^ 20 % 2 ^ 6) 0 (omega (arith, h))) refl))))

-- The place at the next time, or else the list that is moved.
abbrev Goes : ℕ → ℕ → Type 0
Goes t e =
    (place_at (next_time t) e ≡ place_at t e) ⊎ (moved_at (next_time t) ≡ some (place_at t e))

module _ (t e : ℕ) (th : t < 2 ^ 32) (eh : e < 2 ^ 32) (d1 : 1 ≤ ticks t e)
    (d2 : ticks t e < 2 ^ 31) where
  Goes-near : e / 2 ^ 8 ≡ t / 2 ^ 8 → Goes t e
  Goes-near h =
      inl (
        place_at-near (next_time t) e (omega (arith, th, eh, d1, d2, h))
        ∙ sym (place_at-near t e h))

  Goes-0 : e / 2 ^ 8 ≢ t / 2 ^ 8 → e / 2 ^ 14 ≡ t / 2 ^ 14 → Goes t e
  Goes-0 n h =
      let ct = next_time t in
      let up : ct ≡ t + 1 = omega (arith, th, eh, d1, d2, n, h) in
      elim (Bool-cases (e / 2 ^ 8 == ct / 2 ^ 8)) [
        | inl b ↦
            let q = ==→eq (e / 2 ^ 8) (ct / 2 ^ 8) b in
            inr (
              moved_at-0 ct (omega (arith, up)) (omega (arith, up, n, q))
                (omega (arith, up, n, h, q))
              ∙ ap (λ (x : ℕ). some (level 0 (x % 2 ^ 6))) (sym q)
              ∙ ap some (sym (place_at-0 t e n h)))
        | inr b ↦
            let q = ==→ne (e / 2 ^ 8) (ct / 2 ^ 8) b in
            let above : e / 2 ^ 14 ≡ ct / 2 ^ 14 = omega (arith, up, th, eh, d1, d2, n, h) in
            inl (place_at-0 ct e q above ∙ sym (place_at-0 t e n h))
      ]

  Goes-1 : e / 2 ^ 14 ≢ t / 2 ^ 14 → e / 2 ^ 20 ≡ t / 2 ^ 20 → Goes t e
  Goes-1 n h =
      let ct = next_time t in
      let up : ct ≡ t + 1 = omega (arith, th, eh, d1, d2, n, h) in
      elim (Bool-cases (e / 2 ^ 14 == ct / 2 ^ 14)) [
        | inl b ↦
            let q = ==→eq (e / 2 ^ 14) (ct / 2 ^ 14) b in
            inr (
              moved_at-1 ct (omega (arith, up)) (omega (arith, up, n, q))
                (omega (arith, up, n, h, q))
              ∙ ap (λ (x : ℕ). some (level 1 (x % 2 ^ 6))) (sym q)
              ∙ ap some (sym (place_at-1 t e n h)))
        | inr b ↦
            let q = ==→ne (e / 2 ^ 14) (ct / 2 ^ 14) b in
            let above : e / 2 ^ 20 ≡ ct / 2 ^ 20 = omega (arith, up, th, eh, d1, d2, n, h) in
            inl (place_at-1 ct e q above ∙ sym (place_at-1 t e n h))
      ]

  Goes-2 : e / 2 ^ 20 ≢ t / 2 ^ 20 → e / 2 ^ 26 ≡ t / 2 ^ 26 → Goes t e
  Goes-2 n h =
      let ct = next_time t in
      let up : ct ≡ t + 1 = omega (arith, th, eh, d1, d2, n, h) in
      elim (Bool-cases (e / 2 ^ 20 == ct / 2 ^ 20)) [
        | inl b ↦
            let q = ==→eq (e / 2 ^ 20) (ct / 2 ^ 20) b in
            inr (
              moved_at-2 ct (omega (arith, up)) (omega (arith, up, n, q))
                (omega (arith, up, n, h, q))
              ∙ ap (λ (x : ℕ). some (level 2 (x % 2 ^ 6))) (sym q)
              ∙ ap some (sym (place_at-2 t e n h)))
        | inr b ↦
            let q = ==→ne (e / 2 ^ 20) (ct / 2 ^ 20) b in
            let above : e / 2 ^ 26 ≡ ct / 2 ^ 26 = omega (arith, up, th, eh, d1, d2, n, h) in
            inl (place_at-2 ct e q above ∙ sym (place_at-2 t e n h))
      ]

  Goes-3 : e / 2 ^ 26 ≢ t / 2 ^ 26 → Goes t e
  Goes-3 n =
      let ct = next_time t in
      elim (Bool-cases (e / 2 ^ 26 == ct / 2 ^ 26)) [
        | inl b ↦
            let q = ==→eq (e / 2 ^ 26) (ct / 2 ^ 26) b in
            let same : some (level 3 (ct / 2 ^ 26 % 2 ^ 6)) ≡ some (place_at t e) =
              ap (λ (x : ℕ). some (level 3 (x % 2 ^ 6))) (sym q)
              ∙ ap some (sym (place_at-3 t e n)) in
            elim (Bool-cases (ct == 0)) [
              | inl z ↦
                  let zero_field : 0 ≡ ct / 2 ^ 26 % 2 ^ 6 =
                    let w = ==→eq ct 0 z in omega (arith, w) in
                  inr (rw z (ap (λ (x : ℕ). some (level 3 x)) zero_field) ∙ same)
              | inr z ↦ inr (
                  moved_at-3 ct (==→ne ct 0 z)
                    (let w = ==→ne ct 0 z in omega (arith, th, eh, n, q, w))
                  ∙ same)
            ]
        | inr b ↦
            inl (place_at-3 ct e (==→ne (e / 2 ^ 26) (ct / 2 ^ 26) b) ∙ sym (place_at-3 t e n))
      ]

  goes : Goes t e
  goes = elim (Bool-cases (e / 2 ^ 8 == t / 2 ^ 8)) [
    | inl a ↦ Goes-near (==→eq (e / 2 ^ 8) (t / 2 ^ 8) a)
    | inr a ↦
        let n0 = ==→ne (e / 2 ^ 8) (t / 2 ^ 8) a in
        elim (Bool-cases (e / 2 ^ 14 == t / 2 ^ 14)) [
          | inl b ↦ Goes-0 n0 (==→eq (e / 2 ^ 14) (t / 2 ^ 14) b)
          | inr b ↦
              let n1 = ==→ne (e / 2 ^ 14) (t / 2 ^ 14) b in
              elim (Bool-cases (e / 2 ^ 20 == t / 2 ^ 20)) [
                | inl c ↦ Goes-1 n1 (==→eq (e / 2 ^ 20) (t / 2 ^ 20) c)
                | inr c ↦
                    let n2 = ==→ne (e / 2 ^ 20) (t / 2 ^ 20) c in
                    elim (Bool-cases (e / 2 ^ 26 == t / 2 ^ 26)) [
                      | inl d ↦ Goes-2 n2 (==→eq (e / 2 ^ 26) (t / 2 ^ 26) d)
                      | inr d ↦ Goes-3 (==→ne (e / 2 ^ 26) (t / 2 ^ 26) d)
                    ]
              ]
        ]
  ]

-- A pending node is in the right list at the next time too, unless its list is the one moved.
pub place_of-next :
    (t e : ℕ)
    → t < 2 ^ 32
    → e < 2 ^ 32
    → 1 ≤ ticks t e
    → ticks t e < 2 ^ 31
    → (place_of (next_time t) e ≡ place_of t e) ⊎ (moved_place (next_time t) ≡ some (place_of t e))
place_of-next t e th eh d1 d2 = rw (place_of-eq t e) (
    rw (place_of-eq (next_time t) e)
      (rw (moved_place-eq (next_time t) (omega arith)) (goes t e th eh d1 d2)))
