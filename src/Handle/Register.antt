-- ===== src/Handle/Register.antt =====
-- `skynet_handle_register` of skynet_handle.c gives a context a handle of its own.
use sdy.Base.{
  ==_refl, ==→eq, ==→ne, Bool-cases, Option, add-mul-mod_self_left, ap, arith, bit_and, bit_or,
  dvd-mul_right, inl, inr, mod-add-div, mod-add-mod, mod-eq_of_lt, mod-lt, mod-mod_of_dvd, ne→==,
  none, pow-suc, refl, some, some-eq_iff, subst, suc, sym, zero, ℕ, ◌%◌, ◌*◌, ◌+◌, ◌-◌, ◌/◌, ◌<◌,
  ◌==◌, ◌^◌, ◌↔◌, ◌∙◌, ◌≡◌, ◌≢◌, ◌≤◌, ◌⊎◌,
}
use sdy.Base.Bits.{bit_and_mask, bit_or_join}
use sdy.Handle.{
  handle_mask, Storage, write, hash_of, pick, probe, occupy, register_loop, register, attach,
}
use sdy.Handle.Grow.{
  IsValid, hash_of-eq, Answers, write-hit, write-miss, two_pow_pos, IsFull, grow_lem,
}

-- The size of the table divides the number of handles.
size-dvd : (k : ℕ) → k ≤ 24 → (m : ℕ) × (2 ^ k * m ≡ 2 ^ 24)
size-dvd k h = down 24 k h
  where
    down : (n k : ℕ) → k ≤ n → (m : ℕ) × (2 ^ k * m ≡ 2 ^ n)
    down zero zero h = (1, omega arith)
    down zero (suc k) h = absurd (omega arith)
    down (suc n) zero h = (2 ^ suc n, omega arith)
    down (suc n) (suc k) h =
        let (m, e) = down n k (omega arith) in
        (m, omega (arith, e, pow-suc 2 n, ap (λ (t : ℕ). t * m) (pow-suc 2 k)))

mod_of_mask : (s : Storage) (k x : ℕ) → IsValid s k → x % 2 ^ 24 % s.slot_size ≡ x % s.slot_size
mod_of_mask s k x v =
    let (m, e) = size-dvd k v.small in
    ap (λ (t : ℕ). x % t % s.slot_size) (sym e ∙ ap (λ (t : ℕ). t * m) (sym v.size))
    ∙ mod-mod_of_dvd s.slot_size x (dvd-mul_right s.slot_size m)

masked :
    (s : Storage) (k x : ℕ)
    → IsValid s k
    → let h = bit_and x handle_mask in (h < 2 ^ 24) × (hash_of s h ≡ x % s.slot_size)
masked s k x v =
    let e : bit_and x handle_mask ≡ x % 2 ^ 24 = bit_and_mask x 24 in
    (
      rw e (omega arith),
      hash_of-eq s k (bit_and x handle_mask) v
          ∙ ap (λ (t : ℕ). t % s.slot_size) e
          ∙ mod_of_mask s k x v,
    )

-- What the loop over the slots finds.
Found : Storage → ℕ → ℕ → Option ℕ → Type 0
Found s i n (some handle) = (s.slot (handle % s.slot_size) ≡ none) × (handle < 2 ^ 24)
Found s i n none = (j : ℕ) → i ≤ j → j < i + n → s.slot ((j + s.handle_index) % s.slot_size) ≢ none

pick-Found :
    (s : Storage) (k n i : ℕ) (o rest : Option ℕ)
    → IsValid s k
    → o ≡ s.slot ((i + s.handle_index) % s.slot_size)
    → Found s (i + 1) n rest
    → Found s i (suc n) (pick o (bit_and (i + s.handle_index) handle_mask) rest)
unfolding Found
pick-Found s k n i none rest v e f =
    let m = masked s k (i + s.handle_index) v in
    (ap s.slot (sym (hash_of-eq s k _ v) ∙ m.1) ∙ sym e, m.0)
pick-Found s k n i (some c) (some handle) v e f = f
pick-Found s k n i (some c) none v e f = λ j lo hi q. elim (Bool-cases (i == j)) [
  | inl same ↦
      let z : some c ≡ none =
        e ∙ ap (λ (t : ℕ). s.slot ((t + s.handle_index) % s.slot_size)) (==→eq i j same) ∙ q in
      cc
  | inr other ↦ f j (omega (arith, ==→ne i j other)) (omega arith) q
]

probe-Found : (s : Storage) (k n i : ℕ) → IsValid s k → Found s i n (probe s n i)
unfolding probe
probe-Found s k zero i v = unfold Found in λ j lo hi. absurd (omega arith)
probe-Found s k (suc n) i v =
    let h = bit_and (i + s.handle_index) handle_mask in
    pick-Found s k n i (s.slot (hash_of s h)) (probe s n (i + 1)) v
      (ap s.slot (masked s k (i + s.handle_index) v).1) (probe-Found s k n (i + 1) v)

-- A loop over all slots that finds none free has seen every slot.
seen_all : (s : Storage) (k : ℕ) → IsValid s k → Found s 0 s.slot_size none → IsFull s
unfolding Found
seen_all s k v f t below =
    let n = s.slot_size in
    let r = s.handle_index % n in
    let pos : 0 < n = omega (arith, v.size, two_pow_pos k) in
    let j = (t + (n - r)) % n in
    let rn = mod-lt s.handle_index pos in
    let sum : t + (n - r) + s.handle_index ≡ t + n * (s.handle_index / n + 1) =
      omega (arith, mod-add-div s.handle_index n) in
    let hit : (j + s.handle_index) % n ≡ t =
      mod-add-mod (t + (n - r)) n s.handle_index
      ∙ ap (λ (x : ℕ). x % n) sum
      ∙ add-mul-mod_self_left t n (s.handle_index / n + 1)
      ∙ mod-eq_of_lt below in
    subst (λ (x : ℕ). s.slot x ≢ none) hit
      (f j (omega arith) (omega (arith, mod-lt (t + (n - r)) pos)))

-- The handle that the caller gets: the masked number with the harbor's bits.
abbrev pub full_handle : Storage → ℕ → ℕ
full_handle s handle = bit_or handle s.harbor

full_handle-slot :
    (s : Storage) (k h : ℕ)
    → IsValid s k
    → h < 2 ^ 24
    → full_handle s h % s.slot_size ≡ h % s.slot_size
full_handle-slot s k h v l =
    let b = s.harbor / 2 ^ 24 in
    let e : s.harbor ≡ b * 2 ^ 24 = omega (arith, v.home) in
    let sum : full_handle s h ≡ h + b * 2 ^ 24 = ap (bit_or h) e ∙ bit_or_join h b 24 l in
    let low : full_handle s h % 2 ^ 24 ≡ h = omega (arith, sum, l) in
    sym (mod_of_mask s k (full_handle s h) v) ∙ ap (λ (t : ℕ). t % s.slot_size) low

-- A context that stands in no slot.
abbrev pub IsFresh : Storage → ℕ → Type 0
IsFresh s ctx = (i : ℕ) → s.slot i ≢ some ctx

-- What a successful registration of `ctx` under `h` makes of `s`.
pub record Registered (s : Storage) (ctx h : ℕ) (t : Storage) : Type 0 where
  pub found : Answers t h ctx
  pub unused : (c : ℕ) → Answers s h c → ⊥
  pub others : (h' c : ℕ) → h' ≢ h → Answers t h' c ↔ Answers s h' c

abbrev installed : Storage → ℕ → ℕ → Storage
installed s ctx handle = attach (occupy s ctx handle) ctx (full_handle s handle)

module _ (s : Storage) (k ctx handle : ℕ) (v : IsValid s k) (fresh : IsFresh s ctx)
    (free : s.slot (handle % s.slot_size) ≡ none) (low : handle < 2 ^ 24) where
  slot_eq :
      (i : ℕ) → (installed s ctx handle).slot i ≡ write s.slot (handle % s.slot_size) (some ctx) i
  unfolding attach occupy
  slot_eq i = ap (λ (x : ℕ). write s.slot x (some ctx) i) (hash_of-eq s k handle v)

  handle_eq :
      (c : ℕ)
      → (installed s ctx handle).handle_of c ≡ write s.handle_of ctx (full_handle s handle) c
  unfolding attach occupy
  handle_eq c = refl

  kept : (c : ℕ) → c ≢ ctx → (installed s ctx handle).handle_of c ≡ s.handle_of c
  kept c ne = handle_eq c ∙ write-miss s.handle_of ctx c _ (ne→== ctx c (λ e. ne (sym e)))

  own_handle : (installed s ctx handle).handle_of ctx ≡ full_handle s handle
  own_handle = handle_eq ctx ∙ write-hit s.handle_of ctx ctx _ (==_refl ctx)

  -- A slot holds what it held, but for the one that was free.
  slot_cases :
      (i c : ℕ)
      → (installed s ctx handle).slot i ≡ some c
      → ((i ≡ handle % s.slot_size) × (c ≡ ctx))
        ⊎ ((i ≢ handle % s.slot_size) × (s.slot i ≡ some c) × (c ≢ ctx))
  slot_cases i c e = elim (Bool-cases (handle % s.slot_size == i)) [
    | inl q ↦ inl (
      sym (==→eq _ i q),
      (some-eq_iff c ctx).0 (sym e ∙ slot_eq i ∙ write-hit s.slot _ i (some ctx) q),
    )
    | inr q ↦
        let old : s.slot i ≡ some c =
          sym (write-miss s.slot _ i (some ctx) q) ∙ sym (slot_eq i) ∙ e in
        inr (λ w. ==→ne _ i q (sym w), old, λ w. fresh i (old ∙ ap some w))
  ]

  slot_kept : (i c : ℕ) → s.slot i ≡ some c → (installed s ctx handle).slot i ≡ some c
  slot_kept i c e = elim (Bool-cases (handle % s.slot_size == i)) [
    | inl q ↦ let w : none ≡ some c = sym free ∙ ap s.slot (==→eq _ i q) ∙ e in absurd (cc)
    | inr q ↦ slot_eq i ∙ write-miss s.slot _ i (some ctx) q ∙ e
  ]

  installed-IsValid : IsValid (installed s ctx handle) k
  unfolding attach occupy
  installed-IsValid = record {
    size = v.size;
    small = v.small;
    home = v.home;
    placed = λ i c e. elim (slot_cases i c e) [
      | inl p ↦ (
        subst (λ (x : ℕ). x < s.slot_size) (sym p.0)
            (mod-lt handle (omega (arith, v.size, two_pow_pos k))),
        ap (λ (x : ℕ). (installed s ctx handle).handle_of x % s.slot_size) p.1
            ∙ ap (λ (x : ℕ). x % s.slot_size) own_handle
            ∙ full_handle-slot s k handle v low
            ∙ sym p.0,
      )
      | inr p ↦ (
        (v.placed i c p.1).0,
        ap (λ (x : ℕ). x % s.slot_size) (kept c p.2) ∙ (v.placed i c p.1).1,
      )
    ];
  }

  installed-Registered : Registered s ctx (full_handle s handle) (installed s ctx handle)
  unfolding attach occupy
  installed-Registered =
      let at_slot = full_handle-slot s k handle v low in
      record {
        found = (
          slot_eq (full_handle s handle % s.slot_size)
              ∙ write-hit s.slot (handle % s.slot_size) _ (some ctx) (
                  ap (λ (x : ℕ). handle % s.slot_size == x) at_slot
                  ∙ ==_refl (handle % s.slot_size)),
          own_handle,
        );
        unused =
            λ c a. let w : none ≡ some c = sym free ∙ ap s.slot (sym at_slot) ∙ a.0 in absurd (cc);
        others = λ h' c ne. (
          λ a. elim (slot_cases (h' % s.slot_size) c a.0) [
            | inl p ↦ absurd (ne (sym a.1 ∙ ap (installed s ctx handle).handle_of p.1 ∙ own_handle))
            | inr p ↦ (p.1, sym (kept c p.2) ∙ a.1)
          ],
          λ a. (
            slot_kept (h' % s.slot_size) c a.0,
            kept c (λ w. fresh (h' % s.slot_size) (a.0 ∙ ap some w)) ∙ a.1,
          ),
        );
      }

-- A slot is free.
abbrev pub HasFree : Storage → Type 0
HasFree s = (j : ℕ) × (j < s.slot_size) × (s.slot j ≡ none)

-- What a call of `skynet_handle_register` comes to, with the handle then stored in the context.
abbrev pub Registers : Storage → ℕ → Option (ℕ × Storage) → Type 0
Registers s ctx r =
    (h : ℕ) × (t : Storage) × (j : ℕ) × (r ≡ some (h, t))
    × IsValid (attach t ctx h) j
    × Registered s ctx h (attach t ctx h)

module _ (s : Storage) (k ctx fuel : ℕ) (v : IsValid s k) (fresh : IsFresh s ctx) where
  register_probed :
      (handle : ℕ)
      → probe s s.slot_size 0 ≡ some handle
      → Found s 0 s.slot_size (some handle)
      → Registers s ctx (register_loop (suc fuel) s ctx)
  unfolding register_loop Found
  register_probed handle e f = (
    full_handle s handle,
    occupy s ctx handle,
    k,
    rw (e, register_loop),
    installed-IsValid s k ctx handle v fresh f.0 f.1,
    installed-Registered s k ctx handle v fresh f.0 f.1,
  )

  register_free : HasFree s → Registers s ctx (register_loop (suc fuel) s ctx)
  register_free (j, below, e) = go (probe s s.slot_size 0) refl (probe-Found s k s.slot_size 0 v)
    where
      go :
          (o : Option ℕ)
          → probe s s.slot_size 0 ≡ o
          → Found s 0 s.slot_size o
          → Registers s ctx (register_loop (suc fuel) s ctx)
      go (some handle) q f = register_probed handle q f
      go none q f = absurd (seen_all s k v f j below e)

  full_not_free : IsFull s → HasFree s → ⊥
  full_not_free full f = full f.0 f.1 f.2

register_grown :
    (s : Storage) (k ctx fuel : ℕ)
    → IsValid s k
    → IsFresh s ctx
    → k < 24
    → IsFull s
    → probe s s.slot_size 0 ≡ none
    → Registers s ctx (register_loop (suc (suc fuel)) s ctx)
unfolding register_loop
register_grown s k ctx fuel v fresh small full none_free =
    let (t, run, w, same, size, hs, hb, free) = grow_lem s k v full small in
    let pos : 0 < s.slot_size = omega (arith, v.size, two_pow_pos k) in
    let hole : HasFree t = elim free [
      | inl e ↦ (0, omega arith, e)
      | inr e ↦ (s.slot_size, omega arith, e)
    ] in
    let fresh' : IsFresh t ctx = λ i e.
      let h = t.handle_of ctx in
      let a = (same h ctx).1 (ap t.slot (w.placed i ctx e).1 ∙ e, refl) in
      fresh (h % s.slot_size) a.0 in
    let (h, u, j, ran, valid, reg) = register_free t (suc k) ctx fuel w fresh' hole in
    (
      h,
      u,
      j,
      rw (none_free, register_loop) (rw run ran),
      valid,
      record {
        found = reg.found;
        unused = λ c a. reg.unused c ((same h c).0 a);
        others = λ h' c ne. (
          λ a. (same h' c).1 ((reg.others h' c ne).0 a),
          λ a. (reg.others h' c ne).1 ((same h' c).0 a),
        );
      },
    )

-- Registering a context that stands in no slot, with a free slot or fewer than 2 ^ 24 slots: the call
-- returns, and after the handle is stored in the context the table is well formed, the handle
-- answers with the context, it answered with none before, and every other handle answers as before.
pub register_lem :
    (s : Storage) (k ctx : ℕ)
    → IsValid s k
    → IsFresh s ctx
    → ((k < 24) ⊎ HasFree s)
    → Registers s ctx (register s ctx)
unfolding register
register_lem s k ctx v fresh room =
    go (probe s s.slot_size 0) refl (probe-Found s k s.slot_size 0 v)
  where
    go :
        (o : Option ℕ)
        → probe s s.slot_size 0 ≡ o
        → Found s 0 s.slot_size o
        → Registers s ctx (register_loop 2 s ctx)
    go (some handle) q f = register_probed s k ctx 1 v fresh handle q f
    go none q f =
        let full = seen_all s k v f in
        elim room [
          | inl small ↦ register_grown s k ctx 0 v fresh small full q
          | inr free ↦ absurd (full_not_free s k ctx 0 v fresh full free)
        ]
