-- ===== src/GlobalMq/Schedule/Sends.antt =====
-- `skynet_mq_push` and `skynet_mq_create` of skynet_mq.c keep every waiting message in sight of a worker.
use sdy.Base.{
  Among, List, [], ap, arith, if◌then◌else◌, inl, inr, none, refl, some, subst, sym, ℕ, ◌++◌, ◌==◌,
  ◌∙◌, ◌∷◌, ◌≡◌, ◌⊎◌,
}
use sdy.Mq.{Message, create, enqueue}
use sdy.Mq.Invariant.{IsValid, create-IsValid, enqueue-IsValid}
use sdy.GlobalMq.{Store, update, global_push, mq_push}
use sdy.GlobalMq.Chain.{Among-append, Among-append_left, Among-last, global_push_lem}
use sdy.GlobalMq.Schedule.{Sched, Known, IsFair}
use sdy.GlobalMq.Schedule.Members.{Known-map}
use sdy.GlobalMq.Frame.{update-Lists, enqueue-frame, IsValid-unlinked, update-cases}

-- An entry pushed to a queue that is held changes no list.
pub sends_active :
    (c : Sched) (xs : List ℕ) (a : ℕ) (m : Message)
    → IsFair c xs
    → (c.store.queues a).in_global ≡ 1
    → (Among a xs ⊎ Among a c.busy)
    → let s = record c.store { queues = update c.store.queues a (enqueue (c.store.queues a) m) } in
      (mq_push c.store a m ≡ some s) × IsFair (record c { store = s }) xs
unfolding mq_push
sends_active c xs a m f e h =
    let q = c.store.queues a in
    let fr = enqueue-frame q m in
    (
      rw (fr.1, e),
      record {
        lists = update-Lists c.store xs a (enqueue q m) fr.0 f.lists;
        once = f.once;
        apart = f.apart;
        valid =
            update-cases (λ _. IsValid) c.store.queues a (enqueue q m)
              (enqueue-IsValid m (f.valid a)) (λ b _. f.valid b);
        known =
            update-cases (λ b r. Known r (Among b xs ⊎ Among b c.busy)) c.store.queues a
              (enqueue q m) (inl (fr.1 ∙ e, h)) (λ b _. f.known b);
      },
    )

mq_push-idle :
    (s : Store) (a : ℕ) (m : Message)
    → (enqueue (s.queues a) m).in_global ≡ 0
    → let q = enqueue (s.queues a) m in
      mq_push s a m
      ≡ global_push (record s { queues = update s.queues a (record q { in_global = 1 }) }) a
unfolding mq_push
mq_push-idle s a m h =
    let q = enqueue (s.queues a) m in
    ap
      (λ (n : ℕ).
        if n == 0
        then global_push (record s { queues = update s.queues a (record q { in_global = 1 }) }) a
        else some (record s { queues = update s.queues a q }))
      h

-- One pushed to an idle queue lists the queue.
pub sends_idle :
    (c : Sched) (xs : List ℕ) (a : ℕ) (m : Message)
    → IsFair c xs
    → (c.store.queues a).in_global ≡ 0
    → ((Among a xs ⊎ Among a c.busy) → ⊥)
    → (s : Store) × (mq_push c.store a m ≡ some s) × IsFair (record c { store = s }) (xs ++ a ∷ [])
sends_idle c xs a m f e h =
    let q = record (enqueue (c.store.queues a) m) { in_global = 1 } in
    let fr = enqueue-frame (c.store.queues a) m in
    let g = update c.store.queues a q in
    let t = record c.store { queues = g } in
    let (s, p, l, u) =
      global_push_lem t xs a (update-Lists c.store xs a q fr.0 f.lists) (λ k. h (inl k)) in
    (
      s,
      mq_push-idle c.store a m (fr.1 ∙ e) ∙ p,
      record {
        lists = l;
        once = f.once;
        apart = λ b k r. elim (Among-append b xs (a ∷ []) k) [
          | inl n ↦ f.apart b n r
          | inr n ↦ elim n [ inl z ↦ h (inr (subst (λ k. Among k c.busy) z r)) | inr z ↦ z ]
        ];
        valid = λ b. IsValid-unlinked (g b) (s.queues b) (u b) (
            update-cases (λ _. IsValid) c.store.queues a q
              (let v = enqueue-IsValid m (f.valid a) in
                record {
                  storage = v.storage;
                  head_in = v.head_in;
                  tail_in = v.tail_in;
                  positive = v.positive;
                })
              (λ k _. f.valid k) b);
        known = λ b.
            Known-map (g b) (s.queues b) (Among b (xs ++ a ∷ []) ⊎ Among b c.busy)
              (Among b (xs ++ a ∷ []) ⊎ Among b c.busy) (u b) (λ k. k) (λ k. k)
              (update-cases (λ b r. Known r (Among b (xs ++ a ∷ []) ⊎ Among b c.busy))
                c.store.queues a q (inl (refl, inl (Among-last a xs)))
                (λ k n.
                  Known-map (c.store.queues k) (c.store.queues k) (Among k xs ⊎ Among k c.busy)
                    (Among k (xs ++ a ∷ []) ⊎ Among k c.busy) refl
                    (elim [ inl w ↦ inl (Among-append_left k xs (a ∷ []) w) | inr w ↦ inr w ])
                    (elim [
                      | inl w ↦ elim (Among-append k xs (a ∷ []) w) [
                        | inl v ↦ inl v
                        | inr v ↦ elim v [ inl z ↦ absurd (n (sym z)) | inr z ↦ absurd z ]
                      ]
                      | inr w ↦ inr w
                    ])
                    (f.known k))
                b);
      },
    )

-- Whichever of the two it is, `skynet_mq_push` succeeds.
pub sends-IsFair :
    (c : Sched) (xs : List ℕ) (a : ℕ) (m : Message)
    → IsFair c xs
    → (s : Store) × (ys : List ℕ) × (mq_push c.store a m ≡ some s)
      × IsFair (record c { store = s }) ys
sends-IsFair c xs a m f = elim (f.known a) [
  | inl p ↦ (_, xs, (sends_active c xs a m f p.0 p.1).0, (sends_active c xs a m f p.0 p.1).1)
  | inr p ↦ let (s, e, g) = sends_idle c xs a m f p.0 p.2 in (s, xs ++ a ∷ [], e, g)
]

idle_is_free :
    (c : Sched) (xs : List ℕ) (a : ℕ)
    → IsFair c xs
    → (c.store.queues a).in_global ≡ 0
    → ((Among a xs ⊎ Among a c.busy) → ⊥)
idle_is_free c xs a f e = elim (f.known a) [ inl p ↦ absurd (omega arith) | inr p ↦ p.2 ]

create-active : (handle : ℕ) → ((create handle).next ≡ none) × ((create handle).in_global ≡ 1)
unfolding create
create-active handle = (refl, refl)

-- A new queue is held by its creator.
pub creates-IsFair :
    (c : Sched) (xs : List ℕ) (a handle : ℕ)
    → IsFair c xs
    → (c.store.queues a).in_global ≡ 0
    → IsFair
        (record {
          store = record c.store { queues = update c.store.queues a (create handle) };
          busy = a ∷ c.busy;
        })
        xs
creates-IsFair c xs a handle f e =
    let free = idle_is_free c xs a f e in
    let q = create handle in
    record {
      lists =
          update-Lists c.store xs a q
            ((create-active handle).0 ∙ sym (f.lists.others a (λ m. free (inl m)))) f.lists;
      once = (λ m. free (inr m), f.once);
      apart = λ k m n. elim n [
        | inl z ↦ free (inl (subst (λ t. Among t xs) z m))
        | inr r ↦ f.apart k m r
      ];
      valid =
          update-cases (λ _. IsValid) c.store.queues a q (create-IsValid handle) (λ k _. f.valid k);
      known =
          update-cases (λ k t. Known t (Among k xs ⊎ Among k (a ∷ c.busy))) c.store.queues a q
            (inl ((create-active handle).1, inr (inl refl)))
            (λ k n.
              Known-map (c.store.queues k) (c.store.queues k) (Among k xs ⊎ Among k c.busy)
                (Among k xs ⊎ Among k (a ∷ c.busy)) refl
                (elim [ inl m ↦ inl m | inr m ↦ inr (inr m) ])
                (elim [ inl m ↦ inl m | inr (inl z) ↦ absurd (n (sym z)) | inr (inr m) ↦ inr m ])
                (f.known k));
    }
