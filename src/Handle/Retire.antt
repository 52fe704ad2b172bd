-- ===== src/Handle/Retire.antt =====
-- `skynet_handle_retire` of skynet_handle.c takes back one handle.
use sdy.Base.{
  ==_refl, ==→eq, ==→ne, Bool, Bool-cases, List, Option, [], ap, false, if◌then◌else◌, inl, inr,
  ne→==, none, refl, some, some-eq_iff, subst, sym, true, ℕ, ◌%◌, ◌==◌, ◌↔◌, ◌∙◌, ◌∷◌, ◌≡◌, ◌≢◌,
}
use sdy.HandleName.{HandleName, without_handle}
use sdy.Handle.{Storage, write, hash_of, clear_slot, retire}
use sdy.Handle.Grow.{IsValid, hash_of-eq, Answers, write-hit, write-miss}

abbrev cleared : Storage → ℕ → Storage
cleared s handle = record s {
  slot = write s.slot (hash_of s handle) none;
  name = without_handle handle s.name;
}

clear_slot-hit :
    (s : Storage) (h c : ℕ) → s.handle_of c ≡ h → clear_slot s h (some c) ≡ (true, cleared s h)
unfolding clear_slot
clear_slot-hit s h c e =
    ap (λ (b : Bool). if b then (true, cleared s h) else (false, s))
      (ap (λ (x : ℕ). x == h) e ∙ ==_refl h)

clear_slot-miss :
    (s : Storage) (h : ℕ) (o : Option ℕ)
    → ((c : ℕ) → o ≡ some c → s.handle_of c ≢ h)
    → clear_slot s h o ≡ (false, s)
unfolding clear_slot
clear_slot-miss s h none n = refl
clear_slot-miss s h (some c) n =
    ap (λ (b : Bool). if b then (true, cleared s h) else (false, s))
      (ne→== (s.handle_of c) h (n c refl))

-- No name of a handle is left.
abbrev pub NoName : ℕ → List HandleName → Type 0
NoName h [] = Unit
NoName h (n ∷ ns) = (n.handle ≢ h) × NoName h ns

without_handle-NoName : (h : ℕ) (ns : List HandleName) → NoName h (without_handle h ns)
unfolding without_handle
without_handle-NoName h [] = tt
without_handle-NoName h (n ∷ ns) = elim (Bool-cases (n.handle == h)) [
  | inl e ↦ rw e (without_handle-NoName h ns)
  | inr e ↦ rw e (==→ne n.handle h e, without_handle-NoName h ns)
]

cleared-Answers :
    (s : Storage) (k h c : ℕ)
    → IsValid s k
    → Answers s h c
    → (h' d : ℕ) → Answers (cleared s h) h' d ↔ (Answers s h' d × (h' ≢ h))
cleared-Answers s k h c v a h' d = elim (Bool-cases (hash_of s h == h' % s.slot_size)) [
  | inl e ↦
      let there = ==→eq (hash_of s h) (h' % s.slot_size) e in
      let gone = write-hit s.slot (hash_of s h) (h' % s.slot_size) none e in
      let same = sym (hash_of-eq s k h v) ∙ there in
      (
        λ b. let w : none ≡ some d = sym gone ∙ b.0 in absurd (cc),
        λ b.
            let w : some c ≡ some d = sym a.0 ∙ ap s.slot same ∙ b.0.0 in
            absurd (b.1 (sym b.0.1 ∙ ap s.handle_of (sym ((some-eq_iff c d).0 w)) ∙ a.1)),
      )
  | inr e ↦
      let kept = write-miss s.slot (hash_of s h) (h' % s.slot_size) none e in
      (
        λ b. (
          (sym kept ∙ b.0, b.1),
          λ w.
              ==→ne (hash_of s h) (h' % s.slot_size) e
                (hash_of-eq s k h v ∙ ap (λ (x : ℕ). x % s.slot_size) (sym w)),
        ),
        λ b. (kept ∙ b.0.0, b.0.1),
      )
]

cleared-IsValid : (s : Storage) (k h : ℕ) → IsValid s k → IsValid (cleared s h) k
cleared-IsValid s k h v = record {
  size = v.size;
  small = v.small;
  home = v.home;
  placed = λ i c e. elim (Bool-cases (hash_of s h == i)) [
    | inl q ↦
        let w : none ≡ some c = sym (write-hit s.slot (hash_of s h) i none q) ∙ e in absurd (cc)
    | inr q ↦ v.placed i c (sym (write-miss s.slot (hash_of s h) i none q) ∙ e)
  ];
}

retire-hit :
    (s : Storage) (k h c : ℕ) → IsValid s k → Answers s h c → retire s h ≡ (true, cleared s h)
unfolding retire
retire-hit s k h c v a =
    ap (clear_slot s h) (ap s.slot (hash_of-eq s k h v) ∙ a.0) ∙ clear_slot-hit s h c a.1

-- Retiring a handle that does not answer returns 0 and changes nothing.
pub retire-miss :
    (s : Storage) (k h : ℕ) → IsValid s k → ((c : ℕ) → Answers s h c → ⊥) → retire s h ≡ (false, s)
unfolding retire
retire-miss s k h v n =
    clear_slot-miss s h (s.slot (hash_of s h))
      (λ c e w. n c (ap s.slot (sym (hash_of-eq s k h v)) ∙ e, w))

-- Retiring a handle that answers returns 1. The table stays well formed, the handle then answers
-- with nothing and has no name, and every other handle answers as before.
pub retire_lem :
    (s : Storage) (k h c : ℕ)
    → IsValid s k
    → Answers s h c
    → ((retire s h).0 ≡ true)
      × IsValid (retire s h).1 k
      × NoName h (retire s h).1.name
      × ((h' d : ℕ) → Answers (retire s h).1 h' d ↔ (Answers s h' d × (h' ≢ h)))
retire_lem s k h c v a =
    subst
      (λ (r : Bool × Storage).
        (r.0 ≡ true)
        × IsValid r.1 k
        × NoName h r.1.name
        × ((h' d : ℕ) → Answers r.1 h' d ↔ (Answers s h' d × (h' ≢ h))))
      (sym (retire-hit s k h c v a))
      (refl, cleared-IsValid s k h v, without_handle-NoName h s.name, cleared-Answers s k h c v a)
