-- ===== src/Handle/Tests.antt =====
-- The theorems on the slots of skynet_handle.c at a table of one slot, which is taken.
use sdy.Base.{
  ==→eq, Bool-cases, [], ap, arith, if◌then◌else◌, inl, inr, none, refl, some, some-eq_iff, sym,
  true, ℕ, ◌*◌, ◌+◌, ◌==◌, ◌^◌, ◌↔◌, ◌∙◌, ◌∷◌, ◌≡◌, ◌≢◌, ◌⊎◌,
}
use sdy.Handle.{Storage, grow, register, retire}
use sdy.Handle.Grow.{IsValid, Answers, IsFull, grow_lem}
use sdy.Handle.Register.{IsFresh, Registers, register_lem}
use sdy.Handle.Retire.{NoName, retire_lem}

-- The context 7 has the handle 5 of harbor 1, and a name.
abbrev taken : Storage
taken = record {
  harbor = 2 ^ 24;
  handle_index = 6;
  slot_size = 1;
  slot = λ i. if i == 0 then some 7 else none;
  handle_of = λ c. 2 ^ 24 + 5;
  name = record { name = 97 ∷ []; handle = 2 ^ 24 + 5 } ∷ [];
}

taken-slot : (i c : ℕ) → taken.slot i ≡ some c → (i ≡ 0) × (c ≡ 7)
taken-slot i c e = elim (Bool-cases (i == 0)) [
  | inl t ↦
      (==→eq i 0 t, let q : some 7 ≡ some c = sym (rw t refl) ∙ e in sym ((some-eq_iff 7 c).0 q))
  | inr t ↦ let q : none ≡ some c = sym (rw t refl) ∙ e in absurd (cc)
]

taken-IsValid : IsValid taken 0
taken-IsValid = record {
  size = refl;
  small = omega arith;
  home = refl;
  placed = λ i c e. let p = taken-slot i c e in (omega (arith, p.0), omega (arith, p.0));
}

some_context : (i : ℕ) → i ≡ 0 → taken.slot i ≢ none
some_context i z e = let q : taken.slot 0 ≡ none = ap taken.slot (sym z) ∙ e in absurd (cc)

taken-IsFull : IsFull taken
taken-IsFull i h = some_context i (omega (arith, h))

taken-IsFresh : IsFresh taken 8
taken-IsFresh i e = omega (arith, (taken-slot i 8 e).1)

taken-Answers : Answers taken (2 ^ 24 + 5) 7
taken-Answers = (refl, refl)

unknown : (c : ℕ) → Answers taken 3 c → ⊥
unknown c a = omega (arith, a.1)

grow_lem_example :
    (t : Storage) × (grow taken ≡ some t)
    × IsValid t 1
    × ((h c : ℕ) → Answers taken h c ↔ Answers t h c)
    × (t.slot_size ≡ taken.slot_size * 2)
    × (t.handle_of ≡ taken.handle_of)
    × (t.harbor ≡ taken.harbor)
    × ((t.slot 0 ≡ none) ⊎ (t.slot taken.slot_size ≡ none))
grow_lem_example = grow_lem taken 0 taken-IsValid taken-IsFull (omega arith)

register_lem_example : Registers taken 8 (register taken 8)
register_lem_example = register_lem taken 0 8 taken-IsValid taken-IsFresh (inl (omega arith))

retire_lem_example :
    ((retire taken (2 ^ 24 + 5)).0 ≡ true)
    × IsValid (retire taken (2 ^ 24 + 5)).1 0
    × NoName (2 ^ 24 + 5) (retire taken (2 ^ 24 + 5)).1.name
    × ((h' d : ℕ)
        → Answers (retire taken (2 ^ 24 + 5)).1 h' d ↔ (Answers taken h' d × (h' ≢ 2 ^ 24 + 5)))
retire_lem_example = retire_lem taken 0 (2 ^ 24 + 5) 7 taken-IsValid taken-Answers
