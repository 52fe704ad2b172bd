-- ===== src/Ring/Copy.antt =====
-- What a ring copies out: its elements, oldest first, as a list.
use sdy.Base.{
  Bool-cases, List, [], add-mod_right, ap, append_assoc, ap₂, arith, get_or, get_or-append_head,
  get_or-set_ne, get_or-set_self, inl, inr, leb, length, length-append, mod-eq_of_lt, mod_self,
  refl, set, suc, sym, zero, ℕ, ◌%◌, ◌++◌, ◌+◌, ◌-◌, ◌<◌, ◌∙◌, ◌∷◌, ◌≡◌, ◌≢◌, ◌≤◌,
}
use sdy.Base.Modulo.{mod_once, mod-ne_of_lt}
use sdy.Ring.{copy_ring, ring_size, ring_list, after}

module _ {A : Type 0} (d : A) where
  pub length-copy_ring : (queue : List A) (size i n : ℕ) → length (copy_ring d queue size i n) ≡ n
  unfolding copy_ring
  length-copy_ring queue size i zero = refl
  length-copy_ring queue size i (suc n) = ap suc (length-copy_ring queue size (i + 1) n)

  -- A turn of the ring changes nothing.
  pub copy_ring_turn :
      (queue : List A) (size i n : ℕ)
      → copy_ring d queue size (i + size) n ≡ copy_ring d queue size i n
  unfolding copy_ring
  copy_ring_turn queue size i zero = refl
  copy_ring_turn queue size i (suc n) =
      ap₂ ◌∷◌ (ap (λ (k : ℕ). get_or queue k d) (add-mod_right i size)) (
        ap (λ (k : ℕ). copy_ring d queue size k n) (omega arith)
        ∙ copy_ring_turn queue size (i + 1) n)

  -- The oldest message comes first.
  pub copy_ring_first :
      (queue : List A) (size i n : ℕ)
      → copy_ring d queue size i (n + 1)
        ≡ get_or queue (i % size) d ∷ copy_ring d queue size (i + 1) n
  unfolding copy_ring
  copy_ring_first queue size i n =
      ap (copy_ring d queue size i) {x = n + 1} {y = suc n} (omega arith)

  -- The newest message comes last.
  pub copy_ring_last :
      (queue : List A) (size i n : ℕ)
      → copy_ring d queue size i (suc n)
        ≡ copy_ring d queue size i n ++ get_or queue ((i + n) % size) d ∷ []
  unfolding copy_ring
  copy_ring_last queue size i zero = ap (λ (k : ℕ). get_or queue (k % size) d ∷ []) (omega arith)
  copy_ring_last queue size i (suc n) = ap (◌∷◌ (get_or queue (i % size) d)) (
      copy_ring_last queue size (i + 1) n
      ∙ ap (λ (k : ℕ). copy_ring d queue size (i + 1) n ++ get_or queue (k % size) d ∷ [])
          (omega arith))

  -- A write past the visited slots is not seen.
  pub copy_ring-set_ne :
      (queue : List A) (size i j n : ℕ) (m : A)
      → ((k : ℕ) → k < n → j ≢ (i + k) % size)
      → copy_ring d (set queue j m) size i n ≡ copy_ring d queue size i n
  unfolding copy_ring
  copy_ring-set_ne queue size i j zero m h = refl
  copy_ring-set_ne queue size i j (suc n) m h =
      ap₂ ◌∷◌
        (get_or-set_ne queue j (i % size) m d
          (λ e. h 0 (omega arith) (e ∙ ap (λ (t : ℕ). t % size) (omega arith))))
        (copy_ring-set_ne queue size (i + 1) j n m
          (λ k p e. h (k + 1) (omega arith) (e ∙ ap (λ (t : ℕ). t % size) (omega arith))))

  -- Writing the slot just past `n` messages appends the message.
  pub copy_ring-set :
      (queue : List A) (size i n : ℕ) (m : A)
      → size ≤ length queue
      → i < size
      → n < size
      → copy_ring d (set queue ((i + n) % size) m) size i (suc n)
        ≡ copy_ring d queue size i n ++ m ∷ []
  copy_ring-set queue size i n m hl hi hn =
      copy_ring_last (set queue ((i + n) % size) m) size i n
      ∙ ap₂ (λ xs x. xs ++ x ∷ [])
          (copy_ring-set_ne queue size i ((i + n) % size) n m
            (λ k p e. mod-ne_of_lt i k n size hi p hn (sym e)))
          (get_or-set_self queue ((i + n) % size) m d (omega arith))

  -- Read from its start with no wrap, storage gives back what it begins with.
  pub copy_ring_prefix :
      (pre xs rest : List A) (size : ℕ)
      → length pre + length xs ≤ size
      → copy_ring d (pre ++ (xs ++ rest)) size (length pre) (length xs) ≡ xs
  unfolding copy_ring
  copy_ring_prefix pre [] rest size h = refl
  copy_ring_prefix pre (x ∷ xs) rest size h =
      ap₂ ◌∷◌
        (ap (λ (k : ℕ). get_or (pre ++ (x ∷ (xs ++ rest))) k d) (mod-eq_of_lt (omega arith))
          ∙ get_or-append_head pre x (xs ++ rest) d)
        (ap₂ (λ (ys : List A) (k : ℕ). copy_ring d ys size k (length xs))
            (sym (append_assoc pre (x ∷ []) (xs ++ rest)))
            (omega (arith, length-append pre (x ∷ [])))
          ∙ copy_ring_prefix (pre ++ x ∷ []) xs rest size
              (omega (arith, length-append pre (x ∷ []))))

  -- `tail` is the slot just past the queued elements.
  tail_slot :
      (cap head tail : ℕ) → head < cap → tail < cap → tail ≡ (head + ring_size cap head tail) % cap
  tail_slot cap head tail h t = elim (Bool-cases (leb head tail)) [
    | inl e ↦ rw e (
        sym (
          ap (λ (x : ℕ). x % cap) {x = head + (tail - head)} {y = tail} (ground arith)
          ∙ mod-eq_of_lt t))
    | inr e ↦ rw e (
        sym (
          mod_once (head + (tail + cap - head)) cap (omega (arith, h, t)) (ground arith)
          ∙ ground arith))
  ]

  -- Storing at `tail` appends.
  pub copy_ring-store :
      (queue : List A) (cap head tail : ℕ) (m : A)
      → cap ≤ length queue
      → head < cap
      → tail < cap
      → copy_ring d (set queue tail m) cap head (suc (ring_size cap head tail))
        ≡ ring_list d queue cap head tail ++ m ∷ []
  unfolding ring_list
  copy_ring-store queue cap head tail m s h t =
      ap (λ (x : ℕ). copy_ring d (set queue x m) cap head (suc (ring_size cap head tail)))
        (tail_slot cap head tail h t)
      ∙ copy_ring-set queue cap head (ring_size cap head tail) m s h (ground arith)

  -- A store that does not fill the ring appends.
  pub ring_list-store :
      (queue : List A) (cap head tail : ℕ) (m : A)
      → cap ≤ length queue
      → head < cap
      → tail < cap
      → head ≢ after cap tail
      → ring_list d (set queue tail m) cap head (after cap tail)
        ≡ ring_list d queue cap head tail ++ m ∷ []
  ring_list-store queue cap head tail m s h t n =
      let more : ring_size cap head (after cap tail) ≡ suc (ring_size cap head tail) =
        ground arith in
      unfold ring_list in
      ap (copy_ring d (set queue tail m) cap head) more
      ∙ copy_ring-store queue cap head tail m s h t

  -- A store that meets `head` fills the ring.
  pub ring_list-fill :
      (queue : List A) (cap head tail : ℕ) (m : A)
      → cap ≤ length queue
      → head < cap
      → tail < cap
      → head ≡ after cap tail
      → copy_ring d (set queue tail m) cap head cap ≡ ring_list d queue cap head tail ++ m ∷ []
  ring_list-fill queue cap head tail m s h t e =
      let full : cap ≡ suc (ring_size cap head tail) = ground arith in
      ap (copy_ring d (set queue tail m) cap head) full
      ∙ copy_ring-store queue cap head tail m s h t

  copy_ring-after :
      (queue : List A) (cap head n : ℕ)
      → head < cap
      → copy_ring d queue cap (after cap head) n ≡ copy_ring d queue cap (head + 1) n
  copy_ring-after queue cap head n h = elim (Bool-cases (leb cap (head + 1))) [
    | inl e ↦ rw e (
        sym (copy_ring_turn queue cap 0 n)
        ∙ ap (λ (k : ℕ). copy_ring d queue cap k n) (ground arith))
    | inr e ↦ rw e refl
  ]

  -- Taking at `head` takes the oldest.
  pub ring_list-take :
      (queue : List A) (cap head tail : ℕ)
      → head < cap
      → tail < cap
      → head ≢ tail
      → ring_list d queue cap head tail
        ≡ get_or queue head d ∷ ring_list d queue cap (after cap head) tail
  unfolding ring_list
  ring_list-take queue cap head tail h t n =
      let k = ring_size cap (after cap head) tail in
      let one : ring_size cap head tail ≡ suc k = ground arith in
      ap (copy_ring d queue cap head) one
      ∙ unfold copy_ring in
        ap₂ (λ (i : ℕ) xs. get_or queue i d ∷ xs) (mod-eq_of_lt h)
          (sym (copy_ring-after queue cap head k h))

  pub ring_list-empty : (queue : List A) (cap head : ℕ) → ring_list d queue cap head head ≡ []
  unfolding ring_list copy_ring
  ring_list-empty queue cap head =
      let none_left : ring_size cap head head ≡ 0 = ground arith in
      ap (copy_ring d queue cap head) none_left

  -- What was copied to the front of larger storage is the ring.
  pub ring_list-copied :
      (xs rest : List A) (cap : ℕ)
      → length xs ≤ cap
      → ring_list d (xs ++ rest) cap 0 (length xs) ≡ xs
  unfolding ring_list
  ring_list-copied xs rest cap h =
      ap (copy_ring d (xs ++ rest) cap 0) {x = ring_size cap 0 (length xs)} {y = length xs}
        (ground arith)
      ∙ copy_ring_prefix [] xs rest cap (omega (arith, h))

-- One step round the ring, as a remainder.
pub after-mod : (cap i : ℕ) → i < cap → (i + 1) % cap ≡ after cap i
after-mod cap i h = elim (Bool-cases (leb cap (i + 1))) [
  | inl e ↦ let q : i + 1 ≡ cap = ground arith in rw e (ap (λ (x : ℕ). x % cap) q ∙ mod_self cap)
  | inr e ↦ rw e (mod-eq_of_lt (ground arith))
]
