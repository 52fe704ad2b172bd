-- ===== src/Ring.antt =====
-- A ring in an array, as skynet_mq.c, lua-netpack.c and service_harbor.c each have one: the loop that
-- copies it out, and what storing at `tail` and taking at `head` do to what it copies.
pub mod Copy
use sdy.Base.{List, [], get_or, if◌then◌else◌, leb, suc, zero, ℕ, ◌%◌, ◌+◌, ◌-◌, ◌∷◌}

-- The loop that copies a ring of `size` slots out, `n` rounds from index `i`.
unfoldable pub copy_ring {ℓ} : {A : Type ℓ} → A → List A → ℕ → ℕ → ℕ → List A
copy_ring d queue size i zero = []
copy_ring d queue size i (suc n) = get_or queue (i % size) d ∷ copy_ring d queue size (i + 1) n

-- The messages between `head` and `tail`.
abbrev pub ring_size : ℕ → ℕ → ℕ → ℕ
ring_size cap head tail = if leb head tail then tail - head else tail + cap - head

unfoldable pub ring_list {ℓ} : {A : Type ℓ} → A → List A → ℕ → ℕ → ℕ → List A
unfolding copy_ring
ring_list d queue cap head tail = copy_ring d queue cap head (ring_size cap head tail)

-- An index one further.
abbrev pub after : ℕ → ℕ → ℕ
after cap i = if leb cap (i + 1) then 0 else i + 1
