-- ===== src/Handle.antt =====
-- skynet/skynet-src/skynet_handle.c, the slots: which context answers to which handle. The names of
-- handles are in `HandleName`. Every call holds the storage's lock, so it is one step. A failed
-- `assert` and the use of a null context are `none`.
pub mod Grow
pub mod Register
pub mod Retire
mod Tests
use sdy.Base.{
  Bool, List, Option, [], assert, bit_and, bit_or, false, if◌then◌else◌, leb, none, some, suc, true,
  zero, ℕ, ◌*◌, ◌+◌, ◌-◌, ◌==◌, ◌>>=◌, ◌^◌,
}
use sdy.HandleName.{HandleName, without_handle}

abbrev pub handle_mask : ℕ
handle_mask = 0xffffff

abbrev pub default_slot_size : ℕ
default_slot_size = 4

-- `struct handle_storage`; a context is its address, and `handle_of` its field `handle`
-- (skynet_server.c). `name` holds the first `name_count` entries.
pub record Storage : Type 0 where
  pub harbor : ℕ
  pub handle_index : ℕ
  pub slot_size : ℕ
  pub slot : ℕ → Option ℕ
  pub handle_of : ℕ → ℕ
  pub name : List HandleName

-- `skynet_handle_init`
unfoldable pub init : ℕ → (ℕ → ℕ) → Storage
init harbor handle_of = record {
  harbor = bit_and harbor 0xff * 2 ^ 24;
  handle_index = 1;
  slot_size = default_slot_size;
  slot = λ _. none;
  handle_of = handle_of;
  name = [];
}

-- `a[i] = v`
unfoldable pub write {ℓ} : {A : Type ℓ} → (ℕ → A) → ℕ → A → ℕ → A
write f i v j = if i == j then v else f j

abbrev pub hash_of : Storage → ℕ → ℕ
hash_of s handle = bit_and handle (s.slot_size - 1)

-- The inner loop of `skynet_handle_register`, `n` rounds from `i`: the first handle whose slot is free.
abbrev pub pick : Option ℕ → ℕ → Option ℕ → Option ℕ
pick none handle rest = some handle
pick (some c) handle rest = rest

unfoldable pub probe : Storage → ℕ → ℕ → Option ℕ
probe s zero i = none
probe s (suc n) i =
    let handle = bit_and (i + s.handle_index) handle_mask in
    let rest = probe s n (i + 1) in pick (s.slot (hash_of s handle)) handle rest

-- One round of the copying loop of `skynet_handle_register`: `old` is `new_slot[hash]`.
unfoldable pub move_to : (ℕ → Option ℕ) → ℕ → ℕ → Option ℕ → Option (ℕ → Option ℕ)
unfolding write
move_to new_slot hash c none = some (write new_slot hash (some c))
move_to new_slot hash c (some d) = none

unfoldable pub move_slot : Storage → (ℕ → Option ℕ) → Option ℕ → Option (ℕ → Option ℕ)
unfolding move_to
move_slot s new_slot none = none
move_slot s new_slot (some c) =
    let hash = bit_and (s.handle_of c) (s.slot_size * 2 - 1) in
    move_to new_slot hash c (new_slot hash)

-- That loop, `n` rounds from `i`.
unfoldable pub rehash : Storage → ℕ → ℕ → (ℕ → Option ℕ) → Option (ℕ → Option ℕ)
unfolding move_slot
rehash s zero i new_slot = some new_slot
rehash s (suc n) i new_slot =
    move_slot s new_slot (s.slot i) >>= λ new_slot'. rehash s n (i + 1) new_slot'

-- The rest of a round of `for (;;)`: all slots are taken, and the table doubles.
unfoldable pub grow : Storage → Option Storage
unfolding rehash
grow s = assert (leb (s.slot_size * 2 - 1) handle_mask) (
    rehash s s.slot_size 0 (λ _. none) >>= λ new_slot.
    some (record s { slot = new_slot; slot_size = s.slot_size * 2 }))

-- `s->slot[hash] = ctx; s->handle_index = handle + 1`
unfoldable pub occupy : Storage → ℕ → ℕ → Storage
unfolding write
occupy s ctx handle = record s {
  slot = write s.slot (hash_of s handle) (some ctx);
  handle_index = handle + 1;
}

-- `skynet_handle_register`. After one doubling half of the slots are free, so two rounds are enough.
unfoldable pub register_loop : ℕ → Storage → ℕ → Option (ℕ × Storage)
unfolding probe grow occupy
register_loop zero s ctx = none
register_loop (suc fuel) s ctx = elim (probe s s.slot_size 0) [
  | some handle ↦ some (bit_or handle s.harbor, occupy s ctx handle)
  | none ↦ grow s >>= λ s'. register_loop fuel s' ctx
]

unfoldable pub register : Storage → ℕ → Option (ℕ × Storage)
unfolding register_loop
register s ctx = register_loop 2 s ctx

-- `ctx->handle = handle`, in `skynet_context_new` of skynet_server.c, after the lock is released.
unfoldable pub attach : Storage → ℕ → ℕ → Storage
unfolding write
attach s ctx handle = record s { handle_of = write s.handle_of ctx handle }

-- The test of `skynet_handle_grab`; counting the reference is the context's part.
unfoldable pub accept : Storage → ℕ → Option ℕ → Option ℕ
accept s handle none = none
accept s handle (some c) = if s.handle_of c == handle then some c else none

-- `skynet_handle_grab`
unfoldable pub grab : Storage → ℕ → Option ℕ
unfolding accept
grab s handle = accept s handle (s.slot (hash_of s handle))

-- The body of `skynet_handle_retire` for what stands in the slot.
unfoldable pub clear_slot : Storage → ℕ → Option ℕ → Bool × Storage
unfolding write
clear_slot s handle none = (false, s)
clear_slot s handle (some c) =
    if s.handle_of c == handle
    then (
      true,
      record s { slot = write s.slot (hash_of s handle) none; name = without_handle handle s.name },
    )
    else (false, s)

-- `skynet_handle_retire`: the return value, and the storage; the caller's reference is dropped after.
unfoldable pub retire : Storage → ℕ → Bool × Storage
unfolding clear_slot
retire s handle = clear_slot s handle (s.slot (hash_of s handle))
