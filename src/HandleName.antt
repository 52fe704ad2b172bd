-- ===== src/HandleName.antt =====
-- skynet/skynet-src/skynet_handle.c, the sorted array of names. It is the list of its first
-- `name_count` entries; a call holds the storage's lock, so it is one step.
pub mod Order
pub mod Search
pub mod Insert
mod Tests
use sdy.Base.{
  Bool, List, Option, [], assert, false, get_or, if◌then◌else◌, leb, length, ltb, some, suc, true,
  zero, ℕ, ◌*◌, ◌+◌, ◌-◌, ◌/◌, ◌==◌, ◌>>=◌, ◌∷◌,
}

-- `struct handle_name`; the text is its bytes.
pub record HandleName : Type 0 where
  pub name : List ℕ
  pub handle : ℕ

-- The loop of `skynet_handle_retire` that closes the gaps of a handle's names.
unfoldable pub without_handle : ℕ → List HandleName → List HandleName
without_handle h [] = []
without_handle h (n ∷ ns) = if n.handle == h then without_handle h ns else n ∷ without_handle h ns

-- The sign of `strcmp`.
pub data Cmp : Type 0 where
  less : Cmp
  equal : Cmp
  greater : Cmp

abbrev pub strcmp_byte : ℕ → ℕ → Cmp → Cmp
strcmp_byte x y rest = if ltb x y then less else if ltb y x then greater else rest

-- `strcmp` on texts without their final zero.
unfoldable pub strcmp : List ℕ → List ℕ → Cmp
strcmp [] [] = equal
strcmp [] (y ∷ ys) = less
strcmp (x ∷ xs) [] = greater
strcmp (x ∷ xs) (y ∷ ys) = strcmp_byte x y (strcmp xs ys)

abbrev pub nobody : HandleName
nobody = record { name = []; handle = 0 }

abbrev pub name_at : List HandleName → ℕ → List ℕ
name_at ns i = (get_or ns i nobody).name

-- The index of an equal name, or where it would stand.
pub data Place : Type 0 where
  hit : ℕ → Place
  miss : ℕ → Place

abbrev pub halve : Cmp → ℕ → Place → Place → Place
halve less mid below above = above
halve equal mid below above = hit mid
halve greater mid below above = below

-- The loop of `skynet_handle_findname` and of `_insert_name`; `stop` is the source's `end + 1`. Each
-- round makes the range shorter, so its length and one more is enough fuel.
unfoldable pub bisect : ℕ → List HandleName → List ℕ → ℕ → ℕ → Place
unfolding strcmp
bisect zero ns name begin stop = miss begin
bisect (suc fuel) ns name begin stop =
    let mid = (begin + (stop - 1)) / 2 in
    let below = bisect fuel ns name begin mid in
    let above = bisect fuel ns name (mid + 1) stop in
    if ltb begin stop then halve (strcmp (name_at ns mid) name) mid below above else miss begin

unfoldable pub place_of : List HandleName → List ℕ → Place
unfolding bisect
place_of ns name = bisect (length ns + 1) ns name 0 (length ns)

-- `skynet_handle_findname`
abbrev pub handle_at : List HandleName → Place → ℕ
handle_at ns (hit i) = (get_or ns i nobody).handle
handle_at ns (miss i) = 0

unfoldable pub findname : List HandleName → List ℕ → ℕ
unfolding place_of
findname ns name = handle_at ns (place_of ns name)

abbrev pub max_slot_size : ℕ
max_slot_size = 0x40000000

-- The entries that `_insert_name_before` leaves, in either branch.
unfoldable pub insert_at : ℕ → HandleName → List HandleName → List HandleName
insert_at zero n ns = n ∷ ns
insert_at (suc i) n [] = n ∷ []
insert_at (suc i) n (m ∷ ns) = m ∷ insert_at i n ns

-- `_insert_name_before`, with `name_cap`.
unfoldable pub insert_name_before :
    ℕ → List HandleName → HandleName → ℕ → Option (ℕ × List HandleName)
unfolding insert_at
insert_name_before cap ns n before =
    if leb cap (length ns)
    then assert (leb (cap * 2) max_slot_size) (some (cap * 2, insert_at before n ns))
    else some (cap, insert_at before n ns)

-- `skynet_handle_namehandle` with `_insert_name`: whether a text is returned, and the new array.
abbrev pub insert_name :
    ℕ → List HandleName → HandleName → Place → Option (Bool × ℕ × List HandleName)
insert_name cap ns n (hit i) = some (false, cap, ns)
insert_name cap ns n (miss i) = insert_name_before cap ns n i >>= λ r. some (true, r.0, r.1)

unfoldable pub namehandle : ℕ → List HandleName → ℕ → List ℕ → Option (Bool × ℕ × List HandleName)
unfolding place_of insert_name_before
namehandle cap ns handle name =
    insert_name cap ns (record { name = name; handle = handle }) (place_of ns name)
