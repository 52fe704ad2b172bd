-- ===== src/Netpack.antt =====
-- skynet/lualib-src/lua-netpack.c, which makes packets of the streams of many sockets: a packet is two
-- bytes with its size, the high one first, and its text. A descriptor is not negative. The queue is
-- the Lua value that the calls share; before the first packet it is nil, here `none`.
pub mod Input
pub mod Frames
pub mod Chains
pub mod Packets
pub mod Filter
pub mod Begin
pub mod Stream
pub mod Serve
pub mod Deliver
mod Tests
use sdy.Base.{
  List, Option, [], get_or, if◌then◌else◌, leb, length, none, replicate, set, some, ℕ, ◌%◌, ◌*◌,
  ◌++◌, ◌+◌, ◌-◌, ◌/◌, ◌==◌, ◌^◌, ◌∷◌,
}
use sdy.Ring.{copy_ring}

abbrev pub queuesize : ℕ
queuesize = 1024

abbrev pub hashsize : ℕ
hashsize = 4096

-- `struct netpack`; the length of `buffer` is its field `size`.
pub record NetPack : Type 0 where
  pub id : ℕ
  pub buffer : List ℕ

-- `struct uncomplete`: a packet of which `read` bytes have come, `none` for -1.
pub record Uncomplete : Type 0 where
  pub id : ℕ
  pub size : ℕ
  pub buffer : List ℕ
  pub read : Option ℕ
  pub head_byte : ℕ

-- `struct queue`; `packets` is its array `queue`, and a chain of `hash` is a list.
pub record Queue : Type 0 where
  pub cap : ℕ
  pub head : ℕ
  pub tail : ℕ
  pub hash : ℕ → List Uncomplete
  pub packets : List NetPack

-- What a slot that is not yet written reads as; no valid queue reads one.
abbrev pub blank : NetPack
blank = record { id = 0; buffer = [] }

unfoldable pub new_queue : Queue
new_queue = record {
  cap = queuesize;
  head = 0;
  tail = 0;
  hash = λ i. [];
  packets = replicate queuesize blank;
}

abbrev pub get_queue : Option Queue → Queue
get_queue none = new_queue
get_queue (some q) = q

unfoldable pub hash_fd : ℕ → ℕ
hash_fd fd = (fd / 2 ^ 24 + fd / 2 ^ 12 + fd) % 2 ^ 32 % hashsize

-- A chain without the first packet of a socket, and that packet.
unfoldable pub chain_take : ℕ → List Uncomplete → Option Uncomplete × List Uncomplete
chain_take fd [] = (none, [])
chain_take fd (u ∷ us) =
    let rest = chain_take fd us in if u.id == fd then (some u, us) else (rest.0, u ∷ rest.1)

abbrev pub set_chain : Queue → ℕ → List Uncomplete → Queue
set_chain q i us = record q { hash = λ j. if i == j then us else q.hash j }

-- `find_uncomplete` takes the packet that it finds out of its chain.
unfoldable pub find_uncomplete : Queue → ℕ → Option Uncomplete × Queue
unfolding chain_take hash_fd
find_uncomplete q fd =
    let r = chain_take fd (q.hash (hash_fd fd)) in (r.0, set_chain q (hash_fd fd) r.1)

-- The packet `u` at the front of its chain.
unfoldable pub save_uncomplete : Queue → Uncomplete → Queue
unfolding hash_fd
save_uncomplete q u = set_chain q (hash_fd u.id) (u ∷ q.hash (hash_fd u.id))

-- `close_uncomplete`
unfoldable pub close_uncomplete : Queue → ℕ → Queue
unfolding find_uncomplete
close_uncomplete q fd = (find_uncomplete q fd).1

-- `expand_queue`; the added storage is not yet written.
unfoldable pub expand_queue : Queue → Queue
unfolding copy_ring
expand_queue q = record q {
  cap = q.cap + queuesize;
  head = 0;
  tail = q.cap;
  packets = copy_ring blank q.packets q.cap q.head q.cap ++ replicate queuesize blank;
}

-- `push_data` up to its last test.
unfoldable pub store_pack : Queue → NetPack → Queue
store_pack q p = record q {
  packets = set q.packets q.tail p;
  tail = if leb q.cap (q.tail + 1) then q.tail + 1 - q.cap else q.tail + 1;
}

unfoldable pub push_data : Queue → NetPack → Queue
unfolding store_pack expand_queue
push_data q p = let r = store_pack q p in if r.head == r.tail then expand_queue r else r

-- `lpop`; `none` is the return of nothing.
unfoldable pub lpop : Queue → Option NetPack × Queue
lpop q = if q.head == q.tail then (none, q) else (
  some (get_or q.packets q.head blank),
  record q { head = if leb q.cap (q.head + 1) then 0 else q.head + 1 },
)

-- `read_size`
abbrev pub read_size : ℕ → ℕ → ℕ
read_size hi lo = hi * 2 ^ 8 + lo

-- A packet of which only the first byte has come.
abbrev pub started : ℕ → ℕ → Uncomplete
started fd b = record { id = fd; size = 0; buffer = []; read = none; head_byte = b }

-- A packet whose size is known, and the bytes of it that have come.
unfoldable pub partial_pack : ℕ → ℕ → List ℕ → Uncomplete
partial_pack fd size bytes = record {
  id = fd;
  size = size;
  buffer = bytes ++ replicate (size - length bytes) 0;
  read = some (length bytes);
  head_byte = 0;
}

-- `lpack`; `none` is a call of `luaL_error`.
unfoldable pub lpack : List ℕ → Option (List ℕ)
lpack text =
    let len = length text in
    if leb 65536 len then none else some (len / 2 ^ 8 % 256 ∷ len % 256 ∷ text)
