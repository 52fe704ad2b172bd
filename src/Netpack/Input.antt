-- ===== src/Netpack/Input.antt =====
-- How lua-netpack.c takes the bytes of a socket: `filter_data_` and `push_more`. A nil queue and a new
-- one are the same to every call, so a new one is the result where the source leaves nil.
use sdy.Memory.{memcpy}
use sdy.Base.{
  List, Option, [], drop, if◌then◌else◌, length, ltb, none, replicate, some, suc, take, zero, ℕ,
  ◌*◌, ◌+◌, ◌-◌, ◌==◌, ◌>>=◌, ◌^◌, ◌∷◌,
}
use sdy.Netpack.{
  NetPack, Uncomplete, Queue, get_queue, find_uncomplete, save_uncomplete, close_uncomplete,
  push_data, read_size, started, partial_pack,
}

-- `push_more`; a round takes at least two bytes. It is not called for no bytes, of which it would read
-- the first.
unfoldable pub push_more : ℕ → Queue → ℕ → List ℕ → Option Queue
unfolding save_uncomplete partial_pack push_data
push_more zero q fd bytes = none
push_more (suc fuel) q fd [] = none
push_more (suc fuel) q fd (b ∷ []) = some (save_uncomplete q (started fd b))
push_more (suc fuel) q fd (hi ∷ lo ∷ bytes) =
    let size = read_size hi lo in
    let grown = push_data q (record { id = fd; buffer = take size bytes }) in
    let others = push_more fuel grown fd (drop size bytes) in
    if ltb (length bytes) size
    then some (save_uncomplete q (partial_pack fd size bytes))
    else if length (drop size bytes) == 0
    then some grown
    else others

-- What `filter_data_` returns to Lua: the queue alone, a packet, or that packets are in the queue.
pub data Answer : Type 0 where
  waits : Answer
  data_of : NetPack → Answer
  more : Answer

abbrev pub answered : Answer → Option Queue → Option (Answer × Queue)
answered a o = o >>= λ q. some (a, q)

-- The branch of `filter_data_` for a packet whose size is known and of which `read` bytes have come.
unfoldable pub fill : Queue → ℕ → Uncomplete → ℕ → List ℕ → Option (Answer × Queue)
unfolding memcpy save_uncomplete push_data push_more
fill q fd u read bytes =
    let need = u.size - read in
    let full = memcpy u.buffer read (take need bytes) in
    let rest = drop need bytes in
    let done : NetPack = record { id = fd; buffer = full } in
    if ltb (length bytes) need
    then some (
      waits,
      save_uncomplete q
          (record u { buffer = memcpy u.buffer read bytes; read = some (read + length bytes) }),
    )
    else if length rest == 0
    then some (data_of done, q)
    else answered more (push_more (length rest) (push_data q done) fd rest)

-- The other branch, for a socket of which no packet is pending.
unfoldable pub begin : Queue → ℕ → List ℕ → Option (Answer × Queue)
unfolding save_uncomplete partial_pack push_data push_more
begin q fd [] = none
begin q fd (b ∷ []) = some (waits, save_uncomplete q (started fd b))
begin q fd (hi ∷ lo ∷ bytes) =
    let size = read_size hi lo in
    let rest = drop size bytes in
    if ltb (length bytes) size
    then some (waits, save_uncomplete q (partial_pack fd size bytes))
    else if length bytes == size
    then some (data_of (record { id = fd; buffer = bytes }), q)
    else answered more (
        push_more (length rest) (push_data q (record { id = fd; buffer = take size bytes })) fd
          rest)

-- The first lines of the branch for a pending packet, which read its size if only a byte had come.
unfoldable pub resume : Queue → ℕ → Uncomplete → Option ℕ → List ℕ → Option (Answer × Queue)
unfolding fill
resume q fd u none [] = none
resume q fd u none (b ∷ bytes) =
    let size = b + u.head_byte * 2 ^ 8 in
    fill q fd (record u { size = size; buffer = replicate size 0; read = some 0 }) 0 bytes
resume q fd u (some read) bytes = fill q fd u read bytes

-- `filter_data_`; `none` is a call that reads past the bytes.
unfoldable pub filter_data : Option Queue → ℕ → List ℕ → Option (Answer × Queue)
unfolding find_uncomplete begin resume
filter_data o fd bytes =
    let found = find_uncomplete (get_queue o) fd in
    elim found.0 [ none ↦ begin found.1 fd bytes | some u ↦ resume found.1 fd u u.read bytes ]

-- `lclear`, which frees what is queued and pending.
unfoldable pub lclear : Queue → Queue
lclear q = record q { hash = λ i. []; head = 0; tail = 0 }

-- The messages of a socket, by their type.
pub data SocketMessage : Type 0 where
  data_from : ℕ → List ℕ → SocketMessage
  connected : SocketMessage
  closed : ℕ → SocketMessage
  accepted : ℕ → List ℕ → SocketMessage
  failed : ℕ → List ℕ → SocketMessage
  warned : ℕ → ℕ → SocketMessage
  unknown : SocketMessage

-- What `lfilter` returns beside the queue.
pub data Reply : Type 0 where
  filtered : Answer → Reply
  quiet : Reply
  closes : ℕ → Reply
  opens : ℕ → List ℕ → Reply
  fails : ℕ → List ℕ → Reply
  warns : ℕ → ℕ → Reply

-- `lfilter`
unfoldable pub lfilter : Option Queue → SocketMessage → Option (Reply × Queue)
unfolding filter_data close_uncomplete
lfilter o (data_from fd bytes) = filter_data o fd bytes >>= λ r. some (filtered r.0, r.1)
lfilter o connected = some (quiet, get_queue o)
lfilter o (closed fd) = some (closes fd, close_uncomplete (get_queue o) fd)
lfilter o (accepted fd text) = some (opens fd text, get_queue o)
lfilter o (failed fd text) = some (fails fd text, close_uncomplete (get_queue o) fd)
lfilter o (warned fd size) = some (warns fd size, get_queue o)
lfilter o unknown = some (quiet, get_queue o)
