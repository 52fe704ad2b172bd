-- ===== src/Timer.antt =====
-- skynet/skynet-src/skynet_timer.c, the timing wheel. An operation that holds the wheel's spinlock is
-- one step; times are 32-bit words with their wrap.
pub mod Words
pub mod Places
pub mod Lists
pub mod Update
pub mod Ticks
pub mod Clock
mod Tests
use sdy.Base.{
  Bool, List, Option, [], bit_and, bit_or, false, if◌then◌else◌, ltb, none, some, suc, zero, ℕ, ◌%◌,
  ◌&&◌, ◌*◌, ◌++◌, ◌+◌, ◌-◌, ◌/◌, ◌==◌, ◌^◌, ◌∷◌,
}

-- `struct timer_node` with the `struct timer_event` behind it.
pub record Node : Type 0 where
  pub expire : ℕ
  pub handle : ℕ
  pub session : ℕ

-- A list of the wheel: one of `near`, or one of `t`.
pub data Place : Type 0 where
  near : ℕ → Place
  level : ℕ → ℕ → Place

-- `struct timer`; `lists` holds both of its arrays of lists.
pub record Timer : Type 0 where
  pub lists : Place → List Node
  pub time : ℕ
  pub starttime : ℕ
  pub current : ℕ
  pub current_point : ℕ

abbrev pub same_place : Place → Place → Bool
same_place (near i) (near j) = i == j
same_place (near i) (level k j) = false
same_place (level l i) (near j) = false
same_place (level l i) (level k j) = (l == k) && (i == j)

unfoldable pub set_list : Timer → Place → List Node → Timer
set_list T p ns = record T { lists = λ q. if same_place p q then ns else T.lists q }

-- `link_clear`, without the list that it returns.
unfoldable pub link_clear : Timer → Place → Timer
link_clear T p = set_list T p []

-- `link`
unfoldable pub link : Timer → Place → Node → Timer
link T p node = set_list T p (T.lists p ++ node ∷ [])

-- The test of `add_node` for a mask.
abbrev pub same_above : ℕ → ℕ → ℕ → Bool
same_above mask time current_time = bit_or time (mask - 1) == bit_or current_time (mask - 1)

-- `for (i=0;i<3;i++)` of `add_node`
unfoldable pub level_of : ℕ → ℕ → ℕ → ℕ → ℕ → ℕ
level_of zero i mask time current_time = i
level_of (suc rounds) i mask time current_time =
    let rest = level_of rounds (i + 1) (mask * 2 ^ 6) time current_time in
    if same_above mask time current_time then i else rest

-- Where `add_node` links a node.
unfoldable pub place_of : ℕ → ℕ → Place
place_of current_time time =
    let i = level_of 3 0 (2 ^ 14) time current_time in
    if same_above (2 ^ 8) time current_time
    then near (bit_and time 255)
    else level i (bit_and (time / 2 ^ (8 + i * 6)) 63)

unfoldable pub add_node : Timer → Node → Timer
add_node T node = link T (place_of T.time node.expire) node

-- `timer_add`, with the event's handle and session.
unfoldable pub timer_add : Timer → ℕ → ℕ → ℕ → Timer
timer_add T handle session time =
    add_node T (record { expire = (time + T.time) % 2 ^ 32; handle = handle; session = session })

-- The loop of `move_list`.
unfoldable pub add_all : Timer → List Node → Timer
add_all T [] = T
add_all T (n ∷ ns) = add_all (add_node T n) ns

unfoldable pub move_list : Timer → Place → Timer
move_list T p = add_all (link_clear T p) (T.lists p)

-- The list that the loop of `timer_shift` moves for the new time `ct`; a positive word has a bit set
-- in one of its five fields, so the loop ends within four rounds.
unfoldable pub shift_loop : ℕ → ℕ → ℕ → ℕ → ℕ → Option Place
shift_loop zero ct mask time i = none
shift_loop (suc rounds) ct mask time i =
    let idx = bit_and time 63 in
    let rest = shift_loop rounds ct (mask * 2 ^ 6) (time / 2 ^ 6) (i + 1) in
    if bit_and ct (mask - 1) == 0 then (if idx == 0 then rest else some (level i idx)) else none

unfoldable pub moved_place : ℕ → Option Place
moved_place ct = if ct == 0 then some (level 3 0) else shift_loop 4 ct (2 ^ 8) (ct / 2 ^ 8) 0

abbrev pub move_if : Timer → Option Place → Timer
move_if T none = T
move_if T (some p) = move_list T p

-- `timer_shift`
unfoldable pub timer_shift : Timer → Timer
timer_shift T = let ct = (T.time + 1) % 2 ^ 32 in move_if (record T { time = ct }) (moved_place ct)

-- `timer_execute`: the nodes handed to `dispatch_list`, in order. The second test of the loop finds
-- the list empty, since a timer with a positive delay is never linked into the current list.
unfoldable pub timer_execute : Timer → List Node × Timer
timer_execute T = let p = near (bit_and T.time 255) in (T.lists p, link_clear T p)

-- `timer_update`
unfoldable pub timer_update : Timer → List Node × Timer
timer_update T =
    let first = timer_execute T in
    let second = timer_execute (timer_shift first.1) in (first.0 ++ second.0, second.1)

-- `timer_create_timer`, and the clock values that `skynet_timer_init` stores.
unfoldable pub timer_create : ℕ → ℕ → ℕ → Timer
timer_create starttime current current_point = record {
  lists = λ p. [];
  time = 0;
  starttime = starttime;
  current = current;
  current_point = current_point;
}

-- `for (i=0;i<diff;i++)` of `skynet_updatetime`: the dispatched nodes, in order.
unfoldable pub updates : ℕ → Timer → List Node × Timer
updates zero T = ([], T)
updates (suc n) T =
    let first = timer_update T in let rest = updates n first.1 in (first.0 ++ rest.0, rest.1)

-- `skynet_updatetime`, when `gettime` returns `cp`.
unfoldable pub updatetime : ℕ → Timer → List Node × Timer
updatetime cp T =
    let diff = (cp + 2 ^ 64 - T.current_point) % 2 ^ 32 in
    if ltb cp T.current_point
    then ([], record T { current_point = cp })
    else if cp == T.current_point
    then ([], T)
    else updates diff (record T { current_point = cp; current = (T.current + diff) % 2 ^ 64 })

-- `skynet_timeout` by the sign of its `int` delay: a message at once, or a node in the wheel.
unfoldable pub timeout : Timer → ℕ → ℕ → ℕ → Option Node × Timer
timeout T handle zero session =
    (some (record { expire = T.time; handle = handle; session = session }), T)
timeout T handle (suc time) session = (none, timer_add T handle session (suc time))
