-- ===== src/Timer/Tests.antt =====
-- The theorems on the wheel of skynet_timer.c just before its time wraps.
use sdy.Base.{Among, [], arith, refl, ◌-◌, ◌<◌, ◌^◌, ◌↔◌, ◌∷◌, ◌≡◌, ◌≢◌, ◌≤◌, ◌⊎◌}
use sdy.Timer.{
  Node, Timer, set_list, link_clear, link, level_of, place_of, add_node, timer_add, add_all,
  move_list, shift_loop, moved_place, timer_shift, timer_execute, timer_update, updates, updatetime,
}
use sdy.Timer.Places.{ticks, next_time}
use sdy.Timer.Update.{Holds, IsValid}
use sdy.Timer.Clock.{timer_update_lem, added, timer_add_lem, updatetime_lem, timer_add-updatetime}

-- No timer, and three ticks to go until the time is 0 again.
abbrev late : Timer
late = record {
  lists = λ p. [];
  time = 2 ^ 32 - 3;
  starttime = 0;
  current = 0;
  current_point = 100;
}

late-IsValid : IsValid late
late-IsValid = record {
  word = omega arith;
  placed = λ p n a. absurd a;
  pending = λ p n a. absurd a;
}

-- A timer for five ticks, past the wrap.
abbrev waiting : Timer
waiting = timer_add late 9 1 5

abbrev node : Node
node = added late 9 1 5

waiting-IsValid : IsValid waiting
waiting-IsValid = (timer_add_lem late 9 1 5 node late-IsValid (omega arith) (omega arith)).0

handed_out : (updatetime 106 waiting).0 ≡ node ∷ []
unfolding updatetime updates timer_update timer_execute timer_shift timer_add add_node link
    link_clear set_list move_list add_all moved_place shift_loop place_of level_of
handed_out = refl

timer_update_lem_example :
    let (handed, U) = timer_update waiting in
    IsValid U
    × (U.time ≡ next_time waiting.time)
    × (Among node handed ↔ (Holds waiting node × (node.expire ≡ next_time waiting.time)))
    × (Holds U node ↔ (Holds waiting node × (node.expire ≢ next_time waiting.time)))
timer_update_lem_example = timer_update_lem waiting node waiting-IsValid

updatetime_lem_example :
    let (handed, U) = updatetime 106 waiting in
    IsValid U
    × (Among node handed
        ↔ (Holds waiting node × (ticks waiting.time node.expire ≤ 106 - waiting.current_point)))
    × (Holds U node
        ↔ (Holds waiting node × (106 - waiting.current_point < ticks waiting.time node.expire)))
unfolding timer_add add_node link set_list
updatetime_lem_example =
    updatetime_lem 106 waiting node waiting-IsValid (omega arith) (omega arith) (omega arith)

timer_add-updatetime_example :
    let n = added waiting 9 2 300 in
    let (handed, V) = updatetime 500 (timer_add waiting 9 2 300) in
    IsValid V
    × (Among n handed
        ↔ ((Holds waiting n × (ticks waiting.time n.expire ≤ 400)) ⊎ ((n ≡ n) × (300 ≤ 400))))
    × (Holds V n
        ↔ ((Holds waiting n × (400 < ticks waiting.time n.expire)) ⊎ ((n ≡ n) × (400 < 300))))
unfolding timer_add add_node link set_list
timer_add-updatetime_example =
    timer_add-updatetime 500 waiting 9 2 300 (added waiting 9 2 300) waiting-IsValid (omega arith)
      (omega arith) (omega arith) (omega arith) (omega arith)
