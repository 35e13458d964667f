-- ===== src/TimerQueue/Tests.antt =====
-- A timer queue at concrete inputs.
use my_cisdi_code.Prelude.{
  List, [], ap, arith, false, none, ok, refl, some, sym, true, ℕ, ◌*◌, ◌+◌, ◌/◌, ◌<◌, ◌||◌, ◌∷◌,
  ◌≡◌,
}
use my_cisdi_code.Prelude.PairSet.{Pair, erase, insert, member, same}
use my_cisdi_code.TimerQueue.{
  Command, Timer, TimerQueue, add_timer, cancel, cancel_in_loop, get_expired, handle_read,
  how_much_time_from_now, new_timer_queue, reset, run_commands, set_heap,
}
use my_cisdi_code.TimerQueue.Alarm.{IsCovered}
use my_cisdi_code.TimerQueue.Consistent.{IsConsistent}
use my_cisdi_code.TimerQueue.Adding.{Added, add_timer-done}
use my_cisdi_code.TimerQueue.Canceling.{Canceled, cancel_in_loop-done}
use my_cisdi_code.TimerQueue.Expiring.{Expired, get_expired-done}
use my_cisdi_code.TimerQueue.Callbacks.{CallbacksFit}
use my_cisdi_code.TimerQueue.HandleRead.{calling, cancel-reset, handle_read-done}
use my_cisdi_code.TimerQueue.Timerfd.{how_much_time_from_now_lem}

-- A timer at the address 100 that repeats each 10 microseconds, due at 50.
abbrev ticker : Timer
ticker = record { expiration = 50; interval = 10; repeat = true; sequence = 1 }

abbrev one_timer : TimerQueue
one_timer = record (new_timer_queue (λ n. 60)) {
  timers = (50, 100) ∷ [];
  active_timers = (100, 1) ∷ [];
  heap = set_heap 100 (some ticker) (λ n. none);
  num_created = 1;
  timerfd = record { alarm = some (record { fires_at = 50; set_at = 40 }); resets = 1 };
}

pair_eq : (a b c d : ℕ) → (same (a, b) (c, d) || false) ≡ true → (a ≡ c) × (b ≡ d)
pair_eq a b c d e = ground arith

one_timer-IsConsistent : IsConsistent [] one_timer
unfolding member
one_timer-IsConsistent = record {
  by_time = λ w a m.
      (let (at, is) = pair_eq w a 50 100 m in
        (
          ticker,
          ap one_timer.heap is,
          sym at,
          ap (λ n. member (n, 1) one_timer.active_timers) is,
          omega arith,
        ));
  by_address = λ a s m.
      (let (is, number) = pair_eq a s 100 1 m in
        (ticker, ap one_timer.heap is, sym number, ap (λ n. member (50, n) one_timer.timers) is));
  taken = λ w a m. absurd (cc);
  timers_Increasing = (tt, tt);
  active_Increasing = (tt, tt);
  out_Increasing = tt;
  sizes = refl;
}

abbrev cancels_itself : Pair → List Command
cancels_itself e = cancel (100, 1) ∷ []

cancels_itself-fits : (es : List Pair) (q : TimerQueue) → CallbacksFit cancels_itself es q
cancels_itself-fits [] q = tt
cancels_itself-fits (e ∷ es) q = ((tt, λ q' went. tt), λ q' went. cancels_itself-fits es q')

handle_read-done_example :
    (q' : TimerQueue) × (handle_read cancels_itself 60 one_timer ≡ ok q')
    × IsConsistent [] q'
    × IsCovered q'
handle_read-done_example =
    handle_read-done cancels_itself 60 one_timer one_timer-IsConsistent (omega arith)
      (λ q1 es e. cancels_itself-fits es (calling q1))

-- The timer that cancels itself is gone afterwards.
handled :
    handle_read cancels_itself 60 one_timer
    ≡ ok (record one_timer {
      timers = [];
      active_timers = [];
      canceling_timers = (100, 1) ∷ [];
      heap = set_heap 100 none one_timer.heap;
      timerfd = record { alarm = none; resets = 1 };
    })
unfolding handle_read member insert erase
handled = refl

-- The state in the callback of the timer.
abbrev in_callback : TimerQueue
in_callback = record one_timer { timers = []; active_timers = []; calling_expired_timers = true }

in_callback-IsConsistent : IsConsistent ((50, 100) ∷ []) in_callback
unfolding member
in_callback-IsConsistent = record {
  by_time = λ w a m. absurd (cc);
  by_address = λ a s m. absurd (cc);
  taken = λ w a m.
      (let (at, is) = pair_eq w a 50 100 m in
        (ticker, ap one_timer.heap is, sym at, refl, omega arith));
  timers_Increasing = tt;
  active_Increasing = tt;
  out_Increasing = (tt, tt);
  sizes = refl;
}

cancel-reset_example :
    (q2 : TimerQueue) × (q3 : TimerQueue) × (run_commands (cancel (100, 1) ∷ []) in_callback
      ≡ ok q2)
    × (reset 60 ((50, 100) ∷ []) (record q2 { calling_expired_timers = false }) ≡ ok q3)
    × (member (100, 1) q3.active_timers ≡ false)
cancel-reset_example =
    cancel-reset ((50, 100) ∷ []) in_callback (100, 1) [] 60 in_callback-IsConsistent refl
      (omega arith) (λ q1 e. tt) (omega arith)

get_expired-done_example : Expired 60 one_timer (get_expired 60 one_timer)
get_expired-done_example = get_expired-done one_timer one_timer-IsConsistent 60

add_timer-done_example : Added [] 200 40 one_timer (add_timer 200 40 0 false one_timer)
add_timer-done_example =
    add_timer-done [] one_timer one_timer-IsConsistent 200 40 0 false refl (omega arith)

cancel_in_loop-done_example : Canceled [] (100, 1) one_timer (cancel_in_loop (100, 1) one_timer)
cancel_in_loop-done_example = cancel_in_loop-done [] one_timer one_timer-IsConsistent (100, 1)

how_much_time_from_now_lem_example :
    ((how_much_time_from_now 5000000 1000000).1 < 1000000000)
    × ((how_much_time_from_now 5000000 1000000).0 * 1000000
          + (how_much_time_from_now 5000000 1000000).1 / 1000
        ≡ 4000000)
how_much_time_from_now_lem_example = how_much_time_from_now_lem 5000000 1000000
