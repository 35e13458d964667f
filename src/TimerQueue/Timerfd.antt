-- ===== src/TimerQueue/Timerfd.antt =====
-- The time that the descriptor is set to.
use my_cisdi_code.Prelude.{arith, max, ℕ, ◌*◌, ◌+◌, ◌-◌, ◌/◌, ◌<◌, ◌≡◌, ◌≤◌}
use my_cisdi_code.TimerQueue.{alarm_for, how_much_time_from_now}

-- `howMuchTimeFromNow` gives whole seconds and less than a second of nanoseconds, which together are the
-- microseconds until `when`, and 100 microseconds where less is left or the time has passed.
pub how_much_time_from_now_lem :
    (when now : ℕ)
    → ((how_much_time_from_now when now).1 < 1000000000)
      × ((how_much_time_from_now when now).0 * 1000000 + (how_much_time_from_now when now).1 / 1000
          ≡ max (when - now) 100)
unfolding how_much_time_from_now
how_much_time_from_now_lem when now = ground arith

-- The descriptor fires at `when`, or 100 microseconds after it is set where that is later.
pub alarm_for_lem :
    (when now : ℕ) → (alarm_for when now).fires_at ≤ max when ((alarm_for when now).set_at + 100)
unfolding alarm_for
alarm_for_lem when now = omega (arith, (how_much_time_from_now_lem when now).1)
