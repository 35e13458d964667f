-- ===== src/ThreadPool/Tests.antt =====
-- A pool at concrete inputs.
use my_cisdi_code.Prelude.{List, [], ok, ◌∷◌, ◌≡◌}
use my_cisdi_code.ThreadPool.{ThreadPool, new_pool, start}
use my_cisdi_code.ThreadPool.Wakeups.{
  Event, IsAwake, run_calls, steps, steps-IsAwake, stops, take_calls, take_resumes,
}

-- A thread sleeps, two tasks come, and the pool stops while the third caller waits.
abbrev day : List Event
day = take_calls ∷ run_calls 1 ∷ run_calls 2 ∷ take_resumes ∷ run_calls 3 ∷ run_calls 4 ∷ stops ∷ []

steps-IsAwake_example : (p : ThreadPool) × (start 2 (new_pool 2) ≡ ok p) × IsAwake (steps day p)
steps-IsAwake_example = steps-IsAwake 2 2 day
