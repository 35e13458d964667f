-- ===== src/ThreadPool.antt =====
-- muduo/base/ThreadPool.h and ThreadPool.cc: a bounded queue of tasks between callers of `run` and the
-- pool's threads. A critical section is one step; a thread in `wait()` gives up the lock until it is
-- notified or wakes by itself, and then takes the test of its loop again. A task is a number.
pub mod Wakeups
mod Tests
use my_cisdi_code.Prelude.{
  Bool, List, Result, [], check, false, if◌then◌else◌, leb, length, ltb, max_size, ok, true, ℕ,
  ◌&&◌, ◌++◌, ◌+◌, ◌-◌, ◌==◌, ◌>>=◌, ◌>>◌, ◌∷◌,
}

pub record ThreadPool : Type 0 where
  -- `threads_.size()`
  pub threads : ℕ
  pub queue : List ℕ
  pub max_queue_size : ℕ
  pub running : Bool
  -- Threads in `notEmpty_.wait()`, and those that left it and do not have the lock yet.
  pub asleep_takers : ℕ
  pub woken_takers : ℕ
  -- The same for `notFull_`.
  pub asleep_runners : ℕ
  pub woken_runners : ℕ

-- The constructor, with `setMaxQueueSize`.
abbrev pub new_pool : ℕ → ThreadPool
new_pool max_size = record {
  threads = 0;
  queue = [];
  max_queue_size = max_size;
  running = false;
  asleep_takers = 0;
  woken_takers = 0;
  asleep_runners = 0;
  woken_runners = 0;
}

unfoldable pub start : ℕ → ThreadPool → Result ThreadPool
start num_threads p = do
  check (p.threads == 0)
  ok (record p { running = true; threads = num_threads })

abbrev pub notify_not_empty : ThreadPool → ThreadPool
notify_not_empty p =
    if p.asleep_takers == 0
    then p
    else record p { asleep_takers = p.asleep_takers - 1; woken_takers = p.woken_takers + 1 }

abbrev pub notify_not_full : ThreadPool → ThreadPool
notify_not_full p =
    if p.asleep_runners == 0
    then p
    else record p { asleep_runners = p.asleep_runners - 1; woken_runners = p.woken_runners + 1 }

-- What `stop` does before it joins the threads: `notifyAll`, and the flag.
abbrev pub stop : ThreadPool → ThreadPool
stop p = record p {
  asleep_takers = 0;
  woken_takers = p.woken_takers + p.asleep_takers;
  running = false;
}

abbrev pub is_full : ThreadPool → Bool
is_full p = ltb 0 p.max_queue_size && leb p.max_queue_size (length p.queue)

pub data Ran : Type 0 where
  -- The caller runs the task, waits, or has put it into the queue.
  ran_here waits_not_full queued : Ran

-- `run` from the test of its loop on, with the lock; `assert(!isFull())` behind the loop repeats its test.
unfoldable pub run_locked : ℕ → ThreadPool → Ran × ThreadPool
run_locked task p =
    if is_full p
    then (waits_not_full, record p { asleep_runners = p.asleep_runners + 1 })
    else (queued, notify_not_empty (record p { queue = p.queue ++ (task ∷ []) }))

unfoldable pub run : ℕ → ThreadPool → Ran × ThreadPool
unfolding run_locked
run task p = if p.threads == 0 then (ran_here, p) else run_locked task p

pub data Took : Type 0 where
  waits_not_empty took_nothing : Took
  took : ℕ → Took

-- `take` from the test of its loop on, with the lock.
unfoldable pub take_locked : List ℕ → ThreadPool → Took × ThreadPool
take_locked [] p =
    if p.running
    then (waits_not_empty, record p { asleep_takers = p.asleep_takers + 1 })
    else (took_nothing, p)
take_locked (t ∷ ts) p = (
  took t,
  (if ltb 0 p.max_queue_size
      then notify_not_full (record p { queue = ts })
      else record p { queue = ts }),
)

unfoldable pub take_task : ThreadPool → Took × ThreadPool
unfolding take_locked
take_task p = take_locked p.queue p

-- A thread that left `wait()` gets the lock.
abbrev pub runner_resumes : ThreadPool → ThreadPool
runner_resumes p = record p { woken_runners = p.woken_runners - 1 }

abbrev pub taker_resumes : ThreadPool → ThreadPool
taker_resumes p = record p { woken_takers = p.woken_takers - 1 }
