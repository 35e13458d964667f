-- ===== src/TimerQueue.antt =====
-- muduo/net/TimerQueue.h, TimerQueue.cc, Timer.h, Timer.cc and TimerId.h: the timers of a loop, kept in a
-- set by expiration and in a set by address. A `Timer*` is an address, and `heap` holds the timer that
-- lives there; `delete` leaves none. Times are microseconds since the epoch, with 0 for an invalid one.
pub mod Timerfd
pub mod Follows
pub mod Consistent
pub mod Inserting
pub mod Adding
pub mod Canceling
pub mod Due
pub mod Expiring
pub mod Callbacks
pub mod Restarting
pub mod HandleRead
pub mod Alarm
mod Tests
use my_cisdi_code.Prelude.{
  Bool, List, Option, Result, [], check, false, fault, if◌then◌else◌, length, ltb, none, not, ok,
  some, true, use_after_free, ℕ, ◌%◌, ◌&&◌, ◌*◌, ◌+◌, ◌-◌, ◌/◌, ◌==◌, ◌>>=◌, ◌>>◌, ◌^◌, ◌∷◌,
}
use my_cisdi_code.Prelude.PairSet.{Pair, before, erase, insert, member}

-- `interval` is what `addTime(now, interval_)` adds, in microseconds; `repeat` is `interval_ > 0.0`.
pub record Timer : Type 0 where
  pub expiration : ℕ
  pub interval : ℕ
  pub repeat : Bool
  pub sequence : ℕ

-- When the descriptor fires, and when that was set.
pub record Setting : Type 0 where
  pub fires_at : ℕ
  pub set_at : ℕ

pub record Descriptor : Type 0 where
  -- What the descriptor was last set to, until it has fired.
  pub alarm : Option Setting
  -- How often it was set.
  pub resets : ℕ

pub record TimerQueue : Type 0 where
  -- Pairs of an expiration and an address.
  pub timers : List Pair
  -- Pairs of an address and a sequence number.
  pub active_timers : List Pair
  pub calling_expired_timers : Bool
  pub canceling_timers : List Pair
  pub heap : ℕ → Option Timer
  -- `Timer::s_numCreated_`
  pub num_created : ℕ
  pub timerfd : Descriptor
  -- What `Timestamp::now()` gives when the descriptor is set for the n-th time.
  pub clock : ℕ → ℕ

abbrev pub new_timer_queue : (ℕ → ℕ) → TimerQueue
new_timer_queue clock = record {
  timers = [];
  active_timers = [];
  calling_expired_timers = false;
  canceling_timers = [];
  heap = λ address. none;
  num_created = 0;
  timerfd = record { alarm = none; resets = 0 };
  clock = clock;
}

abbrev pub uintptr_max : ℕ
uintptr_max = 2 ^ 64 - 1

abbrev pub set_heap : ℕ → Option Timer → (ℕ → Option Timer) → ℕ → Option Timer
set_heap address o heap n = if n == address then o else heap n

abbrev pub live : Option Timer → Result Timer
live none = fault use_after_free
live (some t) = ok t

-- `*timer`
abbrev pub deref : ℕ → TimerQueue → Result Timer
deref address q = live (q.heap address)

abbrev pub delete_timer : ℕ → TimerQueue → TimerQueue
delete_timer address q = record q { heap = set_heap address none q.heap }

-- `timers_.size() == activeTimers_.size()`
abbrev pub same_sizes : TimerQueue → Bool
same_sizes q = length q.timers == length q.active_timers

-- `it == timers_.end() || when < it->first`
abbrev pub is_earliest : ℕ → List Pair → Bool
is_earliest when [] = true
is_earliest when (x ∷ xs) = ltb when x.0

abbrev pub inserted : ℕ → Timer → TimerQueue → TimerQueue
inserted address t q = record q {
  timers = insert (t.expiration, address) q.timers;
  active_timers = insert (address, t.sequence) q.active_timers;
}

-- `insert`, with its result.
unfoldable pub insert_timer : ℕ → TimerQueue → Result (TimerQueue × Bool)
insert_timer address q = do
  check (same_sizes q)
  t ← deref address q
  check (not (member (t.expiration, address) q.timers))
  check (not (member (address, t.sequence) q.active_timers))
  check (same_sizes (inserted address t q))
  ok (inserted address t q, is_earliest t.expiration q.timers)

-- `howMuchTimeFromNow`: the seconds and nanoseconds of the microseconds left, at least 100.
unfoldable pub how_much_time_from_now : ℕ → ℕ → ℕ × ℕ
how_much_time_from_now when now =
    let microseconds = if ltb (when - now) 100 then 100 else when - now in
    (microseconds / 1000000, (microseconds % 1000000) * 1000)

-- `timerfd_settime` at the time `now`, with the time that is left.
unfoldable pub alarm_for : ℕ → ℕ → Setting
unfolding how_much_time_from_now
alarm_for when now =
    let left = how_much_time_from_now when now in
    record { fires_at = now + left.0 * 1000000 + left.1 / 1000; set_at = now }

abbrev pub reset_timerfd : ℕ → TimerQueue → TimerQueue
reset_timerfd expiration q = record q {
  timerfd = record {
    alarm = some (alarm_for expiration (q.clock q.timerfd.resets));
    resets = q.timerfd.resets + 1;
  };
}

-- `readTimerfd`: the descriptor has fired, and is not set any more.
abbrev pub read_timerfd : TimerQueue → TimerQueue
read_timerfd q = record q { timerfd = record q.timerfd { alarm = none } }

unfoldable pub add_timer_in_loop : ℕ → TimerQueue → Result TimerQueue
unfolding insert_timer
add_timer_in_loop address q = do
  (q', earliest_changed) ← insert_timer address q
  t ← deref address q'
  ok (if earliest_changed then reset_timerfd t.expiration q' else q')

-- `new Timer`, at an address that the allocator chose.
abbrev pub new_timer : ℕ → ℕ → ℕ → Bool → TimerQueue → TimerQueue
new_timer address when interval repeat q = record q {
  heap =
      set_heap address
        (some (record {
          expiration = when;
          interval = interval;
          repeat = repeat;
          sequence = q.num_created + 1;
        }))
        q.heap;
  num_created = q.num_created + 1;
}

-- `addTimer` in the thread of the loop, where `runInLoop` calls at once; the result has the TimerId.
unfoldable pub add_timer : ℕ → ℕ → ℕ → Bool → TimerQueue → Result (TimerQueue × Pair)
unfolding add_timer_in_loop
add_timer address when interval repeat q = do
  q' ← add_timer_in_loop address (new_timer address when interval repeat q)
  ok (q', (address, q.num_created + 1))

abbrev pub erase_canceled : Pair → Timer → TimerQueue → TimerQueue
erase_canceled (address, sequence) t q = record q {
  timers = erase (t.expiration, address) q.timers;
  active_timers = erase (address, sequence) q.active_timers;
  heap = set_heap address none q.heap;
}

-- The branch of `cancelInLoop` for a timer that was found.
abbrev pub cancel_found : Pair → TimerQueue → Result TimerQueue
cancel_found id q = do
  t ← deref id.0 q
  check (member (t.expiration, id.0) q.timers)
  check (same_sizes (erase_canceled id t q))
  ok (erase_canceled id t q)

abbrev pub cancel_absent : Pair → TimerQueue → TimerQueue
cancel_absent id q =
    if q.calling_expired_timers
    then record q { canceling_timers = insert id q.canceling_timers }
    else q

unfoldable pub cancel_in_loop : Pair → TimerQueue → Result TimerQueue
cancel_in_loop id q = do
  check (same_sizes q)
  if member id q.active_timers then cancel_found id q else ok (cancel_absent id q)

-- The members before `lower_bound`, and the others.
unfoldable pub take_before : Pair → List Pair → List Pair
take_before bound [] = []
take_before bound (x ∷ xs) = if before x bound then x ∷ take_before bound xs else []

unfoldable pub drop_before : Pair → List Pair → List Pair
drop_before bound [] = []
drop_before bound (x ∷ xs) = if before x bound then drop_before bound xs else x ∷ xs

abbrev pub sentry : ℕ → Pair
sentry now = (now, uintptr_max)

-- `end == timers_.end() || now < end->first`
abbrev pub is_later : ℕ → List Pair → Bool
is_later now [] = true
is_later now (x ∷ xs) = ltb now x.0

-- The loop of `getExpired` over the entries that it took out.
unfoldable pub erase_active : List Pair → TimerQueue → Result TimerQueue
erase_active [] q = ok q
erase_active (e ∷ es) q = do
  t ← deref e.1 q
  check (member (e.1, t.sequence) q.active_timers)
  erase_active es (record q { active_timers = erase (e.1, t.sequence) q.active_timers })

unfoldable pub get_expired : ℕ → TimerQueue → Result (TimerQueue × List Pair)
unfolding take_before drop_before erase_active
get_expired now q = do
  check (same_sizes q)
  check (is_later now (drop_before (sentry now) q.timers))
  q' ←
      erase_active (take_before (sentry now) q.timers)
        (record q { timers = drop_before (sentry now) q.timers })
  check (same_sizes q')
  ok (q', take_before (sentry now) q.timers)

-- What a callback can ask of the queue.
pub data Command : Type 0 where
  add : (address when interval : ℕ) (repeat : Bool) → Command
  cancel : Pair → Command

unfoldable pub run_command : Command → TimerQueue → Result TimerQueue
unfolding add_timer cancel_in_loop
run_command (add address when interval repeat) q = do
  (q', id) ← add_timer address when interval repeat q
  ok q'
run_command (cancel id) q = cancel_in_loop id q

unfoldable pub run_commands : List Command → TimerQueue → Result TimerQueue
unfolding run_command
run_commands [] q = ok q
run_commands (c ∷ cs) q = do q' ← run_command c q; run_commands cs q'

-- The callbacks of the expired timers; `callback` tells what each of them asks.
unfoldable pub run_expired : (Pair → List Command) → List Pair → TimerQueue → Result TimerQueue
unfolding run_commands
run_expired callback [] q = ok q
run_expired callback (e ∷ es) q = do
  t ← deref e.1 q
  q' ← run_commands (callback e) q
  run_expired callback es q'

-- `Timer::restart`
abbrev pub restart : ℕ → Timer → Timer
restart now t = record t { expiration = if t.repeat then now + t.interval else 0 }

abbrev pub is_canceled : Pair → TimerQueue → Bool
is_canceled id q = member id q.canceling_timers

abbrev pub restarted : ℕ → ℕ → Timer → TimerQueue → TimerQueue
restarted now address t q = record q { heap = set_heap address (some (restart now t)) q.heap }

-- One round of the loop of `reset`, with the timer `t` of the entry.
unfoldable pub restart_or_delete : ℕ → ℕ → Timer → TimerQueue → Result TimerQueue
restart_or_delete now address t q =
    if t.repeat && not (is_canceled (address, t.sequence) q)
    then (do (q', earliest_changed) ← insert_timer address (restarted now address t q); ok q')
    else ok (delete_timer address q)

unfoldable pub reset_timer : ℕ → ℕ → TimerQueue → Result TimerQueue
unfolding restart_or_delete insert_timer
reset_timer now address q = do t ← deref address q; restart_or_delete now address t q

unfoldable pub reset_timers : ℕ → List Pair → TimerQueue → Result TimerQueue
unfolding reset_timer
reset_timers now [] q = ok q
reset_timers now (e ∷ es) q = do q' ← reset_timer now e.1 q; reset_timers now es q'

-- The end of `reset`: the descriptor is set to the next expiration, if that is valid.
unfoldable pub set_next : List Pair → TimerQueue → Result TimerQueue
set_next [] q = ok q
set_next (x ∷ xs) q = do
  t ← deref x.1 q
  ok (if ltb 0 t.expiration then reset_timerfd t.expiration q else q)

unfoldable pub reset : ℕ → List Pair → TimerQueue → Result TimerQueue
unfolding reset_timers set_next
reset now expired q = do q' ← reset_timers now expired q; set_next q'.timers q'

unfoldable pub handle_read : (Pair → List Command) → ℕ → TimerQueue → Result TimerQueue
unfolding get_expired run_expired reset
handle_read callback now q = do
  (q', expired) ← get_expired now (read_timerfd q)
  called ←
      run_expired callback expired
        (record q' { calling_expired_timers = true; canceling_timers = [] })
  reset now expired (record called { calling_expired_timers = false })
