-- ===== src/TimerQueue/Adding.antt =====
-- `addTimer`: a new timer enters both sets.
use my_cisdi_code.Prelude.{
  Bool, Bool-cases, List, Result, arith, inl, inr, none, ok, refl, some, true, ℕ, ◌+◌, ◌<◌, ◌≡◌,
}
use my_cisdi_code.Prelude.PairSet.{Pair, member}
use my_cisdi_code.Prelude.PairSet.Members.{insert_absent, insert_self}
use my_cisdi_code.TimerQueue.{
  Timer, TimerQueue, add_timer, add_timer_in_loop, inserted, is_earliest, new_timer, reset_timerfd,
  uintptr_max,
}
use my_cisdi_code.TimerQueue.Follows.{Follows, Gone, newer_other}
use my_cisdi_code.TimerQueue.Alarm.{covered_earliest, covered_later}
use my_cisdi_code.TimerQueue.Consistent.{
  IsConsistent, flags-IsConsistent, free_active, free_entry, free_out, set_heap_at,
}
use my_cisdi_code.TimerQueue.Inserting.{
  insert_timer-ok, inserted-IsConsistent, set_heap-IsConsistent,
}

-- What `addTimer` leaves behind.
abbrev pub Added : List Pair → ℕ → ℕ → TimerQueue → Result (TimerQueue × Pair) → Type 0
Added out a when q r =
    (q' : TimerQueue) × (r ≡ ok (q', (a, q.num_created + 1)))
    × IsConsistent out q'
    × (member (a, q.num_created + 1) q'.active_timers ≡ true)
    × (member (when, a) q'.timers ≡ true)
    × Follows q q'

module _ (out : List Pair) (q : TimerQueue) (inv : IsConsistent out q) (a when interval : ℕ)
    (repeat : Bool) (free : q.heap a ≡ none) (small : a < uintptr_max) where
  abbrev made : Timer
  made = record {
    expiration = when;
    interval = interval;
    repeat = repeat;
    sequence = q.num_created + 1;
  }

  abbrev allocated : TimerQueue
  allocated = new_timer a when interval repeat q

  allocated-IsConsistent : IsConsistent out allocated
  allocated-IsConsistent =
      set_heap-IsConsistent out q inv a (q.num_created + 1) (some made)
        (free_entry out q inv a free) (free_active out q inv a free) (free_out out q inv a free)

  made_lives : allocated.heap a ≡ some made
  made_lives = set_heap_at a (some made) q.heap

  both-IsConsistent : IsConsistent out (inserted a made allocated)
  both-IsConsistent =
      inserted-IsConsistent out allocated allocated-IsConsistent a made made_lives
        (free_active out q inv a free (q.num_created + 1)) small (free_out out q inv a free)

  still-Gone : (id : Pair) → Gone id q → Gone id (inserted a made allocated)
  still-Gone id (absent, old) = (
    insert_absent id (a, q.num_created + 1) q.active_timers (newer_other id a q.num_created old)
        absent,
    omega arith,
  )

  -- `addTimer` at a free address fails no assertion, keeps the queue consistent, and gives a TimerId with a
  -- new sequence number whose timer is in both sets. Where the descriptor covered every timer, it covers
  -- every timer, the new one too; timers that are gone stay so.
  pub add_timer-done : Added out a when q (add_timer a when interval repeat q)
  unfolding add_timer add_timer_in_loop
  add_timer-done = elim (Bool-cases (is_earliest when q.timers)) [
    | inl first ↦
        rw
          (
            insert_timer-ok out allocated allocated-IsConsistent a made made_lives
                (free_active out q inv a free (q.num_created + 1)) small
                (free_out out q inv a free),
            made_lives,
            first,
          )
          (
            reset_timerfd when (inserted a made allocated),
            refl,
            flags-IsConsistent out (inserted a made allocated) both-IsConsistent
                q.calling_expired_timers q.canceling_timers
                (reset_timerfd when (inserted a made allocated)).timerfd,
            insert_self (a, q.num_created + 1) q.active_timers,
            insert_self (when, a) q.timers,
            record {
              created = omega arith;
              covered = λ limit covered.
                  covered_earliest limit q inv.timers_Increasing covered when a
                    (inserted a made allocated) refl first;
              gone = still-Gone;
              marked = λ id h. h;
            },
          )
    | inr later ↦
        rw
          (
            insert_timer-ok out allocated allocated-IsConsistent a made made_lives
                (free_active out q inv a free (q.num_created + 1)) small
                (free_out out q inv a free),
            made_lives,
            later,
          )
          (
            inserted a made allocated,
            refl,
            both-IsConsistent,
            insert_self (a, q.num_created + 1) q.active_timers,
            insert_self (when, a) q.timers,
            record {
              created = omega arith;
              covered = λ limit covered.
                  covered_later limit q inv.timers_Increasing covered when a
                    (inserted a made allocated) refl refl later;
              gone = still-Gone;
              marked = λ id h. h;
            },
          )
  ]
