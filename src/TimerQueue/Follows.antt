-- ===== src/TimerQueue/Follows.antt =====
-- What each call of the queue's operations leaves true of a queue.
use my_cisdi_code.Prelude.{arith, false, true, ℕ, ◌+◌, ◌≡◌, ◌≤◌}
use my_cisdi_code.Prelude.PairSet.{Pair, member, same}
use my_cisdi_code.TimerQueue.{TimerQueue}
use my_cisdi_code.TimerQueue.Alarm.{IsCoveredBelow}

-- The TimerId was given out, and its timer is not active.
abbrev pub Gone : Pair → TimerQueue → Type 0
Gone id q = (member id q.active_timers ≡ false) × (id.1 ≤ q.num_created)

abbrev pub Marked : Pair → TimerQueue → Type 0
Marked id q = member id q.canceling_timers ≡ true

-- The descriptor covers what it covered; a timer that is gone stays so, and so does a mark.
pub record Follows (q q' : TimerQueue) : Type 0 where
  pub created : q.num_created ≤ q'.num_created
  pub covered : (limit : ℕ) → IsCoveredBelow limit q → IsCoveredBelow limit q'
  pub gone : (id : Pair) → Gone id q → Gone id q'
  pub marked : (id : Pair) → Marked id q → Marked id q'

pub Follows-refl : (q : TimerQueue) → Follows q q
Follows-refl q = record {
  created = omega arith;
  covered = λ limit h. h;
  gone = λ id h. h;
  marked = λ id h. h;
}

pub Follows-trans : (q r s : TimerQueue) → Follows q r → Follows r s → Follows q s
Follows-trans q r s f g = record {
  created = (let a = f.created in let b = g.created in omega arith);
  covered = λ limit h. g.covered limit (f.covered limit h);
  gone = λ id h. g.gone id (f.gone id h);
  marked = λ id h. g.marked id (f.marked id h);
}

-- A new sequence number is not that of a timer that was given out.
pub newer_other : (id : Pair) (a created : ℕ) → id.1 ≤ created → same id (a, created + 1) ≡ false
newer_other (b, s) a created h = ground arith
