-- ===== src/TimerQueue/Consistent.antt =====
-- The two sets of a timer queue and the timers on the heap belong together, while `out` is the list of
-- the expired entries that have been taken out of both sets and not yet been dealt with.
use my_cisdi_code.Prelude.{
  ==_of_eq, Bool, List, Option, ap, arith, false, length, none, refl, some, sym, true, ℕ, ◌<◌, ◌==◌,
  ◌∙◌, ◌≡◌, ◌≢◌,
}
use my_cisdi_code.Prelude.PairSet.{Increasing, Pair, member}
use my_cisdi_code.Prelude.PairSet.Members.{false_of}
use my_cisdi_code.TimerQueue.{Descriptor, Timer, TimerQueue, same_sizes, set_heap, uintptr_max}

abbrev pub InTime : ℕ → ℕ → TimerQueue → Type 0
InTime when a q =
    (t : Timer) × (q.heap a ≡ some t)
    × (t.expiration ≡ when)
    × (member (a, t.sequence) q.active_timers ≡ true)
    × (a < uintptr_max)

abbrev pub InAddress : ℕ → ℕ → TimerQueue → Type 0
InAddress a sequence q =
    (t : Timer) × (q.heap a ≡ some t)
    × (t.sequence ≡ sequence)
    × (member (t.expiration, a) q.timers ≡ true)

abbrev pub TakenOut : ℕ → ℕ → TimerQueue → Type 0
TakenOut when a q =
    (t : Timer) × (q.heap a ≡ some t)
    × (t.expiration ≡ when)
    × (member (a, t.sequence) q.active_timers ≡ false)
    × (a < uintptr_max)

pub record IsConsistent (out : List Pair) (q : TimerQueue) : Type 0 where
  -- An entry is of a live timer, with its expiration, which is active.
  pub by_time : (when a : ℕ) → member (when, a) q.timers ≡ true → InTime when a q
  -- An active timer lives, with its sequence number, and has an entry.
  pub by_address :
      (a sequence : ℕ) → member (a, sequence) q.active_timers ≡ true → InAddress a sequence q
  -- An expired timer lives, and is not active.
  pub taken : (when a : ℕ) → member (when, a) out ≡ true → TakenOut when a q
  pub timers_Increasing : Increasing q.timers
  pub active_Increasing : Increasing q.active_timers
  pub out_Increasing : Increasing out
  pub sizes : length q.timers ≡ length q.active_timers

pub set_heap_at : (a : ℕ) (o : Option Timer) (heap : ℕ → Option Timer) → set_heap a o heap a ≡ o
set_heap_at a o heap = rw (==_of_eq a a refl) refl

pub set_heap_away :
    (a n : ℕ) (o : Option Timer) (heap : ℕ → Option Timer) → n ≢ a → set_heap a o heap n ≡ heap n
set_heap_away a n o heap h = let e : (n == a) ≡ false = ground arith in rw e refl

pub some_timer : {t u : Timer} → some t ≡ some u → t ≡ u
some_timer e = cc

module _ (out : List Pair) (q : TimerQueue) (inv : IsConsistent out q) where
  pub same_sizes-true : same_sizes q ≡ true
  same_sizes-true = ==_of_eq (length q.timers) (length q.active_timers) inv.sizes

  -- A live timer that is not active has no entry.
  pub no_entry :
      (a : ℕ) (t : Timer)
      → q.heap a ≡ some t
      → member (a, t.sequence) q.active_timers ≡ false
      → (when : ℕ) → member (when, a) q.timers ≡ false
  no_entry a t lives idle when = false_of (member (when, a) q.timers) (λ entry.
      let (u, lives', _, active, _) = inv.by_time when a entry in
      let ut : u ≡ t = some_timer (sym lives' ∙ lives) in
      let e : false ≡ true =
        sym idle ∙ ap (λ x. member (a, x.sequence) q.active_timers) (sym ut) ∙ active in
      absurd (cc))

  -- An address that is free is in none of the sets.
  pub free_entry : (a : ℕ) → q.heap a ≡ none → (when : ℕ) → member (when, a) q.timers ≡ false
  free_entry a free when = false_of (member (when, a) q.timers) (λ entry.
      let (u, lives, _, _, _) = inv.by_time when a entry in absurd (cc (sym free ∙ lives)))

  pub free_active :
      (a : ℕ) → q.heap a ≡ none → (sequence : ℕ) → member (a, sequence) q.active_timers ≡ false
  free_active a free sequence = false_of (member (a, sequence) q.active_timers) (λ active.
      let (u, lives, _, _) = inv.by_address a sequence active in absurd (cc (sym free ∙ lives)))

  pub free_out : (a : ℕ) → q.heap a ≡ none → (when : ℕ) → member (when, a) out ≡ false
  free_out a free when =
      false_of (member (when, a) out) (λ taken.
        let (u, lives, _, _, _) = inv.taken when a taken in absurd (cc (sym free ∙ lives)))

  -- The rest of the state does not matter.
  pub flags-IsConsistent :
      (calling : Bool) (canceling : List Pair) (timerfd : Descriptor)
      → IsConsistent out (record q {
        calling_expired_timers = calling;
        canceling_timers = canceling;
        timerfd = timerfd;
      })
  flags-IsConsistent calling canceling timerfd = record {
    by_time = inv.by_time;
    by_address = inv.by_address;
    taken = inv.taken;
    timers_Increasing = inv.timers_Increasing;
    active_Increasing = inv.active_Increasing;
    out_Increasing = inv.out_Increasing;
    sizes = inv.sizes;
  }
