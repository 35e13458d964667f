-- ===== src/TimerQueue/HandleRead.antt =====
-- `handleRead` as a whole, and what `cancel` promises while it runs.
use my_cisdi_code.Prelude.{
  Bool, Bool-cases, List, [], ap, arith, dec_lt, false, inl, inr, ltb, ltb-false, lt→ltb, none, ok,
  refl, subst, sym, true, ℕ, ◌&&◌, ◌<◌, ◌∙◌, ◌∷◌, ◌≡◌, ◌≢◌, ◌≤◌, ◌⊎◌,
}
use my_cisdi_code.Prelude.PairSet.{Increasing, Pair, member}
use my_cisdi_code.Prelude.PairSet.Members.{true-false}
use my_cisdi_code.TimerQueue.Timerfd.{alarm_for_lem}
use my_cisdi_code.TimerQueue.Follows.{Follows, Marked}
use my_cisdi_code.TimerQueue.Canceling.{cancel_in_loop-done}
use my_cisdi_code.TimerQueue.{
  Command, TimerQueue, alarm_for, cancel, cancel_in_loop, get_expired, handle_read, read_timerfd,
  reset, reset_timerfd, run_commands, set_next,
}
use my_cisdi_code.TimerQueue.Alarm.{IsCovered, IsCoveredBelow, first-le}
use my_cisdi_code.TimerQueue.Consistent.{IsConsistent, flags-IsConsistent}
use my_cisdi_code.TimerQueue.Expiring.{get_expired-done, member_first}
use my_cisdi_code.TimerQueue.Callbacks.{AllFit, CallbacksFit, run_commands-Went, run_expired-Went}
use my_cisdi_code.TimerQueue.Restarting.{reset_timers-done}

-- The queue when the callbacks start.
abbrev pub calling : TimerQueue → TimerQueue
calling q = record q { calling_expired_timers = true; canceling_timers = [] }

set_next-IsCovered :
    (xs : List Pair) (q : TimerQueue)
    → q.timers ≡ xs
    → IsConsistent [] q
    → IsCoveredBelow 1 q
    → (q' : TimerQueue) × (set_next xs q ≡ ok q') × IsConsistent [] q' × IsCovered q'
unfolding set_next member
set_next-IsCovered [] q e inv covered =
    (q, refl, inv, (λ w a m. absurd (true-false (sym m ∙ ap (member (w, a)) e))))
set_next-IsCovered ((w, a) ∷ xs) q e inv covered =
    let first : member (w, a) q.timers ≡ true = ap (member (w, a)) e ∙ member_first (w, a) xs in
    let (t, lives, expires, _, _) = inv.by_time w a first in
    let least = λ (v b : ℕ) (m : member (v, b) q.timers ≡ true).
      first-le (w, a) xs v b (subst Increasing e inv.timers_Increasing)
        (ap (member (v, b)) (sym e) ∙ m) in
    elim (dec_lt 0 t.expiration) [
      | yes valid ↦
          rw (lives, lt→ltb 0 t.expiration valid)
            (
              reset_timerfd t.expiration q,
              refl,
              flags-IsConsistent [] q inv q.calling_expired_timers q.canceling_timers
                  (reset_timerfd t.expiration q).timerfd,
              (λ v b m.
                  let now = q.clock q.timerfd.resets in
                  (
                    alarm_for t.expiration now,
                    refl,
                    (let le = least v b m in omega (arith, alarm_for_lem t.expiration now)),
                  )),
            )
      | no invalid ↦
          rw (lives, ltb-false 0 t.expiration (omega arith))
            (
              q,
              refl,
              inv,
              (λ v b m.
                  let (at, set, le) = covered w a first (omega arith) in
                  (at, set, (let le' = least v b m in omega arith))),
            )
    ]

late : (w now : ℕ) (b c : Bool) → b ≡ (ltb now w && c) → b ≡ true → now < w
late w now b c e m = ground (arith, e, m)

-- `handleRead` at a valid time, whatever its callbacks add and cancel: no assertion fails and no freed
-- timer is read, and the sets and the heap stay consistent. Where timers are left the descriptor, which
-- has fired, is set again, and for every timer that is left it fires no later than the timer's
-- expiration, or than 100 microseconds after it was set where that is later.
pub handle_read-done :
    (callback : Pair → List Command) (now : ℕ) (q : TimerQueue)
    → IsConsistent [] q
    → 0 < now
    → ((q1 : TimerQueue) (es : List Pair)
        → get_expired now (read_timerfd q) ≡ ok (q1, es)
        → CallbacksFit callback es (calling q1))
    → (q' : TimerQueue) × (handle_read callback now q ≡ ok q') × IsConsistent [] q' × IsCovered q'
unfolding handle_read reset
handle_read-done callback now q inv valid fits =
    let (q1, es, e1, inv1, _, later, _) =
      get_expired-done (read_timerfd q)
        (flags-IsConsistent [] q inv q.calling_expired_timers q.canceling_timers
          (read_timerfd q).timerfd)
        now in
    let (q2, e2, inv2, follows) =
      run_expired-Went es callback es (calling q1) (λ w a m. m)
        (flags-IsConsistent es q1 inv1 true [] q1.timerfd) (fits q1 es e1) in
    let covered2 = follows.covered 1 (λ w a m below. absurd (
      let l = late w now (member (w, a) q1.timers) (member (w, a) q.timers) (later w a) m in
      omega arith)) in
    let (q3, e3, inv3, covered3, _) =
      reset_timers-done now valid es (record q2 { calling_expired_timers = false })
        (flags-IsConsistent es q2 inv2 false q2.canceling_timers q2.timerfd) in
    let (q4, e4, inv4, covered4) = set_next-IsCovered q3.timers q3 refl inv3 (covered3 covered2) in
    rw (e1, e2, e3, e4) (q4, refl, inv4, covered4)

still_blocked :
    (es : List Pair) (q1 q2 : TimerQueue) (id : Pair)
    → IsConsistent es q1
    → Follows q1 q2
    → Marked id q1 ⊎ (q1.heap id.0 ≡ none)
    → Marked id q2 ⊎ ((w a : ℕ) → member (w, a) es ≡ true → a ≢ id.0)
still_blocked es q1 q2 id inv follows (inl marked) = inl (follows.marked id marked)
still_blocked es q1 q2 id inv follows (inr freed) = inr (λ w a m this.
    let (t, lives, _, _, _) = inv.taken w a m in absurd (cc (sym lives ∙ ap q1.heap this ∙ freed)))

set_next-active :
    (xs : List Pair) (q : TimerQueue)
    → IsConsistent [] q
    → q.timers ≡ xs
    → (q' : TimerQueue) × (set_next xs q ≡ ok q') × (q'.active_timers ≡ q.active_timers)
unfolding set_next
set_next-active [] q inv e = (q, refl, refl)
set_next-active ((w, a) ∷ xs) q inv e =
    let (t, lives, _, _, _) = inv.by_time w a (ap (member (w, a)) e ∙ member_first (w, a) xs) in
    elim (Bool-cases (ltb 0 t.expiration)) [
      | inl valid ↦ rw (lives, valid) (reset_timerfd t.expiration q, refl, refl)
      | inr invalid ↦ rw (lives, invalid) (q, refl, refl)
    ]

-- A callback cancels a timer, by a TimerId that was given out: whatever the callbacks do after that, and
-- also where the timer is one of those that just expired, the timer is not active after `reset`.
pub cancel-reset :
    (es : List Pair) (q : TimerQueue) (id : Pair) (cs : List Command) (now : ℕ)
    → IsConsistent es q
    → q.calling_expired_timers ≡ true
    → id.1 ≤ q.num_created
    → ((q1 : TimerQueue) → cancel_in_loop id q ≡ ok q1 → AllFit cs q1)
    → 0 < now
    → (q2 : TimerQueue) × (q3 : TimerQueue) × (run_commands (cancel id ∷ cs) q ≡ ok q2)
      × (reset now es (record q2 { calling_expired_timers = false }) ≡ ok q3)
      × (member id q3.active_timers ≡ false)
unfolding run_commands reset
cancel-reset es q id cs now inv in_callback given fits valid =
    let (q1, e1, inv1, absent, follows1, how) = cancel_in_loop-done es q inv id in
    let old : id.1 ≤ q1.num_created = (let more = follows1.created in omega arith) in
    let (q2, e2, inv2, follows2) = run_commands-Went es cs q1 inv1 (fits q1 e1) in
    let blocked = still_blocked es q1 q2 id inv1 follows2 (how in_callback) in
    let (q3, e3, inv3, _, idle) =
      reset_timers-done now valid es (record q2 { calling_expired_timers = false })
        (flags-IsConsistent es q2 inv2 false q2.canceling_timers q2.timerfd) in
    let (q4, e4, same_active) = set_next-active q3.timers q3 inv3 refl in
    let e5 : reset now es (record q2 { calling_expired_timers = false }) ≡ ok q4 =
      rw (e3, e4) refl in
    rw (e1, e2)
      (
        q2,
        q4,
        refl,
        e5,
        ap (member id) same_active ∙ (idle id ((follows2.gone id (absent, old)).0, blocked)).0,
      )
