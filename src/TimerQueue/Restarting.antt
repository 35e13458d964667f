-- ===== src/TimerQueue/Restarting.antt =====
-- `reset`: each expired timer starts again or is deleted.
use my_cisdi_code.Prelude.{
  Bool, Bool-cases, List, Option, Result, [], ap, arith, false, inl, inr, none, not, ok, refl, some,
  subst, sym, true, ℕ, ◌&&◌, ◌<◌, ◌>>=◌, ◌∙◌, ◌∷◌, ◌≡◌, ◌≢◌, ◌⊎◌,
}
use my_cisdi_code.Prelude.PairSet.{Pair, member, member_self, same, same-eq, same_iff}
use my_cisdi_code.Prelude.PairSet.Members.{false_of, insert_absent, insert_cases, true-false}
use my_cisdi_code.TimerQueue.{
  Timer, TimerQueue, delete_timer, insert_timer, inserted, is_canceled, is_earliest, live,
  reset_timer, reset_timers, restart, restart_or_delete, restarted, set_heap, uintptr_max,
}
use my_cisdi_code.TimerQueue.Follows.{Marked}
use my_cisdi_code.TimerQueue.Alarm.{IsCoveredBelow}
use my_cisdi_code.TimerQueue.Consistent.{IsConsistent, no_entry, set_heap_at, some_timer}
use my_cisdi_code.TimerQueue.Expiring.{fewer-IsConsistent, member_first, member_rest}
use my_cisdi_code.TimerQueue.Inserting.{
  insert_timer-ok, inserted-IsConsistent, set_heap-IsConsistent,
}

-- The timer is not active, and `reset` of the entries will not start it: it is marked, or it is not theirs.
abbrev pub Idle : Pair → List Pair → TimerQueue → Type 0
Idle id es q =
    (member id q.active_timers ≡ false)
    × (Marked id q ⊎ ((w a : ℕ) → member (w, a) es ≡ true → a ≢ id.0))

-- The queue after a part of `reset`, at a time that is valid.
abbrev pub Reset : List Pair → List Pair → TimerQueue → Result TimerQueue → Type 0
Reset from es q r =
    (q' : TimerQueue) × (r ≡ ok q')
    × IsConsistent es q'
    × (IsCoveredBelow 1 q → IsCoveredBelow 1 q')
    × ((id : Pair) → Idle id from q → Idle id es q')

module _ (now : ℕ) (valid : 0 < now) where
  module _ (w a : ℕ) (es : List Pair) (q : TimerQueue) (inv : IsConsistent ((w, a) ∷ es) q)
      (t : Timer) (lives : q.heap a ≡ some t) (expires : t.expiration ≡ w)
      (idle : member (a, t.sequence) q.active_timers ≡ false) (small : a < uintptr_max) where
    tail-IsConsistent : IsConsistent es q
    tail-IsConsistent =
        fewer-IsConsistent ((w, a) ∷ es) es q inv (λ v b m. member_rest (v, b) (w, a) es m)
          inv.out_Increasing.1

    not_held : (when : ℕ) → member (when, a) es ≡ false
    not_held when = false_of (member (when, a) es) (λ m.
        let (u, lives', at, _, _) = inv.taken when a (member_rest (when, a) (w, a) es m) in
        let ut : u ≡ t = some_timer (sym lives' ∙ lives) in
        let same_time : when ≡ w = sym at ∙ ap (λ x. x.expiration) ut ∙ expires in
        true-false (
          sym m
          ∙ ap (λ n. member (n, a) es) same_time
          ∙ member_self (w, a) es inv.out_Increasing.0))

    not_active : (sequence : ℕ) → member (a, sequence) q.active_timers ≡ false
    not_active sequence = false_of (member (a, sequence) q.active_timers) (λ m.
        let (u, lives', _, entry) = inv.by_address a sequence m in
        true-false (sym entry ∙ no_entry ((w, a) ∷ es) q inv a t lives idle u.expiration))

    changed-IsConsistent :
        (o : Option Timer) → IsConsistent es (record q { heap = set_heap a o q.heap })
    changed-IsConsistent o =
        set_heap-IsConsistent es q tail-IsConsistent a q.num_created o
          (no_entry ((w, a) ∷ es) q inv a t lives idle) not_active not_held

    abbrev again : Timer
    again = restart now t

    restarted_lives : (restarted now a t q).heap a ≡ some again
    restarted_lives = set_heap_at a (some again) q.heap

    restart_ok :
        insert_timer a (restarted now a t q)
        ≡ ok (inserted a again (restarted now a t q), is_earliest again.expiration q.timers)
    restart_ok =
        insert_timer-ok es (restarted now a t q) (changed-IsConsistent (some again)) a again
          restarted_lives idle small not_held

    both_true : (b c : Bool) → (b && not c) ≡ true → c ≡ false
    both_true b c e = ground arith

    still :
        (id : Pair)
        → Marked id q ⊎ ((v b : ℕ) → member (v, b) ((w, a) ∷ es) ≡ true → b ≢ id.0)
        → Marked id q ⊎ ((v b : ℕ) → member (v, b) es ≡ true → b ≢ id.0)
    still id (inl marked) = inl marked
    still id (inr others) = inr (λ v b m. others v b (member_rest (v, b) (w, a) es m))

    not_this :
        (id : Pair)
        → is_canceled (a, t.sequence) q ≡ false
        → Marked id q ⊎ ((v b : ℕ) → member (v, b) ((w, a) ∷ es) ≡ true → b ≢ id.0)
        → same id (a, t.sequence) ≡ false
    not_this id kept (inl marked) = false_of (same id (a, t.sequence)) (λ this. true-false (
        sym marked
        ∙ ap (λ z. member z q.canceling_timers) (same-eq id (a, t.sequence) this)
        ∙ kept))
    not_this id kept (inr others) = false_of (same id (a, t.sequence)) (λ this.
        others w a (member_first (w, a) es) (sym (ap (λ z. z.0) (same-eq id (a, t.sequence) this))))

    restart_or_delete-done : Reset ((w, a) ∷ es) es q (restart_or_delete now a t q)
    unfolding restart_or_delete
    restart_or_delete-done = elim (Bool-cases (t.repeat && not (is_canceled (a, t.sequence) q))) [
      | inl repeats ↦
          rw (repeats, restart_ok)
            (
              inserted a again (restarted now a t q),
              refl,
              inserted-IsConsistent es (restarted now a t q) (changed-IsConsistent (some again)) a
                  again restarted_lives idle small not_held,
              (λ covered v b m below. elim (insert_cases (v, b) (again.expiration, a) q.timers m) [
                | inl new ↦
                    let (at, _) = same_iff v b again.expiration a new in absurd (ground arith)
                | inr old ↦ covered v b old below
              ]),
              λ id (absent, blocked). (
                insert_absent id (a, t.sequence) q.active_timers
                    (not_this id (both_true t.repeat (is_canceled (a, t.sequence) q) repeats)
                      blocked)
                    absent,
                still id blocked,
              ),
            )
      | inr ends ↦ rw ends (
        delete_timer a q,
        refl,
        changed-IsConsistent none,
        (λ covered. covered),
        λ id (absent, blocked). (absent, still id blocked),
      )
    ]

    reset_timer-done : Reset ((w, a) ∷ es) es q (reset_timer now a q)
    unfolding reset_timer
    reset_timer-done =
        subst (λ o. Reset ((w, a) ∷ es) es q (live o >>= λ u. restart_or_delete now a u q))
          (sym lives) restart_or_delete-done

  pub reset_timers-done :
      (es : List Pair) (q : TimerQueue) → IsConsistent es q → Reset es [] q (reset_timers now es q)
  unfolding reset_timers
  reset_timers-done [] q inv = (q, refl, inv, (λ covered. covered), λ id idle. idle)
  reset_timers-done ((w, a) ∷ es) q inv =
      let (t, lives, expires, idle, small) = inv.taken w a (member_first (w, a) es) in
      let (q1, e1, inv1, covered1, idle1) =
        reset_timer-done w a es q inv t lives expires idle small in
      let (q2, e2, inv2, covered2, idle2) = reset_timers-done es q1 inv1 in
      rw (e1, e2)
        (q2, refl, inv2, (λ covered. covered2 (covered1 covered)), λ id h. idle2 id (idle1 id h))
