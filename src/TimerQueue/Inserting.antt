-- ===== src/TimerQueue/Inserting.antt =====
-- `insert`: a timer enters both sets; and what an address outside them holds may change.
use my_cisdi_code.Prelude.{
  List, Option, ap, arith, false, inl, inr, ok, refl, some, suc, sym, true, ℕ, ◌<◌, ◌∙◌, ◌≡◌, ◌≢◌,
}
use my_cisdi_code.Prelude.PairSet.{
  Pair, insert, insert-Increasing, length-insert, member, same, same_iff,
}
use my_cisdi_code.Prelude.PairSet.Members.{
  false_of, insert_absent, insert_cases, insert_old, insert_self, true-false,
}
use my_cisdi_code.TimerQueue.{
  Timer, TimerQueue, insert_timer, inserted, is_earliest, set_heap, uintptr_max,
}
use my_cisdi_code.TimerQueue.Consistent.{
  InAddress, InTime, IsConsistent, TakenOut, no_entry, same_sizes-true, set_heap_away,
}

-- A live timer `t` at `a` that is in no set.
module _ (out : List Pair) (q : TimerQueue) (inv : IsConsistent out q) (a : ℕ) (t : Timer)
    (lives : q.heap a ≡ some t) (idle : member (a, t.sequence) q.active_timers ≡ false)
    (small : a < uintptr_max) (not_out : (when : ℕ) → member (when, a) out ≡ false) where
  pub inserted-IsConsistent : IsConsistent out (inserted a t q)
  inserted-IsConsistent = record {
    by_time = by_time';
    by_address = by_address';
    taken = taken';
    timers_Increasing = insert-Increasing (t.expiration, a) q.timers inv.timers_Increasing;
    active_Increasing = insert-Increasing (a, t.sequence) q.active_timers inv.active_Increasing;
    out_Increasing = inv.out_Increasing;
    sizes =
        length-insert (t.expiration, a) q.timers (no_entry out q inv a t lives idle t.expiration)
        ∙ ap suc inv.sizes
        ∙ sym (length-insert (a, t.sequence) q.active_timers idle);
  }
    where
      by_time' :
          (when b : ℕ)
          → member (when, b) (insert (t.expiration, a) q.timers) ≡ true
          → InTime when b (inserted a t q)
      by_time' when b e = elim (insert_cases (when, b) (t.expiration, a) q.timers e) [
        | inl new ↦
            (let (at_when, at_b) = same_iff when b t.expiration a new in
              (
                t,
                ap q.heap at_b ∙ lives,
                sym at_when,
                ap (λ n. member (n, t.sequence) (insert (a, t.sequence) q.active_timers)) at_b
                    ∙ insert_self (a, t.sequence) q.active_timers,
                omega arith,
              ))
        | inr old ↦
            (let (u, lives', expires, active, small') = inv.by_time when b old in
              (
                u,
                lives',
                expires,
                insert_old (b, u.sequence) (a, t.sequence) q.active_timers active,
                small',
              ))
      ]

      by_address' :
          (b sequence : ℕ)
          → member (b, sequence) (insert (a, t.sequence) q.active_timers) ≡ true
          → InAddress b sequence (inserted a t q)
      by_address' b sequence e =
          elim (insert_cases (b, sequence) (a, t.sequence) q.active_timers e) [
            | inl new ↦
                (let (at_b, numbered) = same_iff b sequence a t.sequence new in
                  (
                    t,
                    ap q.heap at_b ∙ lives,
                    sym numbered,
                    ap (λ n. member (t.expiration, n) (insert (t.expiration, a) q.timers)) at_b
                        ∙ insert_self (t.expiration, a) q.timers,
                  ))
            | inr old ↦
                (let (u, lives', numbered, entry) = inv.by_address b sequence old in
                  (
                    u,
                    lives',
                    numbered,
                    insert_old (u.expiration, b) (t.expiration, a) q.timers entry,
                  ))
          ]

      taken' : (when b : ℕ) → member (when, b) out ≡ true → TakenOut when b (inserted a t q)
      taken' when b e =
          let (u, lives', expires, idle', small') = inv.taken when b e in
          let other : same (b, u.sequence) (a, t.sequence) ≡ false =
            false_of (same (b, u.sequence) (a, t.sequence)) (λ equal_pair.
              let at_b = (same_iff b u.sequence a t.sequence equal_pair).0 in
              true-false (sym e ∙ ap (λ n. member (when, n) out) at_b ∙ not_out when)) in
          (
            u,
            lives',
            expires,
            insert_absent (b, u.sequence) (a, t.sequence) q.active_timers other idle',
            small',
          )

  pub insert_timer-ok : insert_timer a q ≡ ok (inserted a t q, is_earliest t.expiration q.timers)
  unfolding insert_timer
  insert_timer-ok =
      rw
        (
          same_sizes-true out q inv,
          lives,
          no_entry out q inv a t lives idle t.expiration,
          idle,
          same_sizes-true out (inserted a t q) inserted-IsConsistent,
        )
        refl

-- What an address in no set holds may change.
module _ (out : List Pair) (q : TimerQueue) (inv : IsConsistent out q) (a created : ℕ)
    (o : Option Timer) (untimed : (when : ℕ) → member (when, a) q.timers ≡ false)
    (idle : (sequence : ℕ) → member (a, sequence) q.active_timers ≡ false)
    (not_out : (when : ℕ) → member (when, a) out ≡ false) where
  abbrev replaced : TimerQueue
  replaced = record q { heap = set_heap a o q.heap; num_created = created }

  kept : (b : ℕ) {t : Timer} → b ≢ a → q.heap b ≡ some t → set_heap a o q.heap b ≡ some t
  kept b other lives = set_heap_away a b o q.heap other ∙ lives

  pub set_heap-IsConsistent : IsConsistent out replaced
  set_heap-IsConsistent = record {
    by_time = by_time';
    by_address = by_address';
    taken = taken';
    timers_Increasing = inv.timers_Increasing;
    active_Increasing = inv.active_Increasing;
    out_Increasing = inv.out_Increasing;
    sizes = inv.sizes;
  }
    where
      by_time' : (when b : ℕ) → member (when, b) q.timers ≡ true → InTime when b replaced
      by_time' when b e =
          let other : b ≢ a = λ same_b.
            true-false (sym e ∙ ap (λ n. member (when, n) q.timers) same_b ∙ untimed when) in
          let (t, lives, expires, active, small) = inv.by_time when b e in
          (t, kept b other lives, expires, active, small)

      by_address' :
          (b sequence : ℕ)
          → member (b, sequence) q.active_timers ≡ true
          → InAddress b sequence replaced
      by_address' b sequence e =
          let other : b ≢ a = λ same_b.
            true-false
              (sym e ∙ ap (λ n. member (n, sequence) q.active_timers) same_b ∙ idle sequence) in
          let (t, lives, numbered, entry) = inv.by_address b sequence e in
          (t, kept b other lives, numbered, entry)

      taken' : (when b : ℕ) → member (when, b) out ≡ true → TakenOut when b replaced
      taken' when b e =
          let other : b ≢ a =
            λ same_b. true-false (sym e ∙ ap (λ n. member (when, n) out) same_b ∙ not_out when) in
          let (t, lives, expires, idle', small) = inv.taken when b e in
          (t, kept b other lives, expires, idle', small)
