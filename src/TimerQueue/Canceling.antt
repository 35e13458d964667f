-- ===== src/TimerQueue/Canceling.antt =====
-- `cancel`: the timer leaves both sets.
use my_cisdi_code.Prelude.{
  Bool, Bool-cases, List, Result, ap, arith, false, if◌then◌else◌, inl, inr, none, ok, refl, some,
  subst, suc, sym, true, ℕ, ◌∙◌, ◌≡◌, ◌≤◌, ◌⊎◌,
}
use my_cisdi_code.Prelude.PairSet.{
  Pair, erase, erase-Increasing, insert, length-erase, member, same, same_iff,
}
use my_cisdi_code.Prelude.PairSet.Members.{
  erase_absent, erase_cases, erase_other, erase_self, false_of, insert_old, insert_self, true-false,
}
use my_cisdi_code.TimerQueue.{
  Timer, TimerQueue, cancel_absent, cancel_found, cancel_in_loop, erase_canceled,
}
use my_cisdi_code.TimerQueue.Consistent.{
  InAddress, InTime, IsConsistent, TakenOut, flags-IsConsistent, no_entry, same_sizes-true,
  set_heap_at, some_timer,
}
use my_cisdi_code.TimerQueue.Follows.{Follows, Gone, Marked}
use my_cisdi_code.TimerQueue.Alarm.{IsCoveredBelow, covered_subset}
use my_cisdi_code.TimerQueue.Inserting.{set_heap-IsConsistent}

same_pair : (a b c d : ℕ) → a ≡ c → b ≡ d → same (a, b) (c, d) ≡ true
same_pair a b c d e f = ground arith

suc_inj : {m n : ℕ} → suc m ≡ suc n → m ≡ n
suc_inj e = omega arith

abbrev canceling : Pair → TimerQueue → Bool
canceling id q = member id q.canceling_timers

if_both :
    (P : TimerQueue → Type 0) (b : Bool) {q q' : TimerQueue} → P q → P q' → P (if b then q else q')
if_both P true h k = h
if_both P false h k = k

-- An active timer `t` at `a` leaves both sets.
module _ (out : List Pair) (q : TimerQueue) (inv : IsConsistent out q) (a : ℕ) (t : Timer)
    (lives : q.heap a ≡ some t) (active : member (a, t.sequence) q.active_timers ≡ true) where
  abbrev pub erased : TimerQueue
  erased = record q {
    timers = erase (t.expiration, a) q.timers;
    active_timers = erase (a, t.sequence) q.active_timers;
  }

  pub has_entry : member (t.expiration, a) q.timers ≡ true
  has_entry =
      let (u, lives', _, entry) = inv.by_address a t.sequence active in
      let ut : u ≡ t = some_timer (sym lives' ∙ lives) in
      ap (λ x. member (x.expiration, a) q.timers) (sym ut) ∙ entry

  same_timer : (b : ℕ) (u : Timer) → q.heap b ≡ some u → b ≡ a → u ≡ t
  same_timer b u lives' at_a = some_timer (sym lives' ∙ ap q.heap at_a ∙ lives)

  pub erased-IsConsistent : IsConsistent out erased
  erased-IsConsistent = record {
    by_time = by_time';
    by_address = by_address';
    taken = taken';
    timers_Increasing = erase-Increasing (t.expiration, a) q.timers inv.timers_Increasing;
    active_Increasing = erase-Increasing (a, t.sequence) q.active_timers inv.active_Increasing;
    out_Increasing = inv.out_Increasing;
    sizes = suc_inj (
        length-erase (t.expiration, a) q.timers has_entry
        ∙ inv.sizes
        ∙ sym (length-erase (a, t.sequence) q.active_timers active));
  }
    where
      by_time' :
          (when b : ℕ)
          → member (when, b) (erase (t.expiration, a) q.timers) ≡ true
          → InTime when b erased
      by_time' when b e =
          let (away, entry) =
            erase_cases (when, b) (t.expiration, a) q.timers inv.timers_Increasing e in
          let (u, lives', expires, active', small) = inv.by_time when b entry in
          let other : same (b, u.sequence) (a, t.sequence) ≡ false =
            false_of (same (b, u.sequence) (a, t.sequence)) (λ equal_pair.
              let at_a = (same_iff b u.sequence a t.sequence equal_pair).0 in
              let at_when : when ≡ t.expiration =
                sym expires ∙ ap (λ x. x.expiration) (same_timer b u lives' at_a) in
              true-false (sym (same_pair when b t.expiration a at_when at_a) ∙ away)) in
          (
            u,
            lives',
            expires,
            erase_other (b, u.sequence) (a, t.sequence) q.active_timers inv.active_Increasing other
                active',
            small,
          )

      by_address' :
          (b sequence : ℕ)
          → member (b, sequence) (erase (a, t.sequence) q.active_timers) ≡ true
          → InAddress b sequence erased
      by_address' b sequence e =
          let (away, active') =
            erase_cases (b, sequence) (a, t.sequence) q.active_timers inv.active_Increasing e in
          let (u, lives', numbered, entry) = inv.by_address b sequence active' in
          let other : same (u.expiration, b) (t.expiration, a) ≡ false =
            false_of (same (u.expiration, b) (t.expiration, a)) (λ equal_pair.
              let at_a = (same_iff u.expiration b t.expiration a equal_pair).1 in
              let at_number : sequence ≡ t.sequence =
                sym numbered ∙ ap (λ x. x.sequence) (same_timer b u lives' at_a) in
              true-false (sym (same_pair b sequence a t.sequence at_a at_number) ∙ away)) in
          (
            u,
            lives',
            numbered,
            erase_other (u.expiration, b) (t.expiration, a) q.timers inv.timers_Increasing other
                entry,
          )

      taken' : (when b : ℕ) → member (when, b) out ≡ true → TakenOut when b erased
      taken' when b e =
          let (u, lives', expires, idle, small) = inv.taken when b e in
          (
            u,
            lives',
            expires,
            erase_absent (b, u.sequence) (a, t.sequence) q.active_timers inv.active_Increasing idle,
            small,
          )

  -- It has no entry left, under any key.
  pub erased_entry : (when : ℕ) → member (when, a) erased.timers ≡ false
  erased_entry when =
      no_entry out erased erased-IsConsistent a t lives
        (erase_self (a, t.sequence) q.active_timers inv.active_Increasing) when

  pub erased_active : (sequence : ℕ) → member (a, sequence) erased.active_timers ≡ false
  erased_active sequence = false_of (member (a, sequence) erased.active_timers) (λ active'.
      let (u, lives', numbered, entry) = erased-IsConsistent.by_address a sequence active' in
      true-false (sym entry ∙ erased_entry u.expiration))

  not_out : (when : ℕ) → member (when, a) out ≡ false
  not_out when = false_of (member (when, a) out) (λ e.
      let (u, lives', _, idle, _) = inv.taken when a e in
      let ut : u ≡ t = some_timer (sym lives' ∙ lives) in
      true-false (sym active ∙ ap (λ x. member (a, x.sequence) q.active_timers) (sym ut) ∙ idle))

  pub cancel_found-IsConsistent : IsConsistent out (erase_canceled (a, t.sequence) t q)
  cancel_found-IsConsistent =
      set_heap-IsConsistent out erased erased-IsConsistent a q.num_created none erased_entry
        erased_active not_out

  pub cancel_found-ok : cancel_found (a, t.sequence) q ≡ ok (erase_canceled (a, t.sequence) t q)
  cancel_found-ok =
      rw
        (
          lives,
          has_entry,
          same_sizes-true out (erase_canceled (a, t.sequence) t q) cancel_found-IsConsistent,
        )
        refl

-- What `cancelInLoop` leaves behind.
abbrev pub Canceled : List Pair → Pair → TimerQueue → Result TimerQueue → Type 0
Canceled out id q r =
    (q' : TimerQueue) × (r ≡ ok q')
    × IsConsistent out q'
    × (member id q'.active_timers ≡ false)
    × Follows q q'
    × (q.calling_expired_timers ≡ true → Marked id q' ⊎ (q'.heap id.0 ≡ none))

module _ (out : List Pair) (q : TimerQueue) (inv : IsConsistent out q) where
  cancel_active :
      (a : ℕ) (t : Timer)
      → q.heap a ≡ some t
      → member (a, t.sequence) q.active_timers ≡ true
      → Canceled out (a, t.sequence) q (cancel_in_loop (a, t.sequence) q)
  unfolding cancel_in_loop
  cancel_active a t lives active =
      rw (same_sizes-true out q inv, active)
        (
          erase_canceled (a, t.sequence) t q,
          cancel_found-ok out q inv a t lives active,
          cancel_found-IsConsistent out q inv a t lives active,
          erased_active out q inv a t lives active t.sequence,
          record {
            created = omega arith;
            covered = λ limit.
                covered_subset limit q (erase_canceled (a, t.sequence) t q)
                  (λ w b m.
                    (erase_cases (w, b) (t.expiration, a) q.timers inv.timers_Increasing m).1)
                  refl;
            gone = λ id (absent, old).
                (erase_absent id (a, t.sequence) q.active_timers inv.active_Increasing absent, old);
            marked = λ id h. h;
          },
          λ calling. inr (set_heap_at a none q.heap),
        )

  cancel_idle :
      (id : Pair) → member id q.active_timers ≡ false → Canceled out id q (cancel_in_loop id q)
  unfolding cancel_in_loop
  cancel_idle id idle =
      rw (same_sizes-true out q inv, idle)
        (
          cancel_absent id q,
          refl,
          either (IsConsistent out)
              (flags-IsConsistent out q inv q.calling_expired_timers (insert id q.canceling_timers)
                q.timerfd)
              inv,
          either (λ x. member id x.active_timers ≡ false) idle idle,
          record {
            created = either (λ x. q.num_created ≤ x.num_created) (omega arith) (omega arith);
            covered = λ limit covered. either (IsCoveredBelow limit) covered covered;
            gone = λ other h. either (Gone other) h h;
            marked = λ other h. either (Marked other) (insert_old other id q.canceling_timers h) h;
          },
          (λ calling. inl (marks calling)),
        )
    where
      marks : q.calling_expired_timers ≡ true → Marked id (cancel_absent id q)
      marks calling =
          ap
            (λ b.
              canceling id
                (if b then record q { canceling_timers = insert id q.canceling_timers } else q))
            calling
          ∙ insert_self id q.canceling_timers

      either :
          (P : TimerQueue → Type 0)
          → P (record q { canceling_timers = insert id q.canceling_timers })
          → P q
          → P (cancel_absent id q)
      either P new old = if_both P q.calling_expired_timers new old

  -- `cancelInLoop` of any TimerId, also of a timer that is gone: no assertion fails and no freed timer is
  -- read, the queue stays consistent, and the timer is not active; in a callback the timer is then freed
  -- or marked. No other timer that is gone comes back, and the descriptor covers what it covered.
  pub cancel_in_loop-done : (id : Pair) → Canceled out id q (cancel_in_loop id q)
  cancel_in_loop-done (a, sequence) = elim (Bool-cases (member (a, sequence) q.active_timers)) [
    | inl active ↦
        let (t, lives, numbered, _) = inv.by_address a sequence active in
        subst (λ s. Canceled out (a, s) q (cancel_in_loop (a, s) q)) numbered
          (cancel_active a t lives (ap (λ s. member (a, s) q.active_timers) numbered ∙ active))
    | inr idle ↦ cancel_idle (a, sequence) idle
  ]
