-- ===== src/TimerQueue/Alarm.antt =====
-- The descriptor of the timers is set so that no timer is forgotten.
use my_cisdi_code.Prelude.{
  Bool-cases, List, [], ap, arith, false, inl, inr, ltb→lt, max, refl, some, sym, true, ℕ, ◌+◌, ◌<◌,
  ◌∙◌, ◌∷◌, ◌≡◌, ◌≤◌,
}
use my_cisdi_code.Prelude.PairSet.{
  After, Increasing, Pair, before, insert, member, same, same_iff, same_refl,
}
use my_cisdi_code.Prelude.PairSet.Members.{insert_cases}
use my_cisdi_code.TimerQueue.Timerfd.{alarm_for_lem}
use my_cisdi_code.TimerQueue.{
  Descriptor, Setting, TimerQueue, alarm_for, is_earliest, reset_timerfd,
}

-- The descriptor is set, and fires no later than `when`, or than 100 microseconds after it was set where
-- that is later.
abbrev pub Alarmed : ℕ → Descriptor → Type 0
Alarmed when timerfd =
    (s : Setting) × (timerfd.alarm ≡ some s) × (s.fires_at ≤ max when (s.set_at + 100))

-- The descriptor is set for each timer that expires before `limit`.
abbrev pub IsCoveredBelow : ℕ → TimerQueue → Type 0
IsCoveredBelow limit q =
    (when a : ℕ) → member (when, a) q.timers ≡ true → when < limit → Alarmed when q.timerfd

-- The same for every timer.
abbrev pub IsCovered : TimerQueue → Type 0
IsCovered q = (when a : ℕ) → member (when, a) q.timers ≡ true → Alarmed when q.timerfd

first_le : (w a v b : ℕ) → before (w, a) (v, b) ≡ true → w ≤ v
first_le w a v b e = ground arith

After-le : (x : Pair) (xs : List Pair) (w a : ℕ) → After x xs → member (w, a) xs ≡ true → x.0 ≤ w
unfolding member
After-le x [] w a h e = absurd (cc)
After-le (v, b) ((u, c) ∷ xs) w a h e = elim (Bool-cases (same (w, a) (u, c))) [
  | inl found ↦ let (at, _) = same_iff w a u c found in let k = first_le v b u c h.0 in omega arith
  | inr other ↦ After-le (v, b) xs w a h.1 (ground arith)
]

pub first-le :
    (x : Pair) (xs : List Pair) (w a : ℕ)
    → Increasing (x ∷ xs)
    → member (w, a) (x ∷ xs) ≡ true
    → x.0 ≤ w
unfolding member
first-le (v, b) xs w a h e = elim (Bool-cases (same (w, a) (v, b))) [
  | inl found ↦ let (at, _) = same_iff w a v b found in omega arith
  | inr other ↦ After-le (v, b) xs w a h.0 (ground arith)
]

member_first : (x : Pair) (xs : List Pair) → member x (x ∷ xs) ≡ true
unfolding member
member_first x xs = ground (arith, same_refl x)

earliest-le :
    (when : ℕ) (xs : List Pair) (w a : ℕ)
    → Increasing xs
    → is_earliest when xs ≡ true
    → member (w, a) xs ≡ true
    → when ≤ w
unfolding member
earliest-le when [] w a h k e = absurd (cc)
earliest-le when (x ∷ xs) w a h k e =
    let l = first-le x xs w a h e in let m = ltb→lt when x.0 k in omega arith

-- Where the new timer is not the earliest, an earlier one is there.
earlier :
    (when : ℕ) (xs : List Pair)
    → is_earliest when xs ≡ false
    → (w a : ℕ) × (member (w, a) xs ≡ true) × (w ≤ when)
earlier when [] e = absurd (cc)
earlier when ((w, a) ∷ xs) e = (w, a, member_first (w, a) xs, ground arith)

pub covered_subset :
    (limit : ℕ) (q q' : TimerQueue)
    → ((w a : ℕ) → member (w, a) q'.timers ≡ true → member (w, a) q.timers ≡ true)
    → q'.timerfd ≡ q.timerfd
    → IsCoveredBelow limit q
    → IsCoveredBelow limit q'
covered_subset limit q q' sub e h w a m l =
    let (at, set, le) = h w a (sub w a m) l in (at, ap (λ (d : Descriptor). d.alarm) e ∙ set, le)

module _ (limit : ℕ) (q : TimerQueue) (h : Increasing q.timers) (covered : IsCoveredBelow limit q)
    (when a : ℕ) where
  alarmed : (q' : TimerQueue) (w : ℕ) → when ≤ w → Alarmed w (reset_timerfd when q').timerfd
  alarmed q' w le =
      let now = q'.clock q'.timerfd.resets in
      (alarm_for when now, refl, omega (arith, alarm_for_lem when now))

  pub covered_earliest :
      (q' : TimerQueue)
      → q'.timers ≡ insert (when, a) q.timers
      → is_earliest when q.timers ≡ true
      → IsCoveredBelow limit (reset_timerfd when q')
  covered_earliest q' e first w b m l =
      elim (insert_cases (w, b) (when, a) q.timers (ap (member (w, b)) (sym e) ∙ m)) [
        | inl new ↦ let (at, _) = same_iff w b when a new in alarmed q' w (omega arith)
        | inr old ↦ alarmed q' w (earliest-le when q.timers w b h first old)
      ]

  pub covered_later :
      (q' : TimerQueue)
      → q'.timers ≡ insert (when, a) q.timers
      → q'.timerfd ≡ q.timerfd
      → is_earliest when q.timers ≡ false
      → IsCoveredBelow limit q'
  covered_later q' e same_fd later w b m l =
      elim (insert_cases (w, b) (when, a) q.timers (ap (member (w, b)) (sym e) ∙ m)) [
        | inl new ↦
            (let (at, _) = same_iff w b when a new in
              let (v, c, there, le) = earlier when q.timers later in
              let (set_at, set, le') = covered v c there (omega arith) in
              (set_at, ap (λ (d : Descriptor). d.alarm) same_fd ∙ set, omega arith))
        | inr old ↦
            (let (set_at, set, le) = covered w b old l in
              (set_at, ap (λ (d : Descriptor). d.alarm) same_fd ∙ set, le))
      ]
