-- ===== src/TimerQueue/Expiring.antt =====
-- `getExpired`: the timers that are due leave both sets, and are held until `reset`.
use my_cisdi_code.Prelude.{
  Bool-cases, List, Result, [], ap, arith, false, inl, inr, leb, ltb, lt→ltb, not, ok, refl, some,
  subst, sym, true, ℕ, ◌&&◌, ◌<◌, ◌∙◌, ◌∷◌, ◌≡◌,
}
use my_cisdi_code.Prelude.PairSet.{
  Increasing, Pair, before, erase, insert, insert-Increasing, member, same, same-eq, same_iff,
  same_refl,
}
use my_cisdi_code.Prelude.PairSet.Members.{
  erase_self, insert_cases, insert_old, insert_self, or_cases,
}
use my_cisdi_code.TimerQueue.Due.{member-drop_before, member-take_before, take_before-Increasing}
use my_cisdi_code.TimerQueue.Canceling.{erased-IsConsistent}
use my_cisdi_code.TimerQueue.{
  Timer, TimerQueue, drop_before, erase_active, get_expired, is_later, sentry, take_before,
  uintptr_max,
}
use my_cisdi_code.TimerQueue.Consistent.{IsConsistent, TakenOut, same_sizes-true}

-- Fewer entries may be held.
pub fewer-IsConsistent :
    (out out' : List Pair) (q : TimerQueue)
    → IsConsistent out q
    → ((w a : ℕ) → member (w, a) out' ≡ true → member (w, a) out ≡ true)
    → Increasing out'
    → IsConsistent out' q
fewer-IsConsistent out out' q inv sub h = record {
  by_time = inv.by_time;
  by_address = inv.by_address;
  taken = λ w a e. inv.taken w a (sub w a e);
  timers_Increasing = inv.timers_Increasing;
  active_Increasing = inv.active_Increasing;
  out_Increasing = h;
  sizes = inv.sizes;
}

-- A live timer that is not active may be held.
taken-IsConsistent :
    (out : List Pair) (q : TimerQueue) (a : ℕ) (t : Timer)
    → IsConsistent out q
    → q.heap a ≡ some t
    → member (a, t.sequence) q.active_timers ≡ false
    → a < uintptr_max
    → IsConsistent (insert (t.expiration, a) out) q
taken-IsConsistent out q a t inv lives idle small = record {
  by_time = inv.by_time;
  by_address = inv.by_address;
  taken = taken';
  timers_Increasing = inv.timers_Increasing;
  active_Increasing = inv.active_Increasing;
  out_Increasing = insert-Increasing (t.expiration, a) out inv.out_Increasing;
  sizes = inv.sizes;
}
  where
    taken' : (w b : ℕ) → member (w, b) (insert (t.expiration, a) out) ≡ true → TakenOut w b q
    taken' w b e = elim (insert_cases (w, b) (t.expiration, a) out e) [
      | inl new ↦
          (let (at_when, at_b) = same_iff w b t.expiration a new in
            (
              t,
              ap q.heap at_b ∙ lives,
              sym at_when,
              ap (λ n. member (n, t.sequence) q.active_timers) at_b ∙ idle,
              omega arith,
            ))
      | inr old ↦ inv.taken w b old
    ]

erase_first : (x : Pair) (xs : List Pair) → erase x (x ∷ xs) ≡ xs
unfolding erase
erase_first x xs = rw (same_refl x) refl

pub member_first : (x : Pair) (xs : List Pair) → member x (x ∷ xs) ≡ true
unfolding member
member_first x xs = ground (arith, same_refl x)

pub member_rest : (p x : Pair) (xs : List Pair) → member p xs ≡ true → member p (x ∷ xs) ≡ true
unfolding member
member_rest p x xs e = ground (arith, e)

-- `q` without the timer `t` of the first entry `(when, a)`, which is held now.
module _ (out : List Pair) (q : TimerQueue) (when a : ℕ) (xs : List Pair)
    (inv : IsConsistent out (record q { timers = (when, a) ∷ xs })) (t : Timer)
    (lives : q.heap a ≡ some t) (expires : t.expiration ≡ when)
    (active : member (a, t.sequence) q.active_timers ≡ true) (small : a < uintptr_max) where
  abbrev moved : TimerQueue
  moved = record q { timers = xs; active_timers = erase (a, t.sequence) q.active_timers }

  move-IsConsistent : IsConsistent (insert (t.expiration, a) out) moved
  move-IsConsistent =
      let first : erase (t.expiration, a) ((when, a) ∷ xs) ≡ xs =
        ap (λ n. erase (n, a) ((when, a) ∷ xs)) expires ∙ erase_first (when, a) xs in
      taken-IsConsistent out moved a t
        (subst
          (λ l.
            IsConsistent out
              (record q { timers = l; active_timers = erase (a, t.sequence) q.active_timers }))
          first
          (erased-IsConsistent out (record q { timers = (when, a) ∷ xs }) inv a t lives active))
        lives (erase_self (a, t.sequence) q.active_timers inv.active_Increasing) small

-- What the loop over the entries before `bound` leaves, with `timers_` cut down to `rest` before it.
abbrev Moved : Pair → List Pair → List Pair → List Pair → TimerQueue → Result TimerQueue → Type 0
Moved bound xs rest out q r =
    (active : List Pair) × (held : List Pair) × (r
      ≡ ok (record q { timers = rest; active_timers = active }))
    × IsConsistent held (record q { timers = drop_before bound xs; active_timers = active })
    × ((p : Pair) → member p (take_before bound xs) ≡ true → member p held ≡ true)
    × ((p : Pair) → member p out ≡ true → member p held ≡ true)

module _ (bound : Pair) (rest : List Pair) where
  erase_active-Moved :
      (xs out : List Pair) (q : TimerQueue)
      → IsConsistent out (record q { timers = xs })
      → Moved bound xs rest out q (erase_active (take_before bound xs) (record q { timers = rest }))
  unfolding erase_active take_before drop_before member
  erase_active-Moved [] out q inv =
      (q.active_timers, out, refl, inv, (λ p e. absurd (cc)), (λ p e. e))
  erase_active-Moved ((when, a) ∷ xs) out q inv = elim (Bool-cases (before (when, a) bound)) [
    | inr late ↦ rw late (q.active_timers, out, refl, inv, (λ p e. absurd (cc)), (λ p e. e))
    | inl early ↦
        let (t, lives, expires, active, small) = inv.by_time when a (member_first (when, a) xs) in
        let out' = insert (t.expiration, a) out in
        let q' = record q { active_timers = erase (a, t.sequence) q.active_timers } in
        let (active', held, e, inv', all, old) =
          erase_active-Moved xs out' q'
            (move-IsConsistent out q when a xs inv t lives expires active small) in
        rw (early, lives, active)
          (
            active',
            held,
            e,
            inv',
            (λ p m. elim (or_cases (same p (when, a)) (member p (take_before bound xs)) m) [
              | inl found ↦
                  ap (λ z. member z held) (same-eq p (when, a) found)
                  ∙ old (when, a)
                      (ap (λ n. member (when, a) (insert (n, a) out)) expires
                        ∙ insert_self (when, a) out)
              | inr later ↦ all p later
            ]),
            (λ p m. old p (insert_old p (t.expiration, a) out m)),
          )
  ]

-- The order of the set makes the first of the others later than `now`.
is_later-true :
    (now : ℕ) (xs : List Pair)
    → ((w a : ℕ) → member (w, a) xs ≡ true → now < w)
    → is_later now xs ≡ true
is_later-true now [] h = refl
is_later-true now ((w, a) ∷ xs) h = let l = h w a (member_first (w, a) xs) in lt→ltb now w l

due_iff : (w a now : ℕ) → a < uintptr_max → before (w, a) (sentry now) ≡ leb w now
due_iff w a now h = ground arith

-- What `getExpired` yields of a consistent queue.
abbrev pub Expired : ℕ → TimerQueue → Result (TimerQueue × List Pair) → Type 0
Expired now q r =
    (q' : TimerQueue) × (es : List Pair) × (r ≡ ok (q', es))
    × IsConsistent es q'
    × ((w a : ℕ) → member (w, a) es ≡ (leb w now && member (w, a) q.timers))
    × ((w a : ℕ) → member (w, a) q'.timers ≡ (ltb now w && member (w, a) q.timers))
    × (q'.heap ≡ q.heap)

module _ (q : TimerQueue) (inv : IsConsistent [] q) (now : ℕ) where
  abbrev expired : List Pair
  expired = take_before (sentry now) q.timers

  abbrev rest : List Pair
  rest = drop_before (sentry now) q.timers

  in_expired : (w a : ℕ) → member (w, a) expired ≡ (leb w now && member (w, a) q.timers)
  in_expired w a = elim (Bool-cases (member (w, a) q.timers)) [
    | inl there ↦
        let (_, _, _, _, small) = inv.by_time w a there in
        member-take_before (w, a) (sentry now) q.timers inv.timers_Increasing
        ∙ ap (λ b. b && member (w, a) q.timers) (due_iff w a now small)
    | inr absent ↦
        ground
          (arith, absent, member-take_before (w, a) (sentry now) q.timers inv.timers_Increasing)
  ]

  in_rest : (w a : ℕ) → member (w, a) rest ≡ (ltb now w && member (w, a) q.timers)
  in_rest w a = elim (Bool-cases (member (w, a) q.timers)) [
    | inl there ↦
        let (_, _, _, _, small) = inv.by_time w a there in
        let e = due_iff w a now small in
        let f = member-drop_before (w, a) (sentry now) q.timers inv.timers_Increasing in
        let g : not (leb w now) ≡ ltb now w = ground arith in
        f ∙ ap (λ b. not b && member (w, a) q.timers) e ∙ ap (λ b. b && member (w, a) q.timers) g
    | inr absent ↦
        ground
          (arith, absent, member-drop_before (w, a) (sentry now) q.timers inv.timers_Increasing)
  ]

  rest_later : (w a : ℕ) → member (w, a) rest ≡ true → now < w
  rest_later w a e = ground (arith, in_rest w a)

  -- `getExpired` of a consistent queue fails no assertion; it yields just the entries that expire at `now`
  -- or before, leaves just those that expire later in `timers_`, and the queue stays consistent with the
  -- expired timers alive and not active.
  pub get_expired-done : Expired now q (get_expired now q)
  unfolding get_expired
  get_expired-done =
      let (active, held, e, inv', all, _) =
        erase_active-Moved (sentry now) rest q.timers [] q inv in
      let after = record q { timers = rest; active_timers = active } in
      let inv_es : IsConsistent expired after =
        fewer-IsConsistent held expired after inv' (λ w a m. all (w, a) m)
          (take_before-Increasing (sentry now) q.timers inv.timers_Increasing) in
      rw
        (
          same_sizes-true [] q inv,
          is_later-true now rest rest_later,
          e,
          same_sizes-true expired after inv_es,
        )
        (after, expired, refl, inv_es, in_expired, in_rest, refl)
