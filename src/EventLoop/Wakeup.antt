-- ===== src/EventLoop/Wakeup.antt =====
-- The loop never sleeps on work: what was queued or asked of it while it polls has also woken it, or is
-- about to.
use my_cisdi_code.Prelude.{
  Bool, Bool-cases, List, Option, Result, [], arith, dec_lt, false, fault, inl, inr, none, ok, refl,
  some, subst, suc, sym, true, zero, ℕ, ◌++◌, ◌+◌, ◌<◌, ◌∷◌, ◌≡◌, ◌≢◌, ◌≤◌, ◌⊎◌,
}
use my_cisdi_code.EventLoop.{
  Action, Event, EventLoop, Phase, act_all, act_if, acts_outside, advance, advances, begins,
  calling, goes_on, handling, loop, next_action, outside, polling, pushing, queue_in_loop,
  queues_inside, queues_outside, quits_inside, quits_outside, reads_wakeup, set_quit, step, steps,
  stopping, testing, waking,
}

-- The wakeups that a caller has still to write, and all callers.
abbrev pub owed_by : List Action → ℕ
owed_by [] = 0
owed_by (waking ∷ rest) = suc (owed_by rest)
owed_by (_ ∷ rest) = owed_by rest

abbrev pub owed : List (List Action) → ℕ
owed [] = 0
owed (c ∷ cs) = owed_by c + owed cs

-- A caller that has still to push or to set `quit_` writes a wakeup after it.
abbrev Ends : List Action → Type 0
Ends [] = Unit {0}
Ends (waking ∷ rest) = Ends rest
Ends (pushing cb ∷ rest) = (0 < owed_by rest) × Ends rest
Ends (stopping ∷ rest) = (0 < owed_by rest) × Ends rest

abbrev AllEnd : List (List Action) → Type 0
AllEnd [] = Unit {0}
AllEnd (c ∷ cs) = Ends c × AllEnd cs

abbrev wakeups_of : Option Action → ℕ
wakeups_of (some waking) = 1
wakeups_of _ = 0

-- After an action other than a wakeup, its caller still owes one.
abbrev Owing : Option Action → ℕ → Type 0
Owing (some (pushing cb)) k = 0 < k
Owing (some stopping) k = 0 < k
Owing _ k = Unit {0}

Owing-more : (o : Option Action) (k m : ℕ) → Owing o k → k ≤ m → Owing o m
Owing-more none k m h l = tt
Owing-more (some (pushing cb)) k m h l = omega arith
Owing-more (some stopping) k m h l = omega arith
Owing-more (some waking) k m h l = tt

abbrev Next : List (List Action) → Option Action × List (List Action) → Type 0
Next cs r = AllEnd r.1 × (wakeups_of r.0 + owed r.1 ≡ owed cs) × Owing r.0 (owed r.1)

-- A caller's next action: no wakeup is lost.
next_action-Next : (n : ℕ) (cs : List (List Action)) → AllEnd cs → Next cs (next_action n cs)
unfolding next_action
next_action-Next zero [] h = (tt, omega arith, tt)
next_action-Next (suc n) [] h = (tt, omega arith, tt)
next_action-Next zero ([] ∷ cs) h = (h, omega arith, tt)
next_action-Next zero ((waking ∷ rest) ∷ cs) h = (h, omega arith, tt)
next_action-Next zero ((pushing cb ∷ rest) ∷ cs) h =
    ((h.0.1, h.1), omega arith, omega (arith, h.0.0))
next_action-Next zero ((stopping ∷ rest) ∷ cs) h = ((h.0.1, h.1), omega arith, omega (arith, h.0.0))
next_action-Next (suc n) (c ∷ cs) h =
    let (ends, count, owing) = next_action-Next n cs h.1 in
    (
      (h.0, ends),
      omega (arith, count),
      Owing-more (next_action n cs).0 (owed (next_action n cs).1)
          (owed_by c + owed (next_action n cs).1) owing (omega arith),
    )

-- A reason to leave `poll`, now or soon, is there whenever functors wait or the loop should end; `w`
-- counts the wakeups that were written and those that are owed.
abbrev Alert : List ℕ → Bool → ℕ → Type 0
Alert pending quit w = ((pending ≡ []) × (quit ≡ false)) ⊎ (0 < w)

-- The invariant, by where the loop is: functors queued during `doPendingFunctors` have woken it, and
-- so has all that came while it tests or polls.
abbrev Awake : Phase → Bool → List ℕ → Bool → ℕ → Type 0
Awake outside is_set pending quit w = Unit {0}
Awake testing is_set pending quit w = (pending ≡ []) ⊎ (0 < w)
Awake polling is_set pending quit w = Alert pending quit w
Awake handling is_set pending quit w = Unit {0}
Awake (calling fs) is_set pending quit w = (is_set ≡ true) × ((pending ≡ []) ⊎ (0 < w))

abbrev AwakeAt : Phase → EventLoop → Type 0
AwakeAt p l =
    Awake p l.calling_pending_functors l.pending_functors l.quit (l.wakeups + owed l.callers)

abbrev pub IsAwake : EventLoop → Type 0
IsAwake l = AwakeAt l.phase l × AllEnd l.callers

-- What `advance` makes of the invariant, from each place.
advance-Awake :
    (p : Phase) (l : EventLoop)
    → IsAwake (record l { phase = p })
    → IsAwake (advance p (record l { phase = p })).1
unfolding advance
advance-Awake outside l (h, ends) = (tt, ends)
advance-Awake testing l (h, ends) = elim (Bool-cases l.quit) [
  | inl quits ↦ rw quits (tt, ends)
  | inr goes_on ↦ rw goes_on (ground arith, ends)
]
advance-Awake polling l (h, ends) = (tt, ends)
advance-Awake handling l (h, ends) = ((refl, inl refl), ends)
advance-Awake (calling []) l (h, ends) = (h.1, ends)
advance-Awake (calling (f ∷ fs)) l (h, ends) = (h, ends)

-- A wakeup makes good whatever came with it.
woken :
    (p : Phase) (b quits : Bool) (pending before : List ℕ) (q : Bool) (w v : ℕ)
    → Awake p b before q v
    → 0 < w
    → Awake p b pending quits w
woken outside b quits pending before q w v h lt = tt
woken testing b quits pending before q w v h lt = inr lt
woken polling b quits pending before q w v h lt = inr lt
woken handling b quits pending before q w v h lt = tt
woken (calling fs) b quits pending before q w v h lt = (h.0, inr lt)

queue_inside-Awake :
    (cb : ℕ) (p : Phase) (l : EventLoop)
    → IsAwake (record l { phase = p })
    → IsAwake (step (queues_inside cb) (record l { phase = p })).1
unfolding step queue_in_loop act_all
queue_inside-Awake cb outside l h = h
queue_inside-Awake cb testing l h = h
queue_inside-Awake cb polling l h = h
queue_inside-Awake cb handling l (h, ends) = elim (Bool-cases l.calling_pending_functors) [
  | inl calls ↦ rw calls (tt, ends)
  | inr free ↦ rw free (tt, ends)
]
queue_inside-Awake cb (calling fs) l (h, ends) = rw h.0 ((refl, inr (omega arith)), ends)

-- Where wakeups are written or owed already, it does not matter what else changes.
more :
    (p : Phase) (b quits : Bool) (pending : List ℕ) (w v : ℕ)
    → Awake p b pending quits v
    → v ≤ w
    → Awake p b pending quits w
more outside b quits pending w v h le = tt
more testing b quits pending w v h le = ground arith
more polling b quits pending w v h le = ground arith
more handling b quits pending w v h le = tt
more (calling fs) b quits pending w v h le = (h.0, ground arith)

act_if-Awake :
    (o : Option Action) (p : Phase) (l : EventLoop) (cs : List (List Action))
    → AwakeAt p l
    → wakeups_of o + owed cs ≡ owed l.callers
    → Owing o (owed cs)
    → AwakeAt p (act_if o (record l { phase = p; callers = cs }))
act_if-Awake none p l cs h count owing =
    more p l.calling_pending_functors l.quit l.pending_functors (l.wakeups + owed cs)
      (l.wakeups + owed l.callers) h (omega (arith, count))
act_if-Awake (some waking) p l cs h count owing =
    more p l.calling_pending_functors l.quit l.pending_functors (l.wakeups + 1 + owed cs)
      (l.wakeups + owed l.callers) h (omega (arith, count))
act_if-Awake (some (pushing cb)) p l cs h count owing =
    woken p l.calling_pending_functors l.quit (l.pending_functors ++ (cb ∷ [])) l.pending_functors
      l.quit (l.wakeups + owed cs) (l.wakeups + owed l.callers) h (omega (arith, owing))
act_if-Awake (some stopping) p l cs h count owing =
    woken p l.calling_pending_functors true l.pending_functors l.pending_functors l.quit
      (l.wakeups + owed cs) (l.wakeups + owed l.callers) h (omega (arith, owing))

act_if-phase : (o : Option Action) (l : EventLoop) → (act_if o l).phase ≡ l.phase
act_if-phase none l = refl
act_if-phase (some (pushing cb)) l = refl
act_if-phase (some stopping) l = refl
act_if-phase (some waking) l = refl

act_if-callers : (o : Option Action) (l : EventLoop) → (act_if o l).callers ≡ l.callers
act_if-callers none l = refl
act_if-callers (some (pushing cb)) l = refl
act_if-callers (some stopping) l = refl
act_if-callers (some waking) l = refl

goes_on-Awake :
    (n : ℕ) (p : Phase) (l : EventLoop)
    → IsAwake (record l { phase = p })
    → IsAwake (goes_on n (record l { phase = p }))
unfolding goes_on
goes_on-Awake n p l (h, ends) =
    let (end, count, owing) = next_action-Next n l.callers ends in
    let o = (next_action n l.callers).0 in
    let l' : EventLoop = record l { phase = p; callers = (next_action n l.callers).1 } in
    (
      subst (λ q. AwakeAt q (act_if o l')) (sym (act_if-phase o l'))
          (act_if-Awake o p l (next_action n l.callers).1 h count owing),
      subst AllEnd (sym (act_if-callers o l')) end,
    )

begins-Awake :
    (actions : List Action) (p : Phase) (l : EventLoop)
    → Ends actions
    → IsAwake (record l { phase = p })
    → IsAwake (begins actions (record l { phase = p }))
begins-Awake actions p l e (h, ends) = (
  more p l.calling_pending_functors l.quit l.pending_functors
      (l.wakeups + (owed_by actions + owed l.callers)) (l.wakeups + owed l.callers) h (omega arith),
  (e, ends),
)

queue_in_loop-Ends : (c : Bool) (cb : ℕ) → Ends (queue_in_loop false c cb)
unfolding queue_in_loop
queue_in_loop-Ends c cb = (omega arith, tt)

set_quit-Ends : Ends (set_quit false)
unfolding set_quit
set_quit-Ends = (omega arith, tt)

step-Awake :
    (e : Event) (p : Phase) (l : EventLoop)
    → IsAwake (record l { phase = p })
    → IsAwake (step e (record l { phase = p })).1
unfolding step act_all
step-Awake advances p l h = advance-Awake p l h
step-Awake reads_wakeup handling l (h, ends) = (tt, ends)
step-Awake reads_wakeup outside l h = h
step-Awake reads_wakeup testing l h = h
step-Awake reads_wakeup polling l h = h
step-Awake reads_wakeup (calling fs) l h = h
step-Awake quits_inside handling l (h, ends) = unfold set_quit in (tt, ends)
step-Awake quits_inside outside l h = h
step-Awake quits_inside testing l h = h
step-Awake quits_inside polling l h = h
step-Awake quits_inside (calling fs) l h = unfold set_quit in h
step-Awake quits_outside p l h = begins-Awake (set_quit false) p l set_quit-Ends h
step-Awake (queues_inside cb) p l h = queue_inside-Awake cb p l h
step-Awake (queues_outside cb) p l h =
    begins-Awake (queue_in_loop false l.calling_pending_functors cb) p l
      (queue_in_loop-Ends l.calling_pending_functors cb) h
step-Awake (acts_outside n) p l h = goes_on-Awake n p l h

steps-Awake : (es : List Event) (l : EventLoop) → IsAwake l → IsAwake (steps es l).1
unfolding steps
steps-Awake [] l h = h
steps-Awake (e ∷ es) l h = steps-Awake es (step e l).1 (step-Awake e l.phase l h)

-- What `loop` starts with.
abbrev Started : Result EventLoop → Type 0
Started (fault e) = Unit {0}
Started (ok l) = IsAwake l

loop-Started : (l : EventLoop) → l.pending_functors ≡ [] → l.callers ≡ [] → Started (loop l)
unfolding loop
loop-Started l none_waits alone = elim (Bool-cases l.looping) [
  | inl busy ↦ rw busy tt
  | inr free ↦ rw free (inl none_waits, subst AllEnd (sym alone) tt)
]

alert :
    (l : EventLoop) (p : Phase)
    → AwakeAt p l
    → p ≡ polling
    → Alert l.pending_functors l.quit (l.wakeups + owed l.callers)
alert l p h e = subst (λ p. AwakeAt p l) e h

needed :
    (pending : List ℕ) (quits : Bool) (w : ℕ)
    → Alert pending quits w
    → (pending ≢ []) ⊎ (quits ≡ true)
    → 0 < w
needed pending quits w (inr h) reason = h
needed pending quits w (inl (none_waits, goes_on)) (inl h) = absurd (h none_waits)
needed pending quits w (inl (none_waits, goes_on)) (inr h) = absurd (cc)

-- From a start of `loop` with no functor waiting and no call of another thread begun, after any
-- interleaving of the loop with the single actions of other threads: if the loop polls while a functor
-- waits, or while it has been told to quit, then `wakeupFd_` has been written since it was read last,
-- or a thread is still inside `queueInLoop` or `quit` and its write to `wakeupFd_` is to come.
pub steps-woken :
    (l started : EventLoop) (es : List Event)
    → loop l ≡ ok started
    → l.pending_functors ≡ []
    → l.callers ≡ []
    → let now = (steps es started).1 in
      now.phase ≡ polling
      → (now.pending_functors ≢ []) ⊎ (now.quit ≡ true)
      → (0 < now.wakeups) ⊎ (0 < owed now.callers)
steps-woken l started es e none_waits alone polls reason =
    let now = (steps es started).1 in
    let w =
      needed now.pending_functors now.quit (now.wakeups + owed now.callers)
        (alert now now.phase
          (steps-Awake es started (subst Started e (loop-Started l none_waits alone))).0 polls)
        reason in
    elim (dec_lt 0 now.wakeups) [
      | yes written ↦ inl written
      | no unwritten ↦ inr (omega (arith, w))
    ]
