-- ===== src/TimerQueue/Callbacks.antt =====
-- The callbacks of expired timers, which may add and cancel timers, these ones too.
use my_cisdi_code.Prelude.{List, Result, [], none, ok, refl, true, ℕ, ◌<◌, ◌∷◌, ◌≡◌}
use my_cisdi_code.Prelude.PairSet.{Pair, member}
use my_cisdi_code.TimerQueue.{
  Command, TimerQueue, add, cancel, run_command, run_commands, run_expired, uintptr_max,
}
use my_cisdi_code.TimerQueue.Follows.{Follows, Follows-refl, Follows-trans}
use my_cisdi_code.TimerQueue.Consistent.{IsConsistent}
use my_cisdi_code.TimerQueue.Expiring.{member_first, member_rest}
use my_cisdi_code.TimerQueue.Adding.{add_timer-done}
use my_cisdi_code.TimerQueue.Canceling.{cancel_in_loop-done}

-- `new` yields an address that is not in use.
abbrev pub Fits : Command → TimerQueue → Type 0
Fits (add a when interval repeat) q = (q.heap a ≡ none) × (a < uintptr_max)
Fits (cancel id) q = Unit {0}

abbrev pub AllFit : List Command → TimerQueue → Type 0
AllFit [] q = Unit {0}
AllFit (c ∷ cs) q = Fits c q × ((q' : TimerQueue) → run_command c q ≡ ok q' → AllFit cs q')

abbrev pub CallbacksFit : (Pair → List Command) → List Pair → TimerQueue → Type 0
CallbacksFit callback [] q = Unit {0}
CallbacksFit callback (e ∷ es) q =
    AllFit (callback e) q
    × ((q' : TimerQueue) → run_commands (callback e) q ≡ ok q' → CallbacksFit callback es q')

abbrev pub Went : List Pair → TimerQueue → Result TimerQueue → Type 0
Went out q r = (q' : TimerQueue) × (r ≡ ok q') × IsConsistent out q' × Follows q q'

module _ (out : List Pair) where
  run_command-Went :
      (c : Command) (q : TimerQueue) → IsConsistent out q → Fits c q → Went out q (run_command c q)
  unfolding run_command
  run_command-Went (add a when interval repeat) q inv (free, small) =
      let (q', e, inv', _, _, follows) =
        add_timer-done out q inv a when interval repeat free small in
      rw e (q', refl, inv', follows)
  run_command-Went (cancel id) q inv fits =
      let (q', e, inv', _, follows, _) = cancel_in_loop-done out q inv id in
      rw e (q', refl, inv', follows)

  pub run_commands-Went :
      (cs : List Command) (q : TimerQueue)
      → IsConsistent out q
      → AllFit cs q
      → Went out q (run_commands cs q)
  unfolding run_commands
  run_commands-Went [] q inv fits = (q, refl, inv, Follows-refl q)
  run_commands-Went (c ∷ cs) q inv (fit, fits) =
      let (q1, e1, inv1, follows1) = run_command-Went c q inv fit in
      let (q2, e2, inv2, follows2) = run_commands-Went cs q1 inv1 (fits q1 e1) in
      rw (e1, e2) (q2, refl, inv2, Follows-trans q q1 q2 follows1 follows2)

  -- The expired timers `es` are all held, so that each `Timer::run` finds its timer.
  pub run_expired-Went :
      (callback : Pair → List Command) (es : List Pair) (q : TimerQueue)
      → ((w a : ℕ) → member (w, a) es ≡ true → member (w, a) out ≡ true)
      → IsConsistent out q
      → CallbacksFit callback es q
      → Went out q (run_expired callback es q)
  unfolding run_expired
  run_expired-Went callback [] q held inv fits = (q, refl, inv, Follows-refl q)
  run_expired-Went callback ((w, a) ∷ es) q held inv (fit, fits) =
      let (t, lives, _, _, _) = inv.taken w a (held w a (member_first (w, a) es)) in
      let (q1, e1, inv1, follows1) = run_commands-Went (callback (w, a)) q inv fit in
      let (q2, e2, inv2, follows2) =
        run_expired-Went callback es q1 (λ v b m. held v b (member_rest (v, b) (w, a) es m)) inv1
          (fits q1 e1) in
      rw (lives, e1, e2) (q2, refl, inv2, Follows-trans q q1 q2 follows1 follows2)
