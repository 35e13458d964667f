-- ===== src/EventLoop/Tests.antt =====
-- A loop at concrete inputs.
use my_cisdi_code.Prelude.{List, [], inl, ok, refl, true, ◌++◌, ◌<◌, ◌∷◌, ◌≡◌, ◌≢◌, ◌⊎◌}
use my_cisdi_code.EventLoop.{
  Event, EventLoop, act_all, acts_outside, advances, goes_on, loop, new_loop, polling,
  queue_in_loop, queues_inside, queues_outside, reads_wakeup, step, steps, testing,
}
use my_cisdi_code.EventLoop.Wakeup.{owed, steps-woken}
use my_cisdi_code.EventLoop.Order.{queued, steps-order, waiting}

abbrev started : EventLoop
started = record new_loop { phase = testing; looping = true }

new_loop-loop : loop new_loop ≡ ok started
unfolding loop
new_loop-loop = refl

-- Another thread pushes a functor, and wakes the loop only after it polls; of the functors queued from
-- a callback only the one of a pending functor wakes it.
abbrev round : List Event
round =
    queues_outside 1
    ∷ acts_outside 0
    ∷ advances
    ∷ acts_outside 0
    ∷ advances
    ∷ reads_wakeup
    ∷ queues_inside 2
    ∷ advances
    ∷ advances
    ∷ queues_inside 3
    ∷ advances
    ∷ advances
    ∷ advances
    ∷ []

round-called : (steps round started).0 ≡ 1 ∷ 2 ∷ []
unfolding steps step queue_in_loop act_all goes_on
round-called = refl

round-polls : (steps round started).1.phase ≡ polling
unfolding steps step queue_in_loop act_all goes_on
round-polls = refl

round-waits : (steps round started).1.pending_functors ≢ []
unfolding steps step queue_in_loop act_all goes_on
round-waits = λ e. cc

steps-woken_example :
    (0 < (steps round started).1.wakeups) ⊎ (0 < owed (steps round started).1.callers)
steps-woken_example =
    steps-woken new_loop started round new_loop-loop refl refl round-polls (inl round-waits)

steps-order_example :
    (steps round started).0 ++ waiting (steps round started).1 ≡ [] ++ queued round started
steps-order_example = steps-order round started
