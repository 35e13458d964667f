-- ===== src/EventLoop/Order.antt =====
-- Each queued functor is called once, in the order of the queueing.
use my_cisdi_code.Prelude.{
  Bool, Bool-cases, List, Option, [], ap, if◌then◌else◌, inl, inr, none, not, refl, some, sym, true,
  ℕ, ◌++◌, ◌||◌, ◌∙◌, ◌∷◌, ◌≡◌,
}
use my_cisdi_code.EventLoop.{
  Action, Event, EventLoop, Phase, act_all, act_if, acts_outside, advance, advances, calling,
  goes_on, handling, is_calling_back, next_action, outside, polling, pushing, queue_in_loop,
  queues_inside, queues_outside, quits_inside, quits_outside, reads_wakeup, set_quit, step, steps,
  stopping, testing, waking,
}
use mathlib.Core.List.{append_assoc, append-nil}

-- The functors that were swapped out and not called yet.
abbrev left : Phase → List ℕ
left (calling fs) = fs
left _ = []

abbrev pub waiting : EventLoop → List ℕ
waiting l = left l.phase ++ l.pending_functors

-- What an event pushes: from inside only while callbacks run, from outside where a caller comes to it.
abbrev pub pushed : Option Action → List ℕ
pushed (some (pushing cb)) = cb ∷ []
pushed _ = []

abbrev pub queued_by : Event → Phase → List (List Action) → List ℕ
queued_by (queues_inside cb) p cs = if is_calling_back p then cb ∷ [] else []
queued_by (acts_outside n) p cs = pushed (next_action n cs).0
queued_by _ p cs = []

unfoldable pub queued : List Event → EventLoop → List ℕ
queued [] l = []
queued (e ∷ es) l = queued_by e l.phase l.callers ++ queued es (step e l).1

same : (p : Phase) (pending : List ℕ) → left p ++ pending ≡ (left p ++ pending) ++ []
same p pending = sym (append-nil (left p ++ pending))

queue_in_loop-pending :
    (b c : Bool) (cb : ℕ) (l : EventLoop)
    → waiting (act_all (queue_in_loop b c cb) l) ≡ waiting l ++ (cb ∷ [])
unfolding queue_in_loop act_all
queue_in_loop-pending b c cb l = elim (Bool-cases (not b || c)) [
  | inl wakes ↦ rw wakes (sym (append_assoc (left l.phase) l.pending_functors (cb ∷ [])))
  | inr quiet ↦ rw quiet (sym (append_assoc (left l.phase) l.pending_functors (cb ∷ [])))
]

act_if-pending : (o : Option Action) (l : EventLoop) → waiting (act_if o l) ≡ waiting l ++ pushed o
act_if-pending none l = same l.phase l.pending_functors
act_if-pending (some (pushing cb)) l =
    sym (append_assoc (left l.phase) l.pending_functors (cb ∷ []))
act_if-pending (some stopping) l = same l.phase l.pending_functors
act_if-pending (some waking) l = same l.phase l.pending_functors

abbrev Kept : Event → Phase → EventLoop → Type 0
Kept e p l =
    (step e (record l { phase = p })).0 ++ waiting (step e (record l { phase = p })).1
    ≡ waiting (record l { phase = p }) ++ queued_by e p l.callers

advance-Kept : (p : Phase) (l : EventLoop) → Kept advances p l
unfolding step advance
advance-Kept outside l = same outside l.pending_functors
advance-Kept testing l = elim (Bool-cases l.quit) [
  | inl quits ↦ rw quits (same testing l.pending_functors)
  | inr goes_on ↦ rw goes_on (same testing l.pending_functors)
]
advance-Kept polling l = same polling l.pending_functors
advance-Kept handling l = refl
advance-Kept (calling []) l = same (calling []) l.pending_functors
advance-Kept (calling (f ∷ fs)) l = same (calling (f ∷ fs)) l.pending_functors

reads-Kept : (p : Phase) (l : EventLoop) → Kept reads_wakeup p l
unfolding step
reads-Kept handling l = same handling l.pending_functors
reads-Kept outside l = same outside l.pending_functors
reads-Kept testing l = same testing l.pending_functors
reads-Kept polling l = same polling l.pending_functors
reads-Kept (calling fs) l = same (calling fs) l.pending_functors

step-Kept : (e : Event) (p : Phase) (l : EventLoop) → Kept e p l
unfolding step set_quit act_all goes_on
step-Kept advances p l = advance-Kept p l
step-Kept reads_wakeup p l = reads-Kept p l
step-Kept quits_inside p l = elim (Bool-cases (is_calling_back p)) [
  | inl here ↦ rw here (same p l.pending_functors)
  | inr absent ↦ rw absent (same p l.pending_functors)
]
step-Kept quits_outside p l = same p l.pending_functors
step-Kept (queues_inside cb) p l = elim (Bool-cases (is_calling_back p)) [
  | inl here ↦
      rw here (queue_in_loop-pending true l.calling_pending_functors cb (record l { phase = p }))
  | inr absent ↦ rw absent (same p l.pending_functors)
]
step-Kept (queues_outside cb) p l = same p l.pending_functors
step-Kept (acts_outside n) p l =
    act_if-pending (next_action n l.callers).0
      (record l { phase = p; callers = (next_action n l.callers).1 })

-- Over any history, the functors that were called, in their order, and then those that still wait, are
-- those that waited at first and then those that were queued, in the order in which they were pushed:
-- none is lost, called twice or overtaken.
pub steps-order :
    (es : List Event) (l : EventLoop)
    → (steps es l).0 ++ waiting (steps es l).1 ≡ waiting l ++ queued es l
unfolding steps queued
steps-order [] l = same l.phase l.pending_functors
steps-order (e ∷ es) l =
    append_assoc (step e l).0 (steps es (step e l).1).0 (waiting (steps es (step e l).1).1)
    ∙ ap (λ xs. (step e l).0 ++ xs) (steps-order es (step e l).1)
    ∙ sym (append_assoc (step e l).0 (waiting (step e l).1) (queued es (step e l).1))
    ∙ ap (λ xs. xs ++ queued es (step e l).1) (step-Kept e l.phase l)
    ∙ append_assoc (waiting l) (queued_by e l.phase l.callers) (queued es (step e l).1)
