-- ===== src/EventLoop.antt =====
-- muduo/net/EventLoop.h and EventLoop.cc: the loop of one thread, and the functors that its own and
-- other threads queue for it. The body of `loop` is cut where other threads can come between: at the
-- test of `quit_`, while it polls, while it handles events, and before each functor. A call by another
-- thread is a list of actions, each of which is atomic by `mutex_` or as one write; anything can come
-- between two of them. A functor is a number.
pub mod Wakeup
pub mod Order
mod Tests
use my_cisdi_code.Prelude.{
  Bool, List, Option, Result, [], check, false, if◌then◌else◌, length, none, not, ok, some, suc,
  true, zero, ℕ, ◌++◌, ◌+◌, ◌>>=◌, ◌>>◌, ◌||◌, ◌∷◌,
}

-- Where the thread of the loop is.
pub data Phase : Type 0 where
  outside testing polling handling : Phase
  -- The functors of `doPendingFunctors` that it has still to call.
  calling : List ℕ → Phase

-- What a thread does at once: `push_back` under the mutex, `quit_ = true`, or a write to `wakeupFd_`.
pub data Action : Type 0 where
  pushing : ℕ → Action
  stopping waking : Action

pub record EventLoop : Type 0 where
  pub phase : Phase
  pub looping : Bool
  pub quit : Bool
  pub event_handling : Bool
  pub calling_pending_functors : Bool
  pub iteration : ℕ
  pub pending_functors : List ℕ
  -- The writes to `wakeupFd_` since it was read last.
  pub wakeups : ℕ
  -- The calls by other threads that have begun, with what each has still to do.
  pub callers : List (List Action)

-- The constructor.
abbrev pub new_loop : EventLoop
new_loop = record {
  phase = outside;
  looping = false;
  quit = false;
  event_handling = false;
  calling_pending_functors = false;
  iteration = 0;
  pending_functors = [];
  wakeups = 0;
  callers = [];
}

abbrev pub wakeup : EventLoop → EventLoop
wakeup l = record l { wakeups = l.wakeups + 1 }

abbrev pub handle_read_wakeup : EventLoop → EventLoop
handle_read_wakeup l = record l { wakeups = 0 }

abbrev pub act : Action → EventLoop → EventLoop
act (pushing cb) l = record l { pending_functors = l.pending_functors ++ (cb ∷ []) }
act stopping l = record l { quit = true }
act waking l = wakeup l

unfoldable pub act_all : List Action → EventLoop → EventLoop
act_all [] l = l
act_all (a ∷ rest) l = act_all rest (act a l)

-- `quit()`, in the loop's thread or another.
unfoldable pub set_quit : Bool → List Action
set_quit in_loop_thread = if in_loop_thread then stopping ∷ [] else stopping ∷ waking ∷ []

-- `queueInLoop`; only the loop's thread reads `callingPendingFunctors_`.
unfoldable pub queue_in_loop : Bool → Bool → ℕ → List Action
queue_in_loop in_loop_thread calling_pending_functors cb =
    if not in_loop_thread || calling_pending_functors
    then pushing cb ∷ waking ∷ []
    else pushing cb ∷ []

-- With the functors that are called at once.
unfoldable pub run_in_loop : Bool → Bool → ℕ → List ℕ × List Action
unfolding queue_in_loop
run_in_loop in_loop_thread calling_pending_functors cb =
    if in_loop_thread
    then (cb ∷ [], [])
    else ([], queue_in_loop in_loop_thread calling_pending_functors cb)

-- Another thread begins a call.
abbrev pub begins : List Action → EventLoop → EventLoop
begins actions l = record l { callers = actions ∷ l.callers }

-- The next action of the n-th caller, if there is one, and the callers after it.
unfoldable pub next_action : ℕ → List (List Action) → Option Action × List (List Action)
next_action n [] = (none, [])
next_action zero ([] ∷ cs) = (none, [] ∷ cs)
next_action zero ((a ∷ rest) ∷ cs) = (some a, rest ∷ cs)
next_action (suc n) (c ∷ cs) = let rest = next_action n cs in (rest.0, c ∷ rest.1)

abbrev pub act_if : Option Action → EventLoop → EventLoop
act_if none l = l
act_if (some a) l = act a l

unfoldable pub goes_on : ℕ → EventLoop → EventLoop
unfolding next_action
goes_on n l = let next = next_action n l.callers in act_if next.0 (record l { callers = next.1 })

abbrev pub queue_size : EventLoop → ℕ
queue_size l = length l.pending_functors

-- `loop()` up to the first test of `quit_`.
unfoldable pub loop : EventLoop → Result EventLoop
loop l = do check (not l.looping); ok (record l { phase = testing; looping = true; quit = false })

-- The start of `doPendingFunctors`: the functors that are there now are swapped out.
abbrev pub do_pending_functors : EventLoop → EventLoop
do_pending_functors l = record l {
  phase = calling l.pending_functors;
  calling_pending_functors = true;
  pending_functors = [];
}

-- The loop goes on to its next cut, with the functor that it calls there.
unfoldable pub advance : Phase → EventLoop → List ℕ × EventLoop
advance outside l = ([], l)
advance testing l =
    if l.quit
    then ([], record l { phase = outside; looping = false })
    else ([], record l { phase = polling })
advance polling l =
    ([], record l { phase = handling; iteration = l.iteration + 1; event_handling = true })
advance handling l = ([], do_pending_functors (record l { event_handling = false }))
advance (calling []) l = ([], record l { phase = testing; calling_pending_functors = false })
advance (calling (f ∷ fs)) l = (f ∷ [], record l { phase = calling fs })

-- What can come next: the loop goes on; its thread reads `wakeupFd_`, queues or quits while it handles
-- events or calls functors; another thread begins to queue or to quit, or one that has begun does its
-- next action.
pub data Event : Type 0 where
  advances reads_wakeup quits_inside quits_outside : Event
  queues_inside queues_outside acts_outside : ℕ → Event

-- Whether the thread of the loop runs callbacks.
abbrev pub is_calling_back : Phase → Bool
is_calling_back handling = true
is_calling_back (calling fs) = true
is_calling_back _ = false

unfoldable pub step : Event → EventLoop → List ℕ × EventLoop
unfolding advance set_quit queue_in_loop act_all goes_on
step advances l = advance l.phase l
step reads_wakeup l = elim l.phase [ handling ↦ ([], handle_read_wakeup l) | _ ↦ ([], l) ]
step quits_inside l = ([], (if is_calling_back l.phase then act_all (set_quit true) l else l))
step quits_outside l = ([], begins (set_quit false) l)
step (queues_inside cb) l = (
  [],
  (if is_calling_back l.phase
      then act_all (queue_in_loop true l.calling_pending_functors cb) l
      else l),
)
step (queues_outside cb) l = ([], begins (queue_in_loop false l.calling_pending_functors cb) l)
step (acts_outside n) l = ([], goes_on n l)

-- A history, with all functors called.
unfoldable pub steps : List Event → EventLoop → List ℕ × EventLoop
steps [] l = ([], l)
steps (e ∷ es) l =
    let (first, l') = step e l in let (rest, l'') = steps es l' in (first ++ rest, l'')
