-- ===== src/ThreadPool/Wakeups.antt =====
-- No wakeup is lost: where a thread sleeps that could go on, another one is awake to go on first.
use my_cisdi_code.Prelude.{
  ==_iff, Bool, Bool-cases, List, [], arith, false, if◌then◌else◌, inl, inr, length, length-append,
  ltb, lt→ltb, max_size, ok, refl, subst, suc, sym, true, ℕ, ◌++◌, ◌+◌, ◌-◌, ◌<◌, ◌==◌, ◌∷◌, ◌≡◌,
  ◌≤◌, ◌⊎◌,
}
use my_cisdi_code.ThreadPool.{
  ThreadPool, is_full, new_pool, notify_not_empty, notify_not_full, run_locked, runner_resumes,
  start, stop, take_locked, take_task, taker_resumes,
}

-- One critical section or one spurious wakeup.
pub data Event : Type 0 where
  run_calls run_resumes : ℕ → Event
  take_calls take_resumes : Event
  spurious_runner spurious_taker : Event
  stops : Event

-- An event that is not possible (a thread resumes that is not there) leaves the pool as it is.
unfoldable pub step : Event → ThreadPool → ThreadPool
step (run_calls task) p = (run_locked task p).1
step (run_resumes task) p =
    if p.woken_runners == 0 then p else (run_locked task (runner_resumes p)).1
step take_calls p = (take_task p).1
step take_resumes p = if p.woken_takers == 0 then p else (take_task (taker_resumes p)).1
step spurious_runner p = notify_not_full p
step spurious_taker p = notify_not_empty p
step stops p = stop p

unfoldable pub steps : List Event → ThreadPool → ThreadPool
steps [] p = p
steps (e ∷ es) p = steps es (step e p)

-- A sleeping `take` means that each task has an awake thread for it; a sleeping `run`, that each free
-- place has one.
pub record IsAwake (p : ThreadPool) : Type 0 where
  pub takers : (p.asleep_takers ≡ 0) ⊎ ((p.running ≡ true) × (length p.queue ≤ p.woken_takers))
  pub runners :
      (p.asleep_runners ≡ 0)
      ⊎ ((0 < p.max_queue_size) × (p.max_queue_size ≤ length p.queue + p.woken_runners))
  pub bounded : (p.max_queue_size ≡ 0) ⊎ (length p.queue ≤ p.max_queue_size)

-- The invariant on the fields it reads: sleeping and woken takers, sleeping and woken runners,
-- tasks, bound, and the flag.
abbrev Awake : ℕ → ℕ → ℕ → ℕ → ℕ → ℕ → Bool → Type 0
Awake st wt sr wr n m running =
    ((st ≡ 0) ⊎ ((running ≡ true) × (n ≤ wt)))
    × ((sr ≡ 0) ⊎ ((0 < m) × (m ≤ n + wr)))
    × ((m ≡ 0) ⊎ (n ≤ m))

-- The invariant while one woken taker, or one woken runner, holds the lock.
abbrev Holding : ℕ → ℕ → ThreadPool → Type 0
Holding t r p =
    Awake p.asleep_takers (p.woken_takers + t) p.asleep_runners (p.woken_runners + r)
      (length p.queue) p.max_queue_size p.running

full_room :
    (p : ThreadPool)
    → is_full p ≡ true
    → (0 < p.max_queue_size) × (p.max_queue_size ≤ length p.queue)
full_room p full = ground arith

free_room :
    (p : ThreadPool)
    → is_full p ≡ false
    → (p.max_queue_size ≡ 0) ⊎ (length p.queue < p.max_queue_size)
free_room p free = ground arith

length-pushed : (p : ThreadPool) (task : ℕ) → length (p.queue ++ (task ∷ [])) ≡ length p.queue + 1
length-pushed p task = length-append p.queue (task ∷ [])

nobody_asleep : (n : ℕ) → (n == 0) ≡ true → n ≡ 0
nobody_asleep n e = (==_iff n 0).0 e

waited :
    (st wt sr wr n m r : ℕ) (b : Bool)
    → r ≤ 1
    → (0 < m) × (m ≤ n)
    → Awake st (wt + 0) sr (wr + r) n m b
    → Awake st (wt + 0) (sr + 1) (wr + 0) n m b
waited st wt sr wr n m r b le full (a, f, c) = (a, inr (full.0, omega (arith, full.1)), c)

pushed :
    (st wt sr wr n m r k : ℕ) (b : Bool)
    → r ≤ 1
    → (m ≡ 0) ⊎ (n < m)
    → k ≡ n + 1
    → Awake st (wt + 0) sr (wr + r) n m b
    → ((st ≡ 0) ⊎ ((b ≡ true) × (k ≤ wt + 1 + 0)))
      × ((sr ≡ 0) ⊎ ((0 < m) × (m ≤ k + (wr + 0))))
      × ((m ≡ 0) ⊎ (k ≤ m))
pushed st wt sr wr n m r k b le free e (a, f, c) = ground arith

still : {n : ℕ} {X : Type 0} → (n ≡ 0) ⊎ X → (n - 1 ≡ 0) ⊎ X
still (inl e) = inl (omega (arith, e))
still (inr h) = inr h

run_locked-Holding :
    (task r : ℕ) (p : ThreadPool) → r ≤ 1 → Holding 0 r p → Holding 0 0 (run_locked task p).1
unfolding run_locked
run_locked-Holding task r p le h = elim (Bool-cases (is_full p)) [
  | inl full ↦ rw full (
      waited p.asleep_takers p.woken_takers p.asleep_runners p.woken_runners (length p.queue)
        p.max_queue_size r p.running le (full_room p full) h)
  | inr free ↦
      let (a, f, c) =
        pushed p.asleep_takers p.woken_takers p.asleep_runners p.woken_runners (length p.queue)
          p.max_queue_size r _ p.running le (free_room p free) (length-pushed p task) h in
      rw free (elim (Bool-cases (p.asleep_takers == 0)) [
        | inl none_asleep ↦ rw none_asleep (inl (nobody_asleep p.asleep_takers none_asleep), f, c)
        | inr some_asleep ↦ rw some_asleep (still a, f, c)
      ])
]

taken :
    (st wt sr wr n m t : ℕ) (b : Bool)
    → t ≤ 1
    → Awake st (wt + t) sr (wr + 0) (suc n) m b
    → Awake st (wt + 0) sr (wr + 1 + 0) n m b
taken st wt sr wr n m t b le (a, f, c) = ground arith

unbounded :
    (sr wr wr' n k m : ℕ)
    → ltb 0 m ≡ false
    → (sr ≡ 0) ⊎ ((0 < m) × (m ≤ n + wr))
    → (sr ≡ 0) ⊎ ((0 < m) × (m ≤ k + wr'))
unbounded sr wr wr' n k m none_bound (inl e) = inl e
unbounded sr wr wr' n k m none_bound (inr (h, l)) = ground (arith, lt→ltb 0 m h)

idle : {n : ℕ} {b : Bool} {X Y : Type 0} → (n ≡ 0) ⊎ ((b ≡ true) × X) → b ≡ false → (n ≡ 0) ⊎ Y
idle (inl e) off = inl e
idle (inr (on, h)) off = ground arith

take_locked-Holding :
    (q : List ℕ) (t : ℕ) (p : ThreadPool)
    → t ≤ 1
    → Holding t 0 (record p { queue = q })
    → Holding 0 0 (take_locked q (record p { queue = q })).1
unfolding take_locked
take_locked-Holding [] t p le (a, f, c) = elim (Bool-cases p.running) [
  | inl on ↦ rw on (inr (refl, omega arith), f, c)
  | inr off ↦ rw off (idle a off, f, c)
]
take_locked-Holding (x ∷ xs) t p le h =
    let (a, f, c) =
      taken p.asleep_takers p.woken_takers p.asleep_runners p.woken_runners (length xs)
        p.max_queue_size t p.running le h in
    elim (Bool-cases (ltb 0 p.max_queue_size)) [
      | inl bound ↦ rw bound (elim (Bool-cases (p.asleep_runners == 0)) [
        | inl none_asleep ↦ rw none_asleep (a, inl (nobody_asleep p.asleep_runners none_asleep), c)
        | inr some_asleep ↦ rw some_asleep (a, still f, c)
      ])
      | inr no_bound ↦ rw no_bound (
        a,
        unbounded p.asleep_runners (p.woken_runners + 0) (p.woken_runners + 0) (suc (length xs))
            (length xs) p.max_queue_size no_bound h.1,
        c,
      )
    ]

at_rest : (w : ℕ) {n k : ℕ} {X : Type 0} → (n ≡ 0) ⊎ (X × (k ≤ w + 0)) → (n ≡ 0) ⊎ (X × (k ≤ w))
at_rest w (inl e) = inl e
at_rest w (inr (x, h)) = inr (x, omega (arith, h))

awake : (p : ThreadPool) → Holding 0 0 p → IsAwake p
awake p (a, f, c) = record {
  takers = at_rest p.woken_takers a;
  runners =
      subst
        (λ w.
          (p.asleep_runners ≡ 0)
          ⊎ ((0 < p.max_queue_size) × (p.max_queue_size ≤ length p.queue + w)))
        (omega arith) f;
  bounded = c;
}

one_more : {n : ℕ} {X Y : Type 0} → (X → Y) → (n ≡ 0) ⊎ X → (n - 1 ≡ 0) ⊎ Y
one_more f (inl e) = inl (omega (arith, e))
one_more f (inr x) = inr (f x)

resumed : (n : ℕ) → (n == 0) ≡ false → n - 1 + 1 ≡ n + 0
resumed n h = ground arith

step-Holding : (e : Event) (p : ThreadPool) → Holding 0 0 p → Holding 0 0 (step e p)
unfolding step take_task
step-Holding (run_calls task) p h = run_locked-Holding task 0 p (omega arith) h
step-Holding (run_resumes task) p h = elim (Bool-cases (p.woken_runners == 0)) [
  | inl none_woken ↦ rw none_woken h
  | inr woken ↦ rw woken (
      run_locked-Holding task 1 (runner_resumes p) (omega arith) (
        subst
          (λ w.
            Awake p.asleep_takers (p.woken_takers + 0) p.asleep_runners w (length p.queue)
              p.max_queue_size p.running)
          (sym (resumed p.woken_runners woken)) h))
]
step-Holding take_calls p h = take_locked-Holding p.queue 0 p (omega arith) h
step-Holding take_resumes p h = elim (Bool-cases (p.woken_takers == 0)) [
  | inl none_woken ↦ rw none_woken h
  | inr woken ↦ rw woken (
      take_locked-Holding p.queue 1 (taker_resumes p) (omega arith) (
        subst
          (λ w.
            Awake p.asleep_takers w p.asleep_runners (p.woken_runners + 0) (length p.queue)
              p.max_queue_size p.running)
          (sym (resumed p.woken_takers woken)) h))
]
step-Holding spurious_runner p (a, f, c) = elim (Bool-cases (p.asleep_runners == 0)) [
  | inl none_asleep ↦ rw none_asleep (a, f, c)
  | inr some_asleep ↦ rw some_asleep (a, one_more (λ (b, l). (b, omega (arith, l))) f, c)
]
step-Holding spurious_taker p (a, f, c) = elim (Bool-cases (p.asleep_takers == 0)) [
  | inl none_asleep ↦ rw none_asleep (a, f, c)
  | inr some_asleep ↦ rw some_asleep (one_more (λ (b, l). (b, omega (arith, l))) a, f, c)
]
step-Holding stops p (a, f, c) = (inl refl, f, c)

steps-Holding : (es : List Event) (p : ThreadPool) → Holding 0 0 p → Holding 0 0 (steps es p)
unfolding steps
steps-Holding [] p h = h
steps-Holding (e ∷ es) p h = steps-Holding es (step e p) (step-Holding e p h)

-- However the threads of a started pool and its callers interleave, with spurious wakeups, up to and
-- after `stop`: while a thread sleeps in `take`, the pool runs and each task in the queue has an awake
-- thread for it; while a caller sleeps in `run`, each free place has one; and a bound is kept.
pub steps-IsAwake :
    (num_threads max_size : ℕ) (es : List Event)
    → (p : ThreadPool) × (start num_threads (new_pool max_size) ≡ ok p) × IsAwake (steps es p)
unfolding start
steps-IsAwake num_threads max_size es =
    let p = record (new_pool max_size) { running = true; threads = num_threads } in
    (p, refl, awake (steps es p) (steps-Holding es p (inl refl, inl refl, inr (omega arith))))
