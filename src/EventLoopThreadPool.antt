-- ===== src/EventLoopThreadPool.antt =====
-- muduo/net/EventLoopThreadPool.h and EventLoopThreadPool.cc: which loop gets the next connection.
-- A loop is a number; the loops that `startLoop` of each new thread returns are an argument.
pub mod RoundRobin
mod Tests
use my_cisdi_code.Prelude.{
  Bool, List, Option, Result, [], check, false, fault, get_elem?, if◌then◌else◌, leb, length, none,
  not, ok, out_of_bounds, some, suc, true, zero, ℕ, ◌%◌, ◌++◌, ◌+◌, ◌>>=◌, ◌>>◌, ◌∷◌,
}

pub record EventLoopThreadPool : Type 0 where
  pub base_loop : ℕ
  pub started : Bool
  pub num_threads : ℕ
  pub next : ℕ
  pub loops : List ℕ

-- The constructor, with `setThreadNum`.
abbrev pub new_pool : ℕ → ℕ → EventLoopThreadPool
new_pool base_loop num_threads = record {
  base_loop = base_loop;
  started = false;
  num_threads = num_threads;
  next = 0;
  loops = [];
}

-- The loop of `start`: `start_loop i` is what the i-th thread returns.
abbrev pub start_loops : ℕ → ℕ → (ℕ → ℕ) → List ℕ
start_loops i zero start_loop = []
start_loops i (suc n) start_loop = start_loop i ∷ start_loops (i + 1) n start_loop

unfoldable pub start : (ℕ → ℕ) → EventLoopThreadPool → Result EventLoopThreadPool
start start_loop p = do
  check (not p.started)
  ok (record p { started = true; loops = p.loops ++ start_loops 0 p.num_threads start_loop })

-- `loops_[i]` beyond the end is out of bounds; it counts as a fault.
abbrev pub in_bounds : Option ℕ → Result ℕ
in_bounds none = fault out_of_bounds
in_bounds (some l) = ok l

abbrev pub loop_at : ℕ → List ℕ → Result ℕ
loop_at i loops = in_bounds (get_elem? loops i)

abbrev pub is_empty : List ℕ → Bool
is_empty [] = true
is_empty (x ∷ xs) = false

-- What `getNextLoop` does where there are loops.
abbrev pub round_robin : EventLoopThreadPool → Result (ℕ × EventLoopThreadPool)
round_robin p = do
  l ← loop_at p.next p.loops
  let next = p.next + 1
  ok (l, record p { next = if leb (length p.loops) next then 0 else next })

unfoldable pub get_next_loop : EventLoopThreadPool → Result (ℕ × EventLoopThreadPool)
get_next_loop p = do
  check p.started
  (if is_empty p.loops then ok (p.base_loop, p) else round_robin p)

unfoldable pub get_loop_for_hash : ℕ → EventLoopThreadPool → Result ℕ
get_loop_for_hash hash_code p =
    if is_empty p.loops then ok p.base_loop else loop_at (hash_code % length p.loops) p.loops

unfoldable pub get_all_loops : EventLoopThreadPool → Result (List ℕ)
get_all_loops p = do check p.started; ok (if is_empty p.loops then p.base_loop ∷ [] else p.loops)
