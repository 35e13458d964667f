-- ===== src/EventLoopThreadPool/Tests.antt =====
-- A pool at concrete inputs.
use my_cisdi_code.Prelude.{[], arith, ok, refl, true, ◌*◌, ◌+◌, ◌∷◌, ◌≡◌}
use my_cisdi_code.EventLoopThreadPool.{EventLoopThreadPool, get_loop_for_hash, new_pool, start}
use my_cisdi_code.EventLoopThreadPool.RoundRobin.{
  get_loop_for_hash_lem, get_next_loops, get_next_loops-turns,
}

abbrev three : EventLoopThreadPool
three = record (new_pool 9 3) { started = true; loops = 10 ∷ 20 ∷ 30 ∷ [] }

three-start : start (λ i. (i + 1) * 10) (new_pool 9 3) ≡ ok three
unfolding start
three-start = refl

get_next_loops-turns_example :
    get_next_loops 4 three ≡ ok (10 ∷ 20 ∷ 30 ∷ 10 ∷ [], record three { next = 1 })
get_next_loops-turns_example = get_next_loops-turns 4 0 three refl (omega arith)

get_loop_for_hash_lem_example : get_loop_for_hash 5 three ≡ ok 30
get_loop_for_hash_lem_example = get_loop_for_hash_lem 5 three
