-- ===== src/Tests/Pools.antt =====
-- Examples about the worker pool.
use ppl_me.Common.{ℕ, ◌≡◌, true, false, List, [], ◌∷◌, arith}
use ppl_me.Pool.{
  Event, queued, went, awoke, destroyed, step, run, create_pool, worker_at, exited, queue_worklette,
  worker_goes, wake_up, let_die, start_working, work_left, notify, notify_all, start_workers,
}
use ppl_me.Pool.Refinement.{
  Promises, queue, queued_in, begun_in, label, label_of_turn, label_of_place, run-Promises,
}
use ppl_me.Pool.Shutdown.{turns_of, run-exited}
use ppl_me.Pool.Awake.{IsAwake, run-IsAwake}

-- Two threads: one waits before there is work; the pool dies while a worklette is left.
abbrev a_day : List (Event ℕ)
a_day =
    went 0 ∷ queued 7 ∷ queued 8 ∷ queued 9 ∷ went 1 ∷ went 0 ∷ went 1 ∷ awoke 1 ∷ destroyed ∷ []

abbrev last_turns : List (Event ℕ)
last_turns = went 1 ∷ went 0 ∷ went 0 ∷ []

run-Promises_example :
    Promises {W = ℕ} (queue [] false) (7 ∷ 8 ∷ 9 ∷ []) (7 ∷ 8 ∷ []) (queue (9 ∷ []) true)
unfolding create_pool start_workers run step queued_in begun_in label label_of_turn label_of_place
    queue_worklette worker_goes wake_up let_die start_working work_left notify notify_all
run-Promises_example = run-Promises a_day (create_pool 2)

run-exited_example :
    worker_at 0 (run last_turns (step destroyed (run a_day (create_pool 2)))).workers ≡ exited
unfolding turns_of
run-exited_example = run-exited 0 last_turns (run a_day (create_pool 2)) (omega arith)

run-IsAwake_example : IsAwake (run a_day (create_pool 2))
run-IsAwake_example = run-IsAwake 2 a_day
