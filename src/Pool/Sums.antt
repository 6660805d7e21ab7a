-- ===== src/Pool/Sums.antt =====
-- Sums over the threads of a pool, and how its steps change them.
use ppl_me.Common.{
  ℕ, zero, suc, ◌+◌, ◌*◌, ◌≤◌, ◌<◌, ◌≡◌, refl, Bool, true, false, List, [], ◌∷◌, arith, length,
  length-append, sum_of, if◌then◌else◌,
}
use ppl_me.Pool.{
  NoddyWorkerPool, Worker, looking, waiting, woken, exited, working, queue_worklette, worker_goes,
  worker_at, update_worker, notify, notify_all, start_working, lock_block, work_left, pop_front,
}

module _ {ℓ} {W : Type ℓ} where
  pub sum_of-update_worker :
      (v : Worker W → ℕ) (f : Worker W → Worker W)
      → f exited ≡ exited
      → (n : ℕ) (ts : List (Worker W))
      → sum_of v (update_worker f n ts) + v (worker_at n ts) ≡ sum_of v ts + v (f (worker_at n ts))
  sum_of-update_worker v f h n [] = rw h refl
  sum_of-update_worker v f h zero (t ∷ ts) = omega arith
  sum_of-update_worker v f h (suc n) (t ∷ ts) = omega (arith, sum_of-update_worker v f h n ts)

  pub length-update_worker :
      (f : Worker W → Worker W) (n : ℕ) (ts : List (Worker W))
      → length (update_worker f n ts) ≡ length ts
  length-update_worker f n [] = refl
  length-update_worker f zero (t ∷ ts) = refl
  length-update_worker f (suc n) (t ∷ ts) = omega (arith, length-update_worker f n ts)

  pub length-notify_all : (ts : List (Worker W)) → length (notify_all ts) ≡ length ts
  unfolding notify_all
  length-notify_all [] = refl
  length-notify_all (t ∷ ts) = omega (arith, length-notify_all ts)

  pub sum_of-notify_all :
      (v : Worker W → ℕ) (k : ℕ) (ts : List (Worker W))
      → ((t : Worker W) → v (notify t) ≤ v t + k)
      → sum_of v (notify_all ts) ≤ sum_of v ts + k * length ts
  unfolding notify_all
  sum_of-notify_all v k [] h = omega arith
  sum_of-notify_all v k (t ∷ ts) h = omega (arith, h t, sum_of-notify_all v k ts h)

  pub sum_of-notify_all_same :
      (v : Worker W → ℕ) (ts : List (Worker W))
      → ((t : Worker W) → v (notify t) ≡ v t)
      → sum_of v (notify_all ts) ≡ sum_of v ts
  unfolding notify_all
  sum_of-notify_all_same v [] h = refl
  sum_of-notify_all_same v (t ∷ ts) h = omega (arith, h t, sum_of-notify_all_same v ts h)

  -- How far a thread is from its wait.
  abbrev pub thread_rank : Worker W → ℕ
  thread_rank waiting = 0
  thread_rank exited = 0
  thread_rank looking = 1
  thread_rank woken = 2
  thread_rank (working w) = 3

  abbrev pub threads_left : NoddyWorkerPool W → ℕ
  threads_left p = 4 * length p.work + sum_of thread_rank p.workers

  notify-rank : (t : Worker W) → thread_rank (notify t) ≤ thread_rank t + 2
  unfolding notify
  notify-rank looking = omega arith
  notify-rank waiting = omega arith
  notify-rank woken = omega arith
  notify-rank exited = omega arith
  notify-rank (working w) = omega arith

  pub queue_worklette-left :
      (w : W) (p : NoddyWorkerPool W)
      → threads_left (queue_worklette w p) ≤ threads_left p + 4 + 2 * length p.workers
  unfolding queue_worklette
  queue_worklette-left w p =
      omega (
        arith,
        length-append p.work (w ∷ []),
        sum_of-notify_all thread_rank 2 p.workers notify-rank,
      )

  look-rank :
      (b : Bool) (ws : List W) (t : Worker W)
      → 4 * length (if b then ws else pop_front ws) + thread_rank (lock_block b ws t)
        ≤ 4 * length ws + thread_rank t
  look-rank true [] t = omega arith
  look-rank true (w ∷ ws) t = omega arith
  look-rank false [] t = omega arith
  look-rank false (w ∷ ws) t = omega arith

  -- A thread that can go comes closer to its wait.
  pub goes-rank :
      (b : Bool) (ws : List W) (t : Worker W)
      → 1 ≤ thread_rank t
      → 4 * length (work_left b ws t) + thread_rank (start_working b ws t)
        < 4 * length ws + thread_rank t
  unfolding work_left start_working
  goes-rank b ws looking h = omega (arith, look-rank b ws waiting)
  goes-rank b ws waiting h = absurd (omega arith)
  goes-rank b ws woken h = omega (arith, look-rank b ws looking)
  goes-rank b ws exited h = absurd (omega arith)
  goes-rank b ws (working w) h = omega arith

  pub worker_goes-left :
      (n : ℕ) (p : NoddyWorkerPool W)
      → 1 ≤ thread_rank (worker_at n p.workers)
      → threads_left (worker_goes n p) < threads_left p
  unfolding worker_goes start_working
  worker_goes-left n p h = omega (
    arith,
    goes-rank p.die p.work (worker_at n p.workers) h,
    sum_of-update_worker thread_rank (start_working p.die p.work) refl n p.workers,
  )
