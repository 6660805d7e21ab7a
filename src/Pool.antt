-- ===== src/Pool.antt =====
-- NoddyWorkerPool, which pplme_matching_ppl_provider.cc and prototype_matching_ppl_provider.cc
-- hold alike: threads that take worklettes from a queue until the pool dies. A lock block is one
-- step, as work_mutex_ is held throughout; waiting on work_or_die_ releases it.
pub mod Refinement
pub mod Awake
pub mod Shutdown
pub mod Sums
use ppl_me.Common.{ℕ, zero, suc, Bool, true, false, List, [], ◌∷◌, ◌++◌, map, if◌then◌else◌}

-- Where a thread of StartWorking is: before its lock block, in the wait on work_or_die_, after
-- the wait and before it has the lock again, in a worklette, or out of the loop.
pub data Worker {ℓ} (W : Type ℓ) : Type ℓ where
  looking waiting woken exited : Worker W
  working : W → Worker W

pub record NoddyWorkerPool {ℓ} (W : Type ℓ) : Type ℓ where
  pub workers : List (Worker W)
  pub work : List W
  pub die : Bool

module _ {ℓ} {W : Type ℓ} where
  -- NoddyWorkerPool::NoddyWorkerPool, for the number of threads that the hardware runs at once
  unfoldable pub start_workers : ℕ → List (Worker W)
  start_workers zero = []
  start_workers (suc n) = looking ∷ start_workers n

  unfoldable pub create_pool : ℕ → NoddyWorkerPool W
  unfolding start_workers
  create_pool hardware_concurrency = record {
    workers = start_workers hardware_concurrency;
    work = [];
    die = false;
  }

  unfoldable pub notify : Worker W → Worker W
  notify looking = looking
  notify waiting = woken
  notify woken = woken
  notify exited = exited
  notify (working w) = working w

  unfoldable pub notify_all : List (Worker W) → List (Worker W)
  unfolding notify
  notify_all [] = []
  notify_all (t ∷ ts) = notify t ∷ notify_all ts

  unfoldable pub queue_worklette : W → NoddyWorkerPool W → NoddyWorkerPool W
  unfolding notify_all
  queue_worklette w s = record s { workers = notify_all s.workers; work = s.work ++ (w ∷ []) }

  -- The lock block of the destructor. The joins that follow it end when each thread has exited.
  unfoldable pub let_die : NoddyWorkerPool W → NoddyWorkerPool W
  unfolding notify_all
  let_die s = record s { workers = notify_all s.workers; die = true }

  -- The lock block of StartWorking up to the wait, and the part after it; then the worklette.
  abbrev pub lock_block : Bool → List W → Worker W → Worker W
  lock_block die [] empty_handed = if die then exited else empty_handed
  lock_block die (w ∷ ws) empty_handed = if die then exited else working w

  unfoldable pub start_working : Bool → List W → Worker W → Worker W
  start_working die work looking = lock_block die work waiting
  start_working die work waiting = waiting
  start_working die work woken = lock_block die work looking
  start_working die work exited = exited
  start_working die work (working w) = looking

  abbrev pub pop_front : List W → List W
  pop_front [] = []
  pop_front (w ∷ ws) = ws

  -- work_ after that step
  unfoldable pub work_left : Bool → List W → Worker W → List W
  work_left die work looking = if die then work else pop_front work
  work_left die work waiting = work
  work_left die work woken = if die then work else pop_front work
  work_left die work exited = work
  work_left die work (working w) = work

  abbrev pub worker_at : ℕ → List (Worker W) → Worker W
  worker_at n [] = exited
  worker_at zero (t ∷ ts) = t
  worker_at (suc n) (t ∷ ts) = worker_at n ts

  abbrev pub update_worker : (Worker W → Worker W) → ℕ → List (Worker W) → List (Worker W)
  update_worker f n [] = []
  update_worker f zero (t ∷ ts) = f t ∷ ts
  update_worker f (suc n) (t ∷ ts) = t ∷ update_worker f n ts

  unfoldable pub worker_goes : ℕ → NoddyWorkerPool W → NoddyWorkerPool W
  unfolding start_working work_left
  worker_goes n s = record s {
    workers = update_worker (start_working s.die s.work) n s.workers;
    work = work_left s.die s.work (worker_at n s.workers);
  }

  -- A wait may end without a notification.
  unfoldable pub wake_up : ℕ → NoddyWorkerPool W → NoddyWorkerPool W
  unfolding notify
  wake_up n s = record s { workers = update_worker notify n s.workers }

-- What may happen next, in any order.
pub data Event {ℓ} (W : Type ℓ) : Type ℓ where
  queued : W → Event W
  went awoke : ℕ → Event W
  destroyed : Event W

module _ {ℓ} {W : Type ℓ} where
  unfoldable pub step : Event W → NoddyWorkerPool W → NoddyWorkerPool W
  step (queued w) s = queue_worklette w s
  step (went n) s = worker_goes n s
  step (awoke n) s = wake_up n s
  step destroyed s = let_die s

  unfoldable pub run : List (Event W) → NoddyWorkerPool W → NoddyWorkerPool W
  unfolding step
  run [] s = s
  run (e ∷ es) s = run es (step e s)
