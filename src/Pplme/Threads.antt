-- ===== src/Pplme/Threads.antt =====
-- FindMatchingPpl on the threads of NoddyWorkerPool: TryFindPpl hands its worklettes to the pool,
-- and the pool's threads run TryFindPplAsync. A turn is one step of a caller, of a thread, or a
-- wait that ends by itself. Any number of calls of FindMatchingPpl share the pool. A cell has at most
-- one worklette in a call, so a thread's worklette says which of the two lock blocks of
-- TryFindPplAsync it has before it.
pub mod Held
pub mod Steps
pub mod Kept
pub mod Follows
pub mod Progress
pub mod Work
pub mod Schedule
pub mod Scheduler
use ppl_me.Common.{
  ℕ, zero, suc, refl, Bool, true, false, Option, List, [], ◌∷◌, All, ltb, length, drop, map, ◌==◌,
  if◌then◌else◌, ◌≡◌,
}
use ppl_me.Pool.{
  NoddyWorkerPool, Worker, looking, waiting, woken, exited, working, worker_goes, wake_up,
  worker_at, create_pool, start_workers,
}
use ppl_me.Pool
use ppl_me.Pplme.Grid.{CellLocator}
use ppl_me.Pplme.Find.{
  System, Outcome, blocked, crashed, moved, contains, main_runs, wake_main, start_search,
  finish_search, returned,
}

-- A worklette: the call of FindMatchingPpl that queued it, by number, and its cell.
pub record Worklette : Type 0 where
  pub call : ℕ
  pub cell : CellLocator

-- The pool of a provider with the contexts of the calls of FindMatchingPpl on it.
pub record Host (A : Type 0) : Type 0 where
  pub pool : NoddyWorkerPool Worklette
  pub contexts : ℕ → System A

abbrev pub worklette_of : ℕ → CellLocator → Worklette
worklette_of i c = record { call = i; cell = c }

abbrev pub set_context : {A : Type 0} → ℕ → System A → (ℕ → System A) → ℕ → System A
set_context i t contexts j = if j == i then t else contexts j

-- The context of a call that is over, or never made.
abbrev pub no_find : {A : Type 0} → System A
no_find = record {
  todo = [];
  ppl = [];
  pending_cells = [];
  queued = [];
  searching = [];
  we_done_here = false;
  asleep = false;
  main = returned [];
}

-- The contexts of so many calls that begin.
abbrev pub calls : {A : Type 0} → ℕ → (ℕ → System A) → ℕ → System A
calls n begun i = if ltb i n then begun i else no_find

-- Whose turn it is.
pub data Turn : Type 0 where
  caller roused worker awoken : ℕ → Turn

-- A turn that a thread takes by itself, not a wait that ends without a notification.
abbrev pub is_own : Turn → Bool
is_own (caller i) = true
is_own (roused i) = false
is_own (worker n) = true
is_own (awoken n) = false

-- A turn is not possible now; it aborts the process; it leads to a new state.
pub data TurnOutcome (A : Type 0) : Type 0 where
  idle failed : TurnOutcome A
  turned : Host A → TurnOutcome A

-- A thread that is between two worklettes.
abbrev pub is_resting {ℓ} : {W : Type ℓ} → Worker W → Bool
is_resting looking = true
is_resting waiting = true
is_resting woken = true
is_resting exited = false
is_resting (working w) = false

-- A pool before a find: no worklette is left, and no thread has exited.
pub record IsResting {ℓ} {W : Type ℓ} (p : NoddyWorkerPool W) : Type ℓ where
  pub no_work : p.work ≡ []
  pub alive : p.die ≡ false
  pub resting : All (λ t. is_resting t ≡ true) p.workers

start_workers-resting {ℓ} :
    (W : Type ℓ) (n : ℕ) → All (λ t. is_resting t ≡ true) (start_workers {W = W} n)
unfolding start_workers
start_workers-resting W zero = tt
start_workers-resting W (suc n) = (refl, start_workers-resting W n)

-- A new pool is at rest.
pub create_pool-IsResting {ℓ} : (W : Type ℓ) (n : ℕ) → IsResting (create_pool {W = W} n)
unfolding create_pool
create_pool-IsResting W n = record {
  no_work = refl;
  alive = refl;
  resting = start_workers-resting W n;
}

unfoldable pub queue_each {ℓ} : {W : Type ℓ} → List W → NoddyWorkerPool W → NoddyWorkerPool W
queue_each [] p = p
queue_each (w ∷ ws) p = queue_each ws (Pool.queue_worklette w p)

module _ {A : Type 0} (max_ppl concurrency : ℕ) (find : ℕ → CellLocator → Option (List A)) where
  -- A caller's step, with the calls of QueueWorklette in it.
  unfoldable pub hand_over : ℕ → Host A → Outcome A → TurnOutcome A
  unfolding queue_each
  hand_over i s blocked = idle
  hand_over i s crashed = failed
  hand_over i s (moved t) = turned (record {
    pool = queue_each (map (worklette_of i) (drop (length (s.contexts i).queued) t.queued)) s.pool;
    contexts = set_context i t s.contexts;
  })

  -- A step of a worklette, which leaves the pool alone.
  unfoldable pub in_context : ℕ → Host A → Outcome A → TurnOutcome A
  in_context i s blocked = idle
  in_context i s crashed = failed
  in_context i s (moved t) = turned (record s { contexts = set_context i t s.contexts })

  -- TryFindPplAsync in the thread n: its first lock block, its second one, or its return.
  unfoldable pub try_find_ppl_async : ℕ → CellLocator → ℕ → Host A → TurnOutcome A
  unfolding in_context
  try_find_ppl_async i c n s =
      if contains c (s.contexts i).queued
      then in_context i s (start_search max_ppl concurrency (find i) c (s.contexts i))
      else if contains c (s.contexts i).searching
      then in_context i s (finish_search max_ppl concurrency (find i) c (s.contexts i))
      else turned (record s { pool = worker_goes n s.pool })

  unfoldable pub thread_goes : Worker Worklette → ℕ → Host A → TurnOutcome A
  unfolding try_find_ppl_async
  thread_goes looking n s = turned (record s { pool = worker_goes n s.pool })
  thread_goes waiting n s = idle
  thread_goes woken n s = turned (record s { pool = worker_goes n s.pool })
  thread_goes exited n s = idle
  thread_goes (working w) n s = try_find_ppl_async w.call w.cell n s

  unfoldable pub turn : Turn → Host A → TurnOutcome A
  unfolding hand_over thread_goes
  turn (caller i) s = hand_over i s (main_runs max_ppl concurrency (find i) (s.contexts i))
  turn (roused i) s = in_context i s (wake_main max_ppl concurrency (find i) (s.contexts i))
  turn (worker n) s = thread_goes (worker_at n s.pool.workers) n s
  turn (awoken n) s = turned (record s { pool = wake_up n s.pool })

  -- The states that a sequence of turns can lead to.
  pub data Hosted (from : Host A) : Host A → Type 0 where
    hosts : Hosted from from
    turns : {s t : Host A} (e : Turn) → Hosted from s → turn e s ≡ turned t → Hosted from t
