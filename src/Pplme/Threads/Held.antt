-- ===== src/Pplme/Threads/Held.antt =====
-- Each worklette of a call is in the pool's queue or in a thread, and no thread is lost.
use ppl_me.Common.{
  Bool, ◌&&◌, ◌==◌, ℕ, ◌+◌, ◌≤◌, ◌≡◌, refl, true, false, List, [], ◌∷◌, All, arith, one_if, sum_of,
  sum_of-append, length,
}
use ppl_me.Pool.{
  NoddyWorkerPool, Worker, looking, waiting, woken, exited, working, worker_goes, wake_up,
  worker_at, notify, start_working, lock_block, work_left, pop_front, step, queued, went, awoke,
}
use ppl_me.Pool
use ppl_me.Pool.Sums.{
  sum_of-update_worker, length-update_worker, length-notify_all, sum_of-notify_all_same,
}
use ppl_me.Pool.Awake.{IsAwake, step-IsAwake}
use ppl_me.Pplme.Grid.{CellLocator, locator_eq}
use ppl_me.Pplme.Threads.Steps.{unfinished}
use ppl_me.Pplme.Threads.{Host, Worklette, is_resting, IsResting, queue_each}

-- Whether a worklette is that of a cell in a call, and how many of a list are.
abbrev pub is_of : ℕ → CellLocator → Worklette → Bool
is_of i c w = (i == w.call) && locator_eq c w.cell

abbrev pub waiting_for : ℕ → CellLocator → List Worklette → ℕ
waiting_for i c = sum_of (λ w. one_if (is_of i c w))

-- Whether a thread is in the worklette of a cell, and whether it has exited.
abbrev pub is_on : ℕ → CellLocator → Worker Worklette → ℕ
is_on i c looking = 0
is_on i c waiting = 0
is_on i c woken = 0
is_on i c exited = 0
is_on i c (working w) = one_if (is_of i c w)

abbrev pub has_exited : Worker Worklette → ℕ
has_exited looking = 0
has_exited waiting = 0
has_exited woken = 0
has_exited exited = 1
has_exited (working d) = 0

abbrev pub busy : ℕ → CellLocator → List (Worker Worklette) → ℕ
busy i c = sum_of (is_on i c)

-- The worklettes of a cell that the pool has.
abbrev pub held_by : ℕ → CellLocator → NoddyWorkerPool Worklette → ℕ
held_by i c p = waiting_for i c p.work + busy i c p.workers

-- A pool that lives, with all its threads.
pub record IsAlive (threads : ℕ) (p : NoddyWorkerPool Worklette) : Type 0 where
  pub alive : p.die ≡ false
  pub nobody_exited : sum_of has_exited p.workers ≡ 0
  pub all_there : length p.workers ≡ threads
  pub awake : IsAwake p

pub record IsHeld {A : Type 0} (threads : ℕ) (s : Host A) : Type 0 where
  pub of_pool : IsAlive threads s.pool
  pub held : (i : ℕ) (c : CellLocator) → unfinished c (s.contexts i) ≤ held_by i c s.pool

notify-is_on : (i : ℕ) (c : CellLocator) (t : Worker Worklette) → is_on i c (notify t) ≡ is_on i c t
unfolding notify
notify-is_on i c looking = refl
notify-is_on i c waiting = refl
notify-is_on i c woken = refl
notify-is_on i c exited = refl
notify-is_on i c (working d) = refl

notify-has_exited : (t : Worker Worklette) → has_exited (notify t) ≡ has_exited t
unfolding notify
notify-has_exited looking = refl
notify-has_exited waiting = refl
notify-has_exited woken = refl
notify-has_exited exited = refl
notify-has_exited (working d) = refl

-- A thread that looks for a worklette while the pool lives.
look-holds :
    (i : ℕ) (c : CellLocator) (ws : List Worklette) (t : Worker Worklette)
    → is_on i c t ≡ 0
    → waiting_for i c (pop_front ws) + is_on i c (lock_block false ws t) ≡ waiting_for i c ws
look-holds i c [] t h = omega (arith, h)
look-holds i c (w ∷ ws) t h = omega (arith, h)

goes-has_exited :
    (ws : List Worklette) (t : Worker Worklette)
    → has_exited (start_working false ws t) ≡ has_exited t
unfolding start_working
goes-has_exited [] looking = refl
goes-has_exited (w ∷ ws) looking = refl
goes-has_exited ws waiting = refl
goes-has_exited [] woken = refl
goes-has_exited (w ∷ ws) woken = refl
goes-has_exited ws exited = refl
goes-has_exited ws (working w) = refl

-- What the pool has of a cell after a thread's turn, but for the worklette that returns.
goes-holds :
    (i : ℕ) (c : CellLocator) (ws : List Worklette) (t : Worker Worklette)
    → (is_on i c t ≡ 0)
    → waiting_for i c (work_left false ws t) + is_on i c (start_working false ws t)
      ≡ waiting_for i c ws
unfolding start_working work_left
goes-holds i c ws looking h = look-holds i c ws waiting refl
goes-holds i c ws waiting h = omega arith
goes-holds i c ws woken h = look-holds i c ws looking refl
goes-holds i c ws exited h = omega arith
goes-holds i c ws (working w) h = omega arith

pub worker_goes-held :
    (i : ℕ) (c : CellLocator) (n : ℕ) (p : NoddyWorkerPool Worklette)
    → p.die ≡ false
    → is_on i c (worker_at n p.workers) ≡ 0
    → held_by i c (worker_goes n p) ≡ held_by i c p
unfolding worker_goes start_working
worker_goes-held i c n p alive h = rw alive (
    omega (
      arith,
      h,
      goes-holds i c p.work (worker_at n p.workers) h,
      sum_of-update_worker (is_on i c) (start_working false p.work) refl n p.workers,
    ))

pub worker_goes-IsAlive :
    (threads n : ℕ) (p : NoddyWorkerPool Worklette)
    → IsAlive threads p
    → IsAlive threads (worker_goes n p)
unfolding worker_goes step start_working
worker_goes-IsAlive threads n p v = record {
  alive = v.alive;
  nobody_exited = rw v.alive (
      omega (
        arith,
        v.nobody_exited,
        goes-has_exited p.work (worker_at n p.workers),
        sum_of-update_worker has_exited (start_working false p.work) refl n p.workers,
      ));
  all_there =
      omega (arith, v.all_there, length-update_worker (start_working p.die p.work) n p.workers);
  awake = step-IsAwake (went n) p v.awake;
}

pub wake_up-IsAlive :
    (threads n : ℕ) (p : NoddyWorkerPool Worklette)
    → IsAlive threads p
    → IsAlive threads (wake_up n p)
unfolding wake_up step notify
wake_up-IsAlive threads n p v = record {
  alive = v.alive;
  nobody_exited = omega (
    arith,
    v.nobody_exited,
    notify-has_exited (worker_at n p.workers),
    sum_of-update_worker has_exited notify refl n p.workers,
  );
  all_there = omega (arith, v.all_there, length-update_worker notify n p.workers);
  awake = step-IsAwake (awoke n) p v.awake;
}

pub wake_up-held :
    (i : ℕ) (c : CellLocator) (n : ℕ) (p : NoddyWorkerPool Worklette)
    → held_by i c (wake_up n p) ≡ held_by i c p
unfolding wake_up notify
wake_up-held i c n p = omega (
  arith,
  notify-is_on i c (worker_at n p.workers),
  sum_of-update_worker (is_on i c) notify refl n p.workers,
)

pub queue_each-IsAlive :
    (threads : ℕ) (ws : List Worklette) (p : NoddyWorkerPool Worklette)
    → IsAlive threads p
    → IsAlive threads (queue_each ws p)
unfolding queue_each Pool.queue_worklette step
queue_each-IsAlive threads [] p v = v
queue_each-IsAlive threads (w ∷ ws) p v = queue_each-IsAlive threads ws _ (record {
  alive = v.alive;
  nobody_exited =
      omega (arith, v.nobody_exited, sum_of-notify_all_same has_exited p.workers notify-has_exited);
  all_there = omega (arith, v.all_there, length-notify_all p.workers);
  awake = step-IsAwake (queued w) p v.awake;
})

pub queue_each-held :
    (i : ℕ) (c : CellLocator) (ws : List Worklette) (p : NoddyWorkerPool Worklette)
    → held_by i c (queue_each ws p) ≡ held_by i c p + waiting_for i c ws
unfolding queue_each Pool.queue_worklette
queue_each-held i c [] p = omega arith
queue_each-held i c (w ∷ ws) p = omega (
  arith,
  queue_each-held i c ws (Pool.queue_worklette w p),
  sum_of-append (λ v. one_if (is_of i c v)) p.work (w ∷ []),
  sum_of-notify_all_same (is_on i c) p.workers (notify-is_on i c),
)

resting_present : (t : Worker Worklette) → is_resting t ≡ true → has_exited t ≡ 0
resting_present looking h = refl
resting_present waiting h = refl
resting_present woken h = refl
resting_present exited h = cc
resting_present (working w) h = cc

everyone_present :
    (ts : List (Worker Worklette)) → All (λ t. is_resting t ≡ true) ts → sum_of has_exited ts ≡ 0
everyone_present [] a = refl
everyone_present (t ∷ ts) a = omega (arith, resting_present t a.0, everyone_present ts a.1)

-- A pool at rest has all its threads.
pub IsResting-IsAlive : (p : NoddyWorkerPool Worklette) → IsResting p → IsAlive (length p.workers) p
IsResting-IsAlive p r = record {
  alive = r.alive;
  nobody_exited = everyone_present p.workers r.resting;
  all_there = refl;
  awake = λ n q. rw (r.alive, r.no_work) refl;
}
