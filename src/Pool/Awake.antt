-- ===== src/Pool/Awake.antt =====
-- No thread of the pool sleeps while there is work.
use ppl_me.Common.{
  ℕ, zero, suc, ◌≡◌, refl, sym, ap, subst, ◌∙◌, Bool, true, false, List, [], ◌∷◌, arith, ◌==◌,
  if◌then◌else◌,
}
use ppl_me.Pool.{
  NoddyWorkerPool, Worker, looking, waiting, woken, exited, working, Event, queued, went, awoke,
  destroyed, step, run, queue_worklette, worker_goes, wake_up, let_die, worker_at, notify,
  start_working, work_left, create_pool, start_workers, lock_block, pop_front,
}
use ppl_me.Pool.Shutdown.{at_update, at_notify_all}

abbrev pub waits {ℓ} : {W : Type ℓ} → Worker W → Bool
waits looking = false
waits waiting = true
waits woken = false
waits exited = false
waits (working w) = false

start_workers_looking {ℓ} :
    (W : Type ℓ) (k n : ℕ) → waits (worker_at {W = W} n (start_workers k)) ≡ false
unfolding start_workers
start_workers_looking W zero n = refl
start_workers_looking W (suc k) zero = refl
start_workers_looking W (suc k) (suc n) = start_workers_looking W k n

module _ {ℓ} {W : Type ℓ} where
  abbrev pub is_idle : Bool → List W → Bool
  is_idle true ws = false
  is_idle false [] = true
  is_idle false (w ∷ ws) = false

  -- A thread waits only while there is no worklette and the pool lives.
  abbrev pub IsAwake : NoddyWorkerPool W → Type 0
  IsAwake s = (n : ℕ) → waits (worker_at n s.workers) ≡ true → is_idle s.die s.work ≡ true

  notified_awake : (t : Worker W) → waits (notify t) ≡ false
  unfolding notify
  notified_awake looking = refl
  notified_awake waiting = refl
  notified_awake woken = refl
  notified_awake exited = refl
  notified_awake (working w) = refl

  look_idle :
      (b : Bool) (ws : List W) (t : Worker W)
      → waits (lock_block b ws t) ≡ true
      → is_idle b (if b then ws else pop_front ws) ≡ true
  look_idle true [] t h = h
  look_idle true (w ∷ ws) t h = h
  look_idle false [] t h = refl
  look_idle false (w ∷ ws) t h = absurd (ground arith)

  own_turn :
      (b : Bool) (ws : List W) (t : Worker W)
      → (waits t ≡ true → is_idle b ws ≡ true)
      → waits (start_working b ws t) ≡ true
      → is_idle b (work_left b ws t) ≡ true
  unfolding start_working work_left
  own_turn b ws looking h q = look_idle b ws waiting q
  own_turn b ws waiting h q = h q
  own_turn b ws woken h q = look_idle b ws looking q
  own_turn b ws exited h q = absurd (ground arith)
  own_turn b ws (working w) h q = absurd (ground arith)

  idle_if :
      (b : Bool) (ws : List W)
      → is_idle b ws ≡ true
      → is_idle b (if b then ws else pop_front ws) ≡ true
  idle_if true ws h = h
  idle_if false [] h = h
  idle_if false (w ∷ ws) h = absurd (ground arith)

  other_turn :
      (b : Bool) (ws : List W) (t : Worker W)
      → is_idle b ws ≡ true
      → is_idle b (work_left b ws t) ≡ true
  unfolding work_left
  other_turn b ws looking h = idle_if b ws h
  other_turn b ws waiting h = h
  other_turn b ws woken h = idle_if b ws h
  other_turn b ws exited h = h
  other_turn b ws (working w) h = h

  either :
      (c b : Bool) (ws : List W) (t u : Worker W)
      → (c ≡ true → t ≡ u)
      → (waits t ≡ true → is_idle b ws ≡ true)
      → waits (if c then start_working b ws t else t) ≡ true
      → is_idle b (work_left b ws u) ≡ true
  either true b ws t u same h q =
      subst (λ x. is_idle b (work_left b ws x) ≡ true) (same refl) (own_turn b ws t h q)
  either false b ws t u same h q = other_turn b ws u (h q)

  either_woken :
      (c : Bool) (t : Worker W) → waits (if c then notify t else t) ≡ true → waits t ≡ true
  either_woken true t q = absurd (ground (arith, notified_awake t))
  either_woken false t q = q

  -- Each step keeps it.
  pub step-IsAwake : (e : Event W) (s : NoddyWorkerPool W) → IsAwake s → IsAwake (step e s)
  unfolding step queue_worklette worker_goes wake_up let_die notify start_working
  step-IsAwake (queued w) s h n q =
      absurd (ground (arith, at_notify_all n s.workers, notified_awake (worker_at n s.workers)))
  step-IsAwake (went m) s h n q =
      either (n == m) s.die s.work (worker_at n s.workers) (worker_at m s.workers)
        (λ e. ap (λ k. worker_at k s.workers) (ground arith)) (h n)
        (sym (ap waits (at_update (start_working s.die s.work) refl n m s.workers)) ∙ q)
  step-IsAwake (awoke m) s h n q = h n (
      either_woken (n == m) (worker_at n s.workers)
        (sym (ap waits (at_update notify refl n m s.workers)) ∙ q))
  step-IsAwake destroyed s h n q =
      absurd (ground (arith, at_notify_all n s.workers, notified_awake (worker_at n s.workers)))

  run_keeps : (es : List (Event W)) (s : NoddyWorkerPool W) → IsAwake s → IsAwake (run es s)
  unfolding run
  run_keeps [] s h = h
  run_keeps (e ∷ es) s h = run_keeps es (step e s) (step-IsAwake e s h)

  -- In every state that a run of a new NoddyWorkerPool leads to, with any number of threads, no
  -- thread waits while there is a worklette in the queue or the pool has been told to die: no
  -- notification is lost.
  pub run-IsAwake : (threads : ℕ) (es : List (Event W)) → IsAwake (run es (create_pool threads))
  unfolding create_pool
  run-IsAwake threads es =
      run_keeps es (create_pool threads)
        (λ n q. absurd (ground (arith, start_workers_looking W threads n)))
