-- ===== src/Pool/Shutdown.antt =====
-- The destructor of the pool: its joins end.
use ppl_me.Common.{
  ℕ, zero, suc, ◌+◌, ◌-◌, ◌≤◌, ◌≡◌, refl, Bool, true, false, List, [], ◌∷◌, arith, ◌==◌,
  if◌then◌else◌,
}
use ppl_me.Pool.{
  NoddyWorkerPool, Worker, looking, waiting, woken, exited, working, Event, queued, went, awoke,
  destroyed, step, run, queue_worklette, worker_goes, wake_up, let_die, worker_at, update_worker,
  notify, notify_all, start_working, lock_block,
}

module _ {ℓ} {W : Type ℓ} where
  pub at_update :
      (f : Worker W → Worker W)
      → f exited ≡ exited
      → (n m : ℕ) (ts : List (Worker W))
      → worker_at n (update_worker f m ts) ≡ (if n == m then f (worker_at n ts) else worker_at n ts)
  at_update f h n m [] = ground arith
  at_update f h zero zero (t ∷ ts) = refl
  at_update f h zero (suc m) (t ∷ ts) = ground arith
  at_update f h (suc n) zero (t ∷ ts) = ground arith
  at_update f h (suc n) (suc m) (t ∷ ts) = ground (arith, at_update f h n m ts)

  pub at_notify_all :
      (n : ℕ) (ts : List (Worker W)) → worker_at n (notify_all ts) ≡ notify (worker_at n ts)
  unfolding notify_all notify
  at_notify_all n [] = refl
  at_notify_all zero (t ∷ ts) = refl
  at_notify_all (suc n) (t ∷ ts) = at_notify_all n ts

  -- The turns after which a thread of a dead pool has exited; a waiting one has to be woken first.
  abbrev pub turns_left : Worker W → ℕ
  turns_left looking = 1
  turns_left waiting = 3
  turns_left woken = 1
  turns_left exited = 0
  turns_left (working w) = 2

  -- How often a thread has its turn.
  unfoldable pub turns_of : ℕ → List (Event W) → ℕ
  turns_of n [] = 0
  turns_of n (queued w ∷ es) = turns_of n es
  turns_of n (went m ∷ es) = if n == m then suc (turns_of n es) else turns_of n es
  turns_of n (awoke m ∷ es) = turns_of n es
  turns_of n (destroyed ∷ es) = turns_of n es

  notify_turns : (t : Worker W) → turns_left (notify t) ≤ turns_left t
  unfolding notify
  notify_turns looking = omega arith
  notify_turns waiting = omega arith
  notify_turns woken = omega arith
  notify_turns exited = omega arith
  notify_turns (working w) = omega arith

  notified_turns : (t : Worker W) → turns_left (notify t) ≤ 2
  unfolding notify
  notified_turns looking = omega arith
  notified_turns waiting = omega arith
  notified_turns woken = omega arith
  notified_turns exited = omega arith
  notified_turns (working w) = omega arith

  looked_turns : (ws : List W) (t : Worker W) → turns_left (lock_block true ws t) ≡ 0
  looked_turns [] t = refl
  looked_turns (w ∷ ws) t = refl

  start_working_turns :
      (ws : List W) (t : Worker W)
      → turns_left t ≤ 2
      → turns_left (start_working true ws t) ≤ turns_left t - 1
  unfolding start_working
  start_working_turns ws looking h = omega (arith, looked_turns ws waiting)
  start_working_turns ws waiting h = omega arith
  start_working_turns ws woken h = omega (arith, looked_turns ws looking)
  start_working_turns ws exited h = omega arith
  start_working_turns ws (working w) h = omega arith

  -- The turns that the thread n needs.
  abbrev needs : ℕ → NoddyWorkerPool W → ℕ
  needs n s = turns_left (worker_at n s.workers)

  abbrev turn_in : ℕ → Event W → ℕ
  turn_in n e = turns_of n (e ∷ [])

  step-dead : (e : Event W) (s : NoddyWorkerPool W) → s.die ≡ true → (step e s).die ≡ true
  unfolding step queue_worklette worker_goes wake_up let_die
  step-dead (queued w) s d = d
  step-dead (went m) s d = d
  step-dead (awoke m) s d = d
  step-dead destroyed s d = refl

  either_turns :
      (b : Bool) (t u : Worker W)
      → turns_left u ≤ turns_left t - 1
      → turns_left (if b then u else t) ≤ turns_left t - (if b then 1 else 0)
  either_turns true t u h = h
  either_turns false t u h = omega arith

  either_notified :
      (b : Bool) (t : Worker W) → turns_left (if b then notify t else t) ≤ turns_left t - 0
  either_notified true t = omega (arith, notify_turns t)
  either_notified false t = omega arith

  step-needs :
      (n : ℕ) (e : Event W) (s : NoddyWorkerPool W)
      → s.die ≡ true
      → needs n s ≤ 2
      → needs n (step e s) ≤ needs n s - turn_in n e
  unfolding step queue_worklette worker_goes wake_up let_die turns_of notify start_working
  step-needs n (queued w) s d h =
      rw (at_notify_all n s.workers) (omega (arith, notify_turns (worker_at n s.workers)))
  step-needs n (went m) s d h =
      rw (d, at_update (start_working true s.work) refl n m s.workers)
        (either_turns (n == m) (worker_at n s.workers) _ (start_working_turns s.work _ h))
  step-needs n (awoke m) s d h =
      rw (at_update notify refl n m s.workers) (either_notified (n == m) (worker_at n s.workers))
  step-needs n destroyed s d h =
      rw (at_notify_all n s.workers) (omega (arith, notify_turns (worker_at n s.workers)))

  turns_cons :
      (n : ℕ) (e : Event W) (es : List (Event W))
      → turns_of n (e ∷ es) ≡ turn_in n e + turns_of n es
  unfolding turns_of
  turns_cons n (queued w) es = omega arith
  turns_cons n (went m) es = ground arith
  turns_cons n (awoke m) es = omega arith
  turns_cons n destroyed es = omega arith

  run-needs :
      (n : ℕ) (es : List (Event W)) (s : NoddyWorkerPool W)
      → s.die ≡ true
      → needs n s ≤ 2
      → needs n (run es s) ≤ needs n s - turns_of n es
  unfolding run turns_of
  run-needs n [] s d h = omega arith
  run-needs n (e ∷ es) s d h =
      let here = step-needs n e s d h in
      let rest = run-needs n es (step e s) (step-dead e s d) (omega (arith, here)) in
      omega (arith, here, rest, turns_cons n e es)

  no_turns_left : (t : Worker W) → turns_left t ≤ 0 → t ≡ exited
  no_turns_left looking h = ground arith
  no_turns_left waiting h = ground arith
  no_turns_left woken h = ground arith
  no_turns_left exited h = refl
  no_turns_left (working w) h = ground arith

  -- Once the destructor's lock block has run, from every state and whatever else happens, each
  -- thread of the pool that has had two turns has exited, where a turn of a thread in a
  -- worklette is that worklette's return: the joins end.
  pub run-exited :
      (n : ℕ) (es : List (Event W)) (s : NoddyWorkerPool W)
      → 2 ≤ turns_of n es
      → worker_at n (run es (step destroyed s)).workers ≡ exited
  unfolding step let_die
  run-exited n es s h =
      let few : needs n (let_die s) ≤ 2 =
        rw (at_notify_all n s.workers) (notified_turns (worker_at n s.workers)) in
      no_turns_left _ (omega (arith, run-needs n es (let_die s) refl few, few))
