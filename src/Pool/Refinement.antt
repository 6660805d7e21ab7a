-- ===== src/Pool/Refinement.antt =====
-- What NoddyWorkerPool promises: a queue, from which nothing is taken once the pool dies.
use ppl_me.Common.{
  ℕ, zero, suc, refl, subst, ◌≡◌, ap, sym, Bool, true, false, List, [], ◌∷◌, ◌++◌, ◌∙◌,
  append_assoc, append-nil, if◌then◌else◌,
}
use ppl_me.Pool.{
  NoddyWorkerPool, Worker, looking, waiting, woken, exited, working, Event, queued, went, awoke,
  destroyed, step, run, queue_worklette, worker_goes, wake_up, let_die, worker_at, update_worker,
  start_working, lock_block, pop_front, work_left,
}

-- The abstract view: the worklettes that are to be done, and whether the pool is closed.
pub record Queue {ℓ} (W : Type ℓ) : Type ℓ where
  pub pending : List W
  pub closed : Bool

abbrev pub queue {ℓ} : {W : Type ℓ} → List W → Bool → Queue W
queue ws b = record { pending = ws; closed = b }

pub data Label {ℓ} (W : Type ℓ) : Type ℓ where
  enqueue begin : W → Label W
  close silent : Label W

-- The steps of the abstract queue.
pub data Promise {ℓ} {W : Type ℓ} : Queue W → Label W → Queue W → Type ℓ where
  enqueues :
      (w : W) (ws : List W) (b : Bool) → Promise (queue ws b) (enqueue w) (queue (ws ++ (w ∷ [])) b)
  begins : (w : W) (ws : List W) → Promise (queue (w ∷ ws) false) (begin w) (queue ws false)
  closes : (ws : List W) (b : Bool) → Promise (queue ws b) close (queue ws true)
  idles : (ws : List W) (b : Bool) → Promise (queue ws b) silent (queue ws b)

module _ {ℓ} {W : Type ℓ} where
  abbrev pub view : NoddyWorkerPool W → Queue W
  view s = queue s.work s.die

  -- What a thread's turn is, from where it was to where it is now: it begins a worklette if it
  -- was in none and is in one now.
  unfoldable pub label_of_place : Worker W → Label W
  label_of_place looking = silent
  label_of_place waiting = silent
  label_of_place woken = silent
  label_of_place exited = silent
  label_of_place (working w) = begin w

  unfoldable pub label_of_turn : Worker W → Worker W → Label W
  unfolding label_of_place
  label_of_turn looking t = label_of_place t
  label_of_turn waiting t = label_of_place t
  label_of_turn woken t = label_of_place t
  label_of_turn exited t = label_of_place t
  label_of_turn (working w) t = silent

  unfoldable pub label : Event W → NoddyWorkerPool W → Label W
  unfolding label_of_turn
  label (queued w) s = enqueue w
  label (went n) s = label_of_turn (worker_at n s.workers) (worker_at n (worker_goes n s).workers)
  label (awoke n) s = silent
  label destroyed s = close

  look-Promise :
      (b : Bool) (ws : List W) (t : Worker W)
      → label_of_place t ≡ silent
      → Promise
          (queue ws b)
          (label_of_place (lock_block b ws t))
          (queue (if b then ws else pop_front ws) b)
  unfolding label_of_place
  look-Promise true [] t h = idles [] true
  look-Promise true (w ∷ ws) t h = idles (w ∷ ws) true
  look-Promise false [] t h =
      subst (λ l. Promise (queue [] false) l (queue [] false)) (sym h) (idles [] false)
  look-Promise false (w ∷ ws) t h = begins w ws

  worker-Promise :
      (b : Bool) (ws : List W) (t : Worker W)
      → Promise (queue ws b) (label_of_turn t (start_working b ws t)) (queue (work_left b ws t) b)
  unfolding label_of_turn label_of_place start_working work_left
  worker-Promise b ws looking = look-Promise b ws waiting refl
  worker-Promise b ws waiting = idles ws b
  worker-Promise b ws woken = look-Promise b ws looking refl
  worker-Promise b ws exited = idles ws b
  worker-Promise b ws (working w) = idles ws b

  at_updated :
      (f : Worker W → Worker W) (n : ℕ) (ts : List (Worker W))
      → f exited ≡ exited
      → worker_at n (update_worker f n ts) ≡ f (worker_at n ts)
  at_updated f n [] h = sym h
  at_updated f zero (t ∷ ts) h = refl
  at_updated f (suc n) (t ∷ ts) h = at_updated f n ts h

  pub step-Promise :
      (e : Event W) (s : NoddyWorkerPool W) → Promise (view s) (label e s) (view (step e s))
  unfolding step label queue_worklette worker_goes wake_up let_die start_working
  step-Promise (queued w) s = enqueues w s.work s.die
  step-Promise (went n) s =
      subst
        (λ t.
          Promise (view s) (label_of_turn (worker_at n s.workers) t)
            (queue (work_left s.die s.work (worker_at n s.workers)) s.die))
        (sym (at_updated (start_working s.die s.work) n s.workers refl))
        (worker-Promise s.die s.work (worker_at n s.workers))
  step-Promise (awoke n) s = idles s.work s.die
  step-Promise destroyed s = closes s.work s.die

  -- A sequence of steps of the abstract queue, with the worklettes it takes in and begins.
  pub data Promises : Queue W → List W → List W → Queue W → Type ℓ where
    done : (q : Queue W) → Promises q [] [] q
    took :
        {q q' r : Queue W} {ins outs : List W} (w : W)
        → Promise q (enqueue w) q'
        → Promises q' ins outs r
        → Promises q (w ∷ ins) outs r
    began :
        {q q' r : Queue W} {ins outs : List W} (w : W)
        → Promise q (begin w) q'
        → Promises q' ins outs r
        → Promises q ins (w ∷ outs) r
    closed_it :
        {q q' r : Queue W} {ins outs : List W}
        → Promise q close q'
        → Promises q' ins outs r
        → Promises q ins outs r
    idled :
        {q q' r : Queue W} {ins outs : List W}
        → Promise q silent q'
        → Promises q' ins outs r
        → Promises q ins outs r

  abbrev pub entered : Label W → List W → List W
  entered (enqueue w) ws = w ∷ ws
  entered (begin w) ws = ws
  entered close ws = ws
  entered silent ws = ws

  abbrev pub left : Label W → List W → List W
  left (enqueue w) ws = ws
  left (begin w) ws = w ∷ ws
  left close ws = ws
  left silent ws = ws

  -- The worklettes that a run queues, and those that its threads begin.
  unfoldable pub queued_in : List (Event W) → NoddyWorkerPool W → List W
  queued_in [] s = []
  queued_in (e ∷ es) s = entered (label e s) (queued_in es (step e s))

  unfoldable pub begun_in : List (Event W) → NoddyWorkerPool W → List W
  begun_in [] s = []
  begun_in (e ∷ es) s = left (label e s) (begun_in es (step e s))

  extend :
      {q q' r : Queue W} {ins outs : List W} (l : Label W)
      → Promise q l q'
      → Promises q' ins outs r
      → Promises q (entered l ins) (left l outs) r
  extend (enqueue w) p ps = took w p ps
  extend (begin w) p ps = began w p ps
  extend close p ps = closed_it p ps
  extend silent p ps = idled p ps

  -- Every run of NoddyWorkerPool, from every state and whatever its threads do in what order,
  -- is a run of a plain queue that takes in the same worklettes and gives out those that come
  -- to be in a thread, one at a time from its front, and none once the pool has been told to
  -- die.
  pub run-Promises :
      (es : List (Event W)) (s : NoddyWorkerPool W)
      → Promises (view s) (queued_in es s) (begun_in es s) (view (run es s))
  unfolding run queued_in begun_in
  run-Promises [] s = done (view s)
  run-Promises (e ∷ es) s = extend (label e s) (step-Promise e s) (run-Promises es (step e s))

  -- What the abstract queue does to the order.
  Promise-order :
      {q q' : Queue W} {l : Label W}
      → Promise q l q'
      → (ins outs back : List W) → q'.pending ++ ins ≡ outs ++ back
      → q.pending ++ entered l ins ≡ left l outs ++ back
  Promise-order (enqueues w ws b) ins outs back h = sym (append_assoc ws (w ∷ []) ins) ∙ h
  Promise-order (begins w ws) ins outs back h = ap (λ xs. w ∷ xs) h
  Promise-order (closes ws b) ins outs back h = h
  Promise-order (idles ws b) ins outs back h = h

  pub run_order :
      (es : List (Event W)) (s : NoddyWorkerPool W)
      → s.work ++ queued_in es s ≡ begun_in es s ++ (run es s).work
  unfolding run queued_in begun_in
  run_order [] s = append-nil s.work
  run_order (e ∷ es) s = Promise-order (step-Promise e s) _ _ _ (run_order es (step e s))
