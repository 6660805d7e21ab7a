-- ===== src/Pplme/Threads/Work.antt =====
-- The turns that the calls on a pool have ahead of them.
use native.Mathlib.Nat.{mul-le-mul_left, mul-suc}
use ppl_me.Common.{
  ltb, ltb→lt, map, length-map, ◌==◌, ==→eq, Bool-cases, inl, inr, false, zero, ℕ, suc, ◌+◌, ◌*◌,
  ◌≤◌, ◌<◌, ◌≡◌, refl, ap, subst, ◌∙◌, true, List, [], ◌∷◌, arith, Option, length, drop,
  drop-append, if_elim,
}
use ppl_me.Pool.{
  NoddyWorkerPool, Worker, looking, waiting, woken, exited, working, worker_goes, worker_at,
}
use ppl_me.Pool
use ppl_me.Pool.Sums.{
  threads_left, thread_rank, queue_worklette-left, worker_goes-left, length-notify_all,
  length-update_worker,
}
use ppl_me.Pplme.Grid.{CellLocator}
use ppl_me.Pplme.Find.{
  System, Outcome, blocked, crashed, moved, contains, step, main_step, is_unaided, start, finish,
  Event,
}
use ppl_me.Pplme.Find.Work.{work_left, work_left-step}
use ppl_me.Pplme.Threads.{
  Host, Worklette, worklette_of, set_context, no_find, Turn, caller, roused, worker, awoken,
  TurnOutcome, idle, failed, turned, queue_each, hand_over, in_context, try_find_ppl_async,
  thread_goes, turn, is_own,
}
use ppl_me.Pplme.Threads.Steps.{Adds, main_runs-Adds}
use ppl_me.Pplme.Threads.Follows.{no_find-step}

-- What all calls have left to do.
unfoldable pub sum_upto : ℕ → (ℕ → ℕ) → ℕ
sum_upto zero f = 0
sum_upto (suc n) f = f n + sum_upto n f

abbrev pub all_work : {A : Type 0} → ℕ → (ℕ → System A) → ℕ
all_work n contexts = sum_upto n (λ i. work_left (contexts i))

-- A step of a find weighs more than the turns that its worklette and its notification give the
-- threads.
abbrev pub turns_ahead : {A : Type 0} → ℕ → Host A → ℕ
turns_ahead n s = (5 + 2 * length s.pool.workers) * all_work n s.contexts + threads_left s.pool

-- Only the first calls are made.
abbrev pub IsQuiet : {A : Type 0} → ℕ → (ℕ → System A) → Type 0
IsQuiet n contexts = (i : ℕ) → n ≤ i → contexts i ≡ no_find

scaled : (k a b : ℕ) → a < b → k * a + k ≤ k * b
scaled k a b h = omega (arith, mul-suc k a, mul-le-mul_left {m = suc a} {n = b} k h)

length-queue_each :
    (ws : List Worklette) (p : NoddyWorkerPool Worklette)
    → length (queue_each ws p).workers ≡ length p.workers
unfolding queue_each Pool.queue_worklette
length-queue_each [] p = refl
length-queue_each (w ∷ ws) p =
    length-queue_each ws (Pool.queue_worklette w p) ∙ length-notify_all p.workers

length-worker_goes :
    (n : ℕ) (p : NoddyWorkerPool Worklette) → length (worker_goes n p).workers ≡ length p.workers
unfolding worker_goes
length-worker_goes n p = length-update_worker _ n p.workers

queue_each-left :
    (ws : List Worklette) (p : NoddyWorkerPool Worklette)
    → length ws ≤ 1
    → threads_left (queue_each ws p) ≤ threads_left p + 4 + 2 * length p.workers
unfolding queue_each
queue_each-left [] p h = omega arith
queue_each-left (w ∷ []) p h = queue_worklette-left w p
queue_each-left (w ∷ v ∷ ws) p h = absurd (omega arith)

module _ {A : Type 0} where
  others_work :
      (i : ℕ) (t : System A) (contexts : ℕ → System A) (n : ℕ)
      → n ≤ i
      → all_work n (set_context i t contexts) ≡ all_work n contexts
  unfolding sum_upto
  others_work i t contexts zero h = refl
  others_work i t contexts (suc n) h =
      let apart : (n == i) ≡ false = ground arith in
      rw apart (omega (arith, others_work i t contexts n (omega arith)))

  all_work-set_context :
      (i : ℕ) (t : System A) (contexts : ℕ → System A) (n : ℕ)
      → i < n
      → all_work n (set_context i t contexts) + work_left (contexts i)
        ≡ all_work n contexts + work_left t
  unfolding sum_upto
  all_work-set_context i t contexts zero h = absurd (omega arith)
  all_work-set_context i t contexts (suc n) h = elim (Bool-cases (n == i)) [
    | inl e ↦ rw e (
        omega (
          arith,
          others_work i t contexts n (omega (arith, ==→eq n i e)),
          ap (λ k. work_left (contexts k)) (==→eq n i e),
        ))
    | inr e ↦ rw e (omega (arith, all_work-set_context i t contexts n (ground arith)))
  ]

module _ {A : Type 0} (max_ppl concurrency : ℕ) (find : ℕ → CellLocator → Option (List A))
    (n : ℕ) where
  made :
      (i : ℕ) (e : Event) (contexts : ℕ → System A) (t : System A)
      → IsQuiet n contexts
      → step max_ppl concurrency (find i) e (contexts i) ≡ moved t
      → i < n
  made i e contexts t quiet st = elim (Bool-cases (ltb i n)) [
    | inl h ↦ ltb→lt i n h
    | inr h ↦
        let stuck =
          ap (step max_ppl concurrency (find i) e) (quiet i (ground arith))
          ∙ no_find-step max_ppl concurrency (find i) e in
        absurd (cc)
  ]

  less_work :
      (i : ℕ) (e : Event) (contexts : ℕ → System A) (t : System A)
      → IsQuiet n contexts
      → is_unaided e ≡ true
      → step max_ppl concurrency (find i) e (contexts i) ≡ moved t
      → all_work n (set_context i t contexts) < all_work n contexts
  less_work i e contexts t quiet own st = omega (
    arith,
    all_work-set_context i t contexts n (made i e contexts t quiet st),
    work_left-step max_ppl concurrency (find i) e (contexts i) t own st,
  )

  abbrev Fewer : ℕ → TurnOutcome A → Type 0
  Fewer m idle = Unit {0}
  Fewer m failed = Unit {0}
  Fewer m (turned t) = turns_ahead n t < m

  hand_over-Fewer :
      (i : ℕ) (s : Host A) (o : Outcome A)
      → IsQuiet n s.contexts
      → Adds max_ppl concurrency (find i) (s.contexts i) o
      → step max_ppl concurrency (find i) main_step (s.contexts i) ≡ o
      → Fewer (turns_ahead n s) (hand_over max_ppl concurrency find i s o)
  unfolding hand_over
  hand_over-Fewer i s blocked quiet a e = tt
  hand_over-Fewer i s crashed quiet a e = tt
  hand_over-Fewer i s (moved t) quiet (new, q, r, few) e =
      let fresh : List CellLocator = drop (length (s.contexts i).queued) t.queued in
      let is_new : fresh ≡ new =
        ap (drop (length (s.contexts i).queued)) q ∙ drop-append (s.contexts i).queued new in
      let ws : List Worklette = map (worklette_of i) fresh in
      let less = less_work i main_step s.contexts t quiet refl e in
      rw (length-queue_each ws s.pool) (
        omega (
          arith,
          scaled (5 + 2 * length s.pool.workers) (all_work n (set_context i t s.contexts))
              (all_work n s.contexts) less,
          queue_each-left ws s.pool
              (omega (arith, length-map (worklette_of i) fresh, ap length is_new, few)),
        ))

  in_context-Fewer :
      (i : ℕ) (s : Host A) (e : Event) (o : Outcome A)
      → IsQuiet n s.contexts
      → is_unaided e ≡ true
      → step max_ppl concurrency (find i) e (s.contexts i) ≡ o
      → Fewer (turns_ahead n s) (in_context max_ppl concurrency find i s o)
  unfolding in_context
  in_context-Fewer i s e blocked quiet own h = tt
  in_context-Fewer i s e crashed quiet own h = tt
  in_context-Fewer i s e (moved t) quiet own h = omega (
    arith,
    scaled (5 + 2 * length s.pool.workers) (all_work n (set_context i t s.contexts))
        (all_work n s.contexts) (less_work i e s.contexts t quiet own h),
  )

  goes-Fewer :
      (m : ℕ) (s : Host A)
      → 1 ≤ thread_rank (worker_at m s.pool.workers)
      → turns_ahead n (record s { pool = worker_goes m s.pool }) < turns_ahead n s
  goes-Fewer m s h = rw (length-worker_goes m s.pool) (omega (arith, worker_goes-left m s.pool h))

  thread_goes-Fewer :
      (t : Worker Worklette) (m : ℕ) (s : Host A)
      → IsQuiet n s.contexts
      → worker_at m s.pool.workers ≡ t
      → Fewer (turns_ahead n s) (thread_goes max_ppl concurrency find t m s)
  unfolding thread_goes try_find_ppl_async step
  thread_goes-Fewer looking m s quiet at = goes-Fewer m s (omega (arith, ap thread_rank at))
  thread_goes-Fewer waiting m s quiet at = tt
  thread_goes-Fewer woken m s quiet at = goes-Fewer m s (omega (arith, ap thread_rank at))
  thread_goes-Fewer exited m s quiet at = tt
  thread_goes-Fewer (working w) m s quiet at =
      if_elim (Fewer (turns_ahead n s)) (contains w.cell (s.contexts w.call).queued)
        (λ q. in_context-Fewer w.call s (start w.cell) _ quiet refl refl)
        (λ q.
          if_elim (Fewer (turns_ahead n s)) (contains w.cell (s.contexts w.call).searching)
            (λ r. in_context-Fewer w.call s (finish w.cell) _ quiet refl refl)
            (λ r. goes-Fewer m s (omega (arith, ap thread_rank at))))

  turn-Fewer :
      (e : Turn) (s : Host A)
      → IsQuiet n s.contexts
      → is_own e ≡ true
      → Fewer (turns_ahead n s) (turn max_ppl concurrency find e s)
  unfolding turn step
  turn-Fewer (caller i) s quiet h =
      hand_over-Fewer i s _ quiet (main_runs-Adds max_ppl concurrency (find i) (s.contexts i)) refl
  turn-Fewer (roused i) s quiet h = absurd (ground arith)
  turn-Fewer (worker m) s quiet h = thread_goes-Fewer (worker_at m s.pool.workers) m s quiet refl
  turn-Fewer (awoken m) s quiet h = absurd (ground arith)

  -- In every state in which only the first n calls of FindMatchingPpl are made, every turn of a
  -- caller or of a thread of the pool that is possible leaves fewer turns ahead, where only the
  -- waits that end by themselves are not counted: no schedule without them goes on for ever.
  pub turns_ahead-turn :
      (e : Turn) (s t : Host A)
      → IsQuiet n s.contexts
      → is_own e ≡ true
      → turn max_ppl concurrency find e s ≡ turned t
      → turns_ahead n t < turns_ahead n s
  turns_ahead-turn e s t quiet own h = subst (Fewer (turns_ahead n s)) h (turn-Fewer e s quiet own)
