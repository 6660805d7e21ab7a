-- ===== src/Pplme/Threads/Kept.antt =====
-- Every turn on the pool keeps the worklettes of all calls.
use ppl_me.Common.{
  ℕ, ◌≤◌, ◌≡◌, refl, ap, sym, subst, false, List, [], ◌∷◌, ◌∙◌, arith, one_if, sum_of-append,
  Option, length, drop, drop-append, if_elim, map, ◌==◌, ==→eq, Bool-cases, inl, inr,
}
use ppl_me.Pool.{
  NoddyWorkerPool, Worker, looking, waiting, woken, exited, working, worker_goes, worker_at,
}
use ppl_me.Pplme.Grid.{CellLocator, locator_eq}
use ppl_me.Pplme.Find.{System, Outcome, blocked, crashed, moved, contains}
use ppl_me.Pplme.Find.Sets.{occurs, occurs-contains, locator_eq-eq}
use ppl_me.Pplme.Threads.{
  Host, Worklette, worklette_of, set_context, Turn, caller, roused, worker, awoken, TurnOutcome,
  idle, failed, turned, queue_each, hand_over, in_context, try_find_ppl_async, thread_goes, turn,
  Hosted, hosts, turns,
}
use ppl_me.Pplme.Threads.Steps.{
  unfinished, Adds, AddsNone, main_runs-Adds, wake_main-AddsNone, start_search-AddsNone,
  finish_search-AddsNone,
}
use ppl_me.Pplme.Threads.Held.{
  is_of, is_on, waiting_for, held_by, IsHeld, worker_goes-held, worker_goes-IsAlive, wake_up-held,
  wake_up-IsAlive, queue_each-held, queue_each-IsAlive,
}

none_of :
    (c k : CellLocator) (xs : List CellLocator) → k ≡ c → contains c xs ≡ false → occurs k xs ≡ 0
none_of c k xs e h = subst (λ x. occurs x xs ≡ 0) (sym e) (ground (arith, occurs-contains c xs))

waiting_for-map :
    (i : ℕ) (c : CellLocator) (xs : List CellLocator)
    → waiting_for i c (map (worklette_of i) xs) ≡ occurs c xs
waiting_for-map i c [] = refl
waiting_for-map i c (d ∷ ds) = ground (arith, waiting_for-map i c ds)

module _ {A : Type 0} where
  -- A call's new context and the old ones of the others.
  set_context-held :
      (i : ℕ) (t : System A) (contexts : ℕ → System A) (p : NoddyWorkerPool Worklette)
      → ((c : CellLocator) → unfinished c t ≤ held_by i c p)
      → ((k : ℕ) (c : CellLocator) → unfinished c (contexts k) ≤ held_by k c p)
      → (k : ℕ) (c : CellLocator) → unfinished c (set_context i t contexts k) ≤ held_by k c p
  set_context-held i t contexts p here others k c =
      if_elim (λ x. unfinished c x ≤ held_by k c p) (k == i)
        (λ e. subst (λ j. unfinished c t ≤ held_by j c p) (sym (==→eq k i e)) (here c))
        (λ e. others k c)

module _ {A : Type 0} (max_ppl concurrency : ℕ) (find : ℕ → CellLocator → Option (List A))
    (threads : ℕ) where
  abbrev pub TurnKeeps : TurnOutcome A → Type 0
  TurnKeeps idle = Unit {0}
  TurnKeeps failed = Unit {0}
  TurnKeeps (turned t) = IsHeld threads t

  hand_over-Keeps :
      (i : ℕ) (s : Host A) (o : Outcome A)
      → IsHeld threads s
      → Adds max_ppl concurrency (find i) (s.contexts i) o
      → TurnKeeps (hand_over max_ppl concurrency find i s o)
  unfolding hand_over
  hand_over-Keeps i s blocked v a = tt
  hand_over-Keeps i s crashed v a = tt
  hand_over-Keeps i s (moved t) v (new, q, r, few) =
      let fresh : List CellLocator = drop (length (s.contexts i).queued) t.queued in
      let is_new : fresh ≡ new =
        ap (drop (length (s.contexts i).queued)) q ∙ drop-append (s.contexts i).queued new in
      let ws : List Worklette = map (worklette_of i) fresh in
      record {
        of_pool = queue_each-IsAlive threads ws s.pool v.of_pool;
        held =
            set_context-held i t s.contexts (queue_each ws s.pool)
              (λ c. omega (
                arith,
                v.held i c,
                queue_each-held i c ws s.pool,
                waiting_for-map i c fresh,
                ap (occurs c) is_new,
                ap (occurs c) q,
                ap (occurs c) r,
                sum_of-append (λ d. one_if (locator_eq c d)) (s.contexts i).queued new,
              ))
              (λ k c. omega (arith, v.held k c, queue_each-held k c ws s.pool));
      }

  in_context-Keeps :
      (i : ℕ) (s : Host A) (o : Outcome A)
      → IsHeld threads s
      → AddsNone max_ppl concurrency (find i) (s.contexts i) o
      → TurnKeeps (in_context max_ppl concurrency find i s o)
  unfolding in_context
  in_context-Keeps i s blocked v a = tt
  in_context-Keeps i s crashed v a = tt
  in_context-Keeps i s (moved t) v a = record {
    of_pool = v.of_pool;
    held = set_context-held i t s.contexts s.pool (λ c. omega (arith, v.held i c, a c)) v.held;
  }

  -- A thread that is in the worklette of a cell is in no other, so its return loses none.
  returns-held :
      (w : Worklette) (n : ℕ) (s : Host A)
      → IsHeld threads s
      → worker_at n s.pool.workers ≡ working w
      → contains w.cell (s.contexts w.call).queued ≡ false
      → contains w.cell (s.contexts w.call).searching ≡ false
      → (k : ℕ) (c : CellLocator) → unfinished c (s.contexts k) ≤ held_by k c (worker_goes n s.pool)
  returns-held w n s v at q r k c = elim (Bool-cases (is_of k c w)) [
    | inl e ↦
        let same : c ≡ w.cell = locator_eq-eq c w.cell (ground arith) in
        subst (λ j. unfinished c (s.contexts j) ≤ held_by j c (worker_goes n s.pool))
          (sym (==→eq k w.call (ground arith)))
          (omega (
            arith,
            none_of w.cell c (s.contexts w.call).queued same q,
            none_of w.cell c (s.contexts w.call).searching same r,
          ))
    | inr e ↦ omega (
      arith,
      v.held k c,
      worker_goes-held k c n s.pool v.of_pool.alive (ap (is_on k c) at ∙ ap one_if e),
    )
  ]

  try_find_ppl_async-Keeps :
      (w : Worklette) (n : ℕ) (s : Host A)
      → IsHeld threads s
      → worker_at n s.pool.workers ≡ working w
      → TurnKeeps (try_find_ppl_async max_ppl concurrency find w.call w.cell n s)
  unfolding try_find_ppl_async
  try_find_ppl_async-Keeps w n s v at =
      let start-AddsNone =
        start_search-AddsNone max_ppl concurrency (find w.call) w.cell (s.contexts w.call) in
      let finish-AddsNone =
        finish_search-AddsNone max_ppl concurrency (find w.call) w.cell (s.contexts w.call) in
      if_elim TurnKeeps (contains w.cell (s.contexts w.call).queued)
        (λ q. in_context-Keeps w.call s _ v start-AddsNone)
        (λ q.
          if_elim TurnKeeps (contains w.cell (s.contexts w.call).searching)
            (λ r. in_context-Keeps w.call s _ v finish-AddsNone)
            (λ r. record {
              of_pool = worker_goes-IsAlive threads n s.pool v.of_pool;
              held = returns-held w n s v at q r;
            }))

  rests-Keeps :
      (n : ℕ) (s : Host A)
      → IsHeld threads s
      → ((k : ℕ) (c : CellLocator) → is_on k c (worker_at n s.pool.workers) ≡ 0)
      → IsHeld threads (record s { pool = worker_goes n s.pool })
  rests-Keeps n s v h = record {
    of_pool = worker_goes-IsAlive threads n s.pool v.of_pool;
    held = λ k c. omega (arith, v.held k c, worker_goes-held k c n s.pool v.of_pool.alive (h k c));
  }

  thread_goes-Keeps :
      (t : Worker Worklette) (n : ℕ) (s : Host A)
      → IsHeld threads s
      → worker_at n s.pool.workers ≡ t
      → TurnKeeps (thread_goes max_ppl concurrency find t n s)
  unfolding thread_goes
  thread_goes-Keeps looking n s v at = rests-Keeps n s v (λ k c. ap (is_on k c) at)
  thread_goes-Keeps waiting n s v at = tt
  thread_goes-Keeps woken n s v at = rests-Keeps n s v (λ k c. ap (is_on k c) at)
  thread_goes-Keeps exited n s v at = tt
  thread_goes-Keeps (working w) n s v at = try_find_ppl_async-Keeps w n s v at

  pub turn-Keeps :
      (e : Turn) (s : Host A) → IsHeld threads s → TurnKeeps (turn max_ppl concurrency find e s)
  unfolding turn
  turn-Keeps (caller i) s v =
      hand_over-Keeps i s _ v (main_runs-Adds max_ppl concurrency (find i) (s.contexts i))
  turn-Keeps (roused i) s v =
      in_context-Keeps i s _ v (wake_main-AddsNone max_ppl concurrency (find i) (s.contexts i))
  turn-Keeps (worker n) s v = thread_goes-Keeps (worker_at n s.pool.workers) n s v refl
  turn-Keeps (awoken n) s v = record {
    of_pool = wake_up-IsAlive threads n s.pool v.of_pool;
    held = λ k c. omega (arith, v.held k c, wake_up-held k c n s.pool);
  }

  pub Hosted-IsHeld :
      {from s : Host A}
      → IsHeld threads from
      → Hosted max_ppl concurrency find from s
      → IsHeld threads s
  Hosted-IsHeld v hosts = v
  Hosted-IsHeld v (turns {s} e h st) = subst TurnKeeps st (turn-Keeps e s (Hosted-IsHeld v h))
