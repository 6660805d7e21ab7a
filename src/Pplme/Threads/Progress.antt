-- ===== src/Pplme/Threads/Progress.antt =====
-- The calls on a pool do not deadlock.
use ppl_me.Common.{
  ℕ, zero, suc, ◌+◌, ◌≤◌, ◌≡◌, ◌≢◌, sym, subst, ltb, refl, ap, Bool, true, false, List, [], ◌∷◌,
  All, arith, inl, inr, ◌⊎◌, Option, length, if_elim, if◌then◌else◌, sum_of,
}
use ppl_me.Pool.{NoddyWorkerPool, Worker, looking, waiting, woken, exited, working, worker_at}
use ppl_me.Pool.Awake.{is_idle, waits}
use ppl_me.Pplme.Grid.{CellLocator}
use ppl_me.Pplme.Find.{
  System, returned, Outcome, blocked, moved, contains, start_search, finish_search, step, main_step,
  main_wakes, is_unaided, start, finish, Event, begin, Reach,
}
use ppl_me.Pplme.Find.Sets.{occurs, contains-occurs}
use ppl_me.Pplme.Find.Invariant.{Inv, Finds}
use ppl_me.Pplme.Find.Kept.{step-Keeps, Reach-Inv}
use ppl_me.Pplme.Find.Progress.{go_on, start_possible, finish_possible, find-CanGo}
use ppl_me.Pplme.Threads.{
  Host, Worklette, calls, no_find, Turn, caller, worker, TurnOutcome, turned, set_context,
  IsResting, hand_over, in_context, try_find_ppl_async, thread_goes, turn, Hosted, is_own,
}
use ppl_me.Pplme.Threads.Held.{has_exited, busy, waiting_for, IsHeld, IsResting-IsAlive}
use ppl_me.Pplme.Threads.Kept.{Hosted-IsHeld}
use ppl_me.Pplme.Threads.Steps.{unfinished}
use ppl_me.Pplme.Threads.Follows.{Hosted-Reach, Reach-no_find}

busy_worker :
    (i : ℕ) (c : CellLocator) (ts : List (Worker Worklette))
    → 1 ≤ busy i c ts
    → (n : ℕ) × (w : Worklette) × (worker_at n ts ≡ working w)
busy_worker i c [] h = absurd (omega arith)
busy_worker i c (looking ∷ ts) h = let (n, d, e) = busy_worker i c ts (omega arith) in (suc n, d, e)
busy_worker i c (waiting ∷ ts) h = let (n, d, e) = busy_worker i c ts (omega arith) in (suc n, d, e)
busy_worker i c (woken ∷ ts) h = let (n, d, e) = busy_worker i c ts (omega arith) in (suc n, d, e)
busy_worker i c (exited ∷ ts) h = let (n, d, e) = busy_worker i c ts (omega arith) in (suc n, d, e)
busy_worker i c (working d ∷ ts) h = (0, d, refl)

first_present :
    (ts : List (Worker Worklette))
    → 1 ≤ length ts
    → sum_of has_exited ts ≡ 0
    → has_exited (worker_at 0 ts) ≡ 0
first_present [] h e = absurd (omega arith)
first_present (t ∷ ts) h e = omega (arith, e)

has_work :
    (i : ℕ) (c : CellLocator) (b : Bool) (ws : List Worklette)
    → 1 ≤ waiting_for i c ws
    → is_idle b ws ≡ false
has_work i c true ws h = refl
has_work i c false [] h = absurd (omega arith)
has_work i c false (w ∷ ws) h = refl

module _ {A : Type 0} (max_ppl concurrency : ℕ) (find : ℕ → CellLocator → Option (List A)) where
  -- A thread can take a turn, and it does not abort the process.
  abbrev pub CanTurn : Host A → Type 0
  CanTurn s =
      (e : Turn) × (t : Host A) × (is_own e ≡ true) × (turn max_ppl concurrency find e s ≡ turned t)

  abbrev Goes : TurnOutcome A → Type 0
  Goes o = (t : Host A) × (o ≡ turned t)

  module _ (found : ℕ → CellLocator → List A) (cells : ℕ → List CellLocator)
      (some_room : 1 ≤ concurrency) (threads : ℕ) (some_thread : 1 ≤ threads) where
    abbrev AllInv : Host A → Type 0
    AllInv s = (i : ℕ) → Inv max_ppl concurrency (find i) (found i) (cells i) (s.contexts i)

    in_context-Goes :
        (i : ℕ) (s : Host A) (o : Outcome A)
        → (t : System A) × (o ≡ moved t)
        → Goes (in_context max_ppl concurrency find i s o)
    unfolding in_context
    in_context-Goes i s o (t, e) = (record s { contexts = set_context i t s.contexts }, rw e refl)

    -- A thread in a worklette can go on.
    try_find_ppl_async-Goes :
        (i : ℕ) (c : CellLocator) (n : ℕ) (s : Host A)
        → Inv max_ppl concurrency (find i) (found i) (cells i) (s.contexts i)
        → Goes (try_find_ppl_async max_ppl concurrency find i c n s)
    unfolding try_find_ppl_async step
    try_find_ppl_async-Goes i c n s v =
        if_elim Goes (contains c (s.contexts i).queued)
          (λ q. in_context-Goes i s _ (
            go_on max_ppl concurrency (find i) (found i) (cells i) some_room _
              (step-Keeps max_ppl concurrency (find i) (found i) (cells i) (start c) (s.contexts i)
                v)
              (start_possible max_ppl concurrency (find i) (found i) (cells i) some_room c
                (s.contexts i) q)))
          (λ q.
            if_elim Goes (contains c (s.contexts i).searching)
              (λ r. in_context-Goes i s _ (
                go_on max_ppl concurrency (find i) (found i) (cells i) some_room _
                  (step-Keeps max_ppl concurrency (find i) (found i) (cells i) (finish c)
                    (s.contexts i) v)
                  (finish_possible max_ppl concurrency (find i) (found i) (cells i) some_room c
                    (s.contexts i) r)))
              (λ r. (_, refl)))

    thread_goes-Goes :
        (t : Worker Worklette) (n : ℕ) (s : Host A)
        → AllInv s
        → waits t ≡ false
        → has_exited t ≡ 0
        → Goes (thread_goes max_ppl concurrency find t n s)
    unfolding thread_goes
    thread_goes-Goes looking n s v w x = (_, refl)
    thread_goes-Goes waiting n s v w x = absurd (ground arith)
    thread_goes-Goes woken n s v w x = (_, refl)
    thread_goes-Goes exited n s v w x = absurd (omega arith)
    thread_goes-Goes (working u) n s v w x = try_find_ppl_async-Goes u.call u.cell n s (v u.call)

    thread-CanTurn :
        (n : ℕ) (s : Host A)
        → AllInv s
        → waits (worker_at n s.pool.workers) ≡ false
        → has_exited (worker_at n s.pool.workers) ≡ 0
        → CanTurn s
    unfolding turn
    thread-CanTurn n s v w x =
        let (t, e) = thread_goes-Goes (worker_at n s.pool.workers) n s v w x in
        (worker n, t, refl, e)

    held-CanTurn :
        (i : ℕ) (c : CellLocator) (s : Host A)
        → AllInv s
        → IsHeld threads s
        → (1 ≤ waiting_for i c s.pool.work) ⊎ (1 ≤ busy i c s.pool.workers)
        → CanTurn s
    held-CanTurn i c s v k (inl h) =
        thread-CanTurn 0 s v
          (ground (arith, k.of_pool.awake 0, has_work i c s.pool.die s.pool.work h))
          (first_present s.pool.workers (omega (arith, k.of_pool.all_there))
            k.of_pool.nobody_exited)
    held-CanTurn i c s v k (inr h) =
        let (n, w, e) = busy_worker i c s.pool.workers h in
        thread-CanTurn n s v (ap waits e) (ap has_exited e)

    one_of : (a b : ℕ) → 1 ≤ a + b → (1 ≤ a) ⊎ (1 ≤ b)
    one_of zero b h = inr (omega arith)
    one_of (suc a) b h = inl (omega arith)

    search-CanTurn :
        (i : ℕ) (c : CellLocator) (b : Bool) (xs : List CellLocator) (s : Host A) (x : Outcome A)
        (t : System A)
        → AllInv s
        → IsHeld threads s
        → contains c xs ≡ b
        → occurs c xs ≤ unfinished c (s.contexts i)
        → (if b then x else blocked) ≡ moved t
        → CanTurn s
    search-CanTurn i c true xs s x t v k h le e =
        held-CanTurn i c s v k (one_of _ _ (omega (arith, le, contains-occurs c xs h, k.held i c)))
    search-CanTurn i c false xs s x t v k h le e = absurd (cc)

    event-CanTurn :
        (i : ℕ) (e : Event) (s : Host A) (t : System A)
        → AllInv s
        → IsHeld threads s
        → is_unaided e ≡ true
        → step max_ppl concurrency (find i) e (s.contexts i) ≡ moved t
        → CanTurn s
    unfolding turn hand_over step start_search finish_search
    event-CanTurn i main_step s t v k own e =
        (caller i, _, refl, ap (hand_over max_ppl concurrency find i s) e)
    event-CanTurn i main_wakes s t v k own e = absurd (cc)
    event-CanTurn i (start c) s t v k own e =
        search-CanTurn i c (contains c (s.contexts i).queued) (s.contexts i).queued s _ t v k refl
          (omega arith) e
    event-CanTurn i (finish c) s t v k own e =
        search-CanTurn i c (contains c (s.contexts i).searching) (s.contexts i).searching s _ t v k
          refl (omega arith) e

  -- So many calls on a pool at rest, before their first steps.
  abbrev pub hosted : NoddyWorkerPool Worklette → ℕ → (ℕ → List CellLocator) → Host A
  hosted p n cells = record {
    pool = p;
    contexts = calls n (λ i. begin max_ppl concurrency (find i) (cells i));
  }

  abbrev cells_of : ℕ → (ℕ → List CellLocator) → ℕ → List CellLocator
  cells_of n cells i = if ltb i n then cells i else []

  no_find-Inv :
      (i : ℕ) (found : CellLocator → List A) → Inv max_ppl concurrency (find i) found [] no_find
  no_find-Inv i found = record {
    distinct = λ c. omega arith;
    tracked = λ c. refl;
    find_todo = tt;
    find_queued = tt;
    find_searching = tt;
    none_made = λ t. omega arith;
    none_lost = λ t h. refl;
    full = λ h. cc;
    few = omega arith;
    wakeful = λ h. cc;
    phase = (refl, inl refl, ground arith);
  }

  module _ (found : ℕ → CellLocator → List A) (n : ℕ) (cells : ℕ → List CellLocator)
      (p : NoddyWorkerPool Worklette) (at_rest : IsResting p)
      (once : (i : ℕ) (c : CellLocator) → occurs c (cells i) ≤ 1)
      (finds : (i : ℕ)
        → All (Finds max_ppl concurrency (find i) (found i) (cells i)) (cells i)) where
    nothing_yet :
        (i : ℕ) (c : CellLocator) (b : Bool)
        → unfinished c (if b then begin max_ppl concurrency (find i) (cells i) else no_find) ≡ 0
    unfolding begin
    nothing_yet i c true = refl
    nothing_yet i c false = refl

    hosted-IsHeld : IsHeld (length p.workers) (hosted p n cells)
    hosted-IsHeld = record {
      of_pool = IsResting-IsAlive p at_rest;
      held = λ i c. omega (arith, nothing_yet i c (ltb i n));
    }

    call-Inv :
        (i : ℕ) (b : Bool) (s : System A)
        → Reach max_ppl concurrency
            (find i)
            (if b then begin max_ppl concurrency (find i) (cells i) else no_find)
            s
        → Inv max_ppl concurrency (find i) (found i) (if b then cells i else []) s
    call-Inv i true s r =
        Reach-Inv max_ppl concurrency (find i) (found i) (cells i) (once i) (finds i) r
    call-Inv i false s r =
        subst (Inv max_ppl concurrency (find i) (found i) [])
          (sym (Reach-no_find max_ppl concurrency (find i) refl r)) (no_find-Inv i (found i))

    -- For n calls with a concurrency of at least 1, each over distinct cells whose searches
    -- succeed, on a pool at rest with at least one thread: in every state that the turns of the
    -- threads can lead to in which some caller is not back, a caller or a thread can take a
    -- turn that does not abort the process, without a wait that ends by itself.
    pub hosted-CanTurn :
        1 ≤ concurrency
        → 1 ≤ length p.workers
        → (s : Host A) → Hosted max_ppl concurrency find (hosted p n cells) s
        → (i : ℕ) → ((r : List A) → (s.contexts i).main ≢ returned r)
        → CanTurn s
    hosted-CanTurn room threads s h i still =
        let reached = Hosted-Reach max_ppl concurrency find h in
        let v : (k : ℕ)
            → Inv max_ppl concurrency (find k) (found k) (cells_of n cells k) (s.contexts k) =
          λ k. call-Inv k (ltb k n) (s.contexts k) (reached k) in
        let (e, t, own, moves) =
          find-CanGo max_ppl concurrency (find i) (found i) (cells_of n cells i) room (s.contexts i)
            (v i) still in
        event-CanTurn found (cells_of n cells) room (length p.workers) threads i e s t v
          (Hosted-IsHeld max_ppl concurrency find (length p.workers) hosted-IsHeld h) own moves
