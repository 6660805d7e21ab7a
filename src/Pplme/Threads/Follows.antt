-- ===== src/Pplme/Threads/Follows.antt =====
-- Each call on the pool is a find.
use ppl_me.Common.{ℕ, ◌≡◌, refl, ap, sym, subst, ◌∙◌, List, Option, if_elim, ◌==◌, ==→eq}
use ppl_me.Pool.{Worker, looking, waiting, woken, exited, working, worker_at}
use ppl_me.Pplme.Grid.{CellLocator}
use ppl_me.Pplme.Find.{
  System, Outcome, blocked, crashed, moved, contains, step, main_step, main_wakes, start, finish,
  Event, Reach, begins, goes, main_runs, wake_main, start_search, finish_search,
}
use ppl_me.Pplme.Threads.{
  Host, Worklette, set_context, no_find, Turn, caller, roused, worker, awoken, TurnOutcome, idle,
  failed, turned, hand_over, in_context, try_find_ppl_async, thread_goes, turn, Hosted, hosts,
  turns,
}

module _ {A : Type 0} (max_ppl concurrency : ℕ) (find : ℕ → CellLocator → Option (List A)) where
  -- Each call has come from its first context by the steps of a find.
  abbrev pub AreFinds : (ℕ → System A) → (ℕ → System A) → Type 0
  AreFinds from contexts = (i : ℕ) → Reach max_ppl concurrency (find i) (from i) (contexts i)

  abbrev Follows : (ℕ → System A) → TurnOutcome A → Type 0
  Follows from idle = Unit {0}
  Follows from failed = Unit {0}
  Follows from (turned t) = AreFinds from t.contexts

  set_context-AreFinds :
      (from contexts : ℕ → System A) (i : ℕ) (e : Event) (t : System A)
      → AreFinds from contexts
      → step max_ppl concurrency (find i) e (contexts i) ≡ moved t
      → AreFinds from (set_context i t contexts)
  set_context-AreFinds from contexts i e t r st k =
      if_elim (Reach max_ppl concurrency (find k) (from k)) (k == i)
        (λ same.
          subst (λ j. Reach max_ppl concurrency (find j) (from j) t) (sym (==→eq k i same))
            (goes e (r i) st))
        (λ other. r k)

  hand_over-Follows :
      (from : ℕ → System A) (i : ℕ) (s : Host A) (o : Outcome A)
      → AreFinds from s.contexts
      → step max_ppl concurrency (find i) main_step (s.contexts i) ≡ o
      → Follows from (hand_over max_ppl concurrency find i s o)
  unfolding hand_over
  hand_over-Follows from i s blocked r e = tt
  hand_over-Follows from i s crashed r e = tt
  hand_over-Follows from i s (moved t) r e = set_context-AreFinds from s.contexts i main_step t r e

  in_context-Follows :
      (from : ℕ → System A) (i : ℕ) (s : Host A) (e : Event) (o : Outcome A)
      → AreFinds from s.contexts
      → step max_ppl concurrency (find i) e (s.contexts i) ≡ o
      → Follows from (in_context max_ppl concurrency find i s o)
  unfolding in_context
  in_context-Follows from i s e blocked r h = tt
  in_context-Follows from i s e crashed r h = tt
  in_context-Follows from i s e (moved t) r h = set_context-AreFinds from s.contexts i e t r h

  thread_goes-Follows :
      (from : ℕ → System A) (t : Worker Worklette) (n : ℕ) (s : Host A)
      → AreFinds from s.contexts
      → Follows from (thread_goes max_ppl concurrency find t n s)
  unfolding thread_goes try_find_ppl_async step
  thread_goes-Follows from looking n s r = r
  thread_goes-Follows from waiting n s r = tt
  thread_goes-Follows from woken n s r = r
  thread_goes-Follows from exited n s r = tt
  thread_goes-Follows from (working w) n s r =
      if_elim (Follows from) (contains w.cell (s.contexts w.call).queued)
        (λ q. in_context-Follows from w.call s (start w.cell) _ r refl)
        (λ q.
          if_elim (Follows from) (contains w.cell (s.contexts w.call).searching)
            (λ p. in_context-Follows from w.call s (finish w.cell) _ r refl) (λ p. r))

  turn-Follows :
      (from : ℕ → System A) (e : Turn) (s : Host A)
      → AreFinds from s.contexts
      → Follows from (turn max_ppl concurrency find e s)
  unfolding turn step
  turn-Follows from (caller i) s r = hand_over-Follows from i s _ r refl
  turn-Follows from (roused i) s r = in_context-Follows from i s main_wakes _ r refl
  turn-Follows from (worker n) s r = thread_goes-Follows from (worker_at n s.pool.workers) n s r
  turn-Follows from (awoken n) s r = r

  -- What the turns of a pool's threads do to the context of a call, the steps of its find do.
  pub Hosted-Reach :
      {from s : Host A} → Hosted max_ppl concurrency find from s → AreFinds from.contexts s.contexts
  Hosted-Reach hosts = λ i. begins
  Hosted-Reach {from} (turns {s} e h st) =
      subst (Follows from.contexts) st (turn-Follows from.contexts e s (Hosted-Reach h))

module _ {A : Type 0} (max_ppl concurrency : ℕ) (find : CellLocator → Option (List A)) where
  -- A call that is over has no steps.
  pub no_find-step : (e : Event) → step max_ppl concurrency find e no_find ≡ blocked
  unfolding step main_runs wake_main start_search finish_search
  no_find-step main_step = refl
  no_find-step main_wakes = refl
  no_find-step (start c) = refl
  no_find-step (finish c) = refl

  pub Reach-no_find :
      {s t : System A} → s ≡ no_find → Reach max_ppl concurrency find s t → t ≡ no_find
  Reach-no_find e begins = e
  Reach-no_find e (goes ev r st) =
      let stuck = ap (step max_ppl concurrency find ev) (Reach-no_find e r) ∙ no_find-step ev in
      absurd (cc)
