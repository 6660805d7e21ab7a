-- ===== src/Pplme/Threads/Steps.antt =====
-- What a step of a find does to the worklettes that it has to run.
use ppl_me.Common.{
  ◌+◌, ℕ, ◌≤◌, ◌≡◌, refl, sym, true, not, List, [], ◌∷◌, ◌++◌, arith, one_if, Option, some, none,
  length, append-nil, if_elim, leb,
}
use ppl_me.Pplme.Grid.{CellLocator, locator_eq}
use ppl_me.Pplme.Find.{
  System, Main, walking, stopping, rendezvous, returned, Outcome, blocked, crashed, moved, contains,
  is_empty, may_go_on, walk_on, main_goes, main_runs, wake_main, start_search, push_found,
  finish_search,
}
use ppl_me.Pplme.Find.Sets.{occurs, sum_of-erase}

-- The worklettes of a cell that are queued or have begun.
abbrev pub unfinished : {A : Type 0} → CellLocator → System A → ℕ
unfinished c s = occurs c s.queued + occurs c s.searching

module _ {A : Type 0} (max_ppl concurrency : ℕ) (find : CellLocator → Option (List A)) where
  -- The caller's step adds at most one worklette, at the end.
  abbrev pub Adds : System A → Outcome A → Type 0
  Adds s blocked = Unit {0}
  Adds s crashed = Unit {0}
  Adds s (moved t) =
      (new : List CellLocator) × (t.queued ≡ s.queued ++ new)
      × (t.searching ≡ s.searching)
      × (length new ≤ 1)

  none_new :
      (s : System A)
      → (new : List CellLocator) × (s.queued ≡ s.queued ++ new)
        × (s.searching ≡ s.searching)
        × (length new ≤ 1)
  none_new s = ([], sym (append-nil s.queued), refl, omega arith)

  walk_on-Adds :
      (todo : List CellLocator) (s : System A) → Adds s (walk_on max_ppl concurrency find todo s)
  unfolding walk_on
  walk_on-Adds [] s = none_new s
  walk_on-Adds (c ∷ cs) s =
      if_elim (Adds s) (may_go_on max_ppl concurrency find s)
        (λ go.
          if_elim (Adds s) (leb max_ppl (length s.ppl)) (λ h. none_new s)
            (λ h.
              if_elim (Adds s) (not s.we_done_here)
                (λ d.
                  if_elim (Adds s) (contains c s.pending_cells) (λ p. tt)
                    (λ p. (c ∷ [], refl, refl, omega arith)))
                (λ d. none_new s)))
        (λ stay. none_new s)

  main_goes-Adds : (m : Main A) (s : System A) → Adds s (main_goes max_ppl concurrency find m s)
  unfolding main_goes
  main_goes-Adds walking s = walk_on-Adds s.todo s
  main_goes-Adds stopping s =
      if_elim (Adds s) (is_empty s.pending_cells) (λ h. none_new s) (λ h. none_new s)
  main_goes-Adds rendezvous s =
      if_elim (Adds s) (is_empty s.pending_cells) (λ h. none_new s) (λ h. none_new s)
  main_goes-Adds (returned r) s = tt

  pub main_runs-Adds : (s : System A) → Adds s (main_runs max_ppl concurrency find s)
  unfolding main_runs
  main_runs-Adds s = if_elim (Adds s) s.asleep (λ a. tt) (λ a. main_goes-Adds s.main s)

  -- A worklette's step begins or ends worklettes, and adds none.
  abbrev pub AddsNone : System A → Outcome A → Type 0
  AddsNone s blocked = Unit {0}
  AddsNone s crashed = Unit {0}
  AddsNone s (moved t) = (c : CellLocator) → unfinished c t ≤ unfinished c s

  pub wake_main-AddsNone : (s : System A) → AddsNone s (wake_main max_ppl concurrency find s)
  unfolding wake_main
  wake_main-AddsNone s = if_elim (AddsNone s) s.asleep (λ a c. omega arith) (λ a. tt)

  pub start_search-AddsNone :
      (c : CellLocator) (s : System A) → AddsNone s (start_search max_ppl concurrency find c s)
  unfolding start_search
  start_search-AddsNone c s =
      if_elim (AddsNone s) (contains c s.queued)
        (λ q.
          if_elim (AddsNone s) s.we_done_here
            (λ d.
              if_elim (AddsNone s) (contains c s.pending_cells)
                (λ p k. omega (arith, sum_of-erase (λ x. one_if (locator_eq k x)) c s.queued q))
                (λ p. tt))
            (λ d k. omega (arith, sum_of-erase (λ x. one_if (locator_eq k x)) c s.queued q)))
        (λ q. tt)

  push_found-AddsNone :
      (c : CellLocator) (s : System A) (o : Option (List A))
      → contains c s.searching ≡ true
      → AddsNone s (push_found max_ppl concurrency find c s o)
  unfolding push_found
  push_found-AddsNone c s none q = tt
  push_found-AddsNone c s (some ps) q =
      if_elim (AddsNone s) (contains c s.pending_cells)
        (λ p k. omega (arith, sum_of-erase (λ x. one_if (locator_eq k x)) c s.searching q))
        (λ p. tt)

  pub finish_search-AddsNone :
      (c : CellLocator) (s : System A) → AddsNone s (finish_search max_ppl concurrency find c s)
  unfolding finish_search
  finish_search-AddsNone c s =
      if_elim (AddsNone s) (contains c s.searching) (λ q. push_found-AddsNone c s (find c) q)
        (λ q. tt)
