-- ===== src/Pplme/Find/Kept.antt =====
-- Every step of a find keeps its invariant: those of the workers, and all of them together.
use ppl_me.Common.{
  ℕ, ◌≤◌, ◌≡◌, refl, ap, sym, subst, ◌∙◌, true, false, List, ◌∷◌, ◌++◌, All, arith, one_if, inl,
  inr, Option, some, length-append, count-append,
}
use ppl_me.Pplme.Grid.{CellLocator, locator_eq}
use ppl_me.Pplme.Find.{
  System, Main, walking, stopping, rendezvous, returned, Event, main_step, main_wakes, start,
  finish, contains, erase, start_search, push_found, finish_search, step, begin, Reach, begins,
  goes,
}
use ppl_me.Pplme.Find.Sets.{
  occurs, contains-occurs, occurs-contains, sum_of-erase, length-erase, All-erase, All-contains,
}
use ppl_me.Pplme.Find.Invariant.{
  Keeps-if, main_runs-Keeps, wake_main-Keeps, begin-Inv, Inv, Keeps, Phase, Finds, weight,
}

module _ {A : Type 0} (max_ppl concurrency : ℕ) (find : CellLocator → Option (List A))
    (found : CellLocator → List A) (cells : List CellLocator) where
  -- A member of the worklettes is pending.
  pending_of_queued :
      (c : CellLocator) (s : System A)
      → Inv max_ppl concurrency find found cells s
      → contains c s.queued ≡ true
      → contains c s.pending_cells ≡ true
  pending_of_queued c s v h =
      occurs-contains c s.pending_cells (omega (arith, contains-occurs c s.queued h, v.tracked c))

  pending_of_searching :
      (c : CellLocator) (s : System A)
      → Inv max_ppl concurrency find found cells s
      → contains c s.searching ≡ true
      → contains c s.pending_cells ≡ true
  pending_of_searching c s v h =
      occurs-contains c s.pending_cells
        (omega (arith, contains-occurs c s.searching h, v.tracked c))

  -- Returned states have nothing pending, and so no worklette to run.
  Phase-of_pending :
      (c : CellLocator) (m : Main A) (s t : System A)
      → contains c s.pending_cells ≡ true
      → s.todo ≡ t.todo
      → s.we_done_here ≡ t.we_done_here
      → Phase max_ppl concurrency find found cells m s
      → Phase max_ppl concurrency find found cells m t
  Phase-of_pending c walking s t h e f p = tt
  Phase-of_pending c stopping s t h e f p = sym f ∙ p
  Phase-of_pending c rendezvous s t h e f (inl p) = inl (sym e ∙ p)
  Phase-of_pending c rendezvous s t h e f (inr p) = inr (sym f ∙ p)
  Phase-of_pending c (returned r) s t h e f p =
      absurd (ground (arith, contains-occurs c s.pending_cells h, ap (occurs c) p.0))

  -- A worklette that finds the search done is dropped.
  dropped :
      (c : CellLocator) (s : System A)
      → Inv max_ppl concurrency find found cells s
      → contains c s.queued ≡ true
      → s.we_done_here ≡ true
      → contains c s.pending_cells ≡ true
      → Inv max_ppl concurrency find found cells (record s {
        pending_cells = erase c s.pending_cells;
        queued = erase c s.queued;
        asleep = false;
      })
  dropped c s v q d p = record {
    distinct = λ k.
        omega
          (arith, v.distinct k, sum_of-erase (λ x. one_if (locator_eq k x)) c s.pending_cells p);
    tracked = λ k. omega (
      arith,
      v.tracked k,
      sum_of-erase (λ x. one_if (locator_eq k x)) c s.pending_cells p,
      sum_of-erase (λ x. one_if (locator_eq k x)) c s.queued q,
    );
    find_todo = v.find_todo;
    find_queued = All-erase (Finds max_ppl concurrency find found cells) c s.queued v.find_queued;
    find_searching = v.find_searching;
    none_made = λ t. omega (
      arith,
      v.none_made t,
      sum_of-erase (weight max_ppl concurrency find found cells t) c s.pending_cells p,
    );
    none_lost = λ t e. absurd (cc);
    full = v.full;
    few = omega (arith, v.few, length-erase c s.pending_cells);
    wakeful = λ e. cc;
    phase = Phase-of_pending c s.main s _ p refl refl v.phase;
  }

  began :
      (c : CellLocator) (s : System A)
      → Inv max_ppl concurrency find found cells s
      → contains c s.queued ≡ true
      → Inv max_ppl concurrency find found cells
          (record s { queued = erase c s.queued; searching = c ∷ s.searching })
  began c s v q = record {
    distinct = v.distinct;
    tracked =
        λ k. omega (arith, v.tracked k, sum_of-erase (λ x. one_if (locator_eq k x)) c s.queued q);
    find_todo = v.find_todo;
    find_queued = All-erase (Finds max_ppl concurrency find found cells) c s.queued v.find_queued;
    find_searching = (
      All-contains (Finds max_ppl concurrency find found cells) c s.queued v.find_queued q,
      v.find_searching,
    );
    none_made = v.none_made;
    none_lost = v.none_lost;
    full = v.full;
    few = v.few;
    wakeful = v.wakeful;
    phase = Phase-of_pending c s.main s _ (pending_of_queued c s v q) refl refl v.phase;
  }

  -- A worklette adds what it found.
  added :
      (c : CellLocator) (s : System A)
      → Inv max_ppl concurrency find found cells s
      → contains c s.searching ≡ true
      → contains c s.pending_cells ≡ true
      → Inv max_ppl concurrency find found cells (record s {
        ppl = s.ppl ++ found c;
        pending_cells = erase c s.pending_cells;
        searching = erase c s.searching;
        asleep = false;
      })
  added c s v q p = record {
    distinct = λ k.
        omega
          (arith, v.distinct k, sum_of-erase (λ x. one_if (locator_eq k x)) c s.pending_cells p);
    tracked = λ k. omega (
      arith,
      v.tracked k,
      sum_of-erase (λ x. one_if (locator_eq k x)) c s.pending_cells p,
      sum_of-erase (λ x. one_if (locator_eq k x)) c s.searching q,
    );
    find_todo = v.find_todo;
    find_queued = v.find_queued;
    find_searching =
        All-erase (Finds max_ppl concurrency find found cells) c s.searching v.find_searching;
    none_made = λ t. omega (
      arith,
      v.none_made t,
      sum_of-erase (weight max_ppl concurrency find found cells t) c s.pending_cells p,
      count-append t s.ppl (found c),
    );
    none_lost = λ t e. omega (
      arith,
      v.none_lost t e,
      sum_of-erase (weight max_ppl concurrency find found cells t) c s.pending_cells p,
      count-append t s.ppl (found c),
    );
    full = λ e. omega (arith, v.full e, length-append s.ppl (found c));
    few = omega (arith, v.few, length-erase c s.pending_cells);
    wakeful = λ e. cc;
    phase = Phase-of_pending c s.main s _ p refl refl v.phase;
  }

  push_found-Keeps :
      (c : CellLocator) (s : System A) (o : Option (List A))
      → Inv max_ppl concurrency find found cells s
      → contains c s.searching ≡ true
      → o ≡ some (found c)
      → Keeps max_ppl concurrency find found cells (push_found max_ppl concurrency find c s o)
  unfolding push_found
  push_found-Keeps c s o v q e =
      subst
        (λ x.
          Keeps max_ppl concurrency find found cells (push_found max_ppl concurrency find c s x))
        (sym e)
        (Keeps-if max_ppl concurrency find found cells (contains c s.pending_cells) _ _
          (λ p. added c s v q p) (λ p. absurd (ground (arith, pending_of_searching c s v q))))

  start_search-Keeps :
      (c : CellLocator) (s : System A)
      → Inv max_ppl concurrency find found cells s
      → Keeps max_ppl concurrency find found cells (start_search max_ppl concurrency find c s)
  unfolding start_search
  start_search-Keeps c s v =
      Keeps-if max_ppl concurrency find found cells (contains c s.queued) _ _
        (λ q.
          Keeps-if max_ppl concurrency find found cells s.we_done_here _ _
            (λ d.
              Keeps-if max_ppl concurrency find found cells (contains c s.pending_cells) _ _
                (λ p. dropped c s v q d p)
                (λ p. absurd (ground (arith, pending_of_queued c s v q))))
            (λ d. began c s v q))
        (λ q. tt)

  finish_search-Keeps :
      (c : CellLocator) (s : System A)
      → Inv max_ppl concurrency find found cells s
      → Keeps max_ppl concurrency find found cells (finish_search max_ppl concurrency find c s)
  unfolding finish_search push_found
  finish_search-Keeps c s v =
      Keeps-if max_ppl concurrency find found cells (contains c s.searching) _ _
        (λ q. push_found-Keeps c s (find c) v q (
          All-contains (Finds max_ppl concurrency find found cells) c s.searching v.find_searching
            q))
        (λ q. tt)

  -- From a state in which the invariant of a find holds, no step of the caller or of a worker
  -- fails a CHECK or throws, and a step that is possible leads to a state in which the
  -- invariant holds.
  pub step-Keeps :
      (e : Event) (s : System A)
      → Inv max_ppl concurrency find found cells s
      → Keeps max_ppl concurrency find found cells (step max_ppl concurrency find e s)
  unfolding step
  step-Keeps main_step s v = main_runs-Keeps max_ppl concurrency find found cells s v
  step-Keeps main_wakes s v = wake_main-Keeps max_ppl concurrency find found cells s v
  step-Keeps (start c) s v = start_search-Keeps c s v
  step-Keeps (finish c) s v = finish_search-Keeps c s v

  pub Reach-Inv :
      ((c : CellLocator) → occurs c cells ≤ 1)
      → All (Finds max_ppl concurrency find found cells) cells
      → {s : System A} → Reach max_ppl concurrency find (begin max_ppl concurrency find cells) s
      → Inv max_ppl concurrency find found cells s
  Reach-Inv once finds begins = begin-Inv max_ppl concurrency find found cells once finds
  Reach-Inv once finds (goes {s} e r st) =
      subst (Keeps max_ppl concurrency find found cells) st
        (step-Keeps e s (Reach-Inv once finds r))
