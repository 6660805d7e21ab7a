-- ===== src/Pplme/Find/Invariant.antt =====
-- What holds in every state of a find, whatever the schedule, and that the caller keeps it.
use ppl_me.Common.{
  ℕ, ◌+◌, ◌≤◌, ◌<◌, ◌≡◌, refl, ap, sym, subst, ◌∙◌, Bool, true, false, not, List, [], ◌∷◌, All,
  arith, one_if, count, sum_of, Bool-cases, inl, inr, ◌⊎◌, min, if◌then◌else◌, Option, some, length,
  take, ltb, leb, sum_of-append, All-append,
}
use ppl_me.Pplme.Grid.{CellLocator, locator_eq}
use ppl_me.Pplme.Find.{
  System, Main, walking, stopping, rendezvous, returned, Outcome, blocked, crashed, moved, contains,
  is_empty, may_go_on, queue_worklette, try_find_ppl, walk_on, main_goes, begin, sleep, main_runs,
  wake_main,
}
use ppl_me.Pplme.Find.Sets.{occurs, contains-occurs, locator_eq_self}

module _ {A : Type 0} (max_ppl concurrency : ℕ) (find : CellLocator → Option (List A))
    (found : CellLocator → List A) (cells : List CellLocator) where
  -- The search of a cell succeeds.
  abbrev pub Finds : CellLocator → Type 0
  Finds c = find c ≡ some (found c)

  -- How many persons of a cell pass a test.
  abbrev pub weight : (A → Bool) → CellLocator → ℕ
  weight t c = count t (found c)

  abbrev pub resized : List A → List A
  resized ppl = if ltb max_ppl (length ppl) then take max_ppl ppl else ppl

  -- The walk is over: at its end, or because enough has been found.
  abbrev pub IsOver : System A → Type 0
  IsOver s = (s.todo ≡ []) ⊎ (s.we_done_here ≡ true)

  abbrev pub Phase : Main A → System A → Type 0
  Phase walking s = Unit {0}
  Phase stopping s = s.we_done_here ≡ true
  Phase rendezvous s = IsOver s
  Phase (returned r) s = (s.pending_cells ≡ []) × IsOver s × (r ≡ resized s.ppl)

  pub record Inv (s : System A) : Type 0 where
    pub distinct : (c : CellLocator) → occurs c s.pending_cells + occurs c s.todo ≤ 1
    pub tracked :
        (c : CellLocator) → occurs c s.pending_cells ≡ occurs c s.queued + occurs c s.searching
    pub find_todo : All Finds s.todo
    pub find_queued : All Finds s.queued
    pub find_searching : All Finds s.searching
    pub none_made :
        (t : A → Bool)
        → count t s.ppl + sum_of (weight t) s.pending_cells + sum_of (weight t) s.todo
          ≤ sum_of (weight t) cells
    pub none_lost :
        (t : A → Bool)
        → s.we_done_here ≡ false
        → count t s.ppl + sum_of (weight t) s.pending_cells + sum_of (weight t) s.todo
          ≡ sum_of (weight t) cells
    pub full : s.we_done_here ≡ true → max_ppl ≤ length s.ppl
    pub few : length s.pending_cells ≤ concurrency
    pub wakeful : s.asleep ≡ true → min 1 concurrency ≤ length s.pending_cells
    pub phase : Phase s.main s

  Phase-walking : (m : Main A) (s : System A) → m ≡ walking → Phase m s
  Phase-walking m s e = subst (λ k. Phase k s) (sym e) tt

  -- A phase is about some members only.
  pub Phase-same :
      (m : Main A) (s t : System A)
      → s.todo ≡ t.todo
      → s.we_done_here ≡ t.we_done_here
      → s.pending_cells ≡ t.pending_cells
      → s.ppl ≡ t.ppl
      → Phase m s
      → Phase m t
  Phase-same walking s t e f g h p = tt
  Phase-same stopping s t e f g h p = sym f ∙ p
  Phase-same rendezvous s t e f g h (inl p) = inl (sym e ∙ p)
  Phase-same rendezvous s t e f g h (inr p) = inr (sym f ∙ p)
  Phase-same (returned r) s t e f g h (p, inl q, i) = (sym g ∙ p, inl (sym e ∙ q), i ∙ ap resized h)
  Phase-same (returned r) s t e f g h (p, inr q, i) = (sym g ∙ p, inr (sym f ∙ q), i ∙ ap resized h)

  -- No crash, and the invariant afterwards.
  abbrev pub Keeps : Outcome A → Type 0
  Keeps blocked = Unit {0}
  Keeps crashed = ⊥
  Keeps (moved t) = Inv t

  pub Keeps-if :
      (b : Bool) (x y : Outcome A)
      → (b ≡ true → Keeps x)
      → (b ≡ false → Keeps y)
      → Keeps (if b then x else y)
  Keeps-if true x y f g = f refl
  Keeps-if false x y f g = g refl

  pub begin-Inv :
      ((c : CellLocator) → occurs c cells ≤ 1)
      → All Finds cells
      → Inv (begin max_ppl concurrency find cells)
  unfolding begin
  begin-Inv once finds = record {
    distinct = λ c. omega (arith, once c);
    tracked = λ c. refl;
    find_todo = finds;
    find_queued = tt;
    find_searching = tt;
    none_made = λ t. omega arith;
    none_lost = λ t h. omega arith;
    full = λ h. cc;
    few = omega arith;
    wakeful = λ h. cc;
    phase = tt;
  }

  queue_worklette-Keeps :
      (c : CellLocator) (cs : List CellLocator) (s : System A)
      → Inv s
      → s.todo ≡ c ∷ cs
      → s.main ≡ walking
      → s.we_done_here ≡ false
      → length s.pending_cells < concurrency
      → Keeps (queue_worklette max_ppl concurrency find c cs s)
  unfolding queue_worklette
  queue_worklette-Keeps c cs s v e w d room = elim (Bool-cases (contains c s.pending_cells)) [
    | inl h ↦ absurd (
        ground (
          arith,
          contains-occurs c s.pending_cells h,
          v.distinct c,
          ap (occurs c) e,
          locator_eq_self c,
        ))
    | inr h ↦ rw h (record {
      distinct = λ k. omega (arith, v.distinct k, ap (occurs k) e);
      tracked = λ k.
          omega
            (arith, v.tracked k, sum_of-append (λ d. one_if (locator_eq k d)) s.queued (c ∷ []));
      find_todo = (subst (All Finds) e v.find_todo).1;
      find_queued =
          All-append Finds s.queued (c ∷ []) v.find_queued
            ((subst (All Finds) e v.find_todo).0, tt);
      find_searching = v.find_searching;
      none_made = λ t. omega (arith, v.none_made t, ap (sum_of (weight t)) e);
      none_lost = λ t h. omega (arith, v.none_lost t h, ap (sum_of (weight t)) e);
      full = v.full;
      few = room;
      wakeful = λ h. omega arith;
      phase = Phase-walking s.main _ w;
    })
  ]

  -- A step that leaves the lists alone.
  same_lists :
      (s : System A) (done : Bool) (m : Main A)
      → Inv s
      → (done ≡ false → s.we_done_here ≡ false)
      → (done ≡ true → max_ppl ≤ length s.ppl)
      → Phase m (record s { we_done_here = done; main = m })
      → Inv (record s { we_done_here = done; main = m })
  same_lists s done m v h k p = record {
    distinct = v.distinct;
    tracked = v.tracked;
    find_todo = v.find_todo;
    find_queued = v.find_queued;
    find_searching = v.find_searching;
    none_made = v.none_made;
    none_lost = λ t e. v.none_lost t (h e);
    full = k;
    few = v.few;
    wakeful = v.wakeful;
    phase = p;
  }

  asleep-Keeps :
      (s : System A)
      → Inv s
      → min 1 concurrency ≤ length s.pending_cells
      → Keeps (sleep max_ppl concurrency find s)
  unfolding sleep
  asleep-Keeps s v h = record {
    distinct = v.distinct;
    tracked = v.tracked;
    find_todo = v.find_todo;
    find_queued = v.find_queued;
    find_searching = v.find_searching;
    none_made = v.none_made;
    none_lost = v.none_lost;
    full = v.full;
    few = v.few;
    wakeful = λ e. h;
    phase = Phase-same s.main s _ refl refl refl refl v.phase;
  }

  try_find_ppl-Keeps :
      (c : CellLocator) (cs : List CellLocator) (s : System A)
      → Inv s
      → s.todo ≡ c ∷ cs
      → s.main ≡ walking
      → Keeps (try_find_ppl max_ppl concurrency find c cs s)
  unfolding try_find_ppl may_go_on queue_worklette
  try_find_ppl-Keeps c cs s v e w =
      Keeps-if (may_go_on max_ppl concurrency find s) _ _
        (λ go.
          Keeps-if (leb max_ppl (length s.ppl)) _ _
            (λ h. same_lists s true stopping v (λ x. cc) (λ x. ground arith) refl)
            (λ h.
              Keeps-if (not s.we_done_here) _ _
                (λ d. queue_worklette-Keeps c cs s v e w (ground arith) (ground arith))
                (λ d. absurd (ground (arith, v.full (ground arith))))))
        (λ stay. asleep-Keeps s v (ground arith))

  walk_on-Keeps :
      (todo : List CellLocator) (s : System A)
      → Inv s
      → s.todo ≡ todo
      → s.main ≡ walking
      → Keeps (walk_on max_ppl concurrency find todo s)
  unfolding walk_on
  walk_on-Keeps [] s v e w = same_lists s s.we_done_here rendezvous v (λ x. x) v.full (inl e)
  walk_on-Keeps (c ∷ cs) s v e w = try_find_ppl-Keeps c cs s v e w

  empty_of : (xs : List CellLocator) → is_empty xs ≡ true → xs ≡ []
  empty_of [] h = refl
  empty_of (x ∷ xs) h = cc

  full_of : (xs : List CellLocator) → is_empty xs ≡ false → 1 ≤ length xs
  full_of [] h = absurd (ground arith)
  full_of (x ∷ xs) h = omega arith

  wait-Keeps :
      (s : System A)
      → Inv s
      → is_empty s.pending_cells ≡ false
      → Keeps (sleep max_ppl concurrency find s)
  wait-Keeps s v e = asleep-Keeps s v (omega (arith, full_of s.pending_cells e))

  main_goes-Keeps :
      (m : Main A) (s : System A)
      → Inv s
      → s.main ≡ m
      → Keeps (main_goes max_ppl concurrency find m s)
  unfolding main_goes
  main_goes-Keeps walking s v w = walk_on-Keeps s.todo s v refl w
  main_goes-Keeps stopping s v w =
      Keeps-if (is_empty s.pending_cells) _ _
        (λ e.
          same_lists s s.we_done_here rendezvous v (λ x. x) v.full
            (inr (subst (λ m. Phase m s) w v.phase)))
        (λ e. wait-Keeps s v e)
  main_goes-Keeps rendezvous s v w =
      Keeps-if (is_empty s.pending_cells) _ _
        (λ e.
          same_lists s s.we_done_here (returned (resized s.ppl)) v (λ x. x) v.full
            (empty_of s.pending_cells e, subst (λ m. Phase m s) w v.phase, refl))
        (λ e. wait-Keeps s v e)
  main_goes-Keeps (returned r) s v w = tt

  pub main_runs-Keeps : (s : System A) → Inv s → Keeps (main_runs max_ppl concurrency find s)
  unfolding main_runs
  main_runs-Keeps s v = Keeps-if s.asleep _ _ (λ e. tt) (λ e. main_goes-Keeps s.main s v refl)

  awake-Inv : (s : System A) → Inv s → Inv (record s { asleep = false })
  awake-Inv s v = record {
    distinct = v.distinct;
    tracked = v.tracked;
    find_todo = v.find_todo;
    find_queued = v.find_queued;
    find_searching = v.find_searching;
    none_made = v.none_made;
    none_lost = v.none_lost;
    full = v.full;
    few = v.few;
    wakeful = λ e. cc;
    phase = Phase-same s.main s _ refl refl refl refl v.phase;
  }

  pub wake_main-Keeps : (s : System A) → Inv s → Keeps (wake_main max_ppl concurrency find s)
  unfolding wake_main
  wake_main-Keeps s v = Keeps-if s.asleep _ _ (λ e. awake-Inv s v) (λ e. tt)
