-- ===== src/Pplme/Find.antt =====
-- FindMatchingPpl, TryFindPpl and TryFindPplAsync: the caller's thread walks over the cells and
-- queues a worklette for each, and the workers search. The steps between two waits or lock blocks
-- are atomic; which thread goes next is an `Event` chosen from outside. `todo` is what is left of
-- the walk of `Sqiral`, as a list of cells. The caller alone waits on the condvar: it evaluates the
-- predicate of its wait and sleeps when that is false, until notify_all, or a spurious wake-up, makes
-- it evaluate the predicate again.
pub mod Sets
pub mod Invariant
pub mod Kept
pub mod Result
pub mod Work
pub mod Progress
use ppl_me.Common.{
  ℕ, suc, Bool, true, false, not, ◌&&◌, ◌||◌, Option, some, none, List, [], ◌∷◌, ◌++◌, length, take,
  ltb, leb, if◌then◌else◌, ◌≡◌,
}
use ppl_me.Pplme.Grid.{CellLocator, locator_eq}

-- Where the caller's thread is: in TryFindPpl for the next cell, in its second wait, in the wait
-- of FindMatchingPpl, or back with its result.
pub data Main (A : Type 0) : Type 0 where
  walking stopping rendezvous : Main A
  returned : List A → Main A

-- FindContext, with the worklettes that wait in the pool and those between their two lock blocks.
pub record System (A : Type 0) : Type 0 where
  pub todo : List CellLocator
  pub ppl : List A
  pub pending_cells : List CellLocator
  pub queued : List CellLocator
  pub searching : List CellLocator
  pub we_done_here : Bool
  pub asleep : Bool
  pub main : Main A

-- The caller goes on; it wakes up spuriously; a worker begins or ends the search of a cell.
pub data Event : Type 0 where
  main_step main_wakes : Event
  start finish : CellLocator → Event

-- The step is not possible now; it aborts the process; it leads to a new state.
pub data Outcome (A : Type 0) : Type 0 where
  blocked crashed : Outcome A
  moved : System A → Outcome A

-- The steps but for the spurious wake-ups.
abbrev pub is_unaided : Event → Bool
is_unaided main_step = true
is_unaided main_wakes = false
is_unaided (start c) = true
is_unaided (finish c) = true

-- std::set over locators, as a list without repetitions.
abbrev pub contains : CellLocator → List CellLocator → Bool
contains c [] = false
contains c (d ∷ ds) = locator_eq c d || contains c ds

abbrev pub erase : CellLocator → List CellLocator → List CellLocator
erase c [] = []
erase c (d ∷ ds) = if locator_eq c d then ds else d ∷ erase c ds

abbrev pub is_empty : {A : Type 0} → List A → Bool
is_empty [] = true
is_empty (x ∷ xs) = false

module _ {A : Type 0} (max_ppl concurrency : ℕ) (find : CellLocator → Option (List A)) where
  -- condvar.wait when its predicate is false
  unfoldable pub sleep : System A → Outcome A
  sleep s = moved (record s { asleep = true })

  -- condvar.notify_all()
  unfoldable pub notify_caller : System A → System A
  notify_caller s = record s { asleep = false }

  -- The predicate of the first wait in TryFindPpl.
  unfoldable pub may_go_on : System A → Bool
  may_go_on s =
      s.we_done_here || leb max_ppl (length s.ppl) || ltb (length s.pending_cells) concurrency

  -- CHECK(pending_cells.insert(cell).second), then QueueWorklette
  unfoldable pub queue_worklette : CellLocator → List CellLocator → System A → Outcome A
  queue_worklette c cs s =
      if contains c s.pending_cells
      then crashed
      else moved
          (record s { todo = cs; pending_cells = c ∷ s.pending_cells; queued = s.queued ++ c ∷ [] })

  -- TryFindPpl for cell `c`, with the cells `cs` after it.
  unfoldable pub try_find_ppl : CellLocator → List CellLocator → System A → Outcome A
  unfolding may_go_on queue_worklette sleep
  try_find_ppl c cs s =
      if may_go_on s
      then (if leb max_ppl (length s.ppl)
          then moved (record s { we_done_here = true; main = stopping })
          else if not s.we_done_here
          then queue_worklette c cs s
          else moved (record s { main = rendezvous }))
      else sleep s

  -- Sqiral's next call of its visitor, or its end.
  unfoldable pub walk_on : List CellLocator → System A → Outcome A
  unfolding try_find_ppl
  walk_on [] s = moved (record s { main = rendezvous })
  walk_on (c ∷ cs) s = try_find_ppl c cs s

  -- The caller: Sqiral, then the wait of FindMatchingPpl and its return.
  unfoldable pub main_goes : Main A → System A → Outcome A
  unfolding walk_on sleep
  main_goes walking s = walk_on s.todo s
  main_goes stopping s =
      if is_empty s.pending_cells then moved (record s { main = rendezvous }) else sleep s
  main_goes rendezvous s =
      if is_empty s.pending_cells
      then moved (record s {
        main = returned (if ltb max_ppl (length s.ppl) then take max_ppl s.ppl else s.ppl);
      })
      else sleep s
  main_goes (returned r) s = blocked

  -- The caller, unless it sleeps.
  unfoldable pub main_runs : System A → Outcome A
  unfolding main_goes
  main_runs s = if s.asleep then blocked else main_goes s.main s

  -- A spurious wake-up of the caller.
  unfoldable pub wake_main : System A → Outcome A
  wake_main s = if s.asleep then moved (record s { asleep = false }) else blocked

  -- CHECK(pending_cells.erase(cell) == 1), then notify_all
  unfoldable pub erase_pending : CellLocator → System A → Outcome A
  unfolding notify_caller
  erase_pending c s =
      if contains c s.pending_cells
      then moved (notify_caller (record s { pending_cells = erase c s.pending_cells }))
      else crashed

  -- The first lock block of TryFindPplAsync.
  unfoldable pub start_search : CellLocator → System A → Outcome A
  unfolding erase_pending
  start_search c s =
      if contains c s.queued
      then (if s.we_done_here
          then erase_pending c (record s { queued = erase c s.queued })
          else moved (record s { queued = erase c s.queued; searching = c ∷ s.searching }))
      else blocked

  -- The search, whose exceptions end the process, and the second lock block.
  unfoldable pub push_found : CellLocator → System A → Option (List A) → Outcome A
  unfolding erase_pending
  push_found c s none = crashed
  push_found c s (some my_ppl) =
      erase_pending c (record s { ppl = s.ppl ++ my_ppl; searching = erase c s.searching })

  unfoldable pub finish_search : CellLocator → System A → Outcome A
  unfolding push_found
  finish_search c s = if contains c s.searching then push_found c s (find c) else blocked

  unfoldable pub step : Event → System A → Outcome A
  unfolding main_runs wake_main start_search finish_search
  step main_step s = main_runs s
  step main_wakes s = wake_main s
  step (start c) s = start_search c s
  step (finish c) s = finish_search c s

  -- The context of FindMatchingPpl before its walk over `cells`.
  unfoldable pub begin : List CellLocator → System A
  begin cells = record {
    todo = cells;
    ppl = [];
    pending_cells = [];
    queued = [];
    searching = [];
    we_done_here = false;
    asleep = false;
    main = walking;
  }

  -- The states that a schedule can lead to.
  pub data Reach (from : System A) : System A → Type 0 where
    begins : Reach from from
    goes : {s t : System A} (e : Event) → Reach from s → step e s ≡ moved t → Reach from t

  -- The states that a schedule without spurious wake-ups can lead to.
  pub data Unaided (from : System A) : System A → Type 0 where
    stays : Unaided from from
    steps :
        {s t : System A} (e : Event)
        → Unaided from s
        → is_unaided e ≡ true
        → step e s ≡ moved t
        → Unaided from t

  -- A schedule, run until it crashes; events that are not possible are passed over.
  unfoldable pub run : List Event → System A → Outcome A
  unfolding step
  run [] s = moved s
  run (e ∷ es) s = elim (step e s) [ blocked ↦ run es s | crashed ↦ crashed | moved t ↦ run es t ]
