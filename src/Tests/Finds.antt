-- ===== src/Tests/Finds.antt =====
-- Examples about a find: its threads, and the whole of FindMatchingPpl.
use ppl_me.Common.{
  ℕ, ◌≤◌, ◌≡◌, refl, false, Option, some, List, [], ◌∷◌, All, arith, ◌==◌, ◌&&◌, if◌then◌else◌,
}
use ppl_me.Common.Int.{ℤ, pos}
use ppl_me.Pplme.Grid.{CellLocator}
use ppl_me.Pplme.Sqiral.Places.{place}
use ppl_me.Pplme.Provider.{Impl, add_person}
use ppl_me.Pplme.Provider.Invariant.{add_person_total}
use ppl_me.Pplme.Find.{
  System, walking, returned, main_step, Reach, Unaided, stays, begins, begin, step,
}
use ppl_me.Pplme.Find.Sets.{occurs}
use ppl_me.Pplme.Find.Invariant.{Finds, Inv, Keeps}
use ppl_me.Pplme.Find.Kept.{step-Keeps, Reach-Inv}
use ppl_me.Pplme.Find.Result.{IsAnswer, Reach-IsAnswer}
use ppl_me.Pplme.Find.Progress.{find_returns, Unaided-Reach}
use ppl_me.Pplme.Matching.{find_matching_ppl}
use ppl_me.Pplme.Matching.Answer.{
  matching, IsMatch, find_matching_ppl-IsMatch, find_matching_ppl_returns,
}
use ppl_me.Pplme.Matching.Holding.{Holds, create-add_all-Holds}
use ppl_me.Tests.Platform.{dates, dates_laws, Uuid, floats, floats_laws}
use ppl_me.Tests.OnePerson.{
  all_start, Someone, nobody_yet, created, nobody_yet-IsValid, trillian, home_is_valid, one_person,
  all_added, one_person-Holds, wanted, today, earliest, latest, ages_fit, user_is_valid,
  search_here,
}

-- Three cells, with two, one and no persons.
abbrev pub cells : List CellLocator
cells = place 1 5 5 ∷ place 1 6 5 ∷ place 1 5 6 ∷ []

abbrev pub found : CellLocator → List ℕ
found c = if c.latitude_index == 5 && c.longitude_index == 5 then 1 ∷ 2 ∷ [] else []

abbrev pub find : CellLocator → Option (List ℕ)
find c = some (found c)

abbrev fresh : System ℕ
fresh = record {
  todo = cells;
  ppl = [];
  pending_cells = [];
  queued = [];
  searching = [];
  we_done_here = false;
  asleep = false;
  main = walking;
}

pub cells_once : (c : CellLocator) → occurs c cells ≤ 1
cells_once c = ground arith

pub finds : All (Finds 1 2 find found cells) cells
finds = (refl, (refl, (refl, tt)))

fresh-eq : begin 1 2 find cells ≡ fresh
unfolding begin
fresh-eq = refl

start-Inv : Inv 1 2 find found cells (begin 1 2 find cells)
start-Inv = Reach-Inv 1 2 find found cells cells_once finds begins

step-Keeps_example : Keeps 1 2 find found cells (step 1 2 find main_step (begin 1 2 find cells))
step-Keeps_example = step-Keeps 1 2 find found cells main_step (begin 1 2 find cells) start-Inv

-- A run of the find to its end.
finished :
    (t : System ℕ) × (r : List ℕ) × Unaided 1 2 find (begin 1 2 find cells) t
    × (t.main ≡ returned r)
unfolding begin
finished =
    find_returns 1 2 find found cells (omega arith) 26 (begin 1 2 find cells) (begin 1 2 find cells)
      (omega arith) cells_once finds begins stays

Reach-IsAnswer_example : IsAnswer 1 2 find found cells finished.1
Reach-IsAnswer_example =
    Reach-IsAnswer 1 2 find found cells cells_once finds finished.0 finished.1
      (Unaided-Reach 1 2 find found cells (omega arith) begins finished.2) finished.3

-- The first cell is queued.
abbrev queued_one : System ℕ
queued_one = record fresh {
  todo = place 1 6 5 ∷ place 1 5 6 ∷ [];
  pending_cells = place 1 5 5 ∷ [];
  queued = place 1 5 5 ∷ [];
}

add_person_total_example :
    (m : Impl Uuid ℕ ℤ) × (add_person floats dates nobody_yet trillian ≡ some m)
add_person_total_example =
    add_person_total floats dates dates_laws floats_laws nobody_yet trillian nobody_yet-IsValid
      home_is_valid

create-add_all-Holds_example : Holds floats dates floats_laws dates_laws one_person (trillian ∷ [])
create-add_all-Holds_example =
    create-add_all-Holds floats dates floats_laws dates_laws (all_start 8) 1 (pos 10) (pos 2)
      (some (pos 3)) nobody_yet one_person (trillian ∷ []) (omega arith) created (home_is_valid, tt)
      all_added

-- A run of FindMatchingPpl to its end.
matched :
    (begun : System Someone) × (find_matching_ppl floats dates one_person today wanted ≡ some begun)
    × ((s : System Someone)
        → Reach 2 3 search_here begun s
        → (t : System Someone) × (r : List Someone) × Unaided 2 3 search_here s t
          × (t.main ≡ returned r))
matched =
    find_matching_ppl_returns floats dates floats_laws dates_laws one_person (trillian ∷ [])
      one_person-Holds today wanted earliest latest ages_fit user_is_valid (omega arith)

last_state :
    (t : System Someone) × (r : List Someone) × Unaided 2 3 search_here matched.0 t
    × (t.main ≡ returned r)
last_state = matched.2 matched.0 begins

reached : Reach 2 3 search_here matched.0 last_state.0
reached = Unaided-Reach 2 3 search_here (λ c. []) [] (omega arith) begins last_state.2

find_matching_ppl-IsMatch_example :
    IsMatch floats dates floats_laws dates_laws 2
      (matching floats dates floats_laws dates_laws earliest latest (trillian ∷ []))
      last_state.1
find_matching_ppl-IsMatch_example =
    find_matching_ppl-IsMatch floats dates floats_laws dates_laws one_person (trillian ∷ [])
      one_person-Holds today wanted earliest latest ages_fit user_is_valid matched.0 last_state.0
      last_state.1 matched.1 reached last_state.3
