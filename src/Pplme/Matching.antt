-- ===== src/Pplme/Matching.antt =====
-- FindMatchingPpl of PplmeMatchingPplProvider from end to end: the persons that were added, the
-- walk over the grid, the search of each cell and the threads together.
pub mod People
pub mod Holding
pub mod Answer
pub mod Walk
pub mod Bags
use ppl_me.Common.{Bool, false, ◌++◌, ℕ, Option, some, List, [], ◌∷◌, ◌>>=◌}
use ppl_me.Core.{Person, PplMatchingParameters}
use ppl_me.Core.Outside.{FloatOps, DateOps}
use ppl_me.Pplme.Grid.{CellLocator, to_cell_locator}
use ppl_me.Pplme.Sqiral.{sqiral}
use ppl_me.Pplme.Provider.{Impl, add_person, find_at}
use ppl_me.Pplme.Find.{System, begin}

-- A visitor that notes the cells and never stops the walk; and what it has noted at the end of
-- Sqiral.
abbrev pub note : CellLocator → List CellLocator → Bool × List CellLocator
note c cells = (false, cells ++ c ∷ [])

unfoldable pub walk_from : ℕ → CellLocator → Option (List CellLocator)
walk_from res origin = do walk ← sqiral note res origin []; some walk.context

module _ {U D F : Type 0} (fl : FloatOps F) (dt : DateOps D) where
  -- AddPerson for each person in turn, as PplSlurper and PopulateTestDb do.
  unfoldable pub add_all : Impl U D F → List (Person U D F) → Option (Impl U D F)
  add_all m [] = some m
  add_all m (p ∷ ps) = add_person fl dt m p >>= λ m'. add_all m' ps

  -- FindMatchingPpl up to its first wait: the context, and the walk from the user's cell, whose
  -- visitor is TryFindPpl: what it makes of each cell is in the steps of the find.
  unfoldable pub find_matching_ppl :
      Impl U D F → (today : D) → PplMatchingParameters F → Option (System (Person U D F))
  find_matching_ppl m today parameters = do
    origin ← to_cell_locator fl m.resolution parameters.location_of_user
    cells ← walk_from m.resolution origin
    some (
        begin m.max_ppl m.per_find_concurrency (find_at fl dt m today parameters.age_of_user) cells)
