-- ===== src/Pplme/Provider.antt =====
-- PplmeMatchingPplProvider::Impl: its members, its constructor and AddPerson.
pub mod Invariant
use ppl_me.Common.{
  ℕ, ◌^◌, Bool, ◌&&◌, Option, some, none, List, [], ltb, leb, ◌==◌, if◌then◌else◌, check, ◌>>=◌,
  ◌>>◌,
}
use ppl_me.Common.Int.{ℤ, pos, pos_part, leb_ℤ, ltb_ℤ}
use ppl_me.Core.{Person}
use ppl_me.Core.Outside.{FloatOps, DateOps}
use ppl_me.Pplme.Grid.{CellLocator, calculate_size_for_ppl_grid, get_ppl_index_at, get_ppl_index}
use ppl_me.Pplme.Cells.{PplCell, insert_person, find_in_cell}

-- The vector `ppl_` is its size and its cells; an index out of range is undefined behaviour.
pub record Impl (U D F : Type 0) : Type 0 where
  pub resolution : ℕ
  pub max_age_difference : ℤ
  pub max_ppl : ℕ
  pub per_find_concurrency : ℕ
  pub grid_size : ℕ
  pub ppl : ℕ → PplCell U D F

-- The concurrency of each find; CHECK(!per_find_concurrency || per_find_concurrency > 0)
unfoldable pub chosen_concurrency : ℕ → Option ℤ → Option ℕ
chosen_concurrency hardware_concurrency none = some hardware_concurrency
chosen_concurrency hardware_concurrency (some n) = do check (ltb_ℤ (pos 0) n); some (pos_part n)

-- std::thread: hardware_concurrency(), and whether a new pool can start each of its threads.
pub record ThreadOps : Type 0 where
  pub hardware_concurrency : ℕ
  pub pool_starts : Bool

-- Impl::Impl. `none` is a CHECK that fails, or the exception of numeric_cast or of a thread of the
-- pool.
unfoldable pub create :
    {U D F : Type 0}
    → (hardware : ThreadOps) (resolution : ℕ) (max_age_difference max_ppl : ℤ) (per_find : Option ℤ)
    → Option (Impl U D F)
unfolding chosen_concurrency calculate_size_for_ppl_grid
create hardware resolution max_age_difference max_ppl per_find = do
  check (leb_ℤ (pos 0) max_ppl)
  grid_size ← calculate_size_for_ppl_grid resolution
  check (leb_ℤ (pos 0) max_age_difference)
  check (ltb 0 (pos_part max_ppl))
  concurrency ← chosen_concurrency hardware.hardware_concurrency per_find
  check hardware.pool_starts
  some (record {
    resolution = resolution;
    max_age_difference = max_age_difference;
    max_ppl = pos_part max_ppl;
    per_find_concurrency = concurrency;
    grid_size = grid_size;
    ppl = λ i. [];
  })

module _ {U D F : Type 0} (fl : FloatOps F) (dt : DateOps D) where
  -- ppl_[i] for writing
  unfoldable pub update_cell : (ℕ → PplCell U D F) → ℕ → PplCell U D F → ℕ → PplCell U D F
  update_cell cells i cell j = if j == i then cell else cells j

  unfoldable pub add_person : Impl U D F → Person U D F → Option (Impl U D F)
  unfolding update_cell insert_person
  add_person m person = do
    i ← get_ppl_index_at fl m.resolution person.location_of_home
    check (ltb i m.grid_size)
    some (record m { ppl = update_cell m.ppl i (insert_person dt (m.ppl i) person) })

  -- ppl_[GetPplIndex(cell)] for reading
  unfoldable pub cell_of : Impl U D F → CellLocator → Option (PplCell U D F)
  unfolding get_ppl_index
  cell_of m c = do
    check (ltb (get_ppl_index m.resolution c) m.grid_size)
    some (m.ppl (get_ppl_index m.resolution c))

  -- FindMatchingPpl in the cell at a locator.
  unfoldable pub find_at : Impl U D F → (today : D) → ℤ → CellLocator → Option (List (Person U D F))
  unfolding cell_of find_in_cell
  find_at m today age_of_user c = do
    cell ← cell_of m c
    find_in_cell dt today m.max_age_difference age_of_user cell
