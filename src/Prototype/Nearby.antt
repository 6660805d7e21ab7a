-- ===== src/Prototype/Nearby.antt =====
-- GetNearbyCells: the loops over the cells round the user's, with the tests as parameters.
use ppl_me.Common.{ℕ, zero, suc, Bool, true, false, Option, some, none, List, [], ◌∷◌, ◌++◌, ◌>>=◌}
use ppl_me.Prototype.Grid.{CellLocator, tick_north, tick_south, tick_east, tick_west}

module _ (too_far : CellLocator → Bool) (tick : CellLocator → CellLocator) where
  -- for (cell = tick(start); !too_far(cell); cell = tick(cell)); `none` is fuel that ran out.
  unfoldable pub ticks : ℕ → CellLocator → Option (List CellLocator)
  ticks zero cell = none
  ticks (suc fuel) cell = elim (too_far (tick cell)) [
    | true ↦ some []
    | false ↦ do rest ← ticks fuel (tick cell); some (tick cell ∷ rest)
  ]

module _ (res : ℕ) (too_far_north too_far_south too_far_east too_far_west : CellLocator → Bool)
    (fuel : ℕ) where
  -- What GetNearbyCellsSameLatitude pushes.
  unfoldable pub get_nearby_cells_same_latitude : CellLocator → Option (List CellLocator)
  unfolding ticks tick_east tick_west
  get_nearby_cells_same_latitude current = do
    east ← ticks too_far_east (tick_east res) fuel current
    west ← ticks too_far_west (tick_west res) fuel current
    some (east ++ west)

  -- The loop to the North pushes each cell and its row.
  unfoldable pub north_rows : List CellLocator → Option (List CellLocator)
  unfolding get_nearby_cells_same_latitude
  north_rows [] = some []
  north_rows (c ∷ cs) = do
    row ← get_nearby_cells_same_latitude c
    rest ← north_rows cs
    some (c ∷ (row ++ rest))

  -- The loop to the South pushes the rows alone.
  unfoldable pub south_rows : List CellLocator → Option (List CellLocator)
  unfolding get_nearby_cells_same_latitude
  south_rows [] = some []
  south_rows (c ∷ cs) = do
    row ← get_nearby_cells_same_latitude c
    rest ← south_rows cs
    some (row ++ rest)

  unfoldable pub get_nearby_cells : CellLocator → Option (List CellLocator)
  unfolding north_rows south_rows tick_north tick_south
  get_nearby_cells bullseye = do
    row ← get_nearby_cells_same_latitude bullseye
    northern ← ticks too_far_north tick_north fuel bullseye
    north ← north_rows northern
    southern ← ticks too_far_south tick_south fuel bullseye
    south ← south_rows southern
    some (row ++ (north ++ south))
