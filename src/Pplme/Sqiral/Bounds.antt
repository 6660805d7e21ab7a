-- ===== src/Pplme/Sqiral/Bounds.antt =====
-- Every cell that the walk of `Sqiral` visits lies on the grid.
use ppl_me.Common.{ℕ, ◌*◌, ◌<◌, ◌≤◌, ◌≡◌, true, List, [], ◌∷◌, All, arith, Bool-cases, inl, inr}
use ppl_me.Common.Int.{ℤ, pos, negsuc, pos_part, ◌+ℤ◌, ◌≤ℤ◌, neg_ℤ}
use ppl_me.Pplme.Grid.{CellLocator}
use ppl_me.Pplme.Sqiral.{Offset, cell_at}
use ppl_me.Pplme.Sqiral.Offsets.{is_on_grid, cells_at}
use ppl_me.Pplme.Sqiral.Ends.{sqiral_offsets, sqiral_cells}
use ppl_me.Pplme.Sqiral.Cover.{wrapped}
use ppl_me.Pplme.Sqiral.Visits.{Within, is_on_grid→Within, column-eq}

abbrev pub IsInGrid : ℕ → CellLocator → Type 0
IsInGrid res c = (c.latitude_index ≤ 181 * res) × (c.longitude_index < 361 * res)

wrapped-lt :
    (res b : ℕ) (j : ℤ)
    → 1 ≤ res
    → b ≤ 360 * res
    → neg_ℤ (pos (180 * res)) ≤ℤ j
    → j ≤ℤ pos (180 * res)
    → wrapped res (pos b +ℤ j) < 361 * res
unfolding wrapped
wrapped-lt res b (pos n) p h lo hi = ground arith
wrapped-lt res b (negsuc n) p h lo hi = ground arith

row_of : {n : ℕ} (i : ℤ) → pos 0 ≤ℤ i → i ≤ℤ pos n → pos_part i ≤ n
row_of (pos i) h k = omega arith
row_of (negsuc i) h k = absurd (omega arith)

module _ (res : ℕ) (origin : CellLocator) (placed : origin.latitude_index ≤ 180 * res)
    (inside : origin.longitude_index ≤ 360 * res) (pos_res : 1 ≤ res) where
  cell_at-IsInGrid :
      (o : Offset) → is_on_grid res origin o ≡ true → IsInGrid res (cell_at res origin o)
  unfolding cell_at
  cell_at-IsInGrid o h =
      let w : Within res origin o = is_on_grid→Within res origin o h in
      (
        row_of _ w.south w.north,
        omega (
          arith,
          column-eq res origin placed inside pos_res o w,
          wrapped-lt res origin.longitude_index o.long_off pos_res inside w.west w.east,
        ),
      )

  cells_at-IsInGrid : (os : List Offset) → All (IsInGrid res) (cells_at res origin os)
  unfolding cells_at
  cells_at-IsInGrid [] = tt
  cells_at-IsInGrid (o ∷ os) = elim (Bool-cases (is_on_grid res origin o)) [
    | inl on ↦ rw on (cell_at-IsInGrid o on, cells_at-IsInGrid os)
    | inr off ↦ rw off (cells_at-IsInGrid os)
  ]

  pub sqiral_cells-IsInGrid : All (IsInGrid res) (sqiral_cells res origin)
  unfolding sqiral_cells
  sqiral_cells-IsInGrid = cells_at-IsInGrid (sqiral_offsets res origin)
