-- ===== src/Pplme/Sqiral/Offsets.antt =====
-- The walk of `Sqiral` as a list: the offsets of its loops in order, and a visitor that runs over
-- a list of cells until it is done.
use ppl_me.Common.{
  ℕ, zero, suc, ◌+◌, ◌≡◌, refl, Bool, true, false, List, [], ◌∷◌, ◌++◌, arith, count, Bool-cases,
  inl, inr, if◌then◌else◌,
}
use ppl_me.Pplme.Grid.{CellLocator, CheckOffsetsResult, valid, terminal, invalid, check_offsets}
use ppl_me.Pplme.Sqiral.{
  Offset, Walk, cell_at, north_east, east_south, south_west, west_north, do_cell, edge, ring,
}

unfoldable pub edge_offsets : (ℕ → ℕ → Offset) → ℕ → ℕ → List Offset
edge_offsets turn zero rising = []
edge_offsets turn (suc falling) rising =
    turn (suc falling) rising ∷ edge_offsets turn falling (suc rising)

unfoldable pub ring_offsets : ℕ → List Offset
ring_offsets m =
    edge_offsets north_east m 0
    ++ (edge_offsets east_south m 0 ++ (edge_offsets south_west m 0 ++ edge_offsets west_north m 0))

-- The offsets of `k` rounds of the outer loop, from round `m`.
unfoldable pub rings_offsets : ℕ → ℕ → List Offset
unfolding ring_offsets edge_offsets
rings_offsets zero m = []
rings_offsets (suc k) m = ring_offsets m ++ rings_offsets k (suc m)

-- A visitor run over a list of cells until it says that it is done.
unfoldable pub visit_until :
    {S : Type 0} → (CellLocator → S → Bool × S) → List CellLocator → S → Bool × S
visit_until fun [] s = (false, s)
visit_until fun (c ∷ cs) s =
    let (done, s') = fun c s in elim done [ true ↦ (true, s') | false ↦ visit_until fun cs s' ]

abbrev pub is_valid_result : CheckOffsetsResult → Bool
is_valid_result invalid = false
is_valid_result valid = true
is_valid_result terminal = true

abbrev pub is_terminal_result : CheckOffsetsResult → Bool
is_terminal_result terminal = true
is_terminal_result valid = false
is_terminal_result invalid = false

module _ (res : ℕ) (origin : CellLocator) where
  abbrev pub is_on_grid : Offset → Bool
  is_on_grid o = is_valid_result (check_offsets res origin o.lat_off o.long_off)

  abbrev pub is_corner : Offset → Bool
  is_corner o = is_terminal_result (check_offsets res origin o.lat_off o.long_off)

  -- The cells at those offsets that are on the grid.
  unfoldable pub cells_at : List Offset → List CellLocator
  cells_at [] = []
  cells_at (o ∷ os) = if is_on_grid o then cell_at res origin o ∷ cells_at os else cells_at os

  pub cells_at-append : (xs ys : List Offset) → cells_at (xs ++ ys) ≡ cells_at xs ++ cells_at ys
  unfolding cells_at
  cells_at-append [] ys = refl
  cells_at-append (x ∷ xs) ys = ground (arith, cells_at-append xs ys)

pub visit_until-append :
    {S : Type 0} (fun : CellLocator → S → Bool × S) (xs ys : List CellLocator) (s t : S)
    → visit_until fun xs s ≡ (false, t)
    → visit_until fun (xs ++ ys) s ≡ visit_until fun ys t
unfolding visit_until
visit_until-append fun [] ys s t h = ground arith
visit_until-append fun (x ∷ xs) ys s t h =
    ground (arith, visit_until-append fun xs ys (fun x s).1 t)

pub visit_until-append_done :
    {S : Type 0} (fun : CellLocator → S → Bool × S) (xs ys : List CellLocator) (s t : S)
    → visit_until fun xs s ≡ (true, t)
    → visit_until fun (xs ++ ys) s ≡ (true, t)
unfolding visit_until
visit_until-append_done fun [] ys s t h = ground arith
visit_until-append_done fun (x ∷ xs) ys s t h =
    ground (arith, visit_until-append_done fun xs ys (fun x s).1 t)

module _ {S : Type 0} (fun : CellLocator → S → Bool × S) (res : ℕ) (origin : CellLocator) where
  abbrev pub walk_offsets : List Offset → Walk S → Walk S
  walk_offsets [] w = w
  walk_offsets (o ∷ os) w = elim w.we_done_here [
    | true ↦ w
    | false ↦ walk_offsets os (do_cell fun res origin o w)
  ]

  walk_offsets_done :
      (os : List Offset) (w : Walk S) → w.we_done_here ≡ true → walk_offsets os w ≡ w
  walk_offsets_done [] w h = refl
  walk_offsets_done (o ∷ os) w h = ground arith

  walk_offsets-append :
      (xs ys : List Offset) (w : Walk S)
      → walk_offsets (xs ++ ys) w ≡ walk_offsets ys (walk_offsets xs w)
  walk_offsets-append [] ys w = refl
  walk_offsets-append (x ∷ xs) ys w =
      ground (arith, walk_offsets_done ys w, walk_offsets-append xs ys (do_cell fun res origin x w))

  edge-eq :
      (turn : ℕ → ℕ → Offset) (falling rising : ℕ) (w : Walk S)
      → edge fun res origin turn falling rising w
        ≡ walk_offsets (edge_offsets turn falling rising) w
  unfolding edge edge_offsets
  edge-eq turn zero rising w = refl
  edge-eq turn (suc falling) rising w = ground (
    arith,
    edge-eq turn falling (suc rising) (do_cell fun res origin (turn (suc falling) rising) w),
  )

  pub ring-eq : (m : ℕ) (w : Walk S) → ring fun res origin m w ≡ walk_offsets (ring_offsets m) w
  unfolding ring ring_offsets
  ring-eq m w = simp (edge-eq, walk_offsets-append)

  -- What a walk over offsets does to the visitor's state, to the flag and to the corner count.
  pub record Walked (os : List Offset) (w w' : Walk S) : Type 0 where
    pub outcome : (w'.we_done_here, w'.context) ≡ visit_until fun (cells_at res origin os) w.context
    pub corners :
        w'.we_done_here ≡ false → w'.corner_count ≡ w.corner_count + count (is_corner res origin) os

  pub walk_offsets-Walked :
      (os : List Offset) (w : Walk S) → w.we_done_here ≡ false → Walked os w (walk_offsets os w)
  unfolding visit_until cells_at do_cell
  walk_offsets-Walked [] w h = ground arith
  walk_offsets-Walked (o ∷ os) w h = elim (Bool-cases (do_cell fun res origin o w).we_done_here) [
    | inl d ↦ ground (arith, walk_offsets_done os (do_cell fun res origin o w) d)
    | inr d ↦ ground (arith, walk_offsets-Walked os (do_cell fun res origin o w) d)
  ]
