-- ===== src/Pplme/Sqiral.antt =====
-- PplmeMatchingPplProvider::Impl::Sqiral: a walk over the grid in growing diamonds round the
-- origin, which ends when all four corners have been seen or the visitor says so.
pub mod Offsets
pub mod Corners
pub mod Ends
pub mod Cover
pub mod Visits
pub mod Bounds
pub mod Places
use ppl_me.Common.{ℕ, zero, suc, ◌+◌, ◌*◌, Bool, true, false, ◌||◌, Option, some, none, ◌==◌}
use ppl_me.Common.Int.{ℤ, pos, pos_part, ◌+ℤ◌, neg_ℤ}
use ppl_me.Pplme.Grid.{
  CellLocator, CheckOffsetsResult, valid, terminal, invalid, check_offsets, wrap_longitude,
}

pub record Offset : Type 0 where
  pub lat_off : ℤ
  pub long_off : ℤ

abbrev pub offset : ℤ → ℤ → Offset
offset a b = record { lat_off = a; long_off = b }

-- The locals of `Sqiral`, and what the visitor `fun` changes.
pub record Walk (S : Type 0) : Type 0 where
  pub we_done_here : Bool
  pub corner_count : ℕ
  pub context : S

-- The cell at an offset from the origin.
unfoldable pub cell_at : ℕ → CellLocator → Offset → CellLocator
unfolding wrap_longitude
cell_at res origin o = record {
  latitude_index = pos_part (pos origin.latitude_index +ℤ o.lat_off);
  longitude_index = wrap_longitude res (pos origin.longitude_index +ℤ o.long_off);
}

-- The offsets of the four inner loops, from the counter that falls and the one that rises.
abbrev pub north_east : ℕ → ℕ → Offset
north_east north east = offset (pos north) (pos east)

abbrev pub east_south : ℕ → ℕ → Offset
east_south east south = offset (neg_ℤ (pos south)) (pos east)

abbrev pub south_west : ℕ → ℕ → Offset
south_west south west = offset (neg_ℤ (pos south)) (neg_ℤ (pos west))

abbrev pub west_north : ℕ → ℕ → Offset
west_north west north = offset (pos north) (neg_ℤ (pos west))

module _ {S : Type 0} (fun : CellLocator → S → Bool × S) (res : ℕ) (origin : CellLocator) where
  -- `we_done_here = fun(cell)`
  pub call_fun : Offset → Walk S → Walk S
  call_fun o w =
      let (done, s) = fun (cell_at res origin o) w.context in
      record w { we_done_here = done; context = s }

  pub do_cell_by : CheckOffsetsResult → Offset → Walk S → Walk S
  do_cell_by terminal o w = call_fun o (record w { corner_count = w.corner_count + 1 })
  do_cell_by valid o w = call_fun o w
  do_cell_by invalid o w = record w { we_done_here = false }

  -- `we_done_here = do_cell(lat_off, long_off)`
  unfoldable pub do_cell : Offset → Walk S → Walk S
  unfolding do_cell_by call_fun
  do_cell o w = do_cell_by (check_offsets res origin o.lat_off o.long_off) o w

  -- One of the four inner loops: until done, one counter falls to 0 and the other rises.
  unfoldable pub edge : (ℕ → ℕ → Offset) → ℕ → ℕ → Walk S → Walk S
  edge turn zero rising w = w
  edge turn (suc falling) rising w = elim w.we_done_here [
    | true ↦ w
    | false ↦ edge turn falling (suc rising) (do_cell (turn (suc falling) rising) w)
  ]

  -- The body of the outer loop.
  unfoldable pub ring : ℕ → Walk S → Walk S
  unfolding edge
  ring max_offset w =
      edge west_north max_offset 0 (
        edge south_west max_offset 0
          (edge east_south max_offset 0 (edge north_east max_offset 0 w)))

  -- The outer loop from `max_offset`. `none` is fuel that ran out.
  unfoldable pub rings : ℕ → ℕ → Walk S → Option (Walk S)
  unfolding ring
  rings zero max_offset w = none
  rings (suc fuel) max_offset w = elim (w.corner_count == 4 || w.we_done_here) [
    | true ↦ some w
    | false ↦ rings fuel (suc max_offset) (ring max_offset w)
  ]

  -- Sqiral, with fuel for 361 * res + 1 rounds.
  unfoldable pub sqiral : S → Option (Walk S)
  unfolding rings do_cell
  sqiral s = rings (361 * res + 1) 1 (
      do_cell (offset (pos 0) (pos 0))
        (record { we_done_here = false; corner_count = 0; context = s }))
