-- ===== src/Pplme/Sqiral/Corners.antt =====
-- Where the walk of `Sqiral` meets the four corners of the grid, so when its outer loop ends.
use ppl_me.Common.{
  ℕ, zero, suc, ◌+◌, ◌-◌, ◌*◌, ◌≤◌, ◌≡◌, ◌&&◌, ◌||◌, arith, ◌==◌, one_if, count, count-append, leb,
  ltb,
}
use ppl_me.Pplme.Grid.{CellLocator, check_offsets}
use ppl_me.Pplme.Sqiral.{north_east, east_south, south_west, west_north}
use ppl_me.Pplme.Sqiral.Offsets.{edge_offsets, ring_offsets, is_corner}

module _ (res : ℕ) (origin : CellLocator) (placed : origin.latitude_index ≤ 180 * res)
    (pos_res : 1 ≤ res) where
  -- The rounds that meet the two northern and the two southern corners.
  abbrev pub north_round : ℕ
  north_round = 361 * res - origin.latitude_index

  abbrev pub south_round : ℕ
  south_round = 180 * res + origin.latitude_index

  north_east-IsCorner :
      (n e : ℕ)
      → is_corner res origin (north_east (suc n) e)
        ≡ ((e == 180 * res) && (origin.latitude_index + suc n == 181 * res))
  unfolding check_offsets
  north_east-IsCorner n e = ground arith

  east_south-IsCorner :
      (e s : ℕ)
      → is_corner res origin (east_south e s) ≡ ((e == 180 * res) && (s == origin.latitude_index))
  unfolding check_offsets
  east_south-IsCorner e s = ground arith

  south_west-IsCorner :
      (s w : ℕ)
      → is_corner res origin (south_west s w) ≡ ((w == 180 * res) && (s == origin.latitude_index))
  unfolding check_offsets
  south_west-IsCorner s w = ground arith

  west_north-IsCorner :
      (w n : ℕ)
      → is_corner res origin (west_north w n) ≡ (
          (w == 180 * res)
          && ((origin.latitude_index + n == 0) || (origin.latitude_index + n == 181 * res)))
  unfolding check_offsets
  west_north-IsCorner w n = ground arith

  north_east_corners :
      (n r : ℕ)
      → count (is_corner res origin) (edge_offsets north_east n r)
        ≡ one_if (leb r (180 * res) && ltb (180 * res) (r + n) && (r + n == north_round))
  unfolding edge_offsets
  north_east_corners zero r = ground arith
  north_east_corners (suc n) r =
      rw (north_east-IsCorner n r) (ground (arith, north_east_corners n (suc r)))

  east_south_corners :
      (n r : ℕ)
      → count (is_corner res origin) (edge_offsets east_south n r)
        ≡ one_if (
            leb r origin.latitude_index
            && ltb origin.latitude_index (r + n)
            && (r + n == south_round))
  unfolding edge_offsets
  east_south_corners zero r = ground arith
  east_south_corners (suc n) r =
      rw (east_south-IsCorner (suc n) r) (ground (arith, east_south_corners n (suc r)))

  south_west_corners :
      (n r : ℕ)
      → count (is_corner res origin) (edge_offsets south_west n r)
        ≡ one_if (leb r (180 * res) && ltb (180 * res) (r + n) && (r + n == south_round))
  unfolding edge_offsets
  south_west_corners zero r = ground arith
  south_west_corners (suc n) r =
      rw (south_west-IsCorner (suc n) r) (ground (arith, south_west_corners n (suc r)))

  -- With the origin on the South Pole's row the loop meets a southern corner too.
  west_north_corners :
      (n r : ℕ)
      → count (is_corner res origin) (edge_offsets west_north n r)
        ≡ one_if (
            leb r (181 * res - origin.latitude_index)
            && ltb (181 * res - origin.latitude_index) (r + n)
            && (r + n == north_round))
          + one_if ((origin.latitude_index == 0) && (r == 0) && (r + n == 180 * res))
  unfolding edge_offsets
  west_north_corners zero r = ground arith
  west_north_corners (suc n) r =
      rw (west_north-IsCorner (suc n) r) (ground (arith, west_north_corners n (suc r)))

  pub ring_corners :
      (m : ℕ)
      → 1 ≤ m
      → count (is_corner res origin) (ring_offsets m)
        ≡ 2 * one_if (m == north_round) + 2 * one_if (m == south_round)
  unfolding ring_offsets
  ring_corners m h = simp count-append (
      rw
        (
          north_east_corners m 0,
          east_south_corners m 0,
          south_west_corners m 0,
          west_north_corners m 0,
        )
        (ground arith))
