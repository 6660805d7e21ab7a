-- ===== src/Prototype/Grid.antt =====
-- The grid of PrototypeMatchingPplProvider. Differences of size_t wrap at 2 ^ 64.
use ppl_me.Common.{
  ℕ, ◌+◌, ◌-◌, ◌*◌, ◌^◌, ◌%◌, Bool, true, ◌&&◌, Option, some, leb, ◌==◌, if◌then◌else◌, check,
  ◌>>=◌, ◌>>◌,
}
use ppl_me.Common.Int.{ℤ, pos, negsuc, pos_part, ◌-ℤ◌, leb_ℤ}
use ppl_me.Core.{GeoPosition, DecimalLatitude, DecimalLongitude}
use ppl_me.Core.Outside.{FloatOps}
use ppl_me.Prototype.Distance.{MathOps, exceeds, latitude_distance, longitude_distance}

abbrev pub sub64 : ℕ → ℕ → ℕ
sub64 a b = (a + 2 ^ 64 - b) % 2 ^ 64

-- `none` is a CHECK that fails.
unfoldable pub calculate_size_for_ppl_grid : ℕ → Option ℕ
calculate_size_for_ppl_grid res = do
  check (leb res 100)
  let num_latitudes = pos_part (pos 90 -ℤ negsuc 89) * res + 2
  let num_longitudes = pos_part (pos 180 -ℤ negsuc 179) * res + 2
  some (num_latitudes * num_longitudes)

pub record CellLocator : Type 0 where
  pub latitude_index : ℕ
  pub longitude_index : ℕ

abbrev pub locator : ℕ → ℕ → CellLocator
locator lat long = record { latitude_index = lat; longitude_index = long }

unfoldable pub get_ppl_index : CellLocator → ℕ
get_ppl_index cell = cell.latitude_index * 360 + cell.longitude_index

unfoldable pub tick_north : CellLocator → CellLocator
tick_north c = locator ((c.latitude_index + 1) % 2 ^ 64) c.longitude_index

unfoldable pub tick_south : CellLocator → CellLocator
tick_south c = locator (sub64 c.latitude_index 1) c.longitude_index

module _ (res : ℕ) where
  unfoldable pub tick_east : CellLocator → CellLocator
  tick_east c =
      locator c.latitude_index
        (if leb (360 * res) c.longitude_index then 0 else c.longitude_index + 1)

  unfoldable pub tick_west : CellLocator → CellLocator
  tick_west c =
      locator c.latitude_index
        (if c.longitude_index == 0 then 360 * res - 1 else c.longitude_index - 1)

module _ {F : Type 0} (fl : FloatOps F) (res : ℕ) where
  unfoldable pub get_latitude_index : DecimalLatitude F → Option ℕ
  get_latitude_index latitude = do
    let i = fl.to_int (fl.add latitude.value (fl.of_int (pos 90)))
    check (leb_ℤ (pos 0) i && leb_ℤ i (pos 180))
    some (pos_part i * res)

  unfoldable pub get_longitude_index : DecimalLongitude F → Option ℕ
  get_longitude_index longitude = do
    let i = fl.to_int (fl.add longitude.value (fl.of_int (pos 180)))
    check (leb_ℤ (pos 0) i && leb_ℤ i (pos 360))
    some (pos_part i * res)

  unfoldable pub to_cell_locator : GeoPosition F → Option CellLocator
  unfolding get_latitude_index get_longitude_index
  to_cell_locator geopos = do
    lat ← get_latitude_index geopos.latitude
    long ← get_longitude_index geopos.longitude
    some (locator lat long)

  -- IsTooFarFromOrigin, from the cell of the origin
  unfoldable pub is_too_far_from_origin : CellLocator → CellLocator → Bool
  is_too_far_from_origin origin_cell cell =
      leb (90 * res) (sub64 origin_cell.longitude_index cell.longitude_index)
      && leb (90 * res) (sub64 cell.longitude_index origin_cell.longitude_index)

-- The tests that end the walks. `origin_cell` is ToCellLocator(origin).
module _ {F : Type 0} (fl : FloatOps F) (mo : MathOps F) (res : ℕ) (max_distance : ℤ)
    (origin : GeoPosition F) (origin_cell : CellLocator) where
  -- An index over the resolution, less a shift: an edge of a cell in degrees.
  abbrev pub edge_degrees : ℕ → ℕ → F
  edge_degrees index shift =
      mo.sub (mo.div (fl.of_int (pos index)) (fl.of_int (pos res))) (fl.of_int (pos shift))

  unfoldable pub is_too_far_north : CellLocator → Bool
  unfolding latitude_distance
  is_too_far_north cell =
      if leb (180 * res) cell.latitude_index
      then true
      else exceeds fl mo
          (latitude_distance fl mo origin.latitude
            (record { value = edge_degrees cell.latitude_index 90 }))
          (fl.of_int max_distance)

  unfoldable pub is_too_far_south : CellLocator → Bool
  unfolding latitude_distance
  is_too_far_south cell =
      if cell.latitude_index == 0
      then true
      else exceeds fl mo
          (latitude_distance fl mo origin.latitude
            (record { value = edge_degrees (cell.latitude_index + 1) 90 }))
          (fl.of_int max_distance)

  unfoldable pub is_too_far_east : CellLocator → Bool
  unfolding is_too_far_from_origin longitude_distance
  is_too_far_east cell =
      if is_too_far_from_origin fl res origin_cell cell
      then true
      else exceeds fl mo
          (longitude_distance fl mo origin.latitude origin.longitude
            (record { value = edge_degrees cell.longitude_index 180 }))
          (fl.of_int max_distance)

  unfoldable pub is_too_far_west : CellLocator → Bool
  unfolding is_too_far_from_origin longitude_distance
  is_too_far_west cell =
      if is_too_far_from_origin fl res origin_cell cell
      then true
      else exceeds fl mo
          (longitude_distance fl mo origin.latitude origin.longitude
            (record { value = edge_degrees (cell.longitude_index + 1) 180 }))
          (fl.of_int max_distance)
