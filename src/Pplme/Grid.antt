-- ===== src/Pplme/Grid.antt =====
-- The grid of PplmeMatchingPplProvider: cell locators, their indices and the offsets that
-- `Sqiral` may take. `res` is `resolution_`, a natural number (pplmed's flag validator lets only
-- 1 to 100 through); the narrowing casts between int and size_t are of numbers below 2 ^ 31 then.
pub mod Index
pub mod Place
use ppl_me.Common.{
  ℕ, ◌+◌, ◌*◌, ◌%◌, Bool, not, ◌&&◌, ◌||◌, Option, some, ltb, leb, ◌==◌, if◌then◌else◌, check,
  ◌>>=◌, ◌>>◌,
}
use ppl_me.Common.Int.{ℤ, pos, negsuc, pos_part, ◌+ℤ◌, ◌-ℤ◌, neg_ℤ, ltb_ℤ, leb_ℤ, eqb_ℤ}
use ppl_me.Core.{DecimalLatitude, DecimalLongitude, GeoPosition}
use ppl_me.Core.Outside.{FloatOps}

abbrev pub min_latitude_degrees : ℤ
min_latitude_degrees = negsuc 89

abbrev pub max_latitude_degrees : ℤ
max_latitude_degrees = pos 90

abbrev pub min_longitude_degrees : ℤ
min_longitude_degrees = negsuc 179

abbrev pub max_longitude_degrees : ℤ
max_longitude_degrees = pos 180

-- `none` is a CHECK that fails, here and below: the process aborts.
unfoldable pub calculate_size_for_ppl_grid : ℕ → Option ℕ
calculate_size_for_ppl_grid res = do
  check (leb res 100)
  let num_latitudes = pos_part (pos 2 +ℤ max_latitude_degrees -ℤ min_latitude_degrees) * res
  let num_longitudes = pos_part (pos 2 +ℤ max_longitude_degrees -ℤ min_longitude_degrees) * res
  some (num_latitudes * num_longitudes)

pub record CellLocator : Type 0 where
  pub latitude_index : ℕ
  pub longitude_index : ℕ

-- CellLocator::operator<
unfoldable pub locator_lt : CellLocator → CellLocator → Bool
locator_lt lhs rhs =
    if lhs.latitude_index == rhs.latitude_index
    then ltb lhs.longitude_index rhs.longitude_index
    else ltb lhs.latitude_index rhs.latitude_index

abbrev pub locator_eq : CellLocator → CellLocator → Bool
locator_eq a b = a.latitude_index == b.latitude_index && a.longitude_index == b.longitude_index

-- Tests the whole degree, and scales it.
abbrev pub degree_index : ℕ → ℕ → ℤ → Option ℕ
degree_index res top i = do check (leb_ℤ (pos 0) i && leb_ℤ i (pos top)); some (pos_part i * res)

unfoldable pub get_latitude_index : {F : Type 0} → FloatOps F → ℕ → DecimalLatitude F → Option ℕ
get_latitude_index fl res latitude =
    degree_index res 180 (fl.to_int (fl.add latitude.value (fl.of_int (pos 90))))

unfoldable pub get_longitude_index : {F : Type 0} → FloatOps F → ℕ → DecimalLongitude F → Option ℕ
get_longitude_index fl res longitude =
    degree_index res 360 (fl.to_int (fl.add longitude.value (fl.of_int (pos 180))))

unfoldable pub to_cell_locator : {F : Type 0} → FloatOps F → ℕ → GeoPosition F → Option CellLocator
unfolding get_latitude_index get_longitude_index
to_cell_locator fl res geopos = do
  lat ← get_latitude_index fl res geopos.latitude
  long ← get_longitude_index fl res geopos.longitude
  some (record { latitude_index = lat; longitude_index = long })

unfoldable pub get_ppl_index : ℕ → CellLocator → ℕ
get_ppl_index res cell = cell.latitude_index * 361 * res + cell.longitude_index

-- GetPplIndex of a position
unfoldable pub get_ppl_index_at : {F : Type 0} → FloatOps F → ℕ → GeoPosition F → Option ℕ
unfolding to_cell_locator get_ppl_index
get_ppl_index_at fl res geopos = do
  cell ← to_cell_locator fl res geopos
  some (get_ppl_index res cell)

pub data CheckOffsetsResult : Type 0 where
  valid terminal invalid : CheckOffsetsResult

unfoldable pub check_offsets : ℕ → CellLocator → ℤ → ℤ → CheckOffsetsResult
check_offsets res origin lat_off long_off =
    let max_long_offset = pos (180 * res) in
    let max_lat_index = pos (181 * res) in
    let lat_index = pos origin.latitude_index +ℤ lat_off in
    if leb_ℤ long_off max_long_offset && leb_ℤ (neg_ℤ max_long_offset) long_off
    then (if leb_ℤ (pos 0) lat_index && leb_ℤ lat_index max_lat_index
        then (if (eqb_ℤ long_off max_long_offset || eqb_ℤ long_off (neg_ℤ max_long_offset))
              && (eqb_ℤ lat_index (pos 0) || eqb_ℤ lat_index max_lat_index)
            then terminal
            else valid)
        else invalid)
    else invalid

-- The longitude index of `do_cell`: a column of the 361 * res, round the globe.
unfoldable pub wrap_longitude : ℕ → ℤ → ℕ
wrap_longitude res long_index =
    if ltb_ℤ (pos 0) long_index
    then pos_part long_index % (361 * res)
    else if not (eqb_ℤ long_index (pos 0))
    then pos_part (pos (361 * res) +ℤ long_index) % (361 * res)
    else pos_part long_index
