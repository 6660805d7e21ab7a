-- ===== src/Pplme/Grid/Place.antt =====
-- From a position to its cell: a valid position has one, at whole degrees.
use ppl_me.Common.{ℕ, suc, ◌+◌, ◌*◌, ◌≤◌, ◌≡◌, ap, ◌∙◌, subst, true, some, Option, arith}
use ppl_me.Common.Int.{ℤ, pos, negsuc, ◌≤ℤ◌}
use ppl_me.Core.{GeoPosition, is_valid_position}
use ppl_me.Core.Outside.{FloatOps, FloatLaws}
use ppl_me.Pplme.Grid.{
  CellLocator, to_cell_locator, degree_index, get_latitude_index, get_longitude_index,
}

-- A locator at `lat` and `long` whole degrees from the South Pole and the date line.
pub record IsPlace (res : ℕ) (found : Option CellLocator) : Type 0 where
  pub lat : ℕ
  pub long : ℕ
  pub lat_range : lat ≤ 180
  pub long_range : long ≤ 360
  pub found_at : found ≡ some (record { latitude_index = lat * res; longitude_index = long * res })

degree_index_lem :
    (res top : ℕ) (i : ℤ)
    → pos 0 ≤ℤ i
    → i ≤ℤ pos top
    → (n : ℕ) × (n ≤ top) × (degree_index res top i ≡ some (n * res))
degree_index_lem res top (pos n) h k = (n, omega arith, ground arith)
degree_index_lem res top (negsuc n) h k = absurd (omega arith)

module _ {F : Type 0} (fl : FloatOps F) (laws : FloatLaws F fl) where
  -- Between -n and n degrees there are between 0 and 2 * n after the shift by n.
  shifted_between :
      (x : F) (n : ℕ)
      → suc n ≤ 360
      → fl.leb (fl.of_int (negsuc n)) x ≡ true
      → fl.leb x (fl.of_int (pos (suc n))) ≡ true
      → (pos 0 ≤ℤ fl.to_int (fl.add x (fl.of_int (pos (suc n)))))
        × (fl.to_int (fl.add x (fl.of_int (pos (suc n)))) ≤ℤ pos (suc n + suc n))
  shifted_between x n small lo hi =
      laws.to_int_between _ (pos 0) (pos (suc n + suc n)) (omega arith) (omega arith)
        (subst (λ z. fl.leb z (fl.add x (fl.of_int (pos (suc n)))) ≡ true) bottom
          (laws.add_mono _ _ (pos (suc n)) (omega arith) lo))
        (subst (λ z. fl.leb (fl.add x (fl.of_int (pos (suc n)))) z ≡ true) top
          (laws.add_mono _ _ (pos (suc n)) (omega arith) hi))
    where
      bottom : fl.add (fl.of_int (negsuc n)) (fl.of_int (pos (suc n))) ≡ fl.of_int (pos 0)
      bottom =
          laws.add-of_int (negsuc n) (pos (suc n)) (omega arith) (omega arith) (ground arith)
          ∙ ap fl.of_int (ground arith)

      top :
          fl.add (fl.of_int (pos (suc n))) (fl.of_int (pos (suc n)))
          ≡ fl.of_int (pos (suc n + suc n))
      top =
          laws.add-of_int (pos (suc n)) (pos (suc n)) (omega arith) (omega arith) (ground arith)
          ∙ ap fl.of_int (ground arith)

  -- A valid position lies at whole degrees from the South Pole and the date line.
  pub degrees_found :
      (res : ℕ) (p : GeoPosition F)
      → is_valid_position fl p ≡ true
      → (lat long : ℕ) × (lat ≤ 180)
        × (long ≤ 360)
        × (get_latitude_index fl res p.latitude ≡ some (lat * res))
        × (get_longitude_index fl res p.longitude ≡ some (long * res))
  unfolding is_valid_position get_latitude_index get_longitude_index
  degrees_found res p v =
      let (south, north) =
        shifted_between p.latitude.value 89 (omega arith) (ground arith) (ground arith) in
      let (west, east) =
        shifted_between p.longitude.value 179 (omega arith) (ground arith) (ground arith) in
      let (lat, lat_range, lat_at) = degree_index_lem res 180 _ south north in
      let (long, long_range, long_at) = degree_index_lem res 360 _ west east in
      (lat, long, lat_range, long_range, lat_at, long_at)

  -- ToCellLocator fails no CHECK for a valid position, and its indices are whole degrees, from
  -- 0 to 180 and from 0 to 360, times the resolution.
  pub to_cell_locator-IsPlace :
      (res : ℕ) (p : GeoPosition F)
      → is_valid_position fl p ≡ true
      → IsPlace res (to_cell_locator fl res p)
  unfolding to_cell_locator
  to_cell_locator-IsPlace res p v =
      let (lat, long, lat_range, long_range, lat_at, long_at) = degrees_found res p v in
      record {
        lat = lat;
        long = long;
        lat_range = lat_range;
        long_range = long_range;
        found_at = rw (lat_at, long_at);
      }
