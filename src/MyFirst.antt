-- ===== src/MyFirst.antt =====
-- my_1st_matching_ppl_provider.cc: a grid of whole degrees, searched in the user's cell alone.
pub mod Laws
pub mod Repository
use ppl_me.Common.{
  ℕ, suc, ◌*◌, Bool, not, ◌&&◌, Option, some, none, List, [], ◌∷◌, ◌++◌, ltb, ◌==◌, if◌then◌else◌,
  check, ◌>>=◌, ◌>>◌,
}
use ppl_me.Common.Int.{ℤ, pos, negsuc, ◌+ℤ◌, ◌-ℤ◌}
use ppl_me.Core.{Person, GeoPosition, PplMatchingParameters}
use ppl_me.Core.Outside.{FloatOps, DateOps}
use ppl_me.Pplme.Cells.{int_result}

-- PplGridSize
abbrev pub ppl_grid_size : ℕ
ppl_grid_size = 180 * 2 * 90 * 2

abbrev pub times_360 : ℤ → ℤ
times_360 (pos n) = pos (n * 360)
times_360 (negsuc n) = pos 0 -ℤ pos (suc n * 360)

-- An index into the vector; `none` is undefined behaviour, as the index is out of range.
abbrev pub index_in_grid : ℤ → Option ℕ
index_in_grid (pos n) = do check (ltb n ppl_grid_size); some n
index_in_grid (negsuc n) = none

-- GetGridPos, with the index for the reference to the cell. The sum with an int is of floats.
unfoldable pub get_grid_pos : {F : Type 0} → FloatOps F → GeoPosition F → Option ℕ
get_grid_pos fl position =
    let latitude_index = fl.to_int (fl.add position.latitude.value (fl.of_int (pos 90))) in
    let longitude_index = fl.to_int (fl.add position.longitude.value (fl.of_int (pos 180))) in
    index_in_grid (times_360 latitude_index +ℤ longitude_index)

pub record MyFirstMatchingPplProvider (U D F : Type 0) : Type 0 where
  pub max_age_difference : ℤ
  pub ppl : ℕ → List (Person U D F)

module _ {U D F : Type 0} (fl : FloatOps F) (dt : DateOps D) where
  -- push_back on one cell
  abbrev pub push_back : (ℕ → List (Person U D F)) → ℕ → Person U D F → ℕ → List (Person U D F)
  push_back cells i person j = if j == i then cells i ++ person ∷ [] else cells j

  unfoldable pub add_person :
      MyFirstMatchingPplProvider U D F → Person U D F → Option (MyFirstMatchingPplProvider U D F)
  add_person m person = do
    i ← get_grid_pos fl person.location_of_home
    some (record m { ppl = push_back m.ppl i person })

  -- The body of the loop over the cell, which computes both dates for each person.
  unfoldable pub is_similar :
      (today : D) → (max_age_difference age_of_user : ℤ) → Person U D F → Option Bool
  unfolding int_result
  is_similar today max_age_difference age_of_user person = do
    most ← int_result (age_of_user +ℤ max_age_difference)
    earliest ← dt.minus_years today most
    least ← int_result (age_of_user -ℤ max_age_difference)
    latest ← dt.minus_years today least
    some (not (dt.before person.date_of_birth earliest) && dt.not_after person.date_of_birth latest)

  -- The loop over the cell.
  unfoldable pub similar_ppl :
      (today : D)
      → (max_age_difference age_of_user : ℤ) → List (Person U D F)
      → Option (List (Person U D F))
  unfolding is_similar
  similar_ppl today max_age_difference age_of_user [] = some []
  similar_ppl today max_age_difference age_of_user (p ∷ ps) = do
    similar ← is_similar today max_age_difference age_of_user p
    rest ← similar_ppl today max_age_difference age_of_user ps
    some (if similar then p ∷ rest else rest)

  unfoldable pub find_matching_ppl :
      MyFirstMatchingPplProvider U D F
      → (today : D) → PplMatchingParameters F
      → Option (List (Person U D F))
  unfolding similar_ppl
  find_matching_ppl m today parameters = do
    i ← get_grid_pos fl parameters.location_of_user
    similar_ppl today m.max_age_difference parameters.age_of_user (m.ppl i)
