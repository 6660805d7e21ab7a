-- ===== src/Tests/Prototypes.antt =====
-- Examples about the prototype.
use ppl_me.Common.{ℕ, suc, ◌*◌, ◌/◌, ◌≤◌, ◌≡◌, refl, true, Option, List, [], ◌∷◌, arith}
use ppl_me.Common.Int.{ℤ, pos, negsuc, ◌-ℤ◌, neg_ℤ, abs}
use ppl_me.Core.{Person, PplMatchingParameters, geo_position, is_valid_position}
use ppl_me.Prototype.Distance.{MathOps, latitude_distance}
use ppl_me.Prototype.Grid.{
  CellLocator, locator, calculate_size_for_ppl_grid, get_ppl_index, is_too_far_south,
}
use ppl_me.Prototype.Provider.{Impl, find_at}
use ppl_me.Prototype.Find.{Search, begin, Reach, begins, goes}
use ppl_me.Prototype.Find.Result.{IsAnswer}
use ppl_me.Prototype.Find.Back.{Alone, returns-Alone, ByCaller, stays, acts}
use ppl_me.Prototype.Matching.{find_matching_ppl, get_ppl_index-collides}
use ppl_me.Prototype.Matching.Answer.{
  IsReady, Begun, found_at, find_matching_ppl-Begun, find_matching_ppl-IsAnswer,
}
use ppl_me.Tests.Platform.{dates, dates_laws, uuids, Uuid, floats, floats_laws}

get_ppl_index-collides_example :
    (d : CellLocator) × (d.latitude_index ≤ 360)
    × (d.longitude_index ≤ 720)
    × (d.latitude_index ≡ 11)
    × (get_ppl_index d ≡ get_ppl_index (locator 10 400))
get_ppl_index-collides_example =
    get_ppl_index-collides 2 (locator 10 400) (omega arith) (omega arith) (omega arith)

-- Whole numbers, on a globe where a degree is a mile everywhere.
abbrev times : ℤ → ℤ → ℤ
times (pos m) (pos n) = pos (m * n)
times (pos m) (negsuc n) = neg_ℤ (pos (m * suc n))
times (negsuc m) (pos n) = neg_ℤ (pos (suc m * n))
times (negsuc m) (negsuc n) = pos (suc m * suc n)

abbrev over : ℤ → ℤ → ℤ
over (pos m) (pos n) = pos (m / n)
over (pos m) (negsuc n) = neg_ℤ (pos (m / suc n))
over (negsuc m) (pos n) = neg_ℤ (pos (suc m / n))
over (negsuc m) (negsuc n) = pos (suc m / suc n)

abbrev maths : MathOps ℤ
maths = record {
  sub = ◌-ℤ◌;
  mul = times;
  div = over;
  abs = λ x. pos (abs x);
  cos = λ x. pos 1;
  sqrt = λ x. x;
  pi = pos 180;
  radius_of_earth = pos 1;
}

abbrev zarniwoop : Person Uuid ℕ ℤ
zarniwoop = record {
  id = record { value = uuids.of_octets (6 ∷ []) };
  name = "Zarniwoop";
  date_of_birth = 129565449;
  location_of_home = geo_position (pos 51) (negsuc 2);
}

-- He lives everywhere.
abbrev crowded : Impl Uuid ℕ ℤ
crowded = record {
  resolution = 1;
  max_distance = pos 3;
  max_age_difference = pos 10;
  grid_size = 65884;
  ppl = λ i. zarniwoop ∷ [];
  has_workers = true;
}

crowded-IsReady : IsReady floats maths dates floats_laws dates_laws crowded
unfolding calculate_size_for_ppl_grid
crowded-IsReady = record {
  resolved = omega arith;
  few = omega arith;
  sized = refl;
  sorted = λ i. (tt, tt);
}

-- A user of 33 years.
abbrev user : PplMatchingParameters ℤ
user = record { location_of_user = geo_position (pos 51) (negsuc 2); age_of_user = pos 33 }

find_matching_ppl-Begun_example :
    Begun floats maths dates floats_laws dates_laws crowded crowded-IsReady 131727617 user 128909569
      130220289 refl refl refl refl
      (find_matching_ppl floats maths dates crowded 131727617 user)
unfolding is_valid_position is_too_far_south latitude_distance
find_matching_ppl-Begun_example =
    find_matching_ppl-Begun floats maths dates floats_laws dates_laws crowded crowded-IsReady
      131727617 user 128909569 130220289 refl refl refl refl refl refl (λ c. refl)

crowded-Begun :
    Begun floats maths dates floats_laws dates_laws crowded crowded-IsReady 131727617 user 128909569
      130220289 refl refl refl refl
      (find_matching_ppl floats maths dates crowded 131727617 user)
unfolding is_valid_position is_too_far_south latitude_distance
crowded-Begun =
    find_matching_ppl-Begun floats maths dates floats_laws dates_laws crowded crowded-IsReady
      131727617 user 128909569 130220289 refl refl refl refl refl refl (λ c. refl)

abbrev here : CellLocator → Option (List (Person Uuid ℕ ℤ))
here = find_at floats maths dates crowded 131727617 user

abbrev there : CellLocator → List (Person Uuid ℕ ℤ)
there =
    found_at floats maths dates floats_laws dates_laws crowded crowded-IsReady 131727617 user
      128909569 130220289 refl refl refl refl

abbrev search : Search CellLocator (Person Uuid ℕ ℤ)
search = begin here (there crowded-Begun.bullseye) crowded-Begun.cells

-- The caller comes back, with no help of the workers.
back-Alone : Alone here search
unfolding begin
back-Alone = returns-Alone here search refl

by_caller :
    {s : Search CellLocator (Person Uuid ℕ ℤ)} → ByCaller here search s → Reach here search s
by_caller stays = begins
by_caller (acts e r own st) = goes e (by_caller r) st

find_matching_ppl-IsAnswer_example :
    IsAnswer here there
      (there crowded-Begun.bullseye)
      crowded-Begun.cells
      back-Alone.finished
      back-Alone.result
find_matching_ppl-IsAnswer_example =
    find_matching_ppl-IsAnswer floats maths dates floats_laws dates_laws crowded crowded-IsReady
      131727617 user 128909569 130220289 refl refl refl refl crowded-Begun search back-Alone.last
      back-Alone.finished back-Alone.result crowded-Begun.begun_is (by_caller back-Alone.reach)
      back-Alone.back

returns-Alone_example : Alone here search
unfolding begin
returns-Alone_example = returns-Alone here search refl
