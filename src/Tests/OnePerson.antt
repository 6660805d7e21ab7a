-- ===== src/Tests/OnePerson.antt =====
-- A provider with one person, and a user who looks for such a person.
use ppl_me.Common.{ℕ, ◌≡◌, refl, true, Option, some, List, [], ◌∷◌, arith}
use ppl_me.Common.Int.{ℤ, pos, negsuc}
use ppl_me.Core.{Person, PplMatchingParameters, geo_position, is_valid_position}
use ppl_me.Pplme.Grid.{CellLocator, get_ppl_index_at}
use ppl_me.Pplme.Provider.{Impl, ThreadOps, create, add_person, update_cell, find_at}
use ppl_me.Pplme.Provider.Invariant.{IsValid, create-IsValid}
use ppl_me.Pplme.Matching.{add_all}
use ppl_me.Pplme.Matching.Answer.{AgesFit}
use ppl_me.Pplme.Matching.Holding.{Holds, create-add_all-Holds}
use ppl_me.Tests.Platform.{dates, dates_laws, uuids, Uuid, floats, floats_laws}

abbrev pub Someone : Type 0
Someone = Person Uuid ℕ ℤ

-- A provider of resolution 1 that matches at most 2 persons up to 10 years older or younger.
abbrev pub nobody_yet : Impl Uuid ℕ ℤ
nobody_yet = record {
  resolution = 1;
  max_age_difference = pos 10;
  max_ppl = 2;
  per_find_concurrency = 3;
  grid_size = 65884;
  ppl = λ i. [];
}

-- Hardware that runs so many threads at once, and starts them.
abbrev pub all_start : ℕ → ThreadOps
all_start n = record { hardware_concurrency = n; pool_starts = true }

pub created : create (all_start 8) 1 (pos 10) (pos 2) (some (pos 3)) ≡ some nobody_yet
unfolding create
created = refl

pub nobody_yet-IsValid : IsValid floats dates dates_laws nobody_yet
nobody_yet-IsValid =
    create-IsValid floats dates dates_laws (all_start 8) 1 (pos 10) (pos 2) (some (pos 3))
      nobody_yet (omega arith) created

-- Born in 1977.
abbrev pub trillian : Someone
trillian = record {
  id = record { value = uuids.of_octets (5 ∷ []) };
  name = "Trillian";
  date_of_birth = 129565449;
  location_of_home = geo_position (pos 90) (negsuc 179);
}

pub home_is_valid : is_valid_position floats trillian.location_of_home ≡ true
unfolding is_valid_position
home_is_valid = refl

-- The provider with one person.
abbrev pub one_person : Impl Uuid ℕ ℤ
one_person = record nobody_yet {
  ppl = update_cell floats dates nobody_yet.ppl 64980 (trillian ∷ []);
}

pub added : add_person floats dates nobody_yet trillian ≡ some one_person
unfolding add_person get_ppl_index_at
added = refl

pub all_added : add_all floats dates nobody_yet (trillian ∷ []) ≡ some one_person
unfolding add_all
all_added = rw added refl

pub one_person-Holds : Holds floats dates floats_laws dates_laws one_person (trillian ∷ [])
one_person-Holds =
    create-add_all-Holds floats dates floats_laws dates_laws (all_start 8) 1 (pos 10) (pos 2)
      (some (pos 3)) nobody_yet one_person (trillian ∷ []) (omega arith) created (home_is_valid, tt)
      all_added

abbrev pub wanted : PplMatchingParameters ℤ
wanted = record { location_of_user = geo_position (negsuc 32) (pos 151); age_of_user = pos 33 }

-- 2010-01-01, and 43 and 23 years before it.
abbrev pub today : ℕ
today = 131727617

abbrev pub earliest : ℕ
earliest = 128909569

abbrev pub latest : ℕ
latest = 130220289

pub ages_fit : AgesFit floats dates floats_laws dates_laws one_person today (pos 33) earliest latest
ages_fit = record { most_fits = refl; least_fits = refl; earliest_is = refl; latest_is = refl }

pub user_is_valid : is_valid_position floats wanted.location_of_user ≡ true
unfolding is_valid_position
user_is_valid = refl

abbrev pub search_here : CellLocator → Option (List Someone)
search_here = find_at floats dates one_person today (pos 33)
