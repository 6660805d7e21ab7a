-- ===== src/Tests/Services.antt =====
-- Examples about the server, its client, and the first provider.
use ppl_me.Common.{ℕ, ◌∷◌, [], List, ◌≡◌, refl, some, none, Option}
use ppl_me.Common.Int.{ℤ, pos, negsuc}
use ppl_me.Core.{Person, PplMatchingParameters, geo_position}
use ppl_me.Proto.{Request, PplmeResponse, little, person_to_proto, empty_person}
use ppl_me.MyFirst.{
  MyFirstMatchingPplProvider, get_grid_pos, push_back, add_person, find_matching_ppl,
}
use ppl_me.MyFirst.Laws.{find_matching_ppl-add_person, get_grid_pos_pole}
use ppl_me.Pplmed.{ProtoOps}
use ppl_me.Tests.Platform.{dates, uuids, Uuid, floats}

abbrev arthur : Person Uuid ℕ ℤ
arthur = record {
  id = record { value = uuids.of_octets (42 ∷ []) };
  name = "Arthur";
  date_of_birth = 129565449;
  location_of_home = geo_position (pos 51) (negsuc 2);
}

abbrev no_people : MyFirstMatchingPplProvider Uuid ℕ ℤ
no_people = record { max_age_difference = pos 10; ppl = λ i. [] }

abbrev one_more : MyFirstMatchingPplProvider Uuid ℕ ℤ
one_more = record {
  max_age_difference = pos 10;
  ppl = push_back floats dates no_people.ppl 50937 arthur;
}

-- For a user of 33 years on 2010-01-01.
find_matching_ppl-add_person_example :
    find_matching_ppl floats dates one_more 131727617
      (record { location_of_user = geo_position (pos 51) (negsuc 2); age_of_user = pos 33 })
    ≡ some (arthur ∷ [])
unfolding get_grid_pos add_person find_matching_ppl
find_matching_ppl-add_person_example =
    find_matching_ppl-add_person floats dates 131727617 128909569 130220289 (pos 10) (pos 33) refl
      refl refl refl no_people one_more arthur (geo_position (pos 51) (negsuc 2)) 50937 refl refl
      refl [] refl refl

get_grid_pos_pole_example : get_grid_pos floats (geo_position (pos 90) (negsuc 179)) ≡ none
get_grid_pos_pole_example =
    get_grid_pos_pole floats (geo_position (pos 90) (negsuc 179)) 0 refl refl

-- A stand-in that knows one request and one response.
abbrev asked : Request ℤ
asked = record {
  pplme_request = some (record {
    location_of_user = some (record { latitude = some (pos 51); longitude = some (negsuc 2) });
    age_of_user = some (pos 33);
  });
}

abbrev answered : PplmeResponse ℤ
answered = record { ppl = person_to_proto little uuids dates arthur empty_person ∷ [] }

abbrev parse_one : {A : Type 0} → A → List ℕ → Option A
parse_one a [] = none
parse_one a (n ∷ ns) = some a

abbrev messages : ProtoOps ℤ
messages = record {
  serialize_request = λ r. 1 ∷ [];
  parse_request = parse_one asked;
  serialize_response = λ r. 2 ∷ [];
  parse_response = parse_one answered;
}

abbrev find_arthur : PplMatchingParameters ℤ → List (Person Uuid ℕ ℤ)
find_arthur parameters = arthur ∷ []
