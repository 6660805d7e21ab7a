-- ===== src/Pplmed/Laws.antt =====
-- A client gets what the server found.
use ppl_me.Common.{◌≡◌, refl, ap, true, some, List, [], ◌∷◌, length, map, All}
use ppl_me.Common.Int.{ℤ}
use ppl_me.Core.{Person, PplMatchingParameters, geo_position}
use ppl_me.Core.Outside.{DateOps, DateLaws, UuidOps, UuidLaws}
use ppl_me.Proto.{
  Endian, empty_person, position_to_proto, position_of_proto, person_to_proto, person_of_proto,
}
use ppl_me.Proto.People.{person_of_proto-person_to_proto}
use ppl_me.Net.Message.{Message, message}
use ppl_me.Pplmed.{
  ProtoOps, response_of, request_of, handle_pplme_request, pplme_request_of, pplme_results,
}

module _ {U D F : Type 0} (po : ProtoOps F) (e : Endian) (ui : UuidOps U) (ulaws : UuidLaws U ui)
    (dt : DateOps D) (dlaws : DateLaws D dt) where
  abbrev pub AllRegular : List (Person U D F) → Type 0
  AllRegular = All (λ p. dlaws.is_regular p.date_of_birth ≡ true)

  people_back :
      (ps : List (Person U D F))
      → AllRegular ps
      → map (person_of_proto e ui dt) (map (λ p. person_to_proto e ui dt p empty_person) ps)
        ≡ map some ps
  people_back [] all = refl
  people_back (p ∷ ps) all =
      rw
        (
          person_of_proto-person_to_proto ui ulaws dt dlaws e p empty_person all.0,
          people_back ps all.1,
        )
        refl

  pub people_shown :
      (ps : List (Person U D F))
      → AllRegular ps
      → some (map (person_of_proto e ui dt) (response_of po e ui dt ps).ppl) ≡ some (map some ps)
  unfolding response_of
  people_shown ps all = ap some (people_back ps all)

  -- The parameters of the user's request.
  abbrev pub parameters_of : ℤ → F → F → PplMatchingParameters F
  parameters_of age latitude longitude = record {
    location_of_user = geo_position latitude longitude;
    age_of_user = age;
  }

  -- When protobuf parses the request and the response from what it serialized them to, and
  -- every person found has a regular date of birth, the server answers the client's request,
  -- and the client shows just the persons that FindMatchingPpl returned for the client's
  -- position and age.
  pub pplme_results-handle_pplme_request :
      (find : PplMatchingParameters F → List (Person U D F)) (users_age : ℤ)
      (users_latitude users_longitude : F)
      → AllRegular (find (parameters_of users_age users_latitude users_longitude))
      → po.parse_request
          (po.serialize_request (request_of po e ui dt users_age users_latitude users_longitude))
        ≡ some (request_of po e ui dt users_age users_latitude users_longitude)
      → po.parse_response (
          po.serialize_response (
            response_of po e ui dt (find (parameters_of users_age users_latitude users_longitude))))
        ≡ some
            (response_of po e ui dt (find (parameters_of users_age users_latitude users_longitude)))
      → (response : Message) × (handle_pplme_request po e ui dt find
            (pplme_request_of po e ui dt users_age users_latitude users_longitude)
          ≡ some response)
        × (pplme_results po e ui dt response
            ≡ some (map some (find (parameters_of users_age users_latitude users_longitude))))
  unfolding handle_pplme_request pplme_request_of pplme_results message position_of_proto
  pplme_results-handle_pplme_request find users_age users_latitude users_longitude all asked
        answered =
      let matching_ppl = find (parameters_of users_age users_latitude users_longitude) in
      let response_body = po.serialize_response (response_of po e ui dt matching_ppl) in
      (
        message e response_body (length response_body),
        rw asked (unfold request_of position_to_proto in refl),
        rw answered (people_shown matching_ppl all),
      )
