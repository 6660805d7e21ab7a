-- ===== src/Pplmed.antt =====
-- src/pplmed/server.cc: HandlePplmeRequest, and src/pplmec/pplme.cc: the request that a client
-- makes and what it groks of the response.
pub mod Laws
pub mod Daemon
use ppl_me.Common.{ℕ, Option, some, none, List, [], ◌∷◌, length, map, ◌>>=◌}
use ppl_me.Common.Int.{ℤ, pos}
use ppl_me.Core.{Person, PplMatchingParameters, geo_position}
use ppl_me.Core.Outside.{DateOps, UuidOps}
use ppl_me.Proto.{
  PplmeRequest, Request, PplmeResponse, PersonMessage, Endian, or_empty, empty_position,
  empty_person, position_to_proto, position_of_proto, person_to_proto, person_of_proto,
}
use ppl_me.Net.Message.{Message, message}

-- What protoc generates for Request and PplmeResponse: SerializeToArray, and ParseFromArray with
-- `none` for false.
pub record ProtoOps (F : Type 0) : Type 0 where
  pub serialize_request : Request F → List ℕ
  pub parse_request : List ℕ → Option (Request F)
  pub serialize_response : PplmeResponse F → List ℕ
  pub parse_response : List ℕ → Option (PplmeResponse F)

module _ {U D F : Type 0} (po : ProtoOps F) (e : Endian) (ui : UuidOps U) (dt : DateOps D) where
  -- What FindMatchingPpl returned, as the body of PplmeResponse.
  unfoldable pub response_of : List (Person U D F) → PplmeResponse F
  response_of ppl = record { ppl = map (λ p. person_to_proto e ui dt p empty_person) ppl }

  -- HandlePplmeRequest, where `find` gives what FindMatchingPpl returns; `none` is no response.
  unfoldable pub handle_pplme_request :
      (PplMatchingParameters F → List (Person U D F)) → Message → Option Message
  unfolding response_of
  handle_pplme_request find request = do
    request_pb ← po.parse_request request.body
    pplme_request ← request_pb.pplme_request
    location_of_user ← position_of_proto (or_empty pplme_request.location_of_user empty_position)
    let matching_ppl = find (record {
      location_of_user = location_of_user;
      age_of_user = or_empty pplme_request.age_of_user (pos 0);
    })
    let response_body = po.serialize_response (response_of matching_ppl)
    some (message e response_body (length response_body))

  -- The message that Pplme() makes.
  unfoldable pub request_of : (users_age : ℤ) (users_latitude users_longitude : F) → Request F
  unfolding position_to_proto
  request_of users_age users_latitude users_longitude = record {
    pplme_request = some (record {
      location_of_user =
          some (position_to_proto (geo_position users_latitude users_longitude) empty_position);
      age_of_user = some users_age;
    });
  }

  -- Pplme(), up to SendRequest
  unfoldable pub pplme_request_of : (users_age : ℤ) (users_latitude users_longitude : F) → Message
  pplme_request_of users_age users_latitude users_longitude =
      let request_body =
        po.serialize_request (request_of users_age users_latitude users_longitude) in
      message e request_body (length request_body)

  -- Pplme(), from the response on: each person that it prints, `none` where it prints a warning.
  unfoldable pub pplme_results : Message → Option (List (Option (Person U D F)))
  pplme_results response = do
    response_pb ← po.parse_response response.body
    some (map (person_of_proto e ui dt) response_pb.ppl)
