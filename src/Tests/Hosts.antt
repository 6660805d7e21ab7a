-- ===== src/Tests/Hosts.antt =====
-- Examples about the two programs and the server between them.
use ppl_me.Common.{
  ℕ, ◌≡◌, ◌≢◌, refl, sym, ap, ◌∙◌, append-nil, true, false, Option, some, none, List, [], ◌∷◌,
  arith, ◌==◌,
}
use ppl_me.Common.Int.{ℤ, pos, negsuc, leb_ℤ}
use ppl_me.Core.{Person, PplMatchingParameters, geo_position, is_valid_position}
use ppl_me.Proto.{little, person_to_proto, empty_person, position_of_proto, position_to_proto}
use ppl_me.Net.Message.{message, word_octets, word_of, get_body_length, header}
use ppl_me.Net.Connection.{send_message, receive_message, receive_body, header_of_octets}
use ppl_me.Net.Frames.{frame}
use ppl_me.Net.Client.{NetworkOps, resolve_endpoint}
use ppl_me.Net.Server.{
  SingleShotServer, no_server, StartOps, start, service, moved, crashed, Event, accept_result,
  failed, accepted, served, shut_down, run,
}
use ppl_me.Net.Server.Life.{IsServing, run-IsServing, run_late_accept}
use ppl_me.Pplme.Provider.{Impl}
use ppl_me.Slurper.{StreamOps}
use ppl_me.Pplmed.{ProtoOps, request_of, response_of, handle_pplme_request, pplme_request_of}
use ppl_me.Pplmed.Daemon as Daemon
use ppl_me.Pplmed.Daemon.{TestData, went}
use ppl_me.Pplmed.Daemon.Filled.{test_people, HasSettings, main-Holds}
use ppl_me.Pplme.Matching.Holding.{Holds}
use ppl_me.Pplmec as Pplmec
use ppl_me.Pplmec.{DoubleOps, pplme, died, showed}
use ppl_me.Pplmec.Laws.{flags-IsValidPosition, pplme_lives}
use ppl_me.Conversation.{pplme-service}
use ppl_me.Tests.OnePerson.{all_start}
use ppl_me.Tests.Platform.{
  dates, dates_laws, uuids, uuids_laws, Uuid, floats, floats_laws, Wire, sockets, sockets_laws,
  read_wire,
}

abbrev serving : SingleShotServer
serving = record no_server { io_thread = true; connection_threads = some [] }

serving-IsServing : IsServing serving
serving-IsServing = record { io = refl; tracked = refl }

abbrev visits : List Event
visits =
    accept_result (accepted 3) ∷ accept_result failed ∷ accept_result (accepted 5) ∷ served 3 ∷ []

run-IsServing_example : (t : SingleShotServer) × (run visits serving ≡ moved t) × IsServing t
run-IsServing_example = run-IsServing visits serving refl serving-IsServing

run_late_accept_example :
    run (shut_down ∷ accept_result failed ∷ accept_result (accepted 4) ∷ []) serving ≡ crashed
run_late_accept_example =
    run_late_accept (accept_result failed ∷ []) [] 4 serving refl serving-IsServing

abbrev starts : StartOps
starts = record { open_ok = true; bind_ok = true; listen_ok = true; thread_ok = true }

abbrev no_streams : StreamOps ℕ Uuid ℕ ℤ
no_streams = record {
  is_good = λ s. false;
  is_eof = λ s. true;
  getline_comma = λ s. (s, none);
  read_date = λ s. (s, none);
  read_float = λ s. (s, none);
  get = λ s. (s, none);
  uuid_of_string = λ s. none;
}

-- Everyone is born in 1977, and moves East.
abbrev drawn : TestData Uuid ℕ ℤ
drawn = record {
  today = 129565449;
  add_days = λ d n. d;
  to_string = λ n. "0";
  draw = λ i. record {
    uuid = uuids.of_octets (i ∷ []);
    age = negsuc 9999;
    latitude = pos 51;
    longitude = negsuc 2;
  };
}

abbrev daemon_flags : Daemon.Flags ℕ
daemon_flags = record {
  port = pos 3333;
  test_database_size = pos 3;
  grid_resolution = pos 1;
  max_ppl = pos 10;
  max_age_difference = pos 10;
  ppldata = none;
}

main-Holds_example :
    (m : Impl Uuid ℕ ℤ) × (server : SingleShotServer) × (Daemon.main no_streams floats dates drawn
        starts
        (all_start 4)
        0
        daemon_flags
      ≡ some (went m server true))
    × IsServing server
    × Holds floats dates floats_laws dates_laws m (test_people drawn 3 0)
    × HasSettings 4 10 (pos 10) m
unfolding Daemon.are_valid_flags is_valid_position start
main-Holds_example =
    main-Holds Uuid floats dates dates_laws floats_laws drawn (λ i. refl) no_streams starts
      (all_start 4) 0 daemon_flags refl refl refl refl

abbrev doubles : DoubleOps ℤ ℤ
doubles = record { at_least = λ x n. leb_ℤ n x; at_most = λ x n. leb_ℤ x n; narrow = λ x. x }

abbrev client_flags : Pplmec.Flags ℤ
client_flags = record {
  server = "localhost";
  port = pos 3333;
  latitude = pos 51;
  longitude = negsuc 2;
  age = pos 33;
}

flags-IsValidPosition_example : is_valid_position floats (geo_position (pos 51) (negsuc 2)) ≡ true
unfolding Pplmec.are_valid_flags
flags-IsValidPosition_example =
    flags-IsValidPosition doubles floats
      (record { narrow_above = λ x n small h. h; narrow_below = λ x n small h. h }) client_flags
      refl

abbrev marvin : Person Uuid ℕ ℤ
marvin = record {
  id = record { value = uuids.of_octets (42 ∷ []) };
  name = "Marvin";
  date_of_birth = 129565449;
  location_of_home = geo_position (pos 51) (negsuc 2);
}

abbrev find_marvin : PplMatchingParameters ℤ → List (Person Uuid ℕ ℤ)
find_marvin parameters = marvin ∷ []

abbrev pub parse_as : {A : Type 0} → A → List ℕ → Option A
parse_as a [] = none
parse_as a (n ∷ ns) = some a

abbrev pub protobuf : ProtoOps ℤ
protobuf = record {
  serialize_request = λ r. 1 ∷ 1 ∷ [];
  parse_request = parse_as (record {
    pplme_request = some (record {
      location_of_user = some (record { latitude = some (pos 51); longitude = some (negsuc 2) });
      age_of_user = some (pos 33);
    });
  });
  serialize_response = λ r. 2 ∷ [];
  parse_response =
      parse_as (record { ppl = person_to_proto little uuids dates marvin empty_person ∷ [] });
}

abbrev pub client_side : Wire
client_side = ([], frame (2 ∷ []))

abbrev pub server_side : Wire
server_side = ([], frame (1 ∷ 1 ∷ []))

abbrev pub route : NetworkOps ℕ Wire
route = record {
  start_thread = true;
  resolve = (6 ∷ 4 ∷ [], true);
  is_v4 = λ n. n == 4;
  no_endpoint = 0;
  eq_endpoint = λ m n. m == n;
  connect = λ n. some client_side;
}

pplme_lives_example :
    (true ≡ true
      → ((t : Wire) → true ≡ true)
      → pplme route sockets protobuf little uuids dates (pos 51) (negsuc 2) (pos 33) ≢ died)
    × (true ≡ false
        → pplme route sockets protobuf little uuids dates (pos 51) (negsuc 2) (pos 33) ≡ died)
pplme_lives_example =
    pplme_lives route sockets protobuf little uuids dates (pos 51) (negsuc 2) (pos 33)

pub reads_quietly : (t : Wire) (n : ℕ) → (read_wire t n).0.0 ≡ t.0
reads_quietly t n = ground arith

abbrev pub sent_by : Option Wire → List ℕ
sent_by none = []
sent_by (some w) = w.0

pplme-service_example :
    pplme route sockets protobuf little uuids dates (pos 51) (negsuc 2) (pos 33)
    ≡ showed (some marvin ∷ [])
unfolding resolve_endpoint request_of response_of send_message pplme_request_of message service
    receive_message receive_body header_of_octets handle_pplme_request position_of_proto
    position_to_proto word_octets word_of get_body_length header
pplme-service_example =
    pplme-service route sockets sockets_laws protobuf little uuids uuids_laws dates dates_laws
      reads_quietly find_marvin (pos 33) (pos 51) (negsuc 2) {P = ℕ} (λ t. some 7) 7 client_side
      server_side refl refl refl (λ t. refl) refl refl (refl, tt) (omega arith) (omega arith)
      (λ t m. refl) (λ octets h. h ∙ sym (append-nil octets))
      (λ t octets served h. ap sent_by served ∙ h ∙ sym (append-nil octets))
