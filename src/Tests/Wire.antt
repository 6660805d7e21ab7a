-- ===== src/Tests/Wire.antt =====
-- Examples about messages, connections, the client and the server.
use ppl_me.Common.{ℕ, ◌≡◌, refl, true, false, ◌==◌, some, List, [], ◌∷◌, ◌++◌, arith}
use ppl_me.Common.Int.{ℤ, pos, negsuc}
use ppl_me.Core.{Person, geo_position}
use ppl_me.Proto.{
  little, big, date_to_proto, date_of_proto, person_to_proto, person_of_proto, empty_date,
  empty_person,
}
use ppl_me.Proto.Dates.{date_of_proto-other_order}
use ppl_me.Proto.People.{person_of_proto-person_to_proto}
use ppl_me.Net.Connection.{receive_message}
use ppl_me.Net.Frames.{frame, Received, receive_message-frame}
use ppl_me.Net.Client.{NetworkOps}
use ppl_me.Net.Server.{SingleShotServer, end_service, take_threads, holds, crashed}
use ppl_me.Net.Server.Laws.{end_service-after_shutdown}
use ppl_me.Tests.Platform.{dates, dates_laws, uuids, uuids_laws, Uuid, Wire, sockets, sockets_laws}

-- 1977-03-09
abbrev birthday : ℕ
birthday = 129565449

abbrev hippie : Person Uuid ℕ ℤ
hippie = record {
  id = record { value = uuids.of_octets (1 ∷ 2 ∷ 3 ∷ []) };
  name = "Zaphod";
  date_of_birth = birthday;
  location_of_home = geo_position (negsuc 32) (pos 151);
}

abbrev words : List ℕ
words = 7 ∷ 8 ∷ 9 ∷ []

abbrev quiet : Wire
quiet = ([], frame words ++ 1 ∷ [])

abbrev flooded : Wire
flooded = ([], 0 ∷ 255 ∷ 255 ∷ 255 ∷ 5 ∷ [])

abbrev network : NetworkOps ℕ Wire
network = record {
  start_thread = true;
  resolve = (6 ∷ 4 ∷ [], true);
  is_v4 = λ n. n == 4;
  no_endpoint = 0;
  eq_endpoint = λ m n. true;
  connect = λ n. some quiet;
}

abbrev busy : SingleShotServer
busy = record {
  io_thread = true;
  connection_threads = some (3 ∷ 5 ∷ []);
  running = 3 ∷ 5 ∷ [];
  joining = [];
  shutting_down = false;
}

person_of_proto-person_to_proto_example :
    person_of_proto little uuids dates (person_to_proto little uuids dates hippie empty_person)
    ≡ some hippie
person_of_proto-person_to_proto_example =
    person_of_proto-person_to_proto uuids uuids_laws dates dates_laws little hippie empty_person
      refl

date_of_proto-other_order_example :
    date_of_proto big dates (date_to_proto little dates birthday empty_date)
    ≡ dates.of_ymd 2307 185 7
date_of_proto-other_order_example =
    date_of_proto-other_order dates dates_laws birthday empty_date refl

receive_message-frame_example :
    Received sockets sockets_laws big (receive_message sockets big quiet) words (1 ∷ [])
receive_message-frame_example =
    receive_message-frame sockets sockets_laws big quiet words (1 ∷ []) (omega arith) refl

end_service-after_shutdown_example :
    (holds 5 (take_threads busy).joining ≡ true) × (end_service 5 (take_threads busy) ≡ crashed)
end_service-after_shutdown_example = end_service-after_shutdown 5 busy refl refl
