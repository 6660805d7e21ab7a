-- ===== src/Tests/Whole.antt =====
-- An example of the whole: pplmec, pplmed, its provider and its pool.
use ppl_me.Common.{
  ℕ, zero, suc, Option, ◌≡◌, refl, sym, ap, ◌∙◌, true, some, List, [], ◌∷◌, map, arith, append-nil,
}
use ppl_me.Common.Int.{ℤ, pos, negsuc}
use ppl_me.Core.{is_valid_position, PplMatchingParameters}
use ppl_me.Proto.{little, position_of_proto, position_to_proto}
use ppl_me.Net.Message.{message, word_octets, word_of, header, get_body_length}
use ppl_me.Net.Connection.{send_message, receive_message, receive_body, header_of_octets}
use ppl_me.Net.Client.{resolve_endpoint}
use ppl_me.Net.Server.{service}
use ppl_me.Pplmed.{ProtoOps, request_of, response_of, pplme_request_of, handle_pplme_request}
use ppl_me.Pplmec.{pplme, showed}
use ppl_me.Pplme.Matching.Answer.{IsMatch, matching, AgesFit}
use ppl_me.Pplme.Threads.Scheduler.{callers_first, callers_first-IsScheduler}
use ppl_me.Pplme.Grid.{CellLocator}
use ppl_me.Pplme.Provider.{find_at}
use ppl_me.Conversation.Matches.{find_here, with_user, wanted_by, pplme-IsMatch}
use ppl_me.Tests.Platform.{
  dates, dates_laws, floats, floats_laws, uuids, uuids_laws, sockets, sockets_laws,
}
use ppl_me.Tests.Hosts.{protobuf, client_side, server_side, route, sent_by, reads_quietly, parse_as}
use ppl_me.Tests.OnePerson.{
  Someone, trillian, one_person, one_person-Holds, today, earliest, latest, ages_fit, wanted,
}
use ppl_me.Tests.Threads.{two_threads, two_threads-IsResting, two_threads_two}

-- The user of the conversation, with one who searches at the same time.
abbrev users : ℕ → PplMatchingParameters ℤ
users = with_user (wanted_by (pos 33) (pos 51) (negsuc 2)) (λ i. wanted)

users_fit :
    (i : ℕ)
    → AgesFit floats dates floats_laws dates_laws one_person today
        (users i).age_of_user
        earliest
        latest
users_fit zero = ages_fit
users_fit (suc i) = ages_fit

users_are_valid : (i : ℕ) → is_valid_position floats (users i).location_of_user ≡ true
unfolding is_valid_position
users_are_valid zero = refl
users_are_valid (suc i) = refl

abbrev search_for : ℕ → CellLocator → Option (List Someone)
search_for i = find_at floats dates one_person today (users i).age_of_user

-- What the server finds, as a value.
here : List Someone
here =
    find_here floats dates floats_laws dates_laws one_person (trillian ∷ []) one_person-Holds today
      (pos 33) (pos 51) (negsuc 2) (λ i. wanted) (λ i. earliest) (λ i. latest) users_fit
      users_are_valid (omega arith) 1 two_threads two_threads-IsResting two_threads_two
      (callers_first 2 3 search_for 2) (callers_first-IsScheduler 2 3 search_for 2)
      (wanted_by (pos 33) (pos 51) (negsuc 2))

abbrev answering : ProtoOps ℤ
answering = record protobuf {
  parse_response = parse_as (response_of protobuf little uuids dates here);
}

pplme-IsMatch_example :
    (r : List Someone) × (pplme route sockets answering little uuids dates
        (pos 51)
        (negsuc 2)
        (pos 33)
      ≡ showed (map some r))
    × IsMatch floats dates floats_laws dates_laws 2
        (matching floats dates floats_laws dates_laws earliest latest (trillian ∷ []))
        r
unfolding here resolve_endpoint request_of response_of send_message pplme_request_of message service
    receive_message receive_body header_of_octets handle_pplme_request position_of_proto
    position_to_proto word_octets word_of get_body_length header
pplme-IsMatch_example =
    pplme-IsMatch floats dates floats_laws dates_laws one_person (trillian ∷ []) one_person-Holds
      today (pos 33) (pos 51) (negsuc 2) (λ i. wanted) (λ i. earliest) (λ i. latest) users_fit
      users_are_valid (omega arith) 1 two_threads two_threads-IsResting two_threads_two
      (callers_first 2 3 search_for 2) (callers_first-IsScheduler 2 3 search_for 2) route sockets
      sockets_laws answering little uuids uuids_laws reads_quietly {P = ℕ} (λ t. some 7) 7
      client_side server_side (refl, tt) refl refl refl (λ t. refl) refl refl (omega arith)
      (omega arith) (λ t m. refl) (λ octets h. h ∙ sym (append-nil octets))
      (λ t octets served h. ap sent_by served ∙ h ∙ sym (append-nil octets))
