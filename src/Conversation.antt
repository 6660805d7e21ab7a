-- ===== src/Conversation.antt =====
-- A run of pplmec against a connection thread of pplmed: pplme.cc, client.cc, connection.cc,
-- single_shot_server.cc and server.cc together, with what the network does as hypotheses.
pub mod Matches
use ppl_me.Common.{
  ℕ, ◌<◌, ◌≤◌, ◌^◌, ◌≡◌, refl, ◌∙◌, true, false, Option, some, List, [], ◌++◌, length, map, arith,
  append_assoc,
}
use ppl_me.Common.Int.{ℤ}
use ppl_me.Core.{Person, PplMatchingParameters}
use ppl_me.Core.Outside.{DateOps, DateLaws, UuidOps, UuidLaws}
use ppl_me.Proto.{Endian, position_to_proto, position_of_proto}
use ppl_me.Net.Message.{Message, message, max_body_length}
use ppl_me.Net.Connection.{SocketOps, SocketLaws, send_message}
use ppl_me.Net.Frames.{frame, length_octets, send_message-frame}
use ppl_me.Net.Client.{NetworkOps, resolve_endpoint}
use ppl_me.Net.Server.{service}
use ppl_me.Net.Server.Answers.{service-frame}
use ppl_me.Pplmed.{ProtoOps, request_of, response_of, handle_pplme_request, pplme_request_of}
use ppl_me.Pplmed.Laws.{AllRegular, parameters_of}
use ppl_me.Pplmec.{pplme, showed}
use ppl_me.Pplmec.Laws.{pplme-shows}

module _ {E S U D F : Type 0} (net : NetworkOps E S) (so : SocketOps S) (laws : SocketLaws S so)
    (po : ProtoOps F) (e : Endian) (ui : UuidOps U) (ulaws : UuidLaws U ui) (dt : DateOps D)
    (dlaws : DateLaws D dt)
    (reads_send_nothing : (t : S) (n : ℕ) → laws.sent (so.read t n).0 ≡ laws.sent t)
    (find : PplMatchingParameters F → List (Person U D F)) (age : ℤ) (latitude longitude : F) where
  abbrev pub found : List (Person U D F)
  found = find (parameters_of po e ui ulaws dt dlaws age latitude longitude)

  abbrev pub asked : List ℕ
  asked = po.serialize_request (request_of po e ui dt age latitude longitude)

  abbrev pub reply : List ℕ
  reply = po.serialize_response (response_of po e ui dt found)

  handled :
      (m : Message)
      → m.body ≡ asked
      → po.parse_request asked ≡ some (request_of po e ui dt age latitude longitude)
      → handle_pplme_request po e ui dt find m ≡ some (message e reply (length reply))
  unfolding handle_pplme_request position_of_proto
  handled m same parsed = rw (same, parsed) (unfold request_of position_to_proto in refl)

  abbrev pub requested : S → S
  requested s = (send_message so e s (pplme_request_of po e ui dt age latitude longitude)).0

  request_frame :
      (s : S)
      → length asked < 2 ^ 32
      → (send_message so e s (pplme_request_of po e ui dt age latitude longitude)).1 ≡ some true
      → laws.sent (requested s) ≡ laws.sent s ++ frame asked
  unfolding pplme_request_of
  request_frame s fits ok = send_message-frame so laws e s asked fits ok

  -- In a conversation of pplmec with a connection thread of pplmed, whose connection is made,
  -- whose sends have no error, and whose frames of at most kMaxBodyLength octets arrive as they
  -- were sent, Pplme() shows just the persons that FindMatchingPpl returned for the client's
  -- position and age, when protobuf parses both messages from what it serialized them to and
  -- every person found has a regular date of birth.
  pub pplme-service :
      {P : Type 0} (remote_endpoint : S → Option P) (p : P) (client server : S)
      → net.start_thread ≡ true
      → net.eq_endpoint (resolve_endpoint net so e) net.no_endpoint ≡ false
      → net.connect (resolve_endpoint net so e) ≡ some client
      → ((t : S) → remote_endpoint t ≡ some p)
      → po.parse_request asked ≡ some (request_of po e ui dt age latitude longitude)
      → po.parse_response reply ≡ some (response_of po e ui dt found)
      → AllRegular po e ui ulaws dt dlaws found
      → length asked ≤ max_body_length
      → length reply ≤ max_body_length
      → ((t : S) (m : Message) → (send_message so e t m).1 ≡ some true)
      → ((octets : List ℕ)
          → laws.sent (requested client) ≡ laws.sent client ++ octets
          → laws.incoming server ≡ octets ++ [])
      → ((t : S) (octets : List ℕ)
          → service so e remote_endpoint (λ q. handle_pplme_request po e ui dt find) server ≡ some t
          → laws.sent t ≡ laws.sent server ++ octets
          → laws.incoming (requested client) ≡ octets ++ [])
      → pplme net so po e ui dt latitude longitude age ≡ showed (map some found)
  pplme-service remote_endpoint p client server on found_it connected there parsed answered regular
        short_asked short_reply sends request_comes reply_comes =
      let at_server =
        request_comes (frame asked) (request_frame client (omega arith) (sends client _)) in
      let (t, served, sent) =
        service-frame so laws e reads_send_nothing remote_endpoint
          (λ q. handle_pplme_request po e ui dt find) p server asked reply [] there short_asked
          (omega arith) (at_server ∙ append_assoc (length_octets (length asked)) asked [])
          (λ m same. handled m same parsed) (λ u. sends u _) in
      let at_client = reply_comes t (frame reply) served sent in
      pplme-shows net so po e ui dt ulaws dlaws laws latitude longitude age client found [] on
        found_it connected regular answered short_reply (sends client _)
        (at_client ∙ append_assoc (length_octets (length reply)) reply [])
