-- ===== src/Net/Client/Laws.antt =====
-- A request is answered by the response that the server sends back.
use ppl_me.Common.{
  Option, some, none, true, false, Bool-cases, Option-cases, inl, leb, ℕ, ◌≤◌, ◌≡◌, refl, true,
  List, [], ◌∷◌, ◌++◌, select, length, arith, ◌⊎◌, inr,
}
use ppl_me.Proto.{Endian}
use ppl_me.Net.Message.{max_body_length, Message, Header, get_body_length, word_octets}
use ppl_me.Net.Connection.{
  SocketOps, SocketLaws, send_message, receive_body, receive_message, header_of_octets,
  log_and_return,
}
use ppl_me.Net.Frames.{length_octets, Received, receive_message-frame}
use ppl_me.Net.Client.{NetworkOps, send_request, resolve_endpoint, first_or_none}

module _ {E S : Type 0} (net : NetworkOps E S) (so : SocketOps S) (e : Endian) where
  module _ (there : (t : S) → so.has_peer t ≡ true) where
    logs : {R : Type 0} (t : S) (r : R) → log_and_return so e t r ≡ some r
    unfolding log_and_return
    logs t r = rw (there t) refl

    sent_or_not :
        (s : S) (m : Message)
        → ((send_message so e s m).1 ≡ some true) ⊎ ((send_message so e s m).1 ≡ some false)
    unfolding send_message
    sent_or_not s m =
        let s' = (so.write s (word_octets e m.header_of.body_length)).0 in
        elim (Bool-cases (so.write s (word_octets e m.header_of.body_length)).1) [
          | inr fails ↦ inr (rw fails (logs s' false))
          | inl first ↦ elim (Bool-cases (so.write s' m.body).1) [
            | inl second ↦ inl (rw (first, second) refl)
            | inr fails ↦ inr (rw (first, fails) (logs (so.write s' m.body).0 false))
          ]
        ]

    body_received :
        (t : S) (h : Header) → (r : Option Message) × ((receive_body so e t h).1 ≡ some r)
    unfolding receive_body
    body_received t h = elim (Bool-cases (leb (get_body_length e h) max_body_length)) [
      | inr long ↦ (none, rw long (logs t none))
      | inl short ↦ elim (Option-cases (so.read t (get_body_length e h)).1) [
        | inl fails ↦ (none, rw (short, fails) (logs (so.read t (get_body_length e h)).0 none))
        | inr (body, got) ↦ (some (record { header_of = h; body = body }), rw (short, got) refl)
      ]
    ]

    received : (t : S) → (r : Option Message) × ((receive_message so e t).1 ≡ some r)
    unfolding receive_message
    received t = elim (Option-cases (so.read t 4).1) [
      | inl fails ↦ (none, rw (receive_message, fails) (logs (so.read t 4).0 none))
      | inr (four, got) ↦ elim (Option-cases (header_of_octets so e four)) [
        | inl bad ↦ (none, rw (receive_message, got, bad) (logs (so.read t 4).0 none))
        | inr (h, good) ↦
            let (r, at_body) = body_received (so.read t 4).0 h in
            (r, rw (receive_message, got, good) at_body)
      ]
    ]

    -- SendRequest does not throw while the socket has a peer.
    pub send_request_returns :
        (s : S) (request : Message)
        → (r : Option Message) × ((send_request net so e s request).1 ≡ some r)
    unfolding send_request
    send_request_returns s request = elim (sent_or_not s request) [
      | inl sent ↦
          let (r, got) = received (send_message so e s request).0 in
          (r, rw (send_request, sent) got)
      | inr fails ↦ (none, rw (send_request, fails) refl)
    ]

module _ {E S : Type 0} (net : NetworkOps E S) (so : SocketOps S) (laws : SocketLaws S so)
    (e : Endian) where
  -- When the request has gone out and the frame of a short enough response comes in,
  -- SendRequest returns that response.
  pub send_request-Received :
      (s : S) (request : Message) (body rest : List ℕ)
      → (send_message so e s request).1 ≡ some true
      → length body ≤ max_body_length
      → laws.incoming (send_message so e s request).0
        ≡ length_octets (length body) ++ (body ++ rest)
      → Received so laws e (send_request net so e s request) body rest
  unfolding send_request
  send_request-Received s request body rest ok short coming =
      rw (send_request, ok)
        (receive_message-frame so laws e (send_message so e s request).0 body rest short coming)

  select_first :
      (l : List E)
      → (net.is_v4 (first_or_none net so e (select net.is_v4 l)) ≡ true)
        ⊎ (first_or_none net so e (select net.is_v4 l) ≡ net.no_endpoint)
  select_first [] = inr refl
  select_first (x ∷ xs) = ground (arith, select_first xs)

  -- When the name is resolved without an error, the client's endpoint is an IPv4 endpoint, or
  -- none.
  pub resolve_endpoint-IsV4 :
      net.resolve.1 ≡ true
      → (net.is_v4 (resolve_endpoint net so e) ≡ true)
        ⊎ (resolve_endpoint net so e ≡ net.no_endpoint)
  unfolding resolve_endpoint
  resolve_endpoint-IsV4 ok = rw ok (select_first net.resolve.0)
