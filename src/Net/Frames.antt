-- ===== src/Net/Frames.antt =====
-- A message that is sent is received, between hosts of any byte order; one too long is refused.
use ppl_me.Common.{
  ℕ, ◌/◌, ◌%◌, ◌^◌, ◌<◌, ◌≤◌, ◌≡◌, refl, ◌∙◌, ap, true, false, Option, some, none, List, [], ◌∷◌,
  ◌++◌, append_assoc, length, arith, leb, if◌then◌else◌, Bool-cases, inl, inr,
}
use ppl_me.Proto.{Endian}
use ppl_me.Net.Message.{
  max_body_length, Message, Header, header, message, get_body_length, word_octets, word_of,
  wire_octets, get_body_length-wire,
}
use ppl_me.Net.Connection.{
  SocketOps, SocketLaws, send_message, receive_body, receive_message, log_and_return,
}

-- A length in network order.
abbrev pub length_octets : ℕ → List ℕ
length_octets n = n / 2 ^ 24 % 2 ^ 8 ∷ n / 2 ^ 16 % 2 ^ 8 ∷ n / 2 ^ 8 % 2 ^ 8 ∷ n % 2 ^ 8 ∷ []

-- What a message with a body looks like on the wire.
abbrev pub frame : List ℕ → List ℕ
frame body = length_octets (length body) ++ body

module _ {S : Type 0} (so : SocketOps S) (laws : SocketLaws S so) (e : Endian) where
  not_sent : (t : S) → log_and_return so e t false ≡ some true → ⊥
  unfolding log_and_return
  not_sent t h = elim (Bool-cases (so.has_peer t)) [
    | inl there ↦ let f : some false ≡ some true = rw there at h in cc
    | inr gone ↦ let f : none ≡ some true = rw gone at h in cc
  ]

  -- When SendMessage has no error, what has gone out is the body's length in four octets,
  -- highest first, and the body, for a body shorter than 2 ^ 32 and hosts of either byte order.
  pub send_message-frame :
      (s : S) (body : List ℕ)
      → length body < 2 ^ 32
      → (send_message so e s (message e body (length body))).1 ≡ some true
      → laws.sent (send_message so e s (message e body (length body))).0 ≡ laws.sent s ++ frame body
  unfolding send_message message
  send_message-frame s body h ok = elim (Bool-cases (so.write s head).1) [
    | inl first ↦ rw first (
        laws.write_ok (so.write s head).0 body (second first)
        ∙ ap (λ l. l ++ body) (laws.write_ok s head first)
        ∙ append_assoc (laws.sent s) head body
        ∙ ap (λ l. laws.sent s ++ (l ++ body)) (wire_octets e (length body) h))
    | inr fails ↦ absurd (
        let no : log_and_return so e (so.write s head).0 false ≡ some true = rw fails at ok in
        not_sent (so.write s head).0 no)
  ]
    where
      head : List ℕ
      head = word_octets e (header e (length body)).body_length

      second : (so.write s head).1 ≡ true → (so.write (so.write s head).0 body).1 ≡ true
      second first = elim (Bool-cases (so.write (so.write s head).0 body).1) [
        | inl sent ↦ sent
        | inr fails ↦ absurd (
            let e1 : (if (so.write (so.write s head).0 body).1
                  then some true
                  else log_and_return so e (so.write (so.write s head).0 body).0 false)
                ≡ some true =
              rw first at ok in
            let e2 : log_and_return so e (so.write (so.write s head).0 body).0 false ≡ some true =
              rw fails at e1 in
            not_sent (so.write (so.write s head).0 body).0 e2)
      ]

  -- What ReceiveMessage has found.
  pub record Received (found : S × Option (Option Message)) (body rest : List ℕ) : Type 0 where
    pub got : Message
    pub found_is : found.1 ≡ some (some got)
    pub body_is : got.body ≡ body
    pub length_is : get_body_length e got.header_of ≡ length body
    pub left : laws.incoming found.0 ≡ rest

  -- The header that comes in, and the socket after it.
  header_in : ℕ → Header
  header_in n = record {
    body_length =
        word_of e (n / 2 ^ 24 % 2 ^ 8) (n / 2 ^ 16 % 2 ^ 8) (n / 2 ^ 8 % 2 ^ 8) (n % 2 ^ 8);
  }

  receive_message-body :
      (t : S) (n : ℕ) (rest : List ℕ)
      → laws.incoming t ≡ length_octets n ++ rest
      → (receive_message so e t ≡ receive_body so e (so.read t 4).0 (header_in n))
        × (laws.incoming (so.read t 4).0 ≡ rest)
  unfolding receive_message header_in
  receive_message-body t n rest h =
      let (got, left) = laws.read_ok t (length_octets n) rest h in (rw (got, receive_message), left)

  -- When a frame with a body of at most kMaxBodyLength octets comes in, ReceiveMessage returns
  -- a message with that body and length, and reads nothing beyond it.
  pub receive_message-frame :
      (t : S) (body rest : List ℕ)
      → length body ≤ max_body_length
      → laws.incoming t ≡ length_octets (length body) ++ (body ++ rest)
      → Received (receive_message so e t) body rest
  unfolding receive_body header_in
  receive_message-frame t body rest h in_t =
      let (start, left) = receive_message-body t (length body) (body ++ rest) in_t in
      let (got, after) = laws.read_ok (so.read t 4).0 body rest left in
      rw (start, get_body_length-wire e (length body) (omega arith), short (length body) h, got)
        (record {
          got = record { header_of = header_in (length body); body = body };
          found_is = refl;
          body_is = refl;
          length_is = get_body_length-wire e (length body) (omega arith);
          left = after;
        })
    where
      short : (n : ℕ) → n ≤ max_body_length → leb n max_body_length ≡ true
      short n h = ground arith
