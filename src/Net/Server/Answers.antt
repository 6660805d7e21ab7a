-- ===== src/Net/Server/Answers.antt =====
-- What a connection's thread sends.
use ppl_me.Common.{
  ℕ, ◌<◌, ◌^◌, ◌≤◌, ◌≡◌, refl, ap, ◌∙◌, true, Option, some, List, ◌++◌, length, leb, Bool-cases,
  inl, inr, Option-cases,
}
use ppl_me.Proto.{Endian}
use ppl_me.Net.Message.{max_body_length, Message, message, Header, get_body_length}
use ppl_me.Net.Connection.{
  SocketOps, SocketLaws, send_message, receive_message, receive_body, header_of_octets,
}
use ppl_me.Net.Frames.{length_octets, frame, receive_message-frame, send_message-frame}
use ppl_me.Net.Server.{service}

module _ {S : Type 0} (so : SocketOps S) (laws : SocketLaws S so) (e : Endian)
    (reads_send_nothing : (t : S) (n : ℕ) → laws.sent (so.read t n).0 ≡ laws.sent t) where
  body_sends_nothing : (t : S) (h : Header) → laws.sent (receive_body so e t h).0 ≡ laws.sent t
  unfolding receive_body
  body_sends_nothing t h = elim (Bool-cases (leb (get_body_length e h) max_body_length)) [
    | inl short ↦ rw short (reads_send_nothing t (get_body_length e h))
    | inr long ↦ rw long refl
  ]

  receive_sends_nothing : (t : S) → laws.sent (receive_message so e t).0 ≡ laws.sent t
  unfolding receive_message
  receive_sends_nothing t = elim (Option-cases (so.read t 4).1) [
    | inl nothing ↦ rw (receive_message, nothing) (reads_send_nothing t 4)
    | inr (four, got) ↦ elim (Option-cases (header_of_octets so e four)) [
      | inl bad ↦ rw (receive_message, got, bad) (reads_send_nothing t 4)
      | inr (h, good) ↦
          rw (receive_message, got, good)
            (body_sends_nothing (so.read t 4).0 h ∙ reads_send_nothing t 4)
    ]
  ]

  -- When the frame
  pub service-frame :
      {P : Type 0} (remote_endpoint : S → Option P) (handler : P → Message → Option Message) (p : P)
      (s : S) (body reply rest : List ℕ)
      → ((t : S) → remote_endpoint t ≡ some p)
      → length body ≤ max_body_length
      → length reply < 2 ^ 32
      → laws.incoming s ≡ length_octets (length body) ++ (body ++ rest)
      → ((m : Message) → m.body ≡ body → handler p m ≡ some (message e reply (length reply)))
      → ((t : S) → (send_message so e t (message e reply (length reply))).1 ≡ some true)
      → (t : S) × (service so e remote_endpoint handler s ≡ some t)
        × (laws.sent t ≡ laws.sent s ++ frame reply)
  unfolding service
  service-frame remote_endpoint handler p s body reply rest there short fits coming handles sends =
      let received = receive_message-frame so laws e s body rest short coming in
      let s' = (receive_message so e s).0 in
      (
        (send_message so e s' (message e reply (length reply))).0,
        rw (there s, received.found_is, there s', handles received.got received.body_is, sends s')
            refl,
        send_message-frame so laws e s' reply fits (sends s')
            ∙ ap (λ l. l ++ frame reply) (receive_sends_nothing s),
      )
