-- ===== src/Net/Connection.antt =====
-- detail/connection.cc: messages over a socket.
use ppl_me.Common.{
  ℕ, ◌≡◌, Bool, true, false, Option, some, none, List, [], ◌∷◌, ◌++◌, length, leb, if◌then◌else◌,
}
use ppl_me.Proto.{Endian}
use ppl_me.Net.Message.{max_body_length, Message, Header, get_body_length, word_octets, word_of}

-- boost::asio::write and read: the next state of the socket, and whether there was no error, or
-- the octets if there was none. The socket has a peer if remote_endpoint() does not throw.
pub record SocketOps (S : Type 0) : Type 0 where
  pub write : S → List ℕ → S × Bool
  pub read : S → ℕ → S × Option (List ℕ)
  pub has_peer : S → Bool

-- Documented of them: a write without an error has sent all octets, one after the other; a read
-- without an error returns as many octets as were asked for, the next that have come, and leaves
-- the rest; it has no error if so many have come.
pub record SocketLaws (S : Type 0) (so : SocketOps S) : Type 0 where
  pub sent : S → List ℕ
  pub incoming : S → List ℕ
  pub write_ok :
      (s : S) (octets : List ℕ)
      → (so.write s octets).1 ≡ true
      → sent (so.write s octets).0 ≡ sent s ++ octets
  pub read_ok :
      (s : S) (octets rest : List ℕ)
      → incoming s ≡ octets ++ rest
      → ((so.read s (length octets)).1 ≡ some octets)
        × (incoming (so.read s (length octets)).0 ≡ rest)

module _ {S : Type 0} (so : SocketOps S) (e : Endian) where
  -- LOG(ERROR) with remote_endpoint(), and then the return of `r`; `none` is the exception.
  unfoldable pub log_and_return : {R : Type 0} → S → R → Option R
  log_and_return s r = if so.has_peer s then some r else none

  -- Connection::SendMessage; `none` is the exception of its log.
  unfoldable pub send_message : S → Message → S × Option Bool
  unfolding log_and_return
  send_message s m =
      let (s', ok) = so.write s (word_octets e m.header_of.body_length) in
      if ok
      then (let (s'', sent) = so.write s' m.body in
          (s'', if sent then some true else log_and_return s'' false))
      else (s', log_and_return s' false)

  -- The body, once the header is there: a body that is too long is not read.
  unfoldable pub receive_body : S → Header → S × Option (Option Message)
  unfolding log_and_return
  receive_body s h =
      if leb (get_body_length e h) max_body_length
      then (let (s', octets) = so.read s (get_body_length e h) in
          (
            s',
            elim octets [
              | none ↦ log_and_return s' none
              | some body ↦ some (some (record { header_of = h; body = body }))
            ],
          ))
      else (s, log_and_return s none)

  unfoldable pub header_of_octets : List ℕ → Option Header
  header_of_octets (a ∷ b ∷ c ∷ d ∷ []) = some (record { body_length = word_of e a b c d })
  header_of_octets l = none

  -- Connection::ReceiveMessage; `some none` is the null pointer, `none` the exception of a log.
  unfoldable pub receive_message : S → S × Option (Option Message)
  unfolding receive_body header_of_octets log_and_return
  receive_message s =
      let (s', octets) = so.read s 4 in
      elim octets [
        | none ↦ (s', log_and_return s' none)
        | some four ↦ elim (header_of_octets four) [
          | none ↦ (s', log_and_return s' none)
          | some h ↦ receive_body s' h
        ]
      ]
