-- ===== src/Net/Client.antt =====
-- client.cc: a client resolves the server's name, connects, and sends requests one at a time.
pub mod Laws
pub mod Session
use ppl_me.Common.{
  Bool, true, false, not, Option, some, none, List, [], ◌∷◌, select, length, ltb, if◌then◌else◌,
}
use ppl_me.Proto.{Endian}
use ppl_me.Net.Message.{Message}
use ppl_me.Net.Connection.{SocketOps, send_message, receive_message}

-- What boost::asio does for the client: resolution of the address, the protocol of an endpoint,
-- the empty endpoint and its test, the start of the thread and the connect.
pub record NetworkOps (E S : Type 0) : Type 0 where
  pub start_thread : Bool
  -- the endpoints, and whether there was no error
  pub resolve : List E × Bool
  pub is_v4 : E → Bool
  pub no_endpoint : E
  pub eq_endpoint : E → E → Bool
  -- `none` is an error
  pub connect : E → Option S

module _ {E S : Type 0} (net : NetworkOps E S) (so : SocketOps S) (e : Endian) where
  abbrev pub first_or_none : List E → E
  first_or_none [] = net.no_endpoint
  first_or_none (x ∷ xs) = x

  -- Resolve: after a resolution without an error, endpoints of other protocols are removed.
  unfoldable pub resolve_endpoint : E
  resolve_endpoint =
      let (endpoints, ok) = net.resolve in
      first_or_none (if ok then select net.is_v4 endpoints else endpoints)

  -- Connect: the new `connection_`, none if it failed.
  unfoldable pub connect : Option S
  unfolding resolve_endpoint
  connect =
      if net.start_thread
      then (if not (net.eq_endpoint resolve_endpoint net.no_endpoint)
          then net.connect resolve_endpoint
          else none)
      else none

  -- SendRequest on a connection; `none` is an exception, `some none` the null pointer.
  unfoldable pub send_request : S → Message → S × Option (Option Message)
  unfolding send_message receive_message
  send_request s request =
      let (s', result) = send_message so e s request in
      elim result [
        | none ↦ (s', none)
        | some sent ↦ if sent then receive_message so e s' else (s', some none)
      ]
