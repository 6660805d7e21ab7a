-- ===== src/Net/Client/Session.antt =====
-- The state of a Client from its constructor to its destructor. Its I/O thread runs from Connect
-- on; std::thread ends the process when a thread is assigned over one that has not been joined,
-- and throws when no thread is there to join.
pub mod Laws
use ppl_me.Common.{Bool, true, false, not, Option, some, none, List, [], ◌∷◌, if◌then◌else◌}
use ppl_me.Proto.{Endian}
use ppl_me.Net.Message.{Message}
use ppl_me.Net.Connection.{SocketOps}
use ppl_me.Net.Client.{NetworkOps, resolve_endpoint, send_request}

pub record Client (S : Type 0) : Type 0 where
  pub io_thread : Bool
  pub connection : Option S

abbrev pub new_client : {S : Type 0} → Client S
new_client = record { io_thread = false; connection = none }

-- A call's result, or `crashed`: the process ends, a null pointer is used, or an exception leaves
-- the call.
pub data Result (S R : Type 0) : Type 0 where
  crashed : Result S R
  returned : R → Client S → Result S R

-- What Connect does after the thread has started.
module _ {E S : Type 0} (net : NetworkOps E S) (so : SocketOps S) (e : Endian) where
  abbrev pub reach : Option S → Client S → Result S Bool
  reach none c = returned false c
  reach (some s) c = returned true (record c { connection = some s })

  -- Client::Connect
  unfoldable pub connect_client : Client S → Result S Bool
  unfolding resolve_endpoint
  connect_client c =
      if net.start_thread
      then (if c.io_thread
          then crashed
          else (if not (net.eq_endpoint (resolve_endpoint net so e) net.no_endpoint)
              then reach (net.connect (resolve_endpoint net so e)) (record c { io_thread = true })
              else returned false (record c { io_thread = true })))
      else returned false c

  -- Client::SendRequest
  unfoldable pub request_client : Message → Client S → Result S (Option Message)
  request_client m c = elim c.connection [
    | none ↦ crashed
    | some s ↦
        let (s', result) = send_request net so e s m in
        elim result [
          | none ↦ crashed
          | some response ↦ returned response (record c { connection = some s' })
        ]
  ]

-- Client::Disconnect
unfoldable pub disconnect_client : {S : Type 0} → Client S → Client S
disconnect_client c = record c { connection = none }

-- Client::Impl::~Impl: whether it ends without an exception.
unfoldable pub destroy_client : {S : Type 0} → Client S → Bool
destroy_client c = c.io_thread

-- The calls of a program that has a client.
pub data Call : Type 0 where
  connects disconnects : Call
  requests : Message → Call

module _ {E S : Type 0} (net : NetworkOps E S) (so : SocketOps S) (e : Endian) where
  abbrev pub next : {R : Type 0} → Result S R → (Client S → Bool) → Bool
  next crashed rest = false
  next (returned r c) rest = rest c

  -- Whether the calls, and the destructor after them, do their work without ending the process.
  unfoldable pub goes_well : List Call → Client S → Bool
  unfolding connect_client request_client disconnect_client destroy_client
  goes_well [] c = destroy_client c
  goes_well (connects ∷ calls) c = next (connect_client net so e c) (goes_well calls)
  goes_well (disconnects ∷ calls) c = goes_well calls (disconnect_client c)
  goes_well (requests m ∷ calls) c = next (request_client net so e m c) (goes_well calls)
