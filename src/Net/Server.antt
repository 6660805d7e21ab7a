-- ===== src/Net/Server.antt =====
-- single_shot_server.cc: a thread for each connection, which answers one request. The table of
-- threads is `none` before Start and after Shutdown has taken it.
pub mod Laws
pub mod Answers
pub mod Life
pub mod Port
use ppl_me.Common.{
  ℕ, Bool, true, false, not, Option, some, none, List, [], ◌∷◌, ◌==◌, ◌||◌, ◌&&◌, if◌then◌else◌,
  ◌>>=◌, ◌>>◌,
}
use ppl_me.Proto.{Endian}
use ppl_me.Net.Message.{Message}
use ppl_me.Net.Connection.{SocketOps, send_message, receive_message}

-- The request handler gets the peer's address and the request; `none` is no response.
-- remote_endpoint is `none` where it throws: the peer is gone.
module _ {S P : Type 0} (so : SocketOps S) (e : Endian) (remote_endpoint : S → Option P)
    (handler : P → Message → Option Message) where
  -- Service's first part, up to the end of its connection: the socket afterwards, or `none` if
  -- an exception leaves the thread, which ends the process.
  unfoldable pub service : S → Option S
  service s = do
    _ ← remote_endpoint s
    let (s', received) = receive_message so e s
    request ← received
    elim request [
      | none ↦ do _ ← remote_endpoint s'; some s'
      | some m ↦ do
        peer ← remote_endpoint s'
        elim (handler peer m) [
          | none ↦ some s'
          | some response ↦
              let (s'', result) = send_message so e s' response in
              do sent ← result; if sent then some s'' else do _ ← remote_endpoint s''; some s''
        ]
    ]

-- Threads by their ids.
pub record SingleShotServer : Type 0 where
  pub io_thread : Bool
  pub connection_threads : Option (List ℕ)
  pub running : List ℕ
  pub joining : List ℕ
  pub shutting_down : Bool

abbrev pub no_server : SingleShotServer
no_server = record {
  io_thread = false;
  connection_threads = none;
  running = [];
  joining = [];
  shutting_down = false;
}

-- `crashed` is a use of the null table, or an exception that leaves a thread.
pub data Outcome : Type 0 where
  blocked crashed : Outcome
  moved : SingleShotServer → Outcome

abbrev pub holds : ℕ → List ℕ → Bool
holds i [] = false
holds i (j ∷ js) = (i == j) || holds i js

abbrev pub without : ℕ → List ℕ → List ℕ
without i [] = []
without i (j ∷ js) = if i == j then js else j ∷ without i js

-- What the acceptor and std::thread do in Start: whether each call has no error.
pub record StartOps : Type 0 where
  pub open_ok : Bool
  pub bind_ok : Bool
  pub listen_ok : Bool
  pub thread_ok : Bool

-- Start, and whether it succeeds.
unfoldable pub start : StartOps → SingleShotServer → SingleShotServer × Bool
start ops s =
    let bound = if ops.open_ok then ops.bind_ok else false in
    let listens = if bound then ops.listen_ok else false in
    let success = if listens then ops.thread_ok else false in
    if success
    then (record s { io_thread = true; connection_threads = some [] }, true)
    else (s, false)

-- What async_accept came to: an error, or a connection, with the id of the thread that would
-- serve it, or without one as std::thread would throw.
pub data AcceptResult : Type 0 where
  failed unthreaded : AcceptResult
  accepted : ℕ → AcceptResult

-- HandleAcceptResult in the I/O thread. Without a table it asks the socket for its remote endpoint
-- after the socket has been moved from, which throws.
unfoldable pub handle_accept : AcceptResult → SingleShotServer → Outcome
handle_accept result s =
    if s.io_thread
    then elim result [
      | failed ↦ moved s
      | unthreaded ↦ crashed
      | accepted i ↦ elim s.connection_threads [
        | none ↦ crashed
        | some threads ↦
            moved (record s { connection_threads = some (i ∷ threads); running = i ∷ s.running })
      ]
    ]
    else blocked

-- Shutdown, up to the joins: it takes the table.
unfoldable pub take_threads : SingleShotServer → SingleShotServer
take_threads s = elim s.connection_threads [
  | none ↦ s
  | some threads ↦ record s { connection_threads = none; joining = threads; shutting_down = true }
]

abbrev pub any_holds : List ℕ → List ℕ → Bool
any_holds [] js = false
any_holds (i ∷ is) js = holds i js || any_holds is js

-- Shutdown after the joins, which wait for the threads that still run.
unfoldable pub end_shutdown : SingleShotServer → Outcome
end_shutdown s =
    if s.shutting_down && not (any_holds s.joining s.running)
    then moved (record s { io_thread = false; joining = []; shutting_down = false })
    else blocked

-- The last lock block of Service: the thread takes itself out of the table.
unfoldable pub end_service : ℕ → SingleShotServer → Outcome
end_service i s =
    if holds i s.running
    then elim s.connection_threads [
      | none ↦ crashed
      | some threads ↦ moved (record s {
        connection_threads = some (without i threads);
        running = without i s.running;
      })
    ]
    else blocked

-- An exception leaves Service, and so its thread.
unfoldable pub end_process : ℕ → SingleShotServer → Outcome
end_process i s = if holds i s.running then crashed else blocked

-- A connection, the end of a thread's Service, or an exception out of it, and Shutdown.
pub data Event : Type 0 where
  accept_result : AcceptResult → Event
  served threw : ℕ → Event
  shut_down joined : Event

unfoldable pub step : Event → SingleShotServer → Outcome
step (accept_result result) s = handle_accept result s
step (served i) s = end_service i s
step (threw i) s = end_process i s
step shut_down s = moved (take_threads s)
step joined s = end_shutdown s

-- What a thread comes to, by what its Service comes to.
abbrev pub event_of : {S : Type 0} → ℕ → Option S → Event
event_of i none = threw i
event_of i (some s) = served i

abbrev pub or_else : Outcome → SingleShotServer → Outcome
or_else blocked s = moved s
or_else crashed s = crashed
or_else (moved t) s = moved t

abbrev pub on_moved : Outcome → (SingleShotServer → Outcome) → Outcome
on_moved blocked f = blocked
on_moved crashed f = crashed
on_moved (moved t) f = f t

-- The events one after the other; one that cannot happen is left out.
unfoldable pub run : List Event → SingleShotServer → Outcome
unfolding step
run [] s = moved s
run (e ∷ es) s = on_moved (or_else (step e s) s) (run es)
