-- ===== src/Net/Client/Session/Laws.antt =====
-- Which sequences of calls of a Client go well.
use ppl_me.Common.{
  Bool, true, false, ◌≡◌, refl, some, none, Option, List, [], ◌∷◌, Option-cases, Bool-cases, ◌⊎◌,
  inl, inr,
}
use ppl_me.Proto.{Endian}
use ppl_me.Net.Message.{Message}
use ppl_me.Net.Connection.{SocketOps}
use ppl_me.Net.Client.{NetworkOps, resolve_endpoint, send_request}
use ppl_me.Net.Client.Laws.{send_request_returns}
use ppl_me.Net.Client.Session.{
  Client, new_client, returned, Call, connects, disconnects, requests, goes_well, connect_client,
  request_client, disconnect_client, destroy_client,
}

-- The calls as client.h documents them, after Connect: requests, and at the end perhaps
-- Disconnect.
abbrev pub documented : List Message → Bool → List Call
documented [] true = disconnects ∷ []
documented [] false = []
documented (m ∷ ms) b = requests m ∷ documented ms b

module _ {E S : Type 0} (net : NetworkOps E S) (so : SocketOps S) (e : Endian) where
  -- What Connect does with a new client, if the thread starts.
  pub connect_client-connected :
      (s : S)
      → net.start_thread ≡ true
      → net.eq_endpoint (resolve_endpoint net so e) net.no_endpoint ≡ false
      → net.connect (resolve_endpoint net so e) ≡ some s
      → connect_client net so e new_client
        ≡ returned true (record { io_thread = true; connection = some s })
  unfolding connect_client
  connect_client-connected s on found connected = rw (on, found, connected) refl

  pub connect_client-cases :
      net.start_thread ≡ true
      → (connect_client net so e new_client
          ≡ returned false (record { io_thread = true; connection = none }))
        ⊎ ((s : S) × (connect_client net so e new_client
              ≡ returned true (record { io_thread = true; connection = some s })))
  unfolding connect_client
  connect_client-cases on =
      elim (Bool-cases (net.eq_endpoint (resolve_endpoint net so e) net.no_endpoint)) [
        | inl nowhere ↦ inl (rw (on, nowhere) refl)
        | inr found ↦ elim (Option-cases (net.connect (resolve_endpoint net so e))) [
          | inl refused ↦ inl (rw (on, found, refused) refl)
          | inr (s, connected) ↦ inr (s, rw (on, found, connected) refl)
        ]
      ]

  pub connect_client_off :
      net.start_thread ≡ false → connect_client net so e new_client ≡ returned false new_client
  unfolding connect_client
  connect_client_off off = rw off refl

  -- What SendRequest of a connected client returns.
  pub request_client-returned :
      (m : Message) (c : Client S) (s : S) (r : Option Message)
      → c.connection ≡ some s
      → (send_request net so e s m).1 ≡ some r
      → request_client net so e m c
        ≡ returned r (record c { connection = some (send_request net so e s m).0 })
  unfolding request_client
  request_client-returned m c s r there got = rw (request_client, there, got) refl

  requests_go_well :
      ((t : S) → so.has_peer t ≡ true)
      → (ms : List Message) (b : Bool) (c : Client S) (s : S) → c.io_thread ≡ true
      → c.connection ≡ some s
      → goes_well net so e (documented ms b) c ≡ true
  unfolding goes_well disconnect_client destroy_client
  requests_go_well peers [] true c s io there = io
  requests_go_well peers [] false c s io there = io
  requests_go_well peers (m ∷ ms) b c s io there =
      let (r, got) = send_request_returns net so e peers s m in
      rw (request_client-returned m c s r there got) (
        requests_go_well peers ms b (record c { connection = some (send_request net so e s m).0 }) _
          io refl)

  -- When the thread starts
  pub goes_well-documented :
      ((t : S) → so.has_peer t ≡ true)
      → (ms : List Message) (b : Bool) (s : S) → net.start_thread ≡ true
      → net.eq_endpoint (resolve_endpoint net so e) net.no_endpoint ≡ false
      → net.connect (resolve_endpoint net so e) ≡ some s
      → goes_well net so e (connects ∷ documented ms b) new_client ≡ true
  unfolding goes_well connect_client
  goes_well-documented peers ms b s starts found connected =
      rw (starts, found, connected)
        (requests_go_well peers ms b (record { io_thread = true; connection = some s }) s refl refl)

  -- When the thread does not start
  pub goes_well_no_thread :
      (calls : List Call) → net.start_thread ≡ false → goes_well net so e calls new_client ≡ false
  unfolding goes_well connect_client request_client disconnect_client destroy_client
  goes_well_no_thread [] off = refl
  goes_well_no_thread (connects ∷ calls) off = rw off (goes_well_no_thread calls off)
  goes_well_no_thread (disconnects ∷ calls) off = goes_well_no_thread calls off
  goes_well_no_thread (requests m ∷ calls) off = refl
