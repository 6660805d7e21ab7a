-- ===== src/Pplmec/Laws.antt =====
-- What a run of pplmec comes to.
use ppl_me.Common.{
  ℕ, ◌≤◌, ◌≡◌, ◌≢◌, refl, ap, Bool, true, false, ◌&&◌, Option, some, none, List, ◌++◌, length, map,
  arith, inl, inr, ltb,
}
use Prim.Native.String.{len}
use ppl_me.Common.Int.{ℤ, pos, negsuc, ltb_ℤ, leb_ℤ}
use ppl_me.Core.{Person, geo_position, is_valid_position}
use ppl_me.Core.Outside.{FloatOps, DateOps, DateLaws, UuidOps, UuidLaws, IsExact}
use ppl_me.Proto.{Endian}
use ppl_me.Net.Message.{Message, max_body_length}
use ppl_me.Net.Connection.{SocketOps, SocketLaws, send_message}
use ppl_me.Net.Frames.{length_octets}
use ppl_me.Net.Client.{NetworkOps, resolve_endpoint}
use ppl_me.Net.Client.Laws.{send_request-Received, send_request_returns}
use ppl_me.Net.Client.Session.{Client, returned, destroy_client}
use ppl_me.Net.Client.Session.Laws.{
  connect_client-connected, connect_client-cases, connect_client_off, request_client-returned,
}
use ppl_me.Pplmed.{ProtoOps, response_of, pplme_request_of, pplme_results}
use ppl_me.Pplmed.Laws.{AllRegular, people_shown}
use ppl_me.Pplmec.{
  DoubleOps, Flags, are_valid_flags, died, showed, leave, output, on_response, on_connected, pplme,
}

-- Documented of the conversion of a double to a float: it rounds monotonically, and whole numbers
-- of 24 bits are floats.
pub record DoubleLaws {X F : Type 0} (dx : DoubleOps X F) (fl : FloatOps F) : Type 0 where
  pub narrow_above :
      (x : X) (n : ℤ)
      → IsExact n
      → dx.at_least x n ≡ true
      → fl.leb (fl.of_int n) (dx.narrow x) ≡ true
  pub narrow_below :
      (x : X) (n : ℤ)
      → IsExact n
      → dx.at_most x n ≡ true
      → fl.leb (dx.narrow x) (fl.of_int n) ≡ true

valid_parts :
    (s p p' a b c d age : Bool)
    → s && (p && p') && (a && b) && (c && d) && age ≡ true
    → (a ≡ true) × (b ≡ true) × (c ≡ true) × (d ≡ true)
valid_parts s p p' a b c d age h = (ground arith, ground arith, ground arith, ground arith)

-- Flags that the validators of pplmec accept give, converted to float, a valid position of the
-- user, for a conversion that rounds monotonically.
pub flags-IsValidPosition :
    {X F : Type 0} (dx : DoubleOps X F) (fl : FloatOps F)
    → DoubleLaws dx fl
    → (flags : Flags X) → are_valid_flags dx flags ≡ true
    → is_valid_position fl (geo_position (dx.narrow flags.latitude) (dx.narrow flags.longitude))
      ≡ true
unfolding are_valid_flags is_valid_position
flags-IsValidPosition dx fl dl flags valid =
    let (a, b, c, d) =
      valid_parts (ltb 0 (len flags.server)) (ltb_ℤ (pos 0) flags.port)
        (leb_ℤ flags.port (pos 65535)) (dx.at_least flags.latitude (negsuc 89))
        (dx.at_most flags.latitude (pos 90)) (dx.at_least flags.longitude (negsuc 179))
        (dx.at_most flags.longitude (pos 180)) (leb_ℤ (pos 0) flags.age) valid in
    rw
      (
        dl.narrow_above flags.latitude (negsuc 89) (omega arith) a,
        dl.narrow_below flags.latitude (pos 90) (omega arith) b,
        dl.narrow_above flags.longitude (negsuc 179) (omega arith) c,
        dl.narrow_below flags.longitude (pos 180) (omega arith) d,
      )
      refl

module _ {E S U D F : Type 0} (net : NetworkOps E S) (so : SocketOps S) (po : ProtoOps F)
    (e : Endian) (ui : UuidOps U) (dt : DateOps D) where
  output-lives :
      (shown : Option (List (Option (Person U D F)))) → output net so po e ui dt shown ≢ died
  output-lives none h = absurd (ground arith)
  output-lives (some people) h = absurd (ground arith)

  -- After Connect the I/O thread runs, and the client's destructor can join it.
  response_lives :
      (response : Option Message) (c : Client S)
      → c.io_thread ≡ true
      → on_response net so po e ui dt (returned response c) ≢ died
  unfolding on_response leave destroy_client
  response_lives none c io = rw io (λ h. absurd (ground arith))
  response_lives (some m) c io = rw io (output-lives (pplme_results po e ui dt m))

  connected_lives :
      ((t : S) → so.has_peer t ≡ true)
      → (request : Message) (s : S)
      → on_connected net so po e ui dt request
          (returned true (record { io_thread = true; connection = some s }))
        ≢ died
  unfolding on_connected
  connected_lives peers request s =
      let (response, got) = send_request_returns net so e peers s request in
      rw
        (request_client-returned net so e request (record { io_thread = true; connection = some s })
          s response refl got)
        (response_lives response _ refl)

  unconnected_lives :
      (request : Message)
      → on_connected net so po e ui dt request
          (returned false (record { io_thread = true; connection = none }))
        ≢ died
  unfolding on_connected leave destroy_client
  unconnected_lives request h = absurd (ground arith)

  -- Pplme() never ends its process if the client's I/O thread can be started and
  -- remote_endpoint() of a socket does not throw, whatever else comes of the resolution, the
  -- connection and the exchange; and if the thread cannot be started it always ends the
  -- process, as the client's destructor joins a thread that there is not.
  pub pplme_lives :
      (latitude longitude : F) (age : ℤ)
      → (net.start_thread ≡ true
          → ((t : S) → so.has_peer t ≡ true)
          → pplme net so po e ui dt latitude longitude age ≢ died)
        × (net.start_thread ≡ false → pplme net so po e ui dt latitude longitude age ≡ died)
  unfolding pplme on_connected leave destroy_client
  pplme_lives latitude longitude age =
      let request = pplme_request_of po e ui dt age latitude longitude in
      (
        λ on peers. elim (connect_client-cases net so e on) [
          | inl unconnected ↦ rw unconnected (unconnected_lives request)
          | inr (s, connected) ↦ rw connected (connected_lives peers request s)
        ],
        λ off. rw (connect_client_off net so e off) refl,
      )

  pub pplme-shows :
      (ulaws : UuidLaws U ui) (dlaws : DateLaws D dt) (laws : SocketLaws S so)
      (latitude longitude : F) (age : ℤ) (s : S) (ppl : List (Person U D F)) (rest : List ℕ)
      → net.start_thread ≡ true
      → net.eq_endpoint (resolve_endpoint net so e) net.no_endpoint ≡ false
      → net.connect (resolve_endpoint net so e) ≡ some s
      → AllRegular po e ui ulaws dt dlaws ppl
      → po.parse_response (po.serialize_response (response_of po e ui dt ppl))
        ≡ some (response_of po e ui dt ppl)
      → length (po.serialize_response (response_of po e ui dt ppl)) ≤ max_body_length
      → (send_message so e s (pplme_request_of po e ui dt age latitude longitude)).1 ≡ some true
      → laws.incoming (send_message so e s (pplme_request_of po e ui dt age latitude longitude)).0
        ≡ length_octets (length (po.serialize_response (response_of po e ui dt ppl)))
          ++ (po.serialize_response (response_of po e ui dt ppl) ++ rest)
      → pplme net so po e ui dt latitude longitude age ≡ showed (map some ppl)
  unfolding pplme on_connected on_response leave destroy_client pplme_results
  pplme-shows ulaws dlaws laws latitude longitude age s ppl rest on found connected regular parsed
        short sent coming =
      let request = pplme_request_of po e ui dt age latitude longitude in
      let body = po.serialize_response (response_of po e ui dt ppl) in
      let got = send_request-Received net so laws e s request body rest sent short coming in
      rw
        (
          connect_client-connected net so e s on found connected,
          request_client-returned net so e request
              (record { io_thread = true; connection = some s }) s (some got.got) refl got.found_is,
          got.body_is,
          parsed,
        )
        (ap (output net so po e ui dt) (people_shown po e ui ulaws dt dlaws ppl regular))
