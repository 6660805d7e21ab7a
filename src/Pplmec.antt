-- ===== src/Pplmec.antt =====
-- pplmec: main.cc with its flags, and the whole of Pplme() in pplme.cc. What it prints of each
-- person is the person itself.
pub mod Laws
use Prim.Native.String.{String, len}
use ppl_me.Common.{
  Bool, true, false, not, ◌&&◌, Option, some, none, List, if◌then◌else◌, ltb, check, ◌>>=◌, ◌>>◌,
}
use ppl_me.Common.Int.{ℤ, pos, negsuc, ltb_ℤ, leb_ℤ}
use ppl_me.Core.{Person}
use ppl_me.Core.Outside.{DateOps, UuidOps}
use ppl_me.Proto.{Endian}
use ppl_me.Net.Message.{Message}
use ppl_me.Net.Connection.{SocketOps}
use ppl_me.Net.Client.{NetworkOps}
use ppl_me.Net.Client.Session.{
  Client, new_client, Result, crashed, returned, connect_client, request_client, destroy_client,
}
use ppl_me.Pplmed.{ProtoOps, pplme_request_of, pplme_results}

-- `double`: its comparisons with an int, and its conversion to float.
pub record DoubleOps (X F : Type 0) : Type 0 where
  pub at_least : X → ℤ → Bool
  pub at_most : X → ℤ → Bool
  pub narrow : X → F

pub record Flags (X : Type 0) : Type 0 where
  pub server : String
  pub port : ℤ
  pub latitude : X
  pub longitude : X
  pub age : ℤ

-- The validators, in the order of main.cc
unfoldable pub are_valid_flags : {X F : Type 0} → DoubleOps X F → Flags X → Bool
are_valid_flags dx flags =
    ltb 0 (len flags.server)
    && (ltb_ℤ (pos 0) flags.port && leb_ℤ flags.port (pos 65535))
    && (dx.at_least flags.latitude (negsuc 89) && dx.at_most flags.latitude (pos 90))
    && (dx.at_least flags.longitude (negsuc 179) && dx.at_most flags.longitude (pos 180))
    && leb_ℤ (pos 0) flags.age

-- How Pplme() ends: the process dies, it returns false, or it returns true with what it showed.
pub data Ended (A : Type 0) : Type 0 where
  died failed : Ended A
  showed : A → Ended A

module _ {E S U D F : Type 0} (net : NetworkOps E S) (so : SocketOps S) (po : ProtoOps F)
    (e : Endian) (ui : UuidOps U) (dt : DateOps D) where
  abbrev pub Shown : Type 0
  Shown = List (Option (Person U D F))

  -- A return from Pplme(), which destroys the client.
  unfoldable pub leave : {A : Type 0} → Client S → Ended A → Ended A
  leave c result = if destroy_client c then result else died

  -- Pplme() from the response on
  abbrev pub output : Option Shown → Ended Shown
  output none = failed
  output (some people) = showed people

  unfoldable pub on_response : Result S (Option Message) → Ended Shown
  unfolding leave
  on_response crashed = died
  on_response (returned none c) = leave c failed
  on_response (returned (some response) c) = leave c (output (pplme_results po e ui dt response))

  unfoldable pub on_connected : Message → Result S Bool → Ended Shown
  unfolding on_response
  on_connected request crashed = died
  on_connected request (returned false c) = leave c failed
  on_connected request (returned true c) = on_response (request_client net so e request c)

  -- Pplme(): `net` reaches the server's address and port.
  unfoldable pub pplme : (users_latitude users_longitude : F) → (users_age : ℤ) → Ended Shown
  unfolding on_connected
  pplme users_latitude users_longitude users_age =
      on_connected (pplme_request_of po e ui dt users_age users_latitude users_longitude)
        (connect_client net so e new_client)

-- main; `none` is a flag that its validator refuses, for which gflags ends the process.
unfoldable pub main :
    {X E S U D F : Type 0}
    → DoubleOps X F
    → (String → ℤ → NetworkOps E S)
    → SocketOps S
    → ProtoOps F
    → Endian
    → UuidOps U
    → DateOps D
    → Flags X
    → Option (Ended (List (Option (Person U D F))))
unfolding pplme
main dx network so po e ui dt flags = do
  check (are_valid_flags dx flags)
  some (
      pplme (network flags.server flags.port) so po e ui dt (dx.narrow flags.latitude)
        (dx.narrow flags.longitude) flags.age)
