-- ===== src/Pplmed/Daemon.antt =====
-- pplmed: main.cc with its flags, and Server::Impl of server.cc from its constructor to Go.
pub mod Serves
pub mod Sound
pub mod Filled
use Prim.Native.String.{String, ◌++◌}
use ppl_me.Common.{
  ℕ, zero, suc, ◌+◌, Bool, true, false, ◌&&◌, Option, some, none, List, [], ◌∷◌, if◌then◌else◌,
  check, ◌>>=◌, ◌>>◌,
}
use ppl_me.Common.Int.{ℤ, pos, pos_part, ltb_ℤ, leb_ℤ}
use ppl_me.Core.{Person, geo_position}
use ppl_me.Core.Outside.{FloatOps, DateOps}
use ppl_me.Pplme.Provider.{Impl, ThreadOps, create, add_person}
use ppl_me.Pplme.Repository.{pplme_repository}
use ppl_me.Slurper.{StreamOps, Populated, out_of_fuel, aborted, populated, populate}
use ppl_me.Net.Server.{SingleShotServer, no_server, StartOps, start}

-- `ppldata` is `none` for an empty file name, else the stream that PplSlurper opens.
pub record Flags (S : Type 0) : Type 0 where
  pub port : ℤ
  pub test_database_size : ℤ
  pub grid_resolution : ℤ
  pub max_ppl : ℤ
  pub max_age_difference : ℤ
  pub ppldata : Option S

-- The validators, in the order of main.cc
unfoldable pub are_valid_flags : {S : Type 0} → Flags S → Bool
are_valid_flags flags =
    (ltb_ℤ (pos 0) flags.port && leb_ℤ flags.port (pos 65535))
    && leb_ℤ (pos 0) flags.test_database_size
    && (ltb_ℤ (pos 0) flags.grid_resolution && leb_ℤ flags.grid_resolution (pos 100))
    && ltb_ℤ (pos 0) flags.max_ppl
    && leb_ℤ (pos 0) flags.max_age_difference

-- numeric_cast<unsigned short>; `none` is its exception.
unfoldable pub port_cast : ℤ → Option ℕ
port_cast port = do check (leb_ℤ (pos 0) port && leb_ℤ port (pos 65535)); some (pos_part port)

-- What PopulateTestDb draws for a person: a uuid, an age in days, negated, and a position.
pub record Draw (U F : Type 0) : Type 0 where
  pub uuid : U
  pub age : ℤ
  pub latitude : F
  pub longitude : F

-- What PopulateTestDb takes from elsewhere: today's date, a date plus days, std::to_string, and
-- the draws.
pub record TestData (U D F : Type 0) : Type 0 where
  pub today : D
  pub add_days : D → ℤ → D
  pub to_string : ℕ → String
  pub draw : ℕ → Draw U F

unfoldable pub test_person : {U D F : Type 0} → TestData U D F → ℕ → Person U D F
test_person test_data i =
    let drawn = test_data.draw i in
    record {
      id = record { value = drawn.uuid };
      name = "John Malkovich " ++ test_data.to_string i;
      date_of_birth = test_data.add_days test_data.today drawn.age;
      location_of_home = geo_position drawn.latitude drawn.longitude;
    }

-- Server::Impl::Impl: the provider and the port; `none` is a CHECK that fails, or an exception.
unfoldable pub create_server :
    {S U D F : Type 0} → (hardware : ThreadOps) → Flags S → Option (Impl U D F × ℕ)
unfolding port_cast
create_server hardware flags = do
  provider ←
      create hardware (pos_part flags.grid_resolution) flags.max_age_difference flags.max_ppl none
  port ← port_cast flags.port
  some (provider, port)

-- How Go ends; `went` holds the provider, the server, and whether Go succeeds.
pub data Went (U D F : Type 0) : Type 0 where
  fuel_gone died : Went U D F
  went : Impl U D F → SingleShotServer → Bool → Went U D F

module _ {S U D F : Type 0} (so : StreamOps S U D F) (fl : FloatOps F) (dt : DateOps D)
    (test_data : TestData U D F) (ops : StartOps) where
  -- PopulateTestDb, from the person `i` on.
  unfoldable pub populate_test_db : (left i : ℕ) → Impl U D F → Option (Impl U D F)
  unfolding test_person
  populate_test_db zero i m = some m
  populate_test_db (suc left) i m = do
    m' ← add_person fl dt m (test_person test_data i)
    populate_test_db left (i + 1) m'

  -- ok = ok && pplme_requests_server_.Start()
  abbrev pub then_start : Impl U D F → Bool → Went U D F
  then_start m ok =
      if ok
      then (let (server, started) = start ops no_server in went m server started)
      else went m no_server false

  abbrev pub after_slurping : Populated (Impl U D F) → Went U D F
  after_slurping out_of_fuel = fuel_gone
  after_slurping aborted = died
  after_slurping (populated m ok) = then_start m ok

  abbrev pub after_drawing : Option (Impl U D F) → Went U D F
  after_drawing none = died
  after_drawing (some m) = then_start m true

  -- Server::Impl::Go
  unfoldable pub go : (fuel : ℕ) → Flags S → Impl U D F → Went U D F
  unfolding populate_test_db
  go fuel flags m = elim flags.ppldata [
    | some stream ↦ after_slurping (populate so (pplme_repository fl dt) fuel stream m)
    | none ↦ after_drawing (populate_test_db (pos_part flags.test_database_size) 0 m)
  ]

  abbrev pub go_on : ℕ → Flags S → Option (Impl U D F × ℕ) → Went U D F
  go_on fuel flags none = died
  go_on fuel flags (some (m, port)) = go fuel flags m

  -- main, up to the line that waits for input; `none` is a flag that its validator refuses, for
  -- which gflags ends the process.
  unfoldable pub main : (hardware : ThreadOps) (fuel : ℕ) → Flags S → Option (Went U D F)
  main hardware fuel flags = do
    check (are_valid_flags flags)
    some (go_on fuel flags (create_server hardware flags))
