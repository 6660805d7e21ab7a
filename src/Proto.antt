-- ===== src/Proto.antt =====
-- src/libpplmeproto: the messages of the .proto files, and their conversions from and to the
-- domain types. A message is a record of fields that may be unset; the classes that protoc
-- generates for it are its fields, `has_x` is `is_some` and a getter returns the default if unset.
pub mod Dates
pub mod People
use Prim.Native.String.{String}
use ppl_me.Common.{
  ℕ, ◌+◌, ◌*◌, ◌/◌, ◌%◌, ◌^◌, Bool, Option, some, none, List, [], length, ◌==◌, if◌then◌else◌,
  check, ◌>>=◌, ◌>>◌,
}
use ppl_me.Common.Int.{ℤ, pos}
use ppl_me.Core.{Person, GeoPosition, geo_position}
use ppl_me.Core.Outside.{DateOps, UuidOps}

-- date.proto, geo_position.proto, uuid.proto, person.proto
pub record DateMessage : Type 0 where
  pub ymd : Option ℕ

pub record GeoPositionMessage (F : Type 0) : Type 0 where
  pub latitude : Option F
  pub longitude : Option F

pub record UuidMessage : Type 0 where
  pub octets : Option (List ℕ)

pub record PersonMessage (F : Type 0) : Type 0 where
  pub id : Option UuidMessage
  pub name : Option String
  pub date_of_birth : Option DateMessage
  pub location_of_home : Option (GeoPositionMessage F)

-- pplme_request.proto, request.proto, pplme_response.proto
pub record PplmeRequest (F : Type 0) : Type 0 where
  pub location_of_user : Option (GeoPositionMessage F)
  pub age_of_user : Option ℤ

pub record Request (F : Type 0) : Type 0 where
  pub pplme_request : Option (PplmeRequest F)

pub record PplmeResponse (F : Type 0) : Type 0 where
  pub ppl : List (PersonMessage F)

-- A message with no field set, which `mutable_x` makes and a getter of an unset field returns.
abbrev pub empty_date : DateMessage
empty_date = record { ymd = none }

abbrev pub empty_position : {F : Type 0} → GeoPositionMessage F
empty_position = record { latitude = none; longitude = none }

abbrev pub empty_uuid : UuidMessage
empty_uuid = record { octets = none }

abbrev pub empty_person : {F : Type 0} → PersonMessage F
empty_person = record { id = none; name = none; date_of_birth = none; location_of_home = none }

abbrev pub or_empty : {A : Type 0} → Option A → A → A
or_empty none d = d
or_empty (some a) d = a

-- The byte order of the host, and htonl, which is its own inverse ntohl.
pub data Endian : Type 0 where
  little big : Endian

abbrev pub swap32 : ℕ → ℕ
swap32 x =
    x % 2 ^ 8 * 2 ^ 24
    + x / 2 ^ 8 % 2 ^ 8 * 2 ^ 16
    + x / 2 ^ 16 % 2 ^ 8 * 2 ^ 8
    + x / 2 ^ 24 % 2 ^ 8

abbrev pub htonl : Endian → ℕ → ℕ
htonl little x = swap32 x
htonl big x = x

-- Convert(date, Date*): the sums are of uint32_t, and wrap.
unfoldable pub date_to_proto : {D : Type 0} → Endian → DateOps D → D → DateMessage → DateMessage
date_to_proto e dt from to =
    let year = dt.year from * 2 ^ 16 % 2 ^ 32 in
    let month = (year + dt.month from * 2 ^ 8) % 2 ^ 32 in
    record to { ymd = some (htonl e ((month + dt.day from) % 2 ^ 32)) }

-- Convert(Date, date*), with `none` for false. `(ymd & 0xFF00) >> 8` is the second octet, and
-- `ymd & 0xFF` the first.
unfoldable pub date_of_proto : {D : Type 0} → Endian → DateOps D → DateMessage → Option D
date_of_proto e dt from = do
  ymd ← from.ymd
  let host = htonl e ymd
  dt.of_ymd (host / 2 ^ 16) (host / 2 ^ 8 % 2 ^ 8) (host % 2 ^ 8)

-- Convert(core::GeoPosition, GeoPosition*) and back
unfoldable pub position_to_proto :
    {F : Type 0} → GeoPosition F → GeoPositionMessage F → GeoPositionMessage F
position_to_proto from to = record to {
  latitude = some from.latitude.value;
  longitude = some from.longitude.value;
}

unfoldable pub position_of_proto : {F : Type 0} → GeoPositionMessage F → Option (GeoPosition F)
position_of_proto from = do
  latitude ← from.latitude
  longitude ← from.longitude
  some (geo_position latitude longitude)

-- Convert(uuid, Uuid*) and back
unfoldable pub uuid_to_proto : {U : Type 0} → UuidOps U → U → UuidMessage → UuidMessage
uuid_to_proto ui from to = record to { octets = some (ui.octets from) }

unfoldable pub uuid_of_proto : {U : Type 0} → UuidOps U → UuidMessage → Option U
uuid_of_proto ui from = do
  octets ← from.octets
  check (length octets == 16)
  some (ui.of_octets octets)

module _ {U D F : Type 0} (e : Endian) (ui : UuidOps U) (dt : DateOps D) where
  -- Convert(core::Person, Person*)
  unfoldable pub person_to_proto : Person U D F → PersonMessage F → PersonMessage F
  unfolding uuid_to_proto date_to_proto position_to_proto
  person_to_proto from to = record {
    id = some (uuid_to_proto ui from.id.value (or_empty to.id empty_uuid));
    name = some from.name;
    date_of_birth =
        some (date_to_proto e dt from.date_of_birth (or_empty to.date_of_birth empty_date));
    location_of_home =
        some
          (position_to_proto from.location_of_home (or_empty to.location_of_home empty_position));
  }

  -- Convert(Person, core::Person*), with `none` for false.
  unfoldable pub person_of_proto : PersonMessage F → Option (Person U D F)
  unfolding uuid_of_proto date_of_proto position_of_proto
  person_of_proto from = do
    id_field ← from.id
    name_field ← from.name
    dob_field ← from.date_of_birth
    home_field ← from.location_of_home
    id ← uuid_of_proto ui id_field
    dob ← date_of_proto e dt dob_field
    home ← position_of_proto home_field
    some (record {
      id = record { value = id };
      name = name_field;
      date_of_birth = dob;
      location_of_home = home;
    })
