-- ===== src/Proto/People.antt =====
-- Round trips of persons and their parts through messages.
use ppl_me.Common.{◌≡◌, true, some}
use ppl_me.Core.{Person}
use ppl_me.Core.Outside.{DateOps, DateLaws, UuidOps, UuidLaws}
use ppl_me.Proto.{
  PersonMessage, Endian, position_to_proto, position_of_proto, person_to_proto, person_of_proto,
  or_empty, empty_date,
}
use ppl_me.Proto.Dates.{date_of_proto-date_to_proto}

module _ {U D F : Type 0} (ui : UuidOps U) (ulaws : UuidLaws U ui) (dt : DateOps D)
    (laws : DateLaws D dt) where
  -- A person whose date of birth is a regular date comes back from its message, whatever the
  -- message held before.
  pub person_of_proto-person_to_proto :
      (e : Endian) (p : Person U D F) (to : PersonMessage F)
      → laws.is_regular p.date_of_birth ≡ true
      → person_of_proto e ui dt (person_to_proto e ui dt p to) ≡ some p
  unfolding person_of_proto person_to_proto
  person_of_proto-person_to_proto e p to r = rw (
    ulaws.length-octets p.id.value,
    ulaws.of_octets_octets p.id.value,
    date_of_proto-date_to_proto dt laws e p.date_of_birth (or_empty to.date_of_birth empty_date) r,
    position_of_proto,
    position_to_proto,
  )
