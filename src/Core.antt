-- ===== src/Core.antt =====
-- src/libpplmecore and src/libpplmeutils/discriminated_value.h: the domain types.
-- What the code takes from elsewhere is a parameter: `Outside.Floats` for `float`,
-- `Outside.Dates` for boost::gregorian, `Outside.Uuids` for boost::uuids.
pub mod Outside
use Prim.Native.String.{String}
use ppl_me.Common.{ℕ, Bool, not, ◌&&◌}
use ppl_me.Common.Int.{ℤ, pos, negsuc}
use Outside.{FloatOps, DateOps, UuidOps}

-- DiscriminatedValue<V, D>; the tag `D` only tells types apart.
pub record DiscriminatedValue (V D : Type 0) : Type 0 where
  pub value : V

-- set_value()
pub set_value : {V D : Type 0} → V → DiscriminatedValue V D → DiscriminatedValue V D
set_value v x = record x { value = v }

-- operator== and operator!= of two values with one tag, over the == of the value type.
pub discriminated_eq :
    {V D : Type 0} → (V → V → Bool) → DiscriminatedValue V D → DiscriminatedValue V D → Bool
discriminated_eq eq lhs rhs = eq lhs.value rhs.value

pub discriminated_ne :
    {V D : Type 0} → (V → V → Bool) → DiscriminatedValue V D → DiscriminatedValue V D → Bool
unfolding discriminated_eq
discriminated_ne eq lhs rhs = not (discriminated_eq eq lhs rhs)

pub data DecimalLatitudeTag : Type 0 where
  latitude_tag : DecimalLatitudeTag

pub data DecimalLongitudeTag : Type 0 where
  longitude_tag : DecimalLongitudeTag

pub data PersonIdTag : Type 0 where
  person_id_tag : PersonIdTag

abbrev pub DecimalLatitude : Type 0 → Type 0
DecimalLatitude F = DiscriminatedValue F DecimalLatitudeTag

abbrev pub DecimalLongitude : Type 0 → Type 0
DecimalLongitude F = DiscriminatedValue F DecimalLongitudeTag

pub record GeoPosition (F : Type 0) : Type 0 where
  pub latitude : DecimalLatitude F
  pub longitude : DecimalLongitude F

-- GeoPosition{DecimalLatitude{a}, DecimalLongitude{b}}
abbrev pub geo_position : {F : Type 0} → F → F → GeoPosition F
geo_position a b = record { latitude = record { value = a }; longitude = record { value = b } }

-- GeoPosition::IsValid()
unfoldable pub is_valid_position : {F : Type 0} → FloatOps F → GeoPosition F → Bool
is_valid_position fl p =
    fl.leb (fl.of_int (negsuc 89)) p.latitude.value
    && fl.leb p.latitude.value (fl.of_int (pos 90))
    && fl.leb (fl.of_int (negsuc 179)) p.longitude.value
    && fl.leb p.longitude.value (fl.of_int (pos 180))

abbrev pub PersonId : Type 0 → Type 0
PersonId U = DiscriminatedValue U PersonIdTag

-- IsValid(PersonId const&)
unfoldable pub is_valid_id : {U : Type 0} → UuidOps U → PersonId U → Bool
is_valid_id ui id = not (ui.is_nil id.value)

pub record Person (U D F : Type 0) : Type 0 where
  pub id : PersonId U
  pub name : String
  pub date_of_birth : D
  pub location_of_home : GeoPosition F

-- Person::Person(), with the default date and a zero position.
unfoldable pub no_person : {U D F : Type 0} → UuidOps U → DateOps D → FloatOps F → Person U D F
no_person ui dt fl = record {
  id = record { value = ui.nil };
  name = "";
  date_of_birth = dt.not_a_date;
  location_of_home = geo_position (fl.of_int (pos 0)) (fl.of_int (pos 0));
}

-- Person::IsValid()
unfoldable pub is_valid_person : {U D F : Type 0} → UuidOps U → Person U D F → Bool
unfolding is_valid_id
is_valid_person ui p = is_valid_id ui p.id

pub record PplMatchingParameters (F : Type 0) : Type 0 where
  pub location_of_user : GeoPosition F
  pub age_of_user : ℤ
