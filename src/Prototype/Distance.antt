-- ===== src/Prototype/Distance.antt =====
-- The approximate distances of PrototypeMatchingPplProvider. Floating point beyond comparison,
-- addition and conversion is a parameter.
use ppl_me.Common.{Bool, not, ◌&&◌}
use ppl_me.Common.Int.{pos}
use ppl_me.Core.{GeoPosition, DecimalLatitude, DecimalLongitude}
use ppl_me.Core.Outside.{FloatOps}

pub record MathOps (F : Type 0) : Type 0 where
  pub sub : F → F → F
  pub mul : F → F → F
  pub div : F → F → F
  pub abs : F → F
  pub cos : F → F
  pub sqrt : F → F
  pub pi : F
  -- kRadiusOfEarth, 6378.137
  pub radius_of_earth : F

module _ {F : Type 0} (fl : FloatOps F) (mo : MathOps F) where
  open mo use {sub, mul, div, abs, cos, sqrt, pi, radius_of_earth}

  -- a > b
  abbrev pub exceeds : F → F → Bool
  exceeds a b = fl.leb b a && not (fl.leb a b)

  -- ApproxDistance of two latitudes
  unfoldable pub latitude_distance : DecimalLatitude F → DecimalLatitude F → F
  latitude_distance value1 value2 = abs (mul (sub value2.value value1.value) (fl.of_int (pos 110)))

  -- ApproxDistance of two longitudes at a latitude
  unfoldable pub longitude_distance :
      DecimalLatitude F → DecimalLongitude F → DecimalLongitude F → F
  longitude_distance latitude value1 value2 =
      let degree = cos (div (mul latitude.value pi) (fl.of_int (pos 180))) in
      let radians = mul degree (div pi (fl.of_int (pos 180))) in
      abs (mul (mul radians radius_of_earth) (sub value2.value value1.value))

  -- ApproxDistance of two positions
  unfoldable pub approx_distance : GeoPosition F → GeoPosition F → F
  unfolding latitude_distance longitude_distance
  approx_distance position1 position2 =
      let longitudinally =
        longitude_distance position1.latitude position1.longitude position2.longitude in
      let latitudinally = latitude_distance position1.latitude position2.latitude in
      sqrt (fl.add (mul longitudinally longitudinally) (mul latitudinally latitudinally))
