-- ===== src/Proto/Dates.antt =====
-- The packed dates of date.proto.
use ppl_me.Common.{ℕ, ◌+◌, ◌*◌, ◌/◌, ◌%◌, ◌^◌, ◌<◌, ◌≡◌, refl, ap, ◌∙◌, true, some, arith}
use ppl_me.Core.Outside.{DateOps, DateLaws}
use ppl_me.Proto.{DateMessage, Endian, little, big, htonl, swap32, date_to_proto, date_of_proto}

-- htonl undoes itself on 32 bits.
pub htonl-htonl : (e : Endian) (x : ℕ) → x < 2 ^ 32 → htonl e (htonl e x) ≡ x
htonl-htonl little x h = omega arith
htonl-htonl big x h = refl

packed :
    (y m d : ℕ)
    → y < 2 ^ 16
    → m < 2 ^ 8
    → d < 2 ^ 8
    → ((y * 2 ^ 16 % 2 ^ 32 + m * 2 ^ 8) % 2 ^ 32 + d) % 2 ^ 32 ≡ y * 2 ^ 16 + m * 2 ^ 8 + d
packed y m d hy hm hd = omega arith

repacked :
    (x : ℕ)
    → x < 2 ^ 32
    → ((x / 2 ^ 16 * 2 ^ 16 % 2 ^ 32 + x / 2 ^ 8 % 2 ^ 8 * 2 ^ 8) % 2 ^ 32 + x % 2 ^ 8) % 2 ^ 32 ≡ x
repacked x h = omega arith

same_ymd :
    {D : Type 0} (dt : DateOps D) {y y' m m' n n' : ℕ}
    → y ≡ y'
    → m ≡ m'
    → n ≡ n'
    → dt.of_ymd y m n ≡ dt.of_ymd y' m' n'
same_ymd dt p q r i = dt.of_ymd (p i) (q i) (r i)

module _ {D : Type 0} (dt : DateOps D) (laws : DateLaws D dt) where
  -- A date comes back from its message, on hosts of one byte order.
  pub date_of_proto-date_to_proto :
      (e : Endian) (d : D) (to : DateMessage)
      → laws.is_regular d ≡ true
      → date_of_proto e dt (date_to_proto e dt d to) ≡ some d
  unfolding date_of_proto date_to_proto
  date_of_proto-date_to_proto e d to r =
      let (y, m, n) = laws.field_bounds d r in
      rw (packed (dt.year d) (dt.month d) (dt.day d) y m n) (
        rw (htonl-htonl e (dt.year d * 2 ^ 16 + dt.month d * 2 ^ 8 + dt.day d) (omega arith))
          (same_ymd dt (omega arith) (omega arith) (omega arith) ∙ laws.of_ymd_fields d r))

  -- A regular date that a little-endian host wrote is read by a big-endian host with the day
  -- and the month as its year, and the two octets of the year as its month and its day.
  pub date_of_proto-other_order :
      (d : D) (to : DateMessage)
      → laws.is_regular d ≡ true
      → date_of_proto big dt (date_to_proto little dt d to)
        ≡ dt.of_ymd (dt.day d * 2 ^ 8 + dt.month d) (dt.year d % 2 ^ 8) (dt.year d / 2 ^ 8)
  unfolding date_of_proto date_to_proto
  date_of_proto-other_order d to r =
      let (y, m, n) = laws.field_bounds d r in
      rw (packed (dt.year d) (dt.month d) (dt.day d) y m n)
        (same_ymd dt (omega arith) (omega arith) (omega arith))

  -- A date that was read from a message of a 32-bit word is written back as that message, on
  -- hosts of either byte order.
  pub date_to_proto-date_of_proto :
      (e : Endian) (ymd : ℕ) (d : D)
      → ymd < 2 ^ 32
      → date_of_proto e dt (record { ymd = some ymd }) ≡ some d
      → date_to_proto e dt d (record { ymd = some ymd }) ≡ record { ymd = some ymd }
  unfolding date_of_proto date_to_proto
  date_to_proto-date_of_proto little ymd d h r =
      let (y, m, n) = laws.fields_of_ymd _ _ _ d r in
      rw (y, m, n)
        (ap {B = DateMessage} (λ x. record { ymd = some (swap32 x) })
            (repacked (swap32 ymd) (omega arith))
          ∙ ap {B = DateMessage} (λ x. record { ymd = some x }) (htonl-htonl little ymd h))
  date_to_proto-date_of_proto big ymd d h r =
      let (y, m, n) = laws.fields_of_ymd _ _ _ d r in
      rw (y, m, n) (ap {B = DateMessage} (λ x. record { ymd = some x }) (repacked ymd h))
