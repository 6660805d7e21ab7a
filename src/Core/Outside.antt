-- ===== src/Core/Outside.antt =====
-- What the program uses of `float`, boost::gregorian::date and boost::uuids::uuid, as parameters.
-- Each `...Ops` record holds the operations, each `...Laws` record what is documented of them.
use ppl_me.Common.{ℕ, ◌+◌, ◌<◌, ◌≤◌, ◌^◌, ◌≡◌, Bool, true, Option, some, List, length, ltb, leb}
use ppl_me.Common.Int.{ℤ, pos_part, neg_part, ◌≤ℤ◌, ◌+ℤ◌}

pub record FloatOps (F : Type 0) : Type 0 where
  -- a <= b; false if either is NaN
  pub leb : F → F → Bool
  -- conversion of an int
  pub of_int : ℤ → F
  pub add : F → F → F
  -- conversion to int, towards zero
  pub to_int : F → ℤ

-- Integers of at most 24 bits are floats.
abbrev pub IsExact : ℤ → Type 0
IsExact n = pos_part n + neg_part n ≤ 2 ^ 24

-- IEEE 754 single precision: addition rounds monotonically and is exact on integers of 24 bits;
-- truncation stays between whole bounds.
pub record FloatLaws (F : Type 0) (fl : FloatOps F) : Type 0 where
  pub add_mono :
      (x y : F) (n : ℤ)
      → IsExact n
      → fl.leb x y ≡ true
      → fl.leb (fl.add x (fl.of_int n)) (fl.add y (fl.of_int n)) ≡ true
  pub add-of_int :
      (m n : ℤ)
      → IsExact m
      → IsExact n
      → IsExact (m +ℤ n)
      → fl.add (fl.of_int m) (fl.of_int n) ≡ fl.of_int (m +ℤ n)
  pub to_int_between :
      (x : F) (m n : ℤ)
      → IsExact m
      → IsExact n
      → fl.leb (fl.of_int m) x ≡ true
      → fl.leb x (fl.of_int n) ≡ true
      → (m ≤ℤ fl.to_int x) × (fl.to_int x ≤ℤ n)

pub record DateOps (D : Type 0) : Type 0 where
  -- operator< and operator<=
  pub before : D → D → Bool
  pub not_after : D → D → Bool
  -- date - years(n); `none` where the result's year is out of range and boost throws
  pub minus_years : D → ℤ → Option D
  pub not_a_date : D
  pub year : D → ℕ
  pub month : D → ℕ
  pub day : D → ℕ
  -- date(year, month, day); `none` where it throws std::out_of_range
  pub of_ymd : ℕ → ℕ → ℕ → Option D

-- Dates are compared by their day numbers, and years and months are calendar fields.
pub record DateLaws (D : Type 0) (dt : DateOps D) : Type 0 where
  pub day_number : D → ℕ
  pub before_iff : (a b : D) → dt.before a b ≡ ltb (day_number a) (day_number b)
  pub not_after_iff : (a b : D) → dt.not_after a b ≡ leb (day_number a) (day_number b)
  pub is_regular : D → Bool
  pub of_ymd_fields :
      (d : D) → is_regular d ≡ true → dt.of_ymd (dt.year d) (dt.month d) (dt.day d) ≡ some d
  pub fields_of_ymd :
      (y m n : ℕ) (d : D)
      → dt.of_ymd y m n ≡ some d
      → (dt.year d ≡ y) × (dt.month d ≡ m) × (dt.day d ≡ n)
  pub field_bounds :
      (d : D)
      → is_regular d ≡ true
      → (dt.year d < 2 ^ 16) × (dt.month d < 2 ^ 8) × (dt.day d < 2 ^ 8)

pub record UuidOps (U : Type 0) : Type 0 where
  pub nil : U
  pub is_nil : U → Bool
  -- the octets from begin(), size() of them
  pub octets : U → List ℕ
  -- the uuid whose `data` holds the given 16 octets
  pub of_octets : List ℕ → U

pub record UuidLaws (U : Type 0) (ui : UuidOps U) : Type 0 where
  pub nil-IsNil : ui.is_nil ui.nil ≡ true
  pub length-octets : (u : U) → length (ui.octets u) ≡ 16
  pub of_octets_octets : (u : U) → ui.of_octets (ui.octets u) ≡ u
  pub octets_of_octets : (l : List ℕ) → length l ≡ 16 → ui.octets (ui.of_octets l) ≡ l
