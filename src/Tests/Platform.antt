-- ===== src/Tests/Platform.antt =====
-- A concrete platform for the examples: whole numbers for `float`, packed numbers for dates,
-- 16 octets for a uuid, and two lists of octets for a socket.
use ppl_me.Common.{
  ℕ, zero, suc, ◌+◌, ◌-◌, ◌*◌, ◌/◌, ◌%◌, ◌<◌, ◌≡◌, refl, ap, Bool, true, false, ◌&&◌, Option, some,
  none, List, [], ◌∷◌, ◌++◌, length, take, drop, arith, ltb, leb, if◌then◌else◌, check, ◌>>◌,
}
use ppl_me.Common.Int.{ℤ, pos, negsuc, ◌+ℤ◌, leb_ℤ, ◌≤ℤ◌}
use ppl_me.Core.Outside.{FloatOps, FloatLaws, DateOps, DateLaws, UuidOps, UuidLaws}
use ppl_me.Net.Connection.{SocketOps, SocketLaws}

abbrev pub floats : FloatOps ℤ
floats = record { leb = leb_ℤ; of_int = λ n. n; add = ◌+ℤ◌; to_int = λ n. n }

pub add_ℤ-mono : (x y n : ℤ) → leb_ℤ x y ≡ true → leb_ℤ (x +ℤ n) (y +ℤ n) ≡ true
add_ℤ-mono x y n h = ground arith

pub leb_ℤ-le : (x y : ℤ) → leb_ℤ x y ≡ true → x ≤ℤ y
leb_ℤ-le x y h = ground arith

abbrev pub floats_laws : FloatLaws ℤ floats
floats_laws = record {
  add_mono = λ x y n exact h. add_ℤ-mono x y n h;
  add-of_int = λ m n a b c. refl;
  to_int_between = λ x m n a b h k. (leb_ℤ-le m x h, leb_ℤ-le x n k);
}

-- Year, month and day in 16, 8 and 8 bits.
abbrev pub packed_date : ℕ → ℕ → ℕ → Option ℕ
packed_date y m d = do check (ltb y 65536 && ltb m 256 && ltb d 256); some (y * 65536 + m * 256 + d)

abbrev pub years_before : ℕ → ℤ → Option ℕ
years_before d (pos n) = do check (leb (n * 65536) d); some (d - n * 65536)
years_before d (negsuc n) = some (d + suc n * 65536)

abbrev pub dates : DateOps ℕ
dates = record {
  before = ltb;
  not_after = leb;
  minus_years = years_before;
  not_a_date = 0;
  year = λ d. d / 65536;
  month = λ d. d / 256 % 256;
  day = λ d. d % 256;
  of_ymd = packed_date;
}

pub packed_date-fields :
    (d : ℕ) → ltb d 4294967296 ≡ true → packed_date (d / 65536) (d / 256 % 256) (d % 256) ≡ some d
packed_date-fields d h = ground arith

pub fields-packed_date :
    (y m n d : ℕ)
    → packed_date y m n ≡ some d
    → (d / 65536 ≡ y) × (d / 256 % 256 ≡ m) × (d % 256 ≡ n)
fields-packed_date y m n d h = (ground arith, ground arith, ground arith)

pub year_bound : (d : ℕ) → ltb d 4294967296 ≡ true → d / 65536 < 65536
year_bound d h = ground arith

abbrev pub dates_laws : DateLaws ℕ dates
dates_laws = record {
  day_number = λ d. d;
  before_iff = λ a b. refl;
  not_after_iff = λ a b. refl;
  is_regular = λ d. ltb d 4294967296;
  of_ymd_fields = packed_date-fields;
  fields_of_ymd = fields-packed_date;
  field_bounds = λ d h. (year_bound d h, omega arith, omega arith);
}

-- `n` octets.
abbrev pub Octets : ℕ → Type 0
Octets zero = Unit {0}
Octets (suc n) = ℕ × Octets n

abbrev pub listed : (n : ℕ) → Octets n → List ℕ
listed zero u = []
listed (suc n) u = u.0 ∷ listed n u.1

abbrev pub octets_of : (n : ℕ) → List ℕ → Octets n
octets_of zero l = tt
octets_of (suc n) [] = (0, octets_of n [])
octets_of (suc n) (x ∷ xs) = (x, octets_of n xs)

abbrev pub all_zero : List ℕ → Bool
all_zero [] = true
all_zero (zero ∷ xs) = all_zero xs
all_zero (suc x ∷ xs) = false

pub length-listed : (n : ℕ) (u : Octets n) → length (listed n u) ≡ n
length-listed zero u = refl
length-listed (suc n) u = ap suc (length-listed n u.1)

pub octets_of-listed : (n : ℕ) (u : Octets n) → octets_of n (listed n u) ≡ u
octets_of-listed zero u = refl
octets_of-listed (suc n) u = ap {B = Octets (suc n)} (λ v. (u.0, v)) (octets_of-listed n u.1)

pub listed-octets_of : (n : ℕ) (l : List ℕ) → length l ≡ n → listed n (octets_of n l) ≡ l
listed-octets_of zero [] h = refl
listed-octets_of zero (x ∷ xs) h = absurd (omega arith)
listed-octets_of (suc n) [] h = absurd (omega arith)
listed-octets_of (suc n) (x ∷ xs) h = ap (λ l. x ∷ l) (listed-octets_of n xs (omega arith))

abbrev pub Uuid : Type 0
Uuid = Octets 16

abbrev pub uuids : UuidOps Uuid
uuids = record {
  nil = octets_of 16 [];
  is_nil = λ u. all_zero (listed 16 u);
  octets = listed 16;
  of_octets = octets_of 16;
}

abbrev pub uuids_laws : UuidLaws Uuid uuids
uuids_laws = record {
  nil-IsNil = refl;
  length-octets = length-listed 16;
  of_octets_octets = octets_of-listed 16;
  octets_of_octets = listed-octets_of 16;
}

-- A socket: what has been sent, and what is still to be read.
abbrev pub Wire : Type 0
Wire = List ℕ × List ℕ

abbrev pub read_wire : Wire → ℕ → Wire × Option (List ℕ)
read_wire w n = if leb n (length w.1) then ((w.0, drop n w.1), some (take n w.1)) else (w, none)

abbrev pub sockets : SocketOps Wire
sockets = record { write = λ w l. ((w.0 ++ l, w.1), true); read = read_wire; has_peer = λ w. true }

take_prefix : (l rest : List ℕ) → take (length l) (l ++ rest) ≡ l
take_prefix [] rest = ground arith
take_prefix (x ∷ xs) rest = ap (λ l. x ∷ l) (take_prefix xs rest)

drop_prefix : (l rest : List ℕ) → drop (length l) (l ++ rest) ≡ rest
drop_prefix [] rest = refl
drop_prefix (x ∷ xs) rest = drop_prefix xs rest

prefix_fits : (l rest : List ℕ) → leb (length l) (length (l ++ rest)) ≡ true
prefix_fits [] rest = ground arith
prefix_fits (x ∷ xs) rest = ground (arith, prefix_fits xs rest)

pub read_wire_prefix :
    (w : Wire) (l rest : List ℕ)
    → w.1 ≡ l ++ rest
    → ((read_wire w (length l)).1 ≡ some l) × ((read_wire w (length l)).0.1 ≡ rest)
read_wire_prefix w l rest h =
    rw (h, prefix_fits l rest) (ap some (take_prefix l rest), drop_prefix l rest)

abbrev pub sockets_laws : SocketLaws Wire sockets
sockets_laws = record {
  sent = λ w. w.0;
  incoming = λ w. w.1;
  write_ok = λ w l h. refl;
  read_ok = read_wire_prefix;
}
