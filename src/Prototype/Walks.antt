-- ===== src/Prototype/Walks.antt =====
-- Where GetNearbyCells goes: not beyond the grid, and never a quarter turn or more from the user.
use ppl_me.Common.{
  ℕ, zero, suc, ◌+◌, ◌-◌, ◌*◌, ◌^◌, ◌<◌, ◌≤◌, ◌≡◌, refl, ap, sym, ◌∙◌, Bool, true, false, Option,
  some, List, [], ◌∷◌, ◌++◌, All, All-append, arith, leb, ◌==◌, if◌then◌else◌, Bool-cases, inl, inr,
}
use ppl_me.Common.Int.{ℤ}
use ppl_me.Core.{GeoPosition}
use ppl_me.Core.Outside.{FloatOps}
use ppl_me.Prototype.Distance.{MathOps}
use ppl_me.Prototype.Grid.{
  CellLocator, locator, sub64, tick_north, tick_south, tick_east, tick_west, is_too_far_from_origin,
  is_too_far_north, is_too_far_south, is_too_far_east, is_too_far_west,
}
use ppl_me.Prototype.Nearby.{
  ticks, get_nearby_cells_same_latitude, north_rows, south_rows, get_nearby_cells,
}

-- A loop whose ticks keep a property and lower a measure ends, and pushes cells with the property.
ticks_lem :
    (too_far : CellLocator → Bool) (tick : CellLocator → CellLocator) (P : CellLocator → Type 0)
    (measure : CellLocator → ℕ)
    → ((c : CellLocator)
        → P c
        → too_far (tick c) ≡ false
        → P (tick c) × (measure (tick c) < measure c))
    → (fuel : ℕ) (c : CellLocator) → P c
    → measure c < fuel
    → (cs : List CellLocator) × (ticks too_far tick fuel c ≡ some cs) × All P cs
unfolding ticks
ticks_lem too_far tick P measure keep zero c p h = absurd (omega arith)
ticks_lem too_far tick P measure keep (suc fuel) c p h = elim (Bool-cases (too_far (tick c))) [
  | inl far ↦ ([], rw (far, ticks) refl, tt)
  | inr near ↦
      let (p', less) = keep c p near in
      let (cs, e, all) = ticks_lem too_far tick P measure keep fuel (tick c) p' (omega arith) in
      (tick c ∷ cs, rw (near, ticks) (rw e refl), (p', all))
]

not_first : (b x : Bool) → (if b then true else x) ≡ false → b ≡ false
not_first true x h = cc
not_first false x h = refl

sub64_up : (a b : ℕ) → b ≤ a → a < 2 ^ 64 → sub64 a b ≡ a - b
sub64_up a b h k = omega arith

sub64_down : (a b : ℕ) → a < b → b < 2 ^ 64 → sub64 a b ≡ 2 ^ 64 + a - b
sub64_down a b h k = omega arith

All-first : {A : Type 0} (P Q : A → Type 0) (xs : List A) → All (λ x. P x × Q x) xs → All P xs
All-first P Q [] all = tt
All-first P Q (x ∷ xs) all = (all.0.0, All-first P Q xs all.1)

-- In the grid, and less than a quarter turn from the user's column.
pub record IsNear (res : ℕ) (bullseye c : CellLocator) : Type 0 where
  pub row : c.latitude_index ≤ 180 * res
  pub column : c.longitude_index ≤ 360 * res
  pub west_of : c.longitude_index < bullseye.longitude_index + 90 * res
  pub east_of : bullseye.longitude_index < c.longitude_index + 90 * res

module _ {F : Type 0} (fl : FloatOps F) (mo : MathOps F) (res : ℕ) (some_res : 1 ≤ res)
    (few : res ≤ 100) (max_distance : ℤ) (origin : GeoPosition F) (bullseye : CellLocator)
    (row_in_grid : bullseye.latitude_index ≤ 180 * res)
    (column_in_grid : bullseye.longitude_index ≤ 360 * res) where
  abbrev far_north : CellLocator → Bool
  far_north = is_too_far_north fl mo res max_distance origin bullseye

  abbrev far_south : CellLocator → Bool
  far_south = is_too_far_south fl mo res max_distance origin bullseye

  abbrev far_east : CellLocator → Bool
  far_east = is_too_far_east fl mo res max_distance origin bullseye

  abbrev far_west : CellLocator → Bool
  far_west = is_too_far_west fl mo res max_distance origin bullseye

  is_close :
      (c : CellLocator)
      → c.longitude_index ≤ 360 * res
      → is_too_far_from_origin fl res bullseye c ≡ false
      → (c.longitude_index < bullseye.longitude_index + 90 * res)
        × (bullseye.longitude_index < c.longitude_index + 90 * res)
  unfolding is_too_far_from_origin
  is_close c h e = ground arith

  is_close_east :
      (c : CellLocator) → far_east c ≡ false → is_too_far_from_origin fl res bullseye c ≡ false
  unfolding is_too_far_east
  is_close_east c e = not_first _ _ e

  is_close_west :
      (c : CellLocator) → far_west c ≡ false → is_too_far_from_origin fl res bullseye c ≡ false
  unfolding is_too_far_west
  is_close_west c e = not_first _ _ e

  -- From the user's column on to the East.
  abbrev IsEastward : CellLocator → Type 0
  IsEastward c = IsNear res bullseye c × (bullseye.longitude_index ≤ c.longitude_index)

  abbrev IsWestward : CellLocator → Type 0
  IsWestward c = IsNear res bullseye c × (c.longitude_index ≤ bullseye.longitude_index)

  tick_east-IsEastward :
      (c : CellLocator)
      → IsEastward c
      → far_east (tick_east res c) ≡ false
      → IsEastward (tick_east res c)
        × (360 * res + 1 - (tick_east res c).longitude_index < 360 * res + 1 - c.longitude_index)
  unfolding tick_east
  tick_east-IsEastward c (near, east) e =
      let close = is_close (tick_east res c) (ground arith) (is_close_east _ e) in
      ground (arith, close, near.row, near.column)

  tick_west-IsWestward :
      (c : CellLocator)
      → IsWestward c
      → far_west (tick_west res c) ≡ false
      → IsWestward (tick_west res c) × ((tick_west res c).longitude_index < c.longitude_index)
  unfolding tick_west
  tick_west-IsWestward c (near, west) e =
      let close = is_close (tick_west res c) (ground arith) (is_close_west _ e) in
      ground (arith, close, near.row, near.column)

  -- On the user's column.
  abbrev InColumn : CellLocator → Type 0
  InColumn c = (c.latitude_index ≤ 180 * res) × (c.longitude_index ≡ bullseye.longitude_index)

  InColumn-IsNear : (c : CellLocator) → InColumn c → IsNear res bullseye c
  InColumn-IsNear c h = record {
    row = h.0;
    column = omega arith;
    west_of = omega arith;
    east_of = omega arith;
  }

  module _ (fuel : ℕ) (enough : 360 * res + 1 < fuel)
      (polar : far_south (locator (2 ^ 64 - 1) bullseye.longitude_index) ≡ true) where
    abbrev row_of : CellLocator → Option (List CellLocator)
    row_of = get_nearby_cells_same_latitude res far_north far_south far_east far_west fuel

    row_of_ends :
        (c : CellLocator)
        → InColumn c
        → (cs : List CellLocator) × (row_of c ≡ some cs) × All (IsNear res bullseye) cs
    unfolding get_nearby_cells_same_latitude
    row_of_ends c h =
        let near = InColumn-IsNear c h in
        let (east, e, all_east) =
          ticks_lem far_east (tick_east res) IsEastward (λ c. 360 * res + 1 - c.longitude_index)
            tick_east-IsEastward fuel c (near, omega arith) (omega arith) in
        let (west, w, all_west) =
          ticks_lem far_west (tick_west res) IsWestward (λ c. c.longitude_index)
            tick_west-IsWestward fuel c (near, omega arith) (omega arith) in
        (
          east ++ west,
          rw (e, w) refl,
          All-append (IsNear res bullseye) east west
              (All-first (IsNear res bullseye) _ east all_east)
              (All-first (IsNear res bullseye) _ west all_west),
        )

    north_rows_end :
        (cs : List CellLocator)
        → All InColumn cs
        → (rs : List CellLocator) × (north_rows res far_north far_south far_east far_west fuel cs
            ≡ some rs)
          × All (IsNear res bullseye) rs
    unfolding north_rows
    north_rows_end [] all = ([], refl, tt)
    north_rows_end (c ∷ cs) all =
        let (row, e, near) = row_of_ends c all.0 in
        let (rest, e', near') = north_rows_end cs all.1 in
        (
          c ∷ (row ++ rest),
          rw (e, e') refl,
          (InColumn-IsNear c all.0, All-append (IsNear res bullseye) row rest near near'),
        )

    south_rows_end :
        (cs : List CellLocator)
        → All InColumn cs
        → (rs : List CellLocator) × (south_rows res far_north far_south far_east far_west fuel cs
            ≡ some rs)
          × All (IsNear res bullseye) rs
    unfolding south_rows
    south_rows_end [] all = ([], refl, tt)
    south_rows_end (c ∷ cs) all =
        let (row, e, near) = row_of_ends c all.0 in
        let (rest, e', near') = south_rows_end cs all.1 in
        (row ++ rest, rw (e, e') refl, All-append (IsNear res bullseye) row rest near near')

    below_top : (c : CellLocator) → far_north c ≡ false → leb (180 * res) c.latitude_index ≡ false
    unfolding is_too_far_north
    below_top c e = not_first _ _ e

    past_pole :
        (c : CellLocator)
        → InColumn c
        → (c.latitude_index == 0) ≡ true
        → far_south (tick_south c) ≡ false
        → ⊥
    unfolding tick_south
    past_pole c h bottom e =
        let there : tick_south c ≡ locator (2 ^ 64 - 1) bullseye.longitude_index = ground arith in
        let wrong : true ≡ false = sym polar ∙ ap far_south (sym there) ∙ e in cc

    tick_north-InColumn :
        (c : CellLocator)
        → InColumn c
        → far_north (tick_north c) ≡ false
        → InColumn (tick_north c)
          × (180 * res - (tick_north c).latitude_index < 180 * res - c.latitude_index)
    unfolding tick_north is_too_far_north
    tick_north-InColumn c h e = ground (arith, below_top (tick_north c) e)

    tick_south-InColumn :
        (c : CellLocator)
        → InColumn c
        → far_south (tick_south c) ≡ false
        → InColumn (tick_south c) × ((tick_south c).latitude_index < c.latitude_index)
    unfolding tick_south
    tick_south-InColumn c h e = elim (Bool-cases (c.latitude_index == 0)) [
      | inl bottom ↦ absurd (past_pole c h bottom e)
      | inr above ↦ ground (arith, h, few)
    ]

    -- GetNearbyCells ends, whatever the distances are, within 360 * res + 2 rounds of each loop.
    pub get_nearby_cells-IsNear :
        (cs : List CellLocator) × (get_nearby_cells res far_north far_south far_east far_west fuel
            bullseye
          ≡ some cs)
        × All (IsNear res bullseye) cs
    unfolding get_nearby_cells
    get_nearby_cells-IsNear =
        let (row, e, near) = row_of_ends bullseye (row_in_grid, refl) in
        let (northern, en, column_n) =
          ticks_lem far_north tick_north InColumn (λ c. 180 * res - c.latitude_index)
            tick_north-InColumn fuel bullseye (row_in_grid, refl) (omega arith) in
        let (north, er, near_n) = north_rows_end northern column_n in
        let (southern, es, column_s) =
          ticks_lem far_south tick_south InColumn (λ c. c.latitude_index) tick_south-InColumn fuel
            bullseye (row_in_grid, refl) (omega arith) in
        let (south, er', near_s) = south_rows_end southern column_s in
        (
          row ++ (north ++ south),
          rw (e, en, er, es, er') refl,
          All-append (IsNear res bullseye) row (north ++ south) near
              (All-append (IsNear res bullseye) north south near_n near_s),
        )
