-- ===== src/Pplme/Sqiral/Visits.antt =====
-- The cells of the walk of `Sqiral`: none is visited twice, and which are visited.
use ppl_me.Common.{
  ℕ, ◌+◌, ◌-◌, ◌*◌, ◌<◌, ◌≤◌, ◌≡◌, refl, ◌∙◌, sym, ap, Bool, true, List, [], ◌∷◌, arith, one_if,
  count, count_mono, leb, max, inl, inr, Bool-cases, ◌&&◌, if◌then◌else◌,
}
use ppl_me.Common.Int.{ℤ, eq_of_parts, pos, negsuc, pos_part, abs, ltb_ℤ, neg_ℤ, ◌-ℤ◌, ◌+ℤ◌, ◌≤ℤ◌}
use ppl_me.Pplme.Grid.{CellLocator, check_offsets, locator_eq, wrap_longitude}
use ppl_me.Pplme.Sqiral.{Offset, offset, cell_at}
use ppl_me.Pplme.Sqiral.Offsets.{is_on_grid, cells_at}
use ppl_me.Pplme.Sqiral.Ends.{last_round, sqiral_offsets, sqiral_cells}
use ppl_me.Pplme.Sqiral.Cover.{is_offset, distance, sqiral_offsets_once, wrapped, wrap_longitude-eq}

row_back : (a c : ℕ) (i : ℤ) → pos 0 ≤ℤ pos a +ℤ i → c ≡ pos_part (pos a +ℤ i) → pos c -ℤ pos a ≡ i
row_back a c (pos n) h e = ground arith
row_back a c (negsuc n) h e = ground arith

row_there : (a c : ℕ) → pos a +ℤ (pos c -ℤ pos a) ≡ pos c
row_there a c = ground arith

west_of : {n : ℕ} (j : ℤ) → abs j ≤ n → neg_ℤ (pos n) ≤ℤ j
west_of (pos j) h = ground arith
west_of (negsuc j) h = ground arith

east_of : {n : ℕ} (j : ℤ) → abs j ≤ n → j ≤ℤ pos n
east_of (pos j) h = ground arith
east_of (negsuc j) h = ground arith

row_near :
    (res a c : ℕ) → a ≤ 180 * res → c ≤ 181 * res → abs (pos c -ℤ pos a) ≤ max a (181 * res - a)
row_near res a c h k = ground arith

near_enough :
    (res a d l : ℕ)
    → a ≤ 180 * res
    → d ≤ max a (181 * res - a)
    → l ≤ 180 * res
    → d + l ≤ max (361 * res - a) (180 * res + a)
near_enough res a d l h k m = ground arith

once_of :
    {cells leads : ℕ} (offsets d l : ℕ)
    → cells ≤ 1
    → offsets ≤ leads
    → cells ≡ leads
    → offsets ≡ one_if (leb d l)
    → d ≤ l
    → cells ≡ 1
once_of offsets d l h k e f g = ground arith

is_offset-intro :
    (t o : Offset) → t.lat_off ≡ o.lat_off → t.long_off ≡ o.long_off → is_offset t o ≡ true
is_offset-intro t o h k = rw (h, k) (ground arith)

is_offset-eq : (t o : Offset) → is_offset t o ≡ true → t ≡ o
is_offset-eq t o h =
    let lat : t.lat_off ≡ o.lat_off = eq_of_parts _ _ (ground arith) in
    let long : t.long_off ≡ o.long_off = eq_of_parts _ _ (ground arith) in
    λ i. record { lat_off = lat i; long_off = long i }

locator_eq-intro :
    (c d : CellLocator)
    → c.latitude_index ≡ d.latitude_index
    → c.longitude_index ≡ d.longitude_index
    → locator_eq c d ≡ true
locator_eq-intro c d h k = ground arith

module _ (res : ℕ) (origin : CellLocator) where
  -- The signed way round the globe from the origin's column, at most half a turn if it can be.
  abbrev pub way_round : ℤ → ℤ
  way_round d =
      if ltb_ℤ (pos (180 * res)) d
      then d -ℤ pos (361 * res)
      else if ltb_ℤ d (neg_ℤ (pos (180 * res)))
      then d +ℤ pos (361 * res)
      else d

  column_back :
      (b c : ℕ) (j : ℤ)
      → b ≤ 360 * res
      → neg_ℤ (pos (180 * res)) ≤ℤ j
      → j ≤ℤ pos (180 * res)
      → c ≡ wrapped res (pos b +ℤ j)
      → way_round (pos c -ℤ pos b) ≡ j
  unfolding wrapped
  column_back b c (pos n) h lo hi e = ground arith
  column_back b c (negsuc n) h lo hi e = ground arith

  column_there :
      (b c : ℕ)
      → b ≤ 360 * res
      → c < 361 * res
      → abs (way_round (pos c -ℤ pos b)) ≤ 180 * res
      → wrapped res (pos b +ℤ way_round (pos c -ℤ pos b)) ≡ c
  unfolding wrapped
  column_there b c h k far = ground arith

  abbrev pub target : CellLocator → Offset
  target c =
      offset (pos c.latitude_index -ℤ pos origin.latitude_index)
        (way_round (pos c.longitude_index -ℤ pos origin.longitude_index))

  abbrev leads_to : CellLocator → Offset → Bool
  leads_to c o = is_on_grid res origin o && locator_eq c (cell_at res origin o)

  count-cells_at :
      (c : CellLocator) (os : List Offset)
      → count (locator_eq c) (cells_at res origin os) ≡ count (leads_to c) os
  unfolding cells_at
  count-cells_at c [] = refl
  count-cells_at c (o ∷ os) = elim (Bool-cases (is_on_grid res origin o)) [
    | inl on ↦ rw on (ground (arith, count-cells_at c os))
    | inr off ↦ rw off (ground (arith, count-cells_at c os))
  ]

  pub record Within (o : Offset) : Type 0 where
    pub west : neg_ℤ (pos (180 * res)) ≤ℤ o.long_off
    pub east : o.long_off ≤ℤ pos (180 * res)
    pub south : pos 0 ≤ℤ pos origin.latitude_index +ℤ o.lat_off
    pub north : pos origin.latitude_index +ℤ o.lat_off ≤ℤ pos (181 * res)

  pub is_on_grid→Within : (o : Offset) → is_on_grid res origin o ≡ true → Within o
  unfolding check_offsets
  is_on_grid→Within o h = ground arith

  Within→is_on_grid : (o : Offset) → Within o → is_on_grid res origin o ≡ true
  unfolding check_offsets
  Within→is_on_grid o w = ground arith

  module _ (placed : origin.latitude_index ≤ 180 * res)
      (inside : origin.longitude_index ≤ 360 * res) (pos_res : 1 ≤ res) where
    pub column-eq :
        (o : Offset)
        → Within o
        → wrap_longitude res (pos origin.longitude_index +ℤ o.long_off)
          ≡ wrapped res (pos origin.longitude_index +ℤ o.long_off)
    column-eq o w = wrap_longitude-eq res _ pos_res (ground arith) (ground arith)

    column_reached :
        (c : CellLocator) (o : Offset)
        → Within o
        → leads_to c o ≡ true
        → c.longitude_index ≡ wrapped res (pos origin.longitude_index +ℤ o.long_off)
    unfolding cell_at
    column_reached c o w h = ground (arith, column-eq o w)

    -- An offset on the grid is found back from its cell.
    leads_to→is_offset :
        (c : CellLocator) (o : Offset) → leads_to c o ≡ true → is_offset (target c) o ≡ true
    unfolding cell_at wrapped
    leads_to→is_offset c o h =
        let w : Within o = is_on_grid→Within o (ground arith) in
        is_offset-intro (target c) o
          (row_back origin.latitude_index c.latitude_index o.lat_off w.south (ground arith))
          (column_back origin.longitude_index c.longitude_index o.long_off inside w.west w.east
            (column_reached c o w h))

    target-Within :
        (c : CellLocator)
        → c.latitude_index ≤ 181 * res
        → abs (target c).long_off ≤ 180 * res
        → Within (target c)
    target-Within c row far = record {
      west = west_of _ far;
      east = east_of _ far;
      south = rw (row_there origin.latitude_index c.latitude_index) (omega arith);
      north = rw (row_there origin.latitude_index c.latitude_index) (omega arith);
    }

    is_offset→leads_to :
        (c : CellLocator) (o : Offset)
        → c.latitude_index ≤ 181 * res
        → c.longitude_index < 361 * res
        → abs (target c).long_off ≤ 180 * res
        → is_offset (target c) o ≡ true
        → leads_to c o ≡ true
    unfolding cell_at
    is_offset→leads_to c o row col far h =
        let w : Within (target c) = target-Within c row far in
        rw (sym (is_offset-eq (target c) o h), Within→is_on_grid (target c) w)
          (locator_eq-intro c (cell_at res origin (target c))
            (ap pos_part (sym (row_there origin.latitude_index c.latitude_index)))
            (sym (
              column-eq (target c) w
              ∙ column_there origin.longitude_index c.longitude_index inside col far)))

    -- With a resolution of at least 1, the walk from an origin in the grid visits no cell
    -- twice, so that the CHECK on pending_cells.insert cannot fail.
    pub sqiral_cells_once : (c : CellLocator) → count (locator_eq c) (sqiral_cells res origin) ≤ 1
    unfolding sqiral_cells
    sqiral_cells_once c =
        let at_most : count (leads_to c) (sqiral_offsets res origin)
            ≤ count (is_offset (target c)) (sqiral_offsets res origin) =
          count_mono _ _ (sqiral_offsets res origin) (leads_to→is_offset c) in
        ground (
          arith,
          at_most,
          count-cells_at c (sqiral_offsets res origin),
          sqiral_offsets_once res origin (target c),
        )

    target_near :
        (c : CellLocator)
        → c.latitude_index ≤ 181 * res
        → abs (target c).long_off ≤ 180 * res
        → distance (target c) ≤ last_round res origin
    unfolding last_round
    target_near c row far =
        near_enough res origin.latitude_index _ _ placed
          (row_near res origin.latitude_index c.latitude_index placed row) far

    -- A cell within half a turn of the origin's column is visited.
    pub sqiral_cells_reach :
        (c : CellLocator)
        → c.latitude_index ≤ 181 * res
        → c.longitude_index < 361 * res
        → abs (target c).long_off ≤ 180 * res
        → count (locator_eq c) (sqiral_cells res origin) ≡ 1
    unfolding sqiral_cells
    sqiral_cells_reach c row col far =
        let at_least : count (is_offset (target c)) (sqiral_offsets res origin)
            ≤ count (leads_to c) (sqiral_offsets res origin) =
          count_mono _ _ (sqiral_offsets res origin) (λ o. is_offset→leads_to c o row col far) in
        once_of _ _ _ (sqiral_cells_once c) (at_least)
          (count-cells_at c (sqiral_offsets res origin)) (sqiral_offsets_once res origin (target c))
          (target_near c row far)
