-- ===== src/Prototype/Matching/Answer.antt =====
-- What the prototype's FindMatchingPpl searches: the right persons of the user's own cell and of
-- cells in the grid, less than a quarter turn away.
use native.Mathlib.Nat.{mul-le-mul_right}
use ppl_me.Common.{
  ℕ, ◌+◌, ◌-◌, ◌*◌, ◌^◌, ◌≤◌, ◌≡◌, refl, ap, subst, ◌∙◌, Bool, true, Option, some, List, [], ◌∷◌,
  All, All-map, arith, lt→ltb, select, drop,
}
use ppl_me.Common.Int.{◌+ℤ◌, ◌-ℤ◌}
use ppl_me.Core.{
  Person, PplMatchingParameters, DecimalLatitude, DecimalLongitude, is_valid_position,
}
use ppl_me.Core.Outside.{FloatOps, FloatLaws, DateOps, DateLaws}
use ppl_me.Pplme.Grid as PplmeGrid
use ppl_me.Pplme.Grid.Place.{degrees_found}
use ppl_me.Pplme.Cells.{PplCell, fits_int, search_range, lower_bound, born_until}
use ppl_me.Pplme.Cells.Order.{IsSorted, is_born_within, search_range-select}
use ppl_me.Prototype.Distance.{MathOps}
use ppl_me.Prototype.Grid.{
  CellLocator, locator, calculate_size_for_ppl_grid, get_ppl_index, to_cell_locator,
  is_too_far_south, get_latitude_index, get_longitude_index,
}
use ppl_me.Prototype.Walks.{IsNear, get_nearby_cells-IsNear}
use ppl_me.Prototype.Provider.{
  Impl, find_in_cell, find_at, near_until, is_near_enough, get_ppl_index_of,
}
use ppl_me.Prototype.Find.{Search, begin, Reach, returned}
use ppl_me.Prototype.Find.Invariant.{Finds}
use ppl_me.Prototype.Find.Result.{IsAnswer, Reach-IsAnswer}
use ppl_me.Prototype.Matching.{nearby_cells_of, find_matching_ppl, get_ppl_index-lt-size}

module _ {U D F : Type 0} (fl : FloatOps F) (mo : MathOps F) (dt : DateOps D) (fls : FloatLaws F fl)
    (laws : DateLaws D dt) where
  -- A provider whose vector has the size of its grid, and whose cells are sorted.
  pub record IsReady (m : Impl U D F) : Type 0 where
    pub resolved : 1 ≤ m.resolution
    pub few : m.resolution ≤ 100
    pub sized : calculate_size_for_ppl_grid m.resolution ≡ some m.grid_size
    pub sorted : (i : ℕ) → IsSorted dt laws (m.ppl i)

  near_until-select :
      (is_near : Person U D F → Bool) (cell : PplCell U D F) (latest : D)
      → near_until fl mo dt is_near cell latest ≡ select is_near (born_until dt cell latest)
  unfolding near_until born_until
  near_until-select is_near [] latest = refl
  near_until-select is_near (p ∷ ps) latest = ground (arith, near_until-select is_near ps latest)

  module _ (m : Impl U D F) (ready : IsReady m) (today : D) (parameters : PplMatchingParameters F)
      (earliest latest : D)
      (most_fits : fits_int (parameters.age_of_user +ℤ m.max_age_difference) ≡ true)
      (least_fits : fits_int (parameters.age_of_user -ℤ m.max_age_difference) ≡ true)
      (earliest_is : dt.minus_years today (parameters.age_of_user +ℤ m.max_age_difference)
        ≡ some earliest)
      (latest_is : dt.minus_years today (parameters.age_of_user -ℤ m.max_age_difference)
        ≡ some latest) where
    -- Near enough, and born between the two dates.
    abbrev pub matching_in : PplCell U D F → List (Person U D F)
    matching_in cell =
        select (is_near_enough fl mo dt m.max_distance parameters.location_of_user)
          (select (is_born_within dt laws earliest latest) cell)

    abbrev pub found_at : CellLocator → List (Person U D F)
    found_at c = matching_in (m.ppl (get_ppl_index c))

    abbrev pub find_here : CellLocator → Option (List (Person U D F))
    find_here = find_at fl mo dt m today parameters

    range_of_cell :
        (cell : PplCell U D F)
        → IsSorted dt laws cell
        → born_until dt (drop (lower_bound dt cell earliest) cell) latest
          ≡ select (is_born_within dt laws earliest latest) cell
    unfolding search_range
    range_of_cell cell s = search_range-select dt laws earliest latest cell s

    find_in_cell-matching :
        (cell : PplCell U D F)
        → IsSorted dt laws cell
        → find_in_cell fl mo dt m today parameters cell ≡ some (matching_in cell)
    unfolding find_in_cell
    find_in_cell-matching cell s =
        rw (most_fits, earliest_is, least_fits, latest_is)
          (ap some (
            near_until-select _ (drop (lower_bound dt cell earliest) cell) latest
            ∙ ap (select _) (range_of_cell cell s)))

    find_at-matching :
        (c : CellLocator)
        → c.latitude_index ≤ 180 * m.resolution
        → c.longitude_index ≤ 360 * m.resolution
        → find_here c ≡ some (found_at c)
    unfolding find_at
    find_at-matching c row col =
        let inside =
          get_ppl_index-lt-size m.resolution m.grid_size c ready.resolved ready.sized row col in
        rw (lt→ltb _ _ inside)
          (find_in_cell-matching (m.ppl (get_ppl_index c)) (ready.sorted (get_ppl_index c)))

    -- The search that FindMatchingPpl begins.
    pub record Begun (begun : Option (Search CellLocator (Person U D F))) : Type 0 where
      pub bullseye : CellLocator
      pub cells : List CellLocator
      pub bullseye_is : to_cell_locator fl m.resolution parameters.location_of_user ≡ some bullseye
      pub begun_is : begun ≡ some (begin find_here (found_at bullseye) cells)
      pub near : All (IsNear m.resolution bullseye) cells
      pub finds : All (Finds find_here found_at (found_at bullseye) cells) cells

    latitude_same :
        (x : DecimalLatitude F)
        → get_latitude_index fl m.resolution x ≡ PplmeGrid.get_latitude_index fl m.resolution x
    unfolding get_latitude_index PplmeGrid.get_latitude_index
    latitude_same x = refl

    longitude_same :
        (x : DecimalLongitude F)
        → get_longitude_index fl m.resolution x ≡ PplmeGrid.get_longitude_index fl m.resolution x
    unfolding get_longitude_index PplmeGrid.get_longitude_index
    longitude_same x = refl

    user_cell :
        is_valid_position fl parameters.location_of_user ≡ true
        → (c : CellLocator) × (c.latitude_index ≤ 180 * m.resolution)
          × (c.longitude_index ≤ 360 * m.resolution)
          × (to_cell_locator fl m.resolution parameters.location_of_user ≡ some c)
    unfolding to_cell_locator
    user_cell v =
        let (lat, long, lat_range, long_range, lat_at, long_at) =
          degrees_found fl fls m.resolution parameters.location_of_user v in
        (
          locator (lat * m.resolution) (long * m.resolution),
          mul-le-mul_right {m = lat} {n = 180} m.resolution lat_range,
          mul-le-mul_right {m = long} {n = 360} m.resolution long_range,
          rw (latitude_same _ ∙ lat_at, longitude_same _ ∙ long_at),
        )

    nearby-Near :
        (c : CellLocator)
        → c.latitude_index ≤ 180 * m.resolution
        → c.longitude_index ≤ 360 * m.resolution
        → is_too_far_south fl mo m.resolution m.max_distance parameters.location_of_user c
            (locator (2 ^ 64 - 1) c.longitude_index)
          ≡ true
        → (cells : List CellLocator) × (nearby_cells_of fl mo dt m parameters.location_of_user c
            ≡ some cells)
          × All (IsNear m.resolution c) cells
    unfolding nearby_cells_of
    nearby-Near c row col polar =
        get_nearby_cells-IsNear fl mo m.resolution ready.resolved ready.few m.max_distance
          parameters.location_of_user c row col (360 * m.resolution + 2) (omega arith) polar

    -- For a prototype that has been started, whose vector fits its grid and whose cells are
    -- sorted, a valid position of the user, ages whose dates can be computed, and a distance
    -- that is too far South at the wrapped latitude index: FindMatchingPpl fails no CHECK and
    -- GetNearbyCells ends, the search begins with the matches of the user's cell, and every
    -- nearby cell is in the grid, less than a quarter turn away, and gives just its own
    -- matches.
    pub find_matching_ppl-Begun :
        m.has_workers ≡ true
        → is_valid_position fl parameters.location_of_user ≡ true
        → ((c : CellLocator)
            → is_too_far_south fl mo m.resolution m.max_distance parameters.location_of_user c
                (locator (2 ^ 64 - 1) c.longitude_index)
              ≡ true)
        → Begun (find_matching_ppl fl mo dt m today parameters)
    unfolding find_matching_ppl get_ppl_index_of
    find_matching_ppl-Begun started v polar =
        let (c, row, col, at_c) = user_cell v in
        let (cells, listed, near) = nearby-Near c row col (polar c) in
        let inside =
          get_ppl_index-lt-size m.resolution m.grid_size c ready.resolved ready.sized row col in
        record {
          bullseye = c;
          cells = cells;
          bullseye_is = at_c;
          begun_is = rw (
            at_c,
            lt→ltb _ _ inside,
            find_in_cell-matching (m.ppl (get_ppl_index c)) (ready.sorted (get_ppl_index c)),
            listed,
            started,
          );
          near = near;
          finds =
              All-map (IsNear m.resolution c) (Finds find_here found_at (found_at c) cells) cells
                near (λ d n. find_at-matching d n.row n.column);
        }

    -- Once FindMatchingPpl of the prototype has begun its search, whatever order its threads
    -- run in and whenever its second is over: when it returns r, r has all matches of the
    -- user's cell and nothing but those and the matches of the nearby cells, and all of them if
    -- it did not run out of time.
    pub find_matching_ppl-IsAnswer :
        (b : Begun (find_matching_ppl fl mo dt m today parameters))
        (begun s : Search CellLocator (Person U D F)) (finished : Bool) (r : List (Person U D F))
        → find_matching_ppl fl mo dt m today parameters ≡ some begun
        → Reach find_here begun s
        → s.main ≡ returned finished r
        → IsAnswer find_here found_at (found_at b.bullseye) b.cells finished r
    find_matching_ppl-IsAnswer b begun s finished r e reach back =
        let same : begun ≡ begin find_here (found_at b.bullseye) b.cells = cc (b.begun_is) in
        Reach-IsAnswer find_here found_at (found_at b.bullseye) b.cells b.finds s finished r
          (subst (λ x. Reach find_here x s) same reach) back
