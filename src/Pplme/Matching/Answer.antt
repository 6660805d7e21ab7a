-- ===== src/Pplme/Matching/Answer.antt =====
-- FindMatchingPpl returns the matching persons: those who were added and are of the right age.
pub mod Pooled
use native.Mathlib.Nat.{mul-le-mul_right}
use ppl_me.Common.{
  ℕ, suc, ◌≤◌, ◌≡◌, sym, subst, ap, ◌∙◌, min, Bool, true, some, Option, List, All, All-map, arith,
  lt→ltb, ◌&&◌, count, count-select, count-true, sum_of-congr, sum_of-one_if, length, select,
}
use ppl_me.Common.Int.{ℤ, ◌+ℤ◌, ◌-ℤ◌}
use ppl_me.Core.{Person, PplMatchingParameters, is_valid_position}
use ppl_me.Core.Outside.{FloatOps, FloatLaws, DateOps, DateLaws}
use ppl_me.Pplme.Grid.{CellLocator, locator_eq, get_ppl_index, to_cell_locator}
use ppl_me.Pplme.Grid.Index.{get_ppl_index-lt-size}
use ppl_me.Pplme.Grid.Place.{IsPlace, to_cell_locator-IsPlace}
use ppl_me.Pplme.Cells.{fits_int}
use ppl_me.Pplme.Cells.Order.{is_born_within, find_in_cell-select}
use ppl_me.Pplme.Sqiral.Ends.{sqiral_cells}
use ppl_me.Pplme.Sqiral.Visits.{sqiral_cells_once}
use ppl_me.Pplme.Sqiral.Bounds.{IsInGrid}
use ppl_me.Pplme.Sqiral.Places.{place}
use ppl_me.Pplme.Provider.{Impl, cell_of, find_at}
use ppl_me.Pplme.Find.{System, returned, begin, Reach, Unaided, stays}
use ppl_me.Pplme.Find.Sets.{occurs}
use ppl_me.Pplme.Find.Invariant.{Finds}
use ppl_me.Pplme.Find.Result.{IsAnswer, Reach-IsAnswer, matches, all_matches, matches-true}
use ppl_me.Pplme.Find.Progress.{find_returns}
use ppl_me.Pplme.Find.Work.{work_left}
use ppl_me.Pplme.Matching.{find_matching_ppl}
use ppl_me.Pplme.Matching.Walk.{walk_from-eq}
use ppl_me.Pplme.Matching.People.{Covers}
use ppl_me.Pplme.Matching.Holding.{Holds, walk-Covers}

module _ {U D F : Type 0} (fl : FloatOps F) (dt : DateOps D) (fls : FloatLaws F fl)
    (laws : DateLaws D dt) where
  -- The dates between which matches were born can be computed without a fault.
  pub record AgesFit (m : Impl U D F) (today : D) (age_of_user : ℤ) (earliest latest : D)
      : Type 0 where
    pub most_fits : fits_int (age_of_user +ℤ m.max_age_difference) ≡ true
    pub least_fits : fits_int (age_of_user -ℤ m.max_age_difference) ≡ true
    pub earliest_is : dt.minus_years today (age_of_user +ℤ m.max_age_difference) ≡ some earliest
    pub latest_is : dt.minus_years today (age_of_user -ℤ m.max_age_difference) ≡ some latest

  -- The persons who match: of the right age, wherever they live.
  abbrev pub matching : D → D → List (Person U D F) → List (Person U D F)
  matching earliest latest = select (is_born_within dt laws earliest latest)

  -- `r` holds matching persons only, as many as `max_ppl` allows, and all of them if they fit.
  pub record IsMatch (max_ppl : ℕ) (people r : List (Person U D F)) : Type 0 where
    pub only : (t : Person U D F → Bool) → count t r ≤ count t people
    pub as_many : length r ≡ min max_ppl (length people)
    pub complete : length people ≤ max_ppl → (t : Person U D F → Bool) → count t r ≡ count t people

  module _ (m : Impl U D F) (ps : List (Person U D F)) (holds : Holds fl dt fls laws m ps)
      (today : D) (age_of_user : ℤ) (earliest latest : D)
      (fit : AgesFit m today age_of_user earliest latest) where
    found : CellLocator → List (Person U D F)
    found c = matching earliest latest (m.ppl (get_ppl_index m.resolution c))

    find : CellLocator → Option (List (Person U D F))
    find = find_at fl dt m today age_of_user

    find-found : (c : CellLocator) → IsInGrid m.resolution c → find c ≡ some (found c)
    unfolding find found find_at cell_of
    find-found c g =
        let inside =
          get_ppl_index-lt-size m.resolution m.grid_size c holds.valid.resolved holds.valid.sized
            g.0 g.1 in
        rw (lt→ltb _ _ inside) (
          find_in_cell-select dt laws today earliest latest m.max_age_difference age_of_user _
            (holds.valid.sorted (get_ppl_index m.resolution c)) fit.most_fits fit.least_fits
            fit.earliest_is fit.latest_is)

    matches-people :
        (t : Person U D F → Bool) (cells : List CellLocator)
        → Covers m.resolution cells
        → matches found t cells ≡ count t (matching earliest latest ps)
    unfolding found
    matches-people t cells cov =
        sum_of-congr _ _ cells (λ c. count-select t _ (m.ppl (get_ppl_index m.resolution c)))
        ∙ holds.people (λ p. is_born_within dt laws earliest latest p && t p) cells cov
        ∙ sym (count-select t _ ps)

    all_matches-people :
        (cells : List CellLocator)
        → Covers m.resolution cells
        → all_matches found cells ≡ length (matching earliest latest ps)
    all_matches-people cells cov =
        sym (matches-true found cells)
        ∙ matches-people (λ x. true) cells cov
        ∙ count-true (matching earliest latest ps)

    module _ (lat long : ℕ) (lat_ok : lat ≤ 180) (long_ok : long ≤ 360) where
      cells : List CellLocator
      cells = sqiral_cells m.resolution (place m.resolution lat long)

      cells-Covers : Covers m.resolution cells
      unfolding cells
      cells-Covers = walk-Covers m.resolution lat long holds.valid.resolved lat_ok long_ok

      cells_once : (c : CellLocator) → occurs c cells ≤ 1
      unfolding cells
      cells_once c =
          subst (λ n. n ≤ 1) (sym (sum_of-one_if (locator_eq c) cells))
            (sqiral_cells_once m.resolution (place m.resolution lat long)
              (mul-le-mul_right {m = lat} {n = 180} m.resolution lat_ok)
              (mul-le-mul_right {m = long} {n = 360} m.resolution long_ok) holds.valid.resolved c)

      cells-Finds : All (Finds m.max_ppl m.per_find_concurrency find found cells) cells
      cells-Finds = All-map (IsInGrid m.resolution) _ cells cells-Covers.on_grid find-found

      answer-IsMatch :
          (r : List (Person U D F))
          → IsAnswer m.max_ppl m.per_find_concurrency find found cells r
          → IsMatch m.max_ppl (matching earliest latest ps) r
      answer-IsMatch r a = record {
        only = λ t. omega (arith, a.from_cells t, matches-people t cells cells-Covers);
        as_many = a.as_many ∙ ap (min m.max_ppl) (all_matches-people cells cells-Covers);
        complete = λ few t.
            a.complete (omega (arith, few, all_matches-people cells cells-Covers)) t
            ∙ matches-people t cells cells-Covers;
      }

      reached-IsMatch :
          (s : System (Person U D F)) (r : List (Person U D F))
          → Reach m.max_ppl m.per_find_concurrency find
              (begin m.max_ppl m.per_find_concurrency find cells)
              s
          → s.main ≡ returned r
          → IsMatch m.max_ppl (matching earliest latest ps) r
      reached-IsMatch s r reach back = answer-IsMatch r (
          Reach-IsAnswer m.max_ppl m.per_find_concurrency find found cells cells_once cells-Finds s
            r reach back)

      reached_returns :
          1 ≤ m.per_find_concurrency
          → (s : System (Person U D F))
          → Reach m.max_ppl m.per_find_concurrency find
              (begin m.max_ppl m.per_find_concurrency find cells)
              s
          → (t : System (Person U D F)) × (r : List (Person U D F)) × Unaided m.max_ppl
              m.per_find_concurrency find s t
            × (t.main ≡ returned r)
      reached_returns room s reach =
          find_returns m.max_ppl m.per_find_concurrency find found cells room (suc (work_left s)) s
            s (omega arith) cells_once cells-Finds reach stays

  module _ (m : Impl U D F) (ps : List (Person U D F)) (holds : Holds fl dt fls laws m ps)
      (today : D) (parameters : PplMatchingParameters F) (earliest latest : D)
      (fit : AgesFit m today parameters.age_of_user earliest latest)
      (somewhere : is_valid_position fl parameters.location_of_user ≡ true) where
    abbrev search_cell : CellLocator → Option (List (Person U D F))
    search_cell = find_at fl dt m today parameters.age_of_user

    user-IsPlace :
        IsPlace m.resolution (to_cell_locator fl m.resolution parameters.location_of_user)
    user-IsPlace = to_cell_locator-IsPlace fl fls m.resolution parameters.location_of_user somewhere

    user_begin : System (Person U D F)
    user_begin =
        begin m.max_ppl m.per_find_concurrency search_cell
          (sqiral_cells m.resolution (place m.resolution user-IsPlace.lat user-IsPlace.long))

    begun-eq : find_matching_ppl fl dt m today parameters ≡ some user_begin
    unfolding find_matching_ppl user_begin
    begun-eq =
        let walked =
          walk_from-eq m.resolution (place m.resolution user-IsPlace.lat user-IsPlace.long)
            (mul-le-mul_right {m = user-IsPlace.lat} {n = 180} m.resolution user-IsPlace.lat_range)
            holds.valid.resolved in
        rw (user-IsPlace.found_at, walked)

    -- For a provider that holds just the persons ps, a valid position of the user, and ages
    -- whose dates can be computed: whatever order its threads run in, when FindMatchingPpl
    -- returns r, then r is made of persons of ps born between the two dates, is min(max_ppl,
    -- their number) long, and holds all of them if they are at most max_ppl.
    pub find_matching_ppl-IsMatch :
        (begun s : System (Person U D F)) (r : List (Person U D F))
        → find_matching_ppl fl dt m today parameters ≡ some begun
        → Reach m.max_ppl m.per_find_concurrency search_cell begun s
        → s.main ≡ returned r
        → IsMatch m.max_ppl (matching earliest latest ps) r
    unfolding user_begin cells find
    find_matching_ppl-IsMatch begun s r e reach back =
        let same : begun ≡ user_begin = cc (begun-eq) in
        reached-IsMatch m ps holds today parameters.age_of_user earliest latest fit user-IsPlace.lat
          user-IsPlace.long user-IsPlace.lat_range user-IsPlace.long_range s r
          (subst (λ b. Reach m.max_ppl m.per_find_concurrency search_cell b s) same reach) back

    pub find_matching_ppl_returns :
        1 ≤ m.per_find_concurrency
        → (begun : System (Person U D F)) × (find_matching_ppl fl dt m today parameters
            ≡ some begun)
          × ((s : System (Person U D F))
              → Reach m.max_ppl m.per_find_concurrency search_cell begun s
              → (t : System (Person U D F)) × (r : List (Person U D F)) × Unaided m.max_ppl
                  m.per_find_concurrency search_cell s t
                × (t.main ≡ returned r))
    unfolding user_begin cells find
    find_matching_ppl_returns room = (
      user_begin,
      begun-eq,
      reached_returns m ps holds today parameters.age_of_user earliest latest fit user-IsPlace.lat
          user-IsPlace.long user-IsPlace.lat_range user-IsPlace.long_range room,
    )
