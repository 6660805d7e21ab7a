-- ===== src/MyFirst/Laws.antt =====
-- Persons that were added are found from their own cell, by age; at the North Pole the index is
-- out of range.
use ppl_me.Common.{
  ℕ, ◌≡◌, refl, sym, ap, subst, ◌∙◌, Bool, true, not, ◌&&◌, some, none, List, [], ◌∷◌, ◌++◌, select,
  arith, if◌then◌else◌,
}
use ppl_me.Common.Int.{ℤ, pos, ◌+ℤ◌, ◌-ℤ◌}
use ppl_me.Core.{Person, GeoPosition}
use ppl_me.Core.Outside.{FloatOps, DateOps}
use ppl_me.Pplme.Cells.{fits_int}
use ppl_me.MyFirst.{
  MyFirstMatchingPplProvider, times_360, index_in_grid, get_grid_pos, add_person, push_back,
  is_similar, similar_ppl, find_matching_ppl,
}

-- For a position whose latitude is the 90th degree North, at any longitude from 180 degrees
-- West on, the index of the first provider is beyond the end of its vector.
pub get_grid_pos_pole :
    {F : Type 0} (fl : FloatOps F) (p : GeoPosition F) (n : ℕ)
    → fl.to_int (fl.add p.latitude.value (fl.of_int (pos 90))) ≡ pos 180
    → fl.to_int (fl.add p.longitude.value (fl.of_int (pos 180))) ≡ pos n
    → get_grid_pos fl p ≡ none
unfolding get_grid_pos
get_grid_pos_pole fl p n lat long = rw (lat, long) (past_end n)
  where
    past_end : (n : ℕ) → index_in_grid (times_360 (pos 180) +ℤ pos n) ≡ none
    past_end n = ground arith

module _ {U D F : Type 0} (fl : FloatOps F) (dt : DateOps D) where
  -- Born between two dates, both included.
  abbrev pub is_of_age : D → D → Person U D F → Bool
  is_of_age earliest latest p =
      not (dt.before p.date_of_birth earliest) && dt.not_after p.date_of_birth latest

  module _ (today earliest latest : D) (diff age : ℤ) (most_fits : fits_int (age +ℤ diff) ≡ true)
      (least_fits : fits_int (age -ℤ diff) ≡ true)
      (earliest_is : dt.minus_years today (age +ℤ diff) ≡ some earliest)
      (latest_is : dt.minus_years today (age -ℤ diff) ≡ some latest) where
    is_similar-eq :
        (p : Person U D F) → is_similar fl dt today diff age p ≡ some (is_of_age earliest latest p)
    unfolding is_similar
    is_similar-eq p = rw (most_fits, earliest_is, least_fits, latest_is) refl

    similar_ppl-select :
        (ps : List (Person U D F))
        → similar_ppl fl dt today diff age ps ≡ some (select (is_of_age earliest latest) ps)
    unfolding similar_ppl
    similar_ppl-select [] = refl
    similar_ppl-select (p ∷ ps) = rw (is_similar-eq p, similar_ppl-select ps) refl

    select-append_one :
        (ps : List (Person U D F)) (p : Person U D F)
        → select (is_of_age earliest latest) (ps ++ p ∷ []) ≡ (
            if is_of_age earliest latest p
            then select (is_of_age earliest latest) ps ++ p ∷ []
            else select (is_of_age earliest latest) ps)
    select-append_one [] p = refl
    select-append_one (q ∷ qs) p = ground (arith, select-append_one qs p)

    found_in :
        (m : MyFirstMatchingPplProvider U D F) (user : GeoPosition F) (i : ℕ)
        → m.max_age_difference ≡ diff
        → get_grid_pos fl user ≡ some i
        → find_matching_ppl fl dt m today (record { location_of_user = user; age_of_user = age })
          ≡ some (select (is_of_age earliest latest) (m.ppl i))
    unfolding find_matching_ppl
    found_in m user i same here = rw (here, same) (similar_ppl-select (m.ppl i))

    found_before :
        (m : MyFirstMatchingPplProvider U D F) (user : GeoPosition F) (i : ℕ)
        → m.max_age_difference ≡ diff
        → get_grid_pos fl user ≡ some i
        → (r : List (Person U D F))
        → find_matching_ppl fl dt m today (record { location_of_user = user; age_of_user = age })
          ≡ some r
        → r ≡ select (is_of_age earliest latest) (m.ppl i)
    found_before m user i same here r before = cc (found_in m user i same here)

    added_is :
        (m m' : MyFirstMatchingPplProvider U D F) (p : Person U D F) (i : ℕ)
        → get_grid_pos fl p.location_of_home ≡ some i
        → add_person fl dt m p ≡ some m'
        → record m { ppl = push_back fl dt m.ppl i p } ≡ m'
    unfolding add_person
    added_is m m' p i home added =
        let h : some (record m { ppl = push_back fl dt m.ppl i p }) ≡ some m' = rw home at added in
        cc

    pushed :
        (cells : ℕ → List (Person U D F)) (i : ℕ) (p : Person U D F)
        → push_back fl dt cells i p i ≡ cells i ++ p ∷ []
    pushed cells i p = ground arith

    -- For a person and a user in one cell of the first provider, and ages whose dates can be
    -- computed: after AddPerson, FindMatchingPpl finds whom it found before, and then the
    -- person if it was born between the two dates, both included.
    pub find_matching_ppl-add_person :
        (m m' : MyFirstMatchingPplProvider U D F) (p : Person U D F) (user : GeoPosition F) (i : ℕ)
        → m.max_age_difference ≡ diff
        → get_grid_pos fl p.location_of_home ≡ some i
        → get_grid_pos fl user ≡ some i
        → (r : List (Person U D F))
        → find_matching_ppl fl dt m today (record { location_of_user = user; age_of_user = age })
          ≡ some r
        → add_person fl dt m p ≡ some m'
        → find_matching_ppl fl dt m' today (record { location_of_user = user; age_of_user = age })
          ≡ some (if is_of_age earliest latest p then r ++ p ∷ [] else r)
    find_matching_ppl-add_person m m' p user i same home here r before added =
        let is_r : r ≡ select (is_of_age earliest latest) (m.ppl i) =
          found_before m user i same here r before in
        subst
          (λ x.
            find_matching_ppl fl dt x today (record { location_of_user = user; age_of_user = age })
            ≡ some (if is_of_age earliest latest p then r ++ p ∷ [] else r))
          (added_is m m' p i home added)
          (found_in (record m { ppl = push_back fl dt m.ppl i p }) user i same here
            ∙ ap some (
                ap (select (is_of_age earliest latest)) (pushed m.ppl i p)
                ∙ select-append_one (m.ppl i) p
                ∙ ap (λ l. if is_of_age earliest latest p then l ++ p ∷ [] else l) (sym is_r)))
