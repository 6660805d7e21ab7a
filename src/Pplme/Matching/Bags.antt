-- ===== src/Pplme/Matching/Bags.antt =====
-- FindMatchingPpl seen from outside, where the order of its result tells nothing: a filter on the
-- bag of the persons that were added.
use ppl_me.Common.{ℕ, ◌≤◌, ◌≡◌, sym, subst, ap, ◌∙◌, true, some, List, arith, count-true}
use ppl_me.Common.Bag.{Bag, bag, size, passing, filter, bag_ext}
use ppl_me.Core.{Person, PplMatchingParameters, is_valid_position}
use ppl_me.Core.Outside.{FloatOps, FloatLaws, DateOps, DateLaws}
use ppl_me.Pplme.Cells.Order.{is_born_within}
use ppl_me.Pplme.Provider.{Impl, find_at}
use ppl_me.Pplme.Find.{System, returned, Reach}
use ppl_me.Pplme.Matching.{find_matching_ppl}
use ppl_me.Pplme.Matching.Holding.{Holds}
use ppl_me.Pplme.Matching.Answer.{AgesFit, matching, IsMatch, find_matching_ppl-IsMatch}

module _ {U D F : Type 0} (fl : FloatOps F) (dt : DateOps D) (fls : FloatLaws F fl)
    (laws : DateLaws D dt) where
  IsMatch-bag :
      (earliest latest : D) (max_ppl : ℕ) (ps r : List (Person U D F))
      → IsMatch fl dt fls laws max_ppl (matching fl dt fls laws earliest latest ps) r
      → size (filter (is_born_within dt laws earliest latest) (bag ps)) ≤ max_ppl
      → bag r ≡ filter (is_born_within dt laws earliest latest) (bag ps)
  unfolding filter passing
  IsMatch-bag earliest latest max_ppl ps r a few =
      bag_ext r (matching fl dt fls laws earliest latest ps)
        (a.complete (omega (arith, few, count-true (matching fl dt fls laws earliest latest ps))))

  -- For a provider that holds just some persons, of which only the bag people counts, a valid
  -- position of the user, ages whose dates can be computed, and at most max_ppl matches:
  -- whatever order its threads run in, the bag of what FindMatchingPpl returns is the filter of
  -- people by the dates of birth, so the order in which they were added, the grid and the place
  -- of the user are nothing to it.
  pub find_matching_ppl-filter :
      (m : Impl U D F) (ps : List (Person U D F)) (people : Bag (Person U D F))
      → Holds fl dt fls laws m ps
      → bag ps ≡ people
      → (today : D) (parameters : PplMatchingParameters F) (earliest latest : D)
      → AgesFit fl dt fls laws m today parameters.age_of_user earliest latest
      → is_valid_position fl parameters.location_of_user ≡ true
      → size (filter (is_born_within dt laws earliest latest) people) ≤ m.max_ppl
      → (begun s : System (Person U D F)) (r : List (Person U D F))
      → find_matching_ppl fl dt m today parameters ≡ some begun
      → Reach m.max_ppl m.per_find_concurrency
          (find_at fl dt m today parameters.age_of_user)
          begun
          s
      → s.main ≡ returned r
      → bag r ≡ filter (is_born_within dt laws earliest latest) people
  find_matching_ppl-filter m ps people holds same today parameters earliest latest fit somewhere few
        begun s r found reach back =
      IsMatch-bag earliest latest m.max_ppl ps r
        (find_matching_ppl-IsMatch fl dt fls laws m ps holds today parameters earliest latest fit
          somewhere begun s r found reach back)
        (subst (λ b. size (filter (is_born_within dt laws earliest latest) b) ≤ m.max_ppl)
          (sym same) few)
      ∙ ap (filter (is_born_within dt laws earliest latest)) same
