-- ===== src/Pplme/Matching/Holding.antt =====
-- What a provider of PplmeMatchingPplProvider holds: just the persons that were added to it.
use native.Mathlib.Nat.{mul-le-mul_right}
use ppl_me.Common.{
  ℕ, ◌≤◌, ◌≡◌, sym, subst, Bool, true, some, Option, List, arith, count, sum_of-zero,
}
use ppl_me.Common.Int.{ℤ}
use ppl_me.Core.{Person}
use ppl_me.Core.Outside.{FloatOps, FloatLaws, DateOps, DateLaws}
use ppl_me.Pplme.Grid.{CellLocator}
use ppl_me.Pplme.Sqiral.Ends.{sqiral_cells}
use ppl_me.Pplme.Sqiral.Bounds.{sqiral_cells-IsInGrid}
use ppl_me.Pplme.Sqiral.Places.{place, sqiral_visits_places}
use ppl_me.Pplme.Provider.{Impl, ThreadOps, create}
use ppl_me.Pplme.Provider.Invariant.{IsValid, create-IsValid, create-empty}
use ppl_me.Pplme.Matching.{add_all}
use ppl_me.Pplme.Matching.People.{Covers, population, AllValid, add_all-population}

-- The walk from a place covers the places.
pub walk-Covers :
    (res lat long : ℕ)
    → 1 ≤ res
    → lat ≤ 180
    → long ≤ 360
    → Covers res (sqiral_cells res (place res lat long))
walk-Covers res lat long p a b = record {
  on_grid =
      sqiral_cells-IsInGrid res (place res lat long) (mul-le-mul_right {m = lat} {n = 180} res a)
        (mul-le-mul_right {m = long} {n = 360} res b) p;
  each_place = λ lat' long' a' b'. sqiral_visits_places res lat long lat' long' p a b a' b';
}

module _ {U D F : Type 0} (fl : FloatOps F) (dt : DateOps D) (fls : FloatLaws F fl)
    (laws : DateLaws D dt) where
  -- A valid provider whose walks meet just the persons `ps`.
  pub record Holds (m : Impl U D F) (ps : List (Person U D F)) : Type 0 where
    pub valid : IsValid fl dt laws m
    pub people :
        (t : Person U D F → Bool) (cells : List CellLocator)
        → Covers m.resolution cells
        → population fl dt fls laws m t cells ≡ count t ps

  add_all-IsValid :
      (ps : List (Person U D F)) (m m' : Impl U D F)
      → IsValid fl dt laws m
      → AllValid fl dt fls laws ps
      → add_all fl dt m ps ≡ some m'
      → IsValid fl dt laws m' × (m'.resolution ≡ m.resolution)
  add_all-IsValid ps m m' v valid e =
      let (v', same, _) =
        add_all-population fl dt fls laws ps m m' (λ x. true)
          (sqiral_cells m.resolution (place m.resolution 0 0)) v valid
          (walk-Covers m.resolution 0 0 v.resolved (omega arith) (omega arith)) e in
      (v', same)

  nobody :
      (m : Impl U D F) (t : Person U D F → Bool) (cells : List CellLocator) (hardware : ThreadOps)
      (res : ℕ) (diff max_ppl : ℤ) (per_find : Option ℤ)
      → create hardware res diff max_ppl per_find ≡ some m
      → population fl dt fls laws m t cells ≡ 0
  nobody m t cells hardware res diff max_ppl per_find made =
      subst (λ x. population fl dt fls laws x t cells ≡ 0)
        (sym (create-empty fl dt laws hardware res diff max_ppl per_find m made))
        (sum_of-zero cells)

  -- A provider that was created with a resolution of at least 1, and to which persons with
  -- valid homes have then been added without a fault, is valid, and each walk that covers the
  -- grid meets just those persons, each as often as it was added.
  pub create-add_all-Holds :
      (hardware : ThreadOps) (res : ℕ) (diff max_ppl : ℤ) (per_find : Option ℤ) (m m' : Impl U D F)
      (ps : List (Person U D F))
      → 1 ≤ res
      → create hardware res diff max_ppl per_find ≡ some m
      → AllValid fl dt fls laws ps
      → add_all fl dt m ps ≡ some m'
      → Holds m' ps
  create-add_all-Holds hardware res diff max_ppl per_find m m' ps p made valid e =
      let v : IsValid fl dt laws m =
        create-IsValid fl dt laws hardware res diff max_ppl per_find m p made in
      record {
        valid = (add_all-IsValid ps m m' v valid e).0;
        people = λ t cells cov.
            let cov' : Covers m.resolution cells =
              subst (λ r. Covers r cells) (add_all-IsValid ps m m' v valid e).1 cov in
            omega (
              arith,
              (add_all-population fl dt fls laws ps m m' t cells v valid cov' e).2,
              nobody m t cells hardware res diff max_ppl per_find made,
            );
      }
