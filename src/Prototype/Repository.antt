-- ===== src/Prototype/Repository.antt =====
-- PrototypeMatchingPplProvider as a repository: what its constructor makes and AddPerson keeps.
use ppl_me.Common.{
  ℕ, ◌≡◌, ◌≤◌, sym, subst, some, none, [], Option-cases, inl, inr, arith, Bool-cases, ◌==◌,
  if◌then◌else◌,
}
use ppl_me.Common.Int.{ℤ}
use ppl_me.Core.{Person}
use ppl_me.Core.Outside.{FloatOps, FloatLaws, DateOps, DateLaws}
use ppl_me.Repository.{PplRepository, RepositoryLaws}
use ppl_me.Pplme.Cells.{insert_person}
use ppl_me.Pplme.Cells.Order.{IsSorted, insert_person-IsSorted}
use ppl_me.Prototype.Distance.{MathOps}
use ppl_me.Prototype.Grid.{calculate_size_for_ppl_grid}
use ppl_me.Prototype.Provider.{Impl, create, start_workers, add_person, get_ppl_index_of}
use ppl_me.Prototype.Matching.Answer.{IsReady}

abbrev pub prototype_repository :
    {U D F : Type 0}
    → FloatOps F
    → MathOps F
    → DateOps D
    → PplRepository (Impl U D F) (Person U D F)
prototype_repository fl mo dt = record { add_person = add_person fl mo dt }

module _ {U D F : Type 0} (fl : FloatOps F) (mo : MathOps F) (dt : DateOps D) (fls : FloatLaws F fl)
    (laws : DateLaws D dt) where
  created_members :
      (resolution : ℕ) (max_distance max_age_difference : ℤ) (m : Impl U D F)
      → create resolution max_distance max_age_difference ≡ some m
      → m ≡ record m { resolution = resolution; ppl = λ i. [] }
  unfolding create
  created_members resolution max_distance max_age_difference m e = ground arith

  pub create-IsReady :
      (resolution : ℕ) (max_distance max_age_difference : ℤ) (m : Impl U D F)
      → 1 ≤ resolution
      → create resolution max_distance max_age_difference ≡ some m
      → IsReady fl mo dt fls laws m
  unfolding create calculate_size_for_ppl_grid
  create-IsReady resolution max_distance max_age_difference m p e =
      let same : m ≡ record m { resolution = resolution; ppl = λ i. [] } =
        created_members resolution max_distance max_age_difference m e in
      subst (IsReady fl mo dt fls laws) (sym same)
        (record { resolved = p; few = ground arith; sized = ground arith; sorted = λ i. tt })

  -- Start leaves the grid as it is.
  pub start_workers-IsReady :
      (m : Impl U D F) → IsReady fl mo dt fls laws m → IsReady fl mo dt fls laws (start_workers m)
  unfolding start_workers
  start_workers-IsReady m ready = record {
    resolved = ready.resolved;
    few = ready.few;
    sized = ready.sized;
    sorted = ready.sorted;
  }

  module _ (m : Impl U D F) (p : Person U D F) (ready : IsReady fl mo dt fls laws m) where
    updated-IsSorted :
        (i j : ℕ) → IsSorted dt laws (if j == i then insert_person dt (m.ppl i) p else m.ppl j)
    updated-IsSorted i j = elim (Bool-cases (j == i)) [
      | inl here ↦ rw here (insert_person-IsSorted dt laws (m.ppl i) p (ready.sorted i))
      | inr elsewhere ↦ rw elsewhere (ready.sorted j)
    ]

    pub add_person-IsReady :
        (m' : Impl U D F) → add_person fl mo dt m p ≡ some m' → IsReady fl mo dt fls laws m'
    unfolding add_person
    add_person-IsReady m' e = elim (Option-cases (get_ppl_index_of fl mo dt m p.location_of_home)) [
      | inl outside ↦ absurd (let e' : none ≡ some m' = rw outside at e in cc)
      | inr (i, inside) ↦
          let added : some
                (record m { ppl = λ j. if j == i then insert_person dt (m.ppl i) p else m.ppl j })
              ≡ some m' =
            rw inside at e in
          let same : record m {
            ppl = λ j. if j == i then insert_person dt (m.ppl i) p else m.ppl j;
          }
              ≡ m' =
            cc in
          subst (IsReady fl mo dt fls laws) same (record {
            resolved = ready.resolved;
            few = ready.few;
            sized = ready.sized;
            sorted = updated-IsSorted i;
          })
    ]

  pub prototype_repository_laws :
      RepositoryLaws {P = Person U D F} (prototype_repository fl mo dt) (IsReady fl mo dt fls laws)
  prototype_repository_laws = record {
    add_person_keeps = λ m m' p ready e. add_person-IsReady m p ready m' e;
  }
