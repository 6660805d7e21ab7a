-- ===== src/Pplme/Repository.antt =====
-- PplmeMatchingPplProvider as the repository that PplSlurper fills.
use ppl_me.Common.{ℕ, ◌≡◌, refl, Bool, some, List, [], ◌∷◌, Option-cases, inl, inr}
use ppl_me.Core.{Person}
use ppl_me.Core.Outside.{FloatOps, DateOps, DateLaws}
use ppl_me.Repository.{PplRepository, RepositoryLaws, add_each}
use ppl_me.Pplme.Provider.{Impl, add_person}
use ppl_me.Pplme.Provider.Invariant.{IsValid, add_person-IsValid}
use ppl_me.Pplme.Matching.{add_all}
use ppl_me.Slurper.{StreamOps, populated, populate}
use ppl_me.Slurper.Laws.{StreamLaws, populate-add_each}

abbrev pub pplme_repository :
    {U D F : Type 0} → FloatOps F → DateOps D → PplRepository (Impl U D F) (Person U D F)
pplme_repository fl dt = record { add_person = add_person fl dt }

module _ {U D F : Type 0} (fl : FloatOps F) (dt : DateOps D) where
  pub pplme_repository_laws :
      (laws : DateLaws D dt)
      → RepositoryLaws {P = Person U D F} (pplme_repository fl dt) (IsValid fl dt laws)
  pplme_repository_laws laws = record {
    add_person_keeps = λ m m' p v e. add_person-IsValid fl dt laws m m' p v e;
  }

  add_each-add_all :
      (ps : List (Person U D F)) (m : Impl U D F)
      → add_each (pplme_repository fl dt) m ps ≡ add_all fl dt m ps
  unfolding add_each add_all
  add_each-add_all [] m = refl
  add_each-add_all (p ∷ ps) m = elim (Option-cases (add_person fl dt m p)) [
    | inl refused ↦ rw refused refl
    | inr (m1, added) ↦ rw added (add_each-add_all ps m1)
  ]

  module _ {S : Type 0} (so : StreamOps S U D F) (laws : StreamLaws S U D F so) where
    -- When Populate returns, with or without success, the provider is the one it got with some
    -- persons added to it by AddPerson one after the other.
    pub populate-add_all :
        (fuel : ℕ) (s : S) (m m' : Impl U D F) (ok : Bool)
        → populate so (pplme_repository fl dt) fuel s m ≡ populated m' ok
        → (ps : List (Person U D F)) × (add_all fl dt m ps ≡ some m')
    populate-add_all fuel s m m' ok e =
        let (ps, added) = populate-add_each so laws (pplme_repository fl dt) fuel s m m' ok e in
        (ps, rw⁻¹ (add_each-add_all ps m) added)
