-- ===== src/Pplmed/Daemon/Filled.antt =====
-- What the provider of a pplmed with test data holds.
use ppl_me.Common.{
  ℕ, zero, suc, ◌+◌, ◌≡◌, refl, ap, subst, sym, ◌∙◌, true, some, none, List, [], ◌∷◌, arith,
  Option-cases, inl, inr,
}
use ppl_me.Common.Int.{ℤ, pos_part}
use ppl_me.Core.{Person, geo_position, is_valid_position}
use ppl_me.Core.Outside.{FloatOps, FloatLaws, DateOps, DateLaws}
use ppl_me.Pplme.Provider.{Impl, ThreadOps, create, chosen_concurrency, add_person}
use ppl_me.Pplme.Provider.Invariant.{add_person-Added}
use ppl_me.Pplme.Matching.{add_all}
use ppl_me.Pplme.Matching.People.{AllValid}
use ppl_me.Pplme.Matching.Holding.{Holds, create-add_all-Holds}
use ppl_me.Slurper.{StreamOps}
use ppl_me.Net.Server.{SingleShotServer, StartOps, start, no_server}
use ppl_me.Net.Server.Life.{IsServing, start-IsServing}
use ppl_me.Pplmed.Daemon.{
  Flags, are_valid_flags, TestData, test_person, populate_test_db, go, went, main,
}
use ppl_me.Pplmed.Daemon.Serves.{create_server-Made, populate_test_db_total, flag-Numbers}

-- The persons that PopulateTestDb draws, from the person `i` on.
unfoldable pub test_people : {U D F : Type 0} → TestData U D F → (left i : ℕ) → List (Person U D F)
test_people test_data zero i = []
test_people test_data (suc left) i = test_person test_data i ∷ test_people test_data left (i + 1)

-- What is set when the provider is made, and what no AddPerson changes.
pub record HasSettings {U D F : Type 0} (concurrency max_ppl : ℕ) (difference : ℤ) (m : Impl U D F)
    : Type 0 where
  pub concurrency_is : m.per_find_concurrency ≡ concurrency
  pub max_ppl_is : m.max_ppl ≡ max_ppl
  pub difference_is : m.max_age_difference ≡ difference

module _ {U D F : Type 0} (fl : FloatOps F) (dt : DateOps D) (laws : DateLaws D dt)
    (concurrency max_ppl : ℕ) (difference : ℤ) where
  add_all-HasSettings :
      (ps : List (Person U D F)) (m m' : Impl U D F)
      → HasSettings concurrency max_ppl difference m
      → add_all fl dt m ps ≡ some m'
      → HasSettings concurrency max_ppl difference m'
  unfolding add_all
  add_all-HasSettings [] m m' v e =
      let same : m ≡ m' = cc in subst (HasSettings concurrency max_ppl difference) same v
  add_all-HasSettings (p ∷ ps) m m' v e = elim (Option-cases (add_person fl dt m p)) [
    | inl refused ↦ absurd (let e' : none ≡ some m' = rw refused at e in cc)
    | inr (m1, added) ↦
        let now = (add_person-Added fl dt laws m m1 p added).becomes in
        add_all-HasSettings ps m1 m'
          (record {
            concurrency_is = ap (λ x. x.per_find_concurrency) now ∙ v.concurrency_is;
            max_ppl_is = ap (λ x. x.max_ppl) now ∙ v.max_ppl_is;
            difference_is = ap (λ x. x.max_age_difference) now ∙ v.difference_is;
          })
          (rw added at e)
  ]

create-HasSettings :
    {U D F : Type 0} (hardware : ThreadOps) (res : ℕ) (difference people : ℤ) (m : Impl U D F)
    → create hardware res difference people none ≡ some m
    → HasSettings hardware.hardware_concurrency (pos_part people) difference m
unfolding create chosen_concurrency
create-HasSettings hardware res difference people m e = record {
  concurrency_is = ground arith;
  max_ppl_is = ground arith;
  difference_is = ground arith;
}

module _ (U : Type 0) {D F : Type 0} (fl : FloatOps F) (dt : DateOps D) (laws : DateLaws D dt)
    (fls : FloatLaws F fl) (test_data : TestData U D F)
    (in_range : (i : ℕ)
      → is_valid_position fl (geo_position (test_data.draw i).latitude (test_data.draw i).longitude)
        ≡ true)
    {S : Type 0} (so : StreamOps S U D F) (ops : StartOps) where
  populate_test_db-add_all :
      (left i : ℕ) (m : Impl U D F)
      → populate_test_db so fl dt test_data ops left i m
        ≡ add_all fl dt m (test_people test_data left i)
  unfolding populate_test_db test_people add_all
  populate_test_db-add_all zero i m = refl
  populate_test_db-add_all (suc left) i m =
      elim (Option-cases (add_person fl dt m (test_person test_data i))) [
        | inl refused ↦ rw refused refl
        | inr (m1, added) ↦ rw added (populate_test_db-add_all left (i + 1) m1)
      ]

  test_people-AllValid : (left i : ℕ) → AllValid fl dt fls laws (test_people test_data left i)
  unfolding test_people test_person
  test_people-AllValid zero i = tt
  test_people-AllValid (suc left) i = (in_range i, test_people-AllValid left (i + 1))

  -- With flags that the validators accept, no data file, test persons drawn with valid
  -- positions, a pool that can start its threads, and a Start whose calls have no error, pplmed
  -- fails no CHECK and throws nothing up to where it waits for input: Go succeeds with a server
  -- that serves and a provider that holds just the test persons drawn, as many as the flag
  -- says, with the hardware's concurrency and the limits that the flags set.
  pub main-Holds :
      (hardware : ThreadOps) (fuel : ℕ) (flags : Flags S)
      → are_valid_flags flags ≡ true
      → hardware.pool_starts ≡ true
      → flags.ppldata ≡ none
      → (start ops no_server).1 ≡ true
      → (m : Impl U D F) × (server : SingleShotServer) × (main so fl dt test_data ops hardware fuel
            flags
          ≡ some (went m server true))
        × IsServing server
        × Holds fl dt fls laws m (test_people test_data (pos_part flags.test_database_size) 0)
        × HasSettings hardware.hardware_concurrency
            (pos_part flags.max_ppl)
            flags.max_age_difference
            m
  unfolding main go
  main-Holds hardware fuel flags valid pool no_file started =
      let built = create_server-Made U fl dt laws hardware flags valid pool in
      let size : ℕ = pos_part flags.test_database_size in
      let (m, populated, m_valid) =
        populate_test_db_total U fl dt laws fls test_data in_range so ops size 0 built.provider
          built.valid in
      let added = sym (populate_test_db-add_all size 0 built.provider) ∙ populated in
      let n = flag-Numbers flags valid in
      (
        m,
        (start ops no_server).0,
        rw (valid, built.made, no_file, populated, started) refl,
        (start-IsServing ops).0 started,
        create-add_all-Holds fl dt fls laws hardware (pos_part flags.grid_resolution)
            flags.max_age_difference flags.max_ppl none built.provider m
            (test_people test_data size 0) (rw n.resolution_is n.resolution_range.0) built.built
            (test_people-AllValid size 0) added,
        add_all-HasSettings fl dt laws hardware.hardware_concurrency (pos_part flags.max_ppl)
            flags.max_age_difference (test_people test_data size 0) built.provider m
            (create-HasSettings hardware (pos_part flags.grid_resolution) flags.max_age_difference
              flags.max_ppl built.provider built.built)
            added,
      )
