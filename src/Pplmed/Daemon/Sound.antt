-- ===== src/Pplmed/Daemon/Sound.antt =====
-- What pplmed waits with, however it was filled.
use ppl_me.Common.{
  ℕ, zero, suc, ◌+◌, ◌≡◌, refl, subst, Bool, true, false, some, none, Option-cases, Bool-cases, inl,
  inr, arith,
}
use ppl_me.Common.Int.{pos_part}
use ppl_me.Core.Outside.{FloatOps, DateOps, DateLaws}
use ppl_me.Repository.{add_each_keeps}
use ppl_me.Pplme.Provider.{Impl, ThreadOps, create, add_person}
use ppl_me.Pplme.Provider.Invariant.{IsValid, add_person-IsValid}
use ppl_me.Pplme.Repository.{pplme_repository, pplme_repository_laws}
use ppl_me.Slurper.{StreamOps, Populated, out_of_fuel, aborted, populated, populate}
use ppl_me.Slurper.Laws.{StreamLaws, populate-add_each}
use ppl_me.Net.Server.{StartOps}
use ppl_me.Net.Server.Life.{IsServing, start-IsServing}
use ppl_me.Pplmed.Daemon.{
  Flags, are_valid_flags, TestData, test_person, create_server, Went, fuel_gone, died, went,
  populate_test_db, then_start, after_slurping, after_drawing, go, go_on, main,
}
use ppl_me.Pplmed.Daemon.Serves.{create_server-Made}

module _ {S U D F : Type 0} (so : StreamOps S U D F) (slaws : StreamLaws S U D F so)
    (fl : FloatOps F) (dt : DateOps D) (laws : DateLaws D dt) (test_data : TestData U D F)
    (ops : StartOps) where
  -- The provider is valid, and the server serves if Go succeeds.
  pub IsSound : Went U D F → Type 0
  IsSound fuel_gone = Unit {0}
  IsSound died = Unit {0}
  IsSound (went m server ok) = IsValid fl dt laws m × (ok ≡ true → IsServing server)

  then_start-IsSound :
      (m : Impl U D F) (ok : Bool)
      → IsValid fl dt laws m
      → IsSound (then_start so fl dt test_data ops m ok)
  unfolding IsSound
  then_start-IsSound m true v = (v, (start-IsServing ops).0)
  then_start-IsSound m false v = (v, λ q. cc)

  slurping-IsSound :
      (fuel : ℕ) (s : S) (m : Impl U D F) (r : Populated (Impl U D F))
      → IsValid fl dt laws m
      → populate so (pplme_repository fl dt) fuel s m ≡ r
      → IsSound (after_slurping so fl dt test_data ops r)
  unfolding IsSound
  slurping-IsSound fuel s m out_of_fuel v e = tt
  slurping-IsSound fuel s m aborted v e = tt
  slurping-IsSound fuel s m (populated m' ok) v e =
      let (ps, added) = populate-add_each so slaws (pplme_repository fl dt) fuel s m m' ok e in
      then_start-IsSound m' ok (
        add_each_keeps (pplme_repository fl dt) (IsValid fl dt laws)
          (pplme_repository_laws fl dt laws) ps m m' v added)

  drawing-IsSound :
      (left i : ℕ) (m : Impl U D F)
      → IsValid fl dt laws m
      → IsSound
          (after_drawing so fl dt test_data ops (populate_test_db so fl dt test_data ops left i m))
  unfolding IsSound populate_test_db
  drawing-IsSound zero i m v = then_start-IsSound m true v
  drawing-IsSound (suc left) i m v =
      elim (Option-cases (add_person fl dt m (test_person test_data i))) [
        | inl refused ↦ rw refused tt
        | inr (m1, added) ↦ rw added (
            drawing-IsSound left (i + 1) m1
              (add_person-IsValid fl dt laws m m1 (test_person test_data i) v added))
      ]

  go-IsSound :
      (fuel : ℕ) (flags : Flags S) (m : Impl U D F)
      → IsValid fl dt laws m
      → IsSound (go so fl dt test_data ops fuel flags m)
  unfolding go
  go-IsSound fuel flags m v = elim (Option-cases flags.ppldata) [
    | inl no_file ↦ rw no_file (drawing-IsSound (pos_part flags.test_database_size) 0 m v)
    | inr (s, file) ↦
        rw file (slurping-IsSound fuel s m (populate so (pplme_repository fl dt) fuel s m) v refl)
  ]

  -- Without a pool the constructor throws.
  create_unpooled :
      (hardware : ThreadOps) (flags : Flags S)
      → hardware.pool_starts ≡ false
      → create_server {U = U} {D = D} {F = F} hardware flags ≡ none
  unfolding create_server create
  create_unpooled hardware flags h = ground (arith, h)

  served-IsSound :
      (hardware : ThreadOps) (fuel : ℕ) (flags : Flags S)
      → are_valid_flags flags ≡ true
      → IsSound (go_on so fl dt test_data ops fuel flags (create_server hardware flags))
  served-IsSound hardware fuel flags valid = elim (Bool-cases hardware.pool_starts) [
    | inr off ↦ rw (create_unpooled hardware flags off) (unfold IsSound in tt)
    | inl pool ↦
        let server = create_server-Made U fl dt laws hardware flags valid pool in
        rw (server.made) (go-IsSound fuel flags server.provider server.valid)
  ]

  -- However pplmed is filled, from a data file or with test data, and whether or not that
  -- succeeds: when main gets to the end of Go, the flags were valid and the provider is valid,
  -- and if Go succeeds the server serves.
  pub main-IsSound :
      (hardware : ThreadOps) (fuel : ℕ) (flags : Flags S) (w : Went U D F)
      → main so fl dt test_data ops hardware fuel flags ≡ some w
      → (are_valid_flags flags ≡ true) × IsSound w
  unfolding main
  main-IsSound hardware fuel flags w e = elim (Bool-cases (are_valid_flags flags)) [
    | inr bad ↦ absurd (let e' : none ≡ some w = rw bad at e in cc)
    | inl valid ↦
        let goes : some (go_on so fl dt test_data ops fuel flags (create_server hardware flags))
            ≡ some w =
          rw valid at e in
        let same : go_on so fl dt test_data ops fuel flags (create_server hardware flags) ≡ w =
          cc in
        (valid, subst IsSound same (served-IsSound hardware fuel flags valid))
  ]
