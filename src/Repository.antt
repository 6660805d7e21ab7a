-- ===== src/Repository.antt =====
-- ppl_repository.h: what PplSlurper asks of the provider that it fills, and what a provider
-- promises of it. Each provider fills the record: Pplme/Repository, MyFirst/Repository and
-- Prototype/Repository.
use ppl_me.Common.{◌≡◌, subst, Option, some, none, List, [], ◌∷◌, ◌>>=◌, Option-cases, inl, inr}

-- AddPerson; `none` is a CHECK that fails.
pub record PplRepository (M P : Type 0) : Type 0 where
  pub add_person : M → P → Option M

-- What AddPerson keeps, whenever it returns.
pub record RepositoryLaws {M P : Type 0} (repo : PplRepository M P) (IsSound : M → Type 0)
    : Type 0 where
  pub add_person_keeps : (m m' : M) (p : P) → IsSound m → repo.add_person m p ≡ some m' → IsSound m'

module _ {M P : Type 0} (repo : PplRepository M P) where
  -- AddPerson for each person in turn.
  unfoldable pub add_each : M → List P → Option M
  add_each m [] = some m
  add_each m (p ∷ ps) = repo.add_person m p >>= λ m'. add_each m' ps

  pub add_each_keeps :
      (IsSound : M → Type 0)
      → RepositoryLaws repo IsSound
      → (ps : List P) (m m' : M) → IsSound m
      → add_each m ps ≡ some m'
      → IsSound m'
  unfolding add_each
  add_each_keeps IsSound laws [] m m' sound e = let same : m ≡ m' = cc in subst IsSound same sound
  add_each_keeps IsSound laws (p ∷ ps) m m' sound e = elim (Option-cases (repo.add_person m p)) [
    | inl refused ↦ absurd (let e' : none ≡ some m' = rw refused at e in cc)
    | inr (m1, added) ↦
        add_each_keeps IsSound laws ps m1 m' (laws.add_person_keeps m m1 p sound added)
          (rw added at e)
  ]
