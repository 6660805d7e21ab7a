-- ===== src/Pplme/Matching/People.antt =====
-- The persons in the cells of a walk are those that were added, each once.
use native.Mathlib.Nat.{mul-le-mul_right}
use ppl_me.Common.{
  ℕ, ◌+◌, ◌*◌, ◌<◌, ◌≤◌, ◌≡◌, sym, subst, ap, ◌∙◌, Option-cases, ==→eq, Bool, true, some, List, [],
  ◌∷◌, All, arith, ◌==◌, Bool-cases, inl, inr, if◌then◌else◌, count, sum_of, sum_of-bump, one_if,
}
use ppl_me.Core.{Person, is_valid_position}
use ppl_me.Core.Outside.{FloatOps, FloatLaws, DateOps, DateLaws}
use ppl_me.Pplme.Grid.{CellLocator, locator_eq, get_ppl_index, get_ppl_index_at, to_cell_locator}
use ppl_me.Pplme.Grid.Index.{get_ppl_index_inj}
use ppl_me.Pplme.Grid.Place.{IsPlace, to_cell_locator-IsPlace}
use ppl_me.Pplme.Cells.{insert_person}
use ppl_me.Pplme.Cells.Order.{count-insert_person}
use ppl_me.Pplme.Sqiral.Bounds.{IsInGrid}
use ppl_me.Pplme.Sqiral.Places.{place}
use ppl_me.Pplme.Provider.{Impl, update_cell, add_person}
use ppl_me.Pplme.Provider.Invariant.{IsValid, Added, add_person-Added, add_person-IsValid}
use ppl_me.Pplme.Find.Sets.{locator_eq-eq}
use ppl_me.Pplme.Matching.{add_all}

-- The walk visits each place once, and only cells on the grid.
pub record Covers (res : ℕ) (cells : List CellLocator) : Type 0 where
  pub on_grid : All (IsInGrid res) cells
  pub each_place :
      (lat long : ℕ) → lat ≤ 180 → long ≤ 360 → count (locator_eq (place res lat long)) cells ≡ 1

index_eq :
    (res : ℕ) (d c : CellLocator)
    → d.longitude_index < 361 * res
    → c.longitude_index < 361 * res
    → (get_ppl_index res c == get_ppl_index res d) ≡ locator_eq d c
index_eq res d c h k = elim (Bool-cases (locator_eq d c)) [
  | inl e ↦ rw (e, ← locator_eq-eq d c e) (ground arith)
  | inr e ↦ rw e (ground (arith, get_ppl_index_inj res d c h k))
]

module _ {U D F : Type 0} (fl : FloatOps F) (dt : DateOps D) (fls : FloatLaws F fl)
    (laws : DateLaws D dt) where
  -- How many persons pass a test in some cells.
  abbrev pub population : Impl U D F → (Person U D F → Bool) → List CellLocator → ℕ
  population m t = sum_of (λ c. count t (m.ppl (get_ppl_index m.resolution c)))

  update_count :
      (cells : ℕ → List (Person U D F)) (i j : ℕ) (p : Person U D F) (t : Person U D F → Bool)
      → count t (update_cell fl dt cells i (insert_person dt (cells i) p) j)
        ≡ count t (cells j) + (if j == i then one_if (t p) else 0)
  unfolding update_cell
  update_count cells i j p t = elim (Bool-cases (j == i)) [
    | inl e ↦ rw e (
        ground (
          arith,
          count-insert_person dt laws t (cells i) p,
          ap (λ k. count t (cells k)) (==→eq j i e),
        ))
    | inr e ↦ rw e (omega arith)
  ]

  -- A person's home index is that of a place.
  home_place :
      (m : Impl U D F) (p : Person U D F) (i : ℕ)
      → is_valid_position fl p.location_of_home ≡ true
      → get_ppl_index_at fl m.resolution p.location_of_home ≡ some i
      → (lat : ℕ) × (long : ℕ) × (lat ≤ 180)
        × (long ≤ 360)
        × (get_ppl_index m.resolution (place m.resolution lat long) ≡ i)
  unfolding get_ppl_index_at
  home_place m p i h e =
      let at : IsPlace m.resolution (to_cell_locator fl m.resolution p.location_of_home) =
        to_cell_locator-IsPlace fl fls m.resolution p.location_of_home h in
      (at.lat, at.long, at.lat_range, at.long_range, ground (arith, at.found_at))

  add_person-population :
      (m m' : Impl U D F) (p : Person U D F) (t : Person U D F → Bool) (cells : List CellLocator)
      → IsValid fl dt laws m
      → is_valid_position fl p.location_of_home ≡ true
      → Covers m.resolution cells
      → add_person fl dt m p ≡ some m'
      → population m' t cells ≡ population m t cells + one_if (t p)
  add_person-population m m' p t cells v h cov e =
      let a : Added fl dt laws m p m' = add_person-Added fl dt laws m m' p e in
      let (lat, long, lat_ok, long_ok, index) = home_place m p a.index h a.lives in
      let res : ℕ = m.resolution in
      let col = mul-le-mul_right {m = long} {n = 360} m.resolution long_ok in
      subst (λ x. population x t cells ≡ population m t cells + one_if (t p)) (sym a.becomes)
        (sum_of-bump (IsInGrid res) _ _ (locator_eq (place res lat long)) (one_if (t p)) cells
            cov.on_grid
            (λ c g.
              update_count m.ppl a.index (get_ppl_index res c) p t
              ∙ ap (λ b. count t (m.ppl (get_ppl_index res c)) + (if b then one_if (t p) else 0))
                  (ap (λ k. get_ppl_index res c == k) (sym index)
                    ∙ index_eq res (place res lat long) c (ground (arith, v.resolved)) g.1))
          ∙ ap (λ n. population m t cells + one_if (t p) * n)
              (cov.each_place lat long lat_ok long_ok)
          ∙ omega arith)

  abbrev pub AllValid : List (Person U D F) → Type 0
  AllValid = All (λ p. is_valid_position fl p.location_of_home ≡ true)

  -- Everyone who is added is in the cells of the walk, once, and nobody else is.
  pub add_all-population :
      (ps : List (Person U D F)) (m m' : Impl U D F) (t : Person U D F → Bool)
      (cells : List CellLocator)
      → IsValid fl dt laws m
      → AllValid ps
      → Covers m.resolution cells
      → add_all fl dt m ps ≡ some m'
      → IsValid fl dt laws m'
        × (m'.resolution ≡ m.resolution)
        × (population m' t cells ≡ population m t cells + count t ps)
  unfolding add_all
  add_all-population [] m m' t cells v h cov e =
      let same : m ≡ m' = ground arith in
      (
        subst (IsValid fl dt laws) same v,
        ap (λ x. x.resolution) (sym same),
        subst (λ x. population x t cells ≡ population m t cells + 0) same (omega arith),
      )
  add_all-population (p ∷ ps) m m' t cells v h cov e = elim (Option-cases (add_person fl dt m p)) [
    | inl none_of ↦ absurd (ground arith)
    | inr (n, step) ↦
        let a : Added fl dt laws m p n = add_person-Added fl dt laws m n p step in
        let same : n.resolution ≡ m.resolution = ap (λ x. x.resolution) a.becomes in
        let (v', same', sum) =
          add_all-population ps n m' t cells (add_person-IsValid fl dt laws m n p v step) h.1
            (subst (λ r. Covers r cells) (sym same) cov) (ground arith) in
        (v', same' ∙ same, omega (arith, sum, add_person-population m n p t cells v h.0 cov step))
  ]
