-- ===== src/Pplme/Provider/Invariant.antt =====
-- Cells stay sorted and hold only persons who live there; AddPerson succeeds for every valid home.
use native.Mathlib.Nat.{mul-le-mul_right}
use ppl_me.Common.{
  ℕ, ◌*◌, ◌<◌, ◌≤◌, ◌≡◌, refl, sym, subst, Option-cases, ==→eq, lt→ltb, true, some, Option, [], ◌∷◌,
  All, arith, ◌==◌, Bool-cases, inl, inr,
}
use ppl_me.Common.Int.{ℤ}
use ppl_me.Core.{Person, is_valid_position}
use ppl_me.Core.Outside.{FloatOps, FloatLaws, DateOps, DateLaws}
use ppl_me.Pplme.Grid.{
  get_ppl_index, get_ppl_index_at, calculate_size_for_ppl_grid, to_cell_locator,
}
use ppl_me.Pplme.Grid.Index.{get_ppl_index-lt-size}
use ppl_me.Pplme.Grid.Place.{IsPlace, to_cell_locator-IsPlace}
use ppl_me.Pplme.Cells.{PplCell, insert_person}
use ppl_me.Pplme.Cells.Order.{IsSorted, insert_person-IsSorted}
use ppl_me.Pplme.Provider.{Impl, ThreadOps, create, update_cell, add_person}

module _ {U D F : Type 0} (fl : FloatOps F) (dt : DateOps D) (laws : DateLaws D dt) where
  -- The person lives in cell `i`.
  abbrev pub LivesAt : ℕ → ℕ → Person U D F → Type 0
  LivesAt res i p = get_ppl_index_at fl res p.location_of_home ≡ some i

  pub record IsValid (m : Impl U D F) : Type 0 where
    pub resolved : 1 ≤ m.resolution
    pub sized : calculate_size_for_ppl_grid m.resolution ≡ some m.grid_size
    pub some_ppl : 1 ≤ m.max_ppl
    pub sorted : (i : ℕ) → IsSorted dt laws (m.ppl i)
    pub housed : (i : ℕ) → All (LivesAt m.resolution i) (m.ppl i)

  All-insert_person :
      (P : Person U D F → Type 0) (cell : PplCell U D F) (p : Person U D F)
      → P p
      → All P cell
      → All P (insert_person dt cell p)
  unfolding insert_person
  All-insert_person P [] p h a = (h, tt)
  All-insert_person P (q ∷ qs) p h a = ground (arith, All-insert_person P qs p h a.1)

  pub create-empty :
      (hardware : ThreadOps) (res : ℕ) (diff max_ppl : ℤ) (per_find : Option ℤ) (m : Impl U D F)
      → create hardware res diff max_ppl per_find ≡ some m
      → m ≡ record m { resolution = res; ppl = λ i. [] }
  unfolding create
  create-empty hardware res diff max_ppl per_find m e = ground arith

  -- A new provider is valid.
  pub create-IsValid :
      (hardware : ThreadOps) (res : ℕ) (diff max_ppl : ℤ) (per_find : Option ℤ) (m : Impl U D F)
      → 1 ≤ res
      → create hardware res diff max_ppl per_find ≡ some m
      → IsValid m
  unfolding create calculate_size_for_ppl_grid
  create-IsValid hardware res diff max_ppl per_find m p e =
      let same : m ≡ record m { resolution = res; ppl = λ i. [] } =
        create-empty hardware res diff max_ppl per_find m e in
      subst IsValid (sym same) (record {
        resolved = p;
        sized = ground arith;
        some_ppl = ground arith;
        sorted = λ i. tt;
        housed = λ i. tt;
      })

  -- What a successful AddPerson did.
  pub record Added (m : Impl U D F) (p : Person U D F) (m' : Impl U D F) : Type 0 where
    pub index : ℕ
    pub lives : LivesAt m.resolution index p
    pub inside : index < m.grid_size
    pub becomes :
        m' ≡ record m { ppl = update_cell fl dt m.ppl index (insert_person dt (m.ppl index) p) }

  pub add_person-Added :
      (m m' : Impl U D F) (p : Person U D F) → add_person fl dt m p ≡ some m' → Added m p m'
  unfolding add_person
  add_person-Added m m' p e =
      elim (Option-cases (get_ppl_index_at fl m.resolution p.location_of_home)) [
        | inl h ↦ ground arith
        | inr (i, h) ↦ record {
          index = i;
          lives = h;
          inside = ground arith;
          becomes = ground arith;
        }
      ]

  update_all_at :
      (P : ℕ → PplCell U D F → Type 0) (cells : ℕ → PplCell U D F) (i : ℕ) (cell : PplCell U D F)
      → ((j : ℕ) → P j (cells j))
      → P i cell
      → (j : ℕ) → P j (update_cell fl dt cells i cell j)
  unfolding update_cell
  update_all_at P cells i cell h k j = elim (Bool-cases (j == i)) [
    | inl e ↦ rw e (subst (λ x. P x cell) (sym (==→eq j i e)) k)
    | inr e ↦ rw e (h j)
  ]

  update_all :
      (P : PplCell U D F → Type 0) (cells : ℕ → PplCell U D F) (i : ℕ) (cell : PplCell U D F)
      → ((j : ℕ) → P (cells j))
      → P cell
      → (j : ℕ) → P (update_cell fl dt cells i cell j)
  update_all P = update_all_at (λ i. P)

  -- When AddPerson succeeds on a valid provider, the provider is valid afterwards: cells stay
  -- sorted, and each person is in the cell of its home.
  pub add_person-IsValid :
      (m m' : Impl U D F) (p : Person U D F)
      → IsValid m
      → add_person fl dt m p ≡ some m'
      → IsValid m'
  unfolding add_person
  add_person-IsValid m m' p v e =
      let a : Added m p m' = add_person-Added m m' p e in
      subst IsValid (sym a.becomes) (record {
        resolved = v.resolved;
        sized = v.sized;
        some_ppl = v.some_ppl;
        sorted =
            update_all (IsSorted dt laws) m.ppl a.index _ v.sorted
              (insert_person-IsSorted dt laws (m.ppl a.index) p (v.sorted a.index));
        housed =
            update_all_at (λ i. All (LivesAt m.resolution i)) m.ppl a.index _ v.housed
              (All-insert_person (LivesAt m.resolution a.index) (m.ppl a.index) p a.lives
                (v.housed a.index));
      })

  -- On a valid provider AddPerson succeeds for every person with a valid home: no CHECK fails
  -- and the index is within the vector.
  pub add_person_total :
      (fls : FloatLaws F fl) (m : Impl U D F) (p : Person U D F)
      → IsValid m
      → is_valid_position fl p.location_of_home ≡ true
      → (m' : Impl U D F) × (add_person fl dt m p ≡ some m')
  unfolding add_person get_ppl_index_at get_ppl_index
  add_person_total fls m p v h =
      let place : IsPlace m.resolution (to_cell_locator fl m.resolution p.location_of_home) =
        to_cell_locator-IsPlace fl fls m.resolution p.location_of_home h in
      let row = mul-le-mul_right {m = place.lat} {n = 180} m.resolution place.lat_range in
      let col = mul-le-mul_right {m = place.long} {n = 360} m.resolution place.long_range in
      let inside =
        get_ppl_index-lt-size m.resolution m.grid_size
          (record {
            latitude_index = place.lat * m.resolution;
            longitude_index = place.long * m.resolution;
          })
          v.resolved v.sized (omega arith) (ground (arith, v.resolved)) in
      rw (place.found_at, lt→ltb _ _ inside) (_, refl)
