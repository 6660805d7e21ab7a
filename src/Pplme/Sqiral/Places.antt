-- ===== src/Pplme/Sqiral/Places.antt =====
-- Persons and users live at whole degrees, and the walk from a user's cell visits every such cell.
use native.Mathlib.Nat.{mul-le-mul_right}
use ppl_me.Common.{ℕ, ◌+◌, ◌*◌, ◌≤◌, ◌≡◌, arith, leb, Bool-cases, ◌⊎◌, inl, inr, count}
use ppl_me.Common.Int.{pos, ◌-ℤ◌, abs}
use ppl_me.Pplme.Grid.{CellLocator, locator_eq}
use ppl_me.Pplme.Sqiral.Ends.{sqiral_cells}
use ppl_me.Pplme.Sqiral.Visits.{way_round, sqiral_cells_reach}

-- The locator at whole degrees.
abbrev pub place : ℕ → ℕ → ℕ → CellLocator
place res lat long = record { latitude_index = lat * res; longitude_index = long * res }

-- Multiples of the resolution are at most half a turn apart, or at least a step more.
columns_apart : (res a b : ℕ) → (b * res ≤ a * res + 180 * res) ⊎ (a * res + 181 * res ≤ b * res)
columns_apart res a b = elim (Bool-cases (leb b (a + 180))) [
  | inl le ↦ inl (ground (arith, mul-le-mul_right {m = b} {n = a + 180} res))
  | inr gt ↦ inr (ground (arith, mul-le-mul_right {m = a + 181} {n = b} res))
]

half_turn :
    (res x y : ℕ) (origin : CellLocator)
    → x ≤ 360 * res
    → y ≤ 360 * res
    → (y ≤ x + 180 * res) ⊎ (x + 181 * res ≤ y)
    → (x ≤ y + 180 * res) ⊎ (y + 181 * res ≤ x)
    → abs (way_round res origin (pos y -ℤ pos x)) ≤ 180 * res
half_turn res x y origin h k (inl p) (inl q) = ground arith
half_turn res x y origin h k (inl p) (inr q) = ground arith
half_turn res x y origin h k (inr p) (inl q) = ground arith
half_turn res x y origin h k (inr p) (inr q) = ground arith

-- With a resolution of at least 1, the walk from a cell at whole degrees visits every cell at
-- whole degrees, of 0 to 180 and 0 to 360, exactly once.
pub sqiral_visits_places :
    (res lat long lat' long' : ℕ)
    → 1 ≤ res
    → lat ≤ 180
    → long ≤ 360
    → lat' ≤ 180
    → long' ≤ 360
    → count (locator_eq (place res lat' long')) (sqiral_cells res (place res lat long)) ≡ 1
sqiral_visits_places res lat long lat' long' p a b a' b' =
    let row = mul-le-mul_right {m = lat} {n = 180} res a in
    let col = mul-le-mul_right {m = long} {n = 360} res b in
    let row' = mul-le-mul_right {m = lat'} {n = 180} res a' in
    let col' = mul-le-mul_right {m = long'} {n = 360} res b' in
    sqiral_cells_reach res (place res lat long) row col p (place res lat' long') (omega arith)
      (omega arith)
      (half_turn res (long * res) (long' * res) (place res lat long) col col'
        (columns_apart res long long') (columns_apart res long' long))
