-- ===== src/Pplme/Grid/Index.antt =====
-- Cell locators and indices into the grid's vector.
use native.Mathlib.Nat.{mul-le-mul_right}
use ppl_me.Common.{
  ℕ, suc, ◌+◌, ◌*◌, ◌<◌, ◌≤◌, ◌≡◌, true, some, arith, leb, ltb, Bool-cases, inl, inr,
}
use ppl_me.Pplme.Grid.{
  CellLocator, calculate_size_for_ppl_grid, get_ppl_index, locator_lt, locator_eq,
}

-- Every cell that a walk can reach has its place in the vector.
pub get_ppl_index-lt-size :
    (res size : ℕ) (c : CellLocator)
    → 1 ≤ res
    → calculate_size_for_ppl_grid res ≡ some size
    → c.latitude_index ≤ 181 * res
    → c.longitude_index < 361 * res
    → get_ppl_index res c < size
unfolding calculate_size_for_ppl_grid get_ppl_index
get_ppl_index-lt-size res size c p e row col = ground (
  arith,
  mul-le-mul_right {m = c.latitude_index} {n = 181 * res} (361 * res) row,
  mul-le-mul_right {m = 1} {n = res} res p,
)

row_first : (w a b x y : ℕ) → x < w → a * w + x ≡ b * w + y → y < w → a ≤ b
row_first w a b x y h e k = elim (Bool-cases (leb a b)) [
  | inl le ↦ ground arith
  | inr gt ↦ absurd (ground (arith, mul-le-mul_right {m = suc b} {n = a} w))
]

-- Two cells whose longitude indices are in the grid and that have one index in the vector are
-- the same cell.
pub get_ppl_index_inj :
    (res : ℕ) (c d : CellLocator)
    → c.longitude_index < 361 * res
    → d.longitude_index < 361 * res
    → get_ppl_index res c ≡ get_ppl_index res d
    → locator_eq c d ≡ true
unfolding get_ppl_index
get_ppl_index_inj res c d h k e = ground (
  arith,
  row_first (361 * res) c.latitude_index d.latitude_index c.longitude_index d.longitude_index h,
  row_first (361 * res) d.latitude_index c.latitude_index d.longitude_index c.longitude_index k,
)

-- For longitude indices in the grid, operator< orders cells as their indices in the vector are
-- ordered.
pub locator_lt-index :
    (res : ℕ) (c d : CellLocator)
    → c.longitude_index < 361 * res
    → d.longitude_index < 361 * res
    → locator_lt c d ≡ ltb (get_ppl_index res c) (get_ppl_index res d)
unfolding locator_lt get_ppl_index
locator_lt-index res c d h k = ground (
  arith,
  mul-le-mul_right {m = suc c.latitude_index} {n = d.latitude_index} (361 * res),
  mul-le-mul_right {m = suc d.latitude_index} {n = c.latitude_index} (361 * res),
)
