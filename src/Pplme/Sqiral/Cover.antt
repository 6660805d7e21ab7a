-- ===== src/Pplme/Sqiral/Cover.antt =====
-- Which cells the walk of `Sqiral` visits, and how often: each offset occurs once, in the round of
-- its distance, and an offset on the grid leads to a cell of its own.
use native.Mathlib.Nat.{mod-eq_of_lt, mod-eq-sub-mod}
use ppl_me.Common.{
  ℕ, zero, suc, ◌+◌, ◌-◌, ◌*◌, ◌%◌, ◌<◌, ◌≤◌, ◌≡◌, ◌∙◌, Bool, true, arith, ◌==◌, one_if, count,
  count-append, ltb, leb, inl, inr, Bool-cases, ◌&&◌, if◌then◌else◌,
}
use ppl_me.Common.Int.{ℤ, pos, negsuc, pos_part, abs, eqb_ℤ, leb_ℤ, ltb_ℤ, neg_ℤ, ◌+ℤ◌, ◌≤ℤ◌}
use ppl_me.Pplme.Grid.{CellLocator, wrap_longitude}
use ppl_me.Pplme.Sqiral.{Offset, north_east, east_south, south_west, west_north}
use ppl_me.Pplme.Sqiral.Offsets.{edge_offsets, ring_offsets, rings_offsets}
use ppl_me.Pplme.Sqiral.Ends.{last_round, sqiral_offsets}

abbrev pub is_offset : Offset → Offset → Bool
is_offset t o = eqb_ℤ t.lat_off o.lat_off && eqb_ℤ t.long_off o.long_off

abbrev pub distance : Offset → ℕ
distance t = abs t.lat_off + abs t.long_off

eqb-neg_ℤ : (i : ℤ) (s : ℕ) → eqb_ℤ i (neg_ℤ (pos s)) ≡ (leb_ℤ i (pos 0) && (abs i == s))
eqb-neg_ℤ i s = ground arith

south_west_meets :
    (i j : ℤ) (n r : ℕ) (found rest : ℕ)
    → found ≡ one_if ((leb_ℤ i (pos 0) && (abs i == suc n)) && (leb_ℤ j (pos 0) && (abs j == r)))
    → rest
      ≡ one_if (
          leb_ℤ i (negsuc 0)
          && leb_ℤ j (pos 0)
          && leb (suc r) (abs j)
          && (abs i + abs j == n + suc r))
    → found + rest
      ≡ one_if
          (leb_ℤ i (negsuc 0) && leb_ℤ j (pos 0) && leb r (abs j) && (abs i + abs j == suc n + r))
south_west_meets (pos i) (pos j) n r found rest h k = ground arith
south_west_meets (pos i) (negsuc j) n r found rest h k = ground arith
south_west_meets (negsuc i) (pos j) n r found rest h k = ground arith
south_west_meets (negsuc i) (negsuc j) n r found rest h k = ground arith

module _ (t : Offset) where
  north_east_occurs :
      (n r : ℕ)
      → count (is_offset t) (edge_offsets north_east n r)
        ≡ one_if (leb_ℤ (pos 1) t.lat_off && leb_ℤ (pos r) t.long_off && (distance t == n + r))
  unfolding edge_offsets
  north_east_occurs zero r = ground arith
  north_east_occurs (suc n) r = ground (arith, north_east_occurs n (suc r))

  east_south_occurs :
      (n r : ℕ)
      → count (is_offset t) (edge_offsets east_south n r)
        ≡ one_if
            (leb_ℤ (pos 1) t.long_off && leb_ℤ t.lat_off (neg_ℤ (pos r)) && (distance t == n + r))
  unfolding edge_offsets
  east_south_occurs zero r = ground arith
  east_south_occurs (suc n) r = ground (arith, east_south_occurs n (suc r))

  south_west_occurs :
      (n r : ℕ)
      → count (is_offset t) (edge_offsets south_west n r)
        ≡ one_if (
            leb_ℤ t.lat_off (negsuc 0)
            && leb_ℤ t.long_off (pos 0)
            && leb r (abs t.long_off)
            && (distance t == n + r))
  unfolding edge_offsets
  south_west_occurs zero r = ground arith
  south_west_occurs (suc n) r =
      south_west_meets t.lat_off t.long_off n r _ _
        (rw (eqb-neg_ℤ t.lat_off (suc n), eqb-neg_ℤ t.long_off r)) (south_west_occurs n (suc r))

  west_north_occurs :
      (n r : ℕ)
      → count (is_offset t) (edge_offsets west_north n r)
        ≡ one_if (leb_ℤ t.long_off (negsuc 0) && leb_ℤ (pos r) t.lat_off && (distance t == n + r))
  unfolding edge_offsets
  west_north_occurs zero r = ground arith
  west_north_occurs (suc n) r = ground (arith, west_north_occurs n (suc r))

  ring_occurs : (m : ℕ) → 1 ≤ m → count (is_offset t) (ring_offsets m) ≡ one_if (distance t == m)
  unfolding ring_offsets
  ring_occurs m h = simp count-append (
      rw
        (north_east_occurs m 0, east_south_occurs m 0, south_west_occurs m 0, west_north_occurs m 0)
        (ground arith))

  append_occurs :
      (k m this later : ℕ)
      → this ≡ one_if (distance t == m)
      → later ≡ one_if (leb (suc m) (distance t) && ltb (distance t) (suc m + k))
      → this + later ≡ one_if (leb m (distance t) && ltb (distance t) (m + suc k))
  append_occurs k m this later h h' = ground arith

  rings_occurs :
      (k m : ℕ)
      → 1 ≤ m
      → count (is_offset t) (rings_offsets k m)
        ≡ one_if (leb m (distance t) && ltb (distance t) (m + k))
  unfolding rings_offsets
  rings_occurs zero m h = ground arith
  rings_occurs (suc k) m h =
      count-append (is_offset t) (ring_offsets m) (rings_offsets k (suc m))
      ∙ append_occurs k m _ _ (ring_occurs m h) (rings_occurs k (suc m) (omega arith))

-- Each offset within the last round occurs once.
pub sqiral_offsets_once :
    (res : ℕ) (origin : CellLocator) (t : Offset)
    → count (is_offset t) (sqiral_offsets res origin)
      ≡ one_if (leb (distance t) (last_round res origin))
unfolding sqiral_offsets
sqiral_offsets_once res origin t = ground (arith, rings_occurs t (last_round res origin) 1)

mod_small : (n m : ℕ) → n < m + m → n % m ≡ (if ltb n m then n else n - m)
mod_small n m h = elim (Bool-cases (ltb n m)) [
  | inl lt ↦ rw lt (mod-eq_of_lt (ground arith))
  | inr ge ↦ rw (ge, mod-eq-sub-mod {n = n} {m = m} (ground arith)) (mod-eq_of_lt (ground arith))
]

-- What `wrap_longitude` does to an index at most a turn away from the grid.
unfoldable pub wrapped : ℕ → ℤ → ℕ
wrapped res i =
    if ltb_ℤ i (pos 0)
    then pos_part (i +ℤ pos (361 * res))
    else if ltb_ℤ i (pos (361 * res))
    then pos_part i
    else pos_part i - 361 * res

pub wrap_longitude-eq :
    (res : ℕ) (i : ℤ)
    → 1 ≤ res
    → negsuc (361 * res - 1) ≤ℤ i
    → ltb_ℤ i (pos (722 * res)) ≡ true
    → wrap_longitude res i ≡ wrapped res i
unfolding wrap_longitude wrapped
wrap_longitude-eq res (pos n) p lo hi = ground (arith, mod_small n (361 * res))
wrap_longitude-eq res (negsuc n) p lo hi = ground (arith, mod_small (361 * res - suc n) (361 * res))
