-- ===== src/Pplme/Sqiral/Ends.antt =====
-- The outer loop of `Sqiral` ends, after the round that meets the farthest corner, and the whole
-- walk is the visitor run over one list of cells.
use ppl_me.Common.{
  ℕ, zero, suc, ◌+◌, ◌-◌, ◌*◌, ◌<◌, ◌≤◌, ◌≡◌, refl, ◌∙◌, sym, ap, Bool, true, false, List, [], ◌∷◌,
  ◌++◌, arith, one_if, count, ltb, max, Option, some, inl, inr, Bool-cases,
}
use ppl_me.Common.Int.{pos}
use ppl_me.Pplme.Grid.{CellLocator, check_offsets}
use ppl_me.Pplme.Sqiral.{Offset, offset, Walk, do_cell, rings, sqiral, ring}
use ppl_me.Pplme.Sqiral.Offsets.{
  ring_offsets, rings_offsets, is_corner, cells_at, cells_at-append, visit_until,
  visit_until-append, visit_until-append_done, Walked, walk_offsets-Walked, ring-eq,
}
use ppl_me.Pplme.Sqiral.Corners.{ring_corners}

-- The round of the farthest corner.
unfoldable pub last_round : ℕ → CellLocator → ℕ
last_round res origin = max (361 * res - origin.latitude_index) (180 * res + origin.latitude_index)

-- All offsets that the walk takes, in order, if the visitor never stops it.
unfoldable pub sqiral_offsets : ℕ → CellLocator → List Offset
unfolding rings_offsets last_round
sqiral_offsets res origin = offset (pos 0) (pos 0) ∷ rings_offsets (last_round res origin) 1

unfoldable pub sqiral_cells : ℕ → CellLocator → List CellLocator
unfolding cells_at sqiral_offsets
sqiral_cells res origin = cells_at res origin (sqiral_offsets res origin)

module _ {S : Type 0} (fun : CellLocator → S → Bool × S) (res : ℕ) (origin : CellLocator)
    (placed : origin.latitude_index ≤ 180 * res) (pos_res : 1 ≤ res) where
  abbrev corners_before : ℕ → ℕ
  corners_before m =
      2 * one_if (ltb (361 * res - origin.latitude_index) m)
      + 2 * one_if (ltb (180 * res + origin.latitude_index) m)

  -- The walk ended in `found`, as the visitor run over `cells` says.
  pub record Ended (found : Option (Walk S)) (cells : List CellLocator) (s : S) : Type 0 where
    pub walk : Walk S
    pub ends : found ≡ some walk
    pub outcome : (walk.we_done_here, walk.context) ≡ visit_until fun cells s

  rings_done :
      (fuel m : ℕ) (w : Walk S)
      → w.we_done_here ≡ true
      → rings fun res origin (suc fuel) m w ≡ some w
  unfolding rings
  rings_done fuel m w h = ground arith

  rings_full :
      (fuel m : ℕ) (w : Walk S)
      → last_round res origin < m
      → w.corner_count ≡ corners_before m
      → rings fun res origin (suc fuel) m w ≡ some w
  unfolding rings last_round
  rings_full fuel m w r c = ground arith

  rings_more :
      (fuel m : ℕ) (w : Walk S)
      → m ≤ last_round res origin
      → w.we_done_here ≡ false
      → w.corner_count ≡ corners_before m
      → rings fun res origin (suc fuel) m w
        ≡ rings fun res origin fuel (suc m) (ring fun res origin m w)
  unfolding rings last_round
  rings_more fuel m w r d c = ground arith

  ring-Walked :
      (m : ℕ) (w : Walk S)
      → w.we_done_here ≡ false
      → Walked fun res origin (ring_offsets m) w (ring fun res origin m w)
  ring-Walked m w d =
      rw (ring-eq fun res origin m w) (walk_offsets-Walked fun res origin (ring_offsets m) w d)

  -- A round that the visitor stops in is the last.
  Ended-done :
      (fuel m : ℕ) (w w' : Walk S) (xs ys : List CellLocator)
      → 1 ≤ fuel
      → w'.we_done_here ≡ true
      → (w'.we_done_here, w'.context) ≡ visit_until fun xs w.context
      → Ended (rings fun res origin fuel m w') (xs ++ ys) w.context
  Ended-done zero m w w' xs ys f d e = absurd (omega arith)
  Ended-done (suc fuel) m w w' xs ys f d e = record {
    walk = w';
    ends = rings_done fuel m w' d;
    outcome =
        ap (λ b. (b, w'.context)) d
        ∙ sym (
            visit_until-append_done fun xs ys w.context w'.context
              (sym e ∙ ap (λ b. (b, w'.context)) d));
  }

  -- After a round that the visitor let pass, the rest of the walk counts.
  Ended-more :
      (found : Option (Walk S)) (w w' : Walk S) (xs ys : List CellLocator)
      → w'.we_done_here ≡ false
      → (w'.we_done_here, w'.context) ≡ visit_until fun xs w.context
      → Ended found ys w'.context
      → Ended found (xs ++ ys) w.context
  Ended-more found w w' xs ys d e rest = record {
    walk = rest.walk;
    ends = rest.ends;
    outcome =
        rest.outcome
        ∙ sym (
            visit_until-append fun xs ys w.context w'.context
              (sym e ∙ ap (λ b. (b, w'.context)) d));
  }

  corners_next :
      (m : ℕ) (w w' : Walk S)
      → 1 ≤ m
      → w.corner_count ≡ corners_before m
      → w'.corner_count ≡ w.corner_count + count (is_corner res origin) (ring_offsets m)
      → w'.corner_count ≡ corners_before (suc m)
  corners_next m w w' one c e = ground (arith, ring_corners res origin placed pos_res m one)

  rings-Ended :
      (k fuel m : ℕ) (w : Walk S)
      → k < fuel
      → 1 ≤ m
      → m + k ≡ suc (last_round res origin)
      → w.we_done_here ≡ false
      → w.corner_count ≡ corners_before m
      → Ended (rings fun res origin fuel m w) (cells_at res origin (rings_offsets k m)) w.context
  unfolding rings_offsets cells_at visit_until last_round
  rings-Ended k zero m w h one r d c = absurd (omega arith)
  rings-Ended zero (suc fuel) m w h one r d c = record {
    walk = w;
    ends = rings_full fuel m w (omega arith) c;
    outcome = ground arith;
  }
  rings-Ended (suc k) (suc fuel) m w h one r d c =
      let w' : Walk S = ring fun res origin m w in
      let walked : Walked fun res origin (ring_offsets m) w w' = ring-Walked m w d in
      rw
        (
          rings_more fuel m w (omega arith) d c,
          cells_at-append res origin (ring_offsets m) (rings_offsets k (suc m)),
        )
        (elim (Bool-cases w'.we_done_here) [
          | inl stop ↦ Ended-done fuel (suc m) w w' _ _ (omega arith) stop walked.outcome
          | inr go ↦ Ended-more _ w w' _ _ go walked.outcome (
              rings-Ended k fuel (suc m) w' (omega arith) (omega arith) (omega arith) go
                (corners_next m w w' one c (walked.corners go)))
        ])

  abbrev centre : Offset
  centre = offset (pos 0) (pos 0)

  centre_no_corner : count (is_corner res origin) (centre ∷ []) ≡ 0
  unfolding check_offsets
  centre_no_corner = ground arith

  -- From an origin at most 180 degrees North of the South Pole and with a resolution of at
  -- least 1, Sqiral ends within its fuel, for every visitor, and its outcome is that of the
  -- visitor run over sqiral_cells in order until it says so.
  pub sqiral-Ended : (s : S) → Ended (sqiral fun res origin s) (sqiral_cells res origin) s
  unfolding sqiral sqiral_cells sqiral_offsets last_round
  sqiral-Ended s =
      let w : Walk S = record { we_done_here = false; corner_count = 0; context = s } in
      let w' : Walk S = do_cell fun res origin centre w in
      let walked : Walked fun res origin (centre ∷ []) w w' =
        walk_offsets-Walked fun res origin (centre ∷ []) w refl in
      let rest : List Offset = rings_offsets (last_round res origin) 1 in
      rw (cells_at-append res origin (centre ∷ []) rest) (elim (Bool-cases w'.we_done_here) [
        | inl stop ↦ Ended-done (361 * res + 1) 1 w w' _ _ (omega arith) stop walked.outcome
        | inr go ↦ Ended-more _ w w' _ _ go walked.outcome (
            rings-Ended (last_round res origin) (361 * res + 1) 1 w' (omega arith) (omega arith)
              (omega arith) go (ground (arith, walked.corners go, centre_no_corner)))
      ])
