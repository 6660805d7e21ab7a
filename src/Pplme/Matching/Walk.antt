-- ===== src/Pplme/Matching/Walk.antt =====
-- The walk of FindMatchingPpl goes over the cells that Sqiral visits.
use ppl_me.Common.{
  ℕ, ◌*◌, ◌≤◌, ◌≡◌, ap, ◌∙◌, false, some, List, [], ◌∷◌, ◌++◌, append_assoc, append-nil, sym,
}
use ppl_me.Pplme.Grid.{CellLocator}
use ppl_me.Pplme.Sqiral.Offsets.{visit_until}
use ppl_me.Pplme.Sqiral.Ends.{sqiral_cells, sqiral-Ended}
use ppl_me.Pplme.Matching.{note, walk_from}

visit_until-note :
    (cells noted : List CellLocator) → visit_until note cells noted ≡ (false, noted ++ cells)
unfolding visit_until
visit_until-note [] noted = ap (λ l. (false, l)) (sym (append-nil noted))
visit_until-note (c ∷ cs) noted =
    visit_until-note cs (noted ++ c ∷ []) ∙ ap (λ l. (false, l)) (append_assoc noted (c ∷ []) cs)

-- The walk ends, and has noted all of its cells.
pub walk_from-eq :
    (res : ℕ) (origin : CellLocator)
    → origin.latitude_index ≤ 180 * res
    → 1 ≤ res
    → walk_from res origin ≡ some (sqiral_cells res origin)
unfolding walk_from
walk_from-eq res origin placed pos_res =
    let ended = sqiral-Ended note res origin placed pos_res [] in
    rw (ended.ends)
      (ap (λ x. some x.1) (ended.outcome ∙ visit_until-note (sqiral_cells res origin) []))
