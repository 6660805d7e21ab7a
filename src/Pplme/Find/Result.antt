-- ===== src/Pplme/Find/Result.antt =====
-- What a find returns, whatever the schedule of its threads.
use ppl_me.Common.{
  ℕ, ◌+◌, ◌≤◌, ◌≡◌, refl, ap, sym, subst, min, Bool, true, false, not, List, [], ◌∷◌, All, arith,
  count, sum_of, Bool-cases, inl, inr, ◌⊎◌, Option, length, ltb, length-take, count-take-le,
  count-true, count-not, sum_of-add,
}
use ppl_me.Pplme.Grid.{CellLocator}
use ppl_me.Pplme.Find.{System, returned, Reach, begin}
use ppl_me.Pplme.Find.Sets.{occurs}
use ppl_me.Pplme.Find.Invariant.{Finds, weight, resized, Inv, Phase}
use ppl_me.Pplme.Find.Kept.{Reach-Inv}

module _ {A : Type 0} (found : CellLocator → List A) where
  -- How many of all the persons found in some cells pass a test, and how many there are.
  abbrev pub matches : (A → Bool) → List CellLocator → ℕ
  matches t = sum_of (λ c. count t (found c))

  abbrev pub all_matches : List CellLocator → ℕ
  all_matches = sum_of (λ c. length (found c))

  matches-not :
      (t : A → Bool) (cells : List CellLocator)
      → matches t cells + matches (λ x. not (t x)) cells ≡ all_matches cells
  matches-not t cells = sum_of-add _ _ _ cells (λ c. count-not t (found c))

  pub matches-true : (cells : List CellLocator) → matches (λ x. true) cells ≡ all_matches cells
  matches-true [] = refl
  matches-true (c ∷ cs) = omega (arith, count-true (found c), matches-true cs)

module _ {A : Type 0} (max_ppl concurrency : ℕ) (find : CellLocator → Option (List A))
    (found : CellLocator → List A) (cells : List CellLocator) where
  -- The result is made of what the cells hold, is as long as it may be, and complete if it fits.
  pub record IsAnswer (r : List A) : Type 0 where
    pub from_cells : (t : A → Bool) → count t r ≤ matches found t cells
    pub as_many : length r ≡ min max_ppl (all_matches found cells)
    pub complete :
        all_matches found cells ≤ max_ppl → (t : A → Bool) → count t r ≡ matches found t cells

  resized-IsAnswer :
      (ppl : List A)
      → ((t : A → Bool) → count t ppl ≤ matches found t cells)
      → (max_ppl ≤ length ppl) ⊎ (all_matches found cells ≤ length ppl)
      → IsAnswer (resized max_ppl concurrency find found cells ppl)
  resized-IsAnswer ppl le enough = elim (Bool-cases (ltb max_ppl (length ppl))) [
    | inl h ↦ rw h (record {
      from_cells = λ t. omega (arith, le t, count-take-le t max_ppl ppl);
      as_many = ground (
        arith,
        length-take max_ppl ppl,
        le (λ x. true),
        count-true ppl,
        matches-true found cells,
      );
      complete = λ few t.
          absurd (ground (arith, le (λ x. true), count-true ppl, matches-true found cells));
    })
    | inr h ↦ rw h (record {
      from_cells = le;
      as_many = ground (arith, le (λ x. true), count-true ppl, matches-true found cells);
      complete = λ few t.
          ground (arith, le t, le (λ x. not (t x)), count-not t ppl, matches-not found t cells);
    })
  ]

  todo_empty :
      (s : System A)
      → (s.todo ≡ []) ⊎ (s.we_done_here ≡ true)
      → s.we_done_here ≡ false
      → s.todo ≡ []
  todo_empty s (inl e) d = e
  todo_empty s (inr e) d = cc

  everyone :
      (s : System A)
      → Inv max_ppl concurrency find found cells s
      → s.pending_cells ≡ []
      → s.we_done_here ≡ false
      → s.todo ≡ []
      → all_matches found cells ≤ length s.ppl
  everyone s v empty d walked =
      let w : CellLocator → ℕ = weight max_ppl concurrency find found cells (λ x. true) in
      omega (
        arith,
        v.none_lost (λ x. true) d,
        ap (sum_of w) empty,
        ap (sum_of w) walked,
        count-true s.ppl,
        matches-true found cells,
      )

  enough :
      (s : System A)
      → Inv max_ppl concurrency find found cells s
      → s.pending_cells ≡ []
      → (s.todo ≡ []) ⊎ (s.we_done_here ≡ true)
      → (max_ppl ≤ length s.ppl) ⊎ (all_matches found cells ≤ length s.ppl)
  enough s v empty over = elim (Bool-cases s.we_done_here) [
    | inl d ↦ inl (v.full d)
    | inr d ↦ inr (everyone s v empty d (todo_empty s over d))
  ]

  -- For a walk over distinct cells whose searches succeed: in every reachable state in which
  -- the caller is back with r, r is made of what the cells hold, is min(max_ppl, the number of
  -- all matches) long, and is complete if all matches are at most max_ppl.
  pub Reach-IsAnswer :
      ((c : CellLocator) → occurs c cells ≤ 1)
      → All (Finds max_ppl concurrency find found cells) cells
      → (s : System A) (r : List A)
      → Reach max_ppl concurrency find (begin max_ppl concurrency find cells) s
      → s.main ≡ returned r
      → IsAnswer r
  Reach-IsAnswer once finds s r reach back =
      let v : Inv max_ppl concurrency find found cells s =
        Reach-Inv max_ppl concurrency find found cells once finds reach in
      let (empty, over, is_resized) =
        subst (λ m. Phase max_ppl concurrency find found cells m s) back v.phase in
      subst IsAnswer (sym is_resized)
        (resized-IsAnswer s.ppl (λ t. omega (arith, v.none_made t)) (enough s v empty over))
