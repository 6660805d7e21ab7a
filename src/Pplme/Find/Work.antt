-- ===== src/Pplme/Find/Work.antt =====
-- What a find has left to do.
use ppl_me.Common.{
  one_if, ℕ, suc, ◌+◌, ◌*◌, ◌<◌, ◌≡◌, refl, ap, subst, Bool, true, false, not, List, [], ◌∷◌, arith,
  if◌then◌else◌, Option, some, none, length, length-append, leb,
}
use ppl_me.Pplme.Grid.{CellLocator}
use ppl_me.Pplme.Find.{
  System, Main, walking, stopping, rendezvous, returned, Event, main_step, main_wakes, is_unaided,
  start, finish, Outcome, blocked, crashed, moved, contains, erase, is_empty, may_go_on, walk_on,
  main_goes, start_search, push_found, finish_search, step,
}

-- What is left to do before the caller returns.
abbrev pub rank : {A : Type 0} → Main A → ℕ
rank walking = 3
rank stopping = 2
rank rendezvous = 1
rank (returned r) = 0

abbrev pub work_left : {A : Type 0} → System A → ℕ
work_left s =
    2 * (3 * length s.todo + 2 * length s.queued + length s.searching + rank s.main)
    + one_if (not s.asleep)

length-erase_member :
    (c : CellLocator) (xs : List CellLocator)
    → contains c xs ≡ true
    → length xs ≡ suc (length (erase c xs))
length-erase_member c [] h = absurd (ground arith)
length-erase_member c (d ∷ ds) h = ground (arith, length-erase_member c ds)

module _ {A : Type 0} (max_ppl concurrency : ℕ) (find : CellLocator → Option (List A)) where
  -- A step leads on only to states with less work left.
  abbrev Less : ℕ → Outcome A → Type 0
  Less n blocked = Unit {0}
  Less n crashed = Unit {0}
  Less n (moved t) = work_left t < n

  Less-if :
      (n : ℕ) (b : Bool) (x y : Outcome A)
      → (b ≡ true → Less n x)
      → (b ≡ false → Less n y)
      → Less n (if b then x else y)
  Less-if n true x y f g = f refl
  Less-if n false x y f g = g refl

  walk_on-Less :
      (todo : List CellLocator) (s : System A)
      → s.main ≡ walking
      → s.todo ≡ todo
      → s.asleep ≡ false
      → Less (work_left s) (walk_on max_ppl concurrency find todo s)
  unfolding walk_on
  walk_on-Less [] s w e a = omega (arith, ap rank w)
  walk_on-Less (c ∷ cs) s w e a =
      Less-if _ (may_go_on max_ppl concurrency find s) _ _
        (λ go.
          Less-if _ (leb max_ppl (length s.ppl)) _ _ (λ h. omega (arith, ap rank w))
            (λ h.
              Less-if _ (not s.we_done_here) _ _
                (λ d.
                  Less-if _ (contains c s.pending_cells) _ _ (λ p. tt)
                    (λ p. omega (arith, ap rank w, ap length e, length-append s.queued (c ∷ []))))
                (λ d. omega (arith, ap rank w))))
        (λ stay. omega (arith, ap (λ b. one_if (not b)) a))

  main_goes-Less :
      (m : Main A) (s : System A)
      → s.main ≡ m
      → s.asleep ≡ false
      → Less (work_left s) (main_goes max_ppl concurrency find m s)
  unfolding main_goes
  main_goes-Less walking s w a = walk_on-Less s.todo s w refl a
  main_goes-Less stopping s w a =
      Less-if _ (is_empty s.pending_cells) _ _ (λ h. omega (arith, ap rank w))
        (λ h. omega (arith, ap (λ b. one_if (not b)) a))
  main_goes-Less rendezvous s w a =
      Less-if _ (is_empty s.pending_cells) _ _ (λ h. omega (arith, ap rank w))
        (λ h. omega (arith, ap (λ b. one_if (not b)) a))
  main_goes-Less (returned r) s w a = tt

  start_search-Less :
      (c : CellLocator) (s : System A)
      → Less (work_left s) (start_search max_ppl concurrency find c s)
  unfolding start_search
  start_search-Less c s =
      Less-if _ (contains c s.queued) _ _
        (λ q.
          Less-if _ s.we_done_here _ _
            (λ d.
              Less-if _ (contains c s.pending_cells) _ _
                (λ p. omega (arith, length-erase_member c s.queued q)) (λ p. tt))
            (λ d. omega (arith, length-erase_member c s.queued q)))
        (λ q. tt)

  push_found-Less :
      (c : CellLocator) (s : System A) (o : Option (List A))
      → contains c s.searching ≡ true
      → Less (work_left s) (push_found max_ppl concurrency find c s o)
  unfolding push_found
  push_found-Less c s none q = tt
  push_found-Less c s (some ps) q =
      Less-if _ (contains c s.pending_cells) _ _
        (λ p. omega (arith, length-erase_member c s.searching q)) (λ p. tt)

  step-Less :
      (e : Event) (s : System A)
      → is_unaided e ≡ true
      → Less (work_left s) (step max_ppl concurrency find e s)
  unfolding step finish_search push_found
  step-Less main_step s own = Less-if _ s.asleep _ _ (λ a. tt) (λ a. main_goes-Less s.main s refl a)
  step-Less main_wakes s own = cc
  step-Less (start c) s own = start_search-Less c s
  step-Less (finish c) s own =
      Less-if _ (contains c s.searching) _ _ (λ q. push_found-Less c s (find c) q) (λ q. tt)

  -- Every step of a find but a spurious wake-up leaves less work (cells still to visit, worklettes
  -- still to run, waits still to come), so no schedule without these goes on for ever.
  pub work_left-step :
      (e : Event) (s t : System A)
      → is_unaided e ≡ true
      → step max_ppl concurrency find e s ≡ moved t
      → work_left t < work_left s
  work_left-step e s t own h = subst (Less (work_left s)) h (step-Less e s own)
