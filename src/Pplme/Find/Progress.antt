-- ===== src/Pplme/Find/Progress.antt =====
-- A find neither deadlocks nor runs for ever.
use ppl_me.Common.{
  ℕ, zero, suc, ◌≤◌, ◌<◌, ◌≡◌, ◌≢◌, refl, ap, if_elim, true, false, List, [], ◌∷◌, All, arith,
  Bool-cases, inl, inr, ◌⊎◌, Option, some, none, length,
}
use ppl_me.Pplme.Grid.{CellLocator}
use ppl_me.Pplme.Find.{
  is_unaided, Unaided, stays, steps, System, Main, walking, stopping, rendezvous, returned, Event,
  main_step, start, finish, Outcome, blocked, crashed, moved, contains, walk_on, main_goes,
  start_search, push_found, finish_search, step, Reach, goes, begin,
}
use ppl_me.Pplme.Find.Sets.{occurs, occurs-contains, locator_eq_self}
use ppl_me.Pplme.Find.Invariant.{Inv, Keeps, Finds}
use ppl_me.Pplme.Find.Kept.{step-Keeps, Reach-Inv}
use ppl_me.Pplme.Find.Work.{work_left, work_left-step}

module _ {A : Type 0} (max_ppl concurrency : ℕ) (find : CellLocator → Option (List A)) where
  -- A step that is possible, is no spurious wake-up and does not crash leads on.
  abbrev pub CanGo : System A → Type 0
  CanGo s =
      (e : Event) × (t : System A) × (is_unaided e ≡ true)
      × (step max_ppl concurrency find e s ≡ moved t)

  module _ (found : CellLocator → List A) (cells : List CellLocator)
      (some_room : 1 ≤ concurrency) where
    pub go_on :
        (o : Outcome A)
        → Keeps max_ppl concurrency find found cells o
        → o ≢ blocked
        → (t : System A) × (o ≡ moved t)
    go_on blocked k n = absurd (n refl)
    go_on crashed k n = absurd k
    go_on (moved t) k n = (t, refl)

    can_go :
        (e : Event) (s : System A)
        → Inv max_ppl concurrency find found cells s
        → is_unaided e ≡ true
        → step max_ppl concurrency find e s ≢ blocked
        → CanGo s
    can_go e s v own n =
        let (t, h) =
          go_on (step max_ppl concurrency find e s)
            (step-Keeps max_ppl concurrency find found cells e s v) n in
        (e, t, own, h)

    pub start_possible :
        (c : CellLocator) (s : System A)
        → contains c s.queued ≡ true
        → step max_ppl concurrency find (start c) s ≢ blocked
    unfolding step start_search
    start_possible c s q = ground arith

    push_found_possible :
        (c : CellLocator) (s : System A) (o : Option (List A))
        → push_found max_ppl concurrency find c s o ≢ blocked
    unfolding push_found
    push_found_possible c s none = cc
    push_found_possible c s (some ps) = ground arith

    pub finish_possible :
        (c : CellLocator) (s : System A)
        → contains c s.searching ≡ true
        → step max_ppl concurrency find (finish c) s ≢ blocked
    unfolding step finish_search
    finish_possible c s q = rw q (push_found_possible c s (find c))

    -- While a cell is pending some worker can go on.
    worker-CanGo :
        (pending : List CellLocator) (s : System A)
        → Inv max_ppl concurrency find found cells s
        → s.pending_cells ≡ pending
        → 1 ≤ length pending
        → CanGo s
    worker-CanGo [] s v e h = absurd (omega arith)
    worker-CanGo (c ∷ cs) s v e h = elim (Bool-cases (contains c s.queued)) [
      | inl q ↦ can_go (start c) s v refl (start_possible c s q)
      | inr q ↦ can_go (finish c) s v refl (
          finish_possible c s (
            occurs-contains c s.searching (
              ground (
                arith,
                v.tracked c,
                ap (occurs c) e,
                locator_eq_self c,
                occurs-contains c s.queued,
              ))))
    ]

    -- A caller that is awake goes on or goes to sleep.
    walk_possible :
        (todo : List CellLocator) (s : System A) → walk_on max_ppl concurrency find todo s ≢ blocked
    unfolding walk_on
    walk_possible [] s = cc
    walk_possible (c ∷ cs) s = ground arith

    main_possible :
        (m : Main A) (s : System A)
        → ((r : List A) → m ≢ returned r)
        → main_goes max_ppl concurrency find m s ≢ blocked
    unfolding main_goes
    main_possible walking s n = walk_possible s.todo s
    main_possible stopping s n = ground arith
    main_possible rendezvous s n = ground arith
    main_possible (returned r) s n = absurd (n r refl)

    awake_possible :
        (s : System A)
        → s.asleep ≡ false
        → ((r : List A) → s.main ≢ returned r)
        → step max_ppl concurrency find main_step s ≢ blocked
    unfolding step
    awake_possible s a n =
        if_elim (λ o. o ≢ blocked) s.asleep (λ e. absurd (cc)) (λ e. main_possible s.main s n)

    -- With a concurrency of at least 1, in every state in which the invariant of a find holds
    -- and the caller is not back, some thread can take a step that does not crash and is no
    -- spurious wake-up.
    pub find-CanGo :
        (s : System A)
        → Inv max_ppl concurrency find found cells s
        → ((r : List A) → s.main ≢ returned r)
        → CanGo s
    find-CanGo s v n = elim (Bool-cases s.asleep) [
      | inl a ↦ worker-CanGo s.pending_cells s v refl (ground (arith, v.wakeful a, some_room))
      | inr a ↦ can_go main_step s v refl (awake_possible s a n)
    ]

    pub returned_or_not :
        (m : Main A) → ((r : List A) × (m ≡ returned r)) ⊎ ((r : List A) → m ≢ returned r)
    returned_or_not walking = inr (λ r. λ e. cc)
    returned_or_not stopping = inr (λ r. λ e. cc)
    returned_or_not rendezvous = inr (λ r. λ e. cc)
    returned_or_not (returned r) = inl (r, refl)

    -- A schedule without spurious wake-ups is a schedule.
    pub Unaided-Reach :
        {from s t : System A}
        → Reach max_ppl concurrency find from s
        → Unaided max_ppl concurrency find s t
        → Reach max_ppl concurrency find from t
    Unaided-Reach reach stays = reach
    Unaided-Reach reach (steps e u own st) = goes e (Unaided-Reach reach u) st

    -- From every state that a find can reach, the caller can be brought back with a result.
    pub find_returns :
        (n : ℕ) (from s : System A)
        → work_left s < n
        → ((c : CellLocator) → occurs c cells ≤ 1)
        → All (Finds max_ppl concurrency find found cells) cells
        → Reach max_ppl concurrency find (begin max_ppl concurrency find cells) from
        → Unaided max_ppl concurrency find from s
        → (t : System A) × (r : List A) × Unaided max_ppl concurrency find from t
          × (t.main ≡ returned r)
    find_returns zero from s h once finds reach u = absurd (omega arith)
    find_returns (suc n) from s h once finds reach u = elim (returned_or_not s.main) [
      | inl (r, e) ↦ (s, r, u, e)
      | inr still ↦
          let v =
            Reach-Inv max_ppl concurrency find found cells once finds (Unaided-Reach reach u) in
          let (e, t, own, st) = find-CanGo s v still in
          find_returns n from t
            (omega (arith, work_left-step max_ppl concurrency find e s t own st)) once finds reach
            (steps e u own st)
    ]
