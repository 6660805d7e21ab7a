-- ===== src/Pplme/Threads/Schedule.antt =====
-- Every call on the pool ends under every scheduler that lets some thread go when one can.
use ppl_me.Common.{
  ℕ, zero, suc, ltb, ◌≤◌, ◌<◌, ◌≡◌, ◌≢◌, refl, ap, ◌∙◌, Bool, true, false, List, All, arith, Option,
  some, none, length, if◌then◌else◌, inl, inr, ◌⊎◌,
}
use ppl_me.Pool.{NoddyWorkerPool}
use ppl_me.Pplme.Grid.{CellLocator}
use ppl_me.Pplme.Find.{Main, walking, stopping, rendezvous, returned, System, begin, Reach}
use ppl_me.Pplme.Find.Sets.{occurs}
use ppl_me.Pplme.Find.Invariant.{Finds}
use ppl_me.Pplme.Find.Progress.{returned_or_not}
use ppl_me.Pplme.Threads.{
  Host, Worklette, no_find, Turn, TurnOutcome, idle, failed, turned, IsResting, turn, is_own,
  Hosted, turns,
}
use ppl_me.Pplme.Threads.Progress.{CanTurn, hosted, hosted-CanTurn}
use ppl_me.Pplme.Threads.Work.{turns_ahead, turns_ahead-turn, IsQuiet}
use ppl_me.Pplme.Threads.Follows.{Hosted-Reach, Reach-no_find}

module _ {A : Type 0} (max_ppl concurrency : ℕ) (find : ℕ → CellLocator → Option (List A)) where
  -- With n calls, it chooses a turn that is possible, whenever one is.
  abbrev pub IsScheduler : ℕ → (Host A → Turn) → Type 0
  IsScheduler n next =
      (s : Host A)
      → IsQuiet n s.contexts
      → CanTurn max_ppl concurrency find s
      → (is_own (next s) ≡ true)
        × ((t : Host A) × (turn max_ppl concurrency find (next s) s ≡ turned t))

  abbrev answer_or : Main A → Option (List A) → Option (List A)
  answer_or walking o = o
  answer_or stopping o = o
  answer_or rendezvous o = o
  answer_or (returned r) o = some r

  abbrev and_then : TurnOutcome A → (Host A → Option (List A)) → Option (List A)
  and_then idle k = none
  and_then failed k = none
  and_then (turned t) k = k t

  -- What the caller i has after at most so many turns of a scheduler's choice, if it is back.
  unfoldable pub drive : ℕ → (Host A → Turn) → ℕ → Host A → Option (List A)
  drive i next zero s = answer_or (s.contexts i).main none
  drive i next (suc m) s =
      answer_or (s.contexts i).main
        (and_then (turn max_ppl concurrency find (next s) s) (λ t. drive i next m t))

  drive_back :
      (i : ℕ) (next : Host A → Turn) (m : ℕ) (s : Host A) (r : List A)
      → (s.contexts i).main ≡ returned r
      → drive i next m s ≡ some r
  unfolding drive
  drive_back i next zero s r e = rw e refl
  drive_back i next (suc m) s r e = rw e refl

  still_out :
      (m : Main A) (o : Option (List A)) → ((r : List A) → m ≢ returned r) → answer_or m o ≡ o
  still_out walking o h = refl
  still_out stopping o h = refl
  still_out rendezvous o h = refl
  still_out (returned r) o h = absurd (h r refl)

  drive_on :
      (i : ℕ) (next : Host A → Turn) (m : ℕ) (s t : Host A)
      → ((r : List A) → (s.contexts i).main ≢ returned r)
      → turn max_ppl concurrency find (next s) s ≡ turned t
      → drive i next (suc m) s ≡ drive i next m t
  unfolding drive
  drive_on i next m s t still e =
      still_out (s.contexts i).main _ still ∙ ap (λ o. and_then o (λ t'. drive i next m t')) e

  module _ (found : ℕ → CellLocator → List A) (n : ℕ) (cells : ℕ → List CellLocator)
      (p : NoddyWorkerPool Worklette) (at_rest : IsResting p)
      (once : (i : ℕ) (c : CellLocator) → occurs c (cells i) ≤ 1)
      (finds : (i : ℕ) → All (Finds max_ppl concurrency (find i) (found i) (cells i)) (cells i))
      (room : 1 ≤ concurrency) (some_thread : 1 ≤ length p.workers) where
    abbrev pub from : Host A
    from = hosted max_ppl concurrency find p n cells

    quiet_call :
        (i : ℕ) (b : Bool) (s : System A)
        → b ≡ false
        → Reach max_ppl concurrency
            (find i)
            (if b then begin max_ppl concurrency (find i) (cells i) else no_find)
            s
        → s ≡ no_find
    quiet_call i true s h r = absurd (ground arith)
    quiet_call i false s h r = Reach-no_find max_ppl concurrency (find i) refl r

    Hosted-IsQuiet : (s : Host A) → Hosted max_ppl concurrency find from s → IsQuiet n s.contexts
    Hosted-IsQuiet s h i le =
        quiet_call i (ltb i n) (s.contexts i) (ground arith)
          (Hosted-Reach max_ppl concurrency find h i)

    -- The caller is back with r after at most m turns from s, in a state that the calls can reach.
    abbrev pub IsBack : ℕ → (Host A → Turn) → ℕ → Host A → Type 0
    IsBack i next m s =
        (r : List A) × (t : Host A) × (drive i next m s ≡ some r)
        × Hosted max_ppl concurrency find from t
        × ((t.contexts i).main ≡ returned r)

    chosen :
        (i : ℕ) (next : Host A → Turn) (s : Host A)
        → IsScheduler n next
        → Hosted max_ppl concurrency find from s
        → ((r : List A) → (s.contexts i).main ≢ returned r)
        → (t : Host A) × (turn max_ppl concurrency find (next s) s ≡ turned t)
          × (turns_ahead n t < turns_ahead n s)
    chosen i next s fair h still =
        let quiet = Hosted-IsQuiet s h in
        let (own, (t, e)) = fair s quiet (
          hosted-CanTurn max_ppl concurrency find found n cells p at_rest once finds room
            some_thread s h i still) in
        (t, e, turns_ahead-turn max_ppl concurrency find n (next s) s t quiet own e)

    go_on :
        (i : ℕ) (next : Host A → Turn) (m : ℕ) (s t : Host A)
        → ((r : List A) → (s.contexts i).main ≢ returned r)
        → turn max_ppl concurrency find (next s) s ≡ turned t
        → IsBack i next m t
        → IsBack i next (suc m) s
    go_on i next m s t still e (r, u, back, h, at_end) =
        (r, u, drive_on i next m s t still e ∙ back, h, at_end)

    back_or_not :
        (i : ℕ) (s : Host A)
        → ((r : List A) × ((s.contexts i).main ≡ returned r))
          ⊎ ((r : List A) → (s.contexts i).main ≢ returned r)
    back_or_not i s =
        returned_or_not max_ppl concurrency (find i) (found i) (cells i) room (s.contexts i).main

    -- From every state that the calls can reach, each caller is back within the turns ahead.
    pub drive-IsBack :
        (i : ℕ) (next : Host A → Turn) (m : ℕ) (s : Host A)
        → IsScheduler n next
        → Hosted max_ppl concurrency find from s
        → turns_ahead n s ≤ m
        → IsBack i next m s
    drive-IsBack i next zero s fair h few = elim (back_or_not i s) [
      | inl (r, e) ↦ (r, s, drive_back i next zero s r e, h, e)
      | inr still ↦
          let (t, e, less) = chosen i next s fair h still in absurd (omega (arith, less, few))
    ]
    drive-IsBack i next (suc m) s fair h few = elim (back_or_not i s) [
      | inl (r, e) ↦ (r, s, drive_back i next (suc m) s r e, h, e)
      | inr still ↦
          let (t, e, less) = chosen i next s fair h still in
          go_on i next m s t still e
            (drive-IsBack i next m t fair (turns (next s) h e) (omega (arith, less, few)))
    ]
