-- ===== src/Prototype/Find.antt =====
-- FindMatchingPpl of the prototype: the caller queues a worklette for each nearby cell and waits
-- for them, one second at most. The steps between two waits or lock blocks are atomic; which
-- thread goes next, and when the second is over, is an `Event` chosen from outside.
pub mod Taken
pub mod Invariant
pub mod Result
pub mod Back
use ppl_me.Common.{
  ℕ, zero, suc, ◌+◌, ◌-◌, Bool, true, false, not, ◌||◌, Option, some, none, List, [], ◌∷◌, ◌++◌,
  ◌==◌, if◌then◌else◌, ◌≡◌,
}

-- The caller queues worklettes, waits, or is back with its result; `finished` is what wait_for
-- returned, true where there was no need to wait.
pub data Main (A : Type 0) : Type 0 where
  queueing waiting : Main A
  returned : (finished : Bool) → List A → Main A

-- The locals of FindMatchingPpl and its FindPplOrchestration. `is_open` says that the pointer to
-- `ppl` in the orchestration is not null.
pub record Search (C A : Type 0) : Type 0 where
  pub todo : List C
  pub ppl : List A
  pub orchestrated : Bool
  pub is_open : Bool
  pub pending_ops : ℕ
  pub queued : List C
  pub searching : List C
  pub main : Main A

-- The caller goes on; its second is over; a worker takes the next worklette; the worklette at a
-- position of `searching` ends.
pub data Event : Type 0 where
  main_step time_out start : Event
  finish : ℕ → Event

pub data Outcome (C A : Type 0) : Type 0 where
  blocked crashed : Outcome C A
  moved : Search C A → Outcome C A

-- The element at a position, and the others.
abbrev pub take_at : {C : Type 0} → ℕ → List C → Option (C × List C)
take_at n [] = none
take_at zero (c ∷ cs) = some (c, cs)
take_at (suc n) (c ∷ cs) = elim (take_at n cs) [ none ↦ none | some (d, ds) ↦ some (d, c ∷ ds) ]

module _ {C A : Type 0} (find : C → Option (List A)) where
  -- The loop over the nearby cells, and its end.
  unfoldable pub queue_next : List C → Search C A → Outcome C A
  queue_next [] s =
      if s.orchestrated
      then moved (record s { main = waiting })
      else moved (record s { main = returned true s.ppl })
  queue_next (c ∷ cs) s = moved (record s {
    todo = cs;
    orchestrated = true;
    is_open = s.is_open || not s.orchestrated;
    pending_ops = s.pending_ops + 1;
    queued = s.queued ++ c ∷ [];
  })

  -- After the wait: `orchestration->ppl = nullptr`, and the return.
  unfoldable pub rendezvous : Bool → Search C A → Outcome C A
  rendezvous finished s = moved (record s { is_open = false; main = returned finished s.ppl })

  unfoldable pub main_goes : Main A → Search C A → Outcome C A
  unfolding queue_next rendezvous
  main_goes queueing s = queue_next s.todo s
  main_goes waiting s = if s.pending_ops == 0 then rendezvous true s else blocked
  main_goes (returned finished r) s = blocked

  -- wait_for gives up.
  unfoldable pub gives_up : Main A → Search C A → Outcome C A
  unfolding rendezvous
  gives_up queueing s = blocked
  gives_up waiting s = if s.pending_ops == 0 then blocked else rendezvous false s
  gives_up (returned finished r) s = blocked

  -- The first lock block of a worklette.
  unfoldable pub start_next : List C → Search C A → Outcome C A
  start_next [] s = blocked
  start_next (c ∷ cs) s =
      if s.is_open
      then moved (record s { queued = cs; searching = c ∷ s.searching })
      else moved (record s { queued = cs; pending_ops = s.pending_ops - 1 })

  -- The second lock block, with what the search found; its exceptions end the process.
  unfoldable pub end_search : List C → Option (List A) → Search C A → Outcome C A
  end_search rest none s = crashed
  end_search rest (some resultslette) s = moved (record s {
    ppl = if s.is_open then s.ppl ++ resultslette else s.ppl;
    searching = rest;
    pending_ops = s.pending_ops - 1;
  })

  -- The worklette that was taken, and the others.
  unfoldable pub finish_taken : Option (C × List C) → Search C A → Outcome C A
  unfolding end_search
  finish_taken none s = blocked
  finish_taken (some (c, rest)) s = end_search rest (find c) s

  unfoldable pub finish_at : ℕ → Search C A → Outcome C A
  unfolding finish_taken
  finish_at n s = finish_taken (take_at n s.searching) s

  unfoldable pub step : Event → Search C A → Outcome C A
  unfolding main_goes gives_up start_next finish_at
  step main_step s = main_goes s.main s
  step time_out s = gives_up s.main s
  step start s = start_next s.queued s
  step (finish n) s = finish_at n s

  -- The search before the nearby cells, with what the user's own cell gave.
  unfoldable pub begin : List A → List C → Search C A
  begin own cells = record {
    todo = cells;
    ppl = own;
    orchestrated = false;
    is_open = false;
    pending_ops = 0;
    queued = [];
    searching = [];
    main = queueing;
  }

  -- The states that a schedule can lead to.
  pub data Reach (from : Search C A) : Search C A → Type 0 where
    begins : Reach from from
    goes : {s t : Search C A} (e : Event) → Reach from s → step e s ≡ moved t → Reach from t
