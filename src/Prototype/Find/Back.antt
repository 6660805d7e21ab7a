-- ===== src/Prototype/Find/Back.antt =====
-- The caller of the prototype's find comes back by itself, and nothing touches its result then.
use ppl_me.Common.{
  ◌-◌, ◌≡◌, refl, ap, sym, subst, ◌∙◌, Bool, true, false, Option, some, none, List, [], ◌∷◌, ◌++◌,
  ◌==◌, if◌then◌else◌, Bool-cases, inl, inr,
}
use ppl_me.Prototype.Find.{
  Main, queueing, waiting, returned, Search, Event, main_step, time_out, start, finish, Outcome,
  blocked, crashed, moved, take_at, queue_next, rendezvous, main_goes, gives_up, start_next,
  end_search, finish_taken, finish_at, step, Reach, begins, goes,
}
use ppl_me.Prototype.Find.Invariant.{is_back}

module _ {C A : Type 0} (find : C → Option (List A)) where
  -- The caller is back and the orchestration is closed, as in a given state, or the step failed.
  abbrev StaysBack : Search C A → Outcome C A → Type 0
  StaysBack s blocked = Unit {0}
  StaysBack s crashed = Unit {0}
  StaysBack s (moved t) = (t.main ≡ s.main) × (t.is_open ≡ false) × (t.ppl ≡ s.ppl)

  finish_taken-StaysBack :
      (o : Option (C × List C)) (s : Search C A)
      → s.is_open ≡ false
      → StaysBack s (finish_taken find o s)
  unfolding finish_taken
  finish_taken-StaysBack none s closed = tt
  finish_taken-StaysBack (some (c, rest)) s closed = ended (find c)
    where
      ended : (o : Option (List A)) → StaysBack s (end_search find rest o s)
      ended none = tt
      ended (some more) = (refl, closed, ap (λ b. if b then s.ppl ++ more else s.ppl) closed)

  start_next-StaysBack :
      (queued : List C) (s : Search C A)
      → s.is_open ≡ false
      → StaysBack s (start_next find queued s)
  unfolding start_next
  start_next-StaysBack [] s closed = tt
  start_next-StaysBack (c ∷ cs) s closed =
      subst
        (λ b. StaysBack s (
          if b
          then moved (record s { queued = cs; searching = c ∷ s.searching })
          else moved (record s { queued = cs; pending_ops = s.pending_ops - 1 })))
        (sym closed) (refl, closed, refl)

  step-StaysBack :
      (e : Event) (s : Search C A) (finished : Bool) (r : List A)
      → s.main ≡ returned finished r
      → s.is_open ≡ false
      → StaysBack s (step find e s)
  unfolding step main_goes gives_up finish_at
  step-StaysBack main_step s f r back closed =
      subst (λ m. StaysBack s (main_goes find m s)) (sym back) tt
  step-StaysBack time_out s f r back closed =
      subst (λ m. StaysBack s (gives_up find m s)) (sym back) tt
  step-StaysBack start s f r back closed = start_next-StaysBack s.queued s closed
  step-StaysBack (finish n) s f r back closed =
      finish_taken-StaysBack (take_at n s.searching) s closed

  -- Once the caller is back, no worklette writes to its result.
  pub Reach-untouched :
      {s t : Search C A} (finished : Bool) (r : List A)
      → s.main ≡ returned finished r
      → s.is_open ≡ false
      → Reach find s t
      → (t.main ≡ returned finished r) × (t.is_open ≡ false) × (t.ppl ≡ s.ppl)
  Reach-untouched finished r back closed begins = (back, closed, refl)
  Reach-untouched finished r back closed (goes {s} e reach st) =
      let (back', closed', same) = Reach-untouched finished r back closed reach in
      let (m, c, p) = subst (StaysBack s) st (step-StaysBack e s finished r back' closed') in
      (m ∙ back', c, p ∙ same)

  -- The steps of the caller and its clock.
  abbrev pub is_callers : Event → Bool
  is_callers main_step = true
  is_callers time_out = true
  is_callers start = false
  is_callers (finish n) = false

  -- The states that these steps alone can lead to.
  pub data ByCaller (from : Search C A) : Search C A → Type 0 where
    stays : ByCaller from from
    acts :
        {s t : Search C A} (e : Event)
        → ByCaller from s
        → is_callers e ≡ true
        → step find e s ≡ moved t
        → ByCaller from t

  -- The caller is back, by such steps.
  pub record Alone (from : Search C A) : Type 0 where
    pub last : Search C A
    pub finished : Bool
    pub result : List A
    pub reach : ByCaller from last
    pub back : last.main ≡ returned finished result

  waiting-Alone : (from s : Search C A) → ByCaller from s → s.main ≡ waiting → Alone from
  unfolding step main_goes gives_up rendezvous
  waiting-Alone from s reach w = elim (Bool-cases (s.pending_ops == 0)) [
    | inl z ↦ record {
      last = record s { is_open = false; main = returned true s.ppl };
      finished = true;
      result = s.ppl;
      reach = acts main_step reach refl (went z);
      back = refl;
    }
    | inr z ↦ record {
      last = record s { is_open = false; main = returned false s.ppl };
      finished = false;
      result = s.ppl;
      reach = acts time_out reach refl (gave_up z);
      back = refl;
    }
  ]
    where
      went :
          (s.pending_ops == 0) ≡ true
          → main_goes find s.main s
            ≡ moved (record s { is_open = false; main = returned true s.ppl })
      went z =
          subst
            (λ m.
              main_goes find m s ≡ moved (record s { is_open = false; main = returned true s.ppl }))
            (sym w) (ap (λ b. if b then rendezvous find true s else blocked) z)

      gave_up :
          (s.pending_ops == 0) ≡ false
          → gives_up find s.main s
            ≡ moved (record s { is_open = false; main = returned false s.ppl })
      gave_up z =
          subst
            (λ m.
              gives_up find m s ≡ moved (record s { is_open = false; main = returned false s.ppl }))
            (sym w) (ap (λ b. if b then blocked else rendezvous find false s) z)

  went_on :
      (todo : List C) (s t : Search C A)
      → s.todo ≡ todo
      → s.main ≡ queueing
      → queue_next find todo s ≡ moved t
      → step find main_step s ≡ moved t
  unfolding step main_goes
  went_on todo s t e w h =
      subst (λ m. main_goes find m s ≡ moved t) (sym w)
        (subst (λ l. queue_next find l s ≡ moved t) (sym e) h)

  queueing-Alone :
      (todo : List C) (from s : Search C A)
      → ByCaller from s
      → s.todo ≡ todo
      → s.main ≡ queueing
      → Alone from
  unfolding queue_next
  queueing-Alone [] from s reach e w = elim (Bool-cases s.orchestrated) [
    | inl h ↦
        waiting-Alone from (record s { main = waiting })
          (acts main_step reach refl (
            went_on [] s _ e w (
              ap
                (λ b.
                  if b
                  then moved (record s { main = waiting })
                  else moved (record s { main = returned true s.ppl }))
                h)))
          refl
    | inr h ↦ record {
      last = record s { main = returned true s.ppl };
      finished = true;
      result = s.ppl;
      reach = acts main_step reach refl (
          went_on [] s _ e w (
            ap
              (λ b.
                if b
                then moved (record s { main = waiting })
                else moved (record s { main = returned true s.ppl }))
              h));
      back = refl;
    }
  ]
  queueing-Alone (c ∷ cs) from s reach e w =
      queueing-Alone cs from _ (acts main_step reach refl (went_on (c ∷ cs) s _ e w refl)) refl w

  Alone-of :
      (m : Main A) (from s : Search C A)
      → ByCaller from s
      → s.main ≡ m
      → is_back m ≡ false
      → Alone from
  Alone-of queueing from s reach w b = queueing-Alone s.todo from s reach refl w
  Alone-of waiting from s reach w b = waiting-Alone from s reach w
  Alone-of (returned f r) from s reach w b = cc

  -- From every state of the prototype's search in which the caller is not back yet, there are
  -- steps of the caller and its clock alone after which it is back: it needs no worker to begin
  -- or end a search.
  pub returns-Alone : (s : Search C A) → is_back s.main ≡ false → Alone s
  returns-Alone s b = Alone-of s.main s s stays refl b
