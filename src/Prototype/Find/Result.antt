-- ===== src/Prototype/Find/Result.antt =====
-- What the prototype's find returns.
use ppl_me.Common.{
  ℕ, ◌+◌, ◌-◌, ◌≤◌, ◌≡◌, refl, ap, sym, subst, ◌∙◌, Bool, true, false, Option, some, none, List,
  ◌++◌, All, arith, count, count-append, if◌then◌else◌, Bool-cases, inl, inr,
}
use ppl_me.Prototype.Find.{
  Main, queueing, waiting, returned, Search, Event, main_step, time_out, start, finish, take_at,
  end_search, finish_taken, finish_at, step, begin, Reach, begins, goes,
}
use ppl_me.Prototype.Find.Taken.{sum_of-take_at, length-take_at, All-take_at}
use ppl_me.Prototype.Find.Invariant.{
  Finds, held, Phase, Inv, Keeps, begin-Inv, main_goes-Keeps, gives_up-Keeps, start_next-Keeps,
  closed_back,
}

module _ {C A : Type 0} (find : C → Option (List A)) (found : C → List A) (own : List A)
    (cells : List C) where
  -- The state after the search of `c`, one of those being searched.
  abbrev over : Search C A → C → List C → Bool → Search C A
  over s c rest is_open = record s {
    ppl = if is_open then s.ppl ++ found c else s.ppl;
    searching = rest;
    pending_ops = s.pending_ops - 1;
  }

  over-Phase :
      (m : Main A) (s : Search C A) (c : C) (rest : List C)
      → Phase find found own cells m s
      → Phase find found own cells m (over s c rest s.is_open)
  over-Phase queueing s c rest p = p
  over-Phase waiting s c rest p = p
  over-Phase (returned f r) s c rest p =
      (p.0, p.1 ∙ sym (ap (λ b. if b then s.ppl ++ found c else s.ppl) p.0), p.2)

  -- How many pass a test after the search of `c`.
  count-over :
      (t : A → Bool) (b : Bool) (xs ys : List A)
      → count t (if b then xs ++ ys else xs) ≡ count t xs + (if b then count t ys else 0)
  count-over t true xs ys = count-append t xs ys
  count-over t false xs ys = omega arith

  counted-le : (b : Bool) (n : ℕ) → (if b then n else 0) ≤ n
  counted-le true n = omega arith
  counted-le false n = omega arith

  all_counted : (b : Bool) (n : ℕ) → b ≡ true → (if b then n else 0) ≡ n
  all_counted b n e = rw e refl

  over-Inv :
      (n : ℕ) (s : Search C A) (c : C) (rest : List C)
      → Inv find found own cells s
      → take_at n s.searching ≡ some (c, rest)
      → Inv find found own cells (over s c rest s.is_open)
  over-Inv n s c rest v e = record {
    pending = omega (arith, v.pending, length-take_at n s.searching c rest e);
    find_todo = v.find_todo;
    find_queued = v.find_queued;
    find_searching =
        (All-take_at (Finds find found own cells) n s.searching c rest e v.find_searching).1;
    idle = λ h. omega (arith, v.idle h);
    own_kept = λ t. omega (arith, v.own_kept t, count-over t s.is_open s.ppl (found c));
    none_made = λ t. omega (
      arith,
      v.none_made t,
      count-over t s.is_open s.ppl (found c),
      counted-le s.is_open (count t (found c)),
      sum_of-take_at (λ d. count t (found d)) n s.searching c rest e,
    );
    none_lost = λ t b. elim (Bool-cases s.is_open) [
      | inl h ↦ omega (
        arith,
        v.none_lost t b,
        count-over t s.is_open s.ppl (found c),
        all_counted s.is_open (count t (found c)) h,
        sum_of-take_at (λ d. count t (found d)) n s.searching c rest e,
      )
      | inr h ↦ absurd (
          cc (
            closed_back find found own cells s.main s v refl h
              (omega (arith, v.pending, length-take_at n s.searching c rest e))))
    ];
    phase = over-Phase s.main s c rest v.phase;
  }

  end_search-Keeps :
      (n : ℕ) (s : Search C A) (c : C) (rest : List C) (o : Option (List A))
      → Inv find found own cells s
      → take_at n s.searching ≡ some (c, rest)
      → o ≡ some (found c)
      → Keeps find found own cells (end_search find rest o s)
  unfolding end_search
  end_search-Keeps n s c rest o v e f =
      subst (λ o. Keeps find found own cells (end_search find rest o s)) (sym f)
        (over-Inv n s c rest v e)

  finish_taken-Keeps :
      (n : ℕ) (o : Option (C × List C)) (s : Search C A)
      → Inv find found own cells s
      → take_at n s.searching ≡ o
      → Keeps find found own cells (finish_taken find o s)
  unfolding finish_taken
  finish_taken-Keeps n none s v e = tt
  finish_taken-Keeps n (some (c, rest)) s v e =
      end_search-Keeps n s c rest (find c) v e
        (All-take_at (Finds find found own cells) n s.searching c rest e v.find_searching).0

  finish_at-Keeps :
      (n : ℕ) (s : Search C A)
      → Inv find found own cells s
      → Keeps find found own cells (finish_at find n s)
  unfolding finish_at
  finish_at-Keeps n s v = finish_taken-Keeps n (take_at n s.searching) s v refl

  -- No step fails, and each keeps the invariant.
  step-Keeps :
      (e : Event) (s : Search C A)
      → Inv find found own cells s
      → Keeps find found own cells (step find e s)
  unfolding step
  step-Keeps main_step s v = main_goes-Keeps find found own cells s.main s v refl
  step-Keeps time_out s v = gives_up-Keeps find found own cells s.main s v refl
  step-Keeps start s v = start_next-Keeps find found own cells s.queued s v refl
  step-Keeps (finish n) s v = finish_at-Keeps n s v

  Reach-Inv :
      All (Finds find found own cells) cells
      → {s : Search C A} → Reach find (begin find own cells) s
      → Inv find found own cells s
  Reach-Inv finds begins = begin-Inv find found own cells finds
  Reach-Inv finds (goes {s} e r st) =
      subst (Keeps find found own cells) st (step-Keeps e s (Reach-Inv finds r))

  -- The result has what the user's own cell gave, and nothing but that and what the cells hold;
  -- it has all of it if the wait was long enough.
  pub record IsAnswer (finished : Bool) (r : List A) : Type 0 where
    pub own_kept : (t : A → Bool) → count t own ≤ count t r
    pub from_cells : (t : A → Bool) → count t r ≤ count t own + held find found own cells t cells
    pub complete :
        finished ≡ true
        → (t : A → Bool) → count t r ≡ count t own + held find found own cells t cells

  pub Reach-IsAnswer :
      All (Finds find found own cells) cells
      → (s : Search C A) (finished : Bool) (r : List A) → Reach find (begin find own cells) s
      → s.main ≡ returned finished r
      → IsAnswer finished r
  Reach-IsAnswer finds s finished r reach back =
      let v : Inv find found own cells s = Reach-Inv finds reach in
      let (closed, is_r, full) = subst (λ m. Phase find found own cells m s) back v.phase in
      record {
        own_kept = λ t. omega (arith, v.own_kept t, ap (count t) is_r);
        from_cells = λ t. omega (arith, v.none_made t, ap (count t) is_r);
        complete = λ f t. full t f;
      }
