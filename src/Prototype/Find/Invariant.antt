-- ===== src/Prototype/Find/Invariant.antt =====
-- What holds in every state of the prototype's find, and what its result is made of.
use ppl_me.Common.{
  ℕ, ◌+◌, ◌≤◌, ◌≡◌, refl, ap, sym, subst, ◌∙◌, Bool, true, false, not, ◌||◌, Option, some, List, [],
  ◌∷◌, ◌++◌, All, All-append, arith, count, sum_of, sum_of-append, length, length-append, ◌==◌,
  if◌then◌else◌, ==→eq,
}
use ppl_me.Prototype.Find.{
  Main, queueing, waiting, returned, Search, Outcome, blocked, crashed, moved, queue_next,
  rendezvous, main_goes, gives_up, start_next, begin,
}

abbrev pub is_back : {A : Type 0} → Main A → Bool
is_back queueing = false
is_back waiting = false
is_back (returned finished r) = true

module _ {C A : Type 0} (find : C → Option (List A)) (found : C → List A) (own : List A)
    (cells : List C) where
  -- The search of a cell succeeds.
  abbrev pub Finds : C → Type 0
  Finds c = find c ≡ some (found c)

  -- How many of the persons of some cells pass a test.
  abbrev pub held : (A → Bool) → List C → ℕ
  held t = sum_of (λ c. count t (found c))

  abbrev pub Phase : Main A → Search C A → Type 0
  Phase queueing s = s.is_open ≡ s.orchestrated
  Phase waiting s = (s.is_open ≡ true) × (s.todo ≡ [])
  Phase (returned finished r) s =
      (s.is_open ≡ false)
      × (r ≡ s.ppl)
      × ((t : A → Bool) → finished ≡ true → count t r ≡ count t own + held t cells)

  pub record Inv (s : Search C A) : Type 0 where
    pub pending : s.pending_ops ≡ length s.queued + length s.searching
    pub find_todo : All Finds s.todo
    pub find_queued : All Finds s.queued
    pub find_searching : All Finds s.searching
    pub idle : s.orchestrated ≡ false → s.pending_ops ≡ 0
    pub own_kept : (t : A → Bool) → count t own ≤ count t s.ppl
    pub none_made :
        (t : A → Bool)
        → count t s.ppl + held t s.queued + held t s.searching + held t s.todo
          ≤ count t own + held t cells
    pub none_lost :
        (t : A → Bool)
        → is_back s.main ≡ false
        → count t s.ppl + held t s.queued + held t s.searching + held t s.todo
          ≡ count t own + held t cells
    pub phase : Phase s.main s

  -- No crash, and the invariant afterwards.
  abbrev pub Keeps : Outcome C A → Type 0
  Keeps blocked = Unit {0}
  Keeps crashed = ⊥
  Keeps (moved t) = Inv t

  pub Keeps-if :
      (b : Bool) (x y : Outcome C A)
      → (b ≡ true → Keeps x)
      → (b ≡ false → Keeps y)
      → Keeps (if b then x else y)
  Keeps-if true x y f g = f refl
  Keeps-if false x y f g = g refl

  pub begin-Inv : All Finds cells → Inv (begin find own cells)
  unfolding begin
  begin-Inv finds = record {
    pending = omega arith;
    find_todo = finds;
    find_queued = tt;
    find_searching = tt;
    idle = λ h. refl;
    own_kept = λ t. omega arith;
    none_made = λ t. omega arith;
    none_lost = λ t h. omega arith;
    phase = refl;
  }

  held_none : (t : A → Bool) (xs : List C) → length xs ≡ 0 → held t xs ≡ 0
  held_none t [] h = refl
  held_none t (x ∷ xs) h = absurd (omega arith)

  held-queued :
      (t : A → Bool) (s : Search C A) (c : C)
      → held t (s.queued ++ c ∷ []) ≡ held t s.queued + count t (found c)
  held-queued t s c = omega (arith, sum_of-append (λ d. count t (found d)) s.queued (c ∷ []))

  -- Nothing is left to be found.
  nobody_left :
      (s : Search C A) (t : A → Bool)
      → Inv s
      → s.todo ≡ []
      → s.pending_ops ≡ 0
      → is_back s.main ≡ false
      → count t s.ppl ≡ count t own + held t cells
  nobody_left s t v e z b = omega (
    arith,
    v.none_lost t b,
    v.pending,
    ap (held t) e,
    held_none t s.queued (omega (arith, v.pending)),
    held_none t s.searching (omega (arith, v.pending)),
  )

  -- The caller moves on, and the lists stay.
  same_lists :
      (s : Search C A) (open_now : Bool) (m : Main A)
      → Inv s
      → is_back s.main ≡ false
      → Phase m (record s { is_open = open_now; main = m })
      → Inv (record s { is_open = open_now; main = m })
  same_lists s open_now m v b p = record {
    pending = v.pending;
    find_todo = v.find_todo;
    find_queued = v.find_queued;
    find_searching = v.find_searching;
    idle = v.idle;
    own_kept = v.own_kept;
    none_made = v.none_made;
    none_lost = λ t h. v.none_lost t b;
    phase = p;
  }

  queue_next-Keeps :
      (todo : List C) (s : Search C A)
      → Inv s
      → s.todo ≡ todo
      → s.main ≡ queueing
      → Keeps (queue_next find todo s)
  unfolding queue_next
  queue_next-Keeps [] s v e w =
      let opened : s.is_open ≡ s.orchestrated = subst (λ m. Phase m s) w v.phase in
      Keeps-if s.orchestrated _ _
        (λ h. same_lists s s.is_open waiting v (ap is_back w) (opened ∙ h, e))
        (λ h.
          same_lists s s.is_open (returned true s.ppl) v (ap is_back w)
            (opened ∙ h, refl, λ t x. nobody_left s t v e (v.idle h) (ap is_back w)))
  queue_next-Keeps (c ∷ cs) s v e w =
      let opened : s.is_open ≡ s.orchestrated = subst (λ m. Phase m s) w v.phase in
      record {
        pending = omega (arith, v.pending, length-append s.queued (c ∷ []));
        find_todo = (subst (All Finds) e v.find_todo).1;
        find_queued =
            All-append Finds s.queued (c ∷ []) v.find_queued
              ((subst (All Finds) e v.find_todo).0, tt);
        find_searching = v.find_searching;
        idle = λ h. cc;
        own_kept = v.own_kept;
        none_made = λ t. omega (arith, v.none_made t, ap (held t) e, held-queued t s c);
        none_lost = λ t b. omega (arith, v.none_lost t b, ap (held t) e, held-queued t s c);
        phase =
            subst
              (λ m. Phase m (record s {
                todo = cs;
                orchestrated = true;
                is_open = s.is_open || not s.orchestrated;
                pending_ops = s.pending_ops + 1;
                queued = s.queued ++ c ∷ [];
              }))
              (sym w) (ground arith);
      }

  rendezvous-Keeps :
      (finished : Bool) (s : Search C A)
      → Inv s
      → s.main ≡ waiting
      → (finished ≡ true → s.pending_ops ≡ 0)
      → Keeps (rendezvous find finished s)
  unfolding rendezvous
  rendezvous-Keeps finished s v w done =
      let (opened, e) = subst (λ m. Phase m s) w v.phase in
      same_lists s false (returned finished s.ppl) v (ap is_back w)
        (refl, refl, λ t f. nobody_left s t v e (done f) (ap is_back w))

  pub main_goes-Keeps :
      (m : Main A) (s : Search C A) → Inv s → s.main ≡ m → Keeps (main_goes find m s)
  unfolding main_goes
  main_goes-Keeps queueing s v w = queue_next-Keeps s.todo s v refl w
  main_goes-Keeps waiting s v w =
      Keeps-if (s.pending_ops == 0) _ _ (λ z. rendezvous-Keeps true s v w (λ f. ==→eq _ _ z))
        (λ z. tt)
  main_goes-Keeps (returned finished r) s v w = tt

  pub gives_up-Keeps :
      (m : Main A) (s : Search C A) → Inv s → s.main ≡ m → Keeps (gives_up find m s)
  unfolding gives_up
  gives_up-Keeps queueing s v w = tt
  gives_up-Keeps waiting s v w =
      Keeps-if (s.pending_ops == 0) _ _ (λ z. tt) (λ z. rendezvous-Keeps false s v w (λ f. cc))
  gives_up-Keeps (returned finished r) s v w = tt

  -- The caller's phase does not depend on what the workers hold.
  pub Phase-of_workers :
      (m : Main A) (s : Search C A) (n : ℕ) (queued searching : List C)
      → Phase m s
      → Phase m (record s { pending_ops = n; queued = queued; searching = searching })
  Phase-of_workers queueing s n q r p = p
  Phase-of_workers waiting s n q r p = p
  Phase-of_workers (returned f x) s n q r p = p

  -- The orchestration is closed only once the caller is back, if any worklette is left.
  pub closed_back :
      (m : Main A) (s : Search C A)
      → Inv s
      → s.main ≡ m
      → s.is_open ≡ false
      → 1 ≤ s.pending_ops
      → is_back m ≡ true
  closed_back queueing s v w closed some_left =
      let opened : s.is_open ≡ s.orchestrated = subst (λ m. Phase m s) w v.phase in
      absurd (omega (arith, v.idle (sym opened ∙ closed)))
  closed_back waiting s v w closed some_left =
      let (opened, e) = subst (λ m. Phase m s) w v.phase in cc
  closed_back (returned f r) s v w closed some_left = refl

  pub start_next-Keeps :
      (queued : List C) (s : Search C A)
      → Inv s
      → s.queued ≡ queued
      → Keeps (start_next find queued s)
  unfolding start_next
  start_next-Keeps [] s v e = tt
  start_next-Keeps (c ∷ cs) s v e =
      Keeps-if s.is_open _ _
        (λ h. record {
          pending = omega (arith, v.pending, ap length e);
          find_todo = v.find_todo;
          find_queued = (subst (All Finds) e v.find_queued).1;
          find_searching = ((subst (All Finds) e v.find_queued).0, v.find_searching);
          idle = v.idle;
          own_kept = v.own_kept;
          none_made = λ t. omega (arith, v.none_made t, ap (held t) e);
          none_lost = λ t b. omega (arith, v.none_lost t b, ap (held t) e);
          phase = Phase-of_workers s.main s _ _ _ v.phase;
        })
        (λ h. record {
          pending = omega (arith, v.pending, ap length e);
          find_todo = v.find_todo;
          find_queued = (subst (All Finds) e v.find_queued).1;
          find_searching = v.find_searching;
          idle = λ o. omega (arith, v.idle o);
          own_kept = v.own_kept;
          none_made = λ t. omega (arith, v.none_made t, ap (held t) e);
          none_lost = λ t b.
              absurd (cc (closed_back s.main s v refl h (omega (arith, v.pending, ap length e))));
          phase = Phase-of_workers s.main s _ _ _ v.phase;
        })
