-- ===== src/Pplme/Threads/Scheduler.antt =====
-- There is a scheduler: the first caller that can go, or else the first thread.
use ppl_me.Common.{
  ℕ, zero, suc, ◌+◌, ◌-◌, ◌<◌, ◌≡◌, ◌≢◌, refl, ap, ◌∙◌, Bool, true, false, List, [], ◌∷◌, arith,
  Option, length, ltb, ltb→lt, if_elim, if◌then◌else◌, Bool-cases, inl, inr,
}
use ppl_me.Pool.{Worker, exited, worker_at}
use ppl_me.Pplme.Grid.{CellLocator}
use ppl_me.Pplme.Find.{main_step, step}
use ppl_me.Pplme.Threads.{
  Host, Worklette, hand_over, Turn, caller, roused, worker, awoken, TurnOutcome, idle, failed,
  turned, turn, is_own, thread_goes,
}
use ppl_me.Pplme.Threads.Work.{IsQuiet}
use ppl_me.Pplme.Threads.Follows.{no_find-step}
use ppl_me.Pplme.Threads.Schedule.{IsScheduler}

-- The first number below k that passes a test, or else k.
abbrev first_able : (ℕ → Bool) → ℕ → ℕ
first_able p zero = zero
first_able p (suc k) = if p zero then zero else suc (first_able (λ n. p (suc n)) k)

first_able_lem : (p : ℕ → Bool) (k n : ℕ) → p n ≡ true → n < k → p (first_able p k) ≡ true
first_able_lem p zero n h l = absurd (omega arith)
first_able_lem p (suc k) zero h l = rw h h
first_able_lem p (suc k) (suc n) h l = elim (Bool-cases (p zero)) [
  | inl z ↦ rw z z
  | inr z ↦ rw z (first_able_lem (λ m. p (suc m)) k n h (omega arith))
]

in_range : (n : ℕ) (ts : List (Worker Worklette)) → worker_at n ts ≢ exited → n < length ts
in_range n [] h = absurd (h refl)
in_range zero (t ∷ ts) h = omega arith
in_range (suc n) (t ∷ ts) h = omega (arith, in_range n ts h)

-- The callers and then the threads, in a row.
abbrev pub turn_number : ℕ → ℕ → Turn
turn_number n k = if ltb k n then caller k else worker (k - n)

turn_number_caller : (n k : ℕ) → k < n → turn_number n k ≡ caller k
turn_number_caller n k h = let below : ltb k n ≡ true = ground arith in rw below refl

turn_number_worker : (n k : ℕ) → turn_number n (n + k) ≡ worker k
turn_number_worker n k =
    let above : ltb (n + k) n ≡ false = ground arith in
    let rest : (n + k) - n ≡ k = omega arith in rw (above, rest) refl

module _ {A : Type 0} where
  abbrev able : TurnOutcome A → Bool
  able idle = false
  able failed = false
  able (turned t) = true

  able_turned : (o : TurnOutcome A) → able o ≡ true → (t : Host A) × (o ≡ turned t)
  able_turned idle h = absurd (ground arith)
  able_turned failed h = absurd (ground arith)
  able_turned (turned t) h = (t, refl)

module _ {A : Type 0} (max_ppl concurrency : ℕ) (find : ℕ → CellLocator → Option (List A))
    (n : ℕ) where
  abbrev able_number : Host A → ℕ → Bool
  able_number s k = able (turn max_ppl concurrency find (turn_number n k) s)

  abbrev pub callers_first : Host A → Turn
  callers_first s = turn_number n (first_able (able_number s) (n + length s.pool.workers))

  present :
      (m : ℕ) (s t : Host A)
      → turn max_ppl concurrency find (worker m) s ≡ turned t
      → worker_at m s.pool.workers ≢ exited
  unfolding turn thread_goes
  present m s t e x = let at = ap (λ w. thread_goes max_ppl concurrency find w m s) x in cc

  made :
      (i : ℕ) (s t : Host A)
      → IsQuiet n s.contexts
      → turn max_ppl concurrency find (caller i) s ≡ turned t
      → i < n
  unfolding turn hand_over step
  made i s t quiet e = elim (Bool-cases (ltb i n)) [
    | inl h ↦ ltb→lt i n h
    | inr h ↦
        let stuck = ap (hand_over max_ppl concurrency find i s) (
          ap (step max_ppl concurrency (find i) main_step) (quiet i (ground arith))
          ∙ no_find-step max_ppl concurrency (find i) main_step) in
        absurd (cc)
  ]

  some_able :
      (e : Turn) (s t : Host A)
      → IsQuiet n s.contexts
      → is_own e ≡ true
      → turn max_ppl concurrency find e s ≡ turned t
      → able (turn max_ppl concurrency find (callers_first s) s) ≡ true
  some_able (caller i) s t quiet own e =
      let below = made i s t quiet e in
      first_able_lem (able_number s) (n + length s.pool.workers) i
        (ap (λ x. able (turn max_ppl concurrency find x s)) (turn_number_caller n i below)
          ∙ ap able e)
        (omega (arith, below))
  some_able (roused i) s t quiet own e = absurd (ground arith)
  some_able (worker m) s t quiet own e =
      first_able_lem (able_number s) (n + length s.pool.workers) (n + m)
        (ap (λ x. able (turn max_ppl concurrency find x s)) (turn_number_worker n m) ∙ ap able e)
        (omega (arith, in_range m s.pool.workers (present m s t e)))
  some_able (awoken m) s t quiet own e = absurd (ground arith)

  -- That is a scheduler, so there is one.
  pub callers_first-IsScheduler : IsScheduler max_ppl concurrency find n callers_first
  callers_first-IsScheduler s quiet (e, t, own, h) = (
    if_elim (λ x. is_own x ≡ true) (ltb (first_able (able_number s) (n + length s.pool.workers)) n)
        (λ c. refl) (λ c. refl),
    able_turned (turn max_ppl concurrency find (callers_first s) s) (some_able e s t quiet own h),
  )
