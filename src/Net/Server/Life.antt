-- ===== src/Net/Server/Life.antt =====
-- A server from Start to the end of Shutdown.
use ppl_me.Common.{
  ℕ, ◌≡◌, refl, Bool, true, false, ◌&&◌, Option, some, none, sym, subst, List, [], ◌∷◌, ◌++◌, arith,
  if_elim, Bool-cases, inl, inr,
}
use ppl_me.Net.Server.{
  SingleShotServer, failed, unthreaded, accepted, threw, end_process, no_server, StartOps, start,
  Outcome, crashed, moved, Event, accept_result, served, shut_down, joined, step, run, or_else,
  on_moved, holds, without, handle_accept, take_threads, end_service, end_shutdown,
}
use ppl_me.Net.Server.Laws.{IsTracked}

-- Serving: the events before Shutdown, while threads can be started and no Service throws.
abbrev pub are_serving : List Event → Bool
are_serving [] = true
are_serving (accept_result failed ∷ es) = are_serving es
are_serving (accept_result unthreaded ∷ es) = false
are_serving (accept_result (accepted i) ∷ es) = are_serving es
are_serving (served i ∷ es) = are_serving es
are_serving (threw i ∷ es) = false
are_serving (shut_down ∷ es) = false
are_serving (joined ∷ es) = false

-- A server that serves: its table holds the running threads, and it is not shutting down.
pub record IsServing (s : SingleShotServer) : Type 0 where
  pub io : s.io_thread ≡ true
  pub tracked : IsTracked s

abbrev Serves : Outcome → Type 0
Serves o = (t : SingleShotServer) × (o ≡ moved t) × IsServing t

failed-Serves : (s : SingleShotServer) → IsServing s → Serves (or_else (handle_accept failed s) s)
unfolding handle_accept
failed-Serves s h = (s, ground (arith, h.io), h)

accepted-Serves :
    (i : ℕ) (s : SingleShotServer) → IsServing s → Serves (or_else (handle_accept (accepted i) s) s)
unfolding handle_accept
accepted-Serves i s h = (
  record s { connection_threads = some (i ∷ s.running); running = i ∷ s.running },
  ground (arith, h.io, h.tracked),
  record { io = h.io; tracked = refl },
)

served-Serves : (i : ℕ) (s : SingleShotServer) → IsServing s → Serves (or_else (end_service i s) s)
unfolding end_service
served-Serves i s h = elim (Bool-cases (holds i s.running)) [
  | inl q ↦ (
    record s { connection_threads = some (without i s.running); running = without i s.running },
    ground (arith, h.tracked),
    record { io = h.io; tracked = refl },
  )
  | inr q ↦ (s, ground arith, h)
]

serving_then :
    (o : Outcome) (es : List Event)
    → Serves o
    → ((s : SingleShotServer) → IsServing s → Serves (run es s))
    → Serves (on_moved o (run es))
serving_then o es (t, at_t, serves) rest = rw at_t (rest t serves)

-- While a server serves, and whatever connections come, fail and end in whatever order before
-- Shutdown, if each accepted one gets its thread and no Service throws, the process does not
-- end, the I/O thread goes on, and the table holds just the running threads.
pub run-IsServing :
    (es : List Event) (s : SingleShotServer)
    → are_serving es ≡ true
    → IsServing s
    → (t : SingleShotServer) × (run es s ≡ moved t) × IsServing t
unfolding run step
run-IsServing [] s q h = (s, refl, h)
run-IsServing (accept_result failed ∷ es) s q h =
    serving_then _ es (failed-Serves s h) (λ t. run-IsServing es t q)
run-IsServing (accept_result unthreaded ∷ es) s q h = absurd (ground arith)
run-IsServing (accept_result (accepted i) ∷ es) s q h =
    serving_then _ es (accepted-Serves i s h) (λ t. run-IsServing es t q)
run-IsServing (served i ∷ es) s q h =
    serving_then _ es (served-Serves i s h) (λ t. run-IsServing es t q)
run-IsServing (threw i ∷ es) s q h = absurd (ground arith)
run-IsServing (shut_down ∷ es) s q h = absurd (ground arith)
run-IsServing (joined ∷ es) s q h = absurd (ground arith)

-- Start either
pub start-IsServing :
    (ops : StartOps)
    → ((start ops no_server).1 ≡ true → IsServing (start ops no_server).0)
      × ((start ops no_server).1 ≡ (ops.open_ok && ops.bind_ok && ops.listen_ok && ops.thread_ok))
unfolding start
start-IsServing ops = (λ q. record { io = ground arith; tracked = ground arith }, ground arith)

-- A server that is shut down for good.
pub record IsOver (s : SingleShotServer) : Type 0 where
  pub io : s.io_thread ≡ false
  pub table : s.connection_threads ≡ none
  pub idle : s.running ≡ []
  pub over : s.shutting_down ≡ false

step_over : (e : Event) (s : SingleShotServer) → IsOver s → or_else (step e s) s ≡ moved s
unfolding step handle_accept end_service end_process take_threads end_shutdown
step_over (accept_result result) s h = rw (h.io) refl
step_over (served i) s h = rw (h.idle) refl
step_over (threw i) s h = rw (h.idle) refl
step_over shut_down s h = rw (h.table) refl
step_over joined s h = rw (h.over) refl

run_over : (es : List Event) (s : SingleShotServer) → IsOver s → run es s ≡ moved s
unfolding run
run_over [] s h = refl
run_over (e ∷ es) s h = rw (step_over e s h) (run_over es s h)

-- Shutdown while no thread runs
pub run-shut_down :
    (es : List Event) (s : SingleShotServer)
    → IsServing s
    → s.running ≡ []
    → (t : SingleShotServer) × (t.io_thread ≡ false) × (run (shut_down ∷ joined ∷ es) s ≡ moved t)
unfolding run step take_threads end_shutdown
run-shut_down es s h idle =
    let over : SingleShotServer = record s {
      io_thread = false;
      connection_threads = none;
      joining = [];
      shutting_down = false;
    } in
    (
      over,
      refl,
      rw (h.tracked, idle)
          (run_over es _ (record { io = refl; table = refl; idle = refl; over = refl })),
    )

-- The events before the end of Shutdown.
abbrev pub are_unjoined : List Event → Bool
are_unjoined [] = true
are_unjoined (accept_result result ∷ es) = are_unjoined es
are_unjoined (served i ∷ es) = are_unjoined es
are_unjoined (threw i ∷ es) = are_unjoined es
are_unjoined (shut_down ∷ es) = are_unjoined es
are_unjoined (joined ∷ es) = false

-- There is no table to take.
taken_from :
    (table : Option (List ℕ)) (s : SingleShotServer)
    → table ≡ none
    → (elim table [
      | none ↦ s
      | some threads ↦ record s {
        connection_threads = none;
        joining = threads;
        shutting_down = true;
      }
    ])
      ≡ s
taken_from none s h = refl
taken_from (some threads) s h = absurd (cc)

taken : (s : SingleShotServer) → s.connection_threads ≡ none → take_threads s ≡ s
unfolding take_threads
taken s gone = taken_from s.connection_threads s gone

run_late :
    (es es' : List Event) (j : ℕ) (s : SingleShotServer)
    → are_unjoined es ≡ true
    → s.io_thread ≡ true
    → s.connection_threads ≡ none
    → run (es ++ accept_result (accepted j) ∷ es') s ≡ crashed
unfolding run step take_threads handle_accept end_service end_process
run_late [] es' j s u io gone = rw (io, gone) refl
run_late (accept_result failed ∷ es) es' j s u io gone =
    if_elim (λ o. on_moved (or_else o s) (run (es ++ accept_result (accepted j) ∷ es')) ≡ crashed)
      s.io_thread (λ h. run_late es es' j s u io gone) (λ h. run_late es es' j s u io gone)
run_late (accept_result unthreaded ∷ es) es' j s u io gone = rw io refl
run_late (accept_result (accepted i) ∷ es) es' j s u io gone = rw (io, gone) refl
run_late (served i ∷ es) es' j s u io gone = elim (Bool-cases (holds i s.running)) [
  | inl h ↦ rw (h, gone) refl
  | inr h ↦ rw h (run_late es es' j s u io gone)
]
run_late (threw i ∷ es) es' j s u io gone = elim (Bool-cases (holds i s.running)) [
  | inl h ↦ rw h refl
  | inr h ↦ rw h (run_late es es' j s u io gone)
]
run_late (shut_down ∷ es) es' j s u io gone =
    subst (λ t. run (es ++ accept_result (accepted j) ∷ es') t ≡ crashed) (sym (taken s gone))
      (run_late es es' j s u io gone)
run_late (joined ∷ es) es' j s u io gone = absurd (ground arith)

-- When a serving server begins its Shutdown and a connection is accepted before the joins of
-- Shutdown are over, whatever happens in between and would follow, the process ends by an
-- exception or by a use of the null table.
pub run_late_accept :
    (es es' : List Event) (j : ℕ) (s : SingleShotServer)
    → are_unjoined es ≡ true
    → IsServing s
    → run (shut_down ∷ es ++ accept_result (accepted j) ∷ es') s ≡ crashed
unfolding run step take_threads
run_late_accept es es' j s u h = rw (h.tracked) (run_late es es' j _ u h.io refl)
