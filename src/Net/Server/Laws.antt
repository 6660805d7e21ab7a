-- ===== src/Net/Server/Laws.antt =====
-- What a shutdown does to the threads that still serve a connection.
use ppl_me.Common.{ℕ, ◌≡◌, refl, true, some, ◌∷◌, arith}
use ppl_me.Net.Server.{
  SingleShotServer, accepted, crashed, moved, holds, without, handle_accept, take_threads,
  end_service,
}

-- The table holds just the running threads.
abbrev pub IsTracked : SingleShotServer → Type 0
IsTracked s = s.connection_threads ≡ some s.running

-- While the table holds the running threads, a running thread that ends does so without a
-- fault, is no longer running, and the table holds the threads that still run.
pub end_service-IsTracked :
    (i : ℕ) (s : SingleShotServer)
    → IsTracked s
    → holds i s.running ≡ true
    → (t : SingleShotServer) × (end_service i s ≡ moved t)
      × IsTracked t
      × (t.running ≡ without i s.running)
unfolding end_service
end_service-IsTracked i s h q = (
  record s { connection_threads = some (without i s.running); running = without i s.running },
  ground arith,
  refl,
  refl,
)

-- A connection is accepted while the table holds the running threads.
pub handle_accept-IsTracked :
    (i : ℕ) (s : SingleShotServer)
    → IsTracked s
    → s.io_thread ≡ true
    → (t : SingleShotServer) × (handle_accept (accepted i) s ≡ moved t)
      × IsTracked t
      × (t.running ≡ i ∷ s.running)
unfolding handle_accept
handle_accept-IsTracked i s h io = (
  record s { connection_threads = some (i ∷ s.running); running = i ∷ s.running },
  ground (arith, io, h),
  refl,
  refl,
)

-- When the table holds the running threads and one of them still serves a connection as
-- Shutdown takes the table, Shutdown waits for that thread, and its end uses the null table.
pub end_service-after_shutdown :
    (i : ℕ) (s : SingleShotServer)
    → IsTracked s
    → holds i s.running ≡ true
    → (holds i (take_threads s).joining ≡ true) × (end_service i (take_threads s) ≡ crashed)
unfolding take_threads end_service
end_service-after_shutdown i s h q = (ground arith, ground arith)
