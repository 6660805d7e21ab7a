-- ===== src/Tests/Threads.antt =====
-- Examples about a find on the threads of a pool.
use ppl_me.Common.{ltb, false, Option, ◌≤◌, length, ℕ, ◌<◌, ◌≡◌, refl, some, List, [], ◌∷◌, arith}
use ppl_me.Pool.{NoddyWorkerPool, create_pool, start_workers, worker_goes}
use ppl_me.Pplme.Grid.{CellLocator}
use ppl_me.Pplme.Find.{System, begin}
use ppl_me.Pplme.Matching.{find_matching_ppl}
use ppl_me.Pplme.Matching.Answer.{IsMatch, matching}
use ppl_me.Pplme.Matching.Answer.Pooled.{find_matching_ppl-drive}
use ppl_me.Pplme.Threads.{
  Host, Worklette, IsResting, create_pool-IsResting, hosts, worker, turn, thread_goes, calls,
}
use ppl_me.Pplme.Threads.Progress.{CanTurn, hosted, hosted-CanTurn}
use ppl_me.Pplme.Threads.Work.{turns_ahead, turns_ahead-turn, IsQuiet}
use ppl_me.Pplme.Threads.Schedule.{drive}
use ppl_me.Pplme.Threads.Scheduler.{callers_first, callers_first-IsScheduler}
use ppl_me.Core.{PplMatchingParameters}
use ppl_me.Common.Int.{ℤ}
use ppl_me.Tests.Platform.{dates, dates_laws, floats, floats_laws}
use ppl_me.Tests.Finds.{cells, found, find, cells_once, finds}
use ppl_me.Tests.OnePerson.{
  Someone, trillian, one_person, one_person-Holds, wanted, today, earliest, latest, ages_fit,
  user_is_valid, search_here,
}

-- A new pool with two threads, and two calls.
pub two_threads : NoddyWorkerPool Worklette
two_threads = create_pool 2

pub two_threads-IsResting : IsResting two_threads
unfolding two_threads
two_threads-IsResting = create_pool-IsResting Worklette 2

pub two_threads_two : 1 ≤ length two_threads.workers
unfolding two_threads create_pool start_workers
two_threads_two = omega arith

abbrev find_both : ℕ → CellLocator → Option (List ℕ)
find_both i = find

abbrev two_calls : Host ℕ
two_calls = hosted 1 2 find_both two_threads 2 (λ i. cells)

hosted-CanTurn_example : CanTurn 1 2 find_both two_calls
unfolding two_threads create_pool start_workers begin
hosted-CanTurn_example =
    hosted-CanTurn 1 2 find_both (λ i. found) 2 (λ i. cells) two_threads two_threads-IsResting
      (λ i. cells_once) (λ i. finds) (omega arith) (omega arith) two_calls hosts 1 (λ r e. cc)

-- The first thread finds no worklette and waits.
abbrev one_waits : Host ℕ
one_waits = record two_calls { pool = worker_goes 0 two_threads }

two_calls-IsQuiet : IsQuiet 2 two_calls.contexts
two_calls-IsQuiet i h = let above : ltb i 2 ≡ false = ground arith in rw above refl

turns_ahead-turn_example : turns_ahead 2 one_waits < turns_ahead 2 two_calls
unfolding turn thread_goes two_threads create_pool start_workers
turns_ahead-turn_example =
    turns_ahead-turn 1 2 find_both 2 (worker 0) two_calls one_waits two_calls-IsQuiet refl refl

-- Two users who want the same.
abbrev both : ℕ → PplMatchingParameters ℤ
both i = wanted

abbrev search_both : ℕ → CellLocator → Option (List Someone)
search_both i = search_here

find_matching_ppl-drive_example :
    (begun : ℕ → System Someone) × ((i : ℕ)
      → find_matching_ppl floats dates one_person today wanted ≡ some (begun i))
    × ((i : ℕ)
        → i < 2
        → (r : List Someone) × (drive 2 3 search_both i
              (callers_first 2 3 search_both 2)
              (turns_ahead 2 (record { pool = two_threads; contexts = calls 2 begun }))
              (record { pool = two_threads; contexts = calls 2 begun })
            ≡ some r)
          × IsMatch floats dates floats_laws dates_laws 2
              (matching floats dates floats_laws dates_laws earliest latest (trillian ∷ []))
              r)
find_matching_ppl-drive_example =
    find_matching_ppl-drive floats dates floats_laws dates_laws one_person (trillian ∷ [])
      one_person-Holds today both (λ i. earliest) (λ i. latest) (λ i. ages_fit) (λ i. user_is_valid)
      (omega arith) 2 two_threads two_threads-IsResting two_threads_two
      (callers_first 2 3 search_both 2) (callers_first-IsScheduler 2 3 search_both 2)
