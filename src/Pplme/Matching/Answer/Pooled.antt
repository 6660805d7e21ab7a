-- ===== src/Pplme/Matching/Answer/Pooled.antt =====
-- Calls of FindMatchingPpl that share the pool of their provider.
use ppl_me.Common.{
  ℕ, ◌≤◌, ◌<◌, ◌≡◌, Bool, true, false, some, Option, List, All, arith, lt→ltb, length, ltb,
  if◌then◌else◌,
}
use ppl_me.Core.{Person, PplMatchingParameters, is_valid_position}
use ppl_me.Core.Outside.{FloatOps, FloatLaws, DateOps, DateLaws}
use ppl_me.Pool.{NoddyWorkerPool}
use ppl_me.Pplme.Grid.{CellLocator}
use ppl_me.Pplme.Provider.{Impl, find_at}
use ppl_me.Pplme.Find.{System, begin, Reach, returned}
use ppl_me.Pplme.Find.Sets.{occurs}
use ppl_me.Pplme.Find.Invariant.{Finds}
use ppl_me.Pplme.Threads.Progress.{hosted}
use ppl_me.Pplme.Threads.{Host, Worklette, Turn, IsResting, hosts, calls, no_find}
use ppl_me.Pplme.Threads.Follows.{Hosted-Reach}
use ppl_me.Pplme.Threads.Work.{turns_ahead}
use ppl_me.Pplme.Threads.Schedule.{IsScheduler, drive, drive-IsBack}
use ppl_me.Pplme.Matching.{find_matching_ppl}
use ppl_me.Pplme.Matching.Holding.{Holds}
use ppl_me.Pplme.Matching.Answer.{
  AgesFit, matching, IsMatch, user-IsPlace, user_begin, begun-eq, cells, cells_once, cells-Finds,
  found, find, reached-IsMatch,
}

module _ {U D F : Type 0} (fl : FloatOps F) (dt : DateOps D) (fls : FloatLaws F fl)
    (laws : DateLaws D dt) (m : Impl U D F) (ps : List (Person U D F))
    (holds : Holds fl dt fls laws m ps) (today : D) (users : ℕ → PplMatchingParameters F)
    (earliest latest : ℕ → D)
    (fit : (i : ℕ) → AgesFit fl dt fls laws m today (users i).age_of_user (earliest i) (latest i))
    (somewhere : (i : ℕ) → is_valid_position fl (users i).location_of_user ≡ true) where
  -- The search of a cell for each user.
  abbrev pub find_for : ℕ → CellLocator → Option (List (Person U D F))
  find_for i = find_at fl dt m today (users i).age_of_user

  begun_for : ℕ → System (Person U D F)
  begun_for i =
      user_begin fl dt fls laws m ps holds today (users i) (earliest i) (latest i) (fit i)
        (somewhere i)

  found_for : ℕ → CellLocator → List (Person U D F)
  found_for i =
      found fl dt fls laws m ps holds today (users i).age_of_user (earliest i) (latest i) (fit i)

  cells_for : ℕ → List CellLocator
  cells_for i =
      let at =
        user-IsPlace fl dt fls laws m ps holds today (users i) (earliest i) (latest i) (fit i)
          (somewhere i) in
      cells fl dt fls laws m ps holds today (users i).age_of_user (earliest i) (latest i) (fit i)
        at.lat at.long at.lat_range at.long_range

  cells_for_once : (i : ℕ) (c : CellLocator) → occurs c (cells_for i) ≤ 1
  unfolding cells_for
  cells_for_once i =
      let at =
        user-IsPlace fl dt fls laws m ps holds today (users i) (earliest i) (latest i) (fit i)
          (somewhere i) in
      cells_once fl dt fls laws m ps holds today (users i).age_of_user (earliest i) (latest i)
        (fit i) at.lat at.long at.lat_range at.long_range

  cells_for-Finds :
      (i : ℕ)
      → All
          (Finds m.max_ppl m.per_find_concurrency (find_for i) (found_for i) (cells_for i))
          (cells_for i)
  unfolding cells_for found_for find
  cells_for-Finds i =
      let at =
        user-IsPlace fl dt fls laws m ps holds today (users i) (earliest i) (latest i) (fit i)
          (somewhere i) in
      cells-Finds fl dt fls laws m ps holds today (users i).age_of_user (earliest i) (latest i)
        (fit i) at.lat at.long at.lat_range at.long_range

  -- What a caller is back with.
  back-IsMatch :
      (i : ℕ) (b : Bool) (s : System (Person U D F)) (r : List (Person U D F))
      → b ≡ true
      → Reach m.max_ppl m.per_find_concurrency
          (find_for i)
          (if b then begin m.max_ppl m.per_find_concurrency (find_for i) (cells_for i) else no_find)
          s
      → s.main ≡ returned r
      → IsMatch fl dt fls laws m.max_ppl (matching fl dt fls laws (earliest i) (latest i) ps) r
  unfolding cells_for find
  back-IsMatch i true s r is_call reach back =
      let at =
        user-IsPlace fl dt fls laws m ps holds today (users i) (earliest i) (latest i) (fit i)
          (somewhere i) in
      reached-IsMatch fl dt fls laws m ps holds today (users i).age_of_user (earliest i) (latest i)
        (fit i) at.lat at.long at.lat_range at.long_range s r reach back
  back-IsMatch i false s r is_call reach back = absurd (ground arith)

  module _ (room : 1 ≤ m.per_find_concurrency) (n : ℕ) (p : NoddyWorkerPool Worklette)
      (at_rest : IsResting p) (some_thread : 1 ≤ length p.workers)
      (next : Host (Person U D F) → Turn)
      (fair : IsScheduler m.max_ppl m.per_find_concurrency find_for n next) where
    driven-IsMatch :
        (i : ℕ)
        → i < n
        → (r : List (Person U D F)) × (drive m.max_ppl m.per_find_concurrency find_for i next
              (turns_ahead n (hosted m.max_ppl m.per_find_concurrency find_for p n cells_for))
              (hosted m.max_ppl m.per_find_concurrency find_for p n cells_for)
            ≡ some r)
          × IsMatch fl dt fls laws m.max_ppl (matching fl dt fls laws (earliest i) (latest i) ps) r
    driven-IsMatch i is_call =
        let (r, s, back, h, at_end) =
          drive-IsBack m.max_ppl m.per_find_concurrency find_for found_for n cells_for p at_rest
            cells_for_once cells_for-Finds room some_thread i next _ _ fair hosts (omega arith) in
        (
          r,
          back,
          back-IsMatch i (ltb i n) (s.contexts i) r (lt→ltb i n is_call)
              (Hosted-Reach m.max_ppl m.per_find_concurrency find_for h i) at_end,
        )

    -- For a provider that holds just the persons ps, users at valid positions with ages whose
    -- dates can be computed, a concurrency of at least 1, and a pool at rest with at least one
    -- thread: FindMatchingPpl begins for each user, and when n calls share the pool, then under
    -- every scheduler that lets some thread go when one can, each of them returns within
    -- turns_ahead turns some r, made of persons of ps born between its two dates, min(max_ppl,
    -- their number) long, and with all of them if they are at most max_ppl.
    pub find_matching_ppl-drive :
        (begun : ℕ → System (Person U D F)) × ((i : ℕ)
          → find_matching_ppl fl dt m today (users i) ≡ some (begun i))
        × ((i : ℕ)
            → i < n
            → (r : List (Person U D F)) × (drive m.max_ppl m.per_find_concurrency find_for i next
                  (turns_ahead n (record { pool = p; contexts = calls n begun }))
                  (record { pool = p; contexts = calls n begun })
                ≡ some r)
              × IsMatch fl dt fls laws m.max_ppl
                  (matching fl dt fls laws (earliest i) (latest i) ps)
                  r)
    unfolding begun_for user_begin cells_for cells find
    find_matching_ppl-drive = (
      begun_for,
      λ i.
          begun-eq fl dt fls laws m ps holds today (users i) (earliest i) (latest i) (fit i)
            (somewhere i),
      driven-IsMatch,
    )
