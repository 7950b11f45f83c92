-- ===== src/Scheduler/Safety.antt =====
-- What the assigner of worker/scheduler.go guarantees in every state that it can come to.
use nix_ci_worker.Base.{
  ℕ, ◌+◌, sym, ◌∙◌, false≢true, ◌^◌, ◌≤◌, ◌<◌, ◌≡◌, ◌≢◌, ◌⊎◌, refl, Text, [], String, Option, none,
  some, true, false, not, ◌||◌, contains, arith, List-cases, inl, inr, text_eq_self, All-get, bit,
  count, get_elem?, if◌then◌else◌, ◌==◌,
}
use nix_ci_worker.Scheduler.Job.{Job, suits}
use nix_ci_worker.Scheduler.Loop.{is_running, is_done, is_failed, Flight, Schedule, Reading}
use nix_ci_worker.Scheduler.Steps.{
  Phase, turning, waiting, returned, canceled, publication_failure, landed, receive_release, turn,
  Reach,
}
use nix_ci_worker.Scheduler.Invariant.Defs.{
  IsJob, Inv, FlightInv, is_started, runs_on, builds_on, runs_task,
}
use nix_ci_worker.Scheduler.Invariant.Launching.{sequence_bound}
use nix_ci_worker.Scheduler.Invariant.Receiving.{freed_lem}
use nix_ci_worker.Scheduler.Invariant.Stepping.{Reach-PhaseInv}
use nix_ci_worker.Scheduler.Progress.{IsRanked, IsBusy, turn-IsBusy}
use nix_ci_worker.Scheduler.Finish.{IsLast, PhaseIsLast, Reach-IsLast}
use nix_ci_worker.Scheduler.Later.{
  schedule_of, From, HelperFailed, WasInFlight, From-Since, Reach-From, HelperFailed-retry_local,
}

-- A state in which the loop runs.
abbrev pub Live : Job → Schedule → Type 0
Live job s = Reach job (turning s) ⊎ Reach job (waiting s)

Live-Inv : (job : Job) (s : Schedule) → IsJob job → Live job s → Inv job s
Live-Inv job s j (inl r) = Reach-PhaseInv job j r
Live-Inv job s j (inr r) = Reach-PhaseInv job j r

-- In every state of the loop, all dependencies of a task that is running or done are done.
pub dependencies_first :
    (job : Job) (s : Schedule) (t d : Text)
    → IsJob job
    → Live job s
    → is_started (s.state t) ≡ true
    → contains (job.deps t) d ≡ true
    → is_done (s.state d) ≡ true
dependencies_first job s t d j l p q = (Live-Inv job s j l).ordered t d p q

-- In every state of the loop, a running task is executed by exactly one goroutine, and a task that
-- is not running by none.
pub built_once :
    (job : Job) (s : Schedule) (t : Text)
    → IsJob job
    → Live job s
    → count (runs_task t) s.flights ≡ bit (is_running (s.state t))
built_once job s t j l = (Live-Inv job s j l).once t

-- In every state of the loop, `pending` counts the assignments of a runner that are not over, which
-- are two at most, and the runner is allocated exactly if one of them, and only one, still builds.
pub bounded_backlog :
    (job : Job) (s : Schedule) (r : ℕ)
    → IsJob job
    → Live job s
    → (s.pending r ≡ count (runs_on r) s.flights)
      × (s.pending r ≤ 2)
      × (count (builds_on r) s.flights ≡ bit (s.allocated r))
bounded_backlog job s r j l = let v = Live-Inv job s j l in (v.counted r, v.capped r, v.busy r)

-- The loop has not returned.
abbrev pub IsLive : Phase → Type 0
IsLive (turning s) = Unit
IsLive (waiting s) = Unit
IsLive (returned e s) = ⊥

phase-Inv : (job : Job) (p : Phase) → IsJob job → Reach job p → IsLive p → Inv job (schedule_of p)
phase-Inv job (turning s) j r live = Reach-PhaseInv job j r
phase-Inv job (waiting s) j r live = Reach-PhaseInv job j r
phase-Inv job (returned e s) j r live = absurd live

-- Until the loop returns, an assignment to a helper is of a task that `poolCompatible` allows for the
-- features the helper had announced, and of none that a helper has failed on the way there.
pub helpers_fit :
    (job : Job) (p : Phase) (i : ℕ) (f : Flight)
    → IsJob job
    → Reach job p
    → IsLive p
    → get_elem? (schedule_of p).flights i ≡ some f
    → 0 < f.runner
    → (f.runner < 4) × (suits job f.task f.remote.features ≡ true) × ¬ HelperFailed job f.task p
helpers_fit job p i f j r live at lt =
    let s = schedule_of p in
    let v = phase-Inv job p j r live in
    let h =
      All-get (FlightInv job s.retry_local s.allocated s.sequences) s.flights i f v.flying at in
    (
      h.in_pool,
      h.fit lt,
      λ bad. false≢true (sym (h.remote_task lt) ∙ HelperFailed-retry_local job f.task j bad),
    )

-- Until the loop returns, an assignment that was not in flight at an earlier phase has a higher
-- sequence number than all that its runner had been given by then; none is above its runner's last
-- number, which never falls and is never the greatest of 64 bits.
pub fresh_sequence :
    (job : Job) (p q : Phase) (i : ℕ) (f : Flight)
    → IsJob job
    → Reach job p
    → From job p q
    → IsLive q
    → get_elem? (schedule_of q).flights i ≡ some f
    → (WasInFlight (schedule_of p) f ⊎ ((schedule_of p).sequences f.runner < f.remote.sequence))
      × (f.remote.sequence ≤ (schedule_of q).sequences f.runner)
      × ((schedule_of p).sequences f.runner ≤ (schedule_of q).sequences f.runner)
      × ((schedule_of q).sequences f.runner + 1 < 2 ^ 64)
fresh_sequence job p q i f j r on live at =
    let t = schedule_of q in
    let v = phase-Inv job q j (Reach-From job r on) live in
    let h =
      All-get (FlightInv job t.retry_local t.allocated t.sequences) t.flights i f v.flying at in
    let since = From-Since job j r on in
    (since.newer i f at, h.issued, since.grown f.runner, sequence_bound job t f.runner j v)

-- An event of an assignment whose build was over before frees no runner, also if the runner builds
-- another task by then; an event of one that still builds frees its own runner and no other.
pub event_frees_own :
    (job : Job) (s : Schedule) (i : ℕ) (f : Flight) (r : ℕ)
    → IsJob job
    → Reach job (waiting s)
    → get_elem? s.flights i ≡ some f
    → ((receive_release s i f).allocated r ≡ (landed s i f).allocated r)
      × ((landed s i f).allocated r
          ≡ (if f.released || not (r == f.runner) then s.allocated r else false))
unfolding receive_release landed
event_frees_own job s i f r j l at =
    (refl, ground (arith, freed_lem job s i f at (Reach-PhaseInv job j l) r))

-- A turn from a state of the loop returns or leaves an assignment in flight: it never waits for
-- nothing, if the dependencies are acyclic.
pub never_stuck :
    (job : Job) (rank : Text → ℕ) (w : ℕ → Reading) (s : Schedule)
    → IsJob job
    → IsRanked job rank
    → Reach job (turning s)
    → IsBusy (turn job w s)
never_stuck job rank w s j k l = turn-IsBusy job rank w s j k (Reach-PhaseInv job j l)

no_flights :
    (job : Job) (s : Schedule)
    → Inv job s
    → ((t : Text)
        → contains job.tasks t ≡ true
        → (is_done (s.state t) || is_failed (s.state t)) ≡ true)
    → s.flights ≡ []
unfolding count
no_flights job s v settled = elim (List-cases s.flights) [
  | inl e ↦ e
  | inr (f, rest, e) ↦
      let h =
        All-get (FlightInv job s.retry_local s.allocated s.sequences) s.flights 0 f v.flying
          (rw e) in
      absurd (ground (arith, v.once f.task, text_eq_self f.task, settled f.task h.known))
]

-- When the loop returns for another reason than a cancellation or a failed publication, every task
-- is done or has failed, nothing is in flight, the pool is told to stop, and if the error is `nil`
-- every task is done.
pub conclusion :
    (job : Job) (s : Schedule) (e : Option String)
    → IsJob job
    → Reach job (returned e s)
    → e ≢ some canceled
    → e ≢ some publication_failure
    → ((t : Text)
        → contains job.tasks t ≡ true
        → (is_done (s.state t) || is_failed (s.state t)) ≡ true)
      × (s.flights ≡ [])
      × (s.stop ≡ true)
      × (e ≡ none → (t : Text) → contains job.tasks t ≡ true → is_done (s.state t) ≡ true)
conclusion job s e j l live kept = elim (Reach-PhaseInv job j l) [
  | inl c ↦ absurd (live c)
  | inr (inl c) ↦ absurd (kept c)
  | inr (inr c) ↦ (
    c.settled,
    no_flights job s c.inv c.settled,
    c.drained,
    λ h t k. ground (arith, c.settled t k, c.inv.blamed t, c.error),
  )
]

phase-IsLast : (p : Phase) → PhaseIsLast p → IsLast (schedule_of p)
phase-IsLast (turning s) h = h
phase-IsLast (waiting s) h = h
phase-IsLast (returned e s) h = h

-- Once the last sequence numbers are announced, every later phase announces the same, and those of
-- the helpers are their last numbers there.
pub finish_is_final :
    (job : Job) (p q : Phase) (last : ℕ → ℕ) (r : ℕ)
    → IsJob job
    → Reach job p
    → From job p q
    → (schedule_of p).finish ≡ some last
    → 0 < r
    → ((schedule_of q).finish ≡ some last) × (last r ≡ (schedule_of q).sequences r)
finish_is_final job p q last r j l on e lt =
    let announced = (From-Since job j l on).announced last e in
    (announced, phase-IsLast q (Reach-IsLast job (Reach-From job l on)) last announced r lt)
