-- ===== src/Scheduler/Steps.antt =====
-- worker/scheduler.go: whole turns of the loop of `BuildPool.schedule`, the events that it waits
-- for, and the steps that it can take.
use nix_ci_worker.Base.{
  ℕ, ◌-◌, ◌≡◌, ◌==◌, String, List, [], ◌∷◌, Option, none, some, Bool, true, false, not, ◌&&◌, ◌||◌,
  if◌then◌else◌, any, ltb, text_eq, contains, update, put, get_elem?, set, remove_at, length, suc,
}
use nix_ci_worker.Scheduler.Job.{Job, inputs}
use nix_ci_worker.Scheduler.Loop.{
  unassigned, done, failed, is_unassigned, is_running, Flight, Schedule, start, Reading, propagate,
  assign,
}

abbrev pub build_failure : String
build_failure = "coordinator build failed"

abbrev pub publication_failure : String
publication_failure = "builder result publication failed"

abbrev pub canceled : String
canceled = "context canceled"

-- The error of a goroutine's last event.
pub data BuildResult : Type 0 where
  built build_error publication_error : BuildResult

-- Where the loop stands: at its head, at its `select`, or returned with an error or `nil`.
pub data Phase : Type 0 where
  turning : Schedule → Phase
  waiting : Schedule → Phase
  returned : Option String → Schedule → Phase

-- `allocated` after an event of the assignment.
abbrev pub freed : Schedule → Flight → ℕ → Bool
freed s f =
    if f.remote.sequence == s.sequences f.runner
    then put s.allocated f.runner false
    else s.allocated

-- The build is over and its result waits for publication.
unfoldable pub receive_release : Schedule → ℕ → Flight → Schedule
receive_release s i f = record s {
  allocated = freed s f;
  flights = set s.flights i (record f { released = true });
}

-- The assignment is over.
unfoldable pub landed : Schedule → ℕ → Flight → Schedule
landed s i f = record s {
  allocated = freed s f;
  pending = put s.pending f.runner (s.pending f.runner - 1);
  flights = remove_at s.flights i;
}

module _ (job : Job) where
  unfoldable pub assign_each : (ℕ → Reading) → List ℕ → Schedule → Schedule
  assign_each w [] s = s
  assign_each w (r ∷ rs) s = assign_each w rs (assign job s (w r) r)

  -- The two flags that are computed after the loop over the runners.
  abbrev pub some_unassigned : Schedule → Bool
  some_unassigned s = any (λ drv. is_unassigned (s.state drv)) job.tasks

  abbrev pub some_active : Schedule → Bool
  some_active s = any (λ drv. is_running (s.state drv)) job.tasks

  unfoldable pub announce_finish : Schedule → Schedule
  announce_finish s =
      if some_unassigned s
      then s
      else record s { finish = elim s.finish [ none ↦ some s.sequences | some f ↦ some f ] }

  unfoldable pub conclude : Schedule → Phase
  unfolding announce_finish
  conclude s =
      if not (some_active s) && not (some_unassigned s)
      then returned s.failure (record (announce_finish s) { stop = true })
      else waiting (announce_finish s)

  unfoldable pub propagated : Schedule → Schedule
  propagated s = record s { state = propagate job (suc (length job.tasks)) s.state }

  -- From the head of the loop to its `select`; each runner has its reading.
  unfoldable pub turn : (ℕ → Reading) → Schedule → Phase
  unfolding propagated assign_each conclude
  turn w s = conclude (assign_each w (0 ∷ 1 ∷ 2 ∷ 3 ∷ []) (propagated s))

  unfoldable pub settle : Schedule → Flight → BuildResult → Phase
  settle s f built = turning (record s {
    state = update s.state f.task done;
    locality =
        put s.locality f.runner
          (λ x. s.locality f.runner x || text_eq f.task x || contains (inputs job f.task) x);
  })
  settle s f build_error =
      if ltb 0 f.runner
      then turning (record s {
        retired = put s.retired f.runner true;
        retry_local = update s.retry_local f.task true;
        state = update s.state f.task unassigned;
      })
      else turning (record s { state = update s.state f.task failed; failure = some build_failure })
  settle s f publication_error = returned (some publication_failure) s

  unfoldable pub receive_result : Schedule → ℕ → Flight → BuildResult → Phase
  unfolding landed settle
  receive_result s i f result = settle (landed s i f) f result

  -- A goroutine's events arrive in its own order; those of different goroutines, in any.
  pub data Step : Phase → Phase → Type 0 where
    turns : (w : ℕ → Reading) (s : Schedule) → Step (turning s) (turn w s)
    ticks : (s : Schedule) → Step (waiting s) (turning s)
    releases :
        (s : Schedule) (i : ℕ) (f : Flight)
        → get_elem? s.flights i ≡ some f
        → f.released ≡ false
        → Step (waiting s) (turning (receive_release s i f))
    finishes :
        (s : Schedule) (i : ℕ) (f : Flight) (result : BuildResult)
        → get_elem? s.flights i ≡ some f
        → Step (waiting s) (receive_result s i f result)
    cancels_turn : (s : Schedule) → Step (turning s) (returned (some canceled) s)
    cancels_wait : (s : Schedule) → Step (waiting s) (returned (some canceled) s)

  -- The phases that `schedule` comes to.
  pub data Reach : Phase → Type 0 where
    here : Reach (turning start)
    next : {p q : Phase} → Reach p → Step p q → Reach q
