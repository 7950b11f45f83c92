-- ===== src/Scheduler/Invariant/Defs.antt =====
-- The invariant of the assigner's loop.
use nix_ci_worker.Base.{
  ℕ, ◌+◌, ◌*◌, ◌^◌, ◌≤◌, ◌<◌, ◌≡◌, ◌==◌, ◌⊎◌, Text, String, Option, some, Bool, true, false, not,
  ◌&&◌, ◌||◌, text_eq, contains, count, bit, All, IsUnique, length,
}
use nix_ci_worker.Scheduler.Job.{Job, suits}
use nix_ci_worker.Scheduler.Loop.{
  TaskState, is_unassigned, is_running, is_done, is_failed, Flight, Schedule,
}
use nix_ci_worker.Scheduler.Steps.{
  build_failure, publication_failure, canceled, Phase, turning, waiting, returned,
}

-- What the values that `schedule` computes first have in common.
pub record IsJob (job : Job) : Type 0 where
  pub unique : IsUnique job.tasks
  pub ordered : (t : Text) → contains job.order t ≡ contains job.tasks t
  pub closed :
      (t d : Text)
      → contains job.tasks t ≡ true
      → contains (job.deps t) d ≡ true
      → contains job.tasks d ≡ true
  pub few : 2 * length job.tasks < 2 ^ 64

abbrev pub is_started : TaskState → Bool
is_started s = is_running s || is_done s

pub record FlightInv (job : Job) (retry_local : Text → Bool) (allocated : ℕ → Bool)
    (sequences : ℕ → ℕ) (f : Flight) : Type 0 where
  pub in_pool : f.runner < 4
  pub known : contains job.tasks f.task ≡ true
  pub fit : 0 < f.runner → suits job f.task f.remote.features ≡ true
  pub remote_task : 0 < f.runner → retry_local f.task ≡ false
  pub newest : f.released ≡ false → f.remote.sequence ≡ sequences f.runner
  pub older : f.released ≡ true → allocated f.runner ≡ true → f.remote.sequence < sequences f.runner
  pub issued : f.remote.sequence ≤ sequences f.runner

abbrev pub runs_on : ℕ → Flight → Bool
runs_on r f = r == f.runner

abbrev pub builds_on : ℕ → Flight → Bool
builds_on r f = r == f.runner && not f.released

abbrev pub runs_task : Text → Flight → Bool
runs_task t f = text_eq f.task t

-- The assignments that were made: each started a task that is not unassigned since, or failed on a
-- helper.
abbrev pub attempts : Job → (Text → TaskState) → (Text → Bool) → ℕ
attempts job state retry_local =
    count (λ t. not (is_unassigned (state t))) job.tasks + count retry_local job.tasks

pub record Inv (job : Job) (s : Schedule) : Type 0 where
  pub flying : All (FlightInv job s.retry_local s.allocated s.sequences) s.flights
  pub counted : (r : ℕ) → s.pending r ≡ count (runs_on r) s.flights
  pub capped : (r : ℕ) → s.pending r ≤ 2
  pub busy : (r : ℕ) → count (builds_on r) s.flights ≡ bit (s.allocated r)
  pub once : (t : Text) → count (runs_task t) s.flights ≡ bit (is_running (s.state t))
  pub ordered :
      (t d : Text)
      → is_started (s.state t) ≡ true
      → contains (job.deps t) d ≡ true
      → is_done (s.state d) ≡ true
  pub blamed : (t : Text) → is_failed (s.state t) ≡ true → s.failure ≡ some build_failure
  pub steady : s.retired 0 ≡ false
  pub numbered : (r : ℕ) → s.sequences r ≤ attempts job s.state s.retry_local

-- What `schedule` returns with when the loop ends by itself.
pub record Concluded (job : Job) (e : Option String) (s : Schedule) : Type 0 where
  pub inv : Inv job s
  pub error : e ≡ s.failure
  pub settled :
      (t : Text)
      → contains job.tasks t ≡ true
      → (is_done (s.state t) || is_failed (s.state t)) ≡ true
  pub drained : s.stop ≡ true

abbrev pub PhaseInv : Job → Phase → Type 0
PhaseInv job (turning s) = Inv job s
PhaseInv job (waiting s) = Inv job s
PhaseInv job (returned e s) =
    (e ≡ some canceled) ⊎ ((e ≡ some publication_failure) ⊎ Concluded job e s)
