-- ===== src/Tests/SchedulerRuns.antt =====
-- The assigner of worker/scheduler.go on a library and a program that needs it.
use nix_ci_worker.Base.{
  ℕ, zero, suc, ◌+◌, ◌^◌, ◌≤◌, ◌<◌, ◌≡◌, ◌⊎◌, refl, subst, Text, List, [], ◌∷◌, String, Option,
  none, some, Bool, true, false, not, ◌||◌, contains, arith, Option-cases, lookup, inl, inr,
  text_eq, text_eq_iff, get_elem?, count, bit, codes, if◌then◌else◌, ◌==◌,
}
use nix_ci_worker.Base.Int.{pos}
use nix_ci_worker.Plan.Types.{Plan, Derivation, no_derivation}
use nix_ci_worker.Pool.Message.{Message, no_message, usable}
use nix_ci_worker.Scheduler.Job.{Job, suits}
use nix_ci_worker.Scheduler.Loop.{
  TaskState, failed, unassigned, running, is_running, is_done, is_failed, Flight, Schedule, start,
  Reading, propagate, propagate_pass, doomed, ready, delegatable, gate, gate_helper, select, launch,
  assign,
}
use nix_ci_worker.Scheduler.Steps.{
  Phase, turning, waiting, returned, turn, turns, ticks, finishes, Reach, here, next, built,
  receive_result, landed, receive_release,
}
use nix_ci_worker.Scheduler.Invariant.Defs.{IsJob, runs_task, runs_on, builds_on}
use nix_ci_worker.Scheduler.Progress.{IsRanked, IsBusy}
use nix_ci_worker.Scheduler.Later.{schedule_of, From, stays, goes, HelperFailed, WasInFlight}
use nix_ci_worker.Scheduler.Safety.{
  dependencies_first, built_once, bounded_backlog, helpers_fit, fresh_sequence, event_frees_own,
  never_stuck, conclusion, finish_is_final,
}
use nix_ci_worker.Scheduler.Doom.{Chain, propagate_exact}
use nix_ci_worker.Scheduler.Dependencies.{pool_dependencies, visit, visit_inputs, visit_input}
use nix_ci_worker.Scheduler.Dependencies.Exact.{Needs, pool_dependencies_exact}

abbrev library : Text
library = codes "library"

abbrev program : Text
program = codes "program"

-- It needs nothing.
abbrev tools : Text
tools = codes "tools"

abbrev sample : Job
sample = record {
  graph = record { targets = []; derivations = []; required = []; outputs = [] };
  system = codes "x86_64-linux";
  cpus = pos 4;
  lease = 300;
  deadline = 600;
  tasks = library ∷ program ∷ tools ∷ [];
  order = library ∷ program ∷ tools ∷ [];
  deps = λ t. if text_eq t program then library ∷ [] else [];
  priority = λ t. if text_eq t library then 2 else 1;
  compatible = λ d system features. true;
}

abbrev ready_helper : Message
ready_helper = record no_message {
  cores = pos 2;
  instance_id = codes "one";
  state = codes "ready";
  sent = 10;
}

-- Helper 1 has registered.
abbrev reading : Reading
reading = record { now = 20; status = λ r. if r == 1 then some ready_helper else none }

-- A run in which every build succeeds, the newest assignment first.
land : Schedule → List Flight → Phase
land s [] = turning s
land s (f ∷ fs) = receive_result sample s 0 f built

advance : Phase → Phase
advance (turning s) = turn sample (λ r. reading) s
advance (waiting s) = land s s.flights
advance (returned e s) = returned e s

run : ℕ → Phase
unfolding advance land turn propagate propagate_pass doomed text_eq assign gate gate_helper usable
    select ready launch delegatable count contains receive_result
run zero = turning start
run (suc n) = advance (run n)

land-Reach :
    (s : Schedule) (l : List Flight)
    → s.flights ≡ l
    → Reach sample (waiting s)
    → Reach sample (land s l)
unfolding land
land-Reach s [] e r = next r (ticks s)
land-Reach s (f ∷ fs) e r = next r (finishes s 0 f built (rw e))

advance-Reach : (p : Phase) → Reach sample p → Reach sample (advance p)
unfolding advance
advance-Reach (turning s) r = next r (turns (λ r. reading) s)
advance-Reach (waiting s) r = land-Reach s s.flights refl r
advance-Reach (returned e s) r = r

run-Reach : (n : ℕ) → Reach sample (run n)
unfolding run
run-Reach zero = here
run-Reach (suc n) = advance-Reach (run n) (run-Reach n)

land-From : (s : Schedule) (l : List Flight) → s.flights ≡ l → From sample (waiting s) (land s l)
unfolding land
land-From s [] e = goes stays (ticks s)
land-From s (f ∷ fs) e = goes stays (finishes s 0 f built (rw e))

advance-From : (p : Phase) → From sample p (advance p)
unfolding advance
advance-From (turning s) = goes stays (turns (λ r. reading) s)
advance-From (waiting s) = land-From s s.flights refl
advance-From (returned e s) = stays

run-From : (n : ℕ) → From sample (run n) (run (suc n))
unfolding run
run-From n = advance-From (run n)

is_waiting : Phase → Bool
is_waiting (waiting s) = true
is_waiting _ = false

waiting_eq : (p : Phase) → is_waiting p ≡ true → p ≡ waiting (schedule_of p)
unfolding is_waiting
waiting_eq (turning s) h = cc
waiting_eq (waiting s) h = refl
waiting_eq (returned e s) h = cc

-- The loop waits for the first two assignments.
abbrev first : Schedule
first = schedule_of (run 1)

first_waits : is_waiting (run 1) ≡ true
unfolding is_waiting run
first_waits = refl

first-Reach : Reach sample (waiting first)
first-Reach = subst (Reach sample) (waiting_eq (run 1) first_waits) (run-Reach 1)

first-states :
    (first.state library ≡ running)
    × (first.state tools ≡ running)
    × (first.state program ≡ unassigned)
unfolding run
first-states = (refl, refl, refl)

or_first : (x y : Bool) → (x || false) ≡ true → (x || y) ≡ true
or_first true y h = refl
or_first false y h = cc

sample_closed :
    (b : Bool) (d : Text)
    → contains (if b then library ∷ [] else []) d ≡ true
    → contains sample.tasks d ≡ true
unfolding contains
sample_closed true d p = or_first (text_eq library d) _ p
sample_closed false d p = cc

sample-IsJob : IsJob sample
unfolding contains text_eq
sample-IsJob = record {
  unique = (refl, (refl, (refl, tt)));
  ordered = λ t. refl;
  closed = λ t d k p. sample_closed (text_eq t program) d p;
  few = omega arith;
}

sample-IsRanked : IsRanked sample (λ t. if text_eq t program then 1 else 0)
unfolding contains text_eq
sample-IsRanked = record { falls = λ t d p. ground (arith, text_eq_iff t d) }

nil_returned : Phase → Bool
nil_returned (returned none s) = true
nil_returned _ = false

returned_eq : (p : Phase) → nil_returned p ≡ true → p ≡ returned none (schedule_of p)
unfolding nil_returned
returned_eq (turning s) h = cc
returned_eq (waiting s) h = cc
returned_eq (returned none s) h = refl
returned_eq (returned (some e) s) h = cc

-- The run ends with no error.
abbrev last : Schedule
last = schedule_of (run 8)

last_returned : nil_returned (run 8) ≡ true
unfolding run nil_returned
last_returned = refl

last-Reach : Reach sample (returned none last)
last-Reach = subst (Reach sample) (returned_eq (run 8) last_returned) (run-Reach 8)

abbrev no_flight : Flight
no_flight = record { runner = 0; remote = no_message; task = []; released = false }

abbrev flight : Schedule → ℕ → Flight
flight s i = elim (get_elem? s.flights i) [ some f ↦ f | none ↦ no_flight ]

first-flight : get_elem? first.flights 0 ≡ some (flight first 0)
unfolding run
first-flight = refl

third_waits : is_waiting (run 5) ≡ true
unfolding is_waiting run
third_waits = refl

third-Reach : Reach sample (waiting (schedule_of (run 5)))
third-Reach = subst (Reach sample) (waiting_eq (run 5) third_waits) (run-Reach 5)

dependencies_first_example : is_done ((schedule_of (run 5)).state library) ≡ true
unfolding run contains text_eq
dependencies_first_example =
    dependencies_first sample (schedule_of (run 5)) program library sample-IsJob (inr third-Reach)
      refl refl

built_once_example : count (runs_task tools) first.flights ≡ bit (is_running (first.state tools))
built_once_example = built_once sample first tools sample-IsJob (inr first-Reach)

bounded_backlog_example :
    (first.pending 1 ≡ count (runs_on 1) first.flights)
    × (first.pending 1 ≤ 2)
    × (count (builds_on 1) first.flights ≡ bit (first.allocated 1))
bounded_backlog_example = bounded_backlog sample first 1 sample-IsJob (inr first-Reach)

helpers_fit_example :
    ((flight first 0).runner < 4)
    × (suits sample (flight first 0).task (flight first 0).remote.features ≡ true)
    × ¬ HelperFailed sample (flight first 0).task (run 1)
unfolding run
helpers_fit_example =
    helpers_fit sample (run 1) 0 (flight first 0) sample-IsJob (run-Reach 1) tt first-flight
      (omega arith)

fresh_sequence_example :
    (WasInFlight start (flight first 0)
      ⊎ (start.sequences (flight first 0).runner < (flight first 0).remote.sequence))
    × ((flight first 0).remote.sequence ≤ first.sequences (flight first 0).runner)
    × (start.sequences (flight first 0).runner ≤ first.sequences (flight first 0).runner)
    × (first.sequences (flight first 0).runner + 1 < 2 ^ 64)
unfolding run
fresh_sequence_example =
    fresh_sequence sample (run 0) (run 1) 0 (flight first 0) sample-IsJob (run-Reach 0) (run-From 0)
      tt first-flight

event_frees_own_example :
    ((receive_release first 0 (flight first 0)).allocated 1
      ≡ (landed first 0 (flight first 0)).allocated 1)
    × ((landed first 0 (flight first 0)).allocated 1 ≡ (
        if (flight first 0).released || not (1 == (flight first 0).runner)
        then first.allocated 1
        else false))
event_frees_own_example =
    event_frees_own sample first 0 (flight first 0) 1 sample-IsJob first-Reach first-flight

never_stuck_example : IsBusy (turn sample (λ r. reading) start)
never_stuck_example =
    never_stuck sample (λ t. if text_eq t program then 1 else 0) (λ r. reading) start sample-IsJob
      sample-IsRanked here

conclusion_example :
    ((t : Text)
      → contains sample.tasks t ≡ true
      → (is_done (last.state t) || is_failed (last.state t)) ≡ true)
    × (last.flights ≡ [])
    × (last.stop ≡ true)
    × (◌≡◌ {A = Option String} none none
        → (t : Text) → contains sample.tasks t ≡ true
        → is_done (last.state t) ≡ true)
conclusion_example = conclusion sample last none sample-IsJob last-Reach (λ h. cc) (λ h. cc)

abbrev finish_of : Schedule → ℕ → ℕ
finish_of s = elim s.finish [ none ↦ λ _. 0 | some q ↦ q ]

is_announced : Schedule → Bool
is_announced s = elim s.finish [ none ↦ false | some q ↦ true ]

announced_eq : (s : Schedule) → is_announced s ≡ true → s.finish ≡ some (finish_of s)
unfolding is_announced
announced_eq s h = elim (Option-cases s.finish) [
  | inl e ↦ ground (arith, e)
  | inr (q, e) ↦ rw e refl
]

third_announced : is_announced (schedule_of (run 5)) ≡ true
unfolding run is_announced
third_announced = refl

finish_is_final_example :
    ((schedule_of (run 6)).finish ≡ some (finish_of (schedule_of (run 5))))
    × (finish_of (schedule_of (run 5)) 1 ≡ (schedule_of (run 6)).sequences 1)
finish_is_final_example =
    finish_is_final sample (run 5) (run 6) (finish_of (schedule_of (run 5))) 1 sample-IsJob
      (run-Reach 5) (run-From 5) (announced_eq (schedule_of (run 5)) third_announced) (omega arith)

-- Library has failed, and the program waits for it.
abbrev after_failure : Text → TaskState
after_failure t = if text_eq t library then failed else unassigned

propagate_exact_example :
    (is_failed (propagate sample 4 after_failure program) ≡ true
      → Chain sample after_failure program)
    × (Chain sample after_failure program
        → is_failed (propagate sample 4 after_failure program) ≡ true)
unfolding contains text_eq
propagate_exact_example = propagate_exact sample after_failure program sample-IsJob refl

-- The program needs the library through a derivation that is not scheduled.
abbrev needing : Text → Derivation
needing d = record no_derivation {
  input_drvs = (d, record { outputs = some []; dynamic_outputs = [] }) ∷ [];
}

abbrev wrapped : Plan
wrapped = record {
  targets = [];
  derivations = (program, needing tools) ∷ (tools, needing library) ∷ (library, no_derivation) ∷ [];
  required = [];
  outputs = [];
}

pool_dependencies_exact_example :
    (contains (pool_dependencies wrapped (λ d. not (text_eq d tools)) program) library ≡ true
      → (not (text_eq library tools) ≡ true)
        × Needs wrapped (λ d. not (text_eq d tools)) program library)
    × (not (text_eq library tools) ≡ true
        → Needs wrapped (λ d. not (text_eq d tools)) program library
        → contains (pool_dependencies wrapped (λ d. not (text_eq d tools)) program) library ≡ true)
pool_dependencies_exact_example =
    pool_dependencies_exact wrapped (λ d. not (text_eq d tools)) program library

wrapped_dependencies : pool_dependencies wrapped (λ d. not (text_eq d tools)) program ≡ library ∷ []
unfolding pool_dependencies visit visit_inputs visit_input lookup contains text_eq
wrapped_dependencies = refl
