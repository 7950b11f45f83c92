-- ===== src/Scheduler/Loop.antt =====
-- worker/scheduler.go: the loop of `BuildPool.schedule`, one turn and one received event at a time.
use nix_ci_worker.Base.{
  ℕ, zero, suc, ◌+◌, ◌%◌, ◌^◌, ◌==◌, Text, String, List, [], ◌∷◌, Option, none, some, Bool, true,
  false, not, ◌&&◌, ◌||◌, if◌then◌else◌, all, any, ltb, leb, codes, text_eq, update, put, count,
}
use nix_ci_worker.Pool.Message.{Message, no_message, usable}
use nix_ci_worker.Scheduler.Job.{Job, inputs, suits}

-- The strings "", "running", "done" and "failed".
pub data TaskState : Type 0 where
  unassigned running done failed : TaskState

abbrev pub is_unassigned : TaskState → Bool
is_unassigned s = elim s [ unassigned ↦ true | _ ↦ false ]

abbrev pub is_running : TaskState → Bool
is_running s = elim s [ running ↦ true | _ ↦ false ]

abbrev pub is_done : TaskState → Bool
is_done s = elim s [ done ↦ true | _ ↦ false ]

abbrev pub is_failed : TaskState → Bool
is_failed s = elim s [ failed ↦ true | _ ↦ false ]

-- A goroutine that executes an assignment; `released` once its first event has been received.
pub record Flight : Type 0 where
  pub runner : ℕ
  pub remote : Message
  pub task : Text
  pub released : Bool

-- The variables of `schedule`, the two flags of the pool that it sets, and its goroutines.
pub record Schedule : Type 0 where
  pub allocated : ℕ → Bool
  pub pending : ℕ → ℕ
  pub locality : ℕ → Text → Bool
  pub state : Text → TaskState
  pub retry_local : Text → Bool
  pub retired : ℕ → Bool
  pub sequences : ℕ → ℕ
  pub instances : ℕ → Text
  pub finish : Option (ℕ → ℕ)
  pub stop : Bool
  pub failure : Option String
  pub flights : List Flight

abbrev pub start : Schedule
start = record {
  allocated = λ _. false;
  pending = λ _. 0;
  locality = λ _ _. false;
  state = λ _. unassigned;
  retry_local = λ _. false;
  retired = λ _. false;
  sequences = λ _. 0;
  instances = λ _. [];
  finish = none;
  stop = false;
  failure = none;
  flights = [];
}

-- What one assignment reads of the clock and of the statuses that the pool keeps.
pub record Reading : Type 0 where
  pub now : ℕ
  pub status : ℕ → Option Message

-- The states of a helper that may be given work.
unfoldable pub idle_state : Text → Bool
unfolding text_eq
idle_state s = text_eq s (codes "ready") || text_eq s (codes "done") || text_eq s (codes "failed")

abbrev retire : Schedule → ℕ → Schedule
retire s r = record s { retired = put s.retired r true }

pub record Choice : Type 0 where
  pub task : Text
  pub warm : ℕ
  pub local : Bool

-- `sequences` are `uint64`.
unfoldable pub launch : Schedule → ℕ → Message → Text → Schedule
launch s r remote drv =
    let sequence = (s.sequences r + 1) % 2 ^ 64 in
    record s {
      allocated = put s.allocated r true;
      pending = put s.pending r (s.pending r + 1);
      state = update s.state drv running;
      sequences = put s.sequences r sequence;
      flights =
          record {
            runner = r;
            remote = record remote { sequence = sequence };
            task = drv;
            released = false;
          }
          ∷ s.flights;
    }

module _ (job : Job) where
  -- A dependency has failed.
  unfoldable pub doomed : (Text → TaskState) → Text → Bool
  doomed st drv = is_unassigned (st drv) && any (λ dep. is_failed (st dep)) (job.deps drv)

  unfoldable pub propagate_pass : List Text → (Text → TaskState) → Bool → (Text → TaskState) × Bool
  unfolding doomed
  propagate_pass [] st changed = (st, changed)
  propagate_pass (drv ∷ ds) st changed =
      propagate_pass ds (if doomed st drv then update st drv failed else st)
        (doomed st drv || changed)

  -- `for changed { … }`: each pass but the last fails a task, so a pass for each task and one more
  -- are enough.
  unfoldable pub propagate : ℕ → (Text → TaskState) → Text → TaskState
  unfolding propagate_pass
  propagate zero st = st
  propagate (suc fuel) st =
      let r = propagate_pass job.tasks st false in
      elim r.1 [ true ↦ propagate fuel r.0 | false ↦ r.0 ]

  unfoldable pub ready : Schedule → Text → Bool
  ready s drv = is_unassigned (s.state drv) && all (λ dep. is_done (s.state dep)) (job.deps drv)

  -- A live helper could accept the task.
  helper_accepts : Schedule → Reading → Text → ℕ → Option Message → Bool
  unfolding usable text_eq
  helper_accepts s w drv r none = false
  helper_accepts s w drv r (some m) =
      not (s.retired r)
      && usable m job.lease w.now
      && (text_eq (s.instances r) [] || text_eq m.instance_id (s.instances r))
      && suits job drv m.features

  unfoldable pub delegatable : Schedule → Reading → Text → Bool
  unfolding helper_accepts
  delegatable s w drv =
      not (s.retry_local drv) && any (λ r. helper_accepts s w drv r (w.status r)) (1 ∷ 2 ∷ 3 ∷ [])

  -- A helper that is free and not retired: the message under which it can be given work.
  unfoldable pub gate_helper : Schedule → Reading → ℕ → Option Message → Schedule × Option Message
  unfolding usable idle_state text_eq
  gate_helper s w r none = (if ltb job.deadline w.now then retire s r else s, none)
  gate_helper s w r (some m) =
      if not (usable m job.lease w.now)
      then (if ltb job.deadline w.now then retire s r else s, none)
      else if not (text_eq (s.instances r) []) && not (text_eq m.instance_id (s.instances r))
      then (retire s r, none)
      else if not (idle_state m.state)
      then (s, none)
      else (record s { instances = put s.instances r m.instance_id }, some m)

  -- The head of the loop over the runners, up to the choice of a task.
  unfoldable pub gate : Schedule → Reading → ℕ → Schedule × Option Message
  unfolding gate_helper
  gate s w r =
      if s.allocated r || leb 2 (s.pending r) || s.retired r
      then (s, none)
      else if r == 0
      then (s, some (record no_message { cores = job.cpus }))
      else elim s.finish [ none ↦ gate_helper s w r (w.status r) | some f ↦ (s, none) ]

  -- The number of inputs that the runner has seen.
  unfoldable pub warmth : Schedule → ℕ → Text → ℕ
  unfolding count
  warmth s r drv = count (s.locality r) (inputs job drv)

  unfoldable pub eligible : Schedule → ℕ → Message → Text → Bool
  unfolding ready
  eligible s r remote drv =
      ready s drv && not (ltb 0 r && (s.retry_local drv || not (suits job drv remote.features)))

  -- The candidate takes the place of the choice so far.
  unfoldable pub better : Option Choice → Text → ℕ → Bool → Bool
  better none drv warm local = true
  better (some c) drv warm local =
      local && not c.local
      || (if local then c.local else not c.local)
        && job.priority drv == job.priority c.task
        && ltb c.warm warm

  unfoldable pub select :
      Schedule → Reading → ℕ → Message → List Text → Option Choice → Option Choice
  unfolding eligible warmth delegatable better
  select s w r remote [] best = best
  select s w r remote (drv ∷ ds) best =
      let warm = warmth s r drv in
      let local = r == 0 && not (delegatable s w drv) in
      select s w r remote ds (
        if eligible s r remote drv && better best drv warm local
        then some (record { task = drv; warm = warm; local = local })
        else best)

  -- One round of the loop over the runners.
  unfoldable pub assign : Schedule → Reading → ℕ → Schedule
  assign s w r =
      let (s', remote) = gate s w r in
      elim remote [
        | none ↦ s'
        | some m ↦ elim (select s' w r m job.order none) [
          | none ↦ s'
          | some c ↦ launch s' r m c.task
        ]
      ]
