-- ===== src/Scheduler/Invariant/Launching.antt =====
-- The invariant is kept when a task is launched on a free runner.
use nix_ci_worker.Base.{
  ℕ, ◌+◌, ◌*◌, ◌%◌, ◌^◌, ◌≤◌, ◌<◌, ◌≡◌, sym, subst, Text, ◌∷◌, Bool, true, false, not, contains,
  count, update, ltb, lt→ltb, count-update, count-le-length, arith, text_eq_iff, length,
  all-contains, All, All-zip, All-map, All-count_zero, put,
}
use nix_ci_worker.Pool.Message.{Message}
use nix_ci_worker.Scheduler.Job.{Job, suits}
use nix_ci_worker.Scheduler.Loop.{
  TaskState, running, is_unassigned, is_done, Flight, Schedule, ready, launch,
}
use nix_ci_worker.Scheduler.Invariant.Defs.{IsJob, Inv, FlightInv, attempts, builds_on}

pub attempts-le :
    (job : Job) (state : Text → TaskState) (retry : Text → Bool)
    → attempts job state retry ≤ 2 * length job.tasks
attempts-le job state retry = omega (
  arith,
  count-le-length (λ t. not (is_unassigned (state t))) job.tasks,
  count-le-length retry job.tasks,
)

pub sequence_bound :
    (job : Job) (s : Schedule) (r : ℕ) → IsJob job → Inv job s → s.sequences r + 1 < 2 ^ 64
sequence_bound job s r j v =
    omega (arith, v.numbered r, attempts-le job s.state s.retry_local, j.few)

-- A number that was issued is far from wrapping.
pub next_sequence :
    (job : Job) (s : Schedule) (r : ℕ)
    → IsJob job
    → Inv job s
    → (s.sequences r + 1) % 2 ^ 64 ≡ s.sequences r + 1
next_sequence job s r j v = omega (arith, sequence_bound job s r j v)

attempts-launch :
    (job : Job) (state : Text → TaskState) (retry : Text → Bool) (t : Text)
    → IsJob job
    → is_unassigned (state t) ≡ true
    → contains job.tasks t ≡ true
    → attempts job (update state t running) retry ≡ attempts job state retry + 1
attempts-launch job state retry t j e k =
    ground (arith, count-update (λ s. not (is_unassigned s)) state t running job.tasks j.unique k)

module _ (job : Job) (s : Schedule) (r : ℕ) (m : Message) (drv : Text) where
  -- The other assignments of the runner are released, and older than the new one.
  launch_old :
      (f : Flight)
      → FlightInv job s.retry_local s.allocated s.sequences f
      → builds_on r f ≡ false
      → FlightInv job s.retry_local
          (put s.allocated r true)
          (put s.sequences r (s.sequences r + 1))
          f
  launch_old f h other = record {
    in_pool = h.in_pool;
    known = h.known;
    fit = h.fit;
    remote_task = h.remote_task;
    newest = λ e. ground (arith, h.newest e);
    older = λ e k. ground (arith, h.older e, h.issued);
    issued = ground (arith, h.issued);
  }

  launch-flying :
      IsJob job
      → r < 4
      → s.allocated r ≡ false
      → contains job.tasks drv ≡ true
      → (ltb 0 r ≡ true → (s.retry_local drv ≡ false) × (suits job drv m.features ≡ true))
      → Inv job s
      → All
          (FlightInv job s.retry_local
            (put s.allocated r true)
            (put s.sequences r (s.sequences r + 1)))
          s.flights
  launch-flying j lt free known fits v =
      All-map s.flights
        (λ (f : Flight)
            (h : FlightInv job s.retry_local s.allocated s.sequences f × (builds_on r f ≡ false)).
          launch_old f h.0 h.1)
        (All-zip (FlightInv job s.retry_local s.allocated s.sequences) (λ f. builds_on r f ≡ false)
          s.flights v.flying (All-count_zero (builds_on r) s.flights (ground (arith, v.busy r))))

  pub launch-Inv :
      IsJob job
      → r < 4
      → s.allocated r ≡ false
      → s.pending r < 2
      → contains job.tasks drv ≡ true
      → ready job s drv ≡ true
      → (ltb 0 r ≡ true → (s.retry_local drv ≡ false) × (suits job drv m.features ≡ true))
      → Inv job s
      → Inv job (launch s r m drv)
  unfolding launch ready count
  launch-Inv j lt free room known can fits v =
      let was : is_unassigned (s.state drv) ≡ true = ground arith in
      let next = next_sequence job s r j v in
      let launched : FlightInv job s.retry_local (put s.allocated r true)
          (put s.sequences r (s.sequences r + 1))
          (record {
            runner = r;
            remote = record m { sequence = s.sequences r + 1 };
            task = drv;
            released = false;
          }) =
        record {
          in_pool = lt;
          known = known;
          fit = λ h. (fits (lt→ltb 0 r h)).1;
          remote_task = λ h. (fits (lt→ltb 0 r h)).0;
          newest = λ e. ground arith;
          older = λ e. cc;
          issued = ground arith;
        } in
      record {
        flying =
            subst
              (λ n.
                All (FlightInv job s.retry_local (put s.allocated r true) (put s.sequences r n)) (
                  record {
                    runner = r;
                    remote = record m { sequence = n };
                    task = drv;
                    released = false;
                  }
                  ∷ s.flights))
              (sym next) (launched, launch-flying j lt free known fits v);
        counted = λ q. ground (arith, v.counted q);
        capped = λ q. ground (arith, v.capped q);
        busy = λ q. ground (arith, v.busy q);
        once = λ u. ground (arith, text_eq_iff drv u, v.once u);
        ordered = λ u e p q. ground (
          arith,
          text_eq_iff drv u,
          text_eq_iff drv e,
          v.ordered u e,
          all-contains (λ dep. is_done (s.state dep)) (job.deps drv) e,
        );
        blamed = λ u p. ground (arith, v.blamed u);
        steady = v.steady;
        numbered = λ q.
            ground (
              arith,
              next,
              v.numbered q,
              attempts-launch job s.state s.retry_local drv j was known,
            );
      }
