-- ===== src/Scheduler/Invariant/Failing.antt =====
-- The invariant is kept when failures spread, at the head of each turn.
use nix_ci_worker.Base.{
  suc, ◌≤◌, ◌≡◌, Text, Bool, true, not, contains, update, count-update, count-update_ne, arith,
  Bool-cases, inl, inr, text_eq_iff, any_witness, length,
}
use nix_ci_worker.Scheduler.Job.{Job}
use nix_ci_worker.Scheduler.Loop.{TaskState, failed, is_unassigned, is_failed, Schedule, doomed}
use nix_ci_worker.Scheduler.Steps.{propagated}
use nix_ci_worker.Scheduler.Invariant.Defs.{IsJob, Inv, attempts}
use nix_ci_worker.Scheduler.Invariant.Propagate.{propagate_rule}

-- An unassigned task that becomes anything is counted at most once more.
pub attempts-update :
    (job : Job) (state : Text → TaskState) (retry : Text → Bool) (t : Text) (v : TaskState)
    → IsJob job
    → is_unassigned (state t) ≡ true
    → attempts job state retry ≤ attempts job (update state t v) retry
attempts-update job state retry t v j e = elim (Bool-cases (contains job.tasks t)) [
  | inl k ↦ ground (arith, count-update (λ s. not (is_unassigned s)) state t v job.tasks j.unique k)
  | inr k ↦ ground (arith, count-update_ne (λ s. not (is_unassigned s)) state t v job.tasks k)
]

fail-Inv :
    (job : Job) (s : Schedule) (t : Text)
    → IsJob job
    → doomed job s.state t ≡ true
    → Inv job s
    → Inv job (record s { state = update s.state t failed })
unfolding doomed
fail-Inv job s t j h v =
    let was : is_unassigned (s.state t) ≡ true = ground arith in
    let (d, bad) = any_witness (λ dep. is_failed (s.state dep)) (job.deps t) (ground arith) in
    record {
      flying = v.flying;
      counted = v.counted;
      capped = v.capped;
      busy = v.busy;
      once = λ u. ground (arith, text_eq_iff t u, v.once u, v.once t);
      ordered = λ u e p q. ground (arith, text_eq_iff t u, text_eq_iff t e, v.ordered u e);
      blamed = λ u p. ground (arith, v.blamed u, v.blamed d bad);
      steady = v.steady;
      numbered = λ r.
          omega (arith, v.numbered r, attempts-update job s.state s.retry_local t failed j was);
    }

pub propagated-Inv : (job : Job) (s : Schedule) → IsJob job → Inv job s → Inv job (propagated job s)
unfolding propagated
propagated-Inv job s j v =
    propagate_rule job (λ st. Inv job (record s { state = st }))
      (λ st t h k. fail-Inv job (record s { state = st }) t j h k) (suc (length job.tasks)) s.state
      v
