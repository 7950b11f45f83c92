-- ===== src/Scheduler/Invariant/Stepping.antt =====
-- Every phase that the loop can come to satisfies the invariant.
use nix_ci_worker.Base.{
  ℕ, ◌≡◌, refl, Text, List, [], ◌∷◌, Bool, true, false, not, ◌&&◌, ◌||◌, contains, any, arith,
  Bool-cases, inl, inr, text_eq_iff, count,
}
use nix_ci_worker.Scheduler.Job.{Job}
use nix_ci_worker.Scheduler.Loop.{
  TaskState, is_unassigned, is_running, is_done, is_failed, Schedule, Reading, start,
}
use nix_ci_worker.Scheduler.Steps.{
  Phase, announce_finish, conclude, some_active, some_unassigned, turn, Step, turns, ticks,
  releases, finishes, cancels_turn, cancels_wait, Reach, here, next,
}
use nix_ci_worker.Scheduler.Invariant.Defs.{IsJob, Inv, PhaseInv}
use nix_ci_worker.Scheduler.Invariant.Failing.{propagated-Inv}
use nix_ci_worker.Scheduler.Invariant.Assigning.{assign_each-Inv}
use nix_ci_worker.Scheduler.Invariant.Receiving.{receive_release-Inv, receive_result-Inv}

pub any-contains :
    (p : Text → Bool) (xs : List Text) (x : Text)
    → contains xs x ≡ true
    → p x ≡ true
    → any p xs ≡ true
unfolding contains
any-contains p [] x k h = k
any-contains p (y ∷ ys) x k h = ground (arith, text_eq_iff y x, any-contains p ys x)

announced-Inv : (job : Job) (s : Schedule) → Inv job s → Inv job (announce_finish job s)
unfolding announce_finish
announced-Inv job s v = elim (Bool-cases (some_unassigned job s)) [
  | inl e ↦ rw e v
  | inr e ↦ rw e (record {
    flying = v.flying;
    counted = v.counted;
    capped = v.capped;
    busy = v.busy;
    once = v.once;
    ordered = v.ordered;
    blamed = v.blamed;
    steady = v.steady;
    numbered = v.numbered;
  })
]

stopped-Inv : (job : Job) (s : Schedule) → Inv job s → Inv job (record s { stop = true })
stopped-Inv job s v = record {
  flying = v.flying;
  counted = v.counted;
  capped = v.capped;
  busy = v.busy;
  once = v.once;
  ordered = v.ordered;
  blamed = v.blamed;
  steady = v.steady;
  numbered = v.numbered;
}

announced_failure : (job : Job) (s : Schedule) → s.failure ≡ (announce_finish job s).failure
unfolding announce_finish
announced_failure job s = ground arith

-- A task that is neither unassigned nor running is done or has failed.
settled_state :
    (x : TaskState)
    → is_unassigned x ≡ false
    → is_running x ≡ false
    → (is_done x || is_failed x) ≡ true
settled_state x h k = ground arith

all_settled :
    (job : Job) (s : Schedule)
    → (not (some_active job s) && not (some_unassigned job s)) ≡ true
    → (t : Text) → contains job.tasks t ≡ true
    → (is_done ((announce_finish job s).state t) || is_failed ((announce_finish job s).state t))
      ≡ true
unfolding announce_finish
all_settled job s e t k = ground (
  arith,
  any-contains (λ d. is_unassigned (s.state d)) job.tasks t k,
  any-contains (λ d. is_running (s.state d)) job.tasks t k,
  settled_state (s.state t),
)

conclude-Inv : (job : Job) (s : Schedule) → Inv job s → PhaseInv job (conclude job s)
unfolding conclude
conclude-Inv job s v = elim (Bool-cases (not (some_active job s) && not (some_unassigned job s))) [
  | inl e ↦ rw e (
      inr (
        inr (record {
          inv = stopped-Inv job (announce_finish job s) (announced-Inv job s v);
          error = announced_failure job s;
          settled = λ t k. all_settled job s e t k;
          drained = refl;
        })))
  | inr e ↦ rw e (announced-Inv job s v)
]

pub turn-Inv :
    (job : Job) (w : ℕ → Reading) (s : Schedule)
    → IsJob job
    → Inv job s
    → PhaseInv job (turn job w s)
unfolding turn
turn-Inv job w s j v =
    conclude-Inv job _
      (assign_each-Inv job w (0 ∷ 1 ∷ 2 ∷ 3 ∷ []) _ j (omega arith) (propagated-Inv job s j v))

start-Inv : (job : Job) → Inv job start
unfolding count
start-Inv job = record {
  flying = tt;
  counted = λ r. refl;
  capped = λ r. omega arith;
  busy = λ r. refl;
  once = λ t. refl;
  ordered = λ t d p q. cc;
  blamed = λ t p. cc;
  steady = refl;
  numbered = λ r. omega arith;
}

pub Step-PhaseInv :
    (job : Job) {p q : Phase} → IsJob job → Step job p q → PhaseInv job p → PhaseInv job q
Step-PhaseInv job j (turns w s) v = turn-Inv job w s j v
Step-PhaseInv job j (ticks s) v = v
Step-PhaseInv job j (releases s i f at e) v = receive_release-Inv job s i f at e v
Step-PhaseInv job j (finishes s i f result at) v = receive_result-Inv job s i f at j result v
Step-PhaseInv job j (cancels_turn s) v = inl refl
Step-PhaseInv job j (cancels_wait s) v = inl refl

pub Reach-PhaseInv : (job : Job) {p : Phase} → IsJob job → Reach job p → PhaseInv job p
Reach-PhaseInv job j here = start-Inv job
Reach-PhaseInv job j (next r st) = Step-PhaseInv job j st (Reach-PhaseInv job j r)
