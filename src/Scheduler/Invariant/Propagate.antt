-- ===== src/Scheduler/Invariant/Propagate.antt =====
-- Failures spread to all that depend on them, and the loop that spreads them ends.
use nix_ci_worker.Base.{
  ℕ, zero, suc, ◌+◌, ◌≤◌, ◌<◌, ◌≡◌, refl, Text, List, [], ◌∷◌, Bool, true, false, contains, count,
  bit, All, IsUnique, update, count-update, All-map, arith, Bool-cases, inl, inr, text_eq_self,
}
use nix_ci_worker.Scheduler.Job.{Job}
use nix_ci_worker.Scheduler.Loop.{
  TaskState, failed, is_unassigned, doomed, propagate_pass, propagate,
}

module _ (job : Job) where
  -- What failing one doomed task keeps, the passes keep.
  pub propagate_pass_rule {ℓ} :
      (P : (Text → TaskState) → Type ℓ)
      → ((st : Text → TaskState) (t : Text)
          → doomed job st t ≡ true
          → P st
          → P (update st t failed))
      → (ds : List Text) (st : Text → TaskState) (c : Bool) → P st
      → P (propagate_pass job ds st c).0
  unfolding propagate_pass
  propagate_pass_rule P k [] st c h = h
  propagate_pass_rule P k (d ∷ ds) st c h = elim (Bool-cases (doomed job st d)) [
    | inl e ↦
        rw (e, propagate_pass) (propagate_pass_rule P k ds (update st d failed) true (k st d e h))
    | inr e ↦ rw (e, propagate_pass) (propagate_pass_rule P k ds st c h)
  ]

  pub propagate_rule {ℓ} :
      (P : (Text → TaskState) → Type ℓ)
      → ((st : Text → TaskState) (t : Text)
          → doomed job st t ≡ true
          → P st
          → P (update st t failed))
      → (fuel : ℕ) (st : Text → TaskState) → P st
      → P (propagate job fuel st)
  unfolding propagate
  propagate_rule P k zero st h = h
  propagate_rule P k (suc fuel) st h =
      let kept = propagate_pass_rule P k job.tasks st false h in
      elim (Bool-cases (propagate_pass job job.tasks st false).1) [
        | inl e ↦ rw (e, propagate) (propagate_rule P k fuel _ kept)
        | inr e ↦ rw (e, propagate) kept
      ]

  abbrev waiting_tasks : (Text → TaskState) → ℕ
  waiting_tasks st = count (λ t. is_unassigned (st t)) job.tasks

  -- A pass that changes nothing has found no doomed task.
  propagate_pass_stable :
      (ds : List Text) (st : Text → TaskState) (c : Bool)
      → (propagate_pass job ds st c).1 ≡ false
      → (c ≡ false) × ((propagate_pass job ds st c).0 ≡ st) × All (λ t. doomed job st t ≡ false) ds
  unfolding propagate_pass
  propagate_pass_stable [] st c h = (h, refl, tt)
  propagate_pass_stable (d ∷ ds) st c h = elim (Bool-cases (doomed job st d)) [
    | inl e ↦ absurd (
        absurd_true
          (propagate_pass_stable ds (update st d failed) true (rw (e, propagate_pass) at h)).0)
    | inr e ↦
        let (a, b, rest) = propagate_pass_stable ds st c (rw (e, propagate_pass) at h) in
        (a, rw (e, propagate_pass) b, (e, rest))
  ]
    where
      absurd_true : true ≡ false → ⊥
      absurd_true e = cc

  -- Failing a task takes it from the unassigned ones.
  fail_falls :
      IsUnique job.tasks
      → (st : Text → TaskState) (d : Text) → doomed job st d ≡ true
      → contains job.tasks d ≡ true
      → waiting_tasks (update st d failed) + 1 ≡ waiting_tasks st
  unfolding doomed
  fail_falls u st d e k =
      ground (arith, count-update (λ s. is_unassigned s) st d failed job.tasks u k)

  -- A pass that changes something leaves fewer unassigned tasks.
  propagate_pass_falls :
      IsUnique job.tasks
      → (ds : List Text) (st : Text → TaskState) (c : Bool)
      → All (λ t. contains job.tasks t ≡ true) ds
      → waiting_tasks (propagate_pass job ds st c).0 + bit (propagate_pass job ds st c).1
        ≤ waiting_tasks st + bit c
  unfolding propagate_pass
  propagate_pass_falls u [] st c a = omega arith
  propagate_pass_falls u (d ∷ ds) st c a = elim (Bool-cases (doomed job st d)) [
    | inl e ↦
        rw (e, propagate_pass)
          (omega (
            arith,
            propagate_pass_falls u ds (update st d failed) true a.1,
            fail_falls u st d e a.0,
          ))
    | inr e ↦ rw (e, propagate_pass) (propagate_pass_falls u ds st c a.1)
  ]

  pub contains-All : (ds : List Text) → All (λ t. contains ds t ≡ true) ds
  unfolding contains
  contains-All [] = tt
  contains-All (d ∷ ds) = (
    ground (arith, text_eq_self d),
    All-map ds (λ (t : Text) (h : contains ds t ≡ true). ground arith) (contains-All ds),
  )

  -- With a round for each unassigned task and one more, nothing is left to fail.
  pub propagate_closed :
      IsUnique job.tasks
      → (fuel : ℕ) (st : Text → TaskState) → waiting_tasks st < fuel
      → All (λ t. doomed job (propagate job fuel st) t ≡ false) job.tasks
  unfolding propagate
  propagate_closed u zero st h = absurd (omega arith)
  propagate_closed u (suc fuel) st h = elim (Bool-cases (propagate_pass job job.tasks st false).1) [
    | inl e ↦
        rw (e, propagate)
          (propagate_closed u fuel _
            (ground (arith, propagate_pass_falls u job.tasks st false (contains-All job.tasks))))
    | inr e ↦
        let (_, same, calm) = propagate_pass_stable job.tasks st false e in
        rw (e, propagate, same) calm
  ]
