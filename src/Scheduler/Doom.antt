-- ===== src/Scheduler/Doom.antt =====
-- Which tasks the head of a turn fails: exactly those that depend on a failed task through
-- unassigned ones.
use nix_ci_worker.Base.{
  ℕ, suc, ◌≡◌, ◌⊎◌, refl, subst, Text, List, [], ◌∷◌, Bool, true, false, false≢true, text_eq,
  text_eq_self, contains, any, update, arith, Bool-cases, inl, inr, text_eq_iff, All, All_contains,
  length, count-le-length,
}
use nix_ci_worker.Scheduler.Job.{Job}
use nix_ci_worker.Scheduler.Loop.{TaskState, failed, is_unassigned, is_failed, doomed, propagate}
use nix_ci_worker.Scheduler.Invariant.Defs.{IsJob}
use nix_ci_worker.Scheduler.Invariant.Propagate.{propagate_rule, propagate_closed}
use nix_ci_worker.Scheduler.Invariant.Stepping.{any-contains}

-- A chain of unassigned tasks that ends in a failed one.
pub data Chain (job : Job) (st : Text → TaskState) : Text → Type 0 where
  ends : (t : Text) → is_failed (st t) ≡ true → Chain job st t
  links :
      (t d : Text)
      → is_unassigned (st t) ≡ true
      → contains (job.deps t) d ≡ true
      → Chain job st d
      → Chain job st t

-- What the passes keep: a state is as it was, or an unassigned task with a chain has failed.
abbrev Sound : Job → (Text → TaskState) → (Text → TaskState) → Type 0
Sound job st st' =
    (t : Text)
    → (st' t ≡ st t) ⊎ ((is_failed (st' t) ≡ true) × (is_unassigned (st t) ≡ true) × Chain job st t)

any_member :
    (p : Text → Bool) (xs : List Text)
    → any p xs ≡ true
    → (x : Text) × (contains xs x ≡ true) × (p x ≡ true)
unfolding contains
any_member p [] h = elim (false≢true h) [ ]
any_member p (y ∷ ys) h = elim (Bool-cases (p y)) [
  | inl e ↦ (y, ground (arith, text_eq_self y), e)
  | inr e ↦ let (x, k, l) = any_member p ys (rw e at h) in (x, ground arith, l)
]

Chain-of :
    (job : Job) (st st' : Text → TaskState)
    → Sound job st st'
    → (t : Text) → is_failed (st' t) ≡ true
    → Chain job st t
Chain-of job st st' s t h = elim (s t) [ inl e ↦ ends t (rw e at h) | inr c ↦ c.2 ]

Sound-fail :
    (job : Job) (st st' : Text → TaskState) (t : Text)
    → doomed job st' t ≡ true
    → Sound job st st'
    → Sound job st (update st' t failed)
unfolding doomed
Sound-fail job st st' t h s u = elim (Bool-cases (text_eq t u)) [
  | inr e ↦ rw e (s u)
  | inl e ↦
      let (d, dep, bad) = any_member (λ x. is_failed (st' x)) (job.deps t) (ground arith) in
      let was : is_unassigned (st t) ≡ true = elim (s t) [ inl k ↦ ground arith | inr c ↦ c.1 ] in
      rw e (
        inr (
          subst (λ x. (is_failed failed ≡ true) × (is_unassigned (st x) ≡ true) × Chain job st x)
            ((text_eq_iff t u).0 e) (refl, was, links t d was dep (Chain-of job st st' s d bad))))
]

propagate-Sound :
    (job : Job) (fuel : ℕ) (st : Text → TaskState) → Sound job st (propagate job fuel st)
propagate-Sound job fuel st =
    propagate_rule job (Sound job st) (λ st' t h s. Sound-fail job st st' t h s) fuel st
      (λ t. inl refl)

-- A state that has nothing left to fail has failed every task with a chain.
reaches :
    (job : Job) (st st' : Text → TaskState)
    → IsJob job
    → Sound job st st'
    → All (λ t. doomed job st' t ≡ false) job.tasks
    → (t : Text) → contains job.tasks t ≡ true
    → Chain job st t
    → is_failed (st' t) ≡ true
unfolding doomed
reaches job st st' j s closed t known (ends _ h) = elim (s t) [ inl e ↦ rw e h | inr c ↦ c.0 ]
reaches job st st' j s closed t known (links _ d was dep c) = elim (s t) [
  | inr k ↦ k.0
  | inl e ↦
      let bad = reaches job st st' j s closed d (j.closed t d known dep) c in
      absurd (
        ground (
          arith,
          All_contains (λ x. doomed job st' x ≡ false) job.tasks t closed known,
          any-contains (λ x. is_failed (st' x)) (job.deps t) d dep,
        ))
]

-- Exactly the tasks with a chain have failed after the passes.
pub propagate_exact :
    (job : Job) (st : Text → TaskState) (t : Text)
    → IsJob job
    → contains job.tasks t ≡ true
    → (is_failed (propagate job (suc (length job.tasks)) st t) ≡ true → Chain job st t)
      × (Chain job st t → is_failed (propagate job (suc (length job.tasks)) st t) ≡ true)
propagate_exact job st t j known =
    let sound = propagate-Sound job (suc (length job.tasks)) st in
    let closed =
      propagate_closed job j.unique (suc (length job.tasks)) st
        (omega (arith, count-le-length (λ x. is_unassigned (st x)) job.tasks)) in
    (Chain-of job st _ sound t, λ c. reaches job st _ j sound closed t known c)
