-- ===== src/Scheduler/Invariant/Selecting.antt =====
-- What the choice of a task gives: an eligible task of the order, unless there is none.
use nix_ci_worker.Base.{
  ℕ, ◌==◌, ◌≡◌, subst, Text, List, [], ◌∷◌, true, false, not, ◌&&◌, contains, Option, none, some,
  if◌then◌else◌, arith, Bool-cases, inl, inr, text_eq_self, All,
}
use nix_ci_worker.Pool.Message.{Message}
use nix_ci_worker.Scheduler.Job.{Job}
use nix_ci_worker.Scheduler.Loop.{
  Schedule, Reading, Choice, eligible, warmth, delegatable, better, select,
}

module _ (job : Job) (s : Schedule) (w : Reading) (r : ℕ) (m : Message) where
  -- The choice after one more candidate.
  abbrev consider : Text → Option Choice → Option Choice
  consider drv best =
      let warm = warmth job s r drv in
      let local = r == 0 && not (delegatable job s w drv) in
      if eligible job s r m drv && better job best drv warm local
      then some (record { task = drv; warm = warm; local = local })
      else best

  consider_rule {ℓ} :
      (P : Text → Type ℓ) (drv : Text) (best : Option Choice)
      → (eligible job s r m drv ≡ true → P drv)
      → ((c : Choice) → best ≡ some c → P c.task)
      → (c : Choice) → consider drv best ≡ some c
      → P c.task
  consider_rule P drv best new old c e =
      elim (Bool-cases (
        eligible job s r m drv
        && better job best drv (warmth job s r drv) (r == 0 && not (delegatable job s w drv)))) [
          | inl h ↦ subst P (ground arith) (new (ground arith))
          | inr h ↦ old c (ground arith)
        ]

  pub select_rule {ℓ} :
      (P : Text → Type ℓ) (ds : List Text) (best : Option Choice)
      → ((d : Text) → contains ds d ≡ true → eligible job s r m d ≡ true → P d)
      → ((c : Choice) → best ≡ some c → P c.task)
      → (c : Choice) → select job s w r m ds best ≡ some c
      → P c.task
  unfolding select contains
  select_rule P [] best new old c e = old c e
  select_rule P (d ∷ ds) best new old c e =
      select_rule P ds (consider d best) (λ x k. new x (ground arith))
        (consider_rule P d best (new d (ground (arith, text_eq_self d))) old) c e

  -- No choice means that nothing is eligible.
  pub select-none :
      (ds : List Text) (best : Option Choice)
      → select job s w r m ds best ≡ none
      → (best ≡ none) × All (λ d. eligible job s r m d ≡ false) ds
  unfolding select better
  select-none [] best e = (e, tt)
  select-none (d ∷ ds) best e =
      let (last, rest) = select-none ds (consider d best) e in (ground arith, (ground arith, rest))
