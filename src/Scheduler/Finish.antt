-- ===== src/Scheduler/Finish.antt =====
-- Once the assigner has announced its last assignments, no helper is given another.
use nix_ci_worker.Base.{
  ℕ, ◌<◌, ◌≡◌, sym, subst, ap, ◌∙◌, not, ◌&&◌, Text, List, [], ◌∷◌, Option, none, some, true, arith,
  Bool-cases, inl, inr, ltb,
}
use nix_ci_worker.Pool.Message.{Message}
use nix_ci_worker.Scheduler.Job.{Job}
use nix_ci_worker.Scheduler.Loop.{Flight, Schedule, Reading, launch, assign}
use nix_ci_worker.Scheduler.Steps.{
  Phase, turning, waiting, returned, BuildResult, built, build_error, publication_error,
  announce_finish, conclude, assign_each, propagated, turn, receive_release, landed, settle,
  receive_result, Step, turns, ticks, releases, finishes, cancels_turn, cancels_wait, Reach, here,
  next, some_active, some_unassigned,
}
use nix_ci_worker.Scheduler.Invariant.Assigning.{assign_rule}

-- The announced counts are still the helpers' last sequence numbers.
abbrev pub IsLast : Schedule → Type 0
IsLast s = (q : ℕ → ℕ) → s.finish ≡ some q → (r : ℕ) → 0 < r → q r ≡ s.sequences r

abbrev pub PhaseIsLast : Phase → Type 0
PhaseIsLast (turning s) = IsLast s
PhaseIsLast (waiting s) = IsLast s
PhaseIsLast (returned e s) = IsLast s

launch-IsLast :
    (s : Schedule) (r : ℕ) (m : Message) (drv : Text)
    → (ltb 0 r ≡ true → s.finish ≡ none)
    → IsLast s
    → IsLast (launch s r m drv)
unfolding launch
launch-IsLast s r m drv early h q e k lt = ground (arith, h q e k lt, early)

assign-IsLast :
    (job : Job) (s : Schedule) (w : Reading) (r : ℕ) → IsLast s → IsLast (assign job s w r)
assign-IsLast job s w r h =
    assign_rule IsLast job s w r (λ t g. subst IsLast (sym g.same) h)
      (λ t m drv g free room early o k.
        launch-IsLast t r m drv (λ l. ap (λ u. u.finish) g.same ∙ early l)
          (subst IsLast (sym g.same) h))

assign_each-IsLast :
    (job : Job) (w : ℕ → Reading) (rs : List ℕ) (s : Schedule)
    → IsLast s
    → IsLast (assign_each job w rs s)
unfolding assign_each
assign_each-IsLast job w [] s h = h
assign_each-IsLast job w (r ∷ rs) s h =
    assign_each-IsLast job w rs (assign job s (w r) r) (assign-IsLast job s (w r) r h)

-- Storing the counts once.
announced :
    (o : Option (ℕ → ℕ)) (sequences : ℕ → ℕ)
    → ((q : ℕ → ℕ) → o ≡ some q → (r : ℕ) → 0 < r → q r ≡ sequences r)
    → (q : ℕ → ℕ) → elim o [ none ↦ some sequences | some f ↦ some f ] ≡ some q
    → (r : ℕ) → 0 < r
    → q r ≡ sequences r
announced none sequences h q e r lt = sym (ap (λ o. count_at o r) e)
  where
    count_at : Option (ℕ → ℕ) → ℕ → ℕ
    count_at o r = elim o [ none ↦ 0 | some f ↦ f r ]
announced (some f) sequences h q e r lt = h q e r lt

announce-IsLast : (job : Job) (s : Schedule) → IsLast s → IsLast (announce_finish job s)
unfolding announce_finish
announce-IsLast job s h = elim (Bool-cases (some_unassigned job s)) [
  | inl e ↦ rw e h
  | inr e ↦ rw e (announced s.finish s.sequences h)
]

conclude-IsLast : (job : Job) (s : Schedule) → IsLast s → PhaseIsLast (conclude job s)
unfolding conclude
conclude-IsLast job s h =
    elim (Bool-cases (not (some_active job s) && not (some_unassigned job s))) [
      | inl e ↦ rw e (announce-IsLast job s h)
      | inr e ↦ rw e (announce-IsLast job s h)
    ]

settle-IsLast :
    (job : Job) (s : Schedule) (f : Flight) (result : BuildResult)
    → IsLast s
    → PhaseIsLast (settle job s f result)
unfolding settle
settle-IsLast job s f built h = h
settle-IsLast job s f build_error h = elim (Bool-cases (ltb 0 f.runner)) [
  | inl e ↦ rw e h
  | inr e ↦ rw e h
]
settle-IsLast job s f publication_error h = h

Step-IsLast : (job : Job) {p q : Phase} → Step job p q → PhaseIsLast p → PhaseIsLast q
unfolding turn propagated receive_release receive_result landed
Step-IsLast job (turns w s) h =
    conclude-IsLast job _ (assign_each-IsLast job w (0 ∷ 1 ∷ 2 ∷ 3 ∷ []) (propagated job s) h)
Step-IsLast job (ticks s) h = h
Step-IsLast job (releases s i f at e) h = h
Step-IsLast job (finishes s i f result at) h = settle-IsLast job (landed s i f) f result h
Step-IsLast job (cancels_turn s) h = h
Step-IsLast job (cancels_wait s) h = h

pub Reach-IsLast : (job : Job) {p : Phase} → Reach job p → PhaseIsLast p
Reach-IsLast job here = λ q e r lt. cc
Reach-IsLast job (next r st) = Step-IsLast job st (Reach-IsLast job r)
