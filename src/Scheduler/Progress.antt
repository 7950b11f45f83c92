-- ===== src/Scheduler/Progress.antt =====
-- A turn never leaves the assigner waiting for nothing: either it returns or an assignment is in
-- flight.
use nix_ci_worker.Base.{
  ℕ, zero, suc, ◌<◌, ◌≡◌, ◌≢◌, ◌⊎◌, ◌∙◌, refl, ap, Text, List, [], ◌∷◌, none, some, Bool, true,
  false, not, ◌&&◌, contains, any, arith, Bool-cases, Option-cases, List-cases, inl, inr,
  text_eq_self, All, All_contains, count, count-le-length, all_failing, length,
}
use nix_ci_worker.Pool.Message.{no_message}
use nix_ci_worker.Scheduler.Job.{Job}
use nix_ci_worker.Scheduler.Loop.{
  is_unassigned, is_running, is_done, is_failed, Schedule, Reading, ready, doomed, gate, select,
  eligible, launch, assign,
}
use nix_ci_worker.Scheduler.Steps.{
  Phase, turning, waiting, returned, announce_finish, conclude, some_active, some_unassigned, turn,
  assign_each, propagated,
}
use nix_ci_worker.Scheduler.Invariant.Defs.{IsJob, Inv}
use nix_ci_worker.Scheduler.Invariant.Propagate.{propagate_closed}
use nix_ci_worker.Scheduler.Invariant.Failing.{propagated-Inv}
use nix_ci_worker.Scheduler.Invariant.Selecting.{select-none}
use nix_ci_worker.Scheduler.Invariant.Assigning.{assign_rule}
use nix_ci_worker.Scheduler.Invariant.Stepping.{any-contains}

-- Nothing can be assigned.
abbrev IsCalm : Job → Schedule → Type 0
IsCalm job s = (d : Text) → contains job.order d ≡ true → ready job s d ≡ false

-- An acyclic graph has a rank that falls along its edges.
pub record IsRanked (job : Job) (rank : Text → ℕ) : Type 0 where
  pub falls : (t d : Text) → contains (job.deps t) d ≡ true → rank d < rank t

assign-flights :
    (job : Job) (s : Schedule) (w : Reading) (r : ℕ)
    → s.flights ≢ []
    → (assign job s w r).flights ≢ []
unfolding launch
assign-flights job s w r h =
    assign_rule (λ t. t.flights ≢ []) job s w r (λ t g e. h (ground (arith, g.same)))
      (λ t m drv g free room early o k e. cc)

assign_each-flights :
    (job : Job) (w : ℕ → Reading) (rs : List ℕ) (s : Schedule)
    → s.flights ≢ []
    → (assign_each job w rs s).flights ≢ []
unfolding assign_each
assign_each-flights job w [] s h = h
assign_each-flights job w (r ∷ rs) s h =
    assign_each-flights job w rs (assign job s (w r) r) (assign-flights job s (w r) r h)

ready-state :
    (job : Job) (s t : Schedule) (d : Text) → t.state ≡ s.state → ready job t d ≡ ready job s d
unfolding ready
ready-state job s t d e = rw e

assign-calm :
    (job : Job) (s : Schedule) (w : Reading) (r : ℕ)
    → IsCalm job s
    → (assign job s w r).state ≡ s.state
unfolding eligible
assign-calm job s w r calm =
    assign_rule (λ t. t.state ≡ s.state) job s w r (λ t g. ap (λ u. u.state) g.same)
      (λ t m drv g free room early o k.
        ground (arith, ready-state job s t drv (ap (λ u. u.state) g.same), calm drv o, k))

assign_each-calm :
    (job : Job) (w : ℕ → Reading) (rs : List ℕ) (s : Schedule)
    → IsCalm job s
    → (assign_each job w rs s).state ≡ s.state
unfolding assign_each
assign_each-calm job w [] s calm = refl
assign_each-calm job w (r ∷ rs) s calm =
    let same = assign-calm job s (w r) r calm in
    assign_each-calm job w rs (assign job s (w r) r)
      (λ d o. ready-state job s (assign job s (w r) r) d same ∙ calm d o)
    ∙ same

-- In a calm state whose failures have spread, with nothing running, no task is unassigned.
calm_settled :
    (job : Job) (rank : Text → ℕ) (s : Schedule)
    → IsJob job
    → IsRanked job rank
    → IsCalm job s
    → All (λ t. doomed job s.state t ≡ false) job.tasks
    → ((t : Text) → is_running (s.state t) ≡ false)
    → (n : ℕ) (t : Text) → rank t < n
    → contains job.tasks t ≡ true
    → is_unassigned (s.state t) ≡ false
unfolding ready doomed
calm_settled job rank s j k calm spread still zero t lt known = absurd (omega arith)
calm_settled job rank s j k calm spread still (suc n) t lt known =
    elim (Bool-cases (is_unassigned (s.state t))) [
      | inr e ↦ e
      | inl e ↦
          let (d, dep, open_dep) =
            all_failing (λ x. is_done (s.state x)) (job.deps t)
              (ground (arith, calm t, j.ordered t)) in
          let waits =
            calm_settled job rank s j k calm spread still n d (omega (arith, k.falls t d dep))
              (j.closed t d known dep) in
          ground (
            arith,
            All_contains (λ x. doomed job s.state x ≡ false) job.tasks t spread known,
            any-contains (λ x. is_failed (s.state x)) (job.deps t) d dep,
            still d,
          )
    ]

-- Nothing in flight: nothing runs.
grounded_still :
    (job : Job) (s : Schedule)
    → Inv job s
    → s.flights ≡ []
    → (t : Text) → is_running (s.state t) ≡ false
unfolding count
grounded_still job s v e t = ground (arith, v.once t)

-- With nothing in flight the coordinator itself may be given work.
gate_coordinator :
    (job : Job) (s : Schedule) (w : Reading)
    → Inv job s
    → s.flights ≡ []
    → gate job s w 0 ≡ (s, some (record no_message { cores = job.cpus }))
unfolding gate count
gate_coordinator job s w v e = ground (arith, v.busy 0, v.counted 0, v.steady)

assign_coordinator :
    (job : Job) (s : Schedule) (w : Reading)
    → Inv job s
    → s.flights ≡ []
    → IsCalm job s ⊎ ((assign job s w 0).flights ≢ [])
unfolding assign launch eligible
assign_coordinator job s w v e =
    let m = record no_message { cores = job.cpus } in
    let open_gate = gate_coordinator job s w v e in
    elim (Option-cases (select job s w 0 m job.order none)) [
      | inl k ↦
          let (_, idle) = select-none job s w 0 m job.order none k in
          inl (λ d o.
            ground (arith, All_contains (λ x. eligible job s 0 m x ≡ false) job.order d idle o))
      | inr (c, k) ↦ inr (λ h. ground (arith, open_gate, k))
    ]

-- After the head of the loop either an assignment is in flight or every task is settled.
abbrev IsSettled : Job → Schedule → Type 0
IsSettled job s =
    (t : Text)
    → contains job.tasks t ≡ true
    → (is_unassigned (s.state t) ≡ false) × (is_running (s.state t) ≡ false)

round_progress :
    (job : Job) (rank : Text → ℕ) (w : ℕ → Reading) (s : Schedule)
    → IsJob job
    → IsRanked job rank
    → Inv job s
    → All (λ t. doomed job s.state t ≡ false) job.tasks
    → ((assign_each job w (0 ∷ 1 ∷ 2 ∷ 3 ∷ []) s).flights ≢ [])
      ⊎ IsSettled job (assign_each job w (0 ∷ 1 ∷ 2 ∷ 3 ∷ []) s)
unfolding assign_each
round_progress job rank w s j k v spread = elim (List-cases s.flights) [
  | inr (f, rest, e) ↦ inl (assign_each-flights job w (0 ∷ 1 ∷ 2 ∷ 3 ∷ []) s (λ h. cc))
  | inl e ↦ elim (assign_coordinator job s (w 0) v e) [
    | inr busy ↦ inl (assign_each-flights job w (1 ∷ 2 ∷ 3 ∷ []) (assign job s (w 0) 0) busy)
    | inl calm ↦
        let same = assign_each-calm job w (0 ∷ 1 ∷ 2 ∷ 3 ∷ []) s calm in
        let still = grounded_still job s v e in
        inr (λ t known. (
          ap (λ st. is_unassigned (st t)) same
              ∙ calm_settled job rank s j k calm spread still (suc (rank t)) t (omega arith) known,
          ap (λ st. is_running (st t)) same ∙ still t,
        ))
  ]
]

-- What a turn ends in: a return, or a wait with an assignment in flight.
abbrev pub IsBusy : Phase → Type 0
IsBusy (turning s) = ⊥
IsBusy (waiting s) = s.flights ≢ []
IsBusy (returned e s) = Unit

any-false :
    (p : Text → Bool) (xs : List Text)
    → ((x : Text) → contains xs x ≡ true → p x ≡ false)
    → any p xs ≡ false
unfolding contains
any-false p [] h = refl
any-false p (x ∷ xs) h =
    ground (arith, h x, text_eq_self x, any-false p xs (λ y k. h y (ground arith)))

conclude-IsBusy :
    (job : Job) (s : Schedule) → (s.flights ≢ []) ⊎ IsSettled job s → IsBusy (conclude job s)
unfolding conclude announce_finish
conclude-IsBusy job s (inl h) =
    elim (Bool-cases (not (some_active job s) && not (some_unassigned job s))) [
      | inl e ↦ rw e tt
      | inr e ↦ rw e (λ k. h (ground arith))
    ]
conclude-IsBusy job s (inr h) =
    let calm : some_unassigned job s ≡ false =
      any-false (λ t. is_unassigned (s.state t)) job.tasks (λ t k. (h t k).0) in
    let idle : some_active job s ≡ false =
      any-false (λ t. is_running (s.state t)) job.tasks (λ t k. (h t k).1) in
    rw (calm, idle) tt

-- No turn leaves the loop waiting while nothing is in flight.
pub turn-IsBusy :
    (job : Job) (rank : Text → ℕ) (w : ℕ → Reading) (s : Schedule)
    → IsJob job
    → IsRanked job rank
    → Inv job s
    → IsBusy (turn job w s)
unfolding turn propagated
turn-IsBusy job rank w s j k v = conclude-IsBusy job _ (
    round_progress job rank w (propagated job s) j k (propagated-Inv job s j v) (
      propagate_closed job j.unique (suc (length job.tasks)) s.state
        (omega (arith, count-le-length (λ t. is_unassigned (s.state t)) job.tasks))))
