-- ===== src/Scheduler/Invariant/Assigning.antt =====
-- The invariant is kept by one round of the loop over the runners, and by all rounds.
use nix_ci_worker.Base.{
  ℕ, ◌<◌, ◌≡◌, ◌∙◌, sym, subst, Text, List, [], ◌∷◌, true, false, contains, Option, none, some,
  arith, Option-cases, inl, inr, ltb, All,
}
use nix_ci_worker.Pool.Message.{Message}
use nix_ci_worker.Scheduler.Job.{Job, suits}
use nix_ci_worker.Scheduler.Loop.{
  Schedule, Reading, eligible, ready, gate, gate_helper, select, launch, assign,
}
use nix_ci_worker.Scheduler.Steps.{assign_each}
use nix_ci_worker.Scheduler.Invariant.Defs.{IsJob, Inv}
use nix_ci_worker.Scheduler.Invariant.Launching.{launch-Inv}
use nix_ci_worker.Scheduler.Invariant.Selecting.{select_rule}

-- The head of the loop changes what the helpers' incarnations are and who is retired, no more, and
-- never retires the coordinator.
pub record Gated (s t : Schedule) : Type 0 where
  pub same : t ≡ record s { instances = t.instances; retired = t.retired }
  pub coordinator : t.retired 0 ≡ s.retired 0

gate_helper-Gated :
    (job : Job) (s : Schedule) (w : Reading) (r : ℕ) (o : Option Message)
    → 0 < r
    → Gated s (gate_helper job s w r o).0
unfolding gate_helper
gate_helper-Gated job s w r none h = ground arith
gate_helper-Gated job s w r (some m) h = ground arith

pub gate-Gated : (job : Job) (s : Schedule) (w : Reading) (r : ℕ) → Gated s (gate job s w r).0
unfolding gate
gate-Gated job s w r = ground (arith, gate_helper-Gated job s w r (w.status r))

pub gate_open :
    (job : Job) (s : Schedule) (w : Reading) (r : ℕ) (m : Message)
    → (gate job s w r).1 ≡ some m
    → (s.allocated r ≡ false) × (s.pending r < 2) × (ltb 0 r ≡ true → s.finish ≡ none)
unfolding gate
gate_open job s w r m h = (ground arith, ground arith, λ k. ground (arith, Option-cases s.finish))

pub Gated-Inv : (job : Job) (s t : Schedule) → Gated s t → Inv job s → Inv job t
Gated-Inv job s t g v = subst (Inv job) (sym g.same) (record {
  flying = v.flying;
  counted = v.counted;
  capped = v.capped;
  busy = v.busy;
  once = v.once;
  ordered = v.ordered;
  blamed = v.blamed;
  steady = ground (arith, g.coordinator, v.steady);
  numbered = v.numbered;
})

-- A round leaves the runner without work, or launches one eligible task on it.
pub assign_rule {ℓ} :
    (P : Schedule → Type ℓ) (job : Job) (s : Schedule) (w : Reading) (r : ℕ)
    → ((t : Schedule) → Gated s t → P t)
    → ((t : Schedule) (m : Message) (drv : Text)
        → Gated s t
        → s.allocated r ≡ false
        → s.pending r < 2
        → (ltb 0 r ≡ true → s.finish ≡ none)
        → contains job.order drv ≡ true
        → eligible job t r m drv ≡ true
        → P (launch t r m drv))
    → P (assign job s w r)
unfolding assign
assign_rule P job s w r idle busy =
    let g = gate-Gated job s w r in
    let t = (gate job s w r).0 in
    elim (Option-cases (gate job s w r).1) [
      | inl e ↦ rw (e, assign) (idle t g)
      | inr (m, e) ↦
          let (free, room, early) = gate_open job s w r m e in
          elim (Option-cases (select job t w r m job.order none)) [
            | inl k ↦ rw (e, k, assign) (idle t g)
            | inr (c, k) ↦
                rw (e, k, assign)
                  (select_rule job t w r m (λ drv. P (launch t r m drv)) job.order none
                    (λ d o h. busy t m d g free room early o h) (λ b h. cc) c k)
          ]
    ]

eligible_ready :
    (job : Job) (s : Schedule) (r : ℕ) (m : Message) (drv : Text)
    → eligible job s r m drv ≡ true
    → (ready job s drv ≡ true)
      × (ltb 0 r ≡ true → (s.retry_local drv ≡ false) × (suits job drv m.features ≡ true))
unfolding eligible
eligible_ready job s r m drv h = (ground arith, λ k. (ground arith, ground arith))

pub assign-Inv :
    (job : Job) (s : Schedule) (w : Reading) (r : ℕ)
    → IsJob job
    → r < 4
    → Inv job s
    → Inv job (assign job s w r)
assign-Inv job s w r j lt v =
    assign_rule (Inv job) job s w r (λ t g. Gated-Inv job s t g v)
      λ t m drv g free room early o h.
        let (can, fits) = eligible_ready job t r m drv h in
        launch-Inv job t r m drv j lt (ground (arith, g.same)) (ground (arith, g.same))
          (sym (j.ordered drv) ∙ o) can fits (Gated-Inv job s t g v)

pub assign_each-Inv :
    (job : Job) (w : ℕ → Reading) (rs : List ℕ) (s : Schedule)
    → IsJob job
    → All (λ r. r < 4) rs
    → Inv job s
    → Inv job (assign_each job w rs s)
unfolding assign_each
assign_each-Inv job w [] s j lt v = v
assign_each-Inv job w (r ∷ rs) s j lt v =
    assign_each-Inv job w rs (assign job s (w r) r) j lt.1 (assign-Inv job s (w r) r j lt.0 v)
