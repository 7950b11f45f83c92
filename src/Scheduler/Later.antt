-- ===== src/Scheduler/Later.antt =====
-- worker/scheduler.go: what a state of the assigner's loop keeps of an earlier one.
use nix_ci_worker.Base.{
  ℕ, zero, suc, ◌+◌, ◌%◌, ◌^◌, ◌≤◌, ◌<◌, ◌≡◌, ◌⊎◌, ◌∙◌, refl, sym, subst, ap, Text, List, [], ◌∷◌,
  some, true, false, not, ◌&&◌, arith, Bool-cases, inl, inr, ltb, lt→ltb, text_eq_self, All,
  get_elem?, set, remove_at, some_eq,
}
use nix_ci_worker.Pool.Message.{Message}
use nix_ci_worker.Scheduler.Job.{Job}
use nix_ci_worker.Scheduler.Loop.{Flight, Schedule, Reading, launch, assign}
use nix_ci_worker.Scheduler.Steps.{
  Phase, turning, waiting, returned, BuildResult, built, build_error, publication_error,
  announce_finish, conclude, assign_each, propagated, turn, receive_release, landed, settle,
  receive_result, Step, turns, ticks, releases, finishes, cancels_turn, cancels_wait, Reach, next,
  some_active, some_unassigned,
}
use nix_ci_worker.Scheduler.Invariant.Defs.{IsJob, Inv, PhaseInv}
use nix_ci_worker.Scheduler.Invariant.Failing.{propagated-Inv}
use nix_ci_worker.Scheduler.Invariant.Launching.{next_sequence}
use nix_ci_worker.Scheduler.Invariant.Assigning.{Gated, assign_rule, assign-Inv}
use nix_ci_worker.Scheduler.Invariant.Stepping.{Reach-PhaseInv}

abbrev pub schedule_of : Phase → Schedule
schedule_of (turning s) = s
schedule_of (waiting s) = s
schedule_of (returned e s) = s

-- The phases that a phase leads to.
pub data From (job : Job) (p : Phase) : Phase → Type 0 where
  stays : From job p p
  goes : {q r : Phase} → From job p q → Step job q r → From job p r

pub Reach-From : (job : Job) {p q : Phase} → Reach job p → From job p q → Reach job q
Reach-From job r stays = r
Reach-From job r (goes f st) = next (Reach-From job r f) st

-- On the way to a phase, a helper has failed a task.
pub data HelperFailed (job : Job) (t : Text) : Phase → Type 0 where
  fails :
      (s : Schedule) (i : ℕ) (f : Flight)
      → Reach job (waiting s)
      → get_elem? s.flights i ≡ some f
      → 0 < f.runner
      → f.task ≡ t
      → HelperFailed job t (receive_result job s i f build_error)
  since : {p q : Phase} → HelperFailed job t p → Step job p q → HelperFailed job t q

-- The assignment was in flight.
abbrev pub WasInFlight : Schedule → Flight → Type 0
WasInFlight s f =
    (j : ℕ) × (g : Flight) × (get_elem? s.flights j ≡ some g)
    × (g.runner ≡ f.runner)
    × (g.remote.sequence ≡ f.remote.sequence)
    × (g.task ≡ f.task)

pub record Since (s t : Schedule) : Type 0 where
  pub retried : (u : Text) → s.retry_local u ≡ true → t.retry_local u ≡ true
  pub announced : (q : ℕ → ℕ) → s.finish ≡ some q → t.finish ≡ some q
  pub grown : (r : ℕ) → s.sequences r ≤ t.sequences r
  pub newer :
      (i : ℕ) (f : Flight)
      → get_elem? t.flights i ≡ some f
      → WasInFlight s f ⊎ (s.sequences f.runner < f.remote.sequence)

Since-refl : (s : Schedule) → Since s s
Since-refl s = record {
  retried = λ u h. h;
  announced = λ q h. h;
  grown = λ r. omega arith;
  newer = λ i f at. inl (i, f, at, refl, refl, refl);
}

Since-trans : (s t u : Schedule) → Since s t → Since t u → Since s u
Since-trans s t u a b = record {
  retried = λ x h. b.retried x (a.retried x h);
  announced = λ q h. b.announced q (a.announced q h);
  grown = λ r. omega (arith, a.grown r, b.grown r);
  newer = λ i f at. elim (b.newer i f at) [
    | inr new ↦ inr (omega (arith, new, a.grown f.runner))
    | inl (j, g, old, runner, number, task) ↦ elim (a.newer j g old) [
      | inl (k, h, older, runner2, number2, task2) ↦
          inl (k, h, older, runner2 ∙ runner, number2 ∙ number, task2 ∙ task)
      | inr new ↦ inr (
          subst (λ n. s.sequences f.runner < n) number
            (subst (λ r. s.sequences r < g.remote.sequence) runner new))
    ]
  ];
}

-- A part that leaves the numbers as they are and adds no assignment.
Since-same :
    (s t : Schedule)
    → ((u : Text) → s.retry_local u ≡ true → t.retry_local u ≡ true)
    → t.finish ≡ s.finish
    → t.sequences ≡ s.sequences
    → ((i : ℕ) (f : Flight) → get_elem? t.flights i ≡ some f → WasInFlight s f)
    → Since s t
Since-same s t retried finish numbers old = record {
  retried = retried;
  announced = λ q h. finish ∙ h;
  grown = λ r. omega (arith, ap (λ (n : ℕ → ℕ). n r) numbers);
  newer = λ i f at. inl (old i f at);
}

still : (s : Schedule) (i : ℕ) (f : Flight) → get_elem? s.flights i ≡ some f → WasInFlight s f
still s i f at = (i, f, at, refl, refl, refl)

get_elem-set :
    (l : List Flight) (i j : ℕ) (x g : Flight)
    → get_elem? (set l i x) j ≡ some g
    → (x ≡ g) × (i ≡ j) ⊎ (get_elem? l j ≡ some g)
get_elem-set [] i j x g h = inr h
get_elem-set (y ∷ l) zero zero x g h = inl (some_eq x g h, refl)
get_elem-set (y ∷ l) zero (suc j) x g h = inr h
get_elem-set (y ∷ l) (suc i) zero x g h = inr h
get_elem-set (y ∷ l) (suc i) (suc j) x g h = elim (get_elem-set l i j x g h) [
  | inl (same, at) ↦ inl (same, ap suc at)
  | inr old ↦ inr old
]

get_elem-remove_at :
    (l : List Flight) (i j : ℕ) (g : Flight)
    → get_elem? (remove_at l i) j ≡ some g
    → (k : ℕ) × (get_elem? l k ≡ some g)
get_elem-remove_at [] i j g h = (j, h)
get_elem-remove_at (y ∷ l) zero j g h = (suc j, h)
get_elem-remove_at (y ∷ l) (suc i) zero g h = (0, h)
get_elem-remove_at (y ∷ l) (suc i) (suc j) g h =
    let (k, at) = get_elem-remove_at l i j g h in (suc k, at)

launched : ℕ → Message → Text → Flight
launched r m drv = record { runner = r; remote = m; task = drv; released = false }

launch-Since :
    (s : Schedule) (r : ℕ) (m : Message) (drv : Text)
    → (s.sequences r + 1) % 2 ^ 64 ≡ s.sequences r + 1
    → Since s (launch s r m drv)
unfolding launch launched
launch-Since s r m drv exact = record {
  retried = λ u h. h;
  announced = λ q h. h;
  grown = λ q. ground (arith, exact);
  newer = numbered;
}
  where
    first : Flight
    first = launched r (record m { sequence = (s.sequences r + 1) % 2 ^ 64 }) drv

    numbered :
        (i : ℕ) (f : Flight)
        → get_elem? (first ∷ s.flights) i ≡ some f
        → WasInFlight s f ⊎ (s.sequences f.runner < f.remote.sequence)
    numbered zero f at = inr (
        subst (λ (g : Flight). s.sequences g.runner < g.remote.sequence) (some_eq first f at)
          (omega (arith, exact)))
    numbered (suc i) f at = inl (still s i f at)

Gated-Since : (s t : Schedule) → Gated s t → Since s t
Gated-Since s t g =
    subst (Since s) (sym g.same) (Since-same s _ (λ u h. h) refl refl (λ i f at. still s i f at))

assign-Since :
    (job : Job) (s : Schedule) (w : Reading) (r : ℕ)
    → IsJob job
    → Inv job s
    → Since s (assign job s w r)
assign-Since job s w r j v =
    assign_rule (Since s) job s w r (λ t g. Gated-Since s t g)
      (λ t m drv g free room early o h. Since-trans s t _ (Gated-Since s t g) (
        launch-Since t r m drv (
          subst (λ (u : Schedule). (u.sequences r + 1) % 2 ^ 64 ≡ u.sequences r + 1) (sym g.same)
            (next_sequence job s r j v))))

assign_each-Since :
    (job : Job) (w : ℕ → Reading) (rs : List ℕ) (s : Schedule)
    → IsJob job
    → All (λ r. r < 4) rs
    → Inv job s
    → Since s (assign_each job w rs s)
unfolding assign_each
assign_each-Since job w [] s j lt v = Since-refl s
assign_each-Since job w (r ∷ rs) s j lt v =
    Since-trans s (assign job s (w r) r) _ (assign-Since job s (w r) r j v)
      (assign_each-Since job w rs (assign job s (w r) r) j lt.1 (assign-Inv job s (w r) r j lt.0 v))

announce_finish-Since : (job : Job) (s : Schedule) → Since s (announce_finish job s)
unfolding announce_finish
announce_finish-Since job s = elim (Bool-cases (some_unassigned job s)) [
  | inl e ↦ rw e (Since-refl s)
  | inr e ↦ rw e (record {
    retried = λ u h. h;
    announced = λ q h. rw h refl;
    grown = λ r. omega arith;
    newer = λ i f at. inl (still s i f at);
  })
]

stop-Since : (s t : Schedule) → Since s t → Since s (record t { stop = true })
stop-Since s t h = record {
  retried = h.retried;
  announced = h.announced;
  grown = h.grown;
  newer = h.newer;
}

conclude-Since : (job : Job) (s : Schedule) → Since s (schedule_of (conclude job s))
unfolding conclude
conclude-Since job s = elim (Bool-cases (not (some_active job s) && not (some_unassigned job s))) [
  | inl e ↦ rw e (stop-Since s (announce_finish job s) (announce_finish-Since job s))
  | inr e ↦ rw e (announce_finish-Since job s)
]

turn-Since :
    (job : Job) (w : ℕ → Reading) (s : Schedule)
    → IsJob job
    → Inv job s
    → Since s (schedule_of (turn job w s))
unfolding turn propagated
turn-Since job w s j v =
    Since-trans s (propagated job s) _
      (Since-same s (propagated job s) (λ u h. h) refl refl (λ i f at. still s i f at))
      (Since-trans (propagated job s) (assign_each job w (0 ∷ 1 ∷ 2 ∷ 3 ∷ []) (propagated job s)) _
        (assign_each-Since job w (0 ∷ 1 ∷ 2 ∷ 3 ∷ []) (propagated job s) j (omega arith)
          (propagated-Inv job s j v))
        (conclude-Since job _))

receive_release-Since :
    (s : Schedule) (i : ℕ) (f : Flight)
    → get_elem? s.flights i ≡ some f
    → Since s (receive_release s i f)
unfolding receive_release
receive_release-Since s i f at = Since-same s (receive_release s i f) (λ u h. h) refl refl old
  where
    old :
        (j : ℕ) (g : Flight)
        → get_elem? (set s.flights i (record f { released = true })) j ≡ some g
        → WasInFlight s g
    old j g h = elim (get_elem-set s.flights i j (record f { released = true }) g h) [
      | inr kept ↦ still s j g kept
      | inl (same, place) ↦ (
        i,
        f,
        at,
        ap (λ (x : Flight). x.runner) same,
        ap (λ (x : Flight). x.remote.sequence) same,
        ap (λ (x : Flight). x.task) same,
      )
    ]

landed-Since : (s : Schedule) (i : ℕ) (f : Flight) → Since s (landed s i f)
unfolding landed
landed-Since s i f =
    Since-same s (landed s i f) (λ u h. h) refl refl
      (λ j g h. let (k, at) = get_elem-remove_at s.flights i j g h in still s k g at)

settle-Since :
    (job : Job) (s : Schedule) (f : Flight) (result : BuildResult)
    → Since s (schedule_of (settle job s f result))
unfolding settle
settle-Since job s f built = Since-same s _ (λ u h. h) refl refl (λ i f at. still s i f at)
settle-Since job s f build_error = elim (Bool-cases (ltb 0 f.runner)) [
  | inl e ↦ rw e (Since-same s _ (λ u h. ground (arith, h)) refl refl (λ i f at. still s i f at))
  | inr e ↦ rw e (Since-same s _ (λ u h. h) refl refl (λ i f at. still s i f at))
]
settle-Since job s f publication_error = Since-refl s

Step-Since :
    (job : Job) {p q : Phase}
    → IsJob job
    → Step job p q
    → PhaseInv job p
    → Since (schedule_of p) (schedule_of q)
unfolding receive_result
Step-Since job j (turns w s) v = turn-Since job w s j v
Step-Since job j (ticks s) v = Since-refl s
Step-Since job j (releases s i f at e) v = receive_release-Since s i f at
Step-Since job j (finishes s i f result at) v =
    Since-trans s (landed s i f) _ (landed-Since s i f) (settle-Since job (landed s i f) f result)
Step-Since job j (cancels_turn s) v = Since-refl s
Step-Since job j (cancels_wait s) v = Since-refl s

pub From-Since :
    (job : Job) {p q : Phase}
    → IsJob job
    → Reach job p
    → From job p q
    → Since (schedule_of p) (schedule_of q)
From-Since job j r stays = Since-refl _
From-Since job j r (goes f st) =
    Since-trans _ _ _ (From-Since job j r f)
      (Step-Since job j st (Reach-PhaseInv job j (Reach-From job r f)))

HelperFailed-Reach : (job : Job) (t : Text) {p : Phase} → HelperFailed job t p → Reach job p
HelperFailed-Reach job t (fails s i f r at lt e) = next r (finishes s i f build_error at)
HelperFailed-Reach job t (since h st) = next (HelperFailed-Reach job t h) st

settle-retry_local :
    (job : Job) (s : Schedule) (f : Flight)
    → 0 < f.runner
    → (schedule_of (settle job s f build_error)).retry_local f.task ≡ true
unfolding settle
settle-retry_local job s f lt = rw (lt→ltb 0 f.runner lt) (ground (arith, text_eq_self f.task))

-- A task that a helper has failed is left to the coordinator.
pub HelperFailed-retry_local :
    (job : Job) (t : Text) {p : Phase}
    → IsJob job
    → HelperFailed job t p
    → (schedule_of p).retry_local t ≡ true
unfolding receive_result
HelperFailed-retry_local job t j (fails s i f r at lt e) =
    subst (λ u. (schedule_of (settle job (landed s i f) f build_error)).retry_local u ≡ true) e
      (settle-retry_local job (landed s i f) f lt)
HelperFailed-retry_local job t j (since h st) =
    (Step-Since job j st (Reach-PhaseInv job j (HelperFailed-Reach job t h))).retried t
      (HelperFailed-retry_local job t j h)
