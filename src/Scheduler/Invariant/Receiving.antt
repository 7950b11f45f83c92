-- ===== src/Scheduler/Invariant/Receiving.antt =====
-- The invariant is kept by the events that the loop receives.
use nix_ci_worker.Base.{
  ℕ, ◌+◌, ◌-◌, ◌<◌, ◌≡◌, refl, ◌∙◌, Text, some, Bool, true, false, not, contains, count, bit,
  update, ltb, ltb→lt, count-update, count-remove_at, count-set, arith, Bool-cases, inl, inr,
  text_eq, text_eq_iff, text_eq_self, All, All-zip, All-map, All-get, All-set, All-remove_at,
  All-count_zero, put, if◌then◌else◌, get_elem?, remove_at,
}
use nix_ci_worker.Scheduler.Job.{Job}
use nix_ci_worker.Scheduler.Loop.{
  TaskState, done, failed, unassigned, is_unassigned, is_running, is_done, Flight, Schedule,
}
use nix_ci_worker.Scheduler.Steps.{
  BuildResult, built, build_error, publication_error, freed, receive_release, landed,
  receive_result, build_failure,
}
use nix_ci_worker.Scheduler.Invariant.Defs.{
  IsJob, Inv, PhaseInv, FlightInv, is_started, attempts, builds_on, runs_on, runs_task,
}

module _ (job : Job) (s : Schedule) (i : ℕ) (f : Flight) (at : get_elem? s.flights i ≡ some f) where
  -- What is known of the assignment itself.
  pub flight_at : Inv job s → FlightInv job s.retry_local s.allocated s.sequences f
  flight_at v =
      All-get (FlightInv job s.retry_local s.allocated s.sequences) s.flights i f v.flying at

  -- An assignment that builds is the one that its runner is allocated to.
  unreleased_allocated : Inv job s → f.released ≡ false → s.allocated f.runner ≡ true
  unreleased_allocated v e =
      ground (arith, v.busy f.runner, count-remove_at (builds_on f.runner) s.flights i f at)

  -- `freed` frees the runner exactly when the assignment was still building.
  pub freed_lem :
      Inv job s
      → (r : ℕ)
      → freed s f r ≡ (if f.released then s.allocated r else put s.allocated f.runner false r)
  freed_lem v r = let h = flight_at v in ground (arith, h.newest, h.older)

  freed_old :
      Inv job s
      → (g : Flight) → FlightInv job s.retry_local s.allocated s.sequences g
      → FlightInv job s.retry_local (freed s f) s.sequences g
  freed_old v g h = record {
    in_pool = h.in_pool;
    known = h.known;
    fit = h.fit;
    remote_task = h.remote_task;
    newest = h.newest;
    older = λ e k. h.older e (ground (arith, freed_lem v g.runner));
    issued = h.issued;
  }

  freed_self : Inv job s → f.released ≡ false → freed s f f.runner ≡ false
  freed_self v e = let h = flight_at v in ground (arith, h.newest)

  pub receive_release-Inv : f.released ≡ false → Inv job s → Inv job (receive_release s i f)
  unfolding receive_release
  receive_release-Inv e v =
      let h = flight_at v in
      let f' = record f { released = true } in
      let released : FlightInv job s.retry_local (freed s f) s.sequences f' = record {
        in_pool = h.in_pool;
        known = h.known;
        fit = h.fit;
        remote_task = h.remote_task;
        newest = λ k. cc;
        older = λ k l. ground (arith, freed_self v e);
        issued = h.issued;
      } in
      record {
        flying =
            All-set (FlightInv job s.retry_local (freed s f) s.sequences) s.flights i f' released
              (All-map s.flights (freed_old v) v.flying);
        counted = λ r. omega (arith, v.counted r, count-set (runs_on r) s.flights i f f' at);
        capped = v.capped;
        busy = λ r.
            ground (arith, v.busy r, freed_lem v r, count-set (builds_on r) s.flights i f f' at);
        once = λ u. omega (arith, v.once u, count-set (runs_task u) s.flights i f f' at);
        ordered = v.ordered;
        blamed = v.blamed;
        steady = v.steady;
        numbered = v.numbered;
      }

  pub task_running : Inv job s → is_running (s.state f.task) ≡ true
  task_running v = ground (
    arith,
    v.once f.task,
    text_eq_self f.task,
    count-remove_at (runs_task f.task) s.flights i f at,
  )

  -- Nobody else builds the task.
  others_differ : Inv job s → All (λ g. runs_task f.task g ≡ false) (remove_at s.flights i)
  others_differ v = All-count_zero (runs_task f.task) (remove_at s.flights i) (
      ground (
        arith,
        v.once f.task,
        task_running v,
        text_eq_self f.task,
        count-remove_at (runs_task f.task) s.flights i f at,
      ))

  landed-counted :
      Inv job s
      → (r : ℕ)
      → put s.pending f.runner (s.pending f.runner - 1) r
        ≡ count (runs_on r) (remove_at s.flights i)
  landed-counted v r = ground (arith, v.counted r, count-remove_at (runs_on r) s.flights i f at)

  landed-busy :
      Inv job s → (r : ℕ) → count (builds_on r) (remove_at s.flights i) ≡ bit (freed s f r)
  landed-busy v r = ground (
    arith,
    v.busy r,
    freed_lem v r,
    unreleased_allocated v,
    count-remove_at (builds_on r) s.flights i f at,
  )

  landed-once :
      (x : TaskState)
      → is_running x ≡ false
      → Inv job s
      → (u : Text)
      → count (runs_task u) (remove_at s.flights i) ≡ bit (is_running (update s.state f.task x u))
  landed-once x e v u = ground (
    arith,
    v.once u,
    task_running v,
    text_eq_iff f.task u,
    count-remove_at (runs_task u) s.flights i f at,
  )

  -- A task that is over and not done again leaves what its dependents wait for as it was.
  landed-ordered :
      (x : TaskState)
      → is_running x ≡ false
      → Inv job s
      → (t d : Text) → is_started (update s.state f.task x t) ≡ true
      → contains (job.deps t) d ≡ true
      → is_done (update s.state f.task x d) ≡ true
  landed-ordered x e v t d p q =
      ground (arith, text_eq_iff f.task t, text_eq_iff f.task d, v.ordered t d, task_running v)

  landed-flying :
      (retry : Text → Bool)
      → ((g : Flight) → text_eq g.task f.task ≡ false → retry g.task ≡ s.retry_local g.task)
      → Inv job s
      → All (FlightInv job retry (freed s f) s.sequences) (remove_at s.flights i)
  landed-flying retry same v =
      All-map (remove_at s.flights i)
        (λ (g : Flight)
            (h : FlightInv job s.retry_local s.allocated s.sequences g
              × (runs_task f.task g ≡ false)).
          let k = freed_old v g h.0 in
          record {
            in_pool = k.in_pool;
            known = k.known;
            fit = k.fit;
            remote_task = λ l. same g h.1 ∙ k.remote_task l;
            newest = k.newest;
            older = k.older;
            issued = k.issued;
          })
        (All-zip (FlightInv job s.retry_local s.allocated s.sequences)
          (λ g. runs_task f.task g ≡ false) (remove_at s.flights i)
          (All-remove_at (FlightInv job s.retry_local s.allocated s.sequences) s.flights i v.flying)
          (others_differ v))

  landed-attempts :
      IsJob job
      → (x : TaskState) → Inv job s
      → attempts job (update s.state f.task x) s.retry_local + 1
        ≡ attempts job s.state s.retry_local + bit (not (is_unassigned x))
  landed-attempts j x v = ground (
    arith,
    task_running v,
    count-update (λ y. not (is_unassigned y)) s.state f.task x job.tasks j.unique
        (flight_at v).known,
  )

  built-Inv : IsJob job → Inv job s → PhaseInv job (receive_result job s i f built)
  unfolding receive_result
  built-Inv j v = record {
    flying = landed-flying s.retry_local (λ g e. refl) v;
    counted = landed-counted v;
    capped = λ r. ground (arith, v.capped r, v.capped f.runner);
    busy = landed-busy v;
    once = landed-once done refl v;
    ordered = landed-ordered done refl v;
    blamed = λ u p. ground (arith, v.blamed u);
    steady = v.steady;
    numbered = λ r. omega (arith, v.numbered r, landed-attempts j done v);
  }

  coordinator_error-Inv :
      IsJob job
      → Inv job s
      → Inv job (record (landed s i f) {
        state = update s.state f.task failed;
        failure = some build_failure;
      })
  unfolding landed
  coordinator_error-Inv j v = record {
    flying = landed-flying s.retry_local (λ g e. refl) v;
    counted = landed-counted v;
    capped = λ r. ground (arith, v.capped r, v.capped f.runner);
    busy = landed-busy v;
    once = landed-once failed refl v;
    ordered = landed-ordered failed refl v;
    blamed = λ u p. refl;
    steady = v.steady;
    numbered = λ r. omega (arith, v.numbered r, landed-attempts j failed v);
  }

  retry-Inv :
      IsJob job
      → Inv job s
      → 0 < f.runner
      → Inv job (record (landed s i f) {
        retired = put s.retired f.runner true;
        retry_local = update s.retry_local f.task true;
        state = update s.state f.task unassigned;
      })
  unfolding landed
  retry-Inv j v lt = record {
    flying =
        landed-flying (update s.retry_local f.task true)
          (λ g e. ground (arith, text_eq_iff f.task g.task, text_eq_iff g.task f.task)) v;
    counted = landed-counted v;
    capped = λ r. ground (arith, v.capped r, v.capped f.runner);
    busy = landed-busy v;
    once = landed-once unassigned refl v;
    ordered = landed-ordered unassigned refl v;
    blamed = λ u p. ground (arith, v.blamed u);
    steady = ground (arith, v.steady);
    numbered = λ r. ground (
      arith,
      v.numbered r,
      landed-attempts j unassigned v,
      (flight_at v).remote_task lt,
      count-update (λ b. b) s.retry_local f.task true job.tasks j.unique (flight_at v).known,
    );
  }

  pub receive_result-Inv :
      IsJob job
      → (result : BuildResult) → Inv job s
      → PhaseInv job (receive_result job s i f result)
  unfolding receive_result
  receive_result-Inv j built v = built-Inv j v
  receive_result-Inv j build_error v = elim (Bool-cases (ltb 0 f.runner)) [
    | inl e ↦ rw e (retry-Inv j v (ltb→lt 0 f.runner e))
    | inr e ↦ rw e (coordinator_error-Inv j v)
  ]
  receive_result-Inv j publication_error v = inr (inl refl)
