-- ===== src/Builder/Safe.antt =====
-- What `servePoolBuilder` of worker/builder.go guarantees.
use nix_ci_worker.Base.{
  ℕ, ◌+◌, ◌<◌, ◌≡◌, ◌⊎◌, ◌∙◌, sym, ap, subst, arith, [], Option, none, some, Bool, true, false,
  codes, text_eq, inl, inr,
}
use nix_ci_worker.Pool.Message.{Task, Message, pool_fresh}
use nix_ci_worker.Builder.{
  Timing, Builder, Readings, goes_on, is_idle, no_session, reread, greet, check_lease, publish,
  leave, receive_assignment, turn,
}
use nix_ci_worker.Builder.Turns.{
  Quiet, Quiet-trans, then_do-parts, reread-Quiet, greet-Quiet, check_lease-Quiet,
  check_lease-holds, check_lease-Leased, Leased, greet-started, reread-started, publish-Quiet,
  publish-keeps, leave-same, receive_assignment-cases,
}

-- The parts of a turn that goes on.
record Parts (timing : Timing) (runner : ℕ) (w : Readings) (b c : Builder) : Type 0 where
  greeted : Builder
  leased : Builder
  greets : greet timing runner w (reread timing runner w b) ≡ goes_on greeted
  leases : check_lease timing runner w greeted ≡ goes_on leased
  receives : receive_assignment w (publish timing runner w leased) ≡ goes_on c

turn-Parts :
    (timing : Timing) (runner : ℕ) (w : Readings) (b c : Builder)
    → turn timing runner w b ≡ goes_on c
    → Parts timing runner w b c
unfolding turn
turn-Parts timing runner w b c h =
    let (d, left, receives) = then_do-parts _ (receive_assignment w) c h in
    let (e, kept, leaves) = then_do-parts _ (λ x. leave (publish timing runner w x)) d left in
    let (f, greets, leases) = then_do-parts _ (check_lease timing runner w) e kept in
    record {
      greeted = f;
      leased = e;
      greets = greets;
      leases = leases;
      receives =
          ap (receive_assignment w) (leave-same (publish timing runner w e) d leaves) ∙ receives;
    }

before_assignment :
    (timing : Timing) (runner : ℕ) (w : Readings) (b c : Builder) (p : Parts timing runner w b c)
    → Quiet b (publish timing runner w p.leased)
before_assignment timing runner w b c p =
    Quiet-trans b (reread timing runner w b) _ (reread-Quiet timing runner w b) (
      Quiet-trans _ p.greeted _
        (greet-Quiet timing runner w (reread timing runner w b) p.greeted p.greets)
        (Quiet-trans _ p.leased _ (check_lease-Quiet timing runner w p.greeted p.leased p.leases)
          (publish-Quiet timing runner w p.leased)))

abbrev idles : Option Task → Bool
idles o = elim o [ none ↦ true | some t ↦ false ]

-- In a turn that goes on, a builder keeps its task and its sequence number, or it was idle and takes an assignment for its own instance and session, with a higher number and the state "build"; a session that it has is kept.
pub newer_assignments_only :
    (timing : Timing) (runner : ℕ) (w : Readings) (b c : Builder)
    → turn timing runner w b ≡ goes_on c
    → (c.status.instance_id ≡ b.status.instance_id)
      × (no_session b ≡ false → c.status.session ≡ b.status.session)
      × (((c.running ≡ b.running) × (c.status.sequence ≡ b.status.sequence))
          ⊎ ((a : Message) × (w.assignment ≡ some a)
              × (is_idle b ≡ true)
              × (b.status.sequence < a.sequence)
              × (c.status.sequence ≡ a.sequence)
              × (c.running ≡ a.task)
              × (a.session ≡ c.status.session)
              × (a.instance_id ≡ b.status.instance_id)
              × (a.state ≡ codes "build")))
newer_assignments_only timing runner w b c h =
    let p = turn-Parts timing runner w b c h in
    let q = before_assignment timing runner w b c p in
    elim (receive_assignment-cases w (publish timing runner w p.leased) c p.receives) [
      | inl e ↦
          let r = subst (Quiet b) e q in (r.instance_id, r.session, inl (r.running, r.sequence))
      | inr (a, found, t) ↦ (
        t.instance_id.1 ∙ q.instance_id,
        λ k. t.session.1 ∙ q.session k,
        inr (
          a,
          found,
          ap idles (sym q.running) ∙ t.idle,
          omega (arith, t.newer, q.sequence),
          t.sequence,
          t.task,
          t.session.0 ∙ sym t.session.1,
          t.instance_id.0 ∙ q.instance_id,
          t.build,
        ),
      )
    ]

within_lease :
    (timing : Timing) (runner : ℕ) (w : Readings) (a d c : Builder) (before : ℕ)
    → check_lease timing runner w a ≡ goes_on d
    → no_session c ≡ false
    → c.status.session ≡ d.status.session
    → c.started ≡ d.started
    → c.coordinator ≡ d.coordinator
    → a.started ≡ before
    → (w.now < c.started + timing.lease) × Leased timing runner w before c
within_lease timing runner w a d c before h k session started coordinator kept =
    let joined = ap (λ x. text_eq x []) (sym session) ∙ k in
    let same = ap (λ o. pool_fresh o timing.lease w.now) coordinator in
    (
      omega (arith, check_lease-holds timing runner w a d h joined, started),
      elim (check_lease-Leased timing runner w a d h joined) [
        | inl (m, is, good, lease) ↦ inl (m, coordinator ∙ is, same ∙ good, started ∙ lease)
        | inr (stale, lease) ↦ inr (same ∙ stale, started ∙ lease ∙ kept)
      ],
    )

-- A builder with a session that goes on after a turn is within its lease. The lease counts from when
-- the coordinator sent its message, if that is fresh, and else from where it did before the turn.
pub goes_on_within_lease :
    (timing : Timing) (runner : ℕ) (w : Readings) (b c : Builder)
    → turn timing runner w b ≡ goes_on c
    → no_session c ≡ false
    → (w.now < c.started + timing.lease)
      × (((m : Message) × (c.coordinator ≡ some m)
            × (pool_fresh c.coordinator timing.lease w.now ≡ true)
            × (c.started ≡ m.sent))
          ⊎ ((pool_fresh c.coordinator timing.lease w.now ≡ false) × (c.started ≡ b.started)))
goes_on_within_lease timing runner w b c h k =
    let p = turn-Parts timing runner w b c h in
    let (status, started, coordinator) = publish-keeps timing runner w p.leased in
    let kept =
      greet-started timing runner w (reread timing runner w b) p.greeted p.greets
      ∙ reread-started timing runner w b in
    elim (receive_assignment-cases w (publish timing runner w p.leased) c p.receives) [
      | inl e ↦
          within_lease timing runner w p.greeted p.leased c b.started p.leases k
            (ap (λ x. x.status.session) (sym e) ∙ ap (λ x. x.session) status)
            (ap (λ x. x.started) (sym e) ∙ started) (ap (λ x. x.coordinator) (sym e) ∙ coordinator)
            kept
      | inr (a, found, t) ↦
          within_lease timing runner w p.greeted p.leased c b.started p.leases k
            (t.session.1 ∙ ap (λ x. x.session) status) (t.started ∙ started)
            (t.coordinator ∙ coordinator) kept
    ]
