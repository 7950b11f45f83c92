-- ===== src/Builder/Turns.antt =====
-- What each part of a turn keeps.
use nix_ci_worker.Base.{
  ℕ, ◌+◌, ◌<◌, ◌≡◌, ◌⊎◌, ◌∙◌, refl, sym, ap, subst, arith, String, [], Option, none, some, true,
  false, false≢true, not, ◌&&◌, ◌||◌, if◌then◌else◌, ltb, leb, codes, text_eq, text_eq_iff,
  Bool-cases, Option-cases, inl, inr,
}
use nix_ci_worker.Pool.Message.{Task, Message, pool_fresh, sent_fresh}
use nix_ci_worker.Builder.{
  Timing, Builder, Readings, Outcome, goes_on, returns, ◌then_do◌, is_idle, no_session, fresh,
  reread, joined, told_to_stop, greet, check_lease, due, publish, leave, for_this, busy, take,
  receive_assignment,
}

-- A part of a turn that starts no task.
pub record Quiet (b c : Builder) : Type 0 where
  pub running : c.running ≡ b.running
  pub sequence : c.status.sequence ≡ b.status.sequence
  pub instance_id : c.status.instance_id ≡ b.status.instance_id
  pub session : no_session b ≡ false → c.status.session ≡ b.status.session

Quiet-self : (b : Builder) → Quiet b b
Quiet-self b = record { running = refl; sequence = refl; instance_id = refl; session = λ h. refl }

pub Quiet-trans : (a b c : Builder) → Quiet a b → Quiet b c → Quiet a c
Quiet-trans a b c q r = record {
  running = r.running ∙ q.running;
  sequence = r.sequence ∙ q.sequence;
  instance_id = r.instance_id ∙ q.instance_id;
  session = λ h. r.session (ap (λ s. text_eq s []) (q.session h) ∙ h) ∙ q.session h;
}

pub then_do-parts :
    (o : Outcome) (f : Builder → Outcome) (c : Builder)
    → (o then_do f) ≡ goes_on c
    → (b : Builder) × (o ≡ goes_on b) × (f b ≡ goes_on c)
then_do-parts (goes_on b) f c h = (b, refl, h)
then_do-parts (returns e b) f c h = cc

goes_eq : (b c : Builder) → goes_on b ≡ goes_on c → b ≡ c
goes_eq b c h = cc

-- A part that leaves the builder as it is.
same : (b c : Builder) → goes_on b ≡ goes_on c → Quiet b c
same b c h = subst (Quiet b) (goes_eq b c h) (Quiet-self b)

no_return : (e : Option String) (b c : Builder) → returns e b ≡ goes_on c → ⊥
no_return e b c h = cc

Quiet-to : (b d c : Builder) → Quiet b d → goes_on d ≡ goes_on c → Quiet b c
Quiet-to b d c q h = subst (Quiet b) (goes_eq d c h) q

joined-Quiet : (m : Message) (b : Builder) → Quiet b (joined m b)
joined-Quiet m b = elim (Bool-cases (no_session b)) [
  | inl e ↦
      rw (e, joined, if◌then◌else◌)
        (record {
          running = refl;
          sequence = refl;
          instance_id = refl;
          session = λ h. absurd (ground (arith, e, h));
        })
  | inr e ↦ rw (e, joined, if◌then◌else◌) (Quiet-self b)
]

module _ (timing : Timing) (runner : ℕ) (w : Readings) where
  pub reread-Quiet : (b : Builder) → Quiet b (reread timing runner w b)
  unfolding reread
  reread-Quiet b =
      elim (Bool-cases
        (is_idle b || not (ltb w.now b.next_lease_read) || not (fresh timing runner b w))) [
          | inl e ↦
              rw (e, reread, if◌then◌else◌)
                (record {
                  running = refl;
                  sequence = refl;
                  instance_id = refl;
                  session = λ h. refl;
                })
          | inr e ↦ rw (e, reread, if◌then◌else◌) (Quiet-self b)
        ]

  pub greet-Quiet : (b c : Builder) → greet timing runner w b ≡ goes_on c → Quiet b c
  unfolding greet
  greet-Quiet b c h = elim (Option-cases b.coordinator) [
    | inl e ↦ same b c (rw (e, greet) at h)
    | inr (m, e) ↦ elim (Bool-cases (fresh timing runner b w)) [
      | inr f ↦ same b c (rw (e, f, greet, if◌then◌else◌) at h)
      | inl f ↦ elim (Bool-cases (text_eq (joined m b).status.session m.session)) [
        | inr g ↦ absurd (no_return _ _ c (rw (e, f, g, greet, if◌then◌else◌) at h))
        | inl g ↦ elim (Bool-cases (told_to_stop runner m (joined m b).status)) [
          | inl k ↦
              let q = joined-Quiet m b in
              Quiet-to b (record (joined m b) { stopping = true }) c
                (record {
                  running = q.running;
                  sequence = q.sequence;
                  instance_id = q.instance_id;
                  session = q.session;
                })
                (rw (e, f, g, k, greet, if◌then◌else◌) at h)
          | inr k ↦
              Quiet-to b (joined m b) c (joined-Quiet m b)
                (rw (e, f, g, k, greet, if◌then◌else◌) at h)
        ]
      ]
    ]
  ]

  pub check_lease-Quiet : (b c : Builder) → check_lease timing runner w b ≡ goes_on c → Quiet b c
  unfolding check_lease
  check_lease-Quiet b c h = elim (Bool-cases (no_session b)) [
    | inl e ↦ elim (Bool-cases (leb (b.started + timing.startup) w.now)) [
      | inl f ↦ absurd (ground (arith, h, e, f))
      | inr f ↦ same b c (rw (e, f, check_lease, if◌then◌else◌) at h)
    ]
    | inr e ↦ elim (Bool-cases (fresh timing runner b w)) [
      | inr f ↦ elim (Bool-cases (leb (b.started + timing.lease) w.now)) [
        | inl g ↦ absurd (ground (arith, h, e, f, g))
        | inr g ↦ same b c (rw (e, f, g, check_lease, if◌then◌else◌) at h)
      ]
      | inl f ↦
          Quiet-to b _ c
            (record { running = refl; sequence = refl; instance_id = refl; session = λ k. refl })
            (rw (e, f, check_lease, if◌then◌else◌) at h)
    ]
  ]

  pub publish-Quiet : (b : Builder) → Quiet b (publish timing runner w b)
  unfolding publish
  publish-Quiet b =
      elim (Bool-cases (not (no_session b) && due timing runner b w.now && w.writes)) [
        | inl e ↦
            rw (e, publish, if◌then◌else◌)
              (record { running = refl; sequence = refl; instance_id = refl; session = λ h. refl })
        | inr e ↦ rw (e, publish, if◌then◌else◌) (Quiet-self b)
      ]

  pub publish-keeps :
      (b : Builder)
      → ((publish timing runner w b).status ≡ b.status)
        × ((publish timing runner w b).started ≡ b.started)
        × ((publish timing runner w b).coordinator ≡ b.coordinator)
  unfolding publish
  publish-keeps b =
      elim (Bool-cases (not (no_session b) && due timing runner b w.now && w.writes)) [
        | inl e ↦ rw (e, publish, if◌then◌else◌) (refl, refl, refl)
        | inr e ↦ rw (e, publish, if◌then◌else◌) (refl, refl, refl)
      ]

  abbrev renew : Builder → Builder
  renew b = record b { started = elim b.coordinator [ none ↦ b.started | some m ↦ m.sent ] }

  renewed :
      (b c : Builder)
      → renew b ≡ c
      → fresh timing runner b w ≡ true
      → w.now < c.started + timing.lease
  unfolding pool_fresh sent_fresh
  renewed b c q f = elim (Option-cases b.coordinator) [
    | inl e ↦ absurd (ground (arith, e, f))
    | inr (m, e) ↦ ground (arith, e, f, ap (λ x. x.started) q)
  ]

  pub reread-started : (b : Builder) → (reread timing runner w b).started ≡ b.started
  unfolding reread
  reread-started b =
      elim (Bool-cases
        (is_idle b || not (ltb w.now b.next_lease_read) || not (fresh timing runner b w))) [
          | inl e ↦ rw (e, reread, if◌then◌else◌) refl
          | inr e ↦ rw (e, reread, if◌then◌else◌) refl
        ]

  joined-started : (m : Message) (b : Builder) → (joined m b).started ≡ b.started
  joined-started m b = elim (Bool-cases (no_session b)) [
    | inl e ↦ rw (e, joined, if◌then◌else◌) refl
    | inr e ↦ rw (e, joined, if◌then◌else◌) refl
  ]

  pub greet-started : (b c : Builder) → greet timing runner w b ≡ goes_on c → c.started ≡ b.started
  unfolding greet
  greet-started b c h = elim (Option-cases b.coordinator) [
    | inl e ↦ ap (λ x. x.started) (sym (goes_eq b c (rw (e, greet) at h)))
    | inr (m, e) ↦ elim (Bool-cases (fresh timing runner b w)) [
      | inr f ↦ ap (λ x. x.started) (sym (goes_eq b c (rw (e, f, greet, if◌then◌else◌) at h)))
      | inl f ↦ elim (Bool-cases (text_eq (joined m b).status.session m.session)) [
        | inr g ↦ absurd (no_return _ _ c (rw (e, f, g, greet, if◌then◌else◌) at h))
        | inl g ↦ elim (Bool-cases (told_to_stop runner m (joined m b).status)) [
          | inl k ↦
              ap (λ x. x.started)
                (sym (
                  goes_eq (record (joined m b) { stopping = true }) c
                    (rw (e, f, g, k, greet, if◌then◌else◌) at h)))
              ∙ joined-started m b
          | inr k ↦
              ap (λ x. x.started)
                (sym (goes_eq (joined m b) c (rw (e, f, g, k, greet, if◌then◌else◌) at h)))
              ∙ joined-started m b
        ]
      ]
    ]
  ]

  -- The lease is that of the coordinator's message if it is fresh, and else the old one.
  abbrev pub Leased : ℕ → Builder → Type 0
  Leased before c =
      ((m : Message) × (c.coordinator ≡ some m)
        × (fresh timing runner c w ≡ true)
        × (c.started ≡ m.sent))
      ⊎ ((fresh timing runner c w ≡ false) × (c.started ≡ before))

  renew-Leased : (b : Builder) → fresh timing runner b w ≡ true → Leased b.started (renew b)
  unfolding pool_fresh
  renew-Leased b f = elim (Option-cases b.coordinator) [
    | inl e ↦ absurd (ground (arith, e, f))
    | inr (m, e) ↦ inl (m, e, f, ground (arith, e))
  ]

  pub check_lease-Leased :
      (b c : Builder)
      → check_lease timing runner w b ≡ goes_on c
      → no_session c ≡ false
      → Leased b.started c
  unfolding check_lease
  check_lease-Leased b c h k = elim (Bool-cases (no_session b)) [
    | inl e ↦ elim (Bool-cases (leb (b.started + timing.startup) w.now)) [
      | inl f ↦ absurd (no_return _ _ c (rw (e, f, check_lease, if◌then◌else◌) at h))
      | inr f ↦
          let q = goes_eq b c (rw (e, f, check_lease, if◌then◌else◌) at h) in
          absurd (false≢true (sym k ∙ ap no_session (sym q) ∙ e))
    ]
    | inr e ↦ elim (Bool-cases (fresh timing runner b w)) [
      | inr f ↦ elim (Bool-cases (leb (b.started + timing.lease) w.now)) [
        | inl g ↦ absurd (no_return _ _ c (rw (e, f, g, check_lease, if◌then◌else◌) at h))
        | inr g ↦
            subst (Leased b.started) (goes_eq b c (rw (e, f, g, check_lease, if◌then◌else◌) at h))
              (inr (f, refl))
      ]
      | inl f ↦
          subst (Leased b.started)
            (goes_eq (renew b) c (rw (e, f, check_lease, if◌then◌else◌) at h)) (renew-Leased b f)
    ]
  ]

  -- The lease holds of a builder that has a session.
  pub check_lease-holds :
      (b c : Builder)
      → check_lease timing runner w b ≡ goes_on c
      → no_session c ≡ false
      → w.now < c.started + timing.lease
  unfolding check_lease
  check_lease-holds b c h k = elim (Bool-cases (no_session b)) [
    | inl e ↦ elim (Bool-cases (leb (b.started + timing.startup) w.now)) [
      | inl f ↦ absurd (no_return _ _ c (rw (e, f, check_lease, if◌then◌else◌) at h))
      | inr f ↦
          let q = goes_eq b c (rw (e, f, check_lease, if◌then◌else◌) at h) in
          absurd (false≢true (sym k ∙ ap no_session (sym q) ∙ e))
    ]
    | inr e ↦ elim (Bool-cases (fresh timing runner b w)) [
      | inr f ↦ elim (Bool-cases (leb (b.started + timing.lease) w.now)) [
        | inl g ↦ absurd (no_return _ _ c (rw (e, f, g, check_lease, if◌then◌else◌) at h))
        | inr g ↦
            let q = goes_eq b c (rw (e, f, g, check_lease, if◌then◌else◌) at h) in
            ground (arith, g, ap (λ x. x.started) q)
      ]
      | inl f ↦ renewed b c (goes_eq _ c (rw (e, f, check_lease, if◌then◌else◌) at h)) f
    ]
  ]

pub leave-same : (b c : Builder) → leave b ≡ goes_on c → b ≡ c
unfolding leave
leave-same b c h = ground (arith, h)

-- The builder takes an assignment.
pub record Accepted (a : Message) (b c : Builder) : Type 0 where
  pub idle : is_idle b ≡ true
  pub going : b.stopping ≡ false
  pub newer : b.status.sequence < a.sequence
  pub session : (a.session ≡ b.status.session) × (c.status.session ≡ b.status.session)
  pub instance_id :
      (a.instance_id ≡ b.status.instance_id) × (c.status.instance_id ≡ b.status.instance_id)
  pub build : a.state ≡ codes "build"
  pub sequence : c.status.sequence ≡ a.sequence
  pub task : c.running ≡ a.task
  pub started : c.started ≡ b.started
  pub coordinator : c.coordinator ≡ b.coordinator

-- The builder with the task.
abbrev with_task : Message → Task → Builder → Builder
with_task a task b = record b {
  status = busy b.status a.sequence;
  last_published = none;
  running = some task;
}

taken :
    (a : Message) (task : Task) (b : Builder)
    → is_idle b ≡ true
    → b.stopping ≡ false
    → for_this a b.status ≡ true
    → a.task ≡ some task
    → text_eq a.state (codes "build") ≡ true
    → Accepted a b (with_task a task b)
unfolding for_this
taken a task b idle going mine found build = record {
  idle = idle;
  going = going;
  newer = ground (arith, mine);
  session = ((text_eq_iff a.session b.status.session).0 (ground (arith, mine)), refl);
  instance_id = ((text_eq_iff a.instance_id b.status.instance_id).0 (ground (arith, mine)), refl);
  build = (text_eq_iff a.state (codes "build")).0 build;
  sequence = refl;
  task = sym found;
  started = refl;
  coordinator = refl;
}

take-cases :
    (a : Message) (b c : Builder)
    → is_idle b ≡ true
    → b.stopping ≡ false
    → take a b ≡ goes_on c
    → (b ≡ c) ⊎ Accepted a b c
unfolding take
take-cases a b c idle going h = elim (Bool-cases (for_this a b.status)) [
  | inr e ↦ inl (goes_eq b c (rw (e, take, if◌then◌else◌) at h))
  | inl e ↦ elim (Option-cases a.task) [
    | inl f ↦ absurd (no_return _ _ c (rw (e, f, take, if◌then◌else◌) at h))
    | inr (task, f) ↦ elim (Bool-cases (text_eq a.state (codes "build"))) [
      | inr g ↦ absurd (no_return _ _ c (rw (e, f, g, take, if◌then◌else◌) at h))
      | inl g ↦ inr (
          subst (Accepted a b)
            (goes_eq (with_task a task b) c (rw (e, f, g, take, if◌then◌else◌) at h))
            (taken a task b idle going e f g))
    ]
  ]
]

pub receive_assignment-cases :
    (w : Readings) (b c : Builder)
    → receive_assignment w b ≡ goes_on c
    → (b ≡ c) ⊎ ((a : Message) × (w.assignment ≡ some a) × Accepted a b c)
unfolding receive_assignment
receive_assignment-cases w b c h =
    elim (Bool-cases (not (no_session b) && not b.stopping && is_idle b)) [
      | inr e ↦ inl (goes_eq b c (rw (e, receive_assignment, if◌then◌else◌) at h))
      | inl e ↦ elim (Option-cases w.assignment) [
        | inl f ↦ inl (goes_eq b c (rw (e, f, receive_assignment, if◌then◌else◌) at h))
        | inr (a, f) ↦
            elim (take-cases a b c (ground (arith, e)) (ground (arith, e))
              (rw (e, f, receive_assignment, if◌then◌else◌) at h)) [
                | inl same ↦ inl same
                | inr taken ↦ inr (a, f, taken)
              ]
      ]
    ]
