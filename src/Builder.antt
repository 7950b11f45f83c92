-- ===== src/Builder.antt =====
-- worker/builder.go: the loop of a helper, `servePoolBuilder`, one turn and one result at a time.
pub mod Turns
pub mod Safe
pub mod Shown
use nix_ci_worker.Base.{
  ℕ, ◌+◌, ◌/◌, ◌≡◌, ◌==◌, Text, String, List, [], ◌∷◌, Option, none, some, Bool, true, false, not,
  ◌&&◌, ◌||◌, if◌then◌else◌, ltb, leb, codes, text_eq, length, get_elem?,
}
use nix_ci_worker.Base.Int.{ℤ}
use nix_ci_worker.Pool.Message.{Task, Message, no_message, pool_fresh, runners_per_system}

pub record Timing : Type 0 where
  pub poll : ℕ
  pub heartbeat : ℕ
  pub lease : ℕ
  pub startup : ℕ

-- The variables of `servePoolBuilder`. `last_published` is `none` at Go's zero time; `running` has the
-- task that a goroutine builds; `shown` is the last status that a write has published.
pub record Builder : Type 0 where
  pub status : Message
  pub started : ℕ
  pub last_published : Option ℕ
  pub running : Option Task
  pub stopping : Bool
  pub coordinator : Option Message
  pub next_lease_read : ℕ
  pub shown : Option Message

-- What a turn reads: the clock, the coordinator's message and the assignment, which are `none` when
-- the read fails, and whether the write of the status succeeds.
pub record Readings : Type 0 where
  pub now : ℕ
  pub coordinator : Option Message
  pub assignment : Option Message
  pub writes : Bool

-- The loop goes on, or returns an error or `nil`.
pub data Outcome : Type 0 where
  goes_on : Builder → Outcome
  returns : Option String → Builder → Outcome

-- The next part of a turn, if the loop goes on.
infixl 5 ◌then_do◌
abbrev pub ◌then_do◌ : Outcome → (Builder → Outcome) → Outcome
goes_on b then_do f = f b
returns e b then_do f = returns e b

abbrev pub is_idle : Builder → Bool
is_idle b = elim b.running [ none ↦ true | some t ↦ false ]

abbrev pub no_session : Builder → Bool
no_session b = text_eq b.status.session []

abbrev pub start : ℤ → Text → List Text → ℕ → Builder
start cpus instance_id features now = record {
  status = record no_message {
    cores = cpus;
    instance_id = instance_id;
    state = codes "ready";
    features = features;
  };
  started = now;
  last_published = none;
  running = none;
  stopping = false;
  coordinator = none;
  next_lease_read = 0;
  shown = none;
}

abbrev pub larger : ℕ → ℕ → ℕ
larger a b = if ltb a b then b else a

-- The coordinator has announced its end, or the last assignment of this runner.
unfoldable pub told_to_stop : ℕ → Message → Message → Bool
unfolding text_eq
told_to_stop runner coordinator status =
    text_eq coordinator.state (codes "stop")
    || length coordinator.finish == runners_per_system
      && elim (get_elem? coordinator.finish runner) [
        | none ↦ false
        | some n ↦ leb n status.sequence
      ]

-- The first session is kept.
abbrev pub joined : Message → Builder → Builder
joined m b =
    if no_session b then record b { status = record b.status { session = m.session } } else b

-- !lastPublished.IsZero()
abbrev pub is_published : Builder → Bool
is_published b = elim b.last_published [ none ↦ false | some t ↦ true ]

-- `if stopping && running == nil && !lastPublished.IsZero()`
unfoldable pub leave : Builder → Outcome
leave b = if b.stopping && is_idle b && is_published b then returns none b else goes_on b

-- The assignment is for this builder, and a newer one.
unfoldable pub for_this : Message → Message → Bool
unfolding text_eq
for_this assignment status =
    text_eq assignment.session status.session
    && text_eq assignment.instance_id status.instance_id
    && ltb status.sequence assignment.sequence

abbrev pub busy : Message → ℕ → Message
busy status sequence = record status { sequence = sequence; state = codes "busy"; snapshot = [] }

unfoldable pub take : Message → Builder → Outcome
unfolding for_this text_eq
take assignment b = if not (for_this assignment b.status) then goes_on b else elim assignment.task [
  | none ↦ returns (some "invalid builder assignment") b
  | some task ↦
      if not (text_eq assignment.state (codes "build"))
      then returns (some "invalid builder assignment") b
      else goes_on (record b {
        status = busy b.status assignment.sequence;
        last_published = none;
        running = some task;
      })
]

unfoldable pub receive_assignment : Readings → Builder → Outcome
unfolding take text_eq
receive_assignment w b =
    if not (no_session b) && not b.stopping && is_idle b
    then elim w.assignment [ none ↦ goes_on b | some a ↦ take a b ]
    else goes_on b

-- A result of the goroutine: the snapshot of a build, or `none` for an error.
unfoldable pub receive_result : Option Text → Builder → Builder
receive_result result b = record b {
  running = none;
  last_published = none;
  status = elim result [
    | none ↦ record b.status { state = codes "failed"; snapshot = [] }
    | some s ↦ record b.status { state = codes "done"; snapshot = s }
  ];
}

module _ (timing : Timing) (runner : ℕ) where
  abbrev pub fresh : Builder → Readings → Bool
  fresh b w = pool_fresh b.coordinator timing.lease w.now

  -- The coordinator's message is read again.
  unfoldable pub reread : Readings → Builder → Builder
  unfolding pool_fresh
  reread w b =
      if is_idle b || not (ltb w.now b.next_lease_read) || not (fresh b w)
      then record b {
        coordinator = elim w.coordinator [ none ↦ b.coordinator | some m ↦ some m ];
        next_lease_read = w.now + larger timing.poll (timing.heartbeat / 2);
      }
      else b

  unfoldable pub greet : Readings → Builder → Outcome
  unfolding pool_fresh told_to_stop text_eq
  greet w b = elim b.coordinator [
    | none ↦ goes_on b
    | some m ↦
        let c = joined m b in
        if not (fresh b w)
        then goes_on b
        else if not (text_eq c.status.session m.session)
        then returns (some "coordinator session changed") c
        else goes_on (if told_to_stop runner m c.status then record c { stopping = true } else c)
  ]

  -- Only a coordinator's fresh message renews the lease.
  unfoldable pub check_lease : Readings → Builder → Outcome
  unfolding pool_fresh text_eq
  check_lease w b =
      if no_session b
      then (if leb (b.started + timing.startup) w.now
          then returns (some "coordinator did not publish its startup lease") b
          else goes_on b)
      else if not (fresh b w)
      then (if leb (b.started + timing.lease) w.now
          then returns (some "coordinator heartbeat lease expired") b
          else goes_on b)
      else goes_on
          (record b { started = elim b.coordinator [ none ↦ b.started | some m ↦ m.sent ] })

  abbrev pub due : Builder → ℕ → Bool
  due b now = elim b.last_published [ none ↦ true | some t ↦ leb (t + timing.heartbeat) now ]

  unfoldable pub publish : Readings → Builder → Builder
  unfolding text_eq
  publish w b =
      if not (no_session b) && due b w.now && w.writes
      then record b { last_published = some w.now; shown = some b.status }
      else b

  -- From the head of the loop to its `select`.
  unfoldable pub turn : Readings → Builder → Outcome
  unfolding reread greet check_lease publish leave receive_assignment
  turn w b =
      greet w (reread w b)
      then_do check_lease w
      then_do (λ c. leave (publish w c))
      then_do receive_assignment w

  -- Turns and results; a turn that waits is followed by another turn or by a result.
  pub data Step : Builder → Outcome → Type 0 where
    turns : (w : Readings) (b : Builder) → Step b (turn w b)
    results :
        (result : Option Text) (b : Builder)
        → is_idle b ≡ false
        → Step b (goes_on (receive_result result b))
    cancels : (b : Builder) → Step b (returns (some "context canceled") b)

  pub data Reach (first : Builder) : Outcome → Type 0 where
    begins : Reach first (goes_on first)
    later : {b : Builder} {o : Outcome} → Reach first (goes_on b) → Step b o → Reach first o
