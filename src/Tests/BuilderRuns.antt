-- ===== src/Tests/BuilderRuns.antt =====
-- The loop of worker/builder.go on a first assignment.
use nix_ci_worker.Base.{
  ◌+◌, ◌<◌, ◌≡◌, ◌⊎◌, refl, subst, [], none, some, Bool, true, false, codes, text_eq,
}
use nix_ci_worker.Base.Int.{pos}
use nix_ci_worker.Pool.Message.{Task, Message, no_message, pool_fresh, sent_fresh}
use nix_ci_worker.Builder.{
  Timing, Builder, Readings, Outcome, goes_on, returns, is_idle, no_session, start, reread,
  told_to_stop, greet, check_lease, publish, leave, for_this, take, receive_assignment, turn, Reach,
  begins, later, turns,
}
use nix_ci_worker.Builder.Shown.{leaves_published}
use nix_ci_worker.Builder.Safe.{newer_assignments_only, goes_on_within_lease}

abbrev timing : Timing
timing = record { poll = 2; heartbeat = 60; lease = 300; startup = 600 }

abbrev task : Task
task = record {
  cores = pos 2;
  installable = codes "/a.drv^out";
  build_inputs = [];
  inputs = [];
  public_key = [];
  outputs = [];
}

abbrev reading : Readings
reading = record {
  now = 10;
  coordinator = some (record no_message { session = codes "s"; state = codes "running"; sent = 5 });
  assignment = some (record no_message {
    session = codes "s";
    instance_id = codes "i";
    sequence = 1;
    state = codes "build";
    task = some task;
  });
  writes = true;
}

abbrev first : Builder
first = start (pos 2) (codes "i") [] 0

abbrev builder_of : Outcome → Builder
builder_of (goes_on b) = b
builder_of (returns e b) = b

assigned : turn timing 1 reading first ≡ goes_on (builder_of (turn timing 1 reading first))
unfolding turn reread greet check_lease publish leave receive_assignment take for_this told_to_stop
    text_eq pool_fresh sent_fresh
assigned = refl

newer_assignments_only_example :
    ((builder_of (turn timing 1 reading first)).status.instance_id ≡ first.status.instance_id)
    × (no_session first ≡ false
        → (builder_of (turn timing 1 reading first)).status.session ≡ first.status.session)
    × ((((builder_of (turn timing 1 reading first)).running ≡ first.running)
          × ((builder_of (turn timing 1 reading first)).status.sequence ≡ first.status.sequence))
        ⊎ ((a : Message) × (reading.assignment ≡ some a)
            × (is_idle first ≡ true)
            × (first.status.sequence < a.sequence)
            × ((builder_of (turn timing 1 reading first)).status.sequence ≡ a.sequence)
            × ((builder_of (turn timing 1 reading first)).running ≡ a.task)
            × (a.session ≡ (builder_of (turn timing 1 reading first)).status.session)
            × (a.instance_id ≡ first.status.instance_id)
            × (a.state ≡ codes "build")))
newer_assignments_only_example =
    newer_assignments_only timing 1 reading first (builder_of (turn timing 1 reading first))
      assigned

has_session : no_session (builder_of (turn timing 1 reading first)) ≡ false
unfolding turn reread greet check_lease publish leave receive_assignment take for_this told_to_stop
    text_eq pool_fresh sent_fresh
has_session = refl

abbrev after : Builder
after = builder_of (turn timing 1 reading first)

goes_on_within_lease_example :
    (10 < after.started + 300)
    × (((m : Message) × (after.coordinator ≡ some m)
          × (pool_fresh after.coordinator 300 10 ≡ true)
          × (after.started ≡ m.sent))
        ⊎ ((pool_fresh after.coordinator 300 10 ≡ false) × (after.started ≡ first.started)))
goes_on_within_lease_example =
    goes_on_within_lease timing 1 reading first after assigned has_session

-- The coordinator has stopped before it assigned anything.
abbrev stopping : Readings
stopping = record reading {
  coordinator = some (record no_message { session = codes "s"; state = codes "stop"; sent = 5 });
}

abbrev leaves : Outcome → Bool
leaves (returns none b) = true
leaves (returns (some e) b) = false
leaves (goes_on b) = false

leaves_eq : (o : Outcome) → leaves o ≡ true → o ≡ returns none (builder_of o)
leaves_eq (returns none b) h = refl
leaves_eq (returns (some e) b) h = cc
leaves_eq (goes_on b) h = cc

left_at_once : leaves (turn timing 1 stopping first) ≡ true
unfolding turn reread greet check_lease publish leave receive_assignment take for_this told_to_stop
    text_eq pool_fresh sent_fresh
left_at_once = refl

leaving : Reach timing 1 first (returns none (builder_of (turn timing 1 stopping first)))
leaving =
    subst (Reach timing 1 first) (leaves_eq (turn timing 1 stopping first) left_at_once)
      (later begins (turns stopping first))

leaves_published_example :
    ((builder_of (turn timing 1 stopping first)).stopping ≡ true)
    × (is_idle (builder_of (turn timing 1 stopping first)) ≡ true)
    × (text_eq (builder_of (turn timing 1 stopping first)).status.state (codes "busy") ≡ false)
    × ((builder_of (turn timing 1 stopping first)).shown
        ≡ some (builder_of (turn timing 1 stopping first)).status)
leaves_published_example =
    leaves_published timing 1 (pos 2) (codes "i") [] 0 (builder_of (turn timing 1 stopping first))
      leaving
