-- ===== src/Builder/Shown.antt =====
-- A builder leaves only when its last status is published.
use nix_ci_worker.Base.{
  ℕ, ◌+◌, ◌≡◌, refl, arith, Text, List, Option, none, some, true, false, not, ◌&&◌, ◌||◌,
  if◌then◌else◌, codes, text_eq, ltb, leb, Bool-cases, Option-cases, inl, inr,
}
use nix_ci_worker.Base.Int.{ℤ}
use nix_ci_worker.Pool.Message.{Message}
use nix_ci_worker.Builder.{
  Timing, Builder, Readings, Outcome, goes_on, returns, ◌then_do◌, is_idle, no_session, start,
  fresh, due, reread, joined, told_to_stop, greet, check_lease, publish, is_published, leave, take,
  for_this, receive_assignment, turn, receive_result, turns, results, cancels, Reach, begins, later,
}

-- What the last publication has shown, and what the state says.
pub record Shown (b : Builder) : Type 0 where
  pub current : (t : ℕ) → b.last_published ≡ some t → b.shown ≡ some b.status
  pub silent : no_session b ≡ true → b.last_published ≡ none
  pub working : text_eq b.status.state (codes "busy") ≡ not (is_idle b)

-- What a run returns `nil` with.
pub record Finished (b : Builder) : Type 0 where
  pub stopping : b.stopping ≡ true
  pub idle : is_idle b ≡ true
  pub shown : b.shown ≡ some b.status
  pub rested : text_eq b.status.state (codes "busy") ≡ false

abbrev After : Outcome → Type 0
After (goes_on b) = Shown b
After (returns none b) = Finished b
After (returns (some e) b) = Unit

then_do-After :
    (o : Outcome) (f : Builder → Outcome)
    → After o
    → ((b : Builder) → Shown b → After (f b))
    → After (o then_do f)
then_do-After (goes_on b) f s g = g b s
then_do-After (returns none b) f s g = s
then_do-After (returns (some e) b) f s g = tt

joined-Shown : (m : Message) (b : Builder) → Shown b → Shown (joined m b)
joined-Shown m b s = elim (Bool-cases (no_session b)) [
  | inl e ↦
      rw (e, joined, if◌then◌else◌)
        (record {
          current = λ t h. absurd (ground (arith, h, s.silent e));
          silent = λ h. s.silent e;
          working = s.working;
        })
  | inr e ↦ rw (e, joined, if◌then◌else◌) s
]

module _ (timing : Timing) (runner : ℕ) (w : Readings) where
  reread-Shown : (b : Builder) → Shown b → Shown (reread timing runner w b)
  unfolding reread
  reread-Shown b s =
      elim (Bool-cases
        (is_idle b || not (ltb w.now b.next_lease_read) || not (fresh timing runner b w))) [
          | inl e ↦
              rw (e, reread, if◌then◌else◌)
                (record { current = s.current; silent = s.silent; working = s.working })
          | inr e ↦ rw (e, reread, if◌then◌else◌) s
        ]

  greet-Shown : (b : Builder) → Shown b → After (greet timing runner w b)
  unfolding greet
  greet-Shown b s = elim (Option-cases b.coordinator) [
    | inl e ↦ rw (e, greet) s
    | inr (m, e) ↦ elim (Bool-cases (fresh timing runner b w)) [
      | inr f ↦ rw (e, f, greet, if◌then◌else◌) s
      | inl f ↦ elim (Bool-cases (text_eq (joined m b).status.session m.session)) [
        | inr g ↦ rw (e, f, g, greet, if◌then◌else◌) tt
        | inl g ↦
            let j = joined-Shown m b s in
            elim (Bool-cases (told_to_stop runner m (joined m b).status)) [
              | inl k ↦
                  rw (e, f, g, k, greet, if◌then◌else◌)
                    (record { current = j.current; silent = j.silent; working = j.working })
              | inr k ↦ rw (e, f, g, k, greet, if◌then◌else◌) j
            ]
      ]
    ]
  ]

  check_lease-Shown : (b : Builder) → Shown b → After (check_lease timing runner w b)
  unfolding check_lease
  check_lease-Shown b s = elim (Bool-cases (no_session b)) [
    | inl e ↦ elim (Bool-cases (leb (b.started + timing.startup) w.now)) [
      | inl f ↦ rw (e, f, check_lease, if◌then◌else◌) tt
      | inr f ↦ rw (e, f, check_lease, if◌then◌else◌) s
    ]
    | inr e ↦ elim (Bool-cases (fresh timing runner b w)) [
      | inr f ↦ elim (Bool-cases (leb (b.started + timing.lease) w.now)) [
        | inl g ↦ rw (e, f, g, check_lease, if◌then◌else◌) tt
        | inr g ↦ rw (e, f, g, check_lease, if◌then◌else◌) s
      ]
      | inl f ↦
          rw (e, f, check_lease, if◌then◌else◌)
            (record { current = s.current; silent = s.silent; working = s.working })
    ]
  ]

  publish-Shown : (b : Builder) → Shown b → Shown (publish timing runner w b)
  unfolding publish
  publish-Shown b s =
      elim (Bool-cases (not (no_session b) && due timing runner b w.now && w.writes)) [
        | inl e ↦
            rw (e, publish, if◌then◌else◌)
              (record {
                current = λ t h. refl;
                silent = λ h. absurd (ground (arith, e, h));
                working = s.working;
              })
        | inr e ↦ rw (e, publish, if◌then◌else◌) s
      ]

finished : (b : Builder) → Shown b → (b.stopping && is_idle b && is_published b) ≡ true → Finished b
finished b s e = elim (Option-cases b.last_published) [
  | inl f ↦ absurd (ground (arith, e, f))
  | inr (t, f) ↦ record {
    stopping = ground (arith, e);
    idle = ground (arith, e);
    shown = s.current t f;
    rested = ground (arith, e, s.working);
  }
]

leave-After : (b : Builder) → Shown b → After (leave b)
unfolding leave
leave-After b s = elim (Bool-cases (b.stopping && is_idle b && is_published b)) [
  | inl e ↦ rw (e, leave, if◌then◌else◌) (finished b s e)
  | inr e ↦ rw (e, leave, if◌then◌else◌) s
]

take-After : (a : Message) (b : Builder) → Shown b → After (take a b)
unfolding take text_eq
take-After a b s = elim (Bool-cases (for_this a b.status)) [
  | inr e ↦ rw (e, take, if◌then◌else◌) s
  | inl e ↦ elim (Option-cases a.task) [
    | inl f ↦ rw (e, f, take, if◌then◌else◌) tt
    | inr (task, f) ↦ elim (Bool-cases (text_eq a.state (codes "build"))) [
      | inr g ↦ rw (e, f, g, take, if◌then◌else◌) tt
      | inl g ↦
          rw (e, f, g, take, if◌then◌else◌)
            (record { current = λ t h. ground (arith, h); silent = λ h. refl; working = refl })
    ]
  ]
]

receive_assignment-After : (w : Readings) (b : Builder) → Shown b → After (receive_assignment w b)
unfolding receive_assignment
receive_assignment-After w b s =
    elim (Bool-cases (not (no_session b) && not b.stopping && is_idle b)) [
      | inr e ↦ rw (e, receive_assignment, if◌then◌else◌) s
      | inl e ↦ elim (Option-cases w.assignment) [
        | inl f ↦ rw (e, f, receive_assignment, if◌then◌else◌) s
        | inr (a, f) ↦ rw (e, f, receive_assignment, if◌then◌else◌) (take-After a b s)
      ]
    ]

turn-After :
    (timing : Timing) (runner : ℕ) (w : Readings) (b : Builder)
    → Shown b
    → After (turn timing runner w b)
unfolding turn
turn-After timing runner w b s =
    then_do-After _ (receive_assignment w)
      (then_do-After _ (λ c. leave (publish timing runner w c))
        (then_do-After (greet timing runner w (reread timing runner w b))
          (check_lease timing runner w)
          (greet-Shown timing runner w (reread timing runner w b)
            (reread-Shown timing runner w b s))
          (check_lease-Shown timing runner w))
        (λ c k. leave-After (publish timing runner w c) (publish-Shown timing runner w c k)))
      (receive_assignment-After w)

receive_result-Shown : (result : Option Text) (b : Builder) → Shown (receive_result result b)
unfolding receive_result text_eq
receive_result-Shown none b = record {
  current = λ t h. ground (arith, h);
  silent = λ h. refl;
  working = refl;
}
receive_result-Shown (some x) b = record {
  current = λ t h. ground (arith, h);
  silent = λ h. refl;
  working = refl;
}

start-Shown :
    (cpus : ℤ) (instance_id : Text) (features : List Text) (now : ℕ)
    → Shown (start cpus instance_id features now)
unfolding text_eq
start-Shown cpus instance_id features now = record {
  current = λ t h. ground (arith, h);
  silent = λ h. refl;
  working = refl;
}

Reach-After :
    (timing : Timing) (runner : ℕ) (first : Builder) (o : Outcome)
    → Shown first
    → Reach timing runner first o
    → After o
Reach-After timing runner first _ s begins = s
Reach-After timing runner first _ s (later r (turns w b)) =
    turn-After timing runner w b (Reach-After timing runner first (goes_on b) s r)
Reach-After timing runner first _ s (later r (results x b busy)) = receive_result-Shown x b
Reach-After timing runner first _ s (later r (cancels b)) = tt

-- A builder that leaves with no error was told to stop, builds nothing and says so, and its last status has been published.
pub leaves_published :
    (timing : Timing) (runner : ℕ) (cpus : ℤ) (instance_id : Text) (features : List Text) (now : ℕ)
    (b : Builder)
    → Reach timing runner (start cpus instance_id features now) (returns none b)
    → (b.stopping ≡ true)
      × (is_idle b ≡ true)
      × (text_eq b.status.state (codes "busy") ≡ false)
      × (b.shown ≡ some b.status)
leaves_published timing runner cpus instance_id features now b r =
    let f = Reach-After timing runner _ _ (start-Shown cpus instance_id features now) r in
    (f.stopping, f.idle, f.rested, f.shown)
