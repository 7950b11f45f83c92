-- ===== src/Live/Tags.antt =====
-- worker/live.go: the tags of the published generations.
use nix_ci_worker.Base.{ℕ, ◌+◌, ◌≤◌, ◌≡◌, ◌≢◌, ◌⊎◌, Text, none, some, lookup}
use nix_ci_worker.Snapshot.Records.{Snapshot}
use nix_ci_worker.Live.{platform_tag, generation_tag, Publisher, Tags, Outcome}

-- The generations that were published are tagged, and the head is the last of them while nothing has failed.
abbrev pub generation : Publisher → ℕ → Text
generation p n = generation_tag p.system p.run p.attempt n

abbrev pub History : Publisher → Tags → Type 0
History p tags =
    ((n : ℕ)
      → 1 ≤ n
      → n ≤ p.published
      → (digest : Text) × (lookup (generation p n) tags ≡ some digest))
    × (p.failed ≡ none
        → 1 ≤ p.published
        → lookup (platform_tag p.system) tags ≡ lookup (generation p p.published) tags)

-- The tags of generations up to a number are as they were.
abbrev pub Unchanged : Publisher → ℕ → Tags → Tags → Type 0
Unchanged p last tags later =
    (n : ℕ) → n ≤ last → lookup (generation p n) later ≡ lookup (generation p n) tags

-- A publication that failed, or one that both tags have.
abbrev Ended : Publisher → Outcome → Type 0
Ended p o =
    ((o.publisher.published ≡ p.published) × (o.failure ≢ none))
    ⊎ ((o.publisher.published ≡ p.published + 1)
        × ((o.failure ≡ none)
            × ((digest : Text) × (lookup (generation p (p.published + 1)) o.tags ≡ some digest)
                × (lookup (platform_tag p.system) o.tags ≡ some digest))))

record Kept (p : Publisher) (tags : Tags) (o : Outcome) : Type 0 where
  pub system : o.publisher.system ≡ p.system
  pub run : o.publisher.run ≡ p.run
  pub attempt : o.publisher.attempt ≡ p.attempt
  pub unchanged : Unchanged p p.published tags o.tags
  pub ended : Ended p o
