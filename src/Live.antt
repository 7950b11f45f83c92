-- ===== src/Live.antt =====
-- worker/live.go: the publication of a platform's cache while a build runs.
pub mod Distinct
pub mod Tags
pub mod Closed
use nix_ci_worker.Base.{
  ℕ, zero, suc, ◌+◌, ◌*◌, ◌-◌, ◌==◌, Text, Dict, List, [], ◌∷◌, ◌++◌, Option, none, some, Bool,
  true, false, not, ◌&&◌, ◌||◌, String, if◌then◌else◌, ltb, leb, codes, decimal, decimal_from,
  text_eq, contains, insert, Result, ok, err, ◌>>=◌, ◌>>◌, guard,
}
use nix_ci_worker.Snapshot.Files.{Descriptor, whole_file}
use nix_ci_worker.Snapshot.Records.{Snapshot, merge, require_closed, is_some}

-- strconv.ParseUint(s, 10, 64), after the digits that were read.
unfoldable pub parse_digits : ℕ → Text → Option ℕ
parse_digits n [] = some n
parse_digits n (c ∷ s) =
    let value = n * 10 + (c - b'0') in
    let rest = parse_digits value s in
    if leb b'0' c && leb c b'9' && ltb value 18_446_744_073_709_551_616 then rest else none

-- validRunID
unfoldable pub valid_run_id : Text → Bool
unfolding text_eq parse_digits
valid_run_id id =
    not (text_eq id []) && elim (parse_digits 0 id) [ none ↦ false | some number ↦ ltb 0 number ]

-- The keys of `Systems`.
abbrev pub systems : List Text
systems = codes "x86_64-linux" ∷ codes "aarch64-linux" ∷ []

-- PlatformTag
abbrev pub platform_tag : Text → Text
platform_tag system = codes "nixos-cache-" ++ system

-- generationTag
unfoldable pub generation_tag : Text → Text → ℕ → ℕ → Text
unfolding decimal_from
generation_tag system run attempt publication =
    platform_tag system
    ++ codes "-run-"
    ++ run
    ++ codes "-attempt-"
    ++ decimal attempt
    ++ codes "-publication-"
    ++ decimal publication

-- resultFile; the only attempts below 1 are 0 here.
unfoldable pub result_file : Text → Text → ℕ → Result Text
unfolding valid_run_id contains decimal_from
result_file run system attempt = do
  guard (valid_run_id run && not (ltb attempt 1)) "invalid build result identity"
  guard (contains systems system) "unsupported cache platform"
  ok (
      codes "cache/results/"
      ++ run
      ++ codes "/"
      ++ decimal attempt
      ++ codes "/"
      ++ system
      ++ codes ".json")

-- The members of the metadata that are read or set, as `String` and `Int` read them; a binding that is no map is none.
pub record Metadata : Type 0 where
  pub kind : Text
  pub binding_system : Option Text
  pub terminal : Bool
  pub system : Text
  pub run : Text
  pub attempt : ℕ
  pub publication : ℕ

-- validateResult
unfoldable pub validate_result : Metadata → Text → Text → ℕ → Result (Unit {0})
unfolding text_eq
validate_result m run system attempt =
    guard
      (elim m.binding_system [ none ↦ false | some bound ↦ text_eq bound system ]
        && text_eq m.kind (codes "stage")
        && m.terminal
        && text_eq m.run run
        && m.attempt == attempt)
      "build result binding mismatch"

-- What the publisher calls: the upload of a result, the blobs and the manifest of Snapshot.Publish, of which it gives the digest, and PutManifest of a manifest under a tag.
pub record Outside : Type 0 where
  pub upload_result : Metadata → Result Descriptor
  pub build : Snapshot → Metadata → Result Text
  pub put_manifest : Text → Text → Result Text

abbrev pub bound_system : Metadata → Text
bound_system m = elim m.binding_system [ none ↦ [] | some bound ↦ bound ]

-- storeResult
unfoldable pub store_result : Outside → Snapshot → Metadata → Result Snapshot
unfolding validate_result result_file insert
store_result outside s m = do
  validate_result m m.run (bound_system m) m.attempt
  name ← result_file m.run (bound_system m) m.attempt
  blob ← outside.upload_result m
  ok (record s { files = insert name (whole_file blob) s.files })

-- livePublisher. A time that was not set is `none`.
pub record Publisher : Type 0 where
  pub snapshot : Snapshot
  pub metadata : Metadata
  pub system : Text
  pub run : Text
  pub attempt : ℕ
  pub published : ℕ
  pub failed : Option String
  pub dirty : Bool
  pub last_published : Option ℕ

-- The snapshot and its metadata, before they are published.
unfoldable pub prepare : Outside → Publisher → Snapshot → Metadata → Bool → Result Snapshot
unfolding valid_run_id contains merge require_closed validate_result store_result
prepare outside p delta m terminal = do
  guard (contains systems p.system && valid_run_id p.run && not (ltb p.attempt 1))
      "invalid cache publication identity"
  merged ← merge p.snapshot delta
  require_closed merged
  (if terminal
      then validate_result m p.run p.system p.attempt >> store_result outside merged m
      else ok merged)

abbrev pub live_metadata : Publisher → Metadata → Metadata
live_metadata p m = record m {
  kind = codes "live";
  system = p.system;
  run = p.run;
  attempt = p.attempt;
  publication = p.published + 1;
}

-- The tags of the repository, each with its manifest's digest.
abbrev pub Tags : Type 0
Tags = Dict Text

-- What an update comes to: the publisher, the tags and the error.
pub record Outcome : Type 0 where
  pub publisher : Publisher
  pub tags : Tags
  pub failure : Option String

abbrev pub latest : Publisher → Text
latest p = generation_tag p.system p.run p.attempt (p.published + 1)

-- The end of an update, by the answer for the head; the generation has its tag.
unfoldable pub tag_head : Publisher → Tags → Text → Result Text → Outcome
unfolding insert text_eq
tag_head p kept stored (err e) = record { publisher = p; tags = kept; failure = some e }
tag_head p kept stored (ok head) =
    let moved = insert (platform_tag p.system) head kept in
    if text_eq head stored
    then record {
      publisher = record p { published = p.published + 1 };
      tags = moved;
      failure = none;
    }
    else record {
      publisher = p;
      tags = moved;
      failure = some "platform tag manifest digest mismatch";
    }

-- The rest of an update, by the answer for the generation's tag.
unfoldable pub tag_generation : Outside → Publisher → Tags → Text → Result Text → Outcome
unfolding generation_tag insert tag_head
tag_generation outside p tags digest (err e) = record {
  publisher = p;
  tags = tags;
  failure = some e;
}
tag_generation outside p tags digest (ok stored) =
    tag_head p (insert (latest p) stored tags) stored
      (outside.put_manifest (platform_tag p.system) digest)

-- Snapshot.Publish and what follows it, by what it builds.
unfoldable pub advance : Outside → Publisher → Tags → Result Text → Outcome
unfolding generation_tag tag_generation
advance outside p tags (err e) = record { publisher = p; tags = tags; failure = some e }
advance outside p tags (ok digest) =
    tag_generation outside p tags digest (outside.put_manifest (latest p) digest)

-- The rest of an update, by the snapshot that is ready.
unfoldable pub update_from : Outside → Publisher → Metadata → Tags → Result Snapshot → Outcome
unfolding advance
update_from outside p m tags (err e) = record { publisher = p; tags = tags; failure = some e }
update_from outside p m tags (ok s) =
    let ready : Publisher = record p { snapshot = s; metadata = live_metadata p m } in
    advance outside ready tags (outside.build s ready.metadata)

-- update. When it fails before the snapshot is complete, the snapshot is left as it was here: a publisher that has failed does not use it again.
unfoldable pub update_live : Outside → Publisher → Snapshot → Metadata → Bool → Tags → Outcome
unfolding prepare update_from
update_live outside p delta m terminal tags =
    update_from outside p m tags (prepare outside p delta m terminal)

-- What publish keeps of an update.
unfoldable pub settle_update : ℕ → Publisher → Tags → Option String → Outcome
settle_update now p tags (some e) = record {
  publisher = record p { failed = some e };
  tags = tags;
  failure = some e;
}
settle_update now p tags none = record {
  publisher = record p { failed = none; dirty = false; last_published = some now };
  tags = tags;
  failure = none;
}

-- publish, by the failure of an earlier one.
unfoldable pub publish_from :
    Outside → Publisher → Snapshot → Metadata → Bool → ℕ → Tags → Option String → Outcome
unfolding update_live settle_update
publish_from outside p delta m terminal now tags (some e) = record {
  publisher = p;
  tags = tags;
  failure = some e;
}
publish_from outside p delta m terminal now tags none =
    let o = update_live outside p delta m terminal tags in
    settle_update now o.publisher o.tags o.failure

-- publish
unfoldable pub publish_live : Outside → Publisher → Snapshot → Metadata → Bool → ℕ → Tags → Outcome
unfolding publish_from
publish_live outside p delta m terminal now tags =
    publish_from outside p delta m terminal now tags p.failed

-- 30 seconds, in nanoseconds.
abbrev publication_interval : ℕ
publication_interval = 30_000_000_000

-- A publication was too recent.
abbrev too_soon : Option ℕ → ℕ → Bool
too_soon none now = false
too_soon (some last) now = ltb (now - last) publication_interval

-- flush: what publish comes to, and whether everything is published.
unfoldable pub flush_live :
    Outside → Publisher → Snapshot → Metadata → Bool → ℕ → Tags → Outcome × Bool
unfolding publish_live
flush_live outside p delta m force now tags =
    let same : Outcome = record { publisher = p; tags = tags; failure = p.failed } in
    let done = publish_live outside p delta m false now tags in
    if is_some p.failed
    then (same, false)
    else if not p.dirty
    then (same, true)
    else if not force && too_soon p.last_published now
    then (same, false)
    else (done, not (is_some done.failure))
