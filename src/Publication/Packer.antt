-- ===== src/Publication/Packer.antt =====
-- worker/publication.go: narPacker, which joins small encrypted archives into packs and uploads them.
pub mod Ranges
pub mod Branches
pub mod Readable
pub mod Kept
use nix_ci_worker.Base.{
  ℕ, zero, ◌+◌, ◌≤◌, ◌≡◌, ◌⊎◌, ◌==◌, Text, Dict, List, [], ◌∷◌, ◌++◌, Option, none, some, Bool,
  true, false, String, if◌then◌else◌, ltb, leb, length, insert, min, Result, ok, err,
}
use nix_ci_worker.Base.Int.{pos}
use nix_ci_worker.Snapshot.Files.{Descriptor, SnapshotFile, whole_file}
use nix_ci_worker.Download.{cache_pack_size}
use nix_ci_worker.Catalog.{no_descriptor}

abbrev pub packed_archive_limit : ℕ
packed_archive_limit = 1_048_576

-- The channel of a pack's upload: none, one that is open, or one that has its error.
pub data Upload : Type 0 where
  idle : Upload
  running : Text → Dict SnapshotFile → Upload
  ended : Option String → Upload

-- A packer, the files of its snapshot, and what the storage has.
pub record Packer : Type 0 where
  pub buffer : Text
  pub files : Dict SnapshotFile
  pub limit : ℕ
  pub failure : Option String
  pub upload : Upload
  pub published : Dict SnapshotFile
  pub stored : List (Descriptor × Text)

-- newNARPacker
abbrev pub new_nar_packer : Dict SnapshotFile → List (Descriptor × Text) → Packer
new_nar_packer published stored = record {
  buffer = [];
  files = [];
  limit = cache_pack_size;
  failure = none;
  upload = idle;
  published = published;
  stored = stored;
}

-- waitUpload, once the upload has ended.
unfoldable pub wait_upload : Packer → Packer
wait_upload p = elim p.upload [
  | idle ↦ p
  | running pack files ↦ p
  | ended failure ↦ record p { failure = failure; upload = idle }
]

-- flush after that wait.
unfoldable pub start_upload : Packer → Packer
start_upload p = elim p.failure [
  | some failure ↦ p
  | none ↦
      if length p.buffer == 0
      then p
      else record p { buffer = []; files = []; upload = running p.buffer p.files }
]

-- flush
unfoldable pub flush : Packer → Packer
unfolding wait_upload start_upload
flush p = start_upload (wait_upload p)

-- The files of a pack, at the blob that it became.
unfoldable pub publish_files :
    Descriptor → Dict SnapshotFile → Dict SnapshotFile → Dict SnapshotFile
unfolding insert
publish_files blob [] published = published
publish_files blob ((name, file) ∷ files) published =
    let located : SnapshotFile = record file { blob = blob } in
    publish_files blob files (insert name located published)

-- The goroutine of an upload, when the storage answers.
unfoldable pub land : Text → Dict SnapshotFile → Result Descriptor → Packer → Packer
unfolding publish_files
land pack files (ok blob) p = record p {
  upload = ended none;
  published = publish_files blob files p.published;
  stored = (blob, pack) ∷ p.stored;
}
land pack files (err failure) p = record p { upload = ended (some failure) }

-- The pack is full.
abbrev pub is_full : Text → Packer → Bool
is_full bytes p = ltb p.limit (length p.buffer + length bytes)

module _ (content_digest : Text → Text) where
  -- The archive goes into the buffer.
  unfoldable pub append_archive : Text → Text → Packer → Packer
  unfolding insert
  append_archive name bytes p =
      let file : SnapshotFile = record {
        blob = no_descriptor;
        offset = pos (length p.buffer);
        size = pos (length bytes);
        digest = content_digest bytes;
      } in
      record p { files = insert name file p.files; buffer = p.buffer ++ bytes }

  -- add, of an archive that is packed: the state and the error.
  unfoldable pub add_packed : Text → Text → Packer → Packer × Option String
  unfolding append_archive flush
  add_packed name bytes p = elim p.failure [
    | some failure ↦ (p, some failure)
    | none ↦
        let flushed = flush p in
        if is_full bytes p
        then elim flushed.failure [
          | some failure ↦ (flushed, some failure)
          | none ↦ (append_archive name bytes flushed, none)
        ]
        else (append_archive name bytes p, none)
  ]

-- Whether add packs an archive or uploads it by itself.
abbrev pub is_packed : Text → Packer → Bool
is_packed bytes p = leb (length bytes) (min p.limit packed_archive_limit)

-- add, of an archive that is a blob of its own.
unfoldable pub add_whole : Text → Text → Result Descriptor → Packer → Packer × Option String
unfolding insert
add_whole name bytes (ok blob) p = (
  record p {
    published = insert name (whole_file blob) p.published;
    stored = (blob, bytes) ∷ p.stored;
  },
  none,
)
add_whole name bytes (err failure) p = (p, some failure)

-- No upload is open.
abbrev pub IsOver : Upload → Type 0
IsOver idle = Unit
IsOver (running pack files) = ⊥
IsOver (ended failure) = Unit

abbrev pub IsFree : Packer → Type 0
IsFree p = IsOver p.upload

-- No upload is open after a failure.
abbrev pub IsSound : Packer → Type 0
IsSound p = (p.failure ≡ none) ⊎ (p.upload ≡ idle)

-- What the storage says of a blob.
abbrev pub Accepted : Text → Result Descriptor → Type 0
Accepted bytes (ok blob) = blob.size ≡ pos (length bytes)
Accepted bytes (err failure) = Unit

-- The steps of parallel calls of add and of finish, under the packer's lock, and of the upload: a call that waits for an upload goes on when that has ended.
pub data Step (content_digest : Text → Text) (archive : Text → Text)
    : Packer → Packer → Type 0 where
  packed :
      (p : Packer) (name : Text)
      → is_packed (archive name) p ≡ true
      → (is_full (archive name) p ≡ true → IsFree p)
      → Step content_digest archive p (add_packed content_digest name (archive name) p).0
  whole :
      (p : Packer) (name : Text) (answer : Result Descriptor)
      → is_packed (archive name) p ≡ false
      → Accepted (archive name) answer
      → Step content_digest archive p (add_whole name (archive name) answer p).0
  landed :
      (p : Packer) (pack : Text) (files : Dict SnapshotFile) (answer : Result Descriptor)
      → p.upload ≡ running pack files
      → Accepted pack answer
      → Step content_digest archive p (land pack files answer p)
  flushed : (p : Packer) → IsFree p → Step content_digest archive p (flush p)
  waited : (p : Packer) → IsFree p → Step content_digest archive p (wait_upload p)

-- The states that a packer comes to.
pub data Reach (content_digest : Text → Text) (archive : Text → Text)
    : Packer → Packer → Type 0 where
  start : (p : Packer) → Reach content_digest archive p p
  next :
      (p q r : Packer)
      → Reach content_digest archive p q
      → Step content_digest archive q r
      → Reach content_digest archive p r
