-- ===== src/Publication/Packer/Kept.antt =====
-- worker/publication.go: no archive that add took is lost before its pack is uploaded.
use nix_ci_worker.Base.{
  ◌<◌, ◌≡◌, ◌≢◌, sym, ap, ◌∙◌, subst, ◌⊎◌, inl, inr, ◌||◌, Text, Dict, [], ◌∷◌, Option, none, some,
  Bool, true, false≢true, lookup, String, length, insert, has, has-insert, has_entry, text_eq,
  text_eq_self, Result, ok, err, arith, Bool-cases,
}
use nix_ci_worker.Snapshot.Files.{Descriptor, SnapshotFile, whole_file}
use nix_ci_worker.Publication.Packer.{
  Upload, idle, running, ended, Packer, wait_upload, start_upload, flush, publish_files, land,
  append_archive, is_full, add_packed, add_whole, is_packed, IsOver, IsFree, IsSound, Step, packed,
  whole, landed, flushed, waited, Reach, start, next,
}
use nix_ci_worker.Publication.Packer.Readable.{AllRanges, Valid, packer_readable}
use nix_ci_worker.Publication.Packer.Branches.{
  wait_upload_lem, start_upload_lem, add_packed_lem, add_packed_fine,
}

-- An upload that has the archive, or that has failed.
abbrev pub IsUploading : Text → Upload → Type 0
IsUploading name idle = ⊥
IsUploading name (running pack files) = has files name ≡ true
IsUploading name (ended none) = ⊥
IsUploading name (ended (some failure)) = Unit

-- The archive is published, waits, or is on its way, or an upload has failed.
abbrev pub IsKept : Text → Packer → Type 0
IsKept name p =
    ((has p.published name ≡ true) ⊎ (has p.files name ≡ true))
    ⊎ (IsUploading name p.upload ⊎ (p.failure ≢ none))

or_true : (b : Bool) → (b || true) ≡ true
or_true b = ground arith

has-insert_later :
    (name k : Text) (file : SnapshotFile) (files : Dict SnapshotFile)
    → has files name ≡ true
    → has (insert k file files) name ≡ true
has-insert_later name k file files h =
    has-insert k name file files ∙ ap (λ b. text_eq k name || b) h ∙ or_true (text_eq k name)

has-insert_here :
    (name : Text) (file : SnapshotFile) (files : Dict SnapshotFile)
    → has (insert name file files) name ≡ true
has-insert_here name file files =
    has-insert name name file files ∙ ap (λ b. b || has files name) (text_eq_self name)

has-publish_files_old :
    (name : Text) (blob : Descriptor) (files published : Dict SnapshotFile)
    → has published name ≡ true
    → has (publish_files blob files published) name ≡ true
unfolding publish_files
has-publish_files_old name blob [] published h = h
has-publish_files_old name blob ((k, file) ∷ files) published h =
    has-publish_files_old name blob files _
      (has-insert_later name k (record file { blob = blob }) published h)

has-publish_files :
    (name : Text) (blob : Descriptor) (files published : Dict SnapshotFile)
    → has files name ≡ true
    → has (publish_files blob files published) name ≡ true
unfolding publish_files lookup
has-publish_files name blob [] published h = absurd (false≢true h)
has-publish_files name blob ((k, file) ∷ files) published h = elim (Bool-cases (text_eq k name)) [
  | inl e ↦ has-publish_files_old name blob files _ (
      has-insert k name (record file { blob = blob }) published
      ∙ ap (λ b. b || has published name) e)
  | inr e ↦
      has-publish_files name blob files _
        (sym (ap (λ b. b || has files name) e) ∙ sym (has_entry k name file files) ∙ h)
]

none≢some : (f : String) → some f ≡ none → ⊥
none≢some f h = cc

idle≢ended : (failure : Option String) → idle ≡ ended failure → ⊥
idle≢ended failure h = cc

wait_upload-IsKept :
    (name : Text) (p : Packer) → IsSound p → IsKept name p → IsKept name (wait_upload p)
wait_upload-IsKept name p s kept = elim (wait_upload_lem p) [
  | inl (here, same) ↦ subst (IsKept name) (sym same) kept
  | inr (failure, e, same) ↦ subst (IsKept name) (sym same) (moved failure e kept)
]
  where
    moved :
        (failure : Option String)
        → p.upload ≡ ended failure
        → IsKept name p
        → IsKept name (record p { failure = failure; upload = idle })
    moved failure e (inl known) = inl known
    moved none e (inr (inl up)) = absurd (subst (IsUploading name) e up)
    moved (some f) e (inr (inl up)) = inr (inr (λ h. none≢some f h))
    moved failure e (inr (inr bad)) = elim s [
      | inl fine ↦ absurd (bad fine)
      | inr quiet ↦ absurd (idle≢ended failure (sym quiet ∙ e))
    ]

IsFree-idle : (p : Packer) → IsFree p → (wait_upload p).upload ≡ idle
IsFree-idle p free = elim (wait_upload_lem p) [
  | inl (inl quiet, same) ↦ ap (λ (q : Packer). q.upload) same ∙ quiet
  | inl (inr (pack, files, busy), same) ↦ absurd (free_running p pack files busy free)
  | inr (failure, e, same) ↦ ap (λ (q : Packer). q.upload) same
]
  where
    free_running :
        (q : Packer) (pack : Text) (files : Dict SnapshotFile)
        → q.upload ≡ running pack files
        → IsFree q
        → ⊥
    free_running q pack files e f = subst IsOver e f

start_upload-IsKept :
    (name : Text) (p : Packer) → p.upload ≡ idle → IsKept name p → IsKept name (start_upload p)
start_upload-IsKept name p quiet kept = elim (start_upload_lem p) [
  | inl same ↦ subst (IsKept name) (sym same) kept
  | inr (fine, same) ↦ subst (IsKept name) (sym same) (moved kept)
]
  where
    moved :
        IsKept name p
        → IsKept name (record p { buffer = []; files = []; upload = running p.buffer p.files })
    moved (inl (inl known)) = inl (inl known)
    moved (inl (inr pending)) = inr (inl pending)
    moved (inr (inl up)) = absurd (subst (IsUploading name) quiet up)
    moved (inr (inr bad)) = inr (inr bad)

flush-IsKept :
    (name : Text) (p : Packer) → IsFree p → IsSound p → IsKept name p → IsKept name (flush p)
unfolding flush
flush-IsKept name p free s kept =
    start_upload-IsKept name (wait_upload p) (IsFree-idle p free) (wait_upload-IsKept name p s kept)

land-IsKept :
    (name : Text) (p : Packer) (pack : Text) (files : Dict SnapshotFile)
    (answer : Result Descriptor)
    → p.upload ≡ running pack files
    → IsKept name p
    → IsKept name (land pack files answer p)
unfolding land
land-IsKept name p pack files (ok blob) e kept = moved kept
  where
    moved : IsKept name p → IsKept name (land pack files (ok blob) p)
    moved (inl (inl known)) = inl (inl (has-publish_files_old name blob files p.published known))
    moved (inl (inr pending)) = inl (inr pending)
    moved (inr (inl up)) =
        inl (inl (has-publish_files name blob files p.published (subst (IsUploading name) e up)))
    moved (inr (inr bad)) = inr (inr bad)
land-IsKept name p pack files (err failure) e kept = moved kept
  where
    moved : IsKept name p → IsKept name (land pack files (err failure) p)
    moved (inl known) = inl known
    moved (inr (inl up)) = inr (inl tt)
    moved (inr (inr bad)) = inr (inr bad)

add_whole-IsKept :
    (name k : Text) (bytes : Text) (answer : Result Descriptor) (p : Packer)
    → IsKept name p
    → IsKept name (add_whole k bytes answer p).0
unfolding add_whole
add_whole-IsKept name k bytes (ok blob) p (inl (inl known)) =
    inl (inl (has-insert_later name k (whole_file blob) p.published known))
add_whole-IsKept name k bytes (ok blob) p (inl (inr pending)) = inl (inr pending)
add_whole-IsKept name k bytes (ok blob) p (inr rest) = inr rest
add_whole-IsKept name k bytes (err failure) p kept = kept

module _ (content_digest : Text → Text) where
  append_archive-IsKept :
      (name k bytes : Text) (p : Packer)
      → IsKept name p
      → IsKept name (append_archive content_digest k bytes p)
  unfolding append_archive
  append_archive-IsKept name k bytes p (inl (inl known)) = inl (inl known)
  append_archive-IsKept name k bytes p (inl (inr pending)) =
      inl (inr (has-insert_later name k _ p.files pending))
  append_archive-IsKept name k bytes p (inr rest) = inr rest

  add_packed-IsKept :
      (name k bytes : Text) (p : Packer)
      → (is_full bytes p ≡ true → IsFree p)
      → IsSound p
      → IsKept name p
      → IsKept name (add_packed content_digest k bytes p).0
  add_packed-IsKept name k bytes p free s kept = elim (add_packed_lem content_digest bytes k p) [
    | inl (inl same) ↦ subst (IsKept name) (sym same) kept
    | inl (inr (room, same)) ↦
        subst (IsKept name) (sym same) (append_archive-IsKept name k bytes p kept)
    | inr (full, inl same) ↦ subst (IsKept name) (sym same) (flush-IsKept name p (free full) s kept)
    | inr (full, inr (fine, same)) ↦
        subst (IsKept name) (sym same)
          (append_archive-IsKept name k bytes (flush p) (flush-IsKept name p (free full) s kept))
  ]

  append_archive-IsKept_own :
      (name bytes : Text) (p : Packer) → IsKept name (append_archive content_digest name bytes p)
  unfolding append_archive
  append_archive-IsKept_own name bytes p = inl (inr (has-insert_here name _ p.files))

  module _ (archive : Text → Text) where
    step-IsKept :
        (name : Text) (p q : Packer)
        → Step content_digest archive p q
        → IsSound p
        → IsKept name p
        → IsKept name q
    step-IsKept name _ _ (packed p k small free) s kept =
        add_packed-IsKept name k (archive k) p free s kept
    step-IsKept name _ _ (whole p k answer large accepted) s kept =
        add_whole-IsKept name k (archive k) answer p kept
    step-IsKept name _ _ (landed p pack files answer e accepted) s kept =
        land-IsKept name p pack files answer e kept
    step-IsKept name _ _ (flushed p free) s kept = flush-IsKept name p free s kept
    step-IsKept name _ _ (waited p free) s kept = wait_upload-IsKept name p s kept

    reach-IsKept :
        (name : Text) (p q : Packer)
        → Reach content_digest archive p q
        → Valid archive p
        → IsKept name p
        → IsKept name q
    reach-IsKept name _ _ (start p) v kept = kept
    reach-IsKept name _ _ (next p q r reach step) v kept =
        step-IsKept name q r step (packer_readable archive content_digest p q v reach).sound
          (reach-IsKept name p q reach v kept)

    -- What add does without an error keeps its archive.
    add_packed-IsKept_own :
        (name : Text) (p : Packer)
        → (add_packed content_digest name (archive name) p).1 ≡ none
        → IsKept name (add_packed content_digest name (archive name) p).0
    add_packed-IsKept_own name p fine =
        let (q, same) = add_packed_fine content_digest (archive name) name p fine in
        subst (IsKept name) (sym same) (append_archive-IsKept_own name (archive name) q)

    -- An empty buffer has no file.
    no_pending :
        (name bytes : Text) (files : Dict SnapshotFile)
        → ((k : Text) → 0 < length (archive k))
        → length bytes ≡ 0
        → AllRanges archive bytes files
        → has files name ≡ true
        → ⊥
    unfolding lookup
    no_pending name bytes [] long empty ranges h = false≢true h
    no_pending name bytes ((k, file) ∷ files) long empty ((o, at, size, inside, same), rest) h =
        absurd (omega (arith, inside, empty, long k))

    -- Let add have taken an archive without an error, to be packed. In every later state in which the buffer is empty, no upload is open and none has failed, as finish leaves it when it returns no error, the archive is among the snapshot's files.
    pub nothing_lost :
        (name : Text) (p q : Packer)
        → ((k : Text) → 0 < length (archive k))
        → Valid archive p
        → is_packed (archive name) p ≡ true
        → (is_full (archive name) p ≡ true → IsFree p)
        → (add_packed content_digest name (archive name) p).1 ≡ none
        → Reach content_digest archive (add_packed content_digest name (archive name) p).0 q
        → length q.buffer ≡ 0
        → q.upload ≡ idle
        → q.failure ≡ none
        → has q.published name ≡ true
    nothing_lost name p q long v small free fine reach empty quiet good =
        let added = add_packed content_digest name (archive name) p in
        let valid =
          packer_readable archive content_digest p added.0 v
            (next p p added.0 (start p) (packed p name small free)) in
        let end = packer_readable archive content_digest added.0 q valid reach in
        elim (reach-IsKept name added.0 q reach valid (add_packed-IsKept_own name p fine)) [
          | inl (inl known) ↦ known
          | inl (inr pending) ↦
              absurd (no_pending name q.buffer q.files long empty end.pending pending)
          | inr (inl up) ↦ absurd (subst (IsUploading name) quiet up)
          | inr (inr bad) ↦ absurd (bad good)
        ]
