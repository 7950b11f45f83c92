-- ===== src/Publication/Packer/Readable.antt =====
-- worker/publication.go: every file of a pack is read back from its blob.
use nix_ci_worker.Base.{
  ℕ, ◌+◌, ◌≤◌, ◌≡◌, refl, sym, ◌∙◌, subst, ◌⊎◌, inl, inr, Text, Dict, List, [], ◌∷◌, ◌++◌, none,
  true, length, length-append, insert, All, All-map, All-insert_entry, Result, ok, err, arith,
}
use nix_ci_worker.Base.Int.{ℤ, pos}
use nix_ci_worker.Snapshot.Files.{Descriptor, SnapshotFile, whole_file}
use nix_ci_worker.Catalog.Partition.{slice}
use nix_ci_worker.Publication.Packer.{
  Upload, idle, running, ended, Packer, wait_upload, start_upload, flush, publish_files, land,
  append_archive, is_full, is_packed, add_packed, add_whole, IsFree, IsSound, Accepted, Step,
  packed, whole, landed, flushed, waited, Reach, start, next,
}
use nix_ci_worker.Publication.Packer.Branches.{
  idle≢running, wait_upload_lem, start_upload_lem, flush_lem, add_packed_lem,
}
use nix_ci_worker.Publication.Packer.Ranges.{slice-append, slice_all, slice_last}

-- A blob of the storage, with its bytes.
abbrev pub Held : Descriptor → Text → List (Descriptor × Text) → Type 0
Held blob bytes [] = ⊥
Held blob bytes (entry ∷ stored) = ((entry.0 ≡ blob) × (entry.1 ≡ bytes)) ⊎ Held blob bytes stored

-- While an upload runs, none has failed.
busy :
    (p : Packer) (pack : Text) (files : Dict SnapshotFile) {u : Upload}
    → p.upload ≡ running pack files
    → IsSound p
    → (p.failure ≡ none) ⊎ (u ≡ idle)
busy p pack files e (inl fine) = inl fine
busy p pack files e (inr quiet) = absurd (idle≢running pack files (sym quiet ∙ e))

module _ (archive : Text → Text) where
  -- The bytes at a file's range are its archive.
  abbrev pub IsRange : Text → ℤ → ℤ → Text → Type 0
  IsRange bytes offset size name =
      (o : ℕ) × (offset ≡ pos o)
      × (size ≡ pos (length (archive name)))
      × (o + length (archive name) ≤ length bytes)
      × (slice o (length (archive name)) bytes ≡ archive name)

  -- A file's blob is in the storage, and its range there is its archive.
  abbrev pub IsReadable : List (Descriptor × Text) → Text → SnapshotFile → Type 0
  IsReadable stored name file =
      (bytes : Text) × Held file.blob bytes stored
      × (file.blob.size ≡ pos (length bytes))
      × IsRange bytes file.offset file.size name

  abbrev pub AllRanges : Text → Dict SnapshotFile → Type 0
  AllRanges bytes files = All (λ e. IsRange bytes e.1.offset e.1.size e.0) files

  abbrev pub AllReadable : List (Descriptor × Text) → Dict SnapshotFile → Type 0
  AllReadable stored published = All (λ e. IsReadable stored e.0 e.1) published

  -- A pack that is being uploaded.
  abbrev pub InFlight : ℕ → Upload → Type 0
  InFlight limit idle = Unit
  InFlight limit (running pack files) = AllRanges pack files × (length pack ≤ limit)
  InFlight limit (ended failure) = Unit

  pub record Valid (p : Packer) : Type 0 where
    pub pending : AllRanges p.buffer p.files
    pub bounded : length p.buffer ≤ p.limit
    pub flight : InFlight p.limit p.upload
    pub readable : AllReadable p.stored p.published
    pub sound : IsSound p

  grow :
      (bytes more : Text) (offset size : ℤ) (name : Text)
      → IsRange bytes offset size name
      → IsRange (bytes ++ more) offset size name
  grow bytes more offset size name (o, at, long, inside, same) = (
    o,
    at,
    long,
    omega (arith, length-append bytes more, inside),
    slice-append o (length (archive name)) bytes more inside ∙ same,
  )

  IsRange-append :
      (bytes : Text) (name : Text)
      → IsRange (bytes ++ archive name) (pos (length bytes)) (pos (length (archive name))) name
  IsRange-append bytes name = (
    length bytes,
    refl,
    refl,
    omega (arith, length-append bytes (archive name)),
    slice_last bytes (archive name),
  )

  pub wait_upload-Valid : (p : Packer) → Valid p → Valid (wait_upload p)
  wait_upload-Valid p v = elim (wait_upload_lem p) [
    | inl (here, same) ↦ subst Valid (sym same) v
    | inr (failure, e, same) ↦ subst Valid (sym same) (record {
      pending = v.pending;
      bounded = v.bounded;
      flight = tt;
      readable = v.readable;
      sound = inr refl;
    })
  ]

  start_upload-Valid : (p : Packer) → Valid p → Valid (start_upload p)
  start_upload-Valid p v = elim (start_upload_lem p) [
    | inl same ↦ subst Valid (sym same) v
    | inr (fine, same) ↦ subst Valid (sym same) (record {
      pending = tt;
      bounded = omega arith;
      flight = (v.pending, v.bounded);
      readable = v.readable;
      sound = inl fine;
    })
  ]

  pub flush-Valid : (p : Packer) → Valid p → Valid (flush p)
  unfolding flush
  flush-Valid p v = start_upload-Valid (wait_upload p) (wait_upload-Valid p v)

  -- A new blob takes nothing away.
  keeps_readable :
      (blob : Descriptor) (bytes : Text) (stored : List (Descriptor × Text))
      (published : Dict SnapshotFile)
      → AllReadable stored published
      → AllReadable ((blob, bytes) ∷ stored) published
  keeps_readable blob bytes stored published a =
      All-map published (λ e r. (r.0, inr r.1, r.2, r.3)) a

  publish_files-AllReadable :
      (blob : Descriptor) (pack : Text) (stored : List (Descriptor × Text))
      (files published : Dict SnapshotFile)
      → blob.size ≡ pos (length pack)
      → AllRanges pack files
      → AllReadable ((blob, pack) ∷ stored) published
      → AllReadable ((blob, pack) ∷ stored) (publish_files blob files published)
  unfolding publish_files
  publish_files-AllReadable blob pack stored [] published size r a = a
  publish_files-AllReadable blob pack stored ((name, file) ∷ files) published size r a =
      publish_files-AllReadable blob pack stored files
        (insert name (record file { blob = blob }) published) size r.1
        (All-insert_entry (IsReadable ((blob, pack) ∷ stored)) published name
          (record file { blob = blob }) (pack, inl (refl, refl), size, r.0) a)

  land-Valid :
      (p : Packer) (pack : Text) (files : Dict SnapshotFile) (answer : Result Descriptor)
      → p.upload ≡ running pack files
      → Accepted pack answer
      → Valid p
      → Valid (land pack files answer p)
  unfolding land
  land-Valid p pack files (ok blob) e size v =
      let flying : InFlight p.limit (running pack files) = subst (InFlight p.limit) e v.flight in
      record {
        pending = v.pending;
        bounded = v.bounded;
        flight = tt;
        readable =
            publish_files-AllReadable blob pack p.stored files p.published size flying.0
              (keeps_readable blob pack p.stored p.published v.readable);
        sound = busy p pack files e v.sound;
      }
  land-Valid p pack files (err failure) e accepted v = record {
    pending = v.pending;
    bounded = v.bounded;
    flight = tt;
    readable = v.readable;
    sound = busy p pack files e v.sound;
  }

  add_whole-Valid :
      (p : Packer) (name : Text) (answer : Result Descriptor)
      → Accepted (archive name) answer
      → Valid p
      → Valid (add_whole name (archive name) answer p).0
  unfolding add_whole
  add_whole-Valid p name (ok blob) size v = record {
    pending = v.pending;
    bounded = v.bounded;
    flight = v.flight;
    readable =
        All-insert_entry (IsReadable ((blob, archive name) ∷ p.stored)) p.published name
          (whole_file blob)
          (
            archive name,
            inl (refl, refl),
            size,
            (0, refl, size, omega arith, slice_all (archive name)),
          )
          (keeps_readable blob (archive name) p.stored p.published v.readable);
    sound = v.sound;
  }
  add_whole-Valid p name (err failure) accepted v = v

  module _ (content_digest : Text → Text) where
    append_archive-Valid :
        (p : Packer) (name : Text)
        → length p.buffer + length (archive name) ≤ p.limit
        → Valid p
        → Valid (append_archive content_digest name (archive name) p)
    unfolding append_archive
    append_archive-Valid p name fits v = record {
      pending =
          All-insert_entry (λ n f. IsRange (p.buffer ++ archive name) f.offset f.size n) p.files
            name _ (IsRange-append p.buffer name)
            (All-map p.files (λ e r. grow p.buffer (archive name) e.1.offset e.1.size e.0 r)
              v.pending);
      bounded = omega (arith, length-append p.buffer (archive name), fits);
      flight = v.flight;
      readable = v.readable;
      sound = v.sound;
    }

    add_packed-Valid :
        (p : Packer) (name : Text)
        → is_packed (archive name) p ≡ true
        → (is_full (archive name) p ≡ true → IsFree p)
        → Valid p
        → Valid (add_packed content_digest name (archive name) p).0
    unfolding add_packed
    add_packed-Valid p name small free v =
        elim (add_packed_lem content_digest (archive name) name p) [
          | inl (inl same) ↦ subst Valid (sym same) v
          | inl (inr (room, same)) ↦
              subst Valid (sym same) (append_archive-Valid p name (ground (arith, room)) v)
          | inr (full, inl same) ↦ subst Valid (sym same) (flush-Valid p v)
          | inr (full, inr (fine, same)) ↦
              let (empty, limit) = flush_lem p fine in
              let room : length (flush p).buffer + length (archive name) ≤ (flush p).limit =
                ground (arith, small, empty, limit) in
              subst Valid (sym same) (append_archive-Valid (flush p) name room (flush-Valid p v))
        ]

    step-Valid : (p q : Packer) → Step content_digest archive p q → Valid p → Valid q
    step-Valid _ _ (packed p name small free) v = add_packed-Valid p name small free v
    step-Valid _ _ (whole p name answer large accepted) v = add_whole-Valid p name answer accepted v
    step-Valid _ _ (landed p pack files answer e accepted) v =
        land-Valid p pack files answer e accepted v
    step-Valid _ _ (flushed p free) v = flush-Valid p v
    step-Valid _ _ (waited p free) v = wait_upload-Valid p v

    -- In every state that a packer comes to, the buffer is within the limit, and each file of the snapshot is in a blob of the storage, of the size that its descriptor says, whose bytes at the file's range are the archive that was added under its name.
    pub packer_readable : (p q : Packer) → Valid p → Reach content_digest archive p q → Valid q
    packer_readable _ _ v (start p) = v
    packer_readable _ _ v (next p q r reach step) =
        step-Valid q r step (packer_readable p q v reach)
