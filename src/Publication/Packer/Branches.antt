-- ===== src/Publication/Packer/Branches.antt =====
-- worker/publication.go: the branches of narPacker's operations.
use nix_ci_worker.Base.{
  ◌≡◌, refl, ap, ◌∙◌, ◌⊎◌, inl, inr, ◌==◌, Text, Dict, [], Option, none, true, false, String,
  length, arith, Bool-cases, Option-cases,
}
use nix_ci_worker.Snapshot.Files.{SnapshotFile}
use nix_ci_worker.Publication.Packer.{
  Upload, idle, running, ended, Packer, wait_upload, start_upload, flush, append_archive, is_full,
  add_packed,
}

pub idle≢running : (pack : Text) (files : Dict SnapshotFile) → idle ≡ running pack files → ⊥
idle≢running pack files h = cc

pub Upload-cases :
    (u : Upload)
    → ((u ≡ idle) ⊎ ((pack : Text) × (files : Dict SnapshotFile) × (u ≡ running pack files)))
      ⊎ ((failure : Option String) × (u ≡ ended failure))
Upload-cases idle = inl (inl refl)
Upload-cases (running pack files) = inl (inr (pack, files, refl))
Upload-cases (ended failure) = inr (failure, refl)

pub wait_upload_lem :
    (p : Packer)
    → (((p.upload ≡ idle)
          ⊎ ((pack : Text) × (files : Dict SnapshotFile) × (p.upload ≡ running pack files)))
        × (wait_upload p ≡ p))
      ⊎ ((failure : Option String) × (p.upload ≡ ended failure)
          × (wait_upload p ≡ record p { failure = failure; upload = idle }))
unfolding wait_upload
wait_upload_lem p = elim (Upload-cases p.upload) [
  | inl (inl e) ↦ inl (inl e, ground (arith, e))
  | inl (inr (pack, files, e)) ↦ inl (inr (pack, files, e), ground (arith, e))
  | inr (failure, e) ↦ inr (failure, e, rw (e, wait_upload) refl)
]

pub start_upload_lem :
    (p : Packer)
    → (start_upload p ≡ p)
      ⊎ ((p.failure ≡ none)
          × (start_upload p
              ≡ record p { buffer = []; files = []; upload = running p.buffer p.files }))
unfolding start_upload
start_upload_lem p = elim (Option-cases p.failure) [
  | inl e ↦ elim (Bool-cases (length p.buffer == 0)) [
    | inl empty ↦ inl (ground (arith, e, empty))
    | inr full ↦ inr (e, ground (arith, e, full))
  ]
  | inr (failure, e) ↦ inl (ground (arith, e))
]

start_upload_room :
    (p : Packer)
    → (start_upload p).failure ≡ none
    → (length (start_upload p).buffer ≡ 0) × ((start_upload p).limit ≡ p.limit)
unfolding start_upload
start_upload_room p fine = elim (Option-cases p.failure) [
  | inl e ↦ elim (Bool-cases (length p.buffer == 0)) [
    | inl empty ↦ ground (arith, e, empty)
    | inr full ↦ ground (arith, e, full)
  ]
  | inr (failure, e) ↦ absurd (ground (arith, e, fine))
]

same_limit : (p : Packer) → (wait_upload p).limit ≡ p.limit
same_limit p = elim (wait_upload_lem p) [
  | inl (here, same) ↦ ap (λ (q : Packer). q.limit) same
  | inr (failure, e, same) ↦ ap (λ (q : Packer). q.limit) same
]

-- A flush without an error leaves room.
pub flush_lem :
    (p : Packer)
    → (flush p).failure ≡ none
    → (length (flush p).buffer ≡ 0) × ((flush p).limit ≡ p.limit)
unfolding flush
flush_lem p fine =
    let (empty, limit) = start_upload_room (wait_upload p) fine in (empty, limit ∙ same_limit p)

-- What add does with an archive that it packs.
pub add_packed_lem :
    (content_digest : Text → Text) (bytes name : Text) (p : Packer)
    → (((add_packed content_digest name bytes p).0 ≡ p)
        ⊎ ((is_full bytes p ≡ false)
            × ((add_packed content_digest name bytes p).0
                ≡ append_archive content_digest name bytes p)))
      ⊎ ((is_full bytes p ≡ true)
          × (((add_packed content_digest name bytes p).0 ≡ flush p)
              ⊎ (((flush p).failure ≡ none)
                  × ((add_packed content_digest name bytes p).0
                      ≡ append_archive content_digest name bytes (flush p)))))
unfolding add_packed
add_packed_lem content_digest bytes name p = elim (Option-cases p.failure) [
  | inr (failure, e) ↦ inl (inl (ground (arith, e)))
  | inl e ↦ elim (Bool-cases (is_full bytes p)) [
    | inl full ↦ elim (Option-cases (flush p).failure) [
      | inl fine ↦ inr (full, inr (fine, ground (arith, e, full, fine)))
      | inr (failure, bad) ↦ inr (full, inl (ground (arith, e, full, bad)))
    ]
    | inr room ↦ inl (inr (room, ground (arith, e, room)))
  ]
]

-- Without an error, add put the archive into a buffer.
pub add_packed_fine :
    (content_digest : Text → Text) (bytes name : Text) (p : Packer)
    → (add_packed content_digest name bytes p).1 ≡ none
    → (q : Packer) × ((add_packed content_digest name bytes p).0
        ≡ append_archive content_digest name bytes q)
unfolding add_packed
add_packed_fine content_digest bytes name p h = elim (Option-cases p.failure) [
  | inr (failure, e) ↦ absurd (ground (arith, e, h))
  | inl e ↦ elim (Bool-cases (is_full bytes p)) [
    | inl full ↦ elim (Option-cases (flush p).failure) [
      | inl fine ↦ (flush p, ground (arith, e, full, fine))
      | inr (failure, bad) ↦ absurd (ground (arith, e, full, bad, h))
    ]
    | inr room ↦ (p, ground (arith, e, room))
  ]
]
