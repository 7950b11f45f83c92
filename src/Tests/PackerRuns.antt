-- ===== src/Tests/PackerRuns.antt =====
-- `narPacker` of worker/publication.go on one archive, from its addition to the end of its upload.
use nix_ci_worker.Base.{◌≡◌, refl, Text, Dict, [], ◌∷◌, true, has, inl, insert, codes, ok, arith}
use nix_ci_worker.Base.Int.{pos}
use nix_ci_worker.Snapshot.Files.{Descriptor, SnapshotFile}
use nix_ci_worker.Publication.Packer.{
  Packer, new_nar_packer, wait_upload, start_upload, flush, publish_files, land, append_archive,
  add_packed, packed, landed, flushed, waited, Reach, start, next,
}
use nix_ci_worker.Publication.Packer.Readable.{Valid, packer_readable}
use nix_ci_worker.Publication.Packer.Kept.{nothing_lost}

abbrev archive : Text → Text
archive name = 120 ∷ name

abbrev name : Text
name = codes "cache/nar/a.nar.zst"

abbrev digest : Text → Text
digest bytes = bytes

abbrev blob : Descriptor
blob = record { digest = codes "sha256:0"; size = pos 20; media_type = [] }

abbrev empty : Packer
empty = new_nar_packer [] []

abbrev filled : Packer
filled = (add_packed digest name (archive name) empty).0

abbrev sent : Packer
sent = flush filled

abbrev files : Dict SnapshotFile
files = filled.files

abbrev arrived : Packer
arrived = land (archive name) files (ok blob) sent

abbrev over : Packer
over = wait_upload arrived

empty-Valid : Valid archive empty
empty-Valid = record {
  pending = tt;
  bounded = omega arith;
  flight = tt;
  readable = tt;
  sound = inl refl;
}

steps : Reach digest archive filled over
unfolding add_packed append_archive flush wait_upload start_upload land publish_files insert
steps =
    next filled arrived over
      (next filled sent arrived (next filled filled sent (start filled) (flushed filled tt))
        (landed sent (archive name) files (ok blob) refl refl))
      (waited arrived tt)

packer_readable_example : Valid archive over
unfolding add_packed append_archive flush wait_upload start_upload land publish_files insert
packer_readable_example = packer_readable archive digest empty over empty-Valid (
    next empty arrived over
      (next empty sent arrived
        (next empty filled sent
          (next empty empty filled (start empty) (packed empty name refl (λ h. tt)))
          (flushed filled tt))
        (landed sent (archive name) files (ok blob) refl refl))
      (waited arrived tt))

nothing_lost_example : has over.published name ≡ true
unfolding add_packed append_archive flush wait_upload start_upload land publish_files insert
nothing_lost_example =
    nothing_lost digest archive name empty over (λ k. omega arith) empty-Valid refl (λ h. tt) refl
      steps refl refl refl
