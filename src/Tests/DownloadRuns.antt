-- ===== src/Tests/DownloadRuns.antt =====
-- The shared packs of worker/download.go on two records of one pack.
use nix_ci_worker.Base.{
  zero, suc, ◌∷◌, ◌++◌, none, ◌==◌, if◌then◌else◌, ℕ, ◌+◌, ◌≤◌, ◌<◌, ◌≡◌, refl, Text, [], some,
  true, false, codes, count, length, lookup, get_elem?, insert, ok, text_eq, has_prefix,
  drop_prefix,
}
use nix_ci_worker.Base.Int.{pos, ◌-ℤ◌}
use nix_ci_worker.Snapshot.Files.{SnapshotFile, validate, digest_pattern, in_blob}
use nix_ci_worker.Download.{
  DownloadedPack, size_of, new_pack_downloads, remember, oldest_recent, forget, make_room, admit,
  admit_new, admit_at, Reader, reads, Cache, enter, admits, Reach, opened, later,
}
use nix_ci_worker.Catalog.Partition.{slice}
use nix_ci_worker.Download.Records.{
  Stream, read_whole, fetch_pack, slice_range, read_record, checked, read_record_in_pack,
}
use nix_ci_worker.Download.Sizes.{total}
use nix_ci_worker.Download.Invariant.{owner}
use nix_ci_worker.Download.Safe.{budget, held_packs_stay, next_room, make_room_exact}

abbrev digest : Text
digest = codes "sha256:00112233445566778899aabbccddeeff00112233445566778899aabbccddeeff"

abbrev other : Text
other = codes "sha256:ffeeddccbbaa99887766554433221100ffeeddccbbaa99887766554433221100"

abbrev key : Text
key = codes "cache@pack"

abbrev file : SnapshotFile
file = record {
  blob = record { digest = digest; size = pos 60; media_type = [] };
  offset = pos 10;
  size = pos 20;
  digest = other;
}

file_validates : validate file ≡ ok tt
unfolding validate digest_pattern in_blob has_prefix drop_prefix text_eq ◌-ℤ◌
file_validates = refl

abbrev fill : ℕ → Text
fill zero = []
fill (suc n) = b'x' ∷ fill n

-- A pack of 60 bytes, as it is fetched.
abbrev stream : Stream
stream = record { bytes = fill 60; fault = none; closing = none }

abbrev digest_of : Text → Text
digest_of bytes = if length bytes == 60 then digest else other

fetched : fetch_pack digest_of file.blob stream ≡ ok (fill 60)
unfolding fetch_pack read_whole text_eq
fetched = refl

record_read : read_record digest_of file (fill 60) ≡ some (ok (fill 20))
unfolding read_record slice_range slice text_eq
record_read = refl

read_record_in_pack_example :
    (front : Text) × (bytes : Text) × (back : Text) × (fill 60 ≡ front ++ bytes ++ back)
    × (file.offset ≡ pos (length front))
    × (file.size ≡ pos (length bytes))
    × (file.blob.size ≡ pos (length (fill 60)))
    × (stream.bytes ≡ fill 60)
    × (digest_of (fill 60) ≡ file.blob.digest)
    × (read_record digest_of file (fill 60) ≡ some (checked digest_of file bytes))
read_record_in_pack_example =
    read_record_in_pack digest_of file stream (fill 60) file_validates fetched

-- The second read downloads the pack, and the third waits for it.
abbrev third : Cache
third =
    enter key file (
      enter key file (enter key file (record { downloads = new_pack_downloads 100; readers = [] })))

third-Reach : Reach 100 third
third-Reach =
    later
      (later (later opened (admits _ key file file_validates)) (admits _ key file file_validates))
      (admits _ key file file_validates)

third_reads : (length third.readers ≡ 2) × (third.downloads.bytes ≡ 60)
unfolding enter admit admit_new admit_at remember oldest_recent forget make_room insert lookup
    text_eq
third_reads = (refl, refl)

budget_example :
    (third.downloads.bytes ≡ total third.downloads.packs) × (third.downloads.bytes ≤ 100)
budget_example = budget 100 third third-Reach

held_packs_stay_example :
    ((i : ℕ) (r : Reader)
      → get_elem? third.readers i ≡ some r
      → r.downloading ≡ true
      → (p : DownloadedPack) × (lookup r.key third.downloads.packs ≡ some p)
        × (p.serial ≡ r.serial)
        × (size_of p.descriptor ≡ r.size))
    × ((k : Text) (s : ℕ) → count (owner k s) third.readers ≤ 1)
    × ((k : Text) (p : DownloadedPack)
        → lookup k third.downloads.packs ≡ some p
        → p.readers ≡ count (reads k p.serial) third.readers)
held_packs_stay_example = held_packs_stay 100 third third-Reach

make_room_exact_example :
    ((next_room 50 third.downloads).1 ≡ true → (next_room 50 third.downloads).0.bytes + 50 ≤ 100)
    × ((next_room 50 third.downloads).1 ≡ false
        → (100 < (next_room 50 third.downloads).0.bytes + 50)
          × ((k : Text) (p : DownloadedPack)
              → lookup k (next_room 50 third.downloads).0.packs ≡ some p
              → 0 < p.readers))
    × ((k : Text) (p : DownloadedPack)
        → lookup k third.downloads.packs ≡ some p
        → 0 < p.readers
        → lookup k (next_room 50 third.downloads).0.packs ≡ some p)
make_room_exact_example = make_room_exact 100 50 third third-Reach
