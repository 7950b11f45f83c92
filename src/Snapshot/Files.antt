-- ===== src/Snapshot/Files.antt =====
-- worker/snapshot.go: where a record lies within a blob, and when such a location is valid.
use nix_ci_worker.Base.{
  ℕ, ◌+◌, ◌≤◌, ◌<◌, ◌≡◌, refl, ◌==◌, Text, Bool, true, not, ◌&&◌, ◌||◌, leb, all, codes, text_eq,
  has_prefix, drop_prefix, length, Result, ok, guard, ◌>>◌, passed, arith,
}
use nix_ci_worker.Base.Int.{ℤ, pos, negsuc, lt_ℤ, ◌-ℤ◌, eq_ℤ}

-- The annotations are not read here.
pub record Descriptor : Type 0 where
  pub digest : Text
  pub size : ℤ
  pub media_type : Text

pub record SnapshotFile : Type 0 where
  pub blob : Descriptor
  pub offset : ℤ
  pub size : ℤ
  pub digest : Text

abbrev pub whole_file : Descriptor → SnapshotFile
whole_file d = record { blob = d; offset = pos 0; size = d.size; digest = d.digest }

abbrev pub blob_limit : ℕ
blob_limit = 10_737_418_240

abbrev pub hex_byte : ℕ → Bool
hex_byte c = leb b'a' c && leb c b'f' || leb b'0' c && leb c b'9'

-- digestPattern of worker/registry.go: ^sha256:[a-f0-9]{64}$
unfoldable pub digest_pattern : Text → Bool
unfolding has_prefix drop_prefix
digest_pattern s =
    let rest = drop_prefix s (codes "sha256:") in
    has_prefix s (codes "sha256:") && length rest == 64 && all hex_byte rest

-- The range test of `validate`, of an offset and two sizes.
unfoldable pub in_blob : ℤ → ℤ → ℤ → Bool
unfolding ◌-ℤ◌
in_blob offset size whole = not (
    not (lt_ℤ (pos 0) whole)
    || not (lt_ℤ whole (pos blob_limit))
    || not (lt_ℤ (pos 0) size)
    || lt_ℤ whole size
    || lt_ℤ offset (pos 0)
    || lt_ℤ (whole -ℤ size) offset)

unfoldable pub validate : SnapshotFile → Result (Unit {0})
unfolding digest_pattern in_blob text_eq
validate f = do
  guard (digest_pattern f.blob.digest && digest_pattern f.digest) "invalid snapshot file digest"
  guard (in_blob f.offset f.size f.blob.size) "snapshot file range exceeds blob bounds"
  guard (not (eq_ℤ f.size f.blob.size && not (text_eq f.digest f.blob.digest)))
      "whole file digest differs from blob digest"

in_blob_lem :
    (offset size whole : ℤ)
    → in_blob offset size whole ≡ true
    → (o n b : ℕ) × (offset ≡ pos o)
      × (size ≡ pos n)
      × (whole ≡ pos b)
      × (0 < n)
      × (o + n ≤ b)
      × (b < 10_737_418_240)
unfolding in_blob ◌-ℤ◌
in_blob_lem (pos o) (pos n) (pos b) k =
    (o, n, b, refl, refl, refl, ground arith, ground arith, ground arith)
in_blob_lem (negsuc o) size whole k = absurd (ground arith)
in_blob_lem (pos o) (negsuc n) whole k = absurd (ground arith)
in_blob_lem (pos o) (pos n) (negsuc b) k = absurd (ground arith)

-- The range of a location that passes.
pub validate_lem :
    (f : SnapshotFile)
    → validate f ≡ ok tt
    → (o n b : ℕ) × (f.offset ≡ pos o)
      × (f.size ≡ pos n)
      × (f.blob.size ≡ pos b)
      × (0 < n)
      × (o + n ≤ b)
      × (b < 10_737_418_240)
unfolding validate
validate_lem f h =
    let (digests, rest) =
      passed (digest_pattern f.blob.digest && digest_pattern f.digest)
        "invalid snapshot file digest" _ h in
    let (inside, last) =
      passed (in_blob f.offset f.size f.blob.size) "snapshot file range exceeds blob bounds" _
        rest in
    in_blob_lem f.offset f.size f.blob.size inside
