-- ===== src/Download/Records.antt =====
-- worker/download.go: the bytes of a pack that was fetched, and the record that is read from them.
use nix_ci_worker.Base.{
  ℕ, zero, suc, ◌+◌, ◌-◌, ◌%◌, ◌≤◌, ◌<◌, ◌≡◌, ◌∙◌, refl, sym, ap, inl, inr, arith, Text, String, [],
  ◌∷◌, ◌++◌, Option, none, some, not, ◌&&◌, if◌then◌else◌, ltb, leb, length, text_eq, text_eq_iff,
  Result, ok, err, ok_eq, ok_parts, passed, guard, ◌>>=◌, ◌>>◌, Bool-cases, Option-cases,
}
use nix_ci_worker.Base.Int.{ℤ, pos, negsuc, pos_part}
use nix_ci_worker.Snapshot.Files.{Descriptor, SnapshotFile, validate, validate_lem}
use nix_ci_worker.Catalog.Partition.{slice}

-- A stream: its bytes, the error with which it ends in place of EOF, and that of Close.
pub record Stream : Type 0 where
  pub bytes : Text
  pub fault : Option String
  pub closing : Option String

abbrev pub or_error : Option String → String → String
or_error o message = elim o [ none ↦ message | some e ↦ e ]

-- io.ReadFull of so many bytes, and of one more, which is to meet the end.
unfoldable pub read_whole : ℕ → Stream → Result Text
unfolding text_eq
read_whole size s =
    if ltb (length s.bytes) size
    then err (or_error s.fault (if text_eq s.bytes [] then "EOF" else "unexpected EOF"))
    else if ltb size (length s.bytes)
    then err "registry pack exceeds declared size"
    else elim s.fault [ none ↦ ok s.bytes | some e ↦ err e ]

-- stream.Close(); of two errors, the first is kept.
abbrev pub closed : Stream → Text → Result Text
closed s pack = elim s.closing [ none ↦ ok pack | some e ↦ err e ]

-- data[offset:offset+size] with 64-bit integers; `none` when it panics.
unfoldable pub slice_range : ℤ → ℤ → Text → Option Text
unfolding slice
slice_range (negsuc o) size pack = none
slice_range (pos o) (negsuc n) pack = none
slice_range (pos o) (pos n) pack =
    let end = (o + n) % 18_446_744_073_709_551_616 in
    if ltb end 9_223_372_036_854_775_808 && leb o end && leb end (length pack)
    then some (slice o (end - o) pack)
    else none

module _ (content_digest : Text → Text) where
  -- What the owner of a pack reads of the stream that it has fetched.
  unfoldable pub fetch_pack : Descriptor → Stream → Result Text
  unfolding read_whole text_eq
  fetch_pack blob s = do
    bytes ← read_whole (pos_part blob.size) s
    pack ← closed s bytes
    guard (text_eq (content_digest pack) blob.digest) "registry pack digest mismatch"
    ok pack

  abbrev pub checked : SnapshotFile → Text → Result Text
  checked f bytes =
      if not (text_eq (content_digest bytes) f.digest)
      then err "registry packed record digest mismatch"
      else ok bytes

  -- The record of a pack's bytes; `none` when the slice panics.
  unfoldable pub read_record : SnapshotFile → Text → Option (Result Text)
  unfolding slice_range text_eq
  read_record f pack = elim (slice_range f.offset f.size pack) [
    | none ↦ none
    | some bytes ↦ some (checked f bytes)
  ]

record Front (n : ℕ) (pack : Text) : Type 0 where
  bytes : Text
  back : Text
  whole : pack ≡ bytes ++ back
  within : length bytes ≡ n
  sliced : slice 0 n pack ≡ bytes

-- A list cut into what is before a range, in it, and behind it.
record Cut (o n : ℕ) (pack : Text) : Type 0 where
  front : Text
  bytes : Text
  back : Text
  whole : pack ≡ front ++ bytes ++ back
  before : length front ≡ o
  within : length bytes ≡ n
  sliced : slice o n pack ≡ bytes

prefix_of : (n : ℕ) (pack : Text) → n ≤ length pack → Front n pack
unfolding slice
prefix_of zero pack h = record {
  bytes = [];
  back = pack;
  whole = refl;
  within = refl;
  sliced = refl;
}
prefix_of (suc n) [] h = absurd (omega arith)
prefix_of (suc n) (c ∷ pack) h =
    let rest = prefix_of n pack (omega arith) in
    record {
      bytes = c ∷ rest.bytes;
      back = rest.back;
      whole = ap (λ (t : Text). c ∷ t) rest.whole;
      within = omega (arith, rest.within);
      sliced = ap (λ (t : Text). c ∷ t) rest.sliced;
    }

cut : (o n : ℕ) (pack : Text) → o + n ≤ length pack → Cut o n pack
unfolding slice
cut zero n pack h =
    let f = prefix_of n pack (omega (arith, h)) in
    record {
      front = [];
      bytes = f.bytes;
      back = f.back;
      whole = f.whole;
      before = refl;
      within = f.within;
      sliced = f.sliced;
    }
cut (suc o) n [] h = absurd (omega arith)
cut (suc o) n (c ∷ pack) h =
    let rest = cut o n pack (omega arith) in
    record {
      front = c ∷ rest.front;
      bytes = rest.bytes;
      back = rest.back;
      whole = ap (λ (t : Text). c ∷ t) rest.whole;
      before = omega (arith, rest.before);
      within = rest.within;
      sliced = rest.sliced;
    }

slice_range-Cut :
    (o n : ℕ) (pack : Text)
    → o + n ≤ length pack
    → length pack < 10_737_418_240
    → slice_range (pos o) (pos n) pack ≡ some (slice o n pack)
unfolding slice_range
slice_range-Cut o n pack h small =
    let whole : (o + n) % 18_446_744_073_709_551_616 ≡ o + n = omega arith in
    let size : o + n - o ≡ n = omega arith in rw (whole, size) (ground arith)

module _ (content_digest : Text → Text) where
  no_pack : (m : String) (pack : Text) → err m ≡ ok pack → ⊥
  no_pack m pack h = cc

  read_whole-bytes :
      (size : ℕ) (s : Stream) (pack : Text)
      → read_whole size s ≡ ok pack
      → (s.bytes ≡ pack) × (length pack ≡ size)
  unfolding read_whole
  read_whole-bytes size s pack h = elim (Bool-cases (ltb (length s.bytes) size)) [
    | inl e ↦ absurd (no_pack _ pack (rw (e, read_whole, if◌then◌else◌) at h))
    | inr e ↦ elim (Bool-cases (ltb size (length s.bytes))) [
      | inl f ↦ absurd (no_pack _ pack (rw (e, f, read_whole, if◌then◌else◌) at h))
      | inr f ↦ elim (Option-cases s.fault) [
        | inr (m, g) ↦ absurd (no_pack m pack (rw (e, f, g, read_whole, if◌then◌else◌) at h))
        | inl g ↦
            let same = ok_eq s.bytes pack (rw (e, f, g, read_whole, if◌then◌else◌) at h) in
            (same, ap length (sym same) ∙ ground (arith, e, f))
      ]
    ]
  ]

  closed-bytes : (s : Stream) (bytes pack : Text) → closed s bytes ≡ ok pack → bytes ≡ pack
  closed-bytes s bytes pack h = elim (Option-cases s.closing) [
    | inl e ↦ ok_eq bytes pack (rw e at h)
    | inr (m, e) ↦ absurd (no_pack m pack (rw e at h))
  ]

  fetch_pack-bytes :
      (blob : Descriptor) (s : Stream) (pack : Text)
      → fetch_pack content_digest blob s ≡ ok pack
      → (s.bytes ≡ pack) × (length pack ≡ pos_part blob.size) × (content_digest pack ≡ blob.digest)
  unfolding fetch_pack
  fetch_pack-bytes blob s pack h =
      let (bytes, whole, h1) = ok_parts (read_whole (pos_part blob.size) s) _ h in
      let (same, closing, h2) = ok_parts (closed s bytes) _ h1 in
      let (good, last) =
        passed (text_eq (content_digest same) blob.digest) "registry pack digest mismatch" _ h2 in
      let (all, long) = read_whole-bytes (pos_part blob.size) s bytes whole in
      let kept = closed-bytes s bytes same closing in
      let taken = ok_eq same pack last in
      (
        all ∙ kept ∙ taken,
        ap length (sym (kept ∙ taken)) ∙ long,
        ap content_digest (sym taken) ∙ (text_eq_iff (content_digest same) blob.digest).0 good,
      )

  record_sliced :
      (f : SnapshotFile) (pack bytes : Text)
      → slice_range f.offset f.size pack ≡ some bytes
      → read_record content_digest f pack ≡ some (checked content_digest f bytes)
  unfolding read_record
  record_sliced f pack bytes h = rw (h, read_record) refl

  -- A record of a pack that was fetched, if its location is valid, is there: the slice of the pack's
  -- bytes does not panic and is what stands at the offset, of the record's size, and it is returned if
  -- its digest is the record's. The pack's bytes are all that the stream has, with the blob's size and digest.
  pub read_record_in_pack :
      (f : SnapshotFile) (s : Stream) (pack : Text)
      → validate f ≡ ok tt
      → fetch_pack content_digest f.blob s ≡ ok pack
      → (front : Text) × (bytes : Text) × (back : Text) × (pack ≡ front ++ bytes ++ back)
        × (f.offset ≡ pos (length front))
        × (f.size ≡ pos (length bytes))
        × (f.blob.size ≡ pos (length pack))
        × (s.bytes ≡ pack)
        × (content_digest pack ≡ f.blob.digest)
        × (read_record content_digest f pack ≡ some (checked content_digest f bytes))
  unfolding read_record
  read_record_in_pack f s pack valid fetched =
      let (o, n, b, offset, size, whole, some_bytes, inside, small) = validate_lem f valid in
      let (stream, long, digest) = fetch_pack-bytes f.blob s pack fetched in
      let fits : length pack ≡ b = long ∙ ap pos_part whole in
      let c = cut o n pack (omega (arith, inside, fits)) in
      let range =
        slice_range-Cut o n pack (omega (arith, inside, fits)) (omega (arith, small, fits)) in
      (
        c.front,
        c.bytes,
        c.back,
        c.whole,
        offset ∙ ap pos (sym c.before),
        size ∙ ap pos (sym c.within),
        whole ∙ ap pos (sym fits),
        stream,
        digest,
        record_sliced f pack c.bytes (
            ap (λ x. slice_range x f.size pack) offset
            ∙ ap (λ y. slice_range (pos o) y pack) size
            ∙ range
            ∙ ap (λ (t : Text). some t) c.sliced),
      )
