-- ===== src/Download.antt =====
-- worker/download.go: the packs that parallel reads of a cache share, within a budget of bytes.
pub mod Records
pub mod Sizes
pub mod Invariant
pub mod Evict
pub mod Ends
pub mod Budget
pub mod Safe
use nix_ci_worker.Base.{
  ℕ, zero, suc, ◌+◌, ◌-◌, ◌≡◌, ◌==◌, Text, Dict, List, [], ◌∷◌, Option, none, some, Bool, true,
  false, not, ◌&&◌, ◌||◌, if◌then◌else◌, ltb, leb, length, lookup, insert, delete, has, get_elem?,
  set, remove_at, text_eq, Result, ok, err,
}
use nix_ci_worker.Base.Int.{pos_part, eq_ℤ}
use nix_ci_worker.Snapshot.Files.{Descriptor, SnapshotFile, validate}

-- `serial` tells the objects apart that the pointers of the map point to.
pub record DownloadedPack : Type 0 where
  pub descriptor : Descriptor
  pub serial : ℕ
  pub readers : ℕ
  pub used : ℕ

-- The size of a descriptor that has passed `validate`, where it is positive.
abbrev pub size_of : Descriptor → ℕ
size_of d = pos_part d.size

-- `made` counts the objects that were made.
pub record PackDownloads : Type 0 where
  pub limit : ℕ
  pub bytes : ℕ
  pub clock : ℕ
  pub packs : Dict DownloadedPack
  pub recent : Dict ℕ
  pub made : ℕ

abbrev pub new_pack_downloads : ℕ → PackDownloads
new_pack_downloads limit = record {
  limit = limit;
  bytes = 0;
  clock = 0;
  packs = [];
  recent = [];
  made = 0;
}

abbrev pub cache_pack_size : ℕ
cache_pack_size = 16_777_216

abbrev pub download_history_entries : ℕ
download_history_entries = 1024

-- The loop for the `oldest` entry of `recent` below an age.
unfoldable pub oldest_recent : Dict ℕ → Option Text → ℕ → Option Text
oldest_recent [] oldest age = oldest
oldest_recent ((name, used) ∷ m) oldest age =
    if ltb used age then oldest_recent m (some name) used else oldest_recent m oldest age

-- The loop for the `oldest` pack that nobody reads; with it the size of that pack.
unfoldable pub oldest_pack : Dict DownloadedPack → Option (Text × ℕ) → ℕ → Option (Text × ℕ)
oldest_pack [] oldest age = oldest
oldest_pack ((name, candidate) ∷ m) oldest age =
    if candidate.readers == 0 && ltb candidate.used age
    then oldest_pack m (some (name, size_of candidate.descriptor)) candidate.used
    else oldest_pack m oldest age

unfoldable pub forget : Option Text → Dict ℕ → Dict ℕ
unfolding delete
forget none recent = recent
forget (some oldest) recent = delete oldest recent

-- A read is noted; the least recent of too many notes is dropped.
unfoldable pub remember : Text → PackDownloads → PackDownloads
unfolding insert forget oldest_recent
remember key c =
    let recent = insert key c.clock c.recent in
    record c {
      recent =
          if ltb download_history_entries (length recent)
          then forget (oldest_recent recent none c.clock) recent
          else recent;
    }

-- `for c.bytes+file.Blob.Size > c.limit`, and whether there is room then: each round takes one pack
-- away, so a round for each pack and one more are enough.
unfoldable pub make_room : ℕ → ℕ → PackDownloads → PackDownloads × Bool
unfolding oldest_pack delete
make_room zero size c = (c, false)
make_room (suc fuel) size c =
    if leb (c.bytes + size) c.limit then (c, true) else elim (oldest_pack c.packs none c.clock) [
      | none ↦ (c, false)
      | some (oldest, n) ↦
          make_room fuel size (record c { bytes = c.bytes - n; packs = delete oldest c.packs })
    ]

-- What a read does after the lock is released: it fails, it fetches the record alone, or it reads
-- the pack with that serial, which it downloads itself when it made it.
pub data Access : Type 0 where
  conflicting : Access
  direct : Access
  joins : ℕ → Access
  owns : ℕ → Access

-- The pack gets one more reader.
abbrev pub taken : ℕ → DownloadedPack → DownloadedPack
taken clock pack = record pack { readers = pack.readers + 1; used = clock }

-- A pack that is not in the cache: its first read is fetched alone, and its second makes the pack.
unfoldable pub admit_new : Text → SnapshotFile → PackDownloads → Access × PackDownloads
unfolding lookup insert remember make_room
admit_new key file c =
    let size = size_of file.blob in
    let noted = remember key c in
    let (d, room) = make_room (suc (length c.packs)) size noted in
    let pack : DownloadedPack = record {
      descriptor = file.blob;
      serial = d.made;
      readers = 1;
      used = d.clock;
    } in
    if not (has c.recent key) then (direct, noted) else if not room then (direct, d) else (
      owns d.made,
      record d { packs = insert key pack d.packs; bytes = d.bytes + size; made = d.made + 1 },
    )

-- Reads that are not worth a pack: of a whole blob, or of one that is too large.
abbrev pub alone : SnapshotFile → PackDownloads → Bool
alone file c =
    eq_ℤ file.size file.blob.size
    || ltb cache_pack_size (size_of file.blob)
    || ltb c.limit (size_of file.blob)

abbrev pub conflicts : DownloadedPack → SnapshotFile → Bool
conflicts pack file =
    not (eq_ℤ pack.descriptor.size file.blob.size)
    || not (text_eq pack.descriptor.media_type file.blob.media_type)

-- The part of `read` under the lock, after the look into the map.
unfoldable pub admit_at :
    Text → SnapshotFile → PackDownloads → Option DownloadedPack → Access × PackDownloads
unfolding insert admit_new text_eq
admit_at key file c (some pack) =
    if conflicts pack file
    then (conflicting, c)
    else if alone file c
    then (direct, c)
    else (joins pack.serial, record c { packs = insert key (taken c.clock pack) c.packs })
admit_at key file c none = if alone file c then (direct, c) else admit_new key file c

-- The part of `read` under the lock, for a file that has passed `validate`.
unfoldable pub admit : Text → SnapshotFile → PackDownloads → Access × PackDownloads
unfolding lookup admit_at
admit key file before =
    let c = record before { clock = before.clock + 1 } in admit_at key file c (lookup key c.packs)

-- A read that holds a pack: until its download is over, while its owner downloads it.
pub record Reader : Type 0 where
  pub key : Text
  pub serial : ℕ
  -- file.Blob.Size
  pub size : ℕ
  pub downloading : Bool

abbrev pub reads : Text → ℕ → Reader → Bool
reads key serial r = text_eq r.key key && r.serial == serial

-- The shared cache, with the reads that have passed the lock.
pub record Cache : Type 0 where
  pub downloads : PackDownloads
  pub readers : List Reader

-- What a read goes on with, after the lock.
abbrev pub after : Text → ℕ → List Reader → Access × PackDownloads → Cache
after key size rs (access, c) = elim access [
  | conflicting ↦ record { downloads = c; readers = rs }
  | direct ↦ record { downloads = c; readers = rs }
  | joins serial ↦ record {
    downloads = c;
    readers = record { key = key; serial = serial; size = size; downloading = false } ∷ rs;
  }
  | owns serial ↦ record {
    downloads = c;
    readers = record { key = key; serial = serial; size = size; downloading = true } ∷ rs;
  }
]

unfoldable pub enter : Text → SnapshotFile → Cache → Cache
unfolding admit
enter key file w = after key (size_of file.blob) w.readers (admit key file w.downloads)

-- The owner's download is over; a failed one takes its pack out of the cache.
unfoldable pub download_ends : ℕ → Reader → Bool → Cache → Cache
unfolding delete
download_ends i r good w =
    let c = w.downloads in
    record {
      downloads =
          if good then c else record c { packs = delete r.key c.packs; bytes = c.bytes - r.size };
      readers = set w.readers i (record r { downloading = false });
    }

-- `pack.readers--`: a pack that has left the cache counts its readers for nobody.
unfoldable pub drop_reader : Reader → PackDownloads → Option DownloadedPack → PackDownloads
unfolding insert
drop_reader r c none = c
drop_reader r c (some pack) =
    if pack.serial == r.serial
    then record c { packs = insert r.key (record pack { readers = pack.readers - 1 }) c.packs }
    else c

-- `release`
unfoldable pub releases_pack : ℕ → Reader → Cache → Cache
unfolding drop_reader lookup
releases_pack i r w = record {
  downloads = drop_reader r w.downloads (lookup r.key w.downloads.packs);
  readers = remove_at w.readers i;
}

-- The steps of parallel reads, each a part of `read` that holds the lock.
pub data Step : Cache → Cache → Type 0 where
  admits :
      (w : Cache) (key : Text) (file : SnapshotFile)
      → validate file ≡ ok tt
      → Step w (enter key file w)
  ends :
      (w : Cache) (i : ℕ) (r : Reader) (good : Bool)
      → get_elem? w.readers i ≡ some r
      → r.downloading ≡ true
      → Step w (download_ends i r good w)
  closes :
      (w : Cache) (i : ℕ) (r : Reader)
      → get_elem? w.readers i ≡ some r
      → r.downloading ≡ false
      → Step w (releases_pack i r w)

pub data Reach (limit : ℕ) : Cache → Type 0 where
  opened : Reach limit (record { downloads = new_pack_downloads limit; readers = [] })
  later : {v w : Cache} → Reach limit v → Step v w → Reach limit w
