-- ===== src/Download/Safe.antt =====
-- What the shared packs of worker/download.go guarantee in every state that parallel reads come to.
use nix_ci_worker.Base.{
  ℕ, suc, ◌+◌, ◌≤◌, ◌<◌, ◌≡◌, ◌==◌, ==_iff, ◌∙◌, refl, sym, subst, some_eq, Text, List, [], Option,
  none, some, Bool, true, false, Bool-cases, Option-cases, inl, inr, All-get, arith, count,
  count-remove_at, text_eq_self, length, lookup, has, if◌then◌else◌, get_elem?,
}
use nix_ci_worker.Snapshot.Files.{SnapshotFile}
use nix_ci_worker.Download.{
  DownloadedPack, size_of, PackDownloads, new_pack_downloads, remember, make_room, Access,
  conflicting, direct, joins, owns, admit, admit_at, admit_new, alone, conflicts, Reader, reads,
  Cache, after, enter, download_ends, drop_reader, releases_pack, Step, admits, ends, closes, Reach,
  opened, later,
}
use nix_ci_worker.Download.Sizes.{total}
use nix_ci_worker.Download.Invariant.{owner, Sized, Inv}
use nix_ci_worker.Download.Evict.{make_room-Trimmed, make_room-Full}
use nix_ci_worker.Download.Budget.{ticked, trimmed, joined, made_pack}
use nix_ci_worker.Download.Ends.{ended_well, ended_badly, closed_gone, closed}

abbrev CacheInv : Cache → Type 0
CacheInv w = Inv w.downloads w.readers

admit_new-Inv :
    (key : Text) (file : SnapshotFile) (c : PackDownloads) (rs : List Reader)
    → lookup key c.packs ≡ none
    → Inv c rs
    → Inv (remember key c) rs
    → CacheInv (after key (size_of file.blob) rs (admit_new key file c))
unfolding admit_new remember
admit_new-Inv key file c rs new v quiet =
    let size = size_of file.blob in
    let noted = remember key c in
    let d = (make_room (suc (length c.packs)) size noted).0 in
    let (t, room) = make_room-Trimmed (suc (length c.packs)) size noted quiet.unique quiet.summed in
    let absent : lookup key d.packs ≡ none = elim (Option-cases (lookup key d.packs)) [
      | inl e ↦ e
      | inr (p, e) ↦ absurd (ground (arith, new, t.within key p e))
    ] in
    elim (Bool-cases (has c.recent key)) [
      | inr g ↦ rw (g, if◌then◌else◌) quiet
      | inl g ↦ elim (Bool-cases (make_room (suc (length c.packs)) size noted).1) [
        | inr h ↦ rw (g, h, if◌then◌else◌) (trimmed size noted d rs t quiet)
        | inl h ↦
            rw (g, h, if◌then◌else◌)
              (made_pack d rs key size _ absent (room h) refl refl refl (omega arith)
                (trimmed size noted d rs t quiet))
      ]
    ]

admit_at-Inv :
    (key : Text) (file : SnapshotFile) (c : PackDownloads) (rs : List Reader)
    (found : Option DownloadedPack)
    → lookup key c.packs ≡ found
    → Inv c rs
    → Inv (remember key c) rs
    → CacheInv (after key (size_of file.blob) rs (admit_at key file c found))
unfolding admit_at
admit_at-Inv key file c rs none new v quiet = elim (Bool-cases (alone file c)) [
  | inl e ↦ rw (e, if◌then◌else◌) v
  | inr e ↦ rw (e, if◌then◌else◌) (admit_new-Inv key file c rs new v quiet)
]
admit_at-Inv key file c rs (some p) found v quiet = elim (Bool-cases (conflicts p file)) [
  | inl e ↦ rw (e, if◌then◌else◌) v
  | inr e ↦ elim (Bool-cases (alone file c)) [
    | inl f ↦ rw (e, f, if◌then◌else◌) v
    | inr f ↦ rw (e, f, if◌then◌else◌) (joined c rs key (size_of file.blob) p found v)
  ]
]

enter-Inv :
    (key : Text) (file : SnapshotFile) (w : Cache) → CacheInv w → CacheInv (enter key file w)
unfolding enter admit remember
enter-Inv key file w v =
    let c = w.downloads in
    let next = record c { clock = c.clock + 1 } in
    admit_at-Inv key file next w.readers (lookup key c.packs) refl (ticked c c.recent w.readers v)
      (ticked c (remember key next).recent w.readers v)

download_ends-Inv :
    (i : ℕ) (r : Reader) (good : Bool) (w : Cache)
    → get_elem? w.readers i ≡ some r
    → r.downloading ≡ true
    → CacheInv w
    → CacheInv (download_ends i r good w)
unfolding download_ends
download_ends-Inv i r true w at loading v = ended_well w.downloads w.readers i r at v
download_ends-Inv i r false w at loading v = ended_badly w.downloads w.readers i r at v loading

releases_pack-Inv :
    (i : ℕ) (r : Reader) (w : Cache)
    → get_elem? w.readers i ≡ some r
    → r.downloading ≡ false
    → CacheInv w
    → CacheInv (releases_pack i r w)
unfolding releases_pack
releases_pack-Inv i r w at over v = elim (Option-cases (lookup r.key w.downloads.packs)) [
  | inl e ↦
      rw (e, drop_reader)
        (closed_gone w.downloads w.readers i r at v over (λ p h. absurd (ground (arith, e, h))))
  | inr (p, e) ↦ elim (Bool-cases (p.serial == r.serial)) [
    | inl f ↦
        rw (e, drop_reader, f)
          (closed w.downloads w.readers i r at v over p e ((==_iff p.serial r.serial).0 f))
    | inr f ↦
        rw (e, drop_reader, f)
          (closed_gone w.downloads w.readers i r at v over
            (λ q h. subst (λ x. (x.serial == r.serial) ≡ false) (some_eq p q (sym e ∙ h)) f))
  ]
]

Step-Inv : {w x : Cache} → Step w x → CacheInv w → CacheInv x
Step-Inv (admits w key file good) v = enter-Inv key file w v
Step-Inv (ends w i r good at loading) v = download_ends-Inv i r good w at loading v
Step-Inv (closes w i r at over) v = releases_pack-Inv i r w at over v

start-Inv : (limit : ℕ) → Inv (new_pack_downloads limit) []
unfolding total lookup count
start-Inv limit = record {
  unique = tt;
  summed = refl;
  limited = omega arith;
  counted = λ k p h. ground arith;
  numbered = λ k p h. ground arith;
  old = tt;
  single = λ k s. omega arith;
  owned = λ k s h. absurd (omega (arith, h));
  sized = tt;
}

Reach-Inv : {limit : ℕ} {w : Cache} → Reach limit w → CacheInv w
Reach-Inv {limit = limit} opened = start-Inv limit
Reach-Inv (later r s) = Step-Inv s (Reach-Inv r)

after-limit :
    (key : Text) (size : ℕ) (rs : List Reader) (a : Access × PackDownloads)
    → (after key size rs a).downloads.limit ≡ a.1.limit
after-limit key size rs (conflicting, c) = refl
after-limit key size rs (direct, c) = refl
after-limit key size rs (joins s, c) = refl
after-limit key size rs (owns s, c) = refl

admit_new-limit :
    (key : Text) (file : SnapshotFile) (c : PackDownloads) (rs : List Reader)
    → Inv (remember key c) rs
    → (admit_new key file c).1.limit ≡ c.limit
unfolding admit_new remember
admit_new-limit key file c rs v =
    let size = size_of file.blob in
    let (t, room) =
      make_room-Trimmed (suc (length c.packs)) size (remember key c) v.unique v.summed in
    elim (Bool-cases (has c.recent key)) [
      | inr g ↦ rw (g, if◌then◌else◌) refl
      | inl g ↦ elim (Bool-cases (make_room (suc (length c.packs)) size (remember key c)).1) [
        | inr h ↦ rw (g, h, if◌then◌else◌) t.limit
        | inl h ↦ rw (g, h, if◌then◌else◌) t.limit
      ]
    ]

admit_at-limit :
    (key : Text) (file : SnapshotFile) (c : PackDownloads) (rs : List Reader)
    (found : Option DownloadedPack)
    → Inv (remember key c) rs
    → (admit_at key file c found).1.limit ≡ c.limit
unfolding admit_at
admit_at-limit key file c rs none v = elim (Bool-cases (alone file c)) [
  | inl e ↦ rw (e, if◌then◌else◌) refl
  | inr e ↦ rw (e, if◌then◌else◌) (admit_new-limit key file c rs v)
]
admit_at-limit key file c rs (some p) v = elim (Bool-cases (conflicts p file)) [
  | inl e ↦ rw (e, if◌then◌else◌) refl
  | inr e ↦ elim (Bool-cases (alone file c)) [
    | inl f ↦ rw (e, f, if◌then◌else◌) refl
    | inr f ↦ rw (e, f, if◌then◌else◌) refl
  ]
]

drop_reader-limit :
    (r : Reader) (c : PackDownloads) (o : Option DownloadedPack)
    → (drop_reader r c o).limit ≡ c.limit
unfolding drop_reader
drop_reader-limit r c none = refl
drop_reader-limit r c (some p) = elim (Bool-cases (p.serial == r.serial)) [
  | inl e ↦ rw (e, if◌then◌else◌) refl
  | inr e ↦ rw (e, if◌then◌else◌) refl
]

Step-limit : {w x : Cache} → Step w x → CacheInv w → x.downloads.limit ≡ w.downloads.limit
unfolding enter admit download_ends releases_pack remember
Step-limit (admits w key file good) v =
    let c = w.downloads in
    let next = record c { clock = c.clock + 1 } in
    after-limit key (size_of file.blob) w.readers (admit key file c)
    ∙ admit_at-limit key file next w.readers (lookup key c.packs)
        (ticked c (remember key next).recent w.readers v)
Step-limit (ends w i r true at loading) v = refl
Step-limit (ends w i r false at loading) v = refl
Step-limit (closes w i r at over) v =
    drop_reader-limit r w.downloads (lookup r.key w.downloads.packs)

Reach-limit : {limit : ℕ} {w : Cache} → Reach limit w → w.downloads.limit ≡ limit
Reach-limit opened = refl
Reach-limit (later r s) = Step-limit s (Reach-Inv r) ∙ Reach-limit r

-- In every state that parallel reads of a cache come to, its byte count is the sum of the sizes of the packs it has or downloads, and within the limit it was made with.
pub budget :
    (limit : ℕ) (w : Cache)
    → Reach limit w
    → (w.downloads.bytes ≡ total w.downloads.packs) × (w.downloads.bytes ≤ limit)
budget limit w r = let v = Reach-Inv r in (v.summed, omega (arith, v.limited, Reach-limit r))

owner_counted :
    (rs : List Reader) (i : ℕ) (r : Reader)
    → get_elem? rs i ≡ some r
    → r.downloading ≡ true
    → 0 < count (owner r.key r.serial) rs
owner_counted rs i r at loading = ground (
  arith,
  count-remove_at (owner r.key r.serial) rs i r at,
  loading,
  text_eq_self r.key,
  ==_iff r.serial r.serial,
)

-- In every state that parallel reads come to, a pack that is being downloaded is in the cache under its key, with the size that its owner knows, and one read at most downloads it; every pack in the cache has as many readers as reads hold it.
pub held_packs_stay :
    (limit : ℕ) (w : Cache)
    → Reach limit w
    → ((i : ℕ) (r : Reader)
        → get_elem? w.readers i ≡ some r
        → r.downloading ≡ true
        → (p : DownloadedPack) × (lookup r.key w.downloads.packs ≡ some p)
          × (p.serial ≡ r.serial)
          × (size_of p.descriptor ≡ r.size))
      × ((k : Text) (s : ℕ) → count (owner k s) w.readers ≤ 1)
      × ((k : Text) (p : DownloadedPack)
          → lookup k w.downloads.packs ≡ some p
          → p.readers ≡ count (reads k p.serial) w.readers)
held_packs_stay limit w reach =
    let v = Reach-Inv reach in
    (
      λ i r at loading.
          let (p, found, same) = v.owned r.key r.serial (owner_counted w.readers i r at loading) in
          (
            p,
            found,
            same,
            All-get (Sized w.downloads) w.readers i r v.sized at loading p found same,
          ),
      v.single,
      v.counted,
    )

-- The search for room of the next read.
abbrev pub next_room : ℕ → PackDownloads → PackDownloads × Bool
next_room size c = make_room (suc (length c.packs)) size (record c { clock = c.clock + 1 })

-- In every state that parallel reads come to, making room for a pack keeps every pack that is read, and the room is there or every pack that is left is read and the limit would be exceeded.
pub make_room_exact :
    (limit size : ℕ) (w : Cache)
    → Reach limit w
    → ((next_room size w.downloads).1 ≡ true → (next_room size w.downloads).0.bytes + size ≤ limit)
      × ((next_room size w.downloads).1 ≡ false
          → (limit < (next_room size w.downloads).0.bytes + size)
            × ((k : Text) (p : DownloadedPack)
                → lookup k (next_room size w.downloads).0.packs ≡ some p
                → 0 < p.readers))
      × ((k : Text) (p : DownloadedPack)
          → lookup k w.downloads.packs ≡ some p
          → 0 < p.readers
          → lookup k (next_room size w.downloads).0.packs ≡ some p)
make_room_exact limit size w reach =
    let c = w.downloads in
    let v = Reach-Inv reach in
    let next = record c { clock = c.clock + 1 } in
    let (t, room) = make_room-Trimmed (suc (length c.packs)) size next v.unique v.summed in
    (
      λ h. omega (arith, room h, t.limit, Reach-limit reach),
      λ h.
          let f = make_room-Full (suc (length c.packs)) size next (omega arith) v.unique h in
          (
            omega (arith, f.full, t.limit, Reach-limit reach),
            λ k p g. ground (arith, f.taken k p g, t.clock, (v.numbered k p (t.within k p g)).1),
          ),
      t.kept,
    )
