-- ===== src/Download/Invariant.antt =====
-- What holds of the shared cache between two steps.
use nix_ci_worker.Base.{
  ℕ, ◌≤◌, ◌<◌, ◌≡◌, Text, List, some, Bool, true, ◌&&◌, keys, IsUnique, All, count, lookup,
}
use nix_ci_worker.Download.{DownloadedPack, size_of, PackDownloads, Reader, reads}
use nix_ci_worker.Download.Sizes.{total}

abbrev pub owner : Text → ℕ → Reader → Bool
owner key serial r = reads key serial r && r.downloading

-- The readers of a pack are the reads that hold it.
abbrev pub Counts : List Reader → Text → DownloadedPack → Type 0
Counts rs k p = p.readers ≡ count (reads k p.serial) rs

-- The pack that a read downloads has the size that the read knows.
abbrev pub Sized : PackDownloads → Reader → Type 0
Sized c r =
    r.downloading ≡ true
    → (p : DownloadedPack) → lookup r.key c.packs ≡ some p
    → p.serial ≡ r.serial
    → size_of p.descriptor ≡ r.size

pub record Inv (c : PackDownloads) (readers : List Reader) : Type 0 where
  pub unique : IsUnique (keys c.packs)
  pub summed : c.bytes ≡ total c.packs
  pub limited : c.bytes ≤ c.limit
  pub counted : (k : Text) (p : DownloadedPack) → lookup k c.packs ≡ some p → Counts readers k p
  pub numbered :
      (k : Text) (p : DownloadedPack)
      → lookup k c.packs ≡ some p
      → (p.serial < c.made) × (p.used ≤ c.clock)
  pub old : All (λ r. r.serial < c.made) readers
  pub single : (k : Text) (s : ℕ) → count (owner k s) readers ≤ 1
  pub owned :
      (k : Text) (s : ℕ)
      → 0 < count (owner k s) readers
      → (p : DownloadedPack) × (lookup k c.packs ≡ some p) × (p.serial ≡ s)
  pub sized : All (Sized c) readers
