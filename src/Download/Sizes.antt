-- ===== src/Download/Sizes.antt =====
-- The bytes of the packs in the cache, and what a change of the map does to them.
use nix_ci_worker.Base.{ℕ, ◌+◌, ◌≡◌, Text, Dict, [], ◌∷◌, none, some, arith, lookup, insert, delete}
use nix_ci_worker.Download.{DownloadedPack, size_of}

unfoldable pub total : Dict DownloadedPack → ℕ
total [] = 0
total ((k, p) ∷ m) = size_of p.descriptor + total m

abbrev pub size_at : Text → Dict DownloadedPack → ℕ
size_at k m = elim (lookup k m) [ none ↦ 0 | some p ↦ size_of p.descriptor ]

pub total-insert :
    (k : Text) (p : DownloadedPack) (m : Dict DownloadedPack)
    → total (insert k p m) + size_at k m ≡ size_of p.descriptor + total m
unfolding total insert lookup
total-insert k p [] = omega arith
total-insert k p ((j, q) ∷ m) = ground (arith, total-insert k p m)

pub total-delete : (k : Text) (m : Dict DownloadedPack) → total (delete k m) + size_at k m ≡ total m
unfolding total delete lookup
total-delete k [] = omega arith
total-delete k ((j, q) ∷ m) = ground (arith, total-delete k m)
