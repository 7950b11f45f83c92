-- ===== src/Publication/Packer/Ranges.antt =====
-- Slices of a string that grows.
use nix_ci_worker.Base.{zero, suc, ℕ, ◌+◌, ◌≤◌, ◌≡◌, refl, ap, Text, [], ◌∷◌, ◌++◌, length, arith}
use nix_ci_worker.Catalog.Partition.{slice}

pub slice-append :
    (o n : ℕ) (xs ys : Text) → o + n ≤ length xs → slice o n (xs ++ ys) ≡ slice o n xs
unfolding slice
slice-append zero zero [] [] h = refl
slice-append zero zero [] (y ∷ ys) h = refl
slice-append zero zero (x ∷ xs) ys h = refl
slice-append zero (suc n) [] ys h = absurd (omega arith)
slice-append zero (suc n) (c ∷ xs) ys h =
    ap (λ (t : Text). c ∷ t) (slice-append 0 n xs ys (omega arith))
slice-append (suc o) n [] ys h = absurd (omega arith)
slice-append (suc o) n (c ∷ xs) ys h = slice-append o n xs ys (omega arith)

pub slice_all : (s : Text) → slice 0 (length s) s ≡ s
unfolding slice
slice_all [] = refl
slice_all (c ∷ s) = ap (λ (t : Text). c ∷ t) (slice_all s)

pub slice_last : (xs ys : Text) → slice (length xs) (length ys) (xs ++ ys) ≡ ys
unfolding slice
slice_last [] ys = slice_all ys
slice_last (c ∷ xs) ys = slice_last xs ys
