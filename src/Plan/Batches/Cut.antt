-- ===== src/Plan/Batches/Cut.antt =====
-- Cutting the ordered builds into batches loses none and keeps the limit.
use nix_ci_worker.Base.{
  ℕ, zero, suc, ◌+◌, ◌≤◌, ◌<◌, ◌≡◌, ◌∙◌, refl, ap, Text, List, [], ◌∷◌, ◌++◌, All, length, min,
  arith,
}
use nix_ci_worker.Plan.Batches.{split_at, cut_batches}

abbrev pub join : List (List Text) → List Text
join [] = []
join (b ∷ bs) = b ++ join bs

split_at-append : (n : ℕ) (xs : List Text) → (split_at n xs).0 ++ (split_at n xs).1 ≡ xs
unfolding split_at
split_at-append zero xs = refl
split_at-append (suc n) [] = refl
split_at-append (suc n) (x ∷ xs) = ap (◌∷◌ x) (split_at-append n xs)

split_at-length :
    (n : ℕ) (xs : List Text)
    → n ≤ length xs
    → (length (split_at n xs).0 ≡ n) × (length (split_at n xs).1 + n ≡ length xs)
unfolding split_at
split_at-length zero xs h = (refl, omega arith)
split_at-length (suc n) [] h = (omega arith, omega arith)
split_at-length (suc n) (x ∷ xs) h =
    let (a, b) = split_at-length n xs (omega arith) in (omega arith, omega arith)

pub cut_batches-join :
    (fuel limit : ℕ) (xs : List Text)
    → 0 < limit
    → length xs ≤ fuel
    → join (cut_batches fuel limit xs) ≡ xs
unfolding cut_batches
cut_batches-join zero limit [] pos room = refl
cut_batches-join zero limit (x ∷ xs) pos room = absurd (omega arith)
cut_batches-join (suc fuel) limit [] pos room = refl
cut_batches-join (suc fuel) limit (x ∷ xs) pos room =
    let n = min limit (length (x ∷ xs)) in
    let (a, b) = split_at-length n (x ∷ xs) (omega arith) in
    ap (◌++◌ (split_at n (x ∷ xs)).0)
      (cut_batches-join fuel limit (split_at n (x ∷ xs)).1 pos (omega arith))
    ∙ split_at-append n (x ∷ xs)

pub cut_batches-limit :
    (fuel limit : ℕ) (xs : List Text)
    → 0 < limit
    → All (λ b. (0 < length b) × (length b ≤ limit)) (cut_batches fuel limit xs)
unfolding cut_batches
cut_batches-limit zero limit xs pos = tt
cut_batches-limit (suc fuel) limit [] pos = tt
cut_batches-limit (suc fuel) limit (x ∷ xs) pos =
    let n = min limit (length (x ∷ xs)) in
    let (a, b) = split_at-length n (x ∷ xs) (omega arith) in
    ((omega arith, omega arith), cut_batches-limit fuel limit (split_at n (x ∷ xs)).1 pos)
