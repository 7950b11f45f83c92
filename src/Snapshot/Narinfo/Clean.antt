-- ===== src/Snapshot/Narinfo/Clean.antt =====
-- worker/snapshot.go: no store path and no reference has a line end in it.
use nix_ci_worker.Base.{
  ℕ, zero, suc, ◌≡◌, refl, sym, subst, ◌==◌, Text, [], ◌∷◌, ◌++◌, Bool, true, not, all, codes,
  has_prefix, drop_prefix, has_prefix_lem, and_parts, arith, List,
}
use nix_ci_worker.Snapshot.Paths.{hash_byte, path_byte, hashed_name, valid_store_path}
use nix_ci_worker.Snapshot.Narinfo.{record_ref, name_part, store_dir}
use nix_ci_worker.Snapshot.Narinfo.First.{no_newline}

-- Tests that one test implies, and tests that agree where one holds.
pub all_mono :
    (p q : ℕ → Bool) (s : Text)
    → ((c : ℕ) → p c ≡ true → q c ≡ true)
    → all p s ≡ true
    → all q s ≡ true
all_mono p q [] f h = refl
all_mono p q (c ∷ s) f h = ground (arith, f c, all_mono p q s f)

pub all_agree :
    (good p q : Text → Bool) (xs : List Text)
    → ((x : Text) → good x ≡ true → p x ≡ q x)
    → all good xs ≡ true
    → all p xs ≡ all q xs
all_agree good p q [] f h = refl
all_agree good p q (x ∷ xs) f h = ground (arith, f x, all_agree good p q xs f)

hash_byte_lem : (c : ℕ) → hash_byte c ≡ true → not (c == 10) ≡ true
hash_byte_lem c h = ground arith

path_byte_lem : (c : ℕ) → path_byte c ≡ true → not (c == 10) ≡ true
path_byte_lem c h = ground arith

name_part_lem : (c : ℕ) → name_part c ≡ true → not (c == 10) ≡ true
name_part_lem c h = ground arith

hashed_name_lem : (n : ℕ) (s : Text) → hashed_name n s ≡ true → no_newline s ≡ true
unfolding hashed_name
hashed_name_lem zero [] h = refl
hashed_name_lem zero (d ∷ []) h = absurd (ground arith)
hashed_name_lem zero (d ∷ c ∷ name) h =
    let (dash, rest) = and_parts (d == b'-') (all path_byte (c ∷ name)) h in
    let clean = all_mono path_byte (λ x. not (x == 10)) (c ∷ name) path_byte_lem rest in
    ground arith
hashed_name_lem (suc n) [] h = refl
hashed_name_lem (suc n) (c ∷ s) h =
    let (first, rest) = and_parts (hash_byte c) (hashed_name n s) h in
    let one = hash_byte_lem c first in let more = hashed_name_lem n s rest in rw (one, more) refl

record_ref_lem : (n : ℕ) (s : Text) → record_ref n s ≡ true → no_newline s ≡ true
unfolding record_ref
record_ref_lem zero [] h = refl
record_ref_lem zero (d ∷ []) h = absurd (ground arith)
record_ref_lem zero (d ∷ c ∷ name) h =
    let (dash, rest) = and_parts (d == b'-') (all name_part (c ∷ name)) h in
    let clean = all_mono name_part (λ x. not (x == 10)) (c ∷ name) name_part_lem rest in
    ground arith
record_ref_lem (suc n) [] h = refl
record_ref_lem (suc n) (c ∷ s) h =
    let (first, rest) = and_parts (hash_byte c) (record_ref n s) h in
    let one = hash_byte_lem c first in let more = record_ref_lem n s rest in rw (one, more) refl

pub record_ref-no_newline :
    (ref : Text) → record_ref 32 ref ≡ true → no_newline (store_dir ++ ref) ≡ true
record_ref-no_newline ref h = record_ref_lem 32 ref h

pub valid_store_path-no_newline :
    (path : Text) → valid_store_path path ≡ true → no_newline path ≡ true
unfolding valid_store_path
valid_store_path-no_newline path h =
    let (dir, name) =
      and_parts (has_prefix path (codes "/nix/store/"))
        (hashed_name 32 (drop_prefix path (codes "/nix/store/"))) h in
    let clean = hashed_name_lem 32 (drop_prefix path (codes "/nix/store/")) name in
    subst (λ (s : Text). no_newline s ≡ true) (sym (has_prefix_lem path (codes "/nix/store/") dir))
      clean
