-- ===== src/Plan/Batches/Release.antt =====
-- What releasing the consumers of a derivation does to the counts and to the ready list.
use nix_ci_worker.Base.{
  ℕ, ◌+◌, ◌-◌, ◌≡◌, ◌==◌, Text, List, [], ◌∷◌, ◌++◌, ◌&&◌, if◌then◌else◌, contains, text_eq,
  text_eq_iff, update, count, count-append, bit, times, IsUnique, arith,
}
use nix_ci_worker.Plan.Batches.{release}

-- The counts of the consumers fall by one.
pub release-counts :
    (cs : List Text) (counts : Text → ℕ) (ready : List Text) (x : Text)
    → IsUnique cs
    → (release cs counts ready).0 x ≡ counts x - bit (contains cs x)
unfolding release contains
release-counts [] counts ready x u = omega arith
release-counts (c ∷ cs) counts ready x u = ground (
  arith,
  release-counts cs (update counts c (counts c - 1))
      (if counts c - 1 == 0 then ready ++ c ∷ [] else ready) x u.1,
  text_eq_iff c x,
)

-- The consumers whose count comes to zero join the ready list, once each.
pub release-ready :
    (cs : List Text) (counts : Text → ℕ) (ready : List Text) (x : Text)
    → IsUnique cs
    → times x (release cs counts ready).1
      ≡ times x ready + bit (contains cs x && (counts x - 1 == 0))
unfolding release contains count
release-ready [] counts ready x u = omega arith
release-ready (c ∷ cs) counts ready x u = ground (
  arith,
  release-ready cs (update counts c (counts c - 1))
      (if counts c - 1 == 0 then ready ++ c ∷ [] else ready) x u.1,
  text_eq_iff c x,
  text_eq_iff x c,
  count-append (λ y. text_eq y x) ready (c ∷ []),
)
