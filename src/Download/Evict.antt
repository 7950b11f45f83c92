-- ===== src/Download/Evict.antt =====
-- Making room takes only packs that nobody reads, and stops when there is room or nothing to take.
use nix_ci_worker.Base.{
  ℕ, zero, suc, ◌+◌, ◌-◌, ◌≤◌, ◌<◌, ◌≡◌, ◌==◌, ◌⊎◌, refl, subst, some_eq, Text, Dict, [], ◌∷◌,
  Option, none, some, true, false, false≢true, ◌&&◌, ltb, leb, Bool-cases, Option-cases, inl, inr,
  keys, IsUnique, arith, text_eq, text_eq_iff, length, lookup, lookup-none, lookup-delete, delete,
  delete-IsUnique,
}
use nix_ci_worker.Download.{DownloadedPack, size_of, PackDownloads, oldest_pack, make_room}
use nix_ci_worker.Download.Sizes.{total, total-delete}

oldest_pack-found :
    (m : Dict DownloadedPack) (oldest : Option (Text × ℕ)) (age : ℕ) (name : Text) (n : ℕ)
    → IsUnique (keys m)
    → oldest_pack m oldest age ≡ some (name, n)
    → (oldest ≡ some (name, n))
      ⊎ ((p : DownloadedPack) × (lookup name m ≡ some p)
          × (p.readers ≡ 0)
          × (n ≡ size_of p.descriptor))
unfolding oldest_pack lookup
oldest_pack-found [] oldest age name n u h = inl h
oldest_pack-found ((k, c) ∷ m) oldest age name n u h =
    elim (Bool-cases (c.readers == 0 && ltb c.used age)) [
      | inl e ↦
          elim (oldest_pack-found m (some (k, size_of c.descriptor)) c.used name n u.1
            (rw e at h)) [
              | inl same ↦ inr (
                c,
                ground (arith, same, text_eq_iff k name),
                ground (arith, e),
                ground (arith, same),
              )
              | inr (p, q, r, s) ↦
                  inr (p, ground (arith, q, r, text_eq_iff k name, lookup-none k m u.0), r, s)
            ]
      | inr e ↦ elim (oldest_pack-found m oldest age name n u.1 (rw e at h)) [
        | inl same ↦ inl same
        | inr (p, q, r, s) ↦
            inr (p, ground (arith, q, r, text_eq_iff k name, lookup-none k m u.0), r, s)
      ]
    ]

oldest_pack-none :
    (m : Dict DownloadedPack) (oldest : Option (Text × ℕ)) (age : ℕ)
    → oldest_pack m oldest age ≡ none
    → (oldest ≡ none)
      × ((k : Text) (p : DownloadedPack)
          → lookup k m ≡ some p
          → (p.readers == 0 && ltb p.used age) ≡ false)
unfolding oldest_pack lookup
oldest_pack-none [] oldest age h = (h, λ k p q. ground arith)
oldest_pack-none ((j, c) ∷ m) oldest age h = elim (Bool-cases (c.readers == 0 && ltb c.used age)) [
  | inl e ↦
      absurd
        (ground (arith, (oldest_pack-none m (some (j, size_of c.descriptor)) c.used (rw e at h)).0))
  | inr e ↦
      let (same, rest) = oldest_pack-none m oldest age (rw e at h) in
      (
        same,
        λ k p q. elim (Bool-cases (text_eq j k)) [
          | inl f ↦
              subst (λ x. (x.readers == 0 && ltb x.used age) ≡ false) (some_eq c p (rw f at q)) e
          | inr f ↦ rest k p (rw f at q)
        ],
      )
]

-- What is left of a cache after room was made in it.
pub record Trimmed (size : ℕ) (c d : PackDownloads) : Type 0 where
  pub limit : d.limit ≡ c.limit
  pub clock : d.clock ≡ c.clock
  pub made : d.made ≡ c.made
  pub unique : IsUnique (keys d.packs)
  pub summed : d.bytes ≡ total d.packs
  pub fewer : d.bytes ≤ c.bytes
  pub within :
      (k : Text) (p : DownloadedPack) → lookup k d.packs ≡ some p → lookup k c.packs ≡ some p
  pub kept :
      (k : Text) (p : DownloadedPack)
      → lookup k c.packs ≡ some p
      → 0 < p.readers
      → lookup k d.packs ≡ some p

Trimmed-self :
    (size : ℕ) (c : PackDownloads)
    → IsUnique (keys c.packs)
    → c.bytes ≡ total c.packs
    → Trimmed size c c
Trimmed-self size c u s = record {
  limit = refl;
  clock = refl;
  made = refl;
  unique = u;
  summed = s;
  fewer = omega arith;
  within = λ k p h. h;
  kept = λ k p h q. h;
}

abbrev without : Text → ℕ → PackDownloads → PackDownloads
without oldest n c = record c { bytes = c.bytes - n; packs = delete oldest c.packs }

-- Taking one pack that nobody reads, and then more.
Trimmed-without :
    (size n : ℕ) (c d : PackDownloads) (oldest : Text) (p : DownloadedPack)
    → IsUnique (keys c.packs)
    → lookup oldest c.packs ≡ some p
    → p.readers ≡ 0
    → Trimmed size (without oldest n c) d
    → Trimmed size c d
Trimmed-without size n c d oldest p u found free t = record {
  limit = t.limit;
  clock = t.clock;
  made = t.made;
  unique = t.unique;
  summed = t.summed;
  fewer = omega (arith, t.fewer);
  within = λ k q h. ground (arith, t.within k q h, lookup-delete oldest k c.packs u);
  kept = λ k q h r.
      t.kept k q
        (ground (
          arith,
          lookup-delete oldest k c.packs u,
          text_eq_iff oldest k,
          found,
          free,
          h,
          r,
          some_eq p q,
        ))
        r;
}

without-summed :
    (c : PackDownloads) (oldest : Text) (p : DownloadedPack)
    → c.bytes ≡ total c.packs
    → lookup oldest c.packs ≡ some p
    → (without oldest (size_of p.descriptor) c).bytes ≡ total (delete oldest c.packs)
without-summed c oldest p s found = ground (arith, total-delete oldest c.packs)

pub make_room-Trimmed :
    (fuel size : ℕ) (c : PackDownloads)
    → IsUnique (keys c.packs)
    → c.bytes ≡ total c.packs
    → Trimmed size c (make_room fuel size c).0
      × ((make_room fuel size c).1 ≡ true
          → (make_room fuel size c).0.bytes + size ≤ (make_room fuel size c).0.limit)
unfolding make_room
make_room-Trimmed zero size c u s = (Trimmed-self size c u s, λ h. elim (false≢true h) [ ])
make_room-Trimmed (suc fuel) size c u s = elim (Bool-cases (leb (c.bytes + size) c.limit)) [
  | inl e ↦ rw e (Trimmed-self size c u s, λ h. ground (arith, e))
  | inr e ↦ elim (Option-cases (oldest_pack c.packs none c.clock)) [
    | inl f ↦ rw (e, f) (Trimmed-self size c u s, λ h. elim (false≢true h) [ ])
    | inr ((oldest, n), f) ↦ elim (oldest_pack-found c.packs none c.clock oldest n u f) [
      | inl h ↦ absurd (ground (arith, h))
      | inr (p, found, free, same) ↦
          let (t, room) =
            make_room-Trimmed fuel size (without oldest n c) (delete-IsUnique oldest c.packs u)
              (ground (arith, without-summed c oldest p s found, same)) in
          rw (e, f)
            (
              Trimmed-without size n c (make_room fuel size (without oldest n c)).0 oldest p u found
                  free t,
              room,
            )
    ]
  ]
]

length-delete :
    (k : Text) (p : DownloadedPack) (m : Dict DownloadedPack)
    → lookup k m ≡ some p
    → suc (length (delete k m)) ≡ length m
unfolding lookup delete
length-delete k p [] h = ground arith
length-delete k p ((j, q) ∷ m) h = ground (arith, length-delete k p m)

-- The least recent pack that nobody reads, if there is one that was used before.
pub record Full (size : ℕ) (d : PackDownloads) : Type 0 where
  pub full : d.limit < d.bytes + size
  pub taken :
      (k : Text) (p : DownloadedPack)
      → lookup k d.packs ≡ some p
      → (p.readers == 0 && ltb p.used d.clock) ≡ false

pub make_room-Full :
    (fuel size : ℕ) (c : PackDownloads)
    → length c.packs < fuel
    → IsUnique (keys c.packs)
    → (make_room fuel size c).1 ≡ false
    → Full size (make_room fuel size c).0
unfolding make_room
make_room-Full zero size c room u h = absurd (omega arith)
make_room-Full (suc fuel) size c room u h = elim (Bool-cases (leb (c.bytes + size) c.limit)) [
  | inl e ↦ absurd (ground (arith, h, e))
  | inr e ↦ elim (Option-cases (oldest_pack c.packs none c.clock)) [
    | inl f ↦
        rw (e, f)
          (record { full = ground (arith, e); taken = (oldest_pack-none c.packs none c.clock f).1 })
    | inr ((oldest, n), f) ↦ elim (oldest_pack-found c.packs none c.clock oldest n u f) [
      | inl g ↦ absurd (ground (arith, g))
      | inr (p, found, free, same) ↦
          let smaller = length-delete oldest p c.packs found in
          rw (e, f)
            (make_room-Full fuel size (without oldest n c) (omega (arith, smaller))
              (delete-IsUnique oldest c.packs u) (rw (e, f) at h))
    ]
  ]
]
