-- ===== src/Download/Budget.antt =====
-- Every step keeps the invariant of the shared cache.
use nix_ci_worker.Base.{
  ℕ, ◌+◌, ◌≤◌, ◌<◌, ◌≡◌, ◌==◌, ==_iff, ◌∙◌, refl, sym, ap, subst, some_eq, Text, Dict, List, [],
  ◌∷◌, none, some, true, false, false≢true, ◌&&◌, Bool-cases, inl, inr, All, All-map, All-zip,
  arith, count, count_mono, text_eq, text_eq_iff, text_eq_self, lookup, lookup-insert, insert-cases,
  insert, insert-IsUnique,
}
use nix_ci_worker.Download.{DownloadedPack, size_of, PackDownloads, taken, Reader, reads}
use nix_ci_worker.Download.Sizes.{total-insert}
use nix_ci_worker.Download.Invariant.{owner, Counts, Sized, Inv}
use nix_ci_worker.Download.Evict.{Trimmed}

-- Of what the invariant reads, only the clock has moved.
pub ticked :
    (c : PackDownloads) (recent : Dict ℕ) (rs : List Reader)
    → Inv c rs
    → Inv (record c { clock = c.clock + 1; recent = recent }) rs
ticked c recent rs v = record {
  unique = v.unique;
  summed = v.summed;
  limited = v.limited;
  counted = v.counted;
  numbered = λ k p h. ((v.numbered k p h).0, omega (arith, (v.numbered k p h).1));
  old = v.old;
  single = v.single;
  owned = v.owned;
  sized = v.sized;
}

-- Packs that nobody reads may leave.
pub trimmed :
    (size : ℕ) (c d : PackDownloads) (rs : List Reader) → Trimmed size c d → Inv c rs → Inv d rs
trimmed size c d rs t v = record {
  unique = t.unique;
  summed = t.summed;
  limited = omega (arith, t.fewer, t.limit, v.limited);
  counted = λ k p h. v.counted k p (t.within k p h);
  numbered = λ k p h.
      let (a, b) = v.numbered k p (t.within k p h) in
      (omega (arith, a, t.made), omega (arith, b, t.clock));
  old = All-map rs (λ r (h : r.serial < c.made). omega (arith, h, t.made)) v.old;
  single = v.single;
  owned = λ k s h.
      let (p, found, serial) = v.owned k s h in
      (
        p,
        t.kept k p found (
            ground (
              arith,
              v.counted k p found,
              serial,
              h,
              count_mono (owner k s) (reads k s) rs (λ r e. ground arith),
            )),
        serial,
      );
  sized = All-map rs (λ r h. λ a p b. h a p (t.within r.key p b)) v.sized;
}

pub joined :
    (c : PackDownloads) (rs : List Reader) (key : Text) (size : ℕ) (p : DownloadedPack)
    → lookup key c.packs ≡ some p
    → Inv c rs
    → Inv
        (record c { packs = insert key (taken c.clock p) c.packs })
        (record { key = key; serial = p.serial; size = size; downloading = false } ∷ rs)
unfolding count
joined c rs key size p found v = record {
  unique = insert-IsUnique key (taken c.clock p) c.packs v.unique;
  summed = ground (arith, v.summed, total-insert key (taken c.clock p) c.packs);
  limited = v.limited;
  counted = λ k q h. elim (insert-cases key k (taken c.clock p) q c.packs h) [
    | inl (e, same) ↦
        let both = record { key = key; serial = p.serial; size = size; downloading = false } ∷ rs in
        subst (λ j. Counts both j q) e
          (subst (Counts both key) same
            (ground (arith, v.counted key p found, text_eq_self key, ==_iff p.serial p.serial)))
    | inr (e, old) ↦ ground (arith, e, v.counted k q old)
  ];
  numbered = λ k q h. elim (insert-cases key k (taken c.clock p) q c.packs h) [
    | inl (e, same) ↦
        subst (λ x. (x.serial < c.made) × (x.used ≤ c.clock)) same
          ((v.numbered key p found).0, omega arith)
    | inr (e, old) ↦ v.numbered k q old
  ];
  old = ((v.numbered key p found).0, v.old);
  single = λ k s. ground (arith, v.single k s);
  owned = λ k s h.
      let (q, old, serial) = v.owned k s (ground (arith, h)) in
      elim (Bool-cases (text_eq key k)) [
        | inl e ↦ (
          taken c.clock p,
          ground (arith, lookup-insert key k (taken c.clock p) c.packs),
          ground (arith, (text_eq_iff key k).0 e, found, old, serial, some_eq p q),
        )
        | inr e ↦ (q, ground (arith, lookup-insert key k (taken c.clock p) c.packs), serial)
      ];
  sized = (
    λ a. elim (false≢true a) [ ],
    All-map rs
        (λ r f. λ a q h b. elim (insert-cases key r.key (taken c.clock p) q c.packs h) [
          | inl (e, same) ↦
              sym (ap (λ x. size_of x.descriptor) same)
              ∙ f a p (subst (λ j. lookup j c.packs ≡ some p) e found) (ap (λ x. x.serial) same ∙ b)
          | inr (e, old) ↦ f a q old b
        ])
        v.sized,
  );
}

-- Nobody reads a pack that was not made yet.
unread :
    (made : ℕ) (rs : List Reader) (k : Text)
    → All (λ r. r.serial < made) rs
    → count (reads k made) rs ≡ 0
unfolding count
unread made [] k a = refl
unread made (r ∷ rs) k a = ground (arith, unread made rs k a.1, a.0)

unowned :
    (made : ℕ) (rs : List Reader) (k : Text)
    → All (λ r. r.serial < made) rs
    → count (owner k made) rs ≡ 0
unowned made rs k a =
    ground
      (arith, unread made rs k a, count_mono (owner k made) (reads k made) rs (λ r e. ground arith))

pub made_pack :
    (c : PackDownloads) (rs : List Reader) (key : Text) (size : ℕ) (p : DownloadedPack)
    → lookup key c.packs ≡ none
    → c.bytes + size ≤ c.limit
    → size_of p.descriptor ≡ size
    → p.serial ≡ c.made
    → p.readers ≡ 1
    → p.used ≤ c.clock
    → Inv c rs
    → Inv
        (record c { packs = insert key p c.packs; bytes = c.bytes + size; made = c.made + 1 })
        (record { key = key; serial = c.made; size = size; downloading = true } ∷ rs)
unfolding count
made_pack c rs key size p new room sizes serial one used v = record {
  unique = insert-IsUnique key p c.packs v.unique;
  summed = ground (arith, v.summed, total-insert key p c.packs, new, sizes);
  limited = room;
  counted = λ k q h. elim (insert-cases key k p q c.packs h) [
    | inl (e, same) ↦
        let more = record { key = key; serial = c.made; size = size; downloading = true } ∷ rs in
        subst (λ j. Counts more j q) e
          (subst (Counts more key) same (
            ground (
              arith,
              text_eq_self key,
              one,
              serial,
              ==_iff c.made p.serial,
              ap (λ x. count (reads key x) rs) serial,
              unread c.made rs key v.old,
            )))
    | inr (e, old) ↦ ground (arith, e, v.counted k q old)
  ];
  numbered = λ k q h. elim (insert-cases key k p q c.packs h) [
    | inl (e, same) ↦
        subst (λ x. (x.serial < c.made + 1) × (x.used ≤ c.clock)) same (omega (arith, serial), used)
    | inr (e, old) ↦ let (a, b) = v.numbered k q old in (omega (arith, a), b)
  ];
  old = (omega arith, All-map rs (λ r (h : r.serial < c.made). omega (arith, h)) v.old);
  single = λ k s. elim (Bool-cases (c.made == s)) [
    | inl e ↦ ground (
      arith,
      (==_iff c.made s).0 e,
      ap (λ x. count (owner k x) rs) ((==_iff c.made s).0 e),
      unowned c.made rs k v.old,
    )
    | inr e ↦ ground (arith, e, v.single k s)
  ];
  owned = λ k s h. elim (Bool-cases (text_eq key k && c.made == s)) [
    | inl e ↦ (
      p,
      ground (arith, e, lookup-insert key k p c.packs),
      ground (arith, e, serial, ==_iff c.made s),
    )
    | inr e ↦
        let (q, old, same) = v.owned k s (ground (arith, h, e)) in
        (q, ground (arith, e, lookup-insert key k p c.packs, text_eq_iff key k, new, old), same)
  ];
  sized = (
    λ a q h b. elim (insert-cases key key p q c.packs h) [
      | inl (e, same) ↦ sym (ap (λ x. size_of x.descriptor) same) ∙ sizes
      | inr (e, old) ↦ absurd (ground (arith, e, text_eq_self key))
    ],
    All-map rs
        (λ r ((less, f) : (r.serial < c.made) × Sized c r). λ a q h b.
          elim (insert-cases key r.key p q c.packs h) [
            | inl (e, same) ↦ absurd (ground (arith, less, b, serial, ap (λ x. x.serial) same))
            | inr (e, old) ↦ f a q old b
          ])
        (All-zip (λ r. r.serial < c.made) (Sized c) rs v.old v.sized),
  );
}
