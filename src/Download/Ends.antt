-- ===== src/Download/Ends.antt =====
-- The end of a download and the release of a pack keep the invariant of the shared cache.
use nix_ci_worker.Base.{
  ℕ, ◌+◌, ◌-◌, ◌≤◌, ◌<◌, ◌≡◌, ◌==◌, ==_iff, ◌∙◌, sym, ap, subst, some_eq, Text, List, some, true,
  false, false≢true, Bool-cases, inl, inr, All, All-map, All-get, All-set, All-remove_at, arith,
  bit, count, count-set, count-remove_at, text_eq, text_eq_iff, text_eq_self, lookup, lookup-insert,
  insert-cases, delete-cases, lookup-delete, insert, delete, insert-IsUnique, delete-IsUnique,
  get_elem?, set, remove_at,
}
use nix_ci_worker.Download.{DownloadedPack, size_of, PackDownloads, Reader, reads}
use nix_ci_worker.Download.Sizes.{size_at, total-insert, total-delete}
use nix_ci_worker.Download.Invariant.{owner, Counts, Sized, Inv}

abbrev settled : Reader → Reader
settled r = record r { downloading = false }

module _ (c : PackDownloads) (rs : List Reader) (i : ℕ) (r : Reader) (at : get_elem? rs i ≡ some r)
    (v : Inv c rs) where
  -- The read still holds its pack.
  still_reads : (k : Text) (s : ℕ) → count (reads k s) (set rs i (settled r)) ≡ count (reads k s) rs
  still_reads k s = omega (arith, count-set (reads k s) rs i r (settled r) at)

  fewer_owners :
      (k : Text) (s : ℕ)
      → count (owner k s) (set rs i (settled r)) + bit (owner k s r) ≡ count (owner k s) rs
  fewer_owners k s = ground (arith, count-set (owner k s) rs i r (settled r) at)

  settled-old : All (λ x. x.serial < c.made) (set rs i (settled r))
  settled-old =
      All-set (λ x. x.serial < c.made) rs i (settled r)
        (All-get (λ x. x.serial < c.made) rs i r v.old at) v.old

  pub ended_well : Inv c (set rs i (settled r))
  ended_well = record {
    unique = v.unique;
    summed = v.summed;
    limited = v.limited;
    counted = λ k p h. v.counted k p h ∙ sym (still_reads k p.serial);
    numbered = v.numbered;
    old = settled-old;
    single = λ k s. omega (arith, fewer_owners k s, v.single k s);
    owned = λ k s h. v.owned k s (omega (arith, h, fewer_owners k s));
    sized = All-set (Sized c) rs i (settled r) (λ a. elim (false≢true a) [ ]) v.sized;
  }

  abbrev failed : PackDownloads
  failed = record c { packs = delete r.key c.packs; bytes = c.bytes - r.size }

  module _ (loading : r.downloading ≡ true) where
    owns_itself : owner r.key r.serial r ≡ true
    owns_itself = ground (arith, text_eq_self r.key, ==_iff r.serial r.serial, loading)

    its_pack : (p : DownloadedPack) × (lookup r.key c.packs ≡ some p) × (p.serial ≡ r.serial)
    its_pack = v.owned r.key r.serial (ground (arith, fewer_owners r.key r.serial, owns_itself))

    its_size : size_at r.key c.packs ≡ r.size
    its_size =
        let (p, found, same) = its_pack in
        ground (arith, found, All-get (Sized c) rs i r v.sized at loading p found same)

    pub ended_badly : Inv failed (set rs i (settled r))
    ended_badly = record {
      unique = delete-IsUnique r.key c.packs v.unique;
      summed = omega (arith, v.summed, total-delete r.key c.packs, its_size);
      limited = omega (arith, v.limited);
      counted = λ k p h.
          v.counted k p (delete-cases r.key k p c.packs v.unique h).1
          ∙ sym (still_reads k p.serial);
      numbered = λ k p h. v.numbered k p (delete-cases r.key k p c.packs v.unique h).1;
      old = settled-old;
      single = λ k s. omega (arith, fewer_owners k s, v.single k s);
      owned = λ k s h.
          let (p, found, same) = v.owned k s (omega (arith, h, fewer_owners k s)) in
          let (q, own, serial) = its_pack in
          elim (Bool-cases (text_eq r.key k)) [
            | inl e ↦
                let key = (text_eq_iff r.key k).0 e in
                let one = some_eq q p (sym own ∙ ap (λ x. lookup x c.packs) key ∙ found) in
                absurd (
                  ground (
                    arith,
                    h,
                    fewer_owners k s,
                    v.single k s,
                    ap (λ x. x.serial) one,
                    same,
                    serial,
                    e,
                    loading,
                    ==_iff r.serial s,
                  ))
            | inr e ↦ (p, ground (arith, e, found, lookup-delete r.key k c.packs v.unique), same)
          ];
      sized =
          All-set (Sized failed) rs i (settled r) (λ a. elim (false≢true a) [ ])
            (All-map rs
              (λ x (f : Sized c x).
                λ a p b. f a p (delete-cases r.key x.key p c.packs v.unique b).1)
              v.sized);
    }

abbrev left : Reader → DownloadedPack → DownloadedPack
left r p = record p { readers = p.readers - 1 }

-- A read that is over leaves the list.
module _ (c : PackDownloads) (rs : List Reader) (i : ℕ) (r : Reader) (at : get_elem? rs i ≡ some r)
    (v : Inv c rs) (over : r.downloading ≡ false) where
  same_owners : (k : Text) (s : ℕ) → count (owner k s) (remove_at rs i) ≡ count (owner k s) rs
  same_owners k s = ground (arith, count-remove_at (owner k s) rs i r at, over)

  fewer_reads :
      (k : Text) (s : ℕ)
      → bit (reads k s r) + count (reads k s) (remove_at rs i) ≡ count (reads k s) rs
  fewer_reads k s = sym (count-remove_at (reads k s) rs i r at)

  -- Its pack is not in the cache any more.
  pub closed_gone :
      ((p : DownloadedPack) → lookup r.key c.packs ≡ some p → (p.serial == r.serial) ≡ false)
      → Inv c (remove_at rs i)
  closed_gone gone = record {
    unique = v.unique;
    summed = v.summed;
    limited = v.limited;
    counted = λ k p h. ground (
      arith,
      v.counted k p h,
      fewer_reads k p.serial,
      gone p,
      text_eq_iff r.key k,
      h,
      ==_iff p.serial r.serial,
      ==_iff r.serial p.serial,
      ap (λ x. lookup x c.packs),
    );
    numbered = v.numbered;
    old = All-remove_at (λ x. x.serial < c.made) rs i v.old;
    single = λ k s. omega (arith, same_owners k s, v.single k s);
    owned = λ k s h. v.owned k s (omega (arith, h, same_owners k s));
    sized = All-remove_at (Sized c) rs i v.sized;
  }

  pub closed :
      (p : DownloadedPack)
      → lookup r.key c.packs ≡ some p
      → p.serial ≡ r.serial
      → Inv (record c { packs = insert r.key (left r p) c.packs }) (remove_at rs i)
  closed p found same = record {
    unique = insert-IsUnique r.key (left r p) c.packs v.unique;
    summed = ground (arith, v.summed, total-insert r.key (left r p) c.packs, found);
    limited = v.limited;
    counted = λ k q h. elim (insert-cases r.key k (left r p) q c.packs h) [
      | inl (e, one) ↦
          subst (λ j. Counts (remove_at rs i) j q) e
            (subst (Counts (remove_at rs i) r.key) one (
              ground (
                arith,
                v.counted r.key p found,
                fewer_reads r.key p.serial,
                text_eq_self r.key,
                same,
                ==_iff r.serial p.serial,
              )))
      | inr (e, old) ↦ ground (arith, e, v.counted k q old, fewer_reads k q.serial)
    ];
    numbered = λ k q h. elim (insert-cases r.key k (left r p) q c.packs h) [
      | inl (e, one) ↦
          subst (λ x. (x.serial < c.made) × (x.used ≤ c.clock)) one (v.numbered r.key p found)
      | inr (e, old) ↦ v.numbered k q old
    ];
    old = All-remove_at (λ x. x.serial < c.made) rs i v.old;
    single = λ k s. omega (arith, same_owners k s, v.single k s);
    owned = λ k s h.
        let (q, old, serial) = v.owned k s (omega (arith, h, same_owners k s)) in
        elim (Bool-cases (text_eq r.key k)) [
          | inl e ↦ (
            left r p,
            ground (arith, lookup-insert r.key k (left r p) c.packs),
            ground (arith, (text_eq_iff r.key k).0 e, found, old, serial, some_eq p q),
          )
          | inr e ↦ (q, ground (arith, lookup-insert r.key k (left r p) c.packs), serial)
        ];
    sized = All-remove_at (Sized (record c { packs = insert r.key (left r p) c.packs })) rs i (
        All-map rs
          (λ x (f : Sized c x). λ a q h b. elim (insert-cases r.key x.key (left r p) q c.packs h) [
            | inl (e, one) ↦
                sym (ap (λ y. size_of y.descriptor) one)
                ∙ f a p (subst (λ j. lookup j c.packs ≡ some p) e found)
                    (ap (λ y. y.serial) one ∙ b)
            | inr (e, old) ↦ f a q old b
          ])
          v.sized);
  }
