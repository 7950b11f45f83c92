-- ===== src/Catalog/Added.antt =====
-- worker/catalog.go: addCatalogRecords, for records whose locations are those of one map of files.
use nix_ci_worker.Base.{
  ◌≡◌, refl, sym, ap, ◌∙◌, subst, ◌⊎◌, inl, inr, Text, Dict, [], ◌∷◌, ◌++◌, Option, none, some,
  Bool, true, false, ◌||◌, if◌then◌else◌, codes, contains, text_eq, text_eq_iff, text_eq_self, has,
  has-insert, keys, lookup, lookup-insert, lookup_entry, lookup-none, insert, insert-cases,
  IsUnique, All, some_eq, Result, ok, ◌>>=◌, arith, Bool-cases, Option-cases,
}
use nix_ci_worker.Snapshot.Files.{SnapshotFile}
use nix_ci_worker.Snapshot.Narinfo.{field}
use nix_ci_worker.Snapshot.Records.{Snapshot, fields_of}
use nix_ci_worker.Catalog.{CatalogRecord, Records, no_file}
use nix_ci_worker.Catalog.Partition.Placed.{Entry}
use nix_ci_worker.Catalog.Lookup.{
  same_location, add_file, add_own_file, add_narinfo, add_references, add_catalog_records,
}

-- Where publishCatalog looks for the archive of a narinfo.
abbrev pub archive_key : Text → Text
archive_key narinfo = codes "cache/" ++ field (fields_of narinfo) (codes "URL")

or_true : (b : Bool) → (b || true) ≡ true
or_true b = ground arith

none≢file : (f : SnapshotFile) → ◌≡◌ {A = Option SnapshotFile} none (some f) → ⊥
none≢file f h = cc

none≢record : (r : CatalogRecord) → ◌≡◌ {A = Option CatalogRecord} none (some r) → ⊥
none≢record r h = cc

abbrev archive_or : CatalogRecord → SnapshotFile
archive_or r = elim r.archive [ none ↦ no_file | some archive ↦ archive ]

add_references_lem :
    (name : Text) (r : CatalogRecord) (s : Snapshot)
    → ((add_references name r s).files ≡ s.files)
      × ((add_references name r s).narinfos ≡ s.narinfos)
unfolding add_references
add_references_lem name r s = elim (Option-cases r.references) [
  | inl e ↦ rw (e, add_references) (refl, refl)
  | inr (refs, e) ↦ rw (e, add_references) (refl, refl)
]

-- The narinfo of a record that has one, else what was there.
abbrev pub narinfo_of : Option CatalogRecord → Option Text → Option Text
narinfo_of none old = old
narinfo_of (some r) old = if text_eq r.narinfo [] then old else some r.narinfo

module _ (files : Text → SnapshotFile) where
  -- A record's locations are those of the files.
  abbrev pub Agrees : Entry → Type 0
  Agrees entry =
      ((f : SnapshotFile) → entry.1.file ≡ some f → f ≡ files entry.0)
      × (text_eq entry.1.narinfo [] ≡ false
          → entry.1.archive ≡ some (files (archive_key entry.1.narinfo)))

  abbrev pub FilesAgree : Snapshot → Type 0
  FilesAgree s = (k : Text) (f : SnapshotFile) → lookup k s.files ≡ some f → f ≡ files k

  same_location_self : (f : SnapshotFile) → same_location f f ≡ true
  same_location_self f = rw (text_eq_self f.blob.digest, text_eq_self f.digest) (ground arith)

  add_file_lem :
      (name : Text) (s : Snapshot)
      → FilesAgree s
      → add_file name (files name) s ≡ ok (record s { files = insert name (files name) s.files })
  unfolding add_file
  add_file_lem name s agree = elim (Option-cases (lookup name s.files)) [
    | inl e ↦ rw (e, add_file) refl
    | inr (old, e) ↦
        let same : same_location old (files name) ≡ true =
          subst (λ (f : SnapshotFile). same_location f (files name) ≡ true) (sym (agree name old e))
            (same_location_self (files name)) in
        rw (e, add_file) (rw same refl)
  ]

  add_file_at :
      (name : Text) (f : SnapshotFile) (s : Snapshot)
      → f ≡ files name
      → FilesAgree s
      → add_file name f s ≡ ok (record s { files = insert name (files name) s.files })
  add_file_at name f s same agree =
      subst
        (λ (g : SnapshotFile).
          add_file name g s ≡ ok (record s { files = insert name (files name) s.files }))
        (sym same) (add_file_lem name s agree)

  add_file-FilesAgree :
      (name : Text) (s : Snapshot)
      → FilesAgree s
      → FilesAgree (record s { files = insert name (files name) s.files })
  add_file-FilesAgree name s agree k f h = elim (insert-cases name k (files name) f s.files h) [
    | inl (same, new) ↦ sym new ∙ ap files same
    | inr (other, old) ↦ agree k f old
  ]

  -- The files of one snapshot are in the other, which has them where the map says.
  abbrev pub Grown : Snapshot → Snapshot → Type 0
  Grown s t = FilesAgree t × ((k : Text) → has s.files k ≡ true → has t.files k ≡ true)

  Grown-insert :
      (name : Text) (s : Snapshot)
      → FilesAgree s
      → Grown s (record s { files = insert name (files name) s.files })
  Grown-insert name s agree = (
    add_file-FilesAgree name s agree,
    λ k h. has-insert name k (files name) s.files ∙ rw h (or_true (text_eq name k)),
  )

  own_file_added :
      (name : Text) (r : CatalogRecord) (s : Snapshot)
      → Agrees (name, r)
      → FilesAgree s
      → (t : Snapshot) × (add_own_file name r s ≡ ok t)
        × (t.narinfos ≡ s.narinfos)
        × Grown s t
        × ((f : SnapshotFile) → r.file ≡ some f → has t.files name ≡ true)
  unfolding add_own_file
  own_file_added name r s fits agree = elim (Option-cases r.file) [
    | inl e ↦ (
      s,
      rw (e, add_own_file) refl,
      refl,
      (agree, λ k h. h),
      λ f h. absurd (none≢file f (sym e ∙ h)),
    )
    | inr (f, e) ↦
        let same = fits.0 f e in
        (
          record s { files = insert name (files name) s.files },
          rw (e, add_own_file) (add_file_at name f s same agree),
          refl,
          Grown-insert name s agree,
          λ g h. has-insert name name (files name) s.files ∙ rw (text_eq_self name) refl,
        )
  ]

  narinfo_added :
      (name : Text) (r : CatalogRecord) (s : Snapshot)
      → Agrees (name, r)
      → FilesAgree s
      → (t : Snapshot) × (add_narinfo name r s ≡ ok t)
        × (t.narinfos
            ≡ (if text_eq r.narinfo [] then s.narinfos else insert name r.narinfo s.narinfos))
        × Grown s t
  unfolding add_narinfo
  narinfo_added name r s fits agree = elim (Bool-cases (text_eq r.narinfo [])) [
    | inl e ↦ (s, rw (e, add_narinfo) refl, rw e refl, (agree, λ k h. h))
    | inr e ↦
        let key = archive_key r.narinfo in
        let put : Snapshot = record s { files = insert key (files key) s.files } in
        let grown = Grown-insert key s agree in
        let found : archive_or r ≡ files key = rw (fits.1 e) refl in
        (
          record put { narinfos = insert name r.narinfo put.narinfos },
          rw (e, add_narinfo)
              (ap
                (λ (x : Result Snapshot).
                  x >>= λ t. ok (record t { narinfos = insert name r.narinfo t.narinfos }))
                (add_file_at key (archive_or r) s found agree)),
          rw e refl,
          grown,
        )
  ]

  own_text :
      (name : Text) (r : CatalogRecord) (texts : Dict Text) (k : Text)
      → text_eq name k ≡ true
      → (text_eq r.narinfo [] ≡ true) ⊎ (text_eq r.narinfo [] ≡ false)
      → lookup k (if text_eq r.narinfo [] then texts else insert name r.narinfo texts)
        ≡ narinfo_of (some r) (lookup k texts)
  own_text name r texts k e (inl empty) = rw empty refl
  own_text name r texts k e (inr full) = rw full (lookup-insert name k r.narinfo texts ∙ rw e refl)

  other_text :
      (name : Text) (r : CatalogRecord) (texts : Dict Text) (k : Text)
      → text_eq name k ≡ false
      → (text_eq r.narinfo [] ≡ true) ⊎ (text_eq r.narinfo [] ≡ false)
      → lookup k (if text_eq r.narinfo [] then texts else insert name r.narinfo texts)
        ≡ lookup k texts
  other_text name r texts k e (inl empty) = rw empty refl
  other_text name r texts k e (inr full) =
      rw full (lookup-insert name k r.narinfo texts ∙ rw e refl)

  texts_step :
      (name : Text) (r : CatalogRecord) (records : Records) (texts : Dict Text) (k : Text)
      → contains (keys records) name ≡ false
      → narinfo_of
          (lookup k records)
          (lookup k (if text_eq r.narinfo [] then texts else insert name r.narinfo texts))
        ≡ narinfo_of (lookup k ((name, r) ∷ records)) (lookup k texts)
  texts_step name r records texts k u = elim (Bool-cases (text_eq name k)) [
    | inl e ↦
        let gone : lookup k records ≡ none =
          subst (λ j. lookup j records ≡ none) ((text_eq_iff name k).0 e)
            (lookup-none name records u) in
        rw (lookup_entry name k r records, e, gone)
          (own_text name r texts k e (Bool-cases (text_eq r.narinfo [])))
    | inr e ↦
        rw (lookup_entry name k r records, e)
          (ap (narinfo_of (lookup k records))
            (other_text name r texts k e (Bool-cases (text_eq r.narinfo []))))
  ]

  there_step :
      (name : Text) (r : CatalogRecord) (records : Records) (k : Text) (q : CatalogRecord)
      (t : Snapshot)
      → contains (keys records) name ≡ false
      → lookup k ((name, r) ∷ records) ≡ some q
      → (name ≡ k → has t.files k ≡ true)
      → (lookup k records ≡ some q → has t.files k ≡ true)
      → has t.files k ≡ true
  there_step name r records k q t u h same other = elim (Bool-cases (text_eq name k)) [
    | inl e ↦ same ((text_eq_iff name k).0 e)
    | inr e ↦ other (rw e at (sym (lookup_entry name k r records) ∙ h))
  ]

  same_record :
      (name : Text) (r : CatalogRecord) (records : Records) (k : Text) (q : CatalogRecord)
      → name ≡ k
      → lookup k ((name, r) ∷ records) ≡ some q
      → r ≡ q
  same_record name r records k q e h =
      some_eq r q (rw ((text_eq_iff name k).1 e) at (sym (lookup_entry name k r records) ∙ h))

  pub add_catalog_records_lem :
      (records : Records) (s : Snapshot)
      → IsUnique (keys records)
      → All Agrees records
      → FilesAgree s
      → (t : Snapshot) × (add_catalog_records records s ≡ ok t)
        × Grown s t
        × ((k : Text) → lookup k t.narinfos ≡ narinfo_of (lookup k records) (lookup k s.narinfos))
        × ((k : Text) (r : CatalogRecord) (f : SnapshotFile)
            → lookup k records ≡ some r
            → r.file ≡ some f
            → has t.files k ≡ true)
  unfolding add_catalog_records lookup
  add_catalog_records_lem [] s unique fits agree =
      (s, refl, (agree, λ k h. h), λ k. refl, λ k r f h e. absurd (none≢record r h))
  add_catalog_records_lem ((name, r) ∷ records) s unique fits agree =
      let (a, h1, same1, grown1, own) = own_file_added name r s fits.0 agree in
      let (b, h2, same2, grown2) = narinfo_added name r a fits.0 grown1.0 in
      let c = add_references name r b in
      let (files_c, narinfos_c) = add_references_lem name r b in
      let agree_c = λ (k : Text) (f : SnapshotFile) (h : lookup k c.files ≡ some f).
        grown2.0 k f (subst (λ (m : Dict SnapshotFile). lookup k m ≡ some f) files_c h) in
      let (t, h3, grown3, texts, there) =
        add_catalog_records_lem records c unique.1 fits.1 agree_c in
      let to_c = λ (k : Text) (h : has b.files k ≡ true).
        subst (λ (m : Dict SnapshotFile). has m k ≡ true) (sym files_c) h in
      let mono = λ (k : Text) (h : has a.files k ≡ true). grown3.1 k (to_c k (grown2.1 k h)) in
      (
        t,
        rw h1 (rw h2 h3),
        (grown3.0, λ k h. mono k (grown1.1 k h)),
        λ k.
            texts k
            ∙ ap (λ (m : Dict Text). narinfo_of (lookup k records) (lookup k m))
                (narinfos_c
                  ∙ same2
                  ∙ ap
                      (λ (m : Dict Text).
                        if text_eq r.narinfo [] then m else insert name r.narinfo m)
                      same1)
            ∙ texts_step name r records s.narinfos k unique.0,
        λ k q f h e.
            there_step name r records k q t unique.0 h
              (λ same. mono k (
                subst (λ j. has a.files j ≡ true) same
                  (own f (
                    subst (λ (x : CatalogRecord). x.file ≡ some f)
                      (sym (same_record name r records k q same h)) e))))
              (λ old. there k q f old e),
      )
