-- ===== src/Snapshot/Index/Select/Rounds.antt =====
-- worker/snapshot_index.go: the rounds of selectPaths, and what holds after each.
use nix_ci_worker.Base.{
  ℕ, zero, suc, ◌+◌, ◌≤◌, ◌≡◌, refl, sym, ap, subst, ◌∙◌, inl, inr, arith, Text, Dict, List,
  some_eq, [], ◌∷◌, Option, none, some, true, false, ◌||◌, if◌then◌else◌, length, contains, text_eq,
  text_eq_iff, text_eq_self, lookup, Bool-cases, Option-cases,
}
use nix_ci_worker.Snapshot.Index.{IndexedPath, SnapshotIndex, refs_of}
use nix_ci_worker.Snapshot.Index.Select.{Selection, push, select_path, select_round, select_from}
use nix_ci_worker.Snapshot.Index.Select.Held.{Holds, select_path-Holds, missing-Holds}

module _ (i : SnapshotIndex) where
  -- The paths that are needed, as a root or as a reference of a path that is.
  pub data Reached (roots : List Text) : Text → Type 0 where
    root : (path : Text) → contains roots path ≡ true → Reached roots path
    reference :
        (path ref : Text)
        → Reached roots path
        → contains (refs_of i.paths path) ref ≡ true
        → Reached roots ref

  abbrev Present : List Text → Selection → Text → Type 0
  Present pending st x = (contains st.seen x || contains pending x) ≡ true

  pub record Invariant (roots pending : List Text) (st : Selection) : Type 0 where
    pub sound : (x : Text) → Present pending st x → Reached roots x
    pub roots_in : (x : Text) → contains roots x ≡ true → Present pending st x
    pub closed :
        (x y : Text)
        → contains st.seen x ≡ true
        → contains (refs_of i.paths x) y ≡ true
        → Present pending st y
    pub holds : Holds i st

  pub contains-push :
      (refs pending : List Text) (x : Text)
      → contains (push refs pending) x ≡ (contains refs x || contains pending x)
  unfolding contains
  contains-push [] pending x = refl
  contains-push (r ∷ refs) pending x = ground (arith, contains-push refs (r ∷ pending) x)

  pub length-push :
      (refs pending : List Text) → length (push refs pending) ≡ length refs + length pending
  length-push [] pending = omega arith
  length-push (r ∷ refs) pending = omega (arith, length-push refs (r ∷ pending))

  -- The references that may still be pushed.
  abbrev pub left : List Text → Dict IndexedPath → ℕ
  left seen [] = 0
  left seen ((path, r) ∷ paths) =
      (if contains seen path then 0 else length r.refs) + left seen paths

  left_mono :
      (seen : List Text) (path : Text) (paths : Dict IndexedPath)
      → left (path ∷ seen) paths ≤ left seen paths
  unfolding contains
  left_mono seen path [] = omega arith
  left_mono seen path ((k, r) ∷ paths) = ground (arith, left_mono seen path paths)

  left_marked :
      (seen : List Text) (path : Text) (r : IndexedPath) (paths : Dict IndexedPath)
      → lookup path paths ≡ some r
      → contains seen path ≡ false
      → length r.refs + left (path ∷ seen) paths ≤ left seen paths
  unfolding contains lookup
  left_marked seen path r [] h new = cc
  left_marked seen path r ((k, q) ∷ paths) h new = elim (Bool-cases (text_eq k path)) [
    | inl e ↦
        let same = ap (λ (z : IndexedPath). length z.refs) (some_eq q r (rw e at h)) in
        let k_new = subst (λ j. contains seen j ≡ false) (sym ((text_eq_iff k path).0 e)) new in
        ground (
          arith,
          same,
          e,
          k_new,
          subst (λ j. text_eq path j ≡ true) (sym ((text_eq_iff k path).0 e)) (text_eq_self path),
          left_mono seen path paths,
        )
    | inr e ↦
        let apart = text_eq_iff path k in
        ground (
          arith,
          e,
          text_eq_iff k path,
          text_eq_iff path k,
          left_marked seen path r paths (rw e at h) new,
        )
  ]

  abbrev pub room : List Text → Selection → ℕ
  room pending st = length pending + left st.seen i.paths

  old-Invariant :
      (roots pending : List Text) (path : Text) (st : Selection)
      → contains st.seen path ≡ true
      → Invariant roots (path ∷ pending) st
      → Invariant roots pending st
  unfolding contains
  old-Invariant roots pending path st old inv = record {
    sound = λ x h. inv.sound x (ground (arith, h));
    roots_in = λ x h. still x (inv.roots_in x h);
    closed = λ x y h k. still y (inv.closed x y h k);
    holds = inv.holds;
  }
    where
      still : (x : Text) → Present (path ∷ pending) st x → Present pending st x
      still x h = elim (Bool-cases (text_eq path x)) [
        | inl e ↦
            ground (arith, subst (λ j. contains st.seen j ≡ true) ((text_eq_iff path x).0 e) old)
        | inr e ↦ ground (arith, e, h)
      ]

  marked-Invariant :
      (roots pending refs : List Text) (path : Text) (st t : Selection)
      → refs_of i.paths path ≡ refs
      → t.seen ≡ path ∷ st.seen
      → Holds i t
      → Invariant roots (path ∷ pending) st
      → Invariant roots (push refs pending) t
  unfolding contains
  marked-Invariant roots pending refs path st t here seen holds inv = record {
    sound = λ x h. elim (Bool-cases (contains refs x)) [
      | inl e ↦
          reference path x (inv.sound path (ground (arith, text_eq_self path)))
            (ap (λ rs. contains rs x) here ∙ e)
      | inr e ↦
          inv.sound x
            (ground (arith, e, contains-push refs pending x, ap (λ l. contains l x) seen, h))
    ];
    roots_in = λ x h. kept x (inv.roots_in x h);
    closed = λ x y h k. elim (Bool-cases (text_eq path x)) [
      | inl e ↦
          let listed =
            subst (λ j. contains (refs_of i.paths j) y ≡ true) (sym ((text_eq_iff path x).0 e)) k in
          ground (arith, ap (λ rs. contains rs y) (sym here) ∙ listed, contains-push refs pending y)
      | inr e ↦ kept y (inv.closed x y (ground (arith, e, ap (λ l. contains l x) seen, h)) k)
    ];
    holds = holds;
  }
    where
      kept : (x : Text) → Present (path ∷ pending) st x → Present (push refs pending) t x
      kept x h = ground (arith, contains-push refs pending x, ap (λ l. contains l x) seen, h)

  select_round-Invariant :
      (roots pending : List Text) (path : Text) (st : Selection)
      → Invariant roots (path ∷ pending) st
      → Invariant roots (select_round i path pending st).0 (select_round i path pending st).1
        × (room (select_round i path pending st).0 (select_round i path pending st).1 + 1
            ≤ room (path ∷ pending) st)
  unfolding select_round select_path
  select_round-Invariant roots pending path st inv = elim (Bool-cases (contains st.seen path)) [
    | inl old ↦ rw (old, select_round) (old-Invariant roots pending path st old inv, omega arith)
    | inr new ↦ elim (Option-cases (lookup path i.paths)) [
      | inl absent ↦
          let t : Selection = record st { seen = path ∷ st.seen } in
          rw (new, absent, select_round)
            (
              marked-Invariant roots pending [] path st t (ap refs_at absent) refl
                  (missing-Holds i path st absent inv.holds) inv,
              omega (arith, left_mono st.seen path i.paths),
            )
      | inr (r, known) ↦
          let t : Selection = record st { seen = path ∷ st.seen } in
          rw (new, known, select_round)
            (
              marked-Invariant roots pending r.refs path st (select_path i path r t)
                  (ap refs_at known) refl (select_path-Holds i path r st known inv.holds) inv,
              omega
                  (arith, left_marked st.seen path r i.paths known new, length-push r.refs pending),
            )
    ]
  ]
    where
      refs_at : Option IndexedPath → List Text
      refs_at o = elim o [ none ↦ [] | some p ↦ p.refs ]

  pub select_from-Invariant :
      (rounds : ℕ) (roots pending : List Text) (st : Selection)
      → Invariant roots pending st
      → room pending st ≤ rounds
      → Invariant roots [] (select_from i rounds pending st)
  unfolding select_from
  select_from-Invariant zero roots [] st inv enough = inv
  select_from-Invariant zero roots (path ∷ pending) st inv enough = absurd (omega arith)
  select_from-Invariant (suc rounds) roots [] st inv enough = inv
  select_from-Invariant (suc rounds) roots (path ∷ pending) st inv enough =
      let next = select_round i path pending st in
      let (after, less) = select_round-Invariant roots pending path st inv in
      select_from-Invariant rounds roots next.0 next.1 after (omega arith)
