-- ===== src/Snapshot/Narinfo/First.antt =====
-- worker/snapshot.go: the first line of a narinfo is its store path.
use nix_ci_worker.Base.{
  ℕ, ◌≡◌, refl, sym, ap, ◌∙◌, subst, ◌⊎◌, inl, inr, ◌==◌, Text, Dict, List, [], ◌∷◌, ◌++◌, some,
  Bool, true, false, not, ◌&&◌, all, codes, text_eq, text_eq_iff, has, has_prefix, drop_prefix,
  has_prefix_lem, lookup, lookup-insert, insert, Result, ok, ◌>>=◌, passed, guarded, ok_parts,
  ok_eq, arith, Bool-cases, Option-cases, ==_iff,
}
use mathlib.Core.List.{append_assoc, append-nil}
use nix_ci_worker.Scheduler.Job.{fields}
use nix_ci_worker.Snapshot.Narinfo.{
  lines_from, cut_colon, trim_newline, parse_line, parse_lines, Parsed, needed, narinfo_fields,
  field, record_store, record_ref, archive_url,
}

abbrev pub no_newline : Text → Bool
no_newline = all λ c. not (c == 10)

trim_newline_lem : (s : Text) → (tail : Text) × (s ≡ trim_newline s ++ tail)
unfolding trim_newline
trim_newline_lem [] = ([], refl)
trim_newline_lem (c ∷ []) = elim (Bool-cases (c == 10)) [
  | inl e ↦ rw e (c ∷ [], refl)
  | inr e ↦ rw e ([], refl)
]
trim_newline_lem (c ∷ d ∷ s) =
    let (tail, e) = trim_newline_lem (d ∷ s) in (tail, ap (λ (t : Text). c ∷ t) e)

-- What stands in the string until its first line end ends the line that was begun.
abbrev First : Text → Text → List Text → Type 0
First line s lines =
    (first : Text) × (no_newline first ≡ true)
    × (((s ≡ first) × (lines ≡ (line ++ first) ∷ []))
        ⊎ ((rest : Text) × (s ≡ first ++ 10 ∷ rest)
            × (lines ≡ (line ++ first) ∷ lines_from [] rest)))

-- A line that goes on by a byte.
later :
    (line : Text) (c : ℕ) (s : Text)
    → (c == 10) ≡ false
    → First (line ++ c ∷ []) s (lines_from (line ++ c ∷ []) s)
    → First line (c ∷ s) (lines_from (line ++ c ∷ []) s)
later line c s e (first, clean, inl (h, k)) = (
  c ∷ first,
  rw e clean,
  inl (
    ap (λ (t : Text). c ∷ t) h,
    k ∙ ap (λ (t : Text). t ∷ []) (append_assoc line (c ∷ []) first),
  ),
)
later line c s e (first, clean, inr (rest, h, k)) = (
  c ∷ first,
  rw e clean,
  inr (
    rest,
    ap (λ (t : Text). c ∷ t) h,
    k ∙ ap (λ (t : Text). t ∷ lines_from [] rest) (append_assoc line (c ∷ []) first),
  ),
)

-- The first line, and the lines of what follows its end.
lines_from_lem : (line s : Text) → First line s (lines_from line s)
unfolding lines_from
lines_from_lem line [] = ([], refl, inl (refl, sym (ap (λ (t : Text). t ∷ []) (append-nil line))))
lines_from_lem line (c ∷ s) = elim (Bool-cases (c == 10)) [
  | inl e ↦ rw e (
    [],
    refl,
    inr (
      s,
      ap (λ n. n ∷ s) ((==_iff c 10).0 e),
      ap (λ (t : Text). t ∷ lines_from [] s) (sym (append-nil line)),
    ),
  )
  | inr e ↦ rw e (later line c s e (lines_from_lem (line ++ c ∷ []) s))
]

cut_colon_lem : (x : Text) → cut_colon (codes "StorePath: " ++ x) ≡ some (codes "StorePath", x)
unfolding cut_colon has_prefix drop_prefix
cut_colon_lem x = refl

-- A field that is there stays.
parse_line_keeps :
    (line : Text) (p q : Parsed) (k v : Text)
    → lookup k p.fields ≡ some v
    → parse_line line p ≡ ok q
    → lookup k q.fields ≡ some v
unfolding parse_line
parse_line_keeps line p q k v known h = elim (Option-cases (cut_colon line)) [
  | inl e ↦ let bad = rw (e, parse_line) at h in cc
  | inr ((key, text), e) ↦
      let set = rw (e, parse_line) at h in
      ground (
        arith,
        set,
        known,
        lookup-insert key k text p.fields,
        text_eq_iff key k,
        text_eq_iff key (codes "Sig"),
        text_eq_iff k (codes "Sig"),
      )
]

parse_lines_keeps :
    (lines : List Text) (p q : Parsed) (k v : Text)
    → lookup k p.fields ≡ some v
    → parse_lines lines p ≡ ok q
    → lookup k q.fields ≡ some v
unfolding parse_lines
parse_lines_keeps [] p q k v known h = cc
parse_lines_keeps (line ∷ lines) p q k v known h =
    let (r, e, rest) = ok_parts (parse_line line p) (parse_lines lines) h in
    parse_lines_keeps lines r q k v (parse_line_keeps line p r k v known e) rest

abbrev no_fields : Parsed
no_fields = record { fields = []; signed = false }

abbrev one_field : Text → Parsed
one_field path = record { fields = (codes "StorePath", path) ∷ []; signed = false }

parse_line_first : (x : Text) → parse_line (codes "StorePath: " ++ x) no_fields ≡ ok (one_field x)
unfolding parse_line cut_colon has_prefix drop_prefix lookup text_eq insert
parse_line_first x = refl

trim_newline_first :
    (w : Text) → trim_newline (codes "StorePath: " ++ w) ≡ codes "StorePath: " ++ trim_newline w
unfolding trim_newline
trim_newline_first [] = refl
trim_newline_first (c ∷ w) = refl

lines_from_first :
    (w : Text) → lines_from [] (codes "StorePath: " ++ w) ≡ lines_from (codes "StorePath: ") w
unfolding lines_from
lines_from_first w = refl

-- What the first line leaves to the others.
first_parsed :
    (x : Text) (lines : List Text) (p : Parsed)
    → parse_lines ((codes "StorePath: " ++ x) ∷ lines) no_fields ≡ ok p
    → parse_lines lines (one_field x) ≡ ok p
unfolding parse_lines
first_parsed x lines p h =
    subst (λ (r : Result Parsed). (r >>= parse_lines lines) ≡ ok p) (parse_line_first x) h

pub field-lookup : (m : Dict Text) (k v : Text) → lookup k m ≡ some v → field m k ≡ v
field-lookup m k v h = ground (arith, h)

from_first :
    (w : Text) (lines : List Text) (p : Parsed)
    → First (codes "StorePath: ") w lines
    → parse_lines lines no_fields ≡ ok p
    → has p.fields (codes "NarHash") ≡ true
    → (rest : Text) × (w ≡ field p.fields (codes "StorePath") ++ 10 ∷ rest)
      × (no_newline (field p.fields (codes "StorePath")) ≡ true)
unfolding parse_lines lookup text_eq
from_first w lines p (first, clean, inl (e, l)) h k =
    let only = first_parsed first [] p (rw l at h) in
    let none_found =
      subst (λ (q : Parsed). has q.fields (codes "NarHash") ≡ true)
        (sym (ok_eq (one_field first) p only)) k in
    cc
from_first w lines p (first, clean, inr (rest, e, l)) h k =
    let more = first_parsed first (lines_from [] rest) p (rw l at h) in
    let kept =
      parse_lines_keeps (lines_from [] rest) (one_field first) p (codes "StorePath") first refl
        more in
    let same : first ≡ field p.fields (codes "StorePath") =
      sym (field-lookup p.fields (codes "StorePath") first kept) in
    (rest, e ∙ ap (λ (t : Text). t ++ 10 ∷ rest) same, subst (λ t. no_newline t ≡ true) same clean)

-- The tests that a text passes.
pub narinfo_parts :
    (value : Text) (parsed : Dict Text)
    → narinfo_fields value ≡ ok parsed
    → (has_prefix value (codes "StorePath: ") ≡ true)
      × ((p : Parsed) × (parse_lines (lines_from [] (trim_newline value)) no_fields ≡ ok p)
          × (all (has p.fields) needed ≡ true)
          × (all (record_ref 32) (fields (field p.fields (codes "References"))) ≡ true)
          × (p.fields ≡ parsed))
unfolding narinfo_fields
narinfo_parts value parsed h =
    let (starts, h1) =
      passed (has_prefix value (codes "StorePath: ")) "invalid canonical narinfo" _ h in
    let (p, read, h2) =
      ok_parts (parse_lines (lines_from [] (trim_newline value)) no_fields) _ h1 in
    let (complete, h3) = passed (all (has p.fields) needed) "incomplete narinfo" _ h2 in
    let (store, h4) =
      passed (record_store (field p.fields (codes "StorePath"))) "invalid store path" _ h3 in
    let (url, h5) =
      passed
        (text_eq (field p.fields (codes "Compression")) (codes "zstd")
          && archive_url (field p.fields (codes "URL")))
        "invalid archive URL" _ h4 in
    let (refs, h6) =
      passed (all (record_ref 32) (fields (field p.fields (codes "References"))))
        "invalid reference" _ h5 in
    let (signed, same) = guarded p.signed "unsigned cache record" p.fields h6 in
    (starts, (p, read, complete, refs, same))

pub narinfo_fields-record_ref :
    (value : Text) (parsed : Dict Text)
    → narinfo_fields value ≡ ok parsed
    → all (record_ref 32) (fields (field parsed (codes "References"))) ≡ true
narinfo_fields-record_ref value parsed h =
    let (starts, (p, read, complete, refs, same)) = narinfo_parts value parsed h in
    subst (λ (m : Dict Text). all (record_ref 32) (fields (field m (codes "References"))) ≡ true)
      same refs

complete_lem :
    (p : Parsed) → all (has p.fields) needed ≡ true → has p.fields (codes "NarHash") ≡ true
complete_lem p h = ground (arith, h)

-- A text that parses begins with its store path, on a line of its own.
pub narinfo_starts :
    (value : Text) (parsed : Dict Text)
    → narinfo_fields value ≡ ok parsed
    → (rest : Text) × (value ≡ codes "StorePath: " ++ field parsed (codes "StorePath") ++ 10 ∷ rest)
      × (no_newline (field parsed (codes "StorePath")) ≡ true)
narinfo_starts value parsed h =
    let (starts, (p, read, complete, refs, same)) = narinfo_parts value parsed h in
    let split = has_prefix_lem value (codes "StorePath: ") starts in
    let w : Text = drop_prefix value (codes "StorePath: ") in
    let (tail, t) = trim_newline_lem w in
    let lines = lines_from_first (trim_newline w) in
    let first_lines = ap (lines_from []) (ap trim_newline split ∙ trim_newline_first w) in
    let read_first =
      subst (λ (ls : List Text). parse_lines ls no_fields ≡ ok p) (first_lines ∙ lines) read in
    let (rest, e, clean) =
      from_first (trim_newline w) (lines_from (codes "StorePath: ") (trim_newline w)) p
        (lines_from_lem (codes "StorePath: ") (trim_newline w)) read_first
        (complete_lem p complete) in
    let whole : value
        ≡ codes "StorePath: " ++ field p.fields (codes "StorePath") ++ 10 ∷ (rest ++ tail) =
      split
      ∙ ap (λ (s : Text). codes "StorePath: " ++ s)
          (t
            ∙ ap (λ (s : Text). s ++ tail) e
            ∙ append_assoc (field p.fields (codes "StorePath")) (10 ∷ rest) tail) in
    subst
      (λ (m : Dict Text).
        (r : Text) × (value ≡ codes "StorePath: " ++ field m (codes "StorePath") ++ 10 ∷ r)
        × (no_newline (field m (codes "StorePath")) ≡ true))
      same (rest ++ tail, whole, clean)
