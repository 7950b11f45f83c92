-- ===== src/Snapshot/Narinfo.antt =====
-- worker/snapshot.go: the records of store paths, as text and as fields.
pub mod First
pub mod Clean
use nix_ci_worker.Base.{
  ℕ, zero, suc, ◌==◌, Text, Dict, List, [], ◌∷◌, ◌++◌, Option, none, some, Bool, true, false, not,
  ◌&&◌, ◌||◌, if◌then◌else◌, leb, all, codes, text_eq, has, has_prefix, drop_prefix, get_or, lookup,
  insert, Result, ok, err, ◌>>=◌, ◌>>◌, guard,
}
use nix_ci_worker.Scheduler.Job.{fields}
use nix_ci_worker.Snapshot.Paths.{hash_byte}

-- strings.Split(s, "\n"), of a string that follows what was read of the line.
unfoldable pub lines_from : Text → Text → List Text
lines_from line [] = line ∷ []
lines_from line (c ∷ s) =
    let here = lines_from [] s in
    let on = lines_from (line ++ c ∷ []) s in if c == 10 then line ∷ here else on

-- strings.Cut(line, ": ")
unfoldable pub cut_colon : Text → Option (Text × Text)
unfolding has_prefix drop_prefix
cut_colon [] = none
cut_colon (c ∷ s) =
    let rest = cut_colon s in
    if has_prefix (c ∷ s) (codes ": ")
    then some ([], drop_prefix (c ∷ s) (codes ": "))
    else elim rest [ none ↦ none | some (key, text) ↦ some (c ∷ key, text) ]

-- The string without a last line end.
unfoldable pub trim_newline : Text → Text
trim_newline [] = []
trim_newline (c ∷ []) = if c == 10 then [] else c ∷ []
trim_newline (c ∷ d ∷ s) = c ∷ trim_newline (d ∷ s)

-- [^/\\\n]
abbrev pub name_part : ℕ → Bool
name_part c = not (c == b'/' || c == 92 || c == 10)

-- recordRefPattern: so many bytes of a hash, a dash and a name.
unfoldable pub record_ref : ℕ → Text → Bool
record_ref zero (d ∷ c ∷ name) = d == b'-' && all name_part (c ∷ name)
record_ref zero (d ∷ []) = false
record_ref zero [] = false
record_ref (suc n) [] = false
record_ref (suc n) (c ∷ s) = hash_byte c && record_ref n s

abbrev pub store_dir : Text
store_dir = codes "/nix/store/"

-- recordStorePattern
abbrev pub record_store : Text → Bool
record_store s = has_prefix s store_dir && record_ref 32 (drop_prefix s store_dir)

abbrev pub hex_digit : ℕ → Bool
hex_digit c = leb b'a' c && leb c b'f' || leb b'0' c && leb c b'9'

-- So many hexadecimal digits before an ending.
unfoldable pub archive_name : ℕ → Text → Bool
unfolding text_eq
archive_name zero s = text_eq s (codes ".nar.zst")
archive_name (suc n) [] = false
archive_name (suc n) (c ∷ s) = hex_digit c && archive_name n s

-- archivePattern
abbrev pub archive_url : Text → Bool
archive_url s = has_prefix s (codes "nar/") && archive_name 64 (drop_prefix s (codes "nar/"))

-- The variables `fields` and `signed`.
pub record Parsed : Type 0 where
  pub fields : Dict Text
  pub signed : Bool

unfoldable pub parse_line : Text → Parsed → Result Parsed
unfolding cut_colon lookup text_eq insert
parse_line line p = elim (cut_colon line) [
  | none ↦ err "invalid narinfo"
  | some (key, text) ↦
      if has p.fields key && not (text_eq key (codes "Sig"))
      then err "invalid narinfo"
      else if text_eq key (codes "Sig")
      then ok (record p { signed = true })
      else ok (record p { fields = insert key text p.fields })
]

unfoldable pub parse_lines : List Text → Parsed → Result Parsed
unfolding parse_line
parse_lines [] p = ok p
parse_lines (line ∷ lines) p = parse_line line p >>= parse_lines lines

abbrev pub needed : List Text
needed =
    codes "StorePath"
    ∷ codes "NarHash"
    ∷ codes "NarSize"
    ∷ codes "References"
    ∷ codes "URL"
    ∷ codes "Compression"
    ∷ []

abbrev pub field : Dict Text → Text → Text
field m k = get_or m k []

unfoldable pub narinfo_fields : Text → Result (Dict Text)
unfolding has_prefix trim_newline lines_from parse_lines lookup record_ref drop_prefix archive_name
    text_eq fields
narinfo_fields value = do
  guard (has_prefix value (codes "StorePath: ")) "invalid canonical narinfo"
  p ← parse_lines (lines_from [] (trim_newline value)) (record { fields = []; signed = false })
  guard (all (has p.fields) needed) "incomplete narinfo"
  guard (record_store (field p.fields (codes "StorePath"))) "invalid store path"
  guard
      (text_eq (field p.fields (codes "Compression")) (codes "zstd")
        && archive_url (field p.fields (codes "URL")))
      "invalid archive URL"
  guard (all (record_ref 32) (fields (field p.fields (codes "References")))) "invalid reference"
  guard p.signed "unsigned cache record"
  ok p.fields

-- strings.SplitN(s, "-", 2)[0]
unfoldable pub before_dash : Text → Text
before_dash [] = []
before_dash (c ∷ s) = if c == b'-' then [] else c ∷ before_dash s

-- What follows the last slash.
unfoldable pub base_from : Text → Text → Text
base_from last [] = last
base_from last (c ∷ s) =
    let here = base_from [] s in
    let on = base_from (last ++ c ∷ []) s in if c == b'/' then here else on

-- The slashes at the end are left out.
unfoldable pub trim_slashes : Text → Text
unfolding text_eq
trim_slashes [] = []
trim_slashes (c ∷ s) =
    let rest = trim_slashes s in if c == b'/' && text_eq rest [] then [] else c ∷ rest

-- filepath.Base
unfoldable pub base : Text → Text
unfolding base_from trim_slashes text_eq
base [] = codes "."
base (c ∷ s) =
    let trimmed = trim_slashes (c ∷ s) in
    if text_eq trimmed [] then codes "/" else base_from [] trimmed

unfoldable pub narinfo_key : Text → Text
unfolding before_dash base
narinfo_key path = codes "cache/" ++ before_dash (base path) ++ codes ".narinfo"

-- matchingNarinfoFields
unfoldable pub matching_fields : Dict Text → Dict Text → Bool
unfolding lookup text_eq
matching_fields left right =
    all (λ k. text_eq (field left k) (field right k))
      (codes "StorePath"
        ∷ codes "NarHash"
        ∷ codes "NarSize"
        ∷ codes "References"
        ∷ codes "URL"
        ∷ [])
