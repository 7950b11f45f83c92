-- ===== src/Snapshot/Paths.antt =====
-- worker/snapshot.go: which strings are store paths.
use nix_ci_worker.Base.{
  ℕ, zero, suc, ◌==◌, Text, [], ◌∷◌, Bool, false, not, ◌&&◌, ◌||◌, leb, all, codes, has_prefix,
  drop_prefix,
}

-- [0-9abcdfghijklmnpqrsvwxyz]
abbrev pub hash_byte : ℕ → Bool
hash_byte c =
    leb b'0' c && leb c b'9'
    || leb b'a' c && leb c b'z' && not (c == b'e' || c == b'o' || c == b't' || c == b'u')

-- [A-Za-z0-9+._?=-]
abbrev pub path_byte : ℕ → Bool
path_byte c =
    leb b'a' c && leb c b'z'
    || leb b'A' c && leb c b'Z'
    || leb b'0' c && leb c b'9'
    || c == b'+'
    || c == b'.'
    || c == b'_'
    || c == b'?'
    || c == b'='
    || c == b'-'

-- So many bytes of a hash, a dash and a name.
unfoldable pub hashed_name : ℕ → Text → Bool
hashed_name zero (d ∷ c ∷ name) = d == b'-' && all path_byte (c ∷ name)
hashed_name zero (d ∷ []) = false
hashed_name zero [] = false
hashed_name (suc n) [] = false
hashed_name (suc n) (c ∷ s) = hash_byte c && hashed_name n s

-- ValidStorePath
unfoldable pub valid_store_path : Text → Bool
unfolding has_prefix drop_prefix hashed_name
valid_store_path s =
    has_prefix s (codes "/nix/store/") && hashed_name 32 (drop_prefix s (codes "/nix/store/"))
