-- ===== src/Pool/Message.antt =====
-- worker/pool.go: the control messages of the builder pool, and when one is usable. Times are
-- nanoseconds since a common origin.
use nix_ci_worker.Base.{
  ℕ, ◌+◌, Text, List, [], ◌∷◌, Option, none, some, Bool, false, not, ◌&&◌, ◌||◌, ltb, leb, ◌==◌,
  all, text_eq,
}
use nix_ci_worker.Base.Int.{ℤ, pos, lt_ℤ}

abbrev pub runners_per_system : ℕ
runners_per_system = 4

abbrev pub minute : ℕ
minute = 60_000_000_000

pub record Task : Type 0 where
  pub cores : ℤ
  pub installable : Text
  pub build_inputs : List Text
  pub inputs : Text
  pub public_key : Text
  pub outputs : List Text

pub record Message : Type 0 where
  pub cores : ℤ
  pub finish : List ℕ
  pub session : Text
  pub instance_id : Text
  pub sequence : ℕ
  pub state : Text
  pub sent : ℕ
  pub features : List Text
  pub task : Option Task
  pub snapshot : Text

abbrev pub no_message : Message
no_message = record {
  cores = pos 0;
  finish = [];
  session = [];
  instance_id = [];
  sequence = 0;
  state = [];
  sent = 0;
  features = [];
  task = none;
  snapshot = [];
}

-- [a-zA-Z0-9_-]
unfoldable pub name_byte : ℕ → Bool
name_byte c =
    leb b'a' c && leb c b'z'
    || leb b'A' c && leb c b'Z'
    || leb b'0' c && leb c b'9'
    || c == b'_'
    || c == b'-'

-- nativeName of planner.go: ^[a-zA-Z0-9_-]+$
unfoldable pub native_name : Text → Bool
unfolding name_byte
native_name [] = false
native_name (c ∷ s) = all name_byte (c ∷ s)

unfoldable pub valid_features : List Text → Bool
unfolding native_name
valid_features = all native_name

-- poolFresh, of a message that is there: younger than the lease, and not sent from the future.
unfoldable pub sent_fresh : Message → ℕ → ℕ → Bool
sent_fresh m lease now = ltb now (m.sent + lease) && ltb m.sent (now + minute)

unfoldable pub pool_fresh : Option Message → ℕ → ℕ → Bool
unfolding sent_fresh
pool_fresh none lease now = false
pool_fresh (some m) lease now = sent_fresh m lease now

-- The test by which `schedule` registers a builder.
unfoldable pub usable : Message → ℕ → ℕ → Bool
unfolding sent_fresh valid_features text_eq
usable m lease now =
    sent_fresh m lease now
    && not (text_eq m.instance_id [])
    && valid_features m.features
    && not (lt_ℤ m.cores (pos 1))
    && not (lt_ℤ (pos 256) m.cores)
