-- ===== src/Pool/Records.antt =====
-- worker/pool.go: `poolBus.read`, which keeps the newest authentic record of a mailbox.
pub mod Newest
use nix_ci_worker.Base.{
  ℕ, ◌+◌, ◌≡◌, ◌==◌, Text, List, [], ◌∷◌, ◌++◌, Option, none, some, Bool, true, false, not, ◌&&◌,
  ◌||◌, if◌then◌else◌, ltb, leb, length, text_eq, has_prefix, Result, ok, err, ◌>>=◌, ◌>>◌, guard,
}
use nix_ci_worker.Pool.Message.{Message}

pub record PoolRecord : Type 0 where
  pub key : Text
  pub content : Text
  pub sent : ℕ

abbrev pub no_record : PoolRecord
no_record = record { key = []; content = []; sent = 0 }

abbrev pub coordination_limit : ℕ
coordination_limit = 1_048_576

-- The decryption of a record, which fails at once or while it is read; the decoders of JSON and of
-- hexadecimal digits; and the HMAC under the pool's key.
pub record Codec : Type 0 where
  pub decrypt : Text → Result (Option Text)
  pub envelope : Text → Option (Text × Text)
  pub hex : Text → Option Text
  pub hmac : Text → Text
  pub decode : Text → Option Message

abbrev pub authenticate : Codec → Text → Text → Text
authenticate codec tag content = codec.hmac (tag ++ 0 ∷ content)

-- `if err != nil { return errors.New(…) }`
abbrev pub needs {ℓ} : {A : Type ℓ} → Option A → Result A
needs none = err "invalid coordination data"
needs (some a) = ok a

abbrev pub matches : Codec → Text → Text → Option Text → Bool
matches codec key content none = false
matches codec key content (some signature) = text_eq signature (authenticate codec key content)

-- The newer of the record and a message.
unfoldable pub newest : PoolRecord → Text → Text → Message → PoolRecord
unfolding text_eq
newest r key content message =
    if text_eq r.key [] || ltb r.sent message.sent
    then record { key = key; content = content; sent = message.sent }
    else r

module _ (codec : Codec) (prefix : Text) where
  -- A record under another key is verified.
  unfoldable pub verify : PoolRecord → Text → Text → Result PoolRecord
  unfolding has_prefix text_eq newest
  verify r key encrypted = do
    guard (length key == length prefix + 32 && has_prefix key prefix)
        "invalid coordination record key"
    opened ← codec.decrypt encrypted
    raw ← needs opened
    guard (leb (length raw) coordination_limit) "invalid pool envelope"
    envelope ← needs (codec.envelope raw)
    guard (matches codec key envelope.0 (codec.hex envelope.1)) "pool message authentication failed"
    message ← needs (codec.decode envelope.0)
    ok (newest r key envelope.0 message)

  unfoldable pub update_record : PoolRecord → Text × Text → Result PoolRecord
  unfolding verify text_eq
  update_record r (key, encrypted) = if text_eq key r.key then ok r else verify r key encrypted

  -- The record after a read, and the message; the answer is that of `control.Read`.
  unfoldable pub read_from : PoolRecord → Result PoolRecord → PoolRecord × Result Message
  read_from r (err e) = (r, err e)
  read_from r (ok s) = (s, needs (codec.decode s.content))

  unfoldable pub read : PoolRecord → Result (Text × Text) → PoolRecord × Result Message
  unfolding update_record read_from
  read r answer = read_from r (answer >>= update_record r)

  -- The record after several reads.
  unfoldable pub reads : PoolRecord → List (Result (Text × Text)) → PoolRecord
  unfolding read
  reads r [] = r
  reads r (a ∷ answers) = reads (read r a).0 answers
