-- ===== src/Tests/RecordRuns.antt =====
-- `poolBus.read` of worker/pool.go on a message and an older one.
use nix_ci_worker.Base.{
  ◌≡◌, ◌≤◌, refl, Text, [], ◌∷◌, Option, none, some, codes, text_eq, has_prefix, ok,
}
use nix_ci_worker.Pool.Message.{Message, no_message}
use nix_ci_worker.Pool.Records.{
  no_record, Codec, newest, verify, update_record, read_from, read, reads,
}
use nix_ci_worker.Pool.Records.Newest.{Genuine, reads_never_roll_back}

message_at : Text → Option Message
message_at [] = none
message_at (t ∷ content) = some (record no_message { sent = t })

-- A codec of nothing, in which every signature is the same.
abbrev plain : Codec
plain = record {
  decrypt = λ s. ok (some s);
  envelope = λ s. some (s, []);
  hex = λ s. some (7 ∷ []);
  hmac = λ s. 7 ∷ [];
  decode = message_at;
}

abbrev old_key : Text
old_key = codes "00000000000000000000000000000000"

abbrev new_key : Text
new_key = codes "11111111111111111111111111111111"

older_is_dropped :
    (read plain [] (read plain [] no_record (ok (new_key, 5 ∷ []))).0 (ok (old_key, 3 ∷ []))).1
    ≡ ok (record no_message { sent = 5 })
unfolding read read_from update_record verify newest message_at text_eq has_prefix
older_is_dropped = refl

reads_never_roll_back_example :
    Genuine plain [] (read plain [] (reads plain [] no_record []) (ok (new_key, 5 ∷ []))).0
    × (5 ≤ 5)
unfolding read reads read_from update_record verify newest message_at text_eq has_prefix
reads_never_roll_back_example =
    reads_never_roll_back plain [] [] [] (ok (new_key, 5 ∷ [])) (ok (old_key, 3 ∷ []))
      (record no_message { sent = 5 }) (record no_message { sent = 5 }) refl refl refl
