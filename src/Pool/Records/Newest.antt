-- ===== src/Pool/Records/Newest.antt =====
-- Reading a mailbox never returns to an older message.
use nix_ci_worker.Base.{
  ◌+◌, ◌≤◌, ◌≡◌, ◌==◌, ==_iff, ◌⊎◌, ◌∙◌, refl, sym, ap, subst, arith, Text, List, [], ◌∷◌, Option,
  none, some, true, false, false≢true, ◌&&◌, ◌||◌, if◌then◌else◌, ltb, leb, length, text_eq,
  text_eq_iff, has_prefix, Result, ok, err, ◌>>=◌, passed, ok_parts, ok_eq, some_eq, Bool-cases,
  inl, inr,
}
use nix_ci_worker.Pool.Message.{Message}
use nix_ci_worker.Pool.Records.{
  PoolRecord, no_record, coordination_limit, Codec, authenticate, needs, matches, newest, verify,
  update_record, read_from, read, reads,
}

-- The record's content is authentic under its key, and is a message of its time.
pub record Genuine (codec : Codec) (prefix : Text) (r : PoolRecord) : Type 0 where
  pub key : (length r.key ≡ length prefix + 32) × (has_prefix r.key prefix ≡ true)
  pub mac : (m : Text) × (codec.hex m ≡ some (authenticate codec r.key r.content))
  pub message : (m : Message) × (codec.decode r.content ≡ some m) × (m.sent ≡ r.sent)

needs-eq-ok {ℓ} : {A : Type ℓ} (o : Option A) (a : A) → needs o ≡ ok a → o ≡ some a
needs-eq-ok none a h = cc
needs-eq-ok (some b) a h = cc

module _ (codec : Codec) (prefix : Text) where
  -- The state of a mailbox: nothing was read, or an authentic message was.
  abbrev pub Kept : PoolRecord → Type 0
  Kept r = (r ≡ no_record) ⊎ Genuine codec prefix r

  -- Not older, once there is something.
  abbrev pub Later : PoolRecord → PoolRecord → Type 0
  Later r s = text_eq r.key [] ≡ false → (text_eq s.key [] ≡ false) × (r.sent ≤ s.sent)

  signature :
      (key content : Text) (mac : Option Text)
      → matches codec key content mac ≡ true
      → mac ≡ some (authenticate codec key content)
  signature key content none h = elim (false≢true h) [ ]
  signature key content (some m) h = ap some ((text_eq_iff m (authenticate codec key content)).0 h)

  newest-Kept :
      (r : PoolRecord) (key content : Text) (m : Message)
      → Genuine codec prefix (record { key = key; content = content; sent = m.sent })
      → text_eq key [] ≡ false
      → Kept r
      → Kept (newest r key content m) × Later r (newest r key content m)
  unfolding newest
  newest-Kept r key content m g some_key k =
      elim (Bool-cases (text_eq r.key [] || ltb r.sent m.sent)) [
        | inl e ↦ rw (e, newest, if◌then◌else◌) (inr g, λ h. (some_key, ground (arith, e, h)))
        | inr e ↦ rw (e, newest, if◌then◌else◌) (k, λ h. (h, omega arith))
      ]

  long_key :
      (key : Text)
      → (length key == length prefix + 32 && has_prefix key prefix) ≡ true
      → text_eq key [] ≡ false
  unfolding text_eq
  long_key [] h = ground (arith, h)
  long_key (c ∷ key) h = refl

  verified :
      (r : PoolRecord) (key encrypted : Text) (s : PoolRecord)
      → verify codec prefix r key encrypted ≡ ok s
      → Kept r
      → Kept s × Later r s
  unfolding verify
  verified r key encrypted s h k =
      let (shape, a) =
        passed (length key == length prefix + 32 && has_prefix key prefix)
          "invalid coordination record key" _ h in
      let (opened, b, c) = ok_parts (codec.decrypt encrypted) _ a in
      let (raw, d, e) = ok_parts (needs opened) _ c in
      let (small, f) = passed (leb (length raw) coordination_limit) "invalid pool envelope" _ e in
      let (envelope, g, i) = ok_parts (needs (codec.envelope raw)) _ f in
      let (signed, j) =
        passed (matches codec key envelope.0 (codec.hex envelope.1))
          "pool message authentication failed" _ i in
      let (message, l, last) = ok_parts (needs (codec.decode envelope.0)) _ j in
      subst (λ x. Kept x × Later r x) (ok_eq _ s last)
        (newest-Kept r key envelope.0 message
          (record {
            key = (ground (arith, shape), ground (arith, shape));
            mac = (envelope.1, signature key envelope.0 (codec.hex envelope.1) signed);
            message = (message, needs-eq-ok (codec.decode envelope.0) message l, refl);
          })
          (long_key key shape) k)

  updated :
      (r : PoolRecord) (answer : Text × Text) (s : PoolRecord)
      → update_record codec prefix r answer ≡ ok s
      → Kept r
      → Kept s × Later r s
  unfolding update_record
  updated r (key, encrypted) s h k = elim (Bool-cases (text_eq key r.key)) [
    | inl e ↦
        subst (λ x. Kept x × Later r x) (ok_eq r s (rw (e, update_record, if◌then◌else◌) at h))
          (k, λ g. (g, omega arith))
    | inr e ↦ verified r key encrypted s (rw (e, update_record, if◌then◌else◌) at h) k
  ]

  read_from-Kept :
      (r : PoolRecord) (found : Result PoolRecord)
      → Kept r
      → ((s : PoolRecord) → found ≡ ok s → Kept s × Later r s)
      → Kept (read_from codec prefix r found).0 × Later r (read_from codec prefix r found).0
  unfolding read_from
  read_from-Kept r (err e) k u = (k, λ h. (h, omega arith))
  read_from-Kept r (ok s) k u = u s refl

  read-Kept :
      (r : PoolRecord) (answer : Result (Text × Text))
      → Kept r
      → Kept (read codec prefix r answer).0 × Later r (read codec prefix r answer).0
  unfolding read
  read-Kept r answer k = read_from-Kept r (answer >>= update_record codec prefix r) k (λ s h.
      let (a, found, u) = ok_parts answer (update_record codec prefix r) h in updated r a s u k)

  reads-Kept :
      (r : PoolRecord) (answers : List (Result (Text × Text)))
      → Kept r
      → Kept (reads codec prefix r answers) × Later r (reads codec prefix r answers)
  unfolding reads
  reads-Kept r [] k = (k, λ h. (h, omega arith))
  reads-Kept r (a ∷ answers) k =
      let (now, later) = read-Kept r a k in
      let (last, after) = reads-Kept (read codec prefix r a).0 answers now in
      (last, λ h. let (b, c) = later h in let (d, e) = after b in (d, omega (arith, c, e)))

  -- A message that a read returns is that of the record.
  read-message :
      (r : PoolRecord) (answer : Result (Text × Text)) (m : Message)
      → (read codec prefix r answer).1 ≡ ok m
      → codec.decode (read codec prefix r answer).0.content ≡ some m
  unfolding read
  read-message r answer m h = from (answer >>= update_record codec prefix r) h
    where
      from :
          (found : Result PoolRecord)
          → (read_from codec prefix r found).1 ≡ ok m
          → codec.decode (read_from codec prefix r found).0.content ≡ some m
      from (err e) k = cc
      from (ok s) k = needs-eq-ok (codec.decode s.content) m k

-- A record whose message is returned is authentic, and has that message's time.
returned :
    (codec : Codec) (prefix : Text) (r : PoolRecord) (answer : Result (Text × Text)) (m : Message)
    → codec.decode [] ≡ none
    → Kept codec prefix r
    → (read codec prefix r answer).1 ≡ ok m
    → Genuine codec prefix (read codec prefix r answer).0
      × (text_eq (read codec prefix r answer).0.key [] ≡ false)
      × (m.sent ≡ (read codec prefix r answer).0.sent)
returned codec prefix r answer m nothing k h =
    let found = read-message codec prefix r answer m h in
    elim (read-Kept codec prefix r answer k).0 [
      | inl e ↦ absurd (ground (arith, nothing, found, ap (λ x. codec.decode x.content) e))
      | inr g ↦
          let (n, decoded, time) = g.message in
          (
            g,
            long_key codec prefix _ (
                ground (
                  arith,
                  g.key,
                  ==_iff (length (read codec prefix r answer).0.key) (length prefix + 32),
                )),
            ap (λ x. x.sent) (some_eq m n (sym found ∙ decoded)) ∙ time,
          )
    ]

-- Of any reads of a mailbox, whatever the answers: a message that one returns is authentic under the key of its record, which lies in the mailbox, and no later read returns an older one, if nothing decodes as a message of no bytes.
pub reads_never_roll_back :
    (codec : Codec) (prefix : Text) (before between : List (Result (Text × Text)))
    (first second : Result (Text × Text)) (m n : Message)
    → codec.decode [] ≡ none
    → (read codec prefix (reads codec prefix no_record before) first).1 ≡ ok m
    → (read codec prefix
        (reads codec prefix
          (read codec prefix (reads codec prefix no_record before) first).0
          between)
        second).1
      ≡ ok n
    → Genuine codec prefix (read codec prefix (reads codec prefix no_record before) first).0
      × (m.sent ≤ n.sent)
reads_never_roll_back codec prefix before between first second m n nothing h k =
    let (start, a) = reads-Kept codec prefix no_record before (inl refl) in
    let r = (read codec prefix (reads codec prefix no_record before) first).0 in
    let kept = (read-Kept codec prefix (reads codec prefix no_record before) first start).0 in
    let (authentic, named, time) =
      returned codec prefix (reads codec prefix no_record before) first m nothing start h in
    let (still, later) = reads-Kept codec prefix r between kept in
    let (last, after) = read-Kept codec prefix (reads codec prefix r between) second still in
    let (there, less) = later named in
    let (authentic', named', time') =
      returned codec prefix (reads codec prefix r between) second n nothing still k in
    (authentic, omega (arith, time, time', less, (after there).1))
