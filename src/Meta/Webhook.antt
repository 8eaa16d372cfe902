-- ===== src/Meta/Webhook.antt =====
-- The callback that Meta calls: `validSignature`, `verifyChallenge` and `webhook` of
-- backend/internal/meta/webhook.go. HMAC and SHA-256, the encryption of the evidence and the decoding
-- of JSON and of the query are parameters.
pub mod Intake
use whats.Base.{
  ℕ, ◌+◌, ◌-◌, ◌*◌, String, Bool, true, false, not, ◌&&◌, ◌||◌, List, [], ◌∷◌, ◌++◌, map, Option,
  none, some, ltb, leb, length, any, all, filter, find, is_none, ◌==◌, nat_eq, list_eq,
  if◌then◌else◌,
}
use whats.Inbox.Time.{Time}
use whats.Inbox.Text.{Text, byte_length, is_digit}
use whats.Inbox.Events.{◌>>=◌}
use whats.Inbox.Store.{Uuid, Waba, Phone}
use whats.Meta.Events.{
  text, Envelope, Entry, Change, WebhookEvent, Ingest, EventState, queued, quarantined,
  unclassified, of_challenge,
}

-- `strings.HasPrefix`, with what follows the prefix
unfoldable pub after_prefix : Text → Text → Option Text
after_prefix [] v = some v
after_prefix (p ∷ ps) [] = none
after_prefix (p ∷ ps) (c ∷ v) = if p == c then after_prefix ps v else none

unfoldable pub hex_digit : ℕ → Option ℕ
hex_digit c =
    if is_digit c
    then some (c - 48)
    else if leb 97 c && leb c 102
    then some (c - 87)
    else if leb 65 c && leb c 70
    then some (c - 55)
    else none

-- `hex.DecodeString`
unfoldable pub hex_decode : Text → Option (List ℕ)
hex_decode [] = some []
hex_decode (c ∷ []) = none
hex_decode (c ∷ d ∷ v) = hex_decode v >>= λ rest.
    hex_digit c >>= λ high. hex_digit d >>= λ low. some ((high * 16 + low) ∷ rest)

-- `validSignature`: one header, `sha256=` and the HMAC in hexadecimal. `mac secret raw` is the HMAC.
unfoldable pub valid_signature : (Text → Text → List ℕ) → Text → List Text → Text → Bool
valid_signature mac raw [] secret = false
valid_signature mac raw (h ∷ _ ∷ _) secret = false
valid_signature mac raw (h ∷ []) secret =
    byte_length h == 71 && elim (after_prefix (text "sha256=") h) [
      | none ↦ false
      | some digits ↦ elim (hex_decode digits) [
        | none ↦ false
        | some signature ↦ signature == mac secret raw
      ]
    ]

-- The values of a key of the query.
abbrev pub values : Text → List (Text × Text) → List Text
values key query = map (λ p. p.1) (filter (λ p. p.0 == key) query)

-- `len(q[key]) != 1 || q.Get(key) == ""`, else the value
unfoldable pub only_value : Text → List (Text × Text) → Option Text
only_value key query = elim (values key query) [
  | [] ↦ none
  | v ∷ vs ↦ elim vs [ [] ↦ if v == [] then none else some v | _ ∷ _ ↦ none ]
]

-- `verifyChallenge`, of the parsed query; `digest` is SHA-256.
unfoldable pub verify_challenge : (Text → Text) → Option (List (Text × Text)) → Text → Option Text
verify_challenge digest parsed token = do
  query ← parsed
  mode ← only_value (text "hub.mode") query
  offered ← only_value (text "hub.verify_token") query
  challenge ← only_value (text "hub.challenge") query
  (if not (mode == text "subscribe")
        || ltb 1024 (byte_length challenge)
        || any (λ c. c == 13 || c == 10 || c == 0) challenge
        || not (digest offered == digest token)
      then none
      else some challenge)

-- `binding`: the app and its callback
pub record Binding : Type 0 where
  pub app : Uuid
  pub callback : Text

pub record MetaConfig : Type 0 where
  pub enabled : Bool
  pub verify_token : Text
  pub app_secret : Text

pub record Request : Type 0 where
  pub is_get : Bool
  pub callback : Text
  pub query : Option (List (Text × Text))
  pub content_encoding : Text
  pub body : Option Text  -- `none` if it cannot be read or is longer than 4 MiB
  pub signatures : List Text

-- What the handler calls: HMAC, SHA-256, `parseEnvelope`, and `SealEvidence` for an identifier.
pub record Codec : Type 0 where
  pub mac : Text → Text → List ℕ
  pub digest : Text → Text
  pub parse_envelope : Text → Option Envelope
  pub seal_evidence : Uuid → Text → Option Text

-- The account and the phone of an entry are rows of the app. A change whose value does not decode
-- names no phone.
abbrev pub knows_waba : Uuid → List Waba → Text → Bool
knows_waba app wabas id = any (λ w. w.external_id == id && w.app == app) wabas

abbrev pub knows_phone : Uuid → List Waba → List Phone → Text → Text → Bool
knows_phone app wabas phones waba phone =
    any
      (λ p.
        p.external_id == phone
        && any (λ w. w.id == p.waba && w.external_id == waba && w.app == app) wabas)
      phones

abbrev pub is_strange_change : Uuid → List Waba → List Phone → Entry → Change → Bool
is_strange_change app wabas phones e c = elim c.named_phone [
  | none ↦ false
  | some phone ↦ not (phone == []) && not (knows_phone app wabas phones e.id phone)
]

abbrev pub is_strange : Uuid → List Waba → List Phone → Entry → Bool
is_strange app wabas phones e =
    not (knows_waba app wabas e.id) || any (is_strange_change app wabas phones e) e.changes

-- The row of a new event, and its insertion: a payload that is there already is not kept again.
abbrev pub event_row : Uuid → Uuid → Text → Text → EventState → Time → WebhookEvent
event_row id app digest ciphertext state now = record {
  id = id;
  app = app;
  raw_digest = digest;
  ciphertext = ciphertext;
  state = state;
  class = unclassified;
  attempt_count = 0;
  generation = 0;
  next_attempt_at = now;
  lease = none;
  lease_until = 0;
  last_error = none;
}

unfoldable pub keep_event : WebhookEvent → Ingest → Ingest
keep_event row t =
    if any (λ e. e.app == row.app && e.raw_digest == row.raw_digest) t.events
    then t
    else record t { events = t.events ++ row ∷ [] }

abbrev pub is_refused : Envelope → Bool
is_refused v =
    not (v.object == text "whatsapp_business_account")
    || length v.entry == 0
    || ltb 1000 (length v.entry)

-- The part of `webhook` that has a payload: the answer's status and the tables.
unfoldable pub receive :
    MetaConfig → Codec → Binding → Uuid → Time → Request → Text → Ingest → ℕ × Ingest
receive config codec b id now r raw t =
    if not (valid_signature codec.mac raw r.signatures config.app_secret)
    then (403, t)
    else elim (codec.parse_envelope raw) [
      | none ↦ (400, t)
      | some v ↦ if is_refused v then (400, t) else elim (codec.seal_evidence id raw) [
        | none ↦ (503, t)
        | some ciphertext ↦
            let state =
              if any (is_strange b.app t.wabas t.phones) v.entry then quarantined else queued in
            let row = event_row id b.app (codec.digest raw) ciphertext state now in
            (200, record (keep_event row t) { last_webhook_at = some now })
      ]
    ]

-- `webhook`
unfoldable pub webhook :
    MetaConfig → Codec → Option Binding → Uuid → Time → Request → Ingest → ℕ × Ingest
webhook config codec bound id now r t = if not config.enabled then (503, t) else elim bound [
  | none ↦ (503, t)
  | some b ↦
      if not (r.callback == b.callback)
      then (404, t)
      else if r.is_get
      then elim (verify_challenge codec.digest r.query config.verify_token) [
        | none ↦ (403, t)
        | some challenge ↦ (
          200,
          record t {
            challenge_verified_at = some now;
            audited = (of_challenge, b.app) ∷ t.audited;
          },
        )
      ]
      else if not (r.content_encoding == []) && not (r.content_encoding == text "identity")
      then (415, t)
      else elim r.body [ none ↦ (413, t) | some raw ↦ receive config codec b id now r raw t ]
]
