-- ===== src/Meta/Webhook/Intake.antt =====
-- The events that `webhook` of backend/internal/meta/webhook.go adds.
use whats.Base.{
  ◌≡◌, refl, ap, ◌∙◌, inl, inr, ◌⊎◌, ℕ, ◌≤◌, length, Bool, List, nat_beq_iff, true, false, not,
  ◌&&◌, [], ◌∷◌, ◌++◌, Option, none, some, arith, Bool-cases, Option-cases, any, ◌==◌, nat_eq,
  list_eq, list_beq_iff, if◌then◌else◌,
}
use whats.Inbox.Time.{Time}
use whats.Inbox.Text.{Text}
use whats.Inbox.Store.{Uuid}
use whats.Meta.Events.{text, Envelope, Ingest, WebhookEvent, queued, quarantined}
use whats.Meta.Webhook.{
  after_prefix, hex_decode, MetaConfig, Codec, Binding, Request, webhook, receive, keep_event,
  event_row, valid_signature, is_strange, is_refused,
}

-- One header: `sha256=` and, in hexadecimal, the HMAC of the payload under the secret.
pub record IsSigned (mac : Text → Text → List ℕ) (raw : Text) (headers : List Text) (secret : Text)
    : Type 0 where
  pub digits : Text
  pub is_only : headers ≡ (text "sha256=" ++ digits) ∷ []
  pub is_hmac : hex_decode digits ≡ some (mac secret raw)

after_prefix-some : (p v : Text) {rest : Text} → after_prefix p v ≡ some rest → v ≡ p ++ rest
unfolding after_prefix
after_prefix-some [] v h = ground arith
after_prefix-some (x ∷ p) [] h = absurd (ground arith)
after_prefix-some (x ∷ p) (c ∷ v) {rest} h = elim (Bool-cases (x == c)) [
  | inl same ↦
      let head : c ≡ x = ground (arith, nat_beq_iff x c) in
      let tail : v ≡ p ++ rest = after_prefix-some p v (rw same at h) in rw (head, tail) refl
  | inr other ↦ absurd (ground arith)
]

valid_signature-IsSigned :
    (mac : Text → Text → List ℕ) (raw : Text) (headers : List Text) (secret : Text)
    → valid_signature mac raw headers secret ≡ true
    → IsSigned mac raw headers secret
unfolding valid_signature
valid_signature-IsSigned mac raw [] secret h = absurd (ground arith)
valid_signature-IsSigned mac raw (x ∷ y ∷ rest) secret h = absurd (ground arith)
valid_signature-IsSigned mac raw (x ∷ []) secret h =
    elim (Option-cases (after_prefix (text "sha256=") x)) [
      | inl other ↦ absurd (ground arith)
      | inr (digits, prefixed) ↦ elim (Option-cases (hex_decode digits)) [
        | inl garbled ↦ absurd (ground arith)
        | inr (signature, decoded) ↦
            let whole : x ≡ text "sha256=" ++ digits =
              after_prefix-some (text "sha256=") x prefixed in
            let equal : signature ≡ mac secret raw =
              ground (arith, list_beq_iff signature (mac secret raw)) in
            record { digits = digits; is_only = rw whole refl; is_hmac = decoded ∙ ap some equal }
      ]
    ]

-- An event was added for this payload, which is posted to the callback of the app that is bound and is
-- signed; it waits to be processed only if every account and phone that it names is one of the app.
pub record IsKept (config : MetaConfig) (codec : Codec) (bound : Option Binding) (id : Uuid)
    (now : Time) (r : Request) (t : Ingest) (status : ℕ) (t' : Ingest) : Type 0 where
  pub binding : Binding
  pub raw : Text
  pub envelope : Envelope
  pub event : WebhookEvent
  pub is_bound : bound ≡ some binding
  pub is_addressed : r.callback ≡ binding.callback
  pub is_body : r.body ≡ some raw
  pub is_signed : IsSigned codec.mac raw r.signatures config.app_secret
  pub is_parsed : codec.parse_envelope raw ≡ some envelope
  pub is_object : envelope.object ≡ text "whatsapp_business_account"
  pub is_counted : (1 ≤ length envelope.entry) × (length envelope.entry ≤ 1000)
  pub is_new : any (λ e. e.app == binding.app && e.raw_digest == codec.digest raw) t.events ≡ false
  pub is_added : t'.events ≡ t.events ++ event ∷ []
  pub is_answered : status ≡ 200
  pub is_filed : (event.id ≡ id) × (event.app ≡ binding.app) × (event.raw_digest ≡ codec.digest raw)
  pub is_sealed : codec.seal_evidence id raw ≡ some event.ciphertext
  pub is_fresh :
      (event.attempt_count ≡ 0)
      × (event.generation ≡ 0)
      × (event.next_attempt_at ≡ now)
      × (event.lease ≡ none)
  pub is_sorted :
      ((any (is_strange binding.app t.wabas t.phones) envelope.entry ≡ true)
        × (event.state ≡ quarantined))
      ⊎ ((any (is_strange binding.app t.wabas t.phones) envelope.entry ≡ false)
          × (event.state ≡ queued))

sorted_cases :
    (b : Bool)
    → ((b ≡ true) × ((if b then quarantined else queued) ≡ quarantined))
      ⊎ ((b ≡ false) × ((if b then quarantined else queued) ≡ queued))
sorted_cases true = inl (refl, refl)
sorted_cases false = inr (refl, refl)

receive-IsKept :
    (config : MetaConfig) (codec : Codec) (b : Binding) (id : Uuid) (now : Time) (r : Request)
    (raw : Text) (t : Ingest) {status : ℕ} {t' : Ingest}
    → r.callback ≡ b.callback
    → r.body ≡ some raw
    → receive config codec b id now r raw t ≡ (status, t')
    → (t'.events ≡ t.events) ⊎ IsKept config codec (some b) id now r t status t'
unfolding receive keep_event
receive-IsKept config codec b id now r raw t {status} {t'} to_b full h =
    elim (Bool-cases (valid_signature codec.mac raw r.signatures config.app_secret)) [
      | inr unsigned ↦ inl (ground arith)
      | inl signed ↦ elim (Option-cases (codec.parse_envelope raw)) [
        | inl garbled ↦ inl (ground arith)
        | inr (v, parsed) ↦ elim (Option-cases (codec.seal_evidence id raw)) [
          | inl failed ↦ inl (ground arith)
          | inr (ciphertext, closed) ↦ elim (Bool-cases (is_refused v)) [
            | inl refused ↦ inl (ground arith)
            | inr fine ↦
                elim (Bool-cases
                  (any (λ e. e.app == b.app && e.raw_digest == codec.digest raw) t.events)) [
                    | inl known ↦ inl (ground arith)
                    | inr fresh ↦
                        let strange = any (is_strange b.app t.wabas t.phones) v.entry in
                        let sorted = if strange then quarantined else queued in
                        inr (record {
                          binding = b;
                          raw = raw;
                          envelope = v;
                          event = event_row id b.app (codec.digest raw) ciphertext sorted now;
                          is_bound = refl;
                          is_addressed = to_b;
                          is_body = full;
                          is_signed =
                              valid_signature-IsSigned codec.mac raw r.signatures config.app_secret
                                signed;
                          is_parsed = parsed;
                          is_object =
                              ground
                                (arith, list_beq_iff v.object (text "whatsapp_business_account"));
                          is_counted = (ground arith, ground arith);
                          is_new = fresh;
                          is_added = ground arith;
                          is_answered = ground arith;
                          is_filed = (refl, refl, refl);
                          is_sealed = closed;
                          is_fresh = (refl, refl, refl, refl);
                          is_sorted = sorted_cases strange;
                        })
                  ]
          ]
        ]
      ]
    ]

-- A call of the webhook leaves the events as they are, or it answers 200 and adds one under the
-- app of the binding and the digest of the payload, with the sealed payload, due at once: the
-- payload was sent to the callback of the binding, its only signature header is `sha256=` and
-- the hexadecimal HMAC of the payload under the app secret, it decodes to an account object with
-- 1 to 1000 entries, and the app has no event of its digest; the event is in quarantine if the
-- payload names an account or phone that is not of the app, else queued.
pub webhook-IsKept :
    (config : MetaConfig) (codec : Codec) (bound : Option Binding) (id : Uuid) (now : Time)
    (r : Request) (t : Ingest) {status : ℕ} {t' : Ingest}
    → webhook config codec bound id now r t ≡ (status, t')
    → (t'.events ≡ t.events) ⊎ IsKept config codec bound id now r t status t'
unfolding webhook
webhook-IsKept config codec none id now r t h = inl (ground arith)
webhook-IsKept config codec (some b) id now r t {status} {t'} h =
    elim (Bool-cases (r.callback == b.callback)) [
      | inr elsewhere ↦ inl (ground arith)
      | inl here ↦ elim (Option-cases r.body) [
        | inl empty ↦ inl (ground arith)
        | inr (raw, full) ↦ elim (Bool-cases config.enabled) [
          | inr off ↦ inl (ground arith)
          | inl on ↦ elim (Bool-cases r.is_get) [
            | inl get ↦ inl (ground arith)
            | inr post ↦
                elim (Bool-cases
                  (not (r.content_encoding == []) && not (r.content_encoding == text "identity"))) [
                    | inl encoded ↦ inl (ground arith)
                    | inr plain ↦
                        receive-IsKept config codec b id now r raw t
                          (ground (arith, list_beq_iff r.callback b.callback)) full
                          (rw (on, here, post, plain, full) at h)
                  ]
          ]
        ]
      ]
    ]
