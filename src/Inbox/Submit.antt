-- ===== src/Inbox/Submit.antt =====
-- The two requests that lead to a queued message: `preflight` and `submit` of
-- backend/internal/inbox/guard.go. A failed request leaves the tables as they were. New identifiers,
-- the new token and the digests are parameters.
pub mod Laws
pub mod Consumed
pub mod Again
pub mod Handover
use whats.Base.{
  ◌+◌, ◌-◌, ◌*◌, String, Bool, true, false, not, ◌&&◌, ◌||◌, List, [], ◌∷◌, ◌++◌, Option, none,
  some, Result, ok, err, ◌>>=◌, ◌>>◌, fail_if, or_fail, ltb, leb, is_some, is_none, length, find,
  any, ◌==◌, nat_eq, string_eq, list_eq, if◌then◌else◌,
}
use whats.Inbox.Error.{
  Code, Error, domain, validation, internal, intent_scope_changed, pricing_authorization_expired,
  controlled_test_recipient_required,
}
use whats.Inbox.Time.{Time, second, before}
use whats.Inbox.Text.{Text, byte_length, valid_text}
use whats.Inbox.Delivery.{DeliveryState}
use whats.Inbox.Guard.{Decision}
use whats.Inbox.Store.{
  Uuid, IntentState, Intent, Authorization, Message, Db, update_where, audit, event,
}
use whats.Inbox.Evaluation.{
  Session, Access, LiveConfig, Conversation, SendInput, Scope, conversation, scope_of,
  current_policy, policy_id, evaluate_scope,
}

-- What `preflight` answers, as far as it decides something.
pub record Preflight : Type 0 where
  pub decision : Decision
  pub authorization : Option (Text × Time)

-- `Decision{Code: …, Window: …, Pricing: …, CurrencyState: …}`, the other fields zero
abbrev pub uncontrolled : Decision → Decision
uncontrolled d = record d {
  allowed = false;
  code = controlled_test_recipient_required;
  category = "";
  confirmation_required = false;
  financial_reservation_required = false;
}

-- Sixty seconds, or five seconds before the window closes if that is earlier.
abbrev pub authorization_expiry : Time → Time → Time
authorization_expiry now window =
    if before (window - 5 * second) (now + 60 * second)
    then window - 5 * second
    else now + 60 * second

-- `submit`'s answer
pub record Submitted : Type 0 where
  pub id : Uuid
  pub state : IntentState
  pub reused : Bool

abbrev pub has_key : Uuid → Text → Intent → Bool
has_key member key i = i.actor == member && i.client_key == key

-- The length of a token: 32 bytes in unpadded base64.
abbrev pub is_submittable : SendInput → Bool
is_submittable input =
    valid_text input.text 4096
    && leb 16 (byte_length input.client_key)
    && leb (byte_length input.client_key) 128
    && byte_length input.authorization == 43

-- `CHECK(length(client_key) BETWEEN 16 AND 128)` counts characters.
abbrev pub fits_column : Text → Bool
fits_column key = leb 16 (length key) && leb (length key) 128

-- The `WHERE` of the authorization query.
abbrev pub is_usable : Db → Time → Uuid → Uuid → Uuid → String → Authorization → Bool
is_usable db now session member conversation digest a =
    a.token_digest == digest
    && a.session == session
    && a.actor == member
    && a.conversation == conversation
    && a.policy == policy_id (current_policy db.policies)
    && a.policy_revision == db.settings.policy_revision
    && ltb now a.expires_at

abbrev pub new_message : Uuid → Time → Conversation → SendInput → Message
new_message id now c input = record {
  id = id;
  conversation = c.id;
  phone = c.phone;
  provider_id = none;
  outbound = true;
  message_type = "TEXT";
  text = input.text;
  provider_at = none;
  received_at = now;
  inbound_sequence = none;
  source_event = none;
  blocked = false;
  delivery_state = DeliveryState.pending_local;
  error_code = none;
  revision = 1;
}

abbrev pub new_intent :
    Uuid → Uuid → Uuid → String → Session → Uuid → Conversation → SendInput → Intent
new_intent id message authorization digest v member c input = record {
  id = id;
  conversation = c.id;
  actor = member;
  session = v.id;
  phone = c.phone;
  authorization = authorization;
  message = message;
  client_key = input.client_key;
  scope_hash = digest;
  text = input.text;
  state = IntentState.queued;
  claim_token = none;
  claim_until = 0;
  dispatch_started_at = 0;
  error_code = none;
  provider_id = none;
}

-- The inserts and updates of `submit`; intents are kept in the order of creation.
unfoldable pub enqueue :
    Uuid → Uuid → Uuid → String → Time → Session → Uuid → Conversation → SendInput → Db → Db
enqueue intent message authorization digest now v member c input db = event c.id "message.created" (
    audit (some v.user) intent "inbox.intent.created" (record db {
      messages = new_message message now c input ∷ db.messages;
      intents = db.intents ++ new_intent intent message authorization digest v member c input ∷ [];
      authorizations =
          update_where (λ a. a.id == authorization && is_none a.consumed_intent)
            (λ a. record a { consumed_intent = some intent }) db.authorizations;
    }))

module _ (access : Access) (live : LiveConfig) (org : Uuid) (hash_scope : Scope → String)
    (hash_text : Text → String) where
  abbrev pub new_authorization :
      Uuid → Text → Time → Session → Uuid → Conversation → SendInput → Db → Authorization
  new_authorization id token expires v member c input db = record {
    id = id;
    conversation = c.id;
    actor = member;
    session = v.id;
    token_digest = hash_text token;
    scope_hash = hash_scope (scope_of org v c input);
    policy = policy_id (current_policy db.policies);
    assignment_revision = c.assignment_revision;
    policy_revision = db.settings.policy_revision;
    expires_at = expires;
    consumed_intent = none;
  }

  -- An allowed decision has a window; without one the source would panic.
  unfoldable pub preflight :
      Uuid → Text → Time → Session → Uuid → SendInput → Db → Result Error (Db × Preflight)
  preflight id token now v member input db = do
    fail_if (not (valid_text input.text 4096)) validation
    c ← conversation access db input.conversation member "messages.send"
    let decision = evaluate_scope access live db now v member c input
    if not decision.allowed
        then ok (db, record { decision = decision; authorization = none })
        else if not live.enabled || not (c.identity == live.recipient)
        then ok (db, record { decision = uncontrolled decision; authorization = none })
        else elim c.window_expires_at [
          | none ↦ err internal
          | some window ↦
              let expires = authorization_expiry now window in
              ok (
                record db {
                  authorizations =
                      new_authorization id token expires v member c input db ∷ db.authorizations;
                },
                record { decision = decision; authorization = some (token, expires) },
              )
        ]

  -- A new key: the guard, then an authorization that is valid, of the same scope and not consumed.
  -- The authorization query reads the clock anew.
  unfoldable pub submit_new :
      Uuid
      → Uuid
      → Time
      → Time
      → Session
      → Uuid
      → Conversation
      → SendInput
      → Db
      → Result Error (Db × Submitted)
  submit_new intent message now later v member c input db = do
    let decision = evaluate_scope access live db now v member c input
    let digest = hash_scope (scope_of org v c input)
    fail_if (not decision.allowed) (domain decision.code)
    fail_if (not live.enabled || not (c.identity == live.recipient))
        (domain controlled_test_recipient_required)
    a ←
        or_fail
          (find (is_usable db later v.id member c.id (hash_text input.authorization))
            db.authorizations)
          (domain pricing_authorization_expired)
    fail_if (not (a.scope_hash == digest) || is_some a.consumed_intent)
        (domain intent_scope_changed)
    fail_if (not (fits_column input.client_key)) internal
    ok (
      enqueue intent message a.id digest later v member c input db,
      record { id = intent; state = IntentState.queued; reused = false },
    )

  -- A text parameter with a null character fails in the database.
  unfoldable pub submit :
      Uuid → Uuid → Time → Time → Session → Uuid → SendInput → Db → Result Error (Db × Submitted)
  submit intent message now later v member input db = do
    fail_if (not (is_submittable input)) validation
    c ← conversation access db input.conversation member "messages.send"
    fail_if (any (λ k. k == 0) input.client_key) internal
    elim (find (has_key member input.client_key) db.intents) [
      | none ↦ submit_new intent message now later v member c input db
      | some i ↦
          if not (i.scope_hash == hash_scope (scope_of org v c input))
          then err (domain intent_scope_changed)
          else ok (db, record { id = i.id; state = i.state; reused = true })
    ]
