-- ===== src/Inbox/Evaluation.antt =====
-- The inputs of the guard read from the tables: `conversation`, `scopeHash` and the method `evaluate`,
-- backend/internal/inbox/service.go and guard.go.
pub mod Laws
use whats.Base.{
  ℕ, ◌+◌, String, Bool, false, not, ◌&&◌, ◌||◌, List, [], ◌∷◌, Option, none, some, Result, ok,
  ◌>>=◌, ◌>>◌, fail_if, or_fail, ltb, leb, ◌==◌, nat_eq, string_eq, list_eq, holds, find, any,
  if◌then◌else◌,
}
use whats.Inbox.Error.{Error, not_found, permission, sender_binding_unavailable}
use whats.Inbox.Time.{Time, Duration}
use whats.Inbox.Text.{Text}
use whats.Inbox.Guard.{GuardInput, Decision, evaluate}
use whats.Inbox.Store.{Uuid, Db, ConversationRow, App, Policy}

-- Who is acting: the part of `identity.Session` that the inbox reads.
pub record Session : Type 0 where
  pub id : Uuid
  pub user : Uuid
  pub verified : Bool

-- What the inbox asks of the identity component: `app.inbox_permission` and `LockDomainSession`.
pub record Access : Type 0 where
  pub permitted : Uuid → String → Option Uuid → Option Uuid → Bool
  pub lock_session : Uuid → Option (Session × Uuid)

-- `LiveConfig`, and the configured identities of the sender.
pub record LiveConfig : Type 0 where
  pub enabled : Bool
  pub recipient : Text
  pub delivery_bound : Duration
  pub acceptance_not_before : Time
  pub app_id : Text
  pub waba_id : Text
  pub phone_id : Text

-- A conversation joined with its recipient, phone and account.
pub record Conversation : Type 0 where
  pub row : ConversationRow
  pub open row use *
  pub identity : Text
  pub suppressed : Bool
  pub phone_external : Text
  pub waba_external : Text

-- `require`
abbrev pub require : Access → Uuid → String → Option Uuid → Option Uuid → Result Error (Unit {0})
require access member key team subject =
    fail_if (not (access.permitted member key team subject)) permission

-- The inner joins: a conversation that lacks a partner is not found.
unfoldable pub join_conversation : Db → ConversationRow → Option Conversation
join_conversation db c = elim (find (λ r. r.id == c.recipient) db.recipients) [
  | none ↦ none
  | some r ↦ elim (find (λ p. p.id == c.phone) db.phones) [
    | none ↦ none
    | some p ↦ elim (find (λ w. w.id == p.waba) db.wabas) [
      | none ↦ none
      | some w ↦ some record {
        row = c;
        identity = r.identity_value;
        suppressed = r.suppressed;
        phone_external = p.external_id;
        waba_external = w.external_id;
      }
    ]
  ]
]

abbrev pub find_conversation : Db → Uuid → Option Conversation
find_conversation db id = elim (find (λ c. c.id == id) db.conversations) [
  | none ↦ none
  | some c ↦ join_conversation db c
]

-- `conversation`: the row must be visible to the member, and the key granted where there is one.
unfoldable pub conversation : Access → Db → Uuid → Uuid → String → Result Error Conversation
conversation access db id member key = do
  c ← or_fail (find_conversation db id) not_found
  fail_if (not (access.permitted member "inbox.view" c.team c.member)) not_found
  fail_if (not (key == "") && not (access.permitted member key c.team c.member)) permission
  ok c

pub record SendInput : Type 0 where
  pub conversation : Uuid
  pub assignment : ℕ
  pub text : Text
  pub message_type : String
  pub category : String
  pub client_key : Text
  pub authorization : Text

abbrev pub or_default : String → String → String
or_default default v = if v == "" then default else v

-- The values that `scopeHash` encodes, in its order.
pub record Scope : Type 0 where
  pub org : Uuid
  pub user : Uuid
  pub session : Uuid
  pub phone : Uuid
  pub phone_external : Text
  pub waba_external : Text
  pub recipient : Uuid
  pub identity : Text
  pub conversation : Uuid
  pub text : Text
  pub message_type : String
  pub category : String
  pub assignment : ℕ

unfoldable pub scope_of : Uuid → Session → Conversation → SendInput → Scope
scope_of org v c input = record {
  org = org;
  user = v.user;
  session = v.id;
  phone = c.phone;
  phone_external = c.phone_external;
  waba_external = c.waba_external;
  recipient = c.recipient;
  identity = c.identity;
  conversation = c.id;
  text = input.text;
  message_type = or_default "TEXT" input.message_type;
  category = or_default "SERVICE" input.category;
  assignment = input.assignment;
}

-- `kind='SERVICE_ZERO' ORDER BY published_at DESC,id DESC LIMIT 1`
abbrev pub is_newer : Policy → Policy → Bool
is_newer p q =
    ltb q.published_at p.published_at || (p.published_at == q.published_at && ltb q.id p.id)

unfoldable pub current_policy : List Policy → Option Policy
current_policy [] = none
current_policy (p ∷ ps) =
    let rest = current_policy ps in
    if not (p.kind == "SERVICE_ZERO")
    then rest
    else elim rest [ none ↦ some p | some q ↦ if is_newer p q then some p else some q ]

-- A comparison with a null column is not true.
abbrev pub is_at_least : Option Time → Time → Bool
is_at_least none t = false
is_at_least (some s) t = leb t s

abbrev pub is_at_least_opt : Option Time → Option Time → Bool
is_at_least_opt s none = false
is_at_least_opt s (some t) = is_at_least s t

-- The `EXISTS` over the message that opened the window, its event and the TEST recipient.
abbrev pub has_live_evidence : LiveConfig → Db → Conversation → App → Bool
has_live_evidence live db c a =
    any
      (λ m.
        holds c.last_eligible m.id
        && any
            (λ e.
              holds m.source_event e.id
              && e.app == a.id
              && is_at_least_opt (some e.received_at) a.challenge_verified_at
              && leb live.acceptance_not_before e.received_at)
            db.receipts)
      db.messages
    && any (λ r. r.id == c.recipient && r.is_test && r.campaign_excluded) db.recipients

-- The binding query of `evaluate`.
unfoldable pub sender_binding : LiveConfig → Db → Conversation → Bool
sender_binding live db c =
    any
      (λ p.
        p.id == c.phone
        && p.lifecycle == "PRESENT"
        && p.platform == "CLOUD_API"
        && p.external_id == live.phone_id
        && any
            (λ w.
              w.id == p.waba
              && w.lifecycle == "PRESENT"
              && w.subscribed
              && w.external_id == live.waba_id
              && any
                  (λ a.
                    a.id == w.app
                    && a.external_id == live.app_id
                    && is_at_least a.challenge_verified_at live.acceptance_not_before
                    && is_at_least_opt a.last_webhook_at a.challenge_verified_at
                    && has_live_evidence live db c a)
                  db.apps)
            db.wabas)
      db.phones

abbrev pub policy_from : Option Policy → Time
policy_from none = 0
policy_from (some p) = p.effective_from

abbrev pub policy_to : Option Policy → Time
policy_to none = 0
policy_to (some p) = p.effective_to

abbrev pub policy_review : Option Policy → Time
policy_review none = 0
policy_review (some p) = p.next_review_at

abbrev pub policy_id : Option Policy → Uuid
policy_id none = 0
policy_id (some p) = p.id

unfoldable pub guard_input :
    Access → LiveConfig → Db → Time → Session → Uuid → Conversation → SendInput → GuardInput
guard_input access live db now v member c input =
    let policy = current_policy db.policies in
    record {
      now = now;
      window_expiry = c.window_expires_at;
      trusted_window = c.window_trusted;
      handoff = c.handoff_state;
      message_type = or_default "TEXT" input.message_type;
      category = or_default "SERVICE" input.category;
      currency_state = db.settings.billing_currency_state;
      policy_from = policy_from policy;
      policy_to = policy_to policy;
      review_at = policy_review policy;
      delivery_latest =
          if ltb 0 live.delivery_bound then some (now + live.delivery_bound) else none;
      sending_enabled = db.settings.sending_enabled;
      authorized = access.permitted member "messages.send" c.team c.member && v.verified;
      suppressed = c.suppressed;
      assignment = c.assignment_revision;
      expected_assignment = input.assignment;
    }

-- `s.evaluate`: the guard, and for an allowed message the sender's binding. The policy and the
-- policy revision that it returns besides are `current_policy` and the settings' own.
unfoldable pub evaluate_scope :
    Access → LiveConfig → Db → Time → Session → Uuid → Conversation → SendInput → Decision
evaluate_scope access live db now v member c input =
    let decision = evaluate (guard_input access live db now v member c input) in
    if decision.allowed && not (sender_binding live db c)
    then record decision { allowed = false; code = sender_binding_unavailable }
    else decision
