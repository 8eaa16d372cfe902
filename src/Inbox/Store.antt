-- ===== src/Inbox/Store.antt =====
-- The tables of the inbox, as one record of lists, for one organization: row-level security shows a
-- transaction no other. Columns that no operation reads are left out. A transaction is a function
-- on the record; a failed one is rolled back and leaves it as it was.
pub mod Updates
use whats.Base.{ℕ, String, Bool, List, [], ◌∷◌, Option, nat_eq, if◌then◌else◌}
use whats.Inbox.Error.{Code}
use whats.Inbox.Time.{Time}
use whats.Inbox.Text.{Text}
use whats.Inbox.Delivery.{DeliveryState, Status}

-- `uuid.UUID`; `uuid.Nil` is 0.
abbrev pub Uuid : Type 0
Uuid = ℕ

-- `app.outbound_intents.state`
pub data IntentState : Type 0 where
  queued reserved dispatching accepted blocked failed uncertain : IntentState

pub record Intent : Type 0 where
  pub id : Uuid
  pub conversation : Uuid
  pub actor : Uuid
  pub session : Uuid
  pub phone : Uuid
  pub authorization : Uuid
  pub message : Uuid
  pub client_key : Text
  pub scope_hash : String
  pub text : Text
  pub state : IntentState
  pub claim_token : Option Uuid
  pub claim_until : Time
  pub dispatch_started_at : Time
  pub error_code : Option Code
  pub provider_id : Option Text

-- `app.send_attempts`
pub data AttemptState : Type 0 where
  dispatching accepted rejected uncertain : AttemptState

pub record Attempt : Type 0 where
  pub intent : Uuid
  pub state : AttemptState
  pub error_code : Option Code
  pub provider_id : Option Text

-- `app.test_send_slots`, unique by phone
pub record Slot : Type 0 where
  pub phone : Uuid
  pub recipient : Uuid
  pub intent : Uuid

pub record Authorization : Type 0 where
  pub id : Uuid
  pub conversation : Uuid
  pub actor : Uuid
  pub session : Uuid
  pub token_digest : String
  pub scope_hash : String
  pub policy : Uuid
  pub assignment_revision : ℕ
  pub policy_revision : ℕ
  pub expires_at : Time
  pub consumed_intent : Option Uuid

pub record Message : Type 0 where
  pub id : Uuid
  pub conversation : Uuid
  pub phone : Uuid
  pub provider_id : Option Text
  pub outbound : Bool
  pub message_type : String
  pub text : Text
  pub provider_at : Option Time
  pub received_at : Time
  pub inbound_sequence : Option ℕ
  pub source_event : Option Uuid
  pub blocked : Bool  -- processing_state
  pub delivery_state : DeliveryState
  pub error_code : Option Code
  pub revision : ℕ

-- `app.message_statuses`, unique by phone and fact
pub record StatusFact : Type 0 where
  pub phone : Uuid
  pub provider_id : Text
  pub status : Status
  pub fact_hash : String

-- `app.recipient_identities`, unique by phone and value
pub record Recipient : Type 0 where
  pub id : Uuid
  pub phone : Uuid
  pub identity_value : Text
  pub suppressed : Bool
  pub is_test : Bool
  pub campaign_excluded : Bool

pub data ConversationStatus : Type 0 where
  opened resolved snoozed : ConversationStatus

pub data Priority : Type 0 where
  low normal high urgent : Priority

-- `app.conversations`, unique by phone and recipient
pub record ConversationRow : Type 0 where
  pub id : Uuid
  pub phone : Uuid
  pub recipient : Uuid
  pub team : Option Uuid
  pub member : Option Uuid
  pub status : ConversationStatus
  pub priority : Priority
  pub snoozed_until : Option Time
  pub handoff_state : String
  pub handoff_epoch : ℕ
  pub assignment_revision : ℕ
  pub revision : ℕ
  pub inbound_sequence : ℕ
  pub last_activity_at : Time
  pub last_inbound_at : Option Time
  pub last_outbound_at : Option Time
  pub last_eligible : Option Uuid
  pub window_basis_at : Option Time
  pub window_opened_at : Option Time
  pub window_expires_at : Option Time
  pub window_trusted : Bool  -- window_confidence = 'AUTHENTICATED_TEXT'

-- `app.conversation_reads`, `app.inbox_presence`, both unique by conversation and member
pub record ReadMark : Type 0 where
  pub conversation : Uuid
  pub member : Uuid
  pub inbound_watermark : ℕ
  pub manual_unread : Bool

pub record Presence : Type 0 where
  pub conversation : Uuid
  pub member : Uuid
  pub expires_at : Time

-- `app.internal_notes` and `app.note_mentions`
pub record Note : Type 0 where
  pub id : Uuid
  pub conversation : Uuid
  pub author : Uuid
  pub body : Text
  pub revision : ℕ
  pub redacted_at : Option Time

pub record Mention : Type 0 where
  pub note : Uuid
  pub member : Uuid

pub record Settings : Type 0 where
  pub sending_enabled : Bool
  pub billing_currency_state : String
  pub billing_currency : Option Text
  pub currency_evidence : Option Text
  pub policy_revision : ℕ
  pub active_rate_publication : Option Uuid

pub record Policy : Type 0 where
  pub id : Uuid
  pub kind : String
  pub effective_from : Time
  pub effective_to : Time
  pub next_review_at : Time
  pub published_at : Time

-- `app.phone_numbers`, `app.wabas`, `app.meta_apps`, `app.webhook_events`
pub record Phone : Type 0 where
  pub id : Uuid
  pub waba : Uuid
  pub external_id : Text
  pub lifecycle : String
  pub platform : String

pub record Waba : Type 0 where
  pub id : Uuid
  pub app : Uuid
  pub external_id : Text
  pub lifecycle : String
  pub subscribed : Bool
  pub timezone_id : String

pub record App : Type 0 where
  pub id : Uuid
  pub external_id : Text
  pub challenge_verified_at : Option Time
  pub last_webhook_at : Option Time

pub record EventReceipt : Type 0 where
  pub id : Uuid
  pub app : Uuid
  pub received_at : Time
  pub processed : Bool  -- state IN ('PROCESSED','UNKNOWN')

-- `app.inbox_materializations`, unique by event
pub record Materialization : Type 0 where
  pub event : Uuid
  pub available : Bool

-- `app.audit_log` and `app.inbox_events`, which are only appended to.
pub record AuditEntry : Type 0 where
  pub actor_user : Option Uuid
  pub action : String
  pub resource : Uuid

pub record InboxEvent : Type 0 where
  pub conversation : Uuid
  pub event_type : String

pub record Db : Type 0 where
  pub settings : Settings
  pub policies : List Policy
  pub phones : List Phone
  pub wabas : List Waba
  pub apps : List App
  pub receipts : List EventReceipt
  pub materializations : List Materialization
  pub recipients : List Recipient
  pub conversations : List ConversationRow
  pub messages : List Message
  pub statuses : List StatusFact
  pub authorizations : List Authorization
  pub intents : List Intent
  pub attempts : List Attempt
  pub slots : List Slot
  pub reads : List ReadMark
  pub presence : List Presence
  pub notes : List Note
  pub mentions : List Mention
  pub audit_log : List AuditEntry
  pub events : List InboxEvent

-- `UPDATE … SET change WHERE test`
abbrev pub update_where : {A : Type 0} → (A → Bool) → (A → A) → List A → List A
update_where test change [] = []
update_where test change (x ∷ xs) = (if test x then change x else x) ∷ update_where test change xs

-- `audit` and `event` of backend/internal/inbox/service.go
unfoldable pub audit : Option Uuid → Uuid → String → Db → Db
audit user resource action db = record db {
  audit_log = record { actor_user = user; action = action; resource = resource } ∷ db.audit_log;
}

unfoldable pub event : Uuid → String → Db → Db
event conversation kind db = record db {
  events = record { conversation = conversation; event_type = kind } ∷ db.events;
}
