-- ===== src/Meta/Events.antt =====
-- The events that Meta posts, decoded, and the tables that keep them: `envelope`, `entry`, `change`,
-- `fact` of backend/internal/meta, and database/migrations/00003_meta_ingestion.sql.
use whats.Base.{ℕ, Bool, List, [], ◌∷◌, Option}
use Prim.Native.String.{String}
use Prim.Native.Char.{code}
use whats.Inbox.Time.{Time}
use whats.Inbox.Text.{Text}
use whats.Inbox.Store.{Uuid, Waba, Phone}

-- The code points of a literal.
abbrev pub text : String → Text
text String.[] = []
text (String.◌∷◌ c s) = code c ∷ text s

-- `m` of the loop over the statuses: the three optional values by their canonical encoding.
pub record StatusNote : Type 0 where
  pub id : Text
  pub status : Text
  pub timestamp : Text
  pub errors : Text
  pub pricing : Text
  pub conversation : Text

-- `value` of a change of messages; a message is its identifier, and `none` does not decode.
pub record Observed : Type 0 where
  pub phone : Text
  pub messages : List (Option Text)
  pub statuses : List (Option StatusNote)

-- `change`: its field, the value's bytes, their canonical encoding, the value decoded, and the phone
-- of its metadata, which may decode when the rest does not.
pub record Change : Type 0 where
  pub field : Text
  pub value : Text
  pub canonical : Text
  pub observed : Option Observed
  pub named_phone : Option Text

pub record Entry : Type 0 where
  pub id : Text
  pub time : Text
  pub changes : List Change

pub record Envelope : Type 0 where
  pub object : Text
  pub entry : List Entry

pub data Class : Type 0 where
  messaging_class asset_class inbound_class status_class unknown_class : Class

-- `fact`; the phone is empty if there is none.
pub record Fact : Type 0 where
  pub waba : Text
  pub phone : Text
  pub class : Class
  pub key : Text
  pub uncertain : Bool

pub data EventState : Type 0 where
  queued processing retry_wait processed unknown invalid quarantined dead_letter : EventState

pub data EventCode : Type 0 where
  evidence_unavailable attempts_exhausted asset_binding_mismatch : EventCode
  internal_processing invalid_event : EventCode

-- `event_class`: a class, or the name of the state
pub data EventClass : Type 0 where
  unclassified mixed : EventClass
  of_class : Class → EventClass
  of_state : EventState → EventClass

-- `app.webhook_events`
pub record WebhookEvent : Type 0 where
  pub id : Uuid
  pub app : Uuid
  pub raw_digest : Text
  pub ciphertext : Text
  pub state : EventState
  pub class : EventClass
  pub attempt_count : ℕ
  pub generation : ℕ
  pub next_attempt_at : Time
  pub lease : Option Uuid
  pub lease_until : Time
  pub last_error : Option EventCode

-- `app.webhook_facts`
pub record FactRow : Type 0 where
  pub event : Uuid
  pub waba : Uuid
  pub phone : Option Uuid
  pub class : Class
  pub effect_key : Text
  pub uncertain : Bool

-- `app.webhook_processing_attempts`
pub record Attempt : Type 0 where
  pub event : Uuid
  pub generation : ℕ
  pub attempt_no : ℕ
  pub result : EventState
  pub code : Option EventCode

-- The action of an audit record: `meta.webhook.` and a state, or `challenge`.
pub data Noted : Type 0 where
  of_event : EventState → Noted
  of_challenge : Noted

-- The rows of one organization and its app; the events stand in the order of their reception.
pub record Ingest : Type 0 where
  pub events : List WebhookEvent
  pub facts : List FactRow
  pub attempts : List Attempt
  pub wabas : List Waba
  pub phones : List Phone
  pub challenge_verified_at : Option Time
  pub last_webhook_at : Option Time
  pub audited : List (Noted × Uuid)
