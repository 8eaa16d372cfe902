-- ===== src/Examples/Data.antt =====
-- Rows for the tests: one organization with one conversation, whose window is open, and one queued
-- intent with its authorization.
use whats.Base.{◌+◌, ◌*◌, String, true, false, List, [], ◌∷◌, none, some, nat_eq}
use whats.Inbox.Time.{Time, minute, hour}
use whats.Inbox.Text.{Text}
use whats.Inbox.Interval.{ServicePriceInterval}
use whats.Inbox.Guard.{GuardInput}
use whats.Inbox.Delivery.{DeliveryState}
use whats.Inbox.Store.{
  IntentState, Intent, Authorization, Message, ConversationRow, opened, normal, Db,
}
use whats.Inbox.Evaluation.{Session, Access, LiveConfig, Scope}

abbrev pub noon : Time
noon = 1000 * hour

abbrev pub good_input : GuardInput
good_input = record {
  now = noon;
  window_expiry = some (noon + hour);
  trusted_window = true;
  handoff = "HUMAN";
  message_type = "TEXT";
  category = "SERVICE";
  currency_state = "UNVERIFIED";
  policy_from = noon;
  policy_to = noon + 2 * hour;
  review_at = noon + hour;
  delivery_latest = some (noon + hour);
  sending_enabled = true;
  authorized = true;
  suppressed = false;
  assignment = 3;
  expected_assignment = 3;
}

abbrev pub hello : Text
hello = b'h' ∷ b'i' ∷ []

abbrev pub member_wa : Text
member_wa = b'6' ∷ b'2' ∷ b'8' ∷ b'1' ∷ b'2' ∷ []

abbrev pub session : Session
session = record { id = 11; user = 12; verified = true }

abbrev pub access : Access
access = record { permitted = λ m k t s. true; lock_session = λ s. some (session, 13) }

abbrev pub live : LiveConfig
live = record {
  enabled = true;
  recipient = member_wa;
  delivery_bound = hour;
  acceptance_not_before = 5;
  app_id = b'a' ∷ [];
  waba_id = b'w' ∷ [];
  phone_id = b'p' ∷ [];
}

abbrev pub hash_scope : Scope → String
hash_scope s = "scope"

abbrev pub conversation_row : ConversationRow
conversation_row = record {
  id = 30;
  phone = 20;
  recipient = 25;
  team = none;
  member = none;
  status = opened;
  priority = normal;
  snoozed_until = none;
  handoff_state = "HUMAN";
  handoff_epoch = 0;
  assignment_revision = 1;
  revision = 1;
  inbound_sequence = 1;
  last_activity_at = 8;
  last_inbound_at = some 8;
  last_outbound_at = none;
  last_eligible = some 40;
  window_basis_at = some noon;
  window_opened_at = some noon;
  window_expires_at = some (noon + 24 * hour);
  window_trusted = true;
}

abbrev pub inbound : Message
inbound = record {
  id = 40;
  conversation = 30;
  phone = 20;
  provider_id = some (b'm' ∷ []);
  outbound = false;
  message_type = "TEXT";
  text = hello;
  provider_at = some noon;
  received_at = noon;
  inbound_sequence = some 1;
  source_event = some 50;
  blocked = false;
  delivery_state = DeliveryState.received;
  error_code = none;
  revision = 1;
}

abbrev pub outbound : Message
outbound = record inbound {
  id = 41;
  provider_id = none;
  outbound = true;
  inbound_sequence = none;
  source_event = none;
  delivery_state = DeliveryState.pending_local;
}

abbrev pub authorization : Authorization
authorization = record {
  id = 60;
  conversation = 30;
  actor = 13;
  session = 11;
  token_digest = "digest";
  scope_hash = "scope";
  policy = 70;
  assignment_revision = 1;
  policy_revision = 2;
  expires_at = noon + minute;
  consumed_intent = some 80;
}

abbrev pub intent : Intent
intent = record {
  id = 80;
  conversation = 30;
  actor = 13;
  session = 11;
  phone = 20;
  authorization = 60;
  message = 41;
  client_key = [];
  scope_hash = "scope";
  text = hello;
  state = IntentState.queued;
  claim_token = none;
  claim_until = 0;
  dispatch_started_at = 0;
  error_code = none;
  provider_id = none;
}

abbrev pub tables : Db
tables = record {
  settings = record {
    sending_enabled = true;
    billing_currency_state = "UNVERIFIED";
    billing_currency = none;
    currency_evidence = none;
    policy_revision = 2;
    active_rate_publication = none;
  };
  policies =
      record {
        id = 70;
        kind = "SERVICE_ZERO";
        effective_from = 5;
        effective_to = noon + 48 * hour;
        next_review_at = noon + 24 * hour;
        published_at = 5;
      }
      ∷ [];
  phones =
      record {
        id = 20;
        waba = 21;
        external_id = b'p' ∷ [];
        lifecycle = "PRESENT";
        platform = "CLOUD_API";
      }
      ∷ [];
  wabas =
      record {
        id = 21;
        app = 22;
        external_id = b'w' ∷ [];
        lifecycle = "PRESENT";
        subscribed = true;
        timezone_id = "UTC";
      }
      ∷ [];
  apps =
      record {
        id = 22;
        external_id = b'a' ∷ [];
        challenge_verified_at = some 6;
        last_webhook_at = some 7;
      }
      ∷ [];
  receipts = record { id = 50; app = 22; received_at = 7; processed = true } ∷ [];
  materializations = [];
  recipients =
      record {
        id = 25;
        phone = 20;
        identity_value = member_wa;
        suppressed = false;
        is_test = true;
        campaign_excluded = true;
      }
      ∷ [];
  conversations = conversation_row ∷ [];
  messages = inbound ∷ outbound ∷ [];
  statuses = [];
  authorizations = authorization ∷ [];
  intents = intent ∷ [];
  attempts = [];
  slots = [];
  reads = [];
  presence = [];
  notes = [];
  mentions = [];
  audit_log = [];
  events = [];
}

-- Two reviewed prices that follow one another.
abbrev pub digest_text : Text
digest_text =
    b'0' ∷ b'0' ∷ b'0' ∷ b'0' ∷ b'0' ∷ b'0' ∷ b'0' ∷ b'0' ∷ b'0' ∷ b'0' ∷ b'0' ∷ b'0' ∷ b'0' ∷ b'0'
    ∷ b'0' ∷ b'0' ∷ b'0' ∷ b'0' ∷ b'0' ∷ b'0' ∷ b'0' ∷ b'0' ∷ b'0' ∷ b'0' ∷ b'0' ∷ b'0' ∷ b'0'
    ∷ b'0' ∷ b'0' ∷ b'0' ∷ b'0' ∷ b'0' ∷ b'0' ∷ b'0' ∷ b'0' ∷ b'0' ∷ b'0' ∷ b'0' ∷ b'0' ∷ b'0'
    ∷ b'0' ∷ b'0' ∷ b'0' ∷ b'0' ∷ b'0' ∷ b'0' ∷ b'0' ∷ b'0' ∷ b'0' ∷ b'0' ∷ b'0' ∷ b'0' ∷ b'0'
    ∷ b'0' ∷ b'0' ∷ b'0' ∷ b'0' ∷ b'0' ∷ b'0' ∷ b'0' ∷ b'0' ∷ b'0' ∷ b'0' ∷ b'0' ∷ []

abbrev pub idr : Text
idr = b'I' ∷ b'D' ∷ b'R' ∷ []

abbrev pub market_id : Text
market_id = b'I' ∷ b'D' ∷ []

abbrev pub first_row : ServicePriceInterval
first_row = record {
  publication_id = "july";
  market = market_id;
  currency = idr;
  category = "SERVICE";
  starts_at = noon;
  ends_at = noon + 100 * hour;
  next_review_at = noon + hour;
  source_id = "source";
  source_sha256 = digest_text;
  review_evidence = b'r' ∷ [];
  unit_maximum = b'4' ∷ b'.' ∷ b'5' ∷ [];
  zero_policy = false;
}

abbrev pub second_row : ServicePriceInterval
second_row = record first_row {
  publication_id = "october";
  starts_at = noon + 100 * hour;
  ends_at = noon + 2000 * hour;
  unit_maximum = b'6' ∷ [];
}

abbrev pub price_rows : List ServicePriceInterval
price_rows = second_row ∷ first_row ∷ []
