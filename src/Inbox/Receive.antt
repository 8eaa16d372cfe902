-- ===== src/Inbox/Receive.antt =====
-- Authenticated webhook events become messages and status facts: `materializeMessage` and
-- `materializeStatus`, backend/internal/inbox/materialize.go. The decoded JSON and the digests are
-- parameters.
pub mod Window
pub mod Redelivery
use whats.Base.{
  ℕ, suc, ◌+◌, ◌*◌, String, Bool, true, false, not, ◌&&◌, ◌||◌, List, [], ◌∷◌, Option, none, some,
  ltb, leb, any, all, find, ◌==◌, nat_eq, string_eq, list_eq, is_none, holds, if◌then◌else◌,
}
use whats.Inbox.Time.{Time, second, hour, before, after}
use whats.Inbox.Text.{Text, byte_length, valid_text, is_digit, identity_digits}
use whats.Inbox.Amount.{digits_value}
use whats.Inbox.Delivery.{DeliveryState, to_upper, normal_status}
use whats.Inbox.Store.{
  Uuid, Message, Recipient, ConversationRow, ConversationStatus, opened, snoozed, normal,
  StatusFact, EventReceipt, Materialization, Db, update_where, event,
}
use whats.Inbox.Evaluation.{LiveConfig}
use whats.Inbox.Outcome.{correlate_status, later_of, is_snoozed}
use whats.Inbox.Commands.{coalesce}
use whats.Inbox.Content.{Inbound, provider_time, window_basis, typed_content}

abbrev pub is_acceptable : Inbound → Bool
is_acceptable m = leb 1 (byte_length m.id) && leb (byte_length m.id) 512 && identity_digits m.from

-- PostgreSQL stores no null character.
abbrev pub has_null : Text → Bool
has_null v = any (λ c. c == 0) v

abbrev pub is_identity : Uuid → Text → Recipient → Bool
is_identity phone value r = r.phone == phone && r.identity_value == value

abbrev pub is_thread : Uuid → Uuid → ConversationRow → Bool
is_thread phone recipient c = c.phone == phone && c.recipient == recipient

abbrev pub is_provided : Uuid → Text → Message → Bool
is_provided phone provider m = m.phone == phone && holds m.provider_id provider

-- The upsert of the recipient, and the identifier that it returns.
unfoldable pub place_recipient : LiveConfig → Uuid → Uuid → Text → Db → Db × Uuid
place_recipient live new phone value db =
    let test = live.enabled && live.recipient == value in
    elim (find (is_identity phone value) db.recipients) [
      | some r ↦ (
        record db {
          recipients =
              update_where (is_identity phone value) (λ s. record s { is_test = s.is_test || test })
                db.recipients;
        },
        r.id,
      )
      | none ↦ (
        record db {
          recipients =
              record {
                id = new;
                phone = phone;
                identity_value = value;
                suppressed = false;
                is_test = test;
                campaign_excluded = true;
              }
              ∷ db.recipients;
        },
        new,
      )
    ]

abbrev pub new_conversation : Uuid → Uuid → Uuid → Time → ConversationRow
new_conversation id phone recipient ingress = record {
  id = id;
  phone = phone;
  recipient = recipient;
  team = none;
  member = none;
  status = opened;
  priority = normal;
  snoozed_until = none;
  handoff_state = "WAITING_AGENT";
  handoff_epoch = 1;
  assignment_revision = 1;
  revision = 1;
  inbound_sequence = 0;
  last_activity_at = ingress;
  last_inbound_at = none;
  last_outbound_at = none;
  last_eligible = none;
  window_basis_at = none;
  window_opened_at = none;
  window_expires_at = none;
  window_trusted = false;
}

-- The upsert of the conversation, which leaves one that exists as it is.
unfoldable pub place_conversation : Uuid → Uuid → Uuid → Time → Db → Db × Uuid
place_conversation new phone recipient ingress db =
    elim (find (is_thread phone recipient) db.conversations) [
      | some c ↦ (db, c.id)
      | none ↦ (
        record db {
          conversations = new_conversation new phone recipient ingress ∷ db.conversations;
        },
        new,
      )
    ]

-- `greatest`, which passes over a null.
abbrev pub greatest : Option Time → Time → Option Time
greatest none t = some t
greatest (some s) t = some (later_of s t)

-- The update of the conversation for one more message; a snooze ends.
unfoldable pub count_inbound : Time → ConversationRow → ConversationRow
count_inbound activity c = record c {
  inbound_sequence = c.inbound_sequence + 1;
  revision = c.revision + 1;
  last_activity_at = later_of c.last_activity_at activity;
  last_inbound_at = greatest c.last_inbound_at activity;
  status = if is_snoozed c.status then opened else c.status;
  snoozed_until = if is_snoozed c.status then none else c.snoozed_until;
}

abbrev pub is_earlier : Option Time → Time → Bool
is_earlier none t = true
is_earlier (some s) t = ltb s t

-- The window is opened anew only by a later basis.
unfoldable pub open_window : Uuid → Time → ConversationRow → ConversationRow
open_window message basis c =
    if is_earlier c.window_basis_at basis
    then record c {
      last_eligible = some message;
      window_basis_at = some basis;
      window_opened_at = some (coalesce c.window_opened_at basis);
      window_expires_at = some (basis + 24 * hour);
      window_trusted = true;
    }
    else c

abbrev pub opens : String → Option Time → Uuid → ConversationRow → ConversationRow
opens kind none message c = c
opens kind (some basis) message c = if kind == "TEXT" then open_window message basis c else c

abbrev pub activity_at : Option Time → Time → Time
activity_at none ingress = ingress
activity_at (some provider) ingress = if after provider ingress then ingress else provider

abbrev pub sequence_of : Uuid → List ConversationRow → Option ℕ
sequence_of id rows = elim (find (λ c. c.id == id) rows) [
  | none ↦ none
  | some c ↦ some (c.inbound_sequence + 1)
]

unfoldable pub add_message : Uuid → Uuid → Uuid → Uuid → Time → Time → Inbound → Db → Db
add_message id conversation phone source ingress now m db =
    let typed = typed_content m in
    let provider = provider_time m.timestamp in
    event conversation "message.created" (record db {
      messages =
          record {
            id = id;
            conversation = conversation;
            phone = phone;
            provider_id = some m.id;
            outbound = false;
            message_type = typed.0;
            text = typed.1;
            provider_at = provider;
            received_at = ingress;
            inbound_sequence = sequence_of conversation db.conversations;
            source_event = some source;
            blocked = false;
            delivery_state = DeliveryState.received;
            error_code = none;
            revision = 1;
          }
          ∷ db.messages;
      conversations =
          update_where (λ c. c.id == conversation)
            (λ c.
              opens typed.0 (window_basis provider ingress now) id
                (count_inbound (activity_at provider ingress) c))
            db.conversations;
    })

-- `materializeMessage`, with three new identifiers. `none` is an error, which rolls back the event.
unfoldable pub materialize_message :
    LiveConfig → (ℕ → Uuid) → Uuid → Uuid → Time → Time → Option Inbound → Db → Option Db
materialize_message live ids phone source ingress now none db = some db
materialize_message live ids phone source ingress now (some m) db =
    if not (is_acceptable m)
    then some db
    else (let placed = place_recipient live (ids 0) phone m.from db in
        let threaded = place_conversation (ids 1) phone placed.1 ingress placed.0 in
        if has_null m.id || has_null m.context || not m.storable
        then none
        else if any (is_provided phone m.id) db.messages
        then some threaded.0
        else some (add_message (ids 2) threaded.1 phone source ingress now m threaded.0))

-- A decoded status. `details` stands for the timestamp, pricing and errors, which only the digest reads.
pub record StatusInput : Type 0 where
  pub id : Text
  pub status : Text
  pub details : Text

-- `materializeStatus`: a fact that is known already changes nothing.
unfoldable pub materialize_status :
    (StatusInput → String) → Uuid → Option StatusInput → Db → Option Db
materialize_status hash_fact phone none db = some db
materialize_status hash_fact phone (some v) db =
    if not (leb 1 (byte_length v.id) && leb (byte_length v.id) 512)
    then some db
    else if has_null v.id
    then none
    else if any (λ s. s.phone == phone && s.fact_hash == hash_fact v) db.statuses
    then some db
    else some (
        correlate_status phone v.id (record db {
          statuses =
              record {
                phone = phone;
                provider_id = v.id;
                status = normal_status v.status;
                fact_hash = hash_fact v;
              }
              ∷ db.statuses;
        }))
