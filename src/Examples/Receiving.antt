-- ===== src/Examples/Receiving.antt =====
-- Received messages and statuses, and an answer of the provider.
use whats.Base.{
  ℕ, ◌+◌, ◌≡◌, ◌⊎◌, refl, true, false, [], ◌∷◌, Option, none, some, All, String, arith,
}
use whats.Inbox.Text.{byte_length, is_digit, identity_digits, valid_text, is_blank, is_space}
use whats.Inbox.Amount.{digits_value}
use whats.Inbox.Delivery.{to_upper, upper_char}
use whats.Inbox.Store.{Db, event}
use whats.Inbox.Outcome.{OutcomeState}
use whats.Inbox.Commands.Snooze.{IsSnoozeMarked}
use whats.Inbox.Receive.{
  StatusInput, place_recipient, place_conversation, count_inbound, open_window, add_message,
  materialize_message, materialize_status,
}
use whats.Inbox.Content.{Inbound, unsigned, provider_time, window_basis, typed_content}
use whats.Inbox.Receive.Window.{
  IsWindowed, materialize_message-IsWindowed, materialize_message-IsSnoozeMarked,
}
use whats.Inbox.Receive.Redelivery.{IsUnmoved, materialize_message-again, materialize_status-again}
use whats.Inbox.Error.{invalid_text_request}
use whats.Meta.Send.{Exchange, responded, is_sendable, send_text}
use whats.Meta.Send.Outcomes.{Classified, send_text-IsClassified}
use whats.Examples.Data.{tables, live, hello}

abbrev message : Inbound
message = record {
  id = b'm' ∷ b'2' ∷ [];
  from = b'1' ∷ b'2' ∷ b'3' ∷ b'4' ∷ b'5' ∷ [];
  kind = b't' ∷ b'e' ∷ b'x' ∷ b't' ∷ [];
  timestamp = b'1' ∷ [];
  body = hello;
  context = [];
  has_subtree = false;
  storable = true;
}

-- A day behind the message.
abbrev later : ℕ
later = 62135683200000000000

abbrev ids : ℕ → ℕ
ids n = 100 + n

abbrev received : Option Db → Db
received (some d) = d
received none = tables

abbrev taken_in : Db
taken_in = received (materialize_message live ids 20 51 later later (some message) tables)

message_run : materialize_message live ids 20 51 later later (some message) tables ≡ some taken_in
unfolding materialize_message identity_digits byte_length is_digit place_recipient
    place_conversation add_message typed_content to_upper upper_char valid_text is_blank is_space
    provider_time unsigned digits_value window_basis count_inbound open_window event
message_run = refl

materialize_message-IsWindowed_example : All (IsWindowed later) taken_in.conversations
materialize_message-IsWindowed_example =
    materialize_message-IsWindowed live ids 20 51 later later (some message) tables taken_in
      message_run ((omega arith, refl, refl, refl), tt)

materialize_message-IsSnoozeMarked_example : All IsSnoozeMarked taken_in.conversations
materialize_message-IsSnoozeMarked_example =
    materialize_message-IsSnoozeMarked live ids 20 51 later later (some message) tables taken_in
      message_run (refl, tt)

materialize_message-again_example :
    (db : Db) × (materialize_message live ids 20 52 (later + 9) (later + 9) (some message) taken_in
      ≡ some db)
    × IsUnmoved taken_in db
materialize_message-again_example =
    materialize_message-again live ids ids 20 51 52 later later (later + 9) (later + 9)
      (some message) tables taken_in message_run

abbrev status : StatusInput
status = record { id = b'm' ∷ []; status = b'r' ∷ b'e' ∷ b'a' ∷ b'd' ∷ []; details = [] }

abbrev hash_fact : StatusInput → String
hash_fact v = "fact"

abbrev told : Db
told = received (materialize_status hash_fact 20 (some status) tables)

status_run : materialize_status hash_fact 20 (some status) tables ≡ some told
unfolding materialize_status byte_length
status_run = refl

materialize_status-again_example : materialize_status hash_fact 20 (some status) told ≡ some told
materialize_status-again_example =
    materialize_status-again hash_fact 20 (some status) tables told status_run

abbrev refusal : Exchange
refusal = responded record { status = 400; ids = []; error = some 100 }

send_text-IsClassified_example :
    ((is_sendable true (b'1' ∷ []) (b'2' ∷ []) hello ≡ false)
      × (send_text true (b'1' ∷ []) (b'2' ∷ []) hello refusal ≡ record {
        state = OutcomeState.rejected;
        provider_id = none;
        code = some invalid_text_request;
      }))
    ⊎ ((is_sendable true (b'1' ∷ []) (b'2' ∷ []) hello ≡ true)
        × Classified refusal (send_text true (b'1' ∷ []) (b'2' ∷ []) hello refusal))
send_text-IsClassified_example = send_text-IsClassified true (b'1' ∷ []) (b'2' ∷ []) hello refusal
