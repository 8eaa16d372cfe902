-- ===== src/Examples/Posting.antt =====
-- A posted event on its way through the tables, and pages of the Graph.
use whats.Base.{
  ℕ, ◌+◌, ◌≡◌, ◌⊎◌, ◌≤◌, refl, arith, true, false, List, [], ◌∷◌, Option, none, some, length,
}
use whats.Inbox.Text.{Text, is_digit, byte_length}
use whats.Meta.Events.{
  text, Envelope, Ingest, WebhookEvent, FactRow, queued, processed, unclassified,
}
use whats.Meta.Classify.{
  classify, classify_entries, classify_changes, change_facts, classify_field, messaging_facts,
  message_facts, status_facts,
}
use whats.Meta.Process.{Run, Claim, claim, finish, judge, process_one, event_class, backoff}
use whats.Meta.Facts.{store_facts, store_fact, waba_row, phone_row}
use whats.Meta.Facts.Laws.{keys_differ}
use whats.Meta.Process.Facts.{judge-again, process_one-keys_differ}
use whats.Meta.Process.Progress.{process_all, process_all-total}
use whats.Meta.Process.Attempts.{IsAttempted, process_one-IsAttempted}
use whats.Meta.Process.Totals.{total}
use whats.Meta.Webhook.{
  MetaConfig, Codec, Binding, Request, webhook, receive, keep_event, valid_signature, after_prefix,
  hex_decode, hex_digit,
}
use whats.Meta.Webhook.Intake.{IsKept, webhook-IsKept}
use whats.Meta.Graph.{Exchange, replied, Page, pages}
use whats.Meta.Graph.Pages.{IsBounded, pages-IsBounded}
use whats.Examples.Data.{noon, hello}

abbrev envelope : Envelope
envelope = record {
  object = text "whatsapp_business_account";
  entry =
      record {
        id = text "77";
        time = text "5";
        changes =
            record {
              field = text "messages";
              value = hello;
              canonical = hello;
              observed =
                  some record { phone = text "88"; messages = some hello ∷ []; statuses = [] };
              named_phone = some (text "88");
            }
            ∷ [];
      }
      ∷ [];
}

abbrev posted : WebhookEvent
posted = record {
  id = 50;
  app = 22;
  raw_digest = hello;
  ciphertext = hello;
  state = queued;
  class = unclassified;
  attempt_count = 0;
  generation = 0;
  next_attempt_at = noon;
  lease = none;
  lease_until = 0;
  last_error = none;
}

abbrev inbox : Ingest
inbox = record {
  events = posted ∷ [];
  facts = [];
  attempts = [];
  wabas =
      record {
        id = 21;
        app = 22;
        external_id = text "77";
        lifecycle = "PRESENT";
        subscribed = true;
        timezone_id = "UTC";
      }
      ∷ [];
  phones =
      record {
        id = 20;
        waba = 21;
        external_id = text "88";
        lifecycle = "PRESENT";
        platform = "CLOUD_API";
      }
      ∷ [];
  challenge_verified_at = none;
  last_webhook_at = none;
  audited = [];
}

abbrev no_hash : Text → Text
no_hash t = t

abbrev run : Run
run = record {
  started = noon;
  finished = noon + 1;
  locked = λ id. false;
  lease = 7;
  open_evidence = λ id c. some (some envelope);
  fails = λ f. false;
  breaks = λ s. false;
}

abbrev or_inbox : Option Ingest → Ingest
or_inbox none = inbox
or_inbox (some t) = t

abbrev after : Ingest
after = or_inbox (process_one no_hash 22 run inbox)

process_run : process_one no_hash 22 run inbox ≡ some after
unfolding process_one claim finish judge classify classify_entries classify_changes change_facts
    classify_field messaging_facts message_facts status_facts store_facts store_fact waba_row
    phone_row event_class backoff is_digit byte_length
process_run = refl

process_one-keys_differ_example : keys_differ after.facts ≡ true
process_one-keys_differ_example = process_one-keys_differ no_hash 22 run inbox process_run refl

process_one-IsAttempted_example :
    (t' : Ingest) × (process_one no_hash 22 run inbox ≡ some t') × IsAttempted posted t'
process_one-IsAttempted_example =
    process_one-IsAttempted no_hash 22 run inbox posted refl refl refl (omega arith) (λ s. refl)

all_run : process_all no_hash 22 (run ∷ []) inbox ≡ some after
unfolding process_all
all_run = ground (arith, process_run)

process_all-total_example : length (run ∷ []) + total after.events ≤ total inbox.events
process_all-total_example = process_all-total no_hash 22 (run ∷ []) inbox all_run refl

abbrev first_claim : Claim
first_claim = record { event = 50; ciphertext = hello; generation = 0; count = 1; lease = 7 }

abbrev kept_facts : List FactRow
kept_facts = (judge no_hash (λ f. false) 22 first_claim (some (some envelope)) inbox).2

judge_run :
    judge no_hash (λ f. false) 22 first_claim (some (some envelope)) inbox
    ≡ (processed, none, kept_facts)
unfolding judge classify classify_entries classify_changes change_facts classify_field
    messaging_facts message_facts status_facts store_facts store_fact waba_row phone_row is_digit
    byte_length
judge_run = refl

judge-again_example :
    judge no_hash
      (λ f. false)
      22
      (record first_claim { event = 51 })
      (some (some envelope))
      (record inbox { facts = kept_facts })
    ≡ (processed, none, kept_facts)
judge-again_example =
    judge-again no_hash (λ f. false) 22 first_claim (record first_claim { event = 51 })
      (some envelope) inbox judge_run (omega arith)

-- In the place of HMAC: 32 zero bytes for every payload.
abbrev codec : Codec
codec = record {
  mac = λ raw secret.
      0 ∷ 0 ∷ 0 ∷ 0 ∷ 0 ∷ 0 ∷ 0 ∷ 0 ∷ 0 ∷ 0 ∷ 0 ∷ 0 ∷ 0 ∷ 0 ∷ 0 ∷ 0 ∷ 0 ∷ 0 ∷ 0 ∷ 0 ∷ 0 ∷ 0 ∷ 0 ∷ 0
      ∷ 0 ∷ 0 ∷ 0 ∷ 0 ∷ 0 ∷ 0 ∷ 0 ∷ 0 ∷ [];
  digest = no_hash;
  parse_envelope = λ raw. some envelope;
  seal_evidence = λ id raw. some raw;
}

abbrev config : MetaConfig
config = record { enabled = true; verify_token = hello; app_secret = hello }

abbrev request : Request
request = record {
  is_get = false;
  callback = hello;
  query = none;
  content_encoding = [];
  body = some (text "{}");
  signatures = text "sha256=0000000000000000000000000000000000000000000000000000000000000000" ∷ [];
}

abbrev binding : Binding
binding = record { app = 22; callback = hello }

abbrev received : Ingest
received = (webhook config codec (some binding) 51 noon request inbox).1

webhook_run : webhook config codec (some binding) 51 noon request inbox ≡ (200, received)
unfolding webhook receive keep_event valid_signature after_prefix hex_decode hex_digit byte_length
    is_digit
webhook_run = refl

webhook-IsKept_example :
    (received.events ≡ inbox.events)
    ⊎ IsKept config codec (some binding) 51 noon request inbox 200 received
webhook-IsKept_example =
    webhook-IsKept config codec (some binding) 51 noon request inbox webhook_run

abbrev pages_of : ℕ → Text → Exchange (Option (Page Text))
pages_of n cursor = replied record {
  status = 200;
  request_id = [];
  version = [];
  error = none;
  body = some record {
    data_items = cursor ∷ [];
    next = some (
        some record {
          scheme = text "https";
          host = text "graph.facebook.com";
          has_user = false;
          fragment = [];
          path = text "/v26.0/1/phone_numbers";
          after = 120 ∷ cursor;
        });
  };
}

pages-IsBounded_example : IsBounded 100 (pages (text "v26.0") (text "1/phone_numbers") pages_of)
pages-IsBounded_example = pages-IsBounded (text "v26.0") (text "1/phone_numbers") pages_of
