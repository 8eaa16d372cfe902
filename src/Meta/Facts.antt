-- ===== src/Meta/Facts.antt =====
-- The facts of an event, kept once: the loop over the facts of `processOne`,
-- backend/internal/meta/processor.go.
pub mod Laws
use whats.Base.{
  ℕ, ◌+◌, ◌*◌, ◌^◌, min, String, Bool, true, false, not, ◌&&◌, ◌||◌, List, [], ◌∷◌, Option, none,
  some, ltb, leb, length, any, all, find, holds, is_none, ◌==◌, nat_eq, list_eq, if◌then◌else◌,
}
use whats.Inbox.Time.{Time, Duration, second, minute}
use whats.Inbox.Text.{Text}
use whats.Inbox.Events.{◌>>=◌}
use whats.Inbox.Store.{Uuid, Waba, Phone, update_where}
use whats.Meta.Events.{
  Envelope, Class, messaging_class, asset_class, inbound_class, status_class, unknown_class, Fact,
  FactRow, Attempt, EventState, queued, processing, retry_wait, processed, unknown, invalid,
  quarantined, dead_letter, EventCode, evidence_unavailable, attempts_exhausted,
  asset_binding_mismatch, internal_processing, invalid_event, EventClass, mixed, of_class, of_state,
  WebhookEvent, Ingest, of_event,
}
use whats.Meta.Classify.{classify}

-- The rows that a fact names: the account of the app, and a phone of the account.
unfoldable pub waba_row : Uuid → Text → List Waba → Option Uuid
waba_row app external wabas =
    find (λ w. w.external_id == external && w.app == app) wabas >>= λ w. some w.id

unfoldable pub phone_row : Uuid → Text → List Phone → Option Uuid
phone_row waba external phones =
    find (λ p. p.external_id == external && p.waba == waba) phones >>= λ p. some p.id

-- The loop over the facts, in a savepoint: how it ends. A row that is not there is `unbound`, another
-- error of the database `broken`.
pub data Stored : Type 0 where
  stored : List FactRow → Stored
  unbound broken : Stored

abbrev pub add_fact : Uuid → Uuid → Option Uuid → Fact → List FactRow → List FactRow
add_fact event waba phone f rows =
    if any (λ r. r.effect_key == f.key) rows
    then rows
    else record {
      event = event;
      waba = waba;
      phone = phone;
      class = f.class;
      effect_key = f.key;
      uncertain = f.uncertain;
    }
      ∷ rows

unfoldable pub store_fact :
    (Fact → Bool) → Uuid → Uuid → List Waba → List Phone → Fact → List FactRow → Stored
store_fact fails app event wabas phones f rows =
    if fails f then broken else elim (waba_row app f.waba wabas) [
      | none ↦ unbound
      | some waba ↦
          if f.phone == []
          then stored (add_fact event waba none f rows)
          else elim (phone_row waba f.phone phones) [
            | none ↦ unbound
            | some phone ↦ stored (add_fact event waba (some phone) f rows)
          ]
    ]

unfoldable pub store_facts :
    (Fact → Bool) → Uuid → Uuid → List Waba → List Phone → List Fact → List FactRow → Stored
store_facts fails app event wabas phones [] rows = stored rows
store_facts fails app event wabas phones (f ∷ fs) rows =
    elim (store_fact fails app event wabas phones f rows) [
      | unbound ↦ unbound
      | broken ↦ broken
      | stored rows' ↦ store_facts fails app event wabas phones fs rows'
    ]
