-- ===== src/Inbox/Events.antt =====
-- One webhook event: `MaterializeOnce` with its loops, backend/internal/inbox/materialize.go.
-- Decryption and decoding of the payload are a parameter.
use whats.Base.{
  ℕ, suc, ◌+◌, String, Bool, not, ◌&&◌, List, [], ◌∷◌, Option, none, some, any, find, ◌==◌, nat_eq,
  string_eq, list_eq, is_none, if◌then◌else◌,
}
use whats.Inbox.Time.{Time}
use whats.Inbox.Text.{Text}
use whats.Inbox.Store.{Uuid, EventReceipt, Materialization, Db}
use whats.Inbox.Evaluation.{LiveConfig}
use whats.Inbox.Content.{Inbound}
use whats.Inbox.Receive.{StatusInput, materialize_message, materialize_status}

-- The loops stop at the first error, which is `none`.
infixl 5 ◌>>=◌
abbrev pub ◌>>=◌ : {A B : Type 0} → Option A → (A → Option B) → Option B
none >>= next = none
some value >>= next = next value

-- `value`, an element of `changes`, and `entry` of the event.
pub record Value : Type 0 where
  pub phone : Text
  pub messages : List (Option Inbound)
  pub statuses : List (Option StatusInput)

pub record Change : Type 0 where
  pub field : String
  pub value : Option Value

pub record Entry : Type 0 where
  pub id : Text
  pub changes : List Change

-- The phone of a change: of the account that the entry names, and of the app.
unfoldable pub phone_of : Uuid → Text → Text → Db → Option Uuid
phone_of app account external db =
    elim (find
      (λ p.
        p.external_id == external
        && any (λ w. w.id == p.waba && w.external_id == account && w.app == app) db.wabas)
      db.phones) [ none ↦ none | some p ↦ some p.id ]

-- `state IN ('PROCESSED','UNKNOWN')` and not yet materialized; the rows stand in the order of
-- reception, and those that another transaction has locked are skipped.
abbrev pub is_pending : (Uuid → Bool) → Uuid → List Materialization → EventReceipt → Bool
is_pending locked app done e =
    e.app == app && e.processed && not (any (λ m. m.event == e.id) done) && not (locked e.id)

module _ (live : LiveConfig) (hash_fact : StatusInput → String) (app : Uuid) where
  -- The loops; each message takes three new identifiers.
  unfoldable pub message_loop :
      (ℕ → Uuid) → Uuid → Uuid → Time → Time → List (Option Inbound) → Db → Option Db
  message_loop ids phone source ingress now [] db = some db
  message_loop ids phone source ingress now (m ∷ ms) db = do
    d ← materialize_message live ids phone source ingress now m db
    message_loop (λ n. ids (n + 3)) phone source ingress now ms d

  unfoldable pub status_loop : Uuid → List (Option StatusInput) → Db → Option Db
  status_loop phone [] db = some db
  status_loop phone (v ∷ vs) db = do
    d ← materialize_status hash_fact phone v db
    status_loop phone vs d

  -- One change. Identifiers of different changes are drawn from different streams.
  unfoldable pub apply_change : (ℕ → Uuid) → Uuid → Time → Time → Text → Change → Db → Option Db
  apply_change ids source ingress now account change db =
      if not (change.field == "messages") then some db else elim change.value [
        | none ↦ some db
        | some value ↦ elim (phone_of app account value.phone db) [
          | none ↦ some db
          | some phone ↦ do
            d ← message_loop ids phone source ingress now value.messages db
            status_loop phone value.statuses d
        ]
      ]

  unfoldable pub change_loop :
      (ℕ → ℕ → Uuid) → Uuid → Time → Time → Text → List Change → Db → Option Db
  change_loop ids source ingress now account [] db = some db
  change_loop ids source ingress now account (c ∷ cs) db = do
    d ← apply_change (ids 0) source ingress now account c db
    change_loop (λ n. ids (suc n)) source ingress now account cs d

  unfoldable pub entry_loop : (ℕ → ℕ → ℕ → Uuid) → Uuid → Time → Time → List Entry → Db → Option Db
  entry_loop ids source ingress now [] db = some db
  entry_loop ids source ingress now (e ∷ es) db = do
    d ← change_loop (ids 0) source ingress now e.id e.changes db
    entry_loop (λ n. ids (suc n)) source ingress now es d

  -- `MaterializeOnce`: the first pending event, whose payload `open` decrypts and decodes. `none` is an
  -- error or that nothing is pending; the tables stay as they were.
  unfoldable pub materialize_once :
      (Uuid → Bool) → (Uuid → Option (List Entry)) → (ℕ → ℕ → ℕ → Uuid) → Time → Db → Option Db
  materialize_once locked open_payload ids now db = do
    e ← find (is_pending locked app db.materializations) db.receipts
    d ← elim (open_payload e.id) [
      | none ↦ some db
      | some entries ↦ entry_loop ids e.id e.received_at now entries db
    ]
    some (record d {
      materializations =
          record { event = e.id; available = not (is_none (open_payload e.id)) }
          ∷ d.materializations;
    })
