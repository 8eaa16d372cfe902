-- ===== src/Inbox/Workers/Frames.antt =====
-- What the transactions of the dispatch worker leave alone.
use whats.Base.{
  ◌≡◌, refl, ◌∙◌, List, [], ◌∷◌, Option, none, some, any, Bool-cases, inl, inr, arith, String,
  Option-cases, Result-cases, true, false, ◌⊎◌, filter, ◌==◌, nat_eq,
}
use whats.Inbox.Time.{Time}
use whats.Inbox.Text.{Text}
use whats.Inbox.Error.{Code, dispatch_uncertain, controlled_test_already_attempted}
use whats.Inbox.Store.{Uuid, Db, Intent, IntentState, audit, event, update_where}
use whats.Inbox.Dispatch.{
  Job, block, start_dispatch, holds_lease, has_slot, authorize, check_job, user_of,
}
use whats.Inbox.Evaluation.{Access, LiveConfig, Scope}
use whats.Inbox.Outcome.{
  SendOutcome, OutcomeState, finish, recover, recover_item, recover_items, correlate_status,
  correlate_accepted, note_outbound, is_sending, intent_outcome, is_stale,
}

-- Slots and intents stay as they are.
pub record Frame (db db' : Db) : Type 0 where
  pub slots : db'.slots ≡ db.slots
  pub intents : db'.intents ≡ db.intents

Frame-refl : (db : Db) → Frame db db
Frame-refl db = record { slots = refl; intents = refl }

Frame-trans : {a b c : Db} → Frame a b → Frame b c → Frame a c
Frame-trans f g = record { slots = g.slots ∙ f.slots; intents = g.intents ∙ f.intents }

audit-Frame : (u : Option Uuid) (r : Uuid) (a : String) (db : Db) → Frame db (audit u r a db)
unfolding audit
audit-Frame u r a db = record { slots = refl; intents = refl }

event-Frame : (c : Uuid) (k : String) (db : Db) → Frame db (event c k db)
unfolding event
event-Frame c k db = record { slots = refl; intents = refl }

-- The two log entries at the end of a transaction.
pub logged-Frame :
    (c : Uuid) (k : String) (u : Option Uuid) (r : Uuid) (a : String) (db : Db)
    → Frame db (event c k (audit u r a db))
logged-Frame c k u r a db = Frame-trans (audit-Frame u r a db) (event-Frame c k (audit u r a db))

correlate_status-Frame :
    (phone : Uuid) (provider : Text) (db : Db) → Frame db (correlate_status phone provider db)
unfolding correlate_status event
correlate_status-Frame phone provider db = record { slots = ground arith; intents = ground arith }

correlate_accepted-Frame :
    (phone : Uuid) (o : OutcomeState) (provider : Option Text) (db : Db)
    → Frame db (correlate_accepted phone o provider db)
unfolding correlate_accepted
correlate_accepted-Frame phone OutcomeState.accepted (some provider) db =
    correlate_status-Frame phone provider db
correlate_accepted-Frame phone _ _ db = Frame-refl db

note_outbound-Frame :
    (o : OutcomeState) (now : Time) (id : Uuid) (db : Db) → Frame db (note_outbound o now id db)
unfolding note_outbound
note_outbound-Frame OutcomeState.accepted now id db = record { slots = refl; intents = refl }
note_outbound-Frame _ now id db = Frame-refl db

recover_item-Frame : (i : Intent) (db : Db) → Frame db (recover_item i db)
unfolding recover_item audit event
recover_item-Frame i db = record { slots = refl; intents = refl }

recover_items-Frame : (is : List Intent) (db : Db) → Frame db (recover_items is db)
unfolding recover_items
recover_items-Frame [] db = Frame-refl db
recover_items-Frame (i ∷ is) db =
    Frame-trans (recover_item-Frame i db) (recover_items-Frame is (recover_item i db))

abbrev pub set_outcome : SendOutcome → Intent → Intent
set_outcome o i = record i {
  state = intent_outcome o.state;
  error_code = o.code;
  provider_id = o.provider_id;
}

-- The slots and intents after a transaction, of which it says what the intents have become.
pub record Leaves (db db' : Db) (intents : List Intent) : Type 0 where
  pub slots : db'.slots ≡ db.slots
  pub intents_are : db'.intents ≡ intents

pub finish-Leaves :
    (now : Time) (job : Job) (o : SendOutcome) (db : Db)
    → (finish now job o db ≡ db)
      ⊎ Leaves db (finish now job o db) (update_where (is_sending job) (set_outcome o) db.intents)
unfolding finish
finish-Leaves now job o db = elim (Bool-cases (any (is_sending job) db.intents)) [
  | inr lost ↦ inl (rw lost)
  | inl sending ↦ inr (
      rw sending (
        let logged = logged-Frame job.conversation "message.status_changed" none job.intent _ _ in
        let told = correlate_accepted-Frame job.phone o.state o.provider_id _ in
        let noted = note_outbound-Frame o.state now job.conversation _ in
        record {
          slots = logged.slots ∙ told.slots ∙ noted.slots;
          intents_are = logged.intents ∙ told.intents ∙ noted.intents;
        }))
]

abbrev pub set_uncertain : Intent → Intent
set_uncertain i = record i { state = IntentState.uncertain; error_code = some dispatch_uncertain }

pub recover-Leaves :
    (now : Time) (db : Db)
    → Leaves db (recover now db) (update_where (is_stale now) set_uncertain db.intents)
unfolding recover
recover-Leaves now db =
    let marked = recover_items-Frame (filter (is_stale now) db.intents) _ in
    record { slots = marked.slots; intents_are = marked.intents }

abbrev pub set_blocked : Code → Intent → Intent
set_blocked code i = record i { state = IntentState.blocked; error_code = some code }

pub block-Leaves :
    (code : Code) (job : Job) (db : Db)
    → Leaves db
        (block code job db)
        (update_where (λ i. i.id == job.intent) (set_blocked code) db.intents)
unfolding block audit event
block-Leaves code job db = record { slots = refl; intents_are = refl }

abbrev pub set_dispatching : Time → Intent → Intent
set_dispatching now i = record i { state = IntentState.dispatching; dispatch_started_at = now }

-- What the second transaction has done: nothing, blocked the intent, or taken the phone's only slot
-- for it, and only this lets a request be sent.
pub data Authorized (now : Time) (job : Job) (db db' : Db) (target : Option (Text × Text))
    : Type 0 where
  untouched : db' ≡ db → target ≡ none → Authorized now job db db' target
  refused :
      (code : Code)
      → holds_lease db job ≡ true
      → db' ≡ block code job db
      → target ≡ none
      → Authorized now job db db' target
  started :
      (user : Uuid) (to : Text × Text)
      → holds_lease db job ≡ true
      → has_slot job.phone db.slots ≡ false
      → db' ≡ start_dispatch now user job db
      → target ≡ some to
      → Authorized now job db db' target

pub authorize-Authorized :
    (access : Access) (live : LiveConfig) (org : Uuid) (hash_scope : Scope → String) (now : Time)
    (job : Job) (db db' : Db) (target : Option (Text × Text))
    → authorize access live org hash_scope now job db ≡ some (db', target)
    → Authorized now job db db' target
unfolding authorize
authorize-Authorized access live org hash_scope now job db db' target h =
    elim (Option-cases (check_job access live org hash_scope db now job)) [
      | inl failed ↦ absurd (ground arith)
      | inr (checked, read) ↦ elim (Bool-cases (holds_lease db job)) [
        | inr lost ↦ untouched (ground arith) (ground arith)
        | inl held ↦ elim (Result-cases checked) [
          | inl (code, denied) ↦ refused code held (ground arith) (ground arith)
          | inr (to, allowed) ↦ elim (Bool-cases (has_slot job.phone db.slots)) [
            | inl taken ↦
                refused controlled_test_already_attempted held (ground arith) (ground arith)
            | inr free ↦
                started (user_of access live org hash_scope job) to held free (ground arith)
                  (ground arith)
          ]
        ]
      ]
    ]
