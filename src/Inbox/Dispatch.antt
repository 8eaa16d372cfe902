-- ===== src/Inbox/Dispatch.antt =====
-- The dispatch worker up to the network request: the two transactions of `DispatchOnce`,
-- backend/internal/inbox/worker.go, as functions on the tables.
use whats.Base.{
  ◌+◌, String, Bool, true, false, not, ◌&&◌, ◌||◌, List, [], ◌∷◌, Option, none, some, Result, ok,
  err, ltb, leb, ◌==◌, nat_eq, string_eq, list_eq, holds, find, any, deny_if, ◌<|>◌, if◌then◌else◌,
}
use whats.Inbox.Error.{
  Code, permission_denied, pricing_authorization_expired, pricing_policy_changed,
  intent_scope_changed, controlled_test_recipient_required, actor_authorization_revoked,
  controlled_test_already_attempted,
}
use whats.Inbox.Time.{Time, minute}
use whats.Inbox.Text.{Text}
use whats.Inbox.Guard.{Decision}
use whats.Inbox.Store.{
  Uuid, IntentState, Intent, AttemptState, Slot, Authorization, Db, update_where, audit, event,
}
use whats.Inbox.Evaluation.{
  Session, Access, LiveConfig, Conversation, SendInput, Scope, conversation, scope_of,
  current_policy, policy_id, evaluate_scope,
}

-- `claimed`: what the first transaction takes along.
pub record Job : Type 0 where
  pub intent : Uuid
  pub session : Uuid
  pub conversation : Uuid
  pub actor : Uuid
  pub phone : Uuid
  pub message : Uuid
  pub authorization : Uuid
  pub text : Text
  pub scope_hash : String
  pub lease : Uuid

abbrev pub is_queued : IntentState → Bool
is_queued IntentState.queued = true
is_queued _ = false

abbrev pub is_reserved : IntentState → Bool
is_reserved IntentState.reserved = true
is_reserved _ = false

abbrev pub is_dispatching : IntentState → Bool
is_dispatching IntentState.dispatching = true
is_dispatching _ = false

-- `state='QUEUED' OR (state='RESERVED' AND claim_until<now())`
unfoldable pub is_claimable : Time → Intent → Bool
is_claimable now i = is_queued i.state || (is_reserved i.state && ltb i.claim_until now)

abbrev pub job_of : Intent → Uuid → Job
job_of i lease = record {
  intent = i.id;
  session = i.session;
  conversation = i.conversation;
  actor = i.actor;
  phone = i.phone;
  message = i.message;
  authorization = i.authorization;
  text = i.text;
  scope_hash = i.scope_hash;
  lease = lease;
}

abbrev pub update_intent : Uuid → (Intent → Intent) → Db → Db
update_intent id change db = record db {
  intents = update_where (λ i. i.id == id) change db.intents;
}

-- The first transaction. The rows stand in the order of creation; those that another transaction
-- has locked are skipped.
unfoldable pub claim : (Uuid → Bool) → Time → Uuid → Db → Option (Db × Job)
claim locked now lease db = elim (find (λ i. is_claimable now i && not (locked i.id)) db.intents) [
  | none ↦ none
  | some i ↦ some (
    update_intent i.id
        (λ j. record j {
          state = IntentState.reserved;
          claim_token = some lease;
          claim_until = now + minute;
        })
        db,
    job_of i lease,
  )
]

-- The input that the worker rebuilds from the stored intent.
abbrev pub stored_input : Conversation → Authorization → Job → SendInput
stored_input c a job = record {
  conversation = c.id;
  assignment = a.assignment_revision;
  text = job.text;
  message_type = "TEXT";
  category = "SERVICE";
  client_key = [];
  authorization = [];
}

abbrev pub decision_denial : Decision → Option Code
decision_denial d = deny_if (not d.allowed) d.code

-- The job still holds the lease of a reserved intent.
unfoldable pub holds_lease : Db → Job → Bool
holds_lease db job =
    any (λ i. i.id == job.intent && is_reserved i.state && holds i.claim_token job.lease) db.intents

abbrev pub has_slot : Uuid → List Slot → Bool
has_slot phone slots = any (λ s. s.phone == phone) slots

abbrev pub recipient_of : Uuid → Db → Uuid
recipient_of id db = elim (find (λ c. c.id == id) db.conversations) [
  | none ↦ 0
  | some c ↦ c.recipient
]

-- Blocked for good, with its message.
unfoldable pub block : Code → Job → Db → Db
block code job db = event job.conversation "message.status_changed" (
    audit none job.intent "inbox.dispatch.BLOCKED" (
      update_intent job.intent
        (λ i. record i { state = IntentState.blocked; error_code = some code })
        (record db {
          messages =
              update_where (λ m. m.id == job.message)
                (λ m. record m { blocked = true; error_code = some code }) db.messages;
        })))

-- The slot is taken and the intent marked as dispatching, before anything is sent.
unfoldable pub start_dispatch : Time → Uuid → Job → Db → Db
start_dispatch now user job db = audit (some user) job.intent "inbox.dispatch.authorized" (
    update_intent job.intent
      (λ i. record i { state = IntentState.dispatching; dispatch_started_at = now })
      (record db {
        slots =
            record {
              phone = job.phone;
              recipient = recipient_of job.conversation db;
              intent = job.intent;
            }
            ∷ db.slots;
        attempts =
            record {
              intent = job.intent;
              state = AttemptState.dispatching;
              error_code = none;
              provider_id = none;
            }
            ∷ db.attempts;
      }))

module _ (access : Access) (live : LiveConfig) (org : Uuid) (hash_scope : Scope → String) where
  -- The `switch` on a decision and a stored authorization.
  unfoldable pub scope_denial :
      Db → Time → Session → Uuid → Conversation → Authorization → Job → Option Code
  scope_denial db now v member c a job =
      decision_denial (evaluate_scope access live db now v member c (stored_input c a job))
      <|> deny_if (leb a.expires_at now) pricing_authorization_expired
      <|> deny_if
          (not (policy_id (current_policy db.policies) == a.policy)
            || not (db.settings.policy_revision == a.policy_revision))
          pricing_policy_changed
      <|> deny_if
          (not (holds a.consumed_intent job.intent)
            || not (a.scope_hash == job.scope_hash)
            || not (hash_scope (scope_of org v c (stored_input c a job)) == job.scope_hash))
          intent_scope_changed
      <|> deny_if (not live.enabled || not (c.identity == live.recipient))
          controlled_test_recipient_required

  -- What the second transaction reads before it locks the intent: the reason to deny, or the
  -- recipient and the phone to send to. `none` is a query error, which rolls back.
  unfoldable pub check_job : Db → Time → Job → Option (Result Code (Text × Text))
  check_job db now job = elim (access.lock_session job.session) [
    | none ↦ some (err actor_authorization_revoked)
    | some (v, member) ↦
        if not (member == job.actor)
        then some (err actor_authorization_revoked)
        else elim (conversation access db job.conversation member "messages.send") [
          | err e ↦ some (err permission_denied)
          | ok c ↦ elim (find (λ a. a.id == job.authorization) db.authorizations) [
            | none ↦ none
            | some a ↦ elim (scope_denial db now v member c a job) [
              | some code ↦ some (err code)
              | none ↦ some (ok (c.identity, c.phone_external))
            ]
          ]
        ]
  ]

  abbrev pub user_of : Job → Uuid
  user_of job = elim (access.lock_session job.session) [ none ↦ 0 | some (v, _) ↦ v.user ]

  -- The second transaction: the new tables, and the recipient and phone if a request may be sent.
  -- A lost lease changes nothing. `none` is a query error, which rolls back.
  unfoldable pub authorize : Time → Job → Db → Option (Db × Option (Text × Text))
  authorize now job db = elim (check_job db now job) [
    | none ↦ none
    | some checked ↦ if not (holds_lease db job) then some (db, none) else elim checked [
      | err code ↦ some (block code job db, none)
      | ok target ↦
          if has_slot job.phone db.slots
          then some (block controlled_test_already_attempted job db, none)
          else some (start_dispatch now (user_of job) job db, some target)
    ]
  ]
