-- ===== src/Inbox/Outcome.antt =====
-- What follows the network request: `finishDispatch` and `recoverUncertain`,
-- backend/internal/inbox/worker.go, with `correlateStatus` of materialize.go. `SendOutcome` is that of
-- backend/internal/meta/send.go.
use whats.Base.{
  ◌+◌, String, Bool, true, false, not, ◌&&◌, List, [], ◌∷◌, map, Option, none, some, ltb, leb, ◌==◌,
  nat_eq, string_eq, list_eq, holds, find, filter, any, if◌then◌else◌,
}
use whats.Inbox.Error.{Code, dispatch_uncertain}
use whats.Inbox.Time.{Time, minute}
use whats.Inbox.Text.{Text}
use whats.Inbox.Delivery.{DeliveryState, delivery_projection}
use whats.Inbox.Store.{
  Uuid, IntentState, Intent, AttemptState, Db, ConversationStatus, opened, snoozed, update_where,
  audit, event,
}
use whats.Inbox.Dispatch.{Job, is_dispatching}

-- `meta.SendOutcome`
pub data OutcomeState : Type 0 where
  accepted rejected uncertain : OutcomeState

pub record SendOutcome : Type 0 where
  pub state : OutcomeState
  pub provider_id : Option Text
  pub code : Option Code

-- The states that an outcome gives to intent, message and attempt.
abbrev pub intent_outcome : OutcomeState → IntentState
intent_outcome OutcomeState.accepted = IntentState.accepted
intent_outcome OutcomeState.rejected = IntentState.failed
intent_outcome OutcomeState.uncertain = IntentState.uncertain

abbrev pub message_outcome : OutcomeState → DeliveryState
message_outcome OutcomeState.accepted = DeliveryState.accepted
message_outcome OutcomeState.rejected = DeliveryState.failed
message_outcome OutcomeState.uncertain = DeliveryState.uncertain

abbrev pub attempt_outcome : OutcomeState → AttemptState
attempt_outcome OutcomeState.accepted = AttemptState.accepted
attempt_outcome OutcomeState.rejected = AttemptState.rejected
attempt_outcome OutcomeState.uncertain = AttemptState.uncertain

abbrev pub outcome_action : OutcomeState → String
outcome_action OutcomeState.accepted = "inbox.dispatch.ACCEPTED"
outcome_action OutcomeState.rejected = "inbox.dispatch.FAILED"
outcome_action OutcomeState.uncertain = "inbox.dispatch.UNCERTAIN"

abbrev pub is_open_attempt : AttemptState → Bool
is_open_attempt AttemptState.dispatching = true
is_open_attempt _ = false

abbrev pub same_provider : Option Text → Text → Bool
same_provider none v = false
same_provider (some u) v = u == v

-- `correlateStatus` of backend/internal/inbox/materialize.go
unfoldable pub correlate_status : Uuid → Text → Db → Db
correlate_status phone provider db =
    elim (find (λ m. m.phone == phone && same_provider m.provider_id provider && m.outbound)
      db.messages) [
        | none ↦ db
        | some m ↦
            let facts =
              map (λ s. s.status)
                (filter (λ s. s.phone == phone && s.provider_id == provider) db.statuses) in
            event m.conversation "message.status_changed" (record db {
              messages =
                  update_where (λ n. n.id == m.id)
                    (λ n. record n {
                      delivery_state = delivery_projection m.delivery_state facts;
                      revision = n.revision + 1;
                    })
                    db.messages;
            })
      ]

-- `greatest(last_activity_at,now())`
abbrev pub later_of : Time → Time → Time
later_of s t = if ltb s t then t else s

unfoldable pub correlate_accepted : Uuid → OutcomeState → Option Text → Db → Db
correlate_accepted phone OutcomeState.accepted (some provider) db =
    correlate_status phone provider db
correlate_accepted phone _ _ db = db

unfoldable pub note_outbound : OutcomeState → Time → Uuid → Db → Db
note_outbound OutcomeState.accepted now id db = record db {
  conversations =
      update_where (λ c. c.id == id)
        (λ c. record c {
          last_outbound_at = some now;
          last_activity_at = later_of c.last_activity_at now;
          revision = c.revision + 1;
        })
        db.conversations;
}
note_outbound _ now id db = db

-- `WHERE id=$1 AND state='DISPATCHING' AND claim_token=$5`
abbrev pub is_sending : Job → Intent → Bool
is_sending job i = i.id == job.intent && is_dispatching i.state && holds i.claim_token job.lease

-- `finishDispatch`, the third transaction. An intent that is no longer dispatching under this lease
-- is left alone.
unfoldable pub finish : Time → Job → SendOutcome → Db → Db
finish now job outcome db =
    if not (any (is_sending job) db.intents)
    then db
    else event job.conversation "message.status_changed" (
        audit none job.intent (outcome_action outcome.state) (
          correlate_accepted job.phone outcome.state outcome.provider_id (
            note_outbound outcome.state now job.conversation (record db {
              intents =
                  update_where (is_sending job)
                    (λ i. record i {
                      state = intent_outcome outcome.state;
                      error_code = outcome.code;
                      provider_id = outcome.provider_id;
                    })
                    db.intents;
              attempts =
                  update_where (λ a. a.intent == job.intent && is_open_attempt a.state)
                    (λ a. record a {
                      state = attempt_outcome outcome.state;
                      provider_id = outcome.provider_id;
                      error_code = outcome.code;
                    })
                    db.attempts;
              messages =
                  update_where (λ m. m.id == job.message)
                    (λ m. record m {
                      provider_id = outcome.provider_id;
                      delivery_state = message_outcome outcome.state;
                      error_code = outcome.code;
                      revision = m.revision + 1;
                    })
                    db.messages;
            }))))

-- `state='DISPATCHING' AND dispatch_started_at<now()-interval '1 minute'`
unfoldable pub is_stale : Time → Intent → Bool
is_stale now i = is_dispatching i.state && ltb (i.dispatch_started_at + minute) now

-- The body of the loop of `recoverUncertain` over the stale intents.
unfoldable pub recover_item : Intent → Db → Db
recover_item i db = event i.conversation "message.status_changed" (
    audit none i.id "inbox.dispatch.recovered_uncertain" (record db {
      attempts =
          update_where (λ a. a.intent == i.id && is_open_attempt a.state)
            (λ a. record a { state = AttemptState.uncertain; error_code = some dispatch_uncertain })
            db.attempts;
      messages =
          update_where (λ m. m.id == i.message)
            (λ m. record m {
              delivery_state = DeliveryState.uncertain;
              error_code = some dispatch_uncertain;
            })
            db.messages;
    }))

unfoldable pub recover_items : List Intent → Db → Db
recover_items [] db = db
recover_items (i ∷ is) db = recover_items is (recover_item i db)

abbrev pub is_snoozed : ConversationStatus → Bool
is_snoozed snoozed = true
is_snoozed _ = false

-- `snoozed_until<=now()`; a null is not past.
abbrev pub is_past : Option Time → Time → Bool
is_past none now = false
is_past (some t) now = leb t now

-- `recoverUncertain`: stale dispatches become uncertain, snoozes that are over end, and old presence
-- marks go.
unfoldable pub recover : Time → Db → Db
recover now db =
    let stale = filter (is_stale now) db.intents in
    let marked = recover_items stale (record db {
      intents =
          update_where (is_stale now)
            (λ i. record i { state = IntentState.uncertain; error_code = some dispatch_uncertain })
            db.intents;
    }) in
    record marked {
      conversations =
          update_where (λ c. is_snoozed c.status && is_past c.snoozed_until now)
            (λ c. record c { status = opened; snoozed_until = none; revision = c.revision + 1 })
            marked.conversations;
      presence = filter (λ p. leb now (p.expires_at + minute)) marked.presence;
    }
