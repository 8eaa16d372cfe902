-- ===== src/Examples/Submitting.antt =====
-- A preflight and submissions on the test rows.
use whats.Base.{
  ◌+◌, ◌*◌, ◌≡◌, ◌<◌, ◌⊎◌, find, nat_eq, list_eq, refl, arith, String, true, false, [], ◌∷◌, none,
  some, ok, Result,
}
use whats.Inbox.Time.{second}
use whats.Inbox.Text.{Text, is_digit, is_space, is_blank, valid_text, byte_length}
use whats.Inbox.Amount.{amount, amount_parts, split_point, is_digits, digits_value}
use whats.Inbox.Interval.{sort_by_start, insert_by_start}
use whats.Inbox.Exposure.{interval_maximum, cover_rows, row_value}
use whats.Inbox.Guard.{
  evaluate, denial, scope_denial, paid_denial, window_denial, window_at, policy_denial,
  horizon_denial,
}
use whats.Inbox.Store.{Db, Intent, IntentState}
use whats.Inbox.Evaluation.{
  scope_of, Conversation, policy_review, policy_to, SendInput, conversation, join_conversation,
  current_policy, sender_binding, guard_input, evaluate_scope,
}
use whats.Inbox.Submit.{new_intent, Preflight, Submitted, preflight, submit, submit_new, enqueue}
use whats.Inbox.Submit.Consumed.{IsRepeated, IsConsumed, submit-IsConsumed}
use whats.Inbox.Submit.Again.{submit-again}
use whats.Inbox.Submit.Handover.{submit-preflight}
use whats.Examples.Data.{noon, hello, conversation_row, tables, access, live, hash_scope, session}

abbrev token : Text
token =
    b'0' ∷ b'1' ∷ b'2' ∷ b'3' ∷ b'4' ∷ b'5' ∷ b'6' ∷ b'7' ∷ b'8' ∷ b'9' ∷ b'0' ∷ b'1' ∷ b'2' ∷ b'3'
    ∷ b'4' ∷ b'5' ∷ b'6' ∷ b'7' ∷ b'8' ∷ b'9' ∷ b'0' ∷ b'1' ∷ b'2' ∷ b'3' ∷ b'4' ∷ b'5' ∷ b'6'
    ∷ b'7' ∷ b'8' ∷ b'9' ∷ b'0' ∷ b'1' ∷ b'2' ∷ b'3' ∷ b'4' ∷ b'5' ∷ b'6' ∷ b'7' ∷ b'8' ∷ b'9'
    ∷ b'0' ∷ b'1' ∷ b'2' ∷ []

abbrev input : SendInput
input = record {
  conversation = 30;
  assignment = 1;
  text = hello;
  message_type = "";
  category = "";
  client_key =
      b'k' ∷ b'k' ∷ b'k' ∷ b'k' ∷ b'k' ∷ b'k' ∷ b'k' ∷ b'k' ∷ b'k' ∷ b'k' ∷ b'k' ∷ b'k' ∷ b'k'
      ∷ b'k' ∷ b'k' ∷ b'k' ∷ [];
  authorization = token;
}

abbrev hash_text : Text → String
hash_text t = "token"

abbrev preflighted : Result whats.Inbox.Error.Error (Db × Preflight)
preflighted = preflight access live 1 hash_scope hash_text 61 token noon session 13 input tables

abbrev after_preflight : Db
after_preflight = elim preflighted [ ok (db, p) ↦ db | Result.err e ↦ tables ]

abbrev answer : Preflight
answer = elim preflighted [
  | ok (db, p) ↦ p
  | Result.err e ↦ record {
    decision = evaluate whats.Examples.Data.good_input;
    authorization = none;
  }
]

preflight_run :
    preflight access live 1 hash_scope hash_text 61 token noon session 13 input tables
    ≡ ok (after_preflight, answer)
unfolding preflight valid_text is_blank is_space conversation join_conversation current_policy
    sender_binding guard_input evaluate_scope evaluate denial scope_denial paid_denial window_denial
    window_at policy_denial horizon_denial interval_maximum cover_rows row_value sort_by_start
    insert_by_start amount amount_parts split_point is_digits digits_value is_digit
preflight_run = refl

preflight_answer : answer.authorization ≡ some (token, noon + 60 * second)
unfolding preflight valid_text is_blank is_space conversation join_conversation current_policy
    sender_binding guard_input evaluate_scope evaluate denial scope_denial paid_denial window_denial
    window_at policy_denial horizon_denial interval_maximum cover_rows row_value sort_by_start
    insert_by_start amount amount_parts split_point is_digits digits_value is_digit
preflight_answer = refl

submittable : whats.Inbox.Submit.is_submittable input ≡ true
unfolding valid_text is_blank is_space byte_length
submittable = refl

review_left : noon + 1 < policy_review (whats.Inbox.Evaluation.current_policy tables.policies)
unfolding current_policy
review_left = omega arith

policy_left :
    noon + 1 + live.delivery_bound
    < policy_to (whats.Inbox.Evaluation.current_policy tables.policies)
unfolding current_policy
policy_left = omega arith

submit-preflight_example :
    (done : Db) × (submit access live 1 hash_scope hash_text 81 42
        (noon + 1)
        (noon + 2)
        session
        13
        input
        after_preflight
      ≡ ok (done, record { id = 81; state = IntentState.queued; reused = false }))
submit-preflight_example =
    submit-preflight access live 1 hash_scope hash_text 61 81 42 token token noon (noon + 1)
      (noon + 2) (noon + 60 * second) session 13 input tables after_preflight answer preflight_run
      preflight_answer (omega arith) (omega arith) (omega arith) review_left policy_left submittable
      refl refl refl

abbrev submitted : Result whats.Inbox.Error.Error (Db × Submitted)
submitted =
    submit access live 1 hash_scope hash_text 81 42 (noon + 1) (noon + 2) session 13 input
      after_preflight

abbrev after_submit : Db
after_submit = elim submitted [ ok (db, r) ↦ db | Result.err e ↦ tables ]

abbrev answered : Submitted
answered = record { id = 81; state = IntentState.queued; reused = false }

submission_run :
    submit access live 1 hash_scope hash_text 81 42
      (noon + 1)
      (noon + 2)
      session
      13
      input
      after_preflight
    ≡ ok (after_submit, answered)
unfolding submit submit_new enqueue whats.Inbox.Store.audit whats.Inbox.Store.event preflight
    valid_text is_blank is_space byte_length conversation join_conversation current_policy
    sender_binding guard_input evaluate_scope evaluate denial scope_denial paid_denial window_denial
    window_at policy_denial horizon_denial interval_maximum cover_rows row_value sort_by_start
    insert_by_start amount amount_parts split_point is_digits digits_value is_digit
submission_run = refl

submit-IsConsumed_example :
    IsRepeated access live 1 hash_scope hash_text session 13 input after_preflight after_submit
      answered
    ⊎ IsConsumed access live 1 hash_scope hash_text 81 42
        (noon + 1)
        (noon + 2)
        session
        13
        input
        after_preflight
        after_submit
        answered
submit-IsConsumed_example =
    submit-IsConsumed access live 1 hash_scope hash_text 81 42 (noon + 1) (noon + 2) session 13
      input after_preflight after_submit answered submission_run

-- The row of the intent, and the row once the message was sent.
abbrev kept : Intent
kept =
    new_intent 81 42 61 "scope" session 13
      record {
        row = conversation_row;
        identity = live.recipient;
        suppressed = false;
        phone_external = live.phone_id;
        waba_external = live.waba_id;
      }
      input

abbrev sent_on : Intent
sent_on = record kept { state = IntentState.accepted }

abbrev target : Conversation
target = record {
  row = conversation_row;
  identity = live.recipient;
  suppressed = false;
  phone_external = live.phone_id;
  waba_external = live.waba_id;
}

target_run : conversation access after_preflight 30 13 "messages.send" ≡ ok target
unfolding submit submit_new enqueue whats.Inbox.Store.audit whats.Inbox.Store.event preflight
    valid_text is_blank is_space byte_length conversation join_conversation current_policy
    sender_binding guard_input evaluate_scope evaluate denial scope_denial paid_denial window_denial
    window_at policy_denial horizon_denial interval_maximum cover_rows row_value sort_by_start
    insert_by_start amount amount_parts split_point is_digits digits_value is_digit
target_run = refl

kept_run : find (whats.Inbox.Submit.has_key 13 input.client_key) after_submit.intents ≡ some kept
unfolding submit submit_new enqueue whats.Inbox.Store.audit whats.Inbox.Store.event preflight
    valid_text is_blank is_space byte_length conversation join_conversation current_policy
    sender_binding guard_input evaluate_scope evaluate denial scope_denial paid_denial window_denial
    window_at policy_denial horizon_denial interval_maximum cover_rows row_value sort_by_start
    insert_by_start amount amount_parts split_point is_digits digits_value is_digit
kept_run = refl

-- Later: sending is off, the policies and the authorizations are gone, the message was sent.
abbrev closed : Db
closed = record tables {
  settings = record tables.settings { sending_enabled = false; policy_revision = 9 };
  policies = [];
  authorizations = [];
  intents = sent_on ∷ [];
}

target_later : conversation access closed 30 13 "messages.send" ≡ ok target
unfolding conversation join_conversation
target_later = refl

same_scope :
    scope_of 1 (record session { verified = false }) target input ≡ scope_of 1 session target input
unfolding scope_of
same_scope = refl

submit-again_example :
    submit access
      (record live { enabled = false })
      1
      hash_scope
      hash_text
      82
      43
      (noon + 3)
      (noon + 4)
      (record session { verified = false })
      13
      input
      closed
    ≡ ok (closed, record { id = 81; state = IntentState.accepted; reused = true })
submit-again_example =
    submit-again 1 hash_scope hash_text access access live (record live { enabled = false }) 81 42
      82 43 (noon + 1) (noon + 2) (noon + 3) (noon + 4) session
      (record session { verified = false }) 13 input after_preflight after_submit closed answered
      target target kept sent_on submission_run target_run target_later same_scope kept_run refl
      refl refl
