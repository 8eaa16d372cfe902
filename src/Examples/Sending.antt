-- ===== src/Examples/Sending.antt =====
-- A run of one dispatch worker on the test rows, from the queue to the request.
use whats.Base.{◌≤◌, ◌≡◌, refl, [], ◌∷◌, none, some, false}
use whats.Inbox.Text.{is_digit}
use whats.Inbox.Amount.{amount, amount_parts, split_point, is_digits, digits_value}
use whats.Inbox.Interval.{sort_by_start, insert_by_start}
use whats.Inbox.Exposure.{interval_maximum, cover_rows, row_value}
use whats.Inbox.Guard.{
  evaluate, denial, scope_denial, paid_denial, window_denial, window_at, policy_denial,
  horizon_denial,
}
use whats.Inbox.Store.{Db}
use whats.Inbox.Evaluation.{
  conversation, join_conversation, current_policy, sender_binding, guard_input, evaluate_scope,
}
use whats.Inbox.Dispatch.{
  Job, is_claimable, job_of, claim, authorize, check_job, scope_denial as job_denial, holds_lease,
  start_dispatch,
}
use whats.Inbox.Outcome.{OutcomeState}
use whats.Inbox.Workers.{
  World, idle, claimed, granted, answered, set_phase, claims, authorizes, sends, Reach, here, next,
}
use whats.Inbox.Workers.AtMostOnce.{sends_of, IsInitial, at_most_one_send}
use whats.Inbox.Workers.Grants.{IsGrant, authorize-IsGrant}
use whats.Examples.Data.{noon, tables, access, live, hash_scope, intent, member_wa}

abbrev job : Job
job = job_of intent 90

abbrev reserved : Db
reserved = elim (claim (λ i. false) noon 90 tables) [ none ↦ tables | some (db, j) ↦ db ]

abbrev dispatched : Db
dispatched = start_dispatch noon 12 job reserved

claim_run : claim (λ i. false) noon 90 tables ≡ some (reserved, job)
unfolding claim is_claimable
claim_run = refl

authorize_run :
    authorize access live 1 hash_scope noon job reserved
    ≡ some (dispatched, some (member_wa, b'p' ∷ []))
unfolding claim is_claimable authorize check_job job_denial holds_lease conversation
    join_conversation current_policy sender_binding guard_input evaluate_scope evaluate denial
    scope_denial paid_denial window_denial window_at policy_denial horizon_denial interval_maximum
    cover_rows row_value sort_by_start insert_by_start amount amount_parts split_point is_digits
    digits_value is_digit
authorize_run = refl

abbrev at_rest : World
at_rest = record { db = tables; phase = λ w. idle; sent = [] }

abbrev at_work : World
at_work = record { db = reserved; phase = set_phase (λ w. idle) 0 (claimed job); sent = [] }

abbrev at_grant : World
at_grant = record {
  db = dispatched;
  phase = set_phase at_work.phase 0 (granted job (member_wa, b'p' ∷ []));
  sent = [];
}

abbrev at_end : World
at_end = record {
  db = dispatched;
  phase =
      set_phase at_grant.phase 0
        (answered job record { state = OutcomeState.uncertain; provider_id = none; code = none });
  sent = (job.phone, job.intent) ∷ [];
}

sending_run : Reach live 1 hash_scope at_rest at_end
sending_run =
    next
      (next (next here (claims 0 (λ i. false) noon 90 reserved job refl claim_run refl)) (
        authorizes 0 access noon job dispatched (some (member_wa, b'p' ∷ [])) refl authorize_run
          refl))
      (sends 0 job (member_wa, b'p' ∷ []) _ refl refl)

at_rest-IsInitial : IsInitial at_rest
at_rest-IsInitial = record { all_idle = λ w. refl; none_sent = refl }

at_most_one_send_example : sends_of 20 at_end.sent ≤ 1
at_most_one_send_example =
    at_most_one_send live 1 hash_scope {s = at_rest} {t = at_end} 20 at_rest-IsInitial sending_run

authorize-IsGrant_example :
    IsGrant access live 1 hash_scope reserved noon job (member_wa, b'p' ∷ [])
authorize-IsGrant_example =
    authorize-IsGrant access live 1 hash_scope noon job reserved dispatched (member_wa, b'p' ∷ [])
      authorize_run
