-- ===== src/Inbox/Error.antt =====
-- The errors that the inbox returns: `Error` of backend/internal/inbox/service.go, whose values
-- are the domain codes, and the sentinel errors of backend/internal/identity/service.go.
pub data Code : Type 0 where
  -- guard.go: `Evaluate`, `evaluate`, `preflight`, `submit`
  zero_cost_service permission_denied sending_disabled recipient_suppressed : Code
  assignment_changed handoff_conflict billing_currency_unverified : Code
  paid_template_authority_closed service_window_unknown template_required : Code
  pricing_coverage_missing pricing_policy_review_overdue : Code
  sender_binding_unavailable controlled_test_recipient_required : Code
  intent_scope_changed pricing_authorization_expired : Code
  -- exposure.go
  pricing_horizon_not_fully_covered pricing_interval_conflict : Code
  recipient_market_unverified billing_currency_evidence_changed : Code
  test_maximum_approval_required test_maximum_exceeded pricing_confirmation_scope_changed : Code
  -- worker.go
  worker_scope_changed actor_authorization_revoked pricing_policy_changed : Code
  controlled_test_already_attempted dispatch_uncertain evidence_unavailable : Code
  -- meta/send.go, as codes of an outcome
  invalid_text_request meta_definite_rejection meta_rate_limited : Code
  -- registry.go
  rate_evidence_invalid rate_interval_invalid rate_coverage_missing : Code
  rate_source_not_reviewed rate_revision_hash_mismatch : Code
  rate_review_authority_revoked stale_rate_base rate_review_overdue : Code
  currency_mismatch budget_unavailable budget_invalid budget_exceeded : Code

pub data Error : Type 0 where
  domain : Code → Error
  -- ErrValidation, ErrPermission, ErrNotFound, ErrConflict, ErrUnauthenticated, ErrReauth
  validation permission not_found conflict unauthenticated reauth : Error
  -- ErrAuthentication, ErrToken, ErrRate, ErrOwner
  authentication token_invalid rate_limited last_owner : Error
  -- any other error or panic, a violated constraint among them; the transaction is rolled back
  internal : Error
