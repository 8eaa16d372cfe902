-- ===== src/Inbox/Guard.antt =====
-- The decision whether a message may be sent: `Evaluate` of backend/internal/inbox/guard.go.
pub mod Laws
use whats.Base.{
  ℕ, ◌+◌, ◌*◌, String, Bool, true, false, not, ◌&&◌, ◌||◌, List, [], ◌∷◌, Option, none, some,
  Result, ok, err, deny_if, ◌<|>◌, is_none, ◌==◌, nat_eq, string_eq, if◌then◌else◌,
}
use whats.Inbox.Error.{
  Code, zero_cost_service, permission_denied, sending_disabled, recipient_suppressed,
  assignment_changed, handoff_conflict, billing_currency_unverified, paid_template_authority_closed,
  service_window_unknown, template_required, pricing_coverage_missing,
  pricing_policy_review_overdue, pricing_horizon_not_fully_covered,
}
use whats.Inbox.Time.{Time, is_zero, before, sub_le, second, minute}
use whats.Inbox.Interval.{ServicePriceInterval}
use whats.Inbox.Exposure.{interval_maximum}

pub record GuardInput : Type 0 where
  pub now : Time
  pub window_expiry : Option Time
  pub trusted_window : Bool
  pub handoff : String
  pub message_type : String
  pub category : String
  pub currency_state : String
  pub policy_from : Time
  pub policy_to : Time
  pub review_at : Time
  pub delivery_latest : Option Time
  pub sending_enabled : Bool
  pub authorized : Bool
  pub suppressed : Bool
  pub assignment : ℕ
  pub expected_assignment : ℕ

-- `Decision.Window`
pub data Window : Type 0 where
  unknown expired expiring_soon active : Window

-- `Decision.Pricing`
pub data Pricing : Type 0 where
  unpriced no_charge_reviewed_policy : Pricing

pub record Decision : Type 0 where
  pub allowed : Bool
  pub code : Code
  pub window : Window
  pub category : String
  pub pricing : Pricing
  pub currency_state : String
  pub confirmation_required : Bool
  pub financial_reservation_required : Bool

-- The `switch` on `in.WindowExpiry.Sub(in.Now)`.
unfoldable pub window_at : Time → Bool → Option Time → Window
window_at now false expiry = unknown
window_at now true none = unknown
window_at now true (some expiry) =
    if sub_le expiry now 0
    then expired
    else if sub_le expiry now (15 * minute)
    then expiring_soon
    else active

abbrev pub is_unknown : Window → Bool
is_unknown unknown = true
is_unknown _ = false

abbrev pub is_expired : Window → Bool
is_expired expired = true
is_expired _ = false

-- `in.WindowExpiry.Sub(in.Now) <= 5*time.Second`, read behind the test for an unknown window.
abbrev pub closes_soon : Time → Option Time → Bool
closes_soon now none = true
closes_soon now (some expiry) = sub_le expiry now (5 * second)

-- The checks on the actor, the recipient and the conversation.
unfoldable pub scope_denial : GuardInput → Option Code
scope_denial i =
    deny_if (not i.authorized) permission_denied
    <|> deny_if (not i.sending_enabled) sending_disabled
    <|> deny_if i.suppressed recipient_suppressed
    <|> deny_if (not (i.expected_assignment == i.assignment)) assignment_changed
    <|> deny_if (i.handoff == "BOT") handoff_conflict

-- Anything but a Service text is paid, and paid authority is closed.
unfoldable pub paid_denial : GuardInput → Option Code
paid_denial i = deny_if (not (i.message_type == "TEXT") || not (i.category == "SERVICE")) (
    if not (i.currency_state == "VERIFIED")
    then billing_currency_unverified
    else paid_template_authority_closed)

-- The checks on the 24-hour service window.
unfoldable pub window_denial : GuardInput → Option Code
unfolding window_at
window_denial i =
    let window = window_at i.now i.trusted_window i.window_expiry in
    deny_if (is_unknown window) service_window_unknown
    <|> deny_if (is_expired window || closes_soon i.now i.window_expiry) template_required

-- The synthetic zero-price interval that `Evaluate` hands to `intervalMaximum`.
abbrev pub zero_interval : Time → Time → ServicePriceInterval
zero_interval from to = record {
  publication_id = "";
  market = [];
  currency = [];
  category = "";
  starts_at = from;
  ends_at = to;
  next_review_at = 0;
  source_id = "";
  source_sha256 = [];
  review_evidence = [];
  unit_maximum = b'0' ∷ [];
  zero_policy = true;
}

abbrev pub refusal : {A : Type 0} → Result Code A → Option Code
refusal (ok _) = none
refusal (err e) = some e

unfoldable pub horizon_denial : Time → Time → Time → Option Time → Option Code
horizon_denial now from to none = some pricing_horizon_not_fully_covered
horizon_denial now from to (some latest) =
    refusal (interval_maximum now latest (zero_interval from to ∷ []))

-- The checks on the reviewed zero-cost policy.
unfoldable pub policy_denial : GuardInput → Option Code
policy_denial i =
    deny_if
      (is_zero i.policy_from
        || is_zero i.policy_to
        || before i.now i.policy_from
        || not (before i.now i.policy_to))
      pricing_coverage_missing
    <|> deny_if (not (before i.now i.review_at)) pricing_policy_review_overdue
    <|> horizon_denial i.now i.policy_from i.policy_to i.delivery_latest

unfoldable pub denial : GuardInput → Option Code
denial i = scope_denial i <|> paid_denial i <|> window_denial i <|> policy_denial i

abbrev pub decide : GuardInput → Option Code → Decision
decide i refused = record {
  allowed = is_none refused;
  code = elim refused [ none ↦ zero_cost_service | some c ↦ c ];
  window = window_at i.now i.trusted_window i.window_expiry;
  category = i.category;
  pricing = elim refused [ none ↦ no_charge_reviewed_policy | some _ ↦ unpriced ];
  currency_state = i.currency_state;
  confirmation_required = false;
  financial_reservation_required = false;
}

-- `Evaluate`: the first check that fails decides.
unfoldable pub evaluate : GuardInput → Decision
evaluate i = decide i (denial i)
