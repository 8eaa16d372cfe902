-- ===== src/Inbox/Guard/Laws.antt =====
-- When `evaluate` allows a message.
use text.Mathlib.TextEquality.{eq_iff}
use whats.Base.{
  ◌+◌, ◌*◌, ◌≤◌, ◌<◌, ◌≡◌, ◌≢◌, ◌↔◌, true, false, nat_eq, string_eq, [], ◌∷◌, Option, none, some,
  arith, <|>-eq-none_iff, Option-cases, is_none, inl, inr,
}
use whats.Inbox.Time.{Time, second}
use whats.Inbox.Text.{is_digit}
use whats.Inbox.Amount.{amount, amount_parts, is_digits, split_point, digits_value}
use whats.Inbox.Interval.{sort_by_start}
use whats.Inbox.Exposure.{interval_maximum, cover_rows, row_value}
use whats.Inbox.Guard.{
  GuardInput, horizon_denial, zero_interval, scope_denial, paid_denial, window_denial,
  policy_denial, refusal, denial, evaluate,
}

-- The actor, the recipient and the conversation are fit for a reply.
pub record InScope (i : GuardInput) : Type 0 where
  pub authorized : i.authorized ≡ true
  pub enabled : i.sending_enabled ≡ true
  pub not_suppressed : i.suppressed ≡ false
  pub same_assignment : i.expected_assignment ≡ i.assignment
  pub not_bot : i.handoff ≢ "BOT"

scope_denial_iff : (i : GuardInput) → (scope_denial i ≡ none) ↔ InScope i
unfolding scope_denial
scope_denial_iff i = ground (arith, eq_iff i.handoff "BOT")

pub record IsServiceText (i : GuardInput) : Type 0 where
  pub text : i.message_type ≡ "TEXT"
  pub service : i.category ≡ "SERVICE"

paid_denial_iff : (i : GuardInput) → (paid_denial i ≡ none) ↔ IsServiceText i
unfolding paid_denial
paid_denial_iff i = ground (arith, eq_iff i.message_type "TEXT", eq_iff i.category "SERVICE")

-- A trusted window that stays open for more than five seconds.
pub record InWindow (i : GuardInput) : Type 0 where
  pub trusted : i.trusted_window ≡ true
  pub expiry : Time
  pub known : i.window_expiry ≡ some expiry
  pub stays_open : i.now + 5 * second < expiry

-- A reviewed policy that prices the whole delivery interval at zero.
pub record UnderPolicy (i : GuardInput) : Type 0 where
  pub policy_starts : 0 < i.policy_from
  pub started : i.policy_from ≤ i.now
  pub reviewed : i.now < i.review_at
  pub latest : Time
  pub horizon : i.delivery_latest ≡ some latest
  pub forward : i.now ≤ latest
  pub covered : latest < i.policy_to

window_denial-none : (i : GuardInput) → window_denial i ≡ none → InWindow i
unfolding window_denial
window_denial-none i h = elim (Option-cases i.window_expiry) [
  | inl absent ↦ absurd (ground arith)
  | inr (expiry, known) ↦ record {
    trusted = ground arith;
    expiry = expiry;
    known = known;
    stays_open = ground arith;
  }
]

InWindow-denial : (i : GuardInput) → InWindow i → window_denial i ≡ none
unfolding window_denial
InWindow-denial i w = ground (arith, w.known, w.stays_open)

refusal-interval_maximum_iff :
    (now from to latest : Time)
    → 0 < from
    → from ≤ now
    → now < to
    → (refusal (interval_maximum now latest (zero_interval from to ∷ [])) ≡ none)
      ↔ ((now ≤ latest) × (latest < to))
unfolding interval_maximum cover_rows row_value amount amount_parts split_point is_digits
    digits_value is_digit sort_by_start
refusal-interval_maximum_iff now from to latest a b c = ground arith

policy_denial-none : (i : GuardInput) → policy_denial i ≡ none → UnderPolicy i
unfolding policy_denial horizon_denial
policy_denial-none i h = elim (Option-cases i.delivery_latest) [
  | inl absent ↦ absurd (ground arith)
  | inr (latest, known) ↦
      let priced =
        refusal-interval_maximum_iff i.now i.policy_from i.policy_to latest (ground arith)
          (ground arith) (ground arith) in
      record {
        policy_starts = ground arith;
        started = ground arith;
        reviewed = ground arith;
        latest = latest;
        horizon = known;
        forward = ground (arith, priced);
        covered = ground (arith, priced);
      }
]

UnderPolicy-denial : (i : GuardInput) → UnderPolicy i → policy_denial i ≡ none
unfolding policy_denial horizon_denial
UnderPolicy-denial i p = ground (
  arith,
  refusal-interval_maximum_iff i.now i.policy_from i.policy_to p.latest p.policy_starts p.started
      (omega (arith, p.forward, p.covered)),
  p.horizon,
)

-- What `evaluate` requires of a message.
pub record IsAdmissible (i : GuardInput) : Type 0 where
  pub scope : InScope i
  pub service_text : IsServiceText i
  pub window : InWindow i
  pub policy : UnderPolicy i

denial_iff : (i : GuardInput) → (denial i ≡ none) ↔ IsAdmissible i
unfolding denial
denial_iff i = (
  λ h.
      let (in_scope, rest) = (<|>-eq-none_iff (scope_denial i) _).0 h in
      let (unpaid, rest') = (<|>-eq-none_iff (paid_denial i) _).0 rest in
      let (in_window, priced) = (<|>-eq-none_iff (window_denial i) _).0 rest' in
      record {
        scope = (scope_denial_iff i).0 in_scope;
        service_text = (paid_denial_iff i).0 unpaid;
        window = window_denial-none i in_window;
        policy = policy_denial-none i priced;
      },
  λ a. rw (
    (scope_denial_iff i).1 a.scope,
    (paid_denial_iff i).1 a.service_text,
    InWindow-denial i a.window,
    UnderPolicy-denial i a.policy,
  ),
)

is_none-eq-true_iff : {A : Type 0} (o : Option A) → (is_none o ≡ true) ↔ (o ≡ none)
is_none-eq-true_iff o = ground arith

-- A message is allowed exactly when the actor, recipient and conversation are in order, it is a
-- Service text, a trusted window stays open for more than five seconds, and a reviewed zero-cost
-- policy prices every instant from now to the latest delivery.
pub evaluate-allowed_iff : (i : GuardInput) → ((evaluate i).allowed ≡ true) ↔ IsAdmissible i
unfolding evaluate
evaluate-allowed_iff i = (
  λ h. (denial_iff i).0 ((is_none-eq-true_iff (denial i)).0 h),
  λ a. (is_none-eq-true_iff (denial i)).1 ((denial_iff i).1 a),
)
