-- ===== src/Inbox/Registry/Budgets.antt =====
-- Budgets: `POST /budgets` of `registry` and `reserveBudget`, backend/internal/inbox/registry.go.
pub mod Limit
use whats.Base.{
  ℕ, ◌+◌, ◌*◌, ◌^◌, String, Bool, true, false, not, ◌&&◌, ◌||◌, List, [], ◌∷◌, Option, none, some,
  Result, ok, err, ◌>>=◌, ◌>>◌, fail_if, or_fail, ltb, leb, any, find, holds, is_none, ◌==◌, nat_eq,
  string_eq, list_eq, if◌then◌else◌,
}
use whats.Inbox.Error.{
  Error, domain, validation, internal, billing_currency_unverified, currency_mismatch,
  pricing_coverage_missing, rate_review_overdue, budget_unavailable, budget_invalid,
  budget_exceeded, intent_scope_changed,
}
use whats.Inbox.Time.{Time, after}
use whats.Inbox.Text.{Text, valid_text}
use whats.Inbox.Amount.{Units, amount}
use whats.Inbox.Store.{Uuid, audit}
use whats.Inbox.Evaluation.{Session, Access, require}
use whats.Inbox.Registry.{Registry, Period, Reservation, Publication}

-- The currency of the settings, which must be verified and the one asked for.
unfoldable pub check_currency : Text → Registry → Result Error (Unit {0})
check_currency currency r = do
  actual ← or_fail r.db.settings.billing_currency (domain billing_currency_unverified)
  fail_if (not (r.db.settings.billing_currency_state == "VERIFIED"))
      (domain billing_currency_unverified)
  fail_if (not (currency == actual)) (domain currency_mismatch)
  ok tt

unfoldable pub create_budget :
    Access
    → Uuid
    → Session
    → Uuid
    → Text
    → Text
    → Text
    → Time
    → Time
    → Registry
    → Result Error Registry
create_budget access id v member name currency maximum starts ends r = do
  require access member "budgets.manage" none none
  fail_if (not (valid_text name 80) || not (after ends starts)) validation
  limit ← or_fail (amount maximum) validation
  check_currency currency r
  ok record r {
    periods =
        record {
          id = id;
          currency = currency;
          starts_at = starts;
          ends_at = ends;
          hard_limit = limit;
        }
        ∷ r.periods;
    db = audit (some v.user) id "inbox.budget.created" r.db;
  }

-- `sum(amount) … WHERE state<>'RELEASED'`
unfoldable pub exposure : Uuid → List Reservation → Units
exposure period [] = 0
exposure period (x ∷ xs) =
    (if x.period == period && not x.released then x.reserved else 0) + exposure period xs

abbrev pub is_reservation_of : Uuid → Uuid → Reservation → Bool
is_reservation_of period intent x = x.period == period && x.intent == intent

-- The active publication is still under review.
abbrev pub is_current : Time → Option Uuid → List Publication → Bool
is_current now none ps = false
is_current now (some id) ps = any (λ p. p.id == id && ltb now p.next_review_at) ps

-- A new reservation. A sum of more than 16 digits before the point is no amount.
unfoldable pub reserve_new : Uuid → Period → Uuid → Units → Text → Registry → Result Error Registry
reserve_new id period intent value currency r = do
  let current = exposure period.id r.reservations
  fail_if (not (ltb current (10 ^ 24)) || not (ltb period.hard_limit (10 ^ 24)))
      (domain budget_invalid)
  fail_if (ltb period.hard_limit (current + value)) (domain budget_exceeded)
  ok record r {
    reservations =
        record {
          id = id;
          period = period.id;
          intent = intent;
          reserved = value;
          currency = currency;
          released = false;
        }
        ∷ r.reservations;
  }

-- `reserveBudget`; the ledger entry, which nothing reads, is left out.
unfoldable pub reserve_budget :
    Time → Uuid → Uuid → Uuid → Text → Text → Registry → Result Error Registry
reserve_budget now id period intent requested currency r = do
  value ← or_fail (amount requested) validation
  fail_if (value == 0) validation
  check_currency currency r
  fail_if (is_none r.db.settings.active_rate_publication) (domain pricing_coverage_missing)
  fail_if (not (is_current now r.db.settings.active_rate_publication r.publications))
      (domain rate_review_overdue)
  p ← or_fail (find (λ q. q.id == period) r.periods) (domain budget_unavailable)
  fail_if (ltb now p.starts_at || leb p.ends_at now) (domain budget_unavailable)
  fail_if (not (p.currency == currency)) (domain currency_mismatch)
  elim (find (is_reservation_of period intent) r.reservations) [
    | some old ↦ if old.reserved == value then ok r else err (domain intent_scope_changed)
    | none ↦ reserve_new id p intent value currency r
  ]
