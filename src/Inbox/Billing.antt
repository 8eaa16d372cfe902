-- ===== src/Inbox/Billing.antt =====
-- The attestation of the billing currency: `recordBillingCurrency` of
-- backend/internal/inbox/pricing_coverage.go. The encoding of the evidence is a parameter.
pub mod Revision
use whats.Base.{
  ℕ, ◌+◌, String, Bool, not, ◌&&◌, ◌||◌, List, Option, none, some, Result, ok, err, ◌>>=◌, ◌>>◌,
  fail_if, any, ltb, ◌==◌, nat_eq, string_eq, list_eq,
}
use whats.Inbox.Error.{Error, validation, not_found}
use whats.Inbox.Time.{Time, is_zero, after}
use whats.Inbox.Text.{Text}
use whats.Inbox.Store.{Uuid, Db, audit}
use whats.Inbox.Evaluation.{Session, Access, require}
use whats.Inbox.Registry.{idr}

-- `billingEvidence`
pub record BillingEvidence : Type 0 where
  pub currency : Text
  pub waba : Uuid
  pub source : String
  pub reviewed_at : Time
  pub recorded_at : Time
  pub actor : Uuid

-- A row of settings exists, so that the update concerns exactly one.
unfoldable pub record_billing_currency :
    Access
    → (BillingEvidence → Text)
    → Time
    → Session
    → Uuid
    → Text
    → Uuid
    → String
    → Time
    → Db
    → Result Error Db
record_billing_currency access encode now v member currency waba source reviewed_at db = do
  require access member "pricing.registry.publish" none none
  fail_if
      (not (currency == idr)
        || not (source == "OPERATOR_REVIEWED_META_BILLING")
        || waba == 0
        || is_zero reviewed_at)
      validation
  fail_if (not (any (λ w. w.id == waba && w.lifecycle == "PRESENT") db.wabas)) not_found
  fail_if (after reviewed_at now) validation
  ok (
      audit (some v.user) waba "inbox.billing_currency.recorded" (record db {
        settings = record db.settings {
          billing_currency_state = "VERIFIED";
          billing_currency = some currency;
          currency_evidence = some (
              encode record {
                currency = currency;
                waba = waba;
                source = source;
                reviewed_at = reviewed_at;
                recorded_at = now;
                actor = v.user;
              });
          policy_revision = db.settings.policy_revision + 1;
        };
      }))
