-- ===== src/Inbox/Rates.antt =====
-- The rows of a rate bundle and the loop of `validateRates` over them,
-- backend/internal/inbox/registry.go.
use whats.Base.{
  ℕ, String, Bool, not, ◌&&◌, ◌||◌, List, [], ◌∷◌, Option, none, some, Result, ok, ◌>>◌, fail_if,
  any, is_none, ◌==◌, nat_eq, string_eq, list_eq,
}
use whats.Inbox.Error.{
  Error, domain, validation, rate_evidence_invalid, rate_interval_invalid, rate_coverage_missing,
}
use whats.Inbox.Text.{Text}
use whats.Inbox.Amount.{amount}

-- `rateRow` and `rateBundle`
pub record RateRow : Type 0 where
  pub market : String
  pub currency : String
  pub category : String
  pub rate : Option Text
  pub date : String

pub record Bundle : Type 0 where
  pub rows : List RateRow
  pub sources : ℕ

-- An artifact: the bundle if it decodes to one, and the digest of the canonical encoding.
pub record Artifact : Type 0 where
  pub bundle : Option Bundle
  pub canonical : String

-- `seen[key]`. The key joins the four fields by colons; two rows with one key of which the first was
-- accepted are equal in the four fields, or the second is refused as well.
abbrev pub same_key : RateRow → RateRow → Bool
same_key r s =
    r.market == s.market && r.currency == s.currency && r.category == s.category && r.date == s.date

abbrev pub is_category : String → Bool
is_category c =
    c == "MARKETING"
    || c == "UTILITY"
    || c == "AUTHENTICATION"
    || c == "AUTHENTICATION_INTERNATIONAL"
    || c == "SERVICE"

-- A missing rate is known only for Service before October.
unfoldable pub check_rate : RateRow → Result Error (Unit {0})
check_rate row = elim row.rate [
  | none ↦
      fail_if (not (row.category == "SERVICE") || not (row.date == "2026-07-01"))
        (domain rate_coverage_missing)
  | some rate ↦ fail_if (is_none (amount rate)) validation
]

-- The loop over the rows, with the accepted ones in `seen`.
unfoldable pub check_rows : List RateRow → List RateRow → Result Error (Unit {0})
check_rows seen [] = ok tt
check_rows seen (row ∷ rows) =
    fail_if
      (any (same_key row) seen
        || not (row.market == "ID")
        || (not (row.currency == "USD") && not (row.currency == "IDR"))
        || not (is_category row.category))
      (domain rate_evidence_invalid)
    >> fail_if (not (row.date == "2026-07-01") && not (row.date == "2026-10-01"))
        (domain rate_interval_invalid)
    >> check_rate row
    >> check_rows (row ∷ seen) rows
