-- ===== src/Inbox/Exposure.antt =====
-- Price coverage of a delivery interval: `intervalMaximum` of backend/internal/inbox/exposure.go.
pub mod Coverage
pub mod Complete
use whats.Base.{
  Bool, true, false, not, ◌&&◌, ◌||◌, List, [], ◌∷◌, Option, none, some, Result, ok, err, ◌>>=◌,
  ◌>>◌, fail_if, or_fail, ltb, ◌==◌, nat_eq, filter, any, if◌then◌else◌,
}
use whats.Inbox.Error.{Code, pricing_horizon_not_fully_covered, pricing_interval_conflict}
use whats.Inbox.Time.{Time, is_zero, before, after}
use whats.Inbox.Amount.{Units, amount}
use whats.Inbox.Interval.{ServicePriceInterval, meets, sort_by_start}

-- `p.StartsAt.IsZero() || !p.EndsAt.After(p.StartsAt)`
abbrev pub is_malformed : ServicePriceInterval → Bool
is_malformed p = is_zero p.starts_at || not (after p.ends_at p.starts_at)

-- The end of the row before, if there is one: `i > 0 && p.StartsAt.Before(selected[i-1].EndsAt)`
abbrev pub overlaps : Option Time → ServicePriceInterval → Bool
overlaps none p = false
overlaps (some ends) p = before p.starts_at ends

-- One row of the loop: the price that it contributes, or the refusal.
unfoldable pub row_value : Time → Option Time → ServicePriceInterval → Result Code Units
row_value cursor previous p = do
  fail_if (after p.starts_at cursor) pricing_horizon_not_fully_covered
  fail_if (overlaps previous p) pricing_interval_conflict
  value ← or_fail (amount p.unit_maximum) pricing_horizon_not_fully_covered
  fail_if (value == 0 && not p.zero_policy) pricing_horizon_not_fully_covered
  fail_if (p.zero_policy && not (value == 0)) pricing_interval_conflict
  ok value

-- The loop over the selected rows, with its `cursor`, `selected[i-1].EndsAt` and `maximum`.
unfoldable pub cover_rows :
    Time → Option Time → Units → List ServicePriceInterval → Result Code (Time × Units)
cover_rows cursor previous maximum [] = ok (cursor, maximum)
cover_rows cursor previous maximum (p ∷ ps) = row_value cursor previous p >>= λ value.
    cover_rows p.ends_at (some p.ends_at) (if ltb maximum value then value else maximum) ps

unfoldable pub interval_maximum :
    Time → Time → List ServicePriceInterval → Result Code (Units × List ServicePriceInterval)
interval_maximum start end intervals = do
  fail_if (is_zero start || before end start) pricing_horizon_not_fully_covered
  fail_if (any is_malformed intervals) pricing_horizon_not_fully_covered
  let selected = sort_by_start (filter (meets start end) intervals)
  covered ← cover_rows start none 0 selected
  fail_if (not (after covered.0 end)) pricing_horizon_not_fully_covered
  ok (covered.1, selected)
