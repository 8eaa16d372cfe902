-- ===== src/Examples/Pricing.antt =====
-- Prices, amounts and the guard on the test rows.
use whats.Base.{
  ◌+◌, ◌*◌, ◌^◌, ◌≤◌, ◌<◌, ◌≡◌, ◌≢◌, ◌↔◌, ◌⊎◌, refl, String, true, false, [], ◌∷◌, none, some, ok,
  err, arith, filter, Any,
}
use whats.Inbox.Time.{hour}
use whats.Inbox.Text.{Text, is_space, is_blank, is_digit}
use whats.Inbox.Amount.{
  Units, amount, amount_parts, split_point, is_digits, digits_value, float_string_8, decimal,
  low_digits,
}
use whats.Inbox.Amount.RoundTrip.{amount-float_string_8, amount-lt}
use whats.Inbox.Interval.{meets, sort_by_start, insert_by_start, service_delivery_ttl}
use whats.Inbox.Exposure.{interval_maximum, cover_rows, row_value}
use whats.Inbox.Exposure.Coverage.{
  PricedAt, Spans, IsPrice, interval_maximum-PricedAt, interval_maximum-Spans,
}
use whats.Inbox.Exposure.Complete.{interval_maximum-eq-ok}
use whats.Inbox.Estimate.{
  ServiceExposure, FrozenEvidence, service_exposure, maximum_still_approved, relevant_rows,
  publications, insert_string, is_currency, is_sha256,
}
use whats.Inbox.Estimate.Laws.{IsEvidence, service_exposure-covers, maximum_still_approved_iff}
use whats.Inbox.Guard.{
  evaluate, denial, scope_denial, paid_denial, window_denial, policy_denial, horizon_denial,
}
use whats.Inbox.Guard.Laws.{IsAdmissible, evaluate-allowed_iff}
use whats.Examples.Data.{noon, good_input, first_row, second_row, price_rows, idr, market_id}

amount-float_string_8_example : amount (float_string_8 450000001) ≡ some 450000001
amount-float_string_8_example = amount-float_string_8 450000001 (omega arith)

amount_run : amount (b'4' ∷ b'.' ∷ b'5' ∷ []) ≡ some 450000000
unfolding amount amount_parts split_point is_digits digits_value is_digit
amount_run = refl

amount-lt_example : 450000000 < 10 ^ 24
amount-lt_example = amount-lt (b'4' ∷ b'.' ∷ b'5' ∷ []) amount_run

abbrev dearest : Units
dearest = 600000000

interval_maximum_run :
    interval_maximum noon (noon + 800 * hour) price_rows ≡ ok (dearest, first_row ∷ second_row ∷ [])
unfolding interval_maximum cover_rows row_value sort_by_start insert_by_start amount amount_parts
    split_point is_digits digits_value is_digit
interval_maximum_run = refl

-- A gap before the first price is refused.
interval_maximum_gap :
    (e : whats.Inbox.Error.Code) × (interval_maximum
        (noon + 50 * hour)
        (noon + 800 * hour)
        (second_row ∷ [])
      ≡ err e)
unfolding interval_maximum cover_rows row_value sort_by_start insert_by_start
interval_maximum_gap = (_, refl)

interval_maximum-PricedAt_example : Any (PricedAt (noon + 99 * hour) dearest) price_rows
interval_maximum-PricedAt_example =
    interval_maximum-PricedAt noon (noon + 800 * hour) (noon + 99 * hour) price_rows
      interval_maximum_run (omega arith) (omega arith)

interval_maximum-Spans_example :
    Spans noon (noon + 800 * hour) (first_row ∷ second_row ∷ [])
    × ((dearest ≡ 0) ⊎ Any (IsPrice dearest) (first_row ∷ second_row ∷ []))
interval_maximum-Spans_example =
    interval_maximum-Spans noon (noon + 800 * hour) price_rows interval_maximum_run

sorted_rows :
    sort_by_start (filter (meets noon (noon + 800 * hour)) price_rows) ≡ first_row ∷ second_row ∷ []
unfolding sort_by_start insert_by_start
sorted_rows = refl

second_run : amount (b'6' ∷ []) ≡ some dearest
unfolding amount amount_parts split_point is_digits digits_value is_digit
second_run = refl

interval_maximum-eq-ok_example :
    (m : Units) × (interval_maximum noon (noon + 800 * hour) price_rows
      ≡ ok (m, sort_by_start (filter (meets noon (noon + 800 * hour)) price_rows)))
interval_maximum-eq-ok_example =
    interval_maximum-eq-ok noon (noon + 800 * hour) price_rows (omega arith) (omega arith) refl
      (rw sorted_rows (omega arith, (noon + 2000 * hour, (refl, refl), omega arith)))
      (rw sorted_rows (
        record {
          value = 450000000;
          parsed = amount_run;
          free = λ h. absurd (omega (arith, h));
          paid = λ h. cc;
        },
        (
          record {
            value = dearest;
            parsed = second_run;
            free = λ h. absurd (omega (arith, h));
            paid = λ h. cc;
          },
          tt,
        ),
      ))

abbrev hash_text : Text → String
hash_text s = "text"

abbrev hash_evidence : FrozenEvidence → String
hash_evidence e = "evidence"

abbrev estimated : ServiceExposure
estimated = record {
  currency = idr;
  currency_evidence_digest = "text";
  market = market_id;
  starts_at = noon;
  ends_at = noon + 800 * hour;
  maximum = b'6' ∷ b'.' ∷ b'0' ∷ b'0' ∷ b'0' ∷ b'0' ∷ b'0' ∷ b'0' ∷ b'0' ∷ b'0' ∷ [];
  publications = "july" ∷ "october" ∷ [];
  evidence_digest = "evidence";
  allowance_applied = false;
}

service_exposure_run :
    service_exposure hash_text hash_evidence noon noon
      (noon + 800 * hour)
      market_id
      idr
      (b'b' ∷ [])
      price_rows
    ≡ ok estimated
unfolding service_exposure relevant_rows is_currency is_sha256 is_blank is_space is_digit
    publications insert_string interval_maximum cover_rows row_value sort_by_start insert_by_start
    amount amount_parts split_point is_digits digits_value float_string_8 decimal low_digits
service_exposure_run = refl

service_exposure-covers_example :
    (noon + service_delivery_ttl ≤ noon + 800 * hour)
    × ((m : Units) × (amount estimated.maximum ≡ some m)
        × Any (λ p. IsEvidence noon market_id idr p × PricedAt (noon + 99 * hour) m p) price_rows)
service_exposure-covers_example =
    service_exposure-covers hash_text hash_evidence noon noon (noon + 800 * hour) (noon + 99 * hour)
      market_id idr (b'b' ∷ []) price_rows service_exposure_run (omega arith) (omega arith)

maximum_still_approved_iff_example :
    (maximum_still_approved estimated (b'7' ∷ []) idr "text" "evidence" ≡ none) ↔ (
      (estimated.currency ≡ idr)
      × (estimated.currency_evidence_digest ≡ "text")
      × (estimated.evidence_digest ≡ "evidence")
      × (estimated.evidence_digest ≢ "")
      × ((v : Units) × (w : Units) × (amount estimated.maximum ≡ some v)
          × (amount (b'7' ∷ []) ≡ some w)
          × (v ≤ w)))
maximum_still_approved_iff_example =
    maximum_still_approved_iff estimated (b'7' ∷ []) idr "text" "evidence"

evaluate_run : (evaluate good_input).allowed ≡ true
unfolding evaluate denial scope_denial paid_denial window_denial policy_denial horizon_denial
    interval_maximum cover_rows row_value sort_by_start insert_by_start amount amount_parts
    split_point is_digits digits_value is_digit
evaluate_run = refl

evaluate-allowed_iff_example : IsAdmissible good_input
evaluate-allowed_iff_example = (evaluate-allowed_iff good_input).0 evaluate_run
