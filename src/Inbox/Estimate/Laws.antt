-- ===== src/Inbox/Estimate/Laws.antt =====
-- What a successful estimate establishes.
use text.Mathlib.TextEquality.{eq_iff}
use mathlib.Core.Path.{subst}
use whats.Base.{
  ◌+◌, ◌^◌, ◌↔◌, ◌≤◌, ◌<◌, ◌≡◌, ◌≢◌, ◌⊎◌, inl, inr, String, true, List, [], ◌∷◌, none, some, Result,
  ok, arith, Any, Bool-cases, Result-cases, Option-cases, ◌∙◌, ap, list_beq_iff, list_eq,
}
use whats.Inbox.Error.{Code}
use whats.Inbox.Time.{Time}
use whats.Inbox.Text.{Text}
use whats.Inbox.Amount.{Units, amount, float_string_8}
use whats.Inbox.Amount.RoundTrip.{amount-float_string_8, amount-lt}
use whats.Inbox.Interval.{ServicePriceInterval, meets, service_delivery_ttl}
use whats.Inbox.Exposure.{interval_maximum}
use whats.Inbox.Exposure.Coverage.{
  PricedAt, interval_maximum-PricedAt, interval_maximum-Spans, IsPrice,
}
use whats.Inbox.Estimate.{
  relevant_rows, is_relevant, has_evidence, ServiceExposure, FrozenEvidence, service_exposure,
  maximum_still_approved,
}

-- A row of the right market, currency and category, whose provenance is still current.
pub record IsEvidence (now : Time) (market currency : Text) (p : ServicePriceInterval)
    : Type 0 where
  pub same_market : p.market ≡ market
  pub same_currency : p.currency ≡ currency
  pub service : p.category ≡ "SERVICE"
  pub current : now < p.next_review_at
  pub published : p.publication_id ≢ ""

row-IsEvidence :
    (now : Time) (market currency : Text) (p : ServicePriceInterval)
    → is_relevant market currency p ≡ true
    → has_evidence now p ≡ true
    → IsEvidence now market currency p
row-IsEvidence now market currency p r e = ground (
  arith,
  list_beq_iff p.market market,
  list_beq_iff p.currency currency,
  eq_iff p.category "SERVICE",
  eq_iff p.publication_id "",
)

-- A row is passed over, or it is evidence and collected.
relevant_rows-step :
    (now start end : Time) (market currency : Text) (p : ServicePriceInterval)
    (ps : List ServicePriceInterval) (rows : List ServicePriceInterval)
    → relevant_rows now start end market currency (p ∷ ps) ≡ ok rows
    → (relevant_rows now start end market currency ps ≡ ok rows)
      ⊎ ((rest : List ServicePriceInterval) × (relevant_rows now start end market currency ps
            ≡ ok rest)
          × (rows ≡ p ∷ rest)
          × IsEvidence now market currency p)
unfolding relevant_rows
relevant_rows-step now start end market currency p ps rows h =
    elim (Bool-cases (is_relevant market currency p)) [
      | inr other ↦ inl (ground arith)
      | inl relevant ↦ elim (Bool-cases (meets start end p)) [
        | inr outside ↦ inl (ground arith)
        | inl inside ↦ elim (Bool-cases (has_evidence now p)) [
          | inr bare ↦ absurd (ground arith)
          | inl evidence ↦ elim (Result-cases (relevant_rows now start end market currency ps)) [
            | inl (e, refused) ↦ absurd (ground arith)
            | inr (rest, collected) ↦ inr (
              rest,
              collected,
              ground arith,
              row-IsEvidence now market currency p relevant evidence,
            )
          ]
        ]
      ]
    ]

-- What holds of some collected row holds of some given row, which is evidence besides.
relevant_rows-Any :
    (P : ServicePriceInterval → Type 0) (now start end : Time) (market currency : Text)
    (ps rows : List ServicePriceInterval)
    → relevant_rows now start end market currency ps ≡ ok rows
    → Any P rows
    → Any (λ p. IsEvidence now market currency p × P p) ps
relevant_rows-Any P now start end market currency [] rows h a = unfold relevant_rows in ground arith
relevant_rows-Any P now start end market currency (p ∷ ps) rows h a =
    elim (relevant_rows-step now start end market currency p ps rows h) [
      | inl passed ↦ inr (relevant_rows-Any P now start end market currency ps rows passed a)
      | inr (rest, collected, split, evidence) ↦ elim (subst (Any P) split a) [
        | inl holds_here ↦ inl (evidence, holds_here)
        | inr later ↦
            inr (relevant_rows-Any P now start end market currency ps rest collected later)
      ]
    ]

-- The maximum is below the bound of the text that carries it.
IsPrice-lt : (m : Units) (ps : List ServicePriceInterval) → Any (IsPrice m) ps → m < 10 ^ 24
IsPrice-lt m [] h = absurd h
IsPrice-lt m (p ∷ ps) (inl priced) = amount-lt p.unit_maximum priced
IsPrice-lt m (p ∷ ps) (inr later) = IsPrice-lt m ps later

module _ (hash_text : Text → String) (hash_evidence : FrozenEvidence → String) where
  abbrev estimate :
      Time
      → Time
      → Time
      → Text
      → Text
      → Text
      → List ServicePriceInterval
      → Result Code ServiceExposure
  estimate = service_exposure hash_text hash_evidence

  -- The collected rows and their maximum, from which an estimate is made.
  record IsEstimate (now start end : Time) (market currency : Text) (ps : List ServicePriceInterval)
      (x : ServiceExposure) : Type 0 where
    rows : List ServicePriceInterval
    collected : relevant_rows now start end market currency ps ≡ ok rows
    maximum : Units
    selected : List ServicePriceInterval
    covered : interval_maximum start end rows ≡ ok (maximum, selected)
    printed : x.maximum ≡ float_string_8 maximum
    horizon : start + service_delivery_ttl ≤ end

  service_exposure-IsEstimate :
      (now start end : Time) (market currency proof : Text) (ps : List ServicePriceInterval)
      {x : ServiceExposure}
      → estimate now start end market currency proof ps ≡ ok x
      → IsEstimate now start end market currency ps x
  unfolding service_exposure
  service_exposure-IsEstimate now start end market currency proof ps h =
      elim (Result-cases (relevant_rows now start end market currency ps)) [
        | inl (e, refused) ↦ absurd (ground arith)
        | inr (rows, collected) ↦ elim (Result-cases (interval_maximum start end rows)) [
          | inl (e, refused) ↦ absurd (ground arith)
          | inr ((maximum, selected), covered) ↦ record {
            rows = rows;
            collected = collected;
            maximum = maximum;
            selected = selected;
            covered = covered;
            printed = ground arith;
            horizon = ground arith;
          }
        ]
      ]

  -- A successful estimate covers the whole ordinary delivery time: at each instant of the interval
  -- some given row of the market, the currency and the Service category, with a current review,
  -- has a price that is no more than the amount which the estimate prints.
  pub service_exposure-covers :
      (now start end t : Time) (market currency proof : Text) (ps : List ServicePriceInterval)
      {x : ServiceExposure}
      → service_exposure hash_text hash_evidence now start end market currency proof ps ≡ ok x
      → start ≤ t
      → t ≤ end
      → (start + service_delivery_ttl ≤ end)
        × ((m : Units) × (amount x.maximum ≡ some m)
            × Any (λ p. IsEvidence now market currency p × PricedAt t m p) ps)
  service_exposure-covers now start end t market currency proof ps h a b =
      let e = service_exposure-IsEstimate now start end market currency proof ps h in
      let bound : e.maximum < 10 ^ 24 = elim (interval_maximum-Spans start end e.rows e.covered).1 [
        | inl nothing ↦ omega arith
        | inr price ↦ IsPrice-lt e.maximum e.selected price
      ] in
      (
        e.horizon,
        (
          e.maximum,
          ap amount e.printed ∙ amount-float_string_8 e.maximum bound,
          relevant_rows-Any (PricedAt t e.maximum) now start end market currency ps e.rows
              e.collected (interval_maximum-PricedAt start end t e.rows e.covered a b),
        ),
      )

-- Frozen evidence is approved exactly when currency, currency evidence and evidence digest are the
-- approved ones, the evidence is present, and the maximum does not exceed the approved one.
pub maximum_still_approved_iff :
    (x : ServiceExposure) (approved currency : Text) (currency_evidence evidence : String)
    → (maximum_still_approved x approved currency currency_evidence evidence ≡ none) ↔ (
        (x.currency ≡ currency)
        × (x.currency_evidence_digest ≡ currency_evidence)
        × (x.evidence_digest ≡ evidence)
        × (x.evidence_digest ≢ "")
        × ((v : Units) × (w : Units) × (amount x.maximum ≡ some v)
            × (amount approved ≡ some w)
            × (v ≤ w)))
unfolding maximum_still_approved
maximum_still_approved_iff x approved currency currency_evidence evidence = (
  λ h. elim (Option-cases (amount approved)) [
    | inl no_limit ↦ absurd (ground arith)
    | inr (w, limit) ↦ elim (Option-cases (amount x.maximum)) [
      | inl no_value ↦ absurd (ground arith)
      | inr (v, value) ↦ (
        ground (arith, list_beq_iff x.currency currency),
        ground (arith, eq_iff x.currency_evidence_digest currency_evidence),
        ground (arith, eq_iff x.evidence_digest evidence),
        ground (arith, eq_iff x.evidence_digest ""),
        (v, w, value, limit, ground arith),
      )
    ]
  ],
  λ (c, d, e, n, (v, w, value, limit, fits)). ground (
    arith,
    value,
    limit,
    list_beq_iff x.currency currency,
    eq_iff x.currency_evidence_digest currency_evidence,
    eq_iff x.evidence_digest evidence,
    eq_iff x.evidence_digest "",
  ),
)
