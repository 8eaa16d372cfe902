-- ===== src/Inbox/Estimate.antt =====
-- The exposure of one Service message: `serviceExposure` and `maximumStillApproved` of
-- backend/internal/inbox/exposure.go. The digest of the frozen evidence is a parameter.
pub mod Laws
use Prim.Native.String.{compare}
use Prim.Native.Nat.{Ordering}
use whats.Base.{
  ℕ, ◌+◌, ◌-◌, ◌*◌, String, Bool, true, false, not, ◌&&◌, ◌||◌, List, [], ◌∷◌, Option, none, some,
  Result, ok, err, ◌>>=◌, ◌>>◌, fail_if, or_fail, ltb, leb, ◌==◌, nat_eq, string_eq, list_eq,
  length, all, if◌then◌else◌, map,
}
use whats.Inbox.Error.{
  Code, pricing_horizon_not_fully_covered, billing_currency_unverified, recipient_market_unverified,
  billing_currency_evidence_changed, test_maximum_approval_required, test_maximum_exceeded,
  pricing_confirmation_scope_changed,
}
use whats.Inbox.Time.{Time, is_zero, after, sub_lt}
use whats.Inbox.Text.{Text, is_blank, is_digit}
use whats.Inbox.Amount.{Units, amount, float_string_8}
use whats.Inbox.Interval.{ServicePriceInterval, service_delivery_ttl, meets}
use whats.Inbox.Exposure.{interval_maximum, is_malformed}

abbrev pub is_upper : ℕ → Bool
is_upper c = leb b'A' c && leb c b'Z'

-- `len(currency) == 3` and three letters A to Z
unfoldable pub is_currency : Text → Bool
is_currency c = length c == 3 && all is_upper c

abbrev pub is_hex : ℕ → Bool
is_hex c = is_digit c || (leb b'a' c && leb c b'f') || (leb b'A' c && leb c b'F')

-- `hex.DecodeString` succeeds with 32 bytes
unfoldable pub is_sha256 : Text → Bool
unfolding is_digit
is_sha256 s = length s == 64 && all is_hex s

-- Ordering and removal of duplicates: the map `pubs`, its keys, and `sort.Strings`.
unfoldable pub insert_string : String → List String → List String
insert_string s [] = s ∷ []
insert_string s (t ∷ ts) =
    let rest = insert_string s ts in
    elim (compare s t) [ Ordering.lt ↦ s ∷ t ∷ ts | Ordering.eq ↦ t ∷ ts | Ordering.gt ↦ t ∷ rest ]

unfoldable pub publications : List ServicePriceInterval → List String
unfolding insert_string
publications [] = []
publications (p ∷ ps) = insert_string p.publication_id (publications ps)

-- `p.Market != market || p.Currency != currency || p.Category != "SERVICE"`
abbrev pub is_relevant : Text → Text → ServicePriceInterval → Bool
is_relevant market currency p =
    p.market == market && p.currency == currency && p.category == "SERVICE"

-- Provenance that is reviewed and still current.
abbrev pub has_evidence : Time → ServicePriceInterval → Bool
has_evidence now p =
    not (p.publication_id == "")
    && not (p.source_id == "")
    && is_sha256 p.source_sha256
    && not (is_blank p.review_evidence)
    && after p.next_review_at now

-- The loop that collects the relevant rows.
unfoldable pub relevant_rows :
    Time
    → Time
    → Time
    → Text
    → Text
    → List ServicePriceInterval
    → Result Code (List ServicePriceInterval)
relevant_rows now start end market currency [] = ok []
relevant_rows now start end market currency (p ∷ ps) =
    let rest = relevant_rows now start end market currency ps in
    if not (is_relevant market currency p)
    then rest
    else fail_if (is_malformed p) pricing_horizon_not_fully_covered
      >> (if not (meets start end p)
          then rest
          else fail_if (not (has_evidence now p)) pricing_horizon_not_fully_covered
            >> (rest >>= λ rows. ok (p ∷ rows)))

pub record ServiceExposure : Type 0 where
  pub currency : Text
  pub currency_evidence_digest : String
  pub market : Text
  pub starts_at : Time
  pub ends_at : Time
  pub maximum : Text
  pub publications : List String
  pub evidence_digest : String
  pub allowance_applied : Bool

-- What the evidence digest covers.
pub record FrozenEvidence : Type 0 where
  pub market : Text
  pub currency : Text
  pub currency_evidence_digest : String
  pub starts_at : Time
  pub ends_at : Time
  pub selected : List ServicePriceInterval

module _ (hash_text : Text → String) (hash_evidence : FrozenEvidence → String) where
  unfoldable pub service_exposure :
      Time
      → Time
      → Time
      → Text
      → Text
      → Text
      → List ServicePriceInterval
      → Result Code ServiceExposure
  service_exposure now start end market currency currency_evidence intervals = do
    fail_if (is_blank currency_evidence || not (is_currency currency)) billing_currency_unverified
    fail_if (is_blank market) recipient_market_unverified
    fail_if (is_zero start || sub_lt end start service_delivery_ttl)
        pricing_horizon_not_fully_covered
    relevant ← relevant_rows now start end market currency intervals
    priced ← interval_maximum start end relevant
    ok record {
      currency = currency;
      currency_evidence_digest = hash_text currency_evidence;
      market = market;
      starts_at = start;
      ends_at = end;
      maximum = float_string_8 priced.0;
      publications = publications priced.1;
      evidence_digest = hash_evidence record {
        market = market;
        currency = currency;
        currency_evidence_digest = hash_text currency_evidence;
        starts_at = start;
        ends_at = end;
        selected = priced.1;
      };
      allowance_applied = false;
    }

-- `nil` is `none`.
unfoldable pub maximum_still_approved :
    ServiceExposure → Text → Text → String → String → Option Code
maximum_still_approved current approved_maximum approved_currency approved_currency_evidence
      approved_evidence =
    if not (current.currency == approved_currency)
      || not (current.currency_evidence_digest == approved_currency_evidence)
    then some billing_currency_evidence_changed
    else elim (amount approved_maximum) [
      | none ↦ some test_maximum_approval_required
      | some approved ↦ elim (amount current.maximum) [
        | none ↦ some pricing_horizon_not_fully_covered
        | some value ↦
            if current.evidence_digest == ""
            then some pricing_horizon_not_fully_covered
            else if ltb approved value
            then some test_maximum_exceeded
            else if not (current.evidence_digest == approved_evidence)
            then some pricing_confirmation_scope_changed
            else none
      ]
    ]
