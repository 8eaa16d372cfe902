-- ===== src/Inbox/Interval.antt =====
-- The reviewed price intervals of backend/internal/inbox/exposure.go, and their order.
use whats.Base.{◌*◌, ◌≤◌, ◌<◌, String, Bool, ◌&&◌, not, List, [], ◌∷◌, if◌then◌else◌}
use whats.Inbox.Time.{Time, Duration, before, after, hour}
use whats.Inbox.Text.{Text}

-- `ServiceDeliveryTTL`
abbrev pub service_delivery_ttl : Duration
service_delivery_ttl = 30 * (24 * hour)

pub record ServicePriceInterval : Type 0 where
  pub publication_id : String
  pub market : Text
  pub currency : Text
  pub category : String
  pub starts_at : Time
  pub ends_at : Time  -- exclusive
  pub next_review_at : Time
  pub source_id : String
  pub source_sha256 : Text
  pub review_evidence : Text
  pub unit_maximum : Text
  pub zero_policy : Bool

-- `p.EndsAt.After(start) && !p.StartsAt.After(end)`
abbrev pub meets : Time → Time → ServicePriceInterval → Bool
meets start end p = after p.ends_at start && not (after p.starts_at end)

-- The instants that an interval prices.
abbrev pub Covers : ServicePriceInterval → Time → Type 0
Covers p t = (p.starts_at ≤ t) × (t < p.ends_at)

-- `sort.Slice` by `StartsAt.Before`, as an insertion sort.
unfoldable pub insert_by_start :
    ServicePriceInterval → List ServicePriceInterval → List ServicePriceInterval
insert_by_start p [] = p ∷ []
insert_by_start p (q ∷ qs) =
    if before q.starts_at p.starts_at then q ∷ insert_by_start p qs else p ∷ q ∷ qs

unfoldable pub sort_by_start : List ServicePriceInterval → List ServicePriceInterval
unfolding insert_by_start
sort_by_start [] = []
sort_by_start (p ∷ ps) = insert_by_start p (sort_by_start ps)
