-- ===== src/Inbox/Exposure/Complete.antt =====
-- When `interval_maximum` succeeds.
use whats.Base.{
  ◌≤◌, ◌<◌, ◌≡◌, refl, true, false, List, [], ◌∷◌, Option, none, some, ok, arith, All, any, filter,
  ltb, if◌then◌else◌,
}
use whats.Inbox.Time.{Time}
use whats.Inbox.Amount.{Units, amount}
use whats.Inbox.Interval.{ServicePriceInterval, meets, sort_by_start}
use whats.Inbox.Exposure.{row_value, cover_rows, interval_maximum, is_malformed}
use whats.Inbox.Exposure.Coverage.{Chain, Spans}

-- The unit maximum parses, and is zero exactly on a row marked as a zero policy.
pub record IsPriced (p : ServicePriceInterval) : Type 0 where
  pub value : Units
  pub parsed : amount p.unit_maximum ≡ some value
  pub free : value ≡ 0 → p.zero_policy ≡ true
  pub paid : p.zero_policy ≡ true → value ≡ 0

row_value-eq-ok :
    (cursor : Time) (previous : Option Time) (p : ServicePriceInterval)
    → (priced : IsPriced p) → p.starts_at ≤ cursor
    → ((ends : Time) → previous ≡ some ends → ends ≤ p.starts_at)
    → row_value cursor previous p ≡ ok priced.value
unfolding row_value
row_value-eq-ok cursor none p priced a b = ground (arith, priced.parsed, priced.free, priced.paid)
row_value-eq-ok cursor (some ends) p priced a b =
    ground (arith, priced.parsed, priced.free, priced.paid, b ends refl)

cover_rows-eq-ok :
    (cursor to : Time) (m : Units) (ps : List ServicePriceInterval)
    → Chain cursor ps to
    → All IsPriced ps
    → (n : Units) × (cover_rows cursor (some cursor) m ps ≡ ok (to, n))
unfolding cover_rows
cover_rows-eq-ok cursor to m [] c a = (m, ground arith)
cover_rows-eq-ok cursor to m (p ∷ ps) (starts, c) (priced, a) =
    let (n, rest) =
      cover_rows-eq-ok p.ends_at to (if ltb m priced.value then priced.value else m) ps c a in
    (
      n,
      rw (row_value-eq-ok cursor (some cursor) p priced (omega arith) (λ ends e. ground arith))
          rest,
    )

Spans-cover :
    (start end : Time) (ps : List ServicePriceInterval)
    → Spans start end ps
    → All IsPriced ps
    → (c : Time) × (m : Units) × (cover_rows start none 0 ps ≡ ok (c, m)) × (end < c)
unfolding cover_rows
Spans-cover start end [] s a = absurd s
Spans-cover start end (p ∷ ps) (starts, (to, chain, past)) (priced, a) =
    let (n, rest) =
      cover_rows-eq-ok p.ends_at to (if ltb 0 priced.value then priced.value else 0) ps chain a in
    (to, n, rw (row_value-eq-ok start none p priced starts (λ ends e. absurd (cc))) rest, past)

-- Well-formed rows are accepted from any order if those that meet the interval, sorted, are priced
-- and follow one another over it without a gap or an overlap.
pub interval_maximum-eq-ok :
    (start end : Time) (ps : List ServicePriceInterval)
    → 0 < start
    → start ≤ end
    → any is_malformed ps ≡ false
    → Spans start end (sort_by_start (filter (meets start end) ps))
    → All IsPriced (sort_by_start (filter (meets start end) ps))
    → (m : Units) × (interval_maximum start end ps
        ≡ ok (m, sort_by_start (filter (meets start end) ps)))
unfolding interval_maximum
interval_maximum-eq-ok start end ps a b w s p =
    let (c, m, run, past) =
      Spans-cover start end (sort_by_start (filter (meets start end) ps)) s p in
    (m, ground arith)
