-- ===== src/Inbox/Exposure/Coverage.antt =====
-- What `interval_maximum` promises of the rows that it selects.
use mathlib.Core.Path.{subst}
use whats.Base.{
  ◌≤◌, ◌<◌, ◌≡◌, refl, ◌⊎◌, inl, inr, Bool, true, false, List, [], ◌∷◌, Option, none, some, ok,
  arith, Any, any, filter, ltb, Bool-cases, Result-cases, >>=-eq-ok, if◌then◌else◌,
}
use whats.Inbox.Time.{Time, is_zero}
use whats.Inbox.Amount.{Units, amount}
use whats.Inbox.Interval.{ServicePriceInterval, Covers, meets, insert_by_start, sort_by_start}
use whats.Inbox.Exposure.{row_value, cover_rows, interval_maximum, is_malformed}

-- The row prices the instant at no more than the maximum.
abbrev pub PricedAt : Time → Units → ServicePriceInterval → Type 0
PricedAt t maximum p = Covers p t × ((v : Units) × (amount p.unit_maximum ≡ some v) × (v ≤ maximum))

-- What an accepted row has been checked for.
record IsRow (cursor : Time) (previous : Option Time) (p : ServicePriceInterval) (v : Units)
    : Type 0 where
  priced : amount p.unit_maximum ≡ some v
  reached : p.starts_at ≤ cursor
  behind : (ends : Time) → previous ≡ some ends → ends ≤ p.starts_at
  free_iff : (v ≡ 0 → p.zero_policy ≡ true) × (p.zero_policy ≡ true → v ≡ 0)

row_value-IsRow :
    (cursor : Time) (previous : Option Time) (p : ServicePriceInterval) (v : Units)
    → row_value cursor previous p ≡ ok v
    → IsRow cursor previous p v
unfolding row_value
row_value-IsRow cursor previous p v h = record {
  priced = ground arith;
  reached = ground arith;
  behind = λ ends e. ground arith;
  free_iff = (λ z. ground arith, λ z. ground arith);
}

cover_rows-le :
    (cursor : Time) (previous : Option Time) (m : Units) (ps : List ServicePriceInterval) {c : Time}
    {n : Units}
    → cover_rows cursor previous m ps ≡ ok (c, n)
    → m ≤ n
unfolding cover_rows
cover_rows-le cursor previous m [] h = ground arith
cover_rows-le cursor previous m (p ∷ ps) h =
    let (v, row, rest) = >>=-eq-ok (row_value cursor previous p) _ h in
    ground (arith, cover_rows-le p.ends_at (some p.ends_at) (if ltb m v then v else m) ps rest)

-- Every instant that the loop passes is priced by one of its rows, below the final maximum.
cover_rows-Any :
    (t : Time) (cursor : Time) (previous : Option Time) (m : Units) (ps : List ServicePriceInterval)
    {c : Time} {n : Units}
    → cover_rows cursor previous m ps ≡ ok (c, n)
    → cursor ≤ t
    → t < c
    → Any (PricedAt t n) ps
unfolding cover_rows
cover_rows-Any t cursor previous m [] h a b = absurd (ground arith)
cover_rows-Any t cursor previous m (p ∷ ps) h a b =
    let (v, row, rest) = >>=-eq-ok (row_value cursor previous p) _ h in
    let checked = row_value-IsRow cursor previous p v row in
    let grown = cover_rows-le p.ends_at (some p.ends_at) (if ltb m v then v else m) ps rest in
    elim (Bool-cases (ltb t p.ends_at)) [
      | inl inside ↦ inl (
        (omega (arith, checked.reached), ground arith),
        (v, checked.priced, ground (arith, grown)),
      )
      | inr beyond ↦ inr (
          cover_rows-Any t p.ends_at (some p.ends_at) (if ltb m v then v else m) ps rest
            (ground arith) b)
    ]

Any-insert_by_start :
    (P : ServicePriceInterval → Type 0) (p : ServicePriceInterval) (qs : List ServicePriceInterval)
    → Any P (insert_by_start p qs)
    → P p ⊎ Any P qs
unfolding insert_by_start
Any-insert_by_start P p [] h = h
Any-insert_by_start P p (q ∷ qs) h = ground (arith, Any-insert_by_start P p qs)

Any-sort_by_start :
    (P : ServicePriceInterval → Type 0) (ps : List ServicePriceInterval)
    → Any P (sort_by_start ps)
    → Any P ps
unfolding sort_by_start
Any-sort_by_start P [] h = h
Any-sort_by_start P (p ∷ ps) h =
    ground (arith, Any-insert_by_start P p (sort_by_start ps) h, Any-sort_by_start P ps)

Any-filter :
    {A : Type 0} (P : A → Type 0) (keep : A → Bool) (xs : List A)
    → Any P (filter keep xs)
    → Any P xs
Any-filter P keep [] h = h
Any-filter P keep (x ∷ xs) h = ground (arith, Any-filter P keep xs)

-- The rows that a successful call has passed, and their maximum.
record IsCoverage (start end : Time) (ps : List ServicePriceInterval) (m : Units)
    (selected : List ServicePriceInterval) : Type 0 where
  from_start : is_zero start ≡ false
  forward : start ≤ end
  well_formed : any is_malformed ps ≡ false
  sorted : selected ≡ sort_by_start (filter (meets start end) ps)
  reach : Time
  run : cover_rows start none 0 selected ≡ ok (reach, m)
  past_end : end < reach

interval_maximum-IsCoverage :
    (start end : Time) (ps : List ServicePriceInterval) (m : Units)
    (selected : List ServicePriceInterval)
    → interval_maximum start end ps ≡ ok (m, selected)
    → IsCoverage start end ps m selected
unfolding interval_maximum
interval_maximum-IsCoverage start end ps m selected h =
    elim (Result-cases (cover_rows start none 0 (sort_by_start (filter (meets start end) ps)))) [
      | inl (e, refused) ↦ absurd (ground arith)
      | inr ((reach, n), run) ↦ record {
        from_start = ground arith;
        forward = ground arith;
        well_formed = ground arith;
        sorted = ground arith;
        reach = reach;
        run = ground arith;
        past_end = ground arith;
      }
    ]

-- A successful call prices every instant of the delivery interval, both ends included, by one of
-- the given intervals, at no more than the maximum that it returns.
pub interval_maximum-PricedAt :
    (start end t : Time) (ps : List ServicePriceInterval) {m : Units}
    {selected : List ServicePriceInterval}
    → interval_maximum start end ps ≡ ok (m, selected)
    → start ≤ t
    → t ≤ end
    → Any (PricedAt t m) ps
interval_maximum-PricedAt start end t ps {m} {selected} h a b =
    let cover = interval_maximum-IsCoverage start end ps m selected h in
    Any-filter (PricedAt t m) (meets start end) ps (
      Any-sort_by_start (PricedAt t m) (filter (meets start end) ps) (
        cover_rows-Any t start none 0 (sort_by_start (filter (meets start end) ps))
          (subst (λ rows. cover_rows start none 0 rows ≡ ok (cover.reach, m)) cover.sorted
            cover.run)
          a (omega (arith, cover.past_end))))

-- The maximum is no overestimate: it is the price of a selected row, or nothing was above zero.
abbrev pub IsPrice : Units → ServicePriceInterval → Type 0
IsPrice m p = amount p.unit_maximum ≡ some m

cover_rows-IsPrice :
    (cursor : Time) (previous : Option Time) (m : Units) (ps : List ServicePriceInterval) {c : Time}
    {n : Units}
    → cover_rows cursor previous m ps ≡ ok (c, n)
    → (n ≡ m) ⊎ Any (IsPrice n) ps
unfolding cover_rows
cover_rows-IsPrice cursor previous m [] h = inl (ground arith)
cover_rows-IsPrice cursor previous m (p ∷ ps) h =
    let (v, row, rest) = >>=-eq-ok (row_value cursor previous p) _ h in
    let priced = (row_value-IsRow cursor previous p v row).priced in
    ground (
      arith,
      priced,
      cover_rows-IsPrice p.ends_at (some p.ends_at) (if ltb m v then v else m) ps rest,
    )

-- Rows that follow one another without a gap or an overlap, from one instant to another.
abbrev pub Chain : Time → List ServicePriceInterval → Time → Type 0
Chain from [] to = from ≡ to
Chain from (p ∷ ps) to = (p.starts_at ≡ from) × Chain p.ends_at ps to

cover_rows-Chain :
    (cursor : Time) (m : Units) (ps : List ServicePriceInterval) {c : Time} {n : Units}
    → cover_rows cursor (some cursor) m ps ≡ ok (c, n)
    → Chain cursor ps c
unfolding cover_rows
cover_rows-Chain cursor m [] h = ground arith
cover_rows-Chain cursor m (p ∷ ps) h =
    let (v, row, rest) = >>=-eq-ok (row_value cursor (some cursor) p) _ h in
    let checked = row_value-IsRow cursor (some cursor) p v row in
    (
      omega (arith, checked.reached, checked.behind cursor refl),
      cover_rows-Chain p.ends_at (if ltb m v then v else m) ps rest,
    )

-- The selected rows reach from the first instant beyond the last, one after another.
abbrev pub Spans : Time → Time → List ServicePriceInterval → Type 0
Spans start end [] = ⊥
Spans start end (p ∷ ps) =
    (p.starts_at ≤ start) × ((to : Time) × Chain p.ends_at ps to × (end < to))

Spans-of_cover :
    (start end : Time) (ps : List ServicePriceInterval) {c : Time} {n : Units}
    → cover_rows start none 0 ps ≡ ok (c, n)
    → start ≤ end
    → end < c
    → Spans start end ps
unfolding cover_rows
Spans-of_cover start end [] h a b = ground arith
Spans-of_cover start end (p ∷ ps) {c} h a b =
    let (v, row, rest) = >>=-eq-ok (row_value start none p) _ h in
    (
      (row_value-IsRow start none p v row).reached,
      (c, cover_rows-Chain p.ends_at (if ltb 0 v then v else 0) ps rest, b),
    )

-- The rows that a successful call returns follow one another without a gap or an overlap from the
-- start of the delivery interval to beyond its end, and the maximum is zero or the price of one.
pub interval_maximum-Spans :
    (start end : Time) (ps : List ServicePriceInterval) {m : Units}
    {selected : List ServicePriceInterval}
    → interval_maximum start end ps ≡ ok (m, selected)
    → Spans start end selected × ((m ≡ 0) ⊎ Any (IsPrice m) selected)
interval_maximum-Spans start end ps {m} {selected} h =
    let cover = interval_maximum-IsCoverage start end ps m selected h in
    (
      Spans-of_cover start end selected cover.run cover.forward cover.past_end,
      cover_rows-IsPrice start none 0 selected cover.run,
    )
