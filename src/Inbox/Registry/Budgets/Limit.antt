-- ===== src/Inbox/Registry/Budgets/Limit.antt =====
-- Reservations stay within the limit of their period.
use whats.Base.{
  find-holds, ◌+◌, ◌≤◌, ◌≡◌, refl, ap, inl, inr, false, ◌∷◌, none, some, ok, arith, find,
  Bool-cases, Option-cases, Result-cases, ◌==◌, nat_eq, nat_beq_iff, string_eq, list_eq,
}
use whats.Inbox.Time.{Time}
use whats.Inbox.Text.{Text}
use whats.Inbox.Amount.{Units, amount}
use whats.Inbox.Store.{Uuid}
use whats.Inbox.Registry.{Registry, Period, Reservation}
use whats.Inbox.Registry.Budgets.{
  check_currency, exposure, is_reservation_of, reserve_new, reserve_budget,
}

-- What a reservation that succeeds does: nothing if it is known, or one more row within the limit.
data Reserved (period intent : Uuid) (value : Units) (r r' : Registry) : Type 0 where
  known :
      (old : Reservation)
      → find (is_reservation_of period intent) r.reservations ≡ some old
      → old.reserved ≡ value
      → r' ≡ r
      → Reserved period intent value r r'
  added :
      (p : Period) (row : Reservation)
      → find (λ q. q.id == period) r.periods ≡ some p
      → find (is_reservation_of period intent) r.reservations ≡ none
      → row.period ≡ p.id
      → row.intent ≡ intent
      → row.reserved ≡ value
      → exposure p.id r.reservations + value ≤ p.hard_limit
      → r' ≡ record r { reservations = row ∷ r.reservations }
      → Reserved period intent value r r'

reserve_budget-Reserved :
    (now : Time) (id period intent : Uuid) (requested currency : Text) (r r' : Registry)
    → reserve_budget now id period intent requested currency r ≡ ok r'
    → (value : Units) × (amount requested ≡ some value) × Reserved period intent value r r'
unfolding reserve_budget reserve_new
reserve_budget-Reserved now id period intent requested currency r r' h =
    elim (Option-cases (amount requested)) [
      | inl malformed ↦ absurd (ground arith)
      | inr (value, parsed) ↦ elim (Result-cases (check_currency currency r)) [
        | inl (e, refused) ↦ absurd (ground arith)
        | inr (_, verified) ↦ elim (Option-cases (find (λ q. q.id == period) r.periods)) [
          | inl absent ↦ absurd (ground arith)
          | inr (p, current) ↦
              elim (Option-cases (find (is_reservation_of period intent) r.reservations)) [
                | inr (old, there) ↦ (value, parsed, known old there (ground arith) (ground arith))
                | inl fresh ↦ (
                  value,
                  parsed,
                  added p
                      record {
                        id = id;
                        period = p.id;
                        intent = intent;
                        reserved = value;
                        currency = currency;
                        released = false;
                      }
                      current fresh refl refl refl (ground arith) (ground arith),
                )
              ]
        ]
      ]
    ]

-- A successful reservation leaves the exposure of every period within its limit, if it was.
pub reserve_budget_le :
    (now : Time) (id period intent other : Uuid) (requested currency : Text) (r r' : Registry)
    (q : Period)
    → reserve_budget now id period intent requested currency r ≡ ok r'
    → find (λ p. p.id == other) r.periods ≡ some q
    → exposure q.id r.reservations ≤ q.hard_limit
    → exposure q.id r'.reservations ≤ q.hard_limit
unfolding exposure
reserve_budget_le now id period intent other requested currency r r' q h named within =
    let (value, parsed, done) =
      reserve_budget-Reserved now id period intent requested currency r r' h in
    elim done [
      | known old there same unchanged ↦ rw unchanged within
      | added p row current fresh a b c fits grown ↦
          let own : p.id ≡ period =
            ground (arith, find-holds (λ x. x.id == period) r.periods current) in
          let mine : q.id ≡ other =
            ground (arith, find-holds (λ x. x.id == other) r.periods named) in
          rw grown (elim (Bool-cases (p.id == q.id)) [
            | inr apart ↦ ground (arith, nat_beq_iff p.id q.id)
            | inl same ↦
                let one : other ≡ period = ground (arith, nat_beq_iff p.id q.id) in
                let equal : p ≡ q = ground (arith, rw one at named) in
                ground (arith, ap (λ x. x.hard_limit) equal, nat_beq_iff p.id q.id)
          ])
    ]
