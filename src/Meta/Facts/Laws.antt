-- ===== src/Meta/Facts/Laws.antt =====
-- A fact that is stored stays, and storing it again changes nothing.
use whats.Base.{
  ◌≡◌, refl, inl, inr, ◌⊎◌, Bool, true, not, ◌&&◌, List, [], ◌∷◌, arith, any, ◌==◌, nat_eq, list_eq,
  list_beq_iff,
}
use whats.Inbox.Store.{Uuid, Waba, Phone}
use whats.Meta.Events.{Fact, FactRow}
use whats.Meta.Facts.{store_fact, store_facts, Stored, stored, unbound, broken}

abbrev pub has_fact : List FactRow → Fact → Bool
has_fact rows f = any (λ r. r.effect_key == f.key) rows

abbrev pub keys_differ : List FactRow → Bool
keys_differ [] = true
keys_differ (r ∷ rs) = not (any (λ s. s.effect_key == r.effect_key) rs) && keys_differ rs

abbrev pub all_present : List FactRow → List Fact → Bool
all_present rows [] = true
all_present rows (f ∷ fs) = has_fact rows f && all_present rows fs

-- Storing a fact keeps what is there.
pub store_fact-has_fact :
    (fails : Fact → Bool) (app event : Uuid) (ws : List Waba) (ps : List Phone) (f g : Fact)
    (rows : List FactRow) {rows' : List FactRow}
    → store_fact fails app event ws ps f rows ≡ stored rows'
    → has_fact rows g ≡ true
    → has_fact rows' g ≡ true
unfolding store_fact
store_fact-has_fact fails app event ws ps f g rows h present = ground arith

store_fact-present :
    (fails : Fact → Bool) (app event : Uuid) (ws : List Waba) (ps : List Phone) (f : Fact)
    (rows : List FactRow) {rows' : List FactRow}
    → store_fact fails app event ws ps f rows ≡ stored rows'
    → has_fact rows' f ≡ true
unfolding store_fact
store_fact-present fails app event ws ps f rows h = ground (arith, list_beq_iff f.key f.key)

store_fact-keys_differ :
    (fails : Fact → Bool) (app event : Uuid) (ws : List Waba) (ps : List Phone) (f : Fact)
    (rows : List FactRow) {rows' : List FactRow}
    → store_fact fails app event ws ps f rows ≡ stored rows'
    → keys_differ rows ≡ true
    → keys_differ rows' ≡ true
unfolding store_fact
store_fact-keys_differ fails app event ws ps f rows h d = ground arith

pub Stored-cases :
    (s : Stored) → (s ≡ unbound) ⊎ (s ≡ broken) ⊎ ((rows : List FactRow) × (s ≡ stored rows))
Stored-cases unbound = inl refl
Stored-cases broken = inr (inl refl)
Stored-cases (stored rows) = inr (inr (rows, refl))

-- What a loop that has come to its end went through.
store_facts-cons :
    (fails : Fact → Bool) (app event : Uuid) (ws : List Waba) (ps : List Phone) (f : Fact)
    (fs : List Fact) (rows : List FactRow) {rows' : List FactRow}
    → store_facts fails app event ws ps (f ∷ fs) rows ≡ stored rows'
    → (mid : List FactRow) × (store_fact fails app event ws ps f rows ≡ stored mid)
      × (store_facts fails app event ws ps fs mid ≡ stored rows')
unfolding store_facts
store_facts-cons fails app event ws ps f fs rows h =
    elim (Stored-cases (store_fact fails app event ws ps f rows)) [
      | inl absent ↦ absurd (ground arith)
      | inr (inl failed) ↦ absurd (ground arith)
      | inr (inr (mid, first)) ↦ (mid, first, rw (store_facts, first) at h)
    ]

store_facts-has_fact :
    (fails : Fact → Bool) (app event : Uuid) (ws : List Waba) (ps : List Phone) (fs : List Fact)
    (g : Fact) (rows : List FactRow) {rows' : List FactRow}
    → store_facts fails app event ws ps fs rows ≡ stored rows'
    → has_fact rows g ≡ true
    → has_fact rows' g ≡ true
unfolding store_facts
store_facts-has_fact fails app event ws ps [] g rows h present = ground arith
store_facts-has_fact fails app event ws ps (f ∷ fs) g rows h present =
    let (mid, first, rest) = store_facts-cons fails app event ws ps f fs rows h in
    store_facts-has_fact fails app event ws ps fs g mid rest
      (store_fact-has_fact fails app event ws ps f g rows first present)

-- A fact whose key is there already changes nothing.
store_fact-again :
    (fails : Fact → Bool) (app event event' : Uuid) (ws : List Waba) (ps : List Phone) (f : Fact)
    (rows other : List FactRow) {mid : List FactRow}
    → store_fact fails app event ws ps f rows ≡ stored mid
    → has_fact other f ≡ true
    → store_fact fails app event' ws ps f other ≡ stored other
unfolding store_fact
store_fact-again fails app event event' ws ps f rows other h present = ground arith

pub store_facts-again :
    (fails : Fact → Bool) (app event event' : Uuid) (ws : List Waba) (ps : List Phone)
    (fs : List Fact) (rows : List FactRow) {last : List FactRow}
    → store_facts fails app event ws ps fs rows ≡ stored last
    → store_facts fails app event' ws ps fs last ≡ stored last
unfolding store_facts
store_facts-again fails app event event' ws ps [] rows h = refl
store_facts-again fails app event event' ws ps (f ∷ fs) rows {last} h =
    let (mid, first, rest) = store_facts-cons fails app event ws ps f fs rows h in
    let kept =
      store_facts-has_fact fails app event ws ps fs f mid rest
        (store_fact-present fails app event ws ps f rows first) in
    rw (store_facts, store_fact-again fails app event event' ws ps f rows last first kept)
      (store_facts-again fails app event event' ws ps fs mid rest)

pub store_facts-keys_differ :
    (fails : Fact → Bool) (app event : Uuid) (ws : List Waba) (ps : List Phone) (fs : List Fact)
    (rows : List FactRow) {rows' : List FactRow}
    → store_facts fails app event ws ps fs rows ≡ stored rows'
    → keys_differ rows ≡ true
    → keys_differ rows' ≡ true
unfolding store_facts
store_facts-keys_differ fails app event ws ps [] rows h d = ground arith
store_facts-keys_differ fails app event ws ps (f ∷ fs) rows h d =
    let (mid, first, rest) = store_facts-cons fails app event ws ps f fs rows h in
    store_facts-keys_differ fails app event ws ps fs mid rest
      (store_fact-keys_differ fails app event ws ps f rows first d)
