-- ===== src/Meta/Process/Progress.antt =====
-- Runs of `processOne`, backend/internal/meta/processor.go, and the attempts that are left.
use whats.Base.{
  ◌≡◌, refl, sym, ap, ◌∙◌, inl, inr, ◌⊎◌, ◌≤◌, ◌<◌, ◌-◌, ◌+◌, Bool, true, false, List, [], ◌∷◌,
  Option, none, some, arith, Option-cases, find, length, ◌==◌, nat_eq, nat_beq_iff, if◌then◌else◌,
  find-holds,
}
use whats.Inbox.Time.{Time}
use whats.Inbox.Text.{Text}
use whats.Inbox.Events.{◌>>=◌}
use whats.Inbox.Store.{Uuid, update_where}
use whats.Meta.Events.{Envelope, Fact, Ingest, processing, WebhookEvent}
use whats.Meta.Classify.{classify}
use whats.Meta.Process.{
  judge, process_one, Run, Statement, is_free, claim, Claim, finish, leased, settled, event_class,
  facts_of,
}
use whats.Meta.Process.Totals.{
  is_waiting, budget, total, ids_differ, total-update_where, ids_differ-update_where, find-updated,
}

-- What the first transaction leaves: the event is being processed, for one more time.
pub record IsClaimed (c : Claim) (t t' : Ingest) : Type 0 where
  pub event : WebhookEvent
  pub found : find (λ x. x.id == c.event) t'.events ≡ some event
  pub is_counted : event.attempt_count ≡ c.count
  pub is_processing : event.state ≡ processing
  pub is_positive : 0 < c.count
  pub ids : ids_differ t'.events ≡ true
  pub totals : total t'.events + (1 + (8 - (c.count - 1))) ≤ total t.events + (1 + (8 - c.count))

pub claim-IsClaimed :
    (app : Uuid) (now : Time) (locked : Uuid → Bool) (breaks : Statement → Bool) (lease : Uuid)
    (t : Ingest) {c : Claim} {t' : Ingest}
    → claim app now locked breaks lease t ≡ some (c, t')
    → ids_differ t.events ≡ true
    → IsClaimed c t t'
unfolding claim budget
claim-IsClaimed app now locked breaks lease t {c} {t'} h d =
    elim (Option-cases (find (is_free app now locked) t.events)) [
      | inl idle ↦ absurd (ground arith)
      | inr (e, due) ↦
          let count = e.attempt_count + 1 in
          let f = leased now lease count in
          let waits = find-holds (is_free app now locked) t.events due in
          let events : t'.events ≡ update_where (λ x. x.id == e.id) f t.events = ground arith in
          let id : c.event ≡ e.id = ground arith in
          let counted : c.count ≡ count = ground arith in
          let sums = total-update_where (is_free app now locked) f t.events d due in
          record {
            event = f e;
            found =
                rw (id, events)
                  (find-updated (is_free app now locked) f t.events (λ x. refl) due d);
            is_counted = sym counted;
            is_processing = refl;
            is_positive = ground (arith, counted);
            ids = rw events (ids_differ-update_where e.id f t.events (λ x. refl) ∙ d);
            totals = rw (events, counted) (ground (arith, sums, waits));
          }
    ]

pub classify-state :
    (hash : Text → Text) (v : Option Envelope) → is_waiting (classify hash v).1 ≡ false
unfolding classify
classify-state hash v = ground arith

judge-budget :
    (hash : Text → Text) (fails : Fact → Bool) (app : Uuid) (c : Claim)
    (opened : Option (Option Envelope)) (t : Ingest)
    → (is_waiting (judge hash fails app c opened t).0 ≡ false) ⊎ (c.count < 8)
unfolding judge
judge-budget hash fails app c none t = ground arith
judge-budget hash fails app c (some v) t = ground (arith, classify-state hash v)

finish-total :
    (hash : Text → Text) (fails : Fact → Bool) (breaks : Statement → Bool) (app : Uuid) (now : Time)
    (c : Claim) (opened : Option (Option Envelope)) (t0 t : Ingest) {t' : Ingest}
    → IsClaimed c t0 t
    → finish hash fails breaks app now c opened t ≡ some t'
    → (ids_differ t'.events ≡ true) × (total t'.events < total t0.events)
unfolding finish budget
finish-total hash fails breaks app now c opened t0 t {t'} claimed h =
    let e = claimed.event in
    let v = judge hash fails app c opened t in
    let f = settled now c.count v.0 (event_class v.0 (facts_of hash opened)) v.1 in
    let id : e.id ≡ c.event =
      ground (arith, find-holds _ t.events claimed.found, nat_beq_iff e.id c.event) in
    let found = claimed.found in
    let events : t'.events ≡ update_where (λ x. x.id == c.event) f t.events =
      ground (arith, found) in
    let sums = total-update_where (λ x. x.id == c.event) f t.events claimed.ids claimed.found in
    let moved : total t'.events + budget e ≡ total t.events + budget (f e) =
      ap (λ es. total es + budget e) events
      ∙ ap (λ y. total (update_where (λ x. x.id == y) f t.events) + budget e) (sym id)
      ∙ sums in
    let before : budget e ≡ 1 + (8 - c.count) =
      ground (arith, claimed.is_counted, claimed.is_processing) in
    let after : budget (f e) ≡ (if is_waiting v.0 then 1 + (8 - c.count) else 0) =
      ground (arith, claimed.is_counted) in
    (
      rw events (ids_differ-update_where c.event f t.events (λ x. refl) ∙ claimed.ids),
      ground (
        arith,
        moved,
        before,
        after,
        claimed.totals,
        claimed.is_positive,
        judge-budget hash fails app c opened t,
      ),
    )

process_one-total :
    (hash : Text → Text) (app : Uuid) (run : Run) (t : Ingest) {t' : Ingest}
    → process_one hash app run t ≡ some t'
    → ids_differ t.events ≡ true
    → (ids_differ t'.events ≡ true) × (total t'.events < total t.events)
unfolding process_one
process_one-total hash app run t {t'} h d =
    elim (Option-cases (claim app run.started run.locked run.breaks run.lease t)) [
      | inl idle ↦ absurd (ground arith)
      | inr ((c, t1), claimed) ↦
          finish-total hash run.fails run.breaks app run.finished c
            (run.open_evidence c.event c.ciphertext) t t1 {t' = t'}
            (claim-IsClaimed app run.started run.locked run.breaks run.lease t claimed d)
            (ground arith)
    ]

-- Runs of the worker, one after the other.
unfoldable pub process_all : (Text → Text) → Uuid → List Run → Ingest → Option Ingest
process_all hash app [] t = some t
process_all hash app (run ∷ runs) t =
    process_one hash app run t >>= λ t'. process_all hash app runs t'

-- If the events have different identifiers, runs of the worker that all succeed are no more than
-- the budgets of the events together, less what is left of them: nine less the attempts made,
-- and at least one, for each event that waits.
pub process_all-total :
    (hash : Text → Text) (app : Uuid) (runs : List Run) (t : Ingest) {t' : Ingest}
    → process_all hash app runs t ≡ some t'
    → ids_differ t.events ≡ true
    → length runs + total t'.events ≤ total t.events
unfolding process_all
process_all-total hash app [] t h d = ground arith
process_all-total hash app (run ∷ runs) t {t'} h d =
    elim (Option-cases (process_one hash app run t)) [
      | inl stopped ↦ absurd (ground arith)
      | inr (t1, first) ↦
          let (d1, less) = process_one-total hash app run t first d in
          let rest = process_all-total hash app runs t1 {t' = t'} (ground arith) d1 in
          ground (arith, less, rest)
    ]
