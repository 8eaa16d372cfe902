-- ===== src/Meta/Process/Facts.antt =====
-- Facts are kept once.
use whats.Base.{
  ◌≡◌, ap, ◌∙◌, inl, inr, ◌≤◌, Bool, true, List, Option, none, some, arith, Option-cases, nat_eq,
  list_eq,
}
use whats.Inbox.Time.{Time}
use whats.Inbox.Text.{Text}
use whats.Inbox.Store.{Uuid}
use whats.Meta.Events.{Fact, FactRow, Ingest, Envelope, EventState}
use whats.Meta.Classify.{classify}
use whats.Meta.Process.{judge, process_one, Run, Statement, claim, Claim, finish}
use whats.Meta.Facts.{store_facts}
use whats.Meta.Facts.Laws.{keys_differ, Stored-cases, store_facts-again, store_facts-keys_differ}

-- A payload whose facts were stored, judged again for any event in one of its first eight
-- attempts, on the facts that are there then, comes to the same state and adds no fact.
pub judge-again :
    (hash : Text → Text) (fails : Fact → Bool) (app : Uuid) (c c' : Claim) (v : Option Envelope)
    (t : Ingest) {state : EventState} {rows : List FactRow}
    → judge hash fails app c (some v) t ≡ (state, none, rows)
    → c'.count ≤ 8
    → judge hash fails app c' (some v) (record t { facts = rows }) ≡ (state, none, rows)
unfolding judge
judge-again hash fails app c c' v t {state} {rows} h few =
    let facts = (classify hash v).0 in
    elim (Stored-cases (store_facts fails app c.event t.wabas t.phones facts t.facts)) [
      | inr (inr (last, done)) ↦
          ground (
            arith,
            store_facts-again fails app c.event c'.event t.wabas t.phones facts t.facts done,
          )
      | inl absent ↦ absurd (ground arith)
      | inr (inl failed) ↦ absurd (ground arith)
    ]

keys_differ-judge :
    (hash : Text → Text) (fails : Fact → Bool) (app : Uuid) (c : Claim)
    (opened : Option (Option Envelope)) (t : Ingest)
    → keys_differ t.facts ≡ true
    → keys_differ (judge hash fails app c opened t).2 ≡ true
unfolding judge
keys_differ-judge hash fails app c none t d = ground arith
keys_differ-judge hash fails app c (some v) t d =
    let facts = (classify hash v).0 in
    elim (Stored-cases (store_facts fails app c.event t.wabas t.phones facts t.facts)) [
      | inr (inr (last, done)) ↦
          ground
            (arith, store_facts-keys_differ fails app c.event t.wabas t.phones facts t.facts done d)
      | inl absent ↦ ground arith
      | inr (inl failed) ↦ ground arith
    ]

finish-keys_differ :
    (hash : Text → Text) (fails : Fact → Bool) (breaks : Statement → Bool) (app : Uuid) (now : Time)
    (c : Claim) (opened : Option (Option Envelope)) (t : Ingest) {t' : Ingest}
    → finish hash fails breaks app now c opened t ≡ some t'
    → keys_differ t.facts ≡ true
    → keys_differ t'.facts ≡ true
unfolding finish
finish-keys_differ hash fails breaks app now c opened t h d =
    ground (arith, keys_differ-judge hash fails app c opened t d)

claim-facts :
    (app : Uuid) (now : Time) (locked : Uuid → Bool) (breaks : Statement → Bool) (lease : Uuid)
    (t : Ingest) {c : Claim} {t' : Ingest}
    → claim app now locked breaks lease t ≡ some (c, t')
    → t'.facts ≡ t.facts
unfolding claim
claim-facts app now locked breaks lease t h = ground arith

-- If no two facts have the same effect key, then so it is after an event was processed.
pub process_one-keys_differ :
    (hash : Text → Text) (app : Uuid) (run : Run) (t : Ingest) {t' : Ingest}
    → process_one hash app run t ≡ some t'
    → keys_differ t.facts ≡ true
    → keys_differ t'.facts ≡ true
unfolding process_one
process_one-keys_differ hash app run t {t'} h d =
    elim (Option-cases (claim app run.started run.locked run.breaks run.lease t)) [
      | inl idle ↦ absurd (ground arith)
      | inr ((c, t1), claimed) ↦
          let same : t1.facts ≡ t.facts =
            claim-facts app run.started run.locked run.breaks run.lease t claimed in
          let d1 : keys_differ t1.facts ≡ true = ap keys_differ same ∙ d in
          finish-keys_differ hash run.fails run.breaks app run.finished c
            (run.open_evidence c.event c.ciphertext) t1 {t' = t'} (ground arith) d1
    ]
