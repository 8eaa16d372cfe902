-- ===== src/Meta/Process.antt =====
-- `processOne` of backend/internal/meta/processor.go and `backoff` of sync.go: one transaction leases
-- the first event that is due, a second one records its facts and its state.
pub mod Facts
pub mod Totals
pub mod Progress
pub mod Attempts
use whats.Base.{
  ℕ, ◌+◌, ◌*◌, ◌^◌, min, String, Bool, true, false, not, ◌&&◌, ◌||◌, List, [], ◌∷◌, Option, none,
  some, ltb, leb, length, any, all, find, holds, is_none, ◌==◌, nat_eq, list_eq, if◌then◌else◌,
}
use whats.Inbox.Time.{Time, Duration, second, minute}
use whats.Inbox.Text.{Text}
use whats.Inbox.Events.{◌>>=◌}
use whats.Inbox.Store.{Uuid, Waba, Phone, update_where}
use whats.Meta.Events.{
  Envelope, Class, messaging_class, asset_class, inbound_class, status_class, unknown_class, Fact,
  FactRow, Attempt, EventState, queued, processing, retry_wait, processed, unknown, invalid,
  quarantined, dead_letter, EventCode, evidence_unavailable, attempts_exhausted,
  asset_binding_mismatch, internal_processing, invalid_event, EventClass, mixed, of_class, of_state,
  WebhookEvent, Ingest, of_event,
}
use whats.Meta.Classify.{classify}
use whats.Meta.Facts.{Stored, stored, unbound, broken, store_facts}

-- `backoff`
unfoldable pub backoff : ℕ → Duration
backoff count = 2 ^ min count 8 * second

abbrev pub is_due : Uuid → Time → WebhookEvent → Bool
is_due app now e = e.app == app && elim e.state [
  | queued ↦ leb e.next_attempt_at now
  | retry_wait ↦ leb e.next_attempt_at now
  | processing ↦ ltb e.lease_until now
  | _ ↦ false
]

-- `FOR UPDATE SKIP LOCKED`: rows that another transaction has locked are passed over.
abbrev pub is_free : Uuid → Time → (Uuid → Bool) → WebhookEvent → Bool
is_free app now locked e = is_due app now e && not (locked e.id)

-- The statements of a run, besides those on facts, that end it with an error when they fail: the update
-- of the claim, begin and commit of the savepoint, the three writes of the second transaction, and the
-- commits.
pub data Statement : Type 0 where
  lease_event commit_claim begin_work commit_work insert_attempt update_event insert_audit :
      Statement
  commit_finish : Statement

-- What the first transaction hands on: `id`, `raw_ciphertext`, `generation`, and the attempt.
pub record Claim : Type 0 where
  pub event : Uuid
  pub ciphertext : Text
  pub generation : ℕ
  pub count : ℕ
  pub lease : Uuid

abbrev pub leased : Time → Uuid → ℕ → WebhookEvent → WebhookEvent
leased now lease count e = record e {
  state = processing;
  attempt_count = count;
  lease = some lease;
  lease_until = now + minute;
}

unfoldable pub claim :
    Uuid → Time → (Uuid → Bool) → (Statement → Bool) → Uuid → Ingest → Option (Claim × Ingest)
claim app now locked breaks lease t = find (is_free app now locked) t.events >>= λ e.
    let count = e.attempt_count + 1 in
    if breaks lease_event || breaks commit_claim
    then none
    else some (
      record {
        event = e.id;
        ciphertext = e.ciphertext;
        generation = e.generation;
        count = count;
        lease = lease;
      },
      record t { events = update_where (λ x. x.id == e.id) (leased now lease count) t.events },
    )

abbrev pub same_class : Class → Class → Bool
same_class messaging_class d = elim d [ messaging_class ↦ true | _ ↦ false ]
same_class asset_class d = elim d [ asset_class ↦ true | _ ↦ false ]
same_class inbound_class d = elim d [ inbound_class ↦ true | _ ↦ false ]
same_class status_class d = elim d [ status_class ↦ true | _ ↦ false ]
same_class unknown_class d = elim d [ unknown_class ↦ true | _ ↦ false ]

unfoldable pub event_class : EventState → List Fact → EventClass
event_class processed [] = mixed
event_class processed (f ∷ fs) =
    if all (λ g. same_class g.class f.class) fs then of_class f.class else mixed
event_class state facts = of_state state

-- What an attempt comes to: the state, the error code, and the facts of the organization.
abbrev pub Verdict : Type 0
Verdict = EventState × Option EventCode × List FactRow

abbrev pub verdict_of : ℕ → EventState → List FactRow → Stored → Verdict
verdict_of count state rows (stored rows') = (state, none, rows')
verdict_of count state rows unbound = (quarantined, some asset_binding_mismatch, rows)
verdict_of count state rows broken =
    (if leb 8 count then dead_letter else retry_wait, some internal_processing, rows)

-- The state by classification, decryption and the number of attempts, and for an event that is
-- understood the facts it adds. `opened` is `none` if the evidence cannot be decrypted.
unfoldable pub judge :
    (Text → Text) → (Fact → Bool) → Uuid → Claim → Option (Option Envelope) → Ingest → Verdict
judge hash fails app c opened t =
    if ltb 8 c.count then (dead_letter, some attempts_exhausted, t.facts) else elim opened [
      | none ↦ (dead_letter, some evidence_unavailable, t.facts)
      | some v ↦
          let (facts, state) = classify hash v in
          elim state [
            | processed ↦
                verdict_of c.count processed t.facts
                  (store_facts fails app c.event t.wabas t.phones facts t.facts)
            | unknown ↦
                verdict_of c.count unknown t.facts
                  (store_facts fails app c.event t.wabas t.phones facts t.facts)
            | other ↦ (other, some invalid_event, t.facts)
          ]
    ]

abbrev pub facts_of : (Text → Text) → Option (Option Envelope) → List Fact
facts_of hash opened = elim opened [ none ↦ [] | some v ↦ (classify hash v).0 ]

abbrev pub settled :
    Time → ℕ → EventState → EventClass → Option EventCode → WebhookEvent → WebhookEvent
settled now count state class code e = record e {
  state = state;
  class = class;
  last_error = code;
  next_attempt_at = now + backoff count;
  lease = none;
  lease_until = 0;
}

-- `lease_token=$2 AND lease_until>now()`
abbrev pub holds_lease : Time → Claim → WebhookEvent → Bool
holds_lease now c e = holds e.lease c.lease && ltb now e.lease_until

-- Facts are stored in a savepoint, which is committed unless one of them fails.
abbrev pub has_work : Option EventCode → Bool
has_work code = elim code [
  | none ↦ true
  | some c ↦ elim c [ asset_binding_mismatch ↦ true | internal_processing ↦ true | _ ↦ false ]
]

abbrev pub is_broken : (Statement → Bool) → Option EventCode → Bool
is_broken breaks code =
    (has_work code && breaks begin_work)
    || (is_none code && breaks commit_work)
    || breaks insert_attempt
    || breaks update_event
    || breaks insert_audit
    || breaks commit_finish

-- The second transaction. `none`: the lease is lost, the attempt is recorded already, or a statement
-- fails, and nothing changes.
unfoldable pub finish :
    (Text → Text)
    → (Fact → Bool)
    → (Statement → Bool)
    → Uuid
    → Time
    → Claim
    → Option (Option Envelope)
    → Ingest
    → Option Ingest
finish hash fails breaks app now c opened t = find (λ e. e.id == c.event) t.events >>= λ e.
    if not (holds_lease now c e)
      || any (λ a. a.event == c.event && a.generation == c.generation && a.attempt_no == c.count)
          t.attempts
    then none
    else (let v = judge hash fails app c opened t in
        let class = event_class v.0 (facts_of hash opened) in
        if is_broken breaks v.1
        then none
        else some record t {
          events = update_where (λ x. x.id == c.event) (settled now c.count v.0 class v.1) t.events;
          facts = v.2;
          attempts =
              record {
                event = c.event;
                generation = c.generation;
                attempt_no = c.count;
                result = v.0;
                code = v.1;
              }
              ∷ t.attempts;
          audited = (of_event v.0, c.event) ∷ t.audited;
        })

-- What one run of the worker meets: the times of its transactions, the rows that are locked when it
-- chooses, a new lease, the decryption and decoding of a ciphertext, and the statements that fail.
pub record Run : Type 0 where
  pub started : Time
  pub finished : Time
  pub locked : Uuid → Bool
  pub lease : Uuid
  pub open_evidence : Uuid → Text → Option (Option Envelope)
  pub fails : Fact → Bool
  pub breaks : Statement → Bool

-- `processOne`
unfoldable pub process_one : (Text → Text) → Uuid → Run → Ingest → Option Ingest
process_one hash app run t = claim app run.started run.locked run.breaks run.lease t >>= λ (c, t').
    finish hash run.fails run.breaks app run.finished c (run.open_evidence c.event c.ciphertext) t'

-- `POST /meta/webhook-events/{id}/replay`, the changes: an event that is settled, not in quarantine and
-- still kept is queued again under a new generation. `none` is an error; the flag is `retained`.
abbrev pub is_settled : EventState → Bool
is_settled state = elim state [
  | processed ↦ true
  | unknown ↦ true
  | invalid ↦ true
  | dead_letter ↦ true
  | _ ↦ false
]

unfoldable pub replay : Time → Bool → Uuid → Ingest → Option Ingest
replay now retained id t = find (λ e. e.id == id) t.events >>= λ e.
    if not retained || not (is_settled e.state)
    then none
    else some record t {
      events =
          update_where (λ x. x.id == id)
            (λ x. record x {
              state = queued;
              generation = e.generation + 1;
              attempt_count = 0;
              next_attempt_at = now;
              lease = none;
              lease_until = 0;
              last_error = none;
            })
            t.events;
    }
