-- ===== src/Meta/Process/Attempts.antt =====
-- One run of the worker that processes posted events, and the event that it takes.
use whats.Base.{
  ◌≡◌, refl, sym, ◌∙◌, inl, inr, ◌⊎◌, ◌<◌, ◌+◌, Bool, true, false, not, ◌&&◌, ◌||◌, List, [], ◌∷◌,
  Option, none, some, arith, Option-cases, any, all, leb, is_some, find, ◌==◌, nat_eq, nat_beq_iff,
  find-holds,
}
use whats.Inbox.Time.{Time, minute}
use whats.Inbox.Text.{Text}
use whats.Inbox.Store.{Uuid, update_where}
use whats.Meta.Events.{Envelope, Fact, Ingest, retry_wait, WebhookEvent, Attempt}
use whats.Meta.Process.{
  judge, process_one, Run, Statement, lease_event, commit_claim, begin_work, commit_work,
  insert_attempt, update_event, insert_audit, commit_finish, is_due, is_free, claim, Claim, finish,
  leased, settled, event_class, facts_of,
}
use whats.Meta.Process.Totals.{is_waiting, ids_differ, find-updated}
use whats.Meta.Process.Progress.{IsClaimed, claim-IsClaimed, classify-state}

-- No attempt of the event's generation is recorded beyond those that are counted.
abbrev pub is_counted : WebhookEvent → Attempt → Bool
is_counted e a =
    not (a.event == e.id && a.generation == e.generation) || leb a.attempt_no e.attempt_count

unrecorded :
    (e : WebhookEvent) (rows : List Attempt)
    → all (is_counted e) rows ≡ true
    → any
        (λ a.
          a.event == e.id && a.generation == e.generation && a.attempt_no == e.attempt_count + 1)
        rows
      ≡ false
unrecorded e [] h = refl
unrecorded e (a ∷ rows) h = ground (arith, unrecorded e rows (ground arith))

process_one-is_some :
    (hash : Text → Text) (app : Uuid) (run : Run) (t : Ingest) (e : WebhookEvent)
    → ids_differ t.events ≡ true
    → find (is_free app run.started run.locked) t.events ≡ some e
    → all (is_counted e) t.attempts ≡ true
    → run.finished < run.started + minute
    → ((s : Statement) → run.breaks s ≡ false)
    → is_some (process_one hash app run t) ≡ true
unfolding process_one claim finish
process_one-is_some hash app run t e d due counted soon fine =
    let f = leased run.started run.lease (e.attempt_count + 1) in
    let found = find-updated (is_free app run.started run.locked) f t.events (λ x. refl) due d in
    let free = unrecorded e t.attempts counted in
    ground (
      arith,
      due,
      found,
      free,
      nat_beq_iff run.lease run.lease,
      fine lease_event,
      fine commit_claim,
      fine begin_work,
      fine commit_work,
      fine insert_attempt,
      fine update_event,
      fine insert_audit,
      fine commit_finish,
    )

-- An attempt was made for the event: it counts one attempt more, no worker has it, it is final or
-- tried again for less than eight attempts, and its attempt is recorded with the state.
pub record IsAttempted (e : WebhookEvent) (t' : Ingest) : Type 0 where
  pub event : WebhookEvent
  pub is_there : find (λ x. x.id == e.id) t'.events ≡ some event
  pub is_counted_up : event.attempt_count ≡ e.attempt_count + 1
  pub is_released : event.lease ≡ none
  pub is_decided :
      (is_waiting event.state ≡ false) ⊎ ((event.state ≡ retry_wait) × (e.attempt_count + 1 < 8))
  pub attempt : Attempt
  pub earlier : List Attempt
  pub is_recorded : t'.attempts ≡ attempt ∷ earlier
  pub is_attempt :
      (attempt.event ≡ e.id)
      × (attempt.generation ≡ e.generation)
      × (attempt.attempt_no ≡ e.attempt_count + 1)
      × (attempt.result ≡ event.state)

judge-decided :
    (hash : Text → Text) (fails : Fact → Bool) (app : Uuid) (c : Claim)
    (opened : Option (Option Envelope)) (t : Ingest)
    → (is_waiting (judge hash fails app c opened t).0 ≡ false)
      ⊎ (((judge hash fails app c opened t).0 ≡ retry_wait) × (c.count < 8))
unfolding judge
judge-decided hash fails app c none t = ground arith
judge-decided hash fails app c (some v) t = ground (arith, classify-state hash v)

claim-claimed :
    (app : Uuid) (now : Time) (locked : Uuid → Bool) (breaks : Statement → Bool) (lease : Uuid)
    (t : Ingest) (e : WebhookEvent) {c : Claim} {t' : Ingest}
    → claim app now locked breaks lease t ≡ some (c, t')
    → find (is_free app now locked) t.events ≡ some e
    → (c.event ≡ e.id) × (c.generation ≡ e.generation) × (c.count ≡ e.attempt_count + 1)
unfolding claim
claim-claimed app now locked breaks lease t e h due = ground arith

finish-IsAttempted :
    (hash : Text → Text) (fails : Fact → Bool) (breaks : Statement → Bool) (app : Uuid) (now : Time)
    (c : Claim) (opened : Option (Option Envelope)) (t0 t : Ingest) (e : WebhookEvent) {t' : Ingest}
    → IsClaimed c t0 t
    → finish hash fails breaks app now c opened t ≡ some t'
    → (c.event ≡ e.id) × (c.generation ≡ e.generation) × (c.count ≡ e.attempt_count + 1)
    → IsAttempted e t'
unfolding finish
finish-IsAttempted hash fails breaks app now c opened t0 t e {t'} claimed h
      (id, generation, count) =
    let row = claimed.event in
    let v = judge hash fails app c opened t in
    let f = settled now c.count v.0 (event_class v.0 (facts_of hash opened)) v.1 in
    let found = claimed.found in
    let events : t'.events ≡ update_where (λ x. x.id == c.event) f t.events =
      ground (arith, found) in
    let same : row.id ≡ c.event =
      ground (arith, find-holds _ t.events found, nat_beq_iff row.id c.event) in
    let there = find-updated (λ x. x.id == c.event) f t.events (λ x. refl) found claimed.ids in
    record {
      event = f row;
      is_there = rw (events, sym id, sym same) (rw (sym same) at there);
      is_counted_up = claimed.is_counted ∙ count;
      is_released = refl;
      is_decided = rw (sym count) (judge-decided hash fails app c opened t);
      attempt = record {
        event = c.event;
        generation = c.generation;
        attempt_no = c.count;
        result = v.0;
        code = v.1;
      };
      earlier = t.attempts;
      is_recorded = ground (arith, found);
      is_attempt = (id, generation, count, refl);
    }

-- If the events have different identifiers, one is the first that is due and not locked, no
-- attempt of it beyond those it counts is recorded, the run ends within a minute of its start,
-- and no statement fails other than those on facts, then processing succeeds, whatever the
-- payload is and whichever statements on facts fail: the event counts one attempt more, no
-- worker has it, it is final or, for fewer than eight attempts, to be tried again, and the
-- attempt is recorded with its state.
pub process_one-IsAttempted :
    (hash : Text → Text) (app : Uuid) (run : Run) (t : Ingest) (e : WebhookEvent)
    → ids_differ t.events ≡ true
    → find (λ x. is_due app run.started x && not (run.locked x.id)) t.events ≡ some e
    → all (is_counted e) t.attempts ≡ true
    → run.finished < run.started + minute
    → ((s : Statement) → run.breaks s ≡ false)
    → (t' : Ingest) × (process_one hash app run t ≡ some t') × IsAttempted e t'
unfolding process_one
process_one-IsAttempted hash app run t e d due counted soon fine =
    let done = process_one-is_some hash app run t e d due counted soon fine in
    elim (Option-cases (claim app run.started run.locked run.breaks run.lease t)) [
      | inl idle ↦ absurd (ground arith)
      | inr ((c, t1), claimed) ↦
          let opened = run.open_evidence c.event c.ciphertext in
          elim (Option-cases (finish hash run.fails run.breaks app run.finished c opened t1)) [
            | inl lost ↦ absurd (ground arith)
            | inr (t', finished) ↦
                let is : process_one hash app run t ≡ some t' = ground arith in
                (
                  t',
                  is,
                  finish-IsAttempted hash run.fails run.breaks app run.finished c opened t t1 e
                      (claim-IsClaimed app run.started run.locked run.breaks run.lease t claimed d)
                      finished
                      (claim-claimed app run.started run.locked run.breaks run.lease t e claimed
                        due),
                )
          ]
    ]
