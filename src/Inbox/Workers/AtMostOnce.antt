-- ===== src/Inbox/Workers/AtMostOnce.antt =====
-- However the workers interleave, fail and are recovered, a phone sends at most one message.
use whats.Base.{
  ℕ, ◌+◌, ◌≤◌, ◌≡◌, refl, ap, ◌∙◌, ◌≢◌, ◌⊎◌, inl, inr, Bool, true, false, List, [], ◌∷◌, Option,
  none, some, arith, ◌==◌, nat_eq, if◌then◌else◌, String, ◌||◌,
}
use whats.Inbox.Time.{Time}
use whats.Inbox.Text.{Text}
use whats.Inbox.Store.{Uuid, Db, audit}
use whats.Inbox.Evaluation.{LiveConfig, Scope}
use whats.Inbox.Dispatch.{Job, claim, start_dispatch, has_slot}
use whats.Inbox.Outcome.{SendOutcome, finish, recover}
use whats.Inbox.Workers.{
  Phase, idle, claimed, granted, answered, World, set_phase, after_authorize, Step, claims,
  authorizes, sends, finishes, recovers, stops, other, Reach, here, next,
}
use whats.Inbox.Workers.Frames.{
  finish-Leaves, recover-Leaves, block-Leaves, Authorized, untouched, refused, started,
  authorize-Authorized,
}

-- The phone for which a worker is about to send.
abbrev pub sender : Phase → Option Uuid
sender idle = none
sender (claimed _) = none
sender (granted job _) = some job.phone
sender (answered _ _) = none

abbrev pub sends_of : Uuid → List (Uuid × Uuid) → ℕ
sends_of p [] = 0
sends_of p ((q, _) ∷ l) = (if q == p then 1 else 0) + sends_of p l

-- A phone for which a worker is about to send has its slot, no request yet and no other worker; a
-- phone that has sent has its slot; none has sent twice.
pub record IsExclusive (s : World) : Type 0 where
  pub slot_held : (w : ℕ) (p : Uuid) → sender (s.phase w) ≡ some p → has_slot p s.db.slots ≡ true
  pub unsent : (w : ℕ) (p : Uuid) → sender (s.phase w) ≡ some p → sends_of p s.sent ≡ 0
  pub alone :
      (w v : ℕ) (p : Uuid) → sender (s.phase w) ≡ some p → sender (s.phase v) ≡ some p → w ≡ v
  pub slot_kept : (p : Uuid) → has_slot p s.db.slots ≡ false → sends_of p s.sent ≡ 0
  pub once : (p : Uuid) → sends_of p s.sent ≤ 1

claim-slots :
    (locked : Uuid → Bool) (now : Time) (lease : Uuid) (db db' : Db) (job : Job)
    → claim locked now lease db ≡ some (db', job)
    → db'.slots ≡ db.slots
unfolding claim
claim-slots locked now lease db db' job h = ground arith

finish-slots :
    (now : Time) (job : Job) (o : SendOutcome) (db : Db) → (finish now job o db).slots ≡ db.slots
finish-slots now job o db = elim (finish-Leaves now job o db) [
  | inl same ↦ ap (λ d. d.slots) same
  | inr leaves ↦ leaves.slots
]

-- A step that grants nothing, sends nothing and keeps the slots.
module _ (s : World) (db : Db) (w : ℕ) (p : Phase) (kept : db.slots ≡ s.db.slots)
    (quiet : sender p ≡ none) where
  quiet_step : World
  quiet_step = record s { db = db; phase = set_phase s.phase w p }

  sender_before :
      (v : ℕ) (q : Uuid) → sender (set_phase s.phase w p v) ≡ some q → sender (s.phase v) ≡ some q
  sender_before v q h = ground arith

  quiet-IsExclusive : IsExclusive s → IsExclusive quiet_step
  unfolding quiet_step
  quiet-IsExclusive e = record {
    slot_held = λ v q h. rw kept (e.slot_held v q (sender_before v q h));
    unsent = λ v q h. e.unsent v q (sender_before v q h);
    alone = λ v u q h k. e.alone v u q (sender_before v q h) (sender_before u q k);
    slot_kept = λ q h. e.slot_kept q (rw kept at h);
    once = e.once;
  }

-- The phone had no slot, so that no request was sent for it and no worker is about to.
module _ (s : World) (db : Db) (w : ℕ) (job : Job) (to : Text × Text)
    (free : has_slot job.phone s.db.slots ≡ false)
    (taken : (p : Uuid) → has_slot p db.slots ≡ (job.phone == p || has_slot p s.db.slots)) where
  granting : World
  granting = record s { db = db; phase = set_phase s.phase w (granted job to) }

  sender_after :
      (v : ℕ) (q : Uuid)
      → sender (set_phase s.phase w (granted job to) v) ≡ some q
      → ((w ≡ v) × (q ≡ job.phone)) ⊎ (sender (s.phase v) ≡ some q)
  sender_after v q h = ground arith

  granting-IsExclusive : IsExclusive s → IsExclusive granting
  unfolding granting
  granting-IsExclusive e = record {
    slot_held = λ v q h. ground (arith, taken q, sender_after v q h, e.slot_held v q);
    unsent = λ v q h. elim (sender_after v q h) [
      | inl (_, here_) ↦ rw here_ (e.slot_kept job.phone free)
      | inr before ↦ e.unsent v q before
    ];
    alone = λ v u q h k. ground (
      arith,
      sender_after v q h,
      sender_after u q k,
      e.slot_held v q,
      e.slot_held u q,
      e.alone v u q,
    );
    slot_kept = λ q h. e.slot_kept q (ground (arith, taken q));
    once = e.once;
  }

-- The only worker for its phone sends, and is no longer about to.
module _ (s : World) (w : ℕ) (job : Job) (to : Text × Text) (o : SendOutcome)
    (ready : s.phase w ≡ granted job to) where
  sending : World
  sending = record s {
    phase = set_phase s.phase w (answered job o);
    sent = (job.phone, job.intent) ∷ s.sent;
  }

  other_sender :
      (v : ℕ) (q : Uuid)
      → sender (set_phase s.phase w (answered job o) v) ≡ some q
      → (w ≢ v) × (sender (s.phase v) ≡ some q)
  other_sender v q h = ground arith

  sending-IsExclusive : IsExclusive s → IsExclusive sending
  unfolding sending
  sending-IsExclusive e =
      let mine : sender (s.phase w) ≡ some job.phone = rw ready in
      record {
        slot_held = λ v q h. e.slot_held v q (other_sender v q h).1;
        unsent = λ v q h. ground (arith, other_sender v q h, e.unsent v q, e.alone w v q);
        alone = λ v u q h k. e.alone v u q (other_sender v q h).1 (other_sender u q k).1;
        slot_kept = λ q h. ground (arith, e.slot_held w job.phone mine, e.slot_kept q h);
        once = λ q. ground (arith, e.unsent w job.phone mine, e.once q);
      }

db_step-IsExclusive :
    (s : World) (db : Db)
    → db.slots ≡ s.db.slots
    → IsExclusive s
    → IsExclusive (record s { db = db })
db_step-IsExclusive s db kept e = record {
  slot_held = λ v q h. rw kept (e.slot_held v q h);
  unsent = e.unsent;
  alone = e.alone;
  slot_kept = λ q h. e.slot_kept q (rw kept at h);
  once = e.once;
}

start_dispatch-taken :
    (now : Time) (user : Uuid) (job : Job) (db : Db) (p : Uuid)
    → has_slot p (start_dispatch now user job db).slots ≡ (job.phone == p || has_slot p db.slots)
unfolding start_dispatch audit
start_dispatch-taken now user job db p = refl

Authorized-IsExclusive :
    (s : World) (w : ℕ) (now : Time) (job : Job) (db : Db) (target : Option (Text × Text))
    → Authorized now job s.db db target
    → IsExclusive s
    → IsExclusive (record s { db = db; phase = set_phase s.phase w (after_authorize job target) })
unfolding quiet_step granting
Authorized-IsExclusive s w now job db target (untouched same none_) e =
    rw none_ (quiet-IsExclusive s db w idle (ap (λ d. d.slots) same) refl e)
Authorized-IsExclusive s w now job db target (refused code held blocked none_) e = rw none_ (
    quiet-IsExclusive s db w idle (ap (λ d. d.slots) blocked ∙ (block-Leaves code job s.db).slots)
      refl e)
Authorized-IsExclusive s w now job db target (started user to held free begun some_) e = rw some_ (
    granting-IsExclusive s db w job to free
      (λ p. ap (λ d. has_slot p d.slots) begun ∙ start_dispatch-taken now user job s.db p) e)

module _ (live : LiveConfig) (org : Uuid) (hash_scope : Scope → String) where
  Step-IsExclusive : {s t : World} → Step live org hash_scope s t → IsExclusive s → IsExclusive t
  unfolding quiet_step sending
  Step-IsExclusive {s} (claims w locked now lease db job at_rest run e) x =
      rw e (
        quiet-IsExclusive s db w (claimed job) (claim-slots locked now lease s.db db job run) refl
          x)
  Step-IsExclusive {s} (authorizes w access now job db target at_job run e) x = rw e (
      Authorized-IsExclusive s w now job db target
        (authorize-Authorized access live org hash_scope now job s.db db target run) x)
  Step-IsExclusive {s} (sends w job target outcome at_grant e) x =
      rw e (sending-IsExclusive s w job target outcome at_grant x)
  Step-IsExclusive {s} (finishes w now job outcome at_answer e) x = rw e (
      quiet-IsExclusive s (finish now job outcome s.db) w idle (finish-slots now job outcome s.db)
        refl x)
  Step-IsExclusive {s} (recovers now e) x =
      rw e (db_step-IsExclusive s (recover now s.db) (recover-Leaves now s.db).slots x)
  Step-IsExclusive {s} (stops w e) x = rw e (quiet-IsExclusive s s.db w idle refl refl x)
  Step-IsExclusive {s} (other db queued kept grown e) x = rw e (db_step-IsExclusive s db kept x)

  pub Reach-IsExclusive :
      {s t : World} → Reach live org hash_scope s t → IsExclusive s → IsExclusive t
  Reach-IsExclusive here x = x
  Reach-IsExclusive (next r step) x = Step-IsExclusive step (Reach-IsExclusive r x)

-- No worker has begun and nothing has been sent.
pub record IsInitial (s : World) : Type 0 where
  pub all_idle : (w : ℕ) → s.phase w ≡ idle
  pub none_sent : s.sent ≡ []

IsInitial-IsExclusive : (s : World) → IsInitial s → IsExclusive s
IsInitial-IsExclusive s i = record {
  slot_held = λ w p h. ground (arith, i.all_idle w);
  unsent = λ w p h. ground (arith, i.all_idle w);
  alone = λ w v p h k. ground (arith, i.all_idle w);
  slot_kept = λ p h. rw i.none_sent;
  once = λ p. rw i.none_sent (omega arith);
}

-- From idle workers, whatever they, their crashes, the recovery and other transactions that only
-- add intents and leave the slots do, and whatever the provider answers, a phone is sent for at
-- most once.
pub at_most_one_send :
    (live : LiveConfig) (org : Uuid) (hash_scope : Scope → String) {s t : World} (p : Uuid)
    → IsInitial s
    → Reach live org hash_scope s t
    → sends_of p t.sent ≤ 1
at_most_one_send live org hash_scope {s} p i r =
    (Reach-IsExclusive live org hash_scope r (IsInitial-IsExclusive s i)).once p
