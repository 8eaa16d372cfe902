-- ===== src/Inbox/Workers.antt =====
-- Any number of dispatch workers on one database: `DispatchOnce` of
-- backend/internal/inbox/worker.go as the three transactions and the request between them, which the
-- steps of other workers, of `recoverUncertain` and of other requests may interleave.
mod Frames
pub mod AtMostOnce
pub mod Grants
use whats.Base.{
  ℕ, String, Bool, ◌++◌, ◌≡◌, List, [], ◌∷◌, Option, none, some, ◌==◌, nat_eq, if◌then◌else◌,
}
use whats.Inbox.Time.{Time}
use whats.Inbox.Text.{Text}
use whats.Inbox.Store.{Uuid, Db, Slot, Intent}
use whats.Inbox.Evaluation.{Access, LiveConfig, Scope}
use whats.Inbox.Dispatch.{Job, claim, authorize}
use whats.Inbox.Outcome.{SendOutcome, finish, recover}

-- Where a worker stands in `DispatchOnce`.
pub data Phase : Type 0 where
  idle : Phase
  claimed : Job → Phase
  granted : Job → Text × Text → Phase
  answered : Job → SendOutcome → Phase

-- `sent` records the requests to the provider: the phone and the intent of each.
pub record World : Type 0 where
  pub db : Db
  pub phase : ℕ → Phase
  pub sent : List (Uuid × Uuid)

abbrev pub set_phase : (ℕ → Phase) → ℕ → Phase → ℕ → Phase
set_phase phases w p v = if w == v then p else phases v

abbrev pub after_authorize : Job → Option (Text × Text) → Phase
after_authorize job none = idle
after_authorize job (some target) = granted job target

module _ (live : LiveConfig) (org : Uuid) (hash_scope : Scope → String) where
  pub data Step (s t : World) : Type 0 where
    claims :
        (w : ℕ) (locked : Uuid → Bool) (now : Time) (lease : Uuid) (db : Db) (job : Job)
        → s.phase w ≡ idle
        → claim locked now lease s.db ≡ some (db, job)
        → t ≡ record s { db = db; phase = set_phase s.phase w (claimed job) }
        → Step s t
    authorizes :
        (w : ℕ) (access : Access) (now : Time) (job : Job) (db : Db) (target : Option (Text × Text))
        → s.phase w ≡ claimed job
        → authorize access live org hash_scope now job s.db ≡ some (db, target)
        → t ≡ record s { db = db; phase = set_phase s.phase w (after_authorize job target) }
        → Step s t
    -- The provider may answer anything, and may have received the request whatever it answers.
    sends :
        (w : ℕ) (job : Job) (target : Text × Text) (outcome : SendOutcome)
        → s.phase w ≡ granted job target
        → t ≡ record s {
          phase = set_phase s.phase w (answered job outcome);
          sent = (job.phone, job.intent) ∷ s.sent;
        }
        → Step s t
    finishes :
        (w : ℕ) (now : Time) (job : Job) (outcome : SendOutcome)
        → s.phase w ≡ answered job outcome
        → t ≡ record s { db = finish now job outcome s.db; phase = set_phase s.phase w idle }
        → Step s t
    recovers : (now : Time) → t ≡ record s { db = recover now s.db } → Step s t
    -- A crash, an error or a rollback: the worker begins anew.
    stops : (w : ℕ) → t ≡ record s { phase = set_phase s.phase w idle } → Step s t
    -- A transaction of another part, which may queue new intents.
    other :
        (db : Db) (queued : List Intent)
        → db.slots ≡ s.db.slots
        → db.intents ≡ s.db.intents ++ queued
        → t ≡ record s { db = db }
        → Step s t

  pub data Reach (s : World) : World → Type 0 where
    here : Reach s s
    next : {t u : World} → Reach s t → Step t u → Reach s u
