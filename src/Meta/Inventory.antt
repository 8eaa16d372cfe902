-- ===== src/Meta/Inventory.antt =====
-- The inventory of accounts and phones: `syncOne` and `persistSnapshot` of
-- backend/internal/meta/sync.go, on the rows of one organization and app.
use whats.Base.{
  ℕ, ◌+◌, ◌*◌, String, Bool, true, false, not, ◌&&◌, List, [], ◌∷◌, Option, none, some, Result, ok,
  err, ltb, leb, any, find, holds, ◌==◌, nat_eq, string_eq, list_eq, if◌then◌else◌,
}
use whats.Inbox.Time.{Time, minute}
use whats.Inbox.Text.{Text}
use whats.Inbox.Store.{Uuid, Waba, Phone, update_where}
use whats.Meta.Process.{backoff}
use whats.Meta.Graph.{
  GraphError, GraphKind, graph_error, attempts_exhausted, authentication, permission,
}
use whats.Meta.Snapshot.{GraphPhone, Fields, Snapshot, Network, snapshot}

pub data RunState : Type 0 where
  sync_queued sync_running sync_succeeded sync_failed : RunState

-- `app.asset_sync_runs`
pub record SyncRun : Type 0 where
  pub id : Uuid
  pub app : Uuid
  pub state : RunState
  pub attempt_count : ℕ
  pub lease : Option Uuid
  pub lease_until : Time
  pub next_attempt_at : Time
  pub error : Option GraphKind

-- The rows of the organization; the runs stand in the order of their creation.
pub record Inventory : Type 0 where
  pub runs : List SyncRun
  pub wabas : List Waba
  pub phones : List Phone
  pub profiles : List (Uuid × Fields)
  pub credential : String
  pub last_error : Option GraphKind
  pub last_sync_at : Option Time

-- The inserted or updated account: a row of another app is not taken over.
unfoldable pub persist_waba : Uuid → Uuid → Snapshot → List Waba → Option (Uuid × List Waba)
persist_waba new app s wabas = elim (find (λ w. w.external_id == s.waba.id) wabas) [
  | none ↦ some (
    new,
    record {
      id = new;
      app = app;
      external_id = s.waba.id;
      lifecycle = "PRESENT";
      subscribed = s.subscribed;
      timezone_id = s.waba.timezone_id;
    }
        ∷ wabas,
  )
  | some w ↦
      if not (w.app == app)
      then none
      else some (
        w.id,
        update_where (λ x. x.external_id == s.waba.id)
            (λ x. record x {
              lifecycle = "PRESENT";
              subscribed = s.subscribed;
              timezone_id = s.waba.timezone_id;
            })
            wabas,
      )
]

-- The inserted or updated phone: a row of another account is not taken over.
unfoldable pub persist_phone : Uuid → Uuid → GraphPhone → List Phone → Option (Uuid × List Phone)
persist_phone new waba p phones = elim (find (λ x. x.external_id == p.id) phones) [
  | none ↦ some (
    new,
    record {
      id = new;
      waba = waba;
      external_id = p.id;
      lifecycle = "PRESENT";
      platform = p.platform;
    }
        ∷ phones,
  )
  | some x ↦
      if not (x.waba == waba)
      then none
      else some (
        x.id,
        update_where (λ x. x.external_id == p.id)
            (λ x. record x { lifecycle = "PRESENT"; platform = p.platform }) phones,
      )
]

abbrev pub persist_profile : Uuid → Fields → List (Uuid × Fields) → List (Uuid × Fields)
persist_profile phone fields profiles =
    if any (λ p. p.0 == phone) profiles
    then update_where (λ p. p.0 == phone) (λ p. (phone, fields)) profiles
    else (phone, fields) ∷ profiles

unfoldable pub persist_phones :
    (ℕ → Uuid)
    → Uuid
    → List (GraphPhone × Fields)
    → List Phone × List (Uuid × Fields)
    → Option (List Phone × List (Uuid × Fields))
persist_phones ids waba [] rows = some rows
persist_phones ids waba (p ∷ ps) rows = elim (persist_phone (ids 0) waba p.0 rows.0) [
  | none ↦ none
  | some (id, phones) ↦
      persist_phones (λ n. ids (n + 1)) waba ps (phones, persist_profile id p.1 rows.1)
]

-- `persistSnapshot`: every phone of the account is first taken as not observed. `none` is an error.
unfoldable pub persist_snapshot : (ℕ → Uuid) → Uuid → Snapshot → Inventory → Option Inventory
persist_snapshot ids app s t = elim (persist_waba (ids 0) app s t.wabas) [
  | none ↦ none
  | some (waba, wabas) ↦
      let hidden =
        update_where (λ p. p.waba == waba) (λ p. record p { lifecycle = "NOT_OBSERVED" })
          t.phones in
      elim (persist_phones (λ n. ids (n + 1)) waba s.phones (hidden, t.profiles)) [
        | none ↦ none
        | some (phones, profiles) ↦
            some record t { wabas = wabas; phones = phones; profiles = profiles }
      ]
]

abbrev pub is_sync_due : Uuid → Time → SyncRun → Bool
is_sync_due app now r = r.app == app && elim r.state [
  | sync_queued ↦ leb r.next_attempt_at now
  | sync_running ↦ ltb r.lease_until now
  | _ ↦ false
]

abbrev pub is_blocking : GraphKind → Bool
is_blocking kind = elim kind [ authentication ↦ true | permission ↦ true | _ ↦ false ]

-- The last transaction of a run whose lease is held.
unfoldable pub finish_sync :
    (ℕ → Uuid) → Uuid → Time → Uuid → ℕ → Result GraphError Snapshot → Inventory → Option Inventory
finish_sync ids app now run count (err e) t =
    let again = e.retryable && ltb count 8 in
    some record t {
      runs =
          update_where (λ r. r.id == run)
            (λ r. record r {
              state = if again then sync_queued else sync_failed;
              error = some e.kind;
              next_attempt_at = now + backoff count;
              lease = none;
              lease_until = 0;
            })
            t.runs;
      credential = if is_blocking e.kind then "BLOCKED" else "DEGRADED";
      last_error = some e.kind;
    }
finish_sync ids app now run count (ok s) t = elim (persist_snapshot ids app s t) [
  | none ↦ none
  | some t' ↦ some record t' {
    runs =
        update_where (λ r. r.id == run)
          (λ r. record r { state = sync_succeeded; error = none; lease = none; lease_until = 0 })
          t'.runs;
    credential = "READ_ACCESS_VERIFIED";
    last_error = none;
    last_sync_at = some now;
  }
]

-- One run of the worker: its times, new identifiers, and what the network answers.
pub record SyncWork : Type 0 where
  pub started : Time
  pub finished : Time
  pub lease : Uuid
  pub ids : ℕ → Uuid
  pub version : Text
  pub net : Network
  pub waba : Text
  pub external_app : Text

-- `syncOne`. `none` is an error of one of its transactions; after the first one the lease stays.
unfoldable pub sync_one : Uuid → SyncWork → Inventory → Option Inventory
sync_one app work t = elim (find (is_sync_due app work.started) t.runs) [
  | none ↦ none
  | some r ↦
      let count = r.attempt_count + 1 in
      let t' = record t {
        runs =
            update_where (λ x. x.id == r.id)
              (λ x. record x {
                state = sync_running;
                attempt_count = count;
                lease = some work.lease;
                lease_until = work.started + 3 * minute;
              })
              t.runs;
      } in
      let fetched =
        if ltb 8 count
        then err (graph_error attempts_exhausted 0 false)
        else snapshot work.version work.net work.waba work.external_app in
      if not (
        any (λ x. x.id == r.id && holds x.lease work.lease && ltb work.finished x.lease_until)
          t'.runs)
      then none
      else finish_sync work.ids app work.finished r.id count fetched t'
]
