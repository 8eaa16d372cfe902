-- ===== src/Inbox/Registry.antt =====
-- The registry of reviewed rates: `validateRates`, the imports and actions of `registry`,
-- backend/internal/inbox/registry.go. Digests are parameters; a stored JSON document is what the code
-- decodes from it and its digest. A failed request leaves the tables as they were.
pub mod Budgets
pub mod FourEyes
use whats.Base.{
  ℕ, ◌+◌, String, Bool, true, false, not, ◌&&◌, ◌||◌, List, [], ◌∷◌, Option, none, some, Result, ok,
  err, ◌>>=◌, ◌>>◌, fail_if, or_fail, ltb, leb, any, find, length, is_some, is_none, holds, ◌==◌,
  nat_eq, string_eq, list_eq, if◌then◌else◌,
}
use whats.Inbox.Error.{
  Code, Error, domain, validation, permission, not_found, conflict, internal, rate_evidence_invalid,
  rate_interval_invalid, rate_coverage_missing, rate_source_not_reviewed,
  rate_revision_hash_mismatch, rate_review_authority_revoked, stale_rate_base, rate_review_overdue,
  billing_currency_unverified, pricing_coverage_missing,
}
use whats.Inbox.Time.{Time, after}
use whats.Inbox.Text.{Text, byte_length, valid_text}
use whats.Inbox.Amount.{Units, amount}
use whats.Inbox.Store.{Uuid, Db, update_where, audit}
use whats.Inbox.Evaluation.{Session, Access, require}
use whats.Inbox.Commands.{Directory}
use whats.Inbox.Rates.{RateRow, Bundle, Artifact, check_rows}

-- `app.rate_imports.state`
pub data RateState : Type 0 where
  draft validated diffed in_review changes_required approved published : RateState

-- What `diffArtifacts` compares, with the base and the candidate that the report names.
pub record Diff : Type 0 where
  pub base : Option Uuid
  pub before : Option Artifact
  pub candidate : Artifact

pub record RateImport : Type 0 where
  pub id : Uuid
  pub importer : Uuid
  pub state : RateState
  pub revision : ℕ
  pub source_hash : String
  pub import_hash : String
  pub artifact : Artifact
  pub correction : Text
  pub validation : Option Artifact
  pub diff : Option Diff
  pub base : Option Uuid
  pub reviewer : Option Uuid
  pub reviewed_hash : Option String
  pub next_review_at : Time

pub record Publication : Type 0 where
  pub id : Uuid
  pub import_id : Uuid
  pub publisher : Uuid
  pub reviewer : Uuid
  pub snapshot : Artifact
  pub next_review_at : Time
  pub supersedes : Option Uuid

-- `app.budget_periods`, `app.budget_reservations`, unique by period and intent
pub record Period : Type 0 where
  pub id : Uuid
  pub currency : Text
  pub starts_at : Time
  pub ends_at : Time
  pub hard_limit : Units

pub record Reservation : Type 0 where
  pub id : Uuid
  pub period : Uuid
  pub intent : Uuid
  pub reserved : Units
  pub currency : Text
  pub released : Bool

-- The tables of the registry, with the inbox's for the settings and the audit log.
pub record Registry : Type 0 where
  pub db : Db
  pub imports : List RateImport
  pub publications : List Publication
  pub periods : List Period
  pub reservations : List Reservation

-- The values of `reportHash`, in its order.
pub record Report : Type 0 where
  pub import_hash : String
  pub source_hash : String
  pub correction : Text
  pub revision : ℕ
  pub base : Option Uuid
  pub validation : Option Artifact
  pub diff : Option Diff
  pub deadline : Time

abbrev pub report_of : RateImport → Report
report_of i = record {
  import_hash = i.import_hash;
  source_hash = i.source_hash;
  correction = i.correction;
  revision = i.revision;
  base = i.base;
  validation = i.validation;
  diff = i.diff;
  deadline = i.next_review_at;
}

-- The last path segment of `/rate-cards/imports/{id}/{action}`
pub data RateAction : Type 0 where
  validate diff submit review revise publish : RateAction

abbrev pub rate_key : RateAction → String
rate_key review = "pricing.registry.review"
rate_key publish = "pricing.registry.publish"
rate_key _ = "pricing.registry.import"

abbrev pub rate_audit : RateState → String
rate_audit draft = "inbox.rate.DRAFT"
rate_audit validated = "inbox.rate.VALIDATED"
rate_audit diffed = "inbox.rate.DIFFED"
rate_audit in_review = "inbox.rate.IN_REVIEW"
rate_audit changes_required = "inbox.rate.CHANGES_REQUIRED"
rate_audit approved = "inbox.rate.APPROVED"
rate_audit published = "inbox.rate.PUBLISHED"

abbrev pub is_state : RateState → RateState → Bool
is_state draft draft = true
is_state validated validated = true
is_state diffed diffed = true
is_state in_review in_review = true
is_state changes_required changes_required = true
is_state approved approved = true
is_state published published = true
is_state _ _ = false

abbrev pub same_base : Option Uuid → Option Uuid → Bool
same_base none none = true
same_base (some a) (some b) = a == b
same_base _ _ = false

abbrev pub snapshot_of : Option Uuid → List Publication → Option Artifact
snapshot_of none ps = none
snapshot_of (some id) ps = elim (find (λ p. p.id == id) ps) [
  | none ↦ none
  | some p ↦ some p.snapshot
]

abbrev pub usd : Text
usd = b'U' ∷ b'S' ∷ b'D' ∷ []

abbrev pub idr : Text
idr = b'I' ∷ b'D' ∷ b'R' ∷ []

abbrev pub update_import : Uuid → RateImport → Registry → Registry
update_import id new r = record r { imports = update_where (λ i. i.id == id) (λ _. new) r.imports }

module _ (access : Access) (people : Directory) (gate_hash idr_hash : String)
    (hash_report : Report → String) where
  -- `validateRates`: only the two reviewed bundles.
  unfoldable pub validate_rates : Artifact → Result Error (Unit {0})
  validate_rates a = do
    bundle ← or_fail a.bundle (domain rate_evidence_invalid)
    fail_if
        (not (length bundle.rows == 20) || (not (bundle.sources == 6) && not (bundle.sources == 7)))
        (domain rate_evidence_invalid)
    check_rows [] bundle.rows
    fail_if (not (a.canonical == gate_hash) && not (a.canonical == idr_hash))
        (domain rate_source_not_reviewed)
    ok tt

  -- The review is complete, by a reviewer who still may, of exactly this report.
  unfoldable pub check_publication : Time → RateImport → Registry → Result Error Uuid
  check_publication now i r = do
    reviewer ← or_fail i.reviewer conflict
    fail_if
        (not (is_state i.state approved) || not (holds i.reviewed_hash (hash_report (report_of i))))
        conflict
    fail_if (not (access.permitted reviewer "pricing.registry.review" none none))
        (domain rate_review_authority_revoked)
    fail_if (not (people.is_active reviewer)) (domain rate_review_authority_revoked)
    currency ← or_fail r.db.settings.billing_currency (domain billing_currency_unverified)
    fail_if (not (r.db.settings.billing_currency_state == "VERIFIED"))
        (domain billing_currency_unverified)
    fail_if (not (currency == usd) && not (currency == idr)) (domain pricing_coverage_missing)
    fail_if (not (same_base r.db.settings.active_rate_publication i.base)) (domain stale_rate_base)
    fail_if (not (after i.next_review_at now)) (domain rate_review_overdue)
    ok reviewer

  abbrev pub add_publication : Uuid → Uuid → Uuid → RateImport → Registry → Registry
  add_publication id member reviewer i r = record r {
    publications =
        record {
          id = id;
          import_id = i.id;
          publisher = member;
          reviewer = reviewer;
          snapshot = i.artifact;
          next_review_at = i.next_review_at;
          supersedes = r.db.settings.active_rate_publication;
        }
        ∷ r.publications;
    db = record r.db {
      settings = record r.db.settings {
        active_rate_publication = some id;
        policy_revision = r.db.settings.policy_revision + 1;
      };
    };
  }

  -- The `switch` on the action: the import as it becomes, and the tables besides.
  unfoldable pub rate_step :
      Time
      → Uuid
      → Uuid
      → RateAction
      → Bool
      → RateImport
      → Registry
      → Result Error (RateImport × Registry)
  rate_step now new member validate approve i r =
      fail_if (not (is_state i.state draft)) conflict
      >> (validate_rates i.artifact
          >> ok (record i { state = validated; validation = some i.artifact }, r))
  rate_step now new member diff approve i r =
      fail_if (not (is_state i.state validated)) conflict
      >> ok (
        record i {
          state = diffed;
          base = r.db.settings.active_rate_publication;
          diff = some record {
            base = r.db.settings.active_rate_publication;
            before = snapshot_of r.db.settings.active_rate_publication r.publications;
            candidate = i.artifact;
          };
        },
        r,
      )
  rate_step now new member submit approve i r =
      fail_if (not (is_state i.state diffed)) conflict >> ok (record i { state = in_review }, r)
  rate_step now new member review approve i r =
      fail_if (not (is_state i.state in_review) || i.importer == member) permission
      >> ok (
        record i {
          state = if approve then approved else changes_required;
          reviewer = some member;
          reviewed_hash = some (hash_report (report_of i));
        },
        r,
      )
  rate_step now new member revise approve i r =
      fail_if (not (is_state i.state changes_required)) conflict
      >> ok (
        record i {
          state = draft;
          revision = i.revision + 1;
          validation = none;
          diff = none;
          reviewer = none;
          reviewed_hash = none;
        },
        r,
      )
  rate_step now new member publish approve i r = check_publication now i r >>= λ reviewer.
      ok (record i { state = published }, add_publication new member reviewer i r)

  -- `POST /rate-cards/imports/{id}/{action}`
  unfoldable pub act_on_import :
      Time → Uuid → Session → Uuid → Uuid → RateAction → ℕ → Bool → Registry → Result Error Registry
  act_on_import now new v member id action revision approve r = do
    require access member (rate_key action) none none
    i ← or_fail (find (λ i. i.id == id) r.imports) not_found
    fail_if (not (revision == i.revision)) conflict
    fail_if (not (i.artifact.canonical == i.import_hash)) (domain rate_revision_hash_mismatch)
    stepped ← rate_step now new member action approve i r
    let r' = update_import id stepped.0 stepped.1
    ok (record r' { db = audit (some v.user) id (rate_audit stepped.0.state) r'.db })

  -- `POST /rate-cards/imports`: one of the two embedded sources; a correction of a published base
  -- needs a reason, of at most a thousand bytes. Each source comes with the digest of its bytes.
  unfoldable pub import_rates :
      Uuid
      → Session
      → Uuid
      → String
      → Text
      → Artifact × String
      → Artifact × String
      → Time
      → Registry
      → Result Error Registry
  import_rates id v member source reason gate idr_service deadline r = do
    require access member "pricing.registry.import" none none
    chosen ←
        (if source == "SPRINT3_IDR_SERVICE_20260918"
          then ok idr_service
          else if source == "GATE_C_20260914"
          then ok gate
          else err (domain rate_source_not_reviewed))
    fail_if
        ((is_some r.db.settings.active_rate_publication && not (valid_text reason 1000))
          || ltb 1000 (byte_length reason))
        validation
    fail_if (any (λ c. c == 0) reason) internal
    ok record r {
      imports =
          record {
            id = id;
            importer = member;
            state = draft;
            revision = 1;
            source_hash = chosen.1;
            import_hash = chosen.0.canonical;
            artifact = chosen.0;
            correction = reason;
            validation = none;
            diff = none;
            base = r.db.settings.active_rate_publication;
            reviewer = none;
            reviewed_hash = none;
            next_review_at = deadline;
          }
          ∷ r.imports;
      db = audit (some v.user) id "inbox.rate.imported" r.db;
    }
