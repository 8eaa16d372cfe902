-- ===== src/Inbox/Registry/FourEyes.antt =====
-- Rates are reviewed by another member than the one who imported them, and published as reviewed.
use text.Mathlib.TextEquality.{eq_iff}
use whats.Base.{
  All-find, ℕ, ◌<◌, ◌≡◌, ◌≢◌, inl, inr, String, Bool, true, none, some, ok, arith, All, find,
  Option-cases, Result-cases, >>=-eq-ok, ◌==◌, nat_eq, nat_beq_iff, string_eq, list_eq,
}
use whats.Inbox.Time.{Time}
use whats.Inbox.Store.{Uuid, update_where, audit}
use whats.Inbox.Evaluation.{Session, Access}
use whats.Inbox.Commands.{Directory}
use whats.Inbox.Commands.Snooze.{All-update_where}
use whats.Inbox.Registry.{
  RateImport, approved, Registry, Report, report_of, RateAction, validate, diff, submit, review,
  revise, publish, is_state, validate_rates, check_publication, rate_step, act_on_import, same_base,
}

-- The reviewer, if there is one, is not the importer.
abbrev pub IsFourEyed : RateImport → Type 0
IsFourEyed i = (m : Uuid) → i.reviewer ≡ some m → m ≢ i.importer

module _ (access : Access) (people : Directory) (gate_hash idr_hash : String)
    (hash_report : Report → String) where
  rate_step-IsFourEyed :
      (now : Time) (new member : Uuid) (action : RateAction) (approve : Bool) (i : RateImport)
      (r r' : Registry) (i' : RateImport)
      → rate_step access people gate_hash idr_hash hash_report now new member action approve i r
        ≡ ok (i', r')
      → IsFourEyed i
      → IsFourEyed i' × (r'.imports ≡ r.imports)
  unfolding rate_step
  rate_step-IsFourEyed now new member validate approve i r r' i' h f =
      elim (Result-cases (validate_rates access people gate_hash idr_hash hash_report i.artifact)) [
        | inl (e, refused) ↦ absurd (ground arith)
        | inr (_, valid) ↦ (λ m k same. f m (ground arith) (ground arith), ground arith)
      ]
  rate_step-IsFourEyed now new member diff approve i r r' i' h f =
      (λ m k same. f m (ground arith) (ground arith), ground arith)
  rate_step-IsFourEyed now new member submit approve i r r' i' h f =
      (λ m k same. f m (ground arith) (ground arith), ground arith)
  rate_step-IsFourEyed now new member review approve i r r' i' h f =
      (λ m k same. ground (arith, nat_beq_iff i.importer member), ground arith)
  rate_step-IsFourEyed now new member revise approve i r r' i' h f =
      (λ m k same. ground arith, ground arith)
  rate_step-IsFourEyed now new member publish approve i r r' i' h f =
      elim (Result-cases (check_publication access people gate_hash idr_hash hash_report now i r)) [
        | inl (e, refused) ↦ absurd (ground arith)
        | inr (reviewer, fit) ↦ (λ m k same. f m (ground arith) (ground arith), ground arith)
      ]

  -- The parts of a successful action.
  record IsAction (now : Time) (new member id : Uuid) (action : RateAction) (revision : ℕ)
      (approve : Bool) (r r' : Registry) : Type 0 where
    chosen : RateImport
    stored : find (λ i. i.id == id) r.imports ≡ some chosen
    fresh : revision ≡ chosen.revision
    intact : chosen.artifact.canonical ≡ chosen.import_hash
    becomes : RateImport
    besides : Registry
    stepped :
        rate_step access people gate_hash idr_hash hash_report now new member action approve chosen
          r
        ≡ ok (becomes, besides)
    imports : r'.imports ≡ update_where (λ i. i.id == id) (λ _. becomes) besides.imports
    settings : r'.db.settings ≡ besides.db.settings

  act_on_import-IsAction :
      (now : Time) (new : Uuid) (v : Session) (member id : Uuid) (action : RateAction)
      (revision : ℕ) (approve : Bool) (r r' : Registry)
      → act_on_import access people gate_hash idr_hash hash_report now new v member id action
          revision approve r
        ≡ ok r'
      → IsAction now new member id action revision approve r r'
  unfolding act_on_import audit
  act_on_import-IsAction now new v member id action revision approve r r' h =
      elim (Option-cases (find (λ i. i.id == id) r.imports)) [
        | inl absent ↦ absurd (ground arith)
        | inr (i, stored) ↦
            elim (Result-cases (
              rate_step access people gate_hash idr_hash hash_report now new member action approve i
                r)) [
                  | inl (e, refused) ↦ absurd (ground arith)
                  | inr ((i', besides), stepped) ↦ record {
                    chosen = i;
                    stored = stored;
                    fresh = ground (arith, nat_beq_iff revision i.revision);
                    intact = ground (arith, eq_iff i.artifact.canonical i.import_hash);
                    becomes = i';
                    besides = besides;
                    stepped = stepped;
                    imports = ground arith;
                    settings = ground arith;
                  }
                ]
      ]

  -- If no import has its importer as the reviewer, none has after any successful action.
  pub act_on_import-IsFourEyed :
      (now : Time) (new : Uuid) (v : Session) (member id : Uuid) (action : RateAction)
      (revision : ℕ) (approve : Bool) (r r' : Registry)
      → act_on_import access people gate_hash idr_hash hash_report now new v member id action
          revision approve r
        ≡ ok r'
      → All IsFourEyed r.imports
      → All IsFourEyed r'.imports
  act_on_import-IsFourEyed now new v member id action revision approve r r' h all =
      let x = act_on_import-IsAction now new v member id action revision approve r r' h in
      let (kept, same) =
        rate_step-IsFourEyed now new member action approve x.chosen r x.besides x.becomes x.stepped
          (All-find IsFourEyed (λ i. i.id == id) r.imports all x.stored) in
      rw (x.imports, same)
        (All-update_where IsFourEyed (λ i. i.id == id) (λ _. x.becomes) r.imports (λ _ _. kept) all)

  -- What a publication rests on.
  pub record IsReviewed (now : Time) (member id new : Uuid) (revision : ℕ) (r r' : Registry)
      : Type 0 where
    pub chosen : RateImport
    pub stored : find (λ i. i.id == id) r.imports ≡ some chosen
    pub fresh : revision ≡ chosen.revision
    pub intact : chosen.artifact.canonical ≡ chosen.import_hash
    pub is_approved : is_state chosen.state approved ≡ true
    pub reviewer : Uuid
    pub reviewed_by : chosen.reviewer ≡ some reviewer
    pub other_eyes : reviewer ≢ chosen.importer
    pub same_report : chosen.reviewed_hash ≡ some (hash_report (report_of chosen))
    pub still_may : access.permitted reviewer "pricing.registry.review" none none ≡ true
    pub active : people.is_active reviewer ≡ true
    pub current_base : same_base r.db.settings.active_rate_publication chosen.base ≡ true
    pub in_time : now < chosen.next_review_at
    pub now_active : r'.db.settings.active_rate_publication ≡ some new

  -- If no import was reviewed by its importer, publication succeeds only for the revision seen of
  -- an intact, approved import, with a reviewer who is not the importer, is active and still may
  -- review, whose review is of the report as it stands, on the active base and before the next
  -- review; the new publication becomes the active one.
  pub act_on_import-IsReviewed :
      (now : Time) (new : Uuid) (v : Session) (member id : Uuid) (revision : ℕ) (approve : Bool)
      (r r' : Registry)
      → act_on_import access people gate_hash idr_hash hash_report now new v member id publish
          revision approve r
        ≡ ok r'
      → All IsFourEyed r.imports
      → IsReviewed now member id new revision r r'
  unfolding rate_step check_publication
  act_on_import-IsReviewed now new v member id revision approve r r' h all =
      let x = act_on_import-IsAction now new v member id publish revision approve r r' h in
      let i = x.chosen in
      let (reviewer, fit, done) =
        >>=-eq-ok (check_publication access people gate_hash idr_hash hash_report now i r) _
          x.stepped in
      elim (Option-cases i.reviewer) [
        | inl absent ↦ absurd (ground (arith, fit))
        | inr (m, reviewed_by) ↦ elim (Option-cases r.db.settings.billing_currency) [
          | inl unknown ↦ absurd (ground (arith, fit))
          | inr (currency, known) ↦ elim (Option-cases i.reviewed_hash) [
            | inl unreviewed ↦ absurd (ground (arith, fit))
            | inr (hash, reviewed) ↦ record {
              chosen = i;
              stored = x.stored;
              fresh = x.fresh;
              intact = x.intact;
              is_approved = ground (arith, fit);
              reviewer = m;
              reviewed_by = reviewed_by;
              other_eyes =
                  All-find IsFourEyed (λ j. j.id == id) r.imports all x.stored m reviewed_by;
              same_report = ground (arith, fit, reviewed, eq_iff hash (hash_report (report_of i)));
              still_may = ground (arith, fit);
              active = ground (arith, fit);
              current_base = ground (arith, fit);
              in_time = ground (arith, fit);
              now_active = ground (arith, x.settings, done);
            }
          ]
        ]
      ]
