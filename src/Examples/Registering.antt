-- ===== src/Examples/Registering.antt =====
-- An import on its way to publication, and a reservation.
use whats.Base.{
  ◌+◌, ◌≤◌, ◌≡◌, refl, arith, String, true, [], ◌∷◌, none, some, Result, ok, err, All, find, ◌==◌,
  nat_eq,
}
use whats.Inbox.Error.{Error}
use whats.Inbox.Time.{hour}
use whats.Inbox.Text.{is_digit}
use whats.Inbox.Amount.{amount, amount_parts, split_point, is_digits, digits_value}
use whats.Inbox.Store.{audit}
use whats.Inbox.Commands.{Directory}
use whats.Inbox.Registry.{
  RateImport, in_review, Registry, Report, review, publish, rate_step, check_publication,
  act_on_import, idr,
}
use whats.Inbox.Rates.{Artifact}
use whats.Inbox.Registry.FourEyes.{
  IsFourEyed, IsReviewed, act_on_import-IsFourEyed, act_on_import-IsReviewed,
}
use whats.Inbox.Registry.Budgets.{exposure, check_currency, reserve_new, reserve_budget}
use whats.Inbox.Registry.Budgets.Limit.{reserve_budget_le}
use whats.Examples.Data.{noon, tables, access, session}

abbrev people : Directory
people = record { team_open = λ t. true; is_active = λ m. true; in_team = λ m t. true }

abbrev hash_report : Report → String
hash_report r = "report"

abbrev artifact : Artifact
artifact = record { bundle = none; canonical = "canonical" }

abbrev reviewing : RateImport
reviewing = record {
  id = 500;
  importer = 14;
  state = in_review;
  revision = 1;
  source_hash = "source";
  import_hash = "canonical";
  artifact = artifact;
  correction = [];
  validation = none;
  diff = none;
  base = none;
  reviewer = none;
  reviewed_hash = none;
  next_review_at = noon + hour;
}

abbrev waiting : Registry
waiting = record {
  db = record tables {
    settings = record tables.settings {
      billing_currency_state = "VERIFIED";
      billing_currency = some idr;
      currency_evidence = some [];
    };
  };
  imports = reviewing ∷ [];
  publications = [];
  periods =
      record {
        id = 600;
        currency = idr;
        starts_at = 5;
        ends_at = noon + hour;
        hard_limit = 900000000;
      }
      ∷ [];
  reservations = [];
}

abbrev or_waiting : Result Error Registry → Registry
or_waiting (ok r) = r
or_waiting (err e) = waiting

abbrev reviewed : Registry
reviewed =
    or_waiting (
      act_on_import access people "g" "i" hash_report noon 510 session 13 500 review 1 true waiting)

review_run :
    act_on_import access people "g" "i" hash_report noon 510 session 13 500 review 1 true waiting
    ≡ ok reviewed
unfolding act_on_import rate_step audit
review_run = refl

none_reviewed : All IsFourEyed waiting.imports
none_reviewed = (λ m h. absurd (ground arith), tt)

act_on_import-IsFourEyed_example : All IsFourEyed reviewed.imports
act_on_import-IsFourEyed_example =
    act_on_import-IsFourEyed access people "g" "i" hash_report noon 510 session 13 500 review 1 true
      waiting reviewed review_run none_reviewed

abbrev live_rates : Registry
live_rates = or_waiting (
    act_on_import access people "g" "i" hash_report noon 511 session 15 500 publish 1 true reviewed)

publish_run :
    act_on_import access people "g" "i" hash_report noon 511 session 15 500 publish 1 true reviewed
    ≡ ok live_rates
unfolding act_on_import rate_step check_publication audit
publish_run = refl

one_reviewed : All IsFourEyed reviewed.imports
unfolding act_on_import rate_step audit
one_reviewed = (λ m h same. ground arith, tt)

act_on_import-IsReviewed_example :
    IsReviewed access people "g" "i" hash_report noon 15 500 511 1 reviewed live_rates
act_on_import-IsReviewed_example =
    act_on_import-IsReviewed access people "g" "i" hash_report noon 511 session 15 500 1 true
      reviewed live_rates publish_run one_reviewed

abbrev reserved : Registry
reserved = or_waiting (reserve_budget noon 700 600 80 (b'4' ∷ []) idr live_rates)

reserve_run : reserve_budget noon 700 600 80 (b'4' ∷ []) idr live_rates ≡ ok reserved
unfolding reserve_budget reserve_new check_currency exposure amount amount_parts split_point
    is_digits digits_value is_digit act_on_import rate_step check_publication audit
reserve_run = refl

nothing_reserved : exposure 600 live_rates.reservations ≤ 900000000
unfolding exposure act_on_import rate_step check_publication audit
nothing_reserved = omega arith

period_found :
    find (λ p. p.id == 600) live_rates.periods
    ≡ some record {
      id = 600;
      currency = idr;
      starts_at = 5;
      ends_at = noon + hour;
      hard_limit = 900000000;
    }
unfolding act_on_import rate_step check_publication audit
period_found = refl

reserve_budget_le_example : exposure 600 reserved.reservations ≤ 900000000
reserve_budget_le_example =
    reserve_budget_le noon 700 600 80 600 (b'4' ∷ []) idr live_rates reserved
      record {
        id = 600;
        currency = idr;
        starts_at = 5;
        ends_at = noon + hour;
        hard_limit = 900000000;
      }
      reserve_run period_found nothing_reserved
