-- ===== src/Examples/Operating.antt =====
-- Commands on the test conversation.
use whats.Base.{◌+◌, ◌≡◌, refl, arith, true, false, [], none, some, Result, ok, err, All}
use whats.Inbox.Error.{Error}
use whats.Inbox.Time.{hour}
use whats.Inbox.Text.{Text}
use whats.Inbox.Store.{Db, audit, event}
use whats.Inbox.Evaluation.{conversation, join_conversation}
use whats.Inbox.Submit.{is_usable}
use whats.Inbox.Commands.{
  Directory, Command, at_least_zero, assignment, patching, operate, patch, assign, patch_row,
  status_word, priority_word, change_settings,
}
use whats.Inbox.Commands.Stale.{operate-patching_again, operate-assignment_again}
use whats.Inbox.Commands.Snooze.{IsSnoozeMarked, operate-IsSnoozeMarked}
use whats.Inbox.Registry.{Registry, idr}
use whats.Inbox.Registry.Budgets.{check_currency}
use whats.Inbox.Billing.{BillingEvidence, record_billing_currency}
use whats.Inbox.Billing.Revision.{change_settings-is_usable, record_billing_currency-check_currency}
use whats.Examples.Data.{noon, tables, access, session, hello, authorization}

abbrev people : Directory
people = record { team_open = λ t. true; is_active = λ m. true; in_team = λ m t. true }

abbrev command : Command
command = record {
  revision = 1;
  assignment_revision = 1;
  team = none;
  member = some 14;
  status = "SNOOZED";
  priority = "HIGH";
  handoff = "WAITING_AGENT";
  snooze = some (noon + hour);
  body = hello;
  mentions = [];
  watermark = at_least_zero 1;
  manual_unread = false;
  enabled = some false;
}

abbrev or_tables : Result Error Db → Db
or_tables (ok d) = d
or_tables (err e) = tables

abbrev patched : Db
patched = or_tables (operate access people noon noon 90 session 13 30 patching command tables)

patching_run : operate access people noon noon 90 session 13 30 patching command tables ≡ ok patched
unfolding operate conversation join_conversation patch patch_row status_word priority_word audit
    event
patching_run = refl

operate-patching_again_example :
    (e : Error) × (operate access people noon noon 91 session 13 30 patching command patched
      ≡ err e)
operate-patching_again_example =
    operate-patching_again access people noon noon noon noon 90 91 session 13 30 command tables
      patched patching_run

abbrev assigned : Db
assigned = or_tables (operate access people noon noon 90 session 13 30 assignment command tables)

assignment_run :
    operate access people noon noon 90 session 13 30 assignment command tables ≡ ok assigned
unfolding operate conversation join_conversation assign audit event
assignment_run = refl

operate-assignment_again_example :
    (e : Error) × (operate access people noon noon 91 session 13 30 assignment command assigned
      ≡ err e)
operate-assignment_again_example =
    operate-assignment_again access people noon noon noon noon 90 91 session 13 30 command tables
      assigned assignment_run

operate-IsSnoozeMarked_example : All IsSnoozeMarked patched.conversations
operate-IsSnoozeMarked_example =
    operate-IsSnoozeMarked access people noon noon 90 session 13 30 patching command tables patched
      patching_run (refl, tt)

abbrev stopped : Db
stopped = or_tables (change_settings access 1 session 13 (record command { revision = 2 }) tables)

settings_run :
    change_settings access 1 session 13 (record command { revision = 2 }) tables ≡ ok stopped
unfolding change_settings audit
settings_run = refl

change_settings-is_usable_example : is_usable stopped noon 11 13 30 "digest" authorization ≡ false
change_settings-is_usable_example =
    change_settings-is_usable access 1 session 13 (record command { revision = 2 }) tables stopped
      noon 11 13 30 "digest" authorization settings_run (omega arith)

abbrev registry : Registry
registry = record { db = tables; imports = []; publications = []; periods = []; reservations = [] }

abbrev encode : BillingEvidence → Text
encode e = []

abbrev attested : Db
attested = or_tables (
    record_billing_currency access encode noon session 13 idr 21 "OPERATOR_REVIEWED_META_BILLING" 5
      tables)

attested_run :
    record_billing_currency access encode noon session 13 idr 21 "OPERATOR_REVIEWED_META_BILLING" 5
      tables
    ≡ ok attested
unfolding record_billing_currency audit
attested_run = refl

record_billing_currency-check_currency_example :
    (check_currency idr (record registry { db = attested }) ≡ ok tt)
    × (is_usable attested noon 11 13 30 "digest" authorization ≡ false)
record_billing_currency-check_currency_example =
    record_billing_currency-check_currency access encode noon session 13 idr 21
      "OPERATOR_REVIEWED_META_BILLING" 5 registry attested noon 11 13 30 "digest" authorization
      attested_run (omega arith)
