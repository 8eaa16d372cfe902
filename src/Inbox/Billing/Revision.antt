-- ===== src/Inbox/Billing/Revision.antt =====
-- A change of the sending policy or of the billing currency counts the policy revision up.
use whats.Base.{
  ◌+◌, ◌≤◌, ◌≡◌, refl, arith, String, false, some, ok, list_beq_iff, nat_beq_iff, list_eq, nat_eq,
  string_eq,
}
use whats.Inbox.Time.{Time}
use whats.Inbox.Text.{Text}
use whats.Inbox.Store.{Uuid, Db, Authorization, audit}
use whats.Inbox.Evaluation.{Session, Access}
use whats.Inbox.Commands.{Command, change_settings}
use whats.Inbox.Submit.{is_usable}
use whats.Inbox.Registry.{Registry, idr}
use whats.Inbox.Registry.Budgets.{check_currency}
use whats.Inbox.Billing.{BillingEvidence, record_billing_currency}

is_usable-older :
    (db db' : Db) (now : Time) (session member conversation : Uuid) (digest : String)
    (a : Authorization)
    → db'.settings.policy_revision ≡ db.settings.policy_revision + 1
    → a.policy_revision ≤ db.settings.policy_revision
    → is_usable db' now session member conversation digest a ≡ false
is_usable-older db db' now session member conversation digest a up old =
    ground (arith, nat_beq_iff a.policy_revision db'.settings.policy_revision)

change_settings-revision :
    (access : Access) (org : Uuid) (v : Session) (member : Uuid) (input : Command) (db db' : Db)
    → change_settings access org v member input db ≡ ok db'
    → db'.settings.policy_revision ≡ db.settings.policy_revision + 1
unfolding change_settings audit
change_settings-revision access org v member input db db' h = ground arith

-- After a successful change of the sending policy no authorization of the policy revision before
-- it, or of an older one, can be used.
pub change_settings-is_usable :
    (access : Access) (org : Uuid) (v : Session) (member : Uuid) (input : Command) (db db' : Db)
    (now : Time) (session actor conversation : Uuid) (digest : String) (a : Authorization)
    → change_settings access org v member input db ≡ ok db'
    → a.policy_revision ≤ db.settings.policy_revision
    → is_usable db' now session actor conversation digest a ≡ false
change_settings-is_usable access org v member input db db' now session actor conversation digest a h
      old =
    is_usable-older db db' now session actor conversation digest a
      (change_settings-revision access org v member input db db' h) old

record_billing_currency-settings :
    (access : Access) (encode : BillingEvidence → Text) (now : Time) (v : Session) (member : Uuid)
    (currency : Text) (waba : Uuid) (source : String) (reviewed_at : Time) (db db' : Db)
    → record_billing_currency access encode now v member currency waba source reviewed_at db
      ≡ ok db'
    → (db'.settings.billing_currency ≡ some idr)
      × (db'.settings.billing_currency_state ≡ "VERIFIED")
      × (db'.settings.policy_revision ≡ db.settings.policy_revision + 1)
unfolding record_billing_currency audit
record_billing_currency-settings access encode now v member currency waba source reviewed_at db db'
      h =
    (ground (arith, list_beq_iff currency idr), ground arith, ground arith)

check_currency-eq-ok :
    (r : Registry)
    → r.db.settings.billing_currency ≡ some idr
    → r.db.settings.billing_currency_state ≡ "VERIFIED"
    → check_currency idr r ≡ ok tt
unfolding check_currency
check_currency-eq-ok r known verified = rw (known, verified) refl

-- Once the currency is recorded, amounts in IDR pass the currency check of the budgets, and no
-- authorization of the policy revision before it, or of an older one, can be used.
pub record_billing_currency-check_currency :
    (access : Access) (encode : BillingEvidence → Text) (now : Time) (v : Session) (member : Uuid)
    (currency : Text) (waba : Uuid) (source : String) (reviewed_at : Time) (r : Registry) (db' : Db)
    (later : Time) (session actor conversation : Uuid) (digest : String) (a : Authorization)
    → record_billing_currency access encode now v member currency waba source reviewed_at r.db
      ≡ ok db'
    → a.policy_revision ≤ r.db.settings.policy_revision
    → (check_currency idr (record r { db = db' }) ≡ ok tt)
      × (is_usable db' later session actor conversation digest a ≡ false)
record_billing_currency-check_currency access encode now v member currency waba source reviewed_at r
      db' later session actor conversation digest a h old =
    let (known, verified, up) =
      record_billing_currency-settings access encode now v member currency waba source reviewed_at
        r.db db' h in
    (
      check_currency-eq-ok (record r { db = db' }) known verified,
      is_usable-older r.db db' later session actor conversation digest a up old,
    )
