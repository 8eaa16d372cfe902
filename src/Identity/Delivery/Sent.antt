-- ===== src/Identity/Delivery/Sent.antt =====
-- The mails that `DeliverOne` of backend/internal/identity/mail.go hands to the transport.
use whats.Base.{
  ◌≡◌, ◌≤◌, ◌<◌, ◌+◌, Bool, true, false, not, ◌||◌, List, some, any, all, ◌==◌, nat_eq,
}
use whats.Inbox.Time.{Time}
use whats.Inbox.Store.{Uuid}
use whats.Identity.Mail.{is_waiting}
use whats.Identity.Tables.{Org, MailPayload, MailDelivery}
use whats.Identity.Delivery.{
  MailRun, Mail, is_ready, is_sooner, recover_mail, mail_valid, compose, start_mail,
}

-- Of the deliveries that are due and not locked, this is the first by time and identifier.
pub record IsFirst (now : Time) (locked : Uuid → Bool) (mails : List MailDelivery)
    (d : MailDelivery) : Type 0 where
  pub is_there : any (λ e. e.id == d.id) mails ≡ true
  pub is_waiting_still : is_waiting d ≡ true
  pub is_due : d.next_attempt_at ≤ now
  pub is_free : locked d.id ≡ false
  pub is_first : all (λ e. not (is_ready now locked e) || is_sooner d e) mails ≡ true

-- The mail was for this delivery: its payload, an attempt that is at most the eighth, a deadline that
-- has not passed, and a source that is open in the tables as they were right before.
pub record IsSent (run : MailRun) (between : Org → Org) (o : Org) (m : Mail) : Type 0 where
  pub delivery : MailDelivery
  pub payload : MailPayload
  pub is_chosen : IsFirst run.now run.locked (recover_mail run.now o).mails delivery
  pub is_payload : delivery.payload ≡ some payload
  pub is_composed : m ≡ compose run.origin delivery.id payload
  pub is_few : delivery.attempts + 1 ≤ 8
  pub is_timely : run.rechecked < delivery.deadline
  pub is_open :
      mail_valid run.digest run.rechecked delivery payload
        (between (start_mail run delivery (recover_mail run.now o)))
      ≡ true
