-- ===== src/Identity/Mail.antt =====
-- Mail: `enqueue` of backend/internal/identity/auth.go.
use whats.Base.{
  ◌+◌, ◌*◌, min, String, Bool, true, false, ◌&&◌, List, ◌∷◌, Option, none, some, any, ◌==◌, nat_eq,
  string_eq, if◌then◌else◌,
}
use whats.Inbox.Time.{Time, hour}
use whats.Inbox.Text.{Text}
use whats.Inbox.Store.{Uuid, update_where}
use whats.Identity.Tables.{MailDelivery, queued, retry_wait, cancelled}
use whats.Identity.Request.{Fresh, Env}

-- `enqueue`: at most one delivery for a purpose and a source, due within a day.
unfoldable pub enqueue :
    Env
    → Fresh
    → Option Uuid
    → Option Uuid
    → String
    → Uuid
    → Text
    → Time
    → List MailDelivery
    → List MailDelivery
enqueue env fresh invitation challenge purpose source email deadline mails =
    if any (λ d. d.purpose == purpose && d.source == source) mails
    then mails
    else record {
      id = fresh.mail;
      invitation = invitation;
      challenge = challenge;
      purpose = purpose;
      source = source;
      payload = some record { recipient = email; token = fresh.token; purpose = purpose };
      state = queued;
      deadline = min deadline (env.now + 24 * hour);
      next_attempt_at = env.now;
      attempts = 0;
      lease = none;
      lease_until = 0;
    }
      ∷ mails

abbrev pub is_waiting : MailDelivery → Bool
is_waiting d = elim d.state [ queued ↦ true | retry_wait ↦ true | _ ↦ false ]

-- The queued mail of an invitation is cancelled and its payload dropped.
abbrev pub cancel_mail : (MailDelivery → Bool) → List MailDelivery → List MailDelivery
cancel_mail test mails =
    update_where (λ d. test d && is_waiting d) (λ d. record d { state = cancelled; payload = none })
      mails
