-- ===== src/Identity/Delivery.antt =====
-- Sending mail: `mailValid` and `DeliverOne` of backend/internal/identity/mail.go. The transport and
-- the digest of a token are parameters; a payload that does not decrypt is one that is not there.
pub mod Sent
use whats.Base.{
  ℕ, ◌+◌, ◌*◌, ◌^◌, String, Bool, true, false, not, ◌&&◌, ◌||◌, List, [], ◌∷◌, ◌++◌, map, Option,
  none, some, ltb, leb, any, find, holds, is_none, ◌==◌, nat_eq, string_eq, list_eq, if◌then◌else◌,
}
use whats.Inbox.Time.{Time, Duration, minute}
use whats.Inbox.Text.{Text}
use whats.Inbox.Store.{Uuid, update_where}
use whats.Meta.Events.{text}
use whats.Identity.Tables.{
  Org, MailPayload, MailDelivery, MailState, queued, sending, smtp_accepted, retry_wait,
  mail_failed, mail_expired, cancelled, MailAttempt, MailResult, mail_accepted, mail_rejected,
  mail_unknown,
}
use whats.Identity.Mail.{is_waiting}
use whats.Identity.Organization.Invitations.{is_pending}

-- `Mail`
pub record Mail : Type 0 where
  pub id : Uuid
  pub recipient : Text
  pub subject : Text
  pub body : Text

-- `MailError`, or another error
pub data SendFailure : Type 0 where
  mail_error : String → Bool → Bool → SendFailure  -- code, permanent, pause
  other_error : SendFailure

-- One run of `DeliverOne`: the clock at its three transactions, the rows that other transactions have
-- locked when it chooses, the lease, the random part of the delay, `digest`, the origin of the links,
-- and the transport, whose `none` is success.
pub record MailRun : Type 0 where
  pub now : Time
  pub rechecked : Time
  pub finished : Time
  pub locked : Uuid → Bool
  pub lease : Uuid
  pub jitter : Duration
  pub digest : Text → String
  pub origin : Text
  pub send : Mail → Option SendFailure

abbrev pub is_challenged : (Text → String) → Time → Uuid → Text → Org → Bool
is_challenged digest now id token o =
    any
      (λ c.
        c.id == id
        && c.token_digest == digest token
        && not c.consumed
        && not c.revoked
        && ltb now c.expires_at)
      o.challenges

abbrev pub is_invited : (Text → String) → Time → Uuid → Text → Org → Bool
is_invited digest now id token o =
    any (λ i. i.id == id && i.token_digest == digest token && is_pending i && ltb now i.expires_at)
      o.invitations

-- `mailValid`: what the mail is about is still open.
unfoldable pub mail_valid : (Text → String) → Time → MailDelivery → MailPayload → Org → Bool
mail_valid digest now d p o = elim d.challenge [
  | some c ↦ is_challenged digest now c p.token o
  | none ↦ elim d.invitation [
    | some i ↦ is_invited digest now i p.token o
    | none ↦ p.purpose == "SECURITY_NOTICE"
  ]
]

abbrev pub is_sending : MailState → Bool
is_sending sending = true
is_sending _ = false

abbrev pub is_abandoned : Time → MailDelivery → Bool
is_abandoned now d = is_sending d.state && ltb d.lease_until now

-- The first two statements: deliveries whose worker is gone.
unfoldable pub recover_mail : Time → Org → Org
recover_mail now o = record o {
  mail_attempts =
      update_where
        (λ a. is_none a.result && any (λ d. d.id == a.delivery && is_abandoned now d) o.mails)
        (λ a. record a { result = some mail_unknown; code = "WORKER_LEASE_EXPIRED" })
        o.mail_attempts;
  mails =
      update_where (is_abandoned now)
        (λ d. record d { state = retry_wait; next_attempt_at = now; lease = none }) o.mails;
}

-- `ORDER BY next_attempt_at,id`
abbrev pub is_sooner : MailDelivery → MailDelivery → Bool
is_sooner d e =
    ltb d.next_attempt_at e.next_attempt_at
    || (d.next_attempt_at == e.next_attempt_at && leb d.id e.id)

-- `state IN ('QUEUED','RETRY_WAIT') AND next_attempt_at<=now()`, `FOR UPDATE SKIP LOCKED`
abbrev pub is_ready : Time → (Uuid → Bool) → MailDelivery → Bool
is_ready now locked d = is_waiting d && leb d.next_attempt_at now && not (locked d.id)

unfoldable pub first_due : Time → (Uuid → Bool) → List MailDelivery → Option MailDelivery
first_due now locked [] = none
first_due now locked (d ∷ ds) =
    let rest = first_due now locked ds in
    if is_ready now locked d
    then elim rest [ none ↦ some d | some e ↦ if is_sooner d e then some d else some e ]
    else rest

abbrev pub set_state : MailState → MailDelivery → MailDelivery
set_state state d = record d { state = state; payload = none }

abbrev pub update_mail : Uuid → (MailDelivery → MailDelivery) → Org → Org
update_mail id f o = record o { mails = update_where (λ d. d.id == id) f o.mails }

-- What the first transaction decides about the delivery it has chosen.
pub data Chosen : Type 0 where
  ends : MailState → Chosen
  goes : MailPayload → Chosen

unfoldable pub choose : MailRun → MailDelivery → Org → Chosen
choose run d o =
    if not (ltb run.now d.deadline)
    then ends mail_expired
    else if leb 8 d.attempts
    then ends mail_failed
    else elim d.payload [
      | none ↦ ends mail_failed
      | some p ↦ if mail_valid run.digest run.now d p o then goes p else ends cancelled
    ]

unfoldable pub start_mail : MailRun → MailDelivery → Org → Org
start_mail run d o =
    let o' =
      update_mail d.id
        (λ x. record x {
          state = sending;
          attempts = d.attempts + 1;
          lease = some run.lease;
          lease_until = run.now + 2 * minute;
        })
        o in
    record o' {
      mail_attempts =
          record { delivery = d.id; attempt_no = d.attempts + 1; result = none; code = "" }
          ∷ o'.mail_attempts;
    }

abbrev pub route_of : String → Text
route_of purpose =
    if purpose == "INVITATION"
    then text "/accept-invitation"
    else if purpose == "PASSWORD_RESET"
    then text "/reset-password"
    else text "/verify-email"

abbrev pub subject_of : String → Text
subject_of purpose =
    if purpose == "INVITATION"
    then text "Company invitation"
    else if purpose == "PASSWORD_RESET"
    then text "Reset your password"
    else if purpose == "SECURITY_NOTICE"
    then text "Account security change"
    else text "Verify your email"

unfoldable pub compose : Text → Uuid → MailPayload → Mail
compose origin id p = record {
  id = id;
  recipient = p.recipient;
  subject = subject_of p.purpose;
  body =
      if p.token == []
      then text
          "A security setting on your WABA Control account changed. Contact your company administrator if this was not you."
      else subject_of p.purpose
        ++ 10 ∷ 10 ∷ origin
        ++ route_of p.purpose
        ++ text "#token="
        ++ p.token
        ++ 10 ∷ 10 ∷ text "This link expires and can be used once.";
}

-- The state of the delivery, and the result and code of the attempt.
abbrev pub MailOutcome : Type 0
MailOutcome = MailState × MailResult × String

unfoldable pub outcome_of : ℕ → Option SendFailure → MailOutcome
outcome_of attempts none = (smtp_accepted, mail_accepted, "")
outcome_of attempts (some (mail_error code permanent pause)) = (
  if permanent || leb 8 attempts then mail_failed else retry_wait,
  if permanent then mail_rejected else mail_unknown,
  code,
)
outcome_of attempts (some other_error) =
    (if leb 8 attempts then mail_failed else retry_wait, mail_unknown, "SMTP_UNKNOWN")

-- The check before the network effect, and the effect: the mail that is handed to the transport.
unfoldable pub attempt : MailRun → MailDelivery → MailPayload → Org → MailOutcome × Option Mail
attempt run d p o =
    if not (mail_valid run.digest run.rechecked d p o) || not (ltb run.rechecked d.deadline)
    then ((cancelled, mail_rejected, "SOURCE_OBSOLETE"), none)
    else (let m = compose run.origin d.id p in (outcome_of (d.attempts + 1) (run.send m), some m))

abbrev pub is_retry : MailState → Bool
is_retry retry_wait = true
is_retry _ = false

abbrev pub conclude : Time → MailState → MailDelivery → MailDelivery
conclude next state d = record d {
  state = state;
  lease = none;
  lease_until = 0;
  next_attempt_at = next;
  payload = if is_retry state then d.payload else none;
}

-- The last transaction: nothing changes if the lease is lost.
unfoldable pub finish_mail : MailRun → Uuid → ℕ → MailOutcome → Org → Org
finish_mail run id attempts out o =
    if not (any (λ d. d.id == id && is_sending d.state && holds d.lease run.lease) o.mails)
    then o
    else (let o' =
          update_mail id (conclude (run.finished + 2 ^ attempts * minute + run.jitter) out.0) o in
        record o' {
          mail_attempts =
              update_where (λ a. a.delivery == id && a.attempt_no == attempts && is_none a.result)
                (λ a. record a { result = some out.1; code = out.2 }) o'.mail_attempts;
        })

-- `DeliverOne`: the tables afterwards, and the mail that was handed to the transport. `between` is
-- what other transactions do to the tables after the claim and after the send.
unfoldable pub deliver_one : MailRun → (Org → Org) → (Org → Org) → Org → Org × Option Mail
deliver_one run between between' o0 =
    let o = recover_mail run.now o0 in
    elim (first_due run.now run.locked o.mails) [
      | none ↦ (o, none)
      | some d ↦ elim (choose run d o) [
        | ends state ↦ (update_mail d.id (set_state state) o, none)
        | goes p ↦
            let pre = between (start_mail run d o) in
            let tried = attempt run d p pre in
            (finish_mail run d.id (d.attempts + 1) tried.0 (between' pre), tried.1)
      ]
    ]
