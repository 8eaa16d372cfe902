-- ===== src/Inbox/Commands.antt =====
-- The changes that a member makes to a conversation: the settings, `read`, `presence`, `assignment`,
-- `PATCH` and notes of `operation`, and `noteChange`, backend/internal/inbox/operations.go. A failed
-- request leaves the tables as they were.
pub mod Snooze
pub mod Stale
use whats.Base.{
  ℕ, ◌+◌, ◌*◌, String, Bool, true, false, not, ◌&&◌, ◌||◌, List, [], ◌∷◌, Option, none, some,
  Result, ok, err, ◌>>=◌, ◌>>◌, fail_if, or_fail, ltb, leb, max, length, any, find, ◌==◌, nat_eq,
  string_eq, is_some, if◌then◌else◌,
}
use whats.Inbox.Error.{
  Error, domain, validation, permission, not_found, conflict, assignment_changed,
}
use whats.Inbox.Time.{Time, second, hour}
use whats.Inbox.Text.{Text, valid_text}
use whats.Inbox.Store.{
  Uuid, ConversationStatus, opened, resolved, snoozed, Priority, low, normal, high, urgent,
  ConversationRow, ReadMark, Presence, Note, Mention, Db, update_where, audit, event,
}
use whats.Inbox.Evaluation.{Session, Access, Conversation, require, conversation}

-- What the commands ask of the identity tables: teams that are not archived, active members of
-- active users, and team membership.
pub record Directory : Type 0 where
  pub team_open : Uuid → Bool
  pub is_active : Uuid → Bool
  pub in_team : Uuid → Uuid → Bool

-- A watermark is an `int64` and may be negative.
pub data Watermark : Type 0 where
  below_zero : Watermark
  at_least_zero : ℕ → Watermark

-- `command`. A revision that is negative differs from every stored one, as does some natural number.
pub record Command : Type 0 where
  pub revision : ℕ
  pub assignment_revision : ℕ
  pub team : Option Uuid
  pub member : Option Uuid
  pub status : String
  pub priority : String
  pub handoff : String
  pub snooze : Option Time
  pub body : Text
  pub mentions : List Uuid
  pub watermark : Watermark
  pub manual_unread : Bool
  pub enabled : Option Bool

-- `PATCH /inbox/settings`
unfoldable pub change_settings : Access → Uuid → Session → Uuid → Command → Db → Result Error Db
change_settings access org v member input db = do
  require access member "sending.manage" none none
  enabled ← or_fail input.enabled validation
  fail_if (not (db.settings.policy_revision == input.revision)) conflict
  ok (
      audit (some v.user) org "inbox.sending_policy.changed" (record db {
        settings = record db.settings {
          sending_enabled = enabled;
          policy_revision = db.settings.policy_revision + 1;
        };
      }))

-- `INSERT … ON CONFLICT DO UPDATE`
unfoldable pub upsert : {A : Type 0} → (A → Bool) → (A → A) → A → List A → List A
upsert test change new rows = if any test rows then update_where test change rows else new ∷ rows

abbrev pub is_read_of : Uuid → Uuid → ReadMark → Bool
is_read_of conversation member m = m.conversation == conversation && m.member == member

-- `POST /conversations/{id}/read`: the watermark never goes back.
unfoldable pub mark_read : Uuid → Conversation → Command → Db → Result Error Db
mark_read member c input db = elim input.watermark [
  | below_zero ↦ err validation
  | at_least_zero w ↦
      if ltb c.inbound_sequence w
      then err validation
      else ok (record db {
        reads =
            upsert (is_read_of c.id member)
              (λ m. record m {
                inbound_watermark = max m.inbound_watermark w;
                manual_unread = input.manual_unread;
              })
              record {
                conversation = c.id;
                member = member;
                inbound_watermark = w;
                manual_unread = input.manual_unread;
              }
              db.reads;
      })
]

-- `POST /conversations/{id}/presence`
unfoldable pub mark_presence : Time → Uuid → Conversation → Db → Db
mark_presence now member c db = record db {
  presence =
      upsert (λ p. p.conversation == c.id && p.member == member)
        (λ p. record p { expires_at = now + 20 * second })
        record { conversation = c.id; member = member; expires_at = now + 20 * second } db.presence;
}

abbrev pub update_conversation : Uuid → (ConversationRow → ConversationRow) → Db → Db
update_conversation id change db = record db {
  conversations = update_where (λ c. c.id == id) change db.conversations;
}

-- The new team must be one that the member may assign to.
abbrev pub check_team :
    Access → Directory → Uuid → Option Uuid → Option Uuid → Result Error (Unit {0})
check_team access people member none assignee = ok tt
check_team access people member (some team) assignee =
    require access member "conversations.assign" (some team) assignee
    >> fail_if (not (people.team_open team)) validation

abbrev pub is_member_of : Directory → Option Uuid → Uuid → Bool
is_member_of people none member = true
is_member_of people (some team) member = people.in_team member team

-- The new member must be active, of the team, and able to see the conversation.
abbrev pub check_assignee : Access → Directory → Option Uuid → Option Uuid → Result Error (Unit {0})
check_assignee access people team none = ok tt
check_assignee access people team (some member) =
    fail_if
      (not (
        people.is_active member
        && is_member_of people team member
        && access.permitted member "inbox.view" team (some member)))
      validation

-- `PUT /conversations/{id}/assignment`
unfoldable pub assign : Access → Directory → Uuid → Conversation → Command → Db → Result Error Db
assign access people member c input db = do
  fail_if (not (input.assignment_revision == c.assignment_revision)) (domain assignment_changed)
  check_team access people member input.team input.member
  check_assignee access people input.team input.member
  ok (
      update_conversation c.id
        (λ r. record r {
          team = input.team;
          member = input.member;
          assignment_revision = r.assignment_revision + 1;
          revision = r.revision + 1;
        })
        db)

-- An enumeration field of a `PATCH`: empty to leave it, one of the words, or refused.
unfoldable pub status_word : String → Result Error (Option ConversationStatus)
status_word w =
    if w == ""
    then ok none
    else if w == "OPEN"
    then ok (some opened)
    else if w == "RESOLVED"
    then ok (some resolved)
    else if w == "SNOOZED"
    then ok (some snoozed)
    else err validation

unfoldable pub priority_word : String → Result Error (Option Priority)
priority_word w =
    if w == ""
    then ok none
    else if w == "LOW"
    then ok (some low)
    else if w == "NORMAL"
    then ok (some normal)
    else if w == "HIGH"
    then ok (some high)
    else if w == "URGENT"
    then ok (some urgent)
    else err validation

abbrev pub coalesce : {A : Type 0} → Option A → A → A
coalesce none a = a
coalesce (some b) a = b

-- A snooze needs an end within thirty days.
abbrev pub is_snooze_refused : Time → Option ConversationStatus → Option Time → Bool
is_snooze_refused now (some snoozed) none = true
is_snooze_refused now (some snoozed) (some t) = not (ltb now t) || ltb (now + 30 * (24 * hour)) t
is_snooze_refused now _ _ = false

-- The `CASE` for `snoozed_until`
abbrev pub next_snooze : Option ConversationStatus → Option Time → Option Time → Option Time
next_snooze none given old = old
next_snooze (some snoozed) given old = given
next_snooze (some _) given old = none

unfoldable pub patch_row :
    Option ConversationStatus → Option Priority → Command → ConversationRow → ConversationRow
patch_row status priority input r = record r {
  status = coalesce status r.status;
  priority = coalesce priority r.priority;
  handoff_epoch =
      if not (input.handoff == "") && not (input.handoff == r.handoff_state)
      then r.handoff_epoch + 1
      else r.handoff_epoch;
  handoff_state = if input.handoff == "" then r.handoff_state else input.handoff;
  snoozed_until = next_snooze status input.snooze r.snoozed_until;
  revision = r.revision + 1;
}

-- `PATCH /conversations/{id}`
unfoldable pub patch : Time → Conversation → Command → Db → Result Error Db
patch now c input db = do
  fail_if (not (input.revision == c.revision)) conflict
  status ← status_word input.status
  priority ← priority_word input.priority
  fail_if
      (not (input.handoff == "")
        && not (input.handoff == "HUMAN")
        && not (input.handoff == "WAITING_AGENT"))
      validation
  fail_if (is_snooze_refused now status input.snooze) validation
  ok (update_conversation c.id (patch_row status priority input) db)

-- The loop over the mentions of a note.
unfoldable pub add_mentions :
    Access → Directory → Conversation → Uuid → List Uuid → Db → Result Error Db
add_mentions access people c note [] db = ok db
add_mentions access people c note (target ∷ targets) db =
    fail_if (not (people.is_active target)) validation
    >> fail_if (not (access.permitted target "inbox.view" c.team c.member)) validation
    >> add_mentions access people c note targets (record db {
      mentions =
          if any (λ m. m.note == note && m.member == target) db.mentions
          then db.mentions
          else record { note = note; member = target } ∷ db.mentions;
    })

-- `POST /conversations/{id}/notes`
unfoldable pub add_note :
    Access → Directory → Uuid → Session → Uuid → Conversation → Command → Db → Result Error Db
add_note access people id v member c input db = do
  fail_if (not (valid_text input.body 8000) || ltb 20 (length input.mentions)) validation
  noted ← add_mentions access people c id input.mentions (record db {
    notes =
        record {
          id = id;
          conversation = c.id;
          author = member;
          body = input.body;
          revision = 1;
          redacted_at = none;
        }
        ∷ db.notes;
  })
  ok (event c.id "conversation.updated" (audit (some v.user) id "inbox.note.created" noted))

-- The paths below `/conversations/{id}` that change something, and the permission of each.
pub data Action : Type 0 where
  reading presence assignment patching noting : Action

abbrev pub action_key : Action → String
action_key assignment = "conversations.assign"
action_key noting = "notes.write"
action_key patching = "conversations.manage"
action_key _ = ""

abbrev pub logged : Session → Conversation → Db → Db
logged v c db =
    event c.id "conversation.updated" (audit (some v.user) c.id "inbox.conversation.changed" db)

-- `operation` on these paths; `now` is the database's time, `clock` that of the process.
unfoldable pub operate :
    Access
    → Directory
    → Time
    → Time
    → Uuid
    → Session
    → Uuid
    → Uuid
    → Action
    → Command
    → Db
    → Result Error Db
operate access people now clock new v member id action input db =
    conversation access db id member (action_key action) >>= λ c. elim action [
      | reading ↦ mark_read member c input db >>= λ d. ok (event c.id "conversation.updated" d)
      | presence ↦ ok (mark_presence now member c db)
      | assignment ↦ assign access people member c input db >>= λ d. ok (logged v c d)
      | patching ↦ patch clock c input db >>= λ d. ok (logged v c d)
      | noting ↦ add_note access people new v member c input db
    ]

-- `noteChange`
unfoldable pub change_note :
    Access → Time → Session → Uuid → Uuid → Bool → Command → Db → Result Error Db
change_note access now v member id redact input db = do
  note ← or_fail (find (λ n. n.id == id) db.notes) not_found
  let key = if redact then "notes.redact" else "notes.write"
  _ ← conversation access db note.conversation member key
  fail_if (not (note.revision == input.revision) || is_some note.redacted_at) conflict
  fail_if (not redact && (not (member == note.author) || not (valid_text input.body 8000)))
      permission
  ok (
      event note.conversation "conversation.updated" (
        audit (some v.user) id (if redact then "inbox.notes.redact" else "inbox.notes.write")
          (record db {
            notes =
                update_where (λ n. n.id == id)
                  (λ n.
                    if redact
                    then record n { body = []; redacted_at = some now; revision = n.revision + 1 }
                    else record n { body = input.body; revision = n.revision + 1 })
                  db.notes;
          })))
