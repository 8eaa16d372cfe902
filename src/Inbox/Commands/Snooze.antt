-- ===== src/Inbox/Commands/Snooze.antt =====
-- A conversation is snoozed exactly when it has an end of the snooze.
use whats.Base.{
  ◌+◌, ◌≡◌, refl, inl, inr, Bool, false, List, [], ◌∷◌, Option, none, some, ok, arith, All,
  Result-cases, Bool-cases, >>=-eq-ok, is_some, ◌==◌, nat_eq,
}
use whats.Inbox.Time.{Time}
use whats.Inbox.Store.{
  Uuid, ConversationStatus, opened, resolved, snoozed, Priority, ConversationRow, Db, update_where,
  audit, event,
}
use whats.Inbox.Evaluation.{Session, Access, Conversation, conversation}
use whats.Inbox.Outcome.{is_snoozed}
use whats.Inbox.Commands.{
  Directory, Command, Action, reading, presence, assignment, patching, noting, operate, assign,
  patch, patch_row, mark_read, mark_presence, add_note, add_mentions, check_team, check_assignee,
  status_word, priority_word, is_snooze_refused,
}

abbrev pub IsSnoozeMarked : ConversationRow → Type 0
IsSnoozeMarked r = is_snoozed r.status ≡ is_some r.snoozed_until

pub All-update_where :
    {A : Type 0} (P : A → Type 0) (test : A → Bool) (change : A → A) (rows : List A)
    → ((r : A) → P r → P (change r))
    → All P rows
    → All P (update_where test change rows)
All-update_where P test change [] kept all = tt
All-update_where P test change (r ∷ rs) kept (here, rest) = (
  elim (Bool-cases (test r)) [ inl hit ↦ rw hit (kept r here) | inr miss ↦ rw miss here ],
  All-update_where P test change rs kept rest,
)

patch_row-IsSnoozeMarked :
    (clock : Time) (status : Option ConversationStatus) (priority : Option Priority)
    (input : Command) (r : ConversationRow)
    → is_snooze_refused clock status input.snooze ≡ false
    → IsSnoozeMarked r
    → IsSnoozeMarked (patch_row status priority input r)
unfolding patch_row
patch_row-IsSnoozeMarked clock none priority input r h marked = marked
patch_row-IsSnoozeMarked clock (some opened) priority input r h marked = refl
patch_row-IsSnoozeMarked clock (some resolved) priority input r h marked = refl
patch_row-IsSnoozeMarked clock (some snoozed) priority input r h marked = ground arith

AllMarked : Db → Type 0
AllMarked db = All IsSnoozeMarked db.conversations

patch-AllMarked :
    (clock : Time) (c : Conversation) (input : Command) (db : Db) {db' : Db}
    → patch clock c input db ≡ ok db'
    → AllMarked db
    → AllMarked db'
unfolding patch AllMarked
patch-AllMarked clock c input db {db'} h marked = elim (Result-cases (status_word input.status)) [
  | inl (e, refused) ↦ absurd (ground arith)
  | inr (status, known) ↦ elim (Result-cases (priority_word input.priority)) [
    | inl (e, refused) ↦ absurd (ground arith)
    | inr (priority, known') ↦
        let rows : db'.conversations
            ≡ update_where (λ r. r.id == c.id) (patch_row status priority input) db.conversations =
          ground arith in
        rw rows (
          All-update_where IsSnoozeMarked _ (patch_row status priority input) db.conversations
            (λ r. patch_row-IsSnoozeMarked clock status priority input r (ground arith)) marked)
  ]
]

assign-AllMarked :
    (access : Access) (people : Directory) (member : Uuid) (c : Conversation) (input : Command)
    (db : Db) {db' : Db}
    → assign access people member c input db ≡ ok db'
    → AllMarked db
    → AllMarked db'
unfolding assign AllMarked
assign-AllMarked access people member c input db {db'} h marked =
    elim (Result-cases (check_team access people member input.team input.member)) [
      | inl (e, refused) ↦ absurd (ground arith)
      | inr (_, allowed) ↦
          elim (Result-cases (check_assignee access people input.team input.member)) [
            | inl (e, refused) ↦ absurd (ground arith)
            | inr (_, allowed') ↦
                let change : ConversationRow → ConversationRow = λ r. record r {
                  team = input.team;
                  member = input.member;
                  assignment_revision = r.assignment_revision + 1;
                  revision = r.revision + 1;
                } in
                let rows : db'.conversations
                    ≡ update_where (λ r. r.id == c.id) change db.conversations =
                  ground arith in
                rw rows
                  (All-update_where IsSnoozeMarked _ change db.conversations (λ r m. m) marked)
          ]
    ]

mark_read-conversations :
    (member : Uuid) (c : Conversation) (input : Command) (db : Db) {db' : Db}
    → mark_read member c input db ≡ ok db'
    → db'.conversations ≡ db.conversations
unfolding mark_read
mark_read-conversations member c input db h = ground arith

add_mentions-conversations :
    (access : Access) (people : Directory) (c : Conversation) (note : Uuid) (ms : List Uuid)
    (db : Db) {db' : Db}
    → add_mentions access people c note ms db ≡ ok db'
    → db'.conversations ≡ db.conversations
unfolding add_mentions
add_mentions-conversations access people c note [] db h = ground arith
add_mentions-conversations access people c note (m ∷ ms) db {db'} h =
    elim (Bool-cases (people.is_active m)) [
      | inr absent ↦ absurd (ground arith)
      | inl active ↦ elim (Bool-cases (access.permitted m "inbox.view" c.team c.member)) [
        | inr hidden ↦ absurd (ground arith)
        | inl visible ↦
            add_mentions-conversations access people c note ms _ (rw (active, visible) at h)
      ]
    ]

abbrev with_note : Uuid → Uuid → Conversation → Command → Db → Db
with_note id member c input db = record db {
  notes =
      record {
        id = id;
        conversation = c.id;
        author = member;
        body = input.body;
        revision = 1;
        redacted_at = none;
      }
      ∷ db.notes;
}

add_note-conversations :
    (access : Access) (people : Directory) (id : Uuid) (v : Session) (member : Uuid)
    (c : Conversation) (input : Command) (db : Db) {db' : Db}
    → add_note access people id v member c input db ≡ ok db'
    → db'.conversations ≡ db.conversations
unfolding add_note audit event
add_note-conversations access people id v member c input db h =
    elim (Result-cases
      (add_mentions access people c id input.mentions (with_note id member c input db))) [
        | inl (e, refused) ↦ absurd (ground arith)
        | inr (noted, added) ↦ ground (
          arith,
          add_mentions-conversations access people c id input.mentions
              (with_note id member c input db) added,
        )
      ]

-- If the conversations that are snoozed are those that have an end of the snooze, then so it is
-- after every successful command on a conversation.
pub operate-IsSnoozeMarked :
    (access : Access) (people : Directory) (now clock : Time) (new : Uuid) (v : Session)
    (member id : Uuid) (action : Action) (input : Command) (db db' : Db)
    → operate access people now clock new v member id action input db ≡ ok db'
    → All IsSnoozeMarked db.conversations
    → All IsSnoozeMarked db'.conversations
unfolding operate AllMarked audit event mark_presence
operate-IsSnoozeMarked access people now clock new v member id reading input db db' h marked =
    let (c, seen, run) = >>=-eq-ok (conversation access db id member "") _ h in
    let (d, read, done) = >>=-eq-ok (mark_read member c input db) _ run in
    let same : db'.conversations ≡ db.conversations =
      ground (arith, done, mark_read-conversations member c input db read) in
    rw same marked
operate-IsSnoozeMarked access people now clock new v member id presence input db db' h marked =
    let (c, seen, done) = >>=-eq-ok (conversation access db id member "") _ h in
    let same : db'.conversations ≡ db.conversations = ground arith in rw same marked
operate-IsSnoozeMarked access people now clock new v member id assignment input db db' h marked =
    let (c, seen, run) = >>=-eq-ok (conversation access db id member "conversations.assign") _ h in
    let (d, assigned, done) = >>=-eq-ok (assign access people member c input db) _ run in
    let same : db'.conversations ≡ d.conversations = ground (arith, done) in
    rw same (assign-AllMarked access people member c input db assigned marked)
operate-IsSnoozeMarked access people now clock new v member id patching input db db' h marked =
    let (c, seen, run) = >>=-eq-ok (conversation access db id member "conversations.manage") _ h in
    let (d, patched, done) = >>=-eq-ok (patch clock c input db) _ run in
    let same : db'.conversations ≡ d.conversations = ground (arith, done) in
    rw same (patch-AllMarked clock c input db patched marked)
operate-IsSnoozeMarked access people now clock new v member id noting input db db' h marked =
    let (c, seen, run) = >>=-eq-ok (conversation access db id member "notes.write") _ h in
    rw (add_note-conversations access people new v member c input db run) marked
