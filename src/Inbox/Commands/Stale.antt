-- ===== src/Inbox/Commands/Stale.antt =====
-- Changes are made against the revision that the member has seen.
use mathlib.Core.Option.{some_inj}
use whats.Base.{
  find-holds, ℕ, ◌+◌, ◌≡◌, refl, sym, ap, ◌∙◌, inl, inr, String, Bool, List, [], ◌∷◌, some, ok, err,
  arith, find, Result-cases, Bool-cases, >>=-eq-ok, ◌==◌, nat_eq, nat_beq_iff,
}
use whats.Inbox.Error.{Error, domain, conflict, assignment_changed}
use whats.Inbox.Time.{Time}
use whats.Inbox.Store.{Uuid, ConversationRow, Db, update_where, audit, event}
use whats.Inbox.Evaluation.{Session, Access, Conversation, conversation, join_conversation}
use whats.Inbox.Commands.{
  Directory, Command, assignment, patching, operate, assign, patch, patch_row, logged, check_team,
  check_assignee, status_word, priority_word,
}

-- An update that keeps a row under the same test is found there.
pub find-update_where :
    {A : Type 0} (test : A → Bool) (change : A → A) (xs : List A) {x : A}
    → ((y : A) → test (change y) ≡ test y)
    → find test xs ≡ some x
    → find test (update_where test change xs) ≡ some (change x)
find-update_where test change [] kept h = cc
find-update_where test change (y ∷ ys) {x} kept h = elim (Bool-cases (test y)) [
  | inl hit ↦ rw (hit, kept y, hit) (ap (λ z. some (change z)) (some_inj.0 (sym (rw hit refl) ∙ h)))
  | inr miss ↦ rw (miss, miss) (find-update_where test change ys kept (sym (rw miss refl) ∙ h))
]

pub conversation-find :
    (access : Access) (db : Db) (id member : Uuid) (key : String) {c : Conversation}
    → conversation access db id member key ≡ ok c
    → find (λ r. r.id == id) db.conversations ≡ some c.row
unfolding conversation join_conversation
conversation-find access db id member key h = ground arith

logged-conversations :
    (v : Session) (c : Conversation) (db : Db) → (logged v c db).conversations ≡ db.conversations
unfolding audit event
logged-conversations v c db = refl

-- What the two commands do to the conversations.
record Changed (c : Conversation) (db db' : Db) (count : ConversationRow → ℕ) (seen : ℕ)
    : Type 0 where
  fresh : seen ≡ count c.row
  change : ConversationRow → ConversationRow
  same_id : (r : ConversationRow) → (change r).id ≡ r.id
  counted : (r : ConversationRow) → count (change r) ≡ count r + 1
  updated : db'.conversations ≡ update_where (λ r. r.id == c.id) change db.conversations

patch-Changed :
    (clock : Time) (c : Conversation) (input : Command) (db : Db) {db' : Db}
    → patch clock c input db ≡ ok db'
    → Changed c db db' (λ r. r.revision) input.revision
unfolding patch patch_row
patch-Changed clock c input db h = elim (Result-cases (status_word input.status)) [
  | inl (e, refused) ↦ absurd (ground arith)
  | inr (status, known) ↦ elim (Result-cases (priority_word input.priority)) [
    | inl (e, refused) ↦ absurd (ground arith)
    | inr (priority, known') ↦ record {
      fresh = ground arith;
      change = patch_row status priority input;
      same_id = λ r. refl;
      counted = λ r. refl;
      updated = ground arith;
    }
  ]
]

assign-Changed :
    (access : Access) (people : Directory) (member : Uuid) (c : Conversation) (input : Command)
    (db : Db) {db' : Db}
    → assign access people member c input db ≡ ok db'
    → Changed c db db' (λ r. r.assignment_revision) input.assignment_revision
unfolding assign
assign-Changed access people member c input db h =
    elim (Result-cases (check_team access people member input.team input.member)) [
      | inl (e, refused) ↦ absurd (ground arith)
      | inr (_, allowed) ↦
          elim (Result-cases (check_assignee access people input.team input.member)) [
            | inl (e, refused) ↦ absurd (ground arith)
            | inr (_, allowed') ↦ record {
              fresh = ground arith;
              change = λ r. record r {
                team = input.team;
                member = input.member;
                assignment_revision = r.assignment_revision + 1;
                revision = r.revision + 1;
              };
              same_id = λ r. refl;
              counted = λ r. refl;
              updated = ground arith;
            }
          ]
    ]

-- After the change the row of the conversation has another count than the one seen.
Changed-later :
    (access : Access) (c c' : Conversation) (db db' : Db) (id member : Uuid) (key : String)
    (count : ConversationRow → ℕ) (seen : ℕ)
    → conversation access db id member key ≡ ok c
    → Changed c db db' count seen
    → conversation access db' id member key ≡ ok c'
    → count c'.row ≡ seen + 1
Changed-later access c c' db db' id member key count seen before_ x after_ =
    let row = conversation-find access db id member key before_ in
    let own : c.id ≡ id = ground (arith, find-holds (λ r. r.id == id) db.conversations row) in
    let moved : find (λ r. r.id == id) db'.conversations ≡ some (x.change c.row) =
      ap (find (λ r. r.id == id))
        (x.updated ∙ ap (λ i. update_where (λ r. r.id == i) x.change db.conversations) own)
      ∙ find-update_where (λ r. r.id == id) x.change db.conversations
          (λ r. ap (λ i. i == id) (x.same_id r)) row in
    let same : x.change c.row ≡ c'.row =
      ground (arith, moved, conversation-find access db' id member key after_) in
    ground (arith, x.counted c.row, x.fresh, ap count same)

patch-stale :
    (clock : Time) (c : Conversation) (input : Command) (db : Db)
    → c.revision ≡ input.revision + 1
    → patch clock c input db ≡ err conflict
unfolding patch
patch-stale clock c input db h = ground (arith, nat_beq_iff input.revision (input.revision + 1))

assign-stale :
    (access : Access) (people : Directory) (member : Uuid) (c : Conversation) (input : Command)
    (db : Db)
    → c.assignment_revision ≡ input.assignment_revision + 1
    → assign access people member c input db ≡ err (domain assignment_changed)
unfolding assign
assign-stale access people member c input db h =
    ground (arith, nat_beq_iff input.assignment_revision (input.assignment_revision + 1))

operate-patching :
    (access : Access) (people : Directory) (now clock : Time) (new : Uuid) (v : Session)
    (member id : Uuid) (input : Command) (db : Db) {db' : Db}
    → operate access people now clock new v member id patching input db ≡ ok db'
    → (c : Conversation) × (conversation access db id member "conversations.manage" ≡ ok c)
      × ((d : Db) × (patch clock c input db ≡ ok d) × (db' ≡ logged v c d))
unfolding operate
operate-patching access people now clock new v member id input db h =
    let (c, seen, run) = >>=-eq-ok (conversation access db id member "conversations.manage") _ h in
    let (d, patched, done) = >>=-eq-ok (patch clock c input db) _ run in
    (c, seen, (d, patched, ground arith))

operate-assignment :
    (access : Access) (people : Directory) (now clock : Time) (new : Uuid) (v : Session)
    (member id : Uuid) (input : Command) (db : Db) {db' : Db}
    → operate access people now clock new v member id assignment input db ≡ ok db'
    → (c : Conversation) × (conversation access db id member "conversations.assign" ≡ ok c)
      × ((d : Db) × (assign access people member c input db ≡ ok d) × (db' ≡ logged v c d))
unfolding operate
operate-assignment access people now clock new v member id input db h =
    let (c, seen, run) = >>=-eq-ok (conversation access db id member "conversations.assign") _ h in
    let (d, assigned, done) = >>=-eq-ok (assign access people member c input db) _ run in
    (c, seen, (d, assigned, ground arith))

Changed-logged :
    (v : Session) (c : Conversation) (db d : Db) (count : ConversationRow → ℕ) (seen : ℕ)
    → Changed c db d count seen
    → Changed c db (logged v c d) count seen
Changed-logged v c db d count seen x = record {
  fresh = x.fresh;
  change = x.change;
  same_id = x.same_id;
  counted = x.counted;
  updated = logged-conversations v c d ∙ x.updated;
}

-- A PATCH that has succeeded is refused when it is sent again with the same revision.
pub operate-patching_again :
    (access : Access) (people : Directory) (now clock now' clock' : Time) (new new' : Uuid)
    (v : Session) (member id : Uuid) (input : Command) (db db' : Db)
    → operate access people now clock new v member id patching input db ≡ ok db'
    → (e : Error) × (operate access people now' clock' new' v member id patching input db' ≡ err e)
unfolding operate
operate-patching_again access people now clock now' clock' new new' v member id input db db' h =
    let (c, seen, (d, patched, done)) =
      operate-patching access people now clock new v member id input db h in
    elim (Result-cases (conversation access db' id member "conversations.manage")) [
      | inl (e, hidden) ↦ (e, rw hidden refl)
      | inr (c', seen') ↦
          let later =
            Changed-later access c c' db (logged v c d) id member "conversations.manage"
              (λ r. r.revision) input.revision seen
              (Changed-logged v c db d (λ r. r.revision) input.revision
                (patch-Changed clock c input db patched))
              (rw done at seen') in
          (conflict, rw seen' (rw (patch-stale clock' c' input db' later) refl))
    ]

-- An assignment that has succeeded is refused when it is sent again with the same assignment
-- revision.
pub operate-assignment_again :
    (access : Access) (people : Directory) (now clock now' clock' : Time) (new new' : Uuid)
    (v : Session) (member id : Uuid) (input : Command) (db db' : Db)
    → operate access people now clock new v member id assignment input db ≡ ok db'
    → (e : Error) × (operate access people now' clock' new' v member id assignment input db'
        ≡ err e)
unfolding operate
operate-assignment_again access people now clock now' clock' new new' v member id input db db' h =
    let (c, seen, (d, assigned, done)) =
      operate-assignment access people now clock new v member id input db h in
    elim (Result-cases (conversation access db' id member "conversations.assign")) [
      | inl (e, hidden) ↦ (e, rw hidden refl)
      | inr (c', seen') ↦
          let later =
            Changed-later access c c' db (logged v c d) id member "conversations.assign"
              (λ r. r.assignment_revision) input.assignment_revision seen
              (Changed-logged v c db d (λ r. r.assignment_revision) input.assignment_revision
                (assign-Changed access people member c input db assigned))
              (rw done at seen') in
          (
            domain assignment_changed,
            rw seen' (rw (assign-stale access people member c' input db' later) refl),
          )
    ]
