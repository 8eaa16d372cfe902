-- ===== src/Inbox/Receive/Redelivery.antt =====
-- The provider may deliver a message or a status again.
use whats.Base.{
  ℕ, ◌≡◌, refl, ap, ◌∙◌, inl, inr, String, Bool, true, false, not, ◌&&◌, ◌||◌, List, [], ◌∷◌,
  Option, none, some, arith, find, any, is_some, leb, Bool-cases, Option-cases, ◌==◌, nat_eq,
  string_eq, list_eq, list_beq_iff,
}
use text.Mathlib.TextEquality.{eq_iff}
use whats.Inbox.Time.{Time}
use whats.Inbox.Text.{Text, byte_length}
use whats.Inbox.Store.{Uuid, Recipient, ConversationRow, Db, update_where, event}
use whats.Inbox.Evaluation.{LiveConfig}
use whats.Inbox.Outcome.{correlate_status}
use whats.Inbox.Delivery.{normal_status}
use whats.Inbox.Commands.Stale.{find-update_where}
use whats.Inbox.Receive.{
  StatusInput, is_identity, is_thread, is_provided, is_acceptable, has_null, open_window,
  count_inbound, opens, activity_at, place_recipient, place_conversation, add_message,
  materialize_message, materialize_status,
}
use whats.Inbox.Content.{Inbound, window_basis, provider_time, typed_content}

correlate_status-statuses :
    (phone : Uuid) (provider : Text) (db : Db)
    → (correlate_status phone provider db).statuses ≡ db.statuses
unfolding correlate_status event
correlate_status-statuses phone provider db = ground arith

abbrev with_fact : (StatusInput → String) → Uuid → StatusInput → Db → Db
with_fact hash_fact phone v db = record db {
  statuses =
      record {
        phone = phone;
        provider_id = v.id;
        status = normal_status v.status;
        fact_hash = hash_fact v;
      }
      ∷ db.statuses;
}

-- A status that was taken in changes nothing when it is delivered again.
pub materialize_status-again :
    (hash_fact : StatusInput → String) (phone : Uuid) (v : Option StatusInput) (db db' : Db)
    → materialize_status hash_fact phone v db ≡ some db'
    → materialize_status hash_fact phone v db' ≡ some db'
unfolding materialize_status
materialize_status-again hash_fact phone none db db' h = refl
materialize_status-again hash_fact phone (some v) db db' h =
    elim (Bool-cases (leb 1 (byte_length v.id) && leb (byte_length v.id) 512)) [
      | inr refused ↦ rw refused refl
      | inl fine ↦ elim (Bool-cases (has_null v.id)) [
        | inl broken ↦ absurd (ground arith)
        | inr stored ↦
            elim (Bool-cases
              (any (λ s. s.phone == phone && s.fact_hash == hash_fact v) db.statuses)) [
                | inl known ↦
                    let same : db' ≡ db = ground arith in rw (fine, stored, same, known) refl
                | inr fresh ↦
                    let taken : db' ≡ correlate_status phone v.id (with_fact hash_fact phone v db) =
                      ground arith in
                    let known : any (λ s. s.phone == phone && s.fact_hash == hash_fact v)
                          db'.statuses
                        ≡ true =
                      rw
                        (ap (λ d. d.statuses) taken
                          ∙ correlate_status-statuses phone v.id (with_fact hash_fact phone v db))
                        (ground (arith, eq_iff (hash_fact v) (hash_fact v))) in
                    rw (fine, stored, known) refl
              ]
      ]
    ]

find-update_where_some :
    {A : Type 0} (test chosen : A → Bool) (change : A → A) (xs : List A)
    → ((y : A) → test (change y) ≡ test y)
    → is_some (find test (update_where chosen change xs)) ≡ is_some (find test xs)
find-update_where_some test chosen change [] kept = refl
find-update_where_some test chosen change (y ∷ ys) kept =
    let rest = find-update_where_some test chosen change ys kept in
    elim (Bool-cases (chosen y)) [
      | inl hit ↦ elim (Bool-cases (test y)) [
        | inl found ↦ rw (hit, kept y, found) refl
        | inr passed ↦ rw (hit, kept y, passed) rest
      ]
      | inr miss ↦ elim (Bool-cases (test y)) [
        | inl found ↦ rw (miss, found) refl
        | inr passed ↦ rw (miss, passed) rest
      ]
    ]

-- The recipient, the conversation and the message are there.
record IsPlaced (phone : Uuid) (from id : Text) (db : Db) : Type 0 where
  recipient : Recipient
  identified : find (is_identity phone from) db.recipients ≡ some recipient
  threaded : is_some (find (is_thread phone recipient.id) db.conversations) ≡ true
  provided : any (is_provided phone id) db.messages ≡ true

place_recipient-found :
    (live : LiveConfig) (new phone : Uuid) (value : Text) (db : Db)
    → (r : Recipient) × (find
          (is_identity phone value)
          (place_recipient live new phone value db).0.recipients
        ≡ some r)
      × (r.id ≡ (place_recipient live new phone value db).1)
unfolding place_recipient
place_recipient-found live new phone value db =
    elim (Option-cases (find (is_identity phone value) db.recipients)) [
      | inl absent ↦ (
        record {
          id = new;
          phone = phone;
          identity_value = value;
          suppressed = false;
          is_test = live.enabled && live.recipient == value;
          campaign_excluded = true;
        },
        ground (arith, list_beq_iff value value),
        ground arith,
      )
      | inr (r, known) ↦
          let test = live.enabled && live.recipient == value in
          let marked =
            find-update_where (is_identity phone value)
              (λ s. record s { is_test = s.is_test || test }) db.recipients (λ y. refl) known in
          (record r { is_test = r.is_test || test }, ground (arith, marked), ground arith)
    ]

place_recipient-messages :
    (live : LiveConfig) (new phone : Uuid) (value : Text) (db : Db)
    → (place_recipient live new phone value db).0.messages ≡ db.messages
unfolding place_recipient
place_recipient-messages live new phone value db = ground arith

place_conversation-found :
    (new phone recipient : Uuid) (ingress : Time) (db : Db)
    → is_some (
        find
          (is_thread phone recipient)
          (place_conversation new phone recipient ingress db).0.conversations)
      ≡ true
unfolding place_conversation
place_conversation-found new phone recipient ingress db = ground arith

place_conversation-others :
    (new phone recipient : Uuid) (ingress : Time) (db : Db)
    → ((place_conversation new phone recipient ingress db).0.recipients ≡ db.recipients)
      × ((place_conversation new phone recipient ingress db).0.messages ≡ db.messages)
unfolding place_conversation
place_conversation-others new phone recipient ingress db = ground arith

opens-thread :
    (phone recipient : Uuid) (kind : String) (basis : Option Time) (message : Uuid)
    (activity : Time) (c : ConversationRow)
    → is_thread phone recipient (opens kind basis message (count_inbound activity c))
      ≡ is_thread phone recipient c
unfolding count_inbound open_window
opens-thread phone recipient kind basis message activity c = ground arith

opened_rows-thread :
    (phone recipient conversation id : Uuid) (kind : String) (basis : Option Time) (activity : Time)
    (rows : List ConversationRow)
    → is_some (
        find (is_thread phone recipient) (
          update_where
            (λ c. c.id == conversation)
            (λ c. opens kind basis id (count_inbound activity c))
            rows))
      ≡ is_some (find (is_thread phone recipient) rows)
opened_rows-thread phone recipient conversation id kind basis activity rows =
    find-update_where_some (is_thread phone recipient) (λ c. c.id == conversation)
      (λ c. opens kind basis id (count_inbound activity c)) rows
      (λ c. opens-thread phone recipient kind basis id activity c)

add_message-thread :
    (id conversation phone source recipient : Uuid) (ingress now : Time) (m : Inbound) (db : Db)
    → is_some (
        find
          (is_thread phone recipient)
          (add_message id conversation phone source ingress now m db).conversations)
      ≡ is_some (find (is_thread phone recipient) db.conversations)
unfolding add_message event
add_message-thread id conversation phone source recipient ingress now m db =
    opened_rows-thread phone recipient conversation id (typed_content m).0
      (window_basis (provider_time m.timestamp) ingress now)
      (activity_at (provider_time m.timestamp) ingress) db.conversations

add_message-others :
    (id conversation phone source : Uuid) (ingress now : Time) (m : Inbound) (db : Db)
    → ((add_message id conversation phone source ingress now m db).recipients ≡ db.recipients)
      × (any
            (is_provided phone m.id)
            (add_message id conversation phone source ingress now m db).messages
          ≡ true)
unfolding add_message event
add_message-others id conversation phone source ingress now m db =
    (refl, ground (arith, list_beq_iff m.id m.id))

-- A message that was taken in is placed.
materialize_message-IsPlaced :
    (live : LiveConfig) (ids : ℕ → Uuid) (phone source : Uuid) (ingress now : Time) (m : Inbound)
    (db db' : Db)
    → materialize_message live ids phone source ingress now (some m) db ≡ some db'
    → is_acceptable m ≡ true
    → (has_null m.id || has_null m.context || not m.storable ≡ false)
      × IsPlaced phone m.from m.id db'
unfolding materialize_message
materialize_message-IsPlaced live ids phone source ingress now m db db' h fine =
    let placed = place_recipient live (ids 0) phone m.from db in
    let threaded = place_conversation (ids 1) phone placed.1 ingress placed.0 in
    let (r, identified, same_id) = place_recipient-found live (ids 0) phone m.from db in
    let (recipients, messages) =
      place_conversation-others (ids 1) phone placed.1 ingress placed.0 in
    let in_thread : is_some (find (is_thread phone r.id) threaded.0.conversations) ≡ true =
      rw same_id (place_conversation-found (ids 1) phone placed.1 ingress placed.0) in
    elim (Bool-cases (has_null m.id || has_null m.context || not m.storable)) [
      | inl broken ↦ absurd (ground arith)
      | inr stored ↦ elim (Bool-cases (any (is_provided phone m.id) db.messages)) [
        | inl known ↦
            let done : db' ≡ threaded.0 = ground arith in
            (
              stored,
              record {
                recipient = r;
                identified = rw done (rw recipients identified);
                threaded = rw done in_thread;
                provided = rw done (
                    rw messages (rw (place_recipient-messages live (ids 0) phone m.from db) known));
              },
            )
        | inr fresh ↦
            let done : db' ≡ add_message (ids 2) threaded.1 phone source ingress now m threaded.0 =
              ground arith in
            let (kept, there) =
              add_message-others (ids 2) threaded.1 phone source ingress now m threaded.0 in
            (
              stored,
              record {
                recipient = r;
                identified = rw done (rw (kept, recipients) identified);
                threaded = rw done (
                    add_message-thread (ids 2) threaded.1 phone source r.id ingress now m threaded.0
                    ∙ in_thread);
                provided = rw done there;
              },
            )
      ]
    ]

-- Messages, conversations and events are the same.
pub record IsUnmoved (db db' : Db) : Type 0 where
  pub messages : db'.messages ≡ db.messages
  pub conversations : db'.conversations ≡ db.conversations
  pub events : db'.events ≡ db.events

IsPlaced-IsUnmoved :
    (live : LiveConfig) (ids : ℕ → Uuid) (phone source : Uuid) (ingress now : Time) (m : Inbound)
    (db : Db)
    → is_acceptable m ≡ true
    → (has_null m.id || has_null m.context || not m.storable) ≡ false
    → IsPlaced phone m.from m.id db
    → (db' : Db) × (materialize_message live ids phone source ingress now (some m) db ≡ some db')
      × IsUnmoved db db'
unfolding materialize_message place_recipient place_conversation
IsPlaced-IsUnmoved live ids phone source ingress now m db fine stored x =
    elim (Option-cases (find (is_thread phone x.recipient.id) db.conversations)) [
      | inl absent ↦ absurd (ground (arith, x.threaded))
      | inr (c, known) ↦
          let test = live.enabled && live.recipient == m.from in
          (
            record db {
              recipients =
                  update_where (is_identity phone m.from)
                    (λ s. record s { is_test = s.is_test || test }) db.recipients;
            },
            ground (arith, x.identified, x.provided),
            record { messages = refl; conversations = refl; events = refl },
          )
    ]

-- A message that was taken in, delivered again at any time, changes no message, no conversation
-- and no event.
pub materialize_message-again :
    (live : LiveConfig) (ids ids' : ℕ → Uuid) (phone source source' : Uuid)
    (ingress now ingress' now' : Time) (m : Option Inbound) (db db' : Db)
    → materialize_message live ids phone source ingress now m db ≡ some db'
    → (db'' : Db) × (materialize_message live ids' phone source' ingress' now' m db' ≡ some db'')
      × IsUnmoved db' db''
unfolding materialize_message
materialize_message-again live ids ids' phone source source' ingress now ingress' now' none db db'
      h =
    (db', refl, record { messages = refl; conversations = refl; events = refl })
materialize_message-again live ids ids' phone source source' ingress now ingress' now' (some m) db
      db' h =
    elim (Bool-cases (is_acceptable m)) [
      | inr refused ↦
          (db', ground arith, record { messages = refl; conversations = refl; events = refl })
      | inl fine ↦
          let (stored, placed) =
            materialize_message-IsPlaced live ids phone source ingress now m db db' h fine in
          IsPlaced-IsUnmoved live ids' phone source' ingress' now' m db' fine stored placed
    ]
