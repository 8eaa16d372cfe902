-- ===== src/Inbox/Receive/Window.antt =====
-- The service window of a conversation.
use whats.Base.{
  ℕ, ◌+◌, ◌*◌, ◌≤◌, ◌≡◌, refl, inl, inr, String, true, false, not, ◌&&◌, ◌||◌, ◌∷◌, Option, none,
  some, arith, All, find, any, is_some, Bool-cases, Option-cases, ◌==◌, nat_eq, string_eq,
}
use whats.Inbox.Time.{Time, hour}
use whats.Inbox.Text.{Text}
use whats.Inbox.Store.{Uuid, ConversationRow, Db, event}
use whats.Inbox.Evaluation.{LiveConfig}
use whats.Inbox.Commands.Snooze.{All-update_where, IsSnoozeMarked}
use whats.Inbox.Receive.{
  open_window, count_inbound, opens, activity_at, new_conversation, place_recipient,
  place_conversation, add_message, is_acceptable, has_null, is_provided, materialize_message,
}
use whats.Inbox.Content.{Inbound, window_basis, provider_time, typed_content}

-- A window is open from a basis in the past for 24 hours, on the evidence of a message; or there is
-- none.
abbrev pub IsWindowed : Time → ConversationRow → Type 0
IsWindowed now c = elim c.window_basis_at [
  | none ↦ (c.window_expires_at ≡ none) × (c.window_trusted ≡ false)
  | some basis ↦
      (basis ≤ now)
      × (c.window_expires_at ≡ some (basis + 24 * hour))
      × (is_some c.last_eligible ≡ true)
      × (c.window_trusted ≡ true)
]

window_basis-le :
    (provider : Option Time) (ingress now : Time) {basis : Time}
    → window_basis provider ingress now ≡ some basis
    → (basis ≤ now) × (basis ≤ ingress)
unfolding window_basis
window_basis-le none ingress now h = cc
window_basis-le (some provider) ingress now h = ground arith

open_window-IsWindowed :
    (message : Uuid) (basis now : Time) (c : ConversationRow)
    → basis ≤ now
    → IsWindowed now c
    → IsWindowed now (open_window message basis c)
unfolding open_window
open_window-IsWindowed message basis now c early w = elim (Option-cases c.window_basis_at) [
  | inl absent ↦ rw absent (early, refl, refl, refl)
  | inr (old, known) ↦ ground arith
]

opens-IsWindowed :
    (kind : String) (provider : Option Time) (ingress now : Time) (message : Uuid)
    (c : ConversationRow)
    → IsWindowed now c
    → IsWindowed now (opens kind (window_basis provider ingress now) message c)
opens-IsWindowed kind provider ingress now message c w =
    elim (Option-cases (window_basis provider ingress now)) [
      | inl absent ↦ rw absent w
      | inr (basis, known) ↦ elim (Bool-cases (kind == "TEXT")) [
        | inl text ↦
            rw (known, text)
              (open_window-IsWindowed message basis now c
                (window_basis-le provider ingress now known).0 w)
        | inr other ↦ rw (known, other) w
      ]
    ]

count_inbound-IsWindowed :
    (activity now : Time) (c : ConversationRow)
    → IsWindowed now c
    → IsWindowed now (count_inbound activity c)
unfolding count_inbound
count_inbound-IsWindowed activity now c w = w

opens-IsSnoozeMarked :
    (kind : String) (basis : Option Time) (message : Uuid) (c : ConversationRow)
    → IsSnoozeMarked c
    → IsSnoozeMarked (opens kind basis message c)
unfolding open_window
opens-IsSnoozeMarked kind none message c m = m
opens-IsSnoozeMarked kind (some basis) message c m = ground arith

count_inbound-IsSnoozeMarked :
    (activity : Time) (c : ConversationRow)
    → IsSnoozeMarked c
    → IsSnoozeMarked (count_inbound activity c)
unfolding count_inbound
count_inbound-IsSnoozeMarked activity c m = ground arith

-- A predicate that a new conversation has and the two updates keep is kept by a message.
module _ (P : ConversationRow → Type 0) (ingress now : Time)
    (new : (id phone recipient : Uuid) → P (new_conversation id phone recipient ingress))
    (counted : (activity : Time) (c : ConversationRow) → P c → P (count_inbound activity c))
    (opened : (kind : String) (provider : Option Time) (message : Uuid) (c : ConversationRow)
      → P c
      → P (opens kind (window_basis provider ingress now) message c)) where
  place_conversation-All :
      (id phone recipient : Uuid) (db : Db)
      → All P db.conversations
      → All P (place_conversation id phone recipient ingress db).0.conversations
  unfolding place_conversation
  place_conversation-All id phone recipient db all =
      elim (Option-cases
        (find (λ c. c.phone == phone && c.recipient == recipient) db.conversations)) [
          | inl absent ↦
              rw
                (let rows : (place_conversation id phone recipient ingress db).0.conversations
                      ≡ new_conversation id phone recipient ingress ∷ db.conversations =
                    ground arith in
                  rows)
                (new id phone recipient, all)
          | inr (c, known) ↦
              rw
                (let rows : (place_conversation id phone recipient ingress db).0.conversations
                      ≡ db.conversations =
                    ground arith in
                  rows)
                all
        ]

  add_message-All :
      (id conversation phone source : Uuid) (m : Inbound) (db : Db)
      → All P db.conversations
      → All P (add_message id conversation phone source ingress now m db).conversations
  unfolding add_message event
  add_message-All id conversation phone source m db all =
      All-update_where P _ _ db.conversations
        (λ c x.
          opened (typed_content m).0 (provider_time m.timestamp) id _
            (counted (activity_at (provider_time m.timestamp) ingress) c x))
        all

  place_recipient-conversations :
      (live : LiveConfig) (id phone : Uuid) (value : Text) (db : Db)
      → (place_recipient live id phone value db).0.conversations ≡ db.conversations
  unfolding place_recipient
  place_recipient-conversations live id phone value db = ground arith

  materialize_message-All :
      (live : LiveConfig) (ids : ℕ → Uuid) (phone source : Uuid) (m : Option Inbound) (db db' : Db)
      → materialize_message live ids phone source ingress now m db ≡ some db'
      → All P db.conversations
      → All P db'.conversations
  unfolding materialize_message
  materialize_message-All live ids phone source none db db' h all =
      rw (let same : db' ≡ db = ground arith in same) all
  materialize_message-All live ids phone source (some m) db db' h all =
      let placed = place_recipient live (ids 0) phone m.from db in
      let threaded = place_conversation (ids 1) phone placed.1 ingress placed.0 in
      let ready : All P threaded.0.conversations =
        place_conversation-All (ids 1) phone placed.1 placed.0
          (rw (place_recipient-conversations live (ids 0) phone m.from db) all) in
      elim (Bool-cases (is_acceptable m)) [
        | inr refused ↦ rw (let same : db' ≡ db = ground arith in same) all
        | inl fine ↦ elim (Bool-cases (has_null m.id || has_null m.context || not m.storable)) [
          | inl broken ↦ absurd (ground arith)
          | inr stored ↦ elim (Bool-cases (any (is_provided phone m.id) db.messages)) [
            | inl known ↦ rw (let same : db' ≡ threaded.0 = ground arith in same) ready
            | inr fresh ↦
                rw
                  (let same : db'
                        ≡ add_message (ids 2) threaded.1 phone source ingress now m threaded.0 =
                      ground arith in
                    same)
                  (add_message-All (ids 2) threaded.1 phone source m threaded.0 ready)
          ]
        ]
      ]

-- If every window is open from a basis that is not in the future for 24 hours, on the evidence of
-- a message, or there is none, then so it is after a message was taken in.
pub materialize_message-IsWindowed :
    (live : LiveConfig) (ids : ℕ → Uuid) (phone source : Uuid) (ingress now : Time)
    (m : Option Inbound) (db db' : Db)
    → materialize_message live ids phone source ingress now m db ≡ some db'
    → All (IsWindowed now) db.conversations
    → All (IsWindowed now) db'.conversations
materialize_message-IsWindowed live ids phone source ingress now m db db' =
    materialize_message-All (IsWindowed now) ingress now (λ _ _ _. (refl, refl))
      (λ a c. count_inbound-IsWindowed a now c)
      (λ kind provider message c. opens-IsWindowed kind provider ingress now message c) live ids
      phone source m db db'

-- If the conversations that are snoozed are those that have an end of the snooze, then so it is
-- after a message was taken in.
pub materialize_message-IsSnoozeMarked :
    (live : LiveConfig) (ids : ℕ → Uuid) (phone source : Uuid) (ingress now : Time)
    (m : Option Inbound) (db db' : Db)
    → materialize_message live ids phone source ingress now m db ≡ some db'
    → All IsSnoozeMarked db.conversations
    → All IsSnoozeMarked db'.conversations
materialize_message-IsSnoozeMarked live ids phone source ingress now m db db' =
    materialize_message-All IsSnoozeMarked ingress now (λ _ _ _. refl)
      (λ a c. count_inbound-IsSnoozeMarked a c)
      (λ kind provider message c.
        opens-IsSnoozeMarked kind (window_basis provider ingress now) message c)
      live ids phone source m db db'
