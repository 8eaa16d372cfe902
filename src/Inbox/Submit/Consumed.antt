-- ===== src/Inbox/Submit/Consumed.antt =====
-- What a successful `submit` of backend/internal/inbox/guard.go finds in the tables and leaves there.
use mathlib.Core.List.{Memᴰ}
use mathlib.Core.List.Memᴰ.{head, tail}
use text.Mathlib.TextEquality.{eq_iff}
use whats.Base.{
  ◌<◌, ◌≡◌, ◌⊎◌, refl, sym, ap, ◌∙◌, inl, inr, String, Bool, true, false, not, ◌&&◌, ◌||◌, List, [],
  ◌∷◌, ◌++◌, none, some, ok, arith, find, any, all, holds, is_none, is_some, Bool-cases, ◌==◌,
  nat_eq, string_eq, list_eq, list_beq_iff, nat_beq_iff, find-holds,
}
use whats.Inbox.Time.{Time}
use whats.Inbox.Text.{Text}
use whats.Inbox.Delivery.{DeliveryState}
use whats.Inbox.Guard.Laws.{IsAdmissible}
use whats.Inbox.Store.{
  Uuid, IntentState, Intent, Authorization, Message, Db, update_where, audit, event,
}
use whats.Inbox.Evaluation.{
  Session, Access, LiveConfig, Conversation, SendInput, Scope, conversation, scope_of,
  current_policy, policy_id, guard_input, sender_binding,
}
use whats.Inbox.Evaluation.Laws.{evaluate_scope-allowed_iff}
use whats.Inbox.Submit.{Submitted, has_key, is_usable, new_intent, new_message, enqueue, submit}
use whats.Inbox.Submit.Laws.{repeated, queued, submit-Accepted}

find-Memᴰ : {A : Type 0} (test : A → Bool) (xs : List A) {x : A} → find test xs ≡ some x → Memᴰ x xs
find-Memᴰ test [] h = absurd (ground arith)
find-Memᴰ test (y ∷ ys) {x} h = elim (Bool-cases (test y)) [
  | inl hit ↦ let same : x ≡ y = ground arith in head same
  | inr miss ↦ tail (find-Memᴰ test ys (rw miss at h))
]

find-absent :
    {A : Type 0} (test : A → Bool) (xs : List A) → find test xs ≡ none → any test xs ≡ false
find-absent test [] h = refl
find-absent test (x ∷ xs) h = ground (arith, find-absent test xs (ground arith))

-- The update of `submit` on the authorizations.
abbrev consume : Uuid → Uuid → List Authorization → List Authorization
consume id intent rows =
    update_where (λ a. a.id == id && is_none a.consumed_intent)
      (λ a. record a { consumed_intent = some intent }) rows

consume-any :
    (intent : Uuid) (a : Authorization) (rows : List Authorization)
    → Memᴰ a rows
    → a.consumed_intent ≡ none
    → any (λ x. x.id == a.id && holds x.consumed_intent intent) (consume a.id intent rows) ≡ true
consume-any intent a [] there free = elim there [ ]
consume-any intent a (x ∷ xs) (head same) free =
    let id : x.id ≡ a.id = ap (λ y. y.id) (sym same) in
    let open_row : x.consumed_intent ≡ none = ap (λ y. y.consumed_intent) (sym same) ∙ free in
    ground (arith, nat_beq_iff x.id a.id, nat_beq_iff intent intent)
consume-any intent a (x ∷ xs) (tail there) free = ground (arith, consume-any intent a xs there free)

consume-all :
    (id intent : Uuid) (rows : List Authorization)
    → all (λ x. not (x.id == id) || is_some x.consumed_intent) (consume id intent rows) ≡ true
consume-all id intent [] = refl
consume-all id intent (x ∷ xs) = ground (arith, consume-all id intent xs)

module _ (access : Access) (live : LiveConfig) (org : Uuid) (hash_scope : Scope → String)
    (hash_text : Text → String) where
  -- The authorization of a token before it is consumed.
  pub record IsValid (db : Db) (later : Time) (v : Session) (member : Uuid) (c : Conversation)
      (input : SendInput) (a : Authorization) : Type 0 where
    pub is_stored : Memᴰ a db.authorizations
    pub is_token : a.token_digest ≡ hash_text input.authorization
    pub is_session : a.session ≡ v.id
    pub is_actor : a.actor ≡ member
    pub is_conversation : a.conversation ≡ c.id
    pub is_policy : a.policy ≡ policy_id (current_policy db.policies)
    pub is_revision : a.policy_revision ≡ db.settings.policy_revision
    pub is_unexpired : later < a.expires_at
    pub is_unconsumed : a.consumed_intent ≡ none
    pub is_scope : a.scope_hash ≡ hash_scope (scope_of org v c input)

  -- The row of the new intent.
  pub record IsIntent (id message : Uuid) (v : Session) (member : Uuid) (c : Conversation)
      (input : SendInput) (a : Authorization) (i : Intent) : Type 0 where
    pub is_named : (i.id ≡ id) × (i.message ≡ message) × (i.authorization ≡ a.id)
    pub is_owned : (i.actor ≡ member) × (i.session ≡ v.id) × (i.client_key ≡ input.client_key)
    pub is_addressed : (i.conversation ≡ c.id) × (i.phone ≡ c.phone)
    pub is_content : (i.text ≡ input.text) × (i.scope_hash ≡ hash_scope (scope_of org v c input))
    pub is_queued : (i.state ≡ IntentState.queued) × (i.claim_token ≡ none)

  -- The row of the new message.
  pub record IsMessage (id : Uuid) (c : Conversation) (input : SendInput) (m : Message)
      : Type 0 where
    pub is_named : m.id ≡ id
    pub is_addressed : (m.conversation ≡ c.id) × (m.phone ≡ c.phone)
    pub is_content : (m.text ≡ input.text) × (m.outbound ≡ true) × (m.provider_id ≡ none)
    pub is_pending : m.delivery_state ≡ DeliveryState.pending_local

  -- A new submission: what the tables had, and what they have afterwards.
  pub record IsConsumed (intent message : Uuid) (now later : Time) (v : Session) (member : Uuid)
      (input : SendInput) (db db' : Db) (r : Submitted) : Type 0 where
    pub target : Conversation
    pub is_visible : conversation access db input.conversation member "messages.send" ≡ ok target
    pub is_new : any (λ i. i.actor == member && i.client_key == input.client_key) db.intents ≡ false
    pub is_admissible : IsAdmissible (guard_input access live db now v member target input)
    pub is_bound : sender_binding live db target ≡ true
    pub is_controlled : (live.enabled ≡ true) × (target.identity ≡ live.recipient)
    pub authorization : Authorization
    pub is_valid : IsValid db later v member target input authorization
    pub is_consumed :
        any (λ x. x.id == authorization.id && holds x.consumed_intent intent) db'.authorizations
        ≡ true
    pub is_spent :
        all (λ x. not (x.id == authorization.id) || is_some x.consumed_intent) db'.authorizations
        ≡ true
    pub row : Intent
    pub is_row : IsIntent intent message v member target input authorization row
    pub is_added : db'.intents ≡ db.intents ++ row ∷ []
    pub sent : Message
    pub is_sent : IsMessage message target input sent
    pub is_kept : db'.messages ≡ sent ∷ db.messages
    pub is_answered : r ≡ record { id = intent; state = IntentState.queued; reused = false }

  -- A repeated submission: the intent that has the key of the member, for the same scope.
  pub record IsRepeated (v : Session) (member : Uuid) (input : SendInput) (db db' : Db)
      (r : Submitted) : Type 0 where
    pub target : Conversation
    pub is_visible : conversation access db input.conversation member "messages.send" ≡ ok target
    pub row : Intent
    pub is_stored : Memᴰ row db.intents
    pub is_owned : (row.actor ≡ member) × (row.client_key ≡ input.client_key)
    pub is_scope : row.scope_hash ≡ hash_scope (scope_of org v target input)
    pub is_unchanged : db' ≡ db
    pub is_answered : r ≡ record { id = row.id; state = row.state; reused = true }

  is_usable-IsValid :
      (db : Db) (later : Time) (v : Session) (member : Uuid) (c : Conversation) (input : SendInput)
      (a : Authorization)
      → find (is_usable db later v.id member c.id (hash_text input.authorization)) db.authorizations
        ≡ some a
      → a.consumed_intent ≡ none
      → a.scope_hash ≡ hash_scope (scope_of org v c input)
      → IsValid db later v member c input a
  is_usable-IsValid db later v member c input a stored free scope =
      let digest = hash_text input.authorization in
      let usable : is_usable db later v.id member c.id digest a ≡ true =
        find-holds (is_usable db later v.id member c.id digest) db.authorizations stored in
      record {
        is_stored = find-Memᴰ (is_usable db later v.id member c.id digest) db.authorizations stored;
        is_token = ground (arith, eq_iff a.token_digest digest);
        is_session = ground (arith, nat_beq_iff a.session v.id);
        is_actor = ground (arith, nat_beq_iff a.actor member);
        is_conversation = ground (arith, nat_beq_iff a.conversation c.id);
        is_policy = ground (arith, nat_beq_iff a.policy (policy_id (current_policy db.policies)));
        is_revision = ground (arith, nat_beq_iff a.policy_revision db.settings.policy_revision);
        is_unexpired = ground arith;
        is_unconsumed = free;
        is_scope = scope;
      }

  enqueue-tables :
      (intent message authorization : Uuid) (digest : String) (now : Time) (v : Session)
      (member : Uuid) (c : Conversation) (input : SendInput) (db : Db)
      → ((enqueue intent message authorization digest now v member c input db).authorizations
          ≡ consume authorization intent db.authorizations)
        × ((enqueue intent message authorization digest now v member c input db).intents
            ≡ db.intents ++ new_intent intent message authorization digest v member c input ∷ [])
        × ((enqueue intent message authorization digest now v member c input db).messages
            ≡ new_message message now c input ∷ db.messages)
  unfolding enqueue audit event
  enqueue-tables intent message authorization digest now v member c input db = (refl, refl, refl)

  -- A submission that succeeds either leaves the tables as they are and answers with the stored
  -- intent that has the member's key, for the same scope; or the key is new, the guard allows
  -- the message, and a stored authorization of the token, session, member, conversation, policy,
  -- revision and scope, which has not expired and was not consumed, is consumed by the new
  -- intent: no row with its identifier is left unconsumed, and the queued intent and its pending
  -- message are added.
  pub submit-IsConsumed :
      (intent message : Uuid) (now later : Time) (v : Session) (member : Uuid) (input : SendInput)
      (db db' : Db) (r : Submitted)
      → submit access live org hash_scope hash_text intent message now later v member input db
        ≡ ok (db', r)
      → IsRepeated v member input db db' r
        ⊎ IsConsumed intent message now later v member input db db' r
  submit-IsConsumed intent message now later v member input db db' r h =
      elim (submit-Accepted access live org hash_scope hash_text intent message now later v member
        input db db' r h) [
          | repeated c i visible known same unchanged answer ↦
              let key = find-holds (has_key member input.client_key) db.intents known in
              inl (record {
                target = c;
                is_visible = visible;
                row = i;
                is_stored = find-Memᴰ (has_key member input.client_key) db.intents known;
                is_owned = (
                  ground (arith, nat_beq_iff i.actor member),
                  ground (arith, list_beq_iff i.client_key input.client_key),
                );
                is_scope = same;
                is_unchanged = unchanged;
                is_answered = answer;
              })
          | queued c visible fresh done answer ↦
              let a = done.authorization in
              let digest = hash_scope (scope_of org v c input) in
              let (admissible, bound) =
                (evaluate_scope-allowed_iff access live db v member c input now).0 done.allowed in
              let (rows, intents, messages) =
                enqueue-tables intent message a.id digest later v member c input db in
              let valid =
                is_usable-IsValid db later v member c input a done.stored done.unconsumed
                  done.same_scope in
              inr (record {
                target = c;
                is_visible = visible;
                is_new = find-absent (has_key member input.client_key) db.intents fresh;
                is_admissible = admissible;
                is_bound = bound;
                is_controlled = (done.enabled, done.controlled);
                authorization = a;
                is_valid = valid;
                is_consumed =
                    rw (done.queued, rows)
                      (consume-any intent a db.authorizations valid.is_stored done.unconsumed);
                is_spent = rw (done.queued, rows) (consume-all a.id intent db.authorizations);
                row = new_intent intent message a.id digest v member c input;
                is_row = record {
                  is_named = (refl, refl, refl);
                  is_owned = (refl, refl, refl);
                  is_addressed = (refl, refl);
                  is_content = (refl, refl);
                  is_queued = (refl, refl);
                };
                is_added = ap (λ d. d.intents) done.queued ∙ intents;
                sent = new_message message later c input;
                is_sent = record {
                  is_named = refl;
                  is_addressed = (refl, refl);
                  is_content = (refl, refl, refl);
                  is_pending = refl;
                };
                is_kept = ap (λ d. d.messages) done.queued ∙ messages;
                is_answered = answer;
              })
        ]
