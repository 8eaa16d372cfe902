-- ===== src/Inbox/Submit/Laws.antt =====
-- The branches of `submit`, backend/internal/inbox/guard.go, and its effect on the intents.
use text.Mathlib.TextEquality.{eq_iff}
use whats.Base.{
  ◌≡◌, refl, inl, inr, String, Bool, true, false, List, [], ◌∷◌, ◌++◌, none, some, ok, arith, find,
  any, Option-cases, Result-cases, ◌==◌, nat_eq, string_eq, list_eq, list_beq_iff,
}
use whats.Inbox.Time.{Time}
use whats.Inbox.Text.{Text}
use whats.Inbox.Store.{Uuid, IntentState, Intent, Authorization, Db, audit, event}
use whats.Inbox.Evaluation.{
  Session, Access, LiveConfig, Conversation, SendInput, Scope, conversation, scope_of,
  evaluate_scope,
}
use whats.Inbox.Submit.{
  Submitted, has_key, is_submittable, is_usable, new_intent, fits_column, enqueue, submit_new,
  submit,
}

pub find-append :
    {A : Type 0} (test : A → Bool) (xs ys : List A)
    → find test xs ≡ none
    → find test (xs ++ ys) ≡ find test ys
find-append test [] ys h = refl
find-append test (x ∷ xs) ys h = ground (arith, find-append test xs ys)

module _ (access : Access) (live : LiveConfig) (org : Uuid) (hash_scope : Scope → String)
    (hash_text : Text → String) where
  -- What `submit` requires for a new key, and what it does.
  pub record IsQueued (intent message : Uuid) (now later : Time) (v : Session) (member : Uuid)
      (c : Conversation) (input : SendInput) (db db' : Db) : Type 0 where
    pub authorization : Authorization
    pub allowed : (evaluate_scope access live db now v member c input).allowed ≡ true
    pub enabled : live.enabled ≡ true
    pub controlled : c.identity ≡ live.recipient
    pub stored :
        find (is_usable db later v.id member c.id (hash_text input.authorization)) db.authorizations
        ≡ some authorization
    pub same_scope : authorization.scope_hash ≡ hash_scope (scope_of org v c input)
    pub unconsumed : authorization.consumed_intent ≡ none
    pub queued :
        db'
        ≡ enqueue intent message authorization.id
            (hash_scope (scope_of org v c input))
            later
            v
            member
            c
            input
            db

  submit_new-IsQueued :
      (intent message : Uuid) (now later : Time) (v : Session) (member : Uuid) (c : Conversation)
      (input : SendInput) (db db' : Db) (r : Submitted)
      → submit_new access live org hash_scope hash_text intent message now later v member c input db
        ≡ ok (db', r)
      → IsQueued intent message now later v member c input db db'
        × (r ≡ record { id = intent; state = IntentState.queued; reused = false })
        × (fits_column input.client_key ≡ true)
  unfolding submit_new
  submit_new-IsQueued intent message now later v member c input db db' r h =
      elim (Option-cases (
        find (is_usable db later v.id member c.id (hash_text input.authorization))
          db.authorizations)) [
            | inl absent ↦ absurd (ground arith)
            | inr (a, stored) ↦ (
              record {
                authorization = a;
                allowed = ground arith;
                enabled = ground arith;
                controlled = ground (arith, list_beq_iff c.identity live.recipient);
                stored = stored;
                same_scope =
                    ground (arith, eq_iff a.scope_hash (hash_scope (scope_of org v c input)));
                unconsumed = ground arith;
                queued = ground arith;
              },
              ground arith,
              ground arith,
            )
          ]

  -- A successful submission: a repeated one changes nothing and answers with the intent that has the
  -- key; a new one is queued under its authorization.
  pub data Accepted (intent message : Uuid) (now later : Time) (v : Session) (member : Uuid)
      (input : SendInput) (db db' : Db) (r : Submitted) : Type 0 where
    repeated :
        (c : Conversation) (i : Intent)
        → conversation access db input.conversation member "messages.send" ≡ ok c
        → find (has_key member input.client_key) db.intents ≡ some i
        → i.scope_hash ≡ hash_scope (scope_of org v c input)
        → db' ≡ db
        → r ≡ record { id = i.id; state = i.state; reused = true }
        → Accepted intent message now later v member input db db' r
    queued :
        (c : Conversation)
        → conversation access db input.conversation member "messages.send" ≡ ok c
        → find (has_key member input.client_key) db.intents ≡ none
        → IsQueued intent message now later v member c input db db'
        → r ≡ record { id = intent; state = IntentState.queued; reused = false }
        → Accepted intent message now later v member input db db' r

  -- A submission that succeeds is one of these.
  pub submit-Accepted :
      (intent message : Uuid) (now later : Time) (v : Session) (member : Uuid) (input : SendInput)
      (db db' : Db) (r : Submitted)
      → submit access live org hash_scope hash_text intent message now later v member input db
        ≡ ok (db', r)
      → Accepted intent message now later v member input db db' r
  unfolding submit
  submit-Accepted intent message now later v member input db db' r h =
      elim (Result-cases (conversation access db input.conversation member "messages.send")) [
        | inl (e, refused) ↦ absurd (ground arith)
        | inr (c, visible) ↦
            elim (Option-cases (find (has_key member input.client_key) db.intents)) [
              | inl fresh ↦
                  let run : submit_new access live org hash_scope hash_text intent message now later
                        v member c input db
                      ≡ ok (db', r) =
                    ground arith in
                  let (done, answer, fits) =
                    submit_new-IsQueued intent message now later v member c input db db' r run in
                  queued c visible fresh done answer
              | inr (i, known) ↦
                  repeated c i visible known
                    (ground (arith, eq_iff i.scope_hash (hash_scope (scope_of org v c input))))
                    (ground arith) (ground arith)
            ]
      ]

  pub enqueue-intents :
      (intent message authorization : Uuid) (digest : String) (now : Time) (v : Session)
      (member : Uuid) (c : Conversation) (input : SendInput) (db : Db)
      → (enqueue intent message authorization digest now v member c input db).intents
        ≡ db.intents ++ new_intent intent message authorization digest v member c input ∷ []
  unfolding enqueue audit event
  enqueue-intents intent message authorization digest now v member c input db = refl

  pub submit-repeats :
      (intent message : Uuid) (now later : Time) (v : Session) (member : Uuid) (input : SendInput)
      (db : Db) (c : Conversation) (i : Intent)
      → is_submittable input ≡ true
      → any (λ k. k == 0) input.client_key ≡ false
      → conversation access db input.conversation member "messages.send" ≡ ok c
      → find (has_key member input.client_key) db.intents ≡ some i
      → i.scope_hash ≡ hash_scope (scope_of org v c input)
      → submit access live org hash_scope hash_text intent message now later v member input db
        ≡ ok (db, record { id = i.id; state = i.state; reused = true })
  unfolding submit
  submit-repeats intent message now later v member input db c i a b visible known same =
      ground (arith, eq_iff i.scope_hash (hash_scope (scope_of org v c input)))

  pub submit-checked :
      (intent message : Uuid) (now later : Time) (v : Session) (member : Uuid) (input : SendInput)
      (db : Db) {done : Db × Submitted}
      → submit access live org hash_scope hash_text intent message now later v member input db
        ≡ ok done
      → (is_submittable input ≡ true) × (any (λ k. k == 0) input.client_key ≡ false)
  unfolding submit
  submit-checked intent message now later v member input db h = (
    ground arith,
    elim (Result-cases (conversation access db input.conversation member "messages.send")) [
      | inl (e, refused) ↦ absurd (ground arith)
      | inr (c, visible) ↦ ground arith
    ],
  )
