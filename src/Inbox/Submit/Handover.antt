-- ===== src/Inbox/Submit/Handover.antt =====
-- From `preflight` to `submit`, backend/internal/inbox/guard.go.
use text.Mathlib.TextEquality.{eq_iff}
use whats.Base.{
  ◌<◌, ◌≤◌, ◌+◌, ◌-◌, ◌*◌, ◌≡◌, refl, sym, ap, ◌∙◌, inl, inr, String, true, false, ◌∷◌, none, some,
  ok, arith, find, any, Option-cases, Result-cases, ◌==◌, nat_eq, string_eq, list_eq, list_beq_iff,
}
use whats.Inbox.Time.{Time, second}
use whats.Inbox.Text.{Text}
use whats.Inbox.Store.{Uuid, IntentState, Authorization, Db}
use whats.Inbox.Evaluation.{
  Session, Access, LiveConfig, Conversation, SendInput, Scope, conversation, join_conversation,
  scope_of, current_policy, policy_to, policy_review, evaluate_scope, guard_input, sender_binding,
}
use whats.Inbox.Evaluation.Laws.{evaluate_scope-later}
use whats.Inbox.Submit.{
  Preflight, has_key, is_submittable, is_usable, fits_column, enqueue, new_authorization, preflight,
  submit_new, submit,
}

module _ (access : Access) (live : LiveConfig) (org : Uuid) (hash_scope : Scope → String)
    (hash_text : Text → String) where
  -- The tables after `preflight` has stored an authorization.
  abbrev pub with_authorization : Authorization → Db → Db
  with_authorization a db = record db { authorizations = a ∷ db.authorizations }

  record IsIssued (id : Uuid) (token : Text) (now : Time) (v : Session) (member : Uuid)
      (input : SendInput) (db db' : Db) (expires : Time) : Type 0 where
    target : Conversation
    window : Time
    known : target.window_expires_at ≡ some window
    in_time : expires ≤ window - 5 * second
    visible : conversation access db input.conversation member "messages.send" ≡ ok target
    allowed : (evaluate_scope access live db now v member target input).allowed ≡ true
    enabled : live.enabled ≡ true
    controlled : target.identity ≡ live.recipient
    issued :
        db'
        ≡ with_authorization
            (new_authorization access live org hash_scope hash_text id token expires v member target
              input db)
            db

  preflight-IsIssued :
      (id : Uuid) (token token' : Text) (now : Time) (v : Session) (member : Uuid)
      (input : SendInput) (db db' : Db) (p : Preflight) (expires : Time)
      → preflight access live org hash_scope hash_text id token now v member input db ≡ ok (db', p)
      → p.authorization ≡ some (token', expires)
      → IsIssued id token now v member input db db' expires × (token' ≡ token)
  unfolding preflight
  preflight-IsIssued id token token' now v member input db db' p expires h given =
      elim (Result-cases (conversation access db input.conversation member "messages.send")) [
        | inl (e, refused) ↦ absurd (ground arith)
        | inr (c, visible) ↦ elim (Option-cases c.window_expires_at) [
          | inl closed ↦ absurd (ground arith)
          | inr (window, known) ↦ (
            record {
              target = c;
              window = window;
              known = known;
              in_time = ground arith;
              visible = visible;
              allowed = ground arith;
              enabled = ground arith;
              controlled = ground (arith, list_beq_iff c.identity live.recipient);
              issued = ground arith;
            },
            ground arith,
          )
        ]
      ]

  with_authorization-conversation :
      (a : Authorization) (db : Db) (id member : Uuid) (key : String)
      → conversation access (with_authorization a db) id member key
        ≡ conversation access db id member key
  unfolding conversation join_conversation
  with_authorization-conversation a db id member key = refl

  with_authorization-evaluate :
      (a : Authorization) (token : Text) (db : Db) (now : Time) (v : Session) (member : Uuid)
      (c : Conversation) (input : SendInput)
      → evaluate_scope access live
          (with_authorization a db)
          now
          v
          member
          c
          (record input { authorization = token })
        ≡ evaluate_scope access live db now v member c input
  unfolding evaluate_scope guard_input sender_binding
  with_authorization-evaluate a token db now v member c input = refl

  new_authorization-usable :
      (id : Uuid) (token : Text) (expires later : Time) (v : Session) (member : Uuid)
      (c : Conversation) (input : SendInput) (db : Db)
      → later < expires
      → is_usable db later v.id member c.id (hash_text token) (
          new_authorization access live org hash_scope hash_text id token expires v member c input
            db)
        ≡ true
  new_authorization-usable id token expires later v member c input db h =
      ground (arith, eq_iff (hash_text token) (hash_text token))

  submit_new-eq-ok :
      (intent message : Uuid) (now later : Time) (v : Session) (member : Uuid) (c : Conversation)
      (input : SendInput) (db : Db) (a : Authorization)
      → (evaluate_scope access live db now v member c input).allowed ≡ true
      → live.enabled ≡ true
      → c.identity ≡ live.recipient
      → find (is_usable db later v.id member c.id (hash_text input.authorization)) db.authorizations
        ≡ some a
      → a.scope_hash ≡ hash_scope (scope_of org v c input)
      → a.consumed_intent ≡ none
      → fits_column input.client_key ≡ true
      → submit_new access live org hash_scope hash_text intent message now later v member c input db
        ≡ ok (
          enqueue intent message a.id
              (hash_scope (scope_of org v c input))
              later
              v
              member
              c
              input
              db,
          record { id = intent; state = IntentState.queued; reused = false },
        )
  unfolding submit_new
  submit_new-eq-ok intent message now later v member c input db a allowed enabled controlled stored
        same free fits =
      ground (
        arith,
        list_beq_iff c.identity live.recipient,
        eq_iff a.scope_hash (hash_scope (scope_of org v c input)),
      )

  submit-eq-submit_new :
      (intent message : Uuid) (now later : Time) (v : Session) (member : Uuid) (c : Conversation)
      (input : SendInput) (db : Db)
      → is_submittable input ≡ true
      → any (λ k. k == 0) input.client_key ≡ false
      → conversation access db input.conversation member "messages.send" ≡ ok c
      → find (has_key member input.client_key) db.intents ≡ none
      → submit access live org hash_scope hash_text intent message now later v member input db
        ≡ submit_new access live org hash_scope hash_text intent message now later v member c input
            db
  unfolding submit
  submit-eq-submit_new intent message now later v member c input db valid plain visible fresh =
      ground arith

  -- Scope hashes do not depend on key and authorization.
  scope_of-authorization :
      (v : Session) (c : Conversation) (input : SendInput) (token : Text)
      → scope_of org v c (record input { authorization = token }) ≡ scope_of org v c input
  unfolding scope_of
  scope_of-authorization v c input token = refl

  -- The authorization that preflight gives out lets a well-formed submission of the same message
  -- with a new client key, made with the same session, permissions and configuration on the
  -- tables that preflight left, be queued, if the guard's clock in the submission is not before
  -- that of preflight, the authorization's is not before the guard's, the authorization has not
  -- expired by then, and at the guard's clock the review of the policy is not overdue and the
  -- policy covers the delivery bound.
  pub submit-preflight :
      (id intent message : Uuid) (token token' : Text) (now again later expires : Time)
      (v : Session) (member : Uuid) (input : SendInput) (db db' : Db) (p : Preflight)
      → preflight access live org hash_scope hash_text id token now v member input db ≡ ok (db', p)
      → p.authorization ≡ some (token', expires)
      → now ≤ again
      → again ≤ later
      → later < expires
      → again < policy_review (current_policy db.policies)
      → again + live.delivery_bound < policy_to (current_policy db.policies)
      → is_submittable (record input { authorization = token' }) ≡ true
      → any (λ k. k == 0) input.client_key ≡ false
      → fits_column input.client_key ≡ true
      → find (has_key member input.client_key) db.intents ≡ none
      → (done : Db) × (submit access live org hash_scope hash_text intent message again later v
            member
            (record input { authorization = token' })
            db'
          ≡ ok (done, record { id = intent; state = IntentState.queued; reused = false }))
  submit-preflight id intent message token token' now again later expires v member input db db' p h
        given forth next early reviewed covered valid plain fits fresh =
      let (x, same) =
        preflight-IsIssued id token token' now v member input db db' p expires h given in
      let c = x.target in
      let sent : SendInput = record input { authorization = token } in
      let a =
        new_authorization access live org hash_scope hash_text id token expires v member c input
          db in
      let db'' : Db = with_authorization a db in
      let allowed =
        evaluate_scope-later access live db v member c input now again x.window x.allowed x.known
          forth (omega (arith, x.in_time)) reviewed covered in
      let run =
        submit_new-eq-ok intent message again later v member c sent db'' a
          (ap (λ d. d.allowed) (with_authorization-evaluate a token db again v member c input)
            ∙ allowed)
          x.enabled x.controlled
          (ground
            (arith, new_authorization-usable id token expires later v member c input db early))
          (ap hash_scope (sym (scope_of-authorization v c input token))) refl fits in
      rw (x.issued, same)
        ((
          _,
          submit-eq-submit_new intent message again later v member c sent db'' (rw same at valid)
                plain
                (with_authorization-conversation a db input.conversation member "messages.send"
                  ∙ x.visible)
                fresh
              ∙ run,
        ))
