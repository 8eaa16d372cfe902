-- ===== src/Inbox/Submit/Again.antt =====
-- Repeated calls of `submit`, backend/internal/inbox/guard.go.
use whats.Base.{
  ◌≡◌, refl, sym, ap, ◌∙◌, String, true, [], ◌∷◌, some, ok, arith, find, nat_eq, list_eq,
  list_beq_iff,
}
use whats.Inbox.Time.{Time}
use whats.Inbox.Text.{Text}
use whats.Inbox.Store.{Uuid, Intent, Db}
use whats.Inbox.Evaluation.{
  Session, Access, LiveConfig, Conversation, SendInput, Scope, conversation, scope_of,
}
use whats.Inbox.Submit.{Submitted, has_key, new_intent, submit}
use whats.Inbox.Submit.Laws.{
  repeated, queued, find-append, enqueue-intents, submit-Accepted, submit-repeats, submit-checked,
}

module _ (org : Uuid) (hash_scope : Scope → String) (hash_text : Text → String) where
  -- The intent that the answer names has the key afterwards, for the scope of the request.
  submit-kept :
      (access : Access) (live : LiveConfig) (intent message : Uuid) (now later : Time) (v : Session)
      (member : Uuid) (input : SendInput) (db db' : Db) (r : Submitted) (c : Conversation)
      (i : Intent)
      → submit access live org hash_scope hash_text intent message now later v member input db
        ≡ ok (db', r)
      → conversation access db input.conversation member "messages.send" ≡ ok c
      → find (has_key member input.client_key) db'.intents ≡ some i
      → (i.id ≡ r.id) × (i.scope_hash ≡ hash_scope (scope_of org v c input))
  submit-kept access live intent message now later v member input db db' r c i h visible known =
      elim (submit-Accepted access live org hash_scope hash_text intent message now later v member
        input db db' r h) [
          | repeated c0 i0 visible0 known0 same unchanged answer ↦
              let target : c0 ≡ c = ground arith in
              let before : find (has_key member input.client_key) db'.intents ≡ some i0 =
                ap (λ d. find (has_key member input.client_key) d.intents) unchanged ∙ known0 in
              let row : i0 ≡ i = ground arith in rw (sym row, answer) ((refl, rw target at same))
          | queued c0 visible0 fresh done answer ↦
              let target : c0 ≡ c = ground arith in
              let digest = hash_scope (scope_of org v c0 input) in
              let added =
                new_intent intent message done.authorization.id digest v member c0 input in
              let mine : find (has_key member input.client_key) (added ∷ []) ≡ some added =
                ground (arith, list_beq_iff input.client_key input.client_key) in
              let after : find (has_key member input.client_key) db'.intents ≡ some added =
                ap (λ d. find (has_key member input.client_key) d.intents) done.queued
                ∙ ap (find (has_key member input.client_key)) (
                    enqueue-intents access live org hash_scope hash_text intent message
                      done.authorization.id digest later v member c0 input db)
                ∙ find-append (has_key member input.client_key) db.intents (added ∷ []) fresh
                ∙ mine in
              let row : added ≡ i = ground arith in
              rw (sym row, answer) ((refl, ap (λ x. hash_scope (scope_of org v x input)) target))
        ]

  -- A submission that has succeeded, sent again by the same member with the same input at any
  -- time, with any session, permissions, configuration and tables, changes nothing and answers
  -- with the same intent in its present state, provided that the conversation may still be
  -- written to, the scope of the request, of which the session is a part, is the same, and the
  -- intent that has the key has kept its identifier and scope hash. Settings, policies,
  -- authorizations, and what else the guard reads may have changed.
  pub submit-again :
      (access access' : Access) (live live' : LiveConfig) (intent message intent' message' : Uuid)
      (now later now' later' : Time) (v v' : Session) (member : Uuid) (input : SendInput)
      (db db' db'' : Db) (r : Submitted) (c c' : Conversation) (i i' : Intent)
      → submit access live org hash_scope hash_text intent message now later v member input db
        ≡ ok (db', r)
      → conversation access db input.conversation member "messages.send" ≡ ok c
      → conversation access' db'' input.conversation member "messages.send" ≡ ok c'
      → scope_of org v' c' input ≡ scope_of org v c input
      → find (has_key member input.client_key) db'.intents ≡ some i
      → find (has_key member input.client_key) db''.intents ≡ some i'
      → i'.id ≡ i.id
      → i'.scope_hash ≡ i.scope_hash
      → submit access' live' org hash_scope hash_text intent' message' now' later' v' member input
          db''
        ≡ ok (db'', record { id = r.id; state = i'.state; reused = true })
  submit-again access access' live live' intent message intent' message' now later now' later' v v'
        member input db db' db'' r c c' i i' h visible visible' scope known known' id digest =
      let (valid, plain) =
        submit-checked access live org hash_scope hash_text intent message now later v member input
          db h in
      let (named, same) =
        submit-kept access live intent message now later v member input db db' r c i h visible
          known in
      rw (sym (id ∙ named)) (
        submit-repeats access' live' org hash_scope hash_text intent' message' now' later' v' member
          input db'' c' i' valid plain visible' known' (digest ∙ same ∙ ap hash_scope (sym scope)))
