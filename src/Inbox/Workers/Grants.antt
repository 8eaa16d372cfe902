-- ===== src/Inbox/Workers/Grants.antt =====
-- What must hold when the second transaction lets a request be sent.
use text.Mathlib.TextEquality.{eq_iff}
use whats.Base.{
  ◌<◌, ◌≡◌, inl, inr, String, true, false, none, some, ok, arith, find, Option-cases, Result-cases,
  Bool-cases, ◌==◌, nat_eq, string_eq, list_eq, list_beq_iff, nat_beq_iff,
}
use whats.Inbox.Time.{Time}
use whats.Inbox.Text.{Text}
use whats.Inbox.Store.{Uuid, Db, Authorization}
use whats.Inbox.Evaluation.{
  Session, Access, LiveConfig, Conversation, Scope, conversation, scope_of, current_policy,
  policy_id, evaluate_scope,
}
use whats.Inbox.Dispatch.{
  Job, stored_input, scope_denial, check_job, authorize, holds_lease, has_slot,
}

module _ (access : Access) (live : LiveConfig) (org : Uuid) (hash_scope : Scope → String) where
  -- The authorization is the one that the intent consumed, has not expired, was given under the policy
  -- still in force and for the same scope, and the guard still allows the message.
  pub record IsCleared (db : Db) (now : Time) (v : Session) (member : Uuid) (c : Conversation)
      (a : Authorization) (job : Job) : Type 0 where
    pub allowed :
        (evaluate_scope access live db now v member c (stored_input c a job)).allowed ≡ true
    pub unexpired : now < a.expires_at
    pub same_policy : policy_id (current_policy db.policies) ≡ a.policy
    pub same_revision : db.settings.policy_revision ≡ a.policy_revision
    pub consumed : a.consumed_intent ≡ some job.intent
    pub authorized_scope : a.scope_hash ≡ job.scope_hash
    pub same_scope : hash_scope (scope_of org v c (stored_input c a job)) ≡ job.scope_hash
    pub enabled : live.enabled ≡ true
    pub controlled : c.identity ≡ live.recipient

  scope_denial-IsCleared :
      (db : Db) (now : Time) (v : Session) (member : Uuid) (c : Conversation) (a : Authorization)
      (job : Job)
      → scope_denial access live org hash_scope db now v member c a job ≡ none
      → IsCleared db now v member c a job
  unfolding scope_denial
  scope_denial-IsCleared db now v member c a job h = record {
    allowed = ground arith;
    unexpired = ground arith;
    same_policy = ground arith;
    same_revision = ground arith;
    consumed = ground arith;
    authorized_scope = ground (arith, eq_iff a.scope_hash job.scope_hash);
    same_scope =
        ground
          (arith, eq_iff (hash_scope (scope_of org v c (stored_input c a job))) job.scope_hash);
    enabled = ground arith;
    controlled = ground (arith, list_beq_iff c.identity live.recipient);
  }

  -- A request may be sent: the acting session is valid and its member's, the conversation may be
  -- written to, and the request goes to the recipient and the phone of the conversation.
  pub record IsGrant (db : Db) (now : Time) (job : Job) (to : Text × Text) : Type 0 where
    pub session : Session
    pub locked : access.lock_session job.session ≡ some (session, job.actor)
    pub target : Conversation
    pub visible : conversation access db job.conversation job.actor "messages.send" ≡ ok target
    pub authorization : Authorization
    pub stored : find (λ a. a.id == job.authorization) db.authorizations ≡ some authorization
    pub cleared : IsCleared db now session job.actor target authorization job
    pub addressed : to ≡ (target.identity, target.phone_external)
    pub leased : holds_lease db job ≡ true
    pub unused : has_slot job.phone db.slots ≡ false

  check_job-IsGrant :
      (db : Db) (now : Time) (job : Job) (to : Text × Text)
      → check_job access live org hash_scope db now job ≡ some (ok to)
      → holds_lease db job ≡ true
      → has_slot job.phone db.slots ≡ false
      → IsGrant db now job to
  unfolding check_job
  check_job-IsGrant db now job to h held free =
      elim (Option-cases (access.lock_session job.session)) [
        | inl gone ↦ absurd (ground arith)
        | inr ((v, member), locked) ↦
            let own : member ≡ job.actor = ground (arith, nat_beq_iff member job.actor) in
            elim (Result-cases
              (conversation access db job.conversation job.actor "messages.send")) [
                | inl (e, refused) ↦ absurd (ground (arith, own))
                | inr (c, visible) ↦
                    elim (Option-cases (find (λ a. a.id == job.authorization) db.authorizations)) [
                      | inl absent ↦ absurd (ground (arith, own))
                      | inr (a, stored) ↦
                          elim (Option-cases
                            (scope_denial access live org hash_scope db now v job.actor c a job)) [
                              | inr (code, denied) ↦ absurd (ground (arith, own))
                              | inl cleared ↦ record {
                                session = v;
                                locked = ground (arith, own);
                                target = c;
                                visible = visible;
                                authorization = a;
                                stored = stored;
                                cleared = scope_denial-IsCleared db now v job.actor c a job cleared;
                                addressed = ground (arith, own);
                                leased = held;
                                unused = free;
                              }
                            ]
                    ]
              ]
      ]

  -- The second dispatch transaction lets a request be sent only if the lease is held, the phone
  -- has no slot, the session is the actor's, the conversation is visible with the permission to
  -- send, the guard allows the message, and the unexpired authorization is the consumed one of the
  -- same scope, for the recipient of the conversation, which is the configured one.
  pub authorize-IsGrant :
      (now : Time) (job : Job) (db db' : Db) (to : Text × Text)
      → authorize access live org hash_scope now job db ≡ some (db', some to)
      → IsGrant db now job to
  unfolding authorize
  authorize-IsGrant now job db db' to h =
      elim (Option-cases (check_job access live org hash_scope db now job)) [
        | inl failed ↦ absurd (ground arith)
        | inr (checked, read) ↦ elim (Bool-cases (holds_lease db job)) [
          | inr lost ↦ absurd (ground arith)
          | inl held ↦ elim (Result-cases checked) [
            | inl (code, denied) ↦ absurd (ground arith)
            | inr (target, allowed) ↦ elim (Bool-cases (has_slot job.phone db.slots)) [
              | inl taken ↦ absurd (ground arith)
              | inr free ↦ check_job-IsGrant db now job to (ground arith) held free
            ]
          ]
        ]
      ]
