-- ===== src/Identity/Sessions/Revocation.antt =====
-- What the inbox asks of the identity component, answered by it, and what a deactivation does to the
-- messages the member has queued: they are not sent.
use whats.Base.{
  ◌≡◌, refl, sym, ap, ◌∙◌, inl, inr, String, Bool, false, not, ◌&&◌, List, [], ◌∷◌, none, some, ok,
  err, arith, Result-cases, Bool-cases, Option-cases, >>=-eq-ok, any, find, ◌==◌, nat_eq,
  nat_beq_iff, All, All-find, find-holds, or_fail, if◌then◌else◌,
}
use whats.Inbox.Time.{Time}
use whats.Inbox.Error.{actor_authorization_revoked}
use whats.Inbox.Store.{Uuid, Db, update_where}
use whats.Inbox.Evaluation.{Access, LiveConfig, Scope}
use whats.Inbox.Dispatch as Dispatch
use whats.Inbox.Dispatch.{Job, check_job, holds_lease, block}
use whats.Identity.Tables.{Org, Member, SessionRow}
use whats.Identity.Permission.{permitted}
use whats.Identity.Sessions.{lock_domain_session, authorize_membership, is_seat, rotate}
use whats.Identity.Request.{UserSession, Input, Fresh, Env, Action, deactivate_member}
use whats.Identity.Organization.Members.{set_member_status, set_status}
use whats.Identity.Organization.Steps.{organization-steps}
use whats.Identity.Organization.{organization, change, bump_access, renew_session}

abbrev pub is_verified : Org → Uuid → Bool
is_verified o user = any (λ u. u.id == user && u.verified) o.users

-- The `Access` of the inbox on these rows: `app.inbox_permission` is the query of `permissionSQL`.
unfoldable pub identity_access : Time → Org → Access
identity_access clock o = record {
  permitted = permitted o clock;
  lock_session = λ sid. elim (lock_domain_session clock sid o) [
    | err e ↦ none
    | ok (s, member) ↦
        some (record { id = s.id; user = s.user; verified = is_verified o s.user }, member)
  ];
}

abbrev IsOut : Uuid → Member → Type 0
IsOut id m = m.id ≡ id → m.active ≡ false

update-IsOut :
    (id : Uuid) (ms : List Member)
    → All (IsOut id) (update_where (λ m. m.id == id) (set_status false) ms)
update-IsOut id [] = tt
update-IsOut id (m ∷ ms) = elim (Bool-cases (m.id == id)) [
  | inl mine ↦ rw mine ((λ same. refl), update-IsOut id ms)
  | inr other ↦ rw other ((λ same. absurd (ground arith)), update-IsOut id ms)
]

set_member_status-IsOut :
    (env : Env) (actor : Uuid) (input : Input) (o : Org) {o' : Org}
    → set_member_status env actor false input o ≡ ok o'
    → All (IsOut input.id) o'.members
unfolding set_member_status
set_member_status-IsOut env actor input o {o'} h =
    let same : o'.members ≡ update_where (λ m. m.id == input.id) (set_status false) o.members =
      ground arith in
    rw same (update-IsOut input.id o.members)

rotate-members :
    (env : Env) (v : UserSession) (fresh : Fresh) (o : Org) {o' : Org}
    → rotate env v fresh o ≡ ok o'
    → o'.members ≡ o.members
unfolding rotate
rotate-members env v fresh o h = ground arith

renew_session-members :
    (env : Env) (v : UserSession) (fresh : Fresh) (member : Uuid) (action : Action) (input : Input)
    (o : Org) {o' : Org}
    → renew_session env v fresh member action input o ≡ ok o'
    → o'.members ≡ o.members
unfolding renew_session
renew_session-members env v fresh member action input o h =
    elim (Result-cases (rotate env v fresh o)) [
      | inl (e, refused) ↦ ground arith
      | inr (o', rotated) ↦ ground (arith, rotate-members env v fresh o rotated)
    ]

deactivate_member-IsOut :
    (env : Env) (fresh : Fresh) (v : UserSession) (input : Input) (o : Org) {o' : Org}
    → organization env fresh v deactivate_member input o ≡ ok o'
    → All (IsOut input.id) o'.members
unfolding change bump_access
deactivate_member-IsOut env fresh v input o {o'} h =
    let w = organization-steps env fresh v deactivate_member input o h in
    let kept = renew_session-members env v fresh w.member deactivate_member input _ w.is_renewed in
    let same : o'.members ≡ w.changed.members = ap (λ x. x.members) (sym w.is_done) ∙ kept in
    rw same (set_member_status-IsOut env w.member input o w.is_changed)

-- A member that is out is not the one of any session that locks.
authorize_membership-IsOut :
    (o : Org) (id user : Uuid) {member : Uuid}
    → All (IsOut id) o.members
    → authorize_membership o user ≡ some member
    → (member == id) ≡ false
unfolding authorize_membership
authorize_membership-IsOut o id user {member} out h =
    elim (Option-cases (find (is_seat user) o.members)) [
      | inl empty ↦ absurd (ground arith)
      | inr (m, seated) ↦
          let gone : IsOut id m = All-find (IsOut id) (is_seat user) o.members out seated in
          let seat = find-holds (is_seat user) o.members seated in
          ground (arith, nat_beq_iff member id)
    ]

lock-member :
    (clock : Time) (sid : Uuid) (o : Org) {s : SessionRow} {member : Uuid}
    → lock_domain_session clock sid o ≡ ok (s, member)
    → authorize_membership o s.user ≡ some member
unfolding lock_domain_session
lock-member clock sid o {s} {member} h =
    let (s', found, h1) = >>=-eq-ok (or_fail (find (λ s. s.id == sid) o.sessions) _) _ h in
    elim (Option-cases (authorize_membership o s'.user)) [
      | inl refused ↦ absurd (ground arith)
      | inr (m, seated) ↦
          let same : s' ≡ s = ground arith in
          let own : m ≡ member = ground arith in
          ap (λ x. authorize_membership o x.user) (sym same) ∙ seated ∙ ap some own
    ]

-- A request of the worker is sent only for a member that a session locks.
check_job-IsOut :
    (clock : Time) (o : Org) (live : LiveConfig) (org : Uuid) (hash_scope : Scope → String)
    (db : Db) (now : Time) (job : Job)
    → All (IsOut job.actor) o.members
    → check_job (identity_access clock o) live org hash_scope db now job
      ≡ some (err actor_authorization_revoked)
unfolding check_job identity_access
check_job-IsOut clock o live org hash_scope db now job out =
    elim (Result-cases (lock_domain_session clock job.session o)) [
      | inl (e, refused) ↦ ground arith
      | inr ((s, member), locked) ↦
          let other : (member == job.actor) ≡ false =
            authorize_membership-IsOut o job.actor s.user out
              (lock-member clock job.session o locked) in
          ground (arith, other)
    ]

-- With the permissions and sessions of the identity component in the place of what the inbox
-- asks for, once a member was deactivated the second dispatch transaction blocks every job of
-- that member whose lease is held, changes nothing for another one, and lets no request be sent.
pub deactivate_member-authorize :
    (env : Env) (fresh : Fresh) (v : UserSession) (input : Input) (o : Org) {o' : Org}
    (clock : Time) (live : LiveConfig) (org : Uuid) (hash_scope : Scope → String) (db : Db)
    (now : Time) (job : Job)
    → organization env fresh v deactivate_member input o ≡ ok o'
    → job.actor ≡ input.id
    → Dispatch.authorize (identity_access clock o') live org hash_scope now job db
      ≡ some (
        (if not (holds_lease db job) then db else block actor_authorization_revoked job db),
        none,
      )
unfolding Dispatch.authorize
deactivate_member-authorize env fresh v input o {o'} clock live org hash_scope db now job h own =
    let out : All (IsOut job.actor) o'.members =
      rw own (deactivate_member-IsOut env fresh v input o h) in
    ground (arith, check_job-IsOut clock o' live org hash_scope db now job out)
