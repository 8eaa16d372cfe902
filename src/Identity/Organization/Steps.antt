-- ===== src/Identity/Organization/Steps.antt =====
-- What a successful write of an organization has passed, in order.
use whats.Base.{◌≡◌, inl, inr, true, none, ok, arith, Bool-cases, >>=-eq-ok}
use whats.Inbox.Store.{Uuid}
use whats.Identity.Tables.{Org}
use whats.Identity.Permission.{permitted}
use whats.Identity.Request.{UserSession, Input, Fresh, Env, Action}
use whats.Identity.Organization.{
  organization, change, bump_access, renew_session, audited, authorize, resource, asked_team,
  needed,
}

pub record Written (env : Env) (fresh : Fresh) (v : UserSession) (action : Action) (input : Input)
    (o o' : Org) : Type 0 where
  pub member : Uuid
  pub changed : Org
  pub renewed : Org
  pub is_authorized : authorize env v input o ≡ ok member
  pub is_permitted :
      permitted o env.now member (needed action) (asked_team action input) none ≡ true
  pub is_changed : change env fresh member action input o ≡ ok changed
  pub is_renewed :
      renew_session env v fresh member action input (bump_access action input changed) ≡ ok renewed
  pub is_done : audited v action (resource action fresh input) renewed ≡ o'

pub organization-steps :
    (env : Env) (fresh : Fresh) (v : UserSession) (action : Action) (input : Input) (o : Org)
    {o' : Org}
    → organization env fresh v action input o ≡ ok o'
    → Written env fresh v action input o o'
unfolding organization
organization-steps env fresh v action input o {o'} h =
    let (member, authorized, h1) = >>=-eq-ok (authorize env v input o) _ h in
    elim (Bool-cases (permitted o env.now member (needed action) (asked_team action input) none)) [
      | inr refused ↦ absurd (ground arith)
      | inl allowed ↦
          let h2 = rw allowed at h1 in
          let (changed, hc, h3) = >>=-eq-ok (change env fresh member action input o) _ h2 in
          let (renewed, hr, h4) =
            >>=-eq-ok
              (renew_session env v fresh member action input (bump_access action input changed)) _
              h3 in
          record {
            member = member;
            changed = changed;
            renewed = renewed;
            is_authorized = authorized;
            is_permitted = allowed;
            is_changed = hc;
            is_renewed = hr;
            is_done = ground arith;
          }
    ]
