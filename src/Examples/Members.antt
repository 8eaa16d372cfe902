-- ===== src/Examples/Members.antt =====
-- Members on a small organization: an owner, and an agent who has queued the test message.
use whats.Base.{
  ◌+◌, ◌≡◌, ◌↔◌, refl, true, false, [], ◌∷◌, none, some, Result, ok, err, All, if◌then◌else◌, not,
}
use whats.Inbox.Error.{Error, actor_authorization_revoked}
use whats.Inbox.Time.{hour, minute}
use whats.Inbox.Dispatch as Dispatch
use whats.Inbox.Dispatch.{Job, holds_lease, block}
use whats.Inbox.Store.{Uuid, Db, IntentState}
use whats.Meta.Events.{text}
use whats.Identity.Tables.{Org, MemberRole, org_scope, queued, MailDelivery}
use whats.Identity.Request.{UserSession, Input, Fresh, Env, deactivate_member, set_member_roles}
use whats.Identity.Permission.{permitted, role_keys, require_keys, ceiling_loop, ceiling, has_owner}
use whats.Identity.Permission.Meaning.{Holds, permitted-Holds}
use whats.Identity.Sessions.{authorize_membership}
use whats.Identity.Sessions.Revocation.{identity_access, deactivate_member-authorize}
use whats.Identity.Organization.{
  authorize, needed, change, bump_access, renew_session, organization,
}
use whats.Identity.Organization.Members.{
  set_member_status, set_roles, requested_grants, check_grants, check_grant, scope_kind,
}
use whats.Identity.Organization.Owners.{organization-has_owner}
use whats.Identity.Organization.Ceiling.{IsWithin, set_member_roles-IsWithin}
use whats.Identity.Delivery.{MailRun, Mail, deliver_one, compose}
use whats.Examples.Data.{noon, tables, live, hash_scope, hello, intent}

abbrev grant : Uuid → Uuid → MemberRole
grant member role = record {
  member = member;
  role = role;
  scope = org_scope;
  team = none;
  expires_at = none;
}

abbrev notice : MailDelivery
notice = record {
  id = 5;
  invitation = none;
  challenge = none;
  purpose = "SECURITY_NOTICE";
  source = 6;
  payload = some record { recipient = hello; token = []; purpose = "SECURITY_NOTICE" };
  state = queued;
  deadline = noon + hour;
  next_attempt_at = noon;
  attempts = 0;
  lease = none;
  lease_until = 0;
}

abbrev company : Org
company = record {
  id = 9;
  active = true;
  users =
      record { id = 1; email = hello; active = true; auth_revision = 1; verified = true }
      ∷ record { id = 2; email = []; active = true; auth_revision = 1; verified = true }
      ∷ [];
  members =
      record { id = 12; user = 1; active = true; access_revision = 1; revision = 1 }
      ∷ record { id = 13; user = 2; active = true; access_revision = 1; revision = 1 }
      ∷ [];
  roles =
      record { id = 31; name = hello; revision = 1 }
      ∷ record { id = 32; name = []; revision = 1 }
      ∷ [];
  role_permissions =
      record { role = 31; key = "owners.manage" }
      ∷ record { role = 31; key = "members.manage" }
      ∷ record { role = 31; key = "roles.assign" }
      ∷ record { role = 31; key = "messages.send" }
      ∷ record { role = 32; key = "messages.send" }
      ∷ [];
  teams = [];
  team_members = [];
  team_roles = [];
  member_roles = grant 12 31 ∷ grant 13 32 ∷ [];
  invitations = [];
  invitation_roles = [];
  sessions =
      record {
        id = 8;
        user = 1;
        token_digest = "k";
        auth_revision = 1;
        organization = some 9;
        access_revision = 1;
        expires_at = noon + hour;
        idle_expires_at = noon + minute;
        reauth_at = noon;
        has_mfa = true;
        csrf_digest = "c";
        revoked = false;
      }
      ∷ record {
        id = 11;
        user = 2;
        token_digest = "l";
        auth_revision = 1;
        organization = some 9;
        access_revision = 1;
        expires_at = noon + hour;
        idle_expires_at = noon + minute;
        reauth_at = noon;
        has_mfa = false;
        csrf_digest = "d";
        revoked = false;
      }
      ∷ [];
  challenges = [];
  mails = notice ∷ [];
  mail_attempts = [];
  audit_log = [];
}

abbrev owner : UserSession
owner = record {
  id = 8;
  user = 1;
  organization = some 9;
  verified = true;
  mfa = true;
  access_revision = 1;
  expires_at = noon + hour;
  reauth_at = noon;
}

abbrev env : Env
env = record { now = noon; production = true; canonical_email = λ t. some t; lower = λ t. t }

abbrev fresh : Fresh
fresh = record {
  id = 101;
  mail = 102;
  source = 103;
  token = hello;
  token_digest = "t";
  session = 104;
  cookie_digest = "f";
  csrf_digest = "e";
}

abbrev about_agent : Input
about_agent = record {
  organization = none;
  id = 13;
  member = 0;
  revision = 1;
  name = [];
  email = [];
  role_ids = 31 ∷ [];
  permissions = [];
  grants = [];
  scope = "";
  team = none;
}

abbrev or_company : Result Error Org → Org
or_company (ok o) = o
or_company (err e) = company

abbrev without_agent : Org
without_agent = or_company (organization env fresh owner deactivate_member about_agent company)

deactivate_run :
    organization env fresh owner deactivate_member about_agent company ≡ ok without_agent
unfolding organization authorize needed authorize_membership permitted change set_member_status
    ceiling ceiling_loop role_keys require_keys has_owner bump_access renew_session
deactivate_run = refl

company_owned : has_owner company noon ≡ true
unfolding has_owner
company_owned = refl

organization-has_owner_example : has_owner without_agent noon ≡ true
organization-has_owner_example =
    organization-has_owner env fresh owner deactivate_member about_agent company deactivate_run
      company_owned

abbrev promoted : Org
promoted = or_company (organization env fresh owner set_member_roles about_agent company)

promote_run : organization env fresh owner set_member_roles about_agent company ≡ ok promoted
unfolding organization authorize needed authorize_membership permitted change set_roles
    requested_grants check_grants check_grant scope_kind ceiling ceiling_loop role_keys require_keys
    has_owner bump_access renew_session
promote_run = refl

set_member_roles-IsWithin_example :
    (actor : Uuid) × (authorize_membership company 1 ≡ some actor)
    × All (IsWithin company noon actor 13) promoted.member_roles
set_member_roles-IsWithin_example =
    set_member_roles-IsWithin env fresh owner about_agent company promote_run

permitted-Holds_example :
    (permitted company noon 13 "messages.send" none none ≡ true)
    ↔ Holds company noon 13 "messages.send" none none
permitted-Holds_example = permitted-Holds company noon 13 "messages.send" none none

abbrev job : Job
job = record {
  intent = 80;
  session = 11;
  conversation = 30;
  actor = 13;
  phone = 20;
  message = 41;
  authorization = 60;
  text = hello;
  scope_hash = "scope";
  lease = 70;
}

abbrev leased_tables : Db
leased_tables = record tables {
  intents =
      record intent {
        state = IntentState.reserved;
        claim_token = some 70;
        claim_until = noon + minute;
      }
      ∷ [];
}

deactivate_member-authorize_example :
    Dispatch.authorize (identity_access noon without_agent) live 9 hash_scope noon job leased_tables
    ≡ some (
      (if not (holds_lease leased_tables job)
          then leased_tables
          else block actor_authorization_revoked job leased_tables),
      none,
    )
deactivate_member-authorize_example =
    deactivate_member-authorize env fresh owner about_agent company noon live 9 hash_scope
      leased_tables noon job deactivate_run refl

abbrev mail_run : MailRun
mail_run = record {
  now = noon;
  rechecked = noon + 1;
  finished = noon + 2;
  locked = λ id. false;
  lease = 7;
  jitter = 3;
  digest = λ t. "t";
  origin = text "https://control.example";
  send = λ m. none;
}

abbrev mailed : Org
mailed = (deliver_one mail_run (λ o. o) (λ o. o) company).0

abbrev sent_mail : Mail
sent_mail =
    compose mail_run.origin 5 record { recipient = hello; token = []; purpose = "SECURITY_NOTICE" }
