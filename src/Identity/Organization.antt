-- ===== src/Identity/Organization.antt =====
-- `organization` of backend/internal/identity/access.go: who may write, the action, and after it the
-- access revisions, the session and the audit record.
pub mod Invitations
pub mod Members
pub mod Teams
pub mod Steps
pub mod Owners
pub mod Ceiling
use whats.Base.{
  ℕ, ◌+◌, String, Bool, true, false, not, ◌&&◌, ◌||◌, List, [], ◌∷◌, Option, none, some, Result, ok,
  err, ◌>>◌, ◌>>=◌, fail_if, or_fail, is_none, any, find, holds, ◌==◌, nat_eq, if◌then◌else◌,
}
use whats.Inbox.Error.{Error, permission, unauthenticated, internal, reauth}
use whats.Inbox.Store.{Uuid, update_where}
use whats.Identity.Tables.{Org, Member, AuditRow}
use whats.Identity.Permission.{require_key, same}
use whats.Identity.Sessions.{authorize_membership, member_revision, recent, rotate}
use whats.Identity.Request.{
  UserSession, Input, Fresh, Env, Action, invite, revoke_invite, resend_invite, deactivate_member,
  reactivate_member, set_member_roles, create_team, update_team, archive_team, add_team_member,
  remove_team_member, set_team_roles, create_role, update_role,
}
use whats.Identity.Organization.Invitations.{invite_member, revoke_invitation, resend_invitation}
use whats.Identity.Organization.Members.{set_member_status, set_roles}
use whats.Identity.Organization.Teams.{
  create_team_row, rename_team, archive, add_to_team, remove_from_team, set_roles_of_team,
  create_role_row, update_role_row,
}

-- The organization that is acted on: the one of the input, else that of the session.
abbrev pub acted_on : UserSession → Input → Option Uuid
acted_on v input = elim input.organization [ none ↦ v.organization | some org ↦ some org ]

-- The membership, the access revision of the session, and for a write a verified address, a recent
-- authentication and in production a second factor. `o` holds the rows of one organization; a
-- request for another one is about other rows.
unfoldable pub authorize : Env → UserSession → Input → Org → Result Error Uuid
authorize env v input o = do
  fail_if (not (holds (acted_on v input) o.id)) permission
  member ← or_fail (authorize_membership o v.user) permission
  fail_if (holds v.organization o.id && not (holds (member_revision o member) v.access_revision))
      unauthenticated
  fail_if (not v.verified) permission
  recent env v
  fail_if (env.production && not v.mfa) reauth
  ok member

-- `needed`
unfoldable pub needed : Action → String
needed invite = "members.invite"
needed revoke_invite = "members.invite"
needed resend_invite = "members.invite"
needed deactivate_member = "members.manage"
needed reactivate_member = "members.manage"
needed set_member_roles = "roles.assign"
needed create_team = "teams.manage"
needed update_team = "teams.manage"
needed archive_team = "teams.manage"
needed add_team_member = "teams.manage"
needed remove_team_member = "teams.manage"
needed set_team_roles = "roles.assign"
needed create_role = "roles.manage"
needed update_role = "roles.manage"

-- The team whose roles count for the permission: an `org.team.` action other than `create`.
abbrev pub is_team_action : Action → Bool
is_team_action action = elim action [
  | update_team ↦ true
  | archive_team ↦ true
  | add_team_member ↦ true
  | remove_team_member ↦ true
  | set_team_roles ↦ true
  | _ ↦ false
]

unfoldable pub change : Env → Fresh → Uuid → Action → Input → Org → Result Error Org
change env fresh member invite input o = invite_member env fresh member input o
change env fresh member revoke_invite input o = revoke_invitation input o
change env fresh member resend_invite input o = resend_invitation env fresh member input o
change env fresh member deactivate_member input o = set_member_status env member false input o
change env fresh member reactivate_member input o = set_member_status env member true input o
change env fresh member set_member_roles input o = set_roles env member input o
change env fresh member create_team input o = create_team_row env fresh input o
change env fresh member update_team input o = rename_team env member input o
change env fresh member archive_team input o = archive env member input o
change env fresh member add_team_member input o = add_to_team env member input o
change env fresh member remove_team_member input o = remove_from_team env member input o
change env fresh member set_team_roles input o = set_roles_of_team env member input o
change env fresh member create_role input o = create_role_row env fresh member input o
change env fresh member update_role input o = update_role_row env member input o

-- The resource: `in.ID`, which the actions that insert a row set.
abbrev pub resource : Action → Fresh → Input → Uuid
resource action fresh input = elim action [
  | invite ↦ fresh.id
  | create_team ↦ fresh.id
  | create_role ↦ fresh.id
  | _ ↦ input.id
]

abbrev pub holds_role : Org → Uuid → Member → Bool
holds_role o role m =
    any (λ r. r.member == m.id && r.role == role) o.member_roles
    || any
        (λ tm. tm.member == m.id && any (λ tr. tr.team == tm.team && tr.role == role) o.team_roles)
        o.team_members

abbrev pub touches_team : Org → Uuid → Uuid → Member → Bool
touches_team o team member m =
    any (λ tm. tm.team == team && tm.member == m.id) o.team_members
    || any (λ r. same r.team (some team) && r.member == m.id) o.member_roles
    || m.id == member

abbrev pub advance : Member → Member
advance m = record m { access_revision = m.access_revision + 1 }

abbrev pub advance_where : (Member → Bool) → Org → Org
advance_where test o = record o { members = update_where test advance o.members }

-- The members whose access the action has changed: their sessions of the organization end.
unfoldable pub bump_access : Action → Input → Org → Org
bump_access action input o = elim action [
  | update_role ↦ advance_where (holds_role o input.id) o
  | set_team_roles ↦ advance_where (touches_team o input.id input.member) o
  | archive_team ↦ advance_where (touches_team o input.id input.member) o
  | add_team_member ↦ advance_where (touches_team o input.id input.member) o
  | remove_team_member ↦ advance_where (touches_team o input.id input.member) o
  | _ ↦ o
]

abbrev pub is_deactivation : Action → Bool
is_deactivation deactivate_member = true
is_deactivation _ = false

-- The actor's session of the organization is replaced if the action advanced the actor's own access
-- revision, except by the actor's own deactivation.
unfoldable pub renew_session :
    Env → UserSession → Fresh → Uuid → Action → Input → Org → Result Error Org
renew_session env v fresh member action input o = do
  actor ← or_fail (member_revision o member) internal
  s ← or_fail (find (λ s. s.id == v.id) o.sessions) internal
  (if not (actor == s.access_revision) && holds v.organization o.id
      then (if is_deactivation action && input.id == member then ok o else rotate env v fresh o)
      else ok o)

abbrev pub word : Action → String
word invite = "org.invite"
word revoke_invite = "org.invite.revoke"
word resend_invite = "org.invite.resend"
word deactivate_member = "org.member.deactivate"
word reactivate_member = "org.member.reactivate"
word set_member_roles = "org.member.roles"
word create_team = "org.team.create"
word update_team = "org.team.update"
word archive_team = "org.team.archive"
word add_team_member = "org.team.member.add"
word remove_team_member = "org.team.member.remove"
word set_team_roles = "org.team.roles"
word create_role = "org.role.create"
word update_role = "org.role.update"

abbrev pub audited : UserSession → Action → Uuid → Org → Org
audited v action resource o = record o {
  audit_log =
      record { actor = some v.user; action = word action; resource = resource } ∷ o.audit_log;
}

-- The team the permission is asked for.
abbrev pub asked_team : Action → Input → Option Uuid
asked_team action input = if is_team_action action then some input.id else none

-- `organization`, for the actions that write
unfoldable pub organization : Env → Fresh → UserSession → Action → Input → Org → Result Error Org
organization env fresh v action input o = do
  member ← authorize env v input o
  require_key o env.now member (needed action) (asked_team action input) none
  changed ← change env fresh member action input o
  renewed ← renew_session env v fresh member action input (bump_access action input changed)
  ok (audited v action (resource action fresh input) renewed)
