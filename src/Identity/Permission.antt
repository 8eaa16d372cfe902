-- ===== src/Identity/Permission.antt =====
-- Permissions: `permission`, `require`, `roleKeys`, `ceiling`, `ownerInvariant` and `checkRevision` of
-- backend/internal/identity/access.go.
pub mod Laws
pub mod Meaning
use whats.Base.{
  ℕ, String, Bool, true, false, not, ◌&&◌, ◌||◌, List, [], ◌∷◌, map, Option, none, some, Result, ok,
  err, ◌>>◌, ◌>>=◌, fail_if, ltb, length, filter, any, find, holds, ◌==◌, nat_eq, string_eq,
  if◌then◌else◌,
}
use whats.Inbox.Error.{Error, validation, permission, not_found, conflict, last_owner}
use whats.Inbox.Time.{Time}
use whats.Inbox.Store.{Uuid}
use whats.Identity.Tables.{
  Org, Team, MemberRole, TeamMember, ScopeKind, org_scope, team_scope, self_scope, RolePermission,
}

-- `expires_at IS NULL OR expires_at>now()`
abbrev pub is_unexpired : Time → Option Time → Bool
is_unexpired now none = true
is_unexpired now (some t) = ltb now t

abbrev pub has_key : List RolePermission → Uuid → String → Bool
has_key perms role key = any (λ p. p.role == role && p.key == key) perms

abbrev pub is_open_team : List Team → Uuid → Bool
is_open_team teams id = any (λ t. t.id == id && not t.archived) teams

-- A comparison with a null is not true.
abbrev pub same : Option Uuid → Option Uuid → Bool
same none b = false
same (some a) none = false
same (some a) (some b) = a == b

abbrev pub team_fits : List Team → Option Uuid → Option Uuid → Bool
team_fits teams granted none = false
team_fits teams granted (some team) = same granted (some team) && is_open_team teams team

-- The scope of a direct grant covers the team or the subject asked for.
abbrev pub scope_fits : List Team → Uuid → Option Uuid → Option Uuid → MemberRole → Bool
scope_fits teams member team subject mr = elim mr.scope [
  | org_scope ↦ true
  | team_scope ↦ team_fits teams mr.team team
  | self_scope ↦ same subject (some member)
]

abbrev pub grants_key : Org → Time → Uuid → String → Option Uuid → Option Uuid → MemberRole → Bool
grants_key o now member key team subject mr =
    mr.member == member
    && has_key o.role_permissions mr.role key
    && is_unexpired now mr.expires_at
    && scope_fits o.teams member team subject mr

abbrev pub team_grants_key : Org → Uuid → String → Option Uuid → TeamMember → Bool
team_grants_key o member key team tm =
    tm.member == member
    && same (some tm.team) team
    && is_open_team o.teams tm.team
    && any (λ tr. tr.team == tm.team && has_key o.role_permissions tr.role key) o.team_roles

-- `permissionSQL`: a direct grant, or a role of a team of the member.
unfoldable pub permitted : Org → Time → Uuid → String → Option Uuid → Option Uuid → Bool
permitted o now member key team subject =
    any (grants_key o now member key team subject) o.member_roles
    || any (team_grants_key o member key team) o.team_members

abbrev pub require_key :
    Org → Time → Uuid → String → Option Uuid → Option Uuid → Result Error (Unit {0})
require_key o now member key team subject =
    fail_if (not (permitted o now member key team subject)) permission

-- `roleKeys`
unfoldable pub role_keys : Org → Uuid → Result Error (List String)
role_keys o role =
    if any (λ r. r.id == role) o.roles
    then ok (map (λ p. p.key) (filter (λ p. p.role == role) o.role_permissions))
    else err not_found

unfoldable pub require_keys :
    Org → Time → Uuid → Option Uuid → List String → Result Error (Unit {0})
require_keys o now member team [] = ok tt
require_keys o now member team (key ∷ keys) =
    require_key o now member key team none >> require_keys o now member team keys

-- The loop of `ceiling` over the roles.
unfoldable pub ceiling_loop : Org → Time → Uuid → Option Uuid → List Uuid → Result Error (Unit {0})
ceiling_loop o now member team [] = ok tt
ceiling_loop o now member team (role ∷ roles) = role_keys o role >>= λ keys.
    require_keys o now member team keys >> ceiling_loop o now member team roles

-- `ceiling`: the member holds every permission of the roles.
unfoldable pub ceiling : Org → Time → Uuid → List Uuid → Option Uuid → Result Error (Unit {0})
ceiling o now member roles team =
    fail_if (ltb 20 (length roles)) validation >> ceiling_loop o now member team roles

abbrev pub is_active_user : Org → Uuid → Bool
is_active_user o user = any (λ u. u.id == user && u.active) o.users

abbrev pub owns : Org → Time → Uuid → MemberRole → Bool
owns o now member mr = elim mr.scope [
  | org_scope ↦
      mr.member == member
      && is_unexpired now mr.expires_at
      && has_key o.role_permissions mr.role "owners.manage"
  | _ ↦ false
]

-- Some active member of an active user owns the organization: the count is at least one.
unfoldable pub has_owner : Org → Time → Bool
has_owner o now =
    any (λ m. m.active && is_active_user o m.user && any (owns o now m.id) o.member_roles) o.members

-- `ownerInvariant`
abbrev pub owner_invariant : Org → Time → Result Error (Unit {0})
owner_invariant o now = fail_if (not (has_owner o now)) last_owner

-- `checkRevision` on the revision of the row, if there is one.
abbrev pub check_revision : Option ℕ → ℕ → Result Error (Unit {0})
check_revision none seen = err not_found
check_revision (some actual) seen = fail_if (ltb seen 1 || not (actual == seen)) conflict
