-- ===== src/Identity/Organization/Teams.antt =====
-- Teams and roles: `org.team.*`, `org.role.create` and `org.role.update` of
-- backend/internal/identity/access.go.
use whats.Base.{
  ℕ, ◌+◌, String, Bool, true, false, not, ◌&&◌, ◌||◌, List, [], ◌∷◌, ◌++◌, map, Option, none, some,
  Result, ok, ◌>>◌, fail_if, ltb, length, filter, any, find, ◌==◌, nat_eq, string_eq, list_eq,
  if◌then◌else◌,
}
use whats.Inbox.Error.{Error, validation, not_found, internal}
use whats.Inbox.Text.{Text, is_blank, byte_length}
use whats.Inbox.Store.{Uuid, update_where}
use whats.Identity.Tables.{Org, Team, Role, RolePermission}
use whats.Identity.Permission.{check_revision, ceiling, require_keys, owner_invariant, is_open_team}
use whats.Identity.Organization.Invitations.{has_duplicate}
use whats.Identity.Request.{Input, Fresh, Env}

abbrev pub is_bad_name : Text → Bool
is_bad_name name = is_blank name || ltb 100 (byte_length name)

-- The unique index on the lower-case names of the teams that are not archived.
abbrev pub clashes : Env → Uuid → Text → List Team → Bool
clashes env id name teams =
    any (λ t. not (t.id == id) && not t.archived && env.lower t.name == env.lower name) teams

unfoldable pub create_team_row : Env → Fresh → Input → Org → Result Error Org
create_team_row env fresh input o =
    fail_if (is_bad_name input.name) validation
    >> fail_if (clashes env fresh.id input.name o.teams) internal
    >> ok record o {
      teams = record { id = fresh.id; name = input.name; archived = false; revision = 1 } ∷ o.teams;
    }

abbrev pub team_revision : Org → Uuid → Option ℕ
team_revision o id = elim (find (λ t. t.id == id) o.teams) [
  | none ↦ none
  | some t ↦ some t.revision
]

abbrev pub team_role_ids : Org → Uuid → List Uuid
team_role_ids o team = map (λ r. r.role) (filter (λ r. r.team == team) o.team_roles)

-- The first part of the team actions: the revision, and the ceiling of the roles the team has.
unfoldable pub check_team_change : Env → Uuid → Input → Org → Result Error (Unit {0})
check_team_change env member input o =
    check_revision (team_revision o input.id) input.revision
    >> ceiling o env.now member (team_role_ids o input.id) (some input.id)

abbrev pub bump_team : Uuid → Org → Org
bump_team id o = record o {
  teams = update_where (λ t. t.id == id) (λ t. record t { revision = t.revision + 1 }) o.teams;
}

unfoldable pub rename_team : Env → Uuid → Input → Org → Result Error Org
rename_team env member input o = do
  check_team_change env member input o
  fail_if (is_bad_name input.name) validation
  fail_if (is_open_team o.teams input.id && clashes env input.id input.name o.teams) internal
  ok (
      bump_team input.id record o {
        teams = update_where (λ t. t.id == input.id) (λ t. record t { name = input.name }) o.teams;
      })

unfoldable pub archive : Env → Uuid → Input → Org → Result Error Org
archive env member input o =
    check_team_change env member input o
    >> ok (
        bump_team input.id record o {
          teams = update_where (λ t. t.id == input.id) (λ t. record t { archived = true }) o.teams;
        })

abbrev pub is_in_team : Org → Uuid → Uuid → Bool
is_in_team o team member = any (λ tm. tm.team == team && tm.member == member) o.team_members

unfoldable pub add_to_team : Env → Uuid → Input → Org → Result Error Org
add_to_team env member input o = do
  check_team_change env member input o
  fail_if
      (not (any (λ m. m.id == input.member && m.active) o.members && is_open_team o.teams input.id))
      not_found
  ok (
      bump_team input.id record o {
        team_members =
            if is_in_team o input.id input.member
            then o.team_members
            else record { team = input.id; member = input.member } ∷ o.team_members;
      })

unfoldable pub remove_from_team : Env → Uuid → Input → Org → Result Error Org
remove_from_team env member input o =
    check_team_change env member input o
    >> ok (
        bump_team input.id record o {
          team_members =
              filter (λ tm. not (tm.team == input.id && tm.member == input.member)) o.team_members;
        })

unfoldable pub set_roles_of_team : Env → Uuid → Input → Org → Result Error Org
set_roles_of_team env member input o = do
  check_team_change env member input o
  ceiling o env.now member input.role_ids (some input.id)
  fail_if (has_duplicate input.role_ids) internal
  ok (
      bump_team input.id record o {
        team_roles =
            map (λ r. record { team = input.id; role = r }) input.role_ids
            ++ filter (λ r. not (r.team == input.id)) o.team_roles;
      })

-- Roles

abbrev pub role_revision : Org → Uuid → Option ℕ
role_revision o id = elim (find (λ r. r.id == id) o.roles) [
  | none ↦ none
  | some r ↦ some r.revision
]

abbrev pub repeats_key : List String → Bool
repeats_key [] = false
repeats_key (k ∷ ks) = any (λ x. x == k) ks || repeats_key ks

abbrev pub is_bad_role : Input → Bool
is_bad_role input = is_bad_name input.name || ltb 30 (length input.permissions)

abbrev pub role_clashes : Uuid → Text → List Role → Bool
role_clashes id name roles = any (λ r. not (r.id == id) && r.name == name) roles

abbrev pub permission_rows : Uuid → List String → List RolePermission
permission_rows role keys = map (λ k. record { role = role; key = k }) keys

unfoldable pub create_role_row : Env → Fresh → Uuid → Input → Org → Result Error Org
create_role_row env fresh member input o = do
  fail_if (is_bad_role input) validation
  require_keys o env.now member none input.permissions
  fail_if (role_clashes fresh.id input.name o.roles || repeats_key input.permissions) internal
  let o' = record o {
    roles = record { id = fresh.id; name = input.name; revision = 1 } ∷ o.roles;
    role_permissions = permission_rows fresh.id input.permissions ++ o.role_permissions;
  }
  owner_invariant o' env.now
  ok o'

unfoldable pub update_role_row : Env → Uuid → Input → Org → Result Error Org
update_role_row env member input o = do
  fail_if (is_bad_role input) validation
  check_revision (role_revision o input.id) input.revision
  ceiling o env.now member (input.id ∷ []) none
  require_keys o env.now member none input.permissions
  fail_if (role_clashes input.id input.name o.roles || repeats_key input.permissions) internal
  let o' = record o {
    roles =
        update_where (λ r. r.id == input.id)
          (λ r. record r { name = input.name; revision = r.revision + 1 }) o.roles;
    role_permissions =
        permission_rows input.id input.permissions
        ++ filter (λ p. not (p.role == input.id)) o.role_permissions;
  }
  owner_invariant o' env.now
  ok o'
