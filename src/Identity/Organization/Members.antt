-- ===== src/Identity/Organization/Members.antt =====
-- Members: `org.member.deactivate`, `org.member.reactivate` and `org.member.roles` of
-- backend/internal/identity/access.go.
use whats.Base.{
  ℕ, ◌+◌, String, Bool, true, false, not, ◌&&◌, ◌||◌, List, [], ◌∷◌, ◌++◌, map, Option, none, some,
  Result, ok, ◌>>◌, ◌>>=◌, fail_if, or_fail, is_some, ltb, length, filter, any, find, ◌==◌, nat_eq,
  string_eq, if◌then◌else◌,
}
use whats.Inbox.Error.{Error, validation, internal}
use whats.Inbox.Store.{Uuid, update_where}
use whats.Identity.Tables.{Org, Member, MemberRole, ScopeKind, org_scope, team_scope, self_scope}
use whats.Identity.Permission.{check_revision, ceiling, owner_invariant}
use whats.Identity.Request.{Input, Grant, Env}

-- `SELECT DISTINCT`
abbrev pub distinct : List Uuid → List Uuid
distinct [] = []
distinct (x ∷ xs) = if any (λ y. y == x) xs then distinct xs else x ∷ distinct xs

-- `memberRoles`
abbrev pub member_roles : Org → Uuid → List Uuid
member_roles o member =
    distinct (map (λ r. r.role) (filter (λ r. r.member == member) o.member_roles))

abbrev pub member_row_revision : Org → Uuid → Option ℕ
member_row_revision o id = elim (find (λ m. m.id == id) o.members) [
  | none ↦ none
  | some m ↦ some m.revision
]

abbrev pub set_status : Bool → Member → Member
set_status active m = record m {
  active = active;
  access_revision = m.access_revision + 1;
  revision = m.revision + 1;
}

-- `org.member.deactivate` and `org.member.reactivate`; the teams of a deactivated member forget it.
unfoldable pub set_member_status : Env → Uuid → Bool → Input → Org → Result Error Org
set_member_status env member active input o = do
  check_revision (member_row_revision o input.id) input.revision
  ceiling o env.now member (member_roles o input.id) none
  let o' = record o {
    members = update_where (λ m. m.id == input.id) (set_status active) o.members;
    team_members =
        if active
        then o.team_members
        else filter (λ tm. not (tm.member == input.id)) o.team_members;
  }
  owner_invariant o' env.now
  ok o'

-- The grants of the request: its list, or one for each role of `role_ids`.
unfoldable pub requested_grants : Input → Result Error (List Grant)
requested_grants input =
    fail_if (ltb 0 (length input.grants) && ltb 0 (length input.role_ids)) validation
    >> (if length input.grants == 0
        then ok (
            map
              (λ role. record {
                role = role;
                scope = if input.scope == "" then "ORG" else input.scope;
                team = input.team;
              })
              input.role_ids)
        else ok input.grants)

unfoldable pub scope_kind : String → Option ScopeKind
scope_kind s =
    if s == "ORG"
    then some org_scope
    else if s == "TEAM"
    then some team_scope
    else if s == "SELF"
    then some self_scope
    else none

abbrev pub is_team_scope : ScopeKind → Bool
is_team_scope team_scope = true
is_team_scope _ = false

abbrev pub eqb : Bool → Bool → Bool
eqb true b = b
eqb false b = not b

-- The loop over the grants: each names a scope and a team if it is for one, and holds no more than
-- the acting member has there. The result is the row that is inserted.
unfoldable pub check_grant : Env → Uuid → Uuid → Org → Grant → Result Error MemberRole
check_grant env member target o g = do
  kind ← or_fail (scope_kind g.scope) validation
  fail_if (not (eqb (is_team_scope kind) (is_some g.team))) validation
  ceiling o env.now member (g.role ∷ []) g.team
  ok record { member = target; role = g.role; scope = kind; team = g.team; expires_at = none }

unfoldable pub check_grants : Env → Uuid → Uuid → Org → List Grant → Result Error (List MemberRole)
check_grants env member target o [] = ok []
check_grants env member target o (g ∷ gs) = check_grant env member target o g >>= λ row.
    check_grants env member target o gs >>= λ rows. ok (row ∷ rows)

-- The unique index and the foreign key of `app.member_roles`.
abbrev pub same_grant : MemberRole → MemberRole → Bool
same_grant a b =
    a.role == b.role
    && elim a.scope [
      | org_scope ↦ elim b.scope [ org_scope ↦ true | _ ↦ false ]
      | team_scope ↦ is_team_scope b.scope
      | self_scope ↦ elim b.scope [ self_scope ↦ true | _ ↦ false ]
    ]
    && elim a.team [
      | none ↦ elim b.team [ none ↦ true | some _ ↦ false ]
      | some t ↦ elim b.team [ none ↦ false | some u ↦ t == u ]
    ]

abbrev pub repeats : List MemberRole → Bool
repeats [] = false
repeats (r ∷ rs) = any (same_grant r) rs || repeats rs

abbrev pub names_no_team : Org → MemberRole → Bool
names_no_team o r = elim r.team [ none ↦ false | some t ↦ not (any (λ x. x.id == t) o.teams) ]

abbrev pub regranted : Uuid → List MemberRole → Org → Org
regranted id rows o = record o {
  member_roles = rows ++ filter (λ r. not (r.member == id)) o.member_roles;
}

abbrev pub revised : Uuid → Org → Org
revised id o = record o {
  members =
      update_where (λ m. m.id == id)
        (λ m. record m { access_revision = m.access_revision + 1; revision = m.revision + 1 })
        o.members;
}

-- `org.member.roles`
unfoldable pub set_roles : Env → Uuid → Input → Org → Result Error Org
set_roles env member input o = do
  check_revision (member_row_revision o input.id) input.revision
  ceiling o env.now member (member_roles o input.id) none
  grants ← requested_grants input
  fail_if (ltb 20 (length grants)) validation
  rows ← check_grants env member input.id o grants
  fail_if (repeats rows || any (names_no_team o) rows) internal
  owner_invariant (regranted input.id rows o) env.now
  ok (revised input.id (regranted input.id rows o))
