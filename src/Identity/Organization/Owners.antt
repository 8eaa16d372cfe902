-- ===== src/Identity/Organization/Owners.antt =====
-- An organization never loses its last active owner.
use whats.Base.{
  ◌≡◌, refl, sym, ap, ◌∙◌, inl, inr, Bool, true, false, ok, arith, Result-cases, ◌==◌, nat_eq,
}
use whats.Inbox.Time.{Time}
use whats.Inbox.Store.{Uuid}
use whats.Inbox.Store.Updates.{any-update_where}
use whats.Identity.Tables.{Org, Member}
use whats.Identity.Permission.{has_owner}
use whats.Identity.Sessions.{rotate}
use whats.Identity.Request.{
  UserSession, Input, Fresh, Env, Action, invite, revoke_invite, resend_invite, deactivate_member,
  reactivate_member, set_member_roles, create_team, update_team, archive_team, add_team_member,
  remove_team_member, set_team_roles, create_role, update_role,
}
use whats.Identity.Organization.Invitations.{invite_member, revoke_invitation, resend_invitation}
use whats.Identity.Organization.Members.{
  set_member_status, set_roles, requested_grants, check_grants, regranted, revised,
}
use whats.Identity.Organization.Teams.{
  create_team_row, rename_team, archive, add_to_team, remove_from_team, set_roles_of_team,
  create_role_row, update_role_row,
}
use whats.Identity.Organization.Steps.{organization-steps}
use whats.Identity.Organization.{
  organization, change, bump_access, renew_session, advance, advance_where,
}

IsKept : Time → Org → Org → Type 0
IsKept now o o' = has_owner o now ≡ true → has_owner o' now ≡ true

invite_member-IsKept :
    (env : Env) (fresh : Fresh) (member : Uuid) (input : Input) (o : Org) {o' : Org}
    → invite_member env fresh member input o ≡ ok o'
    → IsKept env.now o o'
unfolding invite_member has_owner IsKept
invite_member-IsKept env fresh member input o h = ground arith

revoke_invitation-IsKept :
    (env : Env) (input : Input) (o : Org) {o' : Org}
    → revoke_invitation input o ≡ ok o'
    → IsKept env.now o o'
unfolding revoke_invitation has_owner IsKept
revoke_invitation-IsKept env input o h = ground arith

resend_invitation-IsKept :
    (env : Env) (fresh : Fresh) (member : Uuid) (input : Input) (o : Org) {o' : Org}
    → resend_invitation env fresh member input o ≡ ok o'
    → IsKept env.now o o'
unfolding resend_invitation has_owner IsKept
resend_invitation-IsKept env fresh member input o h = ground arith

set_member_status-IsKept :
    (env : Env) (member : Uuid) (active : Bool) (input : Input) (o : Org) {o' : Org}
    → set_member_status env member active input o ≡ ok o'
    → IsKept env.now o o'
unfolding set_member_status has_owner IsKept
set_member_status-IsKept env member active input o h = ground arith

create_team_row-IsKept :
    (env : Env) (fresh : Fresh) (input : Input) (o : Org) {o' : Org}
    → create_team_row env fresh input o ≡ ok o'
    → IsKept env.now o o'
unfolding create_team_row has_owner IsKept
create_team_row-IsKept env fresh input o h = ground arith

rename_team-IsKept :
    (env : Env) (member : Uuid) (input : Input) (o : Org) {o' : Org}
    → rename_team env member input o ≡ ok o'
    → IsKept env.now o o'
unfolding rename_team has_owner IsKept
rename_team-IsKept env member input o h = ground arith

archive-IsKept :
    (env : Env) (member : Uuid) (input : Input) (o : Org) {o' : Org}
    → archive env member input o ≡ ok o'
    → IsKept env.now o o'
unfolding archive has_owner IsKept
archive-IsKept env member input o h = ground arith

add_to_team-IsKept :
    (env : Env) (member : Uuid) (input : Input) (o : Org) {o' : Org}
    → add_to_team env member input o ≡ ok o'
    → IsKept env.now o o'
unfolding add_to_team has_owner IsKept
add_to_team-IsKept env member input o h = ground arith

remove_from_team-IsKept :
    (env : Env) (member : Uuid) (input : Input) (o : Org) {o' : Org}
    → remove_from_team env member input o ≡ ok o'
    → IsKept env.now o o'
unfolding remove_from_team has_owner IsKept
remove_from_team-IsKept env member input o h = ground arith

set_roles_of_team-IsKept :
    (env : Env) (member : Uuid) (input : Input) (o : Org) {o' : Org}
    → set_roles_of_team env member input o ≡ ok o'
    → IsKept env.now o o'
unfolding set_roles_of_team has_owner IsKept
set_roles_of_team-IsKept env member input o h = ground arith

update_role_row-IsKept :
    (env : Env) (member : Uuid) (input : Input) (o : Org) {o' : Org}
    → update_role_row env member input o ≡ ok o'
    → IsKept env.now o o'
unfolding update_role_row has_owner IsKept
update_role_row-IsKept env member input o h = ground arith

has_owner-revised :
    (id : Uuid) (o : Org) (now : Time) → has_owner (revised id o) now ≡ has_owner o now
unfolding has_owner
has_owner-revised id o now = any-update_where _ (λ m. m.id == id) _ o.members (λ m. refl)

has_owner-advance_where :
    (test : Member → Bool) (o : Org) (now : Time)
    → has_owner (advance_where test o) now ≡ has_owner o now
unfolding has_owner
has_owner-advance_where test o now = any-update_where _ test advance o.members (λ m. refl)

set_roles-IsKept :
    (env : Env) (member : Uuid) (input : Input) (o : Org) {o' : Org}
    → set_roles env member input o ≡ ok o'
    → IsKept env.now o o'
unfolding set_roles IsKept
set_roles-IsKept env member input o h = elim (Result-cases (requested_grants input)) [
  | inl (e, refused) ↦ absurd (ground arith)
  | inr (grants, asked) ↦ elim (Result-cases (check_grants env member input.id o grants)) [
    | inl (e, refused) ↦ absurd (ground arith)
    | inr (rows, checked) ↦
        ground (arith, has_owner-revised input.id (regranted input.id rows o) env.now)
  ]
]

create_role_row-IsKept :
    (env : Env) (fresh : Fresh) (member : Uuid) (input : Input) (o : Org) {o' : Org}
    → create_role_row env fresh member input o ≡ ok o'
    → IsKept env.now o o'
unfolding create_role_row has_owner IsKept
create_role_row-IsKept env fresh member input o h = ground arith

change-IsKept :
    (env : Env) (fresh : Fresh) (member : Uuid) (action : Action) (input : Input) (o : Org)
    {o' : Org}
    → change env fresh member action input o ≡ ok o'
    → IsKept env.now o o'
unfolding change
change-IsKept env fresh member invite input o h = invite_member-IsKept env fresh member input o h
change-IsKept env fresh member revoke_invite input o h = revoke_invitation-IsKept env input o h
change-IsKept env fresh member resend_invite input o h =
    resend_invitation-IsKept env fresh member input o h
change-IsKept env fresh member deactivate_member input o h =
    set_member_status-IsKept env member false input o h
change-IsKept env fresh member reactivate_member input o h =
    set_member_status-IsKept env member true input o h
change-IsKept env fresh member set_member_roles input o h = set_roles-IsKept env member input o h
change-IsKept env fresh member create_team input o h = create_team_row-IsKept env fresh input o h
change-IsKept env fresh member update_team input o h = rename_team-IsKept env member input o h
change-IsKept env fresh member archive_team input o h = archive-IsKept env member input o h
change-IsKept env fresh member add_team_member input o h = add_to_team-IsKept env member input o h
change-IsKept env fresh member remove_team_member input o h =
    remove_from_team-IsKept env member input o h
change-IsKept env fresh member set_team_roles input o h =
    set_roles_of_team-IsKept env member input o h
change-IsKept env fresh member create_role input o h =
    create_role_row-IsKept env fresh member input o h
change-IsKept env fresh member update_role input o h = update_role_row-IsKept env member input o h

bump_access-has_owner :
    (action : Action) (input : Input) (o : Org) (now : Time)
    → has_owner (bump_access action input o) now ≡ has_owner o now
unfolding bump_access
bump_access-has_owner invite input o now = refl
bump_access-has_owner revoke_invite input o now = refl
bump_access-has_owner resend_invite input o now = refl
bump_access-has_owner deactivate_member input o now = refl
bump_access-has_owner reactivate_member input o now = refl
bump_access-has_owner set_member_roles input o now = refl
bump_access-has_owner create_team input o now = refl
bump_access-has_owner update_team input o now = refl
bump_access-has_owner create_role input o now = refl
bump_access-has_owner archive_team input o now = has_owner-advance_where _ o now
bump_access-has_owner add_team_member input o now = has_owner-advance_where _ o now
bump_access-has_owner remove_team_member input o now = has_owner-advance_where _ o now
bump_access-has_owner set_team_roles input o now = has_owner-advance_where _ o now
bump_access-has_owner update_role input o now = has_owner-advance_where _ o now

rotate-IsKept :
    (env : Env) (v : UserSession) (fresh : Fresh) (o : Org) {o' : Org}
    → rotate env v fresh o ≡ ok o'
    → IsKept env.now o o'
unfolding rotate IsKept has_owner
rotate-IsKept env v fresh o h = ground arith

renew_session-IsKept :
    (env : Env) (v : UserSession) (fresh : Fresh) (member : Uuid) (action : Action) (input : Input)
    (o : Org) {o' : Org}
    → renew_session env v fresh member action input o ≡ ok o'
    → IsKept env.now o o'
unfolding renew_session IsKept
renew_session-IsKept env v fresh member action input o h =
    elim (Result-cases (rotate env v fresh o)) [
      | inl (e, refused) ↦ ground arith
      | inr (o', rotated) ↦ ground (arith, rotate-IsKept env v fresh o rotated)
    ]

-- A write of an organization that succeeds leaves an organization that had an active owner with
-- an active owner.
pub organization-has_owner :
    (env : Env) (fresh : Fresh) (v : UserSession) (action : Action) (input : Input) (o : Org)
    {o' : Org}
    → organization env fresh v action input o ≡ ok o'
    → has_owner o env.now ≡ true
    → has_owner o' env.now ≡ true
unfolding IsKept has_owner
organization-has_owner env fresh v action input o {o'} h owned =
    let w = organization-steps env fresh v action input o h in
    let kept = change-IsKept env fresh w.member action input o w.is_changed owned in
    let bumped = bump_access-has_owner action input w.changed env.now ∙ kept in
    ap (λ x. has_owner x env.now) (sym w.is_done)
    ∙ renew_session-IsKept env v fresh w.member action input _ w.is_renewed bumped
