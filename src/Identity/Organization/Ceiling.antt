-- ===== src/Identity/Organization/Ceiling.antt =====
-- No member grants what he does not hold.
use whats.Base.{
  ◌≡◌, sym, ap, ◌∙◌, inl, inr, not, List, [], ◌∷◌, ◌++◌, filter, some, ok, arith, Result-cases,
  Bool-cases, >>=-eq-ok, ◌==◌, nat_eq, string_eq, All,
}
use whats.Inbox.Time.{Time}
use whats.Inbox.Store.{Uuid}
use whats.Identity.Tables.{Org, MemberRole}
use whats.Identity.Permission.{ceiling}
use whats.Identity.Permission.Laws.{IsCovered, ceiling-IsCovered}
use whats.Identity.Sessions.{authorize_membership, rotate}
use whats.Identity.Request.{UserSession, Input, Fresh, Env, Action, Grant, set_member_roles}
use whats.Identity.Organization.Members.{set_roles, requested_grants, check_grants, check_grant}
use whats.Identity.Organization.Steps.{organization-steps}
use whats.Identity.Organization.{organization, change, bump_access, renew_session, authorize}

-- The row grants the target no permission that the actor lacks where the grant is for.
abbrev pub IsWithin : Org → Time → Uuid → Uuid → MemberRole → Type 0
IsWithin o now actor target r = r.member ≡ target → IsCovered o now actor r.team r.role

check_grant-IsWithin :
    (env : Env) (actor target : Uuid) (o : Org) (g : Grant) {row : MemberRole}
    → check_grant env actor target o g ≡ ok row
    → IsWithin o env.now actor target row
unfolding check_grant
check_grant-IsWithin env actor target o g {row} h mine =
    elim (Result-cases (ceiling o env.now actor (g.role ∷ []) g.team)) [
      | inl (e, refused) ↦ absurd (ground arith)
      | inr (_, held) ↦
          let covered = ceiling-IsCovered o env.now actor (g.role ∷ []) g.team held in
          let team : g.team ≡ row.team = ground arith in
          let role : g.role ≡ row.role = ground arith in rw (sym team, sym role) covered.0
    ]

check_grants-IsWithin :
    (env : Env) (actor target : Uuid) (o : Org) (gs : List Grant) {rows : List MemberRole}
    → check_grants env actor target o gs ≡ ok rows
    → All (IsWithin o env.now actor target) rows
unfolding check_grants
check_grants-IsWithin env actor target o [] {rows} h =
    let same : rows ≡ [] = ground arith in rw same tt
check_grants-IsWithin env actor target o (g ∷ gs) {rows} h =
    let (row, first, h1) = >>=-eq-ok (check_grant env actor target o g) _ h in
    let (rest, later, h2) = >>=-eq-ok (check_grants env actor target o gs) _ h1 in
    let same : rows ≡ row ∷ rest = ground arith in
    rw same (
      check_grant-IsWithin env actor target o g first,
      check_grants-IsWithin env actor target o gs later,
    )

All-append : {A : Type 0} (P : A → Type 0) (xs ys : List A) → All P xs → All P ys → All P (xs ++ ys)
All-append P [] ys hx hy = hy
All-append P (x ∷ xs) ys (here, rest) hy = (here, All-append P xs ys rest hy)

others-IsWithin :
    (o : Org) (now : Time) (actor target : Uuid) (rows : List MemberRole)
    → All (IsWithin o now actor target) (filter (λ r. not (r.member == target)) rows)
others-IsWithin o now actor target [] = tt
others-IsWithin o now actor target (r ∷ rs) = elim (Bool-cases (r.member == target)) [
  | inl mine ↦ rw mine (others-IsWithin o now actor target rs)
  | inr other ↦ rw other ((λ same. absurd (ground arith)), others-IsWithin o now actor target rs)
]

set_roles-IsWithin :
    (env : Env) (actor : Uuid) (input : Input) (o : Org) {o' : Org}
    → set_roles env actor input o ≡ ok o'
    → All (IsWithin o env.now actor input.id) o'.member_roles
unfolding set_roles
set_roles-IsWithin env actor input o {o'} h = elim (Result-cases (requested_grants input)) [
  | inl (e, refused) ↦ absurd (ground arith)
  | inr (grants, asked) ↦ elim (Result-cases (check_grants env actor input.id o grants)) [
    | inl (e, refused) ↦ absurd (ground arith)
    | inr (rows, checked) ↦
        let others = filter (λ r. not (r.member == input.id)) o.member_roles in
        let same : o'.member_roles ≡ rows ++ others = ground arith in
        rw same (
          All-append _ rows others (check_grants-IsWithin env actor input.id o grants checked)
            (others-IsWithin o env.now actor input.id o.member_roles))
  ]
]

rotate-member_roles :
    (env : Env) (v : UserSession) (fresh : Fresh) (o : Org) {o' : Org}
    → rotate env v fresh o ≡ ok o'
    → o'.member_roles ≡ o.member_roles
unfolding rotate
rotate-member_roles env v fresh o h = ground arith

renew_session-member_roles :
    (env : Env) (v : UserSession) (fresh : Fresh) (member : Uuid) (action : Action) (input : Input)
    (o : Org) {o' : Org}
    → renew_session env v fresh member action input o ≡ ok o'
    → o'.member_roles ≡ o.member_roles
unfolding renew_session
renew_session-member_roles env v fresh member action input o h =
    elim (Result-cases (rotate env v fresh o)) [
      | inl (e, refused) ↦ ground arith
      | inr (o', rotated) ↦ ground (arith, rotate-member_roles env v fresh o rotated)
    ]

authorize-member :
    (env : Env) (v : UserSession) (input : Input) (o : Org) {actor : Uuid}
    → authorize env v input o ≡ ok actor
    → authorize_membership o v.user ≡ some actor
unfolding authorize
authorize-member env v input o h = ground arith

-- After a successful change of the roles of a member, every permission of every role that the
-- member then has directly is one that the acting member held before, for the team that the
-- grant is for.
pub set_member_roles-IsWithin :
    (env : Env) (fresh : Fresh) (v : UserSession) (input : Input) (o : Org) {o' : Org}
    → organization env fresh v set_member_roles input o ≡ ok o'
    → (actor : Uuid) × (authorize_membership o v.user ≡ some actor)
      × All (IsWithin o env.now actor input.id) o'.member_roles
unfolding change bump_access
set_member_roles-IsWithin env fresh v input o {o'} h =
    let w = organization-steps env fresh v set_member_roles input o h in
    let kept =
      renew_session-member_roles env v fresh w.member set_member_roles input _ w.is_renewed in
    let same : o'.member_roles ≡ w.changed.member_roles =
      ap (λ x. x.member_roles) (sym w.is_done) ∙ kept in
    let within : All (IsWithin o env.now w.member input.id) o'.member_roles =
      rw same (set_roles-IsWithin env w.member input o w.is_changed) in
    (w.member, authorize-member env v input o w.is_authorized, within)
