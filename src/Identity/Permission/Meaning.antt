-- ===== src/Identity/Permission/Meaning.antt =====
-- The permission query says what a permission is: a role of the member, or of one of his teams, that
-- has the key and reaches the team or person asked for.
use whats.Base.{
  ◌≡◌, refl, sym, inl, inr, ◌⊎◌, ◌↔◌, ◌<◌, String, Bool, true, false, ◌&&◌, List, [], ◌∷◌, Option,
  none, some, arith, Bool-cases, Option-cases, any, ◌==◌, nat_eq, string_eq, list_eq,
}
use mathlib.Core.List.{Memᴰ}
use mathlib.Core.List.Memᴰ.{head, tail}
use text.Mathlib.TextEquality.{eq_iff}
use whats.Inbox.Time.{Time}
use whats.Inbox.Store.{Uuid}
use whats.Identity.Tables.{
  Org, Team, MemberRole, TeamMember, TeamRole, RolePermission, ScopeKind, org_scope, team_scope,
  self_scope,
}
use whats.Identity.Permission.{
  permitted, has_key, is_unexpired, is_open_team, scope_fits, grants_key, team_grants_key,
}

any→Memᴰ :
    {A : Type 0} (p : A → Bool) (xs : List A) → any p xs ≡ true → (x : A) × Memᴰ x xs × (p x ≡ true)
any→Memᴰ p [] h = absurd (ground arith)
any→Memᴰ p (x ∷ xs) h = elim (Bool-cases (p x)) [
  | inl hit ↦ (x, head refl, hit)
  | inr miss ↦ let (y, found, hit) = any→Memᴰ p xs (rw miss at h) in (y, tail found, hit)
]

Memᴰ→any :
    {A : Type 0} (p : A → Bool) (x : A) {xs : List A} → Memᴰ x xs → p x ≡ true → any p xs ≡ true
Memᴰ→any p x (head {x = y} e) hit = let first : p y ≡ true = rw (sym e) hit in rw first refl
Memᴰ→any p x (tail {x = y} found) hit = ground (arith, Memᴰ→any p x found hit)

module _ (o : Org) (now : Time) (member : Uuid) (key : String) where
  -- The role has the key.
  abbrev pub HasKey : Uuid → Type 0
  HasKey role = (p : RolePermission) × Memᴰ p o.role_permissions × (p.role ≡ role) × (p.key ≡ key)

  abbrev pub IsOpen : Uuid → Type 0
  IsOpen id = (t : Team) × Memᴰ t o.teams × (t.id ≡ id) × (t.archived ≡ false)

  abbrev pub IsCurrent : Option Time → Type 0
  IsCurrent e = (e ≡ none) ⊎ ((t : Time) × (e ≡ some t) × (now < t))

  -- A grant of the member that has not expired, by a role with the key.
  pub record IsDirect (r : MemberRole) : Type 0 where
    pub is_row : Memᴰ r o.member_roles
    pub is_mine : r.member ≡ member
    pub is_current : IsCurrent r.expires_at
    pub has_key : HasKey r.role

  -- What it is to hold the permission, for a team or a subject or neither.
  pub data Holds (team subject : Option Uuid) : Type 0 where
    in_organization : (r : MemberRole) → IsDirect r → r.scope ≡ org_scope → Holds team subject
    in_team :
        (r : MemberRole) (id : Uuid)
        → IsDirect r
        → r.scope ≡ team_scope
        → r.team ≡ some id
        → team ≡ some id
        → IsOpen id
        → Holds team subject
    for_self :
        (r : MemberRole)
        → IsDirect r
        → r.scope ≡ self_scope
        → subject ≡ some member
        → Holds team subject
    by_team :
        (m : TeamMember) (tr : TeamRole)
        → Memᴰ m o.team_members
        → m.member ≡ member
        → team ≡ some m.team
        → IsOpen m.team
        → Memᴰ tr o.team_roles
        → tr.team ≡ m.team
        → HasKey tr.role
        → Holds team subject

  has_key→HasKey : (role : Uuid) → has_key o.role_permissions role key ≡ true → HasKey role
  has_key→HasKey role h =
      let (p, found, hit) = any→Memᴰ _ o.role_permissions h in
      (p, found, ground arith, ground (arith, eq_iff p.key key))

  HasKey→has_key : (role : Uuid) → HasKey role → has_key o.role_permissions role key ≡ true
  HasKey→has_key role (p, found, e, e') = Memᴰ→any _ p found (ground (arith, eq_iff p.key key))

  is_open→IsOpen : (id : Uuid) → is_open_team o.teams id ≡ true → IsOpen id
  is_open→IsOpen id h =
      let (t, found, hit) = any→Memᴰ _ o.teams h in (t, found, ground arith, ground arith)

  IsOpen→is_open : (id : Uuid) → IsOpen id → is_open_team o.teams id ≡ true
  IsOpen→is_open id (t, found, e, e') = Memᴰ→any _ t found (ground arith)

  is_unexpired→IsCurrent : (e : Option Time) → is_unexpired now e ≡ true → IsCurrent e
  is_unexpired→IsCurrent none h = inl refl
  is_unexpired→IsCurrent (some t) h = inr (t, refl, ground arith)

  IsCurrent→is_unexpired : (e : Option Time) → IsCurrent e → is_unexpired now e ≡ true
  IsCurrent→is_unexpired e c = ground arith

  scope-cases : (k : ScopeKind) → (k ≡ org_scope) ⊎ (k ≡ team_scope) ⊎ (k ≡ self_scope)
  scope-cases org_scope = inl refl
  scope-cases team_scope = inr (inl refl)
  scope-cases self_scope = inr (inr refl)

  grants_key→Holds :
      (team subject : Option Uuid) (r : MemberRole)
      → Memᴰ r o.member_roles
      → grants_key o now member key team subject r ≡ true
      → Holds team subject
  grants_key→Holds team subject r found h =
      let direct : IsDirect r = record {
        is_row = found;
        is_mine = ground arith;
        is_current = is_unexpired→IsCurrent r.expires_at (ground arith);
        has_key = has_key→HasKey r.role (ground arith);
      } in
      elim (scope-cases r.scope) [
        | inl e ↦ in_organization r direct e
        | inr (inl e) ↦ elim (Option-cases team) [
          | inl e' ↦ absurd (ground arith)
          | inr (id, e') ↦
              let opened : is_open_team o.teams id ≡ true = ground arith in
              in_team r id direct e (ground arith) e' (is_open→IsOpen id opened)
        ]
        | inr (inr e) ↦ for_self r direct e (ground arith)
      ]

  team_grants_key→Holds :
      (team subject : Option Uuid) (m : TeamMember)
      → Memᴰ m o.team_members
      → team_grants_key o member key team m ≡ true
      → Holds team subject
  team_grants_key→Holds team subject m found h =
      let granting : TeamRole → Bool =
        λ tr. tr.team == m.team && has_key o.role_permissions tr.role key in
      let some_role : any granting o.team_roles ≡ true = ground arith in
      let (tr, found', hit) = any→Memᴰ granting o.team_roles some_role in
      by_team m tr found (ground arith) (ground arith) (is_open→IsOpen m.team (ground arith)) found'
        (ground arith) (has_key→HasKey tr.role (ground arith))

  IsDirect→grants_key :
      (team subject : Option Uuid) (r : MemberRole)
      → IsDirect r
      → scope_fits o.teams member team subject r ≡ true
      → any (grants_key o now member key team subject) o.member_roles ≡ true
  IsDirect→grants_key team subject r d fits =
      let key' = HasKey→has_key r.role d.has_key in
      let cur = IsCurrent→is_unexpired r.expires_at d.is_current in
      let mine = d.is_mine in Memᴰ→any _ r d.is_row (ground arith)

  Holds→permitted :
      (team subject : Option Uuid)
      → Holds team subject
      → permitted o now member key team subject ≡ true
  unfolding permitted
  Holds→permitted team subject (in_organization r d e) =
      ground (arith, IsDirect→grants_key team subject r d (ground arith))
  Holds→permitted team subject (in_team r id d e e' e'' opened) =
      let opened' = IsOpen→is_open id opened in
      ground (arith, IsDirect→grants_key team subject r d (ground arith))
  Holds→permitted team subject (for_self r d e e') =
      ground (arith, IsDirect→grants_key team subject r d (ground arith))
  Holds→permitted team subject (by_team m tr found e e' opened found' e'' keyed) =
      let opened' = IsOpen→is_open m.team opened in
      let keyed' = HasKey→has_key tr.role keyed in
      let granting : TeamRole → Bool =
        λ tr. tr.team == m.team && has_key o.role_permissions tr.role key in
      let some_role : any granting o.team_roles ≡ true =
        Memᴰ→any granting tr found' (ground arith) in
      let hit : any (team_grants_key o member key team) o.team_members ≡ true =
        Memᴰ→any _ m found (ground arith) in
      ground arith

  permitted→Holds :
      (team subject : Option Uuid)
      → permitted o now member key team subject ≡ true
      → Holds team subject
  unfolding permitted
  permitted→Holds team subject h =
      elim (Bool-cases (any (grants_key o now member key team subject) o.member_roles)) [
        | inl direct ↦
            let (r, found, hit) = any→Memᴰ _ o.member_roles direct in
            grants_key→Holds team subject r found hit
        | inr not_direct ↦
            let (m, found, hit) = any→Memᴰ _ o.team_members (rw not_direct at h) in
            team_grants_key→Holds team subject m found hit
      ]

  -- The permission query is true exactly when the member holds the permission: by an unexpired
  -- direct grant of a role with the key that is for the organization, for the open team asked
  -- for, or for the member himself as the subject, or by a role with the key of an open team
  -- that is asked for and that he is in.
  pub permitted-Holds :
      (team subject : Option Uuid)
      → (permitted o now member key team subject ≡ true) ↔ Holds team subject
  permitted-Holds team subject = (permitted→Holds team subject, Holds→permitted team subject)
