-- ===== src/Identity/Permission/Laws.antt =====
-- A role passes the ceiling of a member only if the member holds each of its permissions.
use whats.Base.{
  ◌≡◌, sym, inl, inr, String, true, List, [], ◌∷◌, map, filter, Option, none, ok, arith,
  Result-cases, Bool-cases, >>=-eq-ok, ◌==◌, nat_eq, string_eq, All,
}
use text.Mathlib.TextEquality.{eq_iff}
use whats.Inbox.Time.{Time}
use whats.Inbox.Store.{Uuid}
use whats.Identity.Tables.{Org, RolePermission}
use whats.Identity.Permission.{permitted, require_keys, role_keys, ceiling, ceiling_loop, has_key}

-- The member holds every key of the list.
abbrev pub AllPermitted : Org → Time → Uuid → Option Uuid → List String → Type 0
AllPermitted o now member team keys = All (λ key. permitted o now member key team none ≡ true) keys

pub require_keys-AllPermitted :
    (o : Org) (now : Time) (member : Uuid) (team : Option Uuid) (keys : List String)
    → require_keys o now member team keys ≡ ok tt
    → AllPermitted o now member team keys
unfolding require_keys
require_keys-AllPermitted o now member team [] h = tt
require_keys-AllPermitted o now member team (key ∷ keys) h =
    elim (Bool-cases (permitted o now member key team none)) [
      | inr refused ↦ absurd (ground arith)
      | inl allowed ↦ (allowed, require_keys-AllPermitted o now member team keys (rw allowed at h))
    ]

-- The member holds every permission that the role has.
abbrev pub IsCovered : Org → Time → Uuid → Option Uuid → Uuid → Type 0
IsCovered o now member team role =
    (key : String)
    → has_key o.role_permissions role key ≡ true
    → permitted o now member key team none ≡ true

AllPermitted-has_key :
    (o : Org) (now : Time) (member : Uuid) (team : Option Uuid) (role : Uuid)
    (rows : List RolePermission)
    → AllPermitted o now member team (map (λ p. p.key) (filter (λ p. p.role == role) rows))
    → (key : String) → has_key rows role key ≡ true
    → permitted o now member key team none ≡ true
AllPermitted-has_key o now member team role [] held key h = absurd (ground arith)
AllPermitted-has_key o now member team role (p ∷ ps) held key h =
    elim (Bool-cases (p.role == role)) [
      | inr other ↦
          AllPermitted-has_key o now member team role ps (rw other at held) key (ground arith)
      | inl mine ↦
          let (here, rest) = rw mine at held in
          elim (Bool-cases (p.key == key)) [
            | inl found ↦
                let same : p.key ≡ key = ground (arith, eq_iff p.key key) in rw (sym same) here
            | inr else_ ↦ AllPermitted-has_key o now member team role ps rest key (ground arith)
          ]
    ]

role_keys-IsCovered :
    (o : Org) (now : Time) (member : Uuid) (team : Option Uuid) (role : Uuid) (keys : List String)
    → role_keys o role ≡ ok keys
    → AllPermitted o now member team keys
    → IsCovered o now member team role
unfolding role_keys
role_keys-IsCovered o now member team role keys known held =
    let same : map (λ p. p.key) (filter (λ p. p.role == role) o.role_permissions) ≡ keys =
      ground arith in
    AllPermitted-has_key o now member team role o.role_permissions (rw same held)

ceiling_loop-All :
    (o : Org) (now : Time) (member : Uuid) (team : Option Uuid) (roles : List Uuid)
    → ceiling_loop o now member team roles ≡ ok tt
    → All (IsCovered o now member team) roles
unfolding ceiling_loop
ceiling_loop-All o now member team [] h = tt
ceiling_loop-All o now member team (role ∷ roles) h =
    let (keys, known, h1) = >>=-eq-ok (role_keys o role) _ h in
    elim (Result-cases (require_keys o now member team keys)) [
      | inl (e, refused) ↦ absurd (ground arith)
      | inr (_, held) ↦ (
        role_keys-IsCovered o now member team role keys known
            (require_keys-AllPermitted o now member team keys held),
        ceiling_loop-All o now member team roles (rw held at h1),
      )
    ]

-- `ceiling` returns no error only if the member holds all permissions of all the roles.
pub ceiling-IsCovered :
    (o : Org) (now : Time) (member : Uuid) (roles : List Uuid) (team : Option Uuid)
    → ceiling o now member roles team ≡ ok tt
    → All (IsCovered o now member team) roles
unfolding ceiling
ceiling-IsCovered o now member roles team h =
    ceiling_loop-All o now member team roles (ground arith)
