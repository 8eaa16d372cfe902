-- ===== src/Identity/Organization/Invitations.antt =====
-- Invitations: `org.invite`, `org.invite.revoke` and `org.invite.resend` of
-- backend/internal/identity/access.go, and `accept`.
use whats.Base.{
  ◌+◌, ◌*◌, String, Bool, true, false, not, ◌&&◌, ◌||◌, List, [], ◌∷◌, ◌++◌, map, Option, none,
  some, Result, ok, ◌>>◌, ◌>>=◌, fail_if, or_fail, is_none, ltb, leb, length, filter, any, find,
  ◌==◌, nat_eq, string_eq, list_eq,
}
use whats.Inbox.Error.{
  Error, validation, permission, not_found, conflict, internal, token_invalid, unauthenticated,
}
use whats.Inbox.Time.{Time, hour}
use whats.Inbox.Text.{Text, is_blank, byte_length}
use whats.Inbox.Store.{Uuid, update_where}
use whats.Identity.Tables.{Org, org_scope, Invitation, pending, accepted, revoked, lapsed}
use whats.Identity.Permission.{check_revision, ceiling, require_key}
use whats.Identity.Sessions.{authorize_membership}
use whats.Identity.Mail.{enqueue, cancel_mail}
use whats.Identity.Request.{Input, Fresh, Env}

-- The lists of a table are sets of rows: the same role twice breaks a unique index.
abbrev pub has_duplicate : List Uuid → Bool
has_duplicate [] = false
has_duplicate (x ∷ xs) = any (λ y. y == x) xs || has_duplicate xs

abbrev pub is_pending : Invitation → Bool
is_pending i = elim i.state [ pending ↦ true | _ ↦ false ]

-- The update that marks the expired invitations of an address, before a new one is inserted.
abbrev pub expire_invitations : Time → Text → List Invitation → List Invitation
expire_invitations now email rows =
    update_where (λ i. i.email == email && is_pending i && leb i.expires_at now)
      (λ i. record i { state = lapsed; revision = i.revision + 1 }) rows

-- `invitationRoles`
abbrev pub invitation_roles : Org → Uuid → List Uuid
invitation_roles o inv = map (λ r. r.role) (filter (λ r. r.invitation == inv) o.invitation_roles)

unfoldable pub invite_member : Env → Fresh → Uuid → Input → Org → Result Error Org
invite_member env fresh member input o = do
  email ← or_fail (env.canonical_email input.email) validation
  fail_if (length input.role_ids == 0) validation
  ceiling o env.now member input.role_ids none
  let current = expire_invitations env.now email o.invitations
  fail_if (any (λ i. i.email == email && is_pending i) current) internal
  fail_if (has_duplicate input.role_ids) internal
  let deadline = env.now + 72 * hour
  ok record o {
    invitations =
        record {
          id = fresh.id;
          email = email;
          token_digest = fresh.token_digest;
          inviter = member;
          state = pending;
          expires_at = deadline;
          revision = 1;
        }
        ∷ current;
    invitation_roles =
        map (λ r. record { invitation = fresh.id; role = r }) input.role_ids ++ o.invitation_roles;
    mails = enqueue env fresh (some fresh.id) none "INVITATION" fresh.id email deadline o.mails;
  }

abbrev pub cancel_invitation_mail : Uuid → Org → Org
cancel_invitation_mail inv o = record o {
  mails = cancel_mail (λ d. elim d.invitation [ none ↦ false | some i ↦ i == inv ]) o.mails;
}

-- The invitation at the revision of the request, which must be pending.
unfoldable pub pending_invitation : Input → Org → Result Error Invitation
pending_invitation input o = or_fail (find (λ i. i.id == input.id) o.invitations) not_found >>= λ i.
    check_revision (some i.revision) input.revision >> fail_if (not (is_pending i)) conflict >> ok i

unfoldable pub revoke_invitation : Input → Org → Result Error Org
revoke_invitation input o = pending_invitation input o >>= λ i.
    let o' = cancel_invitation_mail input.id o in
    ok record o' {
      invitations =
          update_where (λ i. i.id == input.id)
            (λ i. record i { state = revoked; revision = i.revision + 1 }) o'.invitations;
    }

unfoldable pub resend_invitation : Env → Fresh → Uuid → Input → Org → Result Error Org
resend_invitation env fresh member input o = do
  i ← pending_invitation input o
  let o' = cancel_invitation_mail input.id o
  ceiling o env.now member (invitation_roles o input.id) none
  let deadline = env.now + 72 * hour
  ok record o' {
    invitations =
        update_where (λ i. i.id == input.id)
          (λ i. record i {
            token_digest = fresh.token_digest;
            expires_at = deadline;
            inviter = member;
            revision = i.revision + 1;
          })
          o'.invitations;
    mails =
        enqueue env fresh (some input.id) none "INVITATION" fresh.source i.email deadline o'.mails;
  }

-- What `accept` is told: the digest of the token, a name and whether a password is given and its
-- hash can be made, and the user of the session that `authenticate` and the CSRF token confirm.
pub record Acceptance : Type 0 where
  pub token_digest : String
  pub name : Text
  pub has_password : Bool
  pub hashes : Bool
  pub signed_in : Option Uuid

-- The user of the address: inserted when there is none, else the one that is signed in.
unfoldable pub accepting_user : Fresh → Text → Acceptance → Org → Result Error (Uuid × Org)
accepting_user fresh email a o = elim (find (λ u. u.email == email) o.users) [
  | none ↦
      fail_if (not a.hashes) validation
      >> fail_if (is_blank a.name || ltb 100 (byte_length a.name)) validation
      >> ok (
        fresh.source,
        record o {
          users =
              record {
                id = fresh.source;
                email = email;
                active = true;
                auth_revision = 1;
                verified = true;
              }
              ∷ o.users;
        },
      )
  | some u ↦
      fail_if (not (elim a.signed_in [ none ↦ false | some user ↦ user == u.id ]) || a.has_password)
        unauthenticated
      >> ok (u.id, o)
]

-- `accept`
unfoldable pub accept : Env → Fresh → Acceptance → Org → Result Error Org
accept env fresh a o = do
  i ←
      or_fail
        (find (λ i. i.token_digest == a.token_digest && is_pending i && ltb env.now i.expires_at)
          o.invitations)
        token_invalid
  inviter ← or_fail (find (λ m. m.id == i.inviter) o.members) internal
  joined ← accepting_user fresh i.email a o
  let user = joined.0
  let o' = joined.1
  fail_if (is_none (authorize_membership o' inviter.user)) permission
  require_key o' env.now i.inviter "members.invite" none none
  let roles = invitation_roles o' i.id
  ceiling o' env.now i.inviter roles none
  fail_if (not (is_pending i && ltb env.now i.expires_at)) token_invalid
  fail_if (any (λ m. m.user == user) o'.members) internal
  ok record o' {
    members =
        record { id = fresh.id; user = user; active = true; access_revision = 1; revision = 1 }
        ∷ o'.members;
    member_roles =
        map
          (λ r. record {
            member = fresh.id;
            role = r;
            scope = org_scope;
            team = none;
            expires_at = none;
          })
          roles
        ++ o'.member_roles;
    invitations =
        update_where (λ j. j.id == i.id)
          (λ j. record j { state = accepted; revision = j.revision + 1 }) o'.invitations;
    audit_log =
        record { actor = some user; action = "invitation.accepted"; resource = i.id }
        ∷ o'.audit_log;
  }
