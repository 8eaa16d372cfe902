-- ===== src/Identity/Sessions.antt =====
-- Sessions: `rotate` of backend/internal/identity/auth.go with the row that `session` inserts, `recent`
-- of service.go, `app.authorize_membership`, and `LockDomainSession` of domain_boundary.go.
pub mod Revocation
use whats.Base.{
  ℕ, ◌+◌, ◌*◌, min, String, Bool, true, false, not, ◌&&◌, ◌||◌, List, [], ◌∷◌, Option, none, some,
  Result, ok, err, ◌>>◌, ◌>>=◌, fail_if, or_fail, ltb, any, find, holds, ◌==◌, nat_eq,
  if◌then◌else◌,
}
use whats.Inbox.Error.{Error, permission, unauthenticated, internal, reauth}
use whats.Inbox.Time.{Time, Duration, minute}
use whats.Inbox.Store.{Uuid, update_where}
use whats.Identity.Tables.{Org, Member, User, SessionRow}
use whats.Identity.Permission.{is_active_user}
use whats.Identity.Request.{UserSession, Fresh, Env}

abbrev pub is_seat : Uuid → Member → Bool
is_seat user m = m.user == user && m.active

-- `app.authorize_membership_write` and `app.authorize_membership` for the organization: the member.
unfoldable pub authorize_membership : Org → Uuid → Option Uuid
authorize_membership o user =
    if is_active_user o user && o.active
    then elim (find (is_seat user) o.members) [ none ↦ none | some m ↦ some m.id ]
    else none

abbrev pub member_revision : Org → Uuid → Option ℕ
member_revision o member = elim (find (λ m. m.id == member) o.members) [
  | none ↦ none
  | some m ↦ some m.access_revision
]

-- `recent`: authenticated at most five minutes ago
abbrev pub recent : Env → UserSession → Result Error (Unit {0})
recent env v = fail_if (ltb (v.reauth_at + 5 * minute) env.now) reauth

abbrev pub rotated_row : Env → UserSession → Fresh → ℕ → ℕ → SessionRow
rotated_row env v fresh auth access = record {
  id = fresh.session;
  user = v.user;
  token_digest = fresh.cookie_digest;
  auth_revision = auth;
  organization = v.organization;
  access_revision = access;
  expires_at = v.expires_at;
  idle_expires_at = min v.expires_at (env.now + 30 * minute);
  reauth_at = v.reauth_at;
  has_mfa = v.mfa;
  csrf_digest = fresh.csrf_digest;
  revoked = false;
}

abbrev pub revoke_session : Uuid → List SessionRow → List SessionRow
revoke_session id rows = update_where (λ s. s.id == id) (λ s. record s { revoked = true }) rows

-- `rotate`, for a session of the organization. No row is inserted for a user that is not active, and
-- the access revision of a new row must not be null.
unfoldable pub rotate : Env → UserSession → Fresh → Org → Result Error Org
rotate env v fresh o = elim (find (λ u. u.id == v.user && u.active) o.users) [
  | none ↦ ok record o { sessions = revoke_session v.id o.sessions }
  | some user ↦ do
    member ← or_fail (authorize_membership o v.user) internal
    access ← or_fail (member_revision o member) internal
    ok record o {
      sessions = rotated_row env v fresh user.auth_revision access ∷ revoke_session v.id o.sessions;
    }
]

abbrev pub is_live : Org → Time → ℕ → SessionRow → Bool
is_live o clock revision s =
    holds s.organization o.id
    && s.auth_revision == revision
    && any (λ m. m.user == s.user && m.access_revision == s.access_revision) o.members
    && not s.revoked
    && ltb clock s.expires_at
    && ltb clock s.idle_expires_at

-- `LockDomainSession`, for this organization: the session row and the member
unfoldable pub lock_domain_session : Time → Uuid → Org → Result Error (SessionRow × Uuid)
lock_domain_session clock sid o =
    or_fail (find (λ s. s.id == sid) o.sessions) unauthenticated >>= λ s.
    or_fail (find (λ u. u.id == s.user && u.active) o.users) unauthenticated >>= λ user.
    or_fail (authorize_membership o s.user) permission >>= λ member.
    fail_if (not (is_live o clock user.auth_revision s)) unauthenticated >> ok (s, member)
