-- ===== src/Identity/Domain.antt =====
-- Requests with a session: `authenticate` of backend/internal/identity/service.go and
-- `DomainTransaction` of domain_boundary.go, for a session of the organization or of none.
pub mod Csrf
use whats.Base.{
  ℕ, ◌+◌, ◌*◌, min, String, Bool, true, false, not, ◌&&◌, ◌||◌, List, [], ◌∷◌, Option, none, some,
  Result, ok, err, ◌>>=◌, ◌>>◌, fail_if, or_fail, ltb, length, any, find, holds, ◌==◌, nat_eq,
  string_eq, list_eq, if◌then◌else◌,
}
use whats.Inbox.Error.{Error, permission, unauthenticated, reauth}
use whats.Inbox.Time.{Time, minute}
use whats.Inbox.Text.{Text, byte_length}
use whats.Inbox.Store.{Uuid, update_where}
use whats.Identity.Tables.{Org, User, SessionRow}
use whats.Identity.Sessions.{authorize_membership, member_revision, lock_domain_session}
use whats.Identity.Request.{UserSession, Env}

-- The organization of the session is none, or its member is active and at the session's revision.
abbrev pub is_current : Org → SessionRow → Bool
is_current o s = elim s.organization [
  | none ↦ true
  | some org ↦ org == o.id && elim (authorize_membership o s.user) [
    | none ↦ false
    | some member ↦ holds (member_revision o member) s.access_revision
  ]
]

abbrev pub is_valid : Time → ℕ → Org → SessionRow → Bool
is_valid now revision o s =
    s.auth_revision == revision
    && not s.revoked
    && ltb now s.expires_at
    && ltb now s.idle_expires_at
    && is_current o s

-- `authenticate`: the session of a cookie, whose idle time starts again. The flag is that of a confirmed
-- factor.
unfoldable pub authenticate :
    Env → (Text → String) → (Uuid → Bool) → Text → Org → Result Error (UserSession × Org)
authenticate env digest has_factor token o = do
  fail_if (token == [] || ltb 128 (byte_length token)) unauthenticated
  s ← or_fail (find (λ s. s.token_digest == digest token) o.sessions) unauthenticated
  u ← or_fail (find (λ u. u.id == s.user && u.active) o.users) unauthenticated
  fail_if (not (is_valid env.now u.auth_revision o s)) unauthenticated
  ok (
    record {
      id = s.id;
      user = s.user;
      organization = s.organization;
      verified = u.verified;
      mfa = has_factor s.user;
      access_revision = s.access_revision;
      expires_at = s.expires_at;
      reauth_at = s.reauth_at;
    },
    record o {
      sessions =
          update_where (λ x. x.id == s.id)
            (λ x. record x { idle_expires_at = min x.expires_at (env.now + 30 * minute) })
            o.sessions;
    },
  )

-- What `DomainTransaction` reads of a request: cookies, and two headers.
pub record DomainRequest : Type 0 where
  pub is_get : Bool
  pub cookie : Option Text
  pub csrf_cookie : Option Text
  pub origin : Text
  pub csrf_token : Text

-- The test of a write before the database is asked.
abbrev pub is_forged : Text → DomainRequest → Bool
is_forged origin r =
    not (r.origin == origin)
    || not (byte_length r.csrf_token == 43)
    || not (holds r.csrf_cookie r.csrf_token)

abbrev pub is_verified_user : Org → Uuid → Bool
is_verified_user o user = any (λ u. u.id == user && u.verified) o.users

-- `DomainTransaction`: what `work` does for the session and its member, or an error.
unfoldable pub domain_transaction :
    {A : Type 0}
    → Env
    → (Text → String)
    → (Uuid → Bool)
    → Text
    → Bool
    → DomainRequest
    → (SessionRow → Uuid → Result Error A)
    → Org
    → Result Error A
domain_transaction env digest has_factor origin sensitive r work o = do
  cookie ← or_fail r.cookie unauthenticated
  fail_if (cookie == [] || ltb 128 (byte_length cookie)) unauthenticated
  fail_if (not r.is_get && is_forged origin r) permission
  found ← or_fail (find (λ s. s.token_digest == digest cookie) o.sessions) unauthenticated
  fail_if (not (holds found.organization o.id)) unauthenticated
  locked ← lock_domain_session env.now found.id o
  let s = locked.0
  fail_if
      (not r.is_get
        && (not (is_verified_user o s.user) || not (digest r.csrf_token == s.csrf_digest)))
      permission
  fail_if (sensitive && ltb (s.reauth_at + 5 * minute) env.now) reauth
  fail_if (sensitive && not (s.has_mfa && has_factor s.user)) reauth
  work s locked.1
