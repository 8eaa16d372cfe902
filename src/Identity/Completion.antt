-- ===== src/Identity/Completion.antt =====
-- Proving a challenge: `public.mfa`, `public.reset.complete` and `public.verify.complete` of `identity`,
-- backend/internal/identity/auth.go, with the row that `session` of service.go inserts.
pub mod Reset
use whats.Base.{
  ℕ, ◌+◌, ◌*◌, min, String, Bool, true, false, not, ◌&&◌, ◌||◌, List, [], ◌∷◌, Option, none, some,
  Result, ok, err, ltb, any, find, ◌==◌, nat_eq, string_eq, if◌then◌else◌,
}
use whats.Inbox.Error.{Error, validation, token_invalid, authentication}
use whats.Inbox.Time.{Time, minute, hour}
use whats.Inbox.Store.{Uuid, update_where}
use whats.Identity.Tables.{Org, User, SessionRow, Challenge}
use whats.Identity.Mail.{enqueue}
use whats.Identity.Request.{Env, Fresh}

-- What a request proves: the digest of its token, and whether `checkFactor` accepts the code and
-- `HashPassword` the new password. The organization of a new session is the only one of the user, with
-- the member's access revision, if there is only one.
pub record Proof : Type 0 where
  pub token_digest : String
  pub kind : String
  pub factor : Bool
  pub hashes : Bool
  pub only_organization : Option (Uuid × ℕ)

abbrev pub is_provable : Time → Uuid → Proof → Challenge → Bool
is_provable now user p c =
    c.user == user
    && c.token_digest == p.token_digest
    && c.kind == p.kind
    && ltb now c.expires_at
    && not c.consumed
    && not c.revoked
    && ltb c.attempts 8

abbrev pub update_challenge : Uuid → (Challenge → Challenge) → Org → Org
update_challenge id f o = record o { challenges = update_where (λ c. c.id == id) f o.challenges }

-- `session`: a row for an active user.
unfoldable pub new_session : Env → Fresh → User → Bool → Proof → SessionRow
new_session env fresh u mfa p = record {
  id = fresh.session;
  user = u.id;
  token_digest = fresh.cookie_digest;
  auth_revision = u.auth_revision;
  organization = elim p.only_organization [ none ↦ none | some x ↦ some x.0 ];
  access_revision = elim p.only_organization [ none ↦ 1 | some x ↦ x.1 ];
  expires_at = env.now + 12 * hour;
  idle_expires_at = env.now + 30 * minute;
  reauth_at = env.now;
  has_mfa = mfa;
  csrf_digest = fresh.csrf_digest;
  revoked = false;
}

-- The changes of a password reset: every session of the user and every login under way ends.
unfoldable pub reset : Env → Fresh → User → Org → Org
reset env fresh u o = record o {
  users =
      update_where (λ x. x.id == u.id) (λ x. record x { auth_revision = x.auth_revision + 1 })
        o.users;
  sessions =
      update_where (λ s. s.user == u.id && not s.revoked) (λ s. record s { revoked = true })
        o.sessions;
  challenges =
      update_where (λ c. c.user == u.id && c.kind == "LOGIN_MFA" && not c.consumed)
        (λ c. record c { revoked = true }) o.challenges;
  mails =
      enqueue env fresh none none "SECURITY_NOTICE" fresh.source u.email (env.now + 24 * hour)
        o.mails;
}

abbrev pub verify : User → Org → Org
verify u o = record o {
  users = update_where (λ x. x.id == u.id) (λ x. record x { verified = true }) o.users;
}

-- What the proof of a challenge changes, before it is consumed.
unfoldable pub effect : Env → Fresh → User → Proof → Org → Org
effect env fresh u p o =
    if p.kind == "PASSWORD_RESET"
    then reset env fresh u o
    else if p.kind == "EMAIL_VERIFY"
    then verify u o
    else record o { sessions = new_session env fresh u true p ∷ o.sessions }

-- The three actions: the answer, and the tables as they are committed. An attempt at a login counts
-- although it fails.
unfoldable pub complete : Env → Fresh → Proof → Org → Result Error (Unit {0}) × Org
complete env fresh p o =
    elim (find (λ c. c.token_digest == p.token_digest && c.kind == p.kind) o.challenges) [
      | none ↦ (err token_invalid, o)
      | some owned ↦ elim (find (λ u. u.id == owned.user && u.active) o.users) [
        | none ↦ (err token_invalid, o)
        | some u ↦ elim (find (is_provable env.now u.id p) o.challenges) [
          | none ↦ (err token_invalid, o)
          | some c ↦
              let counted = update_challenge c.id (λ x. record x { attempts = x.attempts + 1 }) o in
              if p.kind == "LOGIN_MFA" && not p.factor
              then (err authentication, counted)
              else if p.kind == "PASSWORD_RESET" && not p.hashes
              then (err validation, o)
              else (let done = effect env fresh u p counted in
                  (ok tt, update_challenge c.id (λ x. record x { consumed = true }) done))
        ]
      ]
    ]
