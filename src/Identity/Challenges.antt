-- ===== src/Identity/Challenges.antt =====
-- Challenges and limits: `challenge` of backend/internal/identity/auth.go and `limit` of service.go.
use whats.Base.{
  ℕ, ◌+◌, ◌*◌, String, true, false, not, ◌&&◌, List, ◌∷◌, none, some, Result, ok, err, filter, ltb,
  leb, length, any, find, ◌==◌, nat_eq, string_eq, if◌then◌else◌,
}
use whats.Inbox.Error.{Error, rate_limited}
use whats.Inbox.Time.{Time, Duration, minute}
use whats.Inbox.Text.{Text}
use whats.Inbox.Store.{Uuid, update_where}
use whats.Identity.Tables.{Org, Challenge}
use whats.Identity.Request.{Env, Fresh}
use whats.Identity.Mail.{enqueue, cancel_mail}

-- The challenges of the kind that are still open are revoked.
abbrev pub revoke_challenges : Uuid → String → List Challenge → List Challenge
revoke_challenges user kind rows =
    update_where (λ c. c.user == user && c.kind == kind && not c.consumed && not c.revoked)
      (λ c. record c { revoked = true }) rows

-- `challenge`: one open challenge of a kind, mailed unless it is for a login.
unfoldable pub challenge : Env → Fresh → Uuid → Text → String → Duration → Org → Org
challenge env fresh user email kind lifetime o =
    let old = revoke_challenges user kind o.challenges in
    let mails =
      cancel_mail
        (λ d. elim d.challenge [
          | none ↦ false
          | some id ↦ any (λ c. c.id == id && c.user == user && c.revoked) old
        ])
        o.mails in
    let deadline = env.now + lifetime in
    record o {
      challenges =
          record {
            id = fresh.id;
            user = user;
            kind = kind;
            token_digest = fresh.token_digest;
            expires_at = deadline;
            consumed = false;
            revoked = false;
            attempts = 0;
          }
          ∷ old;
      mails =
          if kind == "LOGIN_MFA"
          then mails
          else enqueue env fresh none (some fresh.id) kind fresh.id email deadline mails;
    }

-- `app.login_limits`
pub record LoginLimit : Type 0 where
  pub key : String
  pub attempts : ℕ
  pub expires_at : Time

abbrev pub attempts_of : String → List LoginLimit → ℕ
attempts_of key rows = elim (find (λ r. r.key == key) rows) [ none ↦ 0 | some r ↦ r.attempts ]

unfoldable pub count_attempt : Time → String → List LoginLimit → List LoginLimit
count_attempt now key rows =
    if any (λ r. r.key == key) rows
    then update_where (λ r. r.key == key) (λ r. record r { attempts = r.attempts + 1 }) rows
    else record { key = key; attempts = 1; expires_at = now + 15 * minute } ∷ rows

-- `limit`: the counts are kept when the limit is exceeded, and not when the table is full.
unfoldable pub limit :
    Time → String → ℕ → List LoginLimit → Result Error (Unit {0}) × List LoginLimit
limit now key max rows =
    let current = filter (λ r. leb now r.expires_at) rows in
    if leb 10000 (length current)
    then (err rate_limited, rows)
    else (let counted = count_attempt now key current in
        (if ltb max (attempts_of key counted) then err rate_limited else ok tt, counted))
