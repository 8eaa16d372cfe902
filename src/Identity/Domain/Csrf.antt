-- ===== src/Identity/Domain/Csrf.antt =====
-- A write is done only for a request of the site's own pages.
use whats.Base.{
  ◌≡◌, ap, inl, inr, String, Bool, true, false, Option, none, some, Result, ok, arith, Option-cases,
  Result-cases, find, holds, ◌==◌, nat_eq, string_eq, list_eq, list_beq_iff,
}
use whats.Inbox.Error.{Error}
use whats.Inbox.Text.{Text}
use whats.Inbox.Store.{Uuid}
use whats.Identity.Tables.{Org, SessionRow}
use whats.Identity.Sessions.{lock_domain_session}
use whats.Identity.Request.{Env}
use whats.Identity.Domain.{DomainRequest, domain_transaction, is_verified_user}

-- The request of a write that was let through: the origin of the site, one token in the cookie and the
-- header, and a session that can be locked, of a verified user.
pub record IsGenuine (env : Env) (origin : Text) (r : DomainRequest) (o : Org) : Type 0 where
  pub session : SessionRow
  pub member : Uuid
  pub sid : Uuid
  pub is_origin : r.origin ≡ origin
  pub is_token : r.csrf_cookie ≡ some r.csrf_token
  pub is_locked : lock_domain_session env.now sid o ≡ ok (session, member)
  pub is_verified : is_verified_user o session.user ≡ true

holds-eq : (a : Option Text) (b : Text) → holds a b ≡ true → a ≡ some b
holds-eq none b h = absurd (ground arith)
holds-eq (some x) b h = ap some (ground (arith, list_beq_iff x b))

-- A write whose transaction succeeds was asked for by a genuine request.
pub domain_transaction-IsGenuine :
    {A : Type 0} (env : Env) (digest : Text → String) (has_factor : Uuid → Bool) (origin : Text)
    (sensitive : Bool) (r : DomainRequest) (work : SessionRow → Uuid → Result Error A) (o : Org)
    {a : A}
    → domain_transaction env digest has_factor origin sensitive r work o ≡ ok a
    → r.is_get ≡ false
    → IsGenuine env origin r o
unfolding domain_transaction
domain_transaction-IsGenuine env digest has_factor origin sensitive r work o h write =
    elim (Option-cases r.cookie) [
      | inl missing ↦ absurd (ground arith)
      | inr (cookie, given) ↦
          elim (Option-cases (find (λ s. s.token_digest == digest cookie) o.sessions)) [
            | inl unknown ↦ absurd (ground arith)
            | inr (found, known) ↦ elim (Result-cases (lock_domain_session env.now found.id o)) [
              | inl (e, refused) ↦ absurd (ground arith)
              | inr ((s, member), locked) ↦
                  let same_origin : (r.origin == origin) ≡ true = ground arith in
                  let same_token : holds r.csrf_cookie r.csrf_token ≡ true = ground arith in
                  record {
                    session = s;
                    member = member;
                    sid = found.id;
                    is_origin = ground (arith, list_beq_iff r.origin origin);
                    is_token = holds-eq r.csrf_cookie r.csrf_token same_token;
                    is_locked = locked;
                    is_verified = ground arith;
                  }
            ]
          ]
    ]
