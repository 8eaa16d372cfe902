-- ===== src/Identity/Completion/Reset.antt =====
-- A password reset ends the sessions of its user.
use whats.Base.{
  ◌≢◌, find-holds, ◌≡◌, refl, sym, ap, ◌∙◌, inl, inr, true, false, not, ◌&&◌, List, [], ◌∷◌, some,
  ok, arith, Bool-cases, Option-cases, All, All-find, find, ◌==◌, nat_eq, nat_beq_iff, string_eq,
  >>=-eq-ok, or_fail,
}
use text.Mathlib.TextEquality.{eq_iff}
use whats.Inbox.Time.{Time}
use whats.Inbox.Store.{Uuid, update_where}
use whats.Identity.Tables.{Org, SessionRow, Challenge}
use whats.Identity.Sessions.{lock_domain_session, is_live, authorize_membership}
use whats.Identity.Request.{Env, Fresh}
use whats.Identity.Completion.{Proof, complete, effect, reset, is_provable}

abbrev pub IsEnded : Uuid → SessionRow → Type 0
IsEnded user s = s.user ≡ user → s.revoked ≡ true

reset-IsEnded :
    (user : Uuid) (rows : List SessionRow)
    → All (IsEnded user) (
        update_where (λ s. s.user == user && not s.revoked) (λ s. record s { revoked = true }) rows)
reset-IsEnded user [] = tt
reset-IsEnded user (s ∷ rows) = (
  elim (Bool-cases (s.user == user && not s.revoked)) [
    | inl hit ↦ rw hit (λ same. refl)
    | inr miss ↦ rw miss (λ same. ground (arith, nat_beq_iff s.user user))
  ],
  reset-IsEnded user rows,
)

complete-IsEnded :
    (env : Env) (fresh : Fresh) (p : Proof) (o : Org) {o' : Org} (c : Challenge)
    → complete env fresh p o ≡ (ok tt, o')
    → p.kind ≡ "PASSWORD_RESET"
    → find (λ c. c.token_digest == p.token_digest && c.kind == p.kind) o.challenges ≡ some c
    → All (IsEnded c.user) o'.sessions
unfolding complete effect reset
complete-IsEnded env fresh p o {o'} c h k owned =
    let reset_kind : (p.kind == "PASSWORD_RESET") ≡ true =
      ground (arith, eq_iff p.kind "PASSWORD_RESET") in
    let other_kind : (p.kind == "LOGIN_MFA") ≡ false = ap (λ x. x == "LOGIN_MFA") k in
    elim (Option-cases (find (λ u. u.id == c.user && u.active) o.users)) [
      | inl gone ↦ absurd (ground arith)
      | inr (u, active) ↦
          let mine = find-holds (λ u. u.id == c.user && u.active) o.users active in
          elim (Option-cases (find (is_provable env.now u.id p) o.challenges)) [
            | inl none_open ↦ absurd (ground arith)
            | inr (d, proven) ↦
                let user : u.id ≡ c.user = ground (arith, nat_beq_iff u.id c.user) in
                let rows : o'.sessions
                    ≡ update_where (λ s. s.user == u.id && not s.revoked)
                        (λ s. record s { revoked = true }) o.sessions =
                  ground arith in
                rw (rows, sym user) (reset-IsEnded u.id o.sessions)
          ]
    ]

lock-revoked :
    (clock : Time) (sid : Uuid) (o : Org) {s : SessionRow} {member : Uuid}
    → lock_domain_session clock sid o ≡ ok (s, member)
    → (find (λ s. s.id == sid) o.sessions ≡ some s) × (s.revoked ≡ false)
unfolding lock_domain_session
lock-revoked clock sid o {s} {member} h =
    let (s', found, h1) = >>=-eq-ok (or_fail (find (λ s. s.id == sid) o.sessions) _) _ h in
    let (u, active, h2) =
      >>=-eq-ok (or_fail (find (λ u. u.id == s'.user && u.active) o.users) _) _ h1 in
    let (m, seated, h3) = >>=-eq-ok (or_fail (authorize_membership o s'.user) _) _ h2 in
    elim (Bool-cases (is_live o clock u.auth_revision s')) [
      | inr dead ↦ absurd (ground arith)
      | inl alive ↦
          let same : s' ≡ s = ground arith in
          (ground arith, ap (λ x. x.revoked) (sym same) ∙ ground arith)
    ]

-- Once a password reset is completed, no session of the user of the challenge can be locked.
pub complete-lock_domain_session :
    (env : Env) (fresh : Fresh) (p : Proof) (o : Org) {o' : Org} (c : Challenge) (clock : Time)
    (sid : Uuid) {s : SessionRow} {member : Uuid}
    → complete env fresh p o ≡ (ok tt, o')
    → p.kind ≡ "PASSWORD_RESET"
    → find (λ c. c.token_digest == p.token_digest && c.kind == p.kind) o.challenges ≡ some c
    → lock_domain_session clock sid o' ≡ ok (s, member)
    → s.user ≢ c.user
complete-lock_domain_session env fresh p o {o'} c clock sid {s} h k owned locked same =
    let (found, alive) = lock-revoked clock sid o' locked in
    let ended : IsEnded c.user s =
      All-find (IsEnded c.user) _ o'.sessions (complete-IsEnded env fresh p o c h k owned) found in
    ground (arith, ended same)
