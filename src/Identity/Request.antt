-- ===== src/Identity/Request.antt =====
-- What an action of `organization` is given: the session, the input, and what the service takes from
-- outside, of backend/internal/identity/service.go.
use whats.Base.{ℕ, String, Bool, List, Option}
use whats.Inbox.Time.{Time}
use whats.Inbox.Text.{Text}
use whats.Inbox.Store.{Uuid}

-- `Session`, as `authenticate` returns it
pub record UserSession : Type 0 where
  pub id : Uuid
  pub user : Uuid
  pub organization : Option Uuid
  pub verified : Bool
  pub mfa : Bool
  pub access_revision : ℕ
  pub expires_at : Time
  pub reauth_at : Time

pub record Grant : Type 0 where
  pub role : Uuid
  pub scope : String
  pub team : Option Uuid

-- `Input`; a nil identifier is `none`.
pub record Input : Type 0 where
  pub organization : Option Uuid
  pub id : Uuid
  pub member : Uuid
  pub revision : ℕ
  pub name : Text
  pub email : Text
  pub role_ids : List Uuid
  pub permissions : List String
  pub grants : List Grant
  pub scope : String
  pub team : Option Uuid

-- The writes of `organization`, by the words of their actions.
pub data Action : Type 0 where
  invite revoke_invite resend_invite : Action
  deactivate_member reactivate_member set_member_roles : Action
  create_team update_team archive_team add_team_member remove_team_member set_team_roles : Action
  create_role update_role : Action

-- The identifiers and random tokens that a request draws, and the digest of the mailed token.
pub record Fresh : Type 0 where
  pub id : Uuid
  pub mail : Uuid
  pub source : Uuid
  pub token : Text
  pub token_digest : String
  pub session : Uuid
  pub cookie_digest : String
  pub csrf_digest : String

-- The clock and configuration of the service, and what other packages compute:
-- `CanonicalEmail` on net/mail, `strings.ToLower` in the database.
pub record Env : Type 0 where
  pub now : Time
  pub production : Bool
  pub canonical_email : Text → Option Text
  pub lower : Text → Text
