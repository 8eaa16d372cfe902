-- ===== src/Identity/Tables.antt =====
-- The tables of the identity component that the operations read, for one organization, of
-- database/migrations/00001_identity_tenants.sql and 00002_identity_access.sql.
use whats.Base.{ℕ, String, Bool, List, Option}
use whats.Inbox.Time.{Time}
use whats.Inbox.Text.{Text}
use whats.Inbox.Store.{Uuid}

-- `app.users`, unique by email
pub record User : Type 0 where
  pub id : Uuid
  pub email : Text
  pub active : Bool  -- global_status = 'ACTIVE'
  pub auth_revision : ℕ
  pub verified : Bool

-- `app.organization_members`, unique by user
pub record Member : Type 0 where
  pub id : Uuid
  pub user : Uuid
  pub active : Bool  -- status = 'ACTIVE'
  pub access_revision : ℕ
  pub revision : ℕ

pub record Role : Type 0 where
  pub id : Uuid
  pub name : Text
  pub revision : ℕ

pub record RolePermission : Type 0 where
  pub role : Uuid
  pub key : String

pub record Team : Type 0 where
  pub id : Uuid
  pub name : Text
  pub archived : Bool
  pub revision : ℕ

pub record TeamMember : Type 0 where
  pub team : Uuid
  pub member : Uuid

pub record TeamRole : Type 0 where
  pub team : Uuid
  pub role : Uuid

-- `scope_kind`
pub data ScopeKind : Type 0 where
  org_scope team_scope self_scope : ScopeKind

pub record MemberRole : Type 0 where
  pub member : Uuid
  pub role : Uuid
  pub scope : ScopeKind
  pub team : Option Uuid
  pub expires_at : Option Time

pub data InvitationState : Type 0 where
  pending accepted revoked lapsed : InvitationState  -- lapsed: 'EXPIRED'

pub record Invitation : Type 0 where
  pub id : Uuid
  pub email : Text
  pub token_digest : String
  pub inviter : Uuid
  pub state : InvitationState
  pub expires_at : Time
  pub revision : ℕ

pub record InvitationRole : Type 0 where
  pub invitation : Uuid
  pub role : Uuid

-- `app.sessions`
pub record SessionRow : Type 0 where
  pub id : Uuid
  pub user : Uuid
  pub token_digest : String
  pub auth_revision : ℕ
  pub organization : Option Uuid
  pub access_revision : ℕ
  pub expires_at : Time
  pub idle_expires_at : Time
  pub reauth_at : Time
  pub has_mfa : Bool
  pub csrf_digest : String
  pub revoked : Bool

-- `MailPayload` and `app.mail_deliveries`
pub record MailPayload : Type 0 where
  pub recipient : Text
  pub token : Text
  pub purpose : String

pub data MailState : Type 0 where
  queued sending smtp_accepted retry_wait mail_failed mail_expired cancelled : MailState

pub record MailDelivery : Type 0 where
  pub id : Uuid
  pub invitation : Option Uuid
  pub challenge : Option Uuid
  pub purpose : String
  pub source : Uuid
  pub payload : Option MailPayload
  pub state : MailState
  pub deadline : Time
  pub next_attempt_at : Time
  pub attempts : ℕ
  pub lease : Option Uuid
  pub lease_until : Time

-- `app.mail_attempts`; the result is null until the attempt is finished.
pub data MailResult : Type 0 where
  mail_accepted mail_rejected mail_unknown : MailResult

pub record MailAttempt : Type 0 where
  pub delivery : Uuid
  pub attempt_no : ℕ
  pub result : Option MailResult
  pub code : String

-- `app.auth_challenges`
pub record Challenge : Type 0 where
  pub id : Uuid
  pub user : Uuid
  pub kind : String
  pub token_digest : String
  pub expires_at : Time
  pub consumed : Bool
  pub revoked : Bool
  pub attempts : ℕ

pub record AuditRow : Type 0 where
  pub actor : Option Uuid
  pub action : String
  pub resource : Uuid

pub record Org : Type 0 where
  pub id : Uuid
  pub active : Bool
  pub users : List User
  pub members : List Member
  pub roles : List Role
  pub role_permissions : List RolePermission
  pub teams : List Team
  pub team_members : List TeamMember
  pub team_roles : List TeamRole
  pub member_roles : List MemberRole
  pub invitations : List Invitation
  pub invitation_roles : List InvitationRole
  pub sessions : List SessionRow
  pub challenges : List Challenge
  pub mails : List MailDelivery
  pub mail_attempts : List MailAttempt
  pub audit_log : List AuditRow
