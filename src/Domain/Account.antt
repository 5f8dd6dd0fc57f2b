-- ===== src/Domain/Account.antt =====
-- Users, organisations and refresh tokens of server/internal/domain/models.go.
use promptmeter.Prelude.{Bool, Option, Str}
use promptmeter.Domain.ApiKey.{OrgTier}
use promptmeter.Domain.Time.{Time}

pub record User : Type 0 where
  pub id : Str
  pub email : Str
  pub name : Str
  pub avatar_url : Str
  pub created_at : Time

pub record Organization : Type 0 where
  pub id : Str
  pub name : Str
  pub slug : Str
  pub tier : OrgTier
  pub timezone : Str
  pub pii_enabled : Bool
  pub slack_webhook_url : Option Str
  pub stripe_customer_id : Option Str
  pub stripe_subscription_id : Option Str
  pub created_at : Time
  pub updated_at : Time

pub record RefreshToken : Type 0 where
  pub id : Str
  pub user_id : Str
  pub token_hash : Str
  pub expires_at : Time
  pub revoked_at : Option Time
  pub created_at : Time

pub record Project : Type 0 where
  pub id : Str
  pub org_id : Str
  pub name : Str
  pub slug : Str
  pub description : Str
  pub pii_enabled : Bool
  pub is_default : Bool
  pub created_at : Time
  pub updated_at : Time
  pub archived_at : Option Time
