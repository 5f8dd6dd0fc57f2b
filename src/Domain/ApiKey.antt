-- ===== src/Domain/ApiKey.antt =====
-- The API key and the tier limits of server/internal/domain/models.go.
use promptmeter.Prelude.{
  ℕ, Bool, true, false, Option, List, [], ◌∷◌, Str, lit, str_eq, is_some, if◌then◌else◌,
}
use promptmeter.Domain.Time.{Time}

-- OrgTier, a string.
abbrev pub OrgTier : Type 0
OrgTier = Str

-- RateLimitForTier: requests per second for ingestion.
unfoldable pub rate_limit_for_tier : OrgTier → ℕ
unfolding str_eq
rate_limit_for_tier tier =
    if str_eq tier (lit "free")
    then 100
    else if str_eq tier (lit "pro")
    then 500
    else if str_eq tier (lit "business")
    then 2000
    else if str_eq tier (lit "enterprise")
    then 2000
    else 100

-- DashboardRateLimitForTier: requests per minute for the dashboard.
unfoldable pub dashboard_rate_limit_for_tier : OrgTier → ℕ
unfolding str_eq
dashboard_rate_limit_for_tier tier =
    if str_eq tier (lit "free")
    then 60
    else if str_eq tier (lit "pro")
    then 300
    else if str_eq tier (lit "business")
    then 1000
    else if str_eq tier (lit "enterprise")
    then 1000
    else 60

pub record ApiKey : Type 0 where
  pub id : Str
  pub org_id : Str
  pub project_id : Option Str
  pub key_prefix : Str
  pub key_hash : Str
  pub name : Str
  pub scopes : List Str
  pub last_used_at : Option Time
  pub created_at : Time
  pub revoked_at : Option Time
  pub tier : OrgTier

-- APIKey.HasScope
scope_listed : Str → List Str → Bool
scope_listed scope [] = false
scope_listed scope (s ∷ ss) = if str_eq s scope then true else scope_listed scope ss

unfoldable pub has_scope : ApiKey → Str → Bool
unfolding scope_listed
has_scope k scope = scope_listed scope k.scopes

-- APIKey.IsRevoked
unfoldable pub is_revoked : ApiKey → Bool
is_revoked k = is_some k.revoked_at
