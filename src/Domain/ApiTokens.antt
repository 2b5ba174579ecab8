-- ===== src/Domain/ApiTokens.antt =====
-- The API tokens of internal/domain/auth.go.
use orbit_auth.Prelude.{ℕ, String, Option, List}
use orbit_auth.Domain.{Time}

abbrev pub api_token_prefix_length : ℕ
api_token_prefix_length = 8

abbrev pub api_token_scheme : String
api_token_scheme = "oat_"

-- A nil slice of scopes is none; a nil time is none.
pub record ApiToken : Type 0 where
  pub id : String
  pub user_id : String
  pub name : String
  pub prefix : String
  pub token_hash : String
  pub scopes : Option (List String)
  pub expires_at : Option Time
  pub revoked_at : Option Time
  pub created_at : Time

pub record ApiTokenInfo : Type 0 where
  pub id : String
  pub name : String
  pub prefix : String
  pub scopes : Option (List String)
  pub expires_at : Option Time
  pub created_at : Time
