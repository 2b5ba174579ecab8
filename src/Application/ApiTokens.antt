-- ===== src/Application/ApiTokens.antt =====
-- The API tokens of internal/application/password_tokens.go.
pub mod Secrets
pub mod RoundTrip
mod Tests
use Prim.Native.String.{◌++◌}
use orbit_auth.Prelude.{
  String, Bool, true, false, not, ◌||◌, Option, none, some, List, [], ◌∷◌, ◌==◌, if◌then◌else◌, ltb,
  eqb,
}
use orbit_auth.Prelude.GoText.{trim_space}
use orbit_auth.Prelude.Cuts.{byte_length, cut_bytes, cut_at, trim_prefix}
use orbit_auth.Prelude.Results.{Result, ok, err}
use orbit_auth.Domain.{Time, Error, required, invalid_token, secret_failed, hash_failed}
use orbit_auth.Domain.ApiTokens.{ApiToken, ApiTokenInfo, api_token_scheme, api_token_prefix_length}
use orbit_auth.Runtime.{Env, Exec, pure, raise, refuse, try, ◌>>=◌, ◌>>◌, now, new_id, ask}
use orbit_auth.Postgres.ApiTokens as Store

-- The identifier, the prefix and the text that the user keeps.
pub record NewToken : Type 0 where
  pub id : String
  pub prefix : String
  pub secret : String

module _ (env : Env) where
  -- The secret in its two parts; a slice out of range, which panics, is a failure.
  split_secret : Option (String × String) → Exec (String × String)
  split_secret none = raise secret_failed
  split_secret (some parts) = pure parts

  -- CreateApiToken
  unfoldable pub create_api_token :
      String → String → Option (List String) → Option Time → Exec NewToken
  unfolding split_secret
  create_api_token user_id name scopes expires_at = do
    refuse (user_id == "" || trim_space name == "") (required "user_id and name")
    raw ← ask env secret_failed env.new_secret
    parts ← split_secret (cut_bytes api_token_prefix_length raw)
    hash ← ask env hash_failed (λ k. env.hash k raw)
    id ← new_id env
    Store.create env (record {
      id = id;
      user_id = user_id;
      name = name;
      prefix = parts.0;
      token_hash = hash;
      scopes = scopes;
      expires_at = expires_at;
      revoked_at = none;
      created_at = 0;
    })
    pure (record {
      id = id;
      prefix = parts.0;
      secret = api_token_scheme ++ (parts.0 ++ ("." ++ parts.1));
    })

  -- ListApiTokens
  unfoldable pub list_api_tokens : String → Exec (List ApiTokenInfo)
  list_api_tokens user_id = do
    refuse (user_id == "") (required "user_id")
    Store.list_by_user env user_id

  -- RevokeApiToken
  unfoldable pub revoke_api_token : String → String → Exec (Unit {0})
  revoke_api_token user_id token_id = do
    refuse (user_id == "" || token_id == "") (required "user_id and token_id")
    Store.revoke_token env user_id token_id

  -- `t.ExpiresAt != nil && s.clock.Now().After(*t.ExpiresAt)`: the clock is read only then.
  check_expiry : Option Time → Exec (Unit {0})
  check_expiry none = pure tt
  check_expiry (some until) = do at ← now env; refuse (ltb until at) invalid_token

  check_token : String → Result Error ApiToken → Exec (String × Option (List String))
  unfolding check_expiry
  check_token full (err e) = raise invalid_token
  check_token full (ok t) = do
    refuse (Store.is_set t.revoked_at) invalid_token
    check_expiry t.expires_at
    refuse (not (env.compare_hash t.token_hash full)) invalid_token
    pure (t.user_id, t.scopes)

  validate_parts : Option (String × String) → Exec (String × Option (List String))
  unfolding check_token
  validate_parts none = raise invalid_token
  validate_parts (some (prefix, rest)) = do
    refuse (not (eqb (byte_length prefix) api_token_prefix_length) || rest == "") invalid_token
    found ← try (Store.find_by_prefix env prefix)
    check_token (prefix ++ rest) found

  -- ValidateApiToken
  unfoldable pub validate_api_token : String → Exec (String × Option (List String))
  unfolding validate_parts
  validate_api_token secret =
      validate_parts (cut_at b'.' (trim_prefix (trim_space secret) api_token_scheme))
