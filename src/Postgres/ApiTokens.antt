-- ===== src/Postgres/ApiTokens.antt =====
-- The API tokens of internal/infrastructure/postgres/store.go, with the statements of
-- queries/api_tokens.sql.
use orbit_auth.Prelude.{
  String, Bool, true, false, not, ◌&&◌, Option, none, some, List, [], ◌∷◌, ◌==◌, if◌then◌else◌, ltb,
  any,
}
use orbit_auth.Prelude.Results.{Result, ok, err}
use orbit_auth.Domain.{Time, Error, null_column, duplicate_key, missing_reference}
use orbit_auth.Domain.ApiTokens.{ApiToken, ApiTokenInfo}
use orbit_auth.Runtime.{Db, Env, Exec, stored_time, ◌>>=◌, statement, parse_id}
use orbit_auth.Postgres.Queries.{find_user, row_or_none}

abbrev pub with_api_tokens : List ApiToken → Db → Db
with_api_tokens l d = record d { api_tokens = l }

abbrev pub is_set : {A : Type 0} → Option A → Bool
is_set none = false
is_set (some a) = true

abbrev pub stored_expiry : Option Time → Option Time
stored_expiry none = none
stored_expiry (some at) = some (stored_time at)

-- The row of a token. The column of the expiry holds whole microseconds.
abbrev pub stored_token : Time → ApiToken → ApiToken
stored_token now t = record t {
  expires_at = stored_expiry t.expires_at;
  created_at = now;
  revoked_at = none;
}

-- CreateAPIToken with the key of the table and its references. A nil slice of scopes is sent as
-- NULL, which the column refuses.
unfoldable pub insert_api_token : ApiToken → Db → Time → Result Error (Unit {0} × Db)
insert_api_token t d now =
    if not (is_set t.scopes)
    then err null_column
    else if any (λ u. u.id == t.id) d.api_tokens
    then err duplicate_key
    else if not (is_set (find_user t.user_id d.users))
    then err missing_reference
    else ok (tt, with_api_tokens (stored_token now t ∷ d.api_tokens) d)

abbrev pub is_live_with : String → ApiToken → Bool
is_live_with prefix t = t.prefix == prefix && not (is_set t.revoked_at)

-- The newer of two rows; the first where the times agree.
abbrev pub newer : ApiToken → Option ApiToken → ApiToken
newer t none = t
newer t (some u) = if ltb t.created_at u.created_at then u else t

-- FindAPITokenByPrefix: ORDER BY created_at DESC LIMIT 1
unfoldable pub newest_live : String → List ApiToken → Option ApiToken
newest_live prefix [] = none
newest_live prefix (t ∷ l) =
    let rest = newest_live prefix l in if is_live_with prefix t then some (newer t rest) else rest

-- RevokeAPIToken
unfoldable pub revoke_rows : String → String → Time → List ApiToken → List ApiToken
revoke_rows id user now [] = []
revoke_rows id user now (t ∷ l) =
    (if t.id == id && t.user_id == user && not (is_set t.revoked_at)
      then record t { revoked_at = some now }
      else t)
    ∷ revoke_rows id user now l

abbrev info : ApiToken → ApiTokenInfo
info t = record {
  id = t.id;
  name = t.name;
  prefix = t.prefix;
  scopes = t.scopes;
  expires_at = t.expires_at;
  created_at = t.created_at;
}

-- ORDER BY created_at DESC
insert_listed : ApiTokenInfo → List ApiTokenInfo → List ApiTokenInfo
insert_listed t [] = t ∷ []
insert_listed t (u ∷ l) = if ltb t.created_at u.created_at then u ∷ insert_listed t l else t ∷ u ∷ l

-- ListAPITokensByUser
unfoldable pub tokens_of : String → List ApiToken → List ApiTokenInfo
unfolding insert_listed
tokens_of user [] = []
tokens_of user (t ∷ l) =
    let rest = tokens_of user l in
    if t.user_id == user && not (is_set t.revoked_at) then insert_listed (info t) rest else rest

module _ (env : Env) where
  -- Store.Create
  unfoldable pub create : ApiToken → Exec (Unit {0})
  create t = do
    id ← parse_id env t.id
    user ← parse_id env t.user_id
    statement env (λ d now. insert_api_token (record t { id = id; user_id = user }) d now)

  unfoldable pub list_by_user : String → Exec (List ApiTokenInfo)
  list_by_user user_id = do
    user ← parse_id env user_id
    statement env (λ d now. ok (tokens_of user d.api_tokens, d))

  unfoldable pub revoke_token : String → String → Exec (Unit {0})
  revoke_token user_id token_id = do
    user ← parse_id env user_id
    token ← parse_id env token_id
    statement env (λ d now. ok (tt, with_api_tokens (revoke_rows token user now d.api_tokens) d))

  unfoldable pub find_by_prefix : String → Exec ApiToken
  find_by_prefix prefix = statement env (λ d now. row_or_none (newest_live prefix d.api_tokens) d)
