-- ===== src/Postgres/RefreshTokens.antt =====
-- The refresh tokens: queries/refresh_tokens.sql and the methods of store.go that run them.
use orbit_auth.Prelude.{
  String, Bool, true, false, not, ◌&&◌, Option, none, some, List, [], ◌∷◌, ◌==◌, if◌then◌else◌, ltb,
  eqb,
}
use orbit_auth.Prelude.Results.{Result, ok, err}
use orbit_auth.Domain.{Time, Error, null_column}
use orbit_auth.Runtime.{
  Db, RefreshToken, Env, Exec, stored_time, pure, ◌>>=◌, statement, parse_id, new_id,
}
use orbit_auth.Postgres.Queries.{row_or_none}

abbrev pub with_tokens : List RefreshToken → Db → Db
with_tokens l d = record d { refresh_tokens = l }

-- The row is neither expired nor revoked.
abbrev pub is_live : Time → RefreshToken → Bool
is_live t r = ltb t r.expires_at && not r.revoked

unfoldable pub find_live : String → Time → List RefreshToken → Option RefreshToken
find_live hash t [] = none
find_live hash t (r ∷ l) =
    if r.token_hash == hash && is_live t r then some r else find_live hash t l

unfoldable pub revoke_all : String → List RefreshToken → List RefreshToken
revoke_all hash [] = []
revoke_all hash (r ∷ l) =
    (if r.token_hash == hash then record r { revoked = true } else r) ∷ revoke_all hash l

-- A zero time is sent as NULL, which the column refuses.
abbrev pub insert_refresh_token : RefreshToken → Db → Result Error (Unit {0} × Db)
insert_refresh_token r d =
    if eqb r.expires_at 0
    then err null_column
    else ok
        (tt, with_tokens (record r { expires_at = stored_time r.expires_at } ∷ d.refresh_tokens) d)

module _ (env : Env) where
  -- `if orgID != "" { … uuid.Parse(orgID) … }`; no organization is the empty text.
  unfoldable pub parse_org : String → Exec String
  parse_org org_id = if org_id == "" then pure "" else parse_id env org_id

  unfoldable pub store_refresh_token : String → String → String → Time → Exec (Unit {0})
  unfolding parse_org
  store_refresh_token user_id org_id hash expires_at = do
    user ← parse_id env user_id
    org ← parse_org org_id
    id ← new_id env
    statement env (λ d t.
        insert_refresh_token
          (record {
            user_id = user;
            org_id = org;
            token_hash = hash;
            expires_at = expires_at;
            revoked = false;
          })
          d)

  unfoldable pub find_valid : String → Exec RefreshToken
  find_valid hash = statement env (λ d t. row_or_none (find_live hash t d.refresh_tokens) d)

  unfoldable pub revoke : String → Exec (Unit {0})
  revoke hash = statement env (λ d t. ok (tt, with_tokens (revoke_all hash d.refresh_tokens) d))
