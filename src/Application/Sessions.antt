-- ===== src/Application/Sessions.antt =====
-- internal/application/service.go: token pairs, their rotation, and the organization they carry.
pub mod Issuing
pub mod Revoking
pub mod Selecting
pub mod Rotation
pub mod SingleUse
pub mod Login
pub mod Success
use Prim.Native.String.{◌++◌}
use orbit_auth.Prelude.{
  ℕ, ◌+◌, String, Bool, true, false, not, ◌||◌, Option, none, some, List, [], ◌∷◌, ◌==◌,
  if◌then◌else◌,
}
use orbit_auth.Prelude.GoText.{trim_space}
use orbit_auth.Prelude.Results.{Result, ok, err}
use orbit_auth.Domain.{
  Time, access_token_ttl, refresh_token_ttl, Organization, Error, not_member, invalid_refresh,
  sign_failed,
}
use orbit_auth.Runtime.{
  Env, RefreshToken, Exec, pure, raise, refuse, try, ◌>>=◌, ◌>>◌, now, new_id, ask,
}
use orbit_auth.Postgres.RefreshTokens.{store_refresh_token, find_valid, revoke}
use orbit_auth.Application.OrgService.{is_active_member, list_orgs_for_user}
use orbit_auth.Postgres.Organizations as Store

pub record TokenPair : Type 0 where
  pub access : String
  pub refresh : String
  pub expires : Time

-- The organization claim: none for the empty text.
abbrev pub claim : String → Option String
claim org_id = if org_id == "" then none else some org_id

-- The only organization of a list.
abbrev pub only_org : Result Error (List Organization) → String
only_org (ok (o ∷ [])) = o.id
only_org _ = ""

-- The organization, if its check has succeeded and says yes.
abbrev pub if_active : String → Result Error Bool → String
if_active org_id (ok true) = org_id
if_active org_id (ok false) = ""
if_active org_id (err e) = ""

-- The row of a presented token, if it is the caller's.
abbrev owned_by : String → Result Error RefreshToken → Exec (Unit {0})
owned_by user_id (err e) = raise invalid_refresh
owned_by user_id (ok r) = refuse (not (r.user_id == user_id)) invalid_refresh

module _ (env : Env) where
  save_pair : String → String → Time → TokenPair → Exec TokenPair
  save_pair user_id org_id at pair =
      store_refresh_token env user_id org_id (env.digest pair.refresh) (at + refresh_token_ttl)
      >> pure pair

  new_refresh : Exec String
  new_refresh = do a ← new_id env; b ← new_id env; pure (a ++ b)

  unfoldable pub issue_tokens_for_org : String → String → Exec TokenPair
  unfolding save_pair new_refresh
  issue_tokens_for_org user_id org_id = do
    at ← now env
    access ← ask env sign_failed (λ k. env.sign k user_id (claim org_id) (at + access_token_ttl))
    refresh ← new_refresh
    save_pair user_id org_id at
        (record { access = access; refresh = refresh; expires = at + access_token_ttl })

  unfoldable pub single_active_org : String → Exec String
  single_active_org user_id = do
    orgs ← try (Store.list_orgs_for_user env user_id)
    pure (only_org orgs)

  -- `auto` is the configuration's `autoSelectSingleOrg`.
  unfoldable pub issue_tokens : Bool → String → Exec TokenPair
  issue_tokens auto user_id = do
    org_id ← if auto then single_active_org user_id else pure ""
    issue_tokens_for_org user_id org_id

  unfoldable pub active_org : String → String → Exec String
  active_org user_id org_id =
      if org_id == ""
      then pure ""
      else (try (is_active_member env org_id user_id) >>= λ answer. pure (if_active org_id answer))

  rotate : String → Result Error RefreshToken → Exec TokenPair
  rotate hash (err e) = raise invalid_refresh
  rotate hash (ok r) = do
    revoked ← try (revoke env hash)
    org_id ← active_org r.user_id r.org_id
    issue_tokens_for_org r.user_id org_id

  unfoldable pub refresh : String → Exec TokenPair
  unfolding rotate
  refresh token = do
    found ← try (find_valid env (env.digest token))
    rotate (env.digest token) found

  pub select_trimmed : String → String → String → Exec TokenPair
  select_trimmed user_id token org_id = do
    refuse (user_id == "" || org_id == "") invalid_refresh
    member ← is_active_member env org_id user_id
    refuse (not member) not_member
    found ← try (find_valid env (env.digest token))
    owned_by user_id found
    revoked ← try (revoke env (env.digest token))
    issue_tokens_for_org user_id org_id

  unfoldable pub select_org : String → String → String → Exec TokenPair
  unfolding select_trimmed
  select_org user_id token org_id = select_trimmed (trim_space user_id) token (trim_space org_id)
