-- ===== src/Application/Passwords.antt =====
-- The login with a password of internal/application/password_tokens.go.
pub mod Authentication
mod Tests
use orbit_auth.Prelude.{String, Bool, true, false, not, ◌||◌, ◌==◌, if◌then◌else◌}
use orbit_auth.Prelude.GoText.{trim_space}
use orbit_auth.Prelude.Results.{Result, ok, err}
use orbit_auth.Domain.{
  User, is_e164, user_signup_pending, user_disabled_status, Error, invalid_credentials,
  user_disabled,
}
use orbit_auth.Runtime.{Env, Exec, pure, raise, refuse, try, ◌>>=◌, ◌>>◌}
use orbit_auth.Postgres.Users.{find_by_email, find_by_mobile, update_last_login}
use orbit_auth.Application.Sessions.{TokenPair, issue_tokens}

module _ (env : Env) where
  -- By E.164 mobile number, else by email address.
  find_account : String → Exec User
  find_account identifier =
      if is_e164 identifier
      then find_by_mobile env identifier
      else find_by_email env (env.to_lower identifier)

  known_account : Result Error User → Exec User
  known_account (err e) = raise invalid_credentials
  known_account (ok u) = pure u

  login_trimmed : Bool → String → String → Exec TokenPair
  unfolding find_account known_account
  login_trimmed auto identifier password = do
    refuse (identifier == "" || password == "") invalid_credentials
    found ← try (find_account identifier)
    user ← known_account found
    refuse (user.status == user_signup_pending) invalid_credentials
    refuse (user.status == user_disabled_status) user_disabled
    refuse (user.password_hash == "" || not (env.compare_hash user.password_hash password))
        invalid_credentials
    stamped ← try (update_last_login env user.id)
    issue_tokens env auto user.id

  -- LoginWithPassword; `auto` is the configuration's `autoSelectSingleOrg`.
  unfoldable pub login_with_password : Bool → String → String → Exec TokenPair
  unfolding login_trimmed
  login_with_password auto identifier password = login_trimmed auto (trim_space identifier) password
