-- ===== src/Application/Passwords/Tests.antt =====
-- A run of the login with a password on a small database, and the theorem on it.
use orbit_auth.Prelude.{◌+◌, ◌≡◌, refl, true, false, some, [], ◌∷◌, ◌==◌}
use orbit_auth.Prelude.GoText.{trim_space}
use orbit_auth.Prelude.Results.{ok}
use orbit_auth.Domain.{is_e164, access_token_ttl}
use orbit_auth.Runtime.{Env, World, ◌>>=◌, try, statement, parse_id, now, new_id, ask}
use orbit_auth.Postgres.Queries.{row_or_none}
use orbit_auth.Postgres.Users.{find_email, find_by_email, find_by_mobile, update_last_login}
use orbit_auth.Postgres.RefreshTokens.{store_refresh_token}
use orbit_auth.Application.Sessions.{TokenPair, issue_tokens, issue_tokens_for_org}
use orbit_auth.Application.Passwords.{login_with_password}
use orbit_auth.Application.Passwords.Authentication.{
  Authenticated, login_with_password-Authenticated,
}

abbrev env_ok : Env
env_ok = record {
  fails = λ k. false;
  now = λ k. 100;
  new_id = λ k. "t1";
  parse_uuid = λ s. some s;
  new_code = λ k. some "123456";
  new_secret = λ k. some "abcdefghij";
  hash = λ k s. some s;
  compare_hash = λ h s. h == s;
  digest = λ s. s;
  to_lower = λ s. s;
  sql_lower = λ s. s;
  equal_fold = λ s t. s == t;
  sign = λ k u o t. some u;
  flag = λ k s. true;
  delivers = λ k. true;
}

abbrev start : World
start = record {
  db = record {
    users =
        record {
          id = "ann";
          email = "ann@x.y";
          mobile = "";
          password_hash = "pw";
          display_name = "Ann";
          status = "active";
          email_verified = true;
        }
        ∷ [];
    organizations = [];
    memberships = [];
    challenges = [];
    refresh_tokens = [];
    api_tokens = [];
    invites = [];
    outbox = [];
  };
  calls = 0;
  sent = [];
  invitations = [];
}

abbrev pair : TokenPair
pair = record { access = "ann"; refresh = "t1t1"; expires = 100 + access_token_ttl }

logs_in : (login_with_password env_ok false " ann@x.y " "pw" start).0 ≡ ok pair
unfolding login_with_password trim_space is_e164 find_by_email find_by_mobile find_email row_or_none
    statement try update_last_login parse_id issue_tokens issue_tokens_for_org ask new_id now
    store_refresh_token ◌>>=◌
logs_in = refl

login_with_password-Authenticated_example :
    Authenticated env_ok
      (trim_space " ann@x.y ")
      "pw"
      start.db
      pair
      (login_with_password env_ok false " ann@x.y " "pw" start).1.db
login_with_password-Authenticated_example =
    login_with_password-Authenticated env_ok false " ann@x.y " "pw" start pair logs_in
