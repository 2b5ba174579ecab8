-- ===== src/Application/Otp/Success.antt =====
-- `VerifyOTP` of service.go with an accepted code, where nothing fails.
use orbit_auth.Prelude.{
  ℕ, ◌+◌, String, ◌≡◌, ◌≢◌, refl, inl, false, Option, none, some, eq_iff, arith,
}
use orbit_auth.Prelude.GoText.{trim_space}
use orbit_auth.Prelude.Results.{ok}
use orbit_auth.Domain.{Time, OtpChallenge, User, channel_email, user_signup_pending}
use orbit_auth.Runtime.{Env, World, try, ◌>>=◌, statement, now, parse_id}
use orbit_auth.Postgres.Queries.{row_or_none}
use orbit_auth.Postgres.Challenges.{
  with_challenges, latest, delete, get_latest_challenge, consume_challenge,
}
use orbit_auth.Postgres.Users.{find_email, find_or_create_by_email}
use orbit_auth.Application.Sessions.{TokenPair, issue_tokens}
use orbit_auth.Application.Sessions.Success.{issue-succeeds}
use orbit_auth.Application.Otp.{
  verify_otp, verify_trimmed, live_challenge, check_code, log_in, user_for,
}
use orbit_auth.Application.Otp.Refusals.{refusal}

module _ (env : Env) (works : (k : ℕ) → env.fails k ≡ false)
    (signs : (k : ℕ) (user_id : String) (org : Option String) (t : Time)
      → (access : String) × (env.sign k user_id org t ≡ some access)) where
  log_in-succeeds :
      (identifier : String) (w : World) (u : User) (user : String)
      → find_email identifier w.db.users ≡ some u
      → u.status ≢ user_signup_pending
      → env.parse_uuid u.id ≡ some user
      → (pair : TokenPair) × ((log_in env false identifier channel_email w).0 ≡ ok pair)
  unfolding ◌>>=◌ log_in user_for find_or_create_by_email try statement row_or_none issue_tokens
  log_in-succeeds identifier w u user found usable parsed =
      let (pair, issued) =
        issue-succeeds env works signs u.id "" (record w { calls = w.calls + 1 }) user parsed
          (inl refl) in
      (
        pair,
        ground (arith, works w.calls, found, issued, usable, eq_iff u.status user_signup_pending),
      )

  verify_trimmed-succeeds :
      (identifier code : String) (w : World) (c : OtpChallenge) (u : User) (user : String)
      → latest identifier channel_email w.db.challenges ≡ some c
      → env.parse_uuid c.id ≡ some c.id
      → refusal env (env.now (w.calls + 1)) identifier channel_email code w.db ≡ none
      → find_email identifier w.db.users ≡ some u
      → u.status ≢ user_signup_pending
      → env.parse_uuid u.id ≡ some user
      → (pair : TokenPair) × ((verify_trimmed env false identifier channel_email code w).0
          ≡ ok pair)
  unfolding ◌>>=◌ verify_trimmed live_challenge check_code get_latest_challenge consume_challenge
      try statement row_or_none now parse_id
  verify_trimmed-succeeds identifier code w c u user latest_is id admitted found usable parsed =
      let (pair, logged) =
        log_in-succeeds identifier
          (record w {
            db = with_challenges (delete c.id w.db.challenges) w.db;
            calls = w.calls + 1 + 1 + 1;
          })
          u user found usable parsed in
      (
        pair,
        ground (arith, latest_is, id, admitted, works w.calls, works (w.calls + 1 + 1), logged),
      )

  -- When no database call fails, every token can be signed, automatic selection of an organization
  -- is off, the latest email challenge has an identifier in parsed form and does not refuse the
  -- code, and a user with that email address exists, is not a pending sign-up and has an
  -- identifier, VerifyOTP gives a pair.
  pub verify_otp-succeeds :
      (identifier code : String) (w : World) (c : OtpChallenge) (u : User) (user : String)
      → latest (trim_space identifier) channel_email w.db.challenges ≡ some c
      → env.parse_uuid c.id ≡ some c.id
      → refusal env (env.now (w.calls + 1)) (trim_space identifier) channel_email code w.db ≡ none
      → find_email (trim_space identifier) w.db.users ≡ some u
      → u.status ≢ user_signup_pending
      → env.parse_uuid u.id ≡ some user
      → (pair : TokenPair) × ((verify_otp env false identifier "email" code w).0 ≡ ok pair)
  unfolding verify_otp trim_space
  verify_otp-succeeds identifier = verify_trimmed-succeeds (trim_space identifier)
