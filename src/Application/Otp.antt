-- ===== src/Application/Otp.antt =====
-- internal/application/service.go: login with a one-time code.
pub mod Refusals
pub mod Lockout
pub mod Acceptance
pub mod Success
use orbit_auth.Prelude.{
  ℕ, ◌+◌, String, Bool, true, false, not, ◌||◌, Option, none, some, List, [], ◌∷◌, ◌==◌,
  if◌then◌else◌, leb, ltb,
}
use orbit_auth.Prelude.GoText.{trim_space}
use orbit_auth.Prelude.Results.{Result, ok, err}
use orbit_auth.Domain.{
  Time, OtpChallenge, User, channel_email, channel_sms, otp_ttl, max_otp_attempts,
  user_signup_pending, is_e164, Error, required, email_otp_disabled, mobile_otp_disabled,
  unsupported_channel, invalid_mobile, invalid_otp_code, too_many_otp_attempts, code_failed,
  hash_failed, notify_failed,
}
use orbit_auth.Runtime.{
  Env, World, Sent, Exec, pure, raise, refuse, try, ◌>>=◌, ◌>>◌, tick, now, new_id, ask, call,
}
use orbit_auth.Postgres.Challenges.{
  upsert_challenge, get_latest_challenge, increment_attempts, consume_challenge,
  delete_expired_challenges,
}
use orbit_auth.Postgres.Users.{find_or_create_by_email, find_or_create_by_mobile}
use orbit_auth.Application.Sessions.{TokenPair, issue_tokens}

module _ (env : Env) where
  -- notifier.SendOTP: a delivery that works reaches the recipient.
  unfoldable pub send_otp : String → String → String → Exec (Unit {0})
  send_otp channel recipient code w =
      if env.delivers w.calls
      then (
        ok tt,
        record (tick w) {
          sent = record { channel = channel; recipient = recipient; code = code } ∷ w.sent;
        },
      )
      else (err notify_failed, tick w)

  -- The switch of `RequestOTP` on the channel.
  unfoldable pub check_channel : String → String → Exec (Unit {0})
  check_channel identifier channel =
      if channel == channel_email
      then (call env (λ k. env.flag k "manova.auth.email_otp") >>= λ on.
          refuse (not on) email_otp_disabled)
      else if channel == channel_sms
      then (refuse (not (is_e164 identifier)) invalid_mobile
          >> (call env (λ k. env.flag k "manova.auth.mobile_otp") >>= λ on.
              refuse (not on) mobile_otp_disabled))
      else raise unsupported_channel

  unfoldable pub build_otp_challenge : String → String → Exec (OtpChallenge × String)
  build_otp_challenge identifier channel = do
    code ← ask env code_failed env.new_code
    hash ← ask env hash_failed (λ k. env.hash k code)
    at ← now env
    id ← new_id env
    pure (
      record {
        id = id;
        identifier = identifier;
        channel = channel;
        code_hash = hash;
        expires_at = at + otp_ttl;
        created_at = at;
        attempts = 0;
      },
      code,
    )

  unfoldable pub new_otp_challenge : String → String → Exec (OtpChallenge × String)
  new_otp_challenge identifier channel = do
    cleaned ← try (delete_expired_challenges env)
    built ← build_otp_challenge identifier channel
    upsert_challenge env built.0
    pure built

  request_trimmed : String → String → Exec Time
  request_trimmed identifier channel = do
    refuse (identifier == "" || channel == "") (required "identifier and channel")
    check_channel identifier channel
    built ← new_otp_challenge identifier channel
    send_otp channel identifier built.1
    pure built.0.expires_at

  unfoldable pub request_otp : String → String → Exec Time
  unfolding request_trimmed
  request_otp identifier channel = request_trimmed (trim_space identifier) (trim_space channel)

  -- The switch of `VerifyOTP` on the channel.
  unfoldable pub user_for : String → String → Exec User
  user_for identifier channel =
      if channel == channel_email
      then find_or_create_by_email env identifier
      else if channel == channel_sms
      then find_or_create_by_mobile env identifier
      else raise unsupported_channel

  log_in : Bool → String → String → Exec TokenPair
  log_in auto identifier channel = do
    user ← user_for identifier channel
    refuse (user.status == user_signup_pending) invalid_otp_code
    issue_tokens env auto user.id

  -- `if !Compare(…) { _ = IncrementAttempts(…); return …, ErrInvalidOTPCode }`
  check_code : Bool → OtpChallenge → Exec (Unit {0})
  check_code true c = pure tt
  check_code false c = try (increment_attempts env c.id) >> raise invalid_otp_code

  -- The challenge that was found, its expiry and its attempts.
  live_challenge : Result Error OtpChallenge → Exec OtpChallenge
  live_challenge (err e) = raise invalid_otp_code
  live_challenge (ok c) = do
    at ← now env
    refuse (ltb c.expires_at at) invalid_otp_code
    refuse (leb max_otp_attempts c.attempts) too_many_otp_attempts
    pure c

  pub verify_trimmed : Bool → String → String → String → Exec TokenPair
  unfolding live_challenge check_code log_in
  verify_trimmed auto identifier channel code = do
    refuse (identifier == "" || channel == "" || code == "") invalid_otp_code
    found ← try (get_latest_challenge env identifier channel)
    c ← live_challenge found
    check_code (env.compare_hash c.code_hash code) c
    consume_challenge env c.id
    log_in auto identifier channel

  unfoldable pub verify_otp : Bool → String → String → String → Exec TokenPair
  unfolding verify_trimmed
  verify_otp auto identifier channel code =
      verify_trimmed auto (trim_space identifier) (trim_space channel) code
