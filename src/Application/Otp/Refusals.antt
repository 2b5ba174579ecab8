-- ===== src/Application/Otp/Refusals.antt =====
-- `VerifyOTP` of service.go: when it refuses a code, and what it then writes.
use orbit_auth.Prelude.{
  ℕ, ◌+◌, String, ◌≡◌, Bool, false, ◌||◌, Option, none, some, ◌==◌, arith, if◌then◌else◌, leb, ltb,
}
use orbit_auth.Prelude.GoText.{trim_space}
use orbit_auth.Prelude.Results.{ok, err}
use orbit_auth.Domain.{
  Time, OtpChallenge, max_otp_attempts, Error, invalid_otp_code, too_many_otp_attempts,
}
use orbit_auth.Runtime.{Db, Env, World, try, ◌>>=◌, statement, now, parse_id}
use orbit_auth.Postgres.Queries.{row_or_none}
use orbit_auth.Postgres.Challenges.{
  with_challenges, latest, increment, get_latest_challenge, increment_attempts,
}
use orbit_auth.Application.Sessions.{TokenPair}
use orbit_auth.Application.Otp.{verify_otp, verify_trimmed, live_challenge, check_code}

-- The error of an attempt with this code at this time, and the tables that it leaves; none if the
-- code is accepted. A wrong code counts, and nothing else is written.
abbrev pub judge : Env → Time → String → OtpChallenge → Db → Option (Error × Db)
judge env at code c d =
    if ltb c.expires_at at
    then some (invalid_otp_code, d)
    else if leb max_otp_attempts c.attempts
    then some (too_many_otp_attempts, d)
    else if env.compare_hash c.code_hash code
    then none
    else some (invalid_otp_code, with_challenges (increment c.id d.challenges) d)

abbrev pub refusal : Env → Time → String → String → String → Db → Option (Error × Db)
refusal env at identifier channel code d =
    if identifier == "" || channel == "" || code == ""
    then some (invalid_otp_code, d)
    else elim (latest identifier channel d.challenges) [
      | none ↦ some (invalid_otp_code, d)
      | some c ↦ judge env at code c d
    ]

-- The stored identifiers are in the form that `uuid.Parse` gives.
abbrev pub HasParsedId : Env → Option OtpChallenge → Type 0
HasParsedId env none = Unit
HasParsedId env (some c) = env.parse_uuid c.id ≡ some c.id

module _ (env : Env) (works : (k : ℕ) → env.fails k ≡ false) where
  verify_trimmed-refuses :
      (auto : Bool) (identifier channel code : String) (w : World) (e : Error) (d : Db)
      → HasParsedId env (latest identifier channel w.db.challenges)
      → refusal env (env.now (w.calls + 1)) identifier channel code w.db ≡ some (e, d)
      → ((verify_trimmed env auto identifier channel code w).0 ≡ err e)
        × ((verify_trimmed env auto identifier channel code w).1.db ≡ d)
  unfolding ◌>>=◌ verify_trimmed live_challenge check_code get_latest_challenge increment_attempts
      try statement row_or_none now parse_id
  verify_trimmed-refuses auto identifier channel code w e d ids r =
      ground (arith, works w.calls, works (w.calls + 1), works (w.calls + 1 + 1))

  -- When no database call fails and the latest challenge's identifier is in parsed form, an attempt
  -- with a blank text, without a challenge, after its expiry, with all attempts used or with a
  -- wrong code gets its error, and the tables are as before but for one more attempt of a challenge
  -- whose code was wrong.
  pub verify_otp-refuses :
      (auto : Bool) (identifier channel code : String) (w : World) (e : Error) (d : Db)
      → HasParsedId env (latest (trim_space identifier) (trim_space channel) w.db.challenges)
      → refusal env (env.now (w.calls + 1)) (trim_space identifier) (trim_space channel) code w.db
        ≡ some (e, d)
      → ((verify_otp env auto identifier channel code w).0 ≡ err e)
        × ((verify_otp env auto identifier channel code w).1.db ≡ d)
  unfolding verify_otp
  verify_otp-refuses auto identifier channel code =
      verify_trimmed-refuses auto (trim_space identifier) (trim_space channel) code

module _ (env : Env) where
  -- An attempt that gives a pair was not to be refused.
  pub verify_trimmed-accepts :
      (auto : Bool) (identifier channel code : String) (w : World) (pair : TokenPair)
      → (verify_trimmed env auto identifier channel code w).0 ≡ ok pair
      → refusal env (env.now (w.calls + 1)) identifier channel code w.db ≡ none
  unfolding ◌>>=◌ verify_trimmed live_challenge check_code get_latest_challenge try statement
      row_or_none now
  verify_trimmed-accepts auto identifier channel code w pair h = ground (arith, h)
