-- ===== src/Application/Otp/Acceptance.antt =====
-- `VerifyOTP` of service.go: what it has checked and written when it accepts a code.
use orbit_auth.Prelude.{◌+◌, ◌≤◌, ◌<◌, String, ◌≡◌, Bool, true, false, some, ◌==◌, arith}
use orbit_auth.Prelude.GoText.{trim_space}
use orbit_auth.Prelude.Results.{Result, ok, err}
use orbit_auth.Domain.{
  Time, OtpChallenge, max_otp_attempts, channel_email, channel_sms, Error, invalid_otp_code,
  unsupported_channel,
}
use orbit_auth.Runtime.{Db, Env, World, try}
use orbit_auth.Runtime.Effects.{
  Effect, Effect-bind, Effect-map, Effect-pure, Effect-raise, Effect-refuse, Effect-statement,
  Effect-now, Effect-parse_id,
}
use orbit_auth.Runtime.Reads.{Effect-try, statement-IsReadOnly, refuse-IsReadOnly, raise-IsReadOnly}
use orbit_auth.Runtime.Frames.{
  SparesCodes, Effect-SparesCodes, bind-SparesCodes, read-SparesCodes, choice-SparesCodes,
}
use orbit_auth.Postgres.Queries.{row_or_none}
use orbit_auth.Postgres.Challenges.{latest, delete, get_latest_challenge, consume_challenge}
use orbit_auth.Postgres.Users.Creation.{
  find_or_create_by_email-SparesCodes, find_or_create_by_mobile-SparesCodes,
}
use orbit_auth.Application.Sessions.{TokenPair}
use orbit_auth.Application.Sessions.Login.{issue_tokens-SparesCodes}
use orbit_auth.Application.Otp.{
  verify_otp, verify_trimmed, live_challenge, check_code, log_in, user_for,
}
use orbit_auth.Application.Otp.Refusals.{verify_trimmed-accepts}

-- An attempt at a time with a code that the latest challenge for the two texts admits; afterwards
-- that challenge is gone and the others are as they were.
pub record Accepted (env : Env) (at : Time) (identifier channel code : String) (before after : Db)
    : Type 0 where
  pub challenge : OtpChallenge
  pub id : String
  pub found : latest identifier channel before.challenges ≡ some challenge
  pub early : at ≤ challenge.expires_at
  pub tries : challenge.attempts < max_otp_attempts
  pub matched : env.compare_hash challenge.code_hash code ≡ true
  pub parsed : env.parse_uuid challenge.id ≡ some id
  pub consumed : after.challenges ≡ delete id before.challenges

module _ (env : Env) where
  user_for-SparesCodes :
      (identifier channel : String) → SparesCodes (user_for env identifier channel)
  unfolding user_for
  user_for-SparesCodes identifier channel =
      choice-SparesCodes (channel == channel_email) _ _
        (find_or_create_by_email-SparesCodes env identifier)
        (choice-SparesCodes (channel == channel_sms) _ _
          (find_or_create_by_mobile-SparesCodes env identifier)
          (read-SparesCodes _ (raise-IsReadOnly unsupported_channel)))

  log_in-SparesCodes :
      (auto : Bool) (identifier channel : String) → SparesCodes (log_in env auto identifier channel)
  unfolding log_in
  log_in-SparesCodes auto identifier channel =
      bind-SparesCodes _ _ (user_for-SparesCodes identifier channel) λ user.
        bind-SparesCodes _ _ (read-SparesCodes _ (refuse-IsReadOnly _ _))
          λ _. issue_tokens-SparesCodes env auto user.id

  Effect-get_latest_challenge :
      (identifier channel : String)
      → Effect (try (get_latest_challenge env identifier channel)) (λ d r d'.
        (d' ≡ d)
        × ((c : OtpChallenge) → r ≡ ok c → latest identifier channel d.challenges ≡ some c))
  unfolding get_latest_challenge row_or_none
  Effect-get_latest_challenge identifier channel =
      Effect-try _ (λ d c d'. latest identifier channel d.challenges ≡ some c)
        (statement-IsReadOnly env _ λ d t a d' e. ground arith)
        (Effect-map _ _ (λ d c d'. latest identifier channel d.challenges ≡ some c)
          (Effect-statement env _) λ d a d' e. ground (arith, e.1))

  Effect-live_challenge :
      (r : Result Error OtpChallenge)
      → Effect (live_challenge env r) (λ d c d'. (d' ≡ d) × (r ≡ ok c))
  unfolding live_challenge
  Effect-live_challenge (err e) = Effect-raise invalid_otp_code _
  Effect-live_challenge (ok c) =
      Effect-map _ _ _
        (Effect-bind _ _ _ _ (Effect-now env) λ at.
          Effect-bind _ _ _ _ (Effect-refuse _ _)
            λ _. Effect-bind _ _ _ _ (Effect-refuse _ _) λ _. Effect-pure c)
        λ d a d' s. (
          ground (arith, s.first, s.second.first, s.second.second.first, s.second.second.second),
          ground (arith, s.second.second.second),
        )

  Effect-check_code : (b : Bool) (c : OtpChallenge) → Effect (check_code env b c) (λ d a d'. d' ≡ d)
  unfolding check_code
  Effect-check_code true c = Effect-map _ _ _ (Effect-pure tt) λ d a d' e. e.1
  Effect-check_code false c =
      Effect-map _ _ (λ d a d'. d' ≡ d)
        (Effect-bind _ _ (λ d r d'. Unit {0}) (λ r d a d'. ⊥) (record { at = λ w a h. tt })
          (λ r. Effect-raise invalid_otp_code _))
        λ d a d' s. absurd s.second

  Effect-consume_challenge :
      (text : String)
      → Effect (consume_challenge env text) (λ d a d'.
        (id : String) × (env.parse_uuid text ≡ some id) × (d'.challenges ≡ delete id d.challenges))
  unfolding consume_challenge
  Effect-consume_challenge text =
      Effect-map _ _ _ (Effect-bind _ _ _ _ (Effect-parse_id env text) λ id. Effect-statement env _)
        λ d a d' s. (s.value, s.first.0, ground (arith, s.first, s.second))

  -- The challenge that was found, and the one that is gone.
  Effect-verify_trimmed :
      (auto : Bool) (identifier channel code : String)
      → Effect (verify_trimmed env auto identifier channel code) (λ d pair d'.
        (c : OtpChallenge) × (id : String) × (latest identifier channel d.challenges ≡ some c)
        × (env.parse_uuid c.id ≡ some id)
        × (d'.challenges ≡ delete id d.challenges))
  unfolding verify_trimmed
  Effect-verify_trimmed auto identifier channel code =
      Effect-map _ _ _
        (Effect-bind _ _ _ _ (Effect-refuse _ _) λ _.
          Effect-bind _ _ _ _ (Effect-get_latest_challenge identifier channel) λ found.
            Effect-bind _ _ _ _ (Effect-live_challenge found) λ c.
              Effect-bind _ _ _ _ (Effect-check_code (env.compare_hash c.code_hash code) c) λ _.
                Effect-bind _ _ _ _ (Effect-consume_challenge c.id)
                  λ _. Effect-SparesCodes _ (log_in-SparesCodes auto identifier channel))
        λ d pair d' s.
          let found = s.second in
          let live = found.second in
          let checked = live.second in
          let gone = checked.second in
          (
            live.value,
            gone.first.0,
            ground (arith, s.first, found.first.1 live.value live.first.1),
            gone.first.1,
            ground (
              arith, s.first, found.first.0, live.first.0, checked.first, gone.first.2, gone.second,
            ),
          )

  -- When VerifyOTP gives a token pair, whatever else has failed, the latest challenge for the
  -- trimmed identifier and channel had not expired, had fewer than five wrong attempts and matched
  -- the code; afterwards the challenges are those before without the ones of its identifier.
  pub verify_otp-consumes :
      (auto : Bool) (identifier channel code : String) (w : World) (pair : TokenPair)
      → (verify_otp env auto identifier channel code w).0 ≡ ok pair
      → Accepted env
          (env.now (w.calls + 1))
          (trim_space identifier)
          (trim_space channel)
          code
          w.db
          (verify_otp env auto identifier channel code w).1.db
  unfolding verify_otp
  verify_otp-consumes auto identifier channel code w pair h =
      let (c, id, found, parsed, gone) =
        (Effect-verify_trimmed auto (trim_space identifier) (trim_space channel) code).at w pair
          h in
      let admitted =
        verify_trimmed-accepts env auto (trim_space identifier) (trim_space channel) code w pair
          h in
      record {
        challenge = c;
        id = id;
        found = found;
        early = ground (arith, admitted, found);
        tries = ground (arith, admitted, found);
        matched = ground (arith, admitted, found);
        parsed = parsed;
        consumed = gone;
      }
