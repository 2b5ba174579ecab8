-- ===== src/Application/Otp/Lockout.antt =====
-- `VerifyOTP` of service.go after a series of wrong codes.
use orbit_auth.Prelude.{
  ℕ, ◌+◌, ◌≤◌, String, ◌≡◌, ◌≢◌, refl, sym, subst, ◌∙◌, inl, inr, Bool-cases, Bool, false, Option,
  none, some, List, [], ◌∷◌, ◌==◌, eq_iff, eq_refl, arith, All, if◌then◌else◌, leb,
}
use orbit_auth.Prelude.GoText.{trim_space}
use orbit_auth.Prelude.Results.{err}
use orbit_auth.Domain.{
  OtpChallenge, max_otp_attempts, Error, invalid_otp_code, too_many_otp_attempts,
}
use orbit_auth.Runtime.{Db, Env, World}
use orbit_auth.Postgres.Challenges.{with_challenges, newer, latest, increment}
use orbit_auth.Application.Otp.{verify_otp}
use orbit_auth.Application.Otp.Refusals.{HasParsedId, refusal, judge, verify_otp-refuses}

abbrev bump : String → OtpChallenge → OtpChallenge
bump id c = if c.id == id then record c { attempts = c.attempts + 1 } else c

abbrev bump_found : String → Option OtpChallenge → Option OtpChallenge
bump_found id none = none
bump_found id (some c) = some (bump id c)

newer-bump :
    (id : String) (c : OtpChallenge) (found : Option OtpChallenge)
    → newer (bump id c) (bump_found id found) ≡ bump id (newer c found)
newer-bump id c none = refl
newer-bump id c (some d) = ground arith

-- The count of a wrong code does not change which challenge is the latest.
latest-increment :
    (identifier channel id : String) (l : List OtpChallenge)
    → latest identifier channel (increment id l) ≡ bump_found id (latest identifier channel l)
unfolding latest increment
latest-increment identifier channel id [] = refl
latest-increment identifier channel id (c ∷ l) =
    ground (
      arith,
      latest-increment identifier channel id l,
      newer-bump id c (latest identifier channel l),
    )

abbrev pub count : List String → ℕ
count [] = 0
count (code ∷ codes) = count codes + 1

module _ (env : Env) (works : (k : ℕ) → env.fails k ≡ false) (auto : Bool)
    (identifier channel : String) where
  -- The world after one attempt for each code.
  abbrev pub guesses : List String → World → World
  guesses [] w = w
  guesses (code ∷ codes) w = guesses codes (verify_otp env auto identifier channel code w).1

  -- A code that is not the challenge's.
  abbrev pub IsWrong : String → String → Type 0
  IsWrong hash code = (code ≢ "") × (env.compare_hash hash code ≡ false)

  -- The latest challenge for the two texts.
  abbrev current : World → Option OtpChallenge
  current w = latest (trim_space identifier) (trim_space channel) w.db.challenges

  module _ (given : (trim_space identifier ≢ "") × (trim_space channel ≢ "")) where
    judged :
        (code : String) (w : World) (c : OtpChallenge)
        → current w ≡ some c
        → code ≢ ""
        → refusal env (env.now (w.calls + 1)) (trim_space identifier) (trim_space channel) code w.db
          ≡ judge env (env.now (w.calls + 1)) code c w.db
    judged code w c found filled = ground (
      arith,
      given,
      found,
      eq_iff (trim_space identifier) "",
      eq_iff (trim_space channel) "",
      eq_iff code "",
    )

    refuses :
        (code : String) (w : World) (c : OtpChallenge) (e : Error) (d : Db)
        → current w ≡ some c
        → env.parse_uuid c.id ≡ some c.id
        → code ≢ ""
        → judge env (env.now (w.calls + 1)) code c w.db ≡ some (e, d)
        → ((verify_otp env auto identifier channel code w).0 ≡ err e)
          × ((verify_otp env auto identifier channel code w).1.db ≡ d)
    refuses code w c e d found id filled j =
        verify_otp-refuses env works auto identifier channel code w e d
          (subst (HasParsedId env) (sym found) id) (judged code w c found filled ∙ j)

    -- A wrong code is counted, up to the limit.
    abbrev counted : OtpChallenge → OtpChallenge
    counted c =
        if leb max_otp_attempts c.attempts then c else record c { attempts = c.attempts + 1 }

    guess-current :
        (code : String) (w : World) (c : OtpChallenge)
        → current w ≡ some c
        → env.parse_uuid c.id ≡ some c.id
        → ((k : ℕ) → env.now k ≤ c.expires_at)
        → IsWrong c.code_hash code
        → current (verify_otp env auto identifier channel code w).1 ≡ some (counted c)
    guess-current code w c found id early wrong =
        elim (Bool-cases (leb max_otp_attempts c.attempts)) [
          | inl full ↦ ground (
            arith,
            found,
            refuses code w c too_many_otp_attempts w.db found id wrong.0
                (ground (arith, early (w.calls + 1))),
          )
          | inr open_still ↦ ground (
            arith,
            found,
            eq_refl c.id,
            latest-increment (trim_space identifier) (trim_space channel) c.id w.db.challenges,
            refuses code w c invalid_otp_code
                (with_challenges (increment c.id w.db.challenges) w.db) found id wrong.0
                (ground (arith, early (w.calls + 1), wrong)),
          )
        ]

    -- When no database call fails, the two texts are not blank, the latest challenge's identifier
    -- is in parsed form and the clock stays within its expiry, then after wrong codes that fill up
    -- its five attempts every further code that is not empty, the right one included, is refused
    -- with the error for too many attempts.
    pub verify_otp-locks :
        (codes : List String) (code : String) (w : World) (c : OtpChallenge)
        → current w ≡ some c
        → env.parse_uuid c.id ≡ some c.id
        → ((k : ℕ) → env.now k ≤ c.expires_at)
        → All (IsWrong c.code_hash) codes
        → code ≢ ""
        → max_otp_attempts ≤ c.attempts + count codes
        → (verify_otp env auto identifier channel code (guesses codes w)).0
          ≡ err too_many_otp_attempts
    verify_otp-locks [] code w c found id early wrong filled many =
        (refuses code w c too_many_otp_attempts w.db found id filled
          (ground (arith, early (w.calls + 1), many))).0
    verify_otp-locks (guess ∷ codes) code w c found id early wrong filled many =
        elim (Bool-cases (leb max_otp_attempts c.attempts)) [
          | inl full ↦
              verify_otp-locks codes code _ c
                (ground (arith, guess-current guess w c found id early wrong.0)) id early wrong.1
                filled (ground arith)
          | inr open_still ↦
              verify_otp-locks codes code _ (record c { attempts = c.attempts + 1 })
                (ground (arith, guess-current guess w c found id early wrong.0)) id early wrong.1
                filled (ground (arith, many))
        ]
