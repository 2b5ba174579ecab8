-- ===== src/Postgres/Challenges.antt =====
-- The one-time codes: queries/otp_challenges.sql and the methods of store.go that run them.
use orbit_auth.Prelude.{
  ◌+◌, String, ◌&&◌, ◌||◌, eqb, Option, none, some, List, [], ◌∷◌, ◌==◌, if◌then◌else◌, leb, ltb,
}
use orbit_auth.Prelude.Results.{Result, ok, err}
use orbit_auth.Domain.{Time, OtpChallenge, Error, duplicate_key, null_column}
use orbit_auth.Runtime.{Db, Env, Exec, stored_time, pure, ◌>>=◌, statement, parse_id, now}
use orbit_auth.Postgres.Queries.{row_or_none}

abbrev pub with_challenges : List OtpChallenge → Db → Db
with_challenges l d = record d { challenges = l }

unfoldable pub find_challenge : String → List OtpChallenge → Option OtpChallenge
find_challenge id [] = none
find_challenge id (c ∷ l) = if c.id == id then some c else find_challenge id l

-- The newer of two rows; the first where the times agree.
abbrev pub newer : OtpChallenge → Option OtpChallenge → OtpChallenge
newer c none = c
newer c (some d) = if ltb c.created_at d.created_at then d else c

-- ORDER BY created_at DESC LIMIT 1
unfoldable pub latest : String → String → List OtpChallenge → Option OtpChallenge
latest identifier channel [] = none
latest identifier channel (c ∷ l) =
    let rest = latest identifier channel l in
    if c.identifier == identifier && c.channel == channel then some (newer c rest) else rest

unfoldable pub increment : String → List OtpChallenge → List OtpChallenge
increment id [] = []
increment id (c ∷ l) =
    (if c.id == id then record c { attempts = c.attempts + 1 } else c) ∷ increment id l

unfoldable pub delete : String → List OtpChallenge → List OtpChallenge
delete id [] = []
delete id (c ∷ l) = if c.id == id then delete id l else c ∷ delete id l

unfoldable pub delete_expired : Time → List OtpChallenge → List OtpChallenge
delete_expired t [] = []
delete_expired t (c ∷ l) = if ltb c.expires_at t then delete_expired t l else c ∷ delete_expired t l

abbrev stored_challenge : OtpChallenge → OtpChallenge
stored_challenge c = record c {
  expires_at = stored_time c.expires_at;
  created_at = stored_time c.created_at;
  attempts = 0;
}

-- A zero time is sent as NULL, which the columns refuse.
unfoldable pub insert_challenge : OtpChallenge → Db → Result Error (Unit {0} × Db)
insert_challenge c d =
    if eqb c.expires_at 0 || eqb c.created_at 0
    then err null_column
    else elim (find_challenge c.id d.challenges) [
      | none ↦ ok (tt, with_challenges (stored_challenge c ∷ d.challenges) d)
      | some x ↦ err duplicate_key
    ]

module _ (env : Env) where
  created_at_or_now : Time → Exec Time
  created_at_or_now at = if leb at 0 then now env else pure at

  pub upsert_challenge : OtpChallenge → Exec (Unit {0})
  unfolding created_at_or_now
  upsert_challenge c = do
    id ← parse_id env c.id
    at ← created_at_or_now c.created_at
    statement env (λ d t. insert_challenge (record c { id = id; created_at = at }) d)

  unfoldable pub get_latest_challenge : String → String → Exec OtpChallenge
  get_latest_challenge identifier channel =
      statement env (λ d t. row_or_none (latest identifier channel d.challenges) d)

  unfoldable pub increment_attempts : String → Exec (Unit {0})
  increment_attempts id = do
    parsed ← parse_id env id
    statement env (λ d t. ok (tt, with_challenges (increment parsed d.challenges) d))

  unfoldable pub consume_challenge : String → Exec (Unit {0})
  consume_challenge id = do
    parsed ← parse_id env id
    statement env (λ d t. ok (tt, with_challenges (delete parsed d.challenges) d))

  unfoldable pub delete_expired_challenges : Exec (Unit {0})
  delete_expired_challenges =
      statement env (λ d t. ok (tt, with_challenges (delete_expired t d.challenges) d))
