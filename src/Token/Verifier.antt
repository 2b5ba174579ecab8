-- ===== src/Token/Verifier.antt =====
-- token/access.go: the verifier that fetches and caches a remote key set. The lock makes each call
-- one step; what a call meets outside (the clock, the answer to a request) is an argument.
pub mod Address
pub mod Throttle
pub mod Trust
pub mod Outage
use orbit_auth.Prelude.{
  ℕ, ◌+◌, ◌-◌, ◌*◌, String, Bool, true, false, not, ◌&&◌, ◌||◌, Option, none, some, ◌==◌, lookup,
  insert, if◌then◌else◌, List, [], ◌∷◌, ltb, leb, eqb,
}
use orbit_auth.Prelude.Results.{Result, ok, err, ◌>>=◌}
use orbit_auth.Domain.{Time, second, minute, hour}
use orbit_auth.Token.Keys.{
  PublicKey, KeySet, Jwk, TokenError, key_set, fetch_failed, bad_status, bad_document, stale_keys,
  unknown_key_id,
}
use orbit_auth.Token.Claims.{AccessClaims, Library, token_key_id, parse_access_token}

-- A time that is zero was never set. `requests` counts the requests that were sent, the calls of
-- `client.Do`; the code does not keep that number.
pub record Verifier : Type 0 where
  pub cache_lifetime : Time
  pub max_stale : Time
  pub keys : KeySet
  pub fetched_at : Time
  pub expires_at : Time
  pub last_refresh_attempt : Time
  pub last_unknown_refresh : Time
  pub requests : ℕ

-- What `client.Do` gives: no answer, or a status and what the decoder reads in the body.
pub data Response : Type 0 where
  unreachable : Response
  answer : ℕ → Option (List Jwk) → Response

-- What a call meets: the clock at its start, the answer to the request that it may make, the clock
-- after that answer and the clock when the claims are checked.
pub record Moment : Type 0 where
  pub now : Time
  pub response : Response
  pub fetched : Time
  pub checked : Time

-- `client.Do`, the status and the body
read_response : Response → Result TokenError KeySet
read_response unreachable = err fetch_failed
read_response (answer status body) =
    if eqb status 200
    then elim body [ none ↦ err bad_document | some l ↦ key_set l ]
    else err bad_status

abbrev sent : Verifier → Verifier
sent v = record v { requests = v.requests + 1 }

-- refreshLocked: it sends a request, whatever comes back.
unfoldable pub refresh : Moment → Verifier → Result TokenError (Unit {0}) × Verifier
unfolding read_response
refresh m v = elim (read_response m.response) [
  | err e ↦ (err e, sent v)
  | ok keys ↦ (
    ok tt,
    record (sent v) {
      keys = keys;
      fetched_at = m.fetched;
      expires_at = m.fetched + v.cache_lifetime;
    },
  )
]

-- At least 15 seconds after the last time, if there was one.
may_repeat : Time → Time → Bool
may_repeat last now = eqb last 0 || leb (15 * second) (now - last)

is_unknown : Option PublicKey → Bool
is_unknown none = true
is_unknown (some key) = false

-- Whether the call refreshes the keys.
unfoldable pub refreshes : Time → String → Verifier → Bool
unfolding may_repeat is_unknown
refreshes now key_id v =
    (ltb v.expires_at now && may_repeat v.last_refresh_attempt now)
    || (is_unknown (lookup key_id v.keys) && may_repeat v.last_unknown_refresh now)

-- The two attempt times before the request.
attempted : Time → String → Verifier → Verifier
unfolding is_unknown
attempted now key_id v =
    if is_unknown (lookup key_id v.keys)
    then record v { last_refresh_attempt = now; last_unknown_refresh = now }
    else record v { last_refresh_attempt = now }

-- The key of the token's identifier, unless the keys are too old.
usable_key : Time → String → Verifier → Result TokenError PublicKey
usable_key now key_id v = elim (lookup key_id v.keys) [
  | none ↦ err unknown_key_id
  | some key ↦ if ltb v.max_stale (now - v.fetched_at) then err stale_keys else ok key
]

-- `refreshErr != nil && (key == nil || now.Sub(v.fetchedAt) > v.maxStale)`
after_refresh :
    Time → String → Result TokenError (Unit {0}) × Verifier → Result TokenError PublicKey
unfolding usable_key is_unknown
after_refresh now key_id (ok _, v) = usable_key now key_id v
after_refresh now key_id (err e, v) =
    if is_unknown (lookup key_id v.keys) || ltb v.max_stale (now - v.fetched_at)
    then err e
    else usable_key now key_id v

-- The locked part of RemoteVerifier.ParseAccessToken: the key and the verifier afterwards.
unfoldable pub find_key : Moment → String → Verifier → Result TokenError PublicKey × Verifier
unfolding attempted after_refresh usable_key is_unknown
find_key m key_id v =
    let refreshed = refresh m (attempted m.now key_id v) in
    if refreshes m.now key_id v
    then (after_refresh m.now key_id refreshed, refreshed.1)
    else (usable_key m.now key_id v, v)

module _ (lib : Library) where
  verify_with :
      Time → String → String → Result TokenError PublicKey → Result TokenError AccessClaims
  verify_with now raw key_id (err e) = err e
  verify_with now raw key_id (ok key) = parse_access_token lib now raw ((key_id, key) ∷ [])

  -- RemoteVerifier.ParseAccessToken
  unfoldable pub parse_remote :
      Moment → String → Verifier → Result TokenError AccessClaims × Verifier
  unfolding verify_with
  parse_remote m raw v = elim (token_key_id lib raw) [
    | err e ↦ (err e, v)
    | ok key_id ↦
        let found = find_key m key_id v in (verify_with m.checked raw key_id found.0, found.1)
  ]

-- A call: what it meets, and the token.
abbrev pub Call : Type 0
Call = Moment × String

-- The verifier after calls, one after another.
unfoldable pub after_calls : Library → List Call → Verifier → Verifier
after_calls lib [] v = v
after_calls lib ((m, raw) ∷ calls) v = after_calls lib calls (parse_remote lib m raw v).1

-- The end of NewRemoteVerifier: the first fetch. A lifetime that is not positive is five minutes.
unfoldable pub first_fetch : Moment → Time → Result TokenError Verifier
first_fetch m cache_lifetime =
    let empty : Verifier = record {
      cache_lifetime = if eqb cache_lifetime 0 then 5 * minute else cache_lifetime;
      max_stale = hour;
      keys = [];
      fetched_at = 0;
      expires_at = 0;
      last_refresh_attempt = 0;
      last_unknown_refresh = 0;
      requests = 0;
    } in
    let fetched = refresh m empty in elim fetched.0 [ err e ↦ err e | ok _ ↦ ok fetched.1 ]
