-- ===== src/Token/Tests/Fetching.antt =====
-- Runs of the remote verifier of token/access.go, and the theorems on them.
use orbit_auth.Prelude.{
  ◌-◌, ◌*◌, ◌≡◌, ◌≤◌, refl, String, true, false, none, some, [], ◌∷◌, ◌==◌, arith, lookup, insert,
  inr,
}
use orbit_auth.Prelude.GoText.{trim_space}
use orbit_auth.Prelude.Results.{ok}
use orbit_auth.Domain.{second, hour}
use orbit_auth.Token.Base64.{decode}
use orbit_auth.Token.BigEndian.{of_bytes, bytes_from}
use orbit_auth.Token.Keys.{PublicKey, key_set, is_small_or_even}
use orbit_auth.Token.Keys.Bounds.{IsStrong}
use orbit_auth.Token.Claims.{token_key_id, parse_access_token, key_function}
use orbit_auth.Token.Claims.Verified.{IsVerified}
use orbit_auth.Token.Verifier.{
  Verifier, Moment, answer, refresh, refreshes, find_key, parse_remote, first_fetch, after_calls,
}
use orbit_auth.Token.Verifier.Address.{Url, new_remote_verifier, follows}
use orbit_auth.Token.Verifier.Throttle.{requests-le}
use orbit_auth.Token.Verifier.Trust.{parse_remote-trusts}
use orbit_auth.Token.Verifier.Outage.{parse_remote-outage}
use orbit_auth.Token.Tests.Keys.{key, keys, jwk_1}
use orbit_auth.Token.Tests.Tokens.{claims_1, lib_ok}

-- The fetch at 20 seconds works, later ones do not.
abbrev starting : Moment
starting = record {
  now = 20 * second;
  response = answer 200 (some (jwk_1 ∷ []));
  fetched = 20 * second;
  checked = 20 * second;
}

abbrev down : Moment
down = record {
  now = 40 * second;
  response = answer 503 none;
  fetched = 40 * second;
  checked = 40 * second;
}

-- A cache of ten seconds.
abbrev started : Verifier
started = record {
  cache_lifetime = 10 * second;
  max_stale = hour;
  keys = keys;
  fetched_at = 20 * second;
  expires_at = 30 * second;
  last_refresh_attempt = 0;
  last_unknown_refresh = 0;
  requests = 1;
}

starts : first_fetch starting (10 * second) ≡ ok started
unfolding first_fetch refresh key_set decode of_bytes bytes_from trim_space is_small_or_even lookup
    insert
starts = refl

abbrev url : Url
url = record {
  scheme = "https";
  host = "auth.example";
  hostname = "auth.example";
  fragment = "";
  has_user = false;
}

starts_at_url :
    new_remote_verifier (λ text. some url) starting " https://auth.example" (10 * second)
    ≡ ok started
unfolding new_remote_verifier first_fetch refresh key_set decode of_bytes bytes_from trim_space
    is_small_or_even lookup insert
starts_at_url = refl

follows_twice : follows (λ s t. s == t) url url 2 ≡ true
unfolding follows
follows_twice = refl

accepts_down : (parse_remote lib_ok down "t" started).0 ≡ ok claims_1
unfolding parse_remote find_key refreshes refresh lookup parse_access_token key_function trim_space
    token_key_id
accepts_down = refl

accepts_again :
    (parse_remote lib_ok down "t" (after_calls lib_ok ((down, "t") ∷ []) started)).0 ≡ ok claims_1
unfolding parse_remote find_key refreshes refresh lookup parse_access_token key_function trim_space
    token_key_id after_calls
accepts_again = refl

parse_remote-trusts_example :
    (key_id : String) × (k : PublicKey) × (lookup key_id
        (parse_remote lib_ok down "t" (after_calls lib_ok ((down, "t") ∷ []) started)).1.keys
      ≡ some k)
    × IsStrong k
    × (40 * second
          - (parse_remote lib_ok down "t"
              (after_calls lib_ok ((down, "t") ∷ []) started)).1.fetched_at
        ≤ hour)
    × IsVerified lib_ok (40 * second) "t" k key_id claims_1
unfolding after_calls
parse_remote-trusts_example =
    parse_remote-trusts lib_ok starting down (10 * second) ((down, "t") ∷ []) "t" started claims_1
      starts accepts_again

requests-le_example : (after_calls lib_ok ((down, "t") ∷ (down, "t") ∷ []) started).requests ≤ 3
requests-le_example =
    requests-le lib_ok (30 * second) (omega arith) ((down, "t") ∷ (down, "t") ∷ []) started
      ((omega arith, omega arith), ((omega arith, omega arith), tt))

parse_remote-outage_example :
    ((parse_remote lib_ok down "t" started).0 ≡ parse_access_token lib_ok (40 * second) "t" keys)
    × ((parse_remote lib_ok down "t" started).1.keys ≡ keys)
unfolding lookup token_key_id trim_space
parse_remote-outage_example =
    parse_remote-outage lib_ok down "t" "k1" started key (inr refl) refl refl (omega arith)
