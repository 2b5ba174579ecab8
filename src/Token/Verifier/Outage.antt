-- ===== src/Token/Verifier/Outage.antt =====
-- The remote verifier of token/access.go while the key set cannot be fetched.
use orbit_auth.Prelude.{
  ◌-◌, ◌≤◌, ◌≡◌, ◌≢◌, ◌⊎◌, refl, String, none, some, [], ◌∷◌, arith, lookup, inl, inr, eq_refl,
}
use orbit_auth.Prelude.Results.{ok, err, Result-cases}
use orbit_auth.Token.Keys.{PublicKey, KeySet, TokenError}
use orbit_auth.Token.Claims.{Library, token_key_id, parse_access_token}
use orbit_auth.Token.Verifier.{
  Verifier, Moment, Response, unreachable, answer, read_response, refresh, is_unknown, attempted,
  after_refresh, usable_key, verify_with, find_key, parse_remote,
}

-- No answer, another status than 200, or a body that is no document.
abbrev pub IsOutage : Response → Type 0
IsOutage unreachable = Unit
IsOutage (answer status body) = (status ≢ 200) ⊎ (body ≡ none)

outage_error : (r : Response) → IsOutage r → (e : TokenError) × (read_response r ≡ err e)
unfolding read_response
outage_error r h = elim (Result-cases (read_response r)) [
  | inl (keys, f) ↦ absurd (no_keys r h keys f)
  | inr failed ↦ failed
]
  where
    no_keys : (r : Response) → IsOutage r → (keys : KeySet) → read_response r ≡ ok keys → ⊥
    no_keys unreachable h keys f = ground arith
    no_keys (answer status none) h keys f = ground arith
    no_keys (answer status (some l)) h keys f = ground arith

find_key-outage :
    (m : Moment) (key_id : String) (v : Verifier) (key : PublicKey)
    → IsOutage m.response
    → lookup key_id v.keys ≡ some key
    → m.now - v.fetched_at ≤ v.max_stale
    → ((find_key m key_id v).0 ≡ ok key) × ((find_key m key_id v).1.keys ≡ v.keys)
unfolding find_key after_refresh usable_key is_unknown refresh attempted
find_key-outage m key_id v key outage held recent =
    let (e, f) = outage_error m.response outage in ground arith

module _ (lib : Library) where
  parse_access_token-alone :
      (m : Moment) (raw key_id : String) (v : Verifier) (key : PublicKey)
      → token_key_id lib raw ≡ ok key_id
      → lookup key_id v.keys ≡ some key
      → parse_access_token lib m.checked raw ((key_id, key) ∷ [])
        ≡ parse_access_token lib m.checked raw v.keys
  unfolding parse_access_token lookup
  parse_access_token-alone m raw key_id v key named held =
      rw (named, parse_access_token) (rw (eq_refl key_id) (rw held refl))

  -- When the server does not answer, answers with another status than 200 or with no document, a
  -- remote verifier that holds the key that the token names, fetched within its maximum age, gives
  -- the answer that ParseAccessToken gives with its cached set, and keeps that set.
  pub parse_remote-outage :
      (m : Moment) (raw key_id : String) (v : Verifier) (key : PublicKey)
      → IsOutage m.response
      → token_key_id lib raw ≡ ok key_id
      → lookup key_id v.keys ≡ some key
      → m.now - v.fetched_at ≤ v.max_stale
      → ((parse_remote lib m raw v).0 ≡ parse_access_token lib m.checked raw v.keys)
        × ((parse_remote lib m raw v).1.keys ≡ v.keys)
  unfolding parse_remote verify_with
  parse_remote-outage m raw key_id v key outage named held recent =
      let (found, kept) = find_key-outage m key_id v key outage held recent in
      rw (named, parse_remote)
        (rw found (parse_access_token-alone m raw key_id v key named held), kept)
