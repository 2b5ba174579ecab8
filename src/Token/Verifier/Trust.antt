-- ===== src/Token/Verifier/Trust.antt =====
-- Which keys the remote verifier of token/access.go trusts.
use orbit_auth.Prelude.{
  ◌-◌, ◌≤◌, ◌≡◌, String, none, some, List, [], ◌∷◌, All, arith, lookup, ◌==◌, inl, inr, eq_iff,
  Bool-cases, subst,
}
use orbit_auth.Prelude.Results.{ok, Result-cases}
use orbit_auth.Domain.{Time, hour}
use orbit_auth.Token.Keys.{PublicKey, KeySet}
use orbit_auth.Token.Keys.Bounds.{IsEntry, IsStrong, key_set-IsEntry}
use orbit_auth.Token.Claims.{AccessClaims, Library, token_key_id, parse_access_token}
use orbit_auth.Token.Claims.Verified.{IsVerified, parse_access_token-IsVerified}
use orbit_auth.Token.Verifier.{
  Verifier, Moment, Response, unreachable, answer, read_response, refresh, is_unknown, refreshes,
  attempted, after_refresh, usable_key, verify_with, find_key, parse_remote, first_fetch, Call,
  after_calls,
}

-- The verifier holds keys that may verify a token, and gives them up after an hour.
abbrev pub IsTrusted : Verifier → Type 0
IsTrusted v = All IsEntry v.keys × (v.max_stale ≡ hour)

read_response-strong : (r : Response) (keys : KeySet) → read_response r ≡ ok keys → All IsEntry keys
unfolding read_response
read_response-strong unreachable keys h = absurd (ground arith)
read_response-strong (answer status none) keys h = absurd (ground arith)
read_response-strong (answer status (some l)) keys h = (key_set-IsEntry l keys (ground arith)).1

refresh-IsTrusted : (m : Moment) (v : Verifier) → IsTrusted v → IsTrusted (refresh m v).1
unfolding refresh
refresh-IsTrusted m v (strong, age) = elim (Result-cases (read_response m.response)) [
  | inl (keys, e) ↦ rw (e, refresh) (read_response-strong m.response keys e, age)
  | inr (e, f) ↦ rw (f, refresh) (strong, age)
]

attempted-IsTrusted :
    (now : Time) (key_id : String) (v : Verifier) → IsTrusted v → IsTrusted (attempted now key_id v)
unfolding attempted
attempted-IsTrusted now key_id v h = elim (Bool-cases (is_unknown (lookup key_id v.keys))) [
  | inl e ↦ rw (e, attempted) h
  | inr e ↦ rw (e, attempted) h
]

find_key-IsTrusted :
    (m : Moment) (key_id : String) (v : Verifier) → IsTrusted v → IsTrusted (find_key m key_id v).1
unfolding find_key
find_key-IsTrusted m key_id v h = elim (Bool-cases (refreshes m.now key_id v)) [
  | inl e ↦
      rw (e, find_key)
        (refresh-IsTrusted m (attempted m.now key_id v) (attempted-IsTrusted m.now key_id v h))
  | inr e ↦ rw (e, find_key) h
]

first_fetch-IsTrusted :
    (m : Moment) (lifetime : Time) (v : Verifier) → first_fetch m lifetime ≡ ok v → IsTrusted v
unfolding first_fetch refresh
first_fetch-IsTrusted m lifetime v h = elim (Result-cases (read_response m.response)) [
  | inl (keys, e) ↦
      let strong = read_response-strong m.response keys e in
      (subst (All IsEntry) (ground arith) strong, ground arith)
  | inr (e, f) ↦ absurd (ground arith)
]

-- A key that is found is in the set that the call leaves, and that set is not too old.
find_key-ok :
    (m : Moment) (key_id : String) (v : Verifier) (key : PublicKey)
    → (find_key m key_id v).0 ≡ ok key
    → (lookup key_id (find_key m key_id v).1.keys ≡ some key)
      × (m.now - (find_key m key_id v).1.fetched_at ≤ (find_key m key_id v).1.max_stale)
unfolding find_key after_refresh usable_key is_unknown
find_key-ok m key_id v key h = ground arith

lookup-IsStrong :
    (keys : KeySet) (key_id : String) (key : PublicKey)
    → All IsEntry keys
    → lookup key_id keys ≡ some key
    → IsStrong key
unfolding lookup
lookup-IsStrong [] key_id key h e = absurd (ground arith)
lookup-IsStrong (entry ∷ keys) key_id key (h, rest) e = elim (Bool-cases (entry.0 == key_id)) [
  | inl same ↦ subst IsStrong (ground arith) h.1
  | inr other ↦ lookup-IsStrong keys key_id key rest (ground arith)
]

module _ (lib : Library) where
  parse_remote-IsTrusted :
      (m : Moment) (raw : String) (v : Verifier)
      → IsTrusted v
      → IsTrusted (parse_remote lib m raw v).1
  unfolding parse_remote
  parse_remote-IsTrusted m raw v h = elim (Result-cases (token_key_id lib raw)) [
    | inl (key_id, e) ↦ rw (e, parse_remote) (find_key-IsTrusted m key_id v h)
    | inr (e, f) ↦ rw (f, parse_remote) h
  ]

  after_calls-IsTrusted :
      (calls : List Call) (v : Verifier) → IsTrusted v → IsTrusted (after_calls lib calls v)
  unfolding after_calls
  after_calls-IsTrusted [] v h = h
  after_calls-IsTrusted ((m, raw) ∷ calls) v h =
      after_calls-IsTrusted calls (parse_remote lib m raw v).1 (parse_remote-IsTrusted m raw v h)

  -- The key that a call accepted the token with.
  record IsAccepted (m : Moment) (raw key_id : String) (key : PublicKey) (claims : AccessClaims)
      (v : Verifier) : Type 0 where
    pub held : lookup key_id v.keys ≡ some key
    pub recent : m.now - v.fetched_at ≤ v.max_stale
    pub verified : IsVerified lib m.checked raw key key_id claims

  one_key-IsVerified :
      (now : Time) (raw key_id : String) (key : PublicKey) (claims : AccessClaims)
      → parse_access_token lib now raw ((key_id, key) ∷ []) ≡ ok claims
      → IsVerified lib now raw key key_id claims
  unfolding lookup
  one_key-IsVerified now raw key_id key claims h =
      let (named, found, e, verified) =
        parse_access_token-IsVerified lib now raw ((key_id, key) ∷ []) claims h in
      let same_id : named ≡ key_id = ground (arith, eq_iff key_id named) in
      let same_key : found ≡ key = ground arith in
      subst (λ k. IsVerified lib now raw k key_id claims) same_key
        (subst (λ i. IsVerified lib now raw found i claims) same_id verified)

  parse_remote-IsAccepted :
      (m : Moment) (raw : String) (v : Verifier) (claims : AccessClaims)
      → (parse_remote lib m raw v).0 ≡ ok claims
      → (key_id : String) × (key : PublicKey) × IsAccepted m raw key_id key claims
          (parse_remote lib m raw v).1
  unfolding parse_remote verify_with
  parse_remote-IsAccepted m raw v claims h = elim (Result-cases (token_key_id lib raw)) [
    | inr (e, f) ↦ absurd (ground arith)
    | inl (key_id, e) ↦ elim (Result-cases (find_key m key_id v).0) [
      | inr (wrong, f) ↦ absurd (ground arith)
      | inl (key, f) ↦
          let (held, recent) = find_key-ok m key_id v key f in
          (
            key_id,
            key,
            rw (e, parse_remote)
                (record {
                  held = held;
                  recent = recent;
                  verified = one_key-IsVerified m.checked raw key_id key claims (ground arith);
                }),
          )
    ]
  ]

  -- When a remote verifier whose first fetch worked accepts a token after any calls, with any
  -- answers from the server and any clock, the token names a key of the set that the call leaves;
  -- that key has 2048 bits at least and an odd exponent from 3 to below 2^32; the set was fetched
  -- at most an hour before the call by its clock; and the JWT library accepts the claims, whose
  -- subject is not blank, under that key.
  pub parse_remote-trusts :
      (start m : Moment) (lifetime : Time) (calls : List Call) (raw : String) (v : Verifier)
      (claims : AccessClaims)
      → first_fetch start lifetime ≡ ok v
      → (parse_remote lib m raw (after_calls lib calls v)).0 ≡ ok claims
      → (key_id : String) × (key : PublicKey) × (lookup key_id
            (parse_remote lib m raw (after_calls lib calls v)).1.keys
          ≡ some key)
        × IsStrong key
        × (m.now - (parse_remote lib m raw (after_calls lib calls v)).1.fetched_at ≤ hour)
        × IsVerified lib m.checked raw key key_id claims
  parse_remote-trusts start m lifetime calls raw v claims begun h =
      let before = after_calls lib calls v in
      let trusted =
        parse_remote-IsTrusted m raw before
          (after_calls-IsTrusted calls v (first_fetch-IsTrusted start lifetime v begun)) in
      let (key_id, key, accepted) = parse_remote-IsAccepted m raw before claims h in
      (
        key_id,
        key,
        accepted.held,
        lookup-IsStrong (parse_remote lib m raw before).1.keys key_id key trusted.0 accepted.held,
        subst (λ age. m.now - (parse_remote lib m raw before).1.fetched_at ≤ age) trusted.1
            accepted.recent,
        accepted.verified,
      )
