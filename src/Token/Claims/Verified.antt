-- ===== src/Token/Claims/Verified.antt =====
-- What an accepted access token rests on, token/access.go.
use orbit_auth.Prelude.{
  String, Bool, true, false, ◌≡◌, Option, none, some, ◌==◌, lookup, arith, Option-cases, inl, inr,
}
use orbit_auth.Prelude.GoText.{trim_space}
use orbit_auth.Prelude.Results.{ok, Result-cases}
use orbit_auth.Domain.{Time}
use orbit_auth.Token.Keys.{PublicKey, KeySet}
use orbit_auth.Token.Claims.{
  AccessClaims, Library, token_key_id, key_function, known_key, valid_claims, parse_access_token,
}

module _ (lib : Library) where
  -- The token names the key, and the library accepts the token under that key.
  pub record IsVerified (now : Time) (raw : String) (key : PublicKey) (key_id : String)
      (claims : AccessClaims) : Type 0 where
    pub named : token_key_id lib raw ≡ ok key_id
    pub accepted : lib.parse_with_claims now raw (key_function lib key) ≡ some (claims, true)
    pub subject : (trim_space claims.subject == "") ≡ false

  valid_claims-ok :
      (o : Option (AccessClaims × Bool)) (claims : AccessClaims)
      → valid_claims lib o ≡ ok claims
      → o ≡ some (claims, true)
  unfolding valid_claims
  valid_claims-ok none claims h = absurd (ground arith)
  valid_claims-ok (some (got, true)) claims h = ground arith
  valid_claims-ok (some (got, false)) claims h = absurd (ground arith)

  -- An accepted token names a key of the set, and its verified claims are those returned.
  pub parse_access_token-IsVerified :
      (now : Time) (raw : String) (keys : KeySet) (claims : AccessClaims)
      → parse_access_token lib now raw keys ≡ ok claims
      → (key_id : String) × (key : PublicKey) × (lookup key_id keys ≡ some key)
        × IsVerified now raw key key_id claims
  unfolding parse_access_token known_key
  parse_access_token-IsVerified now raw keys claims h = elim (Result-cases (token_key_id lib raw)) [
    | inr (e, f) ↦ absurd (ground arith)
    | inl (key_id, f) ↦ elim (Option-cases (lookup key_id keys)) [
      | inl g ↦ absurd (ground arith)
      | inr (key, g) ↦
          elim (Result-cases
            (valid_claims lib (lib.parse_with_claims now raw (key_function lib key)))) [
              | inr (e, a) ↦ absurd (ground arith)
              | inl (got, a) ↦ (
                key_id,
                key,
                g,
                record {
                  named = f;
                  accepted =
                      valid_claims-ok (lib.parse_with_claims now raw (key_function lib key)) claims
                        (ground arith);
                  subject = ground arith;
                },
              )
            ]
    ]
  ]
