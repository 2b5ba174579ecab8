-- ===== src/Token/Claims/RoundTrip.antt =====
-- A signed access token is accepted, token/access.go.
use orbit_auth.Prelude.{
  ◌≤◌, ◌<◌, String, true, false, ◌≡◌, ◌≢◌, none, some, ◌==◌, eq_iff, refl, lookup, arith,
  Option-cases, inl, inr, if◌then◌else◌,
}
use orbit_auth.Prelude.GoText.{trim_space, trim_space-trim_space}
use orbit_auth.Prelude.Results.{Result, ok, Result-cases}
use orbit_auth.Domain.{Time}
use orbit_auth.Token.Keys.{PublicKey, KeySet, TokenError}
use orbit_auth.Token.Claims.{
  AccessClaims, Library, issuer_name, token_key_id, key_function, known_key, valid_claims,
  parse_access_token, sign_access_token_with_org, organization_id, canonical_org, signed,
}

module _ (lib : Library) (public_key : lib.PrivateKey → PublicKey) where
  -- What golang-jwt and google/uuid document: the header of a signed token can be read back; the
  -- claims are accepted under the public key of the signer while the token is valid; a UUID is
  -- printed in a form that parses to itself and is not blank.
  pub record IsStandard : Type 0 where
    pub header_kept :
        (key : lib.PrivateKey) (key_id : String) (claims : AccessClaims) (raw : String)
        → lib.signed_string key key_id claims ≡ some raw
        → lib.parse_unverified raw ≡ some (some (record { key_id = some key_id }))
    pub claims_kept :
        (key : lib.PrivateKey) (key_id : String) (claims : AccessClaims) (raw : String) (now : Time)
        (find : String → Result TokenError PublicKey)
        → lib.signed_string key key_id claims ≡ some raw
        → find "RS256" ≡ ok (public_key key)
        → claims.issuer ≡ "orbit-auth"
        → claims.issued_at ≤ now
        → now < claims.expires_at
        → lib.parse_with_claims now raw find ≡ some (claims, true)
    pub uuid_canonical :
        (text id : String)
        → lib.parse_uuid text ≡ some id
        → (trim_space id ≡ id) × (id ≢ "") × (lib.parse_uuid id ≡ some id)

  abbrev new_claims : Time → String → Time → String → AccessClaims
  new_claims signed_at subject expires org = record {
    issuer = issuer_name;
    subject = trim_space subject;
    expires_at = lib.numeric_date expires;
    issued_at = lib.numeric_date signed_at;
    org_id = org;
  }

  -- What a signed token was made of.
  record IsSigned (key : lib.PrivateKey) (key_id org_id raw : String) (claims : AccessClaims)
      : Type 0 where
    named : (trim_space key_id == "") ≡ false
    subject_named : (trim_space claims.subject == "") ≡ false
    org : canonical_org lib (trim_space org_id) ≡ ok claims.org_id
    signature : lib.signed_string key (trim_space key_id) claims ≡ some raw

  sign-IsSigned :
      (signed_at : Time) (key : lib.PrivateKey) (key_id subject org_id : String) (expires : Time)
      (raw : String)
      → sign_access_token_with_org lib signed_at (some key) key_id subject org_id expires ≡ ok raw
      → (org : String) × IsSigned key key_id org_id raw (new_claims signed_at subject expires org)
  unfolding sign_access_token_with_org signed
  sign-IsSigned signed_at key key_id subject org_id expires raw h =
      elim (Result-cases (canonical_org lib (trim_space org_id))) [
        | inr (e, f) ↦ absurd (ground arith)
        | inl (org, f) ↦ (
          org,
          record {
            named = ground arith;
            subject_named = rw (trim_space-trim_space subject) (ground arith);
            org = f;
            signature = ground arith;
          },
        )
      ]

  token_key_id-header :
      (raw key_id : String)
      → lib.parse_unverified raw ≡ some (some (record { key_id = some key_id }))
      → (trim_space key_id == "") ≡ false
      → token_key_id lib raw ≡ ok key_id
  unfolding token_key_id
  token_key_id-header raw key_id h named = rw h (rw named refl)

  parse_access_token_of :
      (now : Time) (raw key_id : String) (keys : KeySet) (key : PublicKey) (claims : AccessClaims)
      → token_key_id lib raw ≡ ok key_id
      → lookup key_id keys ≡ some key
      → lib.parse_with_claims now raw (key_function lib key) ≡ some (claims, true)
      → (trim_space claims.subject == "") ≡ false
      → parse_access_token lib now raw keys ≡ ok claims
  unfolding parse_access_token known_key valid_claims
  parse_access_token_of now raw key_id keys key claims named found accepted subject =
      rw named (rw found (rw accepted (rw subject refl)))

  organization_id_of :
      (standard : IsStandard) (org_id : String) (claims : AccessClaims)
      → canonical_org lib (trim_space org_id) ≡ ok claims.org_id
      → organization_id lib claims
        ≡ (if trim_space org_id == "" then none else lib.parse_uuid (trim_space org_id))
  unfolding canonical_org organization_id
  organization_id_of standard org_id claims h =
      elim (Option-cases (lib.parse_uuid (trim_space org_id))) [
        | inl f ↦ ground (arith, trim_space-trim_space org_id, eq_iff (trim_space org_id) "")
        | inr (id, f) ↦ ground (
          arith,
          standard.uuid_canonical (trim_space org_id) id f,
          trim_space-trim_space org_id,
          eq_iff (trim_space org_id) "",
          eq_iff id "",
        )
      ]

  key_function_ours : (key : PublicKey) → key_function lib key "RS256" ≡ ok key
  unfolding key_function
  key_function_ours key = refl

  -- With a JWT and a UUID library that work as documented, a token that SignAccessTokenWithOrg
  -- signs with a private key is accepted by ParseAccessToken from the second of its making to
  -- before its expiry, with any key set that has the signer's public key under the trimmed key
  -- identifier; the claims have the trimmed subject, the expiry, and as organization the UUID of
  -- the trimmed text, none when it is blank.
  pub parse_access_token-sign :
      (standard : IsStandard) (signed_at now : Time) (key : lib.PrivateKey)
      (key_id subject org_id : String) (expires : Time) (raw : String) (keys : KeySet)
      → sign_access_token_with_org lib signed_at (some key) key_id subject org_id expires ≡ ok raw
      → lookup (trim_space key_id) keys ≡ some (public_key key)
      → lib.numeric_date signed_at ≤ now
      → now < lib.numeric_date expires
      → (claims : AccessClaims) × (parse_access_token lib now raw keys ≡ ok claims)
        × (claims.subject ≡ trim_space subject)
        × (claims.expires_at ≡ lib.numeric_date expires)
        × (organization_id lib claims
            ≡ (if trim_space org_id == "" then none else lib.parse_uuid (trim_space org_id)))
  parse_access_token-sign standard signed_at now key key_id subject org_id expires raw keys h found
        begun running =
      let (org, made) = sign-IsSigned signed_at key key_id subject org_id expires raw h in
      let claims = new_claims signed_at subject expires org in
      (
        claims,
        parse_access_token_of now raw (trim_space key_id) keys (public_key key) claims
            (token_key_id-header raw (trim_space key_id)
              (standard.header_kept key (trim_space key_id) claims raw made.signature)
              (rw (trim_space-trim_space key_id) made.named))
            found
            (standard.claims_kept key (trim_space key_id) claims raw now
              (key_function lib (public_key key)) made.signature
              (key_function_ours (public_key key)) refl begun running)
            made.subject_named,
        refl,
        refl,
        organization_id_of standard org_id claims made.org,
      )
