-- ===== src/Token/Claims.antt =====
-- token/access.go: signing an access token and verifying one against a key set.
pub mod RoundTrip
pub mod Verified
use orbit_auth.Prelude.{
  ℕ, String, Bool, true, false, not, Option, none, some, ◌==◌, lookup, if◌then◌else◌, List, [], ◌∷◌,
}
use orbit_auth.Prelude.GoText.{trim_space}
use orbit_auth.Prelude.Results.{Result, ok, err, ◌>>=◌, ◌>>◌, refuse_if}
use orbit_auth.Domain.{Time}
use orbit_auth.Token.Keys.{
  PublicKey, KeySet, algorithm, TokenError, org_not_uuid, private_key_required, sign_failed,
  key_id_required, subject_required, invalid_token, unknown_key_id,
}

abbrev pub issuer_name : String
issuer_name = "orbit-auth"

-- The two dates are `jwt.NumericDate`, whole seconds.
pub record AccessClaims : Type 0 where
  pub issuer : String
  pub subject : String
  pub expires_at : Time
  pub issued_at : Time
  pub org_id : String

-- `token.Header["kid"].(string)` of a header.
pub record Header : Type 0 where
  pub key_id : Option String

-- github.com/golang-jwt/jwt and github.com/google/uuid, as far as the package calls them. The
-- options of `ParseWithClaims` are always the same, so `parse_with_claims` has none: the method must
-- be RS256, the expiry must be there, `iat` is looked at and the issuer is ours. The key function
-- takes the token's signing method. A result says besides the claims whether the token is there and
-- valid.
pub record Library : Type 1 where
  pub PrivateKey : Type 0
  pub parse_unverified : String → Option (Option Header)
  pub parse_with_claims :
      Time → String → (String → Result TokenError PublicKey) → Option (AccessClaims × Bool)
  pub signed_string : PrivateKey → String → AccessClaims → Option String
  pub numeric_date : Time → Time
  pub parse_uuid : String → Option String

module _ (lib : Library) where
  -- A claim that is no UUID counts as absent.
  unfoldable pub organization_id : AccessClaims → Option String
  organization_id claims =
      if trim_space claims.org_id == "" then none else lib.parse_uuid (trim_space claims.org_id)

  -- `if orgID != "" { … }`
  canonical_org : String → Result TokenError String
  canonical_org org_id =
      if org_id == ""
      then ok org_id
      else elim (lib.parse_uuid org_id) [ none ↦ err org_not_uuid | some id ↦ ok id ]

  private_key : Option (lib.PrivateKey) → Result TokenError (lib.PrivateKey)
  private_key none = err private_key_required
  private_key (some key) = ok key

  signed : Option String → Result TokenError String
  signed none = err sign_failed
  signed (some raw) = ok raw

  -- SignAccessTokenWithOrg; `now` is the time of the call.
  unfoldable pub sign_access_token_with_org :
      Time → Option (lib.PrivateKey) → String → String → String → Time → Result TokenError String
  unfolding canonical_org private_key signed
  sign_access_token_with_org now key key_id subject org_id expires = do
    k ← private_key key
    refuse_if (trim_space key_id == "") key_id_required
    refuse_if (trim_space subject == "") subject_required
    org ← canonical_org (trim_space org_id)
    let claims : AccessClaims = record {
      issuer = issuer_name;
      subject = trim_space subject;
      expires_at = lib.numeric_date expires;
      issued_at = lib.numeric_date now;
      org_id = org;
    }
    signed (lib.signed_string k (trim_space key_id) claims)

  unfoldable pub sign_access_token :
      Time → Option (lib.PrivateKey) → String → String → Time → Result TokenError String
  unfolding sign_access_token_with_org
  sign_access_token now key key_id subject expires =
      sign_access_token_with_org now key key_id subject "" expires

  found_header : Option (Option Header) → Result TokenError Header
  found_header none = err invalid_token
  found_header (some none) = err invalid_token
  found_header (some (some header)) = ok header

  named_key : Header → Result TokenError String
  named_key header = elim header.key_id [
    | none ↦ err key_id_required
    | some key_id ↦ if trim_space key_id == "" then err key_id_required else ok key_id
  ]

  -- The identifier of the key in the header that nothing has verified yet.
  unfoldable pub token_key_id : String → Result TokenError String
  unfolding found_header named_key
  token_key_id raw = do header ← found_header (lib.parse_unverified raw); named_key header

  known_key : Option PublicKey → Result TokenError PublicKey
  known_key none = err unknown_key_id
  known_key (some key) = ok key

  unfoldable pub key_function : PublicKey → String → Result TokenError PublicKey
  key_function key method = if method == algorithm then ok key else err invalid_token

  valid_claims : Option (AccessClaims × Bool) → Result TokenError AccessClaims
  valid_claims none = err invalid_token
  valid_claims (some (claims, valid)) = if valid then ok claims else err invalid_token

  -- ParseAccessToken; `now` is the time at which the library looks at the claims.
  unfoldable pub parse_access_token : Time → String → KeySet → Result TokenError AccessClaims
  unfolding token_key_id known_key key_function valid_claims found_header named_key
  parse_access_token now raw keys = do
    key_id ← token_key_id raw
    key ← known_key (lookup key_id keys)
    claims ← valid_claims (lib.parse_with_claims now raw (key_function key))
    refuse_if (trim_space claims.subject == "") subject_required
    ok claims
