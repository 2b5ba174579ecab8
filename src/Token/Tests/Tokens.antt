-- ===== src/Token/Tests/Tokens.antt =====
-- Runs of signing, parsing and the remote verifier of token/access.go with one token, and the
-- theorems on them.
use orbit_auth.Prelude.{
  ◌*◌, ◌/◌, ◌≡◌, ◌≤◌, ◌<◌, ◌≢◌, sym, subst, refl, String, Bool, true, ◌&&◌, none, some, ◌==◌,
  eq_iff, arith, lookup, leb, ltb, eqb, if◌then◌else◌,
}
use orbit_auth.Prelude.GoText.{trim_space}
use orbit_auth.Prelude.Results.{Result, ok, err}
use orbit_auth.Domain.{Time, second}
use orbit_auth.Token.Keys.{PublicKey, TokenError}
use orbit_auth.Token.Claims.{
  AccessClaims, Library, parse_access_token, sign_access_token_with_org, organization_id,
  key_function,
}
use orbit_auth.Token.Claims.RoundTrip.{IsStandard, parse_access_token-sign}
use orbit_auth.Token.Claims.Verified.{IsVerified, parse_access_token-IsVerified}
use orbit_auth.Token.Tests.Keys.{key, keys}

abbrev pub claims_1 : AccessClaims
claims_1 = record {
  issuer = "orbit-auth";
  subject = "ann";
  expires_at = 100 * second;
  issued_at = 10 * second;
  org_id = "u";
}

abbrev is_claims_1 : AccessClaims → Bool
is_claims_1 c =
    c.issuer == "orbit-auth"
    && c.subject == "ann"
    && eqb c.expires_at (100 * second)
    && eqb c.issued_at (10 * second)
    && c.org_id == "u"

is_claims_1-eq : (c : AccessClaims) → is_claims_1 c ≡ true → c ≡ claims_1
is_claims_1-eq c h =
    ground (arith, eq_iff c.issuer "orbit-auth", eq_iff c.subject "ann", eq_iff c.org_id "u")

-- One token can be made: of the claims above, under the identifier k1.
abbrev pub lib_ok : Library
lib_ok = record {
  PrivateKey = Unit;
  parse_unverified =
      λ raw. if raw == "t" then some (some (record { key_id = some "k1" })) else none;
  parse_with_claims = λ now raw find.
      if raw == "t" && leb (10 * second) now && ltb now (100 * second)
      then elim (find "RS256") [ err e ↦ none | ok k ↦ some (claims_1, true) ]
      else none;
  signed_string = λ k key_id c. if key_id == "k1" && is_claims_1 c then some "t" else none;
  numeric_date = λ t. t / second * second;
  parse_uuid = λ text. if text == "u" then some "u" else none;
}

token_accepted :
    (raw : String) (now : Time) (find : String → Result TokenError PublicKey)
    → raw ≡ "t"
    → find "RS256" ≡ ok key
    → 10 * second ≤ now
    → now < 100 * second
    → lib_ok.parse_with_claims now raw find ≡ some (claims_1, true)
token_accepted raw now find e found begun running = rw e (rw found (ground (arith, eq_iff "t" "t")))

is_u : (text id : String) → lib_ok.parse_uuid text ≡ some id → "u" ≡ id
is_u text id h = ground arith

abbrev IsCanonical : String → Type 0
IsCanonical id = (trim_space id ≡ id) × (id ≢ "") × (lib_ok.parse_uuid id ≡ some id)

u-IsCanonical : IsCanonical "u"
unfolding trim_space
u-IsCanonical = (refl, λ e. ground (arith, eq_iff "u" ""), refl)

is_signed :
    (key_id : String) (c : AccessClaims) (raw : String)
    → lib_ok.signed_string tt key_id c ≡ some raw
    → (c ≡ claims_1) × (key_id ≡ "k1") × (raw ≡ "t")
is_signed key_id c raw h =
    (is_claims_1-eq c (ground arith), ground (arith, eq_iff key_id "k1"), ground arith)

pub lib_ok-IsStandard : IsStandard lib_ok (λ k. key)
lib_ok-IsStandard = record {
  header_kept = λ k key_id c raw h. ground (arith, eq_iff key_id "k1", eq_iff raw "t");
  claims_kept = λ k key_id c raw now find h found issuer begun running.
      let (same, named, e) = is_signed key_id c raw h in
      subst (λ x. lib_ok.parse_with_claims now raw find ≡ some (x, true)) (sym same)
        (token_accepted raw now find e found (subst (λ x. x.issued_at ≤ now) same begun)
          (subst (λ x. now < x.expires_at) same running));
  uuid_canonical = λ text id h. subst IsCanonical (is_u text id h) u-IsCanonical;
}

pub signs :
    sign_access_token_with_org lib_ok (10 * second) (some tt) " k1" "ann " "u" (100 * second)
    ≡ ok "t"
unfolding sign_access_token_with_org trim_space
signs = refl

parse_access_token-sign_example :
    (claims : AccessClaims) × (parse_access_token lib_ok (50 * second) "t" keys ≡ ok claims)
    × (claims.subject ≡ "ann")
    × (claims.expires_at ≡ 100 * second)
    × (organization_id lib_ok claims ≡ some "u")
unfolding trim_space lookup
parse_access_token-sign_example =
    parse_access_token-sign lib_ok (λ k. key) lib_ok-IsStandard (10 * second) (50 * second) tt " k1"
      "ann " "u" (100 * second) "t" keys signs refl (omega arith) (omega arith)

parses : parse_access_token lib_ok (50 * second) "t" keys ≡ ok claims_1
unfolding parse_access_token key_function trim_space lookup
parses = refl

parse_access_token-IsVerified_example :
    (key_id : String) × (k : PublicKey) × (lookup key_id keys ≡ some k)
    × IsVerified lib_ok (50 * second) "t" k key_id claims_1
parse_access_token-IsVerified_example =
    parse_access_token-IsVerified lib_ok (50 * second) "t" keys claims_1 parses
