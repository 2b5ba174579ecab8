-- ===== src/Token/Keys.antt =====
-- token/access.go: public keys, their JWKS document and back.
pub mod RoundTrip
pub mod Bounds
use orbit_auth.Prelude.{
  ℕ, ◌+◌, ◌*◌, ◌%◌, ◌^◌, String, Bool, true, false, not, ◌&&◌, ◌||◌, Option, none, some, List, [],
  ◌∷◌, ◌==◌, length, lookup, insert, GoMap, eqb, leb, ltb, if◌then◌else◌,
}
use orbit_auth.Prelude.GoText.{trim_space}
use orbit_auth.Prelude.Sorting.{sort_strings}
use orbit_auth.Prelude.Results.{Result, ok, err, ◌>>=◌, ◌>>◌, refuse_if}
use orbit_auth.Token.Base64.{encode, decode}
use orbit_auth.Token.BigEndian.{to_bytes, of_bytes, bytes_from}

pub record PublicKey : Type 0 where
  pub modulus : ℕ
  pub exponent : ℕ

pub record Jwk : Type 0 where
  pub key_type : String
  pub use_for : String
  pub alg : String
  pub key_id : String
  pub modulus : String
  pub exponent : String

-- The errors of the package, a constructor for each message.
pub data TokenError : Type 0 where
  key_count unsupported_key bad_modulus bad_exponent bad_key duplicate_key_id : TokenError
  private_key_required key_id_required subject_required org_not_uuid sign_failed : TokenError
  invalid_token unknown_key_id fetch_failed bad_status bad_document stale_keys : TokenError
  url_required url_not_absolute url_not_https : TokenError

-- A map whose keys are never nil.
abbrev pub KeySet : Type 0
KeySet = GoMap PublicKey

abbrev pub algorithm : String
algorithm = "RS256"

unfoldable pub ids : KeySet → List String
ids [] = []
ids (entry ∷ keys) = entry.0 ∷ ids keys

jwk : String → PublicKey → Jwk
jwk key_id key = record {
  key_type = "RSA";
  use_for = "sig";
  alg = algorithm;
  key_id = key_id;
  modulus = encode (to_bytes key.modulus);
  exponent = encode (to_bytes key.exponent);
}

-- The loop of `Document`; each identifier comes from the map.
document_each : KeySet → List String → List Jwk
unfolding jwk
document_each keys [] = []
document_each keys (key_id ∷ l) = elim (lookup key_id keys) [
  | none ↦ document_each keys l
  | some key ↦ jwk key_id key ∷ document_each keys l
]

unfoldable pub document : KeySet → List Jwk
unfolding ids document_each jwk
document keys = document_each keys (sort_strings (ids keys))

-- `jwk.KeyType != "RSA" || …`
is_unsupported : Jwk → Bool
is_unsupported j =
    not (j.key_type == "RSA")
    || not (j.alg == algorithm)
    || not (j.use_for == "sig")
    || trim_space j.key_id == ""

decode_or : TokenError → String → Result TokenError (List ℕ)
decode_or e text = elim (decode text) [ none ↦ err e | some bytes ↦ ok bytes ]

-- `exponentValue<<8 | int(b)` for at most four bytes is the big-endian number.
unfoldable pub is_small_or_even : PublicKey → Bool
is_small_or_even key = ltb key.modulus (2 ^ 2047) || ltb key.exponent 3 || eqb (key.exponent % 2) 0

-- The body of the loop of `KeySet`, up to the key.
read_jwk : Jwk → Result TokenError PublicKey
unfolding is_unsupported decode_or is_small_or_even
read_jwk j = do
  refuse_if (is_unsupported j) unsupported_key
  modulus ← decode_or bad_modulus j.modulus
  exponent ← decode_or bad_exponent j.exponent
  refuse_if (eqb (length exponent) 0 || ltb 4 (length exponent)) bad_exponent
  let key : PublicKey = record { modulus = of_bytes modulus; exponent = of_bytes exponent }
  refuse_if (is_small_or_even key) bad_key
  ok key

is_there : Option PublicKey → Bool
is_there none = false
is_there (some key) = true

add_jwks : List Jwk → KeySet → Result TokenError KeySet
unfolding read_jwk is_there
add_jwks [] keys = ok keys
add_jwks (j ∷ l) keys = do
  key ← read_jwk j
  refuse_if (is_there (lookup j.key_id keys)) duplicate_key_id
  add_jwks l (insert j.key_id key keys)

-- JWKSet.KeySet
unfoldable pub key_set : List Jwk → Result TokenError KeySet
unfolding add_jwks read_jwk is_there
key_set l = do refuse_if (eqb (length l) 0 || ltb 100 (length l)) key_count; add_jwks l []
