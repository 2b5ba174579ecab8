-- ===== src/Token/Tests/Keys.antt =====
-- Runs of the key sets of token/access.go with one key, and the theorems on them.
use orbit_auth.Prelude.{
  ◌+◌, ◌^◌, ◌≡◌, refl, String, [], ◌∷◌, arith, lookup, All, length, ◌≤◌, insert,
}
use orbit_auth.Prelude.GoText.{trim_space}
use orbit_auth.Prelude.Sorting.{IsDistinct}
use orbit_auth.Prelude.Results.{ok}
use orbit_auth.Token.Base64.{decode}
use orbit_auth.Token.BigEndian.{of_bytes, bytes_from}
use orbit_auth.Token.Keys.{PublicKey, KeySet, Jwk, document, key_set, ids, is_small_or_even}
use orbit_auth.Token.Keys.RoundTrip.{IsPublishable, key_set-document}
use orbit_auth.Token.Keys.Bounds.{IsEntry, key_set-IsEntry}

abbrev pub key : PublicKey
key = record { modulus = 2 ^ 2047 + 1; exponent = 65537 }

abbrev pub keys : KeySet
keys = ("k1", key) ∷ []

keys-IsPublishable : IsPublishable keys
unfolding ids is_small_or_even trim_space
keys-IsPublishable = record {
  distinct = (refl, tt);
  sound = ((refl, refl, omega arith), tt);
  some_key = omega arith;
  few_keys = omega arith;
}

key_set-document_example :
    (read : KeySet) × (key_set (document keys) ≡ ok read)
    × ((q : String) → lookup q read ≡ lookup q keys)
key_set-document_example = key_set-document keys keys-IsPublishable

-- The same key as a service publishes it.
abbrev pub jwk_1 : Jwk
jwk_1 = record {
  key_type = "RSA";
  use_for = "sig";
  alg = "RS256";
  key_id = "k1";
  modulus =
      "gAAAAAAAAAAAAAAAAAAAAAAAAAAAAAAAAAAAAAAAAAAAAAAAAAAAAAAAAAAAAAAAAAAAAAAAAAAAAAAAAAAAAAAAAAAAAAAAAAAAAAAAAAAAAAAAAAAAAAAAAAAAAAAAAAAAAAAAAAAAAAAAAAAAAAAAAAAAAAAAAAAAAAAAAAAAAAAAAAAAAAAAAAAAAAAAAAAAAAAAAAAAAAAAAAAAAAAAAAAAAAAAAAAAAAAAAAAAAAAAAAAAAAAAAAAAAAAAAAAAAAAAAAAAAAAAAAAAAAAAAAAAAAAAAAAAAAAAAAAAAAAAAAAAAAAAAAAAAAAAAAAAAAAAAAAAAAAAAAAAAQ";
  exponent = "AQAB";
}

reads_jwk : key_set (jwk_1 ∷ []) ≡ ok keys
unfolding key_set decode of_bytes bytes_from trim_space is_small_or_even lookup insert
reads_jwk = refl

key_set-IsEntry_example :
    IsDistinct (ids keys)
    × All IsEntry keys
    × (length keys ≡ 1)
    × (1 ≤ length keys)
    × (length keys ≤ 100)
key_set-IsEntry_example = key_set-IsEntry (jwk_1 ∷ []) keys reads_jwk
