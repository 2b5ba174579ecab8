-- ===== src/Token/Keys/Bounds.antt =====
-- What `KeySet` of token/access.go accepts.
use orbit_auth.Prelude.{
  ℕ, suc, ◌+◌, ◌<◌, ◌≤◌, ◌%◌, ◌^◌, String, false, ◌==◌, eq_iff, ◌≡◌, refl, none, List, [], ◌∷◌, All,
  length, arith, contains, lookup, insert, inl, inr, Option-cases,
}
use orbit_auth.Prelude.GoText.{trim_space}
use orbit_auth.Prelude.Sorting.{IsDistinct}
use orbit_auth.Prelude.Results.{ok, Result-cases}
use orbit_auth.Token.Base64.{decode-IsByte}
use orbit_auth.Token.BigEndian.{of_bytes, of_bytes-lt}
use orbit_auth.Token.Keys.{
  PublicKey, Jwk, TokenError, KeySet, bad_exponent, bad_modulus, ids, is_small_or_even, decode_or,
  is_unsupported, read_jwk, add_jwks, key_set, is_there,
}

-- A key that may verify a token: 2048 bits at least, an odd exponent that fits 32 bits.
abbrev pub IsStrong : PublicKey → Type 0
IsStrong key =
    (2 ^ 2047 ≤ key.modulus) × (3 ≤ key.exponent) × (key.exponent < 2 ^ 32) × (key.exponent % 2 ≡ 1)

abbrev pub IsEntry : String × PublicKey → Type 0
IsEntry entry = ((trim_space entry.0 == "") ≡ false) × IsStrong entry.1

IsStrong_lem :
    (key : PublicKey) → is_small_or_even key ≡ false → key.exponent < 2 ^ 32 → IsStrong key
unfolding is_small_or_even
IsStrong_lem key odd small = (ground arith, ground arith, small, ground arith)

decode_or-ok :
    (e : TokenError) (text : String) (bytes : List ℕ)
    → decode_or e text ≡ ok bytes
    → All (λ b. b < 256) bytes
unfolding decode_or
decode_or-ok e text bytes h = decode-IsByte text bytes (ground arith)

-- What a read entry gives.
abbrev IsRead : Jwk → PublicKey → List ℕ → Type 0
IsRead j key exponent =
    (is_unsupported j ≡ false)
    × (decode_or bad_exponent j.exponent ≡ ok exponent)
    × (length exponent ≤ 4)
    × (of_bytes exponent ≡ key.exponent)
    × (is_small_or_even key ≡ false)

read_jwk-IsRead :
    (j : Jwk) (key : PublicKey) → read_jwk j ≡ ok key → (exponent : List ℕ) × IsRead j key exponent
unfolding read_jwk
read_jwk-IsRead j key h = elim (Result-cases (decode_or bad_modulus j.modulus)) [
  | inr (e, m) ↦ absurd (ground arith)
  | inl (modulus, m) ↦ elim (Result-cases (decode_or bad_exponent j.exponent)) [
    | inr (e, x) ↦ absurd (ground arith)
    | inl (exponent, x) ↦ (exponent, ground arith)
  ]
]

read_jwk-IsEntry : (j : Jwk) (key : PublicKey) → read_jwk j ≡ ok key → IsEntry (j.key_id, key)
unfolding is_unsupported
read_jwk-IsEntry j key h =
    let (exponent, (supported, x, size, value, odd)) = read_jwk-IsRead j key h in
    (
      ground arith,
      IsStrong_lem key odd (
          rw (← value)
            (of_bytes-lt exponent (decode_or-ok bad_exponent j.exponent exponent x) size)),
    )

contains-ids : (q : String) (keys : KeySet) → lookup q keys ≡ none → contains q (ids keys) ≡ false
unfolding ids lookup
contains-ids q [] h = refl
contains-ids q (entry ∷ keys) h = ground (arith, contains-ids q keys)

-- The facts of a set of keys that the loop keeps.
abbrev IsBuilt : ℕ → KeySet → Type 0
IsBuilt n keys = IsDistinct (ids keys) × All IsEntry keys × (length keys ≡ n)

contains-insert :
    (q key_id : String) (key : PublicKey) (keys : KeySet)
    → contains q (ids keys) ≡ false
    → (key_id == q) ≡ false
    → contains q (ids (insert key_id key keys)) ≡ false
unfolding ids insert
contains-insert q key_id key [] h e = ground arith
contains-insert q key_id key (entry ∷ keys) h e = ground (arith, contains-insert q key_id key keys)

insert-IsBuilt :
    (key_id : String) (key : PublicKey) (n : ℕ) (keys : KeySet)
    → IsEntry (key_id, key)
    → lookup key_id keys ≡ none
    → IsBuilt n keys
    → IsBuilt (suc n) (insert key_id key keys)
unfolding ids insert lookup
insert-IsBuilt key_id key n [] strong fresh h = ((refl, tt), (strong, tt), ground arith)
insert-IsBuilt key_id key n (entry ∷ keys) strong fresh (distinct, entries, size) =
    let other : (entry.0 == key_id) ≡ false = ground arith in
    let (distinct_rest, entries_rest, size_rest) =
      insert-IsBuilt key_id key (length keys) keys strong (ground arith)
        (distinct.1, entries.1, refl) in
    rw other (
      (
        contains-insert entry.0 key_id key keys distinct.0
            (ground (arith, eq_iff entry.0 key_id, eq_iff key_id entry.0)),
        distinct_rest,
      ),
      (entries.0, entries_rest),
      ground arith,
    )

add_jwks-IsBuilt :
    (l : List Jwk) (n : ℕ) (before after : KeySet)
    → add_jwks l before ≡ ok after
    → IsBuilt n before
    → IsBuilt (length l + n) after
unfolding add_jwks is_there
add_jwks-IsBuilt [] n before after e h = ground arith
add_jwks-IsBuilt (j ∷ l) n before after e h = elim (Result-cases (read_jwk j)) [
  | inr (wrong, f) ↦ absurd (ground arith)
  | inl (key, f) ↦ elim (Option-cases (lookup j.key_id before)) [
    | inr (other, g) ↦ absurd (ground arith)
    | inl fresh ↦
        let rest =
          add_jwks-IsBuilt l (suc n) (insert j.key_id key before) after (ground arith)
            (insert-IsBuilt j.key_id key n before (read_jwk-IsEntry j key f) fresh h) in
        (rest.0, rest.1, ground arith)
  ]
]

-- A key set that KeySet gives has 1 to 100 keys, one for each entry of the document, under distinct
-- identifiers that are not blank; each key has 2048 bits at least and an odd exponent from 3 to
-- below 2^32.
pub key_set-IsEntry :
    (l : List Jwk) (keys : KeySet)
    → key_set l ≡ ok keys
    → IsDistinct (ids keys)
      × All IsEntry keys
      × (length keys ≡ length l)
      × (1 ≤ length keys)
      × (length keys ≤ 100)
unfolding key_set ids
key_set-IsEntry l keys h =
    let (distinct, entries, size) = add_jwks-IsBuilt l 0 [] keys (ground arith) (tt, tt, refl) in
    (distinct, entries, omega arith, ground arith, ground arith)
