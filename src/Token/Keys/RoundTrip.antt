-- ===== src/Token/Keys/RoundTrip.antt =====
-- `Document` followed by `KeySet` in token/access.go.
use orbit_auth.Prelude.{
  ℕ, ◌<◌, ◌≤◌, ◌^◌, String, true, false, ◌==◌, eq_iff, ◌≡◌, refl, ◌∙◌, ap, sym, subst, suc, none,
  some, List, [], ◌∷◌, All, length, arith, contains, if◌then◌else◌, lookup, insert, lookup-insert,
  inl, inr, String-cases, eq_refl,
}
use orbit_auth.Prelude.GoText.{trim_space}
use orbit_auth.Prelude.Sorting.{
  IsDistinct, sort_strings, contains-sort_strings, sort_strings-IsDistinct, length-sort_strings,
}
use orbit_auth.Prelude.Results.{Result, ok}
use orbit_auth.Token.Base64.{encode, decode-encode}
use orbit_auth.Token.BigEndian.{
  of_bytes, to_bytes, of_bytes-to_bytes, to_bytes-IsByte, length-to_bytes-le, of_bytes-nonempty,
}
use orbit_auth.Token.Keys.{
  PublicKey, Jwk, TokenError, bad_modulus, bad_exponent, KeySet, ids, jwk, document_each, document,
  is_small_or_even, decode_or, is_unsupported, read_jwk, add_jwks, key_set, is_there,
}

-- An identifier and a key that a service may publish.
abbrev pub IsSound : String → PublicKey → Type 0
IsSound key_id key =
    ((trim_space key_id == "") ≡ false) × (is_small_or_even key ≡ false) × (key.exponent < 2 ^ 32)

-- The keys of a Go map are distinct.
pub record IsPublishable (keys : KeySet) : Type 0 where
  pub distinct : IsDistinct (ids keys)
  pub sound : All (λ entry. IsSound entry.0 entry.1) keys
  pub some_key : 1 ≤ length keys
  pub few_keys : length keys ≤ 100

exponent_pos : (key : PublicKey) → is_small_or_even key ≡ false → 0 < key.exponent
unfolding is_small_or_even
exponent_pos key h = ground arith

exponent_length :
    (key : PublicKey)
    → is_small_or_even key ≡ false
    → key.exponent < 2 ^ 32
    → (0 < length (to_bytes key.exponent)) × (length (to_bytes key.exponent) ≤ 4)
exponent_length key sound small = (
  of_bytes-nonempty (to_bytes key.exponent)
      (rw (of_bytes-to_bytes key.exponent) (exponent_pos key sound)),
  length-to_bytes-le key.exponent small,
)

decode_or-encode : (e : TokenError) (n : ℕ) → decode_or e (encode (to_bytes n)) ≡ ok (to_bytes n)
unfolding decode_or
decode_or-encode e n = rw (decode-encode (to_bytes n) (to_bytes-IsByte n), decode_or) refl

-- What the reading of an entry asks of it.
read_jwk_of :
    (j : Jwk) (modulus exponent : List ℕ) (key : PublicKey)
    → is_unsupported j ≡ false
    → decode_or bad_modulus j.modulus ≡ ok modulus
    → decode_or bad_exponent j.exponent ≡ ok exponent
    → (0 < length exponent) × (length exponent ≤ 4)
    → of_bytes modulus ≡ key.modulus
    → of_bytes exponent ≡ key.exponent
    → is_small_or_even key ≡ false
    → read_jwk j ≡ ok key
unfolding read_jwk
read_jwk_of j modulus exponent key supported m e size m_value e_value sound =
    rw supported (rw m (rw e (rw m_value (rw e_value (rw sound (ground arith))))))

is_unsupported-jwk :
    (key_id : String) (key : PublicKey)
    → (trim_space key_id == "") ≡ false
    → is_unsupported (jwk key_id key) ≡ false
unfolding is_unsupported jwk
is_unsupported-jwk key_id key named = ground arith

read_jwk-jwk :
    (key_id : String) (key : PublicKey) → IsSound key_id key → read_jwk (jwk key_id key) ≡ ok key
unfolding jwk
read_jwk-jwk key_id key (named, odd, small) =
    read_jwk_of (jwk key_id key) (to_bytes key.modulus) (to_bytes key.exponent) key
      (is_unsupported-jwk key_id key named) (decode_or-encode bad_modulus key.modulus)
      (decode_or-encode bad_exponent key.exponent) (exponent_length key odd small)
      (of_bytes-to_bytes key.modulus) (of_bytes-to_bytes key.exponent) odd

key_id-jwk : (key_id : String) (key : PublicKey) → (jwk key_id key).key_id ≡ key_id
unfolding jwk
key_id-jwk key_id key = refl

module _ (keys : KeySet) where
  -- The key of an identifier in the set, which may be published.
  abbrev Published : String → Type 0
  Published key_id = (key : PublicKey) × (lookup key_id keys ≡ some key) × IsSound key_id key

  -- What a loop over the identifiers `l` leaves in the keys `before`.
  abbrev IsMerged : List String → KeySet → Result TokenError KeySet → Type 0
  IsMerged l before r =
      (after : KeySet) × (r ≡ ok after)
      × ((q : String) → lookup q after ≡ (if contains q l then lookup q keys else lookup q before))

  fresh-insert :
      (key_id : String) (key : PublicKey) (l : List String) (before : KeySet)
      → contains key_id l ≡ false
      → All (λ q. lookup q before ≡ none) l
      → All (λ q. lookup q (insert key_id key before) ≡ none) l
  fresh-insert key_id key [] before new h = tt
  fresh-insert key_id key (q ∷ l) before new h = (
    ground (arith, lookup-insert key_id q key before, eq_iff key_id q, eq_iff q key_id),
    fresh-insert key_id key l before (ground arith) h.1,
  )

  add_jwks_first :
      (key_id : String) (key : PublicKey) (l : List String) (before after : KeySet)
      → lookup key_id keys ≡ some key
      → IsSound key_id key
      → lookup key_id before ≡ none
      → add_jwks (document_each keys l) (insert key_id key before) ≡ ok after
      → add_jwks (document_each keys (key_id ∷ l)) before ≡ ok after
  unfolding add_jwks document_each is_there
  add_jwks_first key_id key l before after found sound fresh e =
      rw (found, document_each)
        (rw (read_jwk-jwk key_id key sound, add_jwks) (rw (key_id-jwk key_id key) (rw fresh e)))

  add_jwks-document_each :
      (l : List String) (before : KeySet)
      → IsDistinct l
      → All Published l
      → All (λ q. lookup q before ≡ none) l
      → IsMerged l before (add_jwks (document_each keys l) before)
  unfolding add_jwks document_each
  add_jwks-document_each [] before distinct published fresh = (before, refl, λ q. refl)
  add_jwks-document_each (key_id ∷ l) before distinct ((key, found, sound), published) fresh =
      let (after, e, h) =
        add_jwks-document_each l (insert key_id key before) distinct.1 published
          (fresh-insert key_id key l before distinct.0 fresh.1) in
      (
        after,
        add_jwks_first key_id key l before after found sound fresh.0 e,
        λ q. h q ∙ ground (arith, lookup-insert key_id q key before, eq_iff key_id q),
      )

  length-document_each :
      (l : List String) → All Published l → length (document_each keys l) ≡ length l
  unfolding document_each
  length-document_each [] h = refl
  length-document_each (key_id ∷ l) ((key, found, sound), h) =
      rw (found, document_each) (ap suc (length-document_each l h))

Published-contains :
    (keys : KeySet)
    → All (λ entry. IsSound entry.0 entry.1) keys
    → (q : String) → contains q (ids keys) ≡ true
    → Published keys q
unfolding ids lookup
Published-contains [] h q e = absurd (ground arith)
Published-contains (entry ∷ keys) (sound, h) q e = elim (String-cases entry.0 q) [
  | inl same ↦
      (entry.1, ground (arith, eq_iff entry.0 q), subst (λ s. IsSound s entry.1) same sound)
  | inr other ↦
      let (key, found, s) = Published-contains keys h q (ground (arith, eq_iff entry.0 q)) in
      (key, ground (arith, eq_iff entry.0 q), s)
]

unlisted : (keys : KeySet) (q : String) → contains q (ids keys) ≡ false → lookup q keys ≡ none
unfolding ids lookup
unlisted [] q e = refl
unlisted (entry ∷ keys) q e = ground (arith, unlisted keys q)

length-ids : (keys : KeySet) → length (ids keys) ≡ length keys
unfolding ids
length-ids [] = refl
length-ids (entry ∷ keys) = ap suc (length-ids keys)

All-contains :
    (P : String → Type 0) (l : List String) → ((q : String) → contains q l ≡ true → P q) → All P l
All-contains P [] f = tt
All-contains P (s ∷ l) f =
    (f s (ground (arith, eq_refl s)), All-contains P l (λ q e. f q (ground arith)))

sort_strings-Published :
    (keys : KeySet) → IsPublishable keys → All (Published keys) (sort_strings (ids keys))
sort_strings-Published keys h =
    All-contains (Published keys) (sort_strings (ids keys))
      (λ q e. Published-contains keys h.sound q (sym (contains-sort_strings q (ids keys)) ∙ e))

document_count : (keys : KeySet) → IsPublishable keys → length (document keys) ≡ length keys
unfolding document
document_count keys h =
    length-document_each keys (sort_strings (ids keys)) (sort_strings-Published keys h)
    ∙ length-sort_strings (ids keys)
    ∙ length-ids keys

document-IsMerged :
    (keys : KeySet)
    → IsPublishable keys
    → IsMerged keys (sort_strings (ids keys)) [] (add_jwks (document keys) [])
unfolding document lookup
document-IsMerged keys h =
    add_jwks-document_each keys (sort_strings (ids keys)) []
      (sort_strings-IsDistinct (ids keys) h.distinct) (sort_strings-Published keys h)
      (All-contains (λ q. none ≡ none) (sort_strings (ids keys)) (λ q e. refl))

-- For a key set with 1 to 100 distinct identifiers that are not blank, whose keys have 2048 bits at
-- least and an odd exponent from 3 to below 2^32, KeySet accepts the document that Document makes,
-- and the set that it gives has the same key under each identifier.
pub key_set-document :
    (keys : KeySet)
    → IsPublishable keys
    → (read : KeySet) × (key_set (document keys) ≡ ok read)
      × ((q : String) → lookup q read ≡ lookup q keys)
unfolding key_set lookup
key_set-document keys h =
    let (read, e, agrees) = document-IsMerged keys h in
    (
      read,
      ground (arith, e, document_count keys h, h.some_key, h.few_keys),
      λ q. agrees q ∙ ground (arith, contains-sort_strings q (ids keys), unlisted keys q),
    )
