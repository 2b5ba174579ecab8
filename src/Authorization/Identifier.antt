-- ===== src/Authorization/Identifier.antt =====
-- authorization/policy.go: `identifierPattern` and `validateIdentifier`; and the package's errors.
use Prim.Native.Char.{code}
use Prim.Native.String.{[], ◌∷◌}
use orbit_auth.Prelude.{
  ℕ, String, ◌≡◌, Bool, true, false, not, ◌&&◌, ◌||◌, arith, ◌==◌, eq_refl, leb, if◌then◌else◌,
  Bool-cases, inl, inr,
}
use orbit_auth.Prelude.GoText.{is_space, trim_space, trim_space_of_NoSpaces, NoSpaces}
use orbit_auth.Prelude.Results.{Result, ok, err}

pub data Kind : Type 0 where
  role permission : Kind

-- The errors of the package, a constructor for each message.
pub data AuthzError : Type 0 where
  empty_policy : AuthzError
  invalid_identifier : Kind → String → AuthzError
  role_without_permission : String → AuthzError
  duplicate_permission : String → AuthzError
  catalog_required : AuthzError
  duplicate_role : String → AuthzError
  unknown_permission : String → String → AuthzError
  list_roles list_assignments : AuthzError

is_lower : ℕ → Bool
is_lower c = leb b'a' c && leb c b'z'

is_tail : ℕ → Bool
unfolding is_lower
is_tail c =
    is_lower c
    || (leb b'0' c && leb c b'9')
    || (leb b'_' c && leb c b'_')
    || (leb b'.' c && leb c b'.')
    || (leb b'-' c && leb c b'-')

matches_tail : String → Bool
unfolding is_tail
matches_tail [] = true
matches_tail (c ∷ s) = is_tail (code c) && matches_tail s

-- ^[a-z][a-z0-9_.-]*$
unfoldable pub identifier_pattern : String → Bool
unfolding matches_tail
identifier_pattern [] = false
identifier_pattern (c ∷ s) = is_lower (code c) && matches_tail s

unfoldable pub validate_identifier : Kind → String → Result AuthzError (Unit {0})
validate_identifier kind value =
    if not (value == trim_space value) || not (identifier_pattern value)
    then err (invalid_identifier kind value)
    else ok tt

is_tail_no_space : (c : ℕ) → is_tail c ≡ true → is_space c ≡ false
unfolding is_tail
is_tail_no_space c h = ground arith

matches_tail-NoSpaces : (s : String) → matches_tail s ≡ true → NoSpaces s
unfolding matches_tail
matches_tail-NoSpaces [] h = tt
matches_tail-NoSpaces (c ∷ s) h =
    (is_tail_no_space (code c) (ground arith), matches_tail-NoSpaces s (ground arith))

pattern-NoSpaces : (s : String) → identifier_pattern s ≡ true → NoSpaces s
unfolding identifier_pattern
pattern-NoSpaces [] h = tt
pattern-NoSpaces (c ∷ s) h =
    (is_tail_no_space (code c) (ground arith), matches_tail-NoSpaces s (ground arith))

-- The comparison with the trimmed text is redundant: the pattern alone decides.
pub validate_identifier-eq :
    (kind : Kind) (value : String)
    → validate_identifier kind value
      ≡ (if identifier_pattern value then ok tt else err (invalid_identifier kind value))
unfolding validate_identifier
validate_identifier-eq kind value = elim (Bool-cases (identifier_pattern value)) [
  | inl fits ↦ rw (fits, trim_space_of_NoSpaces value (pattern-NoSpaces value fits), eq_refl value)
  | inr other ↦ rw other (ground (arith, Bool-cases (value == trim_space value)))
]
