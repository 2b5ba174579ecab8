-- ===== src/Authorization/Catalog.antt =====
-- authorization/catalog.go: the permission catalog and the validation of roles against it.
pub mod Validation
use orbit_auth.Prelude.{
  String, Bool, true, false, not, Option, none, some, List, [], ◌∷◌, ◌++◌, ◌==◌, lookup, insert,
  if◌then◌else◌, contains, set_insert,
}
use orbit_auth.Prelude.GoText.{string_le}
use orbit_auth.Prelude.Results.{Result, ok, err, ◌>>=◌, ◌>>◌, refuse_if}
use orbit_auth.Authorization.Identifier.{
  Kind, AuthzError, duplicate_permission, catalog_required, duplicate_role, unknown_permission,
  validate_identifier,
}

pub record PermissionSpec : Type 0 where
  pub key : String
  pub description : String

pub record RoleDef : Type 0 where
  pub key : String
  pub permissions : List String
  pub system : Bool

pub record Catalog : Type 0 where
  pub specs : List (String × PermissionSpec)

abbrev pub is_some {ℓ} : {A : Type ℓ} → Option A → Bool
is_some none = false
is_some (some a) = true

-- The loop of `NewCatalog`.
add_specs : List (String × PermissionSpec) → List PermissionSpec → Result AuthzError Catalog
add_specs specs [] = ok (record { specs = specs })
add_specs specs (spec ∷ perms) =
    let rest = add_specs (insert spec.key spec specs) perms in
    do
      validate_identifier Kind.permission spec.key
      refuse_if (is_some (lookup spec.key specs)) (duplicate_permission spec.key)
      rest

unfoldable pub new_catalog : List PermissionSpec → Result AuthzError Catalog
unfolding add_specs
new_catalog perms = add_specs [] perms

-- A nil catalog has no permissions.
unfoldable pub has : Option Catalog → String → Bool
has none permission = false
has (some c) permission = is_some (lookup permission c.specs)

insert_spec : PermissionSpec → List PermissionSpec → List PermissionSpec
insert_spec s [] = s ∷ []
insert_spec s (t ∷ l) = if string_le s.key t.key then s ∷ t ∷ l else t ∷ insert_spec s l

-- The values of the map, sorted by key.
sorted_specs : List (String × PermissionSpec) → List PermissionSpec
unfolding insert_spec
sorted_specs [] = []
sorted_specs ((k, s) ∷ m) = insert_spec s (sorted_specs m)

unfoldable pub all : Option Catalog → List PermissionSpec
unfolding sorted_specs
all none = []
all (some c) = sorted_specs c.specs

-- The inner loop of `ValidateRoles`.
validate_permissions : Catalog → String → List String → Result AuthzError (Unit {0})
validate_permissions c key [] = ok tt
validate_permissions c key (p ∷ ps) =
    let rest = validate_permissions c key ps in
    do
      validate_identifier Kind.permission p
      refuse_if (not (has (some c) p)) (unknown_permission key p)
      rest

-- The outer loop, with the keys seen so far.
validate_each : Catalog → List String → List RoleDef → Result AuthzError (Unit {0})
validate_each c seen [] = ok tt
validate_each c seen (r ∷ roles) =
    let rest = validate_each c (set_insert r.key seen) roles in
    do
      validate_identifier Kind.role r.key
      refuse_if (contains r.key seen) (duplicate_role r.key)
      validate_permissions c r.key r.permissions
      rest

unfoldable pub validate_roles : Option Catalog → List RoleDef → Result AuthzError (Unit {0})
unfolding validate_each validate_permissions
validate_roles none roles = err catalog_required
validate_roles (some c) roles = validate_each c [] roles
