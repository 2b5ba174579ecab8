-- ===== src/Authorization/Catalog/Validation.antt =====
-- When `NewCatalog` and `ValidateRoles` of catalog.go accept.
use orbit_auth.Prelude.{
  String, ◌≡◌, ◌≢◌, refl, ◌↔◌, true, false, ◌||◌, some, List, [], ◌∷◌, arith, ◌==◌, eq_iff, All,
  any, contains, set_insert, contains-set_insert, lookup, insert, lookup-insert, ◌∙◌,
}
use orbit_auth.Prelude.Results.{ok}
use orbit_auth.Authorization.Identifier.{Kind, identifier_pattern, validate_identifier-eq}
use orbit_auth.Authorization.Catalog.{
  PermissionSpec, RoleDef, Catalog, is_some, add_specs, new_catalog, has, validate_permissions,
  validate_each, validate_roles,
}

-- A role that may be stored: identifiers throughout, and no permission outside the catalog.
abbrev pub IsValidRole : Catalog → RoleDef → Type 0
IsValidRole c r =
    (identifier_pattern r.key ≡ true)
    × All (λ p. (identifier_pattern p ≡ true) × (has (some c) p ≡ true)) r.permissions

-- No two roles have one key.
abbrev pub DistinctRoles : List RoleDef → Type 0
DistinctRoles [] = Unit
DistinctRoles (r ∷ roles) = All (λ s. s.key ≢ r.key) roles × DistinctRoles roles

validate_permissions_iff :
    (c : Catalog) (key : String) (ps : List String)
    → (validate_permissions c key ps ≡ ok tt)
      ↔ All (λ p. (identifier_pattern p ≡ true) × (has (some c) p ≡ true)) ps
unfolding validate_permissions
validate_permissions_iff c key [] = ground arith
validate_permissions_iff c key (p ∷ ps) =
    ground (arith, validate_identifier-eq Kind.permission p, validate_permissions_iff c key ps)

All-unseen :
    (k : String) (seen : List String) (roles : List RoleDef)
    → All (λ r. contains r.key (set_insert k seen) ≡ false) roles
      ↔ (All (λ r. contains r.key seen ≡ false) roles × All (λ r. r.key ≢ k) roles)
All-unseen k seen [] = ground arith
All-unseen k seen (r ∷ roles) = ground (
  arith,
  contains-set_insert k r.key seen,
  eq_iff k r.key,
  eq_iff r.key k,
  All-unseen k seen roles,
)

validate_each_iff :
    (c : Catalog) (seen : List String) (roles : List RoleDef)
    → (validate_each c seen roles ≡ ok tt) ↔ (
        All (IsValidRole c) roles
        × All (λ r. contains r.key seen ≡ false) roles
        × DistinctRoles roles)
unfolding validate_each
validate_each_iff c seen [] = ground arith
validate_each_iff c seen (r ∷ roles) = ground (
  arith,
  validate_identifier-eq Kind.role r.key,
  validate_permissions_iff c r.key r.permissions,
  All-unseen r.key seen roles,
  validate_each_iff c (set_insert r.key seen) roles,
)

All-empty : (roles : List RoleDef) → All (λ r. contains r.key [] ≡ false) roles
All-empty [] = tt
All-empty (r ∷ roles) = (refl, All-empty roles)

-- ValidateRoles accepts exactly the lists of roles with distinct keys, in which each key and each
-- permission is an identifier and each permission is in the catalog.
pub validate_roles_iff :
    (c : Catalog) (roles : List RoleDef)
    → (validate_roles (some c) roles ≡ ok tt) ↔ (All (IsValidRole c) roles × DistinctRoles roles)
unfolding validate_roles
validate_roles_iff c roles = ground (arith, validate_each_iff c [] roles, All-empty roles)

-- No two specs have one key.
abbrev pub DistinctSpecs : List PermissionSpec → Type 0
DistinctSpecs [] = Unit
DistinctSpecs (s ∷ specs) = All (λ t. t.key ≢ s.key) specs × DistinctSpecs specs

-- The catalog that holds the declared specs.
add_all : List (String × PermissionSpec) → List PermissionSpec → List (String × PermissionSpec)
add_all m [] = m
add_all m (s ∷ specs) = add_all (insert s.key s m) specs

has-add_all :
    (m : List (String × PermissionSpec)) (specs : List PermissionSpec) (p : String)
    → has (some (record { specs = add_all m specs })) p
      ≡ (has (some (record { specs = m })) p || any (λ s. s.key == p) specs)
unfolding add_all has
has-add_all m [] p = ground arith
has-add_all m (s ∷ specs) p =
    ground (arith, has-add_all (insert s.key s m) specs p, lookup-insert s.key p s m)

abbrev IsNew : List (String × PermissionSpec) → PermissionSpec → Type 0
IsNew m s = is_some (lookup s.key m) ≡ false

All-IsNew :
    (s : PermissionSpec) (m : List (String × PermissionSpec)) (specs : List PermissionSpec)
    → All (IsNew (insert s.key s m)) specs ↔ (All (IsNew m) specs × All (λ t. t.key ≢ s.key) specs)
All-IsNew s m [] = ground arith
All-IsNew s m (t ∷ specs) = ground (
  arith,
  lookup-insert s.key t.key s m,
  eq_iff s.key t.key,
  eq_iff t.key s.key,
  All-IsNew s m specs,
)

-- The outcome of the loop: which lists it accepts, and the catalog it then returns.
add_specs_iff :
    (m : List (String × PermissionSpec)) (specs : List PermissionSpec) (c : Catalog)
    → (add_specs m specs ≡ ok c) ↔ (
        All (λ s. identifier_pattern s.key ≡ true) specs
        × All (IsNew m) specs
        × DistinctSpecs specs
        × (c ≡ record { specs = add_all m specs }))
unfolding add_specs add_all
add_specs_iff m [] c = ground arith
add_specs_iff m (s ∷ specs) c = ground (
  arith,
  validate_identifier-eq Kind.permission s.key,
  All-IsNew s m specs,
  add_specs_iff (insert s.key s m) specs c,
)

All-IsNew_nil : (specs : List PermissionSpec) → All (IsNew []) specs
unfolding lookup
All-IsNew_nil [] = tt
All-IsNew_nil (s ∷ specs) = (refl, All-IsNew_nil specs)

has-nil : (p : String) → has (some (record { specs = [] })) p ≡ false
unfolding has lookup
has-nil p = refl

new_catalog_has :
    (specs : List PermissionSpec) (c : Catalog) (p : String)
    → c ≡ record { specs = add_all [] specs }
    → has (some c) p ≡ any (λ s. s.key == p) specs
new_catalog_has specs c p same = rw same (has-add_all [] specs p ∙ ground (arith, has-nil p))

-- NewCatalog accepts exactly the lists of specs whose keys are distinct identifiers, and a catalog
-- that it returns has a permission exactly when a spec declares it.
pub new_catalog_iff :
    (specs : List PermissionSpec)
    → (((c : Catalog) × (new_catalog specs ≡ ok c))
        ↔ (All (λ s. identifier_pattern s.key ≡ true) specs × DistinctSpecs specs))
      × ((c : Catalog) (p : String)
          → new_catalog specs ≡ ok c
          → has (some c) p ≡ any (λ s. s.key == p) specs)
unfolding new_catalog
new_catalog_iff specs = (
  (
    λ made.
        let (keys, _, distinct, _) = (add_specs_iff [] specs made.0).0 made.1 in (keys, distinct),
    λ valid. (
      record { specs = add_all [] specs },
      (add_specs_iff [] specs _).1 (valid.0, All-IsNew_nil specs, valid.1, refl),
    ),
  ),
  λ c p e. let (_, _, _, same) = (add_specs_iff [] specs c).0 e in new_catalog_has specs c p same,
)
