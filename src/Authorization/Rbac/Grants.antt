-- ===== src/Authorization/Rbac/Grants.antt =====
-- What `permissionsByRole` of rbac.go collects.
use orbit_auth.Prelude.{
  String, ◌≡◌, refl, ◌↔◌, inl, inr, true, false, ◌&&◌, ◌||◌, Option, none, some, List, [], ◌∷◌,
  arith, ◌==◌, eq_iff, lookup, lookup-insert, or_else, contains, set_insert, contains-set_insert,
  Any, In, contains_iff, any, String-cases,
}
use orbit_auth.Authorization.Catalog.{RoleDef}
use orbit_auth.Authorization.Rbac.{
  PermissionSets, add_permissions, add_role, collect_roles, permissions_by_role, role_grants,
  granted_in,
}

-- Some role of the list has the key and grants the permission.
abbrev pub RoleGrants : List RoleDef → String → String → Type 0
RoleGrants roles key permission = Any (λ r. (r.key ≡ key) × In permission r.permissions) roles

contains-add_permissions :
    (q : String) (set ps : List String)
    → contains q (add_permissions set ps) ≡ (contains q set || contains q ps)
unfolding add_permissions
contains-add_permissions q set [] = ground arith
contains-add_permissions q set (p ∷ ps) =
    ground (arith, contains-add_permissions q (set_insert p set) ps, contains-set_insert p q set)

contains-or_else :
    (q : String) (o : Option (List String)) → contains q (or_else [] o) ≡ granted_in o q
contains-or_else q none = refl
contains-or_else q (some ps) = refl

role_grants-add_role :
    (m : PermissionSets) (r : RoleDef) (k q : String)
    → role_grants (add_role m r) k q
      ≡ (role_grants m k q || (r.key == k && contains q r.permissions))
unfolding role_grants add_role
role_grants-add_role m r k q = rw (lookup-insert r.key k _ m) (elim (String-cases r.key k) [
  | inl same ↦ ground (
    arith,
    eq_iff r.key k,
    contains-add_permissions q (or_else [] (lookup r.key m)) r.permissions,
    contains-or_else q (lookup r.key m),
  )
  | inr other ↦ ground (arith, eq_iff r.key k)
])

role_grants-collect_roles :
    (m : PermissionSets) (roles : List RoleDef) (k q : String)
    → role_grants (collect_roles m roles) k q
      ≡ (role_grants m k q || any (λ r. r.key == k && contains q r.permissions) roles)
unfolding collect_roles
role_grants-collect_roles m [] k q = ground arith
role_grants-collect_roles m (r ∷ roles) k q =
    ground (arith, role_grants-collect_roles (add_role m r) roles k q, role_grants-add_role m r k q)

any-RoleGrants :
    (roles : List RoleDef) (k q : String)
    → (any (λ r. r.key == k && contains q r.permissions) roles ≡ true) ↔ RoleGrants roles k q
any-RoleGrants [] k q = ground arith
any-RoleGrants (r ∷ roles) k q =
    ground (arith, eq_iff r.key k, contains_iff q r.permissions, any-RoleGrants roles k q)

role_grants-nil : (k q : String) → role_grants [] k q ≡ false
unfolding role_grants lookup
role_grants-nil k q = refl

-- A role of the stored list grants the permission exactly when the collected sets say so.
pub role_grants_iff :
    (roles : List RoleDef) (k q : String)
    → (role_grants (permissions_by_role roles) k q ≡ true) ↔ RoleGrants roles k q
unfolding permissions_by_role
role_grants_iff roles k q =
    rw (role_grants-collect_roles [] roles k q, role_grants-nil k q) (any-RoleGrants roles k q)
