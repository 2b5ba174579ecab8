-- ===== src/Authorization/Tests.antt =====
-- Runs of the authorization package, and its theorems at concrete inputs.
use orbit_auth.Prelude.{
  String, ◌≡◌, ◌≢◌, refl, ◌↔◌, true, false, ◌&&◌, ◌||◌, some, List, [], ◌∷◌, ◌++◌, arith, ◌==◌,
  eq_iff, All, any, contains, map, if◌then◌else◌, lookup, insert, set_insert,
}
use orbit_auth.Prelude.GoText.{string_le, trim_space}
use orbit_auth.Prelude.Results.{ok, err}
use orbit_auth.Authorization.Identifier.{
  identifier_pattern, validate_identifier, duplicate_permission,
}
use orbit_auth.Authorization.Catalog.{
  PermissionSpec, RoleDef, Catalog, new_catalog, has, validate_roles,
}
use orbit_auth.Authorization.Catalog.Validation.{
  IsValidRole, DistinctRoles, DistinctSpecs, validate_roles_iff, new_catalog_iff,
}
use orbit_auth.Prelude.Sorting.{sort_strings, IsSorted, IsDistinct}
use orbit_auth.Authorization.Rbac.{
  Scope, Assignment, Principal, Rbac, new_rbac, check, allowed_scopes, can_grant, relevant,
  permissions_by_role, role_grants, assignment_applies,
}
use orbit_auth.Authorization.Rbac.Decisions.{IsAllowed, check_iff}
use orbit_auth.Authorization.Rbac.Scopes.{at_scope, allowed_scopes-check, allowed_scopes-canonical}
use orbit_auth.Authorization.Rbac.Granting.{
  MayGrant, can_grant_iff, can_grant-no_escalation, fixed_store, grantee,
}
use orbit_auth.Authorization.Memstore
use orbit_auth.Authorization.Memstore.{Memstore, Op, as_store}
use orbit_auth.Authorization.Memstore.Filing.{IsFiled, new-IsFiled, run-IsFiled, assignments_refine}
use orbit_auth.Authorization.Memstore.Roles.{find_role, DistinctKeys, add_role_lem}

package_open : Unit {0}
unfolding check allowed_scopes can_grant relevant permissions_by_role role_grants assignment_applies
    has new_catalog validate_roles validate_identifier identifier_pattern string_le trim_space
    sort_strings lookup insert set_insert
package_open = tt

abbrev stock_read : PermissionSpec
stock_read = record { key = "stock.read"; description = "Read stock" }

abbrev stock_write : PermissionSpec
stock_write = record { key = "stock.write"; description = "" }

abbrev catalog : Catalog
catalog = record { specs = ("stock.read", stock_read) ∷ ("stock.write", stock_write) ∷ [] }

abbrev keeper : RoleDef
keeper = record { key = "keeper"; permissions = "stock.read" ∷ "stock.write" ∷ []; system = true }

abbrev viewer : RoleDef
viewer = record { key = "viewer"; permissions = "stock.read" ∷ []; system = false }

abbrev shop : String → Scope
shop id = record { type = "location"; id = id }

abbrev assign : String → String → Scope → Assignment
assign subject role scope = record {
  org_id = "o1";
  subject = subject;
  role_key = role;
  scope = scope;
}

abbrev ann : Principal
ann = record { subject = "ann"; org_id = "o1" }

abbrev anns : List Assignment
anns =
    assign "ann" "viewer" (shop "s2")
    ∷ assign "ann" "keeper" (shop "s1")
    ∷ assign "bob" "keeper" (record { type = ""; id = "" })
    ∷ []

abbrev rbac : Rbac
rbac = new_rbac (some catalog) (some (fixed_store (keeper ∷ viewer ∷ []) anns))

catalog_made : new_catalog (stock_read ∷ stock_write ∷ []) ≡ ok catalog
unfolding package_open
catalog_made = refl

catalog_refused :
    new_catalog (stock_read ∷ stock_read ∷ []) ≡ err (duplicate_permission "stock.read")
unfolding package_open
catalog_refused = refl

check_runs :
    ((check rbac ann "stock.write" (at_scope ann (shop "s1" ∷ []))).0.allowed ≡ true)
    × ((check rbac ann "stock.write" (at_scope ann (shop "s2" ∷ []))).0.allowed ≡ false)
    × ((allowed_scopes rbac ann "stock.read" "location").ids ≡ "s1" ∷ "s2" ∷ [])
unfolding package_open new_rbac
check_runs = (refl, refl, refl)

check_iff_example :
    ((check rbac ann "stock.write" (at_scope ann (shop "s1" ∷ []))).0.allowed ≡ true)
    ↔ IsAllowed rbac ann "stock.write" (at_scope ann (shop "s1" ∷ []))
check_iff_example = check_iff rbac ann "stock.write" (at_scope ann (shop "s1" ∷ []))

location_ne_empty : ◌≢◌ {A = String} "location" ""
location_ne_empty = ground (arith, eq_iff "location" "")

s1_ne_empty : ◌≢◌ {A = String} "s1" ""
s1_ne_empty = ground (arith, eq_iff "s1" "")

ann_ne_empty : ◌≢◌ {A = String} "ann" ""
ann_ne_empty = ground (arith, eq_iff "ann" "")

allowed_scopes-check_example :
    ((allowed_scopes rbac ann "stock.write" "location").all
      || contains "s1" (allowed_scopes rbac ann "stock.write" "location").ids)
    ≡ (check rbac ann "stock.write" (at_scope ann (shop "s1" ∷ []))).0.allowed
allowed_scopes-check_example =
    allowed_scopes-check rbac ann "stock.write" "location" "s1" location_ne_empty s1_ne_empty

allowed_scopes-canonical_example :
    (((allowed_scopes rbac ann "stock.read" "location").all ≡ true)
      ↔ ((check rbac ann "stock.read" (at_scope ann [])).0.allowed ≡ true))
    × ((allowed_scopes rbac ann "stock.read" "location").all ≡ true
        → (allowed_scopes rbac ann "stock.read" "location").ids ≡ [])
    × IsSorted (allowed_scopes rbac ann "stock.read" "location").ids
    × IsDistinct (allowed_scopes rbac ann "stock.read" "location").ids
allowed_scopes-canonical_example = allowed_scopes-canonical rbac ann "stock.read" "location"

abbrev granter : List Assignment
granter = assign "ann" "keeper" (shop "s1") ∷ []

abbrev offer : Assignment
offer = assign "eve" "viewer" (shop "s1")

can_grant_run : can_grant granter (keeper ∷ viewer ∷ []) offer ≡ true
unfolding package_open
can_grant_run = refl

can_grant_iff_example :
    (can_grant granter (keeper ∷ viewer ∷ []) offer ≡ true)
    ↔ MayGrant granter (keeper ∷ viewer ∷ []) offer
can_grant_iff_example = can_grant_iff granter (keeper ∷ viewer ∷ []) offer

eve_reads :
    (check
      (new_rbac (some catalog) (some (fixed_store (keeper ∷ viewer ∷ []) (offer ∷ []))))
      (grantee offer)
      "stock.read"
      (at_scope ann (shop "s1" ∷ []))).0.allowed
    ≡ true
unfolding package_open new_rbac
eve_reads = refl

can_grant-no_escalation_example :
    (check
      (new_rbac (some catalog) (some (fixed_store (keeper ∷ viewer ∷ []) granter)))
      ann
      "stock.read"
      (at_scope ann (shop "s1" ∷ []))).0.allowed
    ≡ true
can_grant-no_escalation_example =
    can_grant-no_escalation (some catalog) (keeper ∷ viewer ∷ []) granter ann offer "stock.read"
      (at_scope ann (shop "s1" ∷ [])) refl ann_ne_empty (refl, tt) can_grant_run eve_reads

validate_roles_iff_example :
    (validate_roles (some catalog) (keeper ∷ viewer ∷ []) ≡ ok tt)
    ↔ (All (IsValidRole catalog) (keeper ∷ viewer ∷ []) × DistinctRoles (keeper ∷ viewer ∷ []))
validate_roles_iff_example = validate_roles_iff catalog (keeper ∷ viewer ∷ [])

new_catalog_iff_example :
    (((c : Catalog) × (new_catalog (stock_read ∷ stock_write ∷ []) ≡ ok c)) ↔ (
      All (λ s. identifier_pattern s.key ≡ true) (stock_read ∷ stock_write ∷ [])
      × DistinctSpecs (stock_read ∷ stock_write ∷ [])))
    × ((c : Catalog) (p : String)
        → new_catalog (stock_read ∷ stock_write ∷ []) ≡ ok c
        → has (some c) p ≡ any (λ s. s.key == p) (stock_read ∷ stock_write ∷ []))
new_catalog_iff_example = new_catalog_iff (stock_read ∷ stock_write ∷ [])

abbrev script : List Op
script =
    Op.insert_role "o1" keeper
    ∷ Op.append_assignment offer
    ∷ Op.replace_assignments "o2" "eve" (offer ∷ [])
    ∷ []

run-IsFiled_example : IsFiled (Memstore.run script Memstore.new)
run-IsFiled_example = run-IsFiled script Memstore.new new-IsFiled

assignments_refine_example :
    (Memstore.stored_assignments
        (Memstore.set_assignments "o1" "eve" granter Memstore.new)
        "o1"
        "eve"
      ≡ (if "o1" == "o1" && "eve" == "eve"
          then map (Memstore.file "o1" "eve") granter
          else Memstore.stored_assignments Memstore.new "o1" "eve"))
    × (Memstore.stored_assignments (Memstore.add_assignment offer Memstore.new) "o1" "eve" ≡ (
        if "o1" == "o1" && "eve" == "eve"
        then Memstore.stored_assignments Memstore.new "o1" "eve" ++ offer ∷ []
        else Memstore.stored_assignments Memstore.new "o1" "eve"))
assignments_refine_example = assignments_refine Memstore.new "o1" "eve" granter offer "o1" "eve"

add_role_lem_example :
    (find_role "keeper" (Memstore.stored_roles (Memstore.add_role "o1" keeper Memstore.new) "o1")
      ≡ (if "o1" == "o1"
          then (if "keeper" == "keeper"
              then some keeper
              else find_role "keeper" (Memstore.stored_roles Memstore.new "o1"))
          else find_role "keeper" (Memstore.stored_roles Memstore.new "o1")))
    × (DistinctKeys (Memstore.stored_roles Memstore.new "o1")
        → DistinctKeys (Memstore.stored_roles (Memstore.add_role "o1" keeper Memstore.new) "o1"))
add_role_lem_example = add_role_lem "o1" keeper Memstore.new "o1" "keeper"
