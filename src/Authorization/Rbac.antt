-- ===== src/Authorization/Rbac.antt =====
-- authorization/rbac.go: the role-based authorizer over a product's store.
pub mod Grants
pub mod Decisions
pub mod Scopes
pub mod Granting
use orbit_auth.Prelude.{
  String, Bool, true, false, not, ◌&&◌, ◌||◌, Option, none, some, List, [], ◌∷◌, ◌==◌, lookup,
  insert, or_else, if◌then◌else◌, contains, set_insert,
}
use orbit_auth.Prelude.Sorting.{sort_strings}
use orbit_auth.Prelude.Results.{Result, ok, err}
use orbit_auth.Authorization.Identifier.{AuthzError, list_roles, list_assignments}
use orbit_auth.Authorization.Catalog.{Catalog, RoleDef, has}

pub record Scope : Type 0 where
  pub type : String
  pub id : String

pub record Resource : Type 0 where
  pub org_id : String
  pub scopes : List Scope

pub record Assignment : Type 0 where
  pub org_id : String
  pub subject : String
  pub role_key : String
  pub scope : Scope

pub record Principal : Type 0 where
  pub subject : String
  pub org_id : String

pub data Reason : Type 0 where
  no_org org_mismatch unknown_permission no_grant granted : Reason

pub record Decision : Type 0 where
  pub allowed : Bool
  pub reason : Reason

-- The port that a product implements; `err` is a store that could not be read.
pub record Store : Type 0 where
  pub roles : String → Result (Unit {0}) (List RoleDef)
  pub assignments : String → String → Result (Unit {0}) (List Assignment)

-- A nil catalog or store is `none`.
pub record Rbac : Type 0 where
  pub catalog : Option Catalog
  pub store : Option Store

unfoldable pub new_rbac : Option Catalog → Option Store → Rbac
new_rbac catalog store = record { catalog = catalog; store = store }

abbrev pub deny : Reason → Decision
deny reason = record { allowed = false; reason = reason }

-- `==` on two `Scope` structs.
abbrev pub scope_eq : Scope → Scope → Bool
scope_eq a b = a.type == b.type && a.id == b.id

listed : Scope → List Scope → Bool
listed scope [] = false
listed scope (s ∷ scopes) = scope_eq s scope || listed scope scopes

unfoldable pub assignment_applies : Scope → List Scope → Bool
unfolding listed
assignment_applies scope scopes = if scope.type == "" then true else listed scope scopes

abbrev pub PermissionSets : Type 0
PermissionSets = List (String × List String)

add_permissions : List String → List String → List String
add_permissions set [] = set
add_permissions set (p ∷ ps) = add_permissions (set_insert p set) ps

-- One round of the loop: the role's set is made if it is not there, and filled.
add_role : PermissionSets → RoleDef → PermissionSets
unfolding add_permissions
add_role by_role r =
    insert r.key (add_permissions (or_else [] (lookup r.key by_role)) r.permissions) by_role

collect_roles : PermissionSets → List RoleDef → PermissionSets
collect_roles by_role [] = by_role
collect_roles by_role (r ∷ roles) = collect_roles (add_role by_role r) roles

unfoldable pub permissions_by_role : List RoleDef → PermissionSets
unfolding collect_roles add_role
permissions_by_role roles = collect_roles [] roles

-- `permissions, ok := byRole[key]` and then `_, ok := permissions[permission]`.
abbrev pub granted_in : Option (List String) → String → Bool
granted_in none permission = false
granted_in (some permissions) permission = contains permission permissions

unfoldable pub role_grants : PermissionSets → String → String → Bool
role_grants by_role key permission = granted_in (lookup key by_role) permission

has_permission : Rbac → String → Bool
has_permission r permission = has r.catalog permission

-- The tests of `Check` and `AllowedScopes` that `continue` past an assignment.
unfoldable pub relevant : PermissionSets → Principal → String → Assignment → Bool
relevant by_role p permission a =
    a.org_id == p.org_id && a.subject == p.subject && role_grants by_role a.role_key permission

-- The loop of `Check`.
check_each : PermissionSets → Principal → String → List Scope → List Assignment → Decision
check_each by_role p permission scopes [] = deny no_grant
check_each by_role p permission scopes (a ∷ assignments) =
    if relevant by_role p permission a && assignment_applies a.scope scopes
    then record { allowed = true; reason = granted }
    else check_each by_role p permission scopes assignments

check_store : Store → Principal → String → Resource → Decision × Option AuthzError
check_store store p permission resource = elim (store.roles p.org_id) [
  | err e ↦ (deny no_grant, some list_roles)
  | ok roles ↦ elim (store.assignments p.org_id p.subject) [
    | err e ↦ (deny no_grant, some list_assignments)
    | ok assignments ↦
        (check_each (permissions_by_role roles) p permission resource.scopes assignments, none)
  ]
]

unfoldable pub check : Rbac → Principal → String → Resource → Decision × Option AuthzError
unfolding check_store check_each has_permission
check r p permission resource =
    if p.org_id == ""
    then (deny no_org, none)
    else if not (resource.org_id == p.org_id)
    then (deny org_mismatch, none)
    else if p.subject == ""
    then (deny no_grant, none)
    else if not (has_permission r permission)
    then (deny unknown_permission, none)
    else elim r.store [
      | none ↦ (deny no_grant, none)
      | some store ↦ check_store store p permission resource
    ]

-- What `AllowedScopes` returns: whether everywhere, the ids, and the error.
pub record ScopeAnswer : Type 0 where
  pub all : Bool
  pub ids : List String
  pub error : Option AuthzError

-- The loop of `AllowedScopes`; `none` is the early return for an assignment without a scope.
scopes_each :
    PermissionSets
    → Principal
    → String
    → String
    → List String
    → List Assignment
    → Option (List String)
scopes_each by_role p permission scope_type ids [] = some ids
scopes_each by_role p permission scope_type ids (a ∷ assignments) =
    let skipped = scopes_each by_role p permission scope_type ids assignments in
    let added =
      scopes_each by_role p permission scope_type (set_insert a.scope.id ids) assignments in
    if not (relevant by_role p permission a)
    then skipped
    else if a.scope.type == ""
    then none
    else if a.scope.type == scope_type && not (a.scope.id == "")
    then added
    else skipped

scopes_store : Store → Principal → String → String → ScopeAnswer
scopes_store store p permission scope_type = elim (store.roles p.org_id) [
  | err e ↦ record { all = false; ids = []; error = some list_roles }
  | ok roles ↦ elim (store.assignments p.org_id p.subject) [
    | err e ↦ record { all = false; ids = []; error = some list_assignments }
    | ok assignments ↦
        elim (scopes_each (permissions_by_role roles) p permission scope_type [] assignments) [
          | none ↦ record { all = true; ids = []; error = none }
          | some ids ↦ record { all = false; ids = sort_strings ids; error = none }
        ]
  ]
]

unfoldable pub allowed_scopes : Rbac → Principal → String → String → ScopeAnswer
unfolding scopes_store scopes_each has_permission
allowed_scopes r p permission scope_type =
    if p.org_id == "" || p.subject == ""
    then record { all = false; ids = []; error = none }
    else if not (has_permission r permission)
    then record { all = false; ids = []; error = none }
    else elim r.store [
      | none ↦ record { all = false; ids = []; error = none }
      | some store ↦ scopes_store store p permission scope_type
    ]

-- The inner loop of `CanGrant`: whether the granter holds one permission of the target role.
holds : PermissionSets → Assignment → String → List Assignment → Bool
holds by_role target permission [] = false
holds by_role target permission (a ∷ granter) =
    if a.org_id == target.org_id
      && role_grants by_role a.role_key permission
      && (a.scope.type == "" || scope_eq a.scope target.scope)
    then true
    else holds by_role target permission granter

-- The outer loop.
holds_all : PermissionSets → Assignment → List Assignment → List String → Bool
holds_all by_role target granter [] = true
holds_all by_role target granter (p ∷ ps) =
    if holds by_role target p granter then holds_all by_role target granter ps else false

unfoldable pub can_grant : List Assignment → List RoleDef → Assignment → Bool
unfolding holds_all holds
can_grant granter roles target =
    if target.org_id == ""
    then false
    else elim (lookup target.role_key (permissions_by_role roles)) [
      | none ↦ false
      | some permissions ↦ holds_all (permissions_by_role roles) target granter permissions
    ]
