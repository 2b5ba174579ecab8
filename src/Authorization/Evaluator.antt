-- ===== src/Authorization/Evaluator.antt =====
-- authorization/policy.go: the deprecated evaluator of a policy.
pub mod Listing
mod Tests
use orbit_auth.Prelude.{
  String, Bool, true, false, Option, none, some, List, [], ◌∷◌, ◌==◌, lookup, insert, if◌then◌else◌,
  any, contains, set_insert,
}
use orbit_auth.Prelude.Results.{Result, ok, err, ◌>>=◌, ◌>>◌, refuse_if}
use orbit_auth.Prelude.Sorting.{sort_strings}
use orbit_auth.Authorization.Identifier.{
  Kind, AuthzError, empty_policy, role_without_permission, validate_identifier,
}

-- Roles with the permissions that they grant, in the order in which Go ranges over the map.
abbrev pub Policy : Type 0
Policy = List (String × List String)

pub record Evaluator : Type 0 where
  pub permissions : List (String × List String)

abbrev pub is_empty : {A : Type 0} → List A → Bool
is_empty [] = true
is_empty (a ∷ l) = false

unfoldable pub add_grants : List String → List String → Result AuthzError (List String)
add_grants role_permissions [] = ok role_permissions
add_grants role_permissions (permission ∷ grants) =
    let rest = add_grants (set_insert permission role_permissions) grants in
    do validate_identifier Kind.permission permission; rest

unfoldable pub add_roles : List (String × List String) → Policy → Result AuthzError Evaluator
add_roles permissions [] = ok (record { permissions = permissions })
add_roles permissions ((role, grants) ∷ policy) = do
  validate_identifier Kind.role role
  refuse_if (is_empty grants) (role_without_permission role)
  role_permissions ← add_grants [] grants
  add_roles (insert role role_permissions permissions) policy

unfoldable pub new_evaluator : Policy → Result AuthzError Evaluator
new_evaluator policy = do refuse_if (is_empty policy) empty_policy; add_roles [] policy

-- A role that is not there grants nothing.
abbrev pub or_nothing : Option (List String) → List String
or_nothing none = []
or_nothing (some l) = l

abbrev pub granted : List (String × List String) → String → List String
granted permissions role = or_nothing (lookup role permissions)

-- A nil evaluator is none.
unfoldable pub allows : Option Evaluator → List String → String → Bool
allows none roles permission = false
allows (some e) roles permission =
    if permission == ""
    then false
    else any (λ role. contains permission (granted e.permissions role)) roles

unfoldable pub add_all : List String → List String → List String
add_all set [] = set
add_all set (permission ∷ l) = add_all (set_insert permission set) l

unfoldable pub collect : List (String × List String) → List String → List String → List String
collect permissions set [] = set
collect permissions set (role ∷ roles) =
    collect permissions (add_all set (granted permissions role)) roles

unfoldable pub permissions : Option Evaluator → List String → List String
permissions none roles = []
permissions (some e) roles = sort_strings (collect e.permissions [] roles)
