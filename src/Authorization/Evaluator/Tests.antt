-- ===== src/Authorization/Evaluator/Tests.antt =====
-- Runs of the deprecated evaluator, and the theorem on one.
use orbit_auth.Prelude.{◌≡◌, refl, some, [], ◌∷◌, contains, lookup, insert, set_insert}
use orbit_auth.Prelude.GoText.{trim_space, string_le}
use orbit_auth.Prelude.Results.{ok, err}
use orbit_auth.Prelude.Sorting.{IsSorted, IsDistinct, sort_strings}
use orbit_auth.Authorization.Identifier.{
  role_without_permission, validate_identifier, identifier_pattern,
}
use orbit_auth.Authorization.Evaluator.{
  Policy, Evaluator, add_grants, add_roles, new_evaluator, allows, permissions, add_all, collect,
}
use orbit_auth.Authorization.Evaluator.Listing.{permissions-allows}

abbrev policy : Policy
policy = ("admin", "write" ∷ "read" ∷ []) ∷ ("viewer", "read" ∷ "read" ∷ []) ∷ []

abbrev evaluator : Evaluator
evaluator = record { permissions = ("admin", "read" ∷ "write" ∷ []) ∷ ("viewer", "read" ∷ []) ∷ [] }

accepts : new_evaluator policy ≡ ok evaluator
unfolding new_evaluator add_roles add_grants validate_identifier identifier_pattern trim_space
    insert set_insert
accepts = refl

lists : permissions (some evaluator) ("viewer" ∷ "admin" ∷ "guest" ∷ []) ≡ "read" ∷ "write" ∷ []
unfolding permissions collect add_all sort_strings lookup set_insert string_le
lists = refl

refuses_empty_role : new_evaluator (("admin", []) ∷ []) ≡ err (role_without_permission "admin")
unfolding new_evaluator add_roles validate_identifier identifier_pattern trim_space
refuses_empty_role = refl

permissions-allows_example :
    (contains "write" (permissions (some evaluator) ("admin" ∷ []))
      ≡ allows (some evaluator) ("admin" ∷ []) "write")
    × IsSorted (permissions (some evaluator) ("admin" ∷ []))
    × IsDistinct (permissions (some evaluator) ("admin" ∷ []))
permissions-allows_example = permissions-allows policy evaluator ("admin" ∷ []) "write" accepts
