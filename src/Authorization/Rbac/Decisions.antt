-- ===== src/Authorization/Rbac/Decisions.antt =====
-- `Check` of rbac.go against a declarative reading of when a principal is allowed.
use orbit_auth.Prelude.{
  String, ◌≡◌, ◌≢◌, ◌↔◌, ◌⊎◌, inl, inr, true, some, List, [], ◌∷◌, arith, eq_iff, Any, Option-cases,
}
use orbit_auth.Prelude.Results.{ok, Result-cases}
use orbit_auth.Authorization.Catalog.{RoleDef, has}
use orbit_auth.Authorization.Rbac.{
  Scope, Resource, Assignment, Principal, Store, Rbac, listed, assignment_applies,
  permissions_by_role, relevant, check_each, check,
}
use orbit_auth.Authorization.Rbac.Grants.{RoleGrants, role_grants_iff}

-- A scope covers a resource: organization-wide, or listed by the resource.
abbrev pub Applies : Scope → List Scope → Type 0
Applies scope scopes =
    (scope.type ≡ "") ⊎ Any (λ s. (s.type ≡ scope.type) × (s.id ≡ scope.id)) scopes

-- An assignment of the principal, in the principal's organization, grants the permission.
abbrev pub IsRelevant : List RoleDef → Principal → String → Assignment → Type 0
IsRelevant roles p permission a =
    (a.org_id ≡ p.org_id) × (a.subject ≡ p.subject) × RoleGrants roles a.role_key permission

abbrev pub Granting : List RoleDef → Principal → String → List Scope → Assignment → Type 0
Granting roles p permission scopes a = IsRelevant roles p permission a × Applies a.scope scopes

-- When an action is allowed, with no mention of the order of the tests.
pub record IsAllowed (r : Rbac) (p : Principal) (permission : String) (resource : Resource)
    : Type 0 where
  pub store : Store
  pub roles : List RoleDef
  pub assignments : List Assignment
  pub in_org : p.org_id ≢ ""
  pub has_subject : p.subject ≢ ""
  pub same_org : resource.org_id ≡ p.org_id
  pub catalogued : has r.catalog permission ≡ true
  pub connected : r.store ≡ some store
  pub read_roles : store.roles p.org_id ≡ ok roles
  pub read_assignments : store.assignments p.org_id p.subject ≡ ok assignments
  pub granting : Any (Granting roles p permission resource.scopes) assignments

listed_iff :
    (scope : Scope) (scopes : List Scope)
    → (listed scope scopes ≡ true) ↔ Any (λ s. (s.type ≡ scope.type) × (s.id ≡ scope.id)) scopes
unfolding listed
listed_iff scope [] = ground arith
listed_iff scope (s ∷ scopes) =
    ground (arith, eq_iff s.type scope.type, eq_iff s.id scope.id, listed_iff scope scopes)

pub assignment_applies_iff :
    (scope : Scope) (scopes : List Scope)
    → (assignment_applies scope scopes ≡ true) ↔ Applies scope scopes
unfolding assignment_applies
assignment_applies_iff scope scopes = ground (arith, eq_iff scope.type "", listed_iff scope scopes)

pub relevant_iff :
    (roles : List RoleDef) (p : Principal) (permission : String) (a : Assignment)
    → (relevant (permissions_by_role roles) p permission a ≡ true) ↔ IsRelevant roles p permission a
unfolding relevant
relevant_iff roles p permission a = ground (
  arith,
  eq_iff a.org_id p.org_id,
  eq_iff a.subject p.subject,
  role_grants_iff roles a.role_key permission,
)

check_each_iff :
    (roles : List RoleDef) (p : Principal) (permission : String) (scopes : List Scope)
    (assignments : List Assignment)
    → ((check_each (permissions_by_role roles) p permission scopes assignments).allowed ≡ true)
      ↔ Any (Granting roles p permission scopes) assignments
unfolding check_each
check_each_iff roles p permission scopes [] = ground arith
check_each_iff roles p permission scopes (a ∷ assignments) = ground (
  arith,
  relevant_iff roles p permission a,
  assignment_applies_iff a.scope scopes,
  check_each_iff roles p permission scopes assignments,
)

module _ (r : Rbac) (p : Principal) (permission : String) (resource : Resource) where
  check_complete :
      IsAllowed r p permission resource → (check r p permission resource).0.allowed ≡ true
  unfolding check
  check_complete h = ground (
    arith,
    eq_iff p.org_id "",
    eq_iff resource.org_id p.org_id,
    eq_iff p.subject "",
    check_each_iff h.roles p permission resource.scopes h.assignments,
  )

  check_sound : (check r p permission resource).0.allowed ≡ true → IsAllowed r p permission resource
  unfolding check
  check_sound h = elim (Option-cases r.store) [
    | inl e ↦ absurd (ground (arith))
    | inr (store, e) ↦ elim (Result-cases (store.roles p.org_id)) [
      | inr (x, f) ↦ absurd (ground (arith))
      | inl (roles, f) ↦ elim (Result-cases (store.assignments p.org_id p.subject)) [
        | inr (x, g) ↦ absurd (ground (arith))
        | inl (assignments, g) ↦ record {
          store = store;
          roles = roles;
          assignments = assignments;
          in_org = ground (arith, eq_iff p.org_id "");
          has_subject = ground (arith, eq_iff p.subject "");
          same_org = ground (arith, eq_iff resource.org_id p.org_id);
          catalogued = ground (arith);
          connected = e;
          read_roles = f;
          read_assignments = g;
          granting = ground (arith, check_each_iff roles p permission resource.scopes assignments);
        }
      ]
    ]
  ]

  -- Check allows an action exactly when the principal has an organization and a subject, the
  -- resource is of that organization, the permission is in the catalog, and the store's roles and
  -- assignments hold an assignment of that subject in that organization whose role grants the
  -- permission and whose scope covers the resource.
  pub check_iff :
      ((check r p permission resource).0.allowed ≡ true) ↔ IsAllowed r p permission resource
  check_iff = (check_sound, check_complete)
