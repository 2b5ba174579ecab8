-- ===== src/Authorization/Rbac/Scopes.antt =====
-- `AllowedScopes` of rbac.go, compared with `Check`.
use orbit_auth.Prelude.{
  String, ◌≡◌, ◌≢◌, ◌↔◌, inl, inr, Bool, true, ◌&&◌, ◌||◌, Option, none, some, List, [], ◌∷◌, arith,
  ◌==◌, not, eq_iff, String-cases, Option-cases, contains, set_insert, contains-set_insert,
}
use orbit_auth.Prelude.Results.{Result-cases}
use orbit_auth.Prelude.Sorting.{
  contains-sort_strings, IsSorted, IsDistinct, sort_strings-IsSorted, sort_strings-IsDistinct,
  set_insert-IsDistinct,
}
use orbit_auth.Authorization.Rbac.{
  Scope, Resource, Assignment, Principal, Store, Rbac, PermissionSets, assignment_applies,
  check_each, check_store, check, permissions_by_role, scopes_each, scopes_store, allowed_scopes,
}

-- Whether the answer of the loop covers an id.
abbrev covers : Option (List String) → String → Bool
covers none id = true
covers (some ids) id = contains id ids

abbrev ids_of : Option (List String) → List String
ids_of none = []
ids_of (some ids) = ids

abbrev DistinctIds : Option (List String) → Type 0
DistinctIds none = Unit
DistinctIds (some ids) = IsDistinct ids

-- On a resource with one scope, an assignment applies by having no scope or that very scope.
applies_single :
    (scope : Scope) (type id : String)
    → type ≢ ""
    → id ≢ ""
    → assignment_applies scope (record { type = type; id = id } ∷ [])
      ≡ (scope.type == "" || (scope.type == type && not (scope.id == "") && scope.id == id))
unfolding assignment_applies
applies_single scope type id ht hi = elim (String-cases scope.id id) [
  | inl same ↦ ground (
    arith,
    eq_iff scope.type type,
    eq_iff type scope.type,
    eq_iff scope.id id,
    eq_iff id scope.id,
    eq_iff scope.id "",
  )
  | inr other ↦ ground (arith, eq_iff scope.type type, eq_iff scope.id id, eq_iff id scope.id)
]

abbrev pub at_scope : Principal → List Scope → Resource
at_scope p scopes = record { org_id = p.org_id; scopes = scopes }

module _ (by_role : PermissionSets) (p : Principal) (permission scope_type : String) where
  scopes_each-IsDistinct :
      (ids : List String) (assignments : List Assignment)
      → IsDistinct ids
      → DistinctIds (scopes_each by_role p permission scope_type ids assignments)
  unfolding scopes_each
  scopes_each-IsDistinct ids [] h = h
  scopes_each-IsDistinct ids (a ∷ assignments) h = ground (
    arith,
    scopes_each-IsDistinct ids assignments h,
    scopes_each-IsDistinct (set_insert a.scope.id ids) assignments
        (set_insert-IsDistinct a.scope.id ids h),
  )

  scopes_each-covers :
      (id : String) (ids : List String) (assignments : List Assignment)
      → scope_type ≢ ""
      → id ≢ ""
      → covers (scopes_each by_role p permission scope_type ids assignments) id ≡ (
          contains id ids
          || (check_each by_role p permission
              (record { type = scope_type; id = id } ∷ [])
              assignments).allowed)
  unfolding scopes_each check_each
  scopes_each-covers id ids [] ht hi = ground arith
  scopes_each-covers id ids (a ∷ assignments) ht hi = ground (
    arith,
    scopes_each-covers id ids assignments ht hi,
    scopes_each-covers id (set_insert a.scope.id ids) assignments ht hi,
    contains-set_insert a.scope.id id ids,
    applies_single a.scope scope_type id ht hi,
  )

  -- The early return is taken exactly where the permission is held on a resource with no scope.
  scopes_each-all :
      (ids : List String) (assignments : List Assignment)
      → (scopes_each by_role p permission scope_type ids assignments ≡ none)
        ↔ ((check_each by_role p permission [] assignments).allowed ≡ true)
  unfolding scopes_each check_each assignment_applies
  scopes_each-all ids [] = ground arith
  scopes_each-all ids (a ∷ assignments) = ground (
    arith,
    scopes_each-all ids assignments,
    scopes_each-all (set_insert a.scope.id ids) assignments,
  )

module _ (store : Store) (p : Principal) (permission scope_type : String) where
  scopes_store-covers :
      (id : String)
      → scope_type ≢ ""
      → id ≢ ""
      → ((scopes_store store p permission scope_type).all
          || contains id (scopes_store store p permission scope_type).ids)
        ≡ (check_store store p permission
            (at_scope p (record { type = scope_type; id = id } ∷ []))).0.allowed
  unfolding scopes_store check_store
  scopes_store-covers id ht hi = elim (Result-cases (store.roles p.org_id)) [
    | inr (x, f) ↦ ground arith
    | inl (roles, f) ↦ elim (Result-cases (store.assignments p.org_id p.subject)) [
      | inr (x, g) ↦ ground arith
      | inl (assignments, g) ↦
          let by_role = permissions_by_role roles in
          let found = scopes_each by_role p permission scope_type [] assignments in
          ground (
            arith,
            scopes_each-covers by_role p permission scope_type id [] assignments ht hi,
            contains-sort_strings id (ids_of found),
          )
    ]
  ]

  scopes_store-all :
      ((scopes_store store p permission scope_type).all ≡ true)
      ↔ ((check_store store p permission (at_scope p [])).0.allowed ≡ true)
  unfolding scopes_store check_store
  scopes_store-all = elim (Result-cases (store.roles p.org_id)) [
    | inr (x, f) ↦ ground arith
    | inl (roles, f) ↦ elim (Result-cases (store.assignments p.org_id p.subject)) [
      | inr (x, g) ↦ ground arith
      | inl (assignments, g) ↦ ground (
        arith,
        scopes_each-all (permissions_by_role roles) p permission scope_type [] assignments,
      )
    ]
  ]

  scopes_store-IsSorted : IsSorted (scopes_store store p permission scope_type).ids
  unfolding scopes_store
  scopes_store-IsSorted = elim (Result-cases (store.roles p.org_id)) [
    | inr (x, f) ↦ ground arith
    | inl (roles, f) ↦ elim (Result-cases (store.assignments p.org_id p.subject)) [
      | inr (x, g) ↦ ground arith
      | inl (assignments, g) ↦
          let by_role = permissions_by_role roles in
          let found = scopes_each by_role p permission scope_type [] assignments in
          ground (arith, sort_strings-IsSorted (ids_of found))
    ]
  ]

  scopes_store-IsDistinct : IsDistinct (scopes_store store p permission scope_type).ids
  unfolding scopes_store
  scopes_store-IsDistinct = elim (Result-cases (store.roles p.org_id)) [
    | inr (x, f) ↦ ground arith
    | inl (roles, f) ↦ elim (Result-cases (store.assignments p.org_id p.subject)) [
      | inr (x, g) ↦ ground arith
      | inl (assignments, g) ↦
          let by_role = permissions_by_role roles in
          let found = scopes_each by_role p permission scope_type [] assignments in
          ground (
            arith,
            scopes_each-IsDistinct by_role p permission scope_type [] assignments tt,
            sort_strings-IsDistinct (ids_of found),
          )
    ]
  ]

  scopes_store-all_or_ids :
      (scopes_store store p permission scope_type).all ≡ true
      → (scopes_store store p permission scope_type).ids ≡ []
  unfolding scopes_store
  scopes_store-all_or_ids h = ground arith

module _ (r : Rbac) (p : Principal) (permission scope_type : String) where
  -- For a scope type and an id that are not empty, AllowedScopes answers everywhere or lists the id
  -- exactly when Check allows the permission on a resource of the principal's organization that
  -- lists that one scope, also where the store fails.
  pub allowed_scopes-check :
      (id : String)
      → scope_type ≢ ""
      → id ≢ ""
      → ((allowed_scopes r p permission scope_type).all
          || contains id (allowed_scopes r p permission scope_type).ids)
        ≡ (check r p permission (at_scope p (record { type = scope_type; id = id } ∷ []))).0.allowed
  unfolding allowed_scopes check
  allowed_scopes-check id ht hi = elim (Option-cases r.store) [
    | inl e ↦ ground (arith, eq_iff p.org_id p.org_id)
    | inr (store, e) ↦ ground (
      arith,
      eq_iff p.org_id p.org_id,
      scopes_store-covers store p permission scope_type id ht hi,
    )
  ]

  -- AllowedScopes answers everywhere exactly when Check allows the permission on a resource of the
  -- organization with no scope; it then lists no id; and the ids that it lists are sorted and
  -- without duplicates.
  pub allowed_scopes-canonical :
      (((allowed_scopes r p permission scope_type).all ≡ true)
        ↔ ((check r p permission (at_scope p [])).0.allowed ≡ true))
      × ((allowed_scopes r p permission scope_type).all ≡ true
          → (allowed_scopes r p permission scope_type).ids ≡ [])
      × IsSorted (allowed_scopes r p permission scope_type).ids
      × IsDistinct (allowed_scopes r p permission scope_type).ids
  unfolding allowed_scopes check
  allowed_scopes-canonical = elim (Option-cases r.store) [
    | inl e ↦ (ground (arith, eq_iff p.org_id p.org_id), ground arith, ground arith, ground arith)
    | inr (store, e) ↦ (
      ground (arith, eq_iff p.org_id p.org_id, scopes_store-all store p permission scope_type),
      ground (arith, scopes_store-all_or_ids store p permission scope_type),
      ground (arith, scopes_store-IsSorted store p permission scope_type),
      ground (arith, scopes_store-IsDistinct store p permission scope_type),
    )
  ]
