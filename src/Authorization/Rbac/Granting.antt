-- ===== src/Authorization/Rbac/Granting.antt =====
-- `CanGrant` of rbac.go: who may hand out a role, and what the grant allows.
use orbit_auth.Prelude.{
  String, ◌≡◌, ◌≢◌, refl, sym, ◌↔◌, ◌⊎◌, inl, inr, true, ◌||◌, Option, none, some, List, [], ◌∷◌,
  arith, ◌==◌, eq_iff, Option-cases, contains_iff, In, Any, All, Any-map_All, any, lookup,
  lookup-insert, subst, ◌∙◌, Any-map,
}
use orbit_auth.Prelude.Results.{ok}
use orbit_auth.Authorization.Catalog.{Catalog, RoleDef, is_some}
use orbit_auth.Authorization.Rbac.{
  Scope, Resource, Assignment, Principal, Store, PermissionSets, add_role, collect_roles,
  permissions_by_role, role_grants, check, holds, holds_all, can_grant, new_rbac,
}
use orbit_auth.Authorization.Rbac.Grants.{RoleGrants, role_grants_iff}
use orbit_auth.Authorization.Rbac.Decisions.{Applies, Granting, IsAllowed, check_iff}

lookup-add_role :
    (m : PermissionSets) (r : RoleDef) (k : String)
    → is_some (lookup k (add_role m r)) ≡ (is_some (lookup k m) || r.key == k)
unfolding add_role
lookup-add_role m r k = rw (lookup-insert r.key k _ m) (ground arith)

lookup-collect_roles :
    (m : PermissionSets) (roles : List RoleDef) (k : String)
    → is_some (lookup k (collect_roles m roles))
      ≡ (is_some (lookup k m) || any (λ r. r.key == k) roles)
unfolding collect_roles
lookup-collect_roles m [] k = ground arith
lookup-collect_roles m (r ∷ roles) k =
    ground (arith, lookup-collect_roles (add_role m r) roles k, lookup-add_role m r k)

any-key_iff :
    (roles : List RoleDef) (k : String)
    → (any (λ r. r.key == k) roles ≡ true) ↔ Any (λ r. r.key ≡ k) roles
any-key_iff [] k = ground arith
any-key_iff (r ∷ roles) k = ground (arith, eq_iff r.key k, any-key_iff roles k)

lookup-nil : (k : String) → lookup {V = List String} k [] ≡ none
unfolding lookup
lookup-nil k = refl

has_role_iff :
    (roles : List RoleDef) (k : String)
    → (is_some (lookup k (permissions_by_role roles)) ≡ true) ↔ Any (λ r. r.key ≡ k) roles
unfolding permissions_by_role
has_role_iff roles k =
    ground (arith, lookup-collect_roles [] roles k, lookup-nil k, any-key_iff roles k)

-- A granter's assignment that covers one permission of the target.
abbrev pub Covers : List RoleDef → Assignment → String → Assignment → Type 0
Covers roles target permission a =
    (a.org_id ≡ target.org_id)
    × RoleGrants roles a.role_key permission
    × ((a.scope.type ≡ "") ⊎ ((a.scope.type ≡ target.scope.type) × (a.scope.id ≡ target.scope.id)))

holds_iff :
    (roles : List RoleDef) (target : Assignment) (q : String) (granter : List Assignment)
    → (holds (permissions_by_role roles) target q granter ≡ true)
      ↔ Any (Covers roles target q) granter
unfolding holds
holds_iff roles target q [] = ground arith
holds_iff roles target q (a ∷ granter) = ground (
  arith,
  eq_iff a.org_id target.org_id,
  eq_iff a.scope.type "",
  eq_iff a.scope.type target.scope.type,
  eq_iff a.scope.id target.scope.id,
  role_grants_iff roles a.role_key q,
  holds_iff roles target q granter,
)

module _ (by_role : PermissionSets) (target : Assignment) (granter : List Assignment) where
  holds_all_sound :
      (ps : List String) (q : String)
      → holds_all by_role target granter ps ≡ true
      → In q ps
      → holds by_role target q granter ≡ true
  unfolding holds_all
  holds_all_sound [] q h i = absurd i
  holds_all_sound (p ∷ ps) q h (inl e) = rw (← e) (ground arith)
  holds_all_sound (p ∷ ps) q h (inr i) = holds_all_sound ps q (ground arith) i

  holds_all_complete :
      (ps : List String)
      → ((q : String) → In q ps → holds by_role target q granter ≡ true)
      → holds_all by_role target granter ps ≡ true
  unfolding holds_all
  holds_all_complete [] h = refl
  holds_all_complete (p ∷ ps) h =
      ground (arith, h p (inl refl), holds_all_complete ps (λ q i. h q (inr i)))

-- When a granter may hand out the target role.
pub record MayGrant (granter : List Assignment) (roles : List RoleDef) (target : Assignment)
    : Type 0 where
  pub in_org : target.org_id ≢ ""
  pub known : Any (λ r. r.key ≡ target.role_key) roles
  pub covered :
      (q : String) → RoleGrants roles target.role_key q → Any (Covers roles target q) granter

module _ (granter : List Assignment) (roles : List RoleDef) (target : Assignment) where
  RoleGrants-of_lookup :
      (ps : List String) (q : String)
      → lookup target.role_key (permissions_by_role roles) ≡ some ps
      → RoleGrants roles target.role_key q ↔ In q ps
  unfolding role_grants
  RoleGrants-of_lookup ps q e =
      ground (arith, role_grants_iff roles target.role_key q, contains_iff q ps)

  can_grant_sound : can_grant granter roles target ≡ true → MayGrant granter roles target
  unfolding can_grant
  can_grant_sound h = elim (Option-cases (lookup target.role_key (permissions_by_role roles))) [
    | inl e ↦ absurd (ground arith)
    | inr (ps, e) ↦ record {
      in_org = ground (arith, eq_iff target.org_id "");
      known = ground (arith, has_role_iff roles target.role_key);
      covered = λ q g. (holds_iff roles target q granter).0 (
          holds_all_sound (permissions_by_role roles) target granter ps q (ground arith)
            ((RoleGrants-of_lookup ps q e).0 g));
    }
  ]

  can_grant_complete : MayGrant granter roles target → can_grant granter roles target ≡ true
  unfolding can_grant
  can_grant_complete m = elim (Option-cases (lookup target.role_key (permissions_by_role roles))) [
    | inl e ↦ absurd (ground (arith, has_role_iff roles target.role_key, m.known))
    | inr (ps, e) ↦
        let every = holds_all_complete (permissions_by_role roles) target granter ps (λ q i.
          (holds_iff roles target q granter).1 (m.covered q ((RoleGrants-of_lookup ps q e).1 i))) in
        ground (arith, eq_iff target.org_id "", m.in_org)
  ]

  -- CanGrant holds exactly when the target names an organization and a known role, and for each
  -- permission of that role some assignment of the granter in the same organization grants it,
  -- organization-wide or on exactly the target's scope.
  pub can_grant_iff : (can_grant granter roles target ≡ true) ↔ MayGrant granter roles target
  can_grant_iff = (can_grant_sound, can_grant_complete)

-- A store that holds these roles and these assignments.
abbrev pub fixed_store : List RoleDef → List Assignment → Store
fixed_store roles assignments = record {
  roles = λ org_id. ok roles;
  assignments = λ org_id subject. ok assignments;
}

abbrev pub grantee : Assignment → Principal
grantee target = record { subject = target.subject; org_id = target.org_id }

module _ (catalog : Option Catalog) (roles : List RoleDef) (granter : List Assignment)
    (g : Principal) (target : Assignment) where
  covers→granting :
      (q : String) (scopes : List Scope) (a : Assignment)
      → g.org_id ≡ target.org_id
      → Applies target.scope scopes
      → a.subject ≡ g.subject
      → Covers roles target q a
      → Granting roles g q scopes a
  covers→granting q scopes a same applies mine (org, grants, inl wide) =
      ((org ∙ sym same, mine, grants), inl wide)
  covers→granting q scopes a same (inl wide) mine (org, grants, inr (t, i)) =
      ((org ∙ sym same, mine, grants), inl (t ∙ wide))
  covers→granting q scopes a same (inr listed) mine (org, grants, inr (t, i)) = (
    (org ∙ sym same, mine, grants),
    inr (Any-map scopes (λ s e. (e.0 ∙ sym t, e.1 ∙ sym i)) listed),
  )

  fixed-Granting :
      (assignments : List Assignment) (p : Principal) (q : String) (resource : Resource)
      → IsAllowed (new_rbac catalog (some (fixed_store roles assignments))) p q resource
      → Any (Granting roles p q resource.scopes) assignments
  unfolding new_rbac
  fixed-Granting assignments p q resource h =
      let same_roles : roles ≡ h.roles = ground (arith, h.connected, h.read_roles) in
      let same_assignments : assignments ≡ h.assignments =
        ground (arith, h.connected, h.read_assignments) in
      subst (λ l. Any (Granting roles p q resource.scopes) l) (sym same_assignments)
        (subst (λ rs. Any (Granting rs p q resource.scopes) h.assignments) (sym same_roles)
          h.granting)

  target-Applies :
      (q : String) (scopes : List Scope)
      → Any (Granting roles (grantee target) q scopes) (target ∷ [])
      → RoleGrants roles target.role_key q × Applies target.scope scopes
  target-Applies q scopes (inl ((_, _, grants), applies)) = (grants, applies)
  target-Applies q scopes (inr h) = absurd h

  -- When CanGrant holds for a granter in the target's organization whose listed assignments are all
  -- their own, whatever Check allows the grantee on account of the granted assignment it allows the
  -- granter too.
  pub can_grant-no_escalation :
      (q : String) (resource : Resource)
      → g.org_id ≡ target.org_id
      → g.subject ≢ ""
      → All (λ a. a.subject ≡ g.subject) granter
      → can_grant granter roles target ≡ true
      → (check
          (new_rbac catalog (some (fixed_store roles (target ∷ []))))
          (grantee target)
          q
          resource).0.allowed
        ≡ true
      → (check (new_rbac catalog (some (fixed_store roles granter))) g q resource).0.allowed ≡ true
  unfolding new_rbac
  can_grant-no_escalation q resource same named mine can allowed =
      let h =
        (check_iff (new_rbac catalog (some (fixed_store roles (target ∷ [])))) (grantee target) q
            resource).0
          allowed in
      let (grants, applies) =
        target-Applies q resource.scopes
          (fixed-Granting (target ∷ []) (grantee target) q resource h) in
      (check_iff (new_rbac catalog (some (fixed_store roles granter))) g q resource).1 (record {
        store = fixed_store roles granter;
        roles = roles;
        assignments = granter;
        in_org = λ e. h.in_org (sym same ∙ e);
        has_subject = named;
        same_org = h.same_org ∙ sym same;
        catalogued = h.catalogued;
        connected = refl;
        read_roles = refl;
        read_assignments = refl;
        granting =
            Any-map_All granter (λ a own c. covers→granting q resource.scopes a same applies own c)
              mine ((can_grant_sound granter roles target can).covered q grants);
      })
