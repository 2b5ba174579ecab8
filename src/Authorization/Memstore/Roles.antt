-- ===== src/Authorization/Memstore/Roles.antt =====
-- memstore.go: the roles of an organization and their keys.
use orbit_auth.Prelude.{
  String, ◌≡◌, refl, Option, none, some, List, [], ◌∷◌, arith, ◌==◌, eq_iff, lookup-insert,
  if◌then◌else◌,
}
use orbit_auth.Authorization.Catalog.{RoleDef}
use orbit_auth.Authorization.Memstore.{Memstore, stored_roles, put_role, add_role}

-- The first role with a key.
pub find_role : String → List RoleDef → Option RoleDef
find_role k [] = none
find_role k (r ∷ roles) = if r.key == k then some r else find_role k roles

-- No two roles have one key.
abbrev pub DistinctKeys : List RoleDef → Type 0
DistinctKeys [] = Unit
DistinctKeys (r ∷ roles) = (find_role r.key roles ≡ none) × DistinctKeys roles

find_role-put_role :
    (role : RoleDef) (k : String) (roles : List RoleDef)
    → find_role k (put_role role roles) ≡ (if role.key == k then some role else find_role k roles)
unfolding find_role put_role
find_role-put_role role k [] = refl
find_role-put_role role k (r ∷ roles) = ground (
  arith,
  find_role-put_role role k roles,
  eq_iff r.key role.key,
  eq_iff role.key k,
  eq_iff r.key k,
)

put_role-DistinctKeys :
    (role : RoleDef) (roles : List RoleDef)
    → DistinctKeys roles
    → DistinctKeys (put_role role roles)
unfolding put_role
put_role-DistinctKeys role [] h = (unfold find_role in refl, tt)
put_role-DistinctKeys role (r ∷ roles) h = ground (
  arith,
  put_role-DistinctKeys role roles,
  find_role-put_role role r.key roles,
  eq_iff r.key role.key,
  eq_iff role.key r.key,
)

stored_roles-add_role :
    (o : String) (role : RoleDef) (m : Memstore) (o' : String)
    → stored_roles (add_role o role m) o'
      ≡ (if o == o' then put_role role (stored_roles m o) else stored_roles m o')
unfolding stored_roles add_role
stored_roles-add_role o role m o' = rw (lookup-insert o o' _ m.roles) (ground arith)

-- After AddRole the organization's role with that key is the new one, each other role of each
-- organization is what it was, and distinct keys stay distinct.
pub add_role_lem :
    (o : String) (role : RoleDef) (m : Memstore) (o' k : String)
    → (find_role k (stored_roles (add_role o role m) o') ≡ (
        if o == o'
        then (if role.key == k then some role else find_role k (stored_roles m o'))
        else find_role k (stored_roles m o')))
      × (DistinctKeys (stored_roles m o') → DistinctKeys (stored_roles (add_role o role m) o'))
add_role_lem o role m o' k = rw (stored_roles-add_role o role m o') (
  ground (arith, eq_iff o o', find_role-put_role role k (stored_roles m o)),
  λ h. ground (arith, eq_iff o o', put_role-DistinctKeys role (stored_roles m o)),
)
