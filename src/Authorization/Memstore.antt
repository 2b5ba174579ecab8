-- ===== src/Authorization/Memstore.antt =====
-- authorization/memstore/memstore.go: the in-memory store. A nil Go map reads as the empty map, and
-- the copies that the code makes of its arguments and results are the values themselves here.
pub mod Filing
pub mod Roles
use orbit_auth.Prelude.{
  String, Bool, true, false, List, [], ◌∷◌, ◌++◌, map, ◌==◌, lookup, insert, or_else, if◌then◌else◌,
}
use orbit_auth.Prelude.Results.{Result, ok, err}
use orbit_auth.Authorization.Catalog.{RoleDef}
use orbit_auth.Authorization.Rbac.{Assignment, Store}

pub record Memstore : Type 0 where
  pub roles : List (String × List RoleDef)
  pub assignments : List (String × List (String × List Assignment))

abbrev pub new : Memstore
new = record { roles = []; assignments = [] }

-- `s.roles[orgID]`
pub stored_roles : Memstore → String → List RoleDef
stored_roles m org_id = or_else [] (lookup org_id m.roles)

-- `s.assignments[orgID]`
pub org_assignments : Memstore → String → List (String × List Assignment)
org_assignments m org_id = or_else [] (lookup org_id m.assignments)

-- `s.assignments[orgID][subject]`
pub stored_assignments : Memstore → String → String → List Assignment
unfolding org_assignments
stored_assignments m org_id subject = or_else [] (lookup subject (org_assignments m org_id))

pub set_roles : String → List RoleDef → Memstore → Memstore
set_roles org_id roles m = record m { roles = insert org_id roles m.roles }

-- The role with the same key is replaced where it stands; otherwise the role is appended.
pub put_role : RoleDef → List RoleDef → List RoleDef
put_role role [] = role ∷ []
put_role role (r ∷ roles) = if r.key == role.key then role ∷ roles else r ∷ put_role role roles

pub add_role : String → RoleDef → Memstore → Memstore
unfolding stored_roles put_role
add_role org_id role m = record m {
  roles = insert org_id (put_role role (stored_roles m org_id)) m.roles;
}

pub file : String → String → Assignment → Assignment
file org_id subject a = record a { org_id = org_id; subject = subject }

put_assignments : String → String → List Assignment → Memstore → Memstore
put_assignments org_id subject assignments m = record m {
  assignments = insert org_id (insert subject assignments (org_assignments m org_id)) m.assignments;
}

pub set_assignments : String → String → List Assignment → Memstore → Memstore
unfolding put_assignments file
set_assignments org_id subject assignments m =
    put_assignments org_id subject (map (file org_id subject) assignments) m

pub add_assignment : Assignment → Memstore → Memstore
unfolding put_assignments stored_assignments
add_assignment a m =
    put_assignments a.org_id a.subject (stored_assignments m a.org_id a.subject ++ a ∷ []) m

-- `Roles` and `Assignments`, as the port; a context that is done is an error.
unfoldable pub as_store : Bool → Memstore → Store
unfolding stored_roles stored_assignments
as_store cancelled m = record {
  roles = λ org_id. if cancelled then err tt else ok (stored_roles m org_id);
  assignments =
      λ org_id subject. if cancelled then err tt else ok (stored_assignments m org_id subject);
}

-- A call that changes the store, and a sequence of calls from the empty store.
pub data Op : Type 0 where
  replace_roles : String → List RoleDef → Op
  insert_role : String → RoleDef → Op
  replace_assignments : String → String → List Assignment → Op
  append_assignment : Assignment → Op

apply : Op → Memstore → Memstore
apply (replace_roles org_id roles) m = set_roles org_id roles m
apply (insert_role org_id role) m = add_role org_id role m
apply (replace_assignments org_id subject l) m = set_assignments org_id subject l m
apply (append_assignment a) m = add_assignment a m

pub run : List Op → Memstore → Memstore
unfolding apply
run [] m = m
run (op ∷ ops) m = run ops (apply op m)
