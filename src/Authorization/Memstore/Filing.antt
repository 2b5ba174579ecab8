-- ===== src/Authorization/Memstore/Filing.antt =====
-- memstore.go: under which organization and subject assignments are filed.
use orbit_auth.Prelude.{
  String, ◌≡◌, refl, inl, inr, ◌&&◌, List, [], ◌∷◌, ◌++◌, map, arith, ◌==◌, eq_iff, eq_refl, subst,
  All, All-if, All-append, lookup, lookup-insert, if◌then◌else◌, String-cases,
}
use orbit_auth.Authorization.Rbac.{Assignment}
use orbit_auth.Authorization.Memstore.{
  Memstore, new, org_assignments, stored_assignments, set_roles, add_role, file, put_assignments,
  set_assignments, add_assignment, Op, replace_roles, insert_role, replace_assignments,
  append_assignment, apply, run,
}

-- A write at one organization and subject is read back there, and nowhere else.
stored-put_assignments :
    (o s : String) (l : List Assignment) (m : Memstore) (o' s' : String)
    → stored_assignments (put_assignments o s l m) o' s'
      ≡ (if o == o' && s == s' then l else stored_assignments m o' s')
unfolding stored_assignments put_assignments
stored-put_assignments o s l m o' s' =
    rw (lookup-insert o o' _ m.assignments) (elim (String-cases o o') [
      | inl same ↦
          rw (← same, eq_refl o) (rw (lookup-insert s s' l (org_assignments m o)) (ground arith))
      | inr other ↦ ground (arith, eq_iff o o')
    ])

-- SetAssignments replaces the assignments of its subject in its organization by the given ones,
-- filed under those two, and changes no other list; AddAssignment appends to the list that the
-- assignment's own fields name.
pub assignments_refine :
    (m : Memstore) (o s : String) (l : List Assignment) (a : Assignment) (o' s' : String)
    → (stored_assignments (set_assignments o s l m) o' s'
        ≡ (if o == o' && s == s' then map (file o s) l else stored_assignments m o' s'))
      × (stored_assignments (add_assignment a m) o' s' ≡ (
          if a.org_id == o' && a.subject == s'
          then stored_assignments m a.org_id a.subject ++ a ∷ []
          else stored_assignments m o' s'))
unfolding set_assignments add_assignment
assignments_refine m o s l a o' s' = (
  stored-put_assignments o s (map (file o s) l) m o' s',
  stored-put_assignments a.org_id a.subject (stored_assignments m a.org_id a.subject ++ a ∷ []) m o'
      s',
)

-- An assignment that names the organization and the subject it is stored under.
abbrev pub IsOf : String → String → Assignment → Type 0
IsOf o s a = (a.org_id ≡ o) × (a.subject ≡ s)

pub record IsFiled (m : Memstore) : Type 0 where
  pub at : (o s : String) → All (IsOf o s) (stored_assignments m o s)

All-file : (o s : String) (l : List Assignment) → All (IsOf o s) (map (file o s) l)
unfolding file
All-file o s [] = tt
All-file o s (a ∷ l) = ((refl, refl), All-file o s l)

put_assignments-IsFiled :
    (o s : String) (l : List Assignment) (m : Memstore)
    → All (IsOf o s) l
    → IsFiled m
    → IsFiled (put_assignments o s l m)
put_assignments-IsFiled o s l m hl h = record {
  at = λ o' s'. rw (stored-put_assignments o s l m o' s') (
      All-if (IsOf o' s') (o == o' && s == s') l (stored_assignments m o' s')
        (λ here.
          subst (λ x. All (IsOf x s') l) ((eq_iff o o').0 (ground arith))
            (subst (λ y. All (IsOf o y) l) ((eq_iff s s').0 (ground arith)) hl))
        (λ elsewhere. h.at o' s'));
}

apply-IsFiled : (op : Op) (m : Memstore) → IsFiled m → IsFiled (apply op m)
unfolding apply set_roles add_role set_assignments add_assignment stored_assignments org_assignments
apply-IsFiled (replace_roles o roles) m h = record { at = h.at }
apply-IsFiled (insert_role o role) m h = record { at = h.at }
apply-IsFiled (replace_assignments o s l) m h =
    put_assignments-IsFiled o s (map (file o s) l) m (All-file o s l) h
apply-IsFiled (append_assignment a) m h =
    put_assignments-IsFiled a.org_id a.subject (stored_assignments m a.org_id a.subject ++ a ∷ []) m
      (All-append (IsOf a.org_id a.subject) _ _ (h.at a.org_id a.subject) ((refl, refl), tt)) h

-- Whatever sequence of calls is made, from a store that is filed rightly, each assignment that is
-- returned names the organization and the subject that it was asked for.
pub run-IsFiled : (ops : List Op) (m : Memstore) → IsFiled m → IsFiled (run ops m)
unfolding run
run-IsFiled [] m h = h
run-IsFiled (op ∷ ops) m h = run-IsFiled ops (apply op m) (apply-IsFiled op m h)

pub new-IsFiled : IsFiled new
unfolding stored_assignments lookup
new-IsFiled = record { at = λ o s. tt }
