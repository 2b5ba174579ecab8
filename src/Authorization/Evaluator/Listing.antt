-- ===== src/Authorization/Evaluator/Listing.antt =====
-- The list of permissions of authorization/policy.go and its test of one.
use orbit_auth.Prelude.{
  String, ◌≡◌, refl, sym, subst, ◌∙◌, Bool, false, ◌||◌, some, List, [], ◌∷◌, arith, ◌==◌, eq_iff,
  lookup, insert, lookup-insert, any, contains, set_insert, contains-set_insert, Bool-cases, inl,
  inr,
}
use orbit_auth.Prelude.Results.{ok, ◌>>=◌, ◌>>◌, bind-eq-ok, refuse_if}
use orbit_auth.Prelude.Sorting.{
  IsSorted, IsDistinct, contains-sort_strings, sort_strings-IsSorted, sort_strings-IsDistinct,
  set_insert-IsDistinct,
}
use orbit_auth.Authorization.Identifier.{
  Kind, role_without_permission, validate_identifier, identifier_pattern,
}
use orbit_auth.Authorization.Evaluator.{
  Policy, Evaluator, add_grants, add_roles, new_evaluator, granted, is_empty, allows, add_all,
  collect, permissions,
}

contains-add_all :
    (p : String) (set l : List String)
    → contains p (add_all set l) ≡ (contains p set || contains p l)
unfolding add_all
contains-add_all p set [] = ground arith
contains-add_all p set (x ∷ l) =
    ground (arith, contains-add_all p (set_insert x set) l, contains-set_insert x p set)

add_all-IsDistinct : (set l : List String) → IsDistinct set → IsDistinct (add_all set l)
unfolding add_all
add_all-IsDistinct set [] h = h
add_all-IsDistinct set (x ∷ l) h =
    add_all-IsDistinct (set_insert x set) l (set_insert-IsDistinct x set h)

module _ (by_role : List (String × List String)) where
  abbrev has_role : String → List String → Bool
  has_role p roles = any (λ role. contains p (granted by_role role)) roles

  contains-collect :
      (p : String) (set roles : List String)
      → contains p (collect by_role set roles) ≡ (contains p set || has_role p roles)
  unfolding collect
  contains-collect p set [] = ground arith
  contains-collect p set (role ∷ roles) = ground (
    arith,
    contains-collect p (add_all set (granted by_role role)) roles,
    contains-add_all p set (granted by_role role),
  )

  collect-IsDistinct :
      (set roles : List String) → IsDistinct set → IsDistinct (collect by_role set roles)
  unfolding collect
  collect-IsDistinct set [] h = h
  collect-IsDistinct set (role ∷ roles) h =
      collect-IsDistinct (add_all set (granted by_role role)) roles
        (add_all-IsDistinct set (granted by_role role) h)

  -- No role grants the empty text.
  abbrev IsNamed : Type 0
  IsNamed = (role : String) → contains "" (granted by_role role) ≡ false

  has_role-IsNamed : (roles : List String) → IsNamed → has_role "" roles ≡ false
  has_role-IsNamed [] h = refl
  has_role-IsNamed (role ∷ roles) h = ground (arith, h role, has_role-IsNamed roles h)

empty-invalid : (validate_identifier Kind.permission "") ≡ ok tt → ⊥
unfolding validate_identifier identifier_pattern
empty-invalid h = ground (arith, h)

add_grants-named :
    (set grants l : List String)
    → add_grants set grants ≡ ok l
    → contains "" set ≡ false
    → contains "" l ≡ false
unfolding add_grants
add_grants-named set [] l h clean = ground arith
add_grants-named set (x ∷ grants) l h clean =
    let (u, valid, rest) =
      bind-eq-ok (validate_identifier Kind.permission x) (λ _. add_grants (set_insert x set) grants)
        h in
    elim (Bool-cases (x == "")) [
      | inl e ↦ absurd (
          empty-invalid (
            subst (λ y. validate_identifier Kind.permission y ≡ ok tt)
              (ground (arith, e, eq_iff x "")) valid))
      | inr e ↦
          add_grants-named (set_insert x set) grants l rest
            (ground (arith, contains-set_insert x "" set))
    ]

add_roles-IsNamed :
    (by_role : List (String × List String)) (policy : Policy) (e : Evaluator)
    → add_roles by_role policy ≡ ok e
    → IsNamed by_role
    → IsNamed e.permissions
unfolding add_roles
add_roles-IsNamed by_role [] e h named = λ role.
    subst {A = Evaluator} (λ x. contains "" (granted x.permissions role) ≡ false)
      (ground (arith, h)) (named role)
add_roles-IsNamed by_role ((name, grants) ∷ policy) e h named =
    let (u, valid, rest) =
      bind-eq-ok (validate_identifier Kind.role name)
        (λ x.
          refuse_if (is_empty grants) (role_without_permission name)
          >> (add_grants [] grants >>= λ l. add_roles (insert name l by_role) policy))
        h in
    let (v, some_grants, loop) =
      bind-eq-ok (refuse_if (is_empty grants) (role_without_permission name))
        (λ x. add_grants [] grants >>= λ l. add_roles (insert name l by_role) policy) rest in
    let (l, added, next) =
      bind-eq-ok (add_grants [] grants) (λ l. add_roles (insert name l by_role) policy) loop in
    add_roles-IsNamed (insert name l by_role) policy e next (λ role.
      rw (lookup-insert name role l by_role)
        (ground (arith, named role, add_grants-named [] grants l added refl)))

nothing-IsNamed : IsNamed []
unfolding lookup
nothing-IsNamed role = refl

new_evaluator-made :
    (policy : Policy) (e : Evaluator) → new_evaluator policy ≡ ok e → add_roles [] policy ≡ ok e
unfolding new_evaluator
new_evaluator-made [] e h = absurd (ground (arith, h))
new_evaluator-made (entry ∷ policy) e h = h

-- For an evaluator that NewEvaluator gives, Permissions lists a permission for some roles exactly
-- when Allows answers true for it, the empty text included, and the list is sorted and without
-- repetition.
pub permissions-allows :
    (policy : Policy) (e : Evaluator) (roles : List String) (permission : String)
    → new_evaluator policy ≡ ok e
    → (contains permission (permissions (some e) roles) ≡ allows (some e) roles permission)
      × IsSorted (permissions (some e) roles)
      × IsDistinct (permissions (some e) roles)
unfolding permissions allows
permissions-allows policy e roles permission h =
    let named : IsNamed e.permissions =
      add_roles-IsNamed [] policy e (new_evaluator-made policy e h) nothing-IsNamed in
    (
      contains-sort_strings permission (collect e.permissions [] roles)
          ∙ contains-collect e.permissions permission [] roles
          ∙ (elim (Bool-cases (permission == "")) [
            | inl f ↦ rw f (
                subst (λ p. has_role e.permissions p roles ≡ false)
                  (sym (ground (arith, f, eq_iff permission "")))
                  (has_role-IsNamed e.permissions roles named))
            | inr f ↦ rw f refl
          ]),
      sort_strings-IsSorted (collect e.permissions [] roles),
      sort_strings-IsDistinct (collect e.permissions [] roles)
          (collect-IsDistinct e.permissions [] roles tt),
    )
