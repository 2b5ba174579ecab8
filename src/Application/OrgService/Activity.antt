-- ===== src/Application/OrgService/Activity.antt =====
-- `IsActiveMember` of organizations.go and the membership rows.
use orbit_auth.Prelude.{
  ◌+◌, String, Bool, ◌≡◌, refl, true, false, some, List, arith, Bool-cases, inl, inr,
}
use orbit_auth.Prelude.GoText.{trim_space}
use orbit_auth.Prelude.Results.{Result, ok, err}
use orbit_auth.Domain.{Membership, is_active, Error}
use orbit_auth.Runtime.{Env, World, try, ◌>>=◌, statement, parse_id}
use orbit_auth.Runtime.Effects.{
  Effect, Effect-bind, Effect-map, Effect-pure, Effect-raise, Effect-refuse,
}
use orbit_auth.Runtime.Reads.{
  IsReadOnly, Effect-try, bind-IsReadOnly, pure-IsReadOnly, raise-IsReadOnly, refuse-IsReadOnly,
  try-IsReadOnly,
}
use orbit_auth.Postgres.Memberships
use orbit_auth.Postgres.Queries.{get_organization_membership, row_or_none}
use orbit_auth.Postgres.Organizations.{is_not_member, get_membership}
use orbit_auth.Postgres.Organizations.Effects.{Effect-get_membership, get_membership-IsReadOnly}
use orbit_auth.Application.OrgService.{is_active_member, active_trimmed, active_answer}

-- The two texts, trimmed, name an active membership.
pub record IsActiveIn (env : Env) (members : List Membership) (org_id user_id : String)
    : Type 0 where
  pub org : String
  pub user : String
  pub row : Membership
  pub org_parsed : env.parse_uuid (trim_space org_id) ≡ some org
  pub user_parsed : env.parse_uuid (trim_space user_id) ≡ some user
  pub found : Memberships.find org user members ≡ some row
  pub status : is_active row.status ≡ true

module _ (env : Env) where
  active_answer-Effect :
      (r : Result Error Membership)
      → Effect (active_answer env r) (λ d b d'.
        (d' ≡ d) × (b ≡ true → (m : Membership) × (r ≡ ok m) × (is_active m.status ≡ true)))
  unfolding active_answer
  active_answer-Effect (ok m) =
      Effect-map _ _ _ (Effect-pure (is_active m.status))
        λ d b d' e. (e.1, λ h. (m, refl, ground (arith, e.0)))
  active_answer-Effect (err e) = elim (Bool-cases (is_not_member e)) [
    | inl absent ↦
        rw absent (
          Effect-map _ _ _ (Effect-pure false) λ d b d' e. (e.1, λ h. absurd (ground (arith, e.0))))
    | inr other ↦ rw other (Effect-raise e _)
  ]

  pub Effect-is_active_member :
      (org_id user_id : String)
      → Effect
          (is_active_member env org_id user_id)
          (λ d b d'. (d' ≡ d) × (b ≡ true → IsActiveIn env d.memberships org_id user_id))
  unfolding is_active_member active_trimmed
  Effect-is_active_member org_id user_id =
      Effect-map _ _ _
        (Effect-bind _ _ _ _ (Effect-refuse _ _) λ _.
          Effect-bind _ _ _ _
            (Effect-try _ _ (get_membership-IsReadOnly env _ _) (Effect-get_membership env _ _))
            active_answer-Effect)
        λ d b d' s.
          let found = s.second in
          (
            ground (arith, s.first, found.first.0, found.second.0),
            λ h.
                let (m, read, status) = found.second.1 h in
                let row = (found.first.1 m read).1 in
                record {
                  org = row.0;
                  user = row.1;
                  row = m;
                  org_parsed = row.2;
                  user_parsed = row.3;
                  found = ground (arith, row.4, s.first);
                  status = status;
                },
          )

  active_answer-IsReadOnly : (r : Result Error Membership) → IsReadOnly (active_answer env r)
  unfolding active_answer
  active_answer-IsReadOnly (ok m) = pure-IsReadOnly (is_active m.status)
  active_answer-IsReadOnly (err e) = elim (Bool-cases (is_not_member e)) [
    | inl absent ↦ rw absent (pure-IsReadOnly false)
    | inr other ↦ rw other (raise-IsReadOnly e)
  ]

  pub is_active_member-IsReadOnly :
      (org_id user_id : String) → IsReadOnly (is_active_member env org_id user_id)
  unfolding is_active_member active_trimmed
  is_active_member-IsReadOnly org_id user_id = bind-IsReadOnly _ _ (refuse-IsReadOnly _ _) λ _.
      bind-IsReadOnly _ _ (try-IsReadOnly _ (get_membership-IsReadOnly env _ _))
        active_answer-IsReadOnly

  -- An answer takes one call to the database.
  pub is_active_member-calls :
      (org_id user_id : String) (w : World) (b : Bool)
      → (is_active_member env org_id user_id w).0 ≡ ok b
      → (is_active_member env org_id user_id w).1.calls ≡ w.calls + 1
  unfolding is_active_member active_trimmed active_answer get_membership get_organization_membership
      statement row_or_none parse_id try ◌>>=◌
  is_active_member-calls org_id user_id w b h = ground arith
