-- ===== src/Postgres/Organizations/Outcomes.antt =====
-- The transactions of organizations.go: what each has found and written when it succeeds.
use orbit_auth.Prelude.{
  ◌<◌, String, ◌≡◌, refl, ◌⊎◌, Bool, true, false, not, ◌&&◌, none, some, arith, inl, inr,
  Bool-cases, if◌then◌else◌, leb,
}
use orbit_auth.Prelude.Results.{Result, ok, err}
use orbit_auth.Domain.{
  Time, Organization, Membership, MembershipStatus, active, is_active, is_suspended, org_created,
  membership_added, membership_removed, membership_suspended, Error,
}
use orbit_auth.Runtime.{Db, Env}
use orbit_auth.Runtime.Effects.{
  Effect, Effect-raise, Effect-bind, Effect-map, Effect-pure, Effect-now,
}
use orbit_auth.Postgres.Memberships
use orbit_auth.Postgres.Queries.{find_org, append_org, stored_org}
use orbit_auth.Postgres.Organizations.{
  remove_member_body, update_member_status_body, add_member_body, create_org_body, add_unless_found,
  insert_member, emit_suspended, occurred_at, is_not_member,
}
use orbit_auth.Postgres.Organizations.Effects.{
  emitted, with_members, Effect-emit, Effect-delete_membership, Effect-update_membership_status,
  Effect-lock_organization, Effect-membership_row, Effect-keep_one_active,
  Effect-try-membership_row, Effect-add_organization_membership, Effect-create_organization,
}

-- What `RemoveMember` has done when it returns.
pub record Removed (org user org_id user_id : String) (before : Db) (a : Unit {0}) (after : Db)
    : Type 0 where
  pub row : Membership
  pub time : Time
  pub stamp : Time
  pub found : Memberships.find org user before.memberships ≡ some row
  pub guarded : is_active row.status ≡ true → 1 < Memberships.count_active org before.memberships
  pub written :
      after
      ≡ emitted
          (membership_removed org_id user_id row.status time)
          stamp
          (with_members (Memberships.remove org user before.memberships) before)

-- What `UpdateMemberStatus` has done when it returns. Its event is written only for a row that
-- becomes suspended.
pub record Updated (org user org_id user_id : String) (status : MembershipStatus) (before : Db)
    (a : Unit {0}) (after : Db) : Type 0 where
  pub row : Membership
  pub time : Time
  pub at : Time
  pub stamp : Time
  pub found : Memberships.find org user before.memberships ≡ some row
  pub guarded :
      is_active status ≡ false
      → is_active row.status ≡ true
      → 1 < Memberships.count_active org before.memberships
  pub written : after ≡ (
      if is_suspended status && not (is_suspended row.status)
      then emitted
          (membership_suspended org_id user_id status at)
          stamp
          (with_members (Memberships.set_status org user status time before.memberships) before)
      else with_members (Memberships.set_status org user status time before.memberships) before)

-- What `AddMember` has done when it returns: nothing where there is a row.
pub record Added (org user org_id user_id : String) (status : MembershipStatus) (before : Db)
    (a : Unit {0}) (after : Db) : Type 0 where
  pub time : Time
  pub at : Time
  pub stamp : Time
  pub organization : Organization
  pub known : find_org org before.organizations ≡ some organization
  pub written :
      ((m : Membership) × (Memberships.find org user before.memberships ≡ some m)
        × (after ≡ before))
      ⊎ ((Memberships.find org user before.memberships ≡ none)
          × (after
              ≡ emitted
                  (membership_added org_id user_id status at)
                  stamp
                  (with_members (Memberships.add org user status time before.memberships) before)))

-- What `CreateOrg` has done when it returns.
pub record Created (org user : String) (o : Organization) (creator_id : String) (before : Db)
    (a : Unit {0}) (after : Db) : Type 0 where
  pub time : Time
  pub at : Time
  pub stamps : Time × Time
  pub fresh : find_org org before.organizations ≡ none
  pub written :
      after
      ≡ emitted (membership_added o.id creator_id active at) stamps.1 (
          emitted (org_created o.id o.name at) stamps.0 (
            with_members (Memberships.add org user active time before.memberships) (record before {
              organizations = append_org (stored_org (record o { id = org })) before.organizations;
            })))

module _ (env : Env) where
  pub remove_member_body-Effect :
      (org user org_id user_id : String)
      → Effect (remove_member_body env org user org_id user_id) (Removed org user org_id user_id)
  unfolding remove_member_body
  remove_member_body-Effect org user org_id user_id =
      Effect-map _ _ _
        (Effect-bind _ _ _ _ (Effect-lock_organization env org) λ _.
          Effect-bind _ _ _ _ (Effect-membership_row env org user) λ current.
            Effect-bind _ _ _ _ (Effect-keep_one_active env (is_active current.status) org) λ _.
              Effect-bind _ _ _ _ (Effect-delete_membership env org user)
                λ _. Effect-bind _ _ _ _ (Effect-now env) λ at. Effect-emit env _ at)
        λ d a d' s.
          let read = s.second in
          let guard = read.second in
          let delete = guard.second in
          let clock = delete.second in
          record {
            row = read.value;
            time = clock.value;
            stamp = clock.second.0;
            found = ground (arith, s.first, read.first);
            guarded = λ h. ground (arith, s.first, read.first, guard.first);
            written =
                ground (
                  arith, s.first, read.first, guard.first, delete.first, clock.first, clock.second,
                );
          }

  Effect-emit_suspended :
      (b : Bool) (org_id user_id : String) (status : MembershipStatus)
      → Effect (emit_suspended env b org_id user_id status) (λ d a d'.
        (at : Time) × (stamp : Time) × (d'
          ≡ (if b then emitted (membership_suspended org_id user_id status at) stamp d else d)))
  unfolding emit_suspended
  Effect-emit_suspended false org_id user_id status =
      Effect-map _ _ _ (Effect-pure tt) λ d a d' e. (0, 0, e.1)
  Effect-emit_suspended true org_id user_id status =
      Effect-map _ _ _ (Effect-bind _ _ _ _ (Effect-now env) λ at. Effect-emit env _ at)
        λ d a d' s. (s.value, s.second.0, ground (arith, s.first, s.second))

  pub update_member_status_body-Effect :
      (org user org_id user_id : String) (status : MembershipStatus)
      → Effect
          (update_member_status_body env org user org_id user_id status)
          (Updated org user org_id user_id status)
  unfolding update_member_status_body
  update_member_status_body-Effect org user org_id user_id status =
      Effect-map _ _ _
        (Effect-bind _ _ _ _ (Effect-lock_organization env org) λ _.
          Effect-bind _ _ _ _ (Effect-membership_row env org user) λ current.
            Effect-bind _ _ _ _
              (Effect-keep_one_active env (not (is_active status) && is_active current.status) org)
              λ _.
                Effect-bind _ _ _ _ (Effect-update_membership_status env status org user)
                  λ _. Effect-emit_suspended _ org_id user_id status)
        λ d a d' s.
          let read = s.second in
          let guard = read.second in
          let update = guard.second in
          record {
            row = read.value;
            time = update.first.0;
            at = update.second.0;
            stamp = update.second.1;
            found = ground (arith, s.first, read.first);
            guarded = λ h k. ground (arith, s.first, read.first, guard.first);
            written = ground (arith, s.first, read.first, guard.first, update.first, update.second);
          }

  Effect-add_unless_found :
      (org user org_id user_id : String) (status : MembershipStatus) (r : Result Error Membership)
      → Effect (add_unless_found env org user org_id user_id status r) (λ d a d'.
        ((m : Membership) × (r ≡ ok m) × (d' ≡ d))
        ⊎ ((e : Error) × (time : Time) × (at : Time) × (stamp : Time) × (r ≡ err e)
            × (is_not_member e ≡ true)
            × (d'
                ≡ emitted
                    (membership_added org_id user_id status at)
                    stamp
                    (with_members (Memberships.add org user status time d.memberships) d))))
  unfolding add_unless_found insert_member
  Effect-add_unless_found org user org_id user_id status (ok m) =
      Effect-map _ _ _ (Effect-pure tt) λ d a d' e. inl (m, refl, e.1)
  Effect-add_unless_found org user org_id user_id status (err e) =
      elim (Bool-cases (is_not_member e)) [
        | inl absent ↦ rw absent (
            Effect-map _ _ _
              (Effect-bind _ _ _ _ (Effect-add_organization_membership env org user status)
                λ _. Effect-bind _ _ _ _ (Effect-now env) λ at. Effect-emit env _ at)
              λ d a d' s. inr (
                e,
                s.first.time,
                s.second.value,
                s.second.second.0,
                refl,
                absent,
                ground (arith, s.first.written, s.second.first, s.second.second),
              ))
        | inr other ↦ rw other (Effect-raise e _)
      ]

  pub add_member_body-Effect :
      (org user org_id user_id : String) (status : MembershipStatus)
      → Effect
          (add_member_body env org user org_id user_id status)
          (Added org user org_id user_id status)
  unfolding add_member_body
  add_member_body-Effect org user org_id user_id status =
      Effect-map _ _ _
        (Effect-bind _ _ _ _ (Effect-lock_organization env org) λ _.
          Effect-bind _ _ _ _ (Effect-try-membership_row env org user)
            (Effect-add_unless_found org user org_id user_id status))
        λ d a d' s. elim s.second.second [
          | inl (m, e, same) ↦ record {
            time = 0;
            at = 0;
            stamp = 0;
            organization = s.first.0.0;
            known = s.first.0.1;
            written = inl (
              m,
              ground (arith, s.first, s.second.first),
              ground (arith, s.first, s.second.first),
            );
          }
          | inr (e, time, at, stamp, failed, absent, same) ↦ record {
            time = time;
            at = at;
            stamp = stamp;
            organization = s.first.0.0;
            known = s.first.0.1;
            written =
                inr (
                  ground (arith, s.first, s.second.first),
                  ground (arith, s.first, s.second.first),
                );
          }
        ]

  Effect-occurred_at : (at : Time) → Effect (occurred_at env at) (λ d a d'. d' ≡ d)
  unfolding occurred_at
  Effect-occurred_at at = elim (Bool-cases (leb at 0)) [
    | inl zero ↦ rw zero (Effect-now env)
    | inr set ↦ rw set (Effect-map _ _ _ (Effect-pure at) λ d a d' e. e.1)
  ]

  pub create_org_body-Effect :
      (org user : String) (o : Organization) (creator_id : String)
      → Effect (create_org_body env org user o creator_id) (Created org user o creator_id)
  unfolding create_org_body occurred_at
  create_org_body-Effect org user o creator_id =
      Effect-map _ _ _
        (Effect-bind _ _ _ _ (Effect-create_organization env (record o { id = org })) λ _.
          Effect-bind _ _ _ _ (Effect-add_organization_membership env org user active) λ _.
            Effect-bind _ _ _ _ (Effect-occurred_at o.created_at)
              λ at. Effect-bind _ _ _ _ (Effect-emit env _ at) λ _. Effect-emit env _ at)
        λ d a d' s.
          let insert = s.second in
          let clock = insert.second in
          let first = clock.second in
          record {
            time = insert.first.time;
            at = clock.value;
            stamps = (first.first.0, first.second.0);
            fresh = s.first.0;
            written =
                ground
                  (arith, s.first, insert.first.written, clock.first, first.first, first.second);
          }
