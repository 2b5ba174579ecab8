-- ===== src/Postgres/Organizations.antt =====
-- internal/infrastructure/postgres/organizations.go, and `FindByID` of store.go: the organization
-- store.
pub mod Effects
pub mod Outcomes
pub mod Operations
pub mod Staffing
pub mod Replay
pub mod Histories
pub mod Answers
mod Tests
use orbit_auth.Prelude.{
  ℕ, String, Bool, true, false, not, ◌&&◌, Option, none, some, List, [], ◌∷◌, ◌==◌, if◌then◌else◌,
  leb,
}
use orbit_auth.Prelude.Results.{Result, ok, err}
use orbit_auth.Domain.{
  Time, Organization, Membership, MembershipStatus, active, invited, suspended, is_active,
  is_suspended, User, Event, org_created, membership_added, membership_removed,
  membership_suspended, Error, org_not_found, not_member, user_not_found, last_active_member,
}
use orbit_auth.Runtime.{
  Env, Exec, pure, raise, refuse, try, ◌>>=◌, ◌>>◌, then_run, transaction, parse_id, now,
}
use orbit_auth.Postgres.Queries.{
  create_organization, get_organization, lock_organization_row, list_organizations_for_user,
  list_organization_members, add_organization_membership, update_membership_status,
  delete_membership, get_organization_membership, count_active_members, find_user_by_id, emit,
  is_no_rows,
}

relabel : {A : Type 0} → Error → Result Error A → Result Error A
relabel e (ok a) = ok a
relabel e (err x) = if is_no_rows x then err e else err x

-- `if errors.Is(err, pgx.ErrNoRows) { return e }`
unfoldable pub no_rows_as : {A : Type 0} → Error → Exec A → Exec A
unfolding relabel
no_rows_as e m w = (relabel e (m w).0, (m w).1)

abbrev pub is_not_member : Error → Bool
is_not_member Error.not_member = true
is_not_member _ = false

module _ (env : Env) where
  -- membershipIDs
  pub membership_ids : String → String → Exec (String × String)
  membership_ids org_id user_id = do
    org ← parse_id env org_id
    user ← parse_id env user_id
    pure (org, user)

  unfoldable pub lock_organization : String → Exec (Unit {0})
  unfolding no_rows_as
  lock_organization org = no_rows_as org_not_found (lock_organization_row env org) >> pure tt

  -- getMembership
  unfoldable pub membership_row : String → String → Exec Membership
  unfolding no_rows_as
  membership_row org user = no_rows_as not_member (get_organization_membership env org user)

  unfoldable pub get_membership : String → String → Exec Membership
  unfolding membership_ids membership_row
  get_membership org_id user_id = do ids ← membership_ids org_id user_id; membership_row ids.0 ids.1

  unfoldable pub find_by_id : String → Exec User
  unfolding no_rows_as
  find_by_id user_id = do
    id ← parse_id env user_id
    no_rows_as user_not_found (find_user_by_id env id)

  unfoldable pub get_org : String → Exec Organization
  unfolding no_rows_as
  get_org org_id = do id ← parse_id env org_id; no_rows_as org_not_found (get_organization env id)

  pub list_orgs_for_user : String → Exec (List Organization)
  list_orgs_for_user user_id = do id ← parse_id env user_id; list_organizations_for_user env id

  pub list_members : String → Exec (List Membership)
  list_members org_id = do id ← parse_id env org_id; list_organization_members env id

  -- A zero time is replaced by the clock.
  pub occurred_at : Time → Exec Time
  occurred_at at = if leb at 0 then now env else pure at

  pub create_org_body : String → String → Organization → String → Exec (Unit {0})
  unfolding occurred_at
  create_org_body org user o creator_id = do
    create_organization env (record o { id = org })
    add_organization_membership env org user active
    at ← occurred_at o.created_at
    emit env (org_created o.id o.name at) at
    emit env (membership_added o.id creator_id active at) at

  pub create_org : Organization → String → Exec (Unit {0})
  unfolding create_org_body
  create_org o creator_id = do
    org ← parse_id env o.id
    user ← parse_id env creator_id
    transaction env (create_org_body org user o creator_id)

  -- The insertion of `AddMember`, once no row was found.
  pub insert_member : String → String → String → String → MembershipStatus → Exec (Unit {0})
  insert_member org user org_id user_id status = do
    add_organization_membership env org user status
    at ← now env
    emit env (membership_added org_id user_id status at) at

  -- The switch of `AddMember` on the lookup's outcome.
  pub add_unless_found :
      String
      → String
      → String
      → String
      → MembershipStatus
      → Result Error Membership
      → Exec (Unit {0})
  unfolding insert_member
  add_unless_found org user org_id user_id status (ok m) = pure tt
  add_unless_found org user org_id user_id status (err e) =
      if is_not_member e then insert_member org user org_id user_id status else raise e

  pub add_member_body : String → String → String → String → MembershipStatus → Exec (Unit {0})
  unfolding add_unless_found lock_organization membership_row
  add_member_body org user org_id user_id status = do
    lock_organization org
    found ← try (membership_row org user)
    add_unless_found org user org_id user_id status found

  pub add_member : String → String → MembershipStatus → Exec (Unit {0})
  unfolding membership_ids add_member_body
  add_member org_id user_id status = do
    ids ← membership_ids org_id user_id
    transaction env (add_member_body ids.0 ids.1 org_id user_id status)

  -- `if … { count, err := …; if count <= 1 { return domain.ErrLastActiveMember } }`
  pub keep_one_active : Bool → String → Exec (Unit {0})
  keep_one_active false org = pure tt
  keep_one_active true org = do
    count ← count_active_members env org
    refuse (leb count 1) last_active_member

  pub emit_suspended : Bool → String → String → MembershipStatus → Exec (Unit {0})
  emit_suspended false org_id user_id status = pure tt
  emit_suspended true org_id user_id status = do
    at ← now env
    emit env (membership_suspended org_id user_id status at) at

  pub update_member_status_body :
      String → String → String → String → MembershipStatus → Exec (Unit {0})
  unfolding lock_organization membership_row keep_one_active emit_suspended
  update_member_status_body org user org_id user_id status = do
    lock_organization org
    current ← membership_row org user
    keep_one_active (not (is_active status) && is_active current.status) org
    update_membership_status env status org user
    emit_suspended (is_suspended status && not (is_suspended current.status)) org_id user_id status

  pub update_member_status : String → String → MembershipStatus → Exec (Unit {0})
  unfolding membership_ids update_member_status_body
  update_member_status org_id user_id status = do
    ids ← membership_ids org_id user_id
    transaction env (update_member_status_body ids.0 ids.1 org_id user_id status)

  pub remove_member_body : String → String → String → String → Exec (Unit {0})
  unfolding lock_organization membership_row keep_one_active
  remove_member_body org user org_id user_id = do
    lock_organization org
    current ← membership_row org user
    keep_one_active (is_active current.status) org
    delete_membership env org user
    at ← now env
    emit env (membership_removed org_id user_id current.status at) at

  pub remove_member : String → String → Exec (Unit {0})
  unfolding membership_ids remove_member_body
  remove_member org_id user_id = do
    ids ← membership_ids org_id user_id
    transaction env (remove_member_body ids.0 ids.1 org_id user_id)
