-- ===== src/Postgres/Organizations/Answers.antt =====
-- The answers of the writing methods of organizations.go when no database call fails.
use orbit_auth.Prelude.{
  ℕ, ◌+◌, String, ◌≡◌, refl, Bool, false, not, ◌&&◌, none, some, arith, eq_refl, if◌then◌else◌, leb,
  eqb, ◌||◌,
}
use orbit_auth.Prelude.Results.{Result, ok, err}
use orbit_auth.Domain.{
  Time, Organization, Membership, MembershipStatus, is_active, Error, org_not_found, not_member,
  last_active_member, null_column, duplicate_key, missing_reference,
}
use orbit_auth.Runtime.{
  Db, Env, World, Exec, try, ◌>>=◌, transaction, settle, statement, tick, parse_id, now,
}
use orbit_auth.Postgres.Memberships
use orbit_auth.Postgres.Queries.{
  find_org, find_user, row_or_none, lock_organization_row, get_organization_membership,
  count_active_members, delete_membership, update_membership_status, add_organization_membership,
  emit, insert_outbox, add_membership, create_organization, insert_organization, stored_org,
}
use orbit_auth.Postgres.Organizations.Staffing.{find_org-append_org}
use orbit_auth.Postgres.Organizations.{
  membership_ids, lock_organization, membership_row, no_rows_as, keep_one_active, add_unless_found,
  insert_member, emit_suspended, add_member_body, update_member_status_body, remove_member_body,
  create_org_body, occurred_at, create_org, add_member, update_member_status, remove_member,
}

-- The last active member cannot go.
abbrev pub unless_last : Bool → String → Db → Result Error (Unit {0})
unless_last ends org d =
    if ends && leb (Memberships.count_active org d.memberships) 1
    then err last_active_member
    else ok tt

-- An answer that depends on the row of a member of an organization.
abbrev pub for_member :
    String → String → (Membership → Db → Result Error (Unit {0})) → Db → Result Error (Unit {0})
for_member org user f d = elim (find_org org d.organizations) [
  | none ↦ err org_not_found
  | some o ↦ elim (Memberships.find org user d.memberships) [
    | none ↦ err not_member
    | some m ↦ f m d
  ]
]

abbrev pub removal_answer : String → String → Db → Result Error (Unit {0})
removal_answer org user = for_member org user λ m. unless_last (is_active m.status) org

abbrev pub update_answer : String → String → MembershipStatus → Db → Result Error (Unit {0})
update_answer org user status =
    for_member org user λ m. unless_last (not (is_active status) && is_active m.status) org

-- A row is there already, or the user must exist.
abbrev pub unless_unknown_user : String → String → Db → Result Error (Unit {0})
unless_unknown_user org user d = elim (Memberships.find org user d.memberships) [
  | some m ↦ ok tt
  | none ↦ elim (find_user user d.users) [ none ↦ err missing_reference | some u ↦ ok tt ]
]

abbrev pub addition_answer : String → String → Db → Result Error (Unit {0})
addition_answer org user d = elim (find_org org d.organizations) [
  | none ↦ err org_not_found
  | some o ↦ unless_unknown_user org user d
]

-- Both times must be set, and the organization must be new.
abbrev pub creation_answer : String → String → Time → Time → Db → Result Error (Unit {0})
creation_answer org user created updated d =
    if eqb created 0 || eqb updated 0
    then err null_column
    else elim (find_org org d.organizations) [
      | some o ↦ err duplicate_key
      | none ↦ unless_unknown_user org user d
    ]

module _ (env : Env) (works : (k : ℕ) → env.fails k ≡ false) where
  remove_member_body-answer :
      (org user org_id user_id : String) (w : World)
      → (remove_member_body env org user org_id user_id w).0 ≡ removal_answer org user w.db
  unfolding ◌>>=◌ remove_member_body lock_organization membership_row no_rows_as keep_one_active
      lock_organization_row get_organization_membership count_active_members delete_membership emit
      statement row_or_none now insert_outbox
  remove_member_body-answer org user org_id user_id w = ground (
    arith,
    works w.calls,
    works (w.calls + 1),
    works (w.calls + 1 + 1),
    works (w.calls + 1 + 1 + 1),
    works (w.calls + 1 + 1 + 1 + 1),
    works (w.calls + 1 + 1 + 1 + 1 + 1),
  )

  update_member_status_body-answer :
      (org user org_id user_id : String) (status : MembershipStatus) (w : World)
      → (update_member_status_body env org user org_id user_id status w).0
        ≡ update_answer org user status w.db
  unfolding ◌>>=◌ update_member_status_body lock_organization membership_row no_rows_as
      keep_one_active lock_organization_row get_organization_membership count_active_members
      update_membership_status emit_suspended emit statement row_or_none now insert_outbox
  update_member_status_body-answer org user org_id user_id status w = ground (
    arith,
    works w.calls,
    works (w.calls + 1),
    works (w.calls + 1 + 1),
    works (w.calls + 1 + 1 + 1),
    works (w.calls + 1 + 1 + 1 + 1),
    works (w.calls + 1 + 1 + 1 + 1 + 1),
  )

  add_member_body-answer :
      (org user org_id user_id : String) (status : MembershipStatus) (w : World)
      → (add_member_body env org user org_id user_id status w).0 ≡ addition_answer org user w.db
  unfolding ◌>>=◌ add_member_body lock_organization membership_row no_rows_as try
      lock_organization_row get_organization_membership add_unless_found insert_member
      add_organization_membership add_membership emit statement row_or_none now insert_outbox
  add_member_body-answer org user org_id user_id status w = ground (
    arith,
    works w.calls,
    works (w.calls + 1),
    works (w.calls + 1 + 1),
    works (w.calls + 1 + 1 + 1),
    works (w.calls + 1 + 1 + 1 + 1),
    works (w.calls + 1 + 1 + 1 + 1 + 1),
  )

  create_org_body-answer :
      (org user : String) (o : Organization) (creator_id : String) (w : World)
      → (create_org_body env org user o creator_id w).0
        ≡ creation_answer org user o.created_at o.updated_at w.db
  unfolding ◌>>=◌ create_org_body create_organization insert_organization
      add_organization_membership add_membership occurred_at emit statement now insert_outbox
  create_org_body-answer org user o creator_id w = ground (
    arith,
    works w.calls,
    works (w.calls + 1),
    works (w.calls + 1 + 1),
    works (w.calls + 1 + 1 + 1),
    works (w.calls + 1 + 1 + 1 + 1),
    find_org-append_org (stored_org (record o { id = org })) w.db.organizations org,
    eq_refl org,
  )

  settle-answer :
      {A : Type 0} (before : Db) (r : Result Error A) (w : World) → (settle env before r w).0 ≡ r
  unfolding settle
  settle-answer before (err e) w = refl
  settle-answer before (ok a) w = ground (arith, works w.calls)

  transaction-answer :
      {A : Type 0} (body : Exec A) (w : World) → (transaction env body w).0 ≡ (body (tick w)).0
  unfolding transaction
  transaction-answer body w =
      ground (arith, works w.calls, settle-answer w.db (body (tick w)).0 (body (tick w)).1)

  module _ (org_id user_id org user : String) (org_parsed : env.parse_uuid org_id ≡ some org)
      (user_parsed : env.parse_uuid user_id ≡ some user) where
    -- When no database call fails and both texts are identifiers, RemoveMember answers that the
    -- organization is not found, that the user is no member, that the last active member cannot go,
    -- or success, exactly as the tables say.
    pub remove_member-answer :
        (w : World) → (remove_member env org_id user_id w).0 ≡ removal_answer org user w.db
    unfolding ◌>>=◌ remove_member membership_ids parse_id
    remove_member-answer w = ground (
      arith,
      transaction-answer (remove_member_body env org user org_id user_id) w,
      remove_member_body-answer org user org_id user_id (tick w),
    )

    -- When no database call fails and both texts are identifiers, UpdateMemberStatus answers that
    -- the organization is not found, that the user is no member, that the last active member cannot
    -- stop being active, or success, exactly as the tables say.
    pub update_member_status-answer :
        (status : MembershipStatus) (w : World)
        → (update_member_status env org_id user_id status w).0 ≡ update_answer org user status w.db
    unfolding ◌>>=◌ update_member_status membership_ids parse_id
    update_member_status-answer status w = ground (
      arith,
      transaction-answer (update_member_status_body env org user org_id user_id status) w,
      update_member_status_body-answer org user org_id user_id status (tick w),
    )

    -- When no database call fails and both texts are identifiers, AddMember answers that the
    -- organization is not found, a refused reference when the user is unknown and has no row, or
    -- success, exactly as the tables say.
    pub add_member-answer :
        (status : MembershipStatus) (w : World)
        → (add_member env org_id user_id status w).0 ≡ addition_answer org user w.db
    unfolding ◌>>=◌ add_member membership_ids parse_id
    add_member-answer status w = ground (
      arith,
      transaction-answer (add_member_body env org user org_id user_id status) w,
      add_member_body-answer org user org_id user_id status (tick w),
    )

    -- When no database call fails and both texts are identifiers, CreateOrg answers a refused NULL
    -- when one of the organization's two times is zero, a refused key when the organization exists,
    -- a refused reference when the creator is unknown and has no row, or success, exactly as the
    -- times and the tables say.
    pub create_org-answer :
        (o : Organization) (w : World)
        → o.id ≡ org_id
        → (create_org env o user_id w).0 ≡ creation_answer org user o.created_at o.updated_at w.db
    unfolding ◌>>=◌ create_org parse_id
    create_org-answer o w e = ground (
      arith,
      transaction-answer (create_org_body env org user o user_id) w,
      create_org_body-answer org user o user_id (tick w),
    )
