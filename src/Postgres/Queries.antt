-- ===== src/Postgres/Queries.antt =====
-- The statements of queries/organizations.sql and queries/users.sql that the organization store
-- runs, with the keys and references that the migrations declare, and the outbox insert.
use orbit_auth.Prelude.{
  ℕ, String, Bool, true, false, Option, none, some, List, [], ◌∷◌, ◌==◌, if◌then◌else◌, ltb, eqb,
  ◌||◌,
}
use orbit_auth.Prelude.GoText.{string_le}
use orbit_auth.Prelude.Results.{Result, ok, err}
use orbit_auth.Domain.{
  Time, Organization, Membership, MembershipStatus, User, Event, Error, no_rows, null_column,
  duplicate_key, missing_reference, is_active, active,
}
use orbit_auth.Runtime.{Db, OutboxRow, Env, Exec, stored_time, statement}
use orbit_auth.Postgres.Memberships

unfoldable pub find_org : String → List Organization → Option Organization
find_org id [] = none
find_org id (o ∷ l) = if o.id == id then some o else find_org id l

unfoldable pub find_user : String → List User → Option User
find_user id [] = none
find_user id (u ∷ l) = if u.id == id then some u else find_user id l

unfoldable pub append_org : Organization → List Organization → List Organization
append_org o [] = o ∷ []
append_org o (p ∷ l) = p ∷ append_org o l

-- ORDER BY created_at, id
org_before : Organization → Organization → Bool
org_before o p =
    if ltb o.created_at p.created_at
    then true
    else if ltb p.created_at o.created_at
    then false
    else string_le o.id p.id

insert_org : Organization → List Organization → List Organization
insert_org o [] = o ∷ []
insert_org o (p ∷ l) = if org_before o p then o ∷ p ∷ l else p ∷ insert_org o l

-- The organizations in which the user's row is active.
pub joined_orgs : String → List Membership → List Organization → List Organization
joined_orgs user members [] = []
joined_orgs user members (o ∷ l) = elim (Memberships.find o.id user members) [
  | none ↦ joined_orgs user members l
  | some m ↦
      if is_active m.status
      then insert_org o (joined_orgs user members l)
      else joined_orgs user members l
]

member_before : Membership → Membership → Bool
member_before m n =
    if ltb m.created_at n.created_at
    then true
    else if ltb n.created_at m.created_at
    then false
    else string_le m.user_id n.user_id

insert_member : Membership → List Membership → List Membership
insert_member m [] = m ∷ []
insert_member m (n ∷ l) = if member_before m n then m ∷ n ∷ l else n ∷ insert_member m l

pub members_of : String → List Membership → List Membership
members_of org [] = []
members_of org (m ∷ l) =
    let rest = members_of org l in if m.org_id == org then insert_member m rest else rest

-- errors.Is(err, pgx.ErrNoRows)
abbrev pub is_no_rows : Error → Bool
is_no_rows Error.no_rows = true
is_no_rows _ = false

-- A row that was found, or pgx.ErrNoRows.
unfoldable pub row_or_none : {A : Type 0} → Option A → Db → Result Error (A × Db)
row_or_none none db = err no_rows
row_or_none (some a) db = ok (a, db)

abbrev with_members : Db → List Membership → Result Error (Unit {0} × Db)
with_members db l = ok (tt, record db { memberships = l })

insert_membership : String → String → MembershipStatus → Db → Time → Result Error (Unit {0} × Db)
insert_membership org user status db now = elim (find_org org db.organizations) [
  | none ↦ err missing_reference
  | some o ↦ elim (find_user user db.users) [
    | none ↦ err missing_reference
    | some u ↦ with_members db (Memberships.add org user status now db.memberships)
  ]
]

unfoldable pub add_membership :
    String → String → MembershipStatus → Db → Time → Result Error (Unit {0} × Db)
unfolding insert_membership
add_membership org user status db now = elim (Memberships.find org user db.memberships) [
  | none ↦ insert_membership org user status db now
  | some m ↦ ok (tt, db)
]

-- AddActiveOrganizationMembership
unfoldable pub activate_row : String → String → Db → Time → Result Error (Unit {0} × Db)
unfolding insert_membership
activate_row org user db now = elim (Memberships.find org user db.memberships) [
  | none ↦ insert_membership org user active db now
  | some m ↦ with_members db (Memberships.activate org user now db.memberships)
]

abbrev pub stored_org : Organization → Organization
stored_org o = record o {
  created_at = stored_time o.created_at;
  updated_at = stored_time o.updated_at;
}

-- A zero time is sent as NULL, which the columns refuse.
unfoldable pub insert_organization : Organization → Db → Result Error (Unit {0} × Db)
insert_organization o db =
    if eqb o.created_at 0 || eqb o.updated_at 0
    then err null_column
    else elim (find_org o.id db.organizations) [
      | none ↦ ok (tt, record db { organizations = append_org (stored_org o) db.organizations })
      | some p ↦ err duplicate_key
    ]

unfoldable pub append_outbox : OutboxRow → List OutboxRow → List OutboxRow
append_outbox r [] = r ∷ []
append_outbox r (s ∷ l) = s ∷ append_outbox r l

-- A zero `OccurredAt` is replaced by the clock in the envelope.
unfoldable pub envelope_time : Time → Time → Time
envelope_time at now = if ltb 0 at then at else now

unfoldable pub insert_outbox : Event → Time → Db → Time → Result Error (Unit {0} × Db)
unfolding append_outbox envelope_time
insert_outbox event at db now = ok (
  tt,
  record db {
    outbox = append_outbox (record { event = event; timestamp = envelope_time at now }) db.outbox;
  },
)

module _ (env : Env) where
  unfoldable pub create_organization : Organization → Exec (Unit {0})
  create_organization o = statement env (λ db now. insert_organization o db)

  unfoldable pub get_organization : String → Exec Organization
  get_organization id = statement env (λ db now. row_or_none (find_org id db.organizations) db)

  -- SELECT … FOR UPDATE
  unfoldable pub lock_organization_row : String → Exec Organization
  lock_organization_row id = statement env (λ db now. row_or_none (find_org id db.organizations) db)

  unfoldable pub list_organizations_for_user : String → Exec (List Organization)
  list_organizations_for_user user =
      statement env (λ db now. ok (joined_orgs user db.memberships db.organizations, db))

  unfoldable pub list_organization_members : String → Exec (List Membership)
  list_organization_members org = statement env (λ db now. ok (members_of org db.memberships, db))

  unfoldable pub add_organization_membership : String → String → MembershipStatus → Exec (Unit {0})
  add_organization_membership org user status =
      statement env (λ db now. add_membership org user status db now)

  unfoldable pub update_membership_status : MembershipStatus → String → String → Exec (Unit {0})
  update_membership_status status org user =
      statement env
        (λ db now. with_members db (Memberships.set_status org user status now db.memberships))

  unfoldable pub activate_membership : String → String → Exec (Unit {0})
  activate_membership org user = statement env (λ db now. activate_row org user db now)

  unfoldable pub delete_membership : String → String → Exec (Unit {0})
  delete_membership org user =
      statement env (λ db now. with_members db (Memberships.remove org user db.memberships))

  unfoldable pub get_organization_membership : String → String → Exec Membership
  get_organization_membership org user =
      statement env (λ db now. row_or_none (Memberships.find org user db.memberships) db)

  unfoldable pub count_active_members : String → Exec ℕ
  count_active_members org =
      statement env (λ db now. ok (Memberships.count_active org db.memberships, db))

  unfoldable pub find_user_by_id : String → Exec User
  find_user_by_id id = statement env (λ db now. row_or_none (find_user id db.users) db)

  -- outboxSink.Emit
  unfoldable pub emit : Event → Time → Exec (Unit {0})
  emit event at = statement env (λ db now. insert_outbox event at db now)
