-- ===== src/Postgres/Organizations/Effects.antt =====
-- The steps of the transactions of organizations.go: what each finds and writes.
use orbit_auth.Prelude.{
  ◌<◌, String, ◌≡◌, Bool, true, false, Option, none, some, List, arith, Option-cases, inl, inr, leb,
  ◌∙◌,
}
use orbit_auth.Prelude.Results.{Result, ok, err}
use orbit_auth.Domain.{Time, Organization, Membership, MembershipStatus, Event, Error}
use orbit_auth.Runtime.{Db, Env, Exec, try, statement}
use orbit_auth.Runtime.Effects.{
  Effect, Effect-bind, Effect-map, Effect-pure, Effect-refuse, Effect-statement, Effect-parse_id,
}
use orbit_auth.Runtime.Reads.{
  IsReadOnly, bind-IsReadOnly, pure-IsReadOnly, parse_id-IsReadOnly, statement-IsReadOnly,
}
use orbit_auth.Postgres.Memberships
use orbit_auth.Postgres.Queries.{
  find_org, row_or_none, lock_organization_row, get_organization_membership, count_active_members,
  delete_membership, update_membership_status, add_organization_membership, emit, insert_outbox,
  add_membership, create_organization, insert_organization, append_outbox, append_org, stored_org,
  envelope_time, list_organizations_for_user,
}
use orbit_auth.Postgres.Organizations.{
  no_rows_as, lock_organization, membership_row, get_membership, membership_ids, list_orgs_for_user,
  keep_one_active, is_not_member, relabel,
}

-- The tables that a read leaves as they are.
abbrev Read : {A : Type 0} → (Db → A → Type 0) → Db → A → Db → Type 0
Read P d a d' = P d a × (d' ≡ d)

relabel-eq-ok :
    {A : Type 0} (e : Error) (r : Result Error A) (a : A) → relabel e r ≡ ok a → r ≡ ok a
unfolding relabel
relabel-eq-ok e (ok b) a h = h
relabel-eq-ok e (err x) a h = absurd (ground arith)

pub Effect-no_rows_as :
    {A : Type 0} (e : Error) (m : Exec A) (Q : Db → A → Db → Type 0)
    → Effect m Q
    → Effect (no_rows_as e m) Q
unfolding no_rows_as
Effect-no_rows_as e m Q f = record { at = λ w a h. f.at w a (relabel-eq-ok e (m w).0 a h) }

-- The row of a key, and the tables as they were.
abbrev pub Found : {A : Type 0} → (Db → Option A) → Db → A → Db → Type 0
Found lookup d a d' = (lookup d ≡ some a) × (d' ≡ d)

abbrev pub emitted : Event → Time → Db → Db
emitted event t d = record d {
  outbox = append_outbox (record { event = event; timestamp = t }) d.outbox;
}

abbrev pub with_members : List Membership → Db → Db
with_members l d = record d { memberships = l }

-- What a lookup says of its row: found, missing, or not read.
abbrev pub LookedUp : Option Membership → Result Error Membership → Type 0
LookedUp row (ok m) = row ≡ some m
LookedUp row (err e) = is_not_member e ≡ true → row ≡ none

-- The insertion that does nothing where there is a row, and wants the organization to exist.
pub record Inserted (org user : String) (status : MembershipStatus) (before after : Db)
    : Type 0 where
  pub time : Time
  pub written :
      after ≡ with_members (Memberships.add org user status time before.memberships) before
  pub referred :
      (Memberships.find org user before.memberships ≡ none)
      → (o : Organization) × (find_org org before.organizations ≡ some o)

module _ (env : Env) where
  pub Effect-row :
      {A : Type 0} (lookup : Db → Option A)
      → Effect (statement env (λ d t. row_or_none (lookup d) d)) (Found lookup)
  unfolding row_or_none
  Effect-row lookup =
      Effect-map _ _ _ (Effect-statement env _) λ d a d' e. (ground arith, ground arith)

  pub Effect-emit :
      (event : Event) (at : Time)
      → Effect (emit env event at) (λ d a d'. (t : Time) × (d' ≡ emitted event t d))
  unfolding emit insert_outbox
  Effect-emit event at =
      Effect-map _ _ _ (Effect-statement env _) λ d a d' e. (envelope_time at e.0, ground arith)

  pub Effect-delete_membership :
      (org user : String)
      → Effect
          (delete_membership env org user)
          (λ d a d'. d' ≡ with_members (Memberships.remove org user d.memberships) d)
  unfolding delete_membership
  Effect-delete_membership org user =
      Effect-map _ _ _ (Effect-statement env _) λ d a d' e. ground arith

  pub Effect-update_membership_status :
      (status : MembershipStatus) (org user : String)
      → Effect (update_membership_status env status org user) (λ d a d'.
        (t : Time) × (d' ≡ with_members (Memberships.set_status org user status t d.memberships) d))
  unfolding update_membership_status
  Effect-update_membership_status status org user =
      Effect-map _ _ _ (Effect-statement env _) λ d a d' e. (e.0, ground arith)

  pub Effect-lock_organization :
      (org : String)
      → Effect
          (lock_organization env org)
          (λ d a d'. ((o : Organization) × (find_org org d.organizations ≡ some o)) × (d' ≡ d))
  unfolding lock_organization lock_organization_row
  Effect-lock_organization org =
      Effect-map _ _ _
        (Effect-bind _ _ _ _
          (Effect-no_rows_as _ _ _ (Effect-row (λ d. find_org org d.organizations)))
          (λ o. Effect-pure tt))
        λ d a d' s. ((s.value, s.first.0), s.second.1 ∙ s.first.1)

  pub Effect-membership_row :
      (org user : String)
      → Effect (membership_row env org user) (Found (λ d. Memberships.find org user d.memberships))
  unfolding membership_row get_organization_membership
  Effect-membership_row org user =
      Effect-no_rows_as _ _ _ (Effect-row (λ d. Memberships.find org user d.memberships))

  Effect-count_active_members :
      (org : String)
      → Effect
          (count_active_members env org)
          (λ d n d'. (n ≡ Memberships.count_active org d.memberships) × (d' ≡ d))
  unfolding count_active_members
  Effect-count_active_members org =
      Effect-map _ _ _ (Effect-statement env _) λ d a d' e. (ground arith, ground arith)

  pub Effect-keep_one_active :
      (b : Bool) (org : String)
      → Effect
          (keep_one_active env b org)
          (λ d a d'. (b ≡ true → 1 < Memberships.count_active org d.memberships) × (d' ≡ d))
  unfolding keep_one_active
  Effect-keep_one_active false org = Effect-map _ _ _ (Effect-pure tt) λ d a d' e. (λ h. cc, e.1)
  Effect-keep_one_active true org =
      Effect-map _ _ _
        (Effect-bind _ _ _ _ (Effect-count_active_members org) (λ n. Effect-refuse (leb n 1) _))
        λ d a d' s. (λ h. ground (arith, s.first, s.second), ground (arith, s.first, s.second))

  -- The lookup of `AddMember`: the row, or the error that says that there is none.
  pub Effect-try-membership_row :
      (org user : String)
      → Effect
          (try (membership_row env org user))
          (λ d r d'. (d' ≡ d) × LookedUp (Memberships.find org user d.memberships) r)
  unfolding membership_row no_rows_as relabel try get_organization_membership statement row_or_none
  Effect-try-membership_row org user = record {
    at = λ w r h. elim (Option-cases (Memberships.find org user w.db.memberships)) [
      | inl e ↦ (ground arith, ground arith)
      | inr (m, e) ↦ (ground arith, ground arith)
    ];
  }

  pub Effect-add_organization_membership :
      (org user : String) (status : MembershipStatus)
      → Effect
          (add_organization_membership env org user status)
          (λ d a d'. Inserted org user status d d')
  unfolding add_organization_membership add_membership Memberships.add
  Effect-add_organization_membership org user status =
      Effect-map _ _ _ (Effect-statement env _) λ d a d' e.
        elim (Option-cases (Memberships.find org user d.memberships)) [
          | inr (m, f) ↦ record {
            time = e.0;
            written = ground (arith, e.1);
            referred = λ g. absurd (ground arith);
          }
          | inl f ↦ elim (Option-cases (find_org org d.organizations)) [
            | inl g ↦ absurd (ground (arith, e.1))
            | inr (o, g) ↦ record {
              time = e.0;
              written = ground (arith, e.1);
              referred = λ h. (o, g);
            }
          ]
        ]

  pub Effect-create_organization :
      (o : Organization)
      → Effect (create_organization env o) (λ d a d'.
        (find_org o.id d.organizations ≡ none)
        × (d' ≡ record d { organizations = append_org (stored_org o) d.organizations }))
  unfolding create_organization insert_organization
  Effect-create_organization o =
      Effect-map _ _ _ (Effect-statement env _) λ d a d' e. (ground arith, ground arith)

  -- The row of the two parsed texts.
  pub Effect-get_membership :
      (org_id user_id : String)
      → Effect (get_membership env org_id user_id) (λ d m d'.
        (d' ≡ d)
        × ((org : String) × (user : String) × (env.parse_uuid org_id ≡ some org)
            × (env.parse_uuid user_id ≡ some user)
            × (Memberships.find org user d.memberships ≡ some m)))
  unfolding get_membership membership_ids
  Effect-get_membership org_id user_id =
      Effect-map _ _ _
        (Effect-bind _ _ _ _
          (Effect-bind _ _ _ _ (Effect-parse_id env org_id) λ org.
            Effect-bind _ _ _ _ (Effect-parse_id env user_id) λ user. Effect-pure (org, user))
          (λ ids. Effect-membership_row ids.0 ids.1))
        λ d m d' s.
          let org = s.first in
          let user = org.second in
          (
            ground (arith, s.second, org.first, user.first, user.second),
            (
              org.value,
              user.value,
              org.first.0,
              user.first.0,
              ground (arith, s.second, org.first, user.first, user.second),
            ),
          )

  row-IsReadOnly :
      {A : Type 0} (lookup : Db → Option A)
      → IsReadOnly (statement env (λ d t. row_or_none (lookup d) d))
  unfolding row_or_none
  row-IsReadOnly lookup = statement-IsReadOnly env _ λ d t a d' e. ground arith

  pub get_membership-IsReadOnly :
      (org_id user_id : String) → IsReadOnly (get_membership env org_id user_id)
  unfolding get_membership membership_ids membership_row no_rows_as get_organization_membership
  get_membership-IsReadOnly org_id user_id =
      bind-IsReadOnly _ _
        (bind-IsReadOnly _ _ (parse_id-IsReadOnly env org_id) λ org.
          bind-IsReadOnly _ _ (parse_id-IsReadOnly env user_id) λ user. pure-IsReadOnly (org, user))
        λ ids. record {
          at = λ w. (row-IsReadOnly (λ d. Memberships.find ids.0 ids.1 d.memberships)).at w;
        }

  pub list_orgs_for_user-IsReadOnly :
      (user_id : String) → IsReadOnly (list_orgs_for_user env user_id)
  unfolding list_orgs_for_user list_organizations_for_user
  list_orgs_for_user-IsReadOnly user_id =
      bind-IsReadOnly _ _ (parse_id-IsReadOnly env user_id)
        λ id. statement-IsReadOnly env _ λ d t a d' e. ground arith
