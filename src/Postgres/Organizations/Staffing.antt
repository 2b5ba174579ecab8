-- ===== src/Postgres/Organizations/Staffing.antt =====
-- The methods of organizations.go and the active members of each organization.
use orbit_auth.Prelude.{
  ◌≤◌, ◌<◌, String, ◌≡◌, refl, sym, subst, true, false, not, ◌&&◌, none, some, List, [], ◌∷◌, arith,
  ◌==◌, eq_iff, eq_refl, All, inl, inr, Bool-cases, if◌then◌else◌,
}
use orbit_auth.Domain.{
  Time, Organization, Membership, MembershipStatus, active, is_active, is_suspended,
}
use orbit_auth.Runtime.{Db, Env}
use orbit_auth.Runtime.Rules.{Keeps, Keeps-atomic}
use orbit_auth.Postgres.Memberships
use orbit_auth.Postgres.Memberships.Counting.{
  DistinctRows, count_active-add, count_active-add_absent, count_active-set_status,
  count_active-remove,
}
use orbit_auth.Postgres.Memberships.Keys.{
  add-DistinctRows, set_status-DistinctRows, remove-DistinctRows, add-All, set_status-All,
  remove-All,
}
use orbit_auth.Postgres.Queries.{find_org, append_org}
use orbit_auth.Postgres.Organizations.Operations.{
  Operation, creating, adding, updating, removing, perform, Outcome, Performed, perform-IsAtomic,
  perform-Effect,
}

-- The organization is in the table.
abbrev pub IsOrg : List Organization → String → Type 0
IsOrg orgs id = (o : Organization) × (find_org id orgs ≡ some o)

-- No two membership rows share a key, every row names an organization that exists, and every
-- organization has an active member.
pub record IsStaffed (orgs : List Organization) (members : List Membership) : Type 0 where
  pub distinct : DistinctRows members
  pub known : All (λ m. IsOrg orgs m.org_id) members
  pub staffed : (id : String) → IsOrg orgs id → 1 ≤ Memberships.count_active id members

pub find_org-append_org :
    (o : Organization) (l : List Organization) (id : String)
    → find_org id (append_org o l)
      ≡ (elim (find_org id l) [ none ↦ if o.id == id then some o else none | some p ↦ some p ])
unfolding find_org append_org
find_org-append_org o [] id = refl
find_org-append_org o (p ∷ l) id = ground (arith, find_org-append_org o l id)

-- An organization that is not in the table has no rows.
pub find-unknown :
    (orgs : List Organization) (org user : String) (l : List Membership)
    → All (λ m. IsOrg orgs m.org_id) l
    → find_org org orgs ≡ none
    → Memberships.find org user l ≡ none
unfolding Memberships.find
find-unknown orgs org user [] h e = refl
find-unknown orgs org user (m ∷ l) h e =
    ground (arith, h.0, find-unknown orgs org user l h.1 e, eq_iff m.org_id org)

IsOrg-append_org :
    (o : Organization) (orgs : List Organization) (id : String)
    → IsOrg orgs id
    → IsOrg (append_org o orgs) id
IsOrg-append_org o orgs id (p, e) = (p, ground (arith, find_org-append_org o orgs id))

known-append_org :
    (o : Organization) (orgs : List Organization) (l : List Membership)
    → All (λ m. IsOrg orgs m.org_id) l
    → All (λ m. IsOrg (append_org o orgs) m.org_id) l
known-append_org o orgs [] h = tt
known-append_org o orgs (m ∷ l) h =
    (IsOrg-append_org o orgs m.org_id h.0, known-append_org o orgs l h.1)

module _ (orgs : List Organization) (members : List Membership) (org user : String) where
  remove-IsStaffed :
      (row : Membership)
      → Memberships.find org user members ≡ some row
      → (is_active row.status ≡ true → 1 < Memberships.count_active org members)
      → IsStaffed orgs members
      → IsStaffed orgs (Memberships.remove org user members)
  remove-IsStaffed row found guarded h = record {
    distinct = remove-DistinctRows org user members h.distinct;
    known = remove-All org user (IsOrg orgs) members h.known;
    staffed = λ id e. ground (
      arith,
      count_active-remove org user id members row h.distinct found,
      h.staffed id e,
      eq_iff org id,
    );
  }

  set_status-IsStaffed :
      (status : MembershipStatus) (time : Time) (row : Membership)
      → Memberships.find org user members ≡ some row
      → (is_active status ≡ false
          → is_active row.status ≡ true
          → 1 < Memberships.count_active org members)
      → IsStaffed orgs members
      → IsStaffed orgs (Memberships.set_status org user status time members)
  set_status-IsStaffed status time row found guarded h = record {
    distinct = set_status-DistinctRows org user status time members h.distinct;
    known = set_status-All org user status time (IsOrg orgs) members h.known;
    staffed = λ id e. ground (
      arith,
      count_active-set_status org user status time id members row h.distinct found,
      h.staffed id e,
      eq_iff org id,
    );
  }

  add-IsStaffed :
      (status : MembershipStatus) (time : Time)
      → IsOrg orgs org
      → IsStaffed orgs members
      → IsStaffed orgs (Memberships.add org user status time members)
  add-IsStaffed status time known h = record {
    distinct = add-DistinctRows org user status time members h.distinct;
    known = add-All org user status time (IsOrg orgs) members known h.known;
    staffed =
        λ id e. ground (arith, count_active-add org user status time id members, h.staffed id e);
  }

  -- A new organization together with its first row.
  create-IsStaffed :
      (o : Organization) (time : Time)
      → o.id ≡ org
      → find_org org orgs ≡ none
      → IsStaffed orgs members
      → IsStaffed (append_org o orgs) (Memberships.add org user active time members)
  create-IsStaffed o time named fresh h = record {
    distinct = add-DistinctRows org user active time members h.distinct;
    known =
        add-All org user active time (IsOrg (append_org o orgs)) members
          (o, ground (arith, find_org-append_org o orgs org, eq_refl org))
          (known-append_org o orgs members h.known);
    staffed = λ id e. ground (
      arith,
      e,
      find_org-append_org o orgs id,
      count_active-add_absent org user active time id members
          (find-unknown orgs org user members h.known fresh),
      h.staffed id,
      eq_iff org id,
    );
  }

abbrev pub IsStaffedDb : Db → Type 0
IsStaffedDb d = IsStaffed d.organizations d.memberships

Performed-IsStaffed :
    (op : Operation) (org user : String) (d : Db) (a : Unit {0}) (d' : Db)
    → IsStaffedDb d
    → Performed op org user d a d'
    → IsStaffedDb d'
Performed-IsStaffed (creating o creator_id) org user d a d' h p =
    subst IsStaffedDb (sym p.written)
      (create-IsStaffed d.organizations d.memberships org user _ p.time refl p.fresh h)
Performed-IsStaffed (adding org_id user_id status) org user d a d' h p = elim p.written [
  | inl (m, found, same) ↦ subst IsStaffedDb (sym same) h
  | inr (absent, written) ↦ subst IsStaffedDb (sym written) (
      add-IsStaffed d.organizations d.memberships org user status p.time (p.organization, p.known)
        h)
]
Performed-IsStaffed (updating org_id user_id status) org user d a d' h p =
    let staffed =
      set_status-IsStaffed d.organizations d.memberships org user status p.time p.row p.found
        p.guarded h in
    elim (Bool-cases (is_suspended status && not (is_suspended p.row.status))) [
      | inl e ↦ subst IsStaffedDb (sym p.written) (rw e staffed)
      | inr e ↦ subst IsStaffedDb (sym p.written) (rw e staffed)
    ]
Performed-IsStaffed (removing org_id user_id) org user d a d' h p =
    subst IsStaffedDb (sym p.written)
      (remove-IsStaffed d.organizations d.memberships org user p.row p.found p.guarded h)

pub Outcome-IsStaffed :
    (env : Env) (op : Operation) (d : Db) (a : Unit {0}) (d' : Db)
    → IsStaffedDb d
    → Outcome env op d a d'
    → IsStaffedDb d'
Outcome-IsStaffed env op d a d' h o = Performed-IsStaffed op o.org o.user d a d' h o.performed

pub perform-Keeps_staffing : (env : Env) (op : Operation) → Keeps IsStaffedDb (perform env op)
perform-Keeps_staffing env op =
    Keeps-atomic IsStaffedDb (perform env op) (Outcome env op) (perform-IsAtomic env op)
      (perform-Effect env op) (Outcome-IsStaffed env op)
