-- ===== src/Postgres/Memberships/Counting.antt =====
-- The membership statements of queries/organizations.sql: rows found, active members counted.
use orbit_auth.Prelude.{
  ℕ, ◌+◌, ◌≤◌, String, ◌≡◌, refl, ◌&&◌, Option, none, some, List, [], ◌∷◌, arith, ◌==◌, eq_iff,
  if◌then◌else◌,
}
use orbit_auth.Domain.{Time, Membership, MembershipStatus, is_active}
use orbit_auth.Postgres.Memberships.{
  is_row, find, count_active, append_row, row, add, set_status, remove,
}

-- No two rows have one key.
abbrev pub DistinctRows : List Membership → Type 0
DistinctRows [] = Unit
DistinctRows (m ∷ l) = (find m.org_id m.user_id l ≡ none) × DistinctRows l

abbrev pub status_in : Option Membership → Option MembershipStatus
status_in none = none
status_in (some m) = some m.status

-- 1 for an active row, else 0.
abbrev pub weight : Option Membership → ℕ
weight none = 0
weight (some m) = if is_active m.status then 1 else 0

abbrev first_of_two : Option Membership → Option Membership → Option Membership
first_of_two none y = y
first_of_two (some x) y = some x

-- What a key holds after the statement that inserts unless there is a row.
abbrev or_row : Membership → Option Membership → Option Membership
or_row m none = some m
or_row m (some x) = some x

abbrev restated : MembershipStatus → Time → Option Membership → Option Membership
restated status now none = none
restated status now (some m) = some (record m { status = status; updated_at = now })

-- The row in `found` counts in organization `o`.
abbrev weight_in : String → String → Option Membership → ℕ
weight_in o org found = if org == o then weight found else 0

pub find-append_row :
    (m : Membership) (l : List Membership) (o u : String)
    → find o u (append_row m l) ≡ first_of_two (find o u l) (if is_row o u m then some m else none)
unfolding find append_row
find-append_row m [] o u = ground arith
find-append_row m (n ∷ l) o u = ground (arith, find-append_row m l o u)

-- The key of a row that is found is the key that was looked for.
pub find-key :
    (org user : String) (l : List Membership) (m : Membership)
    → find org user l ≡ some m
    → (m.org_id ≡ org) × (m.user_id ≡ user)
unfolding find
find-key org user [] m e = cc
find-key org user (n ∷ l) m e =
    ground (arith, find-key org user l m, eq_iff n.org_id org, eq_iff n.user_id user)

module _ (org user : String) (status : MembershipStatus) (now : Time) where
  pub find-add :
      (l : List Membership) (o u : String)
      → find o u (add org user status now l) ≡ (
          if org == o && user == u
          then or_row (row org user status now) (find org user l)
          else find o u l)
  unfolding add
  find-add l o u =
      ground (arith, find-append_row (row org user status now) l o u, eq_iff org o, eq_iff user u)

  pub find-set_status :
      (l : List Membership) (o u : String)
      → find o u (set_status org user status now l)
        ≡ (if org == o && user == u then restated status now (find o u l) else find o u l)
  unfolding find set_status
  find-set_status [] o u = ground arith
  find-set_status (m ∷ l) o u = ground (
    arith,
    find-set_status l o u,
    eq_iff org o,
    eq_iff user u,
    eq_iff m.org_id org,
    eq_iff m.user_id user,
    eq_iff m.org_id o,
    eq_iff m.user_id u,
  )

  count-append_row :
      (m : Membership) (o : String) (l : List Membership)
      → count_active o (append_row m l)
        ≡ count_active o l + (if m.org_id == o && is_active m.status then 1 else 0)
  unfolding count_active append_row
  count-append_row m o [] = ground arith
  count-append_row m o (n ∷ l) = ground (arith, count-append_row m o l)

  -- An insertion never lowers a count.
  pub count_active-add :
      (o : String) (l : List Membership)
      → count_active o l ≤ count_active o (add org user status now l)
  unfolding add
  count_active-add o l = ground (arith, count-append_row (row org user status now) o l)

  pub count_active-add_absent :
      (o : String) (l : List Membership)
      → find org user l ≡ none
      → count_active o (add org user status now l)
        ≡ count_active o l + (if org == o && is_active status then 1 else 0)
  unfolding add
  count_active-add_absent o l e = ground (arith, count-append_row (row org user status now) o l)

  pub count_active-set_status_absent :
      (o : String) (l : List Membership)
      → find org user l ≡ none
      → count_active o (set_status org user status now l) ≡ count_active o l
  unfolding count_active set_status find
  count_active-set_status_absent o [] e = refl
  count_active-set_status_absent o (m ∷ l) e = ground (arith, count_active-set_status_absent o l)

  -- The update moves the count by the row's old and new status.
  pub count_active-set_status :
      (o : String) (l : List Membership) (m : Membership)
      → DistinctRows l
      → find org user l ≡ some m
      → count_active o (set_status org user status now l) + weight_in o org (some m)
        ≡ count_active o l + (if org == o && is_active status then 1 else 0)
  unfolding count_active set_status find
  count_active-set_status o [] m d e = cc
  count_active-set_status o (n ∷ l) m d e = ground (
    arith,
    count_active-set_status o l m d.1,
    count_active-set_status_absent o l,
    eq_iff n.org_id org,
    eq_iff n.user_id user,
  )

module _ (org user : String) where
  pub find-remove :
      (l : List Membership) (o u : String)
      → find o u (remove org user l) ≡ (if org == o && user == u then none else find o u l)
  unfolding find remove
  find-remove [] o u = ground arith
  find-remove (m ∷ l) o u = ground (
    arith,
    find-remove l o u,
    eq_iff org o,
    eq_iff user u,
    eq_iff m.org_id org,
    eq_iff m.user_id user,
    eq_iff m.org_id o,
    eq_iff m.user_id u,
  )

  count_active-remove_absent :
      (o : String) (l : List Membership)
      → find org user l ≡ none
      → count_active o (remove org user l) ≡ count_active o l
  unfolding count_active remove find
  count_active-remove_absent o [] e = refl
  count_active-remove_absent o (m ∷ l) e = ground (arith, count_active-remove_absent o l)

  -- The deletion lowers the count by the row that was there.
  pub count_active-remove :
      (o : String) (l : List Membership) (m : Membership)
      → DistinctRows l
      → find org user l ≡ some m
      → count_active o (remove org user l) + weight_in o org (some m) ≡ count_active o l
  unfolding count_active remove find
  count_active-remove o [] m d e = cc
  count_active-remove o (n ∷ l) m d e = ground (
    arith,
    count_active-remove o l m d.1,
    count_active-remove_absent o l,
    eq_iff n.org_id org,
    eq_iff n.user_id user,
  )
