-- ===== src/Postgres/Memberships.antt =====
-- The table `organization_memberships`, with the primary key (org_id, user_id), as the statements
-- of queries/organizations.sql read and change it.
pub mod Counting
pub mod Keys
pub mod Activation
use orbit_auth.Prelude.{
  ℕ, ◌+◌, String, Bool, true, false, not, ◌&&◌, Option, none, some, List, [], ◌∷◌, ◌++◌, ◌==◌,
  if◌then◌else◌,
}
use orbit_auth.Domain.{Time, Membership, MembershipStatus, active, invited, suspended, is_active}

abbrev pub is_row : String → String → Membership → Bool
is_row org user m = m.org_id == org && m.user_id == user

-- GetOrganizationMembership
unfoldable pub find : String → String → List Membership → Option Membership
find org user [] = none
find org user (m ∷ l) = if is_row org user m then some m else find org user l

-- CountActiveOrganizationMembers
unfoldable pub count_active : String → List Membership → ℕ
count_active org [] = 0
count_active org (m ∷ l) =
    if m.org_id == org && is_active m.status then count_active org l + 1 else count_active org l

abbrev pub row : String → String → MembershipStatus → Time → Membership
row org user status now = record {
  org_id = org;
  user_id = user;
  status = status;
  created_at = now;
  updated_at = now;
}

pub append_row : Membership → List Membership → List Membership
append_row m [] = m ∷ []
append_row m (n ∷ l) = n ∷ append_row m l

-- AddOrganizationMembership: ON CONFLICT (org_id, user_id) DO NOTHING
unfoldable pub add : String → String → MembershipStatus → Time → List Membership → List Membership
unfolding append_row
add org user status now l = elim (find org user l) [
  | none ↦ append_row (row org user status now) l
  | some m ↦ l
]

-- UpdateOrganizationMembershipStatus
unfoldable pub set_status :
    String → String → MembershipStatus → Time → List Membership → List Membership
set_status org user status now [] = []
set_status org user status now (m ∷ l) =
    (if is_row org user m then record m { status = status; updated_at = now } else m)
    ∷ set_status org user status now l

-- DeleteOrganizationMembership
unfoldable pub remove : String → String → List Membership → List Membership
remove org user [] = []
remove org user (m ∷ l) = if is_row org user m then remove org user l else m ∷ remove org user l

is_invited : Option Membership → Bool
is_invited none = false
is_invited (some m) = elim m.status [ active ↦ false | invited ↦ true | suspended ↦ false ]

-- AddActiveOrganizationMembership: insert an active row, or turn an invited one active.
unfoldable pub activate : String → String → Time → List Membership → List Membership
unfolding is_invited
activate org user now l =
    if is_invited (find org user l)
    then set_status org user active now l
    else add org user active now l
