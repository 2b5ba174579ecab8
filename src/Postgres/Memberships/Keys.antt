-- ===== src/Postgres/Memberships/Keys.antt =====
-- The membership statements of queries/organizations.sql, the primary key and the reference.
use orbit_auth.Prelude.{String, ◌≡◌, refl, none, List, [], ◌∷◌, arith, eq_iff, All}
use orbit_auth.Domain.{Time, Membership, MembershipStatus}
use orbit_auth.Postgres.Memberships.{find, row, append_row, add, set_status, remove}
use orbit_auth.Postgres.Memberships.Counting.{
  DistinctRows, find-append_row, find-set_status, find-remove,
}

append_row-DistinctRows :
    (m : Membership) (l : List Membership)
    → find m.org_id m.user_id l ≡ none
    → DistinctRows l
    → DistinctRows (append_row m l)
unfolding append_row find
append_row-DistinctRows m [] e d = (refl, tt)
append_row-DistinctRows m (n ∷ l) e d = ground (
  arith,
  append_row-DistinctRows m l,
  find-append_row m l n.org_id n.user_id,
  eq_iff n.org_id m.org_id,
  eq_iff n.user_id m.user_id,
  eq_iff m.org_id n.org_id,
  eq_iff m.user_id n.user_id,
)

module _ (org user : String) (status : MembershipStatus) (now : Time) where
  pub add-DistinctRows :
      (l : List Membership) → DistinctRows l → DistinctRows (add org user status now l)
  unfolding add
  add-DistinctRows l d = ground (arith, append_row-DistinctRows (row org user status now) l)

  pub set_status-DistinctRows :
      (l : List Membership) → DistinctRows l → DistinctRows (set_status org user status now l)
  unfolding set_status
  set_status-DistinctRows [] d = tt
  set_status-DistinctRows (m ∷ l) d =
      ground
        (arith, set_status-DistinctRows l, find-set_status org user status now l m.org_id m.user_id)

  module _ (P : String → Type 0) where
    append_row-All :
        (m : Membership) (l : List Membership)
        → P m.org_id
        → All (λ n. P n.org_id) l
        → All (λ n. P n.org_id) (append_row m l)
    unfolding append_row
    append_row-All m [] p h = (p, tt)
    append_row-All m (n ∷ l) p h = (h.0, append_row-All m l p h.1)

    pub add-All :
        (l : List Membership)
        → P org
        → All (λ n. P n.org_id) l
        → All (λ n. P n.org_id) (add org user status now l)
    unfolding add
    add-All l p h = ground (arith, append_row-All (row org user status now) l p h)

    pub set_status-All :
        (l : List Membership)
        → All (λ n. P n.org_id) l
        → All (λ n. P n.org_id) (set_status org user status now l)
    unfolding set_status
    set_status-All [] h = tt
    set_status-All (m ∷ l) h = ground (arith, set_status-All l h.1)

module _ (org user : String) where
  pub remove-DistinctRows :
      (l : List Membership) → DistinctRows l → DistinctRows (remove org user l)
  unfolding remove
  remove-DistinctRows [] d = tt
  remove-DistinctRows (m ∷ l) d =
      ground (arith, remove-DistinctRows l, find-remove org user l m.org_id m.user_id)

  pub remove-All :
      (P : String → Type 0) (l : List Membership)
      → All (λ n. P n.org_id) l
      → All (λ n. P n.org_id) (remove org user l)
  unfolding remove
  remove-All P [] h = tt
  remove-All P (m ∷ l) h = ground (arith, remove-All P l h.1)
