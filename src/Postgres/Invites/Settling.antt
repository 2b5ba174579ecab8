-- ===== src/Postgres/Invites/Settling.antt =====
-- The rows of invites that the statements of queries/invites.sql leave pending.
use orbit_auth.Prelude.{
  ◌≤◌, ◌<◌, ◌∙◌, sym, String, ◌≡◌, refl, true, List, [], ◌∷◌, ◌==◌, any, arith, subst,
}
use orbit_auth.Domain.{Time}
use orbit_auth.Domain.Invites.{Invite, is_pending}
use orbit_auth.Runtime.{Env}
use orbit_auth.Postgres.Invites.{is_invite, count_pending, accept_rows, revoke_rows, revoke_pending}

-- The rows of one list against those of another: the same identifiers, and none newly pending.
abbrev pub IsWeaker : List Invite → List Invite → Type 0
IsWeaker [] [] = Unit
IsWeaker [] (i ∷ l) = ⊥
IsWeaker (i ∷ l) [] = ⊥
IsWeaker (i ∷ l) (j ∷ k) =
    ((j.id ≡ i.id)
      × (j.org_id ≡ i.org_id)
      × (is_pending j.status ≡ true → is_pending i.status ≡ true))
    × IsWeaker l k

-- The invite exists and is no longer pending.
abbrev pub IsSettled : String → String → List Invite → Type 0
IsSettled id org l = (any (λ i. is_invite id org i) l ≡ true) × (count_pending id org l ≡ 0)

pub accept_rows-IsWeaker :
    (id org : String) (at : Time) (l : List Invite) → IsWeaker l (accept_rows id org at l)
unfolding accept_rows
accept_rows-IsWeaker id org at [] = tt
accept_rows-IsWeaker id org at (i ∷ l) = (ground arith, accept_rows-IsWeaker id org at l)

pub revoke_rows-IsWeaker : (id org : String) (l : List Invite) → IsWeaker l (revoke_rows id org l)
unfolding revoke_rows
revoke_rows-IsWeaker id org [] = tt
revoke_rows-IsWeaker id org (i ∷ l) = (ground arith, revoke_rows-IsWeaker id org l)

pub revoke_pending-IsWeaker :
    (env : Env) (org email : String) (l : List Invite) → IsWeaker l (revoke_pending env org email l)
unfolding revoke_pending
revoke_pending-IsWeaker env org email [] = tt
revoke_pending-IsWeaker env org email (i ∷ l) =
    (ground arith, revoke_pending-IsWeaker env org email l)

count_pending-IsWeaker :
    (id org : String) (l k : List Invite)
    → IsWeaker l k
    → count_pending id org k ≤ count_pending id org l
unfolding count_pending
count_pending-IsWeaker id org [] [] h = omega arith
count_pending-IsWeaker id org [] (j ∷ k) h = absurd h
count_pending-IsWeaker id org (i ∷ l) [] h = absurd h
count_pending-IsWeaker id org (i ∷ l) (j ∷ k) h =
    ground (arith, count_pending-IsWeaker id org l k h.1)

pub any-IsWeaker :
    (id org : String) (l k : List Invite)
    → IsWeaker l k
    → any (λ i. is_invite id org i) k ≡ any (λ i. is_invite id org i) l
any-IsWeaker id org [] [] h = refl
any-IsWeaker id org [] (j ∷ k) h = absurd h
any-IsWeaker id org (i ∷ l) [] h = absurd h
any-IsWeaker id org (i ∷ l) (j ∷ k) h = ground (arith, any-IsWeaker id org l k h.1)

pub IsSettled-weaker :
    (id org : String) (l k : List Invite) → IsWeaker l k → IsSettled id org l → IsSettled id org k
IsSettled-weaker id org l k h settled =
    (ground (arith, any-IsWeaker id org l k h), ground (arith, count_pending-IsWeaker id org l k h))

pub count_pending-accept_rows :
    (id org : String) (at : Time) (l : List Invite)
    → count_pending id org (accept_rows id org at l) ≡ 0
unfolding count_pending accept_rows
count_pending-accept_rows id org at [] = refl
count_pending-accept_rows id org at (i ∷ l) = ground (arith, count_pending-accept_rows id org at l)

pub any-count_pending :
    (id org : String) (l : List Invite)
    → (count_pending id org l ≡ 0 → ⊥)
    → any (λ i. is_invite id org i) l ≡ true
unfolding count_pending
any-count_pending id org [] h = absurd (h refl)
any-count_pending id org (i ∷ l) h = ground (arith, any-count_pending id org l)

pub any-id :
    (id org : String) (l : List Invite)
    → any (λ i. is_invite id org i) l ≡ true
    → any (λ i. i.id == id) l ≡ true
any-id id org [] h = ground arith
any-id id org (i ∷ l) h = ground (arith, any-id id org l)

settles_one :
    (id org : String) (at : Time) (l : List Invite)
    → 0 < count_pending id org l
    → IsSettled id org (accept_rows id org at l)
settles_one id org at l waiting = (
  any-IsWeaker id org l (accept_rows id org at l) (accept_rows-IsWeaker id org at l)
      ∙ any-count_pending id org l (λ none. omega arith),
  count_pending-accept_rows id org at l,
)

-- The accepted invite was pending and is settled.
pub accept_rows-settles :
    (i o id org : String) (at : Time) (l k : List Invite)
    → i ≡ id
    → o ≡ org
    → 0 < count_pending i o l
    → k ≡ accept_rows i o at l
    → (0 < count_pending id org l) × IsSettled id org k
accept_rows-settles i o id org at l k same_id same_org waiting written =
    subst (λ x. (0 < count_pending x org l) × IsSettled x org k) same_id
      (subst (λ x. (0 < count_pending i x l) × IsSettled i x k) same_org
        (waiting, subst (IsSettled i o) (sym written) (settles_one i o at l waiting)))
