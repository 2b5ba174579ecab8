-- ===== src/Postgres/Memberships/Activation.antt =====
-- The statement AddActiveOrganizationMembership of queries/invites.sql: the rows it leaves.
use orbit_auth.Prelude.{
  String, ◌≡◌, refl, false, ◌&&◌, ◌==◌, eq_refl, some, List, arith, inl, inr, Option-cases,
  Bool-cases,
}
use orbit_auth.Domain.{Time, Membership, active, is_suspended}
use orbit_auth.Postgres.Memberships.{find, activate, is_invited, row}
use orbit_auth.Postgres.Memberships.Counting.{find-add, find-set_status}

module _ (org user : String) (now : Time) (l : List Membership) where
  -- The user is a member, unless suspended before.
  pub find-activate :
      ((m : Membership) → find org user l ≡ some m → is_suspended m.status ≡ false)
      → (m : Membership) × (find org user (activate org user now l) ≡ some m) × (m.status ≡ active)
  unfolding activate is_invited
  find-activate h = elim (Option-cases (find org user l)) [
    | inl e ↦ (
      row org user active now,
      ground (arith, find-add org user active now l org user, eq_refl org, eq_refl user),
      refl,
    )
    | inr (m, e) ↦ elim (Bool-cases (is_invited (some m))) [
      | inl waiting ↦ (
        record m { status = active; updated_at = now },
        ground
            (arith, e, find-set_status org user active now l org user, eq_refl org, eq_refl user),
        refl,
      )
      | inr joined ↦ (
        m,
        ground (arith, e, find-add org user active now l org user, eq_refl org, eq_refl user),
        ground (arith, h m e),
      )
    ]
  ]

  -- No other row changes.
  pub find-activate_other :
      (o u : String)
      → (org == o && user == u) ≡ false
      → find o u (activate org user now l) ≡ find o u l
  unfolding activate
  find-activate_other o u other =
      ground (arith, find-add org user active now l o u, find-set_status org user active now l o u)
