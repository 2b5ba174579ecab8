-- ===== src/Postgres/Invites/Joining.antt =====
-- What accepting an invite of internal/infrastructure/postgres/invites.go does.
use orbit_auth.Prelude.{
  ◌<◌, String, ◌≡◌, refl, subst, false, ◌&&◌, Option, some, ◌==◌, arith, inl, inr, eqb, Bool-cases,
}
use orbit_auth.Prelude.Results.{Result, ok, err}
use orbit_auth.Domain.{
  Time, Membership, active, is_suspended, membership_added, Error, invite_not_found,
}
use orbit_auth.Runtime.{Db, Env, statement}
use orbit_auth.Runtime.Effects.{
  Effect, Effect-bind, Effect-map, Effect-pure, Effect-raise, Effect-refuse, Effect-statement,
  Effect-parse_id, Effect-transaction,
}
use orbit_auth.Runtime.Rules.{IsAtomic, transaction-IsAtomic}
use orbit_auth.Runtime.Keeping.{read_bind-IsAtomic}
use orbit_auth.Runtime.Reads.{bind-IsReadOnly, parse_id-IsReadOnly, pure-IsReadOnly}
use orbit_auth.Postgres.Memberships
use orbit_auth.Postgres.Memberships.Activation.{find-activate, find-activate_other}
use orbit_auth.Postgres.Queries.{activate_membership, activate_row, append_outbox}
use orbit_auth.Postgres.Organizations.{is_not_member}
use orbit_auth.Postgres.Organizations.Effects.{
  Effect-lock_organization, Effect-try-membership_row, Effect-emit, LookedUp, emitted, with_members,
}
use orbit_auth.Postgres.Invites.{
  count_pending, accept_rows, with_invites, check_standing, accept_invite_body, accept_invite,
  invite_ids,
}

-- What the transaction has found and done, by the parsed identifiers.
pub record Joined (id org user org_id user_id : String) (at : Time) (before : Db) (a : Unit {0})
    (after : Db) : Type 0 where
  pub waiting : 0 < count_pending id org before.invites
  pub standing :
      (m : Membership)
      → Memberships.find org user before.memberships ≡ some m
      → is_suspended m.status ≡ false
  pub invites : after.invites ≡ accept_rows id org at before.invites
  pub member :
      (m : Membership) × (Memberships.find org user after.memberships ≡ some m)
      × (m.status ≡ active)
  pub others :
      (o u : String)
      → (org == o && user == u) ≡ false
      → Memberships.find o u after.memberships ≡ Memberships.find o u before.memberships
  pub told :
      (t : Time) × (after.outbox
        ≡ append_outbox
            (record { event = membership_added org_id user_id active at; timestamp = t })
            before.outbox)

abbrev joined_tables : String → String → String → String → String → Time → Time → Time → Db → Db
joined_tables id org user org_id user_id at t stamp d =
    emitted (membership_added org_id user_id active at) stamp (
      with_members (Memberships.activate org user t d.memberships)
        (with_invites (accept_rows id org at d.invites) d))

Joined_lem :
    (id org user org_id user_id : String) (at t stamp : Time) (d : Db) (a : Unit {0}) (d' : Db)
    → 0 < count_pending id org d.invites
    → ((m : Membership)
        → Memberships.find org user d.memberships ≡ some m
        → is_suspended m.status ≡ false)
    → joined_tables id org user org_id user_id at t stamp d ≡ d'
    → Joined id org user org_id user_id at d a d'
Joined_lem id org user org_id user_id at t stamp d a d' waiting standing written =
    subst (Joined id org user org_id user_id at d a) written (record {
      waiting = waiting;
      standing = standing;
      invites = refl;
      member = find-activate org user t d.memberships standing;
      others = λ o u. find-activate_other org user t d.memberships o u;
      told = (stamp, refl);
    })

module _ (env : Env) where
  Effect-check_standing :
      (r : Result Error Membership)
      → Effect (check_standing env r) (λ d a d'.
        (d' ≡ d)
        × ((row : Option Membership)
            → LookedUp row r
            → (m : Membership) → row ≡ some m
            → is_suspended m.status ≡ false))
  unfolding check_standing
  Effect-check_standing (ok m) =
      Effect-map _ _ _ (Effect-refuse (is_suspended m.status) _)
        λ d a d' e. (e.1, λ row found n h. ground (arith, e.0))
  Effect-check_standing (err e) = elim (Bool-cases (is_not_member e)) [
    | inl missing ↦ rw missing (
        Effect-map _ _ _ (Effect-pure tt)
          λ d a d' r. (r.1, λ row found m h. absurd (ground (arith, found refl, h))))
    | inr other ↦ rw other (Effect-raise e _)
  ]

  Effect-activate_membership :
      (org user : String)
      → Effect (activate_membership env org user) (λ d a d'.
        (t : Time) × (d' ≡ with_members (Memberships.activate org user t d.memberships) d))
  unfolding activate_membership activate_row Memberships.activate Memberships.add
  Effect-activate_membership org user =
      Effect-map _ _ _ (Effect-statement env _) λ d a d' e. (e.0, ground (arith, e.1))

  Effect-accept_rows :
      (id org : String) (at : Time)
      → Effect
          (statement env (λ d t.
            ok (count_pending id org d.invites, with_invites (accept_rows id org at d.invites) d)))
          (λ d n d'.
            (n ≡ count_pending id org d.invites)
            × (d' ≡ with_invites (accept_rows id org at d.invites) d))
  Effect-accept_rows id org at =
      Effect-map _ _ _ (Effect-statement env _) λ d a d' e. (ground arith, ground arith)

  accept_invite_body-Effect :
      (id org user org_id user_id : String) (at : Time)
      → Effect
          (accept_invite_body env id org user org_id user_id at)
          (Joined id org user org_id user_id at)
  unfolding accept_invite_body
  accept_invite_body-Effect id org user org_id user_id at =
      Effect-map _ _ _
        (Effect-bind _ _ _ _ (Effect-lock_organization env org) λ o.
          Effect-bind _ _ _ _ (Effect-try-membership_row env org user) λ current.
            Effect-bind _ _ _ _ (Effect-check_standing current) λ x.
              Effect-bind _ _ _ _ (Effect-accept_rows id org at) λ n.
                Effect-bind _ _ _ _ (Effect-refuse (eqb n 0) invite_not_found) λ y.
                  Effect-bind _ _ _ _ (Effect-activate_membership org user)
                    λ z. Effect-emit env (membership_added org_id user_id active at) at)
        λ d a d' s.
          let look = s.second in
          let check = look.second in
          let mark = check.second in
          let guard = mark.second in
          let join = guard.second in
          Joined_lem id org user org_id user_id at join.first.0 join.second.0 d a d'
            (ground (arith, s.first, look.first, check.first, mark.first, guard.first))
            (λ m h.
              check.first.1 (Memberships.find org user s.between.memberships) look.first.1 m
                (ground (arith, s.first, h)))
            (ground (
              arith, s.first, look.first, check.first, mark.first, guard.first, join.first,
              join.second,
            ))

  -- The parsed identifiers, and what was done with them.
  abbrev pub Accepted : String → String → String → Time → Db → Unit {0} → Db → Type 0
  Accepted invite_id org_id user_id at d a d' =
      (id : String) × (org : String) × (user : String) × (env.parse_uuid invite_id ≡ some id)
      × (env.parse_uuid org_id ≡ some org)
      × (env.parse_uuid user_id ≡ some user)
      × Joined id org user org_id user_id at d a d'

  pub Effect-accept_invite :
      (invite_id org_id user_id : String) (at : Time)
      → Effect
          (accept_invite env invite_id org_id user_id at)
          (Accepted invite_id org_id user_id at)
  unfolding accept_invite invite_ids
  Effect-accept_invite invite_id org_id user_id at =
      Effect-map _ _ _
        (Effect-bind _ _ _ _
          (Effect-bind _ _ _ _ (Effect-parse_id env org_id)
            λ org. Effect-bind _ _ _ _ (Effect-parse_id env invite_id) λ id. Effect-pure (org, id))
          λ ids. Effect-bind _ _ _ _ (Effect-parse_id env user_id) λ user.
            Effect-transaction env _ _
              (accept_invite_body-Effect ids.1 ids.0 user org_id user_id at))
        λ d a d' s.
          let org = s.first in
          let id = org.second in
          let user = s.second in
          (
            s.value.1,
            s.value.0,
            user.value,
            ground (arith, id.first, id.second),
            ground (arith, org.first, id.second),
            user.first.0,
            subst (λ x. Joined s.value.1 s.value.0 user.value org_id user_id at x a d')
                (ground (arith, org.first, id.first, id.second, user.first)) user.second,
          )

  pub accept_invite-IsAtomic :
      (invite_id org_id user_id : String) (at : Time)
      → IsAtomic (accept_invite env invite_id org_id user_id at)
  unfolding accept_invite invite_ids
  accept_invite-IsAtomic invite_id org_id user_id at =
      read_bind-IsAtomic _ _
        (bind-IsReadOnly _ _ (parse_id-IsReadOnly env org_id) λ org.
          bind-IsReadOnly _ _ (parse_id-IsReadOnly env invite_id) λ id. pure-IsReadOnly (org, id))
        λ ids. read_bind-IsAtomic _ _ (parse_id-IsReadOnly env user_id) λ user.
          transaction-IsAtomic env (accept_invite_body env ids.1 ids.0 user org_id user_id at)
