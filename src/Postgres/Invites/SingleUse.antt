-- ===== src/Postgres/Invites/SingleUse.antt =====
-- How often an invite of internal/infrastructure/postgres/invites.go is accepted.
use orbit_auth.Prelude.{
  ℕ, ◌+◌, ◌≤◌, String, ◌≡◌, refl, Bool, true, false, ◌&&◌, Option, none, some, List, [], ◌∷◌, ◌==◌,
  eq_iff, any, arith, subst, inl, inr, Bool-cases, String-cases, sym, ◌<◌, eqb, if◌then◌else◌,
}
use orbit_auth.Prelude.Results.{Result, ok, err, Result-cases}
use orbit_auth.Domain.{Time, Error, invite_not_found}
use orbit_auth.Domain.Invites.{Invite}
use orbit_auth.Runtime.{Db, Env, World, Exec, statement}
use orbit_auth.Runtime.Rules.{Keeps, Keeps-atomic}
use orbit_auth.Postgres.Invites.Joining.{Effect-accept_invite, accept_invite-IsAtomic}
use orbit_auth.Postgres.Invites.Settling.{
  IsSettled, accept_rows-IsWeaker, revoke_rows-IsWeaker, revoke_pending-IsWeaker, IsSettled-weaker,
  accept_rows-settles, any-id,
}
use orbit_auth.Postgres.Invites.{
  is_invite, count_pending, accept_rows, revoke_rows, revoke_pending, insert_invite, create_invite,
  revoke_invite, accept_invite, create_invite_body, invite_ids,
}
use orbit_auth.Postgres.Organizations.{lock_organization, no_rows_as}
use orbit_auth.Postgres.Queries.{lock_organization_row, row_or_none}
use orbit_auth.Runtime.Keeping.{
  bind-Keeps, statement-Keeps, transaction-Keeps, parse_id-Keeps, read-Keeps,
}
use orbit_auth.Runtime.Reads.{
  bind-IsReadOnly, statement-IsReadOnly, pure-IsReadOnly, refuse-IsReadOnly,
}

-- A call of a method of the invite store that writes.
pub data InviteCall : Type 0 where
  creating : Invite → InviteCall
  revoking : String → String → InviteCall
  accepting : String → String → String → Time → InviteCall

-- The rows of a database settle the invite.
abbrev SettledIn : String → String → Db → Type 0
SettledIn id org d = IsSettled id org d.invites

module _ (env : Env) where
  unfoldable pub perform : InviteCall → Exec (Unit {0})
  perform (creating i) = create_invite env i
  perform (revoking org_id invite_id) = revoke_invite env org_id invite_id
  perform (accepting invite_id org_id user_id at) = accept_invite env invite_id org_id user_id at

  is_ok : Result Error (Unit {0}) → Bool
  is_ok (ok a) = true
  is_ok (err e) = false

  is_parsed : String → Option String → Bool
  is_parsed id none = false
  is_parsed id (some x) = x == id

  -- The call accepts the invite of these two identifiers.
  is_acceptance : String → String → InviteCall → Bool
  is_acceptance id org (creating i) = false
  is_acceptance id org (revoking org_id invite_id) = false
  is_acceptance id org (accepting invite_id org_id user_id at) =
      is_parsed id (env.parse_uuid invite_id) && is_parsed org (env.parse_uuid org_id)

  -- How many of the calls, one after another, accept the invite.
  unfoldable pub acceptances : String → String → List InviteCall → World → ℕ
  unfolding is_acceptance is_ok is_parsed
  acceptances id org [] w = 0
  acceptances id org (c ∷ calls) w =
      let rest = acceptances id org calls (perform c w).1 in
      if is_acceptance id org c && is_ok (perform c w).0 then rest + 1 else rest

  module _ (id org : String) where
    lock-Keeps : (o : String) → Keeps (SettledIn id org) (lock_organization env o)
    unfolding lock_organization no_rows_as lock_organization_row row_or_none
    lock-Keeps o = read-Keeps _ _ (
        bind-IsReadOnly _ _
          (record { at = λ w. (statement-IsReadOnly env _ λ d t a d' e. ground arith).at w })
          λ x. pure-IsReadOnly tt)

    insert-Keeps :
        (i : Invite) → Keeps (SettledIn id org) (statement env (λ d t. insert_invite env i d))
    unfolding insert_invite count_pending
    insert-Keeps i = statement-Keeps _ env _ λ d t a d' e settled. elim (String-cases i.id id) [
      | inl same ↦ absurd (
          ground (
            arith,
            e,
            any-id i.id org d.invites
                (subst (λ x. any (λ j. is_invite x org j) d.invites ≡ true) (sym same) settled.0),
          ))
      | inr other ↦ ground (arith, settled, e, eq_iff i.id id)
    ]

    create-Keeps : (i : Invite) → Keeps (SettledIn id org) (create_invite env i)
    unfolding create_invite create_invite_body
    create-Keeps i = bind-Keeps _ _ _ (parse_id-Keeps _ env i.id) λ x.
        bind-Keeps _ _ _ (parse_id-Keeps _ env i.org_id) λ o.
          bind-Keeps _ _ _ (parse_id-Keeps _ env i.inviter_id) λ y. transaction-Keeps _ env _ (
            bind-Keeps _ _ _ (lock-Keeps o) λ u.
              bind-Keeps _ _ _
                (statement-Keeps _ env _ λ d t a d' e settled.
                  subst (IsSettled id org) (ground arith) (
                    IsSettled-weaker id org d.invites (revoke_pending env o i.email d.invites)
                      (revoke_pending-IsWeaker env o i.email d.invites) settled))
                λ v. insert-Keeps (record i { id = x; org_id = o; inviter_id = y }))

    revoke-Keeps :
        (org_id invite_id : String) → Keeps (SettledIn id org) (revoke_invite env org_id invite_id)
    unfolding revoke_invite invite_ids
    revoke-Keeps org_id invite_id =
        bind-Keeps _ _ _
          (bind-Keeps _ _ _ (parse_id-Keeps _ env org_id) λ o.
            bind-Keeps _ _ _ (parse_id-Keeps _ env invite_id)
              λ i. read-Keeps _ _ (pure-IsReadOnly (o, i)))
          λ ids.
            bind-Keeps _ _ _
              (statement-Keeps _ env _ λ d t a d' e settled.
                subst (IsSettled id org) (ground arith) (
                  IsSettled-weaker id org d.invites (revoke_rows ids.1 ids.0 d.invites)
                    (revoke_rows-IsWeaker ids.1 ids.0 d.invites) settled))
              λ n. read-Keeps _ _ (refuse-IsReadOnly (eqb n 0) invite_not_found)

    accept-Keeps :
        (invite_id org_id user_id : String) (at : Time)
        → Keeps (SettledIn id org) (accept_invite env invite_id org_id user_id at)
    accept-Keeps invite_id org_id user_id at =
        Keeps-atomic _ _ _ (accept_invite-IsAtomic env invite_id org_id user_id at)
          (Effect-accept_invite env invite_id org_id user_id at)
          λ d a d' settled (i, o, u, p, q, r, joined).
            subst (IsSettled id org) (sym joined.invites) (
              IsSettled-weaker id org d.invites (accept_rows i o at d.invites)
                (accept_rows-IsWeaker i o at d.invites) settled)

    perform-Keeps : (c : InviteCall) → Keeps (SettledIn id org) (perform c)
    unfolding perform
    perform-Keeps (creating i) = create-Keeps i
    perform-Keeps (revoking org_id invite_id) = revoke-Keeps org_id invite_id
    perform-Keeps (accepting invite_id org_id user_id at) = accept-Keeps invite_id org_id user_id at

    -- An acceptance finds the invite pending, and settles it.
    acceptance-settles :
        (c : InviteCall) (w : World)
        → (is_acceptance id org c && is_ok (perform c w).0) ≡ true
        → (0 < count_pending id org w.db.invites) × IsSettled id org (perform c w).1.db.invites
    unfolding perform is_acceptance is_ok is_parsed
    acceptance-settles (creating i) w h = absurd (ground arith)
    acceptance-settles (revoking org_id invite_id) w h = absurd (ground arith)
    acceptance-settles (accepting invite_id org_id user_id at) w h =
        elim (Result-cases (accept_invite env invite_id org_id user_id at w).0) [
          | inr (x, e) ↦ absurd (ground arith)
          | inl (a, e) ↦
              let (i, o, u, p, q, r, joined) =
                (Effect-accept_invite env invite_id org_id user_id at).at w a e in
              let same_id : i ≡ id = ground (arith, h, p, q, eq_iff i id) in
              let same_org : o ≡ org = ground (arith, h, p, q, eq_iff o org) in
              accept_rows-settles i o id org at w.db.invites
                (accept_invite env invite_id org_id user_id at w).1.db.invites same_id same_org
                joined.waiting joined.invites
        ]

    settled-acceptances :
        (calls : List InviteCall) (w : World)
        → IsSettled id org w.db.invites
        → acceptances id org calls w ≡ 0
    unfolding acceptances
    settled-acceptances [] w h = refl
    settled-acceptances (c ∷ calls) w h =
        elim (Bool-cases (is_acceptance id org c && is_ok (perform c w).0)) [
          | inl counts ↦ absurd (ground (arith, acceptance-settles c w counts, h))
          | inr other ↦
              rw (other, acceptances)
                (settled-acceptances calls (perform c w).1 ((perform-Keeps c).at w h))
        ]

    -- In every history of calls to create, revoke and accept invites, from any tables, whatever the
    -- environment answers and whichever calls fail, an invite of an organization is accepted with
    -- success at most once.
    pub acceptances-le : (calls : List InviteCall) (w : World) → acceptances id org calls w ≤ 1
    unfolding acceptances
    acceptances-le [] w = omega arith
    acceptances-le (c ∷ calls) w =
        elim (Bool-cases (is_acceptance id org c && is_ok (perform c w).0)) [
          | inl counts ↦
              rw (counts, acceptances)
                (rw (settled-acceptances calls (perform c w).1 (acceptance-settles c w counts).1)
                  (omega arith))
          | inr other ↦ rw (other, acceptances) (acceptances-le calls (perform c w).1)
        ]
