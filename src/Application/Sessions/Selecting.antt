-- ===== src/Application/Sessions/Selecting.antt =====
-- `SelectOrg` of service.go: what it checks and writes.
use orbit_auth.Prelude.{
  ◌+◌, String, ◌≡◌, refl, sym, subst, ap, ◌∙◌, Bool, true, not, ◌||◌, some, ◌==◌, eq_iff, arith,
}
use orbit_auth.Prelude.Results.{Result, ok, err}
use orbit_auth.Domain.{Time, Error, invalid_refresh, not_member}
use orbit_auth.Runtime.{Db, RefreshToken, Env, World, Exec, try, refuse, ◌>>=◌, ◌>>◌}
use orbit_auth.Runtime.Effects.{
  Effect, Effect-bind, Effect-map, Effect-raise, Effect-refuse, bind-ok, refuse-ok,
}
use orbit_auth.Postgres.RefreshTokens.{with_tokens, find_live, find_valid, revoke}
use orbit_auth.Application.OrgService.{is_active_member}
use orbit_auth.Application.OrgService.Activity.{
  IsActiveIn, Effect-is_active_member, is_active_member-calls,
}
use orbit_auth.Application.Sessions.{TokenPair, owned_by, select_trimmed, issue_tokens_for_org}
use orbit_auth.Application.Sessions.Issuing.{Issued, Effect-issue}
use orbit_auth.Application.Sessions.Revoking.{
  RevokedIn, Rotated, find_valid-ok, find_valid-IsReadOnly, Effect-revoke,
}

-- A rotation of a token that was live at the time, of the user, who is an active member of the organization.
pub record Selected (env : Env) (user_id token org_id : String) (time : Time) (before : Db)
    (pair : TokenPair) (after : Db) : Type 0 where
  pub row : RefreshToken
  pub member : IsActiveIn env before.memberships org_id user_id
  pub found : find_live (env.digest token) time before.refresh_tokens ≡ some row
  pub owner : row.user_id ≡ user_id
  pub rotated : Rotated env (env.digest token) user_id org_id before pair after

module _ (env : Env) where
  Effect-owned_by :
      (user_id : String) (r : Result Error RefreshToken)
      → Effect
          (owned_by user_id r)
          (λ d a d'. (d' ≡ d) × ((row : RefreshToken) × (r ≡ ok row) × (row.user_id ≡ user_id)))
  Effect-owned_by user_id (err x) = Effect-raise invalid_refresh _
  Effect-owned_by user_id (ok row) =
      Effect-map _ _ _ (Effect-refuse _ _)
        λ d a d' e. (e.1, (row, refl, ground (arith, e.0, eq_iff row.user_id user_id)))

  -- What follows the lookup in `SelectOrg`.
  abbrev chosen : String → String → String → Result Error RefreshToken → Exec TokenPair
  chosen user_id token org_id found =
      owned_by user_id found
      >> (try (revoke env (env.digest token)) >>= λ r. issue_tokens_for_org env user_id org_id)

  Effect-chosen :
      (user_id token org_id : String) (found : Result Error RefreshToken)
      → Effect (chosen user_id token org_id found) (λ d pair d'.
        (row : RefreshToken) × (found ≡ ok row)
        × (row.user_id ≡ user_id)
        × Rotated env (env.digest token) user_id org_id d pair d')
  Effect-chosen user_id token org_id found =
      Effect-map _ _ _
        (Effect-bind _ _ _ _ (Effect-owned_by user_id found) λ _.
          Effect-bind _ _ _ _ (Effect-revoke env (env.digest token))
            λ r. Effect-issue env user_id org_id)
        λ d pair d' s.
          let gone = s.second in
          let (row, read, owner) = s.first.1 in
          (
            row,
            read,
            owner,
            record {
              tokens = gone.first.0;
              revoked =
                  subst (λ x. RevokedIn env (env.digest token) x.refresh_tokens gone.first.0)
                    s.first.0 gone.first.2;
              issued =
                  subst (λ x. Issued env user_id org_id x pair d')
                    (gone.first.1 ∙ ap (with_tokens gone.first.0) s.first.0) gone.second;
            },
          )

  -- A live row of the user, looked up at a time, and its rotation.
  abbrev Chosen : String → String → String → Time → Db → TokenPair → Db → Type 0
  Chosen user_id token org_id time d pair d' =
      (row : RefreshToken) × (find_live (env.digest token) time d.refresh_tokens ≡ some row)
      × (row.user_id ≡ user_id)
      × Rotated env (env.digest token) user_id org_id d pair d'

  module _ (user_id token org_id : String) where
    abbrev look : Exec (Result Error RefreshToken)
    look = try (find_valid env (env.digest token))

    abbrev looked_up : Exec TokenPair
    looked_up = look >>= chosen user_id token org_id

    looked_up-ok :
        (w : World) (pair : TokenPair)
        → (looked_up w).0 ≡ ok pair
        → Chosen user_id token org_id (env.now w.calls) w.db pair (looked_up w).1.db
    looked_up-ok w pair h =
        let (found, read, run) = bind-ok look (chosen user_id token org_id) w pair h in
        let same = (find_valid-IsReadOnly env (env.digest token)).at w in
        let (row, live, owner, rotated) =
          (Effect-chosen user_id token org_id found).at (look w).1 pair
            (subst (λ x. x.0 ≡ ok pair) run h) in
        subst (λ x. Chosen user_id token org_id (env.now w.calls) w.db pair x.1.db) (sym run)
          (
            row,
            find_valid-ok env (env.digest token) w found row read live,
            owner,
            subst
                (λ x.
                  Rotated env (env.digest token) user_id org_id x pair
                    (chosen user_id token org_id found (look w).1).1.db)
                same rotated,
          )

    -- What follows the question whether the user is an active member.
    abbrev answered_by : Bool → Exec TokenPair
    answered_by member = refuse (not member) not_member >> looked_up

    answered_by-ok :
        (member : Bool) (w : World) (pair : TokenPair)
        → (answered_by member w).0 ≡ ok pair
        → (member ≡ true)
          × Chosen user_id token org_id (env.now w.calls) w.db pair (answered_by member w).1.db
    answered_by-ok member w pair h =
        let (u, passed, run) = bind-ok (refuse (not member) not_member) (λ _. looked_up) w pair h in
        let here = run ∙ ap looked_up (refuse-ok (not member) not_member w u passed) in
        (
          ground (arith, ((Effect-refuse (not member) not_member).at w u passed).0),
          subst (λ x. Chosen user_id token org_id (env.now w.calls) w.db pair x.1.db) (sym here)
              (looked_up-ok w pair (subst (λ x. x.0 ≡ ok pair) here h)),
        )

    abbrev asked : Exec TokenPair
    asked = is_active_member env org_id user_id >>= answered_by

    asked-Selected :
        (w : World) (pair : TokenPair)
        → (asked w).0 ≡ ok pair
        → Selected env user_id token org_id (env.now (w.calls + 1)) w.db pair (asked w).1.db
    asked-Selected w pair h =
        let ask = is_active_member env org_id user_id in
        let (member, answer, run) = bind-ok ask answered_by w pair h in
        let (same, active) = (Effect-is_active_member env org_id user_id).at w member answer in
        let (is_member, choice) =
          answered_by-ok member (ask w).1 pair (subst (λ x. x.0 ≡ ok pair) run h) in
        let (row, live, owner, rotated) = choice in
        let later = is_active_member-calls env org_id user_id w member answer in
        subst (λ x. Selected env user_id token org_id (env.now (w.calls + 1)) w.db pair x.1.db)
          (sym run)
          (record {
            row = row;
            member = active is_member;
            found =
                subst
                  (λ x.
                    find_live (env.digest token) (env.now (w.calls + 1)) x.refresh_tokens
                    ≡ some row)
                  same
                  (subst
                    (λ k.
                      find_live (env.digest token) (env.now k) (ask w).1.db.refresh_tokens
                      ≡ some row)
                    later live);
            owner = owner;
            rotated =
                subst
                  (λ x.
                    Rotated env (env.digest token) user_id org_id x pair
                      (answered_by member (ask w).1).1.db)
                  same rotated;
          })

  pub select_trimmed-Selected :
      (user_id token org_id : String) (w : World) (pair : TokenPair)
      → (select_trimmed env user_id token org_id w).0 ≡ ok pair
      → Selected env user_id token org_id
          (env.now (w.calls + 1))
          w.db
          pair
          (select_trimmed env user_id token org_id w).1.db
  unfolding select_trimmed
  select_trimmed-Selected user_id token org_id w pair h =
      let blank = user_id == "" || org_id == "" in
      let (u, passed, run) =
        bind-ok (refuse blank invalid_refresh) (λ _. asked user_id token org_id) w pair h in
      let here =
        run ∙ ap (asked user_id token org_id) (refuse-ok blank invalid_refresh w u passed) in
      subst (λ x. Selected env user_id token org_id (env.now (w.calls + 1)) w.db pair x.1.db)
        (sym here) (asked-Selected user_id token org_id w pair (subst (λ x. x.0 ≡ ok pair) here h))
