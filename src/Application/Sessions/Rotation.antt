-- ===== src/Application/Sessions/Rotation.antt =====
-- `Refresh` and `SelectOrg` of service.go: what they check and write.
use orbit_auth.Prelude.{
  ◌+◌, String, ◌≡◌, refl, sym, subst, ◌∙◌, ◌⊎◌, inl, inr, Bool, true, false, some, ◌==◌, Bool-cases,
}
use orbit_auth.Prelude.GoText.{trim_space}
use orbit_auth.Prelude.Results.{Result, ok, err}
use orbit_auth.Domain.{Time, Error, invalid_refresh}
use orbit_auth.Runtime.{Db, RefreshToken, Env, World, try}
use orbit_auth.Runtime.Effects.{Effect, Effect-bind, Effect-map, Effect-pure, Effect-raise, bind-ok}
use orbit_auth.Runtime.Reads.{Effect-try}
use orbit_auth.Postgres.RefreshTokens.{find_live, find_valid}
use orbit_auth.Application.OrgService.Activity.{
  IsActiveIn, Effect-is_active_member, is_active_member-IsReadOnly,
}
use orbit_auth.Application.Sessions.{TokenPair, if_active, active_org, rotate, refresh, select_org}
use orbit_auth.Application.Sessions.Issuing.{Issued, Effect-issue}
use orbit_auth.Application.Sessions.Revoking.{
  Rotated, find_valid-ok, find_valid-IsReadOnly, Effect-revoke,
}
use orbit_auth.Application.Sessions.Selecting.{Selected, select_trimmed-Selected}

-- A rotation of a token that was live at the time. The new pair carries no organization, or the one that the
-- row remembers, of which the user is an active member.
pub record Refreshed (env : Env) (token : String) (time : Time) (before : Db) (pair : TokenPair)
    (after : Db) : Type 0 where
  pub row : RefreshToken
  pub org_id : String
  pub found : find_live (env.digest token) time before.refresh_tokens ≡ some row
  pub kept :
      (org_id ≡ "")
      ⊎ ((org_id ≡ row.org_id) × IsActiveIn env before.memberships row.org_id row.user_id)
  pub rotated : Rotated env (env.digest token) row.user_id org_id before pair after

module _ (env : Env) where
  Effect-active_org :
      (user_id org_id : String)
      → Effect (active_org env user_id org_id) (λ d o d'.
        (d' ≡ d) × ((o ≡ "") ⊎ ((o ≡ org_id) × IsActiveIn env d.memberships org_id user_id)))
  unfolding active_org
  Effect-active_org user_id org_id = elim (Bool-cases (org_id == "")) [
    | inl empty ↦ rw empty (Effect-map _ _ _ (Effect-pure "") λ d o d' e. (e.1, inl e.0))
    | inr other ↦ rw other (
        Effect-map _ _ _
          (Effect-bind _ _ _ _
            (Effect-try _ _ (is_active_member-IsReadOnly env org_id user_id)
              (Effect-is_active_member env org_id user_id))
            λ answer. Effect-pure (if_active org_id answer))
          λ d o d' s. (s.second.1 ∙ s.first.0, answered d o s.value s.first.1 s.second.0))
  ]
    where
      answered :
          (d : Db) (o : String) (r : Result Error Bool)
          → ((b : Bool)
              → r ≡ ok b
              → (d ≡ d) × (b ≡ true → IsActiveIn env d.memberships org_id user_id))
          → o ≡ if_active org_id r
          → (o ≡ "") ⊎ ((o ≡ org_id) × IsActiveIn env d.memberships org_id user_id)
      answered d o (ok true) h e = inr (e, (h true refl).1 refl)
      answered d o (ok false) h e = inl e
      answered d o (err x) h e = inl e

  Effect-rotate :
      (token : String) (row : RefreshToken)
      → Effect (rotate env (env.digest token) (ok row)) (λ d pair d'.
        (org_id : String) × ((org_id ≡ "")
          ⊎ ((org_id ≡ row.org_id) × IsActiveIn env d.memberships row.org_id row.user_id))
        × Rotated env (env.digest token) row.user_id org_id d pair d')
  unfolding rotate
  Effect-rotate token row =
      Effect-map _ _ _
        (Effect-bind _ _ _ _ (Effect-revoke env (env.digest token)) λ r.
          Effect-bind _ _ _ _ (Effect-active_org row.user_id row.org_id)
            λ org_id. Effect-issue env row.user_id org_id)
        λ d pair d' s.
          let org = s.second in
          (
            org.value,
            subst
                (λ x.
                  (org.value ≡ "")
                  ⊎ ((org.value ≡ row.org_id)
                      × IsActiveIn env x.memberships row.org_id row.user_id))
                s.first.1 org.first.1,
            record {
              tokens = s.first.0;
              revoked = s.first.2;
              issued =
                  subst (λ x. Issued env row.user_id org.value x pair d') (org.first.0 ∙ s.first.1)
                    org.second;
            },
          )

  rotate_found :
      (token : String) (r : Result Error RefreshToken)
      → Effect (rotate env (env.digest token) r) (λ d pair d'.
        (row : RefreshToken) × (r ≡ ok row)
        × (org_id : String) × ((org_id ≡ "")
            ⊎ ((org_id ≡ row.org_id) × IsActiveIn env d.memberships row.org_id row.user_id))
        × Rotated env (env.digest token) row.user_id org_id d pair d')
  unfolding rotate
  rotate_found token (ok row) =
      Effect-map _ _ _ (Effect-rotate token row) λ d pair d' e. (row, refl, e.0, e.1, e.2)
  rotate_found token (err x) = Effect-raise invalid_refresh _

  -- When Refresh gives a pair, a row has the presented token's digest that is not revoked and not
  -- expired by the clock of the lookup, which is the call's first; the new pair is for that row's
  -- user and for no organization or the row's organization, of which the user is then an active
  -- member; the rows of the digest are revoked unless a database call has failed; and the new row
  -- is stored with the new token's digest, that user and that organization.
  pub refresh_lem :
      (token : String) (w : World) (pair : TokenPair)
      → (refresh env token w).0 ≡ ok pair
      → Refreshed env token (env.now w.calls) w.db pair (refresh env token w).1.db
  unfolding refresh
  refresh_lem token w pair h =
      let hash = env.digest token in
      let look = try (find_valid env hash) in
      let (found, read, run) = bind-ok look (rotate env hash) w pair h in
      let same = (find_valid-IsReadOnly env hash).at w in
      let (row, live, org_id, kept, rotated) =
        (rotate_found token found).at (look w).1 pair (subst (λ x. x.0 ≡ ok pair) run h) in
      subst (λ x. Refreshed env token (env.now w.calls) w.db pair x.1.db) (sym run)
        (subst
          (λ x.
            Refreshed env token (env.now w.calls) x pair (rotate env hash found (look w).1).1.db)
          same
          (record {
            row = row;
            org_id = org_id;
            found =
                subst (λ x. find_live hash (env.now w.calls) x.refresh_tokens ≡ some row) (sym same)
                  (find_valid-ok env hash w found row read live);
            kept = kept;
            rotated = rotated;
          }))

  -- When SelectOrg gives a pair, the trimmed user is an active member of the trimmed organization;
  -- a row of that user has the presented token's digest and is not revoked and not expired by the
  -- clock of the lookup, which follows the one statement of the membership question; the rows of
  -- the digest are revoked unless a database call has failed; and the pair is issued and stored for
  -- that user and that organization.
  pub select_org_lem :
      (user_id token org_id : String) (w : World) (pair : TokenPair)
      → (select_org env user_id token org_id w).0 ≡ ok pair
      → Selected env
          (trim_space user_id)
          token
          (trim_space org_id)
          (env.now (w.calls + 1))
          w.db
          pair
          (select_org env user_id token org_id w).1.db
  unfolding select_org
  select_org_lem user_id token org_id w pair h =
      select_trimmed-Selected env (trim_space user_id) token (trim_space org_id) w pair h
