-- ===== src/Application/Sessions/SingleUse.antt =====
-- `Refresh` of service.go with a token that was presented before.
use orbit_auth.Prelude.{
  ℕ, String, ◌≡◌, ◌≢◌, refl, sym, subst, inl, inr, false, none, List, [], ◌∷◌, eq_iff, arith,
}
use orbit_auth.Prelude.Results.{ok, err}
use orbit_auth.Domain.{Time, invalid_refresh}
use orbit_auth.Runtime.{Db, RefreshToken, Env, World, try, ◌>>=◌, statement}
use orbit_auth.Postgres.Queries.{row_or_none}
use orbit_auth.Postgres.RefreshTokens.{find_live, revoke_all, find_valid}
use orbit_auth.Application.Sessions.{TokenPair, refresh, rotate}
use orbit_auth.Application.Sessions.Revoking.{Rotated}
use orbit_auth.Application.Sessions.Rotation.{refresh_lem}

find_live-revoke_all :
    (hash : String) (t : Time) (l : List RefreshToken) → find_live hash t (revoke_all hash l) ≡ none
unfolding find_live revoke_all
find_live-revoke_all hash t [] = refl
find_live-revoke_all hash t (r ∷ l) = ground (arith, find_live-revoke_all hash t l)

module _ (env : Env) (works : (k : ℕ) → env.fails k ≡ false) where
  -- After a rotation no row of the old digest is live.
  Rotated-dead :
      (hash user_id org_id : String) (before : Db) (pair : TokenPair) (after : Db) (t : Time)
      → Rotated env hash user_id org_id before pair after
      → (env.digest pair.refresh ≡ hash → ⊥)
      → find_live hash t after.refresh_tokens ≡ none
  unfolding find_live
  Rotated-dead hash user_id org_id before pair after t r fresh = elim r.revoked [
    | inr (same, (k, failed)) ↦ absurd (ground (arith, works k))
    | inl gone ↦
        subst (λ x. find_live hash t x.refresh_tokens ≡ none) (sym r.issued.written)
          (ground (
            arith,
            gone,
            find_live-revoke_all hash t before.refresh_tokens,
            eq_iff (env.digest pair.refresh) hash,
          ))
  ]

  -- A token without a live row is refused.
  refused :
      (token : String) (w : World)
      → ((t : Time) → find_live (env.digest token) t w.db.refresh_tokens ≡ none)
      → (refresh env token w).0 ≡ err invalid_refresh
  unfolding refresh rotate ◌>>=◌ try find_valid statement row_or_none
  refused token w dead = ground (arith, works w.calls, dead (env.now w.calls))

  -- When no database call fails and the new token has another digest, a refresh token that Refresh
  -- has exchanged is refused in every world with the same refresh token rows, at any later time.
  pub refresh-single_use :
      (token : String) (w later : World) (pair : TokenPair)
      → (refresh env token w).0 ≡ ok pair
      → env.digest pair.refresh ≢ env.digest token
      → later.db.refresh_tokens ≡ (refresh env token w).1.db.refresh_tokens
      → (refresh env token later).0 ≡ err invalid_refresh
  refresh-single_use token w later pair e fresh same =
      let done = refresh_lem env token w pair e in
      refused token later λ t. ground (arith, same, Rotated-dead _ _ _ _ _ _ t done.rotated fresh)
