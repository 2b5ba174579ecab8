-- ===== src/Application/Sessions/Revoking.antt =====
-- The lookup and the revocation of a refresh token in service.go, and the pair that replaces it.
use orbit_auth.Prelude.{ℕ, String, ◌≡◌, refl, ◌⊎◌, inl, inr, true, some, List, arith, Bool-cases}
use orbit_auth.Prelude.Results.{Result, ok}
use orbit_auth.Domain.{Error}
use orbit_auth.Runtime.{Db, RefreshToken, Env, World, try, statement}
use orbit_auth.Runtime.Effects.{Effect}
use orbit_auth.Runtime.Reads.{IsReadOnly, try-IsReadOnly, statement-IsReadOnly}
use orbit_auth.Postgres.Queries.{row_or_none}
use orbit_auth.Postgres.RefreshTokens.{with_tokens, find_live, revoke_all, find_valid, revoke}
use orbit_auth.Application.Sessions.{TokenPair}
use orbit_auth.Application.Sessions.Issuing.{Issued}

-- The rows of the digest are revoked, or a database call has failed and all rows are as they were.
abbrev pub RevokedIn : Env → String → List RefreshToken → List RefreshToken → Type 0
RevokedIn env hash before after =
    (after ≡ revoke_all hash before) ⊎ ((after ≡ before) × ((k : ℕ) × (env.fails k ≡ true)))

-- The presented token is revoked, unless that statement failed, and a pair is issued.
pub record Rotated (env : Env) (hash user_id org_id : String) (before : Db) (pair : TokenPair)
    (after : Db) : Type 0 where
  pub tokens : List RefreshToken
  pub revoked : RevokedIn env hash before.refresh_tokens tokens
  pub issued : Issued env user_id org_id (with_tokens tokens before) pair after

module _ (env : Env) where
  -- The lookup goes by the clock of its call.
  pub find_valid-ok :
      (hash : String) (w : World) (found : Result Error RefreshToken) (row : RefreshToken)
      → (try (find_valid env hash) w).0 ≡ ok found
      → found ≡ ok row
      → find_live hash (env.now w.calls) w.db.refresh_tokens ≡ some row
  unfolding try find_valid statement row_or_none
  find_valid-ok hash w found row h e = ground arith

  pub find_valid-IsReadOnly : (hash : String) → IsReadOnly (try (find_valid env hash))
  unfolding find_valid row_or_none
  find_valid-IsReadOnly hash =
      try-IsReadOnly _ (statement-IsReadOnly env _ λ d t a d' e. ground arith)

  pub Effect-revoke :
      (hash : String)
      → Effect (try (revoke env hash)) (λ d r d'.
        (tokens : List RefreshToken) × (d' ≡ with_tokens tokens d)
        × RevokedIn env hash d.refresh_tokens tokens)
  unfolding try revoke statement
  Effect-revoke hash = record {
    at = λ w r h. elim (Bool-cases (env.fails w.calls)) [
      | inl failed ↦ (w.db.refresh_tokens, rw failed refl, inr (refl, (w.calls, failed)))
      | inr worked ↦ (revoke_all hash w.db.refresh_tokens, rw worked refl, inl refl)
    ];
  }
