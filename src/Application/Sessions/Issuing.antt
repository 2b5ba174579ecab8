-- ===== src/Application/Sessions/Issuing.antt =====
-- `issueTokensForOrg` of service.go: what it signs and stores.
use Prim.Native.String.{◌++◌}
use orbit_auth.Prelude.{
  ℕ, ◌+◌, String, ◌≡◌, inl, inr, false, some, ◌∷◌, ◌==◌, arith, Bool-cases, if◌then◌else◌,
}
use orbit_auth.Domain.{Time, access_token_ttl, refresh_token_ttl}
use orbit_auth.Runtime.{Db, Env, stored_time}
use orbit_auth.Runtime.Effects.{
  Effect-ask, Effect, Effect-bind, Effect-map, Effect-pure, Effect-statement, Effect-now,
  Effect-new_id, Effect-parse_id,
}
use orbit_auth.Postgres.RefreshTokens.{with_tokens, parse_org, store_refresh_token}
use orbit_auth.Application.Sessions.{TokenPair, claim, issue_tokens_for_org, save_pair, new_refresh}

-- An identifier that a text stands for; the empty text stands for none.
abbrev pub Parsed : Env → String → String → Type 0
Parsed env text id = if text == "" then id ≡ "" else env.parse_uuid text ≡ some id

-- A pair for the user and the organization: its access token is signed for both and for 15 minutes,
-- and its refresh token is stored with both for 30 days, cut to whole microseconds.
pub record Issued (env : Env) (user_id org_id : String) (before : Db) (pair : TokenPair)
    (after : Db) : Type 0 where
  pub user : String
  pub org : String
  pub at : Time
  pub call : ℕ
  pub user_parsed : env.parse_uuid user_id ≡ some user
  pub org_parsed : Parsed env org_id org
  pub signed : env.sign call user_id (claim org_id) (at + access_token_ttl) ≡ some pair.access
  pub expires : pair.expires ≡ at + access_token_ttl
  pub written :
      after
      ≡ with_tokens
          (record {
            user_id = user;
            org_id = org;
            token_hash = env.digest pair.refresh;
            expires_at = stored_time (at + refresh_token_ttl);
            revoked = false;
          }
            ∷ before.refresh_tokens)
          before

module _ (env : Env) where
  Effect-parse_org :
      (text : String) → Effect (parse_org env text) (λ d id d'. (d' ≡ d) × Parsed env text id)
  unfolding parse_org
  Effect-parse_org text = elim (Bool-cases (text == "")) [
    | inl e ↦ rw e (Effect-map _ _ _ (Effect-pure "") λ d a d' r. (r.1, r.0))
    | inr e ↦ rw e (Effect-map _ _ _ (Effect-parse_id env text) λ d a d' r. (r.1, r.0))
  ]

  Effect-store_refresh_token :
      (user_id org_id hash : String) (expires_at : Time)
      → Effect (store_refresh_token env user_id org_id hash expires_at) (λ d a d'.
        (user : String) × (org : String) × (env.parse_uuid user_id ≡ some user)
        × Parsed env org_id org
        × (d'
            ≡ with_tokens
                (record {
                  user_id = user;
                  org_id = org;
                  token_hash = hash;
                  expires_at = stored_time expires_at;
                  revoked = false;
                }
                  ∷ d.refresh_tokens)
                d))
  unfolding store_refresh_token
  Effect-store_refresh_token user_id org_id hash expires_at =
      Effect-map _ _ _
        (Effect-bind _ _ _ _ (Effect-parse_id env user_id) λ user.
          Effect-bind _ _ _ _ (Effect-parse_org org_id)
            λ org. Effect-bind _ _ _ _ (Effect-new_id env) λ id. Effect-statement env _)
        λ d a d' s.
          let org = s.second in
          let id = org.second in
          (
            s.value,
            org.value,
            s.first.0,
            org.first.1,
            ground (arith, s.first, org.first.0, id.first, id.second),
          )

  pub Effect-issue :
      (user_id org_id : String)
      → Effect (issue_tokens_for_org env user_id org_id) (Issued env user_id org_id)
  unfolding issue_tokens_for_org save_pair new_refresh
  Effect-issue user_id org_id =
      Effect-map _ _ _
        (Effect-bind _ _ _ _ (Effect-now env) λ at.
          Effect-bind _ _ _ _ (Effect-ask env _ _) λ access.
            Effect-bind _ _ _ _
              (Effect-bind _ _ _ _ (Effect-new_id env)
                λ a. Effect-bind _ _ _ _ (Effect-new_id env) λ b. Effect-pure (a ++ b))
              λ fresh.
                Effect-bind _ _ _ _ (Effect-store_refresh_token user_id org_id _ _)
                  λ done. Effect-pure _)
        λ d pair d' s.
          let signed = s.second in
          let ids = signed.second in
          let more = ids.first.second in
          let stored = ids.second in
          record {
            user = stored.first.0;
            org = stored.first.1;
            at = s.value;
            call = signed.first.1.0;
            user_parsed = stored.first.2;
            org_parsed = stored.first.3;
            signed = ground (arith, signed.first.1.1, stored.second);
            expires = ground (arith, stored.second);
            written = ground (
              arith, s.first, signed.first.0, ids.first.first, more.first, more.second,
              stored.first.4, stored.second,
            );
          }
