-- ===== src/Application/Sessions/Login.antt =====
-- `issueTokens` of service.go and the one-time codes.
use Prim.Native.String.{◌++◌}
use orbit_auth.Prelude.{String, Bool, arith, ◌==◌}
use orbit_auth.Domain.{Time}
use orbit_auth.Runtime.{Env}
use orbit_auth.Runtime.Reads.{parse_id-IsReadOnly, pure-IsReadOnly}
use orbit_auth.Runtime.Frames.{
  SparesCodes, bind-SparesCodes, try-SparesCodes, read-SparesCodes, choice-SparesCodes,
  statement-SparesCodes, now-SparesCodes, new_id-SparesCodes, ask-SparesCodes,
}
use orbit_auth.Postgres.RefreshTokens.{parse_org, store_refresh_token}
use orbit_auth.Postgres.Organizations.Effects.{list_orgs_for_user-IsReadOnly}
use orbit_auth.Application.Sessions.{
  issue_tokens, issue_tokens_for_org, save_pair, new_refresh, single_active_org, only_org,
}

module _ (env : Env) where
  store_refresh_token-SparesCodes :
      (user_id org_id hash : String) (expires_at : Time)
      → SparesCodes (store_refresh_token env user_id org_id hash expires_at)
  unfolding store_refresh_token parse_org
  store_refresh_token-SparesCodes user_id org_id hash expires_at =
      bind-SparesCodes _ _ (read-SparesCodes _ (parse_id-IsReadOnly env user_id)) λ user.
        bind-SparesCodes _ _
          (choice-SparesCodes (org_id == "") _ _ (read-SparesCodes _ (pure-IsReadOnly ""))
            (read-SparesCodes _ (parse_id-IsReadOnly env org_id)))
          λ org.
            bind-SparesCodes _ _ (new_id-SparesCodes env)
              λ id. statement-SparesCodes env _ λ d t a d' e. ground arith

  issue_tokens_for_org-SparesCodes :
      (user_id org_id : String) → SparesCodes (issue_tokens_for_org env user_id org_id)
  unfolding issue_tokens_for_org save_pair new_refresh
  issue_tokens_for_org-SparesCodes user_id org_id = bind-SparesCodes _ _ (now-SparesCodes env) λ at.
      bind-SparesCodes _ _ (ask-SparesCodes env _ _) λ access.
        bind-SparesCodes _ _
          (bind-SparesCodes _ _ (new_id-SparesCodes env) λ a.
            bind-SparesCodes _ _ (new_id-SparesCodes env)
              λ b. read-SparesCodes _ (pure-IsReadOnly (a ++ b)))
          λ fresh.
            bind-SparesCodes _ _ (store_refresh_token-SparesCodes _ _ _ _)
              λ _. read-SparesCodes _ (pure-IsReadOnly _)

  pub issue_tokens-SparesCodes :
      (auto : Bool) (user_id : String) → SparesCodes (issue_tokens env auto user_id)
  unfolding issue_tokens single_active_org
  issue_tokens-SparesCodes auto user_id =
      bind-SparesCodes _ _
        (choice-SparesCodes auto _ _
          (bind-SparesCodes _ _
            (try-SparesCodes _ (read-SparesCodes _ (list_orgs_for_user-IsReadOnly env user_id)))
            λ orgs. read-SparesCodes _ (pure-IsReadOnly (only_org orgs)))
          (read-SparesCodes _ (pure-IsReadOnly "")))
        λ org_id. issue_tokens_for_org-SparesCodes user_id org_id
