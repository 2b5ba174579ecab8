-- ===== src/Application/Sessions/Success.antt =====
-- `Refresh` of service.go where nothing fails.
use Prim.Native.String.{◌++◌}
use orbit_auth.Prelude.{
  ℕ, ◌+◌, String, ◌≡◌, refl, sym, subst, ◌⊎◌, inl, inr, Bool, true, false, Bool-cases, Option, some,
  ◌==◌, eq_iff, arith,
}
use orbit_auth.Prelude.Results.{Result, ok, err}
use orbit_auth.Domain.{Time, access_token_ttl, Error}
use orbit_auth.Runtime.{RefreshToken, Env, World, try, ◌>>=◌, statement, now, new_id, ask, parse_id}
use orbit_auth.Postgres.Queries.{row_or_none}
use orbit_auth.Postgres.RefreshTokens.{
  find_live, find_valid, revoke, parse_org, store_refresh_token,
}
use orbit_auth.Application.OrgService.{is_active_member}
use orbit_auth.Application.Sessions.{
  TokenPair, claim, if_active, issue_tokens_for_org, save_pair, new_refresh, active_org, rotate,
  refresh,
}

-- A text that is empty or an identifier.
abbrev pub IsReadable : Env → String → Type 0
IsReadable env text = (text ≡ "") ⊎ ((id : String) × (env.parse_uuid text ≡ some id))

module _ (env : Env) (works : (k : ℕ) → env.fails k ≡ false)
    (signs : (k : ℕ) (user_id : String) (org : Option String) (t : Time)
      → (access : String) × (env.sign k user_id org t ≡ some access)) where
  parse_org-succeeds :
      (text : String) (w : World)
      → IsReadable env text
      → (id : String) × (parse_org env text w ≡ (ok id, w))
  unfolding ◌>>=◌ parse_org parse_id
  parse_org-succeeds text w (inl e) = ("", ground (arith, eq_iff text ""))
  parse_org-succeeds text w (inr (id, e)) = elim (Bool-cases (text == "")) [
    | inl empty ↦ ("", ground arith)
    | inr other ↦ (id, ground arith)
  ]

  pub issue-succeeds :
      (user_id org_id : String) (w : World) (user : String)
      → env.parse_uuid user_id ≡ some user
      → IsReadable env org_id
      → (pair : TokenPair) × ((issue_tokens_for_org env user_id org_id w).0 ≡ ok pair)
  unfolding ◌>>=◌ issue_tokens_for_org save_pair new_refresh store_refresh_token statement now
      new_id ask parse_id
  issue-succeeds user_id org_id w user parsed readable =
      let (access, signed) =
        signs (w.calls + 1) user_id (claim org_id) (env.now w.calls + access_token_ttl) in
      (
        record {
          access = access;
          refresh = env.new_id (w.calls + 1 + 1) ++ env.new_id (w.calls + 1 + 1 + 1);
          expires = env.now w.calls + access_token_ttl;
        },
        ground (
          arith,
          signed,
          parse_org-succeeds org_id (record w { calls = w.calls + 1 + 1 + 1 + 1 }) readable,
          works (w.calls + 1 + 1 + 1 + 1 + 1),
        ),
      )

  if_active-cases :
      (org_id : String) (r : Result Error Bool)
      → (if_active org_id r ≡ "") ⊎ (if_active org_id r ≡ org_id)
  if_active-cases org_id (ok true) = inr refl
  if_active-cases org_id (ok false) = inl refl
  if_active-cases org_id (err e) = inl refl

  -- Looking for the organization never fails: it is the remembered one or none.
  active_org-answers :
      (user_id org_id : String) (w : World)
      → (o : String) × (later : World) × (active_org env user_id org_id w ≡ (ok o, later))
        × ((o ≡ "") ⊎ (o ≡ org_id))
  unfolding ◌>>=◌ active_org try
  active_org-answers user_id org_id w = elim (Bool-cases (org_id == "")) [
    | inl empty ↦ ("", w, ground arith, inl refl)
    | inr other ↦ (
      if_active org_id (is_active_member env org_id user_id w).0,
      (is_active_member env org_id user_id w).1,
      ground arith,
      if_active-cases org_id (is_active_member env org_id user_id w).0,
    )
  ]

  IsReadable-kept :
      (org_id o : String) → IsReadable env org_id → (o ≡ "") ⊎ (o ≡ org_id) → IsReadable env o
  IsReadable-kept org_id o h (inl e) = inl e
  IsReadable-kept org_id o h (inr e) = subst (IsReadable env) (sym e) h

  -- When no database call fails, every token can be signed, a live row has the presented token's
  -- digest, its user is an identifier, and its organization is empty or an identifier, Refresh
  -- gives a pair, whether or not the user is still an active member.
  pub refresh-succeeds :
      (token : String) (w : World) (row : RefreshToken) (user : String)
      → find_live (env.digest token) (env.now w.calls) w.db.refresh_tokens ≡ some row
      → env.parse_uuid row.user_id ≡ some user
      → IsReadable env row.org_id
      → (pair : TokenPair) × ((refresh env token w).0 ≡ ok pair)
  unfolding ◌>>=◌ refresh rotate try find_valid revoke statement row_or_none
  refresh-succeeds token w row user found parsed readable =
      let revoked = (revoke env (env.digest token) (record w { calls = w.calls + 1 })).1 in
      let (o, later, answer, kept) = active_org-answers row.user_id row.org_id revoked in
      let (pair, issued) =
        issue-succeeds row.user_id o later user parsed
          (IsReadable-kept row.org_id o readable kept) in
      (pair, ground (arith, found, works w.calls, works (w.calls + 1), answer, issued))
