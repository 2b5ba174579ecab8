-- ===== src/Application/ApiTokens/RoundTrip.antt =====
-- `CreateApiToken` followed by `ValidateApiToken` of internal/application/password_tokens.go.
use Prim.Native.String.{◌++◌}
use orbit_auth.Prelude.{
  ℕ, ◌+◌, ◌≤◌, String, ◌≡◌, ◌≢◌, refl, sym, subst, ap, ◌∙◌, true, false, Option, none, some, List,
  ◌∷◌, eq_iff, eq_refl, Option-cases, arith, inl, inr,
}
use orbit_auth.Prelude.GoText.{trim_space}
use orbit_auth.Prelude.Cuts.{byte_length, cut_bytes, cut_at, trim_prefix, append-cut_bytes}
use orbit_auth.Domain.{Time, secret_failed, hash_failed}
use orbit_auth.Domain.ApiTokens.{ApiToken, api_token_scheme}
use orbit_auth.Runtime.{Db, Env, World, stored_time, try, ◌>>=◌, statement, now}
use orbit_auth.Runtime.Effects.{
  Effect, Effect-bind, Effect-map, Effect-pure, Effect-raise, Effect-refuse, Effect-statement,
  Effect-parse_id, Effect-new_id, Effect-ask,
}
use orbit_auth.Prelude.Results.{ok}
use orbit_auth.Postgres.Queries.{row_or_none}
use orbit_auth.Postgres.ApiTokens as Store
use orbit_auth.Application.ApiTokens.Secrets.{IsSecret, written, parts-written}
use orbit_auth.Application.ApiTokens.{
  NewToken, split_secret, create_api_token, check_expiry, check_token, validate_parts,
  validate_api_token,
}

-- What `CreateApiToken` has written and answered.
pub record Created (env : Env) (user_id : String) (scopes : Option (List String))
    (expires_at : Option Time) (before : Db) (t : NewToken) (after : Db) : Type 0 where
  pub call : ℕ
  pub hash_call : ℕ
  pub raw : String
  pub rest : String
  pub row : ApiToken
  pub generated : env.new_secret call ≡ some raw
  pub parts : cut_bytes 8 raw ≡ some (t.prefix, rest)
  pub hashed : env.hash hash_call raw ≡ some row.token_hash
  pub answer : t.secret ≡ written t.prefix rest
  pub kept : row.prefix ≡ t.prefix
  pub owner : env.parse_uuid user_id ≡ some row.user_id
  pub allowed : row.scopes ≡ scopes
  pub until : row.expires_at ≡ Store.stored_expiry expires_at
  pub live : row.revoked_at ≡ none
  pub stored : after.api_tokens ≡ row ∷ before.api_tokens

module _ (env : Env) where
  Effect-create :
      (t : ApiToken)
      → Effect (Store.create env t) (λ d a d'.
        (id : String) × (user : String) × (now : Time) × (env.parse_uuid t.user_id ≡ some user)
        × (d'.api_tokens
            ≡ Store.stored_token now (record t { id = id; user_id = user }) ∷ d.api_tokens))
  unfolding Store.create Store.insert_api_token
  Effect-create t =
      Effect-map _ _ _
        (Effect-bind _ _ _ _ (Effect-parse_id env t.id)
          λ id. Effect-bind _ _ _ _ (Effect-parse_id env t.user_id) λ user. Effect-statement env _)
        λ d a d' s. (
          s.value,
          s.second.value,
          s.second.second.0,
          s.second.first.0,
          ground (arith, s.first, s.second.first, s.second.second.1),
        )

  Effect-split_secret :
      (o : Option (String × String))
      → Effect (split_secret env o) (λ d p d'. (o ≡ some p) × (d' ≡ d))
  unfolding split_secret
  Effect-split_secret none = Effect-raise secret_failed _
  Effect-split_secret (some p) =
      Effect-map _ _ _ (Effect-pure p) λ d a d' e. (ground (arith, e.0), e.1)

  Effect-create_api_token :
      (user_id name : String) (scopes : Option (List String)) (expires_at : Option Time)
      → Effect
          (create_api_token env user_id name scopes expires_at)
          (Created env user_id scopes expires_at)
  unfolding create_api_token
  Effect-create_api_token user_id name scopes expires_at =
      Effect-map _ _ _
        (Effect-bind _ _ _ _ (Effect-refuse _ _) λ x.
          Effect-bind _ _ _ _ (Effect-ask env secret_failed env.new_secret) λ raw.
            Effect-bind _ _ _ _ (Effect-split_secret (cut_bytes 8 raw)) λ parts.
              Effect-bind _ _ _ _ (Effect-ask env hash_failed (λ k. env.hash k raw)) λ hash.
                Effect-bind _ _ _ _ (Effect-new_id env)
                  λ id. Effect-bind _ _ _ _ (Effect-create _) λ y. Effect-pure _)
        λ d t d' s.
          let ask = s.second in
          let split = ask.second in
          let hash = split.second in
          let fresh = hash.second in
          let save = fresh.second in
          let (id, user, now, parsed, stored) = save.first in
          record {
            call = ask.first.1.0;
            hash_call = hash.first.1.0;
            raw = ask.value;
            rest = split.value.1;
            row = record {
              id = id;
              user_id = user;
              name = name;
              prefix = split.value.0;
              token_hash = hash.value;
              scopes = scopes;
              expires_at = Store.stored_expiry expires_at;
              revoked_at = none;
              created_at = now;
            };
            generated = ask.first.1.1;
            parts =
                subst (λ x. cut_bytes 8 ask.value ≡ some (x.prefix, split.value.1))
                  (sym save.second.0) split.first.0;
            hashed = hash.first.1.1;
            answer =
                subst (λ x. x.secret ≡ written x.prefix split.value.1) (sym save.second.0) refl;
            kept = subst (λ x. split.value.0 ≡ x.prefix) (sym save.second.0) refl;
            owner = parsed;
            allowed = refl;
            until = refl;
            live = refl;
            stored = ground (
              arith, s.first, ask.first, split.first, hash.first, fresh.first, save.second, stored,
            );
          }

  -- The row is not past its expiry when the clock is read.
  abbrev pub IsCurrent : ApiToken → World → Type 0
  IsCurrent row w = (until : Time) → row.expires_at ≡ some until → env.now (w.calls + 1) ≤ until

  validate_parts-ok :
      (prefix rest : String) (row : ApiToken) (w : World)
      → env.fails w.calls ≡ false
      → byte_length prefix ≡ 8
      → rest ≢ ""
      → Store.newest_live prefix w.db.api_tokens ≡ some row
      → row.revoked_at ≡ none
      → IsCurrent row w
      → env.compare_hash row.token_hash (prefix ++ rest) ≡ true
      → (validate_parts env (some (prefix, rest)) w).0 ≡ ok (row.user_id, row.scopes)
  unfolding validate_parts check_token check_expiry Store.find_by_prefix row_or_none statement now
      try ◌>>=◌
  validate_parts-ok prefix rest row w works size more found live current matches =
      elim (Option-cases row.expires_at) [
        | inl e ↦ ground (arith, eq_iff rest "")
        | inr (until, e) ↦ ground (arith, eq_iff rest "", current until e)
      ]

  -- What the generator and bcrypt promise.
  pub record IsReliable : Type 0 where
    pub secrets :
        (k : ℕ) (raw prefix rest : String)
        → env.new_secret k ≡ some raw
        → cut_bytes 8 raw ≡ some (prefix, rest)
        → IsSecret raw prefix rest
    pub hashes :
        (k : ℕ) (raw hash : String) → env.hash k raw ≡ some hash → env.compare_hash hash raw ≡ true

  stored_expiry-some :
      (o : Option Time) (until : Time)
      → Store.stored_expiry o ≡ some until
      → (asked : Time) × (o ≡ some asked) × (stored_time asked ≡ until)
  stored_expiry-some none until e = absurd (ground arith)
  stored_expiry-some (some asked) until e = (asked, refl, ground arith)

  newest_live-first :
      (row : ApiToken) (l : List ApiToken)
      → row.revoked_at ≡ none
      → Store.newest_live row.prefix l ≡ none
      → Store.newest_live row.prefix (row ∷ l) ≡ some row
  unfolding Store.newest_live
  newest_live-first row l live alone = ground (arith, eq_refl row.prefix)

  -- With a generator whose secrets are longer than the prefix and have no dots or spaces, and
  -- hashes that match their secret, ValidateApiToken accepts the token that CreateApiToken has
  -- given with its user and scopes, in every later world with the same API tokens whose first
  -- database call works and whose clock is not past the expiry as stored, cut to whole
  -- microseconds, when no live row had the new prefix before.
  pub validate_api_token-create :
      (reliable : IsReliable) (user_id name : String) (scopes : Option (List String))
      (expires_at : Option Time) (before after : World) (t : NewToken)
      → (create_api_token env user_id name scopes expires_at before).0 ≡ ok t
      → Store.newest_live t.prefix before.db.api_tokens ≡ none
      → after.db.api_tokens
        ≡ (create_api_token env user_id name scopes expires_at before).1.db.api_tokens
      → env.fails after.calls ≡ false
      → ((until : Time) → expires_at ≡ some until → env.now (after.calls + 1) ≤ stored_time until)
      → (user : String) × (env.parse_uuid user_id ≡ some user)
        × ((validate_api_token env t.secret after).0 ≡ ok (user, scopes))
  unfolding validate_api_token
  validate_api_token-create reliable user_id name scopes expires_at before after t h alone same
        works current =
      let made = (Effect-create_api_token user_id name scopes expires_at).at before t h in
      let secret =
        reliable.secrets made.call made.raw t.prefix made.rest made.generated made.parts in
      let cut = append-cut_bytes 8 made.raw t.prefix made.rest made.parts in
      (
        made.row.user_id,
        made.owner,
        subst
            (λ x.
              (validate_parts env (cut_at b'.' (trim_prefix (trim_space x) api_token_scheme))
                after).0
              ≡ ok (made.row.user_id, scopes))
            (sym made.answer)
            (rw (parts-written made.raw t.prefix made.rest secret) (
              validate_parts-ok t.prefix made.rest made.row after works cut.1 secret.more
                (subst (λ p. Store.newest_live p after.db.api_tokens ≡ some made.row) made.kept
                  (subst (λ l. Store.newest_live made.row.prefix l ≡ some made.row)
                    (sym (same ∙ made.stored))
                    (newest_live-first made.row before.db.api_tokens made.live (
                      subst (λ p. Store.newest_live p before.db.api_tokens ≡ none) (sym made.kept)
                        alone))))
                made.live
                (λ until e.
                  let (asked, given, cut) =
                    stored_expiry-some expires_at until (sym made.until ∙ e) in
                  subst (λ t. env.now (after.calls + 1) ≤ t) cut (current asked given))
                (subst (λ x. env.compare_hash made.row.token_hash x ≡ true) (sym cut.0)
                  (reliable.hashes made.hash_call made.raw made.row.token_hash made.hashed))
              ∙ ap (λ x. ok (made.row.user_id, x)) made.allowed)),
      )
