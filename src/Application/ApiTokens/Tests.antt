-- ===== src/Application/ApiTokens/Tests.antt =====
-- A run of the API tokens on a small database, and the theorem on it.
use orbit_auth.Prelude.{
  String, ◌≡◌, refl, sym, subst, true, false, some, [], ◌∷◌, ◌==◌, eq_iff, arith,
}
use orbit_auth.Prelude.GoText.{trim_space}
use orbit_auth.Prelude.Cuts.{cut_bytes, cut_at, trim_prefix, byte_length}
use orbit_auth.Prelude.Results.{ok, err}
use orbit_auth.Domain.{invalid_token}
use orbit_auth.Runtime.{Env, World, ◌>>=◌, try, statement, parse_id, now, new_id, ask}
use orbit_auth.Postgres.Queries.{find_user, row_or_none}
use orbit_auth.Postgres.ApiTokens as Store
use orbit_auth.Application.ApiTokens.{NewToken, create_api_token, validate_api_token}
use orbit_auth.Application.ApiTokens.Secrets.{IsSecret}
use orbit_auth.Application.ApiTokens.RoundTrip.{IsReliable, validate_api_token-create}

abbrev env_ok : Env
env_ok = record {
  fails = λ k. false;
  now = λ k. 100;
  new_id = λ k. "t1";
  parse_uuid = λ s. some s;
  new_code = λ k. some "123456";
  new_secret = λ k. some "abcdefghij";
  hash = λ k s. some s;
  compare_hash = λ h s. h == s;
  digest = λ s. s;
  to_lower = λ s. s;
  sql_lower = λ s. s;
  equal_fold = λ s t. s == t;
  sign = λ k u o t. some u;
  flag = λ k s. true;
  delivers = λ k. true;
}

abbrev start : World
start = record {
  db = record {
    users =
        record {
          id = "ann";
          email = "ann@x.y";
          mobile = "";
          password_hash = "";
          display_name = "Ann";
          status = "active";
          email_verified = true;
        }
        ∷ [];
    organizations = [];
    memberships = [];
    challenges = [];
    refresh_tokens = [];
    api_tokens = [];
    invites = [];
    outbox = [];
  };
  calls = 0;
  sent = [];
  invitations = [];
}

abbrev token : NewToken
token = record { id = "t1"; prefix = "abcdefgh"; secret = "oat_abcdefgh.ij" }

creates : (create_api_token env_ok "ann" "ci" (some ("read" ∷ [])) (some 1500) start).0 ≡ ok token
unfolding create_api_token ask cut_bytes new_id Store.create Store.insert_api_token statement
    parse_id find_user trim_space ◌>>=◌
creates = refl

-- The expiry is cut to whole microseconds, and the clock is past what is left.
refuses_last_microsecond :
    (validate_api_token env_ok "oat_abcdefgh.ij"
      (create_api_token env_ok "ann" "ci" (some ("read" ∷ [])) (some 999) start).1).0
    ≡ err invalid_token
unfolding create_api_token validate_api_token ask cut_bytes cut_at trim_prefix byte_length new_id
    Store.create Store.insert_api_token Store.find_by_prefix Store.newest_live row_or_none now try
    statement parse_id find_user trim_space ◌>>=◌
refuses_last_microsecond = refl

IsSecret_lem : IsSecret "abcdefghij" "abcdefgh" "ij"
unfolding cut_bytes
IsSecret_lem = record {
  parts = refl;
  more = λ e. ground (arith, eq_iff "ij" "");
  no_spaces = (refl, (refl, (refl, (refl, (refl, (refl, (refl, (refl, (refl, (refl, tt))))))))));
  no_dots = (refl, (refl, (refl, (refl, (refl, (refl, (refl, (refl, (refl, (refl, tt))))))))));
}

env_ok-IsSecret :
    (raw prefix rest : String)
    → some "abcdefghij" ≡ some raw
    → cut_bytes 8 raw ≡ some (prefix, rest)
    → IsSecret raw prefix rest
unfolding cut_bytes
env_ok-IsSecret raw prefix rest same parts =
    let same_raw : "abcdefghij" ≡ raw = ground arith in
    let cut : some ("abcdefgh", "ij") ≡ some (prefix, rest) =
      subst (λ x. cut_bytes 8 x ≡ some (prefix, rest)) (sym same_raw) parts in
    let same_prefix : "abcdefgh" ≡ prefix = ground (arith, cut) in
    let same_rest : "ij" ≡ rest = ground (arith, cut) in
    subst (λ x. IsSecret x prefix rest) same_raw
      (subst (λ x. IsSecret "abcdefghij" x rest) same_prefix
        (subst (λ x. IsSecret "abcdefghij" "abcdefgh" x) same_rest IsSecret_lem))

env_ok-IsReliable : IsReliable env_ok
env_ok-IsReliable = record {
  secrets = λ k raw prefix rest same parts. env_ok-IsSecret raw prefix rest same parts;
  hashes = λ k raw hash same. ground (arith, eq_iff hash raw);
}

validate_api_token-create_example :
    (user : String) × (some "ann" ≡ some user)
    × ((validate_api_token env_ok "oat_abcdefgh.ij"
          (create_api_token env_ok "ann" "ci" (some ("read" ∷ [])) (some 1500) start).1).0
        ≡ ok (user, some ("read" ∷ [])))
unfolding Store.newest_live
validate_api_token-create_example =
    validate_api_token-create env_ok env_ok-IsReliable "ann" "ci" (some ("read" ∷ [])) (some 1500)
      start (create_api_token env_ok "ann" "ci" (some ("read" ∷ [])) (some 1500) start).1 token
      creates refl refl refl (λ until e. ground arith)
