-- ===== src/Application/Tests.antt =====
-- Runs of the sessions and the one-time codes on a small database, and the theorems on them.
use orbit_auth.Prelude.{
  ◌+◌, String, ◌≡◌, ◌≢◌, refl, true, false, some, [], ◌∷◌, ◌==◌, eq_iff, inr, arith,
}
use orbit_auth.Prelude.GoText.{trim_space}
use orbit_auth.Prelude.Results.{ok, err}
use orbit_auth.Domain.{
  Membership, active, OtpChallenge, User, invalid_refresh, invalid_otp_code, too_many_otp_attempts,
  access_token_ttl,
}
use orbit_auth.Runtime.{RefreshToken, Env, World, try, ◌>>=◌, statement, parse_id, now, new_id, ask}
use orbit_auth.Postgres.Memberships
use orbit_auth.Postgres.Queries.{row_or_none, get_organization_membership}
use orbit_auth.Postgres.Challenges.{
  latest, increment, get_latest_challenge, consume_challenge, with_challenges,
}
use orbit_auth.Postgres.Users.{find_or_create_by_email, find_email}
use orbit_auth.Postgres.RefreshTokens.{find_live, find_valid, revoke, store_refresh_token}
use orbit_auth.Postgres.Organizations.{get_membership}
use orbit_auth.Application.OrgService.{is_active_member}
use orbit_auth.Application.Sessions.{
  TokenPair, refresh, active_org, select_org, issue_tokens, issue_tokens_for_org,
}
use orbit_auth.Application.Sessions.Selecting.{Selected}
use orbit_auth.Application.Sessions.Rotation.{Refreshed, refresh_lem, select_org_lem}
use orbit_auth.Application.Sessions.SingleUse.{refresh-single_use}
use orbit_auth.Application.Sessions.Success.{refresh-succeeds}
use orbit_auth.Application.Otp.Success.{verify_otp-succeeds}
use orbit_auth.Application.Otp.{verify_otp, user_for}
use orbit_auth.Application.Otp.Refusals.{verify_otp-refuses}
use orbit_auth.Application.Otp.Lockout.{guesses, verify_otp-locks}
use orbit_auth.Application.Otp.Acceptance.{Accepted, verify_otp-consumes}

-- Every call works, the clock stands still, any text is an identifier, each new identifier is the
-- same text, and a hash is the code itself.
abbrev env_ok : Env
env_ok = record {
  fails = λ k. false;
  now = λ k. 100;
  new_id = λ k. "n";
  parse_uuid = λ s. some s;
  new_code = λ k. some "123456";
  hash = λ k s. some s;
  compare_hash = λ h s. h == s;
  digest = λ s. s;
  to_lower = λ s. s;
  sql_lower = λ s. s;
  equal_fold = λ s t. s == t;
  new_secret = λ k. some "secret-of-the-user";
  sign = λ k u o t. some u;
  flag = λ k s. true;
  delivers = λ k. true;
}

abbrev ann : User
ann = record {
  id = "ann";
  email = "ann@x";
  mobile = "";
  password_hash = "";
  display_name = "Ann";
  status = "active";
  email_verified = true;
}

abbrev in_acme : Membership
in_acme = record {
  org_id = "acme";
  user_id = "ann";
  status = active;
  created_at = 50;
  updated_at = 50;
}

abbrev old_token : RefreshToken
old_token = record {
  user_id = "ann";
  org_id = "acme";
  token_hash = "old";
  expires_at = 500;
  revoked = false;
}

abbrev code_sent : OtpChallenge
code_sent = record {
  id = "c1";
  identifier = "ann@x";
  channel = "email";
  code_hash = "123456";
  expires_at = 500;
  created_at = 40;
  attempts = 2;
}

abbrev start : World
start = record {
  db = record {
    users = ann ∷ [];
    organizations = record { id = "acme"; name = "Acme"; created_at = 50; updated_at = 50 } ∷ [];
    memberships = in_acme ∷ [];
    challenges = code_sent ∷ [];
    refresh_tokens = old_token ∷ [];
    api_tokens = [];
    invites = [];
    outbox = [];
  };
  calls = 0;
  sent = [];
  invitations = [];
}

abbrev new_pair : TokenPair
new_pair = record { access = "ann"; refresh = "nn"; expires = 100 + access_token_ttl }

differ : (s t : String) → (s == t) ≡ false → s ≢ t
differ s t h e = ground (arith, eq_iff s t, h, e)

refreshes : (refresh env_ok "old" start).0 ≡ ok new_pair
unfolding refresh ◌>>=◌ try find_valid statement row_or_none find_live revoke active_org
    is_active_member trim_space get_membership get_organization_membership Memberships.find
    issue_tokens_for_org ask new_id now store_refresh_token parse_id
refreshes = refl

refresh_lem_example : Refreshed env_ok "old" 100 start.db new_pair (refresh env_ok "old" start).1.db
refresh_lem_example = refresh_lem env_ok "old" start new_pair refreshes

selects : (select_org env_ok " ann" "old" "acme" start).0 ≡ ok new_pair
unfolding select_org ◌>>=◌ try find_valid statement row_or_none find_live revoke is_active_member
    trim_space get_membership get_organization_membership Memberships.find issue_tokens_for_org ask
    new_id now store_refresh_token parse_id
selects = refl

select_org_lem_example :
    Selected env_ok
      (trim_space " ann")
      "old"
      (trim_space "acme")
      100
      start.db
      new_pair
      (select_org env_ok " ann" "old" "acme" start).1.db
select_org_lem_example = select_org_lem env_ok " ann" "old" "acme" start new_pair selects

refresh-single_use_example :
    (refresh env_ok "old" (refresh env_ok "old" start).1).0 ≡ err invalid_refresh
refresh-single_use_example =
    refresh-single_use env_ok (λ k. refl) "old" start (refresh env_ok "old" start).1 new_pair
      refreshes (differ "nn" "old" refl) refl

-- A wrong code is the third attempt.
verify_otp-refuses_example :
    ((verify_otp env_ok false "ann@x" " email" "000000" start).0 ≡ err invalid_otp_code)
    × ((verify_otp env_ok false "ann@x" " email" "000000" start).1.db
        ≡ with_challenges (record code_sent { attempts = 3 } ∷ []) start.db)
unfolding trim_space latest increment
verify_otp-refuses_example =
    verify_otp-refuses env_ok (λ k. refl) false "ann@x" " email" "000000" start invalid_otp_code
      (with_challenges (record code_sent { attempts = 3 } ∷ []) start.db) refl refl

-- After three more wrong codes the right one is refused too.
verify_otp-locks_example :
    (verify_otp env_ok false "ann@x" "email" "123456"
      (guesses env_ok (λ k. refl) false "ann@x" "email" ("1" ∷ "2" ∷ "3" ∷ []) start)).0
    ≡ err too_many_otp_attempts
unfolding trim_space latest
verify_otp-locks_example =
    verify_otp-locks env_ok (λ k. refl) false "ann@x" "email"
      (differ (trim_space "ann@x") "" refl, differ (trim_space "email") "" refl)
      ("1" ∷ "2" ∷ "3" ∷ []) "123456" start code_sent refl refl (λ k. ground arith)
      ((differ "1" "" refl, refl), ((differ "2" "" refl, refl), ((differ "3" "" refl, refl), tt)))
      (differ "123456" "" refl) (ground arith)

logs_in : (verify_otp env_ok false "ann@x" "email" "123456" start).0 ≡ ok new_pair
unfolding verify_otp trim_space ◌>>=◌ try get_latest_challenge statement row_or_none latest now
    consume_challenge parse_id user_for find_or_create_by_email find_email issue_tokens
    issue_tokens_for_org ask new_id store_refresh_token
logs_in = refl

verify_otp-consumes_example :
    Accepted env_ok 100
      (trim_space "ann@x")
      (trim_space "email")
      "123456"
      start.db
      (verify_otp env_ok false "ann@x" "email" "123456" start).1.db
verify_otp-consumes_example =
    verify_otp-consumes env_ok false "ann@x" "email" "123456" start new_pair logs_in

refresh-succeeds_example : (pair : TokenPair) × ((refresh env_ok "old" start).0 ≡ ok pair)
unfolding find_live
refresh-succeeds_example =
    refresh-succeeds env_ok (λ k. refl) (λ k u o t. (u, refl)) "old" start old_token "ann" refl refl
      (inr ("acme", refl))

verify_otp-succeeds_example :
    (pair : TokenPair) × ((verify_otp env_ok false " ann@x" "email" "123456" start).0 ≡ ok pair)
unfolding trim_space latest find_email
verify_otp-succeeds_example =
    verify_otp-succeeds env_ok (λ k. refl) (λ k u o t. (u, refl)) " ann@x" "123456" start code_sent
      ann "ann" refl refl refl refl (differ "active" "signup_pending" refl) refl
