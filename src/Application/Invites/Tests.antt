-- ===== src/Application/Invites/Tests.antt =====
-- Runs of the invitations on a small database, and the theorems on them.
use orbit_auth.Prelude.{◌+◌, ◌≤◌, String, ◌≡◌, refl, true, false, none, some, [], ◌∷◌, ◌==◌}
use orbit_auth.Prelude.GoText.{trim_space}
use orbit_auth.Prelude.Results.{ok}
use orbit_auth.Domain.{active, User, invite_ttl}
use orbit_auth.Domain.Invites.{Invite, pending, accepted, revoked, is_email}
use orbit_auth.Runtime.{
  stored_time, Env, World, ◌>>=◌, try, statement, parse_id, now, new_id, ask, transaction, settle,
}
use orbit_auth.Postgres.Memberships
use orbit_auth.Postgres.Queries.{
  find_org, find_user, find_user_by_id, row_or_none, lock_organization_row,
  get_organization_membership, activate_membership, activate_row, emit, insert_outbox,
  append_outbox, get_organization,
}
use orbit_auth.Postgres.Organizations.{
  lock_organization, membership_row, no_rows_as, find_by_id, get_org, get_membership,
}
use orbit_auth.Postgres.Invites as Store
use orbit_auth.Postgres.Invites.{
  find_invite, count_pending, accept_rows, find_invite_by_token_hash, insert_invite, revoke_pending,
}
use orbit_auth.Postgres.Invites.SingleUse.{accepting, acceptances, acceptances-le}
use orbit_auth.Application.OrgService.{is_active_member}
use orbit_auth.Application.Invites.{
  hide, accept_invite, invite_member, invite_recipient_matches, send_org_invite,
}
use orbit_auth.Application.Invites.Acceptance.{Welcomed, accept_invite-Welcomed}

abbrev env_ok : Env
env_ok = record {
  fails = λ k. false;
  now = λ k. 100;
  new_id = λ k. "i2";
  parse_uuid = λ s. some s;
  new_code = λ k. some "123456";
  new_secret = λ k. some "secret2";
  hash = λ k s. some s;
  compare_hash = λ h s. h == s;
  digest = λ s. s;
  to_lower = λ s. s;
  sql_lower = λ s. s;
  equal_fold = λ s t. s == t;
  sign = λ k u o t. some u;
  flag = λ k s. true;
  delivers = λ k. true;
}

abbrev person : String → String → User
person id email = record {
  id = id;
  email = email;
  mobile = "";
  password_hash = "";
  display_name = id;
  status = "active";
  email_verified = true;
}

abbrev invite_1 : Invite
invite_1 = record {
  id = "i1";
  org_id = "acme";
  email = "bob@x.y";
  token_hash = "secret";
  inviter_id = "ann";
  status = pending;
  expires_at = 500;
  accepted_at = none;
  created_at = 50;
}

abbrev start : World
start = record {
  db = record {
    users = person "ann" "ann@x.y" ∷ person "bob" "bob@x.y" ∷ [];
    organizations = record { id = "acme"; name = "Acme"; created_at = 50; updated_at = 50 } ∷ [];
    memberships =
        record {
          org_id = "acme";
          user_id = "ann";
          status = active;
          created_at = 50;
          updated_at = 50;
        }
        ∷ [];
    challenges = [];
    refresh_tokens = [];
    api_tokens = [];
    invites = invite_1 ∷ [];
    outbox = [];
  };
  calls = 0;
  sent = [];
  invitations = [];
}

abbrev invite_done : Invite
invite_done = record invite_1 { status = accepted; accepted_at = some 100; token_hash = "" }

bob_accepts : (accept_invite env_ok " bob" "secret" start).0 ≡ ok invite_done
unfolding accept_invite hide trim_space find_invite_by_token_hash find_invite no_rows_as row_or_none
    statement now find_by_id find_user_by_id find_user parse_id invite_recipient_matches
    Store.accept_invite transaction settle lock_organization lock_organization_row find_org
    membership_row get_organization_membership Memberships.find try count_pending accept_rows
    activate_membership activate_row Memberships.activate Memberships.add emit insert_outbox
    append_outbox ◌>>=◌
bob_accepts = refl

accept_invite-Welcomed_example :
    Welcomed env_ok "bob" "secret" start.db invite_done
      (accept_invite env_ok " bob" "secret" start).1.db
unfolding trim_space
accept_invite-Welcomed_example =
    accept_invite-Welcomed env_ok " bob" "secret" start invite_done bob_accepts

acceptances-le_example :
    acceptances env_ok "i1" "acme"
      (accepting "i1" "acme" "bob" 100 ∷ accepting "i1" "acme" "ann" 200 ∷ [])
      start
    ≤ 1
acceptances-le_example =
    acceptances-le env_ok "i1" "acme"
      (accepting "i1" "acme" "bob" 100 ∷ accepting "i1" "acme" "ann" 200 ∷ []) start

abbrev invite_2 : Invite
invite_2 = record invite_1 {
  id = "i2";
  token_hash = "secret2";
  expires_at = stored_time (100 + invite_ttl);
  created_at = stored_time 100;
}

-- The pending invite of the same address is revoked.
ann_invites_again :
    (invite_member env_ok "acme" "ann" " bob@x.y" start).1.db.invites
    ≡ invite_2 ∷ record invite_1 { status = revoked } ∷ []
unfolding invite_member trim_space is_email is_active_member get_membership
    get_organization_membership Memberships.find get_org get_organization find_org find_by_id
    find_user_by_id find_user no_rows_as row_or_none statement parse_id ask now new_id
    Store.create_invite insert_invite revoke_pending transaction settle lock_organization
    lock_organization_row send_org_invite try ◌>>=◌
ann_invites_again = refl
