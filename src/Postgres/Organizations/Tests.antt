-- ===== src/Postgres/Organizations/Tests.antt =====
-- Runs of the organization store on a small database, and the theorems on them.
use orbit_auth.Prelude.{◌+◌, ◌≤◌, String, ◌≡◌, refl, true, false, some, [], ◌∷◌, arith}
use orbit_auth.Prelude.Results.{ok, err}
use orbit_auth.Domain.{
  Organization, Membership, active, invited, suspended, User, membership_added, last_active_member,
}
use orbit_auth.Runtime.{
  Db, OutboxRow, Env, World, ◌>>=◌, transaction, settle, statement, parse_id, now,
}
use orbit_auth.Postgres.Memberships
use orbit_auth.Postgres.Queries.{
  find_org, row_or_none, lock_organization_row, get_organization_membership, count_active_members,
  delete_membership, emit, insert_outbox,
}
use orbit_auth.Postgres.Organizations.{
  membership_ids, lock_organization, membership_row, no_rows_as, keep_one_active, remove_member,
  remove_member_body, add_member, update_member_status, create_org, relabel,
}
use orbit_auth.Postgres.Organizations.Operations.{perform, removing}
use orbit_auth.Postgres.Organizations.Staffing.{IsStaffedDb}
use orbit_auth.Postgres.Organizations.Replay.{IsReplayed, replay, is_row_there, hear, names}
use orbit_auth.Postgres.Organizations.Histories.{
  here, after, active_member_remains, outbox-tells_members, failed-leaves_tables,
}
use orbit_auth.Postgres.Organizations.Answers.{
  remove_member-answer, update_member_status-answer, add_member-answer, create_org-answer,
  removal_answer, update_answer, addition_answer, creation_answer,
}

-- Every call works, the clock counts the calls, and any text is an identifier.
abbrev env_ok : Env
env_ok = record {
  fails = λ k. false;
  now = λ k. k + 100;
  new_id = λ k. "id";
  parse_uuid = λ s. some s;
  new_code = λ k. some "123456";
  hash = λ k s. some s;
  compare_hash = λ h s. false;
  digest = λ s. s;
  to_lower = λ s. s;
  sql_lower = λ s. s;
  equal_fold = λ s t. true;
  new_secret = λ k. some "secret-of-the-user";
  sign = λ k u o t. some u;
  flag = λ k s. true;
  delivers = λ k. true;
}

abbrev ann : User
ann = record {
  id = "ann";
  email = "ann@x";
  mobile = "";
  password_hash = "";
  display_name = "Ann";
  status = "active";
  email_verified = true;
}

abbrev acme : Organization
acme = record { id = "acme"; name = "Acme"; created_at = 50; updated_at = 50 }

abbrev member : String → Membership
member user = record {
  org_id = "acme";
  user_id = user;
  status = active;
  created_at = 50;
  updated_at = 50;
}

abbrev joined : String → OutboxRow
joined user = record { event = membership_added "acme" user active 50; timestamp = 50 }

-- Two active members, whose joining is in the outbox.
abbrev db_two : Db
db_two = record {
  users = ann ∷ record ann { id = "bob" } ∷ [];
  organizations = acme ∷ [];
  memberships = member "ann" ∷ member "bob" ∷ [];
  challenges = [];
  refresh_tokens = [];
  api_tokens = [];
  invites = [];
  outbox = joined "ann" ∷ joined "bob" ∷ [];
}

abbrev two : World
two = record { db = db_two; calls = 0; sent = []; invitations = [] }

-- One member.
abbrev one : World
one = record two {
  db = record db_two { memberships = member "ann" ∷ []; outbox = joined "ann" ∷ [] };
}

db_two-IsStaffed : IsStaffedDb db_two
unfolding Memberships.find find_org Memberships.count_active
db_two-IsStaffed = record {
  distinct = (refl, (refl, tt));
  known = ((acme, refl), ((acme, refl), tt));
  staffed = λ id e. ground (arith, e);
}

remove_bob : (remove_member env_ok "acme" "bob" two).0 ≡ ok tt
unfolding ◌>>=◌ remove_member membership_ids parse_id transaction settle remove_member_body
    lock_organization membership_row no_rows_as relabel keep_one_active lock_organization_row
    get_organization_membership count_active_members delete_membership emit statement row_or_none
    now insert_outbox find_org Memberships.find Memberships.count_active
remove_bob = refl

-- The last active member stays.
remove_ann : (remove_member env_ok "acme" "ann" one).0 ≡ err last_active_member
unfolding ◌>>=◌ remove_member membership_ids parse_id transaction settle remove_member_body
    lock_organization membership_row no_rows_as relabel keep_one_active lock_organization_row
    get_organization_membership count_active_members delete_membership emit statement row_or_none
    now insert_outbox find_org Memberships.find Memberships.count_active
remove_ann = refl

abbrev without_bob : World
without_bob = (perform env_ok (removing "acme" "bob") two).1

without_bob-acme : find_org "acme" without_bob.db.organizations ≡ some acme
unfolding ◌>>=◌ perform remove_member membership_ids parse_id transaction settle remove_member_body
    lock_organization membership_row no_rows_as relabel keep_one_active lock_organization_row
    get_organization_membership count_active_members delete_membership emit statement row_or_none
    now insert_outbox find_org Memberships.find Memberships.count_active
without_bob-acme = refl

active_member_remains_example : 1 ≤ Memberships.count_active "acme" without_bob.db.memberships
active_member_remains_example =
    active_member_remains (after (removing "acme" "bob") (here two)) db_two-IsStaffed "acme" acme
      without_bob-acme

db_two-IsReplayed : IsReplayed env_ok db_two.outbox db_two.memberships
unfolding replay hear names Memberships.find
db_two-IsReplayed = record { at = λ org user. ground arith }

outbox-tells_members_example :
    replay env_ok "acme" "bob" without_bob.db.outbox false
    ≡ is_row_there (Memberships.find "acme" "bob" without_bob.db.memberships)
outbox-tells_members_example =
    outbox-tells_members (after (removing "acme" "bob") (here two)) db_two-IsReplayed "acme" "bob"

failed-leaves_tables_example : (perform env_ok (removing "acme" "ann") one).1.db ≡ one.db
unfolding perform
failed-leaves_tables_example =
    failed-leaves_tables env_ok (removing "acme" "ann") one last_active_member remove_ann

remove_member-answer_example :
    (remove_member env_ok "acme" "ann" one).0 ≡ removal_answer "acme" "ann" one.db
remove_member-answer_example =
    remove_member-answer env_ok (λ k. refl) "acme" "ann" "acme" "ann" refl refl one

update_member_status-answer_example :
    (update_member_status env_ok "acme" "bob" suspended two).0
    ≡ update_answer "acme" "bob" suspended two.db
update_member_status-answer_example =
    update_member_status-answer env_ok (λ k. refl) "acme" "bob" "acme" "bob" refl refl suspended two

add_member-answer_example :
    (add_member env_ok "acme" "bob" invited one).0 ≡ addition_answer "acme" "bob" one.db
add_member-answer_example =
    add_member-answer env_ok (λ k. refl) "acme" "bob" "acme" "bob" refl refl invited one

create_org-answer_example :
    (create_org env_ok (record acme { id = "new" }) "ann" two).0
    ≡ creation_answer "new" "ann" acme.created_at acme.updated_at two.db
create_org-answer_example =
    create_org-answer env_ok (λ k. refl) "new" "ann" "new" "ann" refl refl
      (record acme { id = "new" }) two refl
