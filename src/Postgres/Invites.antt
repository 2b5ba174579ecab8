-- ===== src/Postgres/Invites.antt =====
-- internal/infrastructure/postgres/invites.go, with the statements of queries/invites.sql.
pub mod Joining
pub mod Settling
pub mod SingleUse
use orbit_auth.Prelude.{
  ℕ, ◌+◌, String, Bool, true, false, not, ◌&&◌, ◌||◌, Option, none, some, List, [], ◌∷◌, ◌==◌,
  if◌then◌else◌, ltb, eqb, any,
}
use orbit_auth.Prelude.GoText.{string_le}
use orbit_auth.Prelude.Results.{Result, ok, err}
use orbit_auth.Domain.{
  Time, Membership, active, is_suspended, membership_added, Error, null_column, duplicate_key,
  missing_reference, invalid_invite, invite_not_found,
}
use orbit_auth.Domain.Invites.{Invite, InviteStatus, pending, accepted, revoked, is_pending}
use orbit_auth.Runtime.{
  Db, Env, Exec, stored_time, pure, raise, refuse, try, ◌>>=◌, ◌>>◌, statement, transaction,
  parse_id,
}
use orbit_auth.Postgres.Memberships
use orbit_auth.Postgres.Queries.{find_org, find_user, row_or_none, activate_membership, emit}
use orbit_auth.Postgres.Organizations.{no_rows_as, is_not_member, lock_organization, membership_row}

abbrev pub with_invites : List Invite → Db → Db
with_invites l d = record d { invites = l }

-- FindOrganizationInviteByTokenHash
unfoldable pub find_invite : String → List Invite → Option Invite
find_invite hash [] = none
find_invite hash (i ∷ l) = if i.token_hash == hash then some i else find_invite hash l

-- A zero time is written as NULL.
abbrev pub or_null : Time → Option Time
or_null at = if eqb at 0 then none else some (stored_time at)

-- `WHERE id = … AND org_id = …`
abbrev pub is_invite : String → String → Invite → Bool
is_invite id org i = i.id == id && i.org_id == org

-- The rows that the conditional updates affect.
unfoldable pub count_pending : String → String → List Invite → ℕ
count_pending id org [] = 0
count_pending id org (i ∷ l) =
    if is_invite id org i && is_pending i.status
    then count_pending id org l + 1
    else count_pending id org l

-- AcceptOrganizationInvite
unfoldable pub accept_rows : String → String → Time → List Invite → List Invite
accept_rows id org at [] = []
accept_rows id org at (i ∷ l) =
    (if is_invite id org i && is_pending i.status
      then record i { status = accepted; accepted_at = or_null at }
      else i)
    ∷ accept_rows id org at l

-- RevokeOrganizationInvite
unfoldable pub revoke_rows : String → String → List Invite → List Invite
revoke_rows id org [] = []
revoke_rows id org (i ∷ l) =
    (if is_invite id org i && is_pending i.status then record i { status = revoked } else i)
    ∷ revoke_rows id org l

-- ORDER BY created_at DESC, id
invite_before : Invite → Invite → Bool
invite_before i j =
    if ltb j.created_at i.created_at
    then true
    else if ltb i.created_at j.created_at
    then false
    else string_le i.id j.id

insert_listed : Invite → List Invite → List Invite
insert_listed i [] = i ∷ []
insert_listed i (j ∷ l) = if invite_before i j then i ∷ j ∷ l else j ∷ insert_listed i l

-- ListOrganizationInvites: the column of the token hash is not read.
pub invites_of : String → List Invite → List Invite
unfolding insert_listed invite_before
invites_of org [] = []
invites_of org (i ∷ l) =
    let rest = invites_of org l in
    if i.org_id == org then insert_listed (record i { token_hash = "" }) rest else rest

-- A time of zero is written as NULL, which the column refuses.
abbrev pub has_times : Invite → Bool
has_times i = not (eqb i.expires_at 0 || eqb i.created_at 0)

abbrev pub stored_invite : Invite → Invite
stored_invite i = record i {
  expires_at = stored_time i.expires_at;
  created_at = stored_time i.created_at;
}

abbrev pub is_there : {A : Type 0} → Option A → Bool
is_there none = false
is_there (some a) = true

module _ (env : Env) where
  same_address : String → String → Invite → Bool
  same_address org email i =
      i.org_id == org && env.sql_lower i.email == env.sql_lower email && is_pending i.status

  -- RevokePendingOrganizationInvitesForEmail
  unfoldable pub revoke_pending : String → String → List Invite → List Invite
  unfolding same_address
  revoke_pending org email [] = []
  revoke_pending org email (i ∷ l) =
      (if same_address org email i then record i { status = revoked } else i)
      ∷ revoke_pending org email l

  -- CreateOrganizationInvite with the keys of the table: the identifier, the token hash, and one
  -- pending row for an organization and an address; and its references.
  unfoldable pub insert_invite : Invite → Db → Result Error (Unit {0} × Db)
  unfolding same_address
  insert_invite i d =
      if not (has_times i)
      then err null_column
      else if any (λ j. j.id == i.id) d.invites
          || any (λ j. j.token_hash == i.token_hash) d.invites
          || (is_pending i.status && any (same_address i.org_id i.email) d.invites)
      then err duplicate_key
      else if not (is_there (find_org i.org_id d.organizations))
          || not (is_there (find_user i.inviter_id d.users))
      then err missing_reference
      else ok (tt, with_invites (stored_invite i ∷ d.invites) d)

  -- inviteIDs
  invite_ids : String → String → Exec (String × String)
  invite_ids org_id invite_id = do
    org ← parse_id env org_id
    id ← parse_id env invite_id
    pure (org, id)

  create_invite_body : Invite → Exec (Unit {0})
  create_invite_body i = do
    lock_organization env i.org_id
    statement env (λ d t. ok (tt, with_invites (revoke_pending i.org_id i.email d.invites) d))
    statement env (λ d t. insert_invite i d)

  unfoldable pub create_invite : Invite → Exec (Unit {0})
  unfolding create_invite_body
  create_invite i = do
    id ← parse_id env i.id
    org ← parse_id env i.org_id
    inviter ← parse_id env i.inviter_id
    transaction env (create_invite_body (record i { id = id; org_id = org; inviter_id = inviter }))

  unfoldable pub find_invite_by_token_hash : String → Exec Invite
  find_invite_by_token_hash hash =
      no_rows_as invite_not_found
        (statement env (λ d t. row_or_none (find_invite hash d.invites) d))

  pub list_invites : String → Exec (List Invite)
  list_invites org_id = do
    org ← parse_id env org_id
    statement env (λ d t. ok (invites_of org d.invites, d))

  unfoldable pub revoke_invite : String → String → Exec (Unit {0})
  unfolding invite_ids
  revoke_invite org_id invite_id = do
    ids ← invite_ids org_id invite_id
    affected ← statement env (λ d t.
        ok
          (count_pending ids.1 ids.0 d.invites, with_invites (revoke_rows ids.1 ids.0 d.invites) d))
    refuse (eqb affected 0) invite_not_found

  -- The switch of `AcceptInvite` on the row of the user.
  check_standing : Result Error Membership → Exec (Unit {0})
  check_standing (ok m) = refuse (is_suspended m.status) invalid_invite
  check_standing (err e) = if is_not_member e then pure tt else raise e

  accept_invite_body : String → String → String → String → String → Time → Exec (Unit {0})
  unfolding check_standing
  accept_invite_body id org user org_id user_id at = do
    lock_organization env org
    current ← try (membership_row env org user)
    check_standing current
    affected ← statement env (λ d t.
        ok (count_pending id org d.invites, with_invites (accept_rows id org at d.invites) d))
    refuse (eqb affected 0) invite_not_found
    activate_membership env org user
    emit env (membership_added org_id user_id active at) at

  unfoldable pub accept_invite : String → String → String → Time → Exec (Unit {0})
  unfolding invite_ids accept_invite_body
  accept_invite invite_id org_id user_id at = do
    ids ← invite_ids org_id invite_id
    user ← parse_id env user_id
    transaction env (accept_invite_body ids.1 ids.0 user org_id user_id at)
