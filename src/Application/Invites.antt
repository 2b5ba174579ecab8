-- ===== src/Application/Invites.antt =====
-- internal/application/invites.go: the use cases on invitations.
pub mod Acceptance
mod Tests
use orbit_auth.Prelude.{
  ◌+◌, String, Bool, true, false, not, ◌&&◌, ◌||◌, Option, none, some, List, [], ◌∷◌, map, ◌==◌,
  if◌then◌else◌, ltb,
}
use orbit_auth.Prelude.GoText.{trim_space}
use orbit_auth.Prelude.Results.{Result, ok, err}
use orbit_auth.Domain.{
  Time, Organization, User, invite_ttl, user_active, Error, required, invalid_email, invalid_invite,
  not_member, secret_failed, notify_failed, invite_not_found, user_not_found,
}
use orbit_auth.Domain.Invites.{Invite, InviteNotification, pending, accepted, is_pending, is_email}
use orbit_auth.Runtime.{
  Env, World, Exec, pure, raise, refuse, try, ◌>>=◌, ◌>>◌, tick, now, new_id, ask,
}
use orbit_auth.Postgres.Organizations as Store
use orbit_auth.Postgres.Invites
use orbit_auth.Application.OrgService.{is_active_member}

-- The error values of `errors.Is` that become the generic one.
abbrev pub is_unknown_invite : Error → Bool
is_unknown_invite Error.invite_not_found = true
is_unknown_invite _ = false

abbrev pub is_unknown_user : Error → Bool
is_unknown_user Error.user_not_found = true
is_unknown_user _ = false

abbrev pub hidden : {A : Type 0} → (Error → Bool) → Result Error A → Result Error A
hidden p (ok a) = ok a
hidden p (err e) = if p e then err invalid_invite else err e

-- `if errors.Is(err, …) { return domain.Invite{}, domain.ErrInvalidInvite }`
unfoldable pub hide : {A : Type 0} → (Error → Bool) → Exec A → Exec A
hide p m w = (hidden p (m w).0, (m w).1)

abbrev pub without_hash : Invite → Invite
without_hash i = record i { token_hash = "" }

or_email : String → String → String
or_email name email = if name == "" then email else name

module _ (env : Env) where
  -- NormalizeEmail
  abbrev pub normalize_email : String → String
  normalize_email email = env.to_lower (trim_space email)

  -- notifier.SendOrgInvite: a delivery that works reaches the recipient.
  unfoldable pub send_org_invite : InviteNotification → Exec (Unit {0})
  send_org_invite n w =
      if env.delivers w.calls
      then (ok tt, record (tick w) { invitations = n ∷ w.invitations })
      else (err notify_failed, tick w)

  -- A failed delivery revokes the invite; its error is the one that callers see.
  revoke_unsent : String → Invite → Result Error (Unit {0}) → Exec Invite
  revoke_unsent org_id i (ok _) = pure (without_hash i)
  revoke_unsent org_id i (err e) = do revoked ← try (Invites.revoke_invite env org_id i.id); raise e

  notification : Organization → User → String → Invite → InviteNotification
  unfolding or_email
  notification org inviter token i = record {
    recipient = i.email;
    org_name = org.name;
    inviter_name = or_email inviter.display_name inviter.email;
    accept_token = token;
    expires_at = i.expires_at;
    locale = "fa";
    correlation_id = i.id;
  }

  new_invite : String → String → String → String → Exec Invite
  new_invite org_id inviter_id email token = do
    at ← now env
    id ← new_id env
    pure (record {
      id = id;
      org_id = org_id;
      email = email;
      token_hash = env.digest token;
      inviter_id = inviter_id;
      status = pending;
      expires_at = at + invite_ttl;
      accepted_at = none;
      created_at = at;
    })

  invite_trimmed : String → String → String → Exec Invite
  unfolding revoke_unsent notification new_invite
  invite_trimmed org_id inviter_id email = do
    refuse (org_id == "" || inviter_id == "") (required "org_id and inviter_id")
    refuse (not (is_email email)) invalid_email
    member ← is_active_member env org_id inviter_id
    refuse (not member) not_member
    org ← Store.get_org env org_id
    inviter ← Store.find_by_id env inviter_id
    token ← ask env secret_failed env.new_secret
    i ← new_invite org_id inviter_id email token
    Invites.create_invite env i
    sent ← try (send_org_invite (notification org inviter token i))
    revoke_unsent org_id i sent

  -- InviteMember
  unfoldable pub invite_member : String → String → String → Exec Invite
  unfolding invite_trimmed
  invite_member org_id inviter_id email =
      invite_trimmed (trim_space org_id) (trim_space inviter_id) (normalize_email email)

  unfoldable pub invite_recipient_matches : User → String → Bool
  invite_recipient_matches u email =
      not (u.email == "")
      && u.email_verified
      && u.status == user_active
      && env.equal_fold u.email email

  accept_trimmed : String → String → Exec Invite
  unfolding hide
  accept_trimmed user_id token = do
    refuse (user_id == "" || token == "") invalid_invite
    i ← hide is_unknown_invite (Invites.find_invite_by_token_hash env (env.digest token))
    at ← now env
    refuse (not (is_pending i.status) || not (ltb at i.expires_at)) invalid_invite
    user ← hide is_unknown_user (Store.find_by_id env user_id)
    refuse (not (invite_recipient_matches user i.email)) invalid_invite
    hide is_unknown_invite (Invites.accept_invite env i.id i.org_id user_id at)
    pure (record i { status = accepted; accepted_at = some at; token_hash = "" })

  -- AcceptInvite
  unfoldable pub accept_invite : String → String → Exec Invite
  unfolding accept_trimmed
  accept_invite user_id token = accept_trimmed (trim_space user_id) (trim_space token)

  revoke_trimmed : String → String → String → Exec (Unit {0})
  revoke_trimmed org_id invite_id caller_id = do
    refuse (org_id == "" || invite_id == "" || caller_id == "")
        (required "org_id, invite_id and caller_id")
    member ← is_active_member env org_id caller_id
    refuse (not member) not_member
    Invites.revoke_invite env org_id invite_id

  -- RevokeInvite
  unfoldable pub revoke_invite : String → String → String → Exec (Unit {0})
  unfolding revoke_trimmed
  revoke_invite org_id invite_id caller_id =
      revoke_trimmed (trim_space org_id) (trim_space invite_id) (trim_space caller_id)

  list_trimmed : String → Exec (List Invite)
  list_trimmed org_id = do
    refuse (org_id == "") (required "org_id")
    org ← Store.get_org env org_id
    l ← Invites.list_invites env org_id
    pure (map without_hash l)

  -- ListInvites
  unfoldable pub list_invites : String → Exec (List Invite)
  unfolding list_trimmed
  list_invites org_id = list_trimmed (trim_space org_id)
