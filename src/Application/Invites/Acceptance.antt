-- ===== src/Application/Invites/Acceptance.antt =====
-- What an accepted invitation rests on, internal/application/invites.go.
use orbit_auth.Prelude.{
  String, ◌≡◌, ◌≢◌, ◌<◌, subst, sym, Bool, true, ◌==◌, some, arith, not, ltb, ◌||◌, eq_iff,
}
use orbit_auth.Prelude.GoText.{trim_space}
use orbit_auth.Prelude.Results.{Result, ok, err}
use orbit_auth.Domain.{Time, User, Error, invalid_invite}
use orbit_auth.Domain.Invites.{Invite, is_pending, accepted}
use orbit_auth.Runtime.{Db, Env, World, Exec}
use orbit_auth.Runtime.Effects.{
  Effect, Effect-bind, Effect-map, Effect-now, Effect-pure, Effect-refuse, Effect-parse_id,
}
use orbit_auth.Postgres.Queries.{find_user, find_user_by_id}
use orbit_auth.Postgres.Organizations.{find_by_id}
use orbit_auth.Postgres.Organizations.Effects.{Effect-no_rows_as, Effect-row, Found}
use orbit_auth.Postgres.Invites.{find_invite, find_invite_by_token_hash}
use orbit_auth.Postgres.Invites.Joining.{Accepted, Effect-accept_invite}
use orbit_auth.Application.Invites.{
  hidden, hide, is_unknown_invite, is_unknown_user, invite_recipient_matches, accept_trimmed,
  accept_invite,
}

hidden-ok :
    {A : Type 0} (p : Error → Bool) (r : Result Error A) (a : A) → hidden p r ≡ ok a → r ≡ ok a
hidden-ok p (ok b) a h = h
hidden-ok p (err e) a h = absurd (ground arith)

Effect-hide :
    {A : Type 0} (p : Error → Bool) (m : Exec A) (Q : Db → A → Db → Type 0)
    → Effect m Q
    → Effect (hide p m) Q
unfolding hide
Effect-hide p m Q f = record { at = λ w a h. f.at w a (hidden-ok p (m w).0 a h) }

-- The invite that the token's digest names, the user's row, and the acceptance by the store.
pub record Welcomed (env : Env) (user_id token : String) (before : Db) (i : Invite) (after : Db)
    : Type 0 where
  pub row : Invite
  pub user : User
  pub id : String
  pub at : Time
  pub found : find_invite (env.digest token) before.invites ≡ some row
  pub in_time : at < row.expires_at
  pub parsed : env.parse_uuid user_id ≡ some id
  pub known : find_user id before.users ≡ some user
  pub email : user.email ≢ ""
  pub verified : user.email_verified ≡ true
  pub usable : user.status ≡ "active"
  pub addressed : env.equal_fold user.email row.email ≡ true
  pub joined : Accepted env row.id row.org_id user_id at before tt after
  pub answer : i ≡ record row { status = accepted; accepted_at = some at; token_hash = "" }

module _ (env : Env) where
  Effect-find_by_id :
      (user_id : String)
      → Effect (find_by_id env user_id) (λ d u d'.
        (d' ≡ d)
        × ((id : String) × (env.parse_uuid user_id ≡ some id) × (find_user id d.users ≡ some u)))
  unfolding find_by_id find_user_by_id
  Effect-find_by_id user_id =
      Effect-map _ _ _
        (Effect-bind _ _ _ _ (Effect-parse_id env user_id)
          λ id. Effect-no_rows_as _ _ _ (Effect-row env (λ d. find_user id d.users)))
        λ d u d' s. (
          ground (arith, s.first, s.second),
          (s.value, s.first.0, ground (arith, s.first, s.second)),
        )

  Effect-find_invite :
      (hash : String)
      → Effect (find_invite_by_token_hash env hash) (Found (λ d. find_invite hash d.invites))
  unfolding find_invite_by_token_hash
  Effect-find_invite hash =
      Effect-no_rows_as _ _ _ (Effect-row env (λ d. find_invite hash d.invites))

  accept_trimmed-Effect :
      (user_id token : String)
      → Effect (accept_trimmed env user_id token) (Welcomed env user_id token)
  unfolding accept_trimmed invite_recipient_matches
  accept_trimmed-Effect user_id token =
      Effect-map _ _ _
        (Effect-bind _ _ _ _ (Effect-refuse (user_id == "" || token == "") invalid_invite) λ x.
          Effect-bind _ _ _ _
            (Effect-hide is_unknown_invite _ _ (Effect-find_invite (env.digest token)))
            λ i. Effect-bind _ _ _ _ (Effect-now env) λ at.
              Effect-bind _ _ _ _
                (Effect-refuse (not (is_pending i.status) || not (ltb at i.expires_at))
                  invalid_invite)
                λ y.
                  Effect-bind _ _ _ _ (Effect-hide is_unknown_user _ _ (Effect-find_by_id user_id))
                    λ u.
                      Effect-bind _ _ _ _
                        (Effect-refuse (not (invite_recipient_matches env u i.email))
                          invalid_invite)
                        λ z.
                          Effect-bind _ _ _ _
                            (Effect-hide is_unknown_invite _ _
                              (Effect-accept_invite env i.id i.org_id user_id at))
                            λ v. Effect-pure (record i {
                              status = accepted;
                              accepted_at = some at;
                              token_hash = "";
                            }))
        λ d i d' s.
          let find = s.second in
          let clock = find.second in
          let guard = clock.second in
          let look = guard.second in
          let check = look.second in
          let join = check.second in
          record {
            row = find.value;
            user = look.value;
            id = look.first.1.0;
            at = clock.value;
            found = ground (arith, s.first, find.first);
            in_time = ground (arith, guard.first);
            parsed = look.first.1.1;
            known = ground (arith, s.first, find.first, clock.first, guard.first, look.first);
            email = ground (arith, check.first, eq_iff look.value.email "");
            verified = ground (arith, check.first);
            usable = ground (arith, check.first, eq_iff look.value.status "active");
            addressed = ground (arith, check.first);
            joined =
                subst
                  (λ x. Accepted env find.value.id find.value.org_id user_id clock.value x tt d')
                  (ground
                    (arith, s.first, find.first, clock.first, guard.first, look.first, check.first))
                  (subst
                    (λ x.
                      Accepted env find.value.id find.value.org_id user_id clock.value check.between
                        tt x)
                    (sym join.second.1) join.first);
            answer = ground (arith, join.second);
          }

  -- When AcceptInvite gives an invite, whatever else has failed, the trimmed token's digest names
  -- an unexpired row, the trimmed user is known, active, and has a verified email address that
  -- folds to the row's; the row was pending, the user's membership in its organization was not
  -- suspended and is now active, the row is accepted, no other membership has changed, one added
  -- event is written, and the answer is the row as accepted without its token's hash.
  pub accept_invite-Welcomed :
      (user_id token : String) (w : World) (i : Invite)
      → (accept_invite env user_id token w).0 ≡ ok i
      → Welcomed env
          (trim_space user_id)
          (trim_space token)
          w.db
          i
          (accept_invite env user_id token w).1.db
  unfolding accept_invite
  accept_invite-Welcomed user_id token w i =
      (accept_trimmed-Effect (trim_space user_id) (trim_space token)).at w i
