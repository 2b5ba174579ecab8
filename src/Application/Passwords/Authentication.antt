-- ===== src/Application/Passwords/Authentication.antt =====
-- What a login with a password rests on, internal/application/password_tokens.go.
use orbit_auth.Prelude.{
  String, ◌≡◌, ◌≢◌, subst, Bool, true, false, eq_iff, Option, some, arith, inl, inr, Bool-cases,
  if◌then◌else◌,
}
use orbit_auth.Prelude.GoText.{trim_space}
use orbit_auth.Prelude.Results.{Result, ok, err}
use orbit_auth.Domain.{User, is_e164, Error, invalid_credentials}
use orbit_auth.Runtime.{Db, Env, World, Exec, pure, try}
use orbit_auth.Runtime.Effects.{
  Effect, Effect-bind, Effect-map, Effect-pure, Effect-raise, Effect-refuse,
}
use orbit_auth.Runtime.Reads.{
  IsReadOnly, Effect-try, bind-IsReadOnly, parse_id-IsReadOnly, pure-IsReadOnly,
  statement-IsReadOnly, try-IsReadOnly,
}
use orbit_auth.Postgres.Queries.{row_or_none}
use orbit_auth.Postgres.Users.{
  find_email, find_mobile, find_by_email, find_by_mobile, update_last_login,
}
use orbit_auth.Postgres.Organizations.Effects.{Effect-row, Found, list_orgs_for_user-IsReadOnly}
use orbit_auth.Application.Sessions.{TokenPair, issue_tokens, single_active_org, only_org}
use orbit_auth.Application.Sessions.Issuing.{Issued, Effect-issue}
use orbit_auth.Application.Passwords.{
  find_account, known_account, login_trimmed, login_with_password,
}

-- The account that the identifier names.
abbrev pub account : Env → String → Db → Option User
account env identifier d =
    if is_e164 identifier
    then find_mobile identifier d.users
    else find_email (env.to_lower identifier) d.users

-- The user's row, whose password it is, and the pair for that user.
pub record Authenticated (env : Env) (identifier password : String) (before : Db) (pair : TokenPair)
    (after : Db) : Type 0 where
  pub user : User
  pub org_id : String
  pub found : account env identifier before ≡ some user
  pub secret : user.password_hash ≢ ""
  pub matches : env.compare_hash user.password_hash password ≡ true
  pub signed_up : user.status ≢ "signup_pending"
  pub enabled : user.status ≢ "disabled"
  pub issued : Issued env user.id org_id before pair after

module _ (env : Env) where
  Effect-read : {A : Type 0} (m : Exec A) → IsReadOnly m → Effect m (λ d a d'. d' ≡ d)
  Effect-read m h = record { at = λ w a e. h.at w }

  find_account-IsReadOnly : (identifier : String) → IsReadOnly (find_account env identifier)
  unfolding find_account find_by_email find_by_mobile row_or_none
  find_account-IsReadOnly identifier = elim (Bool-cases (is_e164 identifier)) [
    | inl e ↦ rw e (statement-IsReadOnly env _ λ d t a d' e. ground arith)
    | inr e ↦ rw e (statement-IsReadOnly env _ λ d t a d' e. ground arith)
  ]

  Effect-find_account :
      (identifier : String) → Effect (find_account env identifier) (Found (account env identifier))
  unfolding find_account find_by_email find_by_mobile
  Effect-find_account identifier =
      elim (is_e164 identifier)
        as (λ b.
          Effect
            (if b
              then find_by_mobile env identifier
              else find_by_email env (env.to_lower identifier))
            (Found (λ d.
              if b
              then find_mobile identifier d.users
              else find_email (env.to_lower identifier) d.users))) [
                | true ↦ Effect-row env (λ d. find_mobile identifier d.users)
                | false ↦ Effect-row env (λ d. find_email (env.to_lower identifier) d.users)
              ]

  Effect-known_account :
      (r : Result Error User) → Effect (known_account env r) (λ d u d'. (r ≡ ok u) × (d' ≡ d))
  unfolding known_account
  Effect-known_account (err e) = Effect-raise invalid_credentials _
  Effect-known_account (ok u) =
      Effect-map _ _ _ (Effect-pure u) λ d a d' e. (ground (arith, e.0), e.1)

  Effect-update_last_login :
      (user_id : String) → Effect (try (update_last_login env user_id)) (λ d a d'. d' ≡ d)
  unfolding update_last_login
  Effect-update_last_login user_id = Effect-read _ (
      try-IsReadOnly _ (
        bind-IsReadOnly _ _ (parse_id-IsReadOnly env user_id)
          λ id. statement-IsReadOnly env _ λ d t a d' e. ground arith))

  single_active_org-IsReadOnly : (user_id : String) → IsReadOnly (single_active_org env user_id)
  unfolding single_active_org
  single_active_org-IsReadOnly user_id =
      bind-IsReadOnly _ _ (try-IsReadOnly _ (list_orgs_for_user-IsReadOnly env user_id))
        λ orgs. pure-IsReadOnly (only_org orgs)

  Effect-issue_tokens :
      (auto : Bool) (user_id : String)
      → Effect
          (issue_tokens env auto user_id)
          (λ d pair d'. (org_id : String) × Issued env user_id org_id d pair d')
  unfolding issue_tokens
  Effect-issue_tokens auto user_id =
      Effect-map _ _ _
        (Effect-bind _ _ (λ d o d'. d' ≡ d) _
          (elim auto
            as (λ b.
              Effect (if b then single_active_org env user_id else pure "") (λ d o d'. d' ≡ d)) [
                | true ↦ Effect-read _ (single_active_org-IsReadOnly user_id)
                | false ↦ Effect-read _ (pure-IsReadOnly "")
              ])
          λ org_id. Effect-issue env user_id org_id)
        λ d pair d' s. (s.value, subst (λ x. Issued env user_id s.value x pair d') s.first s.second)

  Effect-login_trimmed :
      (auto : Bool) (identifier password : String)
      → Effect (login_trimmed env auto identifier password) (Authenticated env identifier password)
  unfolding login_trimmed
  Effect-login_trimmed auto identifier password =
      Effect-map _ _ _
        (Effect-bind _ _ _ _ (Effect-refuse _ _) λ x.
          Effect-bind _ _ _ _
            (Effect-try _ _ (find_account-IsReadOnly identifier) (Effect-find_account identifier))
            λ found. Effect-bind _ _ _ _ (Effect-known_account found) λ user.
              Effect-bind _ _ _ _ (Effect-refuse _ _) λ y.
                Effect-bind _ _ _ _ (Effect-refuse _ _) λ z.
                  Effect-bind _ _ _ _ (Effect-refuse _ _) λ v.
                    Effect-bind _ _ _ _ (Effect-update_last_login user.id)
                      λ u. Effect-issue_tokens auto user.id)
        λ d pair d' s.
          let look = s.second in
          let known = look.second in
          let pending = known.second in
          let disabled = pending.second in
          let check = disabled.second in
          let stamp = check.second in
          let (org_id, issued) = stamp.second in
          record {
            user = known.value;
            org_id = org_id;
            found =
                subst (λ x. account env identifier x ≡ some known.value) s.first.1
                  (look.first.1 known.value known.first.0).0;
            secret = ground (arith, check.first, eq_iff known.value.password_hash "");
            matches = ground (arith, check.first);
            signed_up = ground (arith, pending.first, eq_iff known.value.status "signup_pending");
            enabled = ground (arith, disabled.first, eq_iff known.value.status "disabled");
            issued =
                subst (λ x. Issued env known.value.id org_id x pair d')
                  (ground (
                    arith, s.first, look.first.0, known.first, pending.first, disabled.first,
                    check.first, stamp.first,
                  ))
                  issued;
          }

  -- When LoginWithPassword gives a token pair, whatever else has failed, the trimmed identifier
  -- names a user's row, by mobile number if it is in E.164 form and by email address otherwise; the
  -- row has a password hash that matches the password, and its user is neither a pending sign-up
  -- nor disabled; the pair is issued and stored for that user.
  pub login_with_password-Authenticated :
      (auto : Bool) (identifier password : String) (w : World) (pair : TokenPair)
      → (login_with_password env auto identifier password w).0 ≡ ok pair
      → Authenticated env
          (trim_space identifier)
          password
          w.db
          pair
          (login_with_password env auto identifier password w).1.db
  unfolding login_with_password
  login_with_password-Authenticated auto identifier password w pair =
      (Effect-login_trimmed auto (trim_space identifier) password).at w pair
