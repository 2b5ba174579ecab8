-- ===== src/Postgres/Users.antt =====
-- The user lookups and creations of store.go, with their statements of queries/users.sql.
pub mod Creation
use orbit_auth.Prelude.{
  ℕ, String, Bool, true, false, not, ◌&&◌, ◌||◌, Option, none, some, List, [], ◌∷◌, ◌==◌,
  if◌then◌else◌,
}
use orbit_auth.Prelude.Results.{Result, ok, err}
use orbit_auth.Domain.{Time, User, user_active, user_created, Error, duplicate_key, no_rows}
use orbit_auth.Runtime.{
  Db, Env, Exec, pure, raise, try, ◌>>=◌, ◌>>◌, statement, transaction, parse_id, new_id, now,
}
use orbit_auth.Postgres.Queries.{row_or_none, emit, find_user, is_no_rows}

-- The empty text stands for NULL, which no text equals.
unfoldable pub find_email : String → List User → Option User
find_email email [] = none
find_email email (u ∷ l) =
    if u.email == email && not (email == "") then some u else find_email email l

unfoldable pub find_mobile : String → List User → Option User
find_mobile mobile [] = none
find_mobile mobile (u ∷ l) =
    if u.mobile == mobile && not (mobile == "") then some u else find_mobile mobile l

abbrev blank_user : String → User
blank_user id = record {
  id = id;
  email = "";
  mobile = "";
  password_hash = "";
  display_name = "";
  status = "";
  email_verified = false;
}

abbrev is_there : Option User → Bool
is_there none = false
is_there (some u) = true

-- The keys of the table: id, email, mobile.
unfoldable pub insert_user : User → Db → Result Error (Unit {0} × Db)
insert_user u d =
    if is_there (find_user u.id d.users)
      || is_there (find_email u.email d.users)
      || is_there (find_mobile u.mobile d.users)
    then err duplicate_key
    else ok (tt, record d { users = u ∷ d.users })

module _ (env : Env) where
  unfoldable pub find_by_email : String → Exec User
  find_by_email email = statement env (λ d t. row_or_none (find_email email d.users) d)

  unfoldable pub find_by_mobile : String → Exec User
  find_by_mobile mobile = statement env (λ d t. row_or_none (find_mobile mobile d.users) d)

  -- Inserts `row` under the parsed identifier with its event, and returns `user`.
  create_user : User → User → Exec User
  create_user row user = do
    parsed ← parse_id env user.id
    at ← now env
    transaction env (
        statement env (λ d t. insert_user (record row { id = parsed }) d)
        >> (emit env (user_created user.id at) at >> pure user))

  create_with_email : String → Exec User
  unfolding create_user
  create_with_email email = do
    id ← new_id env
    create_user
        (record (blank_user id) { email = email; status = user_active; email_verified = true })
        (record (blank_user id) { email = email; status = user_active })

  -- The row's status is the column's default.
  create_with_mobile : String → Exec User
  unfolding create_user
  create_with_mobile mobile = do
    id ← new_id env
    create_user (record (blank_user id) { mobile = mobile; status = user_active })
        (record (blank_user id) { mobile = mobile })

  create_if_missing : Exec User → Result Error User → Exec User
  create_if_missing create (ok u) = pure u
  create_if_missing create (err e) = if is_no_rows e then create else raise e

  unfoldable pub find_or_create_by_email : String → Exec User
  unfolding create_if_missing create_with_email find_by_email
  find_or_create_by_email email = do
    found ← try (find_by_email email)
    create_if_missing (create_with_email email) found

  pub find_or_create_by_mobile : String → Exec User
  unfolding create_if_missing create_with_mobile find_by_mobile
  find_or_create_by_mobile mobile = do
    found ← try (find_by_mobile mobile)
    create_if_missing (create_with_mobile mobile) found

  -- UpdateLastLogin: it changes two timestamps of the row, which the model does not keep.
  unfoldable pub update_last_login : String → Exec (Unit {0})
  update_last_login user_id = do id ← parse_id env user_id; statement env (λ d t. ok (tt, d))
