-- ===== src/Postgres/Users/Creation.antt =====
-- `FindOrCreateByEmail` and `FindOrCreateByMobile` of store.go, and the one-time codes.
use orbit_auth.Prelude.{String, true, arith}
use orbit_auth.Prelude.Results.{Result, ok, err}
use orbit_auth.Domain.{Time, User, Event, Error, user_active}
use orbit_auth.Runtime.{Env, Exec}
use orbit_auth.Runtime.Reads.{
  statement-IsReadOnly, parse_id-IsReadOnly, pure-IsReadOnly, raise-IsReadOnly,
}
use orbit_auth.Runtime.Frames.{
  SparesCodes, bind-SparesCodes, try-SparesCodes, read-SparesCodes, choice-SparesCodes,
  statement-SparesCodes, transaction-SparesCodes, now-SparesCodes, new_id-SparesCodes,
}
use orbit_auth.Postgres.Queries.{row_or_none, emit, insert_outbox, is_no_rows}
use orbit_auth.Postgres.Users.{
  blank_user, insert_user, find_by_email, find_by_mobile, create_user, create_with_email,
  create_with_mobile, create_if_missing, find_or_create_by_email, find_or_create_by_mobile,
}

module _ (env : Env) where
  emit-SparesCodes : (event : Event) (at : Time) → SparesCodes (emit env event at)
  unfolding emit insert_outbox
  emit-SparesCodes event at = statement-SparesCodes env _ λ d t a d' e. ground arith

  create_user-SparesCodes : (row user : User) → SparesCodes (create_user env row user)
  unfolding create_user insert_user
  create_user-SparesCodes row user =
      bind-SparesCodes _ _ (read-SparesCodes _ (parse_id-IsReadOnly env user.id)) λ id.
        bind-SparesCodes _ _ (now-SparesCodes env) λ at. transaction-SparesCodes env _ (
          bind-SparesCodes _ _ (statement-SparesCodes env _ λ d t a d' e. ground arith) λ _.
            bind-SparesCodes _ _ (emit-SparesCodes _ _)
              λ _. read-SparesCodes _ (pure-IsReadOnly user))

  create_if_missing-SparesCodes :
      (create : Exec User) (r : Result Error User)
      → SparesCodes create
      → SparesCodes (create_if_missing env create r)
  unfolding create_if_missing
  create_if_missing-SparesCodes create (ok u) h = read-SparesCodes _ (pure-IsReadOnly u)
  create_if_missing-SparesCodes create (err e) h =
      choice-SparesCodes (is_no_rows e) _ _ h (read-SparesCodes _ (raise-IsReadOnly e))

  pub find_or_create_by_email-SparesCodes :
      (email : String) → SparesCodes (find_or_create_by_email env email)
  unfolding find_or_create_by_email find_by_email create_with_email row_or_none
  find_or_create_by_email-SparesCodes email =
      bind-SparesCodes _ _
        (try-SparesCodes _
          (read-SparesCodes _ (statement-IsReadOnly env _ λ d t a d' e. ground arith)))
        λ found. create_if_missing-SparesCodes _ found (
          bind-SparesCodes _ _ (new_id-SparesCodes env) λ id.
            create_user-SparesCodes
              (record (blank_user id) {
                email = email;
                status = user_active;
                email_verified = true;
              })
              (record (blank_user id) { email = email; status = user_active }))

  pub find_or_create_by_mobile-SparesCodes :
      (mobile : String) → SparesCodes (find_or_create_by_mobile env mobile)
  unfolding find_or_create_by_mobile find_by_mobile create_with_mobile row_or_none
  find_or_create_by_mobile-SparesCodes mobile =
      bind-SparesCodes _ _
        (try-SparesCodes _
          (read-SparesCodes _ (statement-IsReadOnly env _ λ d t a d' e. ground arith)))
        λ found. create_if_missing-SparesCodes _ found (
          bind-SparesCodes _ _ (new_id-SparesCodes env) λ id.
            create_user-SparesCodes
              (record (blank_user id) { mobile = mobile; status = user_active })
              (record (blank_user id) { mobile = mobile }))
