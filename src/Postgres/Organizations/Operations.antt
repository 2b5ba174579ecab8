-- ===== src/Postgres/Organizations/Operations.antt =====
-- The writing methods of organizations.go as one family: outcomes and failures.
use orbit_auth.Prelude.{String, ◌≡◌, refl, sym, subst, ◌∙◌, some, Option-cases, inl, inr, arith}
use orbit_auth.Domain.{Organization, MembershipStatus}
use orbit_auth.Runtime.{Db, Env, World, Exec, ◌>>=◌, transaction, parse_id}
use orbit_auth.Runtime.Effects.{
  Effect, Effect-bind, Effect-map, Effect-parse_id, Effect-transaction,
}
use orbit_auth.Runtime.Rules.{IsAtomic, parse_id-IsAtomic, transaction-IsAtomic}
use orbit_auth.Postgres.Organizations.{
  membership_ids, create_org, add_member, update_member_status, remove_member, create_org_body,
  add_member_body, update_member_status_body, remove_member_body,
}
use orbit_auth.Postgres.Organizations.Outcomes.{
  Removed, Updated, Added, Created, remove_member_body-Effect, update_member_status_body-Effect,
  add_member_body-Effect, create_org_body-Effect,
}

-- A call of a method of the store that writes.
pub data Operation : Type 0 where
  creating : Organization → String → Operation
  adding : String → String → MembershipStatus → Operation
  updating : String → String → MembershipStatus → Operation
  removing : String → String → Operation

-- What the body of a call has done, given the parsed identifiers.
abbrev pub Performed : Operation → String → String → Db → Unit {0} → Db → Type 0
Performed (creating o creator_id) org user = Created org user o creator_id
Performed (adding org_id user_id status) org user = Added org user org_id user_id status
Performed (updating org_id user_id status) org user = Updated org user org_id user_id status
Performed (removing org_id user_id) org user = Removed org user org_id user_id

-- The texts that a call names its organization and its user by.
abbrev pub org_text : Operation → String
org_text (creating o creator_id) = o.id
org_text (adding org_id user_id status) = org_id
org_text (updating org_id user_id status) = org_id
org_text (removing org_id user_id) = org_id

abbrev pub user_text : Operation → String
user_text (creating o creator_id) = creator_id
user_text (adding org_id user_id status) = user_id
user_text (updating org_id user_id status) = user_id
user_text (removing org_id user_id) = user_id

module _ (env : Env) where
  unfoldable pub perform : Operation → Exec (Unit {0})
  perform (creating o creator_id) = create_org env o creator_id
  perform (adding org_id user_id status) = add_member env org_id user_id status
  perform (updating org_id user_id status) = update_member_status env org_id user_id status
  perform (removing org_id user_id) = remove_member env org_id user_id

  -- The identifiers that were parsed, and what was done with them.
  pub record Outcome (op : Operation) (before : Db) (a : Unit {0}) (after : Db) : Type 0 where
    pub org : String
    pub user : String
    pub org_parsed : env.parse_uuid (org_text op) ≡ some org
    pub user_parsed : env.parse_uuid (user_text op) ≡ some user
    pub performed : Performed op org user before a after

  body : Operation → String → String → Exec (Unit {0})
  body (creating o creator_id) org user = create_org_body env org user o creator_id
  body (adding org_id user_id status) org user = add_member_body env org user org_id user_id status
  body (updating org_id user_id status) org user =
      update_member_status_body env org user org_id user_id status
  body (removing org_id user_id) org user = remove_member_body env org user org_id user_id

  body-Effect :
      (op : Operation) (org user : String) → Effect (body op org user) (Performed op org user)
  unfolding body
  body-Effect (creating o creator_id) org user = create_org_body-Effect env org user o creator_id
  body-Effect (adding org_id user_id status) org user =
      add_member_body-Effect env org user org_id user_id status
  body-Effect (updating org_id user_id status) org user =
      update_member_status_body-Effect env org user org_id user_id status
  body-Effect (removing org_id user_id) org user =
      remove_member_body-Effect env org user org_id user_id

  with_ids : String → String → (String → String → Exec (Unit {0})) → Exec (Unit {0})
  with_ids org_id user_id f =
      parse_id env org_id >>= λ org. parse_id env user_id >>= λ user. transaction env (f org user)

  membership_ids-bind :
      (org_id user_id : String) (f : String → String → Exec (Unit {0})) (w : World)
      → (membership_ids env org_id user_id >>= λ ids. transaction env (f ids.0 ids.1)) w
        ≡ with_ids org_id user_id f w
  unfolding membership_ids with_ids ◌>>=◌ parse_id
  membership_ids-bind org_id user_id f w = elim (Option-cases (env.parse_uuid org_id)) [
    | inl e ↦ ground arith
    | inr (org, e) ↦ elim (Option-cases (env.parse_uuid user_id)) [
      | inl g ↦ ground arith
      | inr (user, g) ↦ ground arith
    ]
  ]

  -- Every method parses both identifiers and runs its body in a transaction.
  perform_lem :
      (op : Operation) (w : World)
      → perform op w ≡ with_ids (org_text op) (user_text op) (body op) w
  unfolding perform body create_org add_member update_member_status remove_member with_ids
  perform_lem (creating o creator_id) w = refl
  perform_lem (adding org_id user_id status) w = membership_ids-bind org_id user_id _ w
  perform_lem (updating org_id user_id status) w = membership_ids-bind org_id user_id _ w
  perform_lem (removing org_id user_id) w = membership_ids-bind org_id user_id _ w

  with_ids-IsAtomic :
      (org_id user_id : String) (f : String → String → Exec (Unit {0}))
      → IsAtomic (with_ids org_id user_id f)
  unfolding with_ids
  with_ids-IsAtomic org_id user_id f =
      parse_id-IsAtomic env _ org_id
        λ org. parse_id-IsAtomic env _ user_id λ user. transaction-IsAtomic env (f org user)

  pub perform-IsAtomic : (op : Operation) → IsAtomic (perform op)
  perform-IsAtomic op = record {
    at = λ w e h. ground (
      arith,
      perform_lem op w,
      (with_ids-IsAtomic (org_text op) (user_text op) (body op)).at w e,
    );
  }

  with_ids-Effect :
      (op : Operation) → Effect (with_ids (org_text op) (user_text op) (body op)) (Outcome op)
  unfolding with_ids
  with_ids-Effect op =
      Effect-map _ _ _
        (Effect-bind _ _ _ _ (Effect-parse_id env (org_text op)) λ org.
          Effect-bind _ _ _ _ (Effect-parse_id env (user_text op))
            λ user. Effect-transaction env (body op org user) _ (body-Effect op org user))
        λ d a d' s. record {
          org = s.value;
          user = s.second.value;
          org_parsed = s.first.0;
          user_parsed = s.second.first.0;
          performed =
              subst (λ x. Performed op s.value s.second.value x a d') (s.second.first.1 ∙ s.first.1)
                s.second.second;
        }

  pub perform-Effect : (op : Operation) → Effect (perform op) (Outcome op)
  perform-Effect op = record {
    at = λ w a h.
        subst (λ r. Outcome op w.db a r.1.db) (sym (perform_lem op w))
          ((with_ids-Effect op).at w a (ground (arith, perform_lem op w)));
  }
