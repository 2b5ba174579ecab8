-- ===== src/Application/OrgService.antt =====
-- internal/application/organizations.go: the use cases on organizations and members.
pub mod Activity
use orbit_auth.Prelude.{String, Bool, true, false, not, ◌||◌, List, ◌==◌, if◌then◌else◌}
use orbit_auth.Prelude.GoText.{trim_space}
use orbit_auth.Prelude.Results.{Result, ok, err}
use orbit_auth.Domain.{
  Time, Organization, Membership, active, suspended, is_active, Error, required, invalid_org_name,
}
use orbit_auth.Runtime.{Env, Exec, pure, raise, refuse, try, ◌>>=◌, ◌>>◌, now, new_id}
use orbit_auth.Postgres.Organizations as Store
use orbit_auth.Postgres.Organizations.{is_not_member}

abbrev new_org : String → String → Time → Organization
new_org id name at = record { id = id; name = name; created_at = at; updated_at = at }

-- `if orgID == "" || userID == "" { return fmt.Errorf("org_id and user_id required") }`
abbrev require_both : String → String → Exec (Unit {0})
require_both org_id user_id = refuse (org_id == "" || user_id == "") (required "org_id and user_id")

module _ (env : Env) where
  save_org : String → Organization → Exec Organization
  save_org creator_id org = Store.create_org env org creator_id >> pure org

  create_trimmed : String → String → Exec Organization
  unfolding save_org
  create_trimmed creator_id name = do
    refuse (creator_id == "") (required "creator_id")
    refuse (name == "") invalid_org_name
    at ← now env
    id ← new_id env
    save_org creator_id (new_org id name at)

  unfoldable pub create_org : String → String → Exec Organization
  unfolding create_trimmed
  create_org creator_id name = create_trimmed (trim_space creator_id) (trim_space name)

  unfoldable pub list_orgs_for_user : String → Exec (List Organization)
  list_orgs_for_user user_id =
      refuse (trim_space user_id == "") (required "user_id")
      >> Store.list_orgs_for_user env (trim_space user_id)

  unfoldable pub list_members : String → Exec (List Membership)
  list_members org_id =
      refuse (trim_space org_id == "") (required "org_id")
      >> (Store.get_org env (trim_space org_id) >> Store.list_members env (trim_space org_id))

  -- requireUser
  unfoldable pub require_user : String → Exec (Unit {0})
  require_user user_id = Store.find_by_id env user_id >> pure tt

  add_trimmed : String → String → Exec (Unit {0})
  unfolding require_user
  add_trimmed org_id user_id = do
    require_both org_id user_id
    require_user user_id
    org ← Store.get_org env org_id
    Store.add_member env org_id user_id active

  unfoldable pub add_member : String → String → Exec (Unit {0})
  unfolding add_trimmed
  add_member org_id user_id = add_trimmed (trim_space org_id) (trim_space user_id)

  -- Suspending a row that is not active does nothing.
  suspend_if : Bool → String → String → Exec (Unit {0})
  suspend_if false org_id user_id = pure tt
  suspend_if true org_id user_id = Store.update_member_status env org_id user_id suspended

  suspend_trimmed : String → String → Exec (Unit {0})
  unfolding require_user suspend_if
  suspend_trimmed org_id user_id = do
    require_both org_id user_id
    require_user user_id
    m ← Store.get_membership env org_id user_id
    suspend_if (is_active m.status) org_id user_id

  unfoldable pub suspend_member : String → String → Exec (Unit {0})
  unfolding suspend_trimmed
  suspend_member org_id user_id = suspend_trimmed (trim_space org_id) (trim_space user_id)

  remove_trimmed : String → String → Exec (Unit {0})
  unfolding require_user
  remove_trimmed org_id user_id = do
    require_both org_id user_id
    require_user user_id
    m ← Store.get_membership env org_id user_id
    Store.remove_member env org_id user_id

  unfoldable pub remove_member : String → String → Exec (Unit {0})
  unfolding remove_trimmed
  remove_member org_id user_id = remove_trimmed (trim_space org_id) (trim_space user_id)

  -- A user who is no member is not active; any other error is passed on.
  active_answer : Result Error Membership → Exec Bool
  active_answer (ok m) = pure (is_active m.status)
  active_answer (err e) = if is_not_member e then pure false else raise e

  active_trimmed : String → String → Exec Bool
  unfolding active_answer
  active_trimmed org_id user_id = do
    require_both org_id user_id
    found ← try (Store.get_membership env org_id user_id)
    active_answer found

  unfoldable pub is_active_member : String → String → Exec Bool
  unfolding active_trimmed
  is_active_member org_id user_id = active_trimmed (trim_space org_id) (trim_space user_id)
