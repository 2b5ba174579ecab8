-- ===== src/Postgres/Organizations/Histories.antt =====
-- Histories of calls of the methods of organizations.go, failing ones included.
use orbit_auth.Prelude.{◌≤◌, String, ◌≡◌, false, some}
use orbit_auth.Prelude.Results.{err}
use orbit_auth.Domain.{Organization, Error}
use orbit_auth.Runtime.{Db, Env, World}
use orbit_auth.Runtime.Rules.{Keeps}
use orbit_auth.Postgres.Memberships
use orbit_auth.Postgres.Queries.{find_org}
use orbit_auth.Postgres.Organizations.Operations.{Operation, perform, perform-IsAtomic}
use orbit_auth.Postgres.Organizations.Staffing.{IsStaffedDb, perform-Keeps_staffing}
use orbit_auth.Postgres.Organizations.Replay.{
  IsReplayed, IsReplayedDb, replay, is_row_there, perform-Keeps_replay,
}

-- The worlds that calls of the store lead to, whether a call returns or fails.
pub data Reaches (env : Env) : World → World → Type 0 where
  here : (w : World) → Reaches env w w
  after : {v w : World} → (op : Operation) → Reaches env v w → Reaches env v (perform env op w).1

-- A call that creates an organization or adds, updates or removes a member and that fails, wherever
-- it fails, leaves every table as it was.
pub failed-leaves_tables :
    (env : Env) (op : Operation) (w : World) (e : Error)
    → (perform env op w).0 ≡ err e
    → (perform env op w).1.db ≡ w.db
failed-leaves_tables env op w e = (perform-IsAtomic env op).at w e

module _ {env : Env} where
  reaches-keeps :
      (P : Db → Type 0) {v w : World}
      → ((op : Operation) → Keeps P (perform env op))
      → Reaches env v w
      → P v.db
      → P w.db
  reaches-keeps P keeps (here w) h = h
  reaches-keeps P keeps (after {w} op r) h = (keeps op).at w (reaches-keeps P keeps r h)

  -- From tables in which rows have distinct keys, name organizations that exist, and leave no
  -- organization without an active member, every history of calls to create organizations and to
  -- add, update or remove members leads to tables in which each organization has an active member,
  -- whatever the environment answers and whichever calls fail.
  pub active_member_remains :
      {v w : World}
      → Reaches env v w
      → IsStaffedDb v.db
      → (id : String) (o : Organization) → find_org id w.db.organizations ≡ some o
      → 1 ≤ Memberships.count_active id w.db.memberships
  active_member_remains r h id o e =
      (reaches-keeps IsStaffedDb (perform-Keeps_staffing env) r h).staffed id (o, e)

  -- If the outbox tells who is a member before a history of calls, it does so afterwards: an added
  -- event without a later removed event, for texts that parse to the two identifiers, stands in it
  -- exactly if the table has the row.
  pub outbox-tells_members :
      {v w : World}
      → Reaches env v w
      → IsReplayed env v.db.outbox v.db.memberships
      → (org user : String)
      → replay env org user w.db.outbox false
        ≡ is_row_there (Memberships.find org user w.db.memberships)
  outbox-tells_members r h org user =
      (reaches-keeps (IsReplayedDb env) (perform-Keeps_replay env) r h).at org user
