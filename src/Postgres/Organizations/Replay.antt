-- ===== src/Postgres/Organizations/Replay.antt =====
-- The events that organizations.go writes, read by a consumer in order, with the identifiers in
-- them parsed, and the membership rows.
use orbit_auth.Prelude.{
  String, ◌≡◌, refl, sym, subst, Bool, true, false, not, ◌&&◌, Option, none, some, List, [], ◌∷◌,
  arith, ◌==◌, inl, inr, Bool-cases, if◌then◌else◌, ◌∙◌,
}
use orbit_auth.Domain.{
  Time, Membership, MembershipStatus, active, is_suspended, Event, user_created, org_created,
  membership_added, membership_removed, membership_suspended,
}
use orbit_auth.Runtime.{Db, OutboxRow, Env}
use orbit_auth.Runtime.Rules.{Keeps, Keeps-atomic}
use orbit_auth.Postgres.Memberships
use orbit_auth.Postgres.Memberships.Counting.{find-add, find-set_status, find-remove}
use orbit_auth.Postgres.Queries.{append_outbox}
use orbit_auth.Postgres.Organizations.Operations.{
  Operation, creating, adding, updating, removing, perform, Outcome, perform-IsAtomic,
  perform-Effect,
}

abbrev pub is_row_there : Option Membership → Bool
is_row_there none = false
is_row_there (some m) = true

module _ (env : Env) (org user : String) where
  -- Two texts that name the organization and the user.
  unfoldable pub names : String → String → Bool
  names org_id user_id = elim (env.parse_uuid org_id) [
    | none ↦ false
    | some o ↦ elim (env.parse_uuid user_id) [ none ↦ false | some u ↦ o == org && u == user ]
  ]

  -- What the consumer believes after one more event.
  unfoldable pub hear : Event → Bool → Bool
  hear (user_created user_id at) known = known
  hear (org_created org_id name at) known = known
  hear (membership_added org_id user_id status at) known =
      if names org_id user_id then true else known
  hear (membership_removed org_id user_id status at) known =
      if names org_id user_id then false else known
  hear (membership_suspended org_id user_id status at) known = known

  unfoldable pub replay : List OutboxRow → Bool → Bool
  replay [] known = known
  replay (r ∷ l) known = replay l (hear r.event known)

  replay-append_outbox :
      (r : OutboxRow) (l : List OutboxRow) (known : Bool)
      → replay (append_outbox r l) known ≡ hear r.event (replay l known)
  unfolding replay append_outbox
  replay-append_outbox r [] known = refl
  replay-append_outbox r (s ∷ l) known = replay-append_outbox r l (hear s.event known)

  names-parsed :
      (org_id user_id o u : String)
      → env.parse_uuid org_id ≡ some o
      → env.parse_uuid user_id ≡ some u
      → names org_id user_id ≡ (o == org && u == user)
  unfolding names
  names-parsed org_id user_id o u e f = ground arith

-- The outbox, read from its beginning, says of every key whether there is a row.
pub record IsReplayed (env : Env) (outbox : List OutboxRow) (members : List Membership)
    : Type 0 where
  pub at :
      (org user : String)
      → replay env org user outbox false ≡ is_row_there (Memberships.find org user members)

module _ (env : Env) (outbox : List OutboxRow) (members : List Membership) (org user : String)
    (org_id user_id : String) (org_parsed : env.parse_uuid org_id ≡ some org)
    (user_parsed : env.parse_uuid user_id ≡ some user) where
  add-IsReplayed :
      (status : MembershipStatus) (time at stamp : Time)
      → IsReplayed env outbox members
      → IsReplayed env
          (append_outbox
            (record { event = membership_added org_id user_id status at; timestamp = stamp })
            outbox)
          (Memberships.add org user status time members)
  unfolding hear
  add-IsReplayed status time at stamp h = record {
    at = λ o u. ground (
      arith,
      replay-append_outbox env o u
          (record { event = membership_added org_id user_id status at; timestamp = stamp }) outbox
          false,
      names-parsed env o u org_id user_id org user org_parsed user_parsed,
      find-add org user status time members o u,
      h.at o u,
    );
  }

  remove-IsReplayed :
      (status : MembershipStatus) (at stamp : Time)
      → IsReplayed env outbox members
      → IsReplayed env
          (append_outbox
            (record { event = membership_removed org_id user_id status at; timestamp = stamp })
            outbox)
          (Memberships.remove org user members)
  unfolding hear
  remove-IsReplayed status at stamp h = record {
    at = λ o u. ground (
      arith,
      replay-append_outbox env o u
          (record { event = membership_removed org_id user_id status at; timestamp = stamp }) outbox
          false,
      names-parsed env o u org_id user_id org user org_parsed user_parsed,
      find-remove org user members o u,
      h.at o u,
    );
  }

-- An event that says nothing of who is a member.
silent-IsReplayed :
    (env : Env) (outbox : List OutboxRow) (members : List Membership) (event : Event) (stamp : Time)
    → ((org user : String) (known : Bool) → hear env org user event known ≡ known)
    → IsReplayed env outbox members
    → IsReplayed env (append_outbox (record { event = event; timestamp = stamp }) outbox) members
silent-IsReplayed env outbox members event stamp silent h = record {
  at = λ o u.
      replay-append_outbox env o u (record { event = event; timestamp = stamp }) outbox false
      ∙ (silent o u (replay env o u outbox false) ∙ h.at o u);
}

-- A row that changes its status stays a row.
set_status-IsReplayed :
    (env : Env) (outbox : List OutboxRow) (members : List Membership) (org user : String)
    (status : MembershipStatus) (time : Time)
    → IsReplayed env outbox members
    → IsReplayed env outbox (Memberships.set_status org user status time members)
set_status-IsReplayed env outbox members org user status time h = record {
  at = λ o u. ground (arith, find-set_status org user status time members o u, h.at o u);
}

abbrev pub IsReplayedDb : Env → Db → Type 0
IsReplayedDb env d = IsReplayed env d.outbox d.memberships

module _ (env : Env) where
  Outcome-IsReplayed :
      (op : Operation) (d : Db) (a : Unit {0}) (d' : Db)
      → IsReplayedDb env d
      → Outcome env op d a d'
      → IsReplayedDb env d'
  unfolding hear
  Outcome-IsReplayed (creating o creator_id) d a d' h p =
      let c = p.performed in
      subst (IsReplayedDb env) (sym c.written) (
        add-IsReplayed env _ _ p.org p.user o.id creator_id p.org_parsed p.user_parsed active c.time
          c.at c.stamps.1
          (silent-IsReplayed env _ _ (org_created o.id o.name c.at) c.stamps.0 (λ o u k. refl) h))
  Outcome-IsReplayed (adding org_id user_id status) d a d' h p = elim p.performed.written [
    | inl (m, found, same) ↦ subst (IsReplayedDb env) (sym same) h
    | inr (absent, written) ↦ subst (IsReplayedDb env) (sym written) (
        add-IsReplayed env _ _ p.org p.user org_id user_id p.org_parsed p.user_parsed status
          p.performed.time p.performed.at p.performed.stamp h)
  ]
  Outcome-IsReplayed (updating org_id user_id status) d a d' h p =
      let c = p.performed in
      let kept = set_status-IsReplayed env _ _ p.org p.user status c.time h in
      subst (IsReplayedDb env) (sym c.written)
        (elim (Bool-cases (is_suspended status && not (is_suspended c.row.status))) [
          | inl e ↦ rw e (
              silent-IsReplayed env _ _ (membership_suspended org_id user_id status c.at) c.stamp
                (λ o u k. refl) kept)
          | inr e ↦ rw e kept
        ])
  Outcome-IsReplayed (removing org_id user_id) d a d' h p =
      let c = p.performed in
      subst (IsReplayedDb env) (sym c.written) (
        remove-IsReplayed env _ _ p.org p.user org_id user_id p.org_parsed p.user_parsed
          c.row.status c.time c.stamp h)

  pub perform-Keeps_replay : (op : Operation) → Keeps (IsReplayedDb env) (perform env op)
  perform-Keeps_replay op =
      Keeps-atomic (IsReplayedDb env) (perform env op) (Outcome env op) (perform-IsAtomic env op)
        (perform-Effect env op) (Outcome-IsReplayed op)
