-- ===== src/Runtime.antt =====
-- What a call of the service runs in: the database, the world outside the repository, and actions
-- that read and change them and may fail.
pub mod Rules
pub mod Keeping
pub mod Effects
pub mod Reads
pub mod Frames
use orbit_auth.Prelude.{
  ℕ, ◌+◌, ◌*◌, ◌/◌, String, Bool, true, false, Option, none, some, List, [], ◌∷◌, if◌then◌else◌,
}
use orbit_auth.Prelude.Results.{Result, ok, err}
use orbit_auth.Domain.Invites.{Invite, InviteNotification}
use orbit_auth.Domain.ApiTokens.{ApiToken}
use orbit_auth.Domain.{Time, Organization, Membership, OtpChallenge, User, Event, Error, database}

pub record RefreshToken : Type 0 where
  pub user_id : String
  pub org_id : String
  pub token_hash : String
  pub expires_at : Time
  pub revoked : Bool

-- A row of `outbox_events`: the event and the timestamp of its envelope.
pub record OutboxRow : Type 0 where
  pub event : Event
  pub timestamp : Time

-- The tables.
pub record Db : Type 0 where
  pub users : List User
  pub organizations : List Organization
  pub memberships : List Membership
  pub challenges : List OtpChallenge
  pub refresh_tokens : List RefreshToken
  pub api_tokens : List ApiToken
  pub invites : List Invite
  pub outbox : List OutboxRow

-- Code that is not in the repository, and the ports that only pass calls on to such code: hashing,
-- signing, flags, notifications. A call is numbered, so that the same function may answer
-- differently each time: `fails k` says that the database call with number k fails, `now k` is the
-- clock at call k, `new_id k` the identifier made at call k, and so on.
pub record Env : Type 0 where
  pub fails : ℕ → Bool
  pub now : ℕ → Time
  pub new_id : ℕ → String
  pub parse_uuid : String → Option String
  pub new_code : ℕ → Option String
  pub new_secret : ℕ → Option String
  pub hash : ℕ → String → Option String
  pub compare_hash : String → String → Bool
  pub digest : String → String
  pub to_lower : String → String
  pub sql_lower : String → String
  pub equal_fold : String → String → Bool
  pub sign : ℕ → String → Option String → Time → Option String
  pub flag : ℕ → String → Bool
  pub delivers : ℕ → Bool

-- A code that was handed to the notification service.
pub record Sent : Type 0 where
  pub channel : String
  pub recipient : String
  pub code : String

-- A time as a column holds it: pgx sends whole microseconds.
abbrev pub stored_time : Time → Time
stored_time at = at / 1000 * 1000

pub record World : Type 0 where
  pub db : Db
  pub calls : ℕ
  pub sent : List Sent
  pub invitations : List InviteNotification

abbrev pub Exec : Type 0 → Type 0
Exec A = World → Result Error A × World

pub pure : {A : Type 0} → A → Exec A
pure a w = (ok a, w)

pub raise : {A : Type 0} → Error → Exec A
raise e w = (err e, w)

abbrev pub then_run : {A B : Type 0} → Result Error A → (A → Exec B) → Exec B
then_run (ok a) f w = f a w
then_run (err e) f w = (err e, w)

infixl 10 ◌>>=◌ ◌>>◌
-- Opening this opens `pure` and `raise` too.
unfoldable pub ◌>>=◌ : {A B : Type 0} → Exec A → (A → Exec B) → Exec B
unfolding pure raise
◌>>=◌ m f w = then_run (m w).0 f (m w).1

abbrev pub ◌>>◌ : {A B : Type 0} → Exec A → Exec B → Exec B
m >> n = m >>= λ _. n

-- `if bad { return err }`
abbrev pub refuse : Bool → Error → Exec (Unit {0})
refuse true e = raise e
refuse false e = pure tt

-- `_ = m`, and code that looks at the error: the result is a value.
unfoldable pub try : {A : Type 0} → Exec A → Exec (Result Error A)
try m w = (ok (m w).0, (m w).1)

abbrev pub tick : World → World
tick w = record w { calls = w.calls + 1 }

module _ (env : Env) where
  -- A statement outside or inside a transaction. It may fail; otherwise it reads the tables and
  -- the clock `NOW()`, and either is refused or gives its rows and the new tables.
  unfoldable pub statement : {A : Type 0} → (Db → Time → Result Error (A × Db)) → Exec A
  statement run w =
      if env.fails w.calls then (err database, tick w) else elim (run w.db (env.now w.calls)) [
        | err e ↦ (err e, tick w)
        | ok (a, db) ↦ (ok a, record (tick w) { db = db })
      ]

  -- The end of a transaction that began with the tables `before`: an error rolls back, and so does
  -- a commit that fails.
  unfoldable pub settle : {A : Type 0} → Db → Result Error A → Exec A
  settle before (err e) w = (err e, record w { db = before })
  settle before (ok a) w =
      if env.fails w.calls then (err database, record (tick w) { db = before }) else (ok a, tick w)

  -- `tx, err := pool.Begin(ctx); defer tx.Rollback(ctx); …; tx.Commit(ctx)`
  unfoldable pub transaction : {A : Type 0} → Exec A → Exec A
  transaction body w =
      if env.fails w.calls
      then (err database, tick w)
      else settle w.db (body (tick w)).0 (body (tick w)).1

  -- `s.clock.Now()`, `time.Now().UTC()`
  unfoldable pub now : Exec Time
  now w = (ok (env.now w.calls), tick w)

  -- A function outside that may fail.
  unfoldable pub ask : {A : Type 0} → Error → (ℕ → Option A) → Exec A
  ask e f w = elim (f w.calls) [ none ↦ (err e, tick w) | some a ↦ (ok a, tick w) ]

  -- A function outside that cannot fail.
  unfoldable pub call : {A : Type 0} → (ℕ → A) → Exec A
  call f w = (ok (f w.calls), tick w)

  -- `s.ids.NewID()`, `uuid.NewString()`
  unfoldable pub new_id : Exec String
  new_id w = (ok (env.new_id w.calls), tick w)

  -- `uuid.Parse`
  unfoldable pub parse_id : String → Exec String
  parse_id text w = elim (env.parse_uuid text) [
    | none ↦ (err (Error.invalid_id text), w)
    | some id ↦ (ok id, w)
  ]
