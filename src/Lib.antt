-- ===== src/Lib.antt =====
-- orbit-auth: product user authentication (OTP and password login, sessions, API tokens, sign-up,
-- organizations and invitations) and the public authorization package. Paths are from the
-- repository's root.
--
-- Parts, and the files that model them.
--
-- * authorization/ decides what a principal may do in an organization. Authorization/Identifier is
--   `validateIdentifier` of policy.go, Authorization/Catalog is catalog.go, Authorization/Rbac is
--   rbac.go, Authorization/Memstore is memstore/memstore.go, and
--   Authorization/Evaluator the deprecated evaluator of policy.go. The store that `NewRBAC` takes is
--   the record `Store` of two functions that may fail; Authorization/Memstore gives one.
--   Catalog/Validation, Evaluator/Listing, Rbac/Grants, Rbac/Decisions, Rbac/Scopes, Rbac/Granting,
--   Memstore/Filing and Memstore/Roles hold the proofs.
-- * Domain is internal/domain: entities, constants, events, errors; Domain/Invites is invite.go,
--   Domain/ApiTokens the API tokens of auth.go.
-- * Runtime is what a call runs in: the tables, the environment, and actions that read and change
--   the world and may fail. Runtime/Rules, Runtime/Effects, Runtime/Reads, Runtime/Frames
--   and Runtime/Keeping are the rules to reason about them.
-- * internal/infrastructure/postgres keeps the data. Postgres/Memberships is the membership table
--   and Postgres/Queries the SQL statements of queries/organizations.sql, queries/users.sql and the
--   outbox insert of events.go. Postgres/Organizations is organizations.go. Its children hold what
--   each method does (Effects, Outcomes, Operations), the active members of each organization
--   (Staffing), the outbox and the rows (Replay), histories of calls (Histories), and the answers
--   (Answers).
--   Postgres/Users, Postgres/Challenges, Postgres/RefreshTokens and Postgres/ApiTokens are store.go
--   with the queries of users.sql, otp_challenges.sql, refresh_tokens.sql and api_tokens.sql.
--   Postgres/Invites is invites.go with invites.sql. Users/Creation, Memberships/Activation,
--   Invites/Joining, Invites/Settling and Invites/SingleUse are proofs.
-- * internal/application holds the use cases. Application/OrgService is organizations.go and calls
--   Postgres/Organizations. Application/Sessions (issuing, `Refresh`, `SelectOrg`) and
--   Application/Otp (`RequestOTP`, `VerifyOTP`) are service.go; they call the stores, and the
--   sessions ask OrgService whether a user is an active member. Application/Invites is invites.go,
--   Application/ApiTokens and Application/Passwords are password_tokens.go; a login with a password
--   issues its pair through the sessions. Their children hold the proofs:
--   OrgService/Activity, Sessions/Issuing, Revoking, Selecting, Rotation, SingleUse, Login and
--   Success, Otp/Refusals,
--   Lockout, Acceptance and Success, Invites/Acceptance, ApiTokens/Secrets and ApiTokens/RoundTrip,
--   Passwords/Authentication.
-- * token/ signs and verifies access tokens. Token/Base64 and Token/BigEndian are the parts of Go's
--   library that it uses; Token/Keys is `KeySet`, `Document` and `JWKSet.KeySet` of access.go,
--   Token/Claims the signing and parsing, and Token/Verifier the `RemoteVerifier`, with its
--   addresses in Verifier/Address. Keys/RoundTrip, Keys/Bounds, Claims/RoundTrip, Claims/Verified,
--   Verifier/Throttle, Verifier/Trust and Verifier/Outage hold the proofs. The service signs its
--   tokens with this package (`sign` of `Env`); the programs that use the service verify them.
-- * tenancy/ gives a request its organization: Tenancy has the context, the HTTP middleware,
--   the gRPC interceptor and `SetLocalOrg`, on the claims of Token/Claims; Tenancy/Requests holds
--   the proofs.
-- * internal/infrastructure/featureflags reads the platform's flags: FeatureFlags is client.go, and
--   FeatureFlags/Cache holds the proofs.
-- * Prelude holds Go's results, maps, sorting and text functions (Prelude/Cuts has the slices and
--   separators).
--
-- Choices. A time is a number of nanoseconds since Go's zero time, without an upper bound. A
-- time that the code sends to a column is cut to whole microseconds, and a zero time is sent as
-- NULL, which a column without NULL refuses. A Go map is an association list in
-- which the first entry of a key counts. Texts are lists of code points.
-- What the repository does not contain (uuid, bcrypt, crypto/rand, the clock, failures of the
-- database, delivery of notifications) is the record `Env` of functions. Most get the number of the
-- call, so that each call may answer differently. The identifiers in the tables are the results of
-- `uuid.Parse`.
-- A call runs without another in between, so the interleaving of transactions, which the row lock
-- on an organization orders, is not modelled. Each database call inside a transaction may fail, and
-- then it rolls back; a failed commit is taken as not committed. There is no loop with fuel: every
-- recursion is on a list or a text, but for the bytes of a number, which use that division by 256
-- gives a smaller number. In the token package the golang-jwt and uuid functions are the record
-- `Library`; what the clock and the server give a call of the remote verifier is its argument, and
-- the requests that it has sent are counted in the verifier.
--
-- Not modelled: sign-up, the demo users, the time of the last login, the table of feature flags, the
-- gRPC and HTTP adapters of the service, the reading of PEM files, generated code, the process
-- start, nil receivers, cancelled contexts and logging.
mod Prelude
pub mod Authorization
pub mod Domain
pub mod Runtime
pub mod Postgres
pub mod Application
pub mod Token
pub mod Tenancy
pub mod FeatureFlags
