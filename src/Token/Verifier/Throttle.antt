-- ===== src/Token/Verifier/Throttle.antt =====
-- How often the remote verifier of token/access.go asks for the key set.
use orbit_auth.Prelude.{
  ℕ, ◌+◌, ◌*◌, ◌≤◌, ◌<◌, ◌≡◌, String, ◌&&◌, List, [], ◌∷◌, All, arith, if◌then◌else◌, leb, ltb, inl,
  inr,
}
use orbit_auth.Prelude.Results.{Result-cases}
use orbit_auth.Domain.{Time, second}
use orbit_auth.Token.Claims.{Library, token_key_id}
use orbit_auth.Token.Verifier.{
  Verifier, Moment, read_response, refresh, may_repeat, is_unknown, refreshes, attempted, find_key,
  parse_remote, Call, after_calls,
}

module _ (lib : Library) where
  module _ (from : Time) where
    -- A time in the window of 15 seconds.
    abbrev pub IsNear : Call → Type 0
    IsNear (m, raw) = (from ≤ m.now) × (m.now < from + 15 * second)

    -- One while the time does not lie in the window.
    left : Time → ℕ
    left t = if leb from t && ltb t (from + 15 * second) then 0 else 1

    -- The requests sent, and those that the two attempt times still allow.
    budget : Verifier → ℕ
    unfolding left
    budget v = v.requests + (left v.last_refresh_attempt + left v.last_unknown_refresh)

    budget-refresh : (m : Moment) (v : Verifier) → budget (refresh m v).1 ≡ budget v + 1
    unfolding budget refresh
    budget-refresh m v = elim (Result-cases (read_response m.response)) [
      | inl (keys, e) ↦ rw (e, refresh) (omega arith)
      | inr (e, f) ↦ rw (f, refresh) (omega arith)
    ]

    find_key-budget :
        (pos : 0 < from) (m : Moment) (key_id : String) (v : Verifier)
        → IsNear (m, "")
        → budget (find_key m key_id v).1 ≤ budget v
    unfolding find_key refreshes may_repeat is_unknown attempted budget
    find_key-budget pos m key_id v near =
        ground (arith, budget-refresh m (attempted m.now key_id v))

    parse_remote-budget :
        (pos : 0 < from) (m : Moment) (raw : String) (v : Verifier)
        → IsNear (m, raw)
        → budget (parse_remote lib m raw v).1 ≤ budget v
    unfolding parse_remote
    parse_remote-budget pos m raw v near = elim (Result-cases (token_key_id lib raw)) [
      | inl (key_id, e) ↦ rw (e, parse_remote) (find_key-budget pos m key_id v near)
      | inr (e, f) ↦ rw (f, parse_remote) (omega arith)
    ]

    after_calls-budget :
        (pos : 0 < from) (calls : List Call) (v : Verifier)
        → All IsNear calls
        → budget (after_calls lib calls v) ≤ budget v
    unfolding after_calls
    after_calls-budget pos [] v near = omega arith
    after_calls-budget pos ((m, raw) ∷ calls) v (near, rest) = omega (
      arith,
      parse_remote-budget pos m raw v near,
      after_calls-budget pos calls (parse_remote lib m raw v).1 rest,
    )

    -- Calls to a remote verifier in any state, whose clocks all lie in one window of 15 seconds
    -- after the zero time, send two requests at most, whatever tokens they carry and whatever the
    -- server answers.
    pub requests-le :
        (pos : 0 < from) (calls : List Call) (v : Verifier)
        → All IsNear calls
        → (after_calls lib calls v).requests ≤ v.requests + 2
    unfolding budget
    requests-le pos calls v near = ground (arith, after_calls-budget pos calls v near)
