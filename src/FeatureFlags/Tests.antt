-- ===== src/FeatureFlags/Tests.antt =====
-- Runs of the client of the flags endpoint, and the theorem on one.
use orbit_auth.Prelude.{◌≡◌, refl, true, false, some, none, List, [], ◌∷◌, lookup, insert}
use orbit_auth.FeatureFlags.{
  FlagRecord, no_answer, answered, new_platform_provider, refresh, init, shutdown, refresh_loop,
  Event, initialising, ticking, shutting_down, run, static_reason, boolean_evaluation,
}
use orbit_auth.FeatureFlags.Cache.{all_quiet, last_enabled, boolean_evaluation-run}

abbrev doc : List FlagRecord
doc =
    record { name = "otp"; enabled = false; description = "" }
    ∷ record { name = "invites"; enabled = false; description = "" }
    ∷ record { name = "otp"; enabled = true; description = "again" }
    ∷ []

abbrev outage : List Event
outage = ticking no_answer ∷ ticking (answered 500 none) ∷ shutting_down ∷ []

starts :
    boolean_evaluation
      (run (initialising (answered 200 (some doc)) ∷ outage) new_platform_provider)
      "otp"
      false
    ≡ record { value = true; reason = static_reason }
unfolding boolean_evaluation run init shutdown refresh_loop refresh lookup insert
starts = refl

boolean_evaluation-run_example :
    boolean_evaluation
      (run outage (refresh (answered 200 (some doc)) new_platform_provider))
      "otp"
      false
    ≡ record { value = true; reason = static_reason }
unfolding last_enabled all_quiet
boolean_evaluation-run_example =
    boolean_evaluation-run doc new_platform_provider outage "otp" false refl
