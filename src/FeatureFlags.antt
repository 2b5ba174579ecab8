-- ===== src/FeatureFlags.antt =====
-- The client of the flags endpoint, internal/infrastructure/featureflags/client.go.
pub mod Cache
mod Tests
use orbit_auth.Prelude.{
  ℕ, ◌+◌, ◌-◌, String, Bool, true, false, not, ◌||◌, Option, none, some, List, [], ◌∷◌, ◌==◌,
  lookup, insert, eqb, if◌then◌else◌,
}
use orbit_auth.Prelude.GoText.{trim_space}

pub record FlagRecord : Type 0 where
  pub name : String
  pub enabled : Bool
  pub description : String

-- What a request to the endpoint meets: no answer, or a status and the document of the body, none
-- when it cannot be decoded.
pub data Answer : Type 0 where
  no_answer : Answer
  answered : ℕ → Option (List FlagRecord) → Answer

-- The cached flags, whether `cancel` is set, and how many refresh loops run.
pub record PlatformProvider : Type 0 where
  pub flags : List (String × Bool)
  pub cancel : Bool
  pub loops : ℕ

abbrev pub new_platform_provider : PlatformProvider
new_platform_provider = record { flags = []; cancel = false; loops = 0 }

add_flags : List (String × Bool) → List FlagRecord → List (String × Bool)
add_flags next [] = next
add_flags next (flag ∷ doc) = add_flags (insert flag.name flag.enabled next) doc

decoded : Option (List FlagRecord) → PlatformProvider → PlatformProvider
decoded none p = p
decoded (some doc) p = record p { flags = add_flags [] doc }

unfoldable pub refresh : Answer → PlatformProvider → PlatformProvider
unfolding decoded add_flags
refresh no_answer p = p
refresh (answered status body) p = if eqb status 200 then decoded body p else p

-- Init, with the answer to its request. A loop that runs already goes on.
unfoldable pub init : Answer → PlatformProvider → PlatformProvider
init a p = record (refresh a (record p { cancel = true })) { loops = p.loops + 1 }

-- Shutdown: the loop that the last Init started ends.
unfoldable pub shutdown : PlatformProvider → PlatformProvider
shutdown p = if p.cancel then record p { cancel = false; loops = p.loops - 1 } else p

-- One tick of a refresh loop, if any runs.
unfoldable pub refresh_loop : Answer → PlatformProvider → PlatformProvider
refresh_loop a p = if eqb p.loops 0 then p else refresh a p

pub data Event : Type 0 where
  initialising : Answer → Event
  ticking : Answer → Event
  shutting_down : Event

abbrev pub perform : Event → PlatformProvider → PlatformProvider
perform (initialising a) p = init a p
perform (ticking a) p = refresh_loop a p
perform shutting_down p = shutdown p

unfoldable pub run : List Event → PlatformProvider → PlatformProvider
run [] p = p
run (e ∷ l) p = run l (perform e p)

pub data Reason : Type 0 where
  static_reason : Reason
  default_reason : Reason

pub record Resolution (A : Type 0) : Type 0 where
  pub value : A
  pub reason : Reason

abbrev pub resolution : Bool → Option Bool → Resolution Bool
resolution default_value none = record { value = default_value; reason = default_reason }
resolution default_value (some value) = record { value = value; reason = static_reason }

unfoldable pub boolean_evaluation : PlatformProvider → String → Bool → Resolution Bool
boolean_evaluation p flag default_value = resolution default_value (lookup flag p.flags)

-- StringEvaluation, FloatEvaluation, IntEvaluation and ObjectEvaluation.
abbrev pub default_evaluation : {A : Type 0} → PlatformProvider → String → A → Resolution A
default_evaluation p flag default_value = record { value = default_value; reason = default_reason }

-- `equal_fold` is strings.EqualFold.
unfoldable pub is_disabled_url : (String → String → Bool) → String → Bool
is_disabled_url equal_fold url =
    equal_fold (trim_space url) "off" || equal_fold (trim_space url) "disabled"

-- The client is the SDK's BooleanValue, which may fail.
pub record Evaluator : Type 0 where
  pub client : Option (String → Bool → Option Bool)

abbrev value_or : Bool → Option Bool → Bool
value_or default_val none = default_val
value_or default_val (some val) = val

abbrev asked : Option (String → Bool → Option Bool) → String → Bool → Bool
asked none flag default_val = default_val
asked (some client) flag default_val = value_or default_val (client flag default_val)

-- Bool
unfoldable pub bool : Evaluator → String → Bool → Bool
bool e flag default_val = asked e.client flag default_val

abbrev env_or : String → String → String
env_or v fallback = if v == "" then fallback else v

-- NewFromEnv: `flags_url` is the variable of the environment, and `set_provider` what the SDK gives
-- for the provider at that address, none when it refuses it.
unfoldable pub new_from_env :
    (String → String → Bool) → String → (String → Option (String → Bool → Option Bool)) → Evaluator
unfolding is_disabled_url
new_from_env equal_fold flags_url set_provider =
    let url = env_or flags_url "http://localhost:10011/v1/flags" in
    if is_disabled_url equal_fold url
    then record { client = none }
    else record { client = set_provider url }
