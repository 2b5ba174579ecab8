-- ===== src/Tenancy/Tests.antt =====
-- Runs of the middleware and the interceptor of tenancy/, and the theorems on them.
use orbit_auth.Prelude.{
  ◌*◌, ◌≡◌, ◌≢◌, refl, String, Bool, true, Option, none, some, List, [], ◌∷◌, eq_iff, arith, lookup,
}
use orbit_auth.Prelude.GoText.{trim_space}
use orbit_auth.Prelude.Results.{ok}
use orbit_auth.Domain.{second}
use orbit_auth.Token.Claims.{AccessClaims, parse_access_token}
use orbit_auth.Token.Tests.Keys.{key, keys}
use orbit_auth.Token.Tests.Tokens.{claims_1, lib_ok, lib_ok-IsStandard, signs}
use orbit_auth.Tenancy.{
  nil_uuid, Context, with_org, org_from, with_fallback_org, Options, new_options, resolve_org,
  error_response, next_response, json_error, Request, require_org, unary_server_interceptor,
  set_local_org,
}
use orbit_auth.Tenancy.Requests.{
  Admitted, require_org-Admitted, require_org-signed, require_org-interceptor, Agrees, of_context,
}

abbrev request : Request String String
request = record {
  context = record { organization = none; other = "trace" };
  content = "list orders";
}

-- The organization that the handler meets.
abbrev handler : Request String String → Option String
handler r = org_from r.context

abbrev verified : Request String String → AccessClaims × Bool
verified r = (claims_1, true)

abbrev fallback : List (Option (Options → Options))
fallback = none ∷ some (with_fallback_org "v") ∷ []

serves : require_org lib_ok (some verified) fallback handler request ≡ next_response (some "u")
unfolding require_org resolve_org with_org org_from new_options trim_space
serves = refl

falls_back :
    require_org lib_ok
      (some (λ r. (record claims_1 { org_id = " " }, true)))
      fallback
      handler
      request
    ≡ next_response (some "v")
unfolding require_org resolve_org with_org org_from new_options trim_space
falls_back = refl

refuses_malformed :
    require_org lib_ok
      (some (λ r. (record claims_1 { org_id = "x" }, true)))
      fallback
      handler
      request
    ≡ error_response 401 (json_error "invalid_org")
unfolding require_org resolve_org new_options trim_space
refuses_malformed = refl

require_org-Admitted_example : Admitted lib_ok verified fallback handler request (some "u")
require_org-Admitted_example =
    require_org-Admitted lib_ok verified fallback handler request (some "u") serves

real : "u" ≢ nil_uuid
real e = ground (arith, eq_iff "u" nil_uuid)

present : trim_space "u" ≢ ""
unfolding trim_space
present e = ground (arith, eq_iff "u" "")

require_org-signed_example :
    (claims : AccessClaims) × (parse_access_token lib_ok (50 * second) "t" keys ≡ ok claims)
    × (require_org lib_ok (some (λ x. (claims, true))) fallback handler request
        ≡ next_response (handler (record request { context = with_org request.context "u" })))
    × (set_local_org (λ org. some org) (with_org request.context "u") ≡ ok "u")
unfolding trim_space lookup
require_org-signed_example =
    require_org-signed lib_ok (λ k. key) lib_ok-IsStandard (10 * second) (50 * second) tt " k1"
      "ann " "u" (100 * second) "t" "u" keys fallback handler request (λ org. some org) signs refl
      (omega arith) (omega arith) present refl real

abbrev claims_of : Option (Context String → AccessClaims × Bool)
claims_of = some (λ ctx. (claims_1, true))

require_org-interceptor_example :
    Agrees (require_org lib_ok (of_context claims_of) fallback handler request) (
      unary_server_interceptor lib_ok claims_of fallback request.context request.content
        (λ ctx req. ok (handler (record { context = ctx; content = req }))))
require_org-interceptor_example = require_org-interceptor lib_ok claims_of fallback handler request
