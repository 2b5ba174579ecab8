-- ===== src/Tenancy.antt =====
-- The public `tenancy` package, tenancy/: the organization of a request.
pub mod Requests
mod Tests
use Prim.Native.String.{◌++◌}
use orbit_auth.Prelude.{
  ℕ, String, Bool, true, false, Option, none, some, List, [], ◌∷◌, ◌==◌, if◌then◌else◌,
}
use orbit_auth.Prelude.GoText.{trim_space}
use orbit_auth.Prelude.Results.{Result, ok, err}
use orbit_auth.Token.Claims.{AccessClaims, Library}

-- uuid.Nil in the form in which a UUID is printed, which stands for the UUID.
abbrev pub nil_uuid : String
nil_uuid = "00000000-0000-0000-0000-000000000000"

pub data TenancyError : Type 0 where
  org_required : TenancyError
  org_malformed : TenancyError
  exec_failed : TenancyError

-- `errors.Is(err, ErrOrgRequired)`
abbrev pub is_org_required : TenancyError → Bool
is_org_required org_required = true
is_org_required org_malformed = false
is_org_required exec_failed = false

-- The value at `orgContextKey`, if one is set, and all else of a context.
pub record Context (R : Type 0) : Type 0 where
  pub organization : Option String
  pub other : R

abbrev pub unless_nil : Option String → Option String
unless_nil none = none
unless_nil (some org_id) = if org_id == nil_uuid then none else some org_id

module _ {R : Type 0} where
  unfoldable pub with_org : Context R → String → Context R
  with_org ctx org_id =
      if org_id == nil_uuid
      then record ctx { organization = some nil_uuid }
      else record ctx { organization = some org_id }

  -- The answer `uuid.Nil, false` is none.
  unfoldable pub org_from : Context R → Option String
  org_from ctx = unless_nil ctx.organization

pub data Panic : Type 0 where
  org_not_in_context : Panic

abbrev org_or_panic : Option String → Result Panic String
org_or_panic none = err org_not_in_context
org_or_panic (some org_id) = ok org_id

-- MustOrg
unfoldable pub must_org : {R : Type 0} → Context R → Result Panic String
must_org ctx = org_or_panic (org_from ctx)

-- The fields of `options`.
pub record Options : Type 0 where
  pub fallback_org : String

abbrev pub with_fallback_org : String → Options → Options
with_fallback_org org_id cfg = record cfg { fallback_org = org_id }

abbrev apply_option : Option (Options → Options) → Options → Options
apply_option none cfg = cfg
apply_option (some option) cfg = option cfg

apply_options : Options → List (Option (Options → Options)) → Options
apply_options cfg [] = cfg
apply_options cfg (option ∷ opts) = apply_options (apply_option option cfg) opts

-- A nil option is none.
unfoldable pub new_options : List (Option (Options → Options)) → Options
unfolding apply_options
new_options opts = apply_options (record { fallback_org = nil_uuid }) opts

-- A handler's answer, or the status and the body of an error.
pub data Response (A : Type 0) : Type 0 where
  error_response : ℕ → String → Response A
  next_response : A → Response A

abbrev pub json_error : String → String
json_error code = "{\"error\":\"" ++ (code ++ "\"}")

pub record Request (R B : Type 0) : Type 0 where
  pub context : Context R
  pub content : B

pub data Code : Type 0 where
  unauthenticated : Code
  permission_denied : Code

pub record Status : Type 0 where
  pub code : Code
  pub message : String

module _ (lib : Library) where
  abbrev parsed_org : Option String → Result TenancyError String
  parsed_org none = err org_malformed
  parsed_org (some org_id) = if org_id == nil_uuid then err org_malformed else ok org_id

  unfoldable pub resolve_org : AccessClaims → String → Result TenancyError String
  resolve_org claims fallback_org =
      if trim_space claims.org_id == ""
      then (if fallback_org == nil_uuid then err org_required else ok fallback_org)
      else parsed_org (lib.parse_uuid (trim_space claims.org_id))

  module _ {R B A : Type 0} where
    abbrev serve_http : (Request R B → A) → Request R B → Result TenancyError String → Response A
    serve_http next r (ok org_id) =
        next_response (next (record r { context = with_org r.context org_id }))
    serve_http next r (err e) =
        if is_org_required e
        then error_response 403 (json_error "org_required")
        else error_response 401 (json_error "invalid_org")

    abbrev claimed_http :
        String → (Request R B → A) → Request R B → AccessClaims × Bool → Response A
    claimed_http fallback next r (verified, true) =
        serve_http next r (resolve_org verified fallback)
    claimed_http fallback next r (verified, false) =
        error_response 401 (json_error "unauthenticated")

    -- RequireOrg; a nil function of claims is none.
    unfoldable pub require_org :
        Option (Request R B → AccessClaims × Bool)
        → List (Option (Options → Options))
        → (Request R B → A)
        → Request R B
        → Response A
    require_org none opts next r = error_response 401 (json_error "unauthenticated")
    require_org (some claims) opts next r =
        claimed_http (new_options opts).fallback_org next r (claims r)

  module _ {R B A : Type 0} where
    abbrev serve_grpc :
        Context R
        → B
        → (Context R → B → Result Status A)
        → Result TenancyError String
        → Result Status A
    serve_grpc ctx req handler (ok org_id) = handler (with_org ctx org_id) req
    serve_grpc ctx req handler (err e) =
        if is_org_required e
        then err (record { code = permission_denied; message = "org_required" })
        else err (record { code = unauthenticated; message = "invalid_org" })

    abbrev claimed_grpc :
        String
        → Context R
        → B
        → (Context R → B → Result Status A)
        → AccessClaims × Bool
        → Result Status A
    claimed_grpc fallback ctx req handler (verified, true) =
        serve_grpc ctx req handler (resolve_org verified fallback)
    claimed_grpc fallback ctx req handler (verified, false) =
        err (record { code = unauthenticated; message = "unauthenticated" })

    -- UnaryServerInterceptor
    unfoldable pub unary_server_interceptor :
        Option (Context R → AccessClaims × Bool)
        → List (Option (Options → Options))
        → Context R
        → B
        → (Context R → B → Result Status A)
        → Result Status A
    unary_server_interceptor none opts ctx req handler =
        err (record { code = unauthenticated; message = "unauthenticated" })
    unary_server_interceptor (some claims) opts ctx req handler =
        claimed_grpc (new_options opts).fallback_org ctx req handler (claims ctx)

abbrev org_attrs : Option String → List (String × String)
org_attrs none = []
org_attrs (some org_id) = ("org_id", org_id) ∷ []

-- LogAttrs
unfoldable pub log_attrs : {R : Type 0} → Context R → List (String × String)
log_attrs ctx = org_attrs (org_from ctx)

module _ {S : Type 0} where
  abbrev pub executed : Option S → Result TenancyError S
  executed none = err exec_failed
  executed (some s) = ok s

  abbrev local_org : (String → Option S) → Option String → Result TenancyError S
  local_org exec none = err org_required
  local_org exec (some org_id) = executed (exec org_id)

  -- SetLocalOrg; `exec` runs set_config('app.org_id', $1, true) and gives the new session.
  unfoldable pub set_local_org :
      {R : Type 0} → (String → Option S) → Context R → Result TenancyError S
  set_local_org exec ctx = local_org exec (org_from ctx)
