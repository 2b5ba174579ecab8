-- ===== src/Tenancy/Requests.antt =====
-- Which organization the handler of a request meets, tenancy/.
use orbit_auth.Prelude.{
  ℕ, ◌≡◌, ◌≢◌, ◌≤◌, ◌<◌, refl, String, Bool, true, Option, none, some, List, ◌==◌, eq_iff, arith,
  lookup, Option-cases, Bool-cases, inl, inr, ap, ◌⊎◌, ◌∙◌,
}
use orbit_auth.Prelude.GoText.{trim_space}
use orbit_auth.Prelude.Results.{Result, ok, err, Result-cases}
use orbit_auth.Domain.{Time}
use orbit_auth.Token.Keys.{PublicKey, KeySet}
use orbit_auth.Token.Claims.{
  AccessClaims, Library, parse_access_token, sign_access_token_with_org, organization_id,
}
use orbit_auth.Token.Claims.RoundTrip.{IsStandard, parse_access_token-sign}
use orbit_auth.Tenancy.{
  nil_uuid, is_org_required, Context, with_org, org_from, Options, new_options, resolve_org,
  Response, error_response, next_response, json_error, Request, require_org, Code, unauthenticated,
  permission_denied, Status, unary_server_interceptor, set_local_org, executed,
}

org_from-with_org :
    {R : Type 0} (ctx : Context R) (org_id : String)
    → org_id ≢ nil_uuid
    → org_from (with_org ctx org_id) ≡ some org_id
unfolding org_from with_org
org_from-with_org ctx org_id real = ground (arith, eq_iff org_id nil_uuid)

set_local_org-with_org :
    {R S : Type 0} (exec : String → Option S) (ctx : Context R) (org_id : String)
    → org_id ≢ nil_uuid
    → set_local_org exec (with_org ctx org_id) ≡ executed (exec org_id)
unfolding set_local_org
set_local_org-with_org exec ctx org_id real = rw (org_from-with_org ctx org_id real) refl

http_status : Code → ℕ
http_status unauthenticated = 401
http_status permission_denied = 403

-- Both handlers ran with equal answers, or both refused with one reason.
pub Agrees : {A : Type 0} → Response A → Result Status A → Type 0
Agrees (next_response a) (ok b) = a ≡ b
Agrees (next_response a) (err s) = ⊥
Agrees (error_response status body) (ok b) = ⊥
Agrees (error_response status body) (err s) =
    (status ≡ http_status s.code) × (body ≡ json_error s.message)

-- The function of claims on a request that looks at its context.
abbrev pub of_context :
    {R B : Type 0}
    → Option (Context R → AccessClaims × Bool)
    → Option (Request R B → AccessClaims × Bool)
of_context none = none
of_context (some claims) = some (λ r. claims r.context)

module _ (lib : Library) where
  -- The claim names the organization, or there is none and the fallback is meant.
  abbrev pub IsNamed : AccessClaims → String → String → Type 0
  IsNamed claims fallback org_id =
      (lib.parse_uuid (trim_space claims.org_id) ≡ some org_id)
      ⊎ ((trim_space claims.org_id ≡ "") × (fallback ≡ org_id))

  resolve_org-ok :
      (claims : AccessClaims) (fallback org_id : String)
      → resolve_org lib claims fallback ≡ ok org_id
      → (org_id ≢ nil_uuid) × IsNamed claims fallback org_id
  unfolding resolve_org
  resolve_org-ok claims fallback org_id h =
      elim (Option-cases (lib.parse_uuid (trim_space claims.org_id))) [
        | inl e ↦ elim (Bool-cases (trim_space claims.org_id == "")) [
          | inl f ↦ (
            λ n. ground (arith, eq_iff fallback nil_uuid),
            inr (ground (arith, eq_iff (trim_space claims.org_id) ""), ground arith),
          )
          | inr f ↦ absurd (ground arith)
        ]
        | inr (id, e) ↦ elim (Bool-cases (trim_space claims.org_id == "")) [
          | inl f ↦ (
            λ n. ground (arith, eq_iff fallback nil_uuid),
            inr (ground (arith, eq_iff (trim_space claims.org_id) ""), ground arith),
          )
          | inr f ↦ (λ n. ground (arith, eq_iff id nil_uuid), inl (e ∙ ap some (ground arith)))
        ]
      ]

  resolve_org-organization_id :
      (claims : AccessClaims) (fallback org_id : String)
      → organization_id lib claims ≡ some org_id
      → org_id ≢ nil_uuid
      → resolve_org lib claims fallback ≡ ok org_id
  unfolding resolve_org organization_id
  resolve_org-organization_id claims fallback org_id h real =
      elim (Bool-cases (trim_space claims.org_id == "")) [
        | inl f ↦ absurd (ground arith)
        | inr f ↦
            let parsed : lib.parse_uuid (trim_space claims.org_id) ≡ some org_id =
              ground (arith, h, f) in
            rw f (rw parsed (ground (arith, eq_iff org_id nil_uuid)))
      ]

  module _ {R B A : Type 0} where
    -- The handler ran, in the request's context with an organization that the claims name.
    pub record Admitted (claims : Request R B → AccessClaims × Bool)
        (opts : List (Option (Options → Options))) (next : Request R B → A) (r : Request R B)
        (a : A) : Type 0 where
      pub org_id : String
      pub verified : (claims r).1 ≡ true
      pub named : IsNamed (claims r).0 (new_options opts).fallback_org org_id
      pub carried : org_from (with_org r.context org_id) ≡ some org_id
      pub answer : a ≡ next (record r { context = with_org r.context org_id })

    -- When RequireOrg runs the handler, the claims are verified, and the handler runs on the
    -- request with a context from which OrgFrom gives an organization, which is the UUID that the
    -- claim names, or the configured fallback when the claim is blank.
    pub require_org-Admitted :
        (claims : Request R B → AccessClaims × Bool) (opts : List (Option (Options → Options)))
        (next : Request R B → A) (r : Request R B) (a : A)
        → require_org lib (some claims) opts next r ≡ next_response a
        → Admitted claims opts next r a
    unfolding require_org
    require_org-Admitted claims opts next r a h =
        elim (Result-cases (resolve_org lib (claims r).0 (new_options opts).fallback_org)) [
          | inr (e, f) ↦ absurd (ground arith)
          | inl (org_id, f) ↦
              let (real, named) =
                resolve_org-ok (claims r).0 (new_options opts).fallback_org org_id f in
              record {
                org_id = org_id;
                verified = ground arith;
                named = named;
                carried = org_from-with_org r.context org_id real;
                answer = ground arith;
              }
        ]

  -- With a JWT and a UUID library that work as documented, a token that SignAccessTokenWithOrg
  -- signs for an organization other than uuid.Nil is accepted by ParseAccessToken while it is valid
  -- and its key is known; with the claims that this gives RequireOrg runs the handler, whatever its
  -- options, in a context for which SetLocalOrg executes its statement with the UUID of that
  -- organization.
  pub require_org-signed :
      {R B A S : Type 0} (public_key : lib.PrivateKey → PublicKey)
      (standard : IsStandard lib public_key) (signed_at now : Time) (key : lib.PrivateKey)
      (key_id subject org_id : String) (expires : Time) (raw id : String) (keys : KeySet)
      (opts : List (Option (Options → Options))) (next : Request R B → A) (r : Request R B)
      (exec : String → Option S)
      → sign_access_token_with_org lib signed_at (some key) key_id subject org_id expires ≡ ok raw
      → lookup (trim_space key_id) keys ≡ some (public_key key)
      → lib.numeric_date signed_at ≤ now
      → now < lib.numeric_date expires
      → trim_space org_id ≢ ""
      → lib.parse_uuid (trim_space org_id) ≡ some id
      → id ≢ nil_uuid
      → (claims : AccessClaims) × (parse_access_token lib now raw keys ≡ ok claims)
        × (require_org lib (some (λ x. (claims, true))) opts next r
            ≡ next_response (next (record r { context = with_org r.context id })))
        × (set_local_org exec (with_org r.context id) ≡ executed (exec id))
  unfolding require_org
  require_org-signed public_key standard signed_at now key key_id subject org_id expires raw id keys
        opts next r exec h found begun running given parsed real =
      let (claims, accepted, subject_kept, expiry_kept, org) =
        parse_access_token-sign lib public_key standard signed_at now key key_id subject org_id
          expires raw keys h found begun running in
      let named : organization_id lib claims ≡ some id =
        ground (arith, org, parsed, given, eq_iff (trim_space org_id) "") in
      (
        claims,
        accepted,
        rw (resolve_org-organization_id claims (new_options opts).fallback_org id named real) refl,
        set_local_org-with_org exec r.context id real,
      )

  module _ {R B A : Type 0} where
    -- For functions of claims that look at the same context, or for none, and handlers that do the
    -- same and do not fail, the middleware and the gRPC interceptor agree: both run the handler
    -- with equal answers, or both refuse with one reason, 401 for unauthenticated and 403 for
    -- permission denied.
    pub require_org-interceptor :
        (claims : Option (Context R → AccessClaims × Bool))
        (opts : List (Option (Options → Options))) (next : Request R B → A) (r : Request R B)
        → Agrees (require_org lib (of_context claims) opts next r) (
            unary_server_interceptor lib claims opts r.context r.content
              (λ ctx req. ok (next (record { context = ctx; content = req }))))
    unfolding require_org unary_server_interceptor Agrees http_status
    require_org-interceptor none opts next r = (refl, refl)
    require_org-interceptor (some claims) opts next r = elim (Bool-cases (claims r.context).1) [
      | inr e ↦ rw e (refl, refl)
      | inl e ↦
          rw e
            (elim (Result-cases
              (resolve_org lib (claims r.context).0 (new_options opts).fallback_org)) [
                | inl (org_id, f) ↦ rw f refl
                | inr (x, f) ↦ rw f (elim (Bool-cases (is_org_required x)) [
                  | inl g ↦ rw g (refl, refl)
                  | inr g ↦ rw g (refl, refl)
                ])
              ])
    ]
